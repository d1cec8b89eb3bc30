-- ===== src/Merkle/Inclusion.antt =====
-- `_build_merkle_batch` and `_fetch_proof_hashes` together.
use Prim.Native.String.{String}
use mathlib.Core.Option
use omni_aegis.Prelude.{
  ℕ, zero, suc, ◌+◌, ◌<◌, ◌≡◌, refl, ap, List, [], ◌∷◌, Option, some, length, get_elem?, arith, inl,
  inr, length-map, Option-cases,
}
use omni_aegis.Merkle.{
  Bytes, Digests, hash, Outcome, ok, raise, key_error, ◌>>=◌, DecisionLeaf, MerkleBatch, MerkleNode,
  leaf_hashes, index_map, levels_from, last_head, build_merkle_batch, node_rows, fetch_node_hash,
  proof_loop, proof_hashes, fetch_proof_hashes, stored_node_hash, flip_low_bit,
}
use omni_aegis.Merkle.Levels.{
  tree, root_of, levels_from-tree, last_head-tree, length-tree-le, tree_cons,
}
use omni_aegis.Merkle.Proof.{climb, proof_hashes-climb}
use omni_aegis.Merkle.Rows.{find_row, found_hash-node_rows, hash_at}

get_elem?-leaf_hashes :
    {Float : Type 0} (leaves : List (DecisionLeaf Float)) (i : ℕ) (leaf : DecisionLeaf Float)
    → get_elem? leaves i ≡ some leaf
    → (get_elem? (leaf_hashes leaves) i ≡ some leaf.leaf_hash) × (i < length (leaf_hashes leaves))
get_elem?-leaf_hashes [] i leaf e = cc
get_elem?-leaf_hashes (l ∷ ls) zero leaf e = (ap (Option.map (λ r. r.leaf_hash)) e, omega arith)
get_elem?-leaf_hashes (l ∷ ls) (suc i) leaf e =
    let (found, below) = get_elem?-leaf_hashes ls i leaf e in (found, omega arith)

module _ {Float : Type 0} (dg : Digests) (algorithm : String) (h : Bytes → Bytes)
    (supported : (b : Bytes) → hash dg algorithm b ≡ ok (h b)) (prefix : String) (now : ℕ)
    (batch_id : String) (leaves : List (DecisionLeaf Float)) (window_start window_end : ℕ) where
  -- The batch that is built.
  abbrev pub built : MerkleBatch
  built = record {
    batch_id = batch_id;
    window_start = window_start;
    window_end = window_end;
    leaf_count = length leaves;
    merkle_root = root_of h (length leaves) (leaf_hashes leaves);
    manifest_uri = omni_aegis.Merkle.manifest_uri prefix batch_id;
    hash_algorithm = algorithm;
    created_at = now;
  }

  levels_built :
      levels_from (hash dg algorithm) (length leaves) (leaf_hashes leaves)
      ≡ ok (tree h (length leaves) (leaf_hashes leaves))
  levels_built =
      levels_from-tree h (hash dg algorithm) supported (length leaves) (leaf_hashes leaves)
        (omega (arith, length-map leaves (λ (leaf : DecisionLeaf Float). leaf.leaf_hash)))

  -- Building a batch of at least one decision with a supported digest returns: the loop ends, no
  -- index is out of range, and the root is the one hash of the last level.
  pub build_merkle_batch-ok :
      0 < length leaves
      → build_merkle_batch dg algorithm prefix now batch_id leaves window_start window_end
        ≡ ok (built, tree h (length leaves) (leaf_hashes leaves), index_map 0 leaves [])
  unfolding build_merkle_batch
  build_merkle_batch-ok some_leaf =
      let n = length-map leaves (λ (leaf : DecisionLeaf Float). leaf.leaf_hash) in
      rw (
        levels_built,
        last_head-tree h (length leaves) (leaf_hashes leaves) (omega (arith, n)) (omega (arith, n)),
      )

  module _ (select_node : ℕ → ℕ → Option MerkleNode)
      (stored : (l p : ℕ)
        → select_node l p
          ≡ find_row l p (node_rows leaves (tree h (length leaves) (leaf_hashes leaves)))) where
    stored_hash :
        (l p : ℕ)
        → Option.map (λ row. row.node_hash) (select_node l p)
          ≡ hash_at (tree h (length leaves) (leaf_hashes leaves)) l p
    stored_hash l p =
        rw (stored l p)
          (found_hash-node_rows leaves (tree h (length leaves) (leaf_hashes leaves)) l p)

    -- The rows that are persisted for a batch suffice to prove its decisions: for every decision of
    -- the batch, the loop of `_fetch_proof_hashes` over the hashes in those rows, each read by the
    -- column's name `node_hash`, ends on fuel for the leaves with hashes along which a verifier climbs
    -- from the decision's leaf hash to the batch's Merkle root.
    pub inclusion :
        (i : ℕ) (leaf : DecisionLeaf Float)
        → get_elem? leaves i ≡ some leaf
        → (proof : List (Option Bytes)) × (proof_hashes
              (stored_node_hash select_node)
              (length leaves + 1)
              i
            ≡ ok proof)
          × (climb h i leaf.leaf_hash proof ≡ some built.merkle_root)
    inclusion i leaf e =
        let (found, below) = get_elem?-leaf_hashes leaves i leaf e in
        let n = length-map leaves (λ (leaf : DecisionLeaf Float). leaf.leaf_hash) in
        proof_hashes-climb select_node (tree h (length leaves) (leaf_hashes leaves)) stored_hash h
          (length leaves) (leaf_hashes leaves) i (length leaves + 1) leaf.leaf_hash refl
          (omega (arith, n)) (omega (arith, length-tree-le h (length leaves) (leaf_hashes leaves)))
          below found

    leaf_row :
        (i : ℕ) (leaf : DecisionLeaf Float)
        → get_elem? leaves i ≡ some leaf
        → (row : MerkleNode) × (select_node 0 i ≡ some row)
    leaf_row i leaf e = elim (Option-cases (select_node 0 i)) [
      | inl missing ↦
          let (ys, cons) = tree_cons h (length leaves) (leaf_hashes leaves) in
          let stored' = rw (missing, cons) at (stored_hash 0 i) in
          cc (stored', (get_elem?-leaf_hashes leaves i leaf e).0)
      | inr found ↦ found
    ]

    -- `row[0]` is a key that no row of the pool has: reading the proof of a decision whose batch is
    -- persisted ends in a `KeyError`.
    pub fetch_proof_hashes-key_error :
        (i fuel : ℕ) (leaf : DecisionLeaf Float)
        → get_elem? leaves i ≡ some leaf
        → fetch_proof_hashes select_node (suc fuel) i ≡ raise key_error
    unfolding fetch_proof_hashes proof_hashes proof_loop fetch_node_hash
    fetch_proof_hashes-key_error i fuel leaf e =
        let (row, here) = leaf_row i leaf e in
        elim (Option-cases (select_node 0 (flip_low_bit i))) [
          | inl alone ↦ rw (fetch_node_hash, alone, here)
          | inr (sibling, beside) ↦ rw (fetch_node_hash, beside)
        ]
