-- ===== src/Windows/Proofs.antt =====
-- The inclusion proofs of the decisions that a cycle batched.
use Prim.Native.String.{String}
use text.Mathlib.Text.{◌==◌ as str_eq}
use mathlib.Core.Option
use mathlib.Core.Path.{subst}
use omni_aegis.Prelude.{
  ℕ, suc, ◌+◌, ◌<◌, ◌≡◌, refl, sym, ap, ◌∙◌, Bool, true, false, inl, inr, List, [], ◌∷◌, ◌++◌, map,
  Option, none, some, if◌then◌else◌, length, arith, Bool-cases,
}
use omni_aegis.Prelude.Dict.{Dict, str_eq_refl}
use omni_aegis.Merkle.{
  Bytes, ok, raise, key_error, Digests, hash, DecisionLeaf, MerkleBatch, leaf_hashes, index_map,
  node_rows, fetch_proof_hashes, proof_hashes, stored_node_hash,
}
use omni_aegis.Merkle.Inclusion.{
  built, build_merkle_batch-ok, inclusion, fetch_proof_hashes-key_error,
}
use omni_aegis.Merkle.Levels.{tree}
use omni_aegis.Merkle.Proof.{climb}
use omni_aegis.Windows.{
  State, BatchStatus, BatchRow, DecisionRow, fetch_decision_with_batch, in_window, select_node,
  has_batch, insert_batch, update_rows, insert_nodes, marked_row, persist_batch,
  store_window_cursor,
}
use omni_aegis.Windows.Loop.{Config, Answers, anchor_pending_window}
use omni_aegis.Windows.Lookup.{
  fetch_batch_meta, refused, unreadable, proof_with_hashes, proof_at, proof_of_batched,
  proof_of_row, get_merkle_proof,
}
use omni_aegis.Windows.Rows.{Coherent, has_leaf, updated, updated-leaf, fetch-update_rows}
use omni_aegis.Windows.Cycle.{window_end, leaves, marked, anchor_pending_window-Marked}
use omni_aegis.Windows.Events.{fetch-decision_id, has_leaf-leaves, lookup-leaves, updated-batched}
use omni_aegis.Windows.Ends.{marked_row-batch}
use omni_aegis.Windows.Nodes.{select_node-fresh}
use omni_aegis.Windows.Indices.{Indexed, index_map-Indexed, get_elem?-loaded}

has_leaf-length :
    {Float : Type 0} (id : String) (ls : List (DecisionLeaf Float))
    → has_leaf id ls ≡ true
    → 0 < length ls
has_leaf-length id [] h = absurd (cc h)
has_leaf-length id (l ∷ ls) h = omega arith

fetch_batch_meta-insert_batch :
    (batch : MerkleBatch) (rows : List BatchRow)
    → has_batch batch.batch_id rows ≡ false
    → fetch_batch_meta batch.batch_id (insert_batch batch rows) ≡ some batch
fetch_batch_meta-insert_batch batch rows new = rw (new) (appended rows new)
  where
    appended :
        (rows : List BatchRow)
        → has_batch batch.batch_id rows ≡ false
        → fetch_batch_meta batch.batch_id
            (rows ++ record { batch = batch; status = BatchStatus.prepared } ∷ [])
          ≡ some batch
    appended [] new = rw (str_eq_refl batch.batch_id) refl
    appended (row ∷ rows) new = elim (Bool-cases (str_eq row.batch.batch_id batch.batch_id)) [
      | inl e ↦ absurd (let x = rw (has_batch, e) at new in cc x)
      | inr e ↦
          let new' : has_batch batch.batch_id rows ≡ false = rw (has_batch, e) at new in
          rw (e) (appended rows new')
    ]

fetch_batch_meta-marked_row :
    (id b : String) (status : BatchStatus) (rows : List BatchRow)
    → fetch_batch_meta id (map (marked_row b status) rows) ≡ fetch_batch_meta id rows
fetch_batch_meta-marked_row id b status [] = refl
fetch_batch_meta-marked_row id b status (row ∷ rows) =
    ap
      (λ (x : MerkleBatch).
        if str_eq x.batch_id id
        then some x
        else fetch_batch_meta id (map (marked_row b status) rows))
      (marked_row-batch b status row)
    ∙ ap (λ o. if str_eq row.batch.batch_id id then some row.batch else o)
        (fetch_batch_meta-marked_row id b status rows)

module _ {Float : Type 0} (t : State Float) (row : DecisionRow Float) (b : String) (i : ℕ) where
  get_merkle_proof-refused :
      (fuel : ℕ) (id : String)
      → fetch_decision_with_batch id t.decisions ≡ some row
      → row.batch_id ≡ some b
      → row.leaf_index ≡ some i
      → fetch_proof_hashes (λ l p. select_node b l p t.nodes) fuel i ≡ raise key_error
      → get_merkle_proof t fuel id ≡ refused (unreadable key_error)
  unfolding get_merkle_proof
  get_merkle_proof-refused fuel id found batched indexed read =
      ap (proof_of_row t fuel) found
      ∙ ap (proof_of_batched t fuel row) batched
      ∙ ap (proof_at t fuel row b) indexed
      ∙ ap (proof_with_hashes t row b i) read

module _ {Float : Type 0} (h : Bytes → Bytes) (id : String) (row : DecisionRow Float) where
  -- The stored rows of the decision, of its batch and of the batch's tree: the hashes read from the
  -- tree lead from the decision's leaf hash to the batch's root, and `get_merkle_proof` does not
  -- return them.
  pub record Verifies (t : State Float) : Type 0 where
    pub stored_row : DecisionRow Float
    pub stored_batch : MerkleBatch
    pub batch_id : String
    pub leaf_index : ℕ
    pub hashes : List (Option Bytes)
    pub fetched : fetch_decision_with_batch id t.decisions ≡ some stored_row
    pub same_leaf : stored_row.leaf.leaf_hash ≡ row.leaf.leaf_hash
    pub batched : stored_row.batch_id ≡ some batch_id
    pub indexed : stored_row.leaf_index ≡ some leaf_index
    pub known : fetch_batch_meta batch_id t.batches ≡ some stored_batch
    pub read :
        proof_hashes
          (stored_node_hash (λ l p. select_node batch_id l p t.nodes))
          (stored_batch.leaf_count + 1)
          leaf_index
        ≡ ok hashes
    pub climbs : climb h leaf_index stored_row.leaf.leaf_hash hashes ≡ some stored_batch.merkle_root
    pub refuses :
        get_merkle_proof t (stored_batch.leaf_count + 1) id ≡ refused (unreadable key_error)

module _ {Float : Type 0} (dg : Digests) (config : Config) (text_before : String → String → Bool)
    (h : Bytes → Bytes) (supported : (x : Bytes) → hash dg config.hash_algorithm x ≡ ok (h x))
    (a : Answers) (s : State Float) (coherent : Coherent s.decisions)
    (fresh_nodes : (l p : ℕ) → select_node a.batch_id l p s.nodes ≡ none)
    (fresh_batch : has_batch a.batch_id s.batches ≡ false) (id : String) (row : DecisionRow Float)
    (found : fetch_decision_with_batch id s.decisions ≡ some row)
    (inside : in_window s.cursor (window_end dg config text_before a s) row ≡ true) where
  abbrev ls : List (DecisionLeaf Float)
  ls = leaves dg config text_before a s

  abbrev d : Dict ℕ
  d = index_map 0 ls []

  abbrev levels : List (List Bytes)
  levels = tree h (length ls) (leaf_hashes ls)

  abbrev batch : MerkleBatch
  batch =
      built dg config.hash_algorithm h supported config.pending_manifest_prefix a.created_at
        a.batch_id ls s.cursor (window_end dg config text_before a s)

  row-Indexed : Indexed ls (updated a.batch_id d row)
  row-Indexed =
      index_map-Indexed ls a.batch_id row
        (lookup-leaves dg config text_before a s coherent a.batch_id d refl id row found ∙ inside)

  stored-Verifies :
      (t : State Float)
      → t.decisions ≡ update_rows a.batch_id d s.decisions
      → t.nodes ≡ insert_nodes a.batch_id (node_rows ls levels) s.nodes
      → fetch_batch_meta a.batch_id t.batches ≡ some batch
      → Verifies h id row t
  stored-Verifies t decisions nodes known =
      let (i, leaf, indexed, place, named) = row-Indexed in
      let row' = updated a.batch_id d row in
      let fetched : fetch_decision_with_batch id t.decisions ≡ some row' =
        ap (fetch_decision_with_batch id) decisions
        ∙ fetch-update_rows a.batch_id d id s.decisions
        ∙ ap (Option.map (updated a.batch_id d)) found in
      let id_of_leaf : leaf.decision_id ≡ id =
        named
        ∙ ap (λ (l : DecisionLeaf Float). l.decision_id) (updated-leaf a.batch_id d row)
        ∙ fetch-decision_id id row s.decisions found in
      let own : row.leaf ≡ leaf =
        get_elem?-loaded s.decisions text_before s.cursor _ i leaf row coherent place
          (ap (λ k. fetch_decision_with_batch k s.decisions) id_of_leaf ∙ found) in
      let hashed : row'.leaf.leaf_hash ≡ leaf.leaf_hash =
        ap (λ (l : DecisionLeaf Float). l.leaf_hash) (updated-leaf a.batch_id d row ∙ own) in
      let select = λ (l p : ℕ). select_node a.batch_id l p t.nodes in
      let stored = λ (l p : ℕ).
        ap (select_node a.batch_id l p) nodes
        ∙ select_node-fresh a.batch_id l p (node_rows ls levels) s.nodes (fresh_nodes l p) in
      let (hashes, read, climbs) =
        inclusion dg config.hash_algorithm h supported config.pending_manifest_prefix a.created_at
          a.batch_id ls s.cursor (window_end dg config text_before a s) select stored i leaf
          place in
      let some_fuel : suc (length ls) ≡ length ls + 1 = omega arith in
      let error =
        fetch_proof_hashes-key_error dg config.hash_algorithm h supported
          config.pending_manifest_prefix a.created_at a.batch_id ls s.cursor
          (window_end dg config text_before a s) select stored i (length ls) leaf place in
      let batched =
        updated-batched dg config text_before a s coherent a.batch_id d refl id row found inside in
      record {
        stored_row = row';
        stored_batch = batch;
        batch_id = a.batch_id;
        leaf_index = i;
        hashes = hashes;
        fetched = fetched;
        same_leaf = ap (λ (l : DecisionLeaf Float). l.leaf_hash) (updated-leaf a.batch_id d row);
        batched = batched;
        indexed = indexed;
        known = known;
        read = read;
        climbs = ap (λ x. climb h i x hashes) hashed ∙ climbs;
        refuses =
            get_merkle_proof-refused t row' a.batch_id i (length ls + 1) id fetched batched indexed
              (subst (λ f. fetch_proof_hashes select f i ≡ raise key_error) some_fuel error);
      }

  marked-Verifies :
      (m : Option BatchStatus)
      → Verifies h id row (
          marked dg config text_before a s m (
            store_window_cursor
              (window_end dg config text_before a s)
              (persist_batch batch levels ls d s)))
  marked-Verifies none =
      stored-Verifies _ refl refl (fetch_batch_meta-insert_batch batch s.batches fresh_batch)
  marked-Verifies (some status) = stored-Verifies _ refl refl (
      fetch_batch_meta-marked_row a.batch_id a.batch_id status (insert_batch batch s.batches)
      ∙ fetch_batch_meta-insert_batch batch s.batches fresh_batch)

  -- Where decision ids are unique and the digest is supported, after a cycle with a fresh batch id
  -- whose reads and transaction succeed, every decision of the window is stored with a batch and an
  -- index, and the tree's rows prove it: reading their hashes by the column's name along the loop of
  -- `_fetch_proof_hashes` gives a path that climbs from the decision's leaf hash to the root in the
  -- stored row of the batch, whether the chain accepts the batch or not. `get_merkle_proof` itself
  -- ends in the `KeyError` of `row[0]` for each of them.
  pub cycle-Verifies :
      a.load_succeeds ≡ true
      → a.persist_succeeds ≡ true
      → Verifies h id row (anchor_pending_window dg config text_before a s).0
  cycle-Verifies loads persists =
      let some_leaf =
        has_leaf-length id ls
          (has_leaf-leaves dg config text_before a s coherent id row found ∙ inside) in
      let b =
        build_merkle_batch-ok dg config.hash_algorithm h supported config.pending_manifest_prefix
          a.created_at a.batch_id ls s.cursor (window_end dg config text_before a s) some_leaf in
      let (m, e) =
        anchor_pending_window-Marked dg config text_before a s batch levels d b loads persists
          some_leaf in
      subst (Verifies h id row) (sym e) (marked-Verifies m)
