-- ===== src/Merkle/Rows.antt =====
-- The rows of `merkle_nodes` hold exactly the levels that were persisted.
use mathlib.Core.Option
use omni_aegis.Prelude.{
  ℕ, zero, suc, ◌+◌, ◌<◌, ◌≡◌, ◌≢◌, refl, ◌∙◌, List, [], ◌∷◌, ◌++◌, Option, none, some, get_elem?,
  arith, if◌then◌else◌, ◌==◌, ◌&&◌,
}
use omni_aegis.Merkle.{
  Bytes, MerkleNode, DecisionLeaf, inner_rows, leaf_rows, level_rows, node_rows,
}

-- The row of a key among the inserted rows.
abbrev pub find_row : ℕ → ℕ → List MerkleNode → Option MerkleNode
find_row l p [] = none
find_row l p (row ∷ rows) =
    if row.level == l && row.position == p then some row else find_row l p rows

abbrev pub found_hash : ℕ → ℕ → List MerkleNode → Option Bytes
found_hash l p rows = Option.map (λ row. row.node_hash) (find_row l p rows)

abbrev pub hash_at : List (List Bytes) → ℕ → ℕ → Option Bytes
hash_at [] l p = none
hash_at (level ∷ levels) zero p = get_elem? level p
hash_at (level ∷ levels) (suc l) p = hash_at levels l p

abbrev or_else : Option Bytes → Option Bytes → Option Bytes
or_else none b = b
or_else (some a) b = some a

found_hash-append :
    (l p : ℕ) (rows rows' : List MerkleNode)
    → found_hash l p (rows ++ rows') ≡ or_else (found_hash l p rows) (found_hash l p rows')
found_hash-append l p [] rows' = refl
found_hash-append l p (row ∷ rows) rows' = ground (arith, found_hash-append l p rows rows')

or_else-none : (o : Option Bytes) → or_else o none ≡ o
or_else-none none = refl
or_else-none (some a) = refl

inner_here :
    (l l' : ℕ) (prev : List Bytes) (q : ℕ) (hashes : List Bytes) (k p : ℕ)
    → l' ≡ l
    → p ≡ q + k
    → found_hash l' p (inner_rows l prev q hashes) ≡ get_elem? hashes k
inner_here l l' prev q [] k p d e = refl
inner_here l l' prev q (x ∷ xs) zero p d e = ground arith
inner_here l l' prev q (x ∷ xs) (suc k) p d e = ground (arith, inner_here l l' prev (suc q) xs k p)

inner_elsewhere :
    (l l' : ℕ) (prev : List Bytes) (q : ℕ) (hashes : List Bytes) (p : ℕ)
    → l ≢ l'
    → found_hash l' p (inner_rows l prev q hashes) ≡ none
inner_elsewhere l l' prev q [] p h = refl
inner_elsewhere l l' prev q (x ∷ xs) p h = ground (arith, inner_elsewhere l l' prev (suc q) xs p h)

level_rows_below :
    (l l' : ℕ) (prev : List Bytes) (levels : List (List Bytes)) (p : ℕ)
    → l' < l
    → found_hash l' p (level_rows l prev levels) ≡ none
level_rows_below l l' prev [] p h = refl
level_rows_below l l' prev (x ∷ xs) p h =
    found_hash-append l' p (inner_rows l prev 0 x) (level_rows (suc l) x xs)
    ∙ rw (inner_elsewhere l l' prev 0 x p (omega arith))
        (level_rows_below (suc l) l' x xs p (omega arith))

level_rows_hash :
    (l : ℕ) (prev : List Bytes) (levels : List (List Bytes)) (k l' p : ℕ)
    → l' ≡ l + k
    → found_hash l' p (level_rows l prev levels) ≡ hash_at levels k p
level_rows_hash l prev [] k l' p e = refl
level_rows_hash l prev (x ∷ xs) zero l' p e =
    found_hash-append l' p (inner_rows l prev 0 x) (level_rows (suc l) x xs)
    ∙ rw
        (
          inner_here l l' prev 0 x p p (omega arith) (omega arith),
          level_rows_below (suc l) l' x xs p (omega arith),
        )
        (or_else-none (get_elem? x p))
level_rows_hash l prev (x ∷ xs) (suc k) l' p e =
    found_hash-append l' p (inner_rows l prev 0 x) (level_rows (suc l) x xs)
    ∙ rw (inner_elsewhere l l' prev 0 x p (omega arith))
        (level_rows_hash (suc l) x xs k l' p (omega arith))

module _ {Float : Type 0} (leaves : List (DecisionLeaf Float)) where
  leaf_here :
      (q : ℕ) (hashes : List Bytes) (k p : ℕ)
      → p ≡ q + k
      → found_hash 0 p (leaf_rows leaves q hashes) ≡ get_elem? hashes k
  leaf_here q [] k p e = refl
  leaf_here q (x ∷ xs) zero p e = ground arith
  leaf_here q (x ∷ xs) (suc k) p e = ground (arith, leaf_here (suc q) xs k p)

  leaf_elsewhere :
      (q : ℕ) (hashes : List Bytes) (l p : ℕ)
      → found_hash (suc l) p (leaf_rows leaves q hashes) ≡ none
  leaf_elsewhere q [] l p = refl
  leaf_elsewhere q (x ∷ xs) l p = ground (arith, leaf_elsewhere (suc q) xs l p)

  -- Looking a key up among the persisted rows gives the hash at that level and position, and
  -- finds nothing where the tree has no such node.
  pub found_hash-node_rows :
      (levels : List (List Bytes)) (l p : ℕ)
      → found_hash l p (node_rows leaves levels) ≡ hash_at levels l p
  found_hash-node_rows [] l p = refl
  found_hash-node_rows (x ∷ xs) zero p =
      found_hash-append 0 p (leaf_rows leaves 0 x) (level_rows 1 x xs)
      ∙ rw (leaf_here 0 x p p (omega arith), level_rows_below 1 0 x xs p (omega arith))
          (or_else-none (get_elem? x p))
  found_hash-node_rows (x ∷ xs) (suc l) p =
      found_hash-append (suc l) p (leaf_rows leaves 0 x) (level_rows 1 x xs)
      ∙ rw (leaf_elsewhere 0 x l p) (level_rows_hash 1 x xs l (suc l) p (omega arith))
