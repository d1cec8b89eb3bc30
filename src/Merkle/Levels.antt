-- ===== src/Merkle/Levels.antt =====
-- The levels that `_build_merkle_batch` computes, for a digest that does not raise.
use omni_aegis.Prelude.{
  ℕ, zero, suc, ◌+◌, ◌/◌, ◌≤◌, ◌<◌, ◌≡◌, refl, true, false, List, [], ◌∷◌, ◌++◌, ltb, length, arith,
  Bool-cases, inl, inr, ge→ltb, ltb→lt, sym, ◌∙◌,
}
use omni_aegis.Merkle.{Bytes, Outcome, ok, next_level, levels_from, last_head}

abbrev pub head_or_nil : List Bytes → Bytes
head_or_nil [] = []
head_or_nil (x ∷ _) = x

module _ (h : Bytes → Bytes) where
  -- The level above, and all levels, as plain functions.
  unfoldable pub above : List Bytes → List Bytes
  above [] = []
  above (left ∷ []) = h (left ++ left) ∷ []
  above (left ∷ right ∷ rest) = h (left ++ right) ∷ above rest

  unfoldable pub tree : ℕ → List Bytes → List (List Bytes)
  tree zero current = current ∷ []
  tree (suc fuel) current = elim (ltb 1 (length current)) [
    | true ↦ current ∷ tree fuel (above current)
    | false ↦ current ∷ []
  ]

  pub length-above : (xs : List Bytes) → length (above xs) ≡ (length xs + 1) / 2
  unfolding above
  length-above [] = refl
  length-above (x ∷ []) = refl
  length-above (x ∷ y ∷ xs) = omega (arith, length-above xs)

  module _ (hash_of : Bytes → Outcome Bytes) (total : (b : Bytes) → hash_of b ≡ ok (h b)) where
    pub next_level-above : (xs : List Bytes) → next_level hash_of xs ≡ ok (above xs)
    unfolding next_level above
    next_level-above [] = refl
    next_level-above (x ∷ []) = rw (total (x ++ x))
    next_level-above (x ∷ y ∷ xs) = rw (total (x ++ y), next_level-above xs)

    -- Fuel for the number of hashes is enough, and nothing raises.
    pub levels_from-tree :
        (fuel : ℕ) (xs : List Bytes)
        → length xs ≤ suc fuel
        → levels_from hash_of fuel xs ≡ ok (tree fuel xs)
    unfolding levels_from tree
    levels_from-tree zero xs k = rw (ge→ltb 1 (length xs) k)
    levels_from-tree (suc fuel) xs k = elim (Bool-cases (ltb 1 (length xs))) [
      | inl more ↦
          let less : length (above xs) ≤ suc fuel = ground (arith, length-above xs) in
          rw (levels_from, tree, more, next_level-above xs, levels_from-tree fuel (above xs) less)
      | inr last ↦ rw (levels_from, tree, last)
    ]

  -- The last level is one hash: the root.
  unfoldable pub root_of : ℕ → List Bytes → Bytes
  root_of zero xs = head_or_nil xs
  root_of (suc fuel) xs = elim (ltb 1 (length xs)) [
    | true ↦ root_of fuel (above xs)
    | false ↦ head_or_nil xs
  ]

  -- One round of the loop, and its end.
  pub tree_more :
      (fuel : ℕ) (xs : List Bytes)
      → ltb 1 (length xs) ≡ true
      → (tree (suc fuel) xs ≡ xs ∷ tree fuel (above xs))
        × (root_of (suc fuel) xs ≡ root_of fuel (above xs))
  unfolding tree root_of
  tree_more fuel xs more = (rw (tree, more), rw (root_of, more))

  pub tree_last :
      (fuel : ℕ) (xs : List Bytes)
      → length xs ≤ 1
      → (tree fuel xs ≡ xs ∷ []) × (root_of fuel xs ≡ head_or_nil xs)
  unfolding tree root_of
  tree_last zero xs k = (refl, refl)
  tree_last (suc fuel) xs k =
      (rw (tree, ge→ltb 1 (length xs) k), rw (root_of, ge→ltb 1 (length xs) k))

  pub above_fits :
      {m : ℕ} (xs : List Bytes)
      → ltb 1 (length xs) ≡ true
      → length xs ≤ suc (suc m)
      → length (above xs) ≤ suc m
  above_fits xs more k = omega (arith, length-above xs, ltb→lt 1 (length xs) more)

  -- Fuel beyond what the loop needs does not matter.
  pub root_of-fuel :
      (fuel fuel' : ℕ) (xs : List Bytes)
      → length xs ≤ suc fuel
      → length xs ≤ suc fuel'
      → root_of fuel xs ≡ root_of fuel' xs
  root_of-fuel zero fuel' xs k k' = (tree_last zero xs k).1 ∙ sym (tree_last fuel' xs k).1
  root_of-fuel (suc fuel) zero xs k k' =
      (tree_last (suc fuel) xs k').1 ∙ sym (tree_last zero xs k').1
  root_of-fuel (suc fuel) (suc fuel') xs k k' = elim (Bool-cases (ltb 1 (length xs))) [
    | inl more ↦
        let ih =
          root_of-fuel fuel fuel' (above xs) (above_fits xs more k) (above_fits xs more k') in
        (tree_more fuel xs more).1 ∙ ih ∙ sym (tree_more fuel' xs more).1
    | inr last ↦
        let short : length xs ≤ 1 = ground arith in
        (tree_last (suc fuel) xs short).1 ∙ sym (tree_last (suc fuel') xs short).1
  ]

  pub tree_cons : (fuel : ℕ) (xs : List Bytes) → (ys : List (List Bytes)) × (tree fuel xs ≡ xs ∷ ys)
  unfolding tree
  tree_cons zero xs = ([], refl)
  tree_cons (suc fuel) xs = elim (Bool-cases (ltb 1 (length xs))) [
    | inl more ↦ (tree fuel (above xs), rw (tree, more))
    | inr last ↦ ([], rw (tree, last))
  ]

  pub length-tree-le : (fuel : ℕ) (xs : List Bytes) → length (tree fuel xs) ≤ suc fuel
  unfolding tree
  length-tree-le zero xs = omega arith
  length-tree-le (suc fuel) xs = elim (Bool-cases (ltb 1 (length xs))) [
    | inl more ↦ rw (tree, more) (omega (arith, length-tree-le fuel (above xs)))
    | inr last ↦ rw (tree, last) (omega arith)
  ]

  pub last_head-tree :
      (fuel : ℕ) (xs : List Bytes)
      → 0 < length xs
      → length xs ≤ suc fuel
      → last_head (tree fuel xs) ≡ ok (root_of fuel xs)
  unfolding tree root_of
  last_head-tree zero [] p k = elim p [ ]
  last_head-tree zero (x ∷ xs) p k = refl
  last_head-tree (suc fuel) [] p k = elim p [ ]
  last_head-tree (suc fuel) (x ∷ xs) p k = elim (Bool-cases (ltb 1 (length (x ∷ xs)))) [
    | inl more ↦
        let (ys, e) = tree_cons fuel (above (x ∷ xs)) in
        let some_above : 0 < length (above (x ∷ xs)) = ground (arith, length-above (x ∷ xs)) in
        let less : length (above (x ∷ xs)) ≤ suc fuel = ground (arith, length-above (x ∷ xs)) in
        let ih = last_head-tree fuel (above (x ∷ xs)) some_above less in
        rw (tree, root_of, more, e) (rw e at ih)
    | inr last ↦ rw (tree, root_of, last)
  ]
