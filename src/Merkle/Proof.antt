-- ===== src/Merkle/Proof.antt =====
-- An inclusion proof read back from the persisted rows leads from the leaf to the root.
use mathlib.Core.Option
use native.Mathlib.Nat.{zero-add}
use omni_aegis.Prelude.{
  ℕ, zero, suc, ◌+◌, ◌/◌, ◌%◌, ◌≤◌, ◌<◌, ◌≡◌, refl, ap, ◌∙◌, List, [], ◌∷◌, ◌++◌, Option, none,
  some, length, get_elem?, arith, if◌then◌else◌, ◌==◌, ltb, Bool-cases, inl, inr, ltb→lt,
  Option-cases,
}
use omni_aegis.Merkle.{
  Bytes, Outcome, ok, MerkleNode, flip_low_bit, drop_last, or_current, proof_loop, proof_hashes,
  stored_node_hash,
}
use omni_aegis.Merkle.Levels.{
  above, tree, root_of, length-above, tree_cons, tree_more, tree_last, head_or_nil,
}
use omni_aegis.Merkle.Rows.{hash_at}

-- What an independent verifier computes: the node over a hash at position `i` and its sibling, and
-- the climb along a proof.
abbrev pub node_over : (Bytes → Bytes) → ℕ → Bytes → Bytes → Bytes
node_over h i x s = if i % 2 == 0 then h (x ++ s) else h (s ++ x)

abbrev pub climb : (Bytes → Bytes) → ℕ → Bytes → List (Option Bytes) → Option Bytes
climb h i x [] = some x
climb h i x (none ∷ proof) = none
climb h i x (some s ∷ proof) = climb h (i / 2) (node_over h i x s) proof

sibling : List Bytes → ℕ → Option Bytes
sibling xs i = or_current (get_elem? xs (flip_low_bit i)) (get_elem? xs i)

-- A position of a level, its sibling, and the node above them.
record Step (h : Bytes → Bytes) (xs : List Bytes) (i : ℕ) : Type 0 where
  hash : Bytes
  other : Bytes
  here : get_elem? xs i ≡ some hash
  beside : sibling xs i ≡ some other
  over : get_elem? (above h xs) (i / 2) ≡ some (node_over h i hash other)

step : (h : Bytes → Bytes) (xs : List Bytes) (i : ℕ) → i < length xs → Step h xs i
unfolding above sibling
step h [] i k = elim k [ ]
step h (x ∷ []) zero k = record { hash = x; other = x; here = refl; beside = refl; over = refl }
step h (x ∷ []) (suc i) k = absurd (omega arith)
step h (x ∷ y ∷ xs) zero k = record { hash = x; other = y; here = refl; beside = refl; over = refl }
step h (x ∷ y ∷ xs) (suc zero) k = record {
  hash = y;
  other = x;
  here = refl;
  beside = refl;
  over = refl;
}
step h (x ∷ y ∷ xs) (suc (suc i)) k =
    let s = step h xs i (omega arith) in
    let half : suc (suc i) / 2 ≡ suc (i / 2) = omega arith in
    let parity : suc (suc i) % 2 ≡ i % 2 = omega arith in
    record {
      hash = s.hash;
      other = s.other;
      here = s.here;
      beside = s.beside;
      over = rw (half, parity) s.over;
    }

-- The loop over the levels themselves.
path_in : List (List Bytes) → ℕ → List (Option Bytes)
path_in [] i = []
path_in (xs ∷ levels) i =
    sibling xs i ∷ elim (hash_at levels 0 (i / 2)) [ none ↦ [] | some _ ↦ path_in levels (i / 2) ]

drop_last-cons :
    (x : Option Bytes) (ys : List (Option Bytes))
    → 0 < length ys
    → drop_last (x ∷ ys) ≡ x ∷ drop_last ys
drop_last-cons x [] h = elim h [ ]
drop_last-cons x (y ∷ ys) h = refl

path_in-pos :
    (levels : List (List Bytes)) (i : ℕ) → 0 < length levels → 0 < length (path_in levels i)
unfolding path_in
path_in-pos [] i h = elim h [ ]
path_in-pos (xs ∷ levels) i h = omega arith

single :
    (xs : List Bytes) (i : ℕ) (x : Bytes)
    → length xs ≤ 1
    → get_elem? xs i ≡ some x
    → x ≡ head_or_nil xs
single [] i x k e = cc
single (y ∷ []) zero x k e = cc
single (y ∷ []) (suc i) x k e = cc
single (y ∷ z ∷ xs) i x k e = absurd (omega arith)

path_in_level :
    (xs : List Bytes) (levels : List (List Bytes)) (i : ℕ) (s n : Bytes)
    → sibling xs i ≡ some s
    → hash_at levels 0 (i / 2) ≡ some n
    → path_in (xs ∷ levels) i ≡ some s ∷ path_in levels (i / 2)
unfolding path_in
path_in_level xs levels i s n e f = rw (e, f)

climb_last :
    (h : Bytes → Bytes) (fuel : ℕ) (xs : List Bytes) (i : ℕ) (x : Bytes)
    → length xs ≤ 1
    → get_elem? xs i ≡ some x
    → climb h i x (drop_last (path_in (tree h fuel xs) i)) ≡ some (root_of h fuel xs)
unfolding path_in
climb_last h fuel xs i x k e =
    rw ((tree_last h fuel xs k).0, (tree_last h fuel xs k).1) (ap some (single xs i x k e))

path_in-climb :
    (h : Bytes → Bytes) (fuel : ℕ) (xs : List Bytes) (i : ℕ) (x : Bytes)
    → length xs ≤ suc fuel
    → get_elem? xs i ≡ some x
    → i < length xs
    → climb h i x (drop_last (path_in (tree h fuel xs) i)) ≡ some (root_of h fuel xs)
path_in-climb h zero xs i x k e b = climb_last h zero xs i x k e
path_in-climb h (suc fuel) xs i x k e b = elim (Bool-cases (ltb 1 (length xs))) [
  | inr last ↦ let short : length xs ≤ 1 = ground arith in climb_last h (suc fuel) xs i x short e
  | inl more ↦
      let s = step h xs i b in
      let (ys, eq) = tree_cons h fuel (above h xs) in
      let over : hash_at (tree h fuel (above h xs)) 0 (i / 2)
          ≡ some (node_over h i s.hash s.other) =
        rw eq s.over in
      let path = path_in_level xs (tree h fuel (above h xs)) i s.other _ s.beside over in
      let nonempty : 0 < length (tree h fuel (above h xs)) = rw eq (omega arith) in
      let popped =
        drop_last-cons (some s.other) (path_in (tree h fuel (above h xs)) (i / 2))
          (path_in-pos (tree h fuel (above h xs)) (i / 2) nonempty) in
      let same : x ≡ s.hash = cc (s.here) in
      let less : length (above h xs) ≤ suc fuel =
        ground (arith, length-above h xs, ltb→lt 1 (length xs) more) in
      let below : i / 2 < length (above h xs) = omega (arith, length-above h xs) in
      let ih =
        path_in-climb h fuel (above h xs) (i / 2) (node_over h i s.hash s.other) less s.over
          below in
      rw ((tree_more h fuel xs more).0, (tree_more h fuel xs more).1, path, popped, same) ih
]

level_pos : (ls : List (List Bytes)) (p : ℕ) (n : Bytes) → hash_at ls 0 p ≡ some n → 0 < length ls
level_pos [] p n e = cc
level_pos (xs ∷ ls) p n e = omega arith

shift : (base l : ℕ) → base + suc l ≡ suc base + l
shift base l = omega arith

module _ (select_node : ℕ → ℕ → Option MerkleNode) (levels : List (List Bytes))
    (stored : (l p : ℕ)
      → Option.map (λ row. row.node_hash) (select_node l p) ≡ hash_at levels l p) where
  read : ℕ → ℕ → Outcome (Option Bytes)
  read = stored_node_hash select_node

  fetch-hash_at : (l p : ℕ) → read l p ≡ ok (hash_at levels l p)
  unfolding read
  fetch-hash_at l p = ap ok (stored l p)

  module _ (fuel base i : ℕ) (a b : Option Bytes) (beside : read base (flip_low_bit i) ≡ ok a)
      (here : read base i ≡ ok b) where
    loop_last :
        read (suc base) (i / 2) ≡ ok none
        → proof_loop read (suc fuel) base i ≡ ok (or_current a b ∷ [])
    unfolding proof_loop
    loop_last e = rw (proof_loop, beside, here, e)

    loop_more :
        (n : Bytes) (rest : List (Option Bytes))
        → read (suc base) (i / 2) ≡ ok (some n)
        → proof_loop read fuel (suc base) (i / 2) ≡ ok rest
        → proof_loop read (suc fuel) base i ≡ ok (or_current a b ∷ rest)
    unfolding proof_loop
    loop_more n rest e ih = rw (proof_loop, beside, here, e, ih)

  -- The loop, from any level on, reads the levels that are left.
  proof_loop-path_in :
      (fuel : ℕ) (ls : List (List Bytes)) (base i : ℕ)
      → ((l p : ℕ) → hash_at levels (base + l) p ≡ hash_at ls l p)
      → 0 < length ls
      → length ls ≤ fuel
      → proof_loop read fuel base i ≡ ok (path_in ls i)
  unfolding path_in sibling
  proof_loop-path_in zero ls base i same p k = absurd (omega arith)
  proof_loop-path_in (suc fuel) [] base i same p k = elim p [ ]
  proof_loop-path_in (suc fuel) (xs ∷ ls) base i same p k =
      let base' : base + 0 ≡ base = omega arith in
      let next : base + 1 ≡ suc base = omega arith in
      let at_base = λ (q : ℕ). fetch-hash_at base q ∙ ap ok (rw base' at (same 0 q)) in
      let above_base = fetch-hash_at (suc base) (i / 2) ∙ ap ok (rw next at (same 1 (i / 2))) in
      let a = get_elem? xs (flip_low_bit i) in
      let b = get_elem? xs i in
      elim (Option-cases (hash_at ls 0 (i / 2))) [
        | inl end ↦ rw end (
            loop_last fuel base i a b (at_base (flip_low_bit i)) (at_base i)
              (above_base ∙ ap ok end))
        | inr (n, more) ↦
            let some_level : 0 < length ls = level_pos ls (i / 2) n more in
            let same' = λ (l q : ℕ). rw (shift base l) at (same (suc l) q) in
            let ih = proof_loop-path_in fuel ls (suc base) (i / 2) same' some_level (omega arith) in
            rw more (
              loop_more fuel base i a b (at_base (flip_low_bit i)) (at_base i) n
                (path_in ls (i / 2)) (above_base ∙ ap ok more) ih)
      ]

  -- Once the rows of a tree are stored, the proof read back from their hashes for a leaf leads a
  -- verifier from that leaf's hash to the root. Fuel for the levels is enough.
  pub proof_hashes-climb :
      (h : Bytes → Bytes) (size : ℕ) (xs : List Bytes) (i fuel : ℕ) (x : Bytes)
      → levels ≡ tree h size xs
      → length xs ≤ suc size
      → length levels ≤ fuel
      → i < length xs
      → get_elem? xs i ≡ some x
      → (proof : List (Option Bytes)) × (proof_hashes (stored_node_hash select_node) fuel i
          ≡ ok proof)
        × (climb h i x proof ≡ some (root_of h size xs))
  unfolding proof_hashes read
  proof_hashes-climb h size xs i fuel x built k enough b e =
      let (ys, cons) = tree_cons h size xs in
      let nonempty : 0 < length levels = rw (built, cons) (omega arith) in
      let same = λ (l p : ℕ). ap (λ t. hash_at levels t p) (zero-add l) in
      (
        drop_last (path_in levels i),
        rw (proof_loop-path_in fuel levels 0 i same nonempty enough),
        rw built (path_in-climb h size xs i x k e b),
      )
