-- ===== src/Merkle/Binding.antt =====
-- What a Merkle root says about the leaves under it.
use native.Mathlib.Decide.{ℕ_discrete}
use omni_aegis.Prelude.{
  ℕ, zero, suc, ◌+◌, ◌%◌, ◌/◌, ◌≤◌, ◌<◌, ◌≡◌, ◌≢◌, refl, sym, ap, ◌∙◌, true, ◌⊎◌, inl, inr, List,
  [], ◌∷◌, ◌++◌, length, arith, ltb, All, Bool-cases, lt→ltb, length-append,
}
use omni_aegis.Merkle.{Bytes}
use omni_aegis.Merkle.Levels.{
  above, root_of, tree_more, tree_last, length-above, head_or_nil, above_fits,
}

Bytes-discrete : Discrete Bytes
Bytes-discrete = hlevel ℕ_discrete

pub append-cancel : (a b c d : Bytes) → length a ≡ length c → a ++ b ≡ c ++ d → (a ≡ c) × (b ≡ d)
append-cancel [] b [] d l e = (refl, e)
append-cancel [] b (y ∷ c) d l e = absurd (omega arith)
append-cancel (x ∷ a) b [] d l e = absurd (omega arith)
append-cancel (x ∷ a) b (y ∷ c) d l e =
    let (p, q) = append-cancel a b c d (omega arith) (cc) in (cc p, q)

module _ (h : Bytes → Bytes) where
  -- Two inputs that the digest does not tell apart.
  pub record Collision : Type 0 where
    pub one : Bytes
    pub other : Bytes
    pub differ : one ≢ other
    pub agree : h one ≡ h other

  abbrev Sized : ℕ → List Bytes → Type 0
  Sized n = All (λ b. length b ≡ n)

  short :
      (xs ys : List Bytes)
      → length xs ≤ 1
      → length xs ≡ length ys
      → head_or_nil xs ≡ head_or_nil ys
      → xs ≡ ys
  short [] [] k l e = refl
  short [] (y ∷ ys) k l e = absurd (omega arith)
  short (x ∷ xs) [] k l e = absurd (omega arith)
  short (x ∷ []) (y ∷ []) k l e = ap (λ z. z ∷ []) e
  short (x ∷ []) (y ∷ y' ∷ ys) k l e = absurd (omega arith)
  short (x ∷ x' ∷ xs) ys k l e = absurd (omega arith)

  above_pad :
      (ys : List Bytes) (y : Bytes)
      → length ys % 2 ≡ 0
      → above h (ys ++ y ∷ []) ≡ above h (ys ++ y ∷ y ∷ [])
  unfolding above
  above_pad [] y e = refl
  above_pad (x ∷ []) y e = absurd (omega arith)
  above_pad (x ∷ x' ∷ ys) y e = ap (◌∷◌ (h (x ++ x'))) (above_pad ys y (omega arith))

  -- A batch of an odd number of at least three leaves has the same root as the batch with its last
  -- leaf given twice.
  pub root_of-pad :
      (ys : List Bytes) (y : Bytes) (fuel : ℕ)
      → 0 < length ys
      → length ys % 2 ≡ 0
      → root_of h (suc fuel) (ys ++ y ∷ []) ≡ root_of h (suc fuel) (ys ++ y ∷ y ∷ [])
  root_of-pad ys y fuel p e =
      let more : ltb 1 (length (ys ++ y ∷ [])) ≡ true =
        lt→ltb 1 (length (ys ++ y ∷ [])) (omega (arith, length-append ys (y ∷ []))) in
      let more' : ltb 1 (length (ys ++ y ∷ y ∷ [])) ≡ true =
        lt→ltb 1 (length (ys ++ y ∷ y ∷ [])) (omega (arith, length-append ys (y ∷ y ∷ []))) in
      (tree_more h fuel (ys ++ y ∷ []) more).1
      ∙ ap (root_of h fuel) (above_pad ys y e)
      ∙ sym (tree_more h fuel (ys ++ y ∷ y ∷ []) more').1

  node-binds :
      (a b c d : Bytes)
      → length a ≡ length c
      → h (a ++ b) ≡ h (c ++ d)
      → ((a ≡ c) × (b ≡ d)) ⊎ Collision
  node-binds a b c d l e = elim (Bytes-discrete (a ++ b) (c ++ d)) [
    | yes same ↦ inl (append-cancel a b c d l same)
    | no differ ↦ inr (record { one = a ++ b; other = c ++ d; differ = differ; agree = e })
  ]

  module _ (n : ℕ) where
    above-binds :
        (xs ys : List Bytes)
        → length xs ≡ length ys
        → Sized n xs
        → Sized n ys
        → above h xs ≡ above h ys
        → (xs ≡ ys) ⊎ Collision
    unfolding above
    above-binds [] [] l s t e = inl refl
    above-binds [] (y ∷ ys) l s t e = absurd (omega arith)
    above-binds (x ∷ xs) [] l s t e = absurd (omega arith)
    above-binds (x ∷ []) (y ∷ []) l s t e = elim (node-binds x x y y (s.0 ∙ sym t.0) (cc)) [
      | inl same ↦ inl (ap (λ z. z ∷ []) same.0)
      | inr c ↦ inr c
    ]
    above-binds (x ∷ []) (y ∷ y' ∷ ys) l s t e = absurd (omega arith)
    above-binds (x ∷ x' ∷ xs) (y ∷ []) l s t e = absurd (omega arith)
    above-binds (x ∷ x' ∷ xs) (y ∷ y' ∷ ys) l s t e =
        combine (node-binds x x' y y' (s.0 ∙ sym t.0) (cc))
          (above-binds xs ys (omega arith) s.1.1 t.1.1 (cc))
      where
        combine :
            ((x ≡ y) × (x' ≡ y')) ⊎ Collision
            → (xs ≡ ys) ⊎ Collision
            → (x ∷ x' ∷ xs ≡ y ∷ y' ∷ ys) ⊎ Collision
        combine (inr c) r = inr c
        combine (inl p) (inr c) = inr c
        combine (inl p) (inl q) = inl (cc (p.0, p.1, q))

    module _ (sized : (b : Bytes) → length (h b) ≡ n) where
      above-Sized : (xs : List Bytes) → Sized n (above h xs)
      unfolding above
      above-Sized [] = tt
      above-Sized (x ∷ []) = (sized (x ++ x), tt)
      above-Sized (x ∷ y ∷ xs) = (sized (x ++ y), above-Sized xs)

      down :
          {xs ys : List Bytes}
          → (above h xs ≡ above h ys → (xs ≡ ys) ⊎ Collision)
          → (above h xs ≡ above h ys) ⊎ Collision
          → (xs ≡ ys) ⊎ Collision
      down f (inl e) = f e
      down f (inr c) = inr c

      -- Two batches of as many leaves with one root have the same leaves, or the digest has a
      -- collision, which the proof computes.
      pub root_of-binds :
          (fuel : ℕ) (xs ys : List Bytes)
          → length xs ≤ suc fuel
          → length xs ≡ length ys
          → Sized n xs
          → Sized n ys
          → root_of h fuel xs ≡ root_of h fuel ys
          → (xs ≡ ys) ⊎ Collision
      root_of-binds zero xs ys k l s t e =
          inl
            (short xs ys k l (sym (tree_last h 0 xs k).1 ∙ e ∙ (tree_last h 0 ys (omega arith)).1))
      root_of-binds (suc fuel) xs ys k l s t e = elim (Bool-cases (ltb 1 (length xs))) [
        | inl more ↦
            let more' : ltb 1 (length ys) ≡ true = rw l at more in
            let up = sym (tree_more h fuel xs more).1 ∙ e ∙ (tree_more h fuel ys more').1 in
            let less : length (above h xs) ≤ suc fuel = above_fits h xs more k in
            let same : length (above h xs) ≡ length (above h ys) =
              length-above h xs ∙ ap (λ m. (m + 1) / 2) l ∙ sym (length-above h ys) in
            down (above-binds xs ys l s t) (
              root_of-binds fuel (above h xs) (above h ys) less same (above-Sized xs)
                (above-Sized ys) up)
        | inr last ↦
            let k' : length xs ≤ 1 = ground arith in
            inl (
              short xs ys k' l (
                sym (tree_last h (suc fuel) xs k').1
                ∙ e
                ∙ (tree_last h (suc fuel) ys (omega arith)).1))
      ]
