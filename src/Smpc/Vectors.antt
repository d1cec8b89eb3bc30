-- ===== src/Smpc/Vectors.antt =====
-- Arrays of residues as a commutative monoid under elementwise addition mod p.
use native.Mathlib.Nat.{add_comm, add_assoc, mod-add-mod, add-mod-mod, mod-eq_of_lt, mod-lt}
use omni_aegis.Prelude.{
  ℕ, zero, suc, ◌+◌, ◌%◌, ◌^◌, ◌≤◌, ◌<◌, ◌≡◌, refl, sym, ap, ap₂, ◌∙◌, List, [], ◌∷◌, ◌++◌, map,
  foldl, arith, length, replicate, zip_with, All, ◌≡⟨◌⟩◌, ◌∎, length-replicate,
}
use omni_aegis.Prelude.Int.{ℤ, ◌+ℤ◌}
use omni_aegis.Smpc.{add_mod, sub_mod, floor_mod}
use omni_aegis.Smpc.Residues.{floor_mod-i64_add, add_back, floor_mod-+ℤ, floor_mod-lt}

-- An array of `n` residues.
pub record IsVector (p n : ℕ) (xs : List ℕ) : Type 0 where
  pub size : length xs ≡ n
  pub below : All (λ a. a < p) xs

pub vadd : ℕ → List ℕ → List ℕ → List ℕ
vadd p = zip_with (λ a b. (a + b) % p)

abbrev pub zeros : ℕ → List ℕ
zeros n = replicate n 0

-- The sum of a list of arrays of size `n`.
unfoldable pub vsum : ℕ → ℕ → List (List ℕ) → List ℕ
vsum p n [] = zeros n
vsum p n (x ∷ xs) = vadd p x (vsum p n xs)

module _ (p : ℕ) where
  pub vadd_comm : (xs ys : List ℕ) → vadd p xs ys ≡ vadd p ys xs
  unfolding vadd
  vadd_comm [] [] = refl
  vadd_comm [] (y ∷ ys) = refl
  vadd_comm (x ∷ xs) [] = refl
  vadd_comm (x ∷ xs) (y ∷ ys) = ap₂ ◌∷◌ (ap (λ t. t % p) (add_comm x y)) (vadd_comm xs ys)

  pub vadd_assoc : (xs ys zs : List ℕ) → vadd p (vadd p xs ys) zs ≡ vadd p xs (vadd p ys zs)
  unfolding vadd
  vadd_assoc [] ys zs = refl
  vadd_assoc (x ∷ xs) [] zs = refl
  vadd_assoc (x ∷ xs) (y ∷ ys) [] = refl
  vadd_assoc (x ∷ xs) (y ∷ ys) (z ∷ zs) =
      ap₂ ◌∷◌
        (mod-add-mod (x + y) p z
          ∙ ap (λ t. t % p) (add_assoc x y z)
          ∙ sym (add-mod-mod x (y + z) p))
        (vadd_assoc xs ys zs)

  pub vadd_swap :
      (a b c d : List ℕ) → vadd p (vadd p a b) (vadd p c d) ≡ vadd p (vadd p a c) (vadd p b d)
  vadd_swap a b c d =
      vadd p (vadd p a b) (vadd p c d)
      ≡⟨ vadd_assoc a b _ ⟩ vadd p a (vadd p b (vadd p c d))
      ≡⟨ ap (vadd p a) (sym (vadd_assoc b c d)) ⟩ vadd p a (vadd p (vadd p b c) d)
      ≡⟨ ap (λ t. vadd p a (vadd p t d)) (vadd_comm b c) ⟩ vadd p a (vadd p (vadd p c b) d)
      ≡⟨ ap (vadd p a) (vadd_assoc c b d) ⟩ vadd p a (vadd p c (vadd p b d))
      ≡⟨ sym (vadd_assoc a c _) ⟩ vadd p (vadd p a c) (vadd p b d) ∎

  pub zeros-below : (n : ℕ) → 0 < p → All (λ a. a < p) (zeros n)
  zeros-below zero h = tt
  zeros-below (suc n) h = (h, zeros-below n h)

  pub zeros-IsVector : (n : ℕ) → 0 < p → IsVector p n (zeros n)
  zeros-IsVector n h = record { size = length-replicate n 0; below = zeros-below n h }

  pub vadd-zeros : (n : ℕ) (xs : List ℕ) → IsVector p n xs → vadd p xs (zeros n) ≡ xs
  unfolding vadd
  vadd-zeros zero [] v = refl
  vadd-zeros zero (x ∷ xs) v = absurd (omega (arith, v.size))
  vadd-zeros (suc n) [] v = absurd (omega (arith, v.size))
  vadd-zeros (suc n) (x ∷ xs) v =
      ap₂ ◌∷◌ (ap (λ t. t % p) (omega arith) ∙ mod-eq_of_lt v.below.0)
        (vadd-zeros n xs (record { size = omega (arith, v.size); below = v.below.1 }))

  pub vadd-IsVector :
      (n : ℕ) (xs ys : List ℕ)
      → 0 < p
      → IsVector p n xs
      → IsVector p n ys
      → IsVector p n (vadd p xs ys)
  unfolding vadd
  vadd-IsVector n [] ys h v w = v
  vadd-IsVector n (x ∷ xs) [] h v w = absurd (omega (arith, v.size, w.size))
  vadd-IsVector zero (x ∷ xs) (y ∷ ys) h v w = absurd (omega (arith, v.size))
  vadd-IsVector (suc n) (x ∷ xs) (y ∷ ys) h v w =
      let rest =
        vadd-IsVector n xs ys h (record { size = omega (arith, v.size); below = v.below.1 })
          (record { size = omega (arith, w.size); below = w.below.1 }) in
      record { size = ap suc rest.size; below = (mod-lt (x + y) h, rest.below) }

  pub vsum-IsVector :
      (n : ℕ) (xs : List (List ℕ)) → 0 < p → All (IsVector p n) xs → IsVector p n (vsum p n xs)
  unfolding vsum
  vsum-IsVector n [] h v = zeros-IsVector n h
  vsum-IsVector n (x ∷ xs) h v = vadd-IsVector n x _ h v.0 (vsum-IsVector n xs h v.1)

  pub vsum-snoc :
      (n : ℕ) (xs : List (List ℕ)) (x : List ℕ) → vsum p n (xs ++ x ∷ []) ≡ vadd p (vsum p n xs) x
  unfolding vsum
  vsum-snoc n [] x = vadd_comm x (zeros n)
  vsum-snoc n (y ∷ xs) x = ap (vadd p y) (vsum-snoc n xs x) ∙ sym (vadd_assoc y (vsum p n xs) x)

  module _ (fits : p ≤ 2 ^ 62) (positive : 0 < p) where
    pub add_mod-vadd :
        (xs ys : List ℕ)
        → All (λ a. a < p) xs
        → All (λ a. a < p) ys
        → add_mod p xs ys ≡ vadd p xs ys
    unfolding vadd
    add_mod-vadd [] ys v w = refl
    add_mod-vadd (x ∷ xs) [] v w = refl
    add_mod-vadd (x ∷ xs) (y ∷ ys) v w =
        ap₂ ◌∷◌ (floor_mod-i64_add p fits x y v.0 w.0) (add_mod-vadd xs ys v.1 w.1)

    pub add_mod-IsVector :
        (n : ℕ) (xs ys : List ℕ)
        → IsVector p n xs
        → IsVector p n ys
        → IsVector p n (add_mod p xs ys)
    add_mod-IsVector n xs ys v w =
        rw (add_mod-vadd xs ys v.below w.below) (vadd-IsVector n xs ys positive v w)

    -- Adding the running total back to the last share gives the array that was split.
    pub vadd-sub_mod :
        (n : ℕ) (xs ys : List ℕ)
        → IsVector p n xs
        → IsVector p n ys
        → vadd p ys (sub_mod p xs ys) ≡ xs
    unfolding vadd
    vadd-sub_mod n [] [] v w = refl
    vadd-sub_mod n [] (y ∷ ys) v w = absurd (omega (arith, v.size, w.size))
    vadd-sub_mod n (x ∷ xs) [] v w = absurd (omega (arith, v.size, w.size))
    vadd-sub_mod zero (x ∷ xs) (y ∷ ys) v w = absurd (omega (arith, v.size))
    vadd-sub_mod (suc n) (x ∷ xs) (y ∷ ys) v w = ap₂ ◌∷◌ (add_back p fits x y v.below.0 w.below.0) (
        vadd-sub_mod n xs ys (record { size = omega (arith, v.size); below = v.below.1 })
          (record { size = omega (arith, w.size); below = w.below.1 }))

    pub sub_mod-IsVector :
        (n : ℕ) (xs ys : List ℕ)
        → IsVector p n xs
        → IsVector p n ys
        → IsVector p n (sub_mod p xs ys)
    sub_mod-IsVector n [] ys v w = v
    sub_mod-IsVector n (x ∷ xs) [] v w = absurd (omega (arith, v.size, w.size))
    sub_mod-IsVector zero (x ∷ xs) (y ∷ ys) v w = absurd (omega (arith, v.size))
    sub_mod-IsVector (suc n) (x ∷ xs) (y ∷ ys) v w =
        let rest =
          sub_mod-IsVector n xs ys (record { size = omega (arith, v.size); below = v.below.1 })
            (record { size = omega (arith, w.size); below = w.below.1 }) in
        record { size = ap suc rest.size; below = (floor_mod-lt _ p positive, rest.below) }

    -- The code's running sums are `vsum`.
    pub foldl-add_mod :
        (n : ℕ) (acc : List ℕ) (xs : List (List ℕ))
        → IsVector p n acc
        → All (IsVector p n) xs
        → foldl (add_mod p) acc xs ≡ vadd p acc (vsum p n xs)
    unfolding vsum
    foldl-add_mod n acc [] v w = sym (vadd-zeros n acc v)
    foldl-add_mod n acc (x ∷ xs) v w = rw (add_mod-vadd acc x v.below w.0.below) (
        foldl-add_mod n (vadd p acc x) xs (vadd-IsVector n acc x positive v w.0) w.1
        ∙ vadd_assoc acc x (vsum p n xs))

    pub foldl-add_mod-zeros :
        (n : ℕ) (xs : List (List ℕ))
        → All (IsVector p n) xs
        → foldl (add_mod p) (zeros n) xs ≡ vsum p n xs
    foldl-add_mod-zeros n xs w =
        foldl-add_mod n (zeros n) xs (zeros-IsVector n positive) w
        ∙ vadd_comm (zeros n) (vsum p n xs)
        ∙ vadd-zeros n (vsum p n xs) (vsum-IsVector n xs positive w)

  -- Projecting integers into residues turns their sum into `vadd`.
  pub map-floor_mod-+ℤ :
      (xs ys : List ℤ)
      → 0 < p
      → map (λ z. floor_mod z p) (zip_with ◌+ℤ◌ xs ys)
        ≡ vadd p (map (λ z. floor_mod z p) xs) (map (λ z. floor_mod z p) ys)
  unfolding vadd
  map-floor_mod-+ℤ [] ys h = refl
  map-floor_mod-+ℤ (x ∷ xs) [] h = refl
  map-floor_mod-+ℤ (x ∷ xs) (y ∷ ys) h = ap₂ ◌∷◌ (floor_mod-+ℤ x y p h) (map-floor_mod-+ℤ xs ys h)

  pub map-floor_mod-IsVector :
      (xs : List ℤ) → 0 < p → IsVector p (length xs) (map (λ z. floor_mod z p) xs)
  map-floor_mod-IsVector [] h = record { size = refl; below = tt }
  map-floor_mod-IsVector (x ∷ xs) h =
      let rest = map-floor_mod-IsVector xs h in
      record { size = ap suc rest.size; below = (floor_mod-lt x p h, rest.below) }
