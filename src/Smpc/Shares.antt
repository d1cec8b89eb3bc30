-- ===== src/Smpc/Shares.antt =====
-- `_split_into_shares`: what the shares add up to, and what the first parties learn.
use omni_aegis.Prelude.{
  ℕ, zero, suc, ◌+◌, ◌-◌, ◌^◌, ◌≤◌, ◌<◌, ◌≡◌, refl, ap, ◌∙◌, List, ◌∷◌, foldl, arith, length, take,
  All,
}
use omni_aegis.Smpc.{SmpcConfig, add_mod, sub_mod, tabulate, split_loop, split_into_shares}
use omni_aegis.Smpc.Vectors.{
  IsVector, zeros, zeros-IsVector, add_mod-IsVector, add_mod-vadd, vadd-sub_mod, sub_mod-IsVector,
}

-- `secrets.randbelow(n)` is below `n`.
abbrev pub DrawsBelow : ℕ → (ℕ → ℕ → ℕ) → Type 0
DrawsBelow p draw = (k i : ℕ) → draw k i < p

tabulate-IsVector :
    (p : ℕ) (f : ℕ → ℕ) → ((i : ℕ) → f i < p) → (i n : ℕ) → IsVector p n (tabulate f i n)
tabulate-IsVector p f h i zero = record { size = refl; below = tt }
tabulate-IsVector p f h i (suc n) =
    let rest = tabulate-IsVector p f h (i + 1) n in
    record { size = ap suc rest.size; below = (h i, rest.below) }

module _ (c : SmpcConfig) (draw : ℕ → ℕ → ℕ) where
  length-split_loop :
      (rounds k : ℕ) (running encoded : List ℕ)
      → length (split_loop c draw rounds k running encoded) ≡ rounds + 1
  unfolding split_loop
  length-split_loop zero k running encoded = omega arith
  length-split_loop (suc rounds) k running encoded = omega (
    arith,
    length-split_loop rounds (k + 1)
        (add_mod c.prime_modulus running (tabulate (draw k) 0 (length encoded))) encoded,
  )

  take-split_loop :
      (rounds k : ℕ) (running e e' : List ℕ)
      → length e ≡ length e'
      → take rounds (split_loop c draw rounds k running e)
        ≡ take rounds (split_loop c draw rounds k running e')
  unfolding split_loop
  take-split_loop zero k running e e' h = refl
  take-split_loop (suc rounds) k running e e' h = rw h (
      ap (◌∷◌ (tabulate (draw k) 0 (length e'))) (
        take-split_loop rounds (k + 1)
          (add_mod c.prime_modulus running (tabulate (draw k) 0 (length e'))) e e' h))

  -- The shares of all parties but the last are the random numbers that were drawn: they are the
  -- same for any two arrays of one length.
  pub take-split_into_shares :
      (e e' : List ℕ)
      → length e ≡ length e'
      → take (c.parties - 1) (split_into_shares c draw e)
        ≡ take (c.parties - 1) (split_into_shares c draw e')
  unfolding split_into_shares
  take-split_into_shares e e' h =
      rw h (take-split_loop (c.parties - 1) 0 (zeros (length e')) e e' h)

  -- One share for each party, if there is a party.
  pub length-split_into_shares :
      (encoded : List ℕ) → 0 < c.parties → length (split_into_shares c draw encoded) ≡ c.parties
  unfolding split_into_shares
  length-split_into_shares encoded h =
      omega (arith, length-split_loop (c.parties - 1) 0 (zeros (length encoded)) encoded)

module _ (c : SmpcConfig) (fits : c.prime_modulus ≤ 2 ^ 62) (positive : 0 < c.prime_modulus)
    (draw : ℕ → ℕ → ℕ) (drawn : DrawsBelow c.prime_modulus draw) where
  share-IsVector :
      (k n : ℕ) (encoded : List ℕ)
      → length encoded ≡ n
      → IsVector c.prime_modulus n (tabulate (draw k) 0 (length encoded))
  share-IsVector k n encoded e =
      let u = tabulate-IsVector c.prime_modulus (draw k) (drawn k) 0 (length encoded) in
      record { size = u.size ∙ e; below = u.below }

  split_loop-sum :
      (rounds k n : ℕ) (running encoded : List ℕ)
      → IsVector c.prime_modulus n running
      → IsVector c.prime_modulus n encoded
      → foldl (add_mod c.prime_modulus) running (split_loop c draw rounds k running encoded)
        ≡ encoded
  unfolding split_loop
  split_loop-sum zero k n running encoded v w =
      let p = c.prime_modulus in
      add_mod-vadd p fits positive running (sub_mod p encoded running) v.below
        (sub_mod-IsVector p fits positive n encoded running w v).below
      ∙ vadd-sub_mod p fits positive n encoded running w v
  split_loop-sum (suc rounds) k n running encoded v w =
      let p = c.prime_modulus in
      let share = tabulate (draw k) 0 (length encoded) in
      let u =
        add_mod-IsVector p fits positive n running share v (share-IsVector k n encoded w.size) in
      split_loop-sum rounds (k + 1) n (add_mod p running share) encoded u w

  split_loop-IsVector :
      (rounds k n : ℕ) (running encoded : List ℕ)
      → IsVector c.prime_modulus n running
      → IsVector c.prime_modulus n encoded
      → All (IsVector c.prime_modulus n) (split_loop c draw rounds k running encoded)
  unfolding split_loop
  split_loop-IsVector zero k n running encoded v w =
      (sub_mod-IsVector c.prime_modulus fits positive n encoded running w v, tt)
  split_loop-IsVector (suc rounds) k n running encoded v w =
      let p = c.prime_modulus in
      let share = tabulate (draw k) 0 (length encoded) in
      let u = share-IsVector k n encoded w.size in
      let u' = add_mod-IsVector p fits positive n running share v u in
      (u, split_loop-IsVector rounds (k + 1) n (add_mod p running share) encoded u' w)

  -- Whatever was drawn, the shares of an array of residues add up to it modulo the prime.
  pub split_into_shares-sum :
      (encoded : List ℕ)
      → All (λ a. a < c.prime_modulus) encoded
      → foldl (add_mod c.prime_modulus) (zeros (length encoded)) (split_into_shares c draw encoded)
        ≡ encoded
  unfolding split_into_shares
  split_into_shares-sum encoded h =
      split_loop-sum (c.parties - 1) 0 (length encoded) (zeros (length encoded)) encoded
        (zeros-IsVector c.prime_modulus (length encoded) positive)
        (record { size = refl; below = h })

  pub split_into_shares-IsVector :
      (encoded : List ℕ)
      → All (λ a. a < c.prime_modulus) encoded
      → All (IsVector c.prime_modulus (length encoded)) (split_into_shares c draw encoded)
  unfolding split_into_shares
  split_into_shares-IsVector encoded h =
      split_loop-IsVector (c.parties - 1) 0 (length encoded) (zeros (length encoded)) encoded
        (zeros-IsVector c.prime_modulus (length encoded) positive)
        (record { size = refl; below = h })
