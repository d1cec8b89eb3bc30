-- ===== src/Smpc/Sum/Parties.antt =====
-- The shares that the parties hold while `secure_sum` deals them out, and what they add up to.
use omni_aegis.Prelude.{
  ℕ, zero, suc, ◌^◌, ◌≤◌, ◌<◌, ◌≡◌, refl, sym, ap, ap₂, ◌∙◌, List, [], ◌∷◌, ◌++◌, map, arith,
  length, replicate, zip_with, All, length-append,
}
use omni_aegis.Smpc.{SmpcConfig, ok, append_shares, party_sum, gather, sum_partials}
use omni_aegis.Smpc.Vectors.{
  IsVector, vadd, vadd_swap, zeros, vsum, vsum-snoc, vsum-IsVector, foldl-add_mod-zeros, vadd-zeros,
  vadd-IsVector, zeros-IsVector,
}

-- One more share for each party.
abbrev pub deal : List (List (List ℕ)) → List (List ℕ) → List (List (List ℕ))
deal = zip_with (λ party share. party ++ share ∷ [])

pub append_shares-deal :
    (parties : List (List (List ℕ))) (shares : List (List ℕ))
    → length parties ≡ length shares
    → append_shares parties shares ≡ ok (deal parties shares)
unfolding append_shares
append_shares-deal [] [] h = refl
append_shares-deal [] (s ∷ ss) h = absurd (omega arith)
append_shares-deal (p ∷ ps) [] h = absurd (omega arith)
append_shares-deal (p ∷ ps) (s ∷ ss) h = rw (append_shares-deal ps ss (omega arith))

pub length-deal :
    (parties : List (List (List ℕ))) (shares : List (List ℕ))
    → length parties ≡ length shares
    → length (deal parties shares) ≡ length parties
length-deal [] ss h = refl
length-deal (p ∷ ps) [] h = absurd (omega arith)
length-deal (p ∷ ps) (s ∷ ss) h = ap suc (length-deal ps ss (omega arith))

-- The sum over the parties of what each party holds.
abbrev pub held : ℕ → ℕ → List (List (List ℕ)) → List ℕ
held p n parties = vsum p n (map (vsum p n) parties)

pub held-deal :
    (p n : ℕ) (parties : List (List (List ℕ))) (shares : List (List ℕ))
    → length parties ≡ length shares
    → 0 < p
    → held p n (deal parties shares) ≡ vadd p (held p n parties) (vsum p n shares)
unfolding vsum
held-deal p n [] [] h hp = sym (vadd-zeros p n (zeros n) (zeros-IsVector p n hp))
held-deal p n [] (s ∷ ss) h hp = absurd (omega arith)
held-deal p n (party ∷ ps) [] h hp = absurd (omega arith)
held-deal p n (party ∷ ps) (s ∷ ss) h hp =
    ap₂ (vadd p) (vsum-snoc p n party s) (held-deal p n ps ss (omega arith) hp)
    ∙ vadd_swap p (vsum p n party) s (held p n ps) (vsum p n ss)

-- Every party holds at least one share, and all shares have the size `n`.
abbrev pub Dealt : ℕ → ℕ → List (List (List ℕ)) → Type 0
Dealt p n = All (λ party. (0 < length party) × All (IsVector p n) party)

abbrev pub Holding : ℕ → ℕ → List (List (List ℕ)) → Type 0
Holding p n = All (λ party. All (IsVector p n) party)

All-snoc :
    (P : List ℕ → Type 0) (xs : List (List ℕ)) (x : List ℕ) → All P xs → P x → All P (xs ++ x ∷ [])
All-snoc P [] x h k = (k, tt)
All-snoc P (y ∷ xs) x h k = (h.0, All-snoc P xs x h.1 k)

pub Dealt-deal :
    (p n : ℕ) (parties : List (List (List ℕ))) (shares : List (List ℕ))
    → Holding p n parties
    → All (IsVector p n) shares
    → Dealt p n (deal parties shares)
Dealt-deal p n [] ss h v = tt
Dealt-deal p n (party ∷ ps) [] h v = tt
Dealt-deal p n (party ∷ ps) (s ∷ ss) h v = (
  (omega (arith, length-append party (s ∷ [])), All-snoc (IsVector p n) party s h.0 v.0),
  Dealt-deal p n ps ss h.1 v.1,
)

-- Parties that hold nothing add up to zero.
pub held_nil : (p n k : ℕ) → 0 < p → held p n (replicate k []) ≡ zeros n
unfolding vsum
held_nil p n zero h = refl
held_nil p n (suc k) h =
    ap (vadd p (zeros n)) (held_nil p n k h) ∙ vadd-zeros p n (zeros n) (zeros-IsVector p n h)

pub held-IsVector :
    (p n : ℕ) (parties : List (List (List ℕ)))
    → 0 < p
    → Holding p n parties
    → IsVector p n (held p n parties)
unfolding vsum
held-IsVector p n [] h d = zeros-IsVector p n h
held-IsVector p n (party ∷ ps) h d =
    vadd-IsVector p n (vsum p n party) _ h (vsum-IsVector p n party h d.0)
      (held-IsVector p n ps h d.1)

pub Holding-of_Dealt :
    (p n : ℕ) (parties : List (List (List ℕ))) → Dealt p n parties → Holding p n parties
Holding-of_Dealt p n [] h = tt
Holding-of_Dealt p n (party ∷ ps) h = (h.0.1, Holding-of_Dealt p n ps h.1)

pub Holding-replicate : (p n k : ℕ) → Holding p n (replicate k [])
Holding-replicate p n zero = tt
Holding-replicate p n (suc k) = (tt, Holding-replicate p n k)

module _ (c : SmpcConfig) (fits : c.prime_modulus ≤ 2 ^ 62) (positive : 0 < c.prime_modulus) where
  pub party_sum-vsum :
      (n : ℕ) (party : List (List ℕ))
      → 0 < length party
      → All (IsVector c.prime_modulus n) party
      → party_sum c party ≡ ok (vsum c.prime_modulus n party)
  unfolding party_sum
  party_sum-vsum n [] h v = elim h [ ]
  party_sum-vsum n (s ∷ ss) h v =
      rw (v.0.size) (ap ok (foldl-add_mod-zeros c.prime_modulus fits positive n (s ∷ ss) v))

  pub gather-vsum :
      (n : ℕ) (parties : List (List (List ℕ)))
      → Dealt c.prime_modulus n parties
      → gather c parties ≡ ok (map (vsum c.prime_modulus n) parties)
  unfolding gather
  gather-vsum n [] h = refl
  gather-vsum n (party ∷ ps) h = rw (party_sum-vsum n party h.0.0 h.0.1, gather-vsum n ps h.1)

  pub sum_partials-held :
      (n : ℕ) (parties : List (List (List ℕ)))
      → 0 < length parties
      → Dealt c.prime_modulus n parties
      → sum_partials c (map (vsum c.prime_modulus n) parties) ≡ ok (held c.prime_modulus n parties)
  unfolding sum_partials
  sum_partials-held n [] h d = elim h [ ]
  sum_partials-held n (party ∷ ps) h d =
      let v = vectors (party ∷ ps) d in
      rw v.0.size (
        ap ok (
          foldl-add_mod-zeros c.prime_modulus fits positive n
            (map (vsum c.prime_modulus n) (party ∷ ps)) v))
    where
      vectors :
          (qs : List (List (List ℕ)))
          → Dealt c.prime_modulus n qs
          → All (IsVector c.prime_modulus n) (map (vsum c.prime_modulus n) qs)
      vectors [] d = tt
      vectors (q ∷ qs) d = (vsum-IsVector c.prime_modulus n q positive d.0.1, vectors qs d.1)
