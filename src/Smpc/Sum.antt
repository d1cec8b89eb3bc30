-- ===== src/Smpc/Sum.antt =====
-- `secure_sum`: the parties' shares add up to the sum of the clients' tensors.
mod Parties
use native.Mathlib.Nat.{zero-mod}
use omni_aegis.Prelude.{
  ℕ, zero, suc, ◌+◌, ◌-◌, ◌*◌, ◌^◌, ◌≤◌, ◌<◌, ◌≡◌, refl, sym, ap, ap₂, ◌∙◌, ◌≢◌, Bool, true, false,
  List, [], ◌∷◌, ◌++◌, map, foldl, arith, length, replicate, zip_with, All, ltb, ge→ltb, length-map,
  length-replicate,
}
use omni_aegis.Prelude.Int.{ℤ, pos, ◌+ℤ◌}
use omni_aegis.Smpc.{
  SmpcConfig, Floats, Tensor, Outcome, ok, raise, any, exceeds, int64_of, magnitude, half_modulus,
  floor_mod, encode_fixed, decode_fixed, split_into_shares, append_shares, party_sum, gather,
  sum_partials, check_shapes, share_clients, prepare, reconstruct, secure_sum, same_shape,
  count_failure, ◌>>=◌,
}
use omni_aegis.Smpc.Fixed.{
  decode_fixed-eq-ok, encode_fixed-eq-ok, wrapped, map-wrapped, map-wrapped_small,
}
use omni_aegis.Smpc.Shares.{
  DrawsBelow, length-split_into_shares, split_into_shares-sum, split_into_shares-IsVector,
}
use omni_aegis.Smpc.Vectors.{
  IsVector, vadd, vadd_comm, vadd_assoc, vadd-zeros, vadd-IsVector, zeros, vsum, vsum-IsVector,
  foldl-add_mod-zeros, map-floor_mod-+ℤ, map-floor_mod-IsVector, zeros-IsVector,
}
use Parties.{
  deal, append_shares-deal, length-deal, held, held-deal, Dealt, Holding, Dealt-deal,
  Holding-of_Dealt, Holding-replicate, gather-vsum, sum_partials-held, held_nil, held-IsVector,
}

module _ (fl : Floats) (c : SmpcConfig) where
  open fl use {Float, as_f64, rint_scaled, to_float}

  -- A client's tensor as scaled integers, and as residues; a NaN is the integer that it is converted
  -- to.
  abbrev pub scaled : Tensor Float → List ℤ
  scaled t = map (int64_of fl) (map (rint_scaled c.scale_factor) t.values)

  abbrev residues : Tensor Float → List ℕ
  residues t = map (λ z. floor_mod z c.prime_modulus) (scaled t)

  -- The elementwise sum of the scaled tensors, over the integers.
  unfoldable pub exact_sum : ℕ → List (Tensor Float) → List ℤ
  exact_sum n [] = replicate n (pos 0)
  exact_sum n (t ∷ ts) = zip_with ◌+ℤ◌ (scaled t) (exact_sum n ts)

  -- A tensor of the reference shape that passes the overflow check of `_encode_fixed`.
  pub record Encodable (shape : List ℕ) (n : ℕ) (t : Tensor Float) : Type 0 where
    pub shaped : same_shape t.shape shape ≡ true
    pub size : length t.values ≡ n
    pub in_range :
        any (exceeds fl (half_modulus c - 1)) (map (rint_scaled c.scale_factor) t.values) ≡ false

  check_shapes-ok :
      (shape : List ℕ) (n idx : ℕ) (ts : List (Tensor Float))
      → All (Encodable shape n) ts
      → check_shapes fl shape idx ts ≡ ok tt
  unfolding check_shapes
  check_shapes-ok shape n idx [] h = refl
  check_shapes-ok shape n idx (t ∷ ts) h =
      rw (h.0.shaped) (check_shapes-ok shape n (idx + 1) ts h.1)

  vsum-exact_sum :
      (n : ℕ) (ts : List (Tensor Float))
      → 0 < c.prime_modulus
      → vsum c.prime_modulus n (map residues ts)
        ≡ map (λ z. floor_mod z c.prime_modulus) (exact_sum n ts)
  unfolding vsum exact_sum
  vsum-exact_sum n [] h = zeros_lem n
    where
      zeros_lem : (k : ℕ) → zeros k ≡ map (λ z. floor_mod z c.prime_modulus) (replicate k (pos 0))
      zeros_lem zero = refl
      zeros_lem (suc k) = ap₂ ◌∷◌ (sym (zero-mod c.prime_modulus)) (zeros_lem k)
  vsum-exact_sum n (t ∷ ts) h =
      ap (vadd c.prime_modulus (residues t)) (vsum-exact_sum n ts h)
      ∙ sym (map-floor_mod-+ℤ c.prime_modulus (scaled t) (exact_sum n ts) h)

  residues-IsVector :
      (shape : List ℕ) (n : ℕ) (t : Tensor Float)
      → 0 < c.prime_modulus
      → Encodable shape n t
      → IsVector c.prime_modulus n (residues t)
  residues-IsVector shape n t h e =
      let v = map-floor_mod-IsVector c.prime_modulus (scaled t) h in
      record {
        size =
            v.size
            ∙ length-map (map (rint_scaled c.scale_factor) t.values) (int64_of fl)
            ∙ length-map t.values (rint_scaled c.scale_factor)
            ∙ e.size;
        below = v.below;
      }

  module _ (fits : c.prime_modulus ≤ 2 ^ 62) (positive : 0 < c.prime_modulus)
      (some_party : 0 < c.parties) (draw : ℕ → ℕ → ℕ → ℕ)
      (drawn : (i : ℕ) → DrawsBelow c.prime_modulus (draw i)) (shape : List ℕ) (n : ℕ) where
    shares_of : ℕ → Tensor Float → List (List ℕ)
    shares_of i t = split_into_shares c (draw i) (residues t)

    shares_of-IsVector :
        (i : ℕ) (t : Tensor Float)
        → Encodable shape n t
        → All (IsVector c.prime_modulus n) (shares_of i t)
    unfolding shares_of
    shares_of-IsVector i t e =
        let v = residues-IsVector shape n t positive e in
        rw v.size at
          (split_into_shares-IsVector c fits positive (draw i) (drawn i) (residues t) v.below)

    shares_of-sum :
        (i : ℕ) (t : Tensor Float)
        → Encodable shape n t
        → vsum c.prime_modulus n (shares_of i t) ≡ residues t
    unfolding shares_of
    shares_of-sum i t e =
        let v = residues-IsVector shape n t positive e in
        sym (
          foldl-add_mod-zeros c.prime_modulus fits positive n (shares_of i t)
            (shares_of-IsVector i t e))
        ∙ rw v.size at
            (split_into_shares-sum c fits positive (draw i) (drawn i) (residues t) v.below)

    length-shares_of : (i : ℕ) (t : Tensor Float) → length (shares_of i t) ≡ c.parties
    unfolding shares_of
    length-shares_of i t = length-split_into_shares c (draw i) (residues t) some_party

    share_clients-cons :
        (i : ℕ) (parties : List (List (List ℕ))) (t : Tensor Float) (ts : List (Tensor Float))
        → length parties ≡ c.parties
        → Encodable shape n t
        → share_clients fl c draw i parties (t ∷ ts)
          ≡ share_clients fl c draw (i + 1) (deal parties (shares_of i t)) ts
    unfolding share_clients shares_of
    share_clients-cons i parties t ts h e = rw (
      encode_fixed-eq-ok fl c t.values e.in_range,
      append_shares-deal parties (split_into_shares c (draw i) (residues t))
          (h ∙ sym (length-shares_of i t)),
    )

    record Dealing (parties : List (List (List ℕ))) (total : List ℕ) : Type 0 where
      count : length parties ≡ c.parties
      dealt : Dealt c.prime_modulus n parties
      sum : held c.prime_modulus n parties ≡ total

    deal-Dealing :
        (i : ℕ) (parties : List (List (List ℕ))) (total : List ℕ) (t : Tensor Float)
        → length parties ≡ c.parties
        → Holding c.prime_modulus n parties
        → held c.prime_modulus n parties ≡ total
        → Encodable shape n t
        → Dealing (deal parties (shares_of i t)) (vadd c.prime_modulus total (residues t))
    deal-Dealing i parties total t h d s e =
        let h' = h ∙ sym (length-shares_of i t) in
        record {
          count = length-deal parties (shares_of i t) h' ∙ h;
          dealt = Dealt-deal c.prime_modulus n parties (shares_of i t) d (shares_of-IsVector i t e);
          sum =
              held-deal c.prime_modulus n parties (shares_of i t) h' positive
              ∙ ap₂ (vadd c.prime_modulus) s (shares_of-sum i t e);
        }

    share_clients-Dealing :
        (i : ℕ) (parties : List (List (List ℕ))) (total : List ℕ) (ts : List (Tensor Float))
        → IsVector c.prime_modulus n total
        → Dealing parties total
        → All (Encodable shape n) ts
        → (parties' : List (List (List ℕ))) × (share_clients fl c draw i parties ts ≡ ok parties')
          × Dealing parties' (vadd c.prime_modulus total (vsum c.prime_modulus n (map residues ts)))
    unfolding vsum
    share_clients-Dealing i parties total [] v d es =
        (parties, unfold share_clients in refl, rw (vadd-zeros c.prime_modulus n total v) d)
    share_clients-Dealing i parties total (t ∷ ts) v d es =
        let h = Holding-of_Dealt c.prime_modulus n parties d.dealt in
        let d' = deal-Dealing i parties total t d.count h d.sum es.0 in
        let v' =
          vadd-IsVector c.prime_modulus n total (residues t) positive v
            (residues-IsVector shape n t positive es.0) in
        let (parties', e, done) = share_clients-Dealing (i + 1) _ _ ts v' d' es.1 in
        (
          parties',
          share_clients-cons i parties t ts d.count es.0 ∙ e,
          rw (vadd_assoc c.prime_modulus total (residues t)) at done,
        )

    -- The whole loop, from empty parties.
    share_clients-ok :
        (t : Tensor Float) (ts : List (Tensor Float))
        → All (Encodable shape n) (t ∷ ts)
        → (parties : List (List (List ℕ))) × (share_clients fl c draw 0
              (replicate c.parties [])
              (t ∷ ts)
            ≡ ok parties)
          × Dealing parties (vsum c.prime_modulus n (map residues (t ∷ ts)))
    unfolding vsum
    share_clients-ok t ts es =
        let p = c.prime_modulus in
        let k = length-replicate c.parties [] in
        let start = Holding-replicate p n c.parties in
        let first = deal-Dealing 0 _ (zeros n) t k start (held_nil p n c.parties positive) es.0 in
        let v = residues-IsVector shape n t positive es.0 in
        let e = vadd_comm p (zeros n) (residues t) ∙ vadd-zeros p n (residues t) v in
        let d : Dealing (deal (replicate c.parties []) (shares_of 0 t)) (residues t) =
          rw e at first in
        let (parties, shared, done) = share_clients-Dealing 1 _ _ ts v d es.1 in
        (parties, share_clients-cons 0 _ t ts k es.0 ∙ shared, done)

    reconstruct-modular :
        (parties : List (List (List ℕ))) (zs : List ℤ)
        → shape ≢ []
        → Dealing parties (map (λ z. floor_mod z c.prime_modulus) zs)
        → reconstruct fl c shape parties
          ≡ ok (record {
            shape = shape;
            values = map (to_float c.scale_factor) (map (wrapped c) zs);
          })
    unfolding reconstruct
    reconstruct-modular parties zs dim d =
        let v = map-floor_mod-IsVector c.prime_modulus zs positive in
        rw (
          gather-vsum c fits positive n parties d.dealt,
          sum_partials-held c fits positive n parties (rw d.count some_party) d.dealt,
          d.sum,
          decode_fixed-eq-ok fl c shape (map (λ z. floor_mod z c.prime_modulus) zs) dim v.below,
          map-wrapped c zs,
        )

  prepare-ok :
      (draw : ℕ → ℕ → ℕ → ℕ) (t : Tensor Float) (ts : List (Tensor Float))
      (parties : List (List (List ℕ)))
      → c.min_clients ≤ length (t ∷ ts)
      → All (Encodable t.shape (length t.values)) (t ∷ ts)
      → share_clients fl c draw 0 (replicate c.parties []) (t ∷ ts) ≡ ok parties
      → prepare fl c draw (t ∷ ts) ≡ ok (t.shape, parties)
  unfolding prepare
  prepare-ok draw t ts parties enough es shared = rw (
    prepare,
    ge→ltb (length (t ∷ ts)) c.min_clients enough,
    check_shapes-ok t.shape (length t.values) 0 (t ∷ ts) es,
    shared,
  )

  -- With enough clients of one shape, which has a dimension, whose values pass the encoder's overflow check, `secure_sum`
  -- returns, whatever random shares are drawn (a NaN passes that check and counts as the int64 that
  -- it is converted to): each element is the exact sum reduced modulo the
  -- prime into the signed range. A sum beyond that range is not reported, and the error gauge
  -- stays as it was.
  pub secure_sum-modular :
      (draw : ℕ → ℕ → ℕ → ℕ) (t : Tensor Float) (ts : List (Tensor Float)) (errors : ℕ)
      → c.prime_modulus ≤ 2 ^ 62
      → 0 < c.prime_modulus
      → 0 < c.parties
      → t.shape ≢ []
      → ((i : ℕ) → DrawsBelow c.prime_modulus (draw i))
      → c.min_clients ≤ length (t ∷ ts)
      → All (Encodable t.shape (length t.values)) (t ∷ ts)
      → secure_sum fl c draw (t ∷ ts) errors ≡ (
        ok (record {
          shape = t.shape;
          values =
              map
                (to_float c.scale_factor)
                (map (wrapped c) (exact_sum (length t.values) (t ∷ ts)));
        }),
        errors,
      )
  unfolding secure_sum
  secure_sum-modular draw t ts errors fits positive some_party dim drawn enough es =
      let n = length t.values in
      let (parties, shared, d) =
        share_clients-ok fits positive some_party draw drawn t.shape n t ts es in
      let d' = rw (vsum-exact_sum n (t ∷ ts) positive) at d in
      rw (
        secure_sum,
        prepare-ok draw t ts parties enough es shared,
        reconstruct-modular fits positive some_party draw drawn t.shape n parties _ dim d',
      )

  -- With enough clients of one shape, which has a dimension, whose values pass the encoder's overflow
  -- check, and whose scaled values (a NaN is the int64 that it is converted to) have an exact
  -- elementwise sum below half the modulus in magnitude, `secure_sum` returns that exact sum, scaled
  -- back, whatever random shares are drawn, and the error gauge stays as it was.
  pub secure_sum-exact :
      (draw : ℕ → ℕ → ℕ → ℕ) (t : Tensor Float) (ts : List (Tensor Float)) (errors : ℕ)
      → c.prime_modulus ≤ 2 ^ 62
      → 0 < c.prime_modulus
      → 0 < c.parties
      → t.shape ≢ []
      → ((i : ℕ) → DrawsBelow c.prime_modulus (draw i))
      → c.min_clients ≤ length (t ∷ ts)
      → All (Encodable t.shape (length t.values)) (t ∷ ts)
      → All (λ z. 2 * magnitude z < c.prime_modulus) (exact_sum (length t.values) (t ∷ ts))
      → secure_sum fl c draw (t ∷ ts) errors ≡ (
        ok (record {
          shape = t.shape;
          values = map (to_float c.scale_factor) (exact_sum (length t.values) (t ∷ ts));
        }),
        errors,
      )
  secure_sum-exact draw t ts errors fits positive some_party dim drawn enough es small = rw (
    secure_sum-modular draw t ts errors fits positive some_party dim drawn enough es,
    map-wrapped_small c (exact_sum (length t.values) (t ∷ ts)) small,
  )
