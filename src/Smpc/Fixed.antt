-- ===== src/Smpc/Fixed.antt =====
-- The fixed-point encoding: `_decode_fixed` undoes `_encode_fixed`, and it never raises.
use omni_aegis.Prelude.{
  ℕ, ◌-◌, ◌*◌, ◌≤◌, ◌<◌, ◌≡◌, ◌≢◌, refl, ap, ap₂, false, List, [], ◌∷◌, map, arith, ltb, All,
  ge→ltb,
}
use omni_aegis.Prelude.Int.{ℤ}
use omni_aegis.Smpc.{
  SmpcConfig, Floats, ok, any, exceeds, int64_of, magnitude, half_modulus, floor_mod, recover_sign,
  encode_fixed, decode_fixed,
}
use omni_aegis.Smpc.Residues.{recover_sign-floor_mod}

-- After the sign recovery a residue lies within half the modulus.
magnitude-recover_sign-le :
    (c : SmpcConfig) (v : ℕ) → v < c.prime_modulus → magnitude (recover_sign c v) ≤ half_modulus c
magnitude-recover_sign-le c v h = ground arith

module _ (fl : Floats) (c : SmpcConfig) where
  open fl use {Float, as_f64, as_f64_mono, rint_scaled, to_float}

  no_overflow :
      (vs : List ℕ)
      → All (λ v. v < c.prime_modulus) vs
      → any (λ s. ltb (as_f64 (half_modulus c)) (as_f64 (magnitude s))) (map (recover_sign c) vs)
        ≡ false
  no_overflow [] h = refl
  no_overflow (v ∷ vs) h =
      rw
        (ge→ltb (as_f64 (half_modulus c)) (as_f64 (magnitude (recover_sign c v)))
          (as_f64_mono _ _ (magnitude-recover_sign-le c v h.0)))
        (no_overflow vs h.1)

  -- The overflow check of `_decode_fixed` passes every array of residues that has a dimension, so the function returns
  -- the scaled signed values, whatever the sum was before its reduction.
  pub decode_fixed-eq-ok :
      (shape vs : List ℕ)
      → shape ≢ []
      → All (λ v. v < c.prime_modulus) vs
      → decode_fixed fl c shape vs ≡ ok (map (to_float c.scale_factor) (map (recover_sign c) vs))
  unfolding decode_fixed
  decode_fixed-eq-ok [] vs dim h = absurd (dim refl)
  decode_fixed-eq-ok (d ∷ ds) vs dim h = rw (no_overflow vs h)

  pub encode_fixed-eq-ok :
      (values : List Float)
      → any (exceeds fl (half_modulus c - 1)) (map (rint_scaled c.scale_factor) values) ≡ false
      → encode_fixed fl c values
        ≡ ok (
            map
              (λ s. floor_mod s c.prime_modulus)
              (map (int64_of fl) (map (rint_scaled c.scale_factor) values)))
  unfolding encode_fixed
  encode_fixed-eq-ok values h = rw h

-- The representative of an integer modulo the prime in the signed range.
unfoldable pub wrapped : SmpcConfig → ℤ → ℤ
wrapped c z = recover_sign c (floor_mod z c.prime_modulus)

module _ (c : SmpcConfig) where
  pub map-wrapped :
      (zs : List ℤ)
      → map (recover_sign c) (map (λ z. floor_mod z c.prime_modulus) zs) ≡ map (wrapped c) zs
  unfolding wrapped
  map-wrapped [] = refl
  map-wrapped (z ∷ zs) = ap (◌∷◌ (wrapped c z)) (map-wrapped zs)

  pub map-wrapped_small :
      (zs : List ℤ) → All (λ z. 2 * magnitude z < c.prime_modulus) zs → map (wrapped c) zs ≡ zs
  unfolding wrapped
  map-wrapped_small [] h = refl
  map-wrapped_small (z ∷ zs) h = ap₂ ◌∷◌ (recover_sign-floor_mod c z h.0) (map-wrapped_small zs h.1)
