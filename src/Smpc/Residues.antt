-- ===== src/Smpc/Residues.antt =====
-- The int64 operations on residues below the modulus agree with arithmetic mod p.
use native.Mathlib.Nat.{
  zero-add, add-mod-mod, add-mul-mod_self_left, add-mod_right, mod-eq_of_lt, mod-lt, add-mod,
  mul-add-mod_self_left, div-add-mod,
}
use omni_aegis.Prelude.{
  ℕ, zero, suc, ◌+◌, ◌-◌, ◌*◌, ◌/◌, ◌%◌, ◌^◌, ◌≤◌, ◌<◌, ◌≡◌, sym, arith, ◌∙◌, Bool-cases, leb,
  lt→ltb, ge→ltb, leb→le, inl, inr, ap,
}
use omni_aegis.Prelude.Int.{ℤ, sub_ℕ, pos, negsuc, pos_part, neg_part, ◌+ℤ◌}
use omni_aegis.Smpc.{SmpcConfig, i64_add, i64_sub, floor_mod, magnitude, half_modulus, recover_sign}

module _ (p : ℕ) (fits : p ≤ 2 ^ 62) where
  pub floor_mod-i64_add : (a b : ℕ) → a < p → b < p → floor_mod (i64_add a b) p ≡ (a + b) % p
  floor_mod-i64_add a b ha hb = ground arith

  sub_no_borrow : (a b : ℕ) → a < p → b ≤ a → floor_mod (i64_sub a b) p ≡ a - b
  sub_no_borrow a b ha hb =
      let e : (a + 2 ^ 64 - b) % 2 ^ 64 ≡ a - b = omega arith in
      rw (e, lt→ltb (a - b) (2 ^ 63) (omega arith)) (mod-eq_of_lt (omega arith))

  sub_borrow : (a b : ℕ) → b < p → a < b → floor_mod (i64_sub a b) p ≡ a + p - b
  sub_borrow a b hb h =
      let e : (a + 2 ^ 64 - b) % 2 ^ 64 ≡ 2 ^ 64 - (b - a) = omega arith in
      let e' : 2 ^ 64 - (2 ^ 64 - (b - a)) - 1 ≡ b - a - 1 = omega arith in
      let small : (b - a - 1) % p ≡ b - a - 1 = mod-eq_of_lt (omega arith) in
      rw (e, ge→ltb (2 ^ 64 - (b - a)) (2 ^ 63) (omega arith), e', small) (omega arith)

  pub floor_mod-i64_sub : (a b : ℕ) → a < p → b < p → floor_mod (i64_sub a b) p ≡ (a + p - b) % p
  floor_mod-i64_sub a b ha hb = elim (Bool-cases (leb b a)) [
    | inl le ↦
        let e : a + p - b ≡ a - b + p = ground arith in
        sub_no_borrow a b ha (leb→le b a le)
        ∙ sym (rw (e, add-mod_right (a - b) p) (mod-eq_of_lt (omega arith)))
    | inr more ↦ sub_borrow a b hb (ground arith) ∙ sym (mod-eq_of_lt (ground arith))
  ]

  -- What a subtraction took away, an addition gives back.
  pub add_back : (a b : ℕ) → a < p → b < p → (b + floor_mod (i64_sub a b) p) % p ≡ a
  add_back a b ha hb =
      let e : b + (a + p - b) ≡ a + p = omega arith in
      rw (floor_mod-i64_sub a b ha hb, add-mod-mod b (a + p - b) p, e, add-mod_right a p)
        (mod-eq_of_lt ha)

pub floor_mod-lt : (z : ℤ) (p : ℕ) → 0 < p → floor_mod z p < p
floor_mod-lt (pos n) p h = mod-lt n h
floor_mod-lt (negsuc n) p h = omega arith

minus_one : (d r q : ℕ) → r ≤ q → suc (suc q * d + r) * q ≡ suc q * (d * q + r) + (q - r)
minus_one d r q h = omega arith

-- Modulo `suc q`, -1 is `q`.
floor_mod-parts : (z : ℤ) (q : ℕ) → floor_mod z (suc q) ≡ (pos_part z + neg_part z * q) % suc q
floor_mod-parts (pos n) q = ap (λ t. t % suc q) (omega arith)
floor_mod-parts (negsuc n) q =
    let d = n / suc q in
    let r = n % suc q in
    let below : r ≤ q = omega arith in
    let split : 0 + suc n * q ≡ suc q * (d * q + r) + (q - r) =
      zero-add _ ∙ ap (λ t. suc t * q) (sym (div-add-mod n (suc q))) ∙ minus_one d r q below in
    let reduced : suc q - suc r ≡ q - r = omega arith in
    rw (split, mul-add-mod_self_left (suc q) (d * q + r) (q - r))
      (reduced ∙ sym (mod-eq_of_lt (omega arith)))

-- Integers whose parts differ by the same amount have the same residue.
residue_shift : (P N k q : ℕ) → (P + k + (N + k) * q) % suc q ≡ (P + N * q) % suc q
residue_shift P N k q =
    let e : P + k + (N + k) * q ≡ P + N * q + suc q * k = omega arith in
    rw e (add-mul-mod_self_left (P + N * q) (suc q) k)

split_more : (P N q : ℕ) → P < N → P + N * q ≡ 0 + P + (suc (N - P - 1) + P) * q
split_more P N q h = let e : N ≡ suc (N - P - 1) + P = omega arith in rw (← e) (omega arith)

sub_ℕ-residue : (P N q : ℕ) → floor_mod (sub_ℕ P N) (suc q) ≡ (P + N * q) % suc q
sub_ℕ-residue P N q = floor_mod-parts (sub_ℕ P N) q ∙ elim (Bool-cases (leb N P)) [
  | inl le ↦
      let le' : N ≤ P = leb→le N P le in
      let e : P + N * q ≡ P - N + N + (0 + N) * q = omega arith in
      rw (le, e) (sym (residue_shift (P - N) 0 N q))
  | inr more ↦
      let more' : P < N = ground arith in
      let e : P + N * q ≡ 0 + P + (suc (N - P - 1) + P) * q = split_more P N q more' in
      rw (more, e) (sym (residue_shift 0 (suc (N - P - 1)) P q))
]

pub floor_mod-+ℤ :
    (x y : ℤ) (p : ℕ) → 0 < p → floor_mod (x +ℤ y) p ≡ (floor_mod x p + floor_mod y p) % p
unfolding ◌+ℤ◌
floor_mod-+ℤ x y zero h = absurd (omega arith)
floor_mod-+ℤ x y (suc q) h =
    rw (floor_mod-parts x q, floor_mod-parts y q)
      (sub_ℕ-residue (pos_part x + pos_part y) (neg_part x + neg_part y) q
        ∙ ap (λ t. t % suc q) (omega arith)
        ∙ add-mod (pos_part x + neg_part x * q) (pos_part y + neg_part y * q) (suc q))

-- Sign recovery undoes the projection of an integer that the modulus can tell from its negative.
pub recover_sign-floor_mod :
    (c : SmpcConfig) (z : ℤ)
    → 2 * magnitude z < c.prime_modulus
    → recover_sign c (floor_mod z c.prime_modulus) ≡ z
recover_sign-floor_mod c (pos n) h = rw (
  mod-eq_of_lt {n = n} {m = c.prime_modulus} (omega arith),
  ge→ltb (half_modulus c) n (omega arith),
)
recover_sign-floor_mod c (negsuc n) h =
    rw
      (
        mod-eq_of_lt {n = n} {m = c.prime_modulus} (omega arith),
        lt→ltb (half_modulus c) (c.prime_modulus - suc n) (omega arith),
      )
      (ground arith)
