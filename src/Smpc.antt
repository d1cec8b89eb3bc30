-- ===== src/Smpc.antt =====
-- Additive secret sharing over fixed-point tensors
-- (decision_layer/services/fl_coordinator/smpc_aggregator.py).
-- A tensor is its shape with its elements in order. The int64 arithmetic of the arrays is written
-- out with its wrap at 2 ^ 64. The floating-point type, its roundings and its comparisons are the
-- parameter `Floats`, and the numbers drawn by `secrets.randbelow` are a function of the client,
-- the party and the element.
mod Residues
mod Vectors
pub mod Shares
pub mod Fixed
pub mod Sum
mod Tests
use omni_aegis.Prelude.{
  ℕ, zero, suc, ◌+◌, ◌-◌, ◌/◌, ◌%◌, ◌^◌, ◌≤◌, Bool, true, false, ◌&&◌, ◌||◌, List, [], ◌∷◌, ◌++◌,
  map, foldl, ltb, if◌then◌else◌, length, replicate, zip_with, ◌==◌,
}
use omni_aegis.Prelude.Int.{ℤ, pos, negsuc, pos_part, neg_part, sub_ℕ}

-- `SMPCConfig`.
pub record SmpcConfig : Type 0 where
  pub parties : ℕ
  pub prime_modulus : ℕ
  pub min_clients : ℕ
  pub scale_factor : ℕ

abbrev pub scale_bits : ℕ
scale_bits = 16

abbrev pub default_prime : ℕ
default_prime = 2_305_843_009_213_693_951

abbrev pub default_config : SmpcConfig
default_config = record {
  parties = 3;
  prime_modulus = default_prime;
  min_clients = 2;
  scale_factor = 2 ^ scale_bits;
}

-- The exceptions of the module, the `IndexError` of an index out of range, and the `TypeError` of
-- an assignment to an item of a numpy scalar.
pub data SmpcError : Type 0 where
  overflow_error : SmpcError
  node_dropout_error : SmpcError
  shape_mismatch : ℕ → SmpcError
  index_error : SmpcError
  type_error : SmpcError

pub data Outcome {ℓ} (A : Type ℓ) : Type ℓ where
  ok : A → Outcome A
  raise : SmpcError → Outcome A

infixl 5 ◌>>=◌
abbrev pub ◌>>=◌ {ℓ κ} : {A : Type ℓ} {B : Type κ} → Outcome A → (A → Outcome B) → Outcome B
ok a >>= f = f a
raise e >>= f = raise e

-- A rounded double: an integer, plus or minus infinity, or NaN.
pub data Scaled : Type 0 where
  whole : ℤ → Scaled
  infinite : Scaled
  not_a_number : Scaled

-- IEEE floats and numpy's conversions. `as_f64 n` is the double nearest to the integer `n`, so it
-- is monotone. `rint_scaled s v` is `np.rint(float64(v) * float(s))`; `invalid_as_i64` is the int64
-- that the platform converts a NaN or an infinity to; `to_float s n` is
-- `float32(float64(n) / float(s))`.
pub record Floats : Type 1 where
  pub Float : Type 0
  pub as_f64 : ℕ → ℕ
  pub as_f64_mono : (a b : ℕ) → a ≤ b → as_f64 a ≤ as_f64 b
  pub rint_scaled : ℕ → Float → Scaled
  pub invalid_as_i64 : ℤ
  pub to_float : ℕ → ℤ → Float
  pub divide : Float → ℕ → Float

pub record Tensor (A : Type 0) : Type 0 where
  pub shape : List ℕ
  pub values : List A

-- int64: the number that a 64-bit pattern stands for, and `+`, `-` with their wrap.
abbrev pub signed64 : ℕ → ℤ
signed64 w = if ltb w (2 ^ 63) then pos w else negsuc (2 ^ 64 - w - 1)

abbrev pub i64_add : ℕ → ℕ → ℤ
i64_add a b = signed64 ((a + b) % 2 ^ 64)

abbrev pub i64_sub : ℕ → ℕ → ℤ
i64_sub a b = signed64 ((a + 2 ^ 64 - b) % 2 ^ 64)

-- `%` of Python and numpy, whose result has the sign of the positive modulus.
abbrev pub floor_mod : ℤ → ℕ → ℕ
floor_mod (pos n) p = n % p
floor_mod (negsuc n) p = p - suc (n % p)

abbrev pub magnitude : ℤ → ℕ
magnitude z = pos_part z + neg_part z

abbrev pub half_modulus : SmpcConfig → ℕ
half_modulus c = c.prime_modulus / 2

abbrev pub any {ℓ} : {A : Type ℓ} → (A → Bool) → List A → Bool
any test [] = false
any test (x ∷ xs) = test x || any test xs

-- `(a + b) % p` and `(a - b) % p` over int64 arrays.
abbrev pub add_mod : ℕ → List ℕ → List ℕ → List ℕ
add_mod p = zip_with (λ a b. floor_mod (i64_add a b) p)

abbrev pub sub_mod : ℕ → List ℕ → List ℕ → List ℕ
sub_mod p = zip_with (λ a b. floor_mod (i64_sub a b) p)

abbrev pub tabulate : (ℕ → ℕ) → ℕ → ℕ → List ℕ
tabulate f i zero = []
tabulate f i (suc n) = f i ∷ tabulate f (i + 1) n

-- The loop of `_split_into_shares`: `rounds` more random shares, the next one for party `k`.
pub split_loop : SmpcConfig → (ℕ → ℕ → ℕ) → ℕ → ℕ → List ℕ → List ℕ → List (List ℕ)
split_loop c draw zero k running encoded = sub_mod c.prime_modulus encoded running ∷ []
split_loop c draw (suc rounds) k running encoded =
    let random_share = tabulate (draw k) 0 (length encoded) in
    random_share
    ∷ split_loop c draw rounds (k + 1) (add_mod c.prime_modulus running random_share) encoded

unfoldable pub split_into_shares : SmpcConfig → (ℕ → ℕ → ℕ) → List ℕ → List (List ℕ)
unfolding split_loop
split_into_shares c draw encoded =
    split_loop c draw (c.parties - 1) 0 (replicate (length encoded) 0) encoded

-- `_party_sum`.
unfoldable pub party_sum : SmpcConfig → List (List ℕ) → Outcome (List ℕ)
party_sum c [] = raise node_dropout_error
party_sum c (share ∷ shares) =
    ok (foldl (add_mod c.prime_modulus) (replicate (length share) 0) (share ∷ shares))

-- `for party_idx, share in enumerate(shares): shares_by_party[party_idx].append(share)`.
pub append_shares : List (List (List ℕ)) → List (List ℕ) → Outcome (List (List (List ℕ)))
append_shares parties [] = ok parties
append_shares [] (share ∷ shares) = raise index_error
append_shares (party ∷ parties) (share ∷ shares) = do
  rest ← append_shares parties shares
  ok ((party ++ share ∷ []) ∷ rest)

-- `asyncio.gather` over the party tasks: the results in order, or the first exception.
pub gather : SmpcConfig → List (List (List ℕ)) → Outcome (List (List ℕ))
unfolding party_sum
gather c [] = ok []
gather c (party ∷ parties) = do
  total ← party_sum c party
  rest ← gather c parties
  ok (total ∷ rest)

-- The sign recovery of `_decode_fixed`: `signed[gt_half] - prime_modulus`.
abbrev pub recover_sign : SmpcConfig → ℕ → ℤ
recover_sign c v = if ltb (half_modulus c) v then sub_ℕ v c.prime_modulus else pos v

-- `shape != reference_shape` over tuples of dimensions.
abbrev pub same_shape : List ℕ → List ℕ → Bool
same_shape [] [] = true
same_shape (a ∷ as') (b ∷ bs) = a == b && same_shape as' bs
same_shape _ _ = false

-- The second sum of `secure_sum`, over the partial sums of the parties.
unfoldable pub sum_partials : SmpcConfig → List (List ℕ) → Outcome (List ℕ)
sum_partials c [] = raise index_error
sum_partials c (part ∷ parts) =
    ok (foldl (add_mod c.prime_modulus) (replicate (length part) 0) (part ∷ parts))

-- The `except` clause around the reconstruction counts the failure and raises it again.
abbrev pub count_failure {ℓ} : {A : Type ℓ} → ℕ → Outcome A → Outcome A × ℕ
count_failure errors (ok a) = (ok a, errors)
count_failure errors (raise e) = (raise e, errors + 1)

module _ (fl : Floats) where
  open fl use {Float, as_f64, rint_scaled, invalid_as_i64, to_float, divide}

  -- `np.abs(scaled) > bound`, where the integer bound becomes a double; false for NaN.
  abbrev pub exceeds : ℕ → Scaled → Bool
  exceeds bound (whole z) = ltb (as_f64 bound) (magnitude z)
  exceeds bound infinite = true
  exceeds bound not_a_number = false

  -- `astype(np.int64)`.
  abbrev pub int64_of : Scaled → ℤ
  int64_of (whole z) = z
  int64_of infinite = invalid_as_i64
  int64_of not_a_number = invalid_as_i64

  -- `_encode_fixed`.
  unfoldable pub encode_fixed : SmpcConfig → List Float → Outcome (List ℕ)
  encode_fixed c values =
      let scaled = map (rint_scaled c.scale_factor) values in
      let max_safe = half_modulus c - 1 in
      let encoded = map int64_of scaled in
      if any (exceeds max_safe) scaled
      then raise overflow_error
      else ok (map (λ s. floor_mod s c.prime_modulus) encoded)

  -- `_decode_fixed` of an array of the shape. The arithmetic on arrays of no dimension gives numpy
  -- scalars, which take no item assignment.
  unfoldable pub decode_fixed : SmpcConfig → List ℕ → List ℕ → Outcome (List Float)
  decode_fixed c [] modular_values = raise type_error
  decode_fixed c (dimension ∷ dimensions) modular_values =
      let signed = map (recover_sign c) modular_values in
      if any (λ s. ltb (as_f64 (half_modulus c)) (as_f64 (magnitude s))) signed
      then raise overflow_error
      else ok (map (to_float c.scale_factor) signed)

  -- The shape check over `enumerate(client_tensors)`.
  unfoldable pub check_shapes : List ℕ → ℕ → List (Tensor Float) → Outcome (Unit {0})
  check_shapes reference idx [] = ok tt
  check_shapes reference idx (t ∷ ts) =
      if same_shape t.shape reference
      then check_shapes reference (idx + 1) ts
      else raise (shape_mismatch idx)

  -- The loop of `secure_sum` that splits each client's tensor and hands the shares out.
  unfoldable pub share_clients :
      SmpcConfig
      → (ℕ → ℕ → ℕ → ℕ)
      → ℕ
      → List (List (List ℕ))
      → List (Tensor Float)
      → Outcome (List (List (List ℕ)))
  share_clients c draw i parties [] = ok parties
  share_clients c draw i parties (t ∷ ts) = do
    encoded ← encode_fixed c t.values
    parties' ← append_shares parties (split_into_shares c (draw i) encoded)
    share_clients c draw (i + 1) parties' ts

  -- The checks and the loop that stand before the `try`.
  unfoldable pub prepare :
      SmpcConfig → (ℕ → ℕ → ℕ → ℕ) → List (Tensor Float) → Outcome (List ℕ × List (List (List ℕ)))
  prepare c draw tensors =
      if ltb (length tensors) c.min_clients then raise node_dropout_error else elim tensors [
        | [] ↦ raise index_error
        | t ∷ ts ↦ do
          _ ← check_shapes t.shape 0 (t ∷ ts)
          parties ← share_clients c draw 0 (replicate c.parties []) (t ∷ ts)
          ok (t.shape, parties)
      ]

  -- The body of the `try`.
  unfoldable pub reconstruct : SmpcConfig → List ℕ → List (List (List ℕ)) → Outcome (Tensor Float)
  unfolding sum_partials gather
  reconstruct c shape parties = do
    partial_sums ← gather c parties
    reconstructed_mod ← sum_partials c partial_sums
    decoded ← decode_fixed c shape reconstructed_mod
    ok (record { shape = shape; values = decoded })

  -- `secure_sum`, with the gauge of reconstruction errors before and after.
  unfoldable pub secure_sum :
      SmpcConfig → (ℕ → ℕ → ℕ → ℕ) → List (Tensor Float) → ℕ → Outcome (Tensor Float) × ℕ
  secure_sum c draw tensors errors = elim (prepare c draw tensors) [
    | raise e ↦ (raise e, errors)
    | ok (shape, parties) ↦ count_failure errors (reconstruct c shape parties)
  ]

  -- `secure_average`.
  unfoldable pub secure_average :
      SmpcConfig → (ℕ → ℕ → ℕ → ℕ) → List (Tensor Float) → ℕ → Outcome (Tensor Float) × ℕ
  secure_average c draw tensors errors =
      let (result, errors') = secure_sum c draw tensors errors in
      elim result [
        | raise e ↦ (raise e, errors')
        | ok total ↦ (
          ok (record total { values = map (λ v. divide v (length tensors)) total.values }),
          errors',
        )
      ]
