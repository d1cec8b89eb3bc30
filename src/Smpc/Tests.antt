-- ===== src/Smpc/Tests.antt =====
-- Runs of the aggregator, and its theorems at concrete tensors.
use omni_aegis.Prelude.{ℕ, ◌+◌, ◌-◌, ◌*◌, ◌^◌, ◌≡◌, refl, [], ◌∷◌, arith, foldl, take}
use omni_aegis.Prelude.Int.{ℤ, pos, negsuc, ◌+ℤ◌}
use omni_aegis.Smpc.{
  SmpcConfig, default_config, Floats, whole, Tensor, ok, type_error, raise, node_dropout_error,
  shape_mismatch, add_mod, split_into_shares, append_shares, gather, sum_partials, check_shapes,
  share_clients, prepare, reconstruct, encode_fixed, decode_fixed, secure_sum, secure_average,
}
use omni_aegis.Smpc.Fixed.{wrapped}
use omni_aegis.Smpc.Shares
use omni_aegis.Smpc.Sum
use omni_aegis.Smpc.Sum.{exact_sum}

-- Fixed-point numbers stand for the floats: a value is its number of steps of the scale.
abbrev steps : Floats
steps = record {
  Float = ℤ;
  as_f64 = λ n. n;
  as_f64_mono = λ a b h. h;
  rint_scaled = λ s v. whole v;
  invalid_as_i64 = negsuc (2 ^ 63 - 1);
  to_float = λ s z. z;
  divide = λ v n. v;
}

program : Unit {0}
unfolding secure_sum secure_average prepare check_shapes share_clients encode_fixed
    split_into_shares append_shares reconstruct gather sum_partials decode_fixed exact_sum wrapped
    ◌+ℤ◌
program = tt

abbrev draws : ℕ → ℕ → ℕ → ℕ
draws client party element = 1000 * client + 10 * party + element

abbrev update_a : Tensor ℤ
update_a = record { shape = 2 ∷ []; values = pos 5 ∷ negsuc 6 ∷ [] }

abbrev update_b : Tensor ℤ
update_b = record { shape = 2 ∷ []; values = negsuc 1 ∷ negsuc 2 ∷ [] }

two_clients :
    secure_sum steps default_config draws (update_a ∷ update_b ∷ []) 0
    ≡ (ok (record { shape = 2 ∷ []; values = pos 3 ∷ negsuc 9 ∷ [] }), 0)
unfolding program
two_clients = refl

one_client : secure_sum steps default_config draws (update_a ∷ []) 7 ≡ (raise node_dropout_error, 7)
unfolding program
one_client = refl

mixed_shapes :
    secure_sum steps default_config draws
      (update_a ∷ record { shape = 1 ∷ []; values = pos 1 ∷ [] } ∷ [])
      0
    ≡ (raise (shape_mismatch 1), 0)
unfolding program
mixed_shapes = refl

-- Arrays of no dimension raise TypeError, and the gauge counts it.
scalars :
    secure_sum steps default_config draws
      (record { shape = []; values = pos 1 ∷ [] } ∷ record { shape = []; values = pos 1 ∷ [] } ∷ [])
      0
    ≡ (raise type_error, 1)
unfolding program
scalars = refl

abbrev small_draws : ℕ → ℕ → ℕ → ℕ
small_draws client party element = 4

-- A small modulus shows the wrap: 4 + 4 is 8, which modulo 11 reads as -3.
abbrev small_config : SmpcConfig
small_config = record { parties = 3; prime_modulus = 11; min_clients = 2; scale_factor = 1 }

abbrev four : Tensor ℤ
four = record { shape = 1 ∷ []; values = pos 4 ∷ [] }

secure_sum-exact_example :
    secure_sum steps small_config small_draws (four ∷ record four { values = negsuc 1 ∷ [] } ∷ []) 0
    ≡ (
      ok (record {
        shape = 1 ∷ [];
        values =
            exact_sum steps small_config 1 (four ∷ record four { values = negsuc 1 ∷ [] } ∷ []);
      }),
      0,
    )
unfolding exact_sum ◌+ℤ◌
secure_sum-exact_example =
    Sum.secure_sum-exact steps small_config small_draws four
      (record four { values = negsuc 1 ∷ [] } ∷ []) 0 (omega arith) (omega arith) (omega arith)
      (λ e. cc e) (λ i k j. omega arith) (omega arith)
      (
        record { shaped = refl; size = refl; in_range = refl },
        (record { shaped = refl; size = refl; in_range = refl }, tt),
      )
      (omega arith, tt)

secure_sum-modular_example :
    secure_sum steps small_config small_draws (four ∷ four ∷ []) 0
    ≡ (ok (record { shape = 1 ∷ []; values = negsuc 2 ∷ [] }), 0)
unfolding exact_sum ◌+ℤ◌ wrapped
secure_sum-modular_example =
    Sum.secure_sum-modular steps small_config small_draws four (four ∷ []) 0 (omega arith)
      (omega arith) (omega arith) (λ e. cc e) (λ i k j. omega arith) (omega arith)
      (
        record { shaped = refl; size = refl; in_range = refl },
        (record { shaped = refl; size = refl; in_range = refl }, tt),
      )

split_into_shares-sum_example :
    foldl (add_mod 11) (0 ∷ []) (split_into_shares small_config (small_draws 0) (3 ∷ [])) ≡ 3 ∷ []
split_into_shares-sum_example =
    Shares.split_into_shares-sum small_config (omega arith) (omega arith) (small_draws 0)
      (λ k j. omega arith) (3 ∷ []) (omega arith, tt)

take-split_into_shares_example :
    take 2 (split_into_shares small_config (small_draws 0) (3 ∷ []))
    ≡ take 2 (split_into_shares small_config (small_draws 0) (9 ∷ []))
take-split_into_shares_example =
    Shares.take-split_into_shares small_config (small_draws 0) (3 ∷ []) (9 ∷ []) refl
