-- ===== src/Sentinel/Samples.antt =====
-- Thousandths for floats, with toy conversions and a toy numpy, at which tests run.
use omni_aegis.Prelude.{ℕ, ◌+◌, ◌-◌, ◌*◌, ◌/◌, ◌%◌, refl, false, none, arith, leb}
use omni_aegis.Prelude.Int.{pos, pos_part}
use omni_aegis.Doubles.{Doubles, IeeeLaws, FiniteLaws, clip01, clip01-InUnit}
use omni_aegis.Values.{Conversions}
use omni_aegis.Sentinel.{Numpy}

abbrev pub thousandths : Doubles
thousandths = record {
  Float = ℕ;
  is_nan = λ x. false;
  is_infinite = λ x. false;
  le = leb;
  add = λ a b. a + b;
  sub = λ a b. a - b;
  mul = λ a b. a * b / 1000;
  div = λ a b. a * 1000 / b;
  decimal = λ n d. n * 1000 / d;
}

pub finite_thousandths : FiniteLaws thousandths
finite_thousandths = record {
  le-total = λ a b. ground arith;
  le-antisym = λ a b h k. ground arith;
  add-zero = λ a. omega arith;
  zero-add = λ a. omega arith;
  mul-zero = λ a. omega arith;
  zero-mul = λ a. omega arith;
}

pub ieee_thousandths : IeeeLaws thousandths
ieee_thousandths = record {
  le-total = λ a b h k. ground arith;
  le-nan = λ a b h. absurd (cc h);
  le-nan_right = λ a b h. absurd (cc h);
  null-number = refl;
  one-number = refl;
  zero-le-one = refl;
}

abbrev pub conversions : Conversions thousandths
conversions = record {
  float_of_text = λ t. none;
  int_of_text = λ t. none;
  of_int = λ i. pos_part i * 1000;
  truncate = λ x. pos (x / 1000);
  strip = λ t. t;
  lower = λ t. t;
}

abbrev pub numpy : Numpy thousandths
numpy = record {
  as_float32 = λ vs. none;
  float32_sum = λ xs. 0;
  float32_div = λ a b. a * 1000 / b;
  float32 = λ x. x;
  remainder = λ a b. a % b;
  pi = 3141;
  unit_sin = λ x. clip01 thousandths x;
  unit_cos = λ x. clip01 thousandths x;
  float32-unit = λ x h. h;
  unit_sin-unit = clip01-InUnit ieee_thousandths;
  unit_cos-unit = clip01-InUnit ieee_thousandths;
}
