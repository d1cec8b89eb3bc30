-- ===== src/Doubles.antt =====
-- Python's floats, where 0.0 and -0.0 count as one, and so do all NaNs. `Doubles` has the operations,
-- `decimal n d` is the literal n / d. `IeeeLaws` are the laws of the order that hold with NaN and the
-- infinities, and `FiniteLaws` the laws of the order and of zero among finite numbers, without
-- rounding; a theorem takes those of its numbers.
use omni_aegis.Prelude.{
  ℕ, ◌≡◌, refl, ◌⊎◌, inl, inr, Bool, true, false, not, ◌||◌, ◌&&◌, arith, if◌then◌else◌, Bool-cases,
}

pub record Doubles : Type 1 where
  pub Float : Type 0
  pub is_nan : Float → Bool
  pub is_infinite : Float → Bool
  pub le : Float → Float → Bool
  pub add : Float → Float → Float
  pub sub : Float → Float → Float
  pub mul : Float → Float → Float
  pub div : Float → Float → Float
  pub decimal : ℕ → ℕ → Float

module _ (fl : Doubles) where
  open fl use {Float, is_nan, le, decimal}

  abbrev pub null : Float
  null = decimal 0 1

  abbrev pub one : Float
  one = decimal 1 1

  -- `a < b`, which like `a <= b` is false where one is NaN.
  abbrev pub lt : Float → Float → Bool
  lt a b = not (le b a) && le a b

  -- `max(a, b)` and `min(a, b)`.
  abbrev pub fmax : Float → Float → Float
  fmax a b = if lt a b then b else a

  abbrev pub fmin : Float → Float → Float
  fmin a b = if lt b a then b else a

  -- `np.clip(x, low, high)`.
  abbrev pub clip : Float → Float → Float → Float
  clip x low high = fmin (fmax x low) high

  abbrev pub clip01 : Float → Float
  clip01 x = clip x null one

  -- From 0.0 to 1.0, or NaN.
  abbrev pub InUnit : Float → Type 0
  InUnit x = (is_nan x ≡ true) ⊎ ((le null x ≡ true) × (le x one ≡ true))

pub record IeeeLaws (fl : Doubles) : Type 0 where
  pub le-total :
      (a b : fl.Float) → fl.is_nan a ≡ false → fl.is_nan b ≡ false → (fl.le a b || fl.le b a) ≡ true
  pub le-nan : (a b : fl.Float) → fl.is_nan a ≡ true → fl.le a b ≡ false
  pub le-nan_right : (a b : fl.Float) → fl.is_nan b ≡ true → fl.le a b ≡ false
  pub null-number : fl.is_nan (null fl) ≡ false
  pub one-number : fl.is_nan (one fl) ≡ false
  pub zero-le-one : fl.le (null fl) (one fl) ≡ true

module _ {fl : Doubles} (ieee : IeeeLaws fl) where
  open fl use {Float, is_nan, le}

  pub null-InUnit : InUnit fl (null fl)
  null-InUnit = inr (
    ground (arith, ieee.le-total (null fl) (null fl) ieee.null-number ieee.null-number),
    ieee.zero-le-one,
  )

  pub one-InUnit : InUnit fl (one fl)
  one-InUnit = inr (
    ieee.zero-le-one,
    ground (arith, ieee.le-total (one fl) (one fl) ieee.one-number ieee.one-number),
  )

  clip01_low : (x : Float) → is_nan x ≡ false → le (null fl) x ≡ false → clip01 fl x ≡ null fl
  clip01_low x number below =
      let other : le x (null fl) ≡ true =
        ground (arith, ieee.le-total x (null fl) number ieee.null-number) in
      rw (below, other, ieee.zero-le-one) refl

  -- What `np.clip` gives is in range, or NaN.
  pub clip01-InUnit : (x : Float) → InUnit fl (clip01 fl x)
  clip01-InUnit x = elim (Bool-cases (is_nan x)) [
    | inl nan ↦
        rw
          (
            ieee.le-nan x (null fl) nan,
            ieee.le-nan_right (null fl) x nan,
            ieee.le-nan x (one fl) nan,
            ieee.le-nan_right (one fl) x nan,
          )
          (inl nan)
    | inr number ↦ elim (Bool-cases (le (null fl) x)) [
      | inr below ↦ rw (clip01_low x number below) null-InUnit
      | inl above ↦ elim (Bool-cases (le x (one fl))) [
        | inl within ↦ rw (above, within) (inr (above, within))
        | inr over ↦
            let other : le (one fl) x ≡ true =
              ground (arith, ieee.le-total x (one fl) number ieee.one-number) in
            rw (above, over, other) one-InUnit
      ]
    ]
  ]

pub record FiniteLaws (fl : Doubles) : Type 0 where
  pub le-total : (a b : fl.Float) → (fl.le a b || fl.le b a) ≡ true
  pub le-antisym : (a b : fl.Float) → fl.le a b ≡ true → fl.le b a ≡ true → a ≡ b
  pub add-zero : (a : fl.Float) → fl.add a (null fl) ≡ a
  pub zero-add : (a : fl.Float) → fl.add (null fl) a ≡ a
  pub mul-zero : (a : fl.Float) → fl.mul a (null fl) ≡ null fl
  pub zero-mul : (a : fl.Float) → fl.mul (null fl) a ≡ null fl

module _ {fl : Doubles} (finite : FiniteLaws fl) where
  open fl use {Float, le}

  pub le_refl : (a : Float) → le a a ≡ true
  le_refl a = ground (arith, finite.le-total a a)

  -- A float that is no less and no more than 0.0.
  pub eq_null : (x : Float) → le (null fl) x ≡ true → lt fl (null fl) x ≡ false → x ≡ null fl
  eq_null x h k = finite.le-antisym x (null fl) (ground (arith, h, k)) h

  pub fmax-null : (x : Float) → le (null fl) (fmax fl (null fl) x) ≡ true
  fmax-null x = elim (Bool-cases (le x (null fl))) [
    | inl low ↦ rw (low) (le_refl (null fl))
    | inr high ↦
        let other : le (null fl) x ≡ true = ground (arith, high, finite.le-total x (null fl)) in
        rw (high, other) other
  ]

  pub fmax-null_right : (x : Float) → le (null fl) (fmax fl x (null fl)) ≡ true
  fmax-null_right x = elim (Bool-cases (le (null fl) x)) [
    | inl high ↦ rw (high) high
    | inr low ↦
        let other : le x (null fl) ≡ true = ground (arith, low, finite.le-total x (null fl)) in
        rw (low, other) (le_refl (null fl))
  ]
