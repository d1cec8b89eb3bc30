-- ===== src/Sentinel/Bounds.antt =====
-- The observation space: every number of a state is from 0 to 1, or NaN.
use Prim.Native.String.{String}
use mathlib.Core.Path.{subst}
use mathlib.Core.Option.{some-injective}
use omni_aegis.Prelude.{
  ℕ, zero, suc, ◌≡◌, Bool, true, false, inl, inr, List, [], ◌∷◌, Option, none, some, if◌then◌else◌,
  All, map-All, Bool-cases, Option-cases,
}
use omni_aegis.Prelude.Int.{ℤ, pos, negsuc}
use omni_aegis.Doubles.{Doubles, IeeeLaws, null, InUnit, null-InUnit, one-InUnit, clip01-InUnit}
use omni_aegis.Values.{
  Value, Entries, none_value, boolean, integer, number, string, sequence, mapping, Conversions, get,
  to_int,
}
use omni_aegis.Sentinel.{
  Numpy, SentinelState, ContentType, normalize_ratio, one_hot, one_hot_at, no_type, encode_name,
  encode_array, encode_content_type, extract_model_age_days, components, with_vector, read_state,
  build_state, from_raw, angle,
}

-- Every number of a state is from 0 to 1 or NaN, in the fields and in the vector.
pub record Normalized (fl : Doubles) (s : SentinelState fl.Float) : Type 0 where
  pub fields : All (InUnit fl) (components s)
  pub array : All (InUnit fl) s.vector

pub record UnitType (fl : Doubles) (t : ContentType fl.Float) : Type 0 where
  pub text : InUnit fl t.as_text
  pub image : InUnit fl t.as_image
  pub audio : InUnit fl t.as_audio
  pub video : InUnit fl t.as_video

module _ {fl : Doubles} (ieee : IeeeLaws fl) (py : Conversions fl) (np : Numpy fl) where
  no_type-UnitType : UnitType fl (no_type py np)
  no_type-UnitType = record {
    text = null-InUnit ieee;
    image = null-InUnit ieee;
    audio = null-InUnit ieee;
    video = null-InUnit ieee;
  }

  one_hot-UnitType : (n : ℕ) → UnitType fl (one_hot py np n)
  one_hot-UnitType zero = record {
    text = one-InUnit ieee;
    image = null-InUnit ieee;
    audio = null-InUnit ieee;
    video = null-InUnit ieee;
  }
  one_hot-UnitType (suc zero) = record {
    text = null-InUnit ieee;
    image = one-InUnit ieee;
    audio = null-InUnit ieee;
    video = null-InUnit ieee;
  }
  one_hot-UnitType (suc (suc zero)) = record {
    text = null-InUnit ieee;
    image = null-InUnit ieee;
    audio = one-InUnit ieee;
    video = null-InUnit ieee;
  }
  one_hot-UnitType (suc (suc (suc zero))) = record {
    text = null-InUnit ieee;
    image = null-InUnit ieee;
    audio = null-InUnit ieee;
    video = one-InUnit ieee;
  }
  one_hot-UnitType (suc (suc (suc (suc n)))) = no_type-UnitType

  one_hot_at-UnitType : (i : Option ℤ) → UnitType fl (one_hot_at py np i)
  one_hot_at-UnitType none = no_type-UnitType
  one_hot_at-UnitType (some (pos n)) = one_hot-UnitType n
  one_hot_at-UnitType (some (negsuc n)) = no_type-UnitType

  if-UnitType :
      (b : Bool) (t u : ContentType fl.Float)
      → UnitType fl t
      → UnitType fl u
      → UnitType fl (if b then t else u)
  if-UnitType true t u h k = h
  if-UnitType false t u h k = k

  encode_name-UnitType : (name : String) → UnitType fl (encode_name py np name)
  encode_name-UnitType name = if-UnitType _ _ _ (one_hot-UnitType 0) (
      if-UnitType _ _ _ (one_hot-UnitType 1) (
        if-UnitType _ _ _ (one_hot-UnitType 2)
          (if-UnitType _ _ _ (one_hot-UnitType 3) no_type-UnitType)))

  encode_array-UnitType : (xs : List fl.Float) → UnitType fl (encode_array py np xs)
  encode_array-UnitType (a ∷ b ∷ c ∷ d ∷ []) =
      if-UnitType _ _ _
        (record {
          text = clip01-InUnit ieee _;
          image = clip01-InUnit ieee _;
          audio = clip01-InUnit ieee _;
          video = clip01-InUnit ieee _;
        })
        no_type-UnitType
  encode_array-UnitType [] = no_type-UnitType
  encode_array-UnitType (a ∷ []) = no_type-UnitType
  encode_array-UnitType (a ∷ b ∷ []) = no_type-UnitType
  encode_array-UnitType (a ∷ b ∷ c ∷ []) = no_type-UnitType
  encode_array-UnitType (a ∷ b ∷ c ∷ d ∷ e ∷ xs) = no_type-UnitType

  given : (t u : ContentType fl.Float) → UnitType fl t → some t ≡ some u → UnitType fl u
  given t u h e = subst (UnitType fl) (some-injective t u e) h

  unless_raised :
      (raised : Bool) (i : Option ℤ) (t : ContentType fl.Float)
      → (if raised then none else some (one_hot_at py np i)) ≡ some t
      → UnitType fl t
  unless_raised true i t e = absurd (cc e)
  unless_raised false i t e = given _ _ (one_hot_at-UnitType i) e

  encode_content_type-UnitType :
      (v : Value fl.Float) (t : ContentType fl.Float)
      → encode_content_type py np v ≡ some t
      → UnitType fl t
  encode_content_type-UnitType none_value t e = given _ _ no_type-UnitType e
  encode_content_type-UnitType (string s) t e =
      given _ _ (encode_name-UnitType (py.lower (py.strip s))) e
  encode_content_type-UnitType (boolean b) t e =
      given _ _ (one_hot_at-UnitType (to_int py (boolean b))) e
  encode_content_type-UnitType (integer i) t e =
      given _ _ (one_hot_at-UnitType (to_int py (integer i))) e
  encode_content_type-UnitType (number x) t e =
      unless_raised (fl.is_infinite x) (to_int py (number x)) t e
  encode_content_type-UnitType (mapping d) t e = given _ _ no_type-UnitType e
  encode_content_type-UnitType (sequence vs) t e = elim (Option-cases (np.as_float32 vs)) [
    | inl raises ↦ absurd (cc (rw (raises) at e))
    | inr (xs, found) ↦ given _ _ (encode_array-UnitType xs) (rw (found) at e)
  ]

  normalize_ratio-InUnit : (x cap : fl.Float) → InUnit fl (normalize_ratio py np x cap)
  normalize_ratio-InUnit x cap = elim (Bool-cases (fl.le cap (null fl))) [
    | inl none_left ↦ rw (none_left) (clip01-InUnit ieee x)
    | inr some_left ↦ rw (some_left) (clip01-InUnit ieee (fl.div x cap))
  ]

  -- A state whose fields are in range has its vector in range.
  pub with_vector-Normalized :
      (s : SentinelState fl.Float)
      → All (InUnit fl) (components s)
      → Normalized fl (with_vector py np s)
  with_vector-Normalized s h = record {
    fields = h;
    array = map-All np.float32 (InUnit fl) np.float32-unit (components s) h;
  }

  build_state-Normalized :
      (d : Entries fl.Float) (t : ContentType fl.Float) (age : fl.Float)
      → UnitType fl t
      → Normalized fl (build_state py np d t age)
  build_state-Normalized d t age h = with_vector-Normalized (read_state py np d t age) (
    clip01-InUnit ieee _,
    (
      clip01-InUnit ieee _,
      (
        h.text,
        (
          h.image,
          (
            h.audio,
            (
              h.video,
              (
                normalize_ratio-InUnit _ _,
                (
                  normalize_ratio-InUnit _ _,
                  (
                    clip01-InUnit ieee _,
                    (
                      clip01-InUnit ieee _,
                      (
                        clip01-InUnit ieee _,
                        (
                          normalize_ratio-InUnit _ _,
                          (
                            np.unit_sin-unit (angle py np d),
                            (np.unit_cos-unit (angle py np d), tt),
                          ),
                        ),
                      ),
                    ),
                  ),
                ),
              ),
            ),
          ),
        ),
      ),
    ),
  )

  -- Whatever the raw measurements are, NaN and infinities among them, each of the 14 numbers and of
  -- the vector of a state that `from_raw` returns is from 0 to 1 or NaN.
  pub from_raw-Normalized :
      (d : Entries fl.Float) (s : SentinelState fl.Float)
      → from_raw py np d ≡ some s
      → Normalized fl s
  unfolding from_raw
  from_raw-Normalized d s e =
      elim (Option-cases (encode_content_type py np (get "content_type" d))) [
        | inl raises ↦ absurd (cc (rw (from_raw, raises) at e))
        | inr (t, found) ↦ elim (Option-cases (extract_model_age_days py np d)) [
          | inl raises ↦ absurd (cc (rw (from_raw, found, raises) at e))
          | inr (age, aged) ↦
              let e' : some (build_state py np d t age) ≡ some s =
                rw (from_raw, found, aged) at e in
              subst (Normalized fl) (some-injective _ s e')
                (build_state-Normalized d t age (encode_content_type-UnitType _ t found))
        ]
      ]
