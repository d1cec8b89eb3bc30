-- ===== src/Sentinel.antt =====
-- The state of the moderation agent (decision_layer/services/fl_edge/state_space.py): `from_raw` makes
-- 14 numbers out of raw measurements. numpy's float32 arrays and the sine and cosine are parameters.
pub mod Env
pub mod Dynamics
pub mod Steps
pub mod Bounds
pub mod Reward
pub mod Episodes
pub mod Samples
mod Tests
use Prim.Native.String.{String}
use text.Mathlib.Text.{◌==◌ as str_eq}
use mathlib.Core.Option
use omni_aegis.Prelude.{
  ℕ, zero, suc, ◌≡◌, Bool, true, false, not, ◌||◌, ◌++◌, List, [], ◌∷◌, map, Option, none, some,
  if◌then◌else◌, ◌==◌, All, length,
}
use omni_aegis.Prelude.Int.{ℤ, pos, negsuc}
use omni_aegis.Doubles.{Doubles, null, one, lt, clip01, InUnit}
use omni_aegis.Values.{
  Value, Values, Entries, none_value, boolean, integer, number, string, sequence, mapping,
  Conversions, find, get, to_float, to_int,
}

-- `np.asarray(list, dtype=np.float32).reshape(-1)` raises for none; the sum and the division of such
-- an array, and the rounding to float32, which is exact at 0 and 1. `unit_sin x` and `unit_cos x` are
-- `(sin(x) + 1.0) / 2.0` and `(cos(x) + 1.0) / 2.0`.
pub record Numpy (fl : Doubles) : Type 0 where
  pub as_float32 : Values fl.Float → Option (List fl.Float)
  pub float32_sum : List fl.Float → fl.Float
  pub float32_div : fl.Float → fl.Float → fl.Float
  pub float32 : fl.Float → fl.Float
  pub remainder : fl.Float → fl.Float → fl.Float
  pub pi : fl.Float
  pub unit_sin : fl.Float → fl.Float
  pub unit_cos : fl.Float → fl.Float
  pub float32-unit : (x : fl.Float) → InUnit fl x → InUnit fl (float32 x)
  pub unit_sin-unit : (x : fl.Float) → InUnit fl (unit_sin x)
  pub unit_cos-unit : (x : fl.Float) → InUnit fl (unit_cos x)

-- `SentinelState`.
pub record SentinelState (Float : Type 0) : Type 0 where
  pub calibrated_confidence : Float
  pub uncertainty : Float
  pub content_type_text : Float
  pub content_type_image : Float
  pub content_type_audio : Float
  pub content_type_video : Float
  pub hitl_queue_depth : Float
  pub reviewer_capacity : Float
  pub false_positive_rate_2h : Float
  pub hitl_overturn_rate_2h : Float
  pub privacy_budget : Float
  pub model_age : Float
  pub time_of_day_sin : Float
  pub time_of_day_cos : Float
  pub vector : List Float

-- The four floats of the content type.
pub record ContentType (Float : Type 0) : Type 0 where
  pub as_text : Float
  pub as_image : Float
  pub as_audio : Float
  pub as_video : Float

module _ {Float : Type 0} where
  -- The 14 numbers in the order of the vector.
  abbrev pub components : SentinelState Float → List Float
  components s =
      s.calibrated_confidence ∷ s.uncertainty ∷ s.content_type_text ∷ s.content_type_image
      ∷ s.content_type_audio ∷ s.content_type_video ∷ s.hitl_queue_depth ∷ s.reviewer_capacity
      ∷ s.false_positive_rate_2h ∷ s.hitl_overturn_rate_2h ∷ s.privacy_budget ∷ s.model_age
      ∷ s.time_of_day_sin ∷ s.time_of_day_cos ∷ []

module _ {fl : Doubles} (py : Conversions fl) (np : Numpy fl) where
  open fl use {Float, div, mul, decimal}

  -- `_pick_float`: the first key with a value that is a number.
  abbrev pub pick_float : Entries Float → List String → Float → Float
  pick_float data_ [] default = default
  pick_float data_ (key ∷ keys) default =
      let rest = pick_float data_ keys default in
      elim (to_float py (get key data_)) [ none ↦ rest | some x ↦ x ]

  -- `_normalize_confidence` and `_normalize_rate`.
  abbrev pub normalize_rate : Float → Float
  normalize_rate value =
      clip01 fl (if lt fl (one fl) value then div value (decimal 100 1) else value)

  -- `_normalize_ratio`.
  abbrev pub normalize_ratio : Float → Float → Float
  normalize_ratio value soft_cap =
      if fl.le soft_cap (null fl) then clip01 fl value else clip01 fl (div value soft_cap)

  abbrev pub no_type : ContentType Float
  no_type = record { as_text = null fl; as_image = null fl; as_audio = null fl; as_video = null fl }

  -- The one-hot array with a one at an index.
  abbrev pub one_hot : ℕ → ContentType Float
  one_hot zero = record no_type { as_text = one fl }
  one_hot (suc zero) = record no_type { as_image = one fl }
  one_hot (suc (suc zero)) = record no_type { as_audio = one fl }
  one_hot (suc (suc (suc zero))) = record no_type { as_video = one fl }
  one_hot (suc (suc (suc (suc n)))) = no_type

  abbrev pub one_hot_at : Option ℤ → ContentType Float
  one_hot_at none = no_type
  one_hot_at (some (pos n)) = one_hot n
  one_hot_at (some (negsuc n)) = no_type

  -- The aliases of the content types, by their index.
  abbrev pub encode_name : String → ContentType Float
  encode_name name =
      if str_eq name "text" || (str_eq name "txt" || str_eq name "document")
      then one_hot 0
      else if str_eq name "image" || (str_eq name "img" || str_eq name "photo")
      then one_hot 1
      else if str_eq name "audio" || str_eq name "voice"
      then one_hot 2
      else if str_eq name "video" || str_eq name "clip"
      then one_hot 3
      else no_type

  -- An array of four floats is scaled to the sum 1; another array is no index.
  abbrev pub encode_array : List Float → ContentType Float
  encode_array (a ∷ b ∷ c ∷ d ∷ []) =
      let total = np.float32_sum (a ∷ b ∷ c ∷ d ∷ []) in
      if lt fl (null fl) total
      then record {
        as_text = clip01 fl (np.float32_div a total);
        as_image = clip01 fl (np.float32_div b total);
        as_audio = clip01 fl (np.float32_div c total);
        as_video = clip01 fl (np.float32_div d total);
      }
      else no_type
  encode_array values = no_type

  -- `_encode_content_type`, none where numpy raises, or `int` of an infinity.
  abbrev pub encode_content_type : Value Float → Option (ContentType Float)
  encode_content_type none_value = some no_type
  encode_content_type (string t) = some (encode_name (py.lower (py.strip t)))
  encode_content_type (sequence vs) = Option.map encode_array (np.as_float32 vs)
  encode_content_type (boolean b) = some (one_hot_at (to_int py (boolean b)))
  encode_content_type (integer i) = some (one_hot_at (to_int py (integer i)))
  encode_content_type (number x) =
      if fl.is_infinite x then none else some (one_hot_at (to_int py (number x)))
  encode_content_type (mapping d) = some no_type

  -- `_extract_model_age_days`: `float` of a value that is there may raise.
  abbrev pub age_in_days : Entries Float → Option Float
  age_in_days data_ = elim (find "model_age" data_) [
    | none ↦ some (null fl)
    | some v ↦ to_float py v
  ]

  abbrev pub age_in_hours : Entries Float → Option Float
  age_in_hours data_ = elim (find "model_age_hours" data_) [
    | none ↦ age_in_days data_
    | some v ↦ Option.map (λ hours. div hours (decimal 24 1)) (to_float py v)
  ]

  abbrev pub extract_model_age_days : Entries Float → Option Float
  extract_model_age_days data_ = elim (find "model_age_days" data_) [
    | none ↦ age_in_hours data_
    | some v ↦ to_float py v
  ]

  -- `_encode_time_of_day`: the angle of the hour.
  abbrev pub or_zero : Option (Value Float) → Value Float
  or_zero none = integer (pos 0)
  or_zero (some v) = v

  abbrev pub hour_raw : Value Float → Entries Float → Value Float
  hour_raw none_value data_ = or_zero (find "hour_of_day" data_)
  hour_raw v data_ = v

  abbrev pub hour_of : Option Float → Float
  hour_of none = null fl
  hour_of (some hour) = np.remainder hour (decimal 24 1)

  abbrev pub angle : Entries Float → Float
  angle data_ =
      div
        (mul (mul (decimal 2 1) np.pi) (hour_of (to_float py (hour_raw (get "hour" data_) data_))))
        (decimal 24 1)

  abbrev pub with_vector : SentinelState Float → SentinelState Float
  with_vector s = record s { vector = map np.float32 (components s) }

  -- The numbers, after the content type and the age have been read.
  abbrev pub read_state : Entries Float → ContentType Float → Float → SentinelState Float
  read_state data_ content_type age = record {
    calibrated_confidence =
        normalize_rate
          (pick_float data_ ("calibrated_confidence" ∷ "confidence" ∷ "score" ∷ []) (null fl));
    uncertainty =
        clip01 fl
          (pick_float data_ ("uncertainty" ∷ "dropout_variance" ∷ "variance" ∷ []) (null fl));
    content_type_text = content_type.as_text;
    content_type_image = content_type.as_image;
    content_type_audio = content_type.as_audio;
    content_type_video = content_type.as_video;
    hitl_queue_depth =
        normalize_ratio
          (pick_float data_ ("hitl_queue_depth" ∷ "queue_depth" ∷ "backlog" ∷ []) (null fl))
          (decimal 200 1);
    reviewer_capacity =
        normalize_ratio
          (pick_float data_ ("reviewer_capacity" ∷ "reviewer_count" ∷ "available_reviewers" ∷ [])
            (null fl))
          (decimal 20 1);
    false_positive_rate_2h = normalize_rate (
        pick_float data_ ("false_positive_rate_2h" ∷ "false_positive_rate" ∷ "fp_rate_2h" ∷ [])
          (null fl));
    hitl_overturn_rate_2h = normalize_rate (
        pick_float data_ ("hitl_overturn_rate_2h" ∷ "overturn_rate" ∷ "hitl_overturn_rate" ∷ [])
          (null fl));
    privacy_budget = normalize_rate (
        pick_float data_ ("privacy_budget" ∷ "privacy_budget_remaining" ∷ "budget_remaining" ∷ [])
          (one fl));
    model_age = normalize_ratio age (decimal 365 1);
    time_of_day_sin = np.unit_sin (angle data_);
    time_of_day_cos = np.unit_cos (angle data_);
    vector = [];
  }

  abbrev pub build_state : Entries Float → ContentType Float → Float → SentinelState Float
  build_state data_ content_type age = with_vector (read_state data_ content_type age)

  -- `from_raw`, none where it raises.
  unfoldable pub from_raw : Entries Float → Option (SentinelState Float)
  from_raw data_ = elim (encode_content_type (get "content_type" data_)) [
    | none ↦ none
    | some content_type ↦ Option.map (build_state data_ content_type) (extract_model_age_days data_)
  ]
