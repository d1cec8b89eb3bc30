-- ===== src/Shadow.antt =====
-- The shadow mode of the agent (decision_layer/services/fl_edge/shadow_mode.py): the baseline decides,
-- the RL policy is compared with it in a log. Results are values; objects with attributes and
-- infinite actions are left out.
-- The policies, JSON and `str` are parameters; what the RL policy, the clock and Redis answer in a call
-- is a value.
pub mod Baseline
pub mod Actions
pub mod Counted
mod Tests
use Prim.Native.String.{String}
use text.Mathlib.Text.{◌==◌ as str_eq}
use mathlib.Core.Option
use omni_aegis.Prelude.{
  ℕ, zero, suc, ◌+◌, ◌≡◌, Bool, true, false, List, [], ◌∷◌, ◌++◌, foldl, Option, none, some,
  if◌then◌else◌, ◌&&◌, ltb, ◌==◌, length,
}
use omni_aegis.Prelude.Int.{ℤ, pos, negsuc}
use omni_aegis.Doubles.{Doubles, null, one, lt, fmax, clip01}
use omni_aegis.Values.{
  Value, Values, nil, cons, Entries, end, entry, none_value, boolean, integer, number, string,
  sequence, mapping, Conversions, find, get, int_of_bool, to_float, to_int, truthy,
}
use omni_aegis.Sentinel.{Numpy, SentinelState, from_raw}
use omni_aegis.Replay.{drop, ltrim_last}

-- `value if value in {0, 1, 2} else None`.
abbrev pub in_range : ℤ → Option ℕ
in_range (pos n) = if ltb n 3 then some n else none
in_range (negsuc n) = none

abbrev pub bind_range : Option ℤ → Option ℕ
bind_range none = none
bind_range (some i) = in_range i

abbrev pub or_next {ℓ} : {A : Type ℓ} → Option A → A → A
or_next none b = b
or_next (some a) b = a

module _ {fl : Doubles} (py : Conversions fl) where
  open fl use {Float, add, sub, mul}

  -- `_extract_action`: of a mapping, the value of the first of four keys, or its only value.
  unfoldable mutual
    pub extract_action : Value Float → Option ℕ
    extract_action none_value = none
    extract_action (boolean b) = in_range (int_of_bool py b)
    extract_action (integer i) = in_range i
    extract_action (number x) = bind_range (to_int py (number x))
    extract_action (string t) = bind_range (py.int_of_text t)
    extract_action (sequence nil) = none
    extract_action (sequence (cons v vs)) = extract_action v
    extract_action (mapping d) = or_next (key_action "action" d) (
        or_next (key_action "decision" d)
          (or_next (key_action "label" d) (or_next (key_action "prediction" d) (only_action d))))

    -- The action in a key's value, none for a key that is missing.
    pub key_action : String → Entries Float → Option (Option ℕ)
    key_action key end = none
    key_action key (entry k v d) =
        let found = extract_action v in
        let rest = key_action key d in if str_eq k key then some found else rest

    pub only_action : Entries Float → Option ℕ
    only_action end = none
    only_action (entry k v end) = extract_action v
    only_action (entry k v (entry k' v' d)) = none

  -- `_coerce_float` and `_coerce_action`.
  abbrev pub coerce_float : Float → Value Float → Float
  coerce_float default v = Option.get_or (to_float py v) default

  abbrev pub coerce_action : Value Float → Option ℕ
  coerce_action v = bind_range (to_int py v)

  -- `max(…, default=…)` of the coerced probabilities.
  abbrev pub max_from : Float → Entries Float → Float
  max_from best end = best
  max_from best (entry k v d) = max_from (fmax fl best (coerce_float (null fl) v)) d

  abbrev pub max_probability : Float → Value Float → Float
  max_probability default (mapping (entry k v d)) = max_from (coerce_float (null fl) v) d
  max_probability default v = default

  abbrev pub confidence_of : List String → Float → Entries Float → Float
  confidence_of [] default d = max_probability default (get "probabilities" d)
  confidence_of (key ∷ keys) default d = elim (find key d) [
    | none ↦ confidence_of keys default d
    | some v ↦ coerce_float default v
  ]

  -- `_extract_confidence`.
  abbrev pub extract_confidence : Float → Value Float → Float
  extract_confidence default (mapping d) =
      confidence_of ("confidence" ∷ "score" ∷ "probability" ∷ []) default d
  extract_confidence default v = default

  -- `_projected_reward`.
  abbrev pub utility_of : Float × Float × Float → ℕ → Float
  utility_of (u0, u1, u2) action = if action == 0 then u0 else if action == 1 then u1 else u2

  abbrev pub projected_reward : Float × Float × Float → ℕ → ℕ → Float → Float
  projected_reward utilities baseline_action rl_action confidence =
      mul (clip01 fl confidence)
        (sub (utility_of utilities rl_action) (utility_of utilities baseline_action))

-- The totals of the loop of `ShadowMetrics.from_records`, and its result.
pub record Totals (Float : Type 0) : Type 0 where
  pub comparable : ℕ
  pub agreements : ℕ
  pub reward_total : Float

pub record ShadowMetrics (Float : Type 0) : Type 0 where
  pub agreement_rate : Float
  pub projected_reward_mean : Float
  pub sample_count : ℕ
  pub comparable_count : ℕ

module _ {fl : Doubles} (py : Conversions fl) (utilities : fl.Float × fl.Float × fl.Float) where
  open fl use {Float, add, div}

  abbrev pub counted_pair : Totals Float → Option ℕ → Option ℕ → Float → Totals Float
  counted_pair t none rl confidence = t
  counted_pair t (some b) none confidence = t
  counted_pair t (some b) (some r) confidence = record {
    comparable = t.comparable + 1;
    agreements = if b == r then t.agreements + 1 else t.agreements;
    reward_total = add t.reward_total (projected_reward py utilities b r confidence);
  }

  abbrev pub counted_record : Totals Float → Entries Float → Totals Float
  counted_record t d =
      counted_pair t (coerce_action py (get "baseline_action" d))
        (coerce_action py (get "rl_action" d)) (coerce_float py (one fl) (get "confidence" d))

  abbrev pub no_totals : Totals Float
  no_totals = record { comparable = 0; agreements = 0; reward_total = null fl }

  abbrev pub totals_of : List (Entries Float) → Totals Float
  totals_of = foldl counted_record no_totals

  abbrev pub mean_of : Float → ℕ → Float
  mean_of x n = if ltb 0 n then div x (py.of_int (pos n)) else null fl

  -- `ShadowMetrics.from_records`.
  unfoldable pub from_records : List (Entries Float) → ShadowMetrics Float
  from_records records =
      let t = totals_of records in
      record {
        agreement_rate = mean_of (py.of_int (pos t.agreements)) t.comparable;
        projected_reward_mean = mean_of t.reward_total t.comparable;
        sample_count = length records;
        comparable_count = t.comparable;
      }

-- The entries of the log, JSON texts that read back as they were written, `str`, and whether
-- `_sanitize_for_json` returns for the object that a value stands for: it raises where the object
-- holds an array that is not of numbers, and where `str` of a part raises.
pub record Texts (fl : Doubles) : Type 1 where
  pub Json : Type 0
  pub dumps : Entries fl.Float → Json
  pub loads : Json → Option (Entries fl.Float)
  pub str_of : Value fl.Float → String
  pub sanitizes : Value fl.Float → Bool
  pub loads-dumps : (d : Entries fl.Float) → loads (dumps d) ≡ some d

-- `ShadowModeConfig`.
pub record ShadowConfig (Float : Type 0) : Type 0 where
  pub max_entries : ℕ
  pub action_utilities : Float × Float × Float

-- What the RL policy answers before its time is over.
pub data Inference (Float : Type 0) : Type 0 where
  answered : Value Float → Inference Float
  timed_out : Inference Float
  failed : Inference Float

-- What Redis answers to RPUSH and LTRIM.
pub data LogAnswer : Type 0 where
  written : LogAnswer
  push_failed : LogAnswer
  trim_failed : LogAnswer

pub data ShadowError : Type 0 where
  state_error : ShadowError
  static_policy_error : ShadowError
  no_valid_action : ShadowError
  sanitize_error : ShadowError
  log_error : ShadowError

pub data Result (Float : Type 0) : Type 0 where
  returns : Value Float → Result Float
  raises : ShadowError → Result Float

-- The answers of one call.
pub record Call (Float : Type 0) : Type 0 where
  pub inference : Inference Float
  pub latency_ms : Float
  pub timestamp : String
  pub log_answer : LogAnswer

-- The comparison that is logged.
pub record Comparison (Float : Type 0) : Type 0 where
  pub rl_action : Option ℕ
  pub confidence : Float
  pub status : String

module _ {fl : Doubles} (py : Conversions fl) (tx : Texts fl) (c : ShadowConfig fl.Float) where
  open fl use {Float}

  abbrev pub action_value : Option ℕ → Value Float
  action_value none = none_value
  action_value (some n) = integer (pos n)

  abbrev pub values_of : List Float → Values Float
  values_of [] = nil
  values_of (x ∷ xs) = cons (number x) (values_of xs)

  abbrev pub reward_of : ℕ → Option ℕ → Float → Float
  reward_of baseline_action none confidence = null fl
  reward_of baseline_action (some rl_action) confidence =
      projected_reward py c.action_utilities baseline_action rl_action confidence

  -- The payload of `log_comparison`.
  abbrev pub payload :
      String → SentinelState Float → ℕ → Comparison Float → Float → String → Entries Float
  payload asset_id state baseline_action m latency_ms timestamp =
      entry "asset_id" (string asset_id) (
        entry "baseline_action" (integer (pos baseline_action)) (
          entry "rl_action" (action_value m.rl_action) (
            entry "confidence" (number (clip01 fl m.confidence)) (
              entry "status" (string m.status) (
                entry "state_vector" (sequence (values_of state.vector)) (
                  entry "latency_ms" (number (fmax fl (null fl) latency_ms)) (
                    entry "projected_reward"
                      (number (reward_of baseline_action m.rl_action (clip01 fl m.confidence)))
                      (entry "timestamp" (string timestamp) end))))))))

  -- The writes of `log_comparison`; the Boolean is false where it raises.
  abbrev pub write_log : LogAnswer → Entries Float → List tx.Json → List tx.Json × Bool
  write_log written d log = (ltrim_last c.max_entries (log ++ tx.dumps d ∷ []), true)
  write_log push_failed d log = (log, false)
  write_log trim_failed d log = (log ++ tx.dumps d ∷ [], false)

  -- `fetch_recent`: the last `limit` entries, all for no limit, without those that are no JSON.
  abbrev pub cons_parsed : Option (Entries Float) → List (Entries Float) → List (Entries Float)
  cons_parsed none ds = ds
  cons_parsed (some d) ds = d ∷ ds

  abbrev pub parsed_entries : List tx.Json → List (Entries Float)
  parsed_entries [] = []
  parsed_entries (t ∷ ts) = cons_parsed (tx.loads t) (parsed_entries ts)

  unfoldable pub fetch_recent : ℕ → List tx.Json → List (Entries Float)
  fetch_recent limit log = parsed_entries (ltrim_last limit log)

  -- The comparison after the inference.
  abbrev pub answered_comparison : Value Float → Option ℕ → Float → Comparison Float
  answered_comparison v none confidence = record {
    rl_action = none;
    confidence = confidence;
    status = "shadow_error";
  }
  answered_comparison v (some a) confidence = record {
    rl_action = some a;
    confidence = extract_confidence py confidence v;
    status = "shadow_complete";
  }

  abbrev pub comparison_of : Inference Float → Float → Comparison Float
  comparison_of (answered v) confidence = answered_comparison v (extract_action py v) confidence
  comparison_of timed_out confidence = record {
    rl_action = none;
    confidence = confidence;
    status = "latency_error";
  }
  comparison_of failed confidence = record {
    rl_action = none;
    confidence = confidence;
    status = "shadow_error";
  }

  -- `data.get("asset_id") or data.get("id") or data.get("assetId") or "unknown"`.
  abbrev pub asset_id_of : List String → Entries Float → String
  asset_id_of [] d = "unknown"
  asset_id_of (key ∷ keys) d =
      let rest = asset_id_of keys d in if truthy py (get key d) then tx.str_of (get key d) else rest

  abbrev pub result_of : Value Float → List tx.Json × Bool → List tx.Json × Result Float
  result_of v (log, true) = (log, returns v)
  result_of v (log, false) = (log, raises log_error)

  module _ (np : Numpy fl)
      (static_policy : SentinelState Float → Entries Float → Option (Value Float)) where
    -- Whether the result that is logged for the RL policy, None unless it answered, is sanitized.
    abbrev pub sanitizes_inference : Inference Float → Bool
    sanitizes_inference (answered v) = tx.sanitizes v
    sanitizes_inference timed_out = true
    sanitizes_inference failed = true

    abbrev pub compared :
        Entries Float
        → Call Float
        → List tx.Json
        → SentinelState Float
        → Value Float
        → ℕ
        → List tx.Json × Result Float
    compared d call log state baseline_result baseline_action =
        if tx.sanitizes baseline_result && sanitizes_inference call.inference
        then result_of baseline_result (
            write_log call.log_answer
              (payload (asset_id_of ("asset_id" ∷ "id" ∷ "assetId" ∷ []) d) state baseline_action
                (comparison_of call.inference state.calibrated_confidence) call.latency_ms
                call.timestamp)
              log)
        else (log, raises sanitize_error)

    -- `process_asset`.
    unfoldable pub process_asset :
        Entries Float → Call Float → List tx.Json → List tx.Json × Result Float
    process_asset d call log = elim (from_raw py np d) [
      | none ↦ (log, raises state_error)
      | some state ↦ elim (static_policy state d) [
        | none ↦ (log, raises static_policy_error)
        | some baseline_result ↦ elim (extract_action py baseline_result) [
          | none ↦ (log, raises no_valid_action)
          | some baseline_action ↦ compared d call log state baseline_result baseline_action
        ]
      ]
    ]
