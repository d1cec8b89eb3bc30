-- ===== src/Sentinel/Steps.antt =====
-- `step` and `reset` of the environment, with the historical samples (sentinel_env.py).
use Prim.Native.String.{String}
use text.Mathlib.Text.{◌==◌ as str_eq}
use mathlib.Core.Option
use omni_aegis.Prelude.{
  ℕ, ◌+◌, ◌-◌, Bool, true, false, not, ◌||◌, List, [], ◌∷◌, Option, none, some, if◌then◌else◌, ltb,
  leb, length, get_elem?, min,
}
use omni_aegis.Doubles.{Doubles, null, one, fmin, clip01}
use omni_aegis.Values.{
  Value, Entries, end, entry, boolean, string, mapping, Conversions, find, get, to_float, to_int,
  is_zero,
}
use omni_aegis.Sentinel.{Numpy, SentinelState, from_raw}
use omni_aegis.Sentinel.Env.{RewardWeights, HistoricalOutcome, Distances, compute_reward}
use omni_aegis.Sentinel.Dynamics.{
  build_metrics, heuristic_is_infringing, heuristic_outcome, categorize_outcome, simulated_state,
}

-- `_state_from_history_index` reads these keys of a sample.
abbrev pub state_keys : List String
state_keys =
    "calibrated_confidence" ∷ "confidence" ∷ "uncertainty" ∷ "content_type" ∷ "hitl_queue_depth"
    ∷ "queue_depth" ∷ "reviewer_capacity" ∷ "reviewer_count" ∷ "false_positive_rate_2h"
    ∷ "false_positive_rate" ∷ "hitl_overturn_rate_2h" ∷ "overturn_rate" ∷ "privacy_budget"
    ∷ "privacy_budget_remaining" ∷ "model_age" ∷ "model_age_days" ∷ "model_age_hours" ∷ "hour"
    ∷ "hour_of_day" ∷ []

-- The environment between two calls.
pub record EnvState (Float : Type 0) : Type 0 where
  pub state : SentinelState Float
  pub step_count : ℕ
  pub history_index : ℕ

-- What `step` returns beside the state.
pub record StepResult (Float : Type 0) : Type 0 where
  pub next_state : SentinelState Float
  pub reward : Float
  pub done : Bool
  pub truncated : Bool
  pub outcome : HistoricalOutcome Float

module _ {Float : Type 0} where
  -- `{key: sample[key] for key in keys if key in sample}`.
  abbrev pub entry_if : String → Option (Value Float) → Entries Float → Entries Float
  entry_if key none d = d
  entry_if key (some v) d = entry key v d

  abbrev pub select_keys : List String → Entries Float → Entries Float
  select_keys [] sample = end
  select_keys (key ∷ keys) sample = entry_if key (find key sample) (select_keys keys sample)

module _ {fl : Doubles} (py : Conversions fl) (np : Numpy fl) (ds : Distances fl) where
  open fl use {Float, sub}

  -- A state that is read, if there is one; the outer option is none where `from_raw` raises.
  abbrev pub state_of_selected : Entries Float → Option (Option (SentinelState Float))
  state_of_selected end = some none
  state_of_selected (entry k v d) = Option.map some (from_raw py np (entry k v d))

  abbrev pub state_of_sample : Value Float → Entries Float → Option (Option (SentinelState Float))
  state_of_sample (mapping d) sample = Option.map some (from_raw py np d)
  state_of_sample v sample = state_of_selected (select_keys state_keys sample)

  abbrev pub state_of_found : Option (Entries Float) → Option (Option (SentinelState Float))
  state_of_found none = some none
  state_of_found (some sample) = state_of_sample (get "state" sample) sample

  -- `_sample_bool`: the first key whose value reads as a truth value.
  abbrev pub bool_of_text : String → Option Bool
  bool_of_text t =
      if str_eq t "1"
        || (str_eq t "true" || (str_eq t "yes" || (str_eq t "infringing" || str_eq t "positive")))
      then some true
      else if str_eq t "0"
          || (str_eq t "false" || (str_eq t "no" || (str_eq t "whitelist" || str_eq t "negative")))
      then some false
      else none

  abbrev pub or_else {ℓ} : {A : Type ℓ} → Option A → Option A → Option A
  or_else none b = b
  or_else (some a) b = some a

  abbrev pub bool_of_int : Value Float → Option Bool
  bool_of_int v = Option.map (λ i. not (is_zero py i)) (to_int py v)

  abbrev pub bool_of_value : Value Float → Option Bool
  bool_of_value (boolean b) = some b
  bool_of_value (string t) = or_else (bool_of_text (py.lower (py.strip t))) (bool_of_int (string t))
  bool_of_value v = bool_of_int v

  abbrev pub bool_of_found : Option (Value Float) → Option Bool
  bool_of_found none = none
  bool_of_found (some v) = bool_of_value v

  abbrev pub sample_bool : List String → Entries Float → Option Bool
  sample_bool [] sample = none
  sample_bool (key ∷ keys) sample =
      or_else (bool_of_found (find key sample)) (sample_bool keys sample)

  -- `_sample_float`.
  abbrev pub float_of_found : Option (Value Float) → Option Float
  float_of_found none = none
  float_of_found (some v) = to_float py v

  abbrev pub sample_float : List String → Float → Entries Float → Float
  sample_float [] default sample = default
  sample_float (key ∷ keys) default sample =
      Option.get_or (float_of_found (find key sample)) (sample_float keys default sample)

  -- `_state_similarity`, 0 without a state.
  abbrev pub state_similarity : SentinelState Float → Option (SentinelState Float) → Float
  state_similarity s none = null fl
  state_similarity s (some other) =
      clip01 fl (sub (one fl) (fmin fl (ds.distance s.vector other.vector) ds.root_of_size))

  module _ (weights : RewardWeights Float) (samples : List (Entries Float)) (max_steps : ℕ) where
    -- `_state_from_history_index`.
    abbrev pub state_from_history_index : ℕ → Option (Option (SentinelState Float))
    state_from_history_index index = state_of_found (get_elem? samples index)

    -- `_sample_state`.
    abbrev pub sample_state : ℕ → Value Float → Option (Option (SentinelState Float))
    sample_state history_index (mapping d) = Option.map some (from_raw py np d)
    sample_state history_index v = state_from_history_index history_index

    -- `_outcome_from_sample`, after the sample's state has been read.
    abbrev pub outcome_from_sample :
        Entries Float
        → SentinelState Float
        → ℕ
        → Option (SentinelState Float)
        → HistoricalOutcome Float
    outcome_from_sample sample s action other =
        categorize_outcome fl action
          (Option.get_or
            (sample_bool ("is_infringing" ∷ "ground_truth_infringing" ∷ "label" ∷ []) sample)
            (heuristic_is_infringing fl s))
          (sample_float ("confidence" ∷ "score" ∷ "risk_score" ∷ []) s.calibrated_confidence sample)
          true (state_similarity s other)

    -- `_get_historical_outcome`.
    abbrev pub outcome_of :
        Option (Entries Float) → EnvState Float → ℕ → Option (HistoricalOutcome Float)
    outcome_of none e action = some (heuristic_outcome fl e.state action)
    outcome_of (some sample) e action =
        Option.map (outcome_from_sample sample e.state action)
          (sample_state e.history_index (get "state" sample))

    abbrev pub get_historical_outcome : EnvState Float → ℕ → Option (HistoricalOutcome Float)
    get_historical_outcome e action =
        outcome_of (get_elem? samples (min e.history_index (length samples - 1))) e action

    -- `_next_state`, after the historical one has been read.
    abbrev pub next_state_of :
        Option (SentinelState Float)
        → SentinelState Float
        → ℕ
        → HistoricalOutcome Float
        → SentinelState Float
    next_state_of (some s') s action outcome = s'
    next_state_of none s action outcome =
        simulated_state fl np s action outcome.category
          (build_metrics fl s action).fl_round_triggered

    -- The rest of `step`, once nothing can raise.
    abbrev pub finish_step :
        EnvState Float
        → ℕ
        → HistoricalOutcome Float
        → SentinelState Float
        → EnvState Float × StepResult Float
    finish_step e action outcome s' = (
      record { state = s'; step_count = e.step_count + 1; history_index = e.history_index + 1 },
      record {
        next_state = s';
        reward = compute_reward fl weights outcome.category (build_metrics fl e.state action);
        done = leb (length samples) (e.history_index + 1);
        truncated = leb max_steps (e.step_count + 1);
        outcome = outcome;
      },
    )

    -- `step`; an action out of range raises too.
    unfoldable pub step : EnvState Float → ℕ → Option (EnvState Float × StepResult Float)
    step e action =
        if ltb action 3
        then elim (get_historical_outcome e action) [
          | none ↦ none
          | some outcome ↦
              Option.map
                (λ next. finish_step e action outcome (next_state_of next e.state action outcome))
                (state_from_history_index (e.history_index + 1))
        ]
        else none

    -- `reset` to a given initial state.
    unfoldable pub reset : SentinelState Float → Option (EnvState Float)
    reset initial_state =
        Option.map
          (λ found. record {
            state = Option.get_or found initial_state;
            step_count = 0;
            history_index = 0;
          })
          (state_from_history_index 0)
