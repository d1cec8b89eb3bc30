-- ===== src/Shadow/Tests.antt =====
-- Calls of the shadow mode, and the theorems at concrete calls.
use mathlib.Core.Option
use omni_aegis.Prelude.{Bool, true, false, ℕ, ◌≡◌, refl, List, [], ◌∷◌, Option, some, arith}
use omni_aegis.Prelude.Int.{pos}
use omni_aegis.Values.{Value, Entries, end, entry, none_value, integer, number, string, mapping}
use omni_aegis.Sentinel.{SentinelState, from_raw}
use omni_aegis.Sentinel.Samples.{thousandths, conversions, numpy}
use omni_aegis.Shadow.{
  extract_action, from_records, Texts, ShadowConfig, Inference, answered, timed_out, Call,
  LogAnswer, written, push_failed, returns, raises, log_error, sanitize_error, fetch_recent,
  process_asset,
}
use omni_aegis.Shadow.Baseline.{process_asset-baseline_result}
use omni_aegis.Shadow.Counted.{comparable_in, process_asset-comparable_in}

program : Unit {0}
unfolding from_raw extract_action from_records fetch_recent process_asset
program = tt

abbrev asked : Entries ℕ
asked = entry "asset_id" (string "a1") (entry "confidence" (number 700) end)

-- Any decision of the model's own is a mapping with an action.
abbrev decision : ℕ → Value ℕ
decision n = mapping (entry "decision" (integer (pos n)) (entry "score" (number 900) end))

abbrev static_policy : SentinelState ℕ → Entries ℕ → Option (Value ℕ)
static_policy state d = some (decision 2)

abbrev config : ShadowConfig ℕ
config = record { max_entries = 5; action_utilities = (1500, 800, 3000) }

abbrev call : Inference ℕ → LogAnswer → Call ℕ
call i l = record { inference = i; latency_ms = 12; timestamp = "t"; log_answer = l }

abbrev records : List (Entries ℕ)
records =
    entry "baseline_action" (integer (pos 2)) (entry "rl_action" (integer (pos 2)) end)
    ∷ entry "baseline_action" (integer (pos 1)) (entry "rl_action" (number 2000) end)
    ∷ entry "baseline_action" (integer (pos 1)) (entry "rl_action" none_value end)
    ∷ []

rates : ℕ × ℕ
rates =
    let m = from_records conversions (1500, 800, 3000) records in
    (m.agreement_rate, m.comparable_count)

-- One of two comparable records agrees.
rates_lem : rates ≡ (500, 2)
unfolding rates program
rates_lem = refl

-- An empty mapping stands for a result that cannot be sanitized.
abbrev sanitizes_value : Value ℕ → Bool
sanitizes_value (mapping end) = false
sanitizes_value v = true

abbrev texts : Texts thousandths
texts = record {
  Json = Entries ℕ;
  dumps = λ d. d;
  loads = λ d. some d;
  str_of = λ v. "a1";
  sanitizes = sanitizes_value;
  loads-dumps = λ d. refl;
}

abbrev state : SentinelState ℕ
state = Option.get_or (from_raw conversions numpy asked) (record {
  calibrated_confidence = 0;
  uncertainty = 0;
  content_type_text = 0;
  content_type_image = 0;
  content_type_audio = 0;
  content_type_video = 0;
  hitl_queue_depth = 0;
  reviewer_capacity = 0;
  false_positive_rate_2h = 0;
  hitl_overturn_rate_2h = 0;
  privacy_budget = 0;
  model_age = 0;
  time_of_day_sin = 0;
  time_of_day_cos = 0;
  vector = [];
})

process_asset-baseline_result_example :
    (process_asset conversions texts config numpy static_policy asked (call timed_out written) []).1
    ≡ returns (decision 2)
unfolding program
process_asset-baseline_result_example =
    process_asset-baseline_result conversions texts config numpy static_policy asked
      (call timed_out written) []

process_asset-comparable_in_example :
    comparable_in conversions texts config numpy static_policy
      (process_asset conversions texts config numpy static_policy asked
        (call (answered (decision 1)) written)
        []).0
    ≡ 1
unfolding program
process_asset-comparable_in_example =
    process_asset-comparable_in conversions texts config numpy static_policy asked
      (call (answered (decision 1)) written) [] state (decision 2) 2 refl refl refl refl refl refl
      (omega arith)

-- An RL result that cannot be sanitized takes the baseline's result away from the caller.
unsanitized :
    (process_asset conversions texts config numpy static_policy asked
      (call (answered (mapping end)) written)
      []).1
    ≡ raises sanitize_error
unfolding program
unsanitized = refl

-- A write that fails takes the baseline's result away from the caller.
log_failure :
    (process_asset conversions texts config numpy static_policy asked
      (call (answered (decision 2)) push_failed)
      []).1
    ≡ raises log_error
unfolding program
log_failure = refl
