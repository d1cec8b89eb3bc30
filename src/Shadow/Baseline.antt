-- ===== src/Shadow/Baseline.antt =====
-- What `process_asset` returns does not depend on the RL policy's decision.
use omni_aegis.Prelude.{
  ℕ, ◌≡◌, refl, Bool, true, false, ◌&&◌, inl, inr, List, Option, none, some, Option-cases,
  Bool-cases,
}
use omni_aegis.Doubles.{Doubles}
use omni_aegis.Values.{Value, Entries, Conversions}
use omni_aegis.Sentinel.{Numpy, SentinelState, from_raw}
use omni_aegis.Shadow.{
  extract_action, Texts, ShadowConfig, Call, LogAnswer, written, push_failed, trim_failed, Result,
  returns, raises, state_error, static_policy_error, no_valid_action, sanitize_error, log_error,
  sanitizes_inference, compared, write_log, result_of, process_asset,
}

module _ {fl : Doubles} (py : Conversions fl) (tx : Texts fl) (c : ShadowConfig fl.Float)
    (np : Numpy fl)
    (static_policy : SentinelState fl.Float → Entries fl.Float → Option (Value fl.Float)) where
  open fl use {Float}

  -- The result as the baseline, the sanitizing and the log's writes give it; the Boolean tells
  -- whether the RL policy's result, if there is one, can be sanitized.
  abbrev pub or_log_error : LogAnswer → Value Float → Result Float
  or_log_error written v = returns v
  or_log_error push_failed v = raises log_error
  or_log_error trim_failed v = raises log_error

  abbrev pub logged_result : Bool → LogAnswer → Value Float → Result Float
  logged_result false l v = raises sanitize_error
  logged_result true l v = or_log_error l v

  abbrev pub checked_result : Bool → LogAnswer → Value Float → Option ℕ → Result Float
  checked_result b l v none = raises no_valid_action
  checked_result b l v (some action) = logged_result (tx.sanitizes v && b) l v

  abbrev pub policy_result : Bool → LogAnswer → Option (Value Float) → Result Float
  policy_result b l none = raises static_policy_error
  policy_result b l (some v) = checked_result b l v (extract_action py v)

  abbrev pub state_result :
      Entries Float → Bool → LogAnswer → Option (SentinelState Float) → Result Float
  state_result d b l none = raises state_error
  state_result d b l (some state) = policy_result b l (static_policy state d)

  abbrev pub baseline_result : Entries Float → Bool → LogAnswer → Result Float
  baseline_result d b l = state_result d b l (from_raw py np d)

  result_of-write_log :
      (l : LogAnswer) (d : Entries Float) (log : List tx.Json) (v : Value Float)
      → (result_of py tx c v (write_log py tx c l d log)).1 ≡ or_log_error l v
  result_of-write_log written d log v = refl
  result_of-write_log push_failed d log v = refl
  result_of-write_log trim_failed d log v = refl

  compared-logged_result :
      (d : Entries Float) (call : Call Float) (log : List tx.Json) (state : SentinelState Float)
      (v : Value Float) (action : ℕ)
      → (compared py tx c np static_policy d call log state v action).1
        ≡ logged_result
            (tx.sanitizes v && sanitizes_inference py tx c np static_policy call.inference)
            call.log_answer
            v
  compared-logged_result d call log state v action =
      elim (Bool-cases
        (tx.sanitizes v && sanitizes_inference py tx c np static_policy call.inference)) [
          | inl e ↦ rw (compared, e) (result_of-write_log call.log_answer _ log v)
          | inr e ↦ rw (compared, e) refl
        ]

  -- What `process_asset` returns or raises depends on the RL policy only in whether
  -- `_sanitize_for_json` returns for its result: whatever it decides, however late, and also where it
  -- fails, the static policy's own result is returned where its action is valid, both results can be
  -- sanitized and the log is written; the other branches raise, an RL result that cannot be sanitized
  -- among them.
  pub process_asset-baseline_result :
      (d : Entries Float) (call : Call Float) (log : List tx.Json)
      → (process_asset py tx c np static_policy d call log).1
        ≡ baseline_result d
            (sanitizes_inference py tx c np static_policy call.inference)
            call.log_answer
  unfolding process_asset
  process_asset-baseline_result d call log = elim (Option-cases (from_raw py np d)) [
    | inl e ↦ rw (process_asset, e) refl
    | inr (state, e) ↦ elim (Option-cases (static_policy state d)) [
      | inl e' ↦ rw (process_asset, e, e') refl
      | inr (v, e') ↦ elim (Option-cases (extract_action py v)) [
        | inl e'' ↦ rw (process_asset, e, e', e'') refl
        | inr (action, e'') ↦
            rw (process_asset, e, e', e'') (compared-logged_result d call log state v action)
      ]
    ]
  ]
