-- ===== src/Round.antt =====
-- The rounds of federated learning (decision_layer/services/fl_coordinator/round_monitor.py) over the
-- buffer of samples (decision_layer/shared/training_buffer.py).
-- JSON and the order of floats are parameters with laws; keys do not expire; Redis does not fail.
-- The answers of the callback and the round ids are given for each attempt.
pub mod Retry
pub mod Promotion
mod Tests
use Prim.Native.String.{String, ◌++◌ as append_text}
use text.Mathlib.Text.{◌==◌ as str_eq}
use omni_aegis.Prelude.Dict.{Dict, lookup, insert}
use omni_aegis.Prelude.{
  ℕ, zero, suc, ◌+◌, ◌≡◌, Bool, true, false, not, ◌||◌, List, [], ◌∷◌, ◌++◌, map, Option, none,
  some, if◌then◌else◌, leb, length,
}

-- `json.dumps` and `json.loads`; `raw item` is {"raw": item}, and `as_text` is the text of a sample
-- that is a str, none for the others.
pub record Json : Type 1 where
  pub Sample : Type 0
  pub dumps : Sample → String
  pub loads : String → Option Sample
  pub raw : String → Sample
  pub as_text : Sample → Option String
  pub loads-dumps : (sample : Sample) → loads (dumps sample) ≡ some sample

-- Floats with `a < b`, which is false where one is NaN, and the literals 0.0 and 1.0.
pub record Floats : Type 1 where
  pub Float : Type 0
  pub lt : Float → Float → Bool
  pub null : Float
  pub one : Float
  pub lt-irrefl : (a : Float) → lt a a ≡ false

-- `RoundMonitorConfig`, and whether `on_round_start` is given.
pub record RoundMonitorConfig : Type 0 where
  pub threshold : ℕ
  pub max_retries : ℕ
  pub model_candidate_prefix : String
  pub has_callback : Bool

-- An attempt's round id, and whether the callback returns.
pub record Attempt : Type 0 where
  pub round_id : String
  pub returns : Bool

module _ (j : Json) where
  open j use {Sample, dumps, loads, raw, as_text}

  -- The list of samples, the round samples by round id, `fl:active_round_id`, and the messages on
  -- the trigger channel that the monitor has not read; its own are kept as the round id they name.
  pub record State : Type 0 where
    pub buffer : List String
    pub rounds : Dict (List Sample)
    pub active_round_id : Option String
    pub triggers : List String

  -- `push_sample`: a str is pushed as it is.
  abbrev pub payload_of : Sample → String
  payload_of sample = elim (as_text sample) [ none ↦ dumps sample | some text ↦ text ]

  abbrev pub push_sample : Sample → State → State
  push_sample sample s = record s { buffer = s.buffer ++ payload_of sample ∷ [] }

  abbrev pub parsed : String → Option Sample → Sample
  parsed item none = raw item
  parsed item (some sample) = sample

  -- `get_and_clear`, and `json.loads` of what it returns.
  abbrev pub parse_all : List String → List Sample
  parse_all items = map (λ item. parsed item (loads item)) items

  abbrev pub cleared : State → State
  cleared s = record s { buffer = [] }

  -- `_persist_round_samples`.
  abbrev pub persist_round_samples : String → List Sample → State → State
  persist_round_samples round_id samples s = record s {
    rounds = insert round_id samples s.rounds;
    active_round_id = some round_id;
  }

  -- `_restore_samples`.
  abbrev pub restore_samples : List Sample → State → State
  restore_samples [] s = s
  restore_samples (sample ∷ samples) s = restore_samples samples (push_sample sample s)

  module _ (c : RoundMonitorConfig) where
    -- `_attempt_round`. Without a callback it publishes on the trigger channel.
    unfoldable pub attempt_round : Attempt → List Sample → State → State × Bool
    attempt_round a samples s =
        let s' = persist_round_samples a.round_id samples s in
        if c.has_callback
        then (s', a.returns)
        else (record s' { triggers = s'.triggers ++ a.round_id ∷ [] }, true)

    -- The attempts that are left, and the answer whether RuntimeError is raised.
    unfoldable pub retry_loop : ℕ → (ℕ → Attempt) → ℕ → List Sample → State → State × Bool
    unfolding attempt_round
    retry_loop zero attempts i samples s = (restore_samples samples s, true)
    retry_loop (suc left) attempts i samples s =
        let (s', ok) = attempt_round (attempts i) samples s in
        let retried = retry_loop left attempts (i + 1) samples s' in
        if ok then (s', false) else retried

    -- `_trigger_round_with_retry`.
    unfoldable pub trigger_round_with_retry : (ℕ → Attempt) → List Sample → State → State × Bool
    unfolding retry_loop
    trigger_round_with_retry attempts [] s = (s, false)
    trigger_round_with_retry attempts (sample ∷ samples) s =
        retry_loop c.max_retries attempts 0 (sample ∷ samples) s

    -- The buffer is taken and a round is started with it.
    unfoldable pub start_round : (ℕ → Attempt) → State → State × Bool
    unfolding trigger_round_with_retry
    start_round attempts s = trigger_round_with_retry attempts (parse_all s.buffer) (cleared s)

    -- The two ways to a round of an iteration of `run_forever`, with the answer whether the loop is
    -- left by an exception.
    unfoldable pub poll_threshold : (ℕ → Attempt) → State → State × Bool
    unfolding start_round
    poll_threshold attempts s =
        if leb c.threshold (length s.buffer) then start_round attempts s else (s, false)

    unfoldable pub poll_trigger : (ℕ → Attempt) → State → State × Bool
    unfolding start_round
    poll_trigger attempts s = elim s.triggers [
      | [] ↦ (s, false)
      | message ∷ messages ↦ start_round attempts (record s { triggers = messages })
    ]

-- A message on the channel of finished models, parsed, with the fields that may be missing.
pub record ModelReady (Float : Type 0) : Type 0 where
  pub candidate_id : String
  pub accuracy : Option Float
  pub ece : Option Float
  pub weights_key : Option String

pub record Metrics (Float : Type 0) : Type 0 where
  pub accuracy : Float
  pub ece : Float

module _ (fl : Floats) (c : RoundMonitorConfig) where
  -- The pointer to the production model and the metrics under the keys with ":meta".
  pub record Registry : Type 0 where
    pub pointer : Option String
    pub metas : Dict (Metrics fl.Float)

  abbrev pub or_default {ℓ} : {A : Type ℓ} → A → Option A → A
  or_default a none = a
  or_default a (some b) = b

  -- `payload.get("weights_key") or f"{prefix}:{candidate_id}"`.
  abbrev pub candidate_key : String → String
  candidate_key candidate_id = append_text c.model_candidate_prefix (append_text ":" candidate_id)

  abbrev pub weights_key_of : String → Option String → String
  weights_key_of candidate_id none = candidate_key candidate_id
  weights_key_of candidate_id (some key) = if str_eq key "" then candidate_key candidate_id else key

  -- The metrics of the production model.
  abbrev pub no_metrics : Metrics fl.Float
  no_metrics = record { accuracy = fl.null; ece = fl.one }

  abbrev pub previous_metrics : Registry → Metrics fl.Float
  previous_metrics r = elim r.pointer [
    | none ↦ no_metrics
    | some key ↦ if str_eq key "" then no_metrics else or_default no_metrics (lookup key r.metas)
  ]

  -- `quality_regressed`.
  abbrev pub quality_regressed : Metrics fl.Float → Metrics fl.Float → Bool
  quality_regressed new previous =
      fl.lt new.accuracy previous.accuracy || fl.lt previous.ece new.ece

  abbrev pub metrics_of : ModelReady fl.Float → Metrics fl.Float
  metrics_of message = record {
    accuracy = or_default fl.null message.accuracy;
    ece = or_default fl.one message.ece;
  }

  -- `_handle_model_ready` of a payload that could be read; a missing candidate id raises.
  unfoldable pub handle_payload : ModelReady fl.Float → Registry → Registry × Bool
  handle_payload message r =
      if str_eq message.candidate_id ""
      then (r, false)
      else let key = weights_key_of message.candidate_id message.weights_key in
        let r' = record r { metas = insert key (metrics_of message) r.metas } in
        if quality_regressed (metrics_of message) (previous_metrics r)
        then (r', true)
        else (record r' { pointer = some key }, true)

  -- `_handle_model_ready`, with the answer whether it returns; the payload is none where reading it
  -- raises (no JSON, no mapping, no numbers).
  abbrev pub handle_model_ready : Option (ModelReady fl.Float) → Registry → Registry × Bool
  handle_model_ready none r = (r, false)
  handle_model_ready (some message) r = handle_payload message r
