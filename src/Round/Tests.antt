-- ===== src/Round/Tests.antt =====
-- The rounds and the registry with texts as samples and percents as floats.
use Prim.Native.String.{String}
use text.Mathlib.TextEquality.{eq_iff}
use omni_aegis.Prelude.{ℕ, ◌≡◌, ◌≢◌, refl, true, false, ◌⊎◌, [], ◌∷◌, none, some, arith, leb, ltb}
use omni_aegis.Round.{
  Json, Floats, RoundMonitorConfig, Attempt, State, ModelReady, Registry, parse_all, attempt_round,
  retry_loop, trigger_round_with_retry, start_round, poll_threshold, poll_trigger, previous_metrics,
  handle_payload, handle_model_ready, weights_key_of,
}
use omni_aegis.Round.Retry.{Answered, start_round-Answered}
use omni_aegis.Round.Promotion.{
  NoWorse, Received, handle_model_ready-NoWorse, handle_model_ready-Received,
}

abbrev texts : Json
texts = record {
  Sample = String;
  dumps = λ s. s;
  loads = λ s. some s;
  raw = λ s. s;
  as_text = λ s. none;
  loads-dumps = λ s. refl;
}

ltb_irrefl : (a : ℕ) → ltb a a ≡ false
ltb_irrefl a = ground arith

abbrev percents : Floats
percents = record { Float = ℕ; lt = ltb; null = 0; one = 100; lt-irrefl = ltb_irrefl }

abbrev with_callback : RoundMonitorConfig
with_callback = record {
  threshold = 50;
  max_retries = 3;
  model_candidate_prefix = "candidate";
  has_callback = true;
}

abbrev without_callback : RoundMonitorConfig
without_callback = record with_callback { has_callback = false }

abbrev two_samples : State texts
two_samples = record {
  buffer = "x" ∷ "y" ∷ [];
  rounds = [];
  active_round_id = none;
  triggers = "go" ∷ [];
}

-- The first attempt raises.
abbrev second_returns : ℕ → Attempt
second_returns i = record { round_id = "r"; returns = leb 1 i }

abbrev none_returns : ℕ → Attempt
none_returns i = record { round_id = "r"; returns = false }

program : Unit {0}
unfolding attempt_round retry_loop trigger_round_with_retry start_round poll_threshold poll_trigger
    handle_payload
program = tt

retried : (start_round texts with_callback second_returns two_samples).1 ≡ false
unfolding program
retried = refl

restored : (start_round texts with_callback none_returns two_samples).0.buffer ≡ "x" ∷ "y" ∷ []
unfolding program
restored = refl

below_threshold : poll_threshold texts with_callback none_returns two_samples ≡ (two_samples, false)
unfolding program
below_threshold = refl

start_round-Answered_example :
    (parse_all texts two_samples.buffer ≡ [])
    ⊎ Answered texts
        (parse_all texts two_samples.buffer)
        (start_round texts with_callback none_returns two_samples)
start_round-Answered_example =
    start_round-Answered texts with_callback none_returns two_samples (refl, (refl, tt))

-- A trigger starts a round below the threshold and leaves a trigger again.
retriggered : (poll_trigger texts without_callback none_returns two_samples).0.triggers ≡ "r" ∷ []
unfolding program
retriggered = refl

abbrev registry : Registry percents with_callback
registry = record { pointer = some "old"; metas = ("old", record { accuracy = 90; ece = 8 }) ∷ [] }

abbrev finished : ℕ → ModelReady ℕ
finished accuracy = record {
  candidate_id = "7";
  accuracy = some accuracy;
  ece = some 6;
  weights_key = none;
}

promotes :
    (handle_model_ready percents with_callback (some (finished 94)) registry).0.pointer
    ≡ some "candidate:7"
unfolding program
promotes = refl

rejects :
    (handle_model_ready percents with_callback (some (finished 80)) registry).0.pointer ≡ some "old"
unfolding program
rejects = refl

old_key : some "old" ≢ some (weights_key_of percents with_callback "7" none)
old_key e = absurd (cc ((eq_iff "old" "candidate:7").1 (cc e)))

handle_model_ready-NoWorse_example :
    NoWorse percents with_callback
      (previous_metrics percents with_callback
        (handle_model_ready percents with_callback (some (finished 80)) registry).0)
      (previous_metrics percents with_callback registry)
handle_model_ready-NoWorse_example =
    handle_model_ready-NoWorse percents with_callback (finished 80) registry old_key

handle_model_ready-Received_example :
    Received percents with_callback registry
      (handle_model_ready percents with_callback (some (finished 94)) registry)
      (some (finished 94))
handle_model_ready-Received_example =
    handle_model_ready-Received percents with_callback (some (finished 94)) registry
