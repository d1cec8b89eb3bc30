-- ===== src/Sentinel/Tests.antt =====
-- The environment with thousandths for floats, its theorems at concrete inputs, and what it does
-- without samples.
use mathlib.Core.Option
use omni_aegis.Prelude.{
  ℕ, ◌+◌, ◌-◌, ◌*◌, ◌/◌, ◌≡◌, refl, Bool, true, false, ◌||◌, List, [], ◌∷◌, Option, none, some,
  arith, leb,
}
use omni_aegis.Doubles.{Doubles, IeeeLaws, clip01}
use omni_aegis.Prelude.Int.{pos}
use omni_aegis.Values.{Entries, end, entry, number, string, integer, mapping}
use omni_aegis.Sentinel.Samples.{
  finite_thousandths, ieee_thousandths, thousandths, conversions, numpy,
}
use omni_aegis.Sentinel.{SentinelState, from_raw}
use omni_aegis.Sentinel.Env.{
  RewardWeights, Distances, missed, compute_reward, reward_breakdown, category_of,
}
use omni_aegis.Sentinel.Dynamics.{build_metrics, simulated_state}
use omni_aegis.Sentinel.Steps.{EnvState, StepResult, step, reset}
use omni_aegis.Sentinel.Bounds.{Normalized, from_raw-Normalized}
use omni_aegis.Sentinel.Reward.{total, compute_reward-reward_breakdown}
use omni_aegis.Sentinel.Episodes.{run, reset-run-Normalized}

abbrev distances : Distances thousandths
distances = record { distance = λ xs ys. 0; root_of_size = 3742 }

-- Penalties count as rewards here, since the numbers have no sign.
abbrev weights : RewardWeights ℕ
weights = record {
  true_positive_auto_enforce = 3000;
  false_positive_auto_enforce = 0;
  true_positive_hitl_routing = 800;
  false_positive_hitl_routing = 0;
  missed_infringement_whitelist = 0;
  true_negative_whitelist = 1500;
  queue_depth_penalty_per_second = 5;
  reviewer_idle_penalty_per_minute = 100;
  privacy_budget_penalty = 1000;
}

abbrev measured : Entries ℕ
measured =
    entry "confidence" (number 93000)
      (entry "content_type" (string "img") (entry "queue_depth" (integer (pos 20)) end))

program : Unit {0}
unfolding from_raw simulated_state build_metrics step reset run compute_reward reward_breakdown
program = tt

abbrev dummy : SentinelState ℕ
dummy = record {
  calibrated_confidence = 0;
  uncertainty = 0;
  content_type_text = 0;
  content_type_image = 0;
  content_type_audio = 0;
  content_type_video = 0;
  hitl_queue_depth = 100;
  reviewer_capacity = 0;
  false_positive_rate_2h = 0;
  hitl_overturn_rate_2h = 0;
  privacy_budget = 200;
  model_age = 0;
  time_of_day_sin = 0;
  time_of_day_cos = 0;
  vector = [];
}

abbrev built : SentinelState ℕ
built = Option.get_or (from_raw conversions numpy measured) dummy

-- A confidence over 1 is a percentage, and 20 items of 200 are a tenth.
confidence_read : built.calibrated_confidence ≡ 930
unfolding program
confidence_read = refl

queue_read : built.hitl_queue_depth ≡ 100
unfolding program
queue_read = refl

built_read : from_raw conversions numpy measured ≡ some built
unfolding program
built_read = refl

from_raw-Normalized_example : Normalized thousandths built
from_raw-Normalized_example =
    from_raw-Normalized ieee_thousandths conversions numpy measured built built_read

-- A queue of a tenth counts 20 items; one item less than that is clipped to a full queue.
queue_jumps :
    (simulated_state thousandths numpy built 1 (category_of 1 true) false).hitl_queue_depth ≡ 1000
unfolding program
queue_jumps = refl

-- Without samples an episode of 200 steps is done after the first.
abbrev first_step : Option (EnvState ℕ × StepResult ℕ)
first_step =
    step conversions numpy distances weights [] 200
      (record { state = built; step_count = 0; history_index = 0 }) 0

done_at_once : Option.map (λ r. r.1.done) first_step ≡ some true
unfolding program
done_at_once = refl

compute_reward-reward_breakdown_example :
    compute_reward thousandths weights missed (build_metrics thousandths built 0)
    ≡ total finite_thousandths weights
        (reward_breakdown thousandths weights missed (build_metrics thousandths built 0))
compute_reward-reward_breakdown_example =
    compute_reward-reward_breakdown finite_thousandths weights built 0 missed

abbrev samples : List (Entries ℕ)
samples = measured ∷ entry "state" (mapping measured) end ∷ []

abbrev started : EnvState ℕ
started = record { state = built; step_count = 0; history_index = 0 }

abbrev later : EnvState ℕ
later =
    Option.get_or
      (run ieee_thousandths conversions numpy distances weights samples 200 (1 ∷ 2 ∷ []) started)
      started

reset-run-Normalized_example : Normalized thousandths later.state
unfolding program
reset-run-Normalized_example =
    reset-run-Normalized ieee_thousandths conversions numpy distances weights samples 200 built
      (1 ∷ 2 ∷ []) started later from_raw-Normalized_example refl refl

-- Thousandths with a NaN, which is none.
abbrev le_number : Option ℕ → Option ℕ → Bool
le_number (some a) (some b) = leb a b
le_number none b = false
le_number (some a) none = false

abbrev lifted : (ℕ → ℕ → ℕ) → Option ℕ → Option ℕ → Option ℕ
lifted f (some a) (some b) = some (f a b)
lifted f none b = none
lifted f (some a) none = none

abbrev missing : Option ℕ → Bool
missing none = true
missing (some a) = false

abbrev with_nan : Doubles
with_nan = record {
  Float = Option ℕ;
  is_nan = missing;
  is_infinite = λ x. false;
  le = le_number;
  add = lifted (λ a b. a + b);
  sub = lifted (λ a b. a - b);
  mul = lifted (λ a b. a * b / 1000);
  div = lifted (λ a b. a * 1000 / b);
  decimal = λ n d. some (n * 1000 / d);
}

le_number-total :
    (a b : Option ℕ)
    → missing a ≡ false
    → missing b ≡ false
    → (le_number a b || le_number b a) ≡ true
le_number-total none b h k = absurd (cc h)
le_number-total (some a) none h k = absurd (cc k)
le_number-total (some a) (some b) h k = ground arith

le_number-nan : (a b : Option ℕ) → missing a ≡ true → le_number a b ≡ false
le_number-nan none b h = refl
le_number-nan (some a) b h = absurd (cc h)

le_number-nan_right : (a b : Option ℕ) → missing b ≡ true → le_number a b ≡ false
le_number-nan_right none b h = refl
le_number-nan_right (some a) none h = refl
le_number-nan_right (some a) (some b) h = absurd (cc h)

ieee_with_nan : IeeeLaws with_nan
ieee_with_nan = record {
  le-total = le_number-total;
  le-nan = le_number-nan;
  le-nan_right = le_number-nan_right;
  null-number = refl;
  one-number = refl;
  zero-le-one = refl;
}

-- NaN passes the clipping.
clip_nan : clip01 with_nan none ≡ none
clip_nan = refl
