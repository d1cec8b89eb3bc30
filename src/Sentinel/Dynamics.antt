-- ===== src/Sentinel/Dynamics.antt =====
-- How the environment answers an action without historical samples (sentinel_env.py).
use omni_aegis.Prelude.{ℕ, Bool, false, ◌&&◌, map, if◌then◌else◌, ◌==◌}
use omni_aegis.Doubles.{Doubles, null, one, fmax, fmin, clip01}
use omni_aegis.Sentinel.{Numpy, SentinelState, components}
use omni_aegis.Sentinel.Env.{
  Category, enforced_wrongly, routed_rightly, routed_wrongly, HistoricalOutcome, Metrics,
  category_of,
}

module _ (fl : Doubles) where
  open fl use {Float, add, sub, mul, decimal}

  -- `_state_queue_depth`, clipped from below by 0.
  abbrev pub state_queue_depth : SentinelState Float → Float
  state_queue_depth s = fmax fl (mul s.hitl_queue_depth (decimal 200 1)) (null fl)

  -- `_estimated_idle_minutes`.
  abbrev pub estimated_idle_minutes : SentinelState Float → ℕ → Float
  estimated_idle_minutes s action =
      if action == 1
      then fmax fl (null fl) (mul (decimal 10 1) (sub (one fl) s.reviewer_capacity))
      else if action == 0
      then fmax fl (null fl) (mul (decimal 15 1) s.hitl_queue_depth)
      else fmax fl (null fl) (mul (decimal 5 1) s.hitl_queue_depth)

  -- `_build_metrics`.
  unfoldable pub build_metrics : SentinelState Float → ℕ → Metrics Float
  build_metrics s action = record {
    queue_depth = state_queue_depth s;
    idle_minutes = estimated_idle_minutes s action;
    elapsed_seconds = one fl;
    fl_round_triggered = (action == 2) && fl.le s.privacy_budget (decimal 25 100);
  }

  -- `_heuristic_is_infringing` and `_heuristic_match_score`.
  abbrev pub heuristic_is_infringing : SentinelState Float → Bool
  heuristic_is_infringing s = fl.le (decimal 55 100) (
      add
        (add
          (add
            (add (mul (decimal 55 100) s.calibrated_confidence)
              (mul (decimal 20 100) s.uncertainty))
            (mul (decimal 10 100) s.false_positive_rate_2h))
          (mul (decimal 10 100) s.hitl_overturn_rate_2h))
        (mul (decimal 5 100) (sub (one fl) s.privacy_budget)))

  abbrev pub heuristic_match_score : SentinelState Float → Float
  heuristic_match_score s = clip01 fl (
      add
        (add (mul (decimal 5 10) s.calibrated_confidence) (mul (decimal 25 100) s.hitl_queue_depth))
        (mul (decimal 25 100) (sub (one fl) s.reviewer_capacity)))

  -- `_categorize_outcome`.
  abbrev pub categorize_outcome : ℕ → Bool → Float → Bool → Float → HistoricalOutcome Float
  categorize_outcome action is_infringing confidence historical match_score = record {
    category = category_of action is_infringing;
    is_infringing = is_infringing;
    action = action;
    confidence = clip01 fl confidence;
    historical = historical;
    match_score = clip01 fl match_score;
  }

  abbrev pub heuristic_outcome : SentinelState Float → ℕ → HistoricalOutcome Float
  heuristic_outcome s action =
      categorize_outcome action (heuristic_is_infringing s) s.calibrated_confidence false
        (heuristic_match_score s)

  -- The queue, the reviewers and the privacy budget after an action without a historical state.
  abbrev pub next_queue_depth : ℕ → Float → Float
  next_queue_depth action queue_depth =
      if action == 1
      then fmax fl (null fl) (sub queue_depth (decimal 8 100))
      else if action == 2
      then fmax fl (null fl) (sub queue_depth (decimal 12 100))
      else fmin fl (one fl) (add queue_depth (decimal 2 100))

  abbrev pub next_privacy_budget : ℕ → Bool → Float → Float
  next_privacy_budget action triggered privacy_budget =
      let spent =
        if action == 2
        then fmax fl (null fl) (sub privacy_budget (decimal 2 100))
        else privacy_budget in
      if triggered then fmax fl (null fl) (sub spent (decimal 1 10)) else spent

  abbrev pub next_reviewer_capacity : Category → Float → Float
  next_reviewer_capacity enforced_wrongly capacity =
      fmax fl (null fl) (sub capacity (decimal 5 100))
  next_reviewer_capacity routed_wrongly capacity = fmax fl (null fl) (sub capacity (decimal 5 100))
  next_reviewer_capacity routed_rightly capacity = fmin fl (one fl) (add capacity (decimal 1 100))
  next_reviewer_capacity _ capacity = capacity

  -- The numbers that an action changes.
  abbrev pub changed_state : SentinelState Float → ℕ → Category → Bool → SentinelState Float
  changed_state s action category triggered = record s {
    hitl_queue_depth = clip01 fl (next_queue_depth action (state_queue_depth s));
    reviewer_capacity = clip01 fl (next_reviewer_capacity category s.reviewer_capacity);
    privacy_budget = clip01 fl (next_privacy_budget action triggered s.privacy_budget);
    model_age = clip01 fl (fmin fl (one fl) (add s.model_age (fl.div (one fl) (decimal 365 1))));
  }

  -- The state after an action without a historical one, with its vector.
  unfoldable pub simulated_state :
      Numpy fl → SentinelState Float → ℕ → Category → Bool → SentinelState Float
  simulated_state np s action category triggered =
      record (changed_state s action category triggered) {
        calibrated_confidence = clip01 fl s.calibrated_confidence;
        uncertainty = clip01 fl s.uncertainty;
        vector = map np.float32 (components (changed_state s action category triggered));
      }
