-- ===== src/Sentinel/Env.antt =====
-- The environment of the moderation agent (decision_layer/services/fl_edge/sentinel_env.py).
-- A sample is a mapping; what raises is none, and leaves the environment as it was. The metadata of an
-- outcome is left out.
use omni_aegis.Prelude.{ℕ, Bool, ◌&&◌, List, if◌then◌else◌, ◌==◌}
use omni_aegis.Doubles.{Doubles, null, lt, fmax}

-- `RewardWeights`.
pub record RewardWeights (Float : Type 0) : Type 0 where
  pub true_positive_auto_enforce : Float
  pub false_positive_auto_enforce : Float
  pub true_positive_hitl_routing : Float
  pub false_positive_hitl_routing : Float
  pub missed_infringement_whitelist : Float
  pub true_negative_whitelist : Float
  pub queue_depth_penalty_per_second : Float
  pub reviewer_idle_penalty_per_minute : Float
  pub privacy_budget_penalty : Float

-- The categories of an outcome, in the order of the weights.
pub data Category : Type 0 where
  enforced_rightly enforced_wrongly routed_rightly routed_wrongly missed passed : Category

pub record HistoricalOutcome (Float : Type 0) : Type 0 where
  pub category : Category
  pub is_infringing : Bool
  pub action : ℕ
  pub confidence : Float
  pub historical : Bool
  pub match_score : Float

-- The metrics of `_build_metrics` that the reward reads.
pub record Metrics (Float : Type 0) : Type 0 where
  pub queue_depth : Float
  pub idle_minutes : Float
  pub elapsed_seconds : Float
  pub fl_round_triggered : Bool

-- `np.linalg.norm` of a difference, and the square root of the vector's size.
pub record Distances (fl : Doubles) : Type 0 where
  pub distance : List fl.Float → List fl.Float → fl.Float
  pub root_of_size : fl.Float

-- `_categorize_outcome`'s category.
abbrev pub category_of : ℕ → Bool → Category
category_of action is_infringing =
    if action == 2
    then if is_infringing then enforced_rightly else enforced_wrongly
    else if action == 1
    then if is_infringing then routed_rightly else routed_wrongly
    else if is_infringing
    then missed
    else passed

module _ (fl : Doubles) (weights : RewardWeights fl.Float) where
  open fl use {Float, add, mul}

  abbrev pub base_reward : Category → Float
  base_reward enforced_rightly = weights.true_positive_auto_enforce
  base_reward enforced_wrongly = weights.false_positive_auto_enforce
  base_reward routed_rightly = weights.true_positive_hitl_routing
  base_reward routed_wrongly = weights.false_positive_hitl_routing
  base_reward missed = weights.missed_infringement_whitelist
  base_reward passed = weights.true_negative_whitelist

  abbrev pub queue_penalty : Metrics Float → Float
  queue_penalty m =
      mul (mul weights.queue_depth_penalty_per_second m.queue_depth)
        (fmax fl m.elapsed_seconds (null fl))

  abbrev pub idle_penalty : Metrics Float → Float
  idle_penalty m = mul weights.reviewer_idle_penalty_per_minute m.idle_minutes

  -- `compute_reward`.
  unfoldable pub compute_reward : Category → Metrics Float → Float
  compute_reward category m =
      let reward = add (null fl) (base_reward category) in
      let queued = if lt fl (null fl) m.queue_depth then add reward (queue_penalty m) else reward in
      let idle =
        if lt fl (null fl) m.queue_depth && lt fl (null fl) m.idle_minutes
        then add queued (idle_penalty m)
        else queued in
      if m.fl_round_triggered then add idle weights.privacy_budget_penalty else idle

  pub record Breakdown : Type 0 where
    pub base : Float
    pub queue_depth_penalty : Float
    pub reviewer_idle_penalty : Float
    pub privacy_budget_penalty : Float

  -- `_reward_breakdown`.
  unfoldable pub reward_breakdown : Category → Metrics Float → Breakdown
  reward_breakdown category m = record {
    base = base_reward category;
    queue_depth_penalty = queue_penalty m;
    reviewer_idle_penalty = if lt fl (null fl) m.queue_depth then idle_penalty m else null fl;
    privacy_budget_penalty =
        if m.fl_round_triggered then weights.privacy_budget_penalty else null fl;
  }
