-- ===== src/Sentinel/Reward.antt =====
-- The reward and its breakdown are computed apart; they agree.
use omni_aegis.Prelude.{
  ℕ, ◌≡◌, refl, sym, ap, ◌∙◌, Bool, true, false, ◌&&◌, inl, inr, if◌then◌else◌, ◌==◌, Bool-cases,
}
use omni_aegis.Doubles.{Doubles, FiniteLaws, null, lt, fmax, eq_null, fmax-null, fmax-null_right}
use omni_aegis.Sentinel.{SentinelState}
use omni_aegis.Sentinel.Env.{
  RewardWeights, Category, Metrics, base_reward, queue_penalty, idle_penalty, compute_reward,
  reward_breakdown, Breakdown,
}
use omni_aegis.Sentinel.Dynamics.{build_metrics, estimated_idle_minutes}

module _ {fl : Doubles} (finite : FiniteLaws fl) (weights : RewardWeights fl.Float) where
  open fl use {Float, add, mul}

  -- The parts of a breakdown, added in order.
  abbrev pub total : Breakdown fl weights → Float
  total b =
      add (add (add b.base b.queue_depth_penalty) b.reviewer_idle_penalty) b.privacy_budget_penalty

  no_queue_penalty :
      (m : Metrics Float) → m.queue_depth ≡ null fl → queue_penalty fl weights m ≡ null fl
  no_queue_penalty m e =
      let seconds = fmax fl m.elapsed_seconds (null fl) in
      ap (λ q. mul (mul weights.queue_depth_penalty_per_second q) seconds) e
      ∙ (ap (λ x. mul x seconds) (finite.mul-zero weights.queue_depth_penalty_per_second)
          ∙ finite.zero-mul seconds)

  no_idle_penalty :
      (m : Metrics Float) → m.idle_minutes ≡ null fl → idle_penalty fl weights m ≡ null fl
  no_idle_penalty m e = rw (e, finite.mul-zero)

  add_if :
      (b : Bool) (r x : Float) → (b ≡ false → x ≡ null fl) → (if b then add r x else r) ≡ add r x
  add_if true r x h = refl
  add_if false r x h = sym (ap (add r) (h refl) ∙ finite.add-zero r)

  add_if_both :
      (b b' : Bool) (r x : Float)
      → (b' ≡ false → x ≡ null fl)
      → (if b && b' then add r x else r) ≡ add r (if b then x else null fl)
  add_if_both true b' r x h = add_if b' r x h
  add_if_both false b' r x h = sym (finite.add-zero r)

  add_if_or_null :
      (b : Bool) (r x : Float) → (if b then add r x else r) ≡ add r (if b then x else null fl)
  add_if_or_null true r x = refl
  add_if_or_null false r x = sym (finite.add-zero r)

  compute_reward-total :
      (category : Category) (m : Metrics Float)
      → fl.le (null fl) m.queue_depth ≡ true
      → fl.le (null fl) m.idle_minutes ≡ true
      → compute_reward fl weights category m ≡ total (reward_breakdown fl weights category m)
  unfolding compute_reward reward_breakdown
  compute_reward-total category m h k =
      add_if_or_null m.fl_round_triggered _ weights.privacy_budget_penalty
      ∙ ap (λ x. add x (if m.fl_round_triggered then weights.privacy_budget_penalty else null fl))
          (add_if_both (lt fl (null fl) m.queue_depth) (lt fl (null fl) m.idle_minutes) _
              (idle_penalty fl weights m)
              (λ e. no_idle_penalty m (eq_null finite m.idle_minutes k e))
            ∙ ap
                (λ x.
                  add x
                    (if lt fl (null fl) m.queue_depth then idle_penalty fl weights m else null fl))
                (add_if (lt fl (null fl) m.queue_depth) _ (queue_penalty fl weights m)
                    (λ e. no_queue_penalty m (eq_null finite m.queue_depth h e))
                  ∙ ap (λ x. add x (queue_penalty fl weights m))
                      (finite.zero-add (base_reward fl weights category))))

  idle-nonnegative :
      (s : SentinelState Float) (action : ℕ)
      → fl.le (null fl) (estimated_idle_minutes fl s action) ≡ true
  idle-nonnegative s action = elim (Bool-cases (action == 1)) [
    | inl one_ ↦ rw (one_) (fmax-null finite _)
    | inr other ↦ elim (Bool-cases (action == 0)) [
      | inl zero_ ↦ rw (other, zero_) (fmax-null finite _)
      | inr two ↦ rw (other, two) (fmax-null finite _)
    ]
  ]

  -- Among finite numbers, the reward of a step and its breakdown in the answer, two computations with
  -- different tests, agree: for the metrics that the environment builds, the parts of the breakdown add up to the reward.
  pub compute_reward-reward_breakdown :
      (s : SentinelState Float) (action : ℕ) (category : Category)
      → compute_reward fl weights category (build_metrics fl s action)
        ≡ total (reward_breakdown fl weights category (build_metrics fl s action))
  unfolding build_metrics
  compute_reward-reward_breakdown s action category =
      compute_reward-total category (build_metrics fl s action) (fmax-null_right finite _)
        (idle-nonnegative s action)
