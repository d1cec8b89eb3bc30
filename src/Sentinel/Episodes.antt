-- ===== src/Sentinel/Episodes.antt =====
-- Whole episodes of the environment: `reset` and any actions after it.
use mathlib.Core.Path.{subst}
use mathlib.Core.Option.{some-injective}
use mathlib.Core.Option
use omni_aegis.Prelude.{
  ℕ, ◌+◌, ◌≡◌, refl, ◌∙◌, Bool, inl, inr, List, [], ◌∷◌, Option, none, some, ltb, map-All,
  get_elem?, Bool-cases, Option-cases,
}
use omni_aegis.Doubles.{Doubles, IeeeLaws, InUnit, clip01-InUnit}
use omni_aegis.Values.{
  Value, Entries, end, entry, none_value, boolean, integer, number, string, sequence, mapping,
  Conversions, get,
}
use omni_aegis.Sentinel.{Numpy, SentinelState, components, from_raw}
use omni_aegis.Sentinel.Env.{RewardWeights, Category, HistoricalOutcome, Distances}
use omni_aegis.Sentinel.Dynamics.{simulated_state, changed_state}
use omni_aegis.Sentinel.Steps.{
  EnvState, StepResult, state_of_selected, state_of_sample, state_of_found,
  state_from_history_index, get_historical_outcome, next_state_of, finish_step, step, reset,
}
use omni_aegis.Sentinel.Bounds.{Normalized, from_raw-Normalized}

module _ {fl : Doubles} (ieee : IeeeLaws fl) (py : Conversions fl) (np : Numpy fl)
    (ds : Distances fl) where
  open fl use {Float}

  simulated_state-Normalized :
      (s : SentinelState Float) (action : ℕ) (category : Category) (triggered : Bool)
      → Normalized fl s
      → Normalized fl (simulated_state fl np s action category triggered)
  unfolding simulated_state
  simulated_state-Normalized s action category triggered h =
      let f = h.fields in
      record {
        fields = (
          clip01-InUnit ieee _,
          (
            clip01-InUnit ieee _,
            (
              f.1.1.0,
              (
                f.1.1.1.0,
                (
                  f.1.1.1.1.0,
                  (
                    f.1.1.1.1.1.0,
                    (
                      clip01-InUnit ieee _,
                      (
                        clip01-InUnit ieee _,
                        (
                          f.1.1.1.1.1.1.1.1.0,
                          (
                            f.1.1.1.1.1.1.1.1.1.0,
                            (
                              clip01-InUnit ieee _,
                              (
                                clip01-InUnit ieee _,
                                (f.1.1.1.1.1.1.1.1.1.1.1.1.0, (f.1.1.1.1.1.1.1.1.1.1.1.1.1.0, tt)),
                              ),
                            ),
                          ),
                        ),
                      ),
                    ),
                  ),
                ),
              ),
            ),
          ),
        );
        array =
            map-All np.float32 (InUnit fl) np.float32-unit
              (components (changed_state fl s action category triggered))
              (
                f.0,
                (
                  f.1.0,
                  (
                    f.1.1.0,
                    (
                      f.1.1.1.0,
                      (
                        f.1.1.1.1.0,
                        (
                          f.1.1.1.1.1.0,
                          (
                            clip01-InUnit ieee _,
                            (
                              clip01-InUnit ieee _,
                              (
                                f.1.1.1.1.1.1.1.1.0,
                                (
                                  f.1.1.1.1.1.1.1.1.1.0,
                                  (
                                    clip01-InUnit ieee _,
                                    (
                                      clip01-InUnit ieee _,
                                      (
                                        f.1.1.1.1.1.1.1.1.1.1.1.1.0,
                                        (f.1.1.1.1.1.1.1.1.1.1.1.1.1.0, tt),
                                      ),
                                    ),
                                  ),
                                ),
                              ),
                            ),
                          ),
                        ),
                      ),
                    ),
                  ),
                ),
              );
      }

  read_state-Normalized :
      (d : Entries Float) (s : SentinelState Float)
      → Option.map some (from_raw py np d) ≡ some (some s)
      → Normalized fl s
  read_state-Normalized d s e = elim (Option-cases (from_raw py np d)) [
    | inl raises ↦ absurd (cc (rw (raises) at e))
    | inr (s', found) ↦
        let e' : some (some s') ≡ some (some s) = rw (found) at e in
        from_raw-Normalized ieee py np d s (found ∙ some-injective _ _ e')
  ]

  state_of_selected-Normalized :
      (d : Entries Float) (s : SentinelState Float)
      → state_of_selected py np ds d ≡ some (some s)
      → Normalized fl s
  state_of_selected-Normalized end s e = absurd (cc e)
  state_of_selected-Normalized (entry k v d) s e = read_state-Normalized (entry k v d) s e

  state_of_sample-Normalized :
      (v : Value Float) (sample : Entries Float) (s : SentinelState Float)
      → state_of_sample py np ds v sample ≡ some (some s)
      → Normalized fl s
  state_of_sample-Normalized (mapping d) sample s e = read_state-Normalized d s e
  state_of_sample-Normalized none_value sample s e = state_of_selected-Normalized _ s e
  state_of_sample-Normalized (boolean b) sample s e = state_of_selected-Normalized _ s e
  state_of_sample-Normalized (integer i) sample s e = state_of_selected-Normalized _ s e
  state_of_sample-Normalized (number x) sample s e = state_of_selected-Normalized _ s e
  state_of_sample-Normalized (string t) sample s e = state_of_selected-Normalized _ s e
  state_of_sample-Normalized (sequence vs) sample s e = state_of_selected-Normalized _ s e

  state_of_found-Normalized :
      (found : Option (Entries Float)) (s : SentinelState Float)
      → state_of_found py np ds found ≡ some (some s)
      → Normalized fl s
  state_of_found-Normalized none s e = absurd (cc e)
  state_of_found-Normalized (some sample) s e =
      state_of_sample-Normalized (get "state" sample) sample s e

  module _ (weights : RewardWeights Float) (samples : List (Entries Float)) (max_steps : ℕ) where
    next_state_of-Normalized :
        (found : Option (SentinelState Float)) (s : SentinelState Float) (action : ℕ)
        (outcome : HistoricalOutcome Float) (index : ℕ)
        → state_from_history_index py np ds weights samples max_steps index ≡ some found
        → Normalized fl s
        → Normalized fl (next_state_of py np ds weights samples max_steps found s action outcome)
    next_state_of-Normalized none s action outcome index e h =
        simulated_state-Normalized s action outcome.category _ h
    next_state_of-Normalized (some s') s action outcome index e h =
        state_of_found-Normalized (get_elem? samples index) s' e

    step-Normalized :
        (e e' : EnvState Float) (action : ℕ) (r : StepResult Float)
        → step py np ds weights samples max_steps e action ≡ some (e', r)
        → Normalized fl e.state
        → Normalized fl e'.state
    unfolding step
    step-Normalized e e' action r h n = elim (Bool-cases (ltb action 3)) [
      | inr refused ↦ absurd (cc (rw (step, refused) at h))
      | inl allowed ↦
          elim (Option-cases (get_historical_outcome py np ds weights samples max_steps e action)) [
            | inl raises ↦ absurd (cc (rw (step, allowed, raises) at h))
            | inr (outcome, known) ↦
                elim (Option-cases (
                  state_from_history_index py np ds weights samples max_steps
                    (e.history_index + 1))) [
                      | inl raises ↦ absurd (cc (rw (step, allowed, known, raises) at h))
                      | inr (found, read) ↦
                          let same : some (
                                finish_step py np ds weights samples max_steps e action outcome (
                                  next_state_of py np ds weights samples max_steps found e.state
                                    action outcome))
                              ≡ some (e', r) =
                            rw (step, allowed, known, read) at h in
                          subst (λ x. Normalized fl x.0.state) (some-injective _ (e', r) same)
                            (next_state_of-Normalized found e.state action outcome
                              (e.history_index + 1) read n)
                    ]
          ]
    ]

    -- The environment after some actions, as far as nothing raises.
    unfoldable pub run : List ℕ → EnvState Float → Option (EnvState Float)
    run [] e = some e
    run (action ∷ actions) e = elim (step py np ds weights samples max_steps e action) [
      | none ↦ none
      | some after ↦ run actions after.0
    ]

    run-Normalized :
        (actions : List ℕ) (e e' : EnvState Float)
        → run actions e ≡ some e'
        → Normalized fl e.state
        → Normalized fl e'.state
    unfolding run
    run-Normalized [] e e' h n = subst (λ x. Normalized fl x.state) (some-injective e e' h) n
    run-Normalized (action ∷ actions) e e' h n =
        elim (Option-cases (step py np ds weights samples max_steps e action)) [
          | inl raises ↦ absurd (cc (rw (run, raises) at h))
          | inr (after, stepped) ↦
              run-Normalized actions after.0 e' (rw (run, stepped) at h)
                (step-Normalized e after.0 action after.1 stepped n)
        ]

    -- Every observation lies in the observation space, up to NaN: if each number of the initial state
    -- and of its vector is from 0 to 1 or NaN, then so is each of the state after `reset` and any
    -- actions that do not raise, whatever the historical samples are, NaN and infinities among them.
    pub reset-run-Normalized :
        (initial_state : SentinelState Float) (actions : List ℕ) (e e' : EnvState Float)
        → Normalized fl initial_state
        → reset py np ds weights samples max_steps initial_state ≡ some e
        → run actions e ≡ some e'
        → Normalized fl e'.state
    unfolding reset
    reset-run-Normalized initial_state actions e e' n started h =
        run-Normalized actions e e' h
          (first (state_from_history_index py np ds weights samples max_steps 0) refl)
      where
        first :
            (found : Option (Option (SentinelState Float)))
            → state_from_history_index py np ds weights samples max_steps 0 ≡ found
            → Normalized fl e.state
        first none read = absurd (cc (rw (reset, read) at started))
        first (some none) read =
            subst (λ x. Normalized fl x.state) (some-injective _ e (rw (reset, read) at started)) n
        first (some (some s)) read =
            subst (λ x. Normalized fl x.state) (some-injective _ e (rw (reset, read) at started))
              (state_of_found-Normalized (get_elem? samples 0) s read)
