-- ===== src/Round/Promotion.antt =====
-- The guard of the production model.
use Prim.Native.String.{String}
use text.Mathlib.Text.{◌==◌ as str_eq}
use text.Mathlib.TextEquality.{eq_iff}
use text.Mathlib.TextLemmas.{cons-append, cons-ne-nil, append-ne-nil_of_right_ne-nil}
use Prim.Native.String.{◌++◌ as append_text}
use omni_aegis.Prelude.{
  ◌≡◌, ◌≢◌, refl, sym, ap, ◌∙◌, Bool, true, false, inl, inr, Option, none, some, arith, Bool-cases,
}
use omni_aegis.Prelude.Dict.{insert, lookup-insert, str_eq_refl, str_eq_ne}
use omni_aegis.Round.{
  Floats, RoundMonitorConfig, ModelReady, Metrics, Registry, weights_key_of, candidate_key,
  previous_metrics, quality_regressed, metrics_of, handle_payload, handle_model_ready,
}

module _ (fl : Floats) (c : RoundMonitorConfig) where
  -- Not worse in accuracy or in calibration error by `<` and `>`; NaN compares as neither.
  pub record NoWorse (new previous : Metrics fl.Float) : Type 0 where
    pub accuracy : fl.lt new.accuracy previous.accuracy ≡ false
    pub ece : fl.lt previous.ece new.ece ≡ false

  same-NoWorse : (m : Metrics fl.Float) → NoWorse m m
  same-NoWorse m = record { accuracy = fl.lt-irrefl m.accuracy; ece = fl.lt-irrefl m.ece }

  accepted-NoWorse :
      (new previous : Metrics fl.Float)
      → quality_regressed fl c new previous ≡ false
      → NoWorse new previous
  accepted-NoWorse new previous h = record { accuracy = ground (arith, h); ece = ground (arith, h) }

  -- The registry with the metrics of a message.
  abbrev pub measured : ModelReady fl.Float → Registry fl c → Registry fl c
  measured message r = record r {
    metas =
        insert (weights_key_of fl c message.candidate_id message.weights_key)
          (metrics_of fl c message) r.metas;
  }

  -- Where a message leaves the registry: it raises and changes nothing, or its model is rejected and
  -- the pointer stays, or its model is promoted.
  pub data Handled (message : ModelReady fl.Float) (r : Registry fl c)
      (answer : Registry fl c × Bool) : Type 0 where
    raised : message.candidate_id ≡ "" → answer ≡ (r, false) → Handled message r answer
    rejected :
        quality_regressed fl c (metrics_of fl c message) (previous_metrics fl c r) ≡ true
        → answer ≡ (measured message r, true)
        → Handled message r answer
    promoted :
        NoWorse (metrics_of fl c message) (previous_metrics fl c r)
        → answer.1 ≡ true
        → answer.0.pointer ≡ some (weights_key_of fl c message.candidate_id message.weights_key)
        → previous_metrics fl c answer.0 ≡ metrics_of fl c message
        → Handled message r answer

  candidate_key-there : (candidate_id : String) → candidate_key fl c candidate_id ≢ ""
  candidate_key-there candidate_id = append-ne-nil_of_right_ne-nil c.model_candidate_prefix (λ e.
      cons-ne-nil ":" (append_text "" candidate_id) (sym (cons-append ":" "" candidate_id) ∙ e))

  weights_key_of-there :
      (candidate_id : String) (key : Option String)
      → str_eq (weights_key_of fl c candidate_id key) "" ≡ false
  weights_key_of-there candidate_id none = str_eq_ne _ _ (candidate_key-there candidate_id)
  weights_key_of-there candidate_id (some key) = elim (Bool-cases (str_eq key "")) [
    | inl empty ↦ rw (empty) (str_eq_ne _ _ (candidate_key-there candidate_id))
    | inr full ↦ rw (full) full
  ]

  -- A payload that was read.
  handle_payload-Handled :
      (message : ModelReady fl.Float) (r : Registry fl c)
      → Handled message r (handle_payload fl c message r)
  unfolding handle_payload
  handle_payload-Handled message r = elim (Bool-cases (str_eq message.candidate_id "")) [
    | inl missing ↦ raised ((eq_iff message.candidate_id "").0 missing) (rw (missing))
    | inr there ↦
        elim (Bool-cases
          (quality_regressed fl c (metrics_of fl c message) (previous_metrics fl c r))) [
            | inl worse ↦ rejected worse (rw (handle_payload, there, worse))
            | inr better ↦
                promoted (accepted-NoWorse _ _ better) (rw (handle_payload, there, better))
                  (rw (handle_payload, there, better))
                  (rw (
                    handle_payload,
                    there,
                    better,
                    weights_key_of-there message.candidate_id message.weights_key,
                    lookup-insert,
                    str_eq_refl (weights_key_of fl c message.candidate_id message.weights_key),
                  ))
          ]
  ]

  -- Where a message leaves the registry, one whose payload cannot be read included.
  pub data Received (r : Registry fl c) (answer : Registry fl c × Bool)
      : Option (ModelReady fl.Float) → Type 0 where
    malformed : answer ≡ (r, false) → Received r answer none
    readable :
        (message : ModelReady fl.Float)
        → Handled message r answer
        → Received r answer (some message)

  -- A message of a finished model raises and changes nothing where its payload cannot be read or has
  -- no candidate id; otherwise it leaves the pointer where the new metrics compare as worse than the
  -- production model's, or it makes the model the production model with the message's metrics, where
  -- they do not compare as worse.
  pub handle_model_ready-Received :
      (message : Option (ModelReady fl.Float)) (r : Registry fl c)
      → Received r (handle_model_ready fl c message r) message
  handle_model_ready-Received none r = malformed refl
  handle_model_ready-Received (some message) r = readable message (handle_payload-Handled message r)

  -- Metrics under another key leave those of the production model.
  measured-previous_metrics :
      (message : ModelReady fl.Float) (r : Registry fl c) (pointer : Option String)
      → r.pointer ≡ pointer
      → pointer ≢ some (weights_key_of fl c message.candidate_id message.weights_key)
      → previous_metrics fl c (measured message r) ≡ previous_metrics fl c r
  measured-previous_metrics message r none e other = rw (e)
  measured-previous_metrics message r (some key) e other =
      let apart =
        str_eq_ne (weights_key_of fl c message.candidate_id message.weights_key) key
          (λ same. other (ap some (sym same))) in
      rw (e, lookup-insert, apart)

  -- A message whose payload does not name the key of the production model itself leaves metrics of
  -- the production model that do not compare as worse than before: not `<` in accuracy and not `>` in
  -- the calibration error, as NaN compares as neither.
  pub handle_model_ready-NoWorse :
      (message : ModelReady fl.Float) (r : Registry fl c)
      → r.pointer ≢ some (weights_key_of fl c message.candidate_id message.weights_key)
      → NoWorse
          (previous_metrics fl c (handle_model_ready fl c (some message) r).0)
          (previous_metrics fl c r)
  handle_model_ready-NoWorse message r other = elim (handle_payload-Handled message r) [
    | raised missing e ↦ rw (e) (same-NoWorse (previous_metrics fl c r))
    | rejected worse e ↦
        rw (e, measured-previous_metrics message r r.pointer refl other)
          (same-NoWorse (previous_metrics fl c r))
    | promoted better returns points now ↦ rw (now) better
  ]
