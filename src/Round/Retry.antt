-- ===== src/Round/Retry.antt =====
-- The samples of a round: they are in a round or back in the buffer.
use Prim.Native.String.{String}
use mathlib.Core.List.{append-nil, append_assoc}
use omni_aegis.Prelude.{
  ℕ, zero, suc, ◌+◌, ◌≡◌, refl, sym, ap, ap₂, ◌∙◌, Bool, true, false, ◌⊎◌, inl, inr, List, [], ◌∷◌,
  ◌++◌, map, none, some, Bool-cases, All,
}
use omni_aegis.Prelude.Dict.{lookup, lookup-insert, str_eq_refl}
use omni_aegis.Round.{
  Json, payload_of, RoundMonitorConfig, Attempt, State, push_sample, parsed, parse_all, cleared,
  persist_round_samples, restore_samples, attempt_round, retry_loop, trigger_round_with_retry,
  start_round,
}

module _ (j : Json) where
  restore_samples-buffer :
      (samples : List j.Sample) (s : State j)
      → (restore_samples j samples s).buffer ≡ s.buffer ++ map (payload_of j) samples
  restore_samples-buffer [] s = sym (append-nil s.buffer)
  restore_samples-buffer (sample ∷ samples) s =
      restore_samples-buffer samples (push_sample j sample s)
      ∙ append_assoc s.buffer (payload_of j sample ∷ []) (map (payload_of j) samples)

  -- No sample is a str.
  abbrev pub NoTexts : List j.Sample → Type 0
  NoTexts samples = All (λ sample. j.as_text sample ≡ none) samples

  payload_of-dumps :
      (sample : j.Sample) → j.as_text sample ≡ none → payload_of j sample ≡ j.dumps sample
  payload_of-dumps sample e = rw (payload_of, e) refl

  parse_all-payload_of :
      (samples : List j.Sample)
      → NoTexts samples
      → parse_all j (map (payload_of j) samples) ≡ samples
  parse_all-payload_of [] h = refl
  parse_all-payload_of (sample ∷ samples) (e, h) =
      ap₂ ◌∷◌
        (ap (λ t. parsed j t (j.loads t)) (payload_of-dumps sample e)
          ∙ ap (parsed j (j.dumps sample)) (j.loads-dumps sample))
        (parse_all-payload_of samples h)

  -- A round with the samples is the active one, and no sample is left in the buffer.
  pub record Started (samples : List j.Sample) (s : State j) : Type 0 where
    pub round_id : String
    pub active : s.active_round_id ≡ some round_id
    pub stored : lookup round_id s.rounds ≡ some samples
    pub emptied : s.buffer ≡ []

  -- RuntimeError is raised and the buffer has the samples again, or a round has started.
  abbrev pub Answered : List j.Sample → State j × Bool → Type 0
  Answered samples r =
      ((r.1 ≡ true) × (parse_all j r.0.buffer ≡ samples)) ⊎ ((r.1 ≡ false) × Started samples r.0)

  persisted-Started :
      (a : Attempt) (samples : List j.Sample) (s : State j)
      → s.buffer ≡ []
      → Started samples (persist_round_samples j a.round_id samples s)
  persisted-Started a samples s h = record {
    round_id = a.round_id;
    active = refl;
    stored = rw (lookup-insert a.round_id a.round_id samples s.rounds, str_eq_refl a.round_id);
    emptied = h;
  }

  module _ (c : RoundMonitorConfig) where
    retry_loop-Answered :
        (left : ℕ) (attempts : ℕ → Attempt) (i : ℕ) (samples : List j.Sample) (s : State j)
        → s.buffer ≡ []
        → NoTexts samples
        → Answered samples (retry_loop j c left attempts i samples s)
    unfolding retry_loop attempt_round
    retry_loop-Answered zero attempts i samples s h str = inl (
      refl,
      ap (parse_all j)
            (restore_samples-buffer samples s ∙ ap (λ b. b ++ map (payload_of j) samples) h)
          ∙ parse_all-payload_of samples str,
    )
    retry_loop-Answered (suc left) attempts i samples s h str =
        let rest =
          retry_loop-Answered left attempts (i + 1) samples
            (persist_round_samples j (attempts i).round_id samples s) h str in
        let started = persisted-Started (attempts i) samples s h in
        elim (Bool-cases c.has_callback) [
          | inl callback ↦ elim (Bool-cases (attempts i).returns) [
            | inl returns ↦ rw (retry_loop, attempt_round, callback, returns) (inr (refl, started))
            | inr raises ↦ rw (retry_loop, attempt_round, callback, raises) rest
          ]
          | inr publishes ↦
              rw (retry_loop, attempt_round, publishes)
                (inr (
                  refl,
                  record {
                    round_id = started.round_id;
                    active = started.active;
                    stored = started.stored;
                    emptied = started.emptied;
                  },
                ))
        ]

    start_samples :
        (attempts : ℕ → Attempt) (samples : List j.Sample) (s : State j)
        → s.buffer ≡ []
        → NoTexts samples
        → (samples ≡ []) ⊎ Answered samples (trigger_round_with_retry j c attempts samples s)
    unfolding trigger_round_with_retry
    start_samples attempts [] s h str = inl refl
    start_samples attempts (sample ∷ samples) s h str =
        inr (retry_loop-Answered c.max_retries attempts 0 (sample ∷ samples) s h str)

    -- Samples are not lost with a round that fails: if the buffer has samples when it is taken for a
    -- round, and none of them is a JSON string, then either RuntimeError is raised after all attempts and the buffer has the same
    -- samples again, in their order, or nothing is raised, the samples are stored as those of the
    -- active round, and the buffer is empty.
    pub start_round-Answered :
        (attempts : ℕ → Attempt) (s : State j)
        → NoTexts (parse_all j s.buffer)
        → (parse_all j s.buffer ≡ []) ⊎ Answered (parse_all j s.buffer) (start_round j c attempts s)
    unfolding start_round
    start_round-Answered attempts s str =
        start_samples attempts (parse_all j s.buffer) (cleared j s) refl str
