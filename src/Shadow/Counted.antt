-- ===== src/Shadow/Counted.antt =====
-- The log of the comparisons and the metrics over it.
use Prim.Native.String.{String}
use omni_aegis.Prelude.{
  ℕ, ◌+◌, ◌<◌, ◌≡◌, refl, ap, ◌∙◌, Bool, true, false, inl, inr, List, [], ◌∷◌, ◌++◌, Option, none,
  some, arith, ltb, length, length-append, foldl-snoc, ◌==◌, Option-cases,
}
use omni_aegis.Doubles.{Doubles, one}
use omni_aegis.Prelude.Int.{pos}
use omni_aegis.Values.{Value, Entries, integer, Conversions, get}
use omni_aegis.Sentinel.{Numpy, SentinelState, from_raw}
use omni_aegis.Replay.Fifo.{ltrim_last-drop}
use omni_aegis.Shadow.Actions.{action-lt}
use omni_aegis.Shadow.{
  action_value, asset_id_of, extract_action, coerce_action, coerce_float, Totals, counted_pair,
  counted_record, totals_of, from_records, Texts, ShadowConfig, Inference, answered, timed_out,
  failed, Call, written, comparison_of, payload, write_log, cons_parsed, parsed_entries,
  fetch_recent, result_of, compared, sanitizes_inference, process_asset,
}

abbrev pub number_of : Bool → ℕ
number_of true = 1
number_of false = 0

-- How many elements pass a test.
abbrev pub count : {A : Type 0} → (A → Bool) → List A → ℕ
count p [] = 0
count p (x ∷ xs) = number_of (p x) + count p xs

module _ {fl : Doubles} (py : Conversions fl) (utilities : fl.Float × fl.Float × fl.Float) where
  open fl use {Float}

  -- Of two actions: whether both are valid, and whether they are also the same.
  abbrev pub both_valid : Option ℕ → Option ℕ → Bool
  both_valid (some b) (some r) = true
  both_valid none r = false
  both_valid (some b) none = false

  abbrev pub both_same : Option ℕ → Option ℕ → Bool
  both_same (some b) (some r) = b == r
  both_same none r = false
  both_same (some b) none = false

  -- The same of the two actions of a record.
  abbrev pub is_comparable : Entries Float → Bool
  is_comparable d =
      both_valid (coerce_action py (get "baseline_action" d)) (coerce_action py (get "rl_action" d))

  abbrev pub agrees : Entries Float → Bool
  agrees d =
      both_same (coerce_action py (get "baseline_action" d)) (coerce_action py (get "rl_action" d))

module _ {fl : Doubles} (py : Conversions fl) (tx : Texts fl) (c : ShadowConfig fl.Float) where
  open fl use {Float}

  cons_parsed-append :
      (o : Option (Entries Float)) (xs ys : List (Entries Float))
      → cons_parsed py tx c o (xs ++ ys) ≡ cons_parsed py tx c o xs ++ ys
  cons_parsed-append none xs ys = refl
  cons_parsed-append (some d) xs ys = refl

  parsed_entries-append :
      (log : List tx.Json) (d : Entries Float)
      → parsed_entries py tx c (log ++ tx.dumps d ∷ []) ≡ parsed_entries py tx c log ++ d ∷ []
  parsed_entries-append [] d = rw (tx.loads-dumps d) refl
  parsed_entries-append (t ∷ log) d =
      ap (cons_parsed py tx c (tx.loads t)) (parsed_entries-append log d)
      ∙ cons_parsed-append (tx.loads t) (parsed_entries py tx c log) (d ∷ [])

  -- A record with a baseline action counts as comparable where it has an action of the RL policy.
  abbrev pub one_if : Option ℕ → ℕ
  one_if none = 0
  one_if (some a) = 1

  counted_pair-comparable :
      (t : Totals Float) (b : ℕ) (r : Option ℕ) (confidence : Float)
      → (counted_pair py c.action_utilities t (some b) r confidence).comparable
        ≡ t.comparable + one_if r
  counted_pair-comparable t b none confidence = omega arith
  counted_pair-comparable t b (some r) confidence = refl

  -- What the RL policy's answer gives for an action.
  abbrev pub inferred : Inference Float → Option ℕ
  inferred (answered v) = extract_action py v
  inferred timed_out = none
  inferred failed = none

  comparison_of-inferred :
      (i : Inference Float) (confidence : Float)
      → (comparison_of py tx c i confidence).rl_action ≡ inferred i
  comparison_of-inferred (answered v) confidence = elim (Option-cases (extract_action py v)) [
    | inl e ↦ rw (e) refl
    | inr (a, e) ↦ rw (e) refl
  ]
  comparison_of-inferred timed_out confidence = refl
  comparison_of-inferred failed confidence = refl

  action_value-range :
      (o : Option ℕ)
      → ((a : ℕ) → o ≡ some a → ltb a 3 ≡ true)
      → coerce_action py (action_value py tx c o) ≡ o
  action_value-range none h = refl
  action_value-range (some a) h = rw (h a refl) refl

  inferred-lt : (i : Inference Float) (a : ℕ) → inferred i ≡ some a → ltb a 3 ≡ true
  inferred-lt (answered v) a e = action-lt py v a e
  inferred-lt timed_out a e = absurd (cc e)
  inferred-lt failed a e = absurd (cc e)

  -- A logged payload is counted by the metrics as it was compared.
  counted_record-payload :
      (t : Totals Float) (id : String) (state : SentinelState Float) (a : ℕ) (i : Inference Float)
      (x latency : Float) (time : String)
      → ltb a 3 ≡ true
      → (counted_record py c.action_utilities t
          (payload py tx c id state a (comparison_of py tx c i x) latency time)).comparable
        ≡ t.comparable + one_if (inferred i)
  counted_record-payload t id state a i x latency time valid =
      let m = comparison_of py tx c i x in
      let rl : coerce_action py (action_value py tx c m.rl_action) ≡ inferred i =
        ap (λ o. coerce_action py (action_value py tx c o)) (comparison_of-inferred i x)
        ∙ action_value-range (inferred i) (inferred-lt i) in
      let baseline : coerce_action py (integer (pos a)) ≡ some a = rw (valid) refl in
      let confidence =
        coerce_float py (one fl) (get "confidence" (payload py tx c id state a m latency time)) in
      ap
        (λ b.
          (counted_pair py c.action_utilities t b
            (coerce_action py (action_value py tx c m.rl_action)) confidence).comparable)
        baseline
      ∙ counted_pair-comparable t a (coerce_action py (action_value py tx c m.rl_action)) confidence
      ∙ ap (λ o. t.comparable + one_if o) rl

  module _ (np : Numpy fl)
      (static_policy : SentinelState Float → Entries Float → Option (Value Float)) where
    -- The number of comparable records in the metrics over the whole log.
    abbrev pub comparable_in : List tx.Json → ℕ
    comparable_in log =
        (from_records py c.action_utilities (fetch_recent py tx c 0 log)).comparable_count

    -- A call of `process_asset` that reaches the log (the state, the baseline's action and the
    -- sanitizing of both results do not raise), and writes it while it has room, adds one comparable record to the metrics over the log if the RL policy answered in time with a valid
    -- action, and none otherwise.
    pub process_asset-comparable_in :
        (d : Entries Float) (call : Call Float) (log : List tx.Json) (state : SentinelState Float)
        (v : Value Float) (a : ℕ)
        → from_raw py np d ≡ some state
        → static_policy state d ≡ some v
        → extract_action py v ≡ some a
        → tx.sanitizes v ≡ true
        → sanitizes_inference py tx c np static_policy call.inference ≡ true
        → call.log_answer ≡ written
        → length log < c.max_entries
        → comparable_in (process_asset py tx c np static_policy d call log).0
          ≡ comparable_in log + one_if (inferred call.inference)
    unfolding process_asset from_records fetch_recent
    process_asset-comparable_in d call log state v a read decided valid clean clean' wrote room =
        let id : String = asset_id_of py tx c ("asset_id" ∷ "id" ∷ "assetId" ∷ []) d in
        let p =
          payload py tx c id state a
            (comparison_of py tx c call.inference state.calibrated_confidence) call.latency_ms
            call.timestamp in
        let logged : (result_of py tx c v (write_log py tx c call.log_answer p log)).0
            ≡ log ++ tx.dumps p ∷ [] =
          ap (λ l. (result_of py tx c v (write_log py tx c l p log)).0) wrote
          ∙ ltrim_last-drop c.max_entries 0 (log ++ tx.dumps p ∷ []) (omega (arith, room))
              (omega (arith, length-append log (tx.dumps p ∷ []), room)) in
        let counted = counted_record py c.action_utilities in
        rw (process_asset, read, decided, valid, compared, clean, clean')
          (ap comparable_in logged
            ∙ ap (λ ds. (totals_of py c.action_utilities ds).comparable)
                (parsed_entries-append log p)
            ∙ ap (λ (x : Totals Float). x.comparable)
                (foldl-snoc counted _ (parsed_entries py tx c log) p)
            ∙ counted_record-payload _ id state a call.inference state.calibrated_confidence
                call.latency_ms call.timestamp (action-lt py v a valid))
