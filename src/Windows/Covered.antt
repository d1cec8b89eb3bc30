-- ===== src/Windows/Covered.antt =====
-- No decision that is recorded in time is left out of the batches.
use Prim.Native.String.{String}
use text.Mathlib.Text.{◌==◌ as str_eq}
use mathlib.Core.Option.{some-injective}
use mathlib.Core.Option
use mathlib.Core.Path.{subst}
use omni_aegis.Prelude.{
  ℕ, ◌-◌, ◌≤◌, ◌<◌, ◌≡◌, refl, sym, ap, ◌∙◌, Bool, true, false, not, ◌&&◌, ◌⊎◌, inl, inr, List, [],
  ◌∷◌, ◌++◌, Option, none, some, leb, ltb, arith, Bool-cases, Option-cases,
}
use omni_aegis.Prelude.Dict.{Dict}
use omni_aegis.Redis.{is_some}
use omni_aegis.Merkle.{Digests, DecisionLeaf, index_map}
use omni_aegis.Windows.{
  State, BatchStatus, DecisionRow, fetch_decision_with_batch, in_window, insert_decision_leaf,
  update_rows, store_window_cursor, persist_batch,
}
use omni_aegis.Windows.Loop.{
  Config, Answers, Ended, Event, recorded, cycled, restarted, max_window_end, restore_window_cursor,
  apply_event, apply_events,
}
use omni_aegis.Windows.Rows.{Coherent, has_leaf, updated, updated-leaf, fetch-update_rows}
use omni_aegis.Windows.Cycle.{
  Closed, aborted, empty, persisted, window_end, leaves, marked, anchor_pending_window-Closed,
}
use omni_aegis.Windows.Events.{
  build_merkle_batch-fields, queued, insert_decision_leaf-known, insert_decision_leaf-new,
  fetch-append, fetch-append_none, has_leaf-leaves, fetch-kept, updated-batched,
}
use omni_aegis.Windows.Ends.{Ends, Ends-le, Ends-insert_batch, Ends-marked_row, Ends-max_window_end}
use omni_aegis.Windows.Final.{apply_event-Coherent, window_end_of-le}

module _ {Float : Type 0} where
  -- Every decision up to the cursor has a batch.
  abbrev pub Covered : State Float → Type 0
  Covered s =
      (id : String) (row : DecisionRow Float)
      → fetch_decision_with_batch id s.decisions ≡ some row
      → row.leaf.timestamp ≤ s.cursor
      → is_some row.batch_id ≡ true

  -- The primary key holds, no window ends after the cursor, and every decision up to the cursor
  -- has a batch.
  pub record Sound (s : State Float) : Type 0 where
    pub coherent : Coherent s.decisions
    pub ends : Ends s.cursor s.batches
    pub covered : Covered s

  insert_decision_leaf-Covered :
      (leaf : DecisionLeaf Float) (s : State Float)
      → s.cursor < leaf.timestamp
      → Covered s
      → Covered (insert_decision_leaf leaf s)
  insert_decision_leaf-Covered leaf s timely covered =
      elim (Option-cases (fetch_decision_with_batch leaf.decision_id s.decisions)) [
        | inr (other, known) ↦ rw (insert_decision_leaf-known leaf other s known) covered
        | inl new ↦
            rw (insert_decision_leaf-new leaf s new)
              (λ id row found early. appended id row found early)
      ]
    where
      appended :
          (id : String) (row : DecisionRow Float)
          → fetch_decision_with_batch id (s.decisions ++ queued leaf ∷ []) ≡ some row
          → row.leaf.timestamp ≤ s.cursor
          → is_some row.batch_id ≡ true
      appended id row found early = elim (Option-cases (fetch_decision_with_batch id s.decisions)) [
        | inr (row', known) ↦
            let e = some-injective _ _ (sym (fetch-append id row' s.decisions _ known) ∙ found) in
            subst (λ (r : DecisionRow Float). is_some r.batch_id ≡ true) e
              (covered id row' known
                (subst (λ (r : DecisionRow Float). r.leaf.timestamp ≤ s.cursor) (sym e) early))
        | inl new ↦
            let found' = sym (fetch-append_none id s.decisions (queued leaf ∷ []) new) ∙ found in
            elim (Bool-cases (str_eq leaf.decision_id id)) [
              | inl same ↦
                  let e : some (queued leaf) ≡ some row =
                    rw (fetch_decision_with_batch, same) at found' in
                  let early' =
                    subst (λ (r : DecisionRow Float). r.leaf.timestamp ≤ s.cursor)
                      (sym (some-injective _ _ e)) early in
                  absurd (omega (arith, early', timely))
              | inr other ↦ absurd (let e = rw (fetch_decision_with_batch, other) at found' in cc e)
            ]
      ]

  insert_decision_leaf-Ends :
      (leaf : DecisionLeaf Float) (s : State Float)
      → Ends s.cursor s.batches
      → Ends (insert_decision_leaf leaf s).cursor (insert_decision_leaf leaf s).batches
  insert_decision_leaf-Ends leaf s h =
      elim (Option-cases (fetch_decision_with_batch leaf.decision_id s.decisions)) [
        | inl new ↦ rw (insert_decision_leaf-new leaf s new) h
        | inr (other, known) ↦ rw (insert_decision_leaf-known leaf other s known) h
      ]

  -- A row is before the window, has a batch, or is after the window.
  before-in_window :
      (ws we : ℕ) (row : DecisionRow Float)
      → in_window ws we row ≡ false
      → row.leaf.timestamp ≤ we
      → (is_some row.batch_id ≡ true) ⊎ (row.leaf.timestamp ≤ ws)
  before-in_window ws we row out h = outside (is_some row.batch_id) row.leaf.timestamp out h
    where
      outside :
          (batched : Bool) (t : ℕ)
          → (not batched && (ltb ws t && leb t we)) ≡ false
          → t ≤ we
          → (batched ≡ true) ⊎ (t ≤ ws)
      outside true t e h = inl refl
      outside false t e h = inr (ground arith)

module _ {Float : Type 0} (dg : Digests) (config : Config)
    (text_before : String → String → Bool) where
  module _ (a : Answers) (s : State Float) (sound : Sound s) where
    abbrev we : ℕ
    we = window_end dg config text_before a s

    empty-Covered :
        leaves dg config text_before a s ≡ []
        → (id : String) (row : DecisionRow Float)
        → fetch_decision_with_batch id s.decisions ≡ some row
        → row.leaf.timestamp ≤ we
        → is_some row.batch_id ≡ true
    empty-Covered e id row found early =
        let out =
          sym (has_leaf-leaves dg config text_before a s sound.coherent id row found)
          ∙ ap (has_leaf id) e in
        elim (before-in_window s.cursor we row out early) [
          | inl batched ↦ batched
          | inr before ↦ sound.covered id row found before
        ]

    persisted-Covered :
        (b : String) (d : Dict ℕ)
        → d ≡ index_map 0 (leaves dg config text_before a s) []
        → (id : String) (row' : DecisionRow Float)
        → fetch_decision_with_batch id (update_rows b d s.decisions) ≡ some row'
        → row'.leaf.timestamp ≤ we
        → is_some row'.batch_id ≡ true
    persisted-Covered b d indexed id row' found' early =
        elim (Option-cases (fetch_decision_with_batch id s.decisions)) [
          | inl unknown ↦ absurd (
              let e =
                sym (ap (Option.map (updated b d)) unknown)
                ∙ sym (fetch-update_rows b d id s.decisions)
                ∙ found' in
              cc e)
          | inr (row, found) ↦
              let e : updated b d row ≡ row' = some-injective _ _ (
                sym (ap (Option.map (updated b d)) found)
                ∙ sym (fetch-update_rows b d id s.decisions)
                ∙ found') in
              let early' : row.leaf.timestamp ≤ we =
                subst (λ (l : DecisionLeaf Float). l.timestamp ≤ we) (updated-leaf b d row)
                  (subst (λ (r : DecisionRow Float). r.leaf.timestamp ≤ we) (sym e) early) in
              elim (Bool-cases (in_window s.cursor we row)) [
                | inl inside ↦
                    ap (λ (r : DecisionRow Float). is_some r.batch_id) (sym e)
                    ∙ ap is_some (
                        updated-batched dg config text_before a s sound.coherent b d indexed id row
                          found inside)
                | inr out ↦
                    let kept =
                      fetch-kept dg config text_before a s sound.coherent b d indexed id row found
                        out in
                    let same = some-injective _ _ (sym kept ∙ found') in
                    ap (λ (r : DecisionRow Float). is_some r.batch_id) (sym same)
                    ∙ elim (before-in_window s.cursor we row out early') [
                      | inl batched ↦ batched
                      | inr before ↦ sound.covered id row found before
                    ]
              ]
        ]

    marked-Sound :
        (m : Option BatchStatus) (t : State Float)
        → Coherent (marked dg config text_before a s m t).decisions
        → Ends t.cursor t.batches
        → Covered t
        → Sound (marked dg config text_before a s m t)
    marked-Sound none t h ends covered = record { coherent = h; ends = ends; covered = covered }
    marked-Sound (some status) t h ends covered = record {
      coherent = h;
      ends = Ends-marked_row t.cursor a.batch_id status t.batches ends;
      covered = covered;
    }

    Closed-Sound :
        (r : State Float × Ended)
        → Closed dg config text_before a s r
        → Coherent r.0.decisions
        → Sound r.0
    Closed-Sound r aborted h = sound
    Closed-Sound r (empty e) h = record {
      coherent = h;
      ends =
          Ends-le s.cursor we s.batches
            (window_end_of-le config.anchor_interval_seconds a.now s.cursor) sound.ends;
      covered = empty-Covered e;
    }
    Closed-Sound r (persisted batch levels d m e b) h =
        let (_, ended, indexed) = build_merkle_batch-fields dg _ _ _ _ _ _ _ batch levels d b in
        let later =
          Ends-le s.cursor we s.batches
            (window_end_of-le config.anchor_interval_seconds a.now s.cursor) sound.ends in
        let ends = Ends-insert_batch we batch s.batches later (omega (arith, ended)) in
        marked-Sound m
          (store_window_cursor we
            (persist_batch batch levels (leaves dg config text_before a s) d s))
          h ends (persisted-Covered batch.batch_id d indexed)

  -- A decision is recorded after the cursor, and a new process finds a batch.
  abbrev pub Timely : Event Float → State Float → Type 0
  Timely (recorded leaf) s = s.cursor < leaf.timestamp
  Timely (cycled a) s = Unit
  Timely (restarted now) s = (n : ℕ) × (max_window_end s.batches ≡ some n)

  apply_event-Sound :
      (e : Event Float) (s : State Float)
      → Timely e s
      → Sound s
      → Sound (apply_event dg config text_before e s)
  unfolding restore_window_cursor
  apply_event-Sound (recorded leaf) s timely sound = record {
    coherent = apply_event-Coherent dg config text_before (recorded leaf) s sound.coherent;
    ends = insert_decision_leaf-Ends leaf s sound.ends;
    covered = insert_decision_leaf-Covered leaf s timely sound.covered;
  }
  apply_event-Sound (cycled a) s timely sound =
      Closed-Sound a s sound _ (anchor_pending_window-Closed dg config text_before a s)
        (apply_event-Coherent dg config text_before (cycled a) s sound.coherent)
  apply_event-Sound (restarted now) s (n, found) sound =
      let (below, ends) = Ends-max_window_end s.cursor n s.batches sound.ends found in
      let cursor : Option.get_or (max_window_end s.batches) (now - config.anchor_interval_seconds)
          ≡ n =
        rw (found) refl in
      record {
        coherent = sound.coherent;
        ends = subst (λ c. Ends c s.batches) (sym cursor) ends;
        covered =
            λ id row known early. sound.covered id row known (omega (arith, early, cursor, below));
      }

  abbrev pub AllTimely : List (Event Float) → State Float → Type 0
  AllTimely [] s = Unit
  AllTimely (e ∷ es) s = Timely e s × AllTimely es (apply_event dg config text_before e s)

  -- From a state in which every decision up to the cursor has a batch, decision ids are unique and no
  -- stored window ends after the cursor, the same holds after any sequence of recorded decisions,
  -- cycles (whatever the clock, the database and the chain answer) and restarts, as long as each
  -- decision is recorded with a timestamp after the cursor and each restart finds a batch.
  pub apply_events-Sound :
      (es : List (Event Float)) (s : State Float)
      → AllTimely es s
      → Sound s
      → Sound (apply_events dg config text_before es s)
  apply_events-Sound [] s timely sound = sound
  apply_events-Sound (e ∷ es) s timely sound =
      apply_events-Sound es (apply_event dg config text_before e s) timely.1
        (apply_event-Sound e s timely.0 sound)
