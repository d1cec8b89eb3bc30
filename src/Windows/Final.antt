-- ===== src/Windows/Final.antt =====
-- The decisions that no later event touches.
use Prim.Native.String.{String}
use omni_aegis.Prelude.{
  ℕ, ◌≤◌, ◌≡◌, refl, Bool, true, false, ◌&&◌, ge→ltb, List, [], ◌∷◌, Option, none, some, ltb, arith,
}
use omni_aegis.Merkle.{Digests}
use omni_aegis.Windows.{State, BatchStatus, DecisionRow, fetch_decision_with_batch, in_window}
use omni_aegis.Windows.Loop.{
  Config, Answers, Ended, Event, recorded, cycled, restarted, window_end_of, restore_window_cursor,
  apply_event, apply_events,
}
use omni_aegis.Windows.Rows.{Coherent}
use omni_aegis.Windows.Cycle.{
  Closed, aborted, empty, persisted, marked, anchor_pending_window-Closed,
}
use omni_aegis.Windows.Events.{
  insert_decision_leaf-Coherent, insert_decision_leaf-kept, cycle-kept, cycle-Coherent,
  insert_decision_leaf-cursor,
}

pub window_end_of-le : (interval now cursor : ℕ) → cursor ≤ window_end_of interval now cursor
window_end_of-le interval now cursor = ground arith

late_false :
    (x y : Bool) (window_start t : ℕ) → t ≤ window_start → (x && (ltb window_start t && y)) ≡ false
late_false true y window_start t h = rw (ge→ltb window_start t h) refl
late_false false y window_start t h = refl

pub late-in_window :
    {Float : Type 0} (ws we : ℕ) (row : DecisionRow Float)
    → row.leaf.timestamp ≤ ws
    → in_window ws we row ≡ false
late-in_window ws we row h = late_false _ _ ws row.leaf.timestamp h

module _ {Float : Type 0} (dg : Digests) (config : Config)
    (text_before : String → String → Bool) where
  pub apply_event-Coherent :
      (e : Event Float) (s : State Float)
      → Coherent s.decisions
      → Coherent (apply_event dg config text_before e s).decisions
  unfolding restore_window_cursor
  apply_event-Coherent (recorded leaf) s h = insert_decision_leaf-Coherent leaf s h
  apply_event-Coherent (cycled a) s h = cycle-Coherent dg config text_before a s h
  apply_event-Coherent (restarted now) s h = h

  -- A row that is in no window from here on is not changed.
  apply_event-kept :
      (e : Event Float) (s : State Float) (id : String) (row : DecisionRow Float)
      → Coherent s.decisions
      → ((we : ℕ) → in_window s.cursor we row ≡ false)
      → fetch_decision_with_batch id s.decisions ≡ some row
      → fetch_decision_with_batch id (apply_event dg config text_before e s).decisions ≡ some row
  unfolding restore_window_cursor
  apply_event-kept (recorded leaf) s id row h out found =
      insert_decision_leaf-kept leaf id row s found
  apply_event-kept (cycled a) s id row h out found =
      cycle-kept dg config text_before a s h id row found (out _)
  apply_event-kept (restarted now) s id row h out found = found

  -- Where decision ids are unique, the batch and the index of a decision are final: once it has them,
  -- no sequence of recorded decisions, cycles and restarts changes its row.
  pub apply_events-batched :
      (es : List (Event Float)) (s : State Float) (id b : String) (row : DecisionRow Float)
      → Coherent s.decisions
      → fetch_decision_with_batch id s.decisions ≡ some row
      → row.batch_id ≡ some b
      → fetch_decision_with_batch id (apply_events dg config text_before es s).decisions ≡ some row
  apply_events-batched [] s id b row h found batched = found
  apply_events-batched (e ∷ es) s id b row h found batched =
      apply_events-batched es (apply_event dg config text_before e s) id b row
        (apply_event-Coherent e s h) (apply_event-kept e s id row h (λ we. rw (batched) refl) found)
        batched

  -- Events of one process: its cursor only grows.
  abbrev pub Running : Event Float → Type 0
  Running (restarted now) = ⊥
  Running e = Unit

  abbrev pub AllRunning : List (Event Float) → Type 0
  AllRunning [] = Unit
  AllRunning (e ∷ es) = Running e × AllRunning es

  marked-cursor :
      (a : Answers) (s : State Float) (m : Option BatchStatus) (t : State Float)
      → (marked dg config text_before a s m t).cursor ≡ t.cursor
  marked-cursor a s none t = refl
  marked-cursor a s (some status) t = refl

  Closed-cursor :
      (a : Answers) (s : State Float) (r : State Float × Ended)
      → Closed dg config text_before a s r
      → s.cursor ≤ r.0.cursor
  Closed-cursor a s r aborted = omega arith
  Closed-cursor a s r (empty e) = window_end_of-le config.anchor_interval_seconds a.now s.cursor
  Closed-cursor a s r (persisted batch levels d m e b) =
      omega (
        arith,
        marked-cursor a s m _,
        window_end_of-le config.anchor_interval_seconds a.now s.cursor,
      )

  pub apply_event-cursor :
      (e : Event Float) (s : State Float)
      → Running e
      → s.cursor ≤ (apply_event dg config text_before e s).cursor
  apply_event-cursor (recorded leaf) s h = omega (arith, insert_decision_leaf-cursor leaf s)
  apply_event-cursor (cycled a) s h =
      Closed-cursor a s _ (anchor_pending_window-Closed dg config text_before a s)
  apply_event-cursor (restarted now) s h = elim h [ ]

  -- Where decision ids are unique, a decision with a timestamp at or before the cursor keeps its row
  -- as it is while the process runs, whatever is recorded and however many cycles run: without a
  -- batch it never gets one.
  pub apply_events-late :
      (es : List (Event Float)) (s : State Float) (id : String) (row : DecisionRow Float)
      → AllRunning es
      → Coherent s.decisions
      → fetch_decision_with_batch id s.decisions ≡ some row
      → row.leaf.timestamp ≤ s.cursor
      → fetch_decision_with_batch id (apply_events dg config text_before es s).decisions ≡ some row
  apply_events-late [] s id row running h found late = found
  apply_events-late (e ∷ es) s id row running h found late =
      apply_events-late es (apply_event dg config text_before e s) id row running.1
        (apply_event-Coherent e s h)
        (apply_event-kept e s id row h (λ we. late-in_window s.cursor we row late) found)
        (omega (arith, apply_event-cursor e s running.0))
