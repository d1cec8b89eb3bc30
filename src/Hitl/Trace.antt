-- ===== src/Hitl/Trace.antt =====
-- Interleavings: the calls of all workers and reviewers to Redis, in any order.
use Prim.Native.String.{String}
use text.Mathlib.Text.{◌==◌ as str_eq}
use omni_aegis.Prelude.{
  ℕ, ◌+◌, ◌<◌, ◌≡◌, ◌==◌, if◌then◌else◌, true, false, inl, inr, List, [], ◌∷◌, arith, Bool-cases,
  Option-cases, ◌||◌,
}
use omni_aegis.Prelude.Dict.{str_eq_refl}
use omni_aegis.Redis.{SortedSets, ExpiringKeys, is_some}
use omni_aegis.Hitl.{
  HitlMonitorConfig, HitlQueueItem, Python, Lock, State, Times, lock_key, ttl_ms, claim_item,
  enqueue_item, rescore_item, Reclaim, idle, unlocked, scored, reclaim_step, get_item,
}

-- A call that the service sends. The rounds of a loop are separate calls, and `reclaim worker item
-- server_ms` is a worker's next call in its round for an item. A rescore reads an item's hash with
-- its transaction, since the hash of an item that was there stays.
pub data Command (Float : Type 0) : Type 0 where
  enqueue : HitlQueueItem Float → ℕ → Command Float
  claim : String → String → Times → Command Float
  rescore : String → ℕ → Command Float
  reclaim : ℕ → String → ℕ → Command Float

module _ (py : Python) (q : SortedSets py.Float) (f : SortedSets ℕ)
    (k : ExpiringKeys (Lock py.Float)) (c : HitlMonitorConfig) where
  -- The state in Redis, and where each worker is in its round.
  pub record World : Type 0 where
    pub state : State py q f k c
    pub workers : ℕ → Reclaim py.Float

  abbrev pub set_worker : ℕ → Reclaim py.Float → (ℕ → Reclaim py.Float) → ℕ → Reclaim py.Float
  set_worker i r workers j = if j == i then r else workers j

  unfoldable pub apply : Command py.Float → World → World
  apply (enqueue item now_ms) w = record w {
    state = (enqueue_item py q f k c item now_ms w.state).0;
  }
  apply (claim item_id reviewer_id t) w = record w {
    state = (claim_item py q f k c item_id reviewer_id t w.state).0;
  }
  apply (rescore item_id now_ms) w = record w {
    state = (rescore_item py q f k c item_id now_ms w.state).0;
  }
  apply (reclaim i item_id server_ms) w =
      let (state, r) = reclaim_step py q f k c item_id server_ms (w.workers i) w.state in
      record { state = state; workers = set_worker i r w.workers }

  unfoldable pub run : List (Command py.Float) → World → World
  unfolding apply
  run [] w = w
  run (command ∷ commands) w = run commands (apply command w)

  -- The server's clock at a call is before a moment.
  abbrev pub Before : ℕ → Command py.Float → Type 0
  Before moment (enqueue item now_ms) = Unit
  Before moment (claim item_id reviewer_id t) = t.server_ms < moment
  Before moment (rescore item_id now_ms) = Unit
  Before moment (reclaim i item_id server_ms) = server_ms < moment

  -- No reclaim of the item is under way.
  abbrev pub Clear : String → Reclaim py.Float → Type 0
  Clear item_id idle = Unit
  Clear item_id (unlocked other) = str_eq other item_id ≡ false
  Clear item_id (scored other score) = str_eq other item_id ≡ false

  -- An item that the service still knows of: it is queued or in flight.
  abbrev pub Tracked : String → State py q f k c → Type 0
  Tracked item_id s =
      (is_some (q.zscore item_id s.queue) || is_some (f.zscore item_id s.inflight)) ≡ true

  -- Moving a member from one set to the other keeps every member in one of them.
  zadd-Tracked :
      (item_id other : String) (v : py.Float) (s : State py q f k c)
      → Tracked item_id s
      → (is_some (q.zscore item_id (q.zadd other v s.queue))
          || is_some (f.zscore item_id s.inflight))
        ≡ true
  zadd-Tracked item_id other v s h = rw (q.zscore-zadd other item_id v s.queue) (ground arith)

  zrem-zadd-Tracked :
      (item_id other : String) (v : py.Float) (s : State py q f k c)
      → Tracked item_id s
      → (is_some (q.zscore item_id (q.zadd other v s.queue))
          || is_some (f.zscore item_id (f.zrem other s.inflight)))
        ≡ true
  zrem-zadd-Tracked item_id other v s h =
      rw (q.zscore-zadd other item_id v s.queue, f.zscore-zrem other item_id s.inflight)
        (ground arith)

  zadd-zrem-Tracked :
      (item_id other : String) (v : ℕ) (s : State py q f k c)
      → Tracked item_id s
      → (is_some (q.zscore item_id (q.zrem other s.queue))
          || is_some (f.zscore item_id (f.zadd other v s.inflight)))
        ≡ true
  zadd-zrem-Tracked item_id other v s h =
      rw (q.zscore-zrem other item_id s.queue, f.zscore-zadd other item_id v s.inflight)
        (ground arith)

  reclaim_step-Tracked :
      (item_id other : String) (server_ms : ℕ) (r : Reclaim py.Float) (s : State py q f k c)
      → Tracked item_id s
      → Tracked item_id (reclaim_step py q f k c other server_ms r s).0
  unfolding reclaim_step
  reclaim_step-Tracked item_id other server_ms idle s h =
      elim (Bool-cases (k.exists (lock_key c other) server_ms s.locks)) [
        | inl live ↦ rw (reclaim_step, live) h
        | inr free ↦ rw (reclaim_step, free) h
      ]
  reclaim_step-Tracked item_id other server_ms (unlocked found_id) s h = h
  reclaim_step-Tracked item_id other server_ms (scored found_id score) s h =
      zrem-zadd-Tracked item_id found_id score s h

  apply-Tracked :
      (item_id : String) (command : Command py.Float) (w : World)
      → Tracked item_id w.state
      → Tracked item_id (apply command w).state
  unfolding apply enqueue_item claim_item rescore_item
  apply-Tracked item_id (enqueue item now_ms) w h = zadd-Tracked item_id item.item_id _ w.state h
  apply-Tracked item_id (claim other reviewer_id t) w h =
      elim (Option-cases (q.zscore other w.state.queue)) [
        | inl absent ↦ rw (apply, claim_item, absent) h
        | inr (score, found) ↦
            elim (Bool-cases (k.exists (lock_key c other) t.server_ms w.state.locks)) [
              | inl live ↦ rw (apply, claim_item, found, live) h
              | inr free ↦
                  rw (apply, claim_item, found, free)
                    (zadd-zrem-Tracked item_id other (t.client_ms + ttl_ms c) w.state h)
            ]
      ]
  apply-Tracked item_id (rescore other now_ms) w h =
      elim (Option-cases (get_item py q f k c w.state other)) [
        | inl absent ↦ rw (apply, rescore_item, absent) h
        | inr (item, found) ↦
            rw (apply, rescore_item, found) (zadd-Tracked item_id other _ w.state h)
      ]
  apply-Tracked item_id (reclaim i other server_ms) w h =
      reclaim_step-Tracked item_id other server_ms (w.workers i) w.state h

  run-Tracked :
      (item_id : String) (commands : List (Command py.Float)) (w : World)
      → Tracked item_id w.state
      → Tracked item_id (run commands w).state
  unfolding run
  run-Tracked item_id [] w h = h
  run-Tracked item_id (command ∷ commands) w h =
      run-Tracked item_id commands (apply command w) (apply-Tracked item_id command w h)

  -- No review item is lost: after it has been enqueued, and after any interleaving of calls that
  -- follows, those of workers in the middle of a reclaim among them, the item is queued or in flight.
  pub enqueue_item-Tracked :
      (item : HitlQueueItem py.Float) (now_ms : ℕ) (commands : List (Command py.Float)) (w : World)
      → Tracked item.item_id (run commands (apply (enqueue item now_ms) w)).state
  unfolding apply
  enqueue_item-Tracked item now_ms commands w = run-Tracked item.item_id commands _ (enqueued)
    where
      enqueued : Tracked item.item_id (enqueue_item py q f k c item now_ms w.state).0
      enqueued =
          unfold enqueue_item in
          (rw (q.zscore-zadd item.item_id item.item_id _ w.state.queue, str_eq_refl item.item_id))
