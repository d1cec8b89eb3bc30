-- ===== src/Hitl/Exclusive.antt =====
-- A claim holds, through the calls of all workers and reviewers.
use Prim.Native.String.{String}
use text.Mathlib.Text.{◌==◌ as str_eq}
use text.Mathlib.TextEquality.{eq_iff}
use omni_aegis.Prelude.{
  ℕ, ◌+◌, ◌<◌, ◌≡◌, ◌∙◌, refl, ap, ◌==◌, true, inl, inr, List, [], ◌∷◌, none, some, All, Bool-cases,
  Option-cases,
}
use omni_aegis.Redis.{SortedSets, ExpiringKeys}
use omni_aegis.Hitl.{
  HitlMonitorConfig, Python, Lock, State, Times, lock_key, ttl_ms, claim_item, enqueue_item,
  rescore_item, Reclaim, idle, unlocked, scored, reclaim_step, get_item,
}
use omni_aegis.Hitl.Claim.{claim_item-cases}
use omni_aegis.Hitl.Trace.{
  Command, enqueue, claim, rescore, reclaim, World, set_worker, apply, run, Before, Clear,
}

module _ (py : Python) (q : SortedSets py.Float) (f : SortedSets ℕ)
    (k : ExpiringKeys (Lock py.Float)) (c : HitlMonitorConfig) where
  -- The lock of an item is there until a moment.
  abbrev Held : String → ℕ → State py q f k c → Type 0
  Held item_id moment s =
      (now : ℕ) → now < moment → k.exists (lock_key c item_id) now s.locks ≡ true

  claim_item-Held :
      (item_id : String) (moment : ℕ) (other reviewer_id : String) (t : Times)
      (s : State py q f k c)
      → t.server_ms < moment
      → Held item_id moment s
      → Held item_id moment (claim_item py q f k c other reviewer_id t s).0
  unfolding claim_item
  claim_item-Held item_id moment other reviewer_id t s b h now lt =
      elim (Option-cases (q.zscore other s.queue)) [
        | inl absent ↦ rw (claim_item, absent) (h now lt)
        | inr (score, found) ↦ elim (Bool-cases (k.exists (lock_key c other) t.server_ms s.locks)) [
          | inl live ↦ rw (claim_item, found, live) (h now lt)
          | inr free ↦ elim (Bool-cases (str_eq (lock_key c other) (lock_key c item_id))) [
            | inl same ↦
                let e = (eq_iff (lock_key c other) (lock_key c item_id)).0 same in
                let live = h t.server_ms b in
                absurd (cc (live, free, ap (λ key. k.exists key t.server_ms s.locks) e))
            | inr apart ↦ rw (claim_item, found, free, k.exists-set_px, apart) (h now lt)
          ]
        ]
      ]

  rescore_item-locks :
      (item_id : String) (now_ms : ℕ) (s : State py q f k c)
      → (rescore_item py q f k c item_id now_ms s).0.locks ≡ s.locks
  unfolding rescore_item
  rescore_item-locks item_id now_ms s = elim (Option-cases (get_item py q f k c s item_id)) [
    | inl absent ↦ rw (rescore_item, absent)
    | inr (item, found) ↦ rw (rescore_item, found)
  ]

  -- While a claim lasts: the item is locked and in flight, and no worker is reclaiming it.
  record Claim (item_id : String) (moment deadline : ℕ) (w : World py q f k c) : Type 0 where
    held : Held item_id moment w.state
    in_flight : f.zscore item_id w.state.inflight ≡ some deadline
    clear : (i : ℕ) → Clear py q f k c item_id (w.workers i)

  claim_item-in_flight :
      (item_id : String) (moment deadline : ℕ) (other reviewer_id : String) (t : Times)
      (s : State py q f k c)
      → t.server_ms < moment
      → Held item_id moment s
      → f.zscore item_id s.inflight ≡ some deadline
      → f.zscore item_id (claim_item py q f k c other reviewer_id t s).0.inflight ≡ some deadline
  unfolding claim_item
  claim_item-in_flight item_id moment deadline other reviewer_id t s b h e =
      elim (Option-cases (q.zscore other s.queue)) [
        | inl absent ↦ rw (claim_item, absent) e
        | inr (score, found) ↦ elim (Bool-cases (k.exists (lock_key c other) t.server_ms s.locks)) [
          | inl live ↦ rw (claim_item, found, live) e
          | inr free ↦ elim (Bool-cases (str_eq other item_id)) [
            | inl same ↦
                let e' = (eq_iff other item_id).0 same in
                let live = h t.server_ms b in
                absurd (cc (live, free, ap (λ m. k.exists (lock_key c m) t.server_ms s.locks) e'))
            | inr apart ↦ rw (claim_item, found, free, f.zscore-zadd, apart) e
          ]
        ]
      ]

  rescore_item-inflight :
      (item_id : String) (now_ms : ℕ) (s : State py q f k c)
      → (rescore_item py q f k c item_id now_ms s).0.inflight ≡ s.inflight
  unfolding rescore_item
  rescore_item-inflight item_id now_ms s = elim (Option-cases (get_item py q f k c s item_id)) [
    | inl absent ↦ rw (rescore_item, absent)
    | inr (item, found) ↦ rw (rescore_item, found)
  ]

  set_worker-Clear :
      (item_id : String) (i : ℕ) (r : Reclaim py.Float) (workers : ℕ → Reclaim py.Float)
      → Clear py q f k c item_id r
      → ((j : ℕ) → Clear py q f k c item_id (workers j))
      → (j : ℕ) → Clear py q f k c item_id (set_worker py q f k c i r workers j)
  set_worker-Clear item_id i r workers h all j = elim (Bool-cases (j == i)) [
    | inl same ↦ rw (set_worker, same) h
    | inr apart ↦ rw (set_worker, apart) (all j)
  ]

  -- The step of a worker that is not reclaiming the item does not touch it while it is locked.
  record Spared (item_id : String) (s : State py q f k c) (r : State py q f k c × Reclaim py.Float)
      : Type 0 where
    locks : r.0.locks ≡ s.locks
    inflight : f.zscore item_id r.0.inflight ≡ f.zscore item_id s.inflight
    clear : Clear py q f k c item_id r.1

  reclaim_step-Spared :
      (item_id : String) (moment : ℕ) (other : String) (server_ms : ℕ) (r : Reclaim py.Float)
      (s : State py q f k c)
      → server_ms < moment
      → Held item_id moment s
      → Clear py q f k c item_id r
      → Spared item_id s (reclaim_step py q f k c other server_ms r s)
  unfolding reclaim_step
  reclaim_step-Spared item_id moment other server_ms idle s b h clear =
      elim (Bool-cases (k.exists (lock_key c other) server_ms s.locks)) [
        | inl live ↦ rw (reclaim_step, live) (record { locks = refl; inflight = refl; clear = tt })
        | inr free ↦ elim (Bool-cases (str_eq other item_id)) [
          | inl same ↦
              let e = (eq_iff other item_id).0 same in
              let live = h server_ms b in
              absurd (cc (live, free, ap (λ m. k.exists (lock_key c m) server_ms s.locks) e))
          | inr apart ↦
              rw (reclaim_step, free) (record { locks = refl; inflight = refl; clear = apart })
        ]
      ]
  reclaim_step-Spared item_id moment other server_ms (unlocked found_id) s b h clear = record {
    locks = refl;
    inflight = refl;
    clear = clear;
  }
  reclaim_step-Spared item_id moment other server_ms (scored found_id score) s b h clear = record {
    locks = refl;
    inflight = rw (f.zscore-zrem found_id item_id s.inflight, clear) refl;
    clear = tt;
  }

  apply-Claim :
      (item_id : String) (moment deadline : ℕ) (command : Command py.Float) (w : World py q f k c)
      → Before py q f k c moment command
      → Claim item_id moment deadline w
      → Claim item_id moment deadline (apply py q f k c command w)
  unfolding apply enqueue_item
  apply-Claim item_id moment deadline (enqueue item now_ms) w b h = record {
    held = h.held;
    in_flight = h.in_flight;
    clear = h.clear;
  }
  apply-Claim item_id moment deadline (claim other reviewer_id t) w b h = record {
    held = claim_item-Held item_id moment other reviewer_id t w.state b h.held;
    in_flight =
        claim_item-in_flight item_id moment deadline other reviewer_id t w.state b h.held
          h.in_flight;
    clear = h.clear;
  }
  apply-Claim item_id moment deadline (rescore other now_ms) w b h = record {
    held = λ now lt. rw (rescore_item-locks other now_ms w.state) (h.held now lt);
    in_flight = rw (rescore_item-inflight other now_ms w.state) h.in_flight;
    clear = h.clear;
  }
  apply-Claim item_id moment deadline (reclaim i other server_ms) w b h =
      let spared =
        reclaim_step-Spared item_id moment other server_ms (w.workers i) w.state b h.held
          (h.clear i) in
      record {
        held = λ now lt. rw (spared.locks) (h.held now lt);
        in_flight = spared.inflight ∙ h.in_flight;
        clear = set_worker-Clear item_id i _ w.workers spared.clear h.clear;
      }

  run-Claim :
      (item_id : String) (moment deadline : ℕ) (commands : List (Command py.Float))
      (w : World py q f k c)
      → All (Before py q f k c moment) commands
      → Claim item_id moment deadline w
      → Claim item_id moment deadline (run py q f k c commands w)
  unfolding run
  run-Claim item_id moment deadline [] w b h = h
  run-Claim item_id moment deadline (command ∷ commands) w b h =
      run-Claim item_id moment deadline commands (apply py q f k c command w) b.1
        (apply-Claim item_id moment deadline command w b.0 h)

  -- The world after a claim.
  abbrev pub after_claim : String → String → Times → World py q f k c → World py q f k c
  after_claim item_id reviewer_id t w = record w {
    state = (claim_item py q f k c item_id reviewer_id t w.state).0;
  }

  -- Mutual exclusion of reviewers: once an item has been claimed while no worker is between the calls
  -- of a reclaim of it, then after any interleaving of enqueues, claims, priority updates and the
  -- single calls of reclaiming workers that are made before the lock expires, every further claim of
  -- the item before that moment is refused, and the item is still in flight with the claim's deadline.
  pub claim-exclusive :
      (item_id reviewer_id rival : String) (t t' : Times) (score : py.Float)
      (commands : List (Command py.Float)) (w : World py q f k c)
      → (claim_item py q f k c item_id reviewer_id t w.state).1 ≡ some score
      → ((i : ℕ) → Clear py q f k c item_id (w.workers i))
      → All (Before py q f k c (t.server_ms + ttl_ms c)) commands
      → t'.server_ms < t.server_ms + ttl_ms c
      → ((claim_item py q f k c item_id rival t'
            (run py q f k c commands (after_claim item_id reviewer_id t w)).state).1
          ≡ none)
        × (f.zscore item_id
              (run py q f k c commands (after_claim item_id reviewer_id t w)).state.inflight
            ≡ some (t.client_ms + ttl_ms c))
  claim-exclusive item_id reviewer_id rival t t' score commands w claimed clear before early =
      let done = run-Claim item_id _ _ commands _ before (started) in
      (refused _ (done.held t'.server_ms early), done.in_flight)
    where
      started :
          Claim item_id
            (t.server_ms + ttl_ms c)
            (t.client_ms + ttl_ms c)
            (after_claim item_id reviewer_id t w)
      started = elim (claim_item-cases py q f k c item_id reviewer_id t w.state) [
        | inl (_, _, done) ↦ record {
          held = done.locked;
          in_flight = done.in_flight;
          clear = clear;
        }
        | inr (no_claim, _) ↦ absurd (cc (no_claim, claimed))
      ]

      refused :
          (s' : State py q f k c)
          → k.exists (lock_key c item_id) t'.server_ms s'.locks ≡ true
          → (claim_item py q f k c item_id rival t' s').1 ≡ none
      refused s' live = elim (claim_item-cases py q f k c item_id rival t' s') [
        | inl (_, _, done) ↦ absurd (cc (done.was_free, live))
        | inr (no_claim, _) ↦ no_claim
      ]
