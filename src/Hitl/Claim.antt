-- ===== src/Hitl/Claim.antt =====
-- One claim: what it changes, and when it is refused.
use Prim.Native.String.{String}
use omni_aegis.Prelude.{
  ℕ, ◌+◌, ◌<◌, ◌≡◌, refl, true, false, ◌⊎◌, inl, inr, none, some, Bool-cases, Option-cases, lt→ltb,
}
use omni_aegis.Prelude.Dict.{str_eq_refl}
use omni_aegis.Redis.{SortedSets, ExpiringKeys}
use omni_aegis.Hitl.{HitlMonitorConfig, Python, Lock, State, Times, lock_key, ttl_ms, claim_item}

module _ (py : Python) (q : SortedSets py.Float) (f : SortedSets ℕ)
    (k : ExpiringKeys (Lock py.Float)) (c : HitlMonitorConfig) (item_id reviewer_id : String)
    (t : Times) (s : State py q f k c) where
  -- What a claim that succeeds found and left behind.
  pub record Claimed (score : py.Float) (s' : State py q f k c) : Type 0 where
    pub was_queued : q.zscore item_id s.queue ≡ some score
    pub was_free : k.exists (lock_key c item_id) t.server_ms s.locks ≡ false
    pub left_queue : q.zscore item_id s'.queue ≡ none
    pub in_flight : f.zscore item_id s'.inflight ≡ some (t.client_ms + ttl_ms c)
    pub locked :
        (now : ℕ) → now < t.server_ms + ttl_ms c → k.exists (lock_key c item_id) now s'.locks ≡ true
    pub same_items : s'.items ≡ s.items

  -- A claim that is refused changes nothing, and the item is not queued or it is locked.
  pub record Refused (s' : State py q f k c) : Type 0 where
    pub unchanged : s' ≡ s
    pub reason :
        (q.zscore item_id s.queue ≡ none)
        ⊎ (k.exists (lock_key c item_id) t.server_ms s.locks ≡ true)

  after : py.Float → State py q f k c
  after score = record s {
    queue = q.zrem item_id s.queue;
    inflight = f.zadd item_id (t.client_ms + ttl_ms c) s.inflight;
    locks =
        k.set_px (lock_key c item_id)
          (record {
            reviewer = reviewer_id;
            assigned_at_ms = t.client_ms;
            expires_at_ms = t.client_ms + ttl_ms c;
            priority_score = score;
          })
          (ttl_ms c) t.server_ms s.locks;
  }

  after-Claimed :
      (score : py.Float)
      → q.zscore item_id s.queue ≡ some score
      → k.exists (lock_key c item_id) t.server_ms s.locks ≡ false
      → Claimed score (after score)
  unfolding after
  after-Claimed score found free = record {
    was_queued = found;
    was_free = free;
    left_queue = rw (q.zscore-zrem item_id item_id s.queue, str_eq_refl item_id);
    in_flight =
        rw (f.zscore-zadd item_id item_id (t.client_ms + ttl_ms c) s.inflight, str_eq_refl item_id);
    locked = λ now h.
        rw (
          k.exists-set_px,
          str_eq_refl (lock_key c item_id),
          lt→ltb now (t.server_ms + ttl_ms c) h,
        );
    same_items = refl;
  }

  -- The answer of the claim script says which of the two happened.
  pub claim_item-cases :
      ((score : py.Float) × ((claim_item py q f k c item_id reviewer_id t s).1 ≡ some score)
        × Claimed score (claim_item py q f k c item_id reviewer_id t s).0)
      ⊎ (((claim_item py q f k c item_id reviewer_id t s).1 ≡ none)
          × Refused (claim_item py q f k c item_id reviewer_id t s).0)
  unfolding claim_item after
  claim_item-cases = elim (Option-cases (q.zscore item_id s.queue)) [
    | inl absent ↦ inr (
      rw (claim_item, absent),
      record { unchanged = rw (claim_item, absent); reason = inl absent },
    )
    | inr (score, found) ↦ elim (Bool-cases (k.exists (lock_key c item_id) t.server_ms s.locks)) [
      | inl live ↦ inr (
        rw (claim_item, found, live),
        record { unchanged = rw (claim_item, found, live); reason = inr live },
      )
      | inr free ↦ inl (
        score,
        rw (claim_item, found, free),
        rw (claim_item, found, free) (after-Claimed score found free),
      )
    ]
  ]
