-- ===== src/Hitl/Assign.antt =====
-- `assign_next_item`: who gets what, and why nobody gets anything.
use Prim.Native.String.{String}
use omni_aegis.Prelude.{
  ℕ, ◌+◌, ◌-◌, ◌≡◌, refl, ap, true, ◌⊎◌, inl, inr, List, [], ◌∷◌, ◌++◌, Option, none, some,
  Bool-cases, Option-cases,
}
use omni_aegis.Redis.{SortedSets, ExpiringKeys}
use omni_aegis.Hitl.{
  HitlMonitorConfig, HitlQueueItem, ReviewerProfile, Reason, Python, Lock, Assignment, State, Times,
  lock_key, claim_for, assignment, get_item, no_reason, check_conflict_of_interest, eligible,
  assign_loop, assign_next_item,
}
use omni_aegis.Hitl.Claim.{claim_item-cases, Claimed}

module _ (py : Python) (q : SortedSets py.Float) (f : SortedSets ℕ)
    (k : ExpiringKeys (Lock py.Float)) (c : HitlMonitorConfig)
    (graph_nodes : HitlQueueItem py.Float → List String) (reviewer : ReviewerProfile)
    (times : ℕ → Times) where
  -- Why a candidate was passed over: it has no item or a conflict of interest, it is no longer
  -- queued, or its lock is live at the candidate's turn.
  pub data Skipped (s : State py q f k c) (i : ℕ) (item_id : String) : Type 0 where
    not_eligible : eligible py q f k c graph_nodes reviewer s item_id ≡ none → Skipped s i item_id
    not_queued : q.zscore item_id s.queue ≡ none → Skipped s i item_id
    locked : k.exists (lock_key c item_id) (times i).server_ms s.locks ≡ true → Skipped s i item_id

  abbrev pub AllSkipped : State py q f k c → ℕ → List String → Type 0
  AllSkipped s i [] = Unit
  AllSkipped s i (item_id ∷ item_ids) = Skipped s i item_id × AllSkipped s (i + 1) item_ids

  -- An assignment out of a list of candidates: all before the one chosen were passed over, the
  -- chosen item is there, its reviewer has no conflict of interest, and the claim succeeded.
  pub record Assigned (candidates : List String) (s s' : State py q f k c) (i : ℕ)
      (a : Assignment py.Float) : Type 0 where
    pub turn : ℕ
    pub before : List String
    pub later : List String
    pub split : candidates ≡ before ++ a.item_id ∷ later
    pub skipped : AllSkipped s i before
    pub item : HitlQueueItem py.Float
    pub stored : get_item py q f k c s a.item_id ≡ some item
    pub no_conflict : check_conflict_of_interest py graph_nodes item reviewer ≡ []
    pub to_reviewer : a.assigned_to ≡ reviewer.reviewer_id
    pub claimed :
        Claimed py q f k c a.item_id reviewer.reviewer_id (times turn) s a.priority_score s'

  no_reason-nil : (rs : List Reason) → no_reason py q f k c graph_nodes rs ≡ true → rs ≡ []
  no_reason-nil [] e = refl
  no_reason-nil (r ∷ rs) e = absurd (cc e)

  eligible-some :
      (s : State py q f k c) (item_id : String) (item : HitlQueueItem py.Float)
      → eligible py q f k c graph_nodes reviewer s item_id ≡ some item
      → (get_item py q f k c s item_id ≡ some item)
        × (check_conflict_of_interest py graph_nodes item reviewer ≡ [])
  unfolding eligible
  eligible-some s item_id item e = elim (Option-cases (get_item py q f k c s item_id)) [
    | inl absent ↦ absurd (cc (rw (eligible, absent) at e))
    | inr (stored, found) ↦
        elim (Bool-cases (
          no_reason py q f k c graph_nodes
            (check_conflict_of_interest py graph_nodes stored reviewer))) [
              | inl clear ↦
                  let same : some stored ≡ some item = rw (eligible, found, clear) at e in
                  let eq : stored ≡ item = cc (same) in
                  (
                    cc (found, eq),
                    cc (
                      no_reason-nil _ clear,
                      ap (λ i. check_conflict_of_interest py graph_nodes i reviewer) eq,
                    ),
                  )
              | inr conflict ↦ absurd (cc (rw (eligible, found, conflict) at e))
            ]
  ]

  -- What the loop may answer.
  abbrev Answers :
      List String → ℕ → State py q f k c → State py q f k c × Option (Assignment py.Float) → Type 0
  Answers candidates i s r =
      ((a : Assignment py.Float) × (r.1 ≡ some a) × Assigned candidates s r.0 i a)
      ⊎ ((r ≡ (s, none)) × AllSkipped s i candidates)

  -- A candidate that is passed over.
  skip :
      (item_id : String) (candidates : List String) (i : ℕ) (s : State py q f k c)
      (r : State py q f k c × Option (Assignment py.Float))
      → Skipped s i item_id
      → Answers candidates (i + 1) s r
      → Answers (item_id ∷ candidates) i s r
  skip item_id candidates i s r why (inl (a, e, done)) = inl (
    a,
    e,
    record {
      turn = done.turn;
      before = item_id ∷ done.before;
      later = done.later;
      split = ap (λ xs. item_id ∷ xs) done.split;
      skipped = (why, done.skipped);
      item = done.item;
      stored = done.stored;
      no_conflict = done.no_conflict;
      to_reviewer = done.to_reviewer;
      claimed = done.claimed;
    },
  )
  skip item_id candidates i s r why (inr (e, all)) = inr (e, (why, all))

  refusal :
      (item_id : String) (i : ℕ) (s : State py q f k c)
      → (q.zscore item_id s.queue ≡ none)
        ⊎ (k.exists (lock_key c item_id) (times i).server_ms s.locks ≡ true)
      → Skipped s i item_id
  refusal item_id i s (inl absent) = not_queued absent
  refusal item_id i s (inr live) = locked live

  -- The candidate whose claim succeeds.
  chosen :
      (item_id : String) (candidates : List String) (i : ℕ) (s s' : State py q f k c)
      (score : py.Float) (item : HitlQueueItem py.Float)
      → eligible py q f k c graph_nodes reviewer s item_id ≡ some item
      → Claimed py q f k c item_id reviewer.reviewer_id (times i) s score s'
      → Assigned
          (item_id ∷ candidates)
          s
          s'
          i
          (assignment py q f k c item item_id reviewer.reviewer_id score)
  chosen item_id candidates i s s' score item found done =
      let (stored, no_conflict) = eligible-some s item_id item found in
      record {
        turn = i;
        before = [];
        later = candidates;
        split = refl;
        skipped = tt;
        item = item;
        stored = stored;
        no_conflict = no_conflict;
        to_reviewer = refl;
        claimed = done;
      }

  assign_loop-cases :
      (candidates : List String) (i : ℕ) (s : State py q f k c)
      → Answers candidates i s (assign_loop py q f k c graph_nodes reviewer times i candidates s)
  unfolding assign_loop
  assign_loop-cases [] i s = inr (refl, tt)
  assign_loop-cases (item_id ∷ candidates) i s =
      let rest = assign_loop-cases candidates (i + 1) s in
      elim (Option-cases (eligible py q f k c graph_nodes reviewer s item_id)) [
        | inl barred ↦
            rw (assign_loop, barred) (skip item_id candidates i s _ (not_eligible barred) rest)
        | inr (item, found) ↦
            elim (claim_item-cases py q f k c item_id reviewer.reviewer_id (times i) s) [
              | inl (score, claimed, done) ↦ inl (
                assignment py q f k c item item_id reviewer.reviewer_id score,
                rw (assign_loop, found, claim_for, claimed),
                rw (assign_loop, found, claim_for, claimed)
                    (chosen item_id candidates i s _ score item found done),
              )
              | inr (refused, why) ↦
                  rw (assign_loop, found, claim_for, refused, why.unchanged)
                    (skip item_id candidates i s _ (refusal item_id i s why.reason) rest)
            ]
      ]

  -- A reviewer who asks for work is given the first candidate that can be claimed: either there is an
  -- assignment, and then the candidates before it in the queue's order were passed over for a
  -- conflict, a missing item, a lock or having left the queue, the reviewer has no conflict of interest
  -- with the item, and the item moved from the queue to the assignments in flight under a lock; or
  -- there is none, and then nothing changed and every candidate scanned was passed over.
  pub assign_next_item-cases :
      (scan_limit : ℕ) (s : State py q f k c)
      → ((a : Assignment py.Float) × ((assign_next_item py q f k c graph_nodes reviewer scan_limit
              times s).1
            ≡ some a)
          × Assigned
              (q.zrevrange (scan_limit - 1 + 1) s.queue)
              s
              (assign_next_item py q f k c graph_nodes reviewer scan_limit times s).0
              0
              a)
        ⊎ ((assign_next_item py q f k c graph_nodes reviewer scan_limit times s ≡ (s, none))
            × AllSkipped s 0 (q.zrevrange (scan_limit - 1 + 1) s.queue))
  unfolding assign_next_item
  assign_next_item-cases scan_limit s =
      assign_loop-cases (q.zrevrange (scan_limit - 1 + 1) s.queue) 0 s
