-- ===== src/Hitl.antt =====
-- The queue of human review (decision_layer/services/hitl_monitor.py).
-- An item is queued with a priority, claimed by a reviewer under a lock that expires, and put back
-- when its assignment has expired. The Redis structures are parameters with the laws of
-- Redis.antt; an item's hash is kept as the item that is read back and its last score, without the
-- metadata. Floats are a parameter.
pub mod Claim
pub mod Trace
pub mod Exclusive
pub mod Assign
mod Tests
use Prim.Native.String.{String, ◌++◌ as append_text}
use text.Mathlib.Text.{◌==◌ as str_eq}
use mathlib.Core.Option
use omni_aegis.Prelude.Dict.{Dict, lookup, insert}
use omni_aegis.Prelude.{
  ℕ, zero, suc, ◌+◌, ◌-◌, ◌*◌, ◌≤◌, ◌≡◌, Bool, true, false, not, ◌&&◌, ◌||◌, List, [], ◌∷◌, ◌++◌,
  map, Option, none, some, if◌then◌else◌, ltb, leb, ◌==◌,
}
use omni_aegis.Redis.{SortedSets, ExpiringKeys, is_some}

-- `HITLMonitorConfig`, as far as the queue uses it.
pub record HitlMonitorConfig : Type 0 where
  pub lock_prefix : String
  pub lock_ttl_seconds : ℕ

-- `HITLQueueItem`.
pub record HitlQueueItem (Float : Type 0) : Type 0 where
  pub item_id : String
  pub asset_id : String
  pub confidence : Float
  pub content_type : String
  pub submitter_history_score : Float
  pub submitter_id : Option String
  pub submitted_at_ms : ℕ
  pub rights_node_ids : List String
  pub creator_org_id : Option String
  pub licensee_org_id : Option String

-- `ReviewerProfile`.
pub record ReviewerProfile : Type 0 where
  pub reviewer_id : String
  pub organization_ids : List String
  pub restricted_rights_node_ids : List String
  pub blocked_submitter_ids : List String

-- The reasons of `COICheckResult`; the check allows the reviewer if there is none.
pub data Reason : Type 0 where
  blocked_submitter : Reason
  shared_organization : Reason
  restricted_rights_node : Reason

-- Python's floats and `str.strip`, `str.lower`. `decimal n d` is the literal n / d, `ratio n d` the
-- quotient of two integers, `round6` is `round(x, 6)`, and `round8` is what reading f"{x:.8f}" gives.
pub record Python : Type 1 where
  pub Float : Type 0
  pub decimal : ℕ → ℕ → Float
  pub ratio : ℕ → ℕ → Float
  pub fmin : Float → Float → Float
  pub fmax : Float → Float → Float
  pub fadd : Float → Float → Float
  pub fsub : Float → Float → Float
  pub fmul : Float → Float → Float
  pub round6 : Float → Float
  pub round8 : Float → Float
  pub strip : String → String
  pub lower : String → String

abbrev pub is_empty : String → Bool
is_empty s = str_eq s ""

abbrev pub contains : String → List String → Bool
contains k [] = false
contains k (x ∷ xs) = str_eq x k || contains k xs

-- `a.intersection(b)` is not empty.
abbrev pub overlaps : List String → List String → Bool
overlaps [] ys = false
overlaps (x ∷ xs) ys = contains x ys || overlaps xs ys

-- f"{lock_prefix}:{item_id}".
abbrev pub lock_key : HitlMonitorConfig → String → String
lock_key c item_id = append_text c.lock_prefix (append_text ":" item_id)

abbrev pub ttl_ms : HitlMonitorConfig → ℕ
ttl_ms c = c.lock_ttl_seconds * 1000

-- The JSON object that the lock holds.
pub record Lock (Float : Type 0) : Type 0 where
  pub reviewer : String
  pub assigned_at_ms : ℕ
  pub expires_at_ms : ℕ
  pub priority_score : Float

-- The answer of `assign_next_item`, without its constant fields.
pub record Assignment (Float : Type 0) : Type 0 where
  pub item_id : String
  pub asset_id : String
  pub priority_score : Float
  pub assigned_to : String

module _ (py : Python) where
  open py use {Float, decimal, ratio, fmin, fmax, fadd, fsub, fmul, round6, strip, lower}

  -- `{s.strip().lower() for s in xs if s and s.strip()}`.
  abbrev pub normalized : List String → List String
  normalized [] = []
  normalized (s ∷ ss) =
      if is_empty (strip s) then normalized ss else lower (strip s) ∷ normalized ss

  -- A value that may be missing, left out if it is falsy.
  abbrev pub to_list : Option String → List String
  to_list none = []
  to_list (some s) = if is_empty s then [] else s ∷ []

  -- `_content_type_factor`.
  unfoldable pub content_type_factor : String → Float
  content_type_factor content_type =
      let key = lower (strip (if is_empty content_type then "unknown" else content_type)) in
      if str_eq key "video"
      then decimal 10 10
      else if str_eq key "image"
      then decimal 8 10
      else if str_eq key "audio"
      then decimal 7 10
      else if str_eq key "document"
      then decimal 6 10
      else if str_eq key "text"
      then decimal 5 10
      else decimal 4 10

  -- `compute_composite_priority` at a clock value.
  unfoldable pub compute_composite_priority : HitlQueueItem Float → ℕ → Float
  unfolding content_type_factor
  compute_composite_priority item now_ms =
      let confidence_value = fmin (fmax item.confidence (decimal 0 1)) (decimal 1 1) in
      let confidence_component = fsub (decimal 1 1) confidence_value in
      let content_component = content_type_factor item.content_type in
      let submitter_component =
        fmin (fmax item.submitter_history_score (decimal 0 1)) (decimal 1 1) in
      let max_age_ms = 24 * 60 * 60 * 1000 in
      let time_component = fmin (ratio (now_ms - item.submitted_at_ms) max_age_ms) (decimal 1 1) in
      let raw_score =
        fadd
          (fadd
            (fadd (fmul (decimal 40 100) confidence_component)
              (fmul (decimal 20 100) content_component))
            (fmul (decimal 25 100) submitter_component))
          (fmul (decimal 15 100) time_component) in
      round6 (fmul raw_score (decimal 1000 1))

  -- `check_conflict_of_interest`; `graph_nodes` is what `_collect_graph_nodes_for_item` returns.
  unfoldable pub check_conflict_of_interest :
      (HitlQueueItem Float → List String) → HitlQueueItem Float → ReviewerProfile → List Reason
  check_conflict_of_interest graph_nodes item reviewer =
      let reviewer_orgs = normalized reviewer.organization_ids in
      let reviewer_rights_nodes = normalized reviewer.restricted_rights_node_ids in
      let blocked_submitters = normalized reviewer.blocked_submitter_ids in
      let submitter = to_list item.submitter_id in
      let item_orgs = normalized (to_list item.creator_org_id ++ to_list item.licensee_org_id) in
      let item_rights_nodes = normalized item.rights_node_ids in
      (if overlaps (map (λ s. lower (strip s)) submitter) blocked_submitters
        then blocked_submitter ∷ []
        else [])
      ++ ((if overlaps reviewer_orgs item_orgs then shared_organization ∷ [] else [])
          ++ (if overlaps reviewer_rights_nodes (item_rights_nodes ++ graph_nodes item)
              then restricted_rights_node ∷ []
              else []))

-- A stored item with its hash field `last_priority_score`.
pub record Stored (Float : Type 0) : Type 0 where
  pub item : HitlQueueItem Float
  pub last_priority_score : Float

-- `_serialize_item`, as `get_item` and `_read_last_priority_score` read it back.
abbrev pub not_empty : Option String → Option String
not_empty none = none
not_empty (some s) = if is_empty s then none else some s

unfoldable pub serialize_item : (py : Python) → HitlQueueItem py.Float → py.Float → Stored py.Float
serialize_item py item score = record {
  item = record item {
    confidence = py.round8 item.confidence;
    submitter_history_score = py.round8 item.submitter_history_score;
    submitter_id = not_empty item.submitter_id;
    creator_org_id = not_empty item.creator_org_id;
    licensee_org_id = not_empty item.licensee_org_id;
  };
  last_priority_score = py.round8 score;
}

-- A command's time on the client and on the Redis server.
pub record Times : Type 0 where
  pub client_ms : ℕ
  pub server_ms : ℕ

-- Where a worker is in its round for an item: before EXISTS, after it found no lock, or with the
-- score that it read.
pub data Reclaim (Float : Type 0) : Type 0 where
  idle : Reclaim Float
  unlocked : String → Reclaim Float
  scored : String → Float → Reclaim Float

module _ (py : Python) (q : SortedSets py.Float) (f : SortedSets ℕ)
    (k : ExpiringKeys (Lock py.Float)) (c : HitlMonitorConfig) where
  open py use {Float, decimal}

  pub record State : Type 0 where
    pub queue : q.Members
    pub inflight : f.Members
    pub locks : k.Keys
    pub items : Dict (Stored Float)

  -- `get_item`.
  abbrev pub get_item : State → String → Option (HitlQueueItem Float)
  get_item s item_id = Option.map (λ stored. stored.item) (lookup item_id s.items)

  -- `_read_last_priority_score`.
  abbrev pub read_last_priority_score : State → String → Float
  read_last_priority_score s item_id =
      Option.get_or (Option.map (λ stored. stored.last_priority_score) (lookup item_id s.items))
        (decimal 0 1)

  -- `enqueue_item`, with the priority that it returns.
  unfoldable pub enqueue_item : HitlQueueItem Float → ℕ → State → State × Float
  enqueue_item item now_ms s =
      let score = compute_composite_priority py item now_ms in
      (
        record s {
          items = insert item.item_id (serialize_item py item score) s.items;
          queue = q.zadd item.item_id score s.queue;
        },
        score,
      )

  -- The script `_CLAIM_ITEM_LUA`, run atomically by `_claim_item_atomically`.
  unfoldable pub claim_item : String → String → Times → State → State × Option Float
  claim_item item_id reviewer_id t s = elim (q.zscore item_id s.queue) [
    | none ↦ (s, none)
    | some score ↦ if k.exists (lock_key c item_id) t.server_ms s.locks then (s, none) else (
      record s {
        queue = q.zrem item_id s.queue;
        inflight = f.zadd item_id (t.client_ms + ttl_ms c) s.inflight;
        locks =
            k.set_px (lock_key c item_id)
              (record {
                reviewer = reviewer_id;
                assigned_at_ms = t.client_ms;
                expires_at_ms = t.client_ms + ttl_ms c;
                priority_score = score;
              })
              (ttl_ms c) t.server_ms s.locks;
      },
      some score,
    )
  ]

  -- One round of `recompute_all_priorities`, and its loop with the number of updates.
  unfoldable pub rescore_item : String → ℕ → State → State × ℕ
  rescore_item item_id now_ms s = elim (get_item s item_id) [
    | none ↦ (s, 0)
    | some item ↦
        let score = compute_composite_priority py item now_ms in
        (
          record s {
            items =
                insert item_id (record { item = item; last_priority_score = py.round8 score })
                  s.items;
            queue = q.zadd item_id score s.queue;
          },
          1,
        )
  ]

  unfoldable pub recompute_loop : List String → ℕ → State → State × ℕ
  recompute_loop [] now_ms s = (s, 0)
  recompute_loop (item_id ∷ item_ids) now_ms s =
      let (s', updated) = rescore_item item_id now_ms s in
      let (s'', more) = recompute_loop item_ids now_ms s' in (s'', updated + more)

  unfoldable pub recompute_all_priorities : ℕ → State → State × ℕ
  unfolding recompute_loop
  recompute_all_priorities now_ms s = recompute_loop (q.zrange s.queue) now_ms s

  -- The transaction that puts an item back.
  abbrev pub move_back : String → Float → State → State
  move_back item_id score s = record s {
    inflight = f.zrem item_id s.inflight;
    queue = q.zadd item_id score s.queue;
  }

  -- The next call of a worker in a round for an item: EXISTS, HGET and MULTI are sent one by one.
  unfoldable pub reclaim_step : String → ℕ → Reclaim Float → State → State × Reclaim Float
  reclaim_step item_id server_ms idle s =
      if k.exists (lock_key c item_id) server_ms s.locks then (s, idle) else (s, unlocked item_id)
  reclaim_step item_id server_ms (unlocked found_id) s =
      (s, scored found_id (read_last_priority_score s found_id))
  reclaim_step item_id server_ms (scored found_id score) s = (move_back found_id score s, idle)

  -- A round of `reclaim_expired_assignments` that no other client's call interrupts, and its loop;
  -- `server_ms` is the server's clock.
  unfoldable pub reclaim_item : String → ℕ → State → State × ℕ
  unfolding reclaim_step
  reclaim_item item_id server_ms s =
      let (s', found) = reclaim_step item_id server_ms idle s in
      let (s'', read) = reclaim_step item_id server_ms found s' in
      elim found [
        | idle ↦ (s', 0)
        | unlocked _ ↦ ((reclaim_step item_id server_ms read s'').0, 1)
        | scored _ _ ↦ (s', 0)
      ]

  unfoldable pub reclaim_loop : List String → ℕ → State → State × ℕ
  reclaim_loop [] server_ms s = (s, 0)
  reclaim_loop (item_id ∷ item_ids) server_ms s =
      let (s', reclaimed) = reclaim_item item_id server_ms s in
      let (s'', more) = reclaim_loop item_ids server_ms s' in (s'', reclaimed + more)

  unfoldable pub reclaim_expired_assignments : Times → State → State × ℕ
  unfolding reclaim_loop
  reclaim_expired_assignments t s =
      reclaim_loop (f.zrangebyscore (λ v. leb v t.client_ms) s.inflight) t.server_ms s

  -- The body of `run_maintenance_loop`.
  unfoldable pub maintenance : Times → State → State
  unfolding recompute_all_priorities reclaim_expired_assignments
  maintenance t s = (reclaim_expired_assignments t (recompute_all_priorities t.client_ms s).0).0

  abbrev pub assignment : HitlQueueItem Float → String → String → Float → Assignment Float
  assignment item item_id reviewer_id score = record {
    item_id = item_id;
    asset_id = item.asset_id;
    priority_score = score;
    assigned_to = reviewer_id;
  }

  -- A claim after the checks of its caller.
  unfoldable pub claim_for :
      HitlQueueItem Float → String → String → Times → State → State × Option (Assignment Float)
  unfolding claim_item
  claim_for item item_id reviewer_id t s =
      let (s', claim) = claim_item item_id reviewer_id t s in
      (s', Option.map (assignment item item_id reviewer_id) claim)

  -- `pop_highest_priority_item`.
  unfoldable pub pop_highest_priority_item :
      String → Times → State → State × Option (Assignment Float)
  unfolding claim_for
  pop_highest_priority_item reviewer_id t s = elim (q.zrevrange 1 s.queue) [
    | [] ↦ (s, none)
    | item_id ∷ _ ↦ elim (get_item s item_id) [
      | none ↦ (s, none)
      | some item ↦ claim_for item item_id reviewer_id t s
    ]
  ]

  module _ (graph_nodes : HitlQueueItem Float → List String) where
    abbrev pub no_reason : List Reason → Bool
    no_reason [] = true
    no_reason (r ∷ rs) = false

    -- A candidate of `assign_next_item`: its item, if it is there and the reviewer may have it.
    unfoldable pub eligible : ReviewerProfile → State → String → Option (HitlQueueItem Float)
    eligible reviewer s item_id = elim (get_item s item_id) [
      | none ↦ none
      | some item ↦
          if no_reason (check_conflict_of_interest py graph_nodes item reviewer)
          then some item
          else none
    ]

    -- The loop of `assign_next_item`; `times i` are the clocks at the i-th candidate.
    unfoldable pub assign_loop :
        ReviewerProfile → (ℕ → Times) → ℕ → List String → State → State × Option (Assignment Float)
    unfolding eligible claim_for
    assign_loop reviewer times i [] s = (s, none)
    assign_loop reviewer times i (item_id ∷ candidates) s = elim (eligible reviewer s item_id) [
      | none ↦ assign_loop reviewer times (i + 1) candidates s
      | some item ↦
          let (s', claimed) = claim_for item item_id reviewer.reviewer_id (times i) s in
          elim claimed [
            | none ↦ assign_loop reviewer times (i + 1) candidates s'
            | some a ↦ (s', some a)
          ]
    ]

    -- `assign_next_item`.
    unfoldable pub assign_next_item :
        ReviewerProfile → ℕ → (ℕ → Times) → State → State × Option (Assignment Float)
    unfolding assign_loop
    assign_next_item reviewer scan_limit times s =
        assign_loop reviewer times 0 (q.zrevrange (scan_limit - 1 + 1) s.queue) s
