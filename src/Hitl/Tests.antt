-- ===== src/Hitl/Tests.antt =====
-- The queue on sorted sets and locks kept in lists, with runs and the theorems at concrete inputs.
use Prim.Native.String.{String}
use mathlib.Core.Option
use text.Mathlib.Text.{◌==◌ as str_eq}
use omni_aegis.Prelude.{
  ℕ, ◌+◌, ◌-◌, ◌*◌, ◌/◌, ◌≡◌, refl, Bool, true, false, ◌⊎◌, inl, inr, List, [], ◌∷◌, Option, none,
  some, arith, ltb, All, if◌then◌else◌, Bool-cases, min, max, take, All-map, All-take,
}
use omni_aegis.Prelude.Dict.{Dict, str_eq_refl, lookup, insert, erase, lookup-insert, lookup-erase}
use omni_aegis.Redis.{SortedSets, ExpiringKeys, is_some}
use omni_aegis.Hitl.{
  HitlMonitorConfig, HitlQueueItem, ReviewerProfile, Python, Lock, Assignment, State, Times,
  claim_item, enqueue_item, assign_next_item, eligible, reclaim_item, reclaim_step, idle,
  rescore_item, check_conflict_of_interest, compute_composite_priority, claim_for, assign_loop,
  content_type_factor, serialize_item,
}
use omni_aegis.Hitl.Trace.{
  Command, claim, rescore, reclaim, World, apply, run, Tracked, enqueue_item-Tracked,
}
use omni_aegis.Hitl.Exclusive.{claim-exclusive}
use omni_aegis.Hitl.Assign.{Assigned, AllSkipped, assign_next_item-cases}

module _ {V : Type 0} where
  abbrev pick : (V → Bool) → Dict V → List String
  pick test [] = []
  pick test ((k, v) ∷ d) = let rest = pick test d in if test v then k ∷ rest else rest

  still :
      (k : String) (v : V) (d : Dict V) (m : String)
      → is_some (lookup m d) ≡ true
      → is_some (lookup m ((k, v) ∷ d)) ≡ true
  still k v d m h = ground (arith, h)

  pick-present :
      (test : V → Bool) (d : Dict V) → All (λ m. is_some (lookup m d) ≡ true) (pick test d)
  pick-present test [] = tt
  pick-present test ((k, v) ∷ d) =
      let rest = All-map (still k v d) (pick test d) (pick-present test d) in
      elim (Bool-cases (test v)) [
        | inl kept ↦ rw (pick, kept) (rw (str_eq_refl k), rest)
        | inr dropped ↦ rw (pick, dropped) rest
      ]

abbrev sets : (Score : Type 0) → SortedSets Score
sets Score = record {
  Members = Dict Score;
  zscore = lookup;
  zadd = insert;
  zrem = erase;
  zrange = pick (λ v. true);
  zrevrange = λ n s. take n (pick (λ v. true) s);
  zrangebyscore = pick;
  zscore-zadd = λ m n v s. lookup-insert m n v s;
  zscore-zrem = λ m n s. lookup-erase m n s;
  zrange-members = pick-present (λ v. true);
  zrevrange-members = λ n s. All-take _ n _ (pick-present (λ v. true) s);
  zrangebyscore-members = pick-present;
}

-- A key is there while the entry set last has not expired.
abbrev live : {Value : Type 0} → String → ℕ → List (String × (ℕ × Value)) → Bool
live j now [] = false
live j now ((k, (expiry, v)) ∷ s) = if str_eq k j then ltb now expiry else live j now s

abbrev expiring : (Value : Type 0) → ExpiringKeys Value
expiring Value = record {
  Keys = List (String × (ℕ × Value));
  set_px = λ key v ttl now s. (key, (now + ttl, v)) ∷ s;
  exists = live;
  exists-set_px = λ k j v ttl now now' s. refl;
}

-- Thousandths stand for the floats, and names are already stripped and in lower case.
abbrev thousandths : Python
thousandths = record {
  Float = ℕ;
  decimal = λ n d. n * 1000 / d;
  ratio = λ n d. n * 1000 / d;
  fmin = min;
  fmax = max;
  fadd = λ a b. a + b;
  fsub = λ a b. a - b;
  fmul = λ a b. a * b / 1000;
  round6 = λ a. a;
  round8 = λ a. a;
  strip = λ s. s;
  lower = λ s. s;
}

abbrev half_hour : HitlMonitorConfig
half_hour = record { lock_prefix = "lock"; lock_ttl_seconds = 1800 }

abbrev video : String → Option String → HitlQueueItem ℕ
video name org = record {
  item_id = name;
  asset_id = name;
  confidence = 250;
  content_type = "video";
  submitter_history_score = 500;
  submitter_id = none;
  submitted_at_ms = 0;
  rights_node_ids = [];
  creator_org_id = org;
  licensee_org_id = none;
}

abbrev member_of : String → ReviewerProfile
member_of org = record {
  reviewer_id = "ann";
  organization_ids = org ∷ [];
  restricted_rights_node_ids = [];
  blocked_submitter_ids = [];
}

abbrev Service : Type 0
Service = State thousandths (sets ℕ) (sets ℕ) (expiring (Lock ℕ)) half_hour

abbrev nothing_yet : Service
nothing_yet = record { queue = []; inflight = []; locks = []; items = [] }

abbrev enqueued : HitlQueueItem ℕ → Service → Service
enqueued item s =
    (enqueue_item thousandths (sets ℕ) (sets ℕ) (expiring (Lock ℕ)) half_hour item 43200000 s).0

abbrev two_videos : Service
two_videos = enqueued (video "b" (some "label")) (enqueued (video "a" (some "studio")) nothing_yet)

abbrev both : ℕ → ℕ → Times
both client server = record { client_ms = client; server_ms = server }

abbrev claimed : String → String → Times → Service → Service × Option ℕ
claimed = claim_item thousandths (sets ℕ) (sets ℕ) (expiring (Lock ℕ)) half_hour

abbrev reclaimed : String → ℕ → Service → Service × ℕ
reclaimed = reclaim_item thousandths (sets ℕ) (sets ℕ) (expiring (Lock ℕ)) half_hour

abbrev Clients : Type 0
Clients = World thousandths (sets ℕ) (sets ℕ) (expiring (Lock ℕ)) half_hour

abbrev interleaved : List (Command ℕ) → Clients → Clients
interleaved = run thousandths (sets ℕ) (sets ℕ) (expiring (Lock ℕ)) half_hour

abbrev world : Service → Clients
world s = record { state = s; workers = λ i. idle }

abbrev assigned : Service × Option (Assignment ℕ)
assigned =
    assign_next_item thousandths (sets ℕ) (sets ℕ) (expiring (Lock ℕ)) half_hour (λ item. [])
      (member_of "studio") 50 (λ i. both 5 7) two_videos

program : Unit {0}
unfolding eligible claim_for rescore_item assign_loop content_type_factor serialize_item
    enqueue_item claim_item apply run reclaim_step assign_next_item reclaim_item
    compute_composite_priority check_conflict_of_interest
program = tt

-- 0.4 * 0.75 + 0.2 * 1 + 0.25 * 0.5 + 0.15 * 0.5 is 0.7, and the priority is 700.
priority : compute_composite_priority thousandths (video "a" none) 43200000 ≡ 700000
unfolding program
priority = refl

claim_a : (claimed "a" "ann" (both 5 7) two_videos).1 ≡ some 700000
unfolding program
claim_a = refl

-- The reviewer of the studio is not given its own video.
ann_gets_b : Option.map (λ a. a.item_id) assigned.1 ≡ some "b"
unfolding program
ann_gets_b = refl

-- A priority update that was under way when the item was claimed puts it back in the queue, while
-- it is in flight.
queued_in_flight :
    is_some (
      lookup "a"
        (interleaved
          (rescore "a" 60 ∷ [])
          (world (claimed "a" "ann" (both 5 7) two_videos).0)).state.queue)
    ≡ true
unfolding program
queued_in_flight = refl

-- A worker that found no lock before the item was claimed puts it back under the lock.
reclaimed_under_lock :
    is_some (
      lookup "a"
        (interleaved
          (reclaim 0 "a" 6 ∷ claim "a" "ann" (both 5 7) ∷ reclaim 0 "a" 8 ∷ reclaim 0 "a" 9 ∷ [])
          (world two_videos)).state.inflight)
    ≡ false
unfolding program
reclaimed_under_lock = refl

reclaims_expired : (reclaimed "a" 1800008 (claimed "a" "ann" (both 5 7) two_videos).0).1 ≡ 1
unfolding program
reclaims_expired = refl

abbrev calls : List (Command ℕ)
calls = rescore "a" 60 ∷ reclaim 0 "a" 30 ∷ claim "a" "bob" (both 50 40) ∷ []

claim-exclusive_example :
    ((claimed "a" "bob"
        (both 100 90)
        (interleaved calls (world (claimed "a" "ann" (both 5 7) two_videos).0)).state).1
      ≡ none)
    × (lookup "a"
          (interleaved calls (world (claimed "a" "ann" (both 5 7) two_videos).0)).state.inflight
        ≡ some 1800005)
claim-exclusive_example =
    claim-exclusive thousandths (sets ℕ) (sets ℕ) (expiring (Lock ℕ)) half_hour "a" "ann" "bob"
      (both 5 7) (both 100 90) 700000 calls (world two_videos) claim_a (λ i. tt)
      (tt, (omega arith, (omega arith, tt))) (omega arith)

enqueue_item-Tracked_example :
    Tracked thousandths
      (sets ℕ)
      (sets ℕ)
      (expiring (Lock ℕ))
      half_hour
      "c"
      (interleaved
        (claim "c" "ann" (both 5 7) ∷ reclaim 0 "c" 2000000 ∷ [])
        (world (enqueued (video "c" none) two_videos))).state
unfolding apply
enqueue_item-Tracked_example =
    enqueue_item-Tracked thousandths (sets ℕ) (sets ℕ) (expiring (Lock ℕ)) half_hour
      (video "c" none) 43200000 (claim "c" "ann" (both 5 7) ∷ reclaim 0 "c" 2000000 ∷ [])
      (world two_videos)

assign_next_item-cases_example :
    ((a : Assignment ℕ) × (assigned.1 ≡ some a)
      × Assigned thousandths
          (sets ℕ)
          (sets ℕ)
          (expiring (Lock ℕ))
          half_hour
          (λ item. [])
          (member_of "studio")
          (λ i. both 5 7)
          (take 50 ("a" ∷ "b" ∷ []))
          two_videos
          assigned.0
          0
          a)
    ⊎ ((assigned ≡ (two_videos, none))
        × AllSkipped thousandths
            (sets ℕ)
            (sets ℕ)
            (expiring (Lock ℕ))
            half_hour
            (λ item. [])
            (member_of "studio")
            (λ i. both 5 7)
            two_videos
            0
            (take 50 ("a" ∷ "b" ∷ [])))
unfolding program
assign_next_item-cases_example =
    assign_next_item-cases thousandths (sets ℕ) (sets ℕ) (expiring (Lock ℕ)) half_hour (λ item. [])
      (member_of "studio") (λ i. both 5 7) 50 two_videos
