-- ===== src/Audit.antt =====
-- The retry worker of the audit service (decision_layer/services/audit_service.py).
-- The pending queue is a dict and the file the list of its values, as JSON reads it back; the
-- decision and its evidence package are opaque. IPFS, the chain, the clock and the disk answer
-- through the `Answers` of an iteration. Floats are a parameter with the laws of their order.
pub mod Worker
pub mod Due
pub mod Kept
pub mod Settled
pub mod Reached
pub mod Overflow
mod Tests
use Prim.Native.String.{String}
use text.Mathlib.Text.{◌==◌ as str_eq}
use omni_aegis.Prelude.Dict.{Dict, lookup, insert, erase}
use omni_aegis.Prelude.{
  ℕ, zero, suc, ◌+◌, ◌-◌, ◌≤◌, ◌≡◌, Bool, true, false, not, ◌||◌, ◌&&◌, List, [], ◌∷◌, ◌++◌, map,
  Option, none, some, if◌then◌else◌, ltb,
}
use omni_aegis.Redis.{is_some}

-- Python floats that are no NaN. `times_pow2 x k` is `x * 2 ** k`, which raises OverflowError (none)
-- when the integer is too large for a float.
pub record Floats : Type 1 where
  pub Float : Type 0
  pub le : Float → Float → Bool
  pub add : Float → Float → Float
  pub times_pow2 : Float → ℕ → Option Float
  pub le-total : (a b : Float) → (le a b || le b a) ≡ true
  pub le-trans : (a b c : Float) → le a b ≡ true → le b c ≡ true → le a c ≡ true
  pub times_pow2-overflow : (x : Float) (k : ℕ) → 1024 ≤ k → times_pow2 x k ≡ none

pub data PendingStage : Type 0 where
  ipfs : PendingStage
  tx : PendingStage

-- `last_error`, by where it comes from.
pub data AuditError : Type 0 where
  gas_too_high : AuditError
  gas_unknown : AuditError
  missing_evidence_cid : AuditError
  service_failed : String → AuditError
  disk_failed : AuditError

module _ (fl : Floats) (D E : Type 0) where
  open fl use {Float, le, add, times_pow2}

  -- `a < b` on floats that are no NaN.
  abbrev pub lt : Float → Float → Bool
  lt a b = not (le b a)

  -- `min(a, b)`.
  abbrev pub fmin : Float → Float → Float
  fmin a b = if lt b a then b else a

  pub record AuditServiceConfig : Type 0 where
    pub max_allowed_gwei : Float
    pub gas_poll_interval_seconds : Float
    pub retry_base_seconds : Float
    pub retry_cap_seconds : Float

  pub record PendingAudit : Type 0 where
    pub queue_id : String
    pub decision : D
    pub evidence_package : E
    pub stage : PendingStage
    pub attempts : ℕ
    pub next_retry_unix : Float
    pub evidence_cid : Option String
    pub tx_hash : Option String
    pub last_error : Option AuditError

  -- The worker between two iterations, while it awaits an answer about an item, or ended by an
  -- exception.
  pub data RetryWorker : Type 0 where
    idle : RetryWorker
    busy : PendingAudit → RetryWorker
    dead : RetryWorker

  -- `sent` are the items whose transaction the chain has accepted, the last first.
  pub record State : Type 0 where
    pub pending : Dict PendingAudit
    pub file : List PendingAudit
    pub sent : List PendingAudit
    pub worker : RetryWorker

  -- What the world answers during an iteration: the uploads and submissions return or raise, the
  -- two writes of the queue succeed or raise, and the clock.
  pub record Answers : Type 0 where
    pub upload : Option String
    pub submit : Option String
    pub failure : String
    pub standard_gwei : Option Float
    pub write : Bool
    pub write_again : Bool
    pub time : Float
    pub time_again : Float

module _ {fl : Floats} {D E : Type 0} where
  open fl use {Float, le}

  abbrev pub values : Dict (PendingAudit fl D E) → List (PendingAudit fl D E)
  values d = map (λ entry. entry.1) d

  -- `_persist_pending_queue_unlocked`: a write that fails leaves the old file.
  unfoldable pub persist_pending_queue : Bool → State fl D E → State fl D E
  persist_pending_queue written s = if written then record s { file = values s.pending } else s

  -- `_upsert_item` and `_remove_item`, up to the write of the queue.
  unfoldable pub upsert_item : PendingAudit fl D E → Bool → State fl D E → State fl D E
  unfolding persist_pending_queue
  upsert_item item written s =
      persist_pending_queue written (record s { pending = insert item.queue_id item s.pending })

  unfoldable pub remove_item : String → Bool → State fl D E → State fl D E
  unfolding persist_pending_queue
  remove_item queue_id written s =
      persist_pending_queue written (record s { pending = erase queue_id s.pending })

  abbrev pub new_audit : String → D → E → Float → PendingAudit fl D E
  new_audit queue_id decision evidence_package now = record {
    queue_id = queue_id;
    decision = decision;
    evidence_package = evidence_package;
    stage = ipfs;
    attempts = 0;
    next_retry_unix = now;
    evidence_cid = none;
    tx_hash = none;
    last_error = none;
  }

  -- `writeAuditRecord`, with the answer whether it returns or raises.
  unfoldable pub write_audit_record :
      String → D → E → Float → Bool → State fl D E → State fl D E × Bool
  unfolding upsert_item
  write_audit_record queue_id decision evidence_package now written s =
      (upsert_item (new_audit queue_id decision evidence_package now) written s, written)

  -- The order of the sort key (next_retry_unix, attempts).
  abbrev pub before : PendingAudit fl D E → PendingAudit fl D E → Bool
  before a b =
      lt fl D E a.next_retry_unix b.next_retry_unix
      || ((le a.next_retry_unix b.next_retry_unix && le b.next_retry_unix a.next_retry_unix)
          && ltb a.attempts b.attempts)

  -- `due.sort(key=...)`, a stable sort.
  abbrev pub insert_sorted :
      PendingAudit fl D E → List (PendingAudit fl D E) → List (PendingAudit fl D E)
  insert_sorted item [] = item ∷ []
  insert_sorted item (other ∷ items) =
      let rest = insert_sorted item items in
      if before other item then other ∷ rest else item ∷ other ∷ items

  abbrev pub sort : List (PendingAudit fl D E) → List (PendingAudit fl D E)
  sort [] = []
  sort (item ∷ items) = insert_sorted item (sort items)

  abbrev pub due_items : Float → List (PendingAudit fl D E) → List (PendingAudit fl D E)
  due_items now [] = []
  due_items now (item ∷ items) =
      let rest = due_items now items in if le item.next_retry_unix now then item ∷ rest else rest

  abbrev pub first : List (PendingAudit fl D E) → Option (PendingAudit fl D E)
  first [] = none
  first (item ∷ items) = some item

  -- `_get_next_due_item`.
  unfoldable pub get_next_due_item : Float → State fl D E → Option (PendingAudit fl D E)
  get_next_due_item now s = first (sort (due_items now (values s.pending)))

  -- The worker takes the next due item.
  unfoldable pub take_item : Float → State fl D E → State fl D E
  unfolding get_next_due_item
  take_item now s = elim (get_next_due_item now s) [
    | none ↦ s
    | some item ↦ record s { worker = busy item }
  ]

  -- `_load_pending_queue`, from the entries of the file.
  abbrev pub load_entries :
      List (PendingAudit fl D E) → Dict (PendingAudit fl D E) → Dict (PendingAudit fl D E)
  load_entries [] d = d
  load_entries (item ∷ items) d = load_entries items (insert item.queue_id item d)

  abbrev pub load_pending_queue : List (PendingAudit fl D E) → Dict (PendingAudit fl D E)
  load_pending_queue entries = load_entries entries []
