-- ===== src/Windows/Tests.antt =====
-- Runs of the windows with a toy digest, and the theorems at concrete histories.
use Prim.Native.String.{String}
use omni_aegis.Prelude.{
  ℕ, ◌+◌, ◌*◌, ◌%◌, ◌≡◌, refl, List, [], ◌∷◌, Option, none, some, arith, Bool, true, map,
}
use omni_aegis.Merkle.{
  Bytes, Digests, hash, ok, DecisionLeaf, next_level, levels_from, build_merkle_batch,
  fetch_node_hash, proof_loop, fetch_proof_hashes,
}
use omni_aegis.Windows.{
  State, BatchStatus, DecisionRow, fetch_decision_with_batch, insert_decision_leaf,
}
use omni_aegis.Windows.Loop.{
  Config, Answers, Anchor, sent, failed, Event, recorded, cycled, restarted, anchor_pending_window,
  restore_window_cursor, apply_events,
}
use omni_aegis.Windows.Lookup.{get_merkle_proof}
use omni_aegis.Windows.Covered.{Sound}
use omni_aegis.Windows.Covered
use omni_aegis.Windows.Final
use omni_aegis.Windows.Proofs

abbrev mix : Bytes → ℕ
mix [] = 7
mix (b ∷ bs) = (31 * mix bs + b + 1) % 256

abbrev toy : Bytes → Bytes
toy b = mix b ∷ []

abbrev digests : Digests
digests = record { keccak256 = toy; sha256 = toy }

program : Unit {0}
unfolding hash next_level levels_from build_merkle_batch fetch_node_hash proof_loop
    fetch_proof_hashes insert_decision_leaf anchor_pending_window restore_window_cursor
    get_merkle_proof
program = tt

abbrev config : Config
config = record {
  anchor_interval_seconds = 600;
  hash_algorithm = "sha256";
  pending_manifest_prefix = "p";
}

abbrev by_id : String → String → Bool
by_id a b = true

abbrev leaf : String → ℕ → DecisionLeaf ℕ
leaf id t = record {
  decision_id = id;
  asset_hash = [];
  action = 0;
  confidence = 0;
  timestamp = t;
  canonical = [];
  leaf_hash = t ∷ [];
}

abbrev answers : ℕ → String → Anchor → Answers
answers now id anchor = record {
  now = now;
  created_at = now;
  batch_id = id;
  load_succeeds = true;
  persist_succeeds = true;
  anchor = anchor;
  mark_error = none;
  mark_failed_succeeds = true;
}

abbrev start : State ℕ
start = record { decisions = []; batches = []; nodes = []; cursor = 0 }

start-Sound : Sound start
start-Sound = record { coherent = tt; ends = tt; covered = λ id row e early. absurd (cc e) }

-- Two decisions are batched, and a third is recorded at the second of the window's end.
abbrev history : List (Event ℕ)
history =
    recorded (leaf "b" 5)
    ∷ recorded (leaf "a" 7)
    ∷ cycled (answers 10 "first" (failed "gas"))
    ∷ recorded (leaf "c" 10)
    ∷ []

abbrev after : State ℕ
after = apply_events digests config by_id history start

batch_ids : List (Option String)
batch_ids = map (λ row. row.batch_id) after.decisions

-- The late decision is in the table without a batch.
batch_ids_lem : batch_ids ≡ some "first" ∷ some "first" ∷ none ∷ []
unfolding batch_ids program
batch_ids_lem = refl

statuses : List BatchStatus
statuses = map (λ row. row.status) after.batches

statuses_lem : statuses ≡ BatchStatus.anchor_failed "gas" ∷ []
unfolding statuses program
statuses_lem = refl

abbrev timely_history : List (Event ℕ)
timely_history =
    recorded (leaf "b" 5)
    ∷ cycled (answers 10 "first" (sent "0x1"))
    ∷ recorded (leaf "a" 11)
    ∷ restarted 40
    ∷ cycled (answers 50 "second" (sent "0x2"))
    ∷ []

apply_events-Sound_example : Sound (apply_events digests config by_id timely_history start)
unfolding program
apply_events-Sound_example =
    Covered.apply_events-Sound digests config by_id timely_history start
      (omega arith, (tt, (omega arith, ((10, refl), (tt, tt))))) start-Sound

abbrev row_of : String → ℕ → Option String → Option ℕ → DecisionRow ℕ
row_of id t b i = record { leaf = leaf id t; batch_id = b; leaf_index = i }

abbrev more : List (Event ℕ)
more = recorded (leaf "d" 11) ∷ restarted 40 ∷ cycled (answers 50 "second" (sent "0x2")) ∷ []

apply_events-batched_example :
    fetch_decision_with_batch "a" (apply_events digests config by_id more after).decisions
    ≡ some (row_of "a" 7 (some "first") (some 1))
unfolding program
apply_events-batched_example =
    Final.apply_events-batched digests config by_id more after "a" "first"
      (row_of "a" 7 (some "first") (some 1)) (refl, (refl, (refl, tt))) refl refl

abbrev cycles : List (Event ℕ)
cycles =
    cycled (answers 50 "second" (sent "0x2"))
    ∷ recorded (leaf "d" 51)
    ∷ cycled (answers 60 "third" (sent "0x3"))
    ∷ []

apply_events-late_example :
    fetch_decision_with_batch "c" (apply_events digests config by_id cycles after).decisions
    ≡ some (row_of "c" 10 none none)
unfolding program
apply_events-late_example =
    Final.apply_events-late digests config by_id cycles after "c" (row_of "c" 10 none none)
      (tt, (tt, (tt, tt))) (refl, (refl, (refl, tt))) refl (omega arith)

abbrev recorded_two : State ℕ
recorded_two =
    apply_events digests config by_id
      (recorded (leaf "b" 5) ∷ recorded (leaf "a" 7) ∷ recorded (leaf "c" 7) ∷ []) start

supported : (x : Bytes) → hash digests config.hash_algorithm x ≡ ok (toy x)
unfolding program
supported x = refl

cycle-Verifies_example :
    Proofs.Verifies toy "a"
      (row_of "a" 7 none none)
      (anchor_pending_window digests config by_id (answers 10 "first" (sent "0x1")) recorded_two).0
unfolding program
cycle-Verifies_example =
    Proofs.cycle-Verifies digests config by_id toy supported (answers 10 "first" (sent "0x1"))
      recorded_two (refl, (refl, (refl, tt))) (λ l p. refl) refl "a" (row_of "a" 7 none none) refl
      refl refl refl
