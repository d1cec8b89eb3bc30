-- ===== src/Windows.antt =====
-- The windows in which decisions are batched (decision_layer/services/batch_coordinator.py: the
-- tables of `_init_schema`, `_insert_decision_leaf`, `_load_unbatched_leaves`, `_persist_batch`,
-- `_anchor_pending_window`, `_restore_window_cursor`, `_fetch_decision_with_batch`).
-- A table is the list of its rows in the order of their inserts. The collation of text in the
-- database is a parameter; what the clock, the database and the chain answer in a cycle is a value.
pub mod Loop
pub mod Lookup
pub mod Rows
pub mod Cycle
pub mod Events
pub mod Ends
pub mod Covered
pub mod Final
pub mod Nodes
pub mod Indices
pub mod Proofs
mod Tests
use Prim.Native.String.{String}
use text.Mathlib.Text.{◌==◌ as str_eq}
use mathlib.Core.Option
use omni_aegis.Prelude.{
  ℕ, ◌+◌, ◌-◌, Bool, false, not, ◌&&◌, ◌||◌, List, [], ◌∷◌, ◌++◌, map, Option, none, some,
  if◌then◌else◌, ltb, leb, ◌==◌, max,
}
use omni_aegis.Prelude.Dict.{Dict}
use omni_aegis.Redis.{is_some}
use omni_aegis.Merkle.{
  Bytes, Outcome, ok, raise, Digests, DecisionLeaf, MerkleBatch, MerkleNode, build_merkle_batch,
  node_rows, MerkleError, fetch_proof_hashes,
}

pub data BatchStatus : Type 0 where
  prepared : BatchStatus
  anchored : String → BatchStatus
  anchor_failed : String → BatchStatus

-- A row of `merkle_batches`.
pub record BatchRow : Type 0 where
  pub batch : MerkleBatch
  pub status : BatchStatus

-- A row of `merkle_decisions`.
pub record DecisionRow (Float : Type 0) : Type 0 where
  pub leaf : DecisionLeaf Float
  pub batch_id : Option String
  pub leaf_index : Option ℕ

-- The three tables and `_window_cursor_unix`. A row of `merkle_nodes` stands with its batch's id.
pub record State (Float : Type 0) : Type 0 where
  pub decisions : List (DecisionRow Float)
  pub batches : List BatchRow
  pub nodes : List (String × MerkleNode)
  pub cursor : ℕ

module _ {Float : Type 0} where
  -- `_fetch_decision_with_batch`.
  abbrev pub fetch_decision_with_batch :
      String → List (DecisionRow Float) → Option (DecisionRow Float)
  fetch_decision_with_batch decision_id [] = none
  fetch_decision_with_batch decision_id (row ∷ rows) =
      if str_eq row.leaf.decision_id decision_id
      then some row
      else fetch_decision_with_batch decision_id rows

  -- `_insert_decision_leaf`: ON CONFLICT (decision_id) DO NOTHING.
  unfoldable pub insert_decision_leaf : DecisionLeaf Float → State Float → State Float
  insert_decision_leaf leaf s =
      if is_some (fetch_decision_with_batch leaf.decision_id s.decisions) then s else record s {
        decisions = s.decisions ++ record { leaf = leaf; batch_id = none; leaf_index = none } ∷ [];
      }

  -- The WHERE of `_load_unbatched_leaves`.
  abbrev pub in_window : ℕ → ℕ → DecisionRow Float → Bool
  in_window window_start window_end row =
      not (is_some row.batch_id)
      && (ltb window_start row.leaf.timestamp && leb row.leaf.timestamp window_end)

  abbrev pub selected_leaves : ℕ → ℕ → List (DecisionRow Float) → List (DecisionLeaf Float)
  selected_leaves window_start window_end [] = []
  selected_leaves window_start window_end (row ∷ rows) =
      if in_window window_start window_end row
      then row.leaf ∷ selected_leaves window_start window_end rows
      else selected_leaves window_start window_end rows

module _ {Float : Type 0} (text_before : String → String → Bool) where
  -- ORDER BY decision_timestamp ASC, decision_id ASC.
  abbrev pub precedes : DecisionLeaf Float → DecisionLeaf Float → Bool
  precedes a b =
      ltb a.timestamp b.timestamp
      || (a.timestamp == b.timestamp && text_before a.decision_id b.decision_id)

  abbrev pub insert_ordered :
      DecisionLeaf Float → List (DecisionLeaf Float) → List (DecisionLeaf Float)
  insert_ordered leaf [] = leaf ∷ []
  insert_ordered leaf (other ∷ leaves) =
      if precedes leaf other then leaf ∷ other ∷ leaves else other ∷ insert_ordered leaf leaves

  abbrev pub ordered : List (DecisionLeaf Float) → List (DecisionLeaf Float)
  ordered [] = []
  ordered (leaf ∷ leaves) = insert_ordered leaf (ordered leaves)

  -- `_load_unbatched_leaves`.
  abbrev pub load_unbatched_leaves : ℕ → ℕ → List (DecisionRow Float) → List (DecisionLeaf Float)
  load_unbatched_leaves window_start window_end rows =
      ordered (selected_leaves window_start window_end rows)

-- The key of `merkle_nodes`, and an insert with ON CONFLICT DO NOTHING.
abbrev pub select_node : String → ℕ → ℕ → List (String × MerkleNode) → Option MerkleNode
select_node batch_id level position [] = none
select_node batch_id level position ((id, node) ∷ nodes) =
    if str_eq id batch_id && (node.level == level && node.position == position)
    then some node
    else select_node batch_id level position nodes

abbrev pub insert_node :
    String → MerkleNode → List (String × MerkleNode) → List (String × MerkleNode)
insert_node batch_id node nodes =
    if is_some (select_node batch_id node.level node.position nodes)
    then nodes
    else nodes ++ (batch_id, node) ∷ []

abbrev pub insert_nodes :
    String → List MerkleNode → List (String × MerkleNode) → List (String × MerkleNode)
insert_nodes batch_id [] nodes = nodes
insert_nodes batch_id (node ∷ rows) nodes =
    insert_nodes batch_id rows (insert_node batch_id node nodes)

abbrev pub has_batch : String → List BatchRow → Bool
has_batch batch_id [] = false
has_batch batch_id (row ∷ rows) = str_eq row.batch.batch_id batch_id || has_batch batch_id rows

abbrev pub insert_batch : MerkleBatch → List BatchRow → List BatchRow
insert_batch batch rows =
    if has_batch batch.batch_id rows
    then rows
    else rows ++ record { batch = batch; status = prepared } ∷ []

-- `_mark_batch_anchored` and `_mark_batch_anchor_failed`.
abbrev pub marked_row : String → BatchStatus → BatchRow → BatchRow
marked_row batch_id status row =
    if str_eq row.batch.batch_id batch_id then record row { status = status } else row

module _ {Float : Type 0} where
  -- The UPDATE of one decision, and of all in the index map.
  abbrev pub set_row : String → String → ℕ → DecisionRow Float → DecisionRow Float
  set_row batch_id decision_id index row =
      if str_eq row.leaf.decision_id decision_id
      then record row { batch_id = some batch_id; leaf_index = some index }
      else row

  abbrev pub update_rows : String → Dict ℕ → List (DecisionRow Float) → List (DecisionRow Float)
  update_rows batch_id [] rows = rows
  update_rows batch_id ((decision_id, index) ∷ d) rows =
      update_rows batch_id d (map (set_row batch_id decision_id index) rows)

  -- `_persist_batch`, whose transaction is committed as a whole.
  abbrev pub persist_batch :
      MerkleBatch
      → List (List Bytes)
      → List (DecisionLeaf Float)
      → Dict ℕ
      → State Float
      → State Float
  persist_batch batch levels leaves leaf_index_map s = record s {
    batches = insert_batch batch s.batches;
    nodes = insert_nodes batch.batch_id (node_rows leaves levels) s.nodes;
    decisions = update_rows batch.batch_id leaf_index_map s.decisions;
  }

  abbrev pub mark_batch : String → BatchStatus → State Float → State Float
  mark_batch batch_id status s = record s { batches = map (marked_row batch_id status) s.batches }

  -- `_store_window_cursor`.
  abbrev pub store_window_cursor : ℕ → State Float → State Float
  store_window_cursor window_end s = record s { cursor = window_end }
