-- ===== src/Windows/Loop.antt =====
-- The cycles of the coordinator (decision_layer/services/batch_coordinator.py: `_run_loop`,
-- `_anchor_pending_window`, `_restore_window_cursor`), and what happens around them.
use Prim.Native.String.{String}
use mathlib.Core.Option
use omni_aegis.Prelude.{
  ℕ, ◌+◌, ◌-◌, Bool, List, [], ◌∷◌, Option, none, some, if◌then◌else◌, leb, max,
}
use omni_aegis.Prelude.Dict.{Dict}
use omni_aegis.Merkle.{
  Bytes, Outcome, ok, raise, Digests, DecisionLeaf, MerkleBatch, build_merkle_batch,
}
use omni_aegis.Windows.{
  BatchRow, State, anchor_failed, anchored, insert_decision_leaf, load_unbatched_leaves, mark_batch,
  persist_batch, store_window_cursor,
}

-- `_anchor_batch_on_chain`: a transaction's hash, or the text of what it raises.
pub data Anchor : Type 0 where
  sent : String → Anchor
  failed : String → Anchor

-- What one cycle is answered: the clock (twice), a new id, whether the reads and the transaction of
-- `_persist_batch` succeed, the chain, and whether the marks are written, or what raises there.
pub record Answers : Type 0 where
  pub now : ℕ
  pub created_at : ℕ
  pub batch_id : String
  pub load_succeeds : Bool
  pub persist_succeeds : Bool
  pub anchor : Anchor
  pub mark_error : Option String
  pub mark_failed_succeeds : Bool

-- `BatchCoordinatorConfig`, as far as a cycle reads it.
pub record Config : Type 0 where
  pub anchor_interval_seconds : ℕ
  pub hash_algorithm : String
  pub pending_manifest_prefix : String

-- The end of a cycle: it returns or it raises, which `_run_loop` logs.
pub data Ended : Type 0 where
  returned : Ended
  raised : Ended

-- The window's end: the clock, or an interval after a cursor that is not before it.
abbrev pub window_end_of : ℕ → ℕ → ℕ → ℕ
window_end_of interval now window_start =
    if leb now window_start then window_start + interval else now

module _ {Float : Type 0} where
  abbrev pub marked_failed : Answers → String → State Float → State Float × Ended
  marked_failed a error s =
      if a.mark_failed_succeeds
      then (mark_batch a.batch_id (anchor_failed error) s, returned)
      else (s, raised)

  -- The `try` around the chain.
  abbrev pub mark_sent : Answers → String → Option String → State Float → State Float × Ended
  mark_sent a tx_hash none s = (mark_batch a.batch_id (anchored tx_hash) s, returned)
  mark_sent a tx_hash (some error) s = marked_failed a error s

  abbrev pub anchored_state : Answers → Anchor → State Float → State Float × Ended
  anchored_state a (sent tx_hash) s = mark_sent a tx_hash a.mark_error s
  anchored_state a (failed error) s = marked_failed a error s

  module _ (dg : Digests) (config : Config) where
    -- The batch of the leaves, persisted with the new cursor.
    abbrev pub batched_state :
        Answers
        → ℕ
        → List (DecisionLeaf Float)
        → Outcome (MerkleBatch × List (List Bytes) × Dict ℕ)
        → State Float
        → State Float × Ended
    batched_state a window_end leaves (raise error) s = (s, raised)
    batched_state a window_end leaves (ok (batch, levels, leaf_index_map)) s =
        if a.persist_succeeds
        then anchored_state a a.anchor
            (store_window_cursor window_end (persist_batch batch levels leaves leaf_index_map s))
        else (s, raised)

    abbrev pub loaded_state :
        Answers → ℕ → List (DecisionLeaf Float) → State Float → State Float × Ended
    loaded_state a window_end [] s = (store_window_cursor window_end s, returned)
    loaded_state a window_end (leaf ∷ leaves) s =
        batched_state a window_end (leaf ∷ leaves)
          (build_merkle_batch dg config.hash_algorithm config.pending_manifest_prefix a.created_at
            a.batch_id (leaf ∷ leaves) s.cursor window_end)
          s

    -- `_anchor_pending_window`.
    unfoldable pub anchor_pending_window :
        (String → String → Bool) → Answers → State Float → State Float × Ended
    anchor_pending_window text_before a s =
        let window_end = window_end_of config.anchor_interval_seconds a.now s.cursor in
        if a.load_succeeds
        then loaded_state a window_end
            (load_unbatched_leaves text_before s.cursor window_end s.decisions) s
        else (s, raised)

-- SELECT MAX(window_end).
abbrev pub max_window_end : List BatchRow → Option ℕ
max_window_end [] = none
max_window_end (row ∷ rows) =
    some (max row.batch.window_end (Option.get_or (max_window_end rows) row.batch.window_end))

-- A new coordinator over the tables: `__init__` and `_restore_window_cursor`.
unfoldable pub restore_window_cursor : {Float : Type 0} → Config → ℕ → State Float → State Float
restore_window_cursor config now s = record s {
  cursor = Option.get_or (max_window_end s.batches) (now - config.anchor_interval_seconds);
}

-- What happens to the coordinator: a decision is recorded, a cycle runs, or a new process starts.
pub data Event (Float : Type 0) : Type 0 where
  recorded : DecisionLeaf Float → Event Float
  cycled : Answers → Event Float
  restarted : ℕ → Event Float

module _ {Float : Type 0} (dg : Digests) (config : Config)
    (text_before : String → String → Bool) where
  abbrev pub apply_event : Event Float → State Float → State Float
  apply_event (recorded leaf) s = insert_decision_leaf leaf s
  apply_event (cycled a) s = (anchor_pending_window dg config text_before a s).0
  apply_event (restarted now) s = restore_window_cursor config now s

  abbrev pub apply_events : List (Event Float) → State Float → State Float
  apply_events [] s = s
  apply_events (e ∷ es) s = apply_events es (apply_event e s)
