-- ===== src/Windows/Cycle.antt =====
-- What one cycle of `_anchor_pending_window` leaves behind.
use Prim.Native.String.{String}
use mathlib.Core.Path.{subst}
use omni_aegis.Prelude.{
  ℕ, ◌<◌, length, ◌≡◌, refl, sym, ap, ◌∙◌, Bool, true, false, inl, inr, List, [], ◌∷◌, Option, none,
  some, if◌then◌else◌, arith, Bool-cases,
}
use omni_aegis.Prelude.Dict.{Dict}
use omni_aegis.Merkle.{
  Bytes, Outcome, ok, raise, Digests, DecisionLeaf, MerkleBatch, build_merkle_batch,
}
use omni_aegis.Windows.{
  State, BatchStatus, load_unbatched_leaves, persist_batch, mark_batch, store_window_cursor,
}
use omni_aegis.Windows.Loop.{
  Config, Answers, Anchor, sent, failed, Ended, returned, raised, window_end_of, marked_failed,
  mark_sent, anchored_state, batched_state, loaded_state, anchor_pending_window,
}

module _ {Float : Type 0} (dg : Digests) (config : Config) (text_before : String → String → Bool)
    (a : Answers) (s : State Float) where
  -- The window of the cycle, and its leaves.
  abbrev pub window_end : ℕ
  window_end = window_end_of config.anchor_interval_seconds a.now s.cursor

  abbrev pub leaves : List (DecisionLeaf Float)
  leaves = load_unbatched_leaves text_before s.cursor window_end s.decisions

  abbrev pub built : Outcome (MerkleBatch × List (List Bytes) × Dict ℕ)
  built =
      build_merkle_batch dg config.hash_algorithm config.pending_manifest_prefix a.created_at
        a.batch_id leaves s.cursor window_end

  abbrev pub marked : Option BatchStatus → State Float → State Float
  marked none t = t
  marked (some status) t = mark_batch a.batch_id status t

  -- The ways a cycle can end: it raises and leaves the state, it moves the cursor over an empty
  -- window, or it persists the batch of the window's leaves and perhaps marks it.
  pub data Closed : State Float × Ended → Type 0 where
    aborted : Closed (s, raised)
    empty : leaves ≡ [] → Closed (store_window_cursor window_end s, returned)
    persisted :
        (batch : MerkleBatch) (levels : List (List Bytes)) (d : Dict ℕ) (m : Option BatchStatus)
        (e : Ended)
        → built ≡ ok (batch, levels, d)
        → Closed
            (marked m (store_window_cursor window_end (persist_batch batch levels leaves d s)), e)

  if-Closed :
      {t u : State Float × Ended} (b : Bool) → Closed t → Closed u → Closed (if b then t else u)
  if-Closed true p q = p
  if-Closed false p q = q

  module _ (batch : MerkleBatch) (levels : List (List Bytes)) (d : Dict ℕ)
      (b : built ≡ ok (batch, levels, d)) where
    abbrev stored : State Float
    stored = store_window_cursor window_end (persist_batch batch levels leaves d s)

    marked_failed-Closed : (error : String) → Closed (marked_failed a error stored)
    marked_failed-Closed error = elim (Bool-cases a.mark_failed_succeeds) [
      | inl e ↦
          rw (e) (persisted batch levels d (some (BatchStatus.anchor_failed error)) returned b)
      | inr e ↦ rw (e) (persisted batch levels d none raised b)
    ]

    mark_sent-Closed : (tx : String) (o : Option String) → Closed (mark_sent a tx o stored)
    mark_sent-Closed tx none = persisted batch levels d (some (BatchStatus.anchored tx)) returned b
    mark_sent-Closed tx (some error) = marked_failed-Closed error

    anchored_state-Closed : (o : Anchor) → Closed (anchored_state a o stored)
    anchored_state-Closed (sent tx) = mark_sent-Closed tx a.mark_error
    anchored_state-Closed (failed error) = marked_failed-Closed error

  batched_state-Closed :
      (o : Outcome (MerkleBatch × List (List Bytes) × Dict ℕ))
      → built ≡ o
      → Closed (batched_state dg config a window_end leaves o s)
  batched_state-Closed (raise error) b = aborted
  batched_state-Closed (ok (batch, levels, d)) b =
      if-Closed a.persist_succeeds (anchored_state-Closed batch levels d b a.anchor) aborted

  loaded_state-Closed :
      (ls : List (DecisionLeaf Float))
      → leaves ≡ ls
      → Closed (loaded_state dg config a window_end ls s)
  loaded_state-Closed [] e = empty e
  loaded_state-Closed (l ∷ ls) e =
      subst
        (λ xs. Closed (
          batched_state dg config a window_end xs
            (build_merkle_batch dg config.hash_algorithm config.pending_manifest_prefix a.created_at
              a.batch_id xs s.cursor window_end)
            s))
        e (batched_state-Closed built refl)

  pub anchor_pending_window-Closed : Closed (anchor_pending_window dg config text_before a s)
  unfolding anchor_pending_window
  anchor_pending_window-Closed = if-Closed a.load_succeeds (loaded_state-Closed leaves refl) aborted

  -- Where the reads and the transaction succeed and the batch is built, it is persisted.
  module _ (batch : MerkleBatch) (levels : List (List Bytes)) (d : Dict ℕ)
      (b : built ≡ ok (batch, levels, d)) where
    abbrev pub Marked : State Float → Type 0
    Marked t =
        (m : Option BatchStatus) × (t
          ≡ marked m (store_window_cursor window_end (persist_batch batch levels leaves d s)))

    -- The state of an end.
    abbrev MarkedEnd : State Float × Ended → Type 0
    MarkedEnd r = Marked r.0

    if-MarkedEnd :
        (t u : State Float × Ended) (x : Bool)
        → MarkedEnd t
        → MarkedEnd u
        → MarkedEnd (if x then t else u)
    if-MarkedEnd t u true p q = p
    if-MarkedEnd t u false p q = q

    marked_failed-Marked :
        (error : String) → MarkedEnd (marked_failed a error (stored batch levels d b))
    marked_failed-Marked error =
        if-MarkedEnd _ _ a.mark_failed_succeeds (some (BatchStatus.anchor_failed error), refl)
          (none, refl)

    mark_sent-Marked :
        (tx : String) (o : Option String) → MarkedEnd (mark_sent a tx o (stored batch levels d b))
    mark_sent-Marked tx none = (some (BatchStatus.anchored tx), refl)
    mark_sent-Marked tx (some error) = marked_failed-Marked error

    anchored_state-Marked : (o : Anchor) → MarkedEnd (anchored_state a o (stored batch levels d b))
    anchored_state-Marked (sent tx) = mark_sent-Marked tx a.mark_error
    anchored_state-Marked (failed error) = marked_failed-Marked error

    loaded_state-batched_state :
        (ls : List (DecisionLeaf Float)) (r : Outcome (MerkleBatch × List (List Bytes) × Dict ℕ))
        → 0 < length ls
        → build_merkle_batch dg config.hash_algorithm config.pending_manifest_prefix a.created_at
            a.batch_id ls s.cursor window_end
          ≡ r
        → loaded_state dg config a window_end ls s ≡ batched_state dg config a window_end ls r s
    loaded_state-batched_state [] r p e = absurd (omega (arith, p))
    loaded_state-batched_state (l ∷ ls) r p e =
        ap (λ o. batched_state dg config a window_end (l ∷ ls) o s) e

    pub anchor_pending_window-Marked :
        a.load_succeeds ≡ true
        → a.persist_succeeds ≡ true
        → 0 < length leaves
        → Marked (anchor_pending_window dg config text_before a s).0
    unfolding anchor_pending_window
    anchor_pending_window-Marked loads persists some_leaf =
        subst MarkedEnd
          (sym (
            ap (λ x. if x then loaded_state dg config a window_end leaves s else (s, raised)) loads
            ∙ loaded_state-batched_state leaves (ok (batch, levels, d)) some_leaf b
            ∙ ap
                (λ x.
                  if x then anchored_state a a.anchor (stored batch levels d b) else (s, raised))
                persists))
          (anchored_state-Marked a.anchor)
