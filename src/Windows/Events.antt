-- ===== src/Windows/Events.antt =====
-- What an event does to the row of one decision.
use Prim.Native.String.{String}
use text.Mathlib.Text.{◌==◌ as str_eq}
use text.Mathlib.TextEquality.{eq_iff}
use mathlib.Core.Option.{some-injective}
use mathlib.Core.Option
use mathlib.Core.Path.{subst}
use omni_aegis.Prelude.{
  ℕ, ◌≡◌, refl, sym, ap, ◌∙◌, Bool, true, false, ◌||◌, inl, inr, List, [], ◌∷◌, ◌++◌, Option, none,
  some, All, All-map, Bool-cases, Option-cases,
}
use omni_aegis.Prelude.Dict.{Dict, lookup, str_eq_refl}
use omni_aegis.Redis.{is_some}
use omni_aegis.Merkle.{
  Bytes, Outcome, ok, raise, Digests, DecisionLeaf, MerkleBatch, build_merkle_batch, index_map,
  levels_from, hash, last_head, ◌>>=◌, leaf_hashes,
}
use omni_aegis.Windows.{
  State, BatchStatus, DecisionRow, fetch_decision_with_batch, in_window, selected_leaves,
  update_rows, insert_decision_leaf,
}
use omni_aegis.Windows.Loop.{Config, Answers, Ended, anchor_pending_window}
use omni_aegis.Windows.Rows.{
  Coherent, has_leaf, updated, fetch-update_rows, update_rows-Coherent, updated-absent,
  updated-present, lookup-index_map, has_leaf-selected_leaves, has_leaf-ordered,
}
use omni_aegis.Windows.Cycle.{
  Closed, aborted, empty, persisted, window_end, leaves, marked, anchor_pending_window-Closed,
}

bind-ok {ℓ κ} :
    {A : Type ℓ} {B : Type κ} (o : Outcome A) (f : A → Outcome B) (r : B)
    → (o >>= f) ≡ ok r
    → (a : A) × (o ≡ ok a) × (f a ≡ ok r)
bind-ok (ok a) f r e = (a, refl, e)
bind-ok (raise x) f r e = absurd (cc e)

module _ {Float : Type 0} where
  -- What a batch that was built says of its own window.
  pub build_merkle_batch-fields :
      (dg : Digests) (algorithm prefix id : String) (now ws we : ℕ) (ls : List (DecisionLeaf Float))
      (batch : MerkleBatch) (levels : List (List Bytes)) (d : Dict ℕ)
      → build_merkle_batch dg algorithm prefix now id ls ws we ≡ ok (batch, levels, d)
      → (batch.batch_id ≡ id) × (batch.window_end ≡ we) × (d ≡ index_map 0 ls [])
  unfolding build_merkle_batch
  build_merkle_batch-fields dg algorithm prefix id now ws we ls batch levels d e =
      let (levels', _, e') = bind-ok (levels_from (hash dg algorithm) _ (leaf_hashes ls)) _ _ e in
      let (root, _, e'') = bind-ok (last_head levels') _ _ e' in (cc e'', cc e'', cc e'')

  pub fetch-decision_id :
      (id : String) (row : DecisionRow Float) (rows : List (DecisionRow Float))
      → fetch_decision_with_batch id rows ≡ some row
      → row.leaf.decision_id ≡ id
  fetch-decision_id id row [] e = absurd (cc e)
  fetch-decision_id id row (r ∷ rows) e = elim (Bool-cases (str_eq r.leaf.decision_id id)) [
    | inl same ↦
        let e' : some r ≡ some row = rw (fetch_decision_with_batch, same) at e in
        sym (ap (λ (x : DecisionRow Float). x.leaf.decision_id) (some-injective _ _ e'))
        ∙ (eq_iff r.leaf.decision_id id).0 same
    | inr other ↦
        let e' : fetch_decision_with_batch id rows ≡ some row =
          rw (fetch_decision_with_batch, other) at e in
        fetch-decision_id id row rows e'
  ]

  -- A row is found behind others as long as they have other ids.
  pub fetch-append :
      (id : String) (row : DecisionRow Float) (rows more : List (DecisionRow Float))
      → fetch_decision_with_batch id rows ≡ some row
      → fetch_decision_with_batch id (rows ++ more) ≡ some row
  fetch-append id row [] more e = absurd (cc e)
  fetch-append id row (r ∷ rows) more e = elim (Bool-cases (str_eq r.leaf.decision_id id)) [
    | inl same ↦ rw (same) (rw (fetch_decision_with_batch, same) at e)
    | inr other ↦
        let e' : fetch_decision_with_batch id rows ≡ some row =
          rw (fetch_decision_with_batch, other) at e in
        rw (other) (fetch-append id row rows more e')
  ]

  pub fetch-append_none :
      (id : String) (rows more : List (DecisionRow Float))
      → fetch_decision_with_batch id rows ≡ none
      → fetch_decision_with_batch id (rows ++ more) ≡ fetch_decision_with_batch id more
  fetch-append_none id [] more e = refl
  fetch-append_none id (r ∷ rows) more e = elim (Bool-cases (str_eq r.leaf.decision_id id)) [
    | inl same ↦ absurd (let e' = rw (fetch_decision_with_batch, same) at e in cc e')
    | inr other ↦
        let e' : fetch_decision_with_batch id rows ≡ none =
          rw (fetch_decision_with_batch, other) at e in
        rw (other) (fetch-append_none id rows more e')
  ]

  All-append {κ} :
      (P : DecisionRow Float → Type κ) (xs ys : List (DecisionRow Float))
      → All P xs
      → All P ys
      → All P (xs ++ ys)
  All-append P [] ys h h' = h'
  All-append P (x ∷ xs) ys h h' = (h.0, All-append P xs ys h.1 h')

  -- A decision is recorded: a known id changes nothing, and a new one is put behind the others.
  abbrev pub queued : DecisionLeaf Float → DecisionRow Float
  queued leaf = record { leaf = leaf; batch_id = none; leaf_index = none }

  pub insert_decision_leaf-known :
      (leaf : DecisionLeaf Float) (row : DecisionRow Float) (s : State Float)
      → fetch_decision_with_batch leaf.decision_id s.decisions ≡ some row
      → insert_decision_leaf leaf s ≡ s
  unfolding insert_decision_leaf
  insert_decision_leaf-known leaf row s e = rw (insert_decision_leaf, e) refl

  pub insert_decision_leaf-new :
      (leaf : DecisionLeaf Float) (s : State Float)
      → fetch_decision_with_batch leaf.decision_id s.decisions ≡ none
      → insert_decision_leaf leaf s ≡ record s { decisions = s.decisions ++ queued leaf ∷ [] }
  unfolding insert_decision_leaf
  insert_decision_leaf-new leaf s e = rw (insert_decision_leaf, e) refl

  append-Coherent :
      (leaf : DecisionLeaf Float) (rows : List (DecisionRow Float))
      → fetch_decision_with_batch leaf.decision_id rows ≡ none
      → Coherent rows
      → Coherent (rows ++ queued leaf ∷ [])
  append-Coherent leaf rows e h =
      All-append
        (λ row.
          fetch_decision_with_batch row.leaf.decision_id (rows ++ queued leaf ∷ []) ≡ some row)
        rows (queued leaf ∷ [])
        (All-map (λ row found. fetch-append row.leaf.decision_id row rows _ found) rows h)
        (
          fetch-append_none leaf.decision_id rows (queued leaf ∷ []) e
              ∙ rw (str_eq_refl leaf.decision_id) refl,
          tt,
        )

  pub insert_decision_leaf-Coherent :
      (leaf : DecisionLeaf Float) (s : State Float)
      → Coherent s.decisions
      → Coherent (insert_decision_leaf leaf s).decisions
  insert_decision_leaf-Coherent leaf s h =
      elim (Option-cases (fetch_decision_with_batch leaf.decision_id s.decisions)) [
        | inl new ↦
            rw (insert_decision_leaf-new leaf s new) (append-Coherent leaf s.decisions new h)
        | inr (row, known) ↦ rw (insert_decision_leaf-known leaf row s known) h
      ]

  pub insert_decision_leaf-kept :
      (leaf : DecisionLeaf Float) (id : String) (row : DecisionRow Float) (s : State Float)
      → fetch_decision_with_batch id s.decisions ≡ some row
      → fetch_decision_with_batch id (insert_decision_leaf leaf s).decisions ≡ some row
  insert_decision_leaf-kept leaf id row s found =
      elim (Option-cases (fetch_decision_with_batch leaf.decision_id s.decisions)) [
        | inl new ↦
            rw (insert_decision_leaf-new leaf s new) (fetch-append id row s.decisions _ found)
        | inr (other, known) ↦ rw (insert_decision_leaf-known leaf other s known) found
      ]

  pub insert_decision_leaf-cursor :
      (leaf : DecisionLeaf Float) (s : State Float)
      → (insert_decision_leaf leaf s).cursor ≡ s.cursor
  insert_decision_leaf-cursor leaf s =
      elim (Option-cases (fetch_decision_with_batch leaf.decision_id s.decisions)) [
        | inl new ↦ rw (insert_decision_leaf-new leaf s new) refl
        | inr (other, known) ↦ rw (insert_decision_leaf-known leaf other s known) refl
      ]

or_false : (b : Bool) → (b || false) ≡ b
or_false true = refl
or_false false = refl

module _ {Float : Type 0} (dg : Digests) (config : Config) (text_before : String → String → Bool)
    (a : Answers) (s : State Float) (coherent : Coherent s.decisions) where
  abbrev in_this_window : DecisionRow Float → Bool
  in_this_window = in_window s.cursor (window_end dg config text_before a s)

  pub has_leaf-leaves :
      (id : String) (row : DecisionRow Float)
      → fetch_decision_with_batch id s.decisions ≡ some row
      → has_leaf id (leaves dg config text_before a s) ≡ in_this_window row
  has_leaf-leaves id row found =
      has_leaf-ordered text_before id (selected_leaves s.cursor _ s.decisions)
      ∙ has_leaf-selected_leaves s.cursor (window_end dg config text_before a s) id row s.decisions
          coherent found

  module _ (b : String) (d : Dict ℕ)
      (indexed : d ≡ index_map 0 (leaves dg config text_before a s) []) where
    pub lookup-leaves :
        (id : String) (row : DecisionRow Float)
        → fetch_decision_with_batch id s.decisions ≡ some row
        → is_some (lookup row.leaf.decision_id d) ≡ in_this_window row
    lookup-leaves id row found =
        let ls = leaves dg config text_before a s in
        ap (λ x. is_some (lookup row.leaf.decision_id x)) indexed
        ∙ lookup-index_map row.leaf.decision_id 0 ls []
        ∙ or_false (has_leaf row.leaf.decision_id ls)
        ∙ ap (λ k. has_leaf k ls) (fetch-decision_id id row s.decisions found)
        ∙ has_leaf-leaves id row found

    pub fetch-kept :
        (id : String) (row : DecisionRow Float)
        → fetch_decision_with_batch id s.decisions ≡ some row
        → in_this_window row ≡ false
        → fetch_decision_with_batch id (update_rows b d s.decisions) ≡ some row
    fetch-kept id row found out =
        fetch-update_rows b d id s.decisions
        ∙ ap (Option.map (updated b d)) found
        ∙ ap some (updated-absent b d row (lookup-leaves id row found ∙ out))

    pub updated-batched :
        (id : String) (row : DecisionRow Float)
        → fetch_decision_with_batch id s.decisions ≡ some row
        → in_this_window row ≡ true
        → (updated b d row).batch_id ≡ some b
    updated-batched id row found inside =
        updated-present b d row (lookup-leaves id row found ∙ inside)

  -- A cycle keeps a row that is not in its window.
  marked-decisions :
      (m : Option BatchStatus) (t : State Float)
      → (marked dg config text_before a s m t).decisions ≡ t.decisions
  marked-decisions none t = refl
  marked-decisions (some status) t = refl

  Closed-kept :
      (r : State Float × Ended)
      → Closed dg config text_before a s r
      → (id : String) (row : DecisionRow Float)
      → fetch_decision_with_batch id s.decisions ≡ some row
      → in_this_window row ≡ false
      → fetch_decision_with_batch id r.0.decisions ≡ some row
  Closed-kept r aborted id row found out = found
  Closed-kept r (empty e) id row found out = found
  Closed-kept r (persisted batch levels d m e b) id row found out =
      let (_, _, indexed) = build_merkle_batch-fields dg _ _ _ _ _ _ _ batch levels d b in
      ap (fetch_decision_with_batch id) (marked-decisions m _)
      ∙ fetch-kept batch.batch_id d indexed id row found out

  pub cycle-kept :
      (id : String) (row : DecisionRow Float)
      → fetch_decision_with_batch id s.decisions ≡ some row
      → in_this_window row ≡ false
      → fetch_decision_with_batch id (anchor_pending_window dg config text_before a s).0.decisions
        ≡ some row
  cycle-kept id row found out =
      Closed-kept _ (anchor_pending_window-Closed dg config text_before a s) id row found out

  Closed-Coherent :
      (r : State Float × Ended) → Closed dg config text_before a s r → Coherent r.0.decisions
  Closed-Coherent r aborted = coherent
  Closed-Coherent r (empty e) = coherent
  Closed-Coherent r (persisted batch levels d m e b) =
      subst Coherent (sym (marked-decisions m _))
        (update_rows-Coherent batch.batch_id d s.decisions coherent)

  pub cycle-Coherent : Coherent (anchor_pending_window dg config text_before a s).0.decisions
  cycle-Coherent = Closed-Coherent _ (anchor_pending_window-Closed dg config text_before a s)
