-- ===== src/Windows/Rows.antt =====
-- What the load and the update of a window do to the row of a decision.
use Prim.Native.String.{String}
use text.Mathlib.Text.{◌==◌ as str_eq}
use text.Mathlib.TextEquality.{eq_iff}
use mathlib.Core.Option.{some-injective}
use mathlib.Core.Option
use omni_aegis.Prelude.{
  ℕ, ◌+◌, ◌≡◌, refl, sym, ap, ◌∙◌, Bool, true, false, ◌||◌, inl, inr, List, [], ◌∷◌, map, Option,
  none, some, arith, All, map-All, Bool-cases,
}
use omni_aegis.Prelude.Dict.{Dict, lookup, insert, lookup-insert}
use omni_aegis.Redis.{is_some}
use omni_aegis.Merkle.{DecisionLeaf, index_map}
use omni_aegis.Windows.{
  DecisionRow, fetch_decision_with_batch, in_window, selected_leaves, insert_ordered, ordered,
  precedes, set_row, update_rows,
}

or_true : (b : Bool) → (b || true) ≡ true
or_true true = refl
or_true false = refl

module _ {Float : Type 0} where
  -- The primary key: each row is the one that its decision id selects.
  abbrev pub Coherent : List (DecisionRow Float) → Type 0
  Coherent rows = All (λ row. fetch_decision_with_batch row.leaf.decision_id rows ≡ some row) rows

  abbrev pub has_leaf : String → List (DecisionLeaf Float) → Bool
  has_leaf id [] = false
  has_leaf id (leaf ∷ leaves) = str_eq leaf.decision_id id || has_leaf id leaves

  -- All the updates of one row.
  abbrev pub updated : String → Dict ℕ → DecisionRow Float → DecisionRow Float
  updated b [] row = row
  updated b ((id, i) ∷ d) row = updated b d (set_row b id i row)

  set_row-leaf :
      (b id : String) (i : ℕ) (row : DecisionRow Float) → (set_row b id i row).leaf ≡ row.leaf
  set_row-leaf b id i row = elim (Bool-cases (str_eq row.leaf.decision_id id)) [
    | inl e ↦ rw (e) refl
    | inr e ↦ rw (e) refl
  ]

  pub updated-leaf :
      (b : String) (d : Dict ℕ) (row : DecisionRow Float) → (updated b d row).leaf ≡ row.leaf
  updated-leaf b [] row = refl
  updated-leaf b ((id, i) ∷ d) row = updated-leaf b d (set_row b id i row) ∙ set_row-leaf b id i row

  fetch-map :
      (f : DecisionRow Float → DecisionRow Float)
      → ((row : DecisionRow Float) → (f row).leaf ≡ row.leaf)
      → (id : String) (rows : List (DecisionRow Float))
      → fetch_decision_with_batch id (map f rows) ≡ Option.map f (fetch_decision_with_batch id rows)
  fetch-map f same id [] = refl
  fetch-map f same id (row ∷ rows) =
      let e = ap (λ (leaf : DecisionLeaf Float). str_eq leaf.decision_id id) (same row) in
      elim (Bool-cases (str_eq row.leaf.decision_id id)) [
        | inl h ↦ rw (e, h) refl
        | inr h ↦ rw (e, h) (fetch-map f same id rows)
      ]

  map_id : (o : Option (DecisionRow Float)) → o ≡ Option.map (λ row. row) o
  map_id none = refl
  map_id (some row) = refl

  map_twice :
      (f g : DecisionRow Float → DecisionRow Float) (o : Option (DecisionRow Float))
      → Option.map f (Option.map g o) ≡ Option.map (λ row. f (g row)) o
  map_twice f g none = refl
  map_twice f g (some row) = refl

  pub fetch-update_rows :
      (b : String) (d : Dict ℕ) (id : String) (rows : List (DecisionRow Float))
      → fetch_decision_with_batch id (update_rows b d rows)
        ≡ Option.map (updated b d) (fetch_decision_with_batch id rows)
  fetch-update_rows b [] id rows = map_id (fetch_decision_with_batch id rows)
  fetch-update_rows b ((j, i) ∷ d) id rows =
      fetch-update_rows b d id (map (set_row b j i) rows)
      ∙ rw (fetch-map (set_row b j i) (set_row-leaf b j i) id rows)
          (map_twice (updated b d) (set_row b j i) (fetch_decision_with_batch id rows))

  set_row-Coherent :
      (b id : String) (i : ℕ) (rows : List (DecisionRow Float))
      → Coherent rows
      → Coherent (map (set_row b id i) rows)
  set_row-Coherent b id i rows h =
      map-All (set_row b id i)
        (λ row.
          fetch_decision_with_batch row.leaf.decision_id (map (set_row b id i) rows) ≡ some row)
        (λ row e.
          ap
            (λ (leaf : DecisionLeaf Float).
              fetch_decision_with_batch leaf.decision_id (map (set_row b id i) rows))
            (set_row-leaf b id i row)
          ∙ fetch-map (set_row b id i) (set_row-leaf b id i) row.leaf.decision_id rows
          ∙ ap (Option.map (set_row b id i)) e)
        rows h

  pub update_rows-Coherent :
      (b : String) (d : Dict ℕ) (rows : List (DecisionRow Float))
      → Coherent rows
      → Coherent (update_rows b d rows)
  update_rows-Coherent b [] rows h = h
  update_rows-Coherent b ((id, i) ∷ d) rows h =
      update_rows-Coherent b d (map (set_row b id i) rows) (set_row-Coherent b id i rows h)

  -- A row whose id has no index is kept.
  pub updated-absent :
      (b : String) (d : Dict ℕ) (row : DecisionRow Float)
      → is_some (lookup row.leaf.decision_id d) ≡ false
      → updated b d row ≡ row
  updated-absent b [] row h = refl
  updated-absent b ((id, i) ∷ d) row h =
      let different : str_eq row.leaf.decision_id id ≡ false =
        ground (arith, eq_iff row.leaf.decision_id id, eq_iff id row.leaf.decision_id, h) in
      let later : is_some (lookup row.leaf.decision_id d) ≡ false =
        ground (arith, eq_iff row.leaf.decision_id id, eq_iff id row.leaf.decision_id, h) in
      rw (different) (updated-absent b d row later)

  -- A row that was set stays set, and a row whose id has an index is set.
  updated-set :
      (b : String) (d : Dict ℕ) (row : DecisionRow Float)
      → row.batch_id ≡ some b
      → (updated b d row).batch_id ≡ some b
  updated-set b [] row h = h
  updated-set b ((id, i) ∷ d) row h =
      updated-set b d (set_row b id i row) (elim (Bool-cases (str_eq row.leaf.decision_id id)) [
        | inl e ↦ rw (e) refl
        | inr e ↦ rw (e) h
      ])

  pub updated-present :
      (b : String) (d : Dict ℕ) (row : DecisionRow Float)
      → is_some (lookup row.leaf.decision_id d) ≡ true
      → (updated b d row).batch_id ≡ some b
  updated-present b [] row h = absurd (cc h)
  updated-present b ((id, i) ∷ d) row h = elim (Bool-cases (str_eq row.leaf.decision_id id)) [
    | inl e ↦ updated-set b d (set_row b id i row) (rw (e) refl)
    | inr e ↦
        let later : is_some (lookup row.leaf.decision_id d) ≡ true =
          ground (arith, eq_iff row.leaf.decision_id id, eq_iff id row.leaf.decision_id, h) in
        rw (updated, e) (updated-present b d row later)
  ]

  pub lookup-index_map :
      (id : String) (i : ℕ) (leaves : List (DecisionLeaf Float)) (d : Dict ℕ)
      → is_some (lookup id (index_map i leaves d)) ≡ has_leaf id leaves || is_some (lookup id d)
  lookup-index_map id i [] d = refl
  lookup-index_map id i (leaf ∷ leaves) d =
      let e = lookup-insert leaf.decision_id id i d in
      lookup-index_map id (i + 1) leaves (insert leaf.decision_id i d)
      ∙ elim (Bool-cases (str_eq leaf.decision_id id)) [
        | inl h ↦ rw (e, h) (or_true (has_leaf id leaves))
        | inr h ↦ rw (e, h) refl
      ]

  -- The leaves of a window are those of the rows in it.
  module _ (ws we : ℕ) (id : String) (row : DecisionRow Float) where
    selected-absent :
        (rows : List (DecisionRow Float))
        → fetch_decision_with_batch id rows ≡ some row
        → in_window ws we row ≡ false
        → (rs : List (DecisionRow Float))
        → All (λ r. fetch_decision_with_batch r.leaf.decision_id rows ≡ some r) rs
        → has_leaf id (selected_leaves ws we rs) ≡ false
    selected-absent rows found out [] h = refl
    selected-absent rows found out (r ∷ rs) h =
        let later = selected-absent rows found out rs h.1 in
        elim (Bool-cases (in_window ws we r)) [
          | inl e ↦ elim (Bool-cases (str_eq r.leaf.decision_id id)) [
            | inl same ↦
                let key = (eq_iff r.leaf.decision_id id).0 same in
                let one = sym (ap (λ k. fetch_decision_with_batch k rows) key) ∙ h.0 in
                let equal : row ≡ r = some-injective _ _ (sym found ∙ one) in
                absurd (let w = sym (ap (in_window ws we) equal) ∙ out in cc (w, e))
            | inr other ↦ rw (selected_leaves, e, has_leaf, other) later
          ]
          | inr e ↦ rw (selected_leaves, e) later
        ]

    selected-present :
        (rows : List (DecisionRow Float))
        → fetch_decision_with_batch id rows ≡ some row
        → in_window ws we row ≡ true
        → has_leaf id (selected_leaves ws we rows) ≡ true
    selected-present [] found inside = absurd (cc found)
    selected-present (r ∷ rs) found inside = elim (Bool-cases (str_eq r.leaf.decision_id id)) [
      | inl same ↦
          let found' : some r ≡ some row = rw (fetch_decision_with_batch, same) at found in
          let e = ap (in_window ws we) (some-injective _ _ found') ∙ inside in
          rw (selected_leaves, e, has_leaf, same) refl
      | inr other ↦
          let found' : fetch_decision_with_batch id rs ≡ some row =
            rw (fetch_decision_with_batch, other) at found in
          let later = selected-present rs found' inside in
          elim (Bool-cases (in_window ws we r)) [
            | inl e ↦ rw (selected_leaves, e, has_leaf, other) later
            | inr e ↦ rw (selected_leaves, e) later
          ]
    ]

  pub has_leaf-selected_leaves :
      (ws we : ℕ) (id : String) (row : DecisionRow Float) (rows : List (DecisionRow Float))
      → Coherent rows
      → fetch_decision_with_batch id rows ≡ some row
      → has_leaf id (selected_leaves ws we rows) ≡ in_window ws we row
  has_leaf-selected_leaves ws we id row rows coherent found =
      elim (Bool-cases (in_window ws we row)) [
        | inl e ↦ selected-present ws we id row rows found e ∙ sym e
        | inr e ↦ selected-absent ws we id row rows found e rows coherent ∙ sym e
      ]

module _ {Float : Type 0} (text_before : String → String → Bool) where
  has_leaf-insert_ordered :
      (id : String) (leaf : DecisionLeaf Float) (leaves : List (DecisionLeaf Float))
      → has_leaf id (insert_ordered text_before leaf leaves)
        ≡ str_eq leaf.decision_id id || has_leaf id leaves
  has_leaf-insert_ordered id leaf [] = refl
  has_leaf-insert_ordered id leaf (other ∷ leaves) =
      let later = has_leaf-insert_ordered id leaf leaves in
      elim (Bool-cases (precedes text_before leaf other)) [
        | inl e ↦ rw (e) refl
        | inr e ↦ rw (e, later) (ground arith)
      ]

  pub has_leaf-ordered :
      (id : String) (leaves : List (DecisionLeaf Float))
      → has_leaf id (ordered text_before leaves) ≡ has_leaf id leaves
  has_leaf-ordered id [] = refl
  has_leaf-ordered id (leaf ∷ leaves) =
      has_leaf-insert_ordered id leaf (ordered text_before leaves)
      ∙ ap (λ b. str_eq leaf.decision_id id || b) (has_leaf-ordered id leaves)
