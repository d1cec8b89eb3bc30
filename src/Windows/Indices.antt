-- ===== src/Windows/Indices.antt =====
-- The index that a batch gives to a decision is the place of its leaf.
use Prim.Native.String.{String}
use text.Mathlib.Text.{◌==◌ as str_eq}
use text.Mathlib.TextEquality.{eq_iff}
use mathlib.Core.Option.{some-injective}
use mathlib.Core.Path.{subst}
use omni_aegis.Prelude.{
  ℕ, zero, suc, ◌+◌, ◌≡◌, refl, sym, ap, ◌∙◌, Bool, true, inl, inr, List, [], ◌∷◌, some, get_elem?,
  arith, All, Bool-cases,
}
use omni_aegis.Prelude.Dict.{Dict, lookup, insert}
use omni_aegis.Redis.{is_some}
use omni_aegis.Merkle.{DecisionLeaf, index_map}
use omni_aegis.Windows.{
  DecisionRow, fetch_decision_with_batch, in_window, selected_leaves, insert_ordered, ordered,
  precedes, set_row,
}
use omni_aegis.Windows.Rows.{Coherent, updated}

All-insert {ℓ κ} :
    {V : Type ℓ} (P : String × V → Type κ) (k : String) (v : V) (d : Dict V)
    → P (k, v)
    → All P d
    → All P (insert k v d)
All-insert P k v [] h all = (h, tt)
All-insert P k v ((j, w) ∷ d) h all = elim (Bool-cases (str_eq j k)) [
  | inl e ↦ rw (e) (h, all.1)
  | inr e ↦ rw (e) (all.0, All-insert P k v d h all.1)
]

get_elem?-All {ℓ κ} :
    {A : Type ℓ} (P : A → Type κ) (xs : List A) (i : ℕ) (x : A)
    → All P xs
    → get_elem? xs i ≡ some x
    → P x
get_elem?-All P [] i x h e = absurd (cc e)
get_elem?-All P (y ∷ ys) zero x h e = subst P (some-injective _ _ e) h.0
get_elem?-All P (y ∷ ys) (suc i) x h e = get_elem?-All P ys i x h.1 e

module _ {Float : Type 0} (leaves : List (DecisionLeaf Float)) where
  -- An entry of the index map: the place of a leaf with the id.
  abbrev At : String × ℕ → Type 0
  At e = (leaf : DecisionLeaf Float) × (get_elem? leaves e.1 ≡ some leaf) × (leaf.decision_id ≡ e.0)

  index_map-At :
      (ls : List (DecisionLeaf Float)) (i : ℕ) (d : Dict ℕ)
      → ((j : ℕ) (leaf : DecisionLeaf Float)
          → get_elem? ls j ≡ some leaf
          → get_elem? leaves (i + j) ≡ some leaf)
      → All At d
      → All At (index_map i ls d)
  index_map-At [] i d places h = h
  index_map-At (leaf ∷ ls) i d places h =
      let n : i + 0 ≡ i = omega arith in
      index_map-At ls (i + 1) (insert leaf.decision_id i d)
        (λ j l e. subst (λ k. get_elem? leaves k ≡ some l) (omega arith) (places (suc j) l e))
        (All-insert At leaf.decision_id i d
          (leaf, subst (λ k. get_elem? leaves k ≡ some leaf) n (places 0 leaf refl), refl) h)

  -- A row whose index is the place of a leaf with its id.
  abbrev pub Indexed : DecisionRow Float → Type 0
  Indexed row =
      (i : ℕ) × (leaf : DecisionLeaf Float) × (row.leaf_index ≡ some i)
      × (get_elem? leaves i ≡ some leaf)
      × (leaf.decision_id ≡ row.leaf.decision_id)

  set_row-Indexed :
      (b id : String) (i : ℕ) (row : DecisionRow Float)
      → At (id, i)
      → str_eq row.leaf.decision_id id ≡ true
      → Indexed (set_row b id i row)
  set_row-Indexed b id i row (leaf, found, named) same =
      rw (same) (i, leaf, refl, found, named ∙ sym ((eq_iff row.leaf.decision_id id).0 same))

  updated-Indexed :
      (b : String) (d : Dict ℕ) (row : DecisionRow Float)
      → All At d
      → Indexed row
      → Indexed (updated b d row)
  updated-Indexed b [] row all h = h
  updated-Indexed b ((id, i) ∷ d) row all h = elim (Bool-cases (str_eq row.leaf.decision_id id)) [
    | inl same ↦
        updated-Indexed b d (set_row b id i row) all.1 (set_row-Indexed b id i row all.0 same)
    | inr other ↦ rw (updated, other) (updated-Indexed b d row all.1 h)
  ]

  present-Indexed :
      (b : String) (d : Dict ℕ) (row : DecisionRow Float)
      → All At d
      → is_some (lookup row.leaf.decision_id d) ≡ true
      → Indexed (updated b d row)
  present-Indexed b [] row all h = absurd (cc h)
  present-Indexed b ((id, i) ∷ d) row all h = elim (Bool-cases (str_eq row.leaf.decision_id id)) [
    | inl same ↦
        updated-Indexed b d (set_row b id i row) all.1 (set_row-Indexed b id i row all.0 same)
    | inr other ↦
        let later : is_some (lookup row.leaf.decision_id d) ≡ true =
          ground (arith, eq_iff row.leaf.decision_id id, eq_iff id row.leaf.decision_id, h) in
        rw (updated, other) (present-Indexed b d row all.1 later)
  ]

  pub index_map-Indexed :
      (b : String) (row : DecisionRow Float)
      → is_some (lookup row.leaf.decision_id (index_map 0 leaves [])) ≡ true
      → Indexed (updated b (index_map 0 leaves []) row)
  index_map-Indexed b row h =
      present-Indexed b (index_map 0 leaves []) row
        (index_map-At leaves 0 []
          (λ j leaf e. subst (λ k. get_elem? leaves k ≡ some leaf) (omega arith) e) tt)
        h

module _ {Float : Type 0} (rows : List (DecisionRow Float)) where
  -- A leaf of the decision that its id selects.
  abbrev pub Selects : DecisionLeaf Float → Type 0
  Selects leaf =
      (row : DecisionRow Float) × (fetch_decision_with_batch leaf.decision_id rows ≡ some row)
      × (row.leaf ≡ leaf)

  selected_leaves-Selects :
      (ws we : ℕ) (rs : List (DecisionRow Float))
      → All (λ r. fetch_decision_with_batch r.leaf.decision_id rows ≡ some r) rs
      → All Selects (selected_leaves ws we rs)
  selected_leaves-Selects ws we [] h = tt
  selected_leaves-Selects ws we (r ∷ rs) h = elim (Bool-cases (in_window ws we r)) [
    | inl e ↦ rw (selected_leaves, e) ((r, h.0, refl), selected_leaves-Selects ws we rs h.1)
    | inr e ↦ rw (selected_leaves, e) (selected_leaves-Selects ws we rs h.1)
  ]

  module _ (text_before : String → String → Bool) where
    insert_ordered-Selects :
        (leaf : DecisionLeaf Float) (ls : List (DecisionLeaf Float))
        → Selects leaf
        → All Selects ls
        → All Selects (insert_ordered text_before leaf ls)
    insert_ordered-Selects leaf [] h all = (h, tt)
    insert_ordered-Selects leaf (other ∷ ls) h all =
        elim (Bool-cases (precedes text_before leaf other)) [
          | inl e ↦ rw (e) (h, all)
          | inr e ↦ rw (e) (all.0, insert_ordered-Selects leaf ls h all.1)
        ]

    ordered-Selects :
        (ls : List (DecisionLeaf Float)) → All Selects ls → All Selects (ordered text_before ls)
    ordered-Selects [] all = tt
    ordered-Selects (leaf ∷ ls) all =
        insert_ordered-Selects leaf (ordered text_before ls) all.0 (ordered-Selects ls all.1)

    -- A leaf of the window is the leaf of the decision with its id.
    pub get_elem?-loaded :
        (ws we i : ℕ) (leaf : DecisionLeaf Float) (row : DecisionRow Float)
        → Coherent rows
        → get_elem? (ordered text_before (selected_leaves ws we rows)) i ≡ some leaf
        → fetch_decision_with_batch leaf.decision_id rows ≡ some row
        → row.leaf ≡ leaf
    get_elem?-loaded ws we i leaf row coherent found known =
        let (row', known', e) =
          get_elem?-All Selects (ordered text_before (selected_leaves ws we rows)) i leaf
            (ordered-Selects (selected_leaves ws we rows)
              (selected_leaves-Selects ws we rows coherent))
            found in
        ap (λ (r : DecisionRow Float). r.leaf) (some-injective _ _ (sym known ∙ known')) ∙ e
