-- ===== src/Audit/Due.antt =====
-- The choice of the next item: what `_get_next_due_item` returns of the queue.
use mathlib.Core.Path.{subst}
use omni_aegis.Prelude.{
  ◌≡◌, sym, ap, ◌∙◌, true, false, ◌⊎◌, inl, inr, List, [], ◌∷◌, none, some, arith, All, Bool-cases,
  Option-cases,
}
use omni_aegis.Audit.{
  Floats, PendingAudit, State, get_next_due_item, values, due_items, sort, insert_sorted, before,
  first,
}

module _ {fl : Floats} {D E : Type 0} where
  abbrev pub Member : PendingAudit fl D E → List (PendingAudit fl D E) → Type 0
  Member item [] = ⊥
  Member item (other ∷ items) = (other ≡ item) ⊎ Member item items

  pub All-Member :
      (P : PendingAudit fl D E → Type 0) (item : PendingAudit fl D E)
      (items : List (PendingAudit fl D E))
      → All P items
      → Member item items
      → P item
  All-Member P item [] all h = elim h [ ]
  All-Member P item (other ∷ items) all (inl same) = subst P same all.0
  All-Member P item (other ∷ items) all (inr later) = All-Member P item items all.1 later

  Member-due_items :
      (now : fl.Float) (item : PendingAudit fl D E) (items : List (PendingAudit fl D E))
      → Member item (due_items now items)
      → Member item items × (fl.le item.next_retry_unix now ≡ true)
  Member-due_items now item [] h = elim h [ ]
  Member-due_items now item (other ∷ items) h =
      elim (Bool-cases (fl.le other.next_retry_unix now)) [
        | inl due ↦ of_first (Member-due_items now item items) due (rw (due) at h)
        | inr early ↦
            let (there, is_due) = Member-due_items now item items (rw (early) at h) in
            (inr there, is_due)
      ]
    where
      of_first :
          (Member item (due_items now items)
            → Member item items × (fl.le item.next_retry_unix now ≡ true))
          → fl.le other.next_retry_unix now ≡ true
          → (other ≡ item) ⊎ Member item (due_items now items)
          → Member item (other ∷ items) × (fl.le item.next_retry_unix now ≡ true)
      of_first ih due (inl same) =
          (inl same, ap (λ i. fl.le i.next_retry_unix now) (sym same) ∙ due)
      of_first ih due (inr later) = let (there, is_due) = ih later in (inr there, is_due)

  Member-insert_sorted :
      (x item : PendingAudit fl D E) (items : List (PendingAudit fl D E))
      → Member x (insert_sorted item items)
      → (item ≡ x) ⊎ Member x items
  Member-insert_sorted x item [] h = h
  Member-insert_sorted x item (other ∷ items) h = elim (Bool-cases (before other item)) [
    | inl smaller ↦ behind (Member-insert_sorted x item items) (rw (smaller) at h)
    | inr larger ↦ rw (larger) at h
  ]
    where
      behind :
          (Member x (insert_sorted item items) → (item ≡ x) ⊎ Member x items)
          → (other ≡ x) ⊎ Member x (insert_sorted item items)
          → (item ≡ x) ⊎ Member x (other ∷ items)
      behind ih (inl same) = inr (inl same)
      behind ih (inr later) = elim (ih later) [ inl it ↦ inl it | inr there ↦ inr (inr there) ]

  Member-sort :
      (x : PendingAudit fl D E) (items : List (PendingAudit fl D E))
      → Member x (sort items)
      → Member x items
  Member-sort x [] h = elim h [ ]
  Member-sort x (item ∷ items) h = elim (Member-insert_sorted x item (sort items) h) [
    | inl it ↦ inl it
    | inr later ↦ inr (Member-sort x items later)
  ]

  -- The sort key is a total order.
  before_asym : (a b : PendingAudit fl D E) → before a b ≡ true → before b a ≡ false
  before_asym a b h = ground (arith, fl.le-total a.next_retry_unix b.next_retry_unix)

  before_irrefl : (a : PendingAudit fl D E) → before a a ≡ false
  before_irrefl a = ground (arith, fl.le-total a.next_retry_unix a.next_retry_unix)

  before_trans :
      (a b c : PendingAudit fl D E) → before b a ≡ false → before c b ≡ false → before c a ≡ false
  before_trans a b c h h' =
      let x = a.next_retry_unix in
      let y = b.next_retry_unix in
      let z = c.next_retry_unix in
      ground (
        arith,
        fl.le-total x y,
        fl.le-total y z,
        fl.le-total x z,
        fl.le-trans x y z,
        fl.le-trans z y x,
        fl.le-trans y x z,
        fl.le-trans z x y,
        fl.le-trans y z x,
        fl.le-trans x z y,
      )

  -- Nothing comes before an item.
  abbrev pub IsFirst : PendingAudit fl D E → List (PendingAudit fl D E) → Type 0
  IsFirst item [] = Unit
  IsFirst item (other ∷ items) = (before other item ≡ false) × IsFirst item items

  IsFirst-trans :
      (a b : PendingAudit fl D E) (items : List (PendingAudit fl D E))
      → before b a ≡ false
      → IsFirst b items
      → IsFirst a items
  IsFirst-trans a b [] h all = tt
  IsFirst-trans a b (c ∷ items) h all =
      (before_trans a b c h all.0, IsFirst-trans a b items h all.1)

  IsFirst-insert_sorted :
      (a item : PendingAudit fl D E) (items : List (PendingAudit fl D E))
      → before item a ≡ false
      → IsFirst a items
      → IsFirst a (insert_sorted item items)
  IsFirst-insert_sorted a item [] h all = (h, tt)
  IsFirst-insert_sorted a item (other ∷ items) h all = elim (Bool-cases (before other item)) [
    | inl smaller ↦ rw (smaller) (all.0, IsFirst-insert_sorted a item items h all.1)
    | inr larger ↦ rw (larger) (h, all)
  ]

  -- The head of a sorted list is its first.
  abbrev HeadIsFirst : List (PendingAudit fl D E) → Type 0
  HeadIsFirst [] = Unit
  HeadIsFirst (item ∷ items) = IsFirst item (item ∷ items)

  insert_sorted-HeadIsFirst :
      (item : PendingAudit fl D E) (items : List (PendingAudit fl D E))
      → HeadIsFirst items
      → HeadIsFirst (insert_sorted item items)
  insert_sorted-HeadIsFirst item [] h = (before_irrefl item, tt)
  insert_sorted-HeadIsFirst item (other ∷ items) h = elim (Bool-cases (before other item)) [
    | inl smaller ↦
        rw (smaller)
          (h.0, IsFirst-insert_sorted other item items (before_asym other item smaller) h.1)
    | inr larger ↦
        rw (larger) (before_irrefl item, (larger, IsFirst-trans item other items larger h.1))
  ]

  sort-HeadIsFirst : (items : List (PendingAudit fl D E)) → HeadIsFirst (sort items)
  sort-HeadIsFirst [] = tt
  sort-HeadIsFirst (item ∷ items) =
      insert_sorted-HeadIsFirst item (sort items) (sort-HeadIsFirst items)

  -- Back from the sorted list of the due items to the queue.
  of_insert_sorted :
      (a item : PendingAudit fl D E) (items : List (PendingAudit fl D E))
      → IsFirst a (insert_sorted item items)
      → (before item a ≡ false) × IsFirst a items
  of_insert_sorted a item [] h = h
  of_insert_sorted a item (other ∷ items) h = elim (Bool-cases (before other item)) [
    | inl smaller ↦
        let h' = (rw (smaller) at h) in
        let (it, rest) = of_insert_sorted a item items h'.1 in (it, (h'.0, rest))
    | inr larger ↦ rw (larger) at h
  ]

  of_sort :
      (a : PendingAudit fl D E) (items : List (PendingAudit fl D E))
      → IsFirst a (sort items)
      → IsFirst a items
  of_sort a [] h = tt
  of_sort a (item ∷ items) h =
      let (it, rest) = of_insert_sorted a item (sort items) h in (it, of_sort a items rest)

  -- An item that is due comes before no other that is not.
  abbrev pub NoneBefore : fl.Float → PendingAudit fl D E → List (PendingAudit fl D E) → Type 0
  NoneBefore now item [] = Unit
  NoneBefore now item (other ∷ items) =
      (fl.le other.next_retry_unix now ≡ true → before other item ≡ false)
      × NoneBefore now item items

  of_due_items :
      (now : fl.Float) (a : PendingAudit fl D E) (items : List (PendingAudit fl D E))
      → IsFirst a (due_items now items)
      → NoneBefore now a items
  of_due_items now a [] h = tt
  of_due_items now a (item ∷ items) h = elim (Bool-cases (fl.le item.next_retry_unix now)) [
    | inl due ↦ let h' = (rw (due) at h) in (λ is_due. h'.0, of_due_items now a items h'.1)
    | inr early ↦
        (λ is_due. absurd (cc (early, is_due)), of_due_items now a items (rw (early) at h))
  ]

  abbrev pub NotDue : fl.Float → PendingAudit fl D E → Type 0
  NotDue now item = fl.le item.next_retry_unix now ≡ false

  NotDue-due_items :
      (now : fl.Float) (items : List (PendingAudit fl D E))
      → first (sort (due_items now items)) ≡ none
      → All (NotDue now) items
  NotDue-due_items now [] h = tt
  NotDue-due_items now (item ∷ items) h = elim (Bool-cases (fl.le item.next_retry_unix now)) [
    | inl due ↦ absurd (never item (sort (due_items now items)) (rw (due) at h))
    | inr early ↦ (early, NotDue-due_items now items (rw (early) at h))
  ]
    where
      never :
          (item : PendingAudit fl D E) (items : List (PendingAudit fl D E))
          → first (insert_sorted item items) ≡ none
          → ⊥
      never item [] h = absurd (cc h)
      never item (other ∷ items) h = elim (Bool-cases (before other item)) [
        | inl smaller ↦ absurd (cc (rw (smaller) at h))
        | inr larger ↦ absurd (cc (rw (larger) at h))
      ]

  of_first_item :
      (items : List (PendingAudit fl D E)) (item : PendingAudit fl D E)
      → first items ≡ some item
      → HeadIsFirst items
      → Member item items × IsFirst item items
  of_first_item [] item e h = absurd (cc e)
  of_first_item (other ∷ items) item e h =
      let same : other ≡ item = cc e in (inl same, subst (λ i. IsFirst i (other ∷ items)) same h)

  -- The worker's choice: it returns an item of the queue that is due, and no due item of the queue has
  -- an earlier retry time, or the same one with fewer attempts; or it returns nothing, and then no
  -- item of the queue is due.
  pub get_next_due_item-cases :
      (now : fl.Float) (s : State fl D E)
      → ((item : PendingAudit fl D E) × (get_next_due_item now s ≡ some item)
          × Member item (values s.pending)
          × (fl.le item.next_retry_unix now ≡ true)
          × NoneBefore now item (values s.pending))
        ⊎ ((get_next_due_item now s ≡ none) × All (NotDue now) (values s.pending))
  unfolding get_next_due_item
  get_next_due_item-cases now s =
      let due = due_items now (values s.pending) in
      elim (Option-cases (first (sort due))) [
        | inl nothing ↦ inr (nothing, NotDue-due_items now (values s.pending) nothing)
        | inr (item, found) ↦
            let (there, is_first) = of_first_item (sort due) item found (sort-HeadIsFirst due) in
            let (queued, is_due) =
              Member-due_items now item (values s.pending) (Member-sort item due there) in
            inl (
              item,
              found,
              queued,
              is_due,
              of_due_items now item (values s.pending) (of_sort item due is_first),
            )
      ]
