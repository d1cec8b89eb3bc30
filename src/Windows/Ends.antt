-- ===== src/Windows/Ends.antt =====
-- The ends of the windows whose batches are stored.
use Prim.Native.String.{String}
use text.Mathlib.Text.{◌==◌ as str_eq}
use mathlib.Core.Option.{some-injective}
use mathlib.Core.Option
use mathlib.Core.Path.{subst}
use omni_aegis.Prelude.{
  ℕ, ◌≤◌, ◌≡◌, refl, sym, inl, inr, List, [], ◌∷◌, ◌++◌, some, arith, max, All, map, map-All,
  Bool-cases,
}
use omni_aegis.Merkle.{MerkleBatch}
use omni_aegis.Windows.{BatchStatus, BatchRow, has_batch, insert_batch, marked_row}
use omni_aegis.Windows.Loop.{max_window_end}

abbrev pub Ends : ℕ → List BatchRow → Type 0
Ends w = All (λ row. row.batch.window_end ≤ w)

pub Ends-le : (w w' : ℕ) (rows : List BatchRow) → w ≤ w' → Ends w rows → Ends w' rows
Ends-le w w' [] h e = tt
Ends-le w w' (row ∷ rows) h e = (omega (arith, e.0, h), Ends-le w w' rows h e.1)

Ends-append :
    (w : ℕ) (rows : List BatchRow) (row : BatchRow)
    → Ends w rows
    → row.batch.window_end ≤ w
    → Ends w (rows ++ row ∷ [])
Ends-append w [] row e h = (h, tt)
Ends-append w (r ∷ rows) row e h = (e.0, Ends-append w rows row e.1 h)

pub Ends-insert_batch :
    (w : ℕ) (batch : MerkleBatch) (rows : List BatchRow)
    → Ends w rows
    → batch.window_end ≤ w
    → Ends w (insert_batch batch rows)
Ends-insert_batch w batch rows e h = elim (Bool-cases (has_batch batch.batch_id rows)) [
  | inl known ↦ rw (known) e
  | inr new ↦ rw (new) (Ends-append w rows _ e h)
]

pub marked_row-batch :
    (id : String) (status : BatchStatus) (row : BatchRow)
    → (marked_row id status row).batch ≡ row.batch
marked_row-batch id status row = elim (Bool-cases (str_eq row.batch.batch_id id)) [
  | inl e ↦ rw (e) refl
  | inr e ↦ rw (e) refl
]

pub Ends-marked_row :
    (w : ℕ) (id : String) (status : BatchStatus) (rows : List BatchRow)
    → Ends w rows
    → Ends w (map (marked_row id status) rows)
Ends-marked_row w id status rows =
    map-All (marked_row id status) (λ row. row.batch.window_end ≤ w)
      (λ row h.
        subst (λ (b : MerkleBatch). b.window_end ≤ w) (sym (marked_row-batch id status row)) h)
      rows

-- A restored cursor is at or before any bound of the windows.
pub Ends-max_window_end :
    (w n : ℕ) (rows : List BatchRow)
    → Ends w rows
    → max_window_end rows ≡ some n
    → (n ≤ w) × Ends n rows
Ends-max_window_end w n [] e h = absurd (cc h)
Ends-max_window_end w n (row ∷ []) e h =
    let q : max row.batch.window_end row.batch.window_end ≡ n = some-injective _ _ h in
    (omega (arith, e.0, q), (omega (arith, q), tt))
Ends-max_window_end w n (row ∷ r ∷ rows) e h =
    let k : ℕ = max r.batch.window_end (Option.get_or (max_window_end rows) r.batch.window_end) in
    let q : max row.batch.window_end k ≡ n = some-injective _ _ h in
    let (below, rest) = Ends-max_window_end w k (r ∷ rows) e.1 refl in
    (
      omega (arith, e.0, below, q),
      (omega (arith, q), Ends-le k n (r ∷ rows) (omega (arith, q)) rest),
    )
