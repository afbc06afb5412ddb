-- ===== src/Prelude/Table.antt =====
-- Database tables: lists of rows in the order of their ids, with a fresh id for a new row.
use Prim.Native.Nat.{ℕ, ◌≤◌, ◌<◌, suc, max}
use mathlib.Core.Path.{◌≡◌}
use mathlib.Core.Option.{Option, none, some}
use mathlib.Core.List.{List, [], ◌∷◌, ◌++◌}
use native.Mathlib.Omega.{arith}
use mathlib.Core.Path.{refl}
use mathlib.Core.Bool.{false}
use mathlib.Core.Logic.{inl, inr}
use the_watcher.Prelude.Tests.{nat_eq, if◌then◌else◌, Bool-cases}

pub record HasId {ℓ} (A : Type ℓ) : Type ℓ where
  pub row_id : A → ℕ

module _ {ℓ} {A : Type ℓ} ⦃h : HasId A⦄ where
  -- The id that the database gives to the next row.
  unfoldable pub fresh_id : List A → ℕ
  fresh_id [] = 1
  fresh_id (r ∷ rows) = max (suc (h.row_id r)) (fresh_id rows)

  -- `session.get(Table, id)`
  unfoldable pub get_row : ℕ → List A → Option A
  get_row i [] = none
  get_row i (r ∷ rows) = let rest = get_row i rows in if nat_eq (h.row_id r) i then some r else rest

  -- The change of the row that `session.get(Table, id)` returns.
  unfoldable pub update_row : ℕ → (A → A) → List A → List A
  update_row i f [] = []
  update_row i f (r ∷ rows) =
      let rest = update_row i f rows in if nat_eq (h.row_id r) i then f r ∷ rows else r ∷ rest

  abbrev pub Below : ℕ → List A → Type 0
  Below n [] = Unit
  Below n (r ∷ rows) = (h.row_id r < n) × Below n rows

  pub Below-mono : (m n : ℕ) (rows : List A) → m ≤ n → Below m rows → Below n rows
  Below-mono m n [] le b = tt
  Below-mono m n (r ∷ rows) le b = (omega arith, Below-mono m n rows le b.1)

  pub Below-fresh_id : (rows : List A) → Below (fresh_id rows) rows
  unfolding fresh_id
  Below-fresh_id [] = tt
  Below-fresh_id (r ∷ rows) =
      (omega arith, Below-mono (fresh_id rows) _ rows (omega arith) (Below-fresh_id rows))

  -- The new row is the one that its id finds, and the update of that id touches no other row.
  pub update_row-append :
      (i : ℕ) (f : A → A) (rows : List A) (r : A)
      → Below i rows
      → h.row_id r ≡ i
      → update_row i f (rows ++ r ∷ []) ≡ rows ++ f r ∷ []
  unfolding update_row
  update_row-append i f [] r b e = ground arith
  update_row-append i f (s ∷ rows) r b e = ground (arith, update_row-append i f rows r b.1 e)

  pub get_row-append :
      (i : ℕ) (rows : List A) (r : A)
      → Below i rows
      → h.row_id r ≡ i
      → get_row i (rows ++ r ∷ []) ≡ some r
  unfolding get_row
  get_row-append i [] r b e = ground arith
  get_row-append i (s ∷ rows) r b e = ground (arith, get_row-append i rows r b.1 e)

  abbrev pub change_row : (A → A) → Option A → Option A
  change_row f none = none
  change_row f (some r) = some (f r)

  -- The update of an id is what the id finds afterwards, and no other id does.
  pub get_row-update_row :
      (i : ℕ) (f : A → A) (rows : List A)
      → ((r : A) → h.row_id (f r) ≡ h.row_id r)
      → get_row i (update_row i f rows) ≡ change_row f (get_row i rows)
  unfolding get_row update_row
  get_row-update_row i f [] keeps = refl
  get_row-update_row i f (r ∷ rows) keeps = elim (Bool-cases (nat_eq (h.row_id r) i)) [
    | inl e ↦ rw (e, keeps r, e) refl
    | inr e ↦ rw (e, e) (get_row-update_row i f rows keeps)
  ]

  pub get_row-update_other :
      (i j : ℕ) (f : A → A) (rows : List A)
      → ((r : A) → h.row_id (f r) ≡ h.row_id r)
      → nat_eq j i ≡ false
      → get_row i (update_row j f rows) ≡ get_row i rows
  unfolding get_row update_row
  get_row-update_other i j f [] keeps differ = refl
  get_row-update_other i j f (r ∷ rows) keeps differ = elim (Bool-cases (nat_eq (h.row_id r) j)) [
    | inl e ↦
        let away : nat_eq (h.row_id r) i ≡ false = ground (arith, e, differ) in
        rw (e, keeps r, away) refl
    | inr e ↦ elim (Bool-cases (nat_eq (h.row_id r) i)) [
      | inl mine ↦ rw (e, mine) refl
      | inr other ↦ rw (e, other) (get_row-update_other i j f rows keeps differ)
    ]
  ]
