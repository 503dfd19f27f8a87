-- ===== src/Prelude/Table.antt =====
-- SQLite tables as lists of rows in rowid order, and the statements that the stores run on them.
-- Rows that are compared by a TEXT key are read and written through the function `key`.
use Prim.Native.String.{String}
use mathlib.Core.Path.{◌≡◌, refl, ap}
use mathlib.Core.Bool.{Bool, true}
use mathlib.Core.Option.{Option, none, some}
use mathlib.Core.List.{List, [], ◌∷◌, ◌++◌}
use native.Mathlib.Omega.{arith}
use text.Mathlib.Text.{◌==◌}
use text.Mathlib.TextEquality.{eq_iff}
use ump.Prelude.Tests.{if◌then◌else◌}

module _ {ℓ} {R : Type ℓ} where
  -- SELECT * WHERE p ORDER BY rowid
  unfoldable pub select : (R → Bool) → List R → List R
  select p [] = []
  select p (r ∷ rows) = let rest = select p rows in if p r then r ∷ rest else rest

  -- UPDATE SET f WHERE p
  unfoldable pub update : (R → Bool) → (R → R) → List R → List R
  update p f [] = []
  update p f (r ∷ rows) = (if p r then f r else r) ∷ update p f rows

  -- the row after UPDATE SET f WHERE p
  abbrev pub updated : (R → Bool) → (R → R) → Option R → Option R
  updated p f none = none
  updated p f (some r) = some (if p r then f r else r)

  -- the row for a key after INSERT
  abbrev pub or_else : Option R → Bool → R → Option R
  or_else (some r) hit new = some r
  or_else none hit new = if hit then some new else none

module _ {ℓ} {R : Type ℓ} where
  pub select-append :
      (p : R → Bool) (rows : List R) (new : R)
      → select p (rows ++ new ∷ []) ≡ (if p new then select p rows ++ new ∷ [] else select p rows)
  unfolding select
  select-append p [] new = refl
  select-append p (r ∷ rows) new = ground (arith, select-append p rows new)

module _ {ℓ} {R : Type ℓ} (key : R → String) where
  -- SELECT * WHERE key = ?, fetchone
  unfoldable pub find : String → List R → Option R
  find k [] = none
  find k (r ∷ rows) = let rest = find k rows in if key r == k then some r else rest

  pub find-update :
      (k : String) (p : R → Bool) (f : R → R) (rows : List R)
      → ((r : R) → key (f r) ≡ key r)
      → find k (update p f rows) ≡ updated p f (find k rows)
  unfolding find update
  find-update k p f [] keep = refl
  find-update k p f (r ∷ rows) keep = ground (arith, keep r, find-update k p f rows keep)

  pub find-append :
      (k : String) (rows : List R) (new : R)
      → find k (rows ++ new ∷ []) ≡ or_else (find k rows) (key new == k) new
  unfolding find
  find-append k [] new = refl
  find-append k (r ∷ rows) new = ground (arith, find-append k rows new)

  pub find-key : (k : String) (rows : List R) (r : R) → find k rows ≡ some r → key r ≡ k
  unfolding find
  find-key k [] r h = ground arith
  find-key k (x ∷ rows) r h = ground (arith, find-key k rows r, eq_iff (key x) k)

  -- a row that DELETE keeps is still found
  pub find-select :
      (k : String) (p : R → Bool) (rows : List R) (r : R)
      → find k rows ≡ some r
      → p r ≡ true
      → find k (select p rows) ≡ some r
  unfolding find select
  find-select k p [] r h keep = cc
  find-select k p (x ∷ rows) r h keep = ground (arith, find-select k p rows r, ap p {x = x} {y = r})
