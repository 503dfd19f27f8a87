-- ===== src/Prelude/Count.antt =====
-- SELECT COUNT(*) over the rows of a table.
use ump.Prelude.Tests.{Bool-cases}
use ump.Prelude.Table.{select, update}
use ump.Prelude.Lists.{take}
use Prim.Native.Nat.{ℕ, zero, suc, ◌+◌, ◌≤◌}
use mathlib.Core.Path.{◌≡◌}
use mathlib.Core.Logic.{inl, inr}
use mathlib.Core.Bool.{Bool, true, false}
use mathlib.Core.List.{List, [], ◌∷◌, ◌++◌}
use native.Mathlib.Omega.{arith}

-- 1 for a row that meets a test
abbrev pub unit : Bool → ℕ
unit true = 1
unit false = 0

module _ {ℓ} {R : Type ℓ} where
  unfoldable pub count : (R → Bool) → List R → ℕ
  count p [] = 0
  count p (r ∷ rows) = unit (p r) + count p rows

  pub count-append :
      (p : R → Bool) (rows new : List R) → count p (rows ++ new) ≡ count p rows + count p new
  unfolding count
  count-append p [] new = omega arith
  count-append p (r ∷ rows) new = omega (arith, count-append p rows new)

  pub count-take : (p : R → Bool) (n : ℕ) (rows : List R) → count p (take n rows) ≤ count p rows
  unfolding count
  count-take p zero rows = omega arith
  count-take p (suc n) [] = omega arith
  count-take p (suc n) (r ∷ rows) = omega (arith, count-take p n rows)

  -- a write after which no more rows meet the test
  pub count-update-le :
      (p q : R → Bool) (f : R → R) (rows : List R)
      → ((r : R) → q r ≡ true → unit (p (f r)) ≤ unit (p r))
      → count p (update q f rows) ≤ count p rows
  unfolding count update
  count-update-le p q f [] h = omega arith
  count-update-le p q f (r ∷ rows) h = elim (Bool-cases (q r)) [
    | inl e ↦ rw e (omega (arith, h r e, count-update-le p q f rows h))
    | inr e ↦ rw e (omega (arith, count-update-le p q f rows h))
  ]

  pub count-select-le : (p q : R → Bool) (rows : List R) → count p (select q rows) ≤ count p rows
  unfolding count select
  count-select-le p q [] = omega arith
  count-select-le p q (r ∷ rows) = elim (Bool-cases (q r)) [
    | inl e ↦ rw e (omega (arith, count-select-le p q rows))
    | inr e ↦ rw e (omega (arith, count-select-le p q rows))
  ]
