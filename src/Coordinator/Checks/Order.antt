-- ===== src/Coordinator/Checks/Order.antt =====
-- The dependencies of a plan's steps, and orders of execution.
use ump.Prelude.{
  ℕ, suc, ◌<◌, ◌≤◌, String, ◌≡◌, sym, inl, inr, true, false, some, List, [], ◌∷◌, length, elem, All,
  ◌==◌, if◌then◌else◌, arith, eq_iff, Bool-cases,
}
use ump.Models.Step.{PlanStep}
use ump.Coordinator.Checks.Visit.{step_at}

module _ (steps : List PlanStep) where
  -- the step `x` lists `y` among its dependencies
  pub record Depends (x y : String) : Type 0 where
    pub step : PlanStep
    pub found : step_at x steps ≡ some step
    pub listed : elem y step.depends_on ≡ true

  -- a chain of dependencies
  pub data Reaches : String → String → Type 0 where
    direct : {x y : String} → Depends x y → Reaches x y
    further : {x y z : String} → Reaches x y → Depends y z → Reaches x z

  -- The latest step stands first: a step of the list has its dependencies behind it, and is there once.
  pub record Stands (x : String) (before : List String) : Type 0 where
    pub step : PlanStep
    pub found : step_at x steps ≡ some step
    pub after_all : All (λ d. elem d before ≡ true) step.depends_on
    pub once : elem x before ≡ false

  abbrev pub Ordered : List String → Type 0
  Ordered [] = Unit
  Ordered (x ∷ xs) = Stands x xs × Ordered xs

  -- how many steps stand at a step or before it
  unfoldable pub rank : String → List String → ℕ
  rank k [] = 0
  rank k (x ∷ xs) = let rest = rank k xs in if x == k then suc (length xs) else rest

  pub rank_le : (k : String) (xs : List String) → rank k xs ≤ length xs
  unfolding rank
  rank_le k [] = omega arith
  rank_le k (x ∷ xs) = ground (arith, rank_le k xs)

  All-elem :
      (d : String) (ds : List String) (xs : List String)
      → All (λ e. elem e xs ≡ true) ds
      → elem d ds ≡ true
      → elem d xs ≡ true
  All-elem d [] xs every h = cc
  All-elem d (e ∷ ds) xs (first, rest) h = elim (Bool-cases (e == d)) [
    | inl same ↦ rw (sym ((eq_iff e d).0 same)) first
    | inr other ↦ All-elem d ds xs rest (ground (arith, other, h))
  ]

  -- a name in the list is not one that is absent from it
  pub not_same :
      (z y : String) (xs : List String) → elem z xs ≡ false → elem y xs ≡ true → (z == y) ≡ false
  not_same z y xs absent here = elim (Bool-cases (z == y)) [
    | inr other ↦ other
    | inl same ↦ ground (arith, eq_iff z y, absent, here, same)
  ]

  Depends-rank :
      (xs : List String) (x y : String)
      → Ordered xs
      → elem x xs ≡ true
      → Depends x y
      → (elem y xs ≡ true) × (rank y xs < rank x xs)
  unfolding rank
  Depends-rank [] x y o h d = cc
  Depends-rank (z ∷ xs) x y (stands, o) h d = elim (Bool-cases (z == x)) [
    | inl same ↦
        let one : stands.step ≡ d.step = ground (arith, eq_iff z x, same, stands.found, d.found) in
        let here = All-elem y stands.step.depends_on xs stands.after_all (rw one d.listed) in
        let apart = not_same z y xs stands.once here in
        rw (same, apart) (here, omega (arith, rank_le y xs))
    | inr other ↦
        let (here, less) = Depends-rank xs x y o (ground (arith, other, h)) d in
        let apart = not_same z y xs stands.once here in rw (other, apart) (here, less)
  ]

  pub Reaches-rank :
      (xs : List String) (x y : String)
      → Ordered xs
      → elem x xs ≡ true
      → Reaches x y
      → (elem y xs ≡ true) × (rank y xs < rank x xs)
  Reaches-rank xs x y o h (direct d) = Depends-rank xs x y o h d
  Reaches-rank xs x z o h (further {y = y} r d) =
      let (here, less) = Reaches-rank xs x y o h r in
      let (there, least) = Depends-rank xs y z o here d in (there, omega (arith, less, least))

  -- No step that stands in an order waits for itself.
  pub Ordered-acyclic :
      (xs : List String) (x : String) → Ordered xs → elem x xs ≡ true → ¬ Reaches x x
  Ordered-acyclic xs x o h r = let (_, less) = Reaches-rank xs x x o h r in omega (arith, less)
