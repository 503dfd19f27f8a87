-- ===== src/Coordinator/Checks/Acyclic.antt =====
-- What the depth-first search of `validate_plan` decides.
use ump.Prelude.{
  suc, ◌≤◌, String, ◌≡◌, refl, sym, ◌∙◌, ◌⊎◌, inl, inr, true, some, is_some, List, [], ◌∷◌, length,
  map, elem, All, ◌==◌, ok, err, arith, eq_iff, eq_refl, Bool-cases, subst, ◌↔◌,
}
use ump.Prelude.Count.{count}
use ump.Prelude.Table.{find}
use ump.Models.Step.{PlanStep}
use ump.Coordinator.Checks.Visit.{Visits, cycle, step_id_of, step_at, visit, check_cycles}
use ump.Coordinator.Checks.Order.{Reaches, direct, further, Ordered, Ordered-acyclic}
use ump.Coordinator.Checks.Cycles.{Closed, waiting, Fits, Allowed, visit_all-Ends, visit-Ends}

count-all_le : (steps : List PlanStep) → count (waiting []) steps ≤ length steps
unfolding count
count-all_le [] = omega arith
count-all_le (s ∷ steps) = omega (arith, count-all_le steps)

-- a step's identifier names a step
ids-known :
    (steps all : List PlanStep)
    → ((k : String) → is_some (step_at k steps) ≡ true → is_some (step_at k all) ≡ true)
    → All (Allowed all []) (map step_id_of steps)
unfolding find
ids-known [] all within = tt
ids-known (s ∷ steps) all within = (
  record { known = within s.step_id (rw (eq_refl s.step_id) refl); reached = λ u h. cc },
  ids-known steps all (λ k h. within k (ground (arith, h))),
)

-- Where every dependency names a step, the search needs no more fuel than it has, and decides
-- whether the plan can be carried out: it returns, and then it has visited every step and the order
-- of its visits, latest first, has every step once and after all its dependencies; or it raises the
-- error for a cycle, and then some step waits for itself.
pub check_cycles-decides :
    (steps : List PlanStep)
    → Closed steps
    → ((v : Visits) × (check_cycles steps ≡ ok v)
        × Ordered steps v.visited
        × All (λ id. elem id v.visited ≡ true) (map step_id_of steps))
      ⊎ ((check_cycles steps ≡ err cycle) × (x : String) × Reaches steps x x)
unfolding check_cycles
check_cycles-decides steps closed =
    let start : Visits = record { visiting = []; visited = [] } in
    let fits : Fits steps start = record { ordered = tt; apart = λ u h. refl } in
    elim (visit_all-Ends steps (visit (suc (length steps)) steps) (Allowed steps []) []
      (visit-Ends steps closed (suc (length steps)) [] (omega (arith, count-all_le steps)))
      (map step_id_of steps) start refl fits (ids-known steps steps (λ k h. h))) [
        | inl (v, e, after, all) ↦ inl (v, e, after.fits.ordered, all)
        | inr cyclic ↦ inr cyclic
      ]

named-elem :
    (P : String → Type 0) (x : String) (steps : List PlanStep) (s : PlanStep)
    → All P (map step_id_of steps)
    → step_at x steps ≡ some s
    → P x
unfolding find
named-elem P x [] s every h = cc
named-elem P x (r ∷ steps) s (first, rest) h = elim (Bool-cases (r.step_id == x)) [
  | inl e ↦ subst P ((eq_iff r.step_id x).0 e) first
  | inr e ↦ named-elem P x steps s rest (rw e at h)
]

Reaches-step :
    (steps : List PlanStep) (x y : String)
    → Reaches steps x y
    → (s : PlanStep) × (step_at x steps ≡ some s)
Reaches-step steps x y (direct d) = (d.step, d.found)
Reaches-step steps x z (further {y = y} r d) = Reaches-step steps x y r

-- Where every dependency names a step, the search raises the error for a cycle exactly when some
-- step waits for itself through a chain of dependencies.
pub check_cycles_iff :
    (steps : List PlanStep)
    → Closed steps
    → (check_cycles steps ≡ err cycle) ↔ ((x : String) × Reaches steps x x)
check_cycles_iff steps closed = elim (check_cycles-decides steps closed) [
  | inr (e, x, r) ↦ (λ h. (x, r), λ c. e)
  | inl (v, e, ordered, all) ↦ (
    λ h. let impossible = sym e ∙ h in cc,
    λ c.
        let (s, found) = Reaches-step steps c.0 c.0 c.1 in
        absurd (
          Ordered-acyclic steps v.visited c.0 ordered
            (named-elem (λ id. elem id v.visited ≡ true) c.0 steps s all found) c.1),
  )
]
