-- ===== src/Coordinator/Checks/Sound.antt =====
-- What a plan that `validate_plan` accepts, or refuses for a cycle, is like.
use ump.Prelude.{
  String, ◌≡◌, ◌≢◌, refl, subst, ◌⊎◌, inl, inr, true, not, ◌||◌, some, is_some, some-injective,
  List, [], ◌∷◌, length, map, all, any, elem, All, unique, ltb, ◌==◌, Result, ok, err, refuse,
  arith, eq_iff, Bool-cases, >>=-eq-ok, raises-bind, raises-refuse,
}
use ump.Prelude.Int.{ℤ, pos, ltb_ℤ}
use ump.Prelude.Table.{find}
use ump.Models.Step.{PlanStep}
use ump.Models.Plan.{SharedGoal, Plan, plan_payload}
use ump.Transport.Envelope.{Encoded, TransportError}
use ump.Runtime.Registry.{Registry}
use ump.Coordinator.Checks.{
  PlanValidationError, dependency_cycle, search_failed, bad_identity, too_many_steps, bad_step_ids,
  fits, validate_core_message_size, check_steps, no_cycle, no_steps, validate_plan,
}
use ump.Coordinator.Checks.Visit.{step_id_of, step_at, check_cycles}
use ump.Coordinator.Checks.Order.{Reaches, Ordered}
use ump.Coordinator.Checks.Cycles.{Closed}
use ump.Coordinator.Checks.Acyclic.{check_cycles-decides}
use ump.Coordinator.Checks.Steps.{CanRun, check_steps-CanRun, Elsewhere, check_steps-Elsewhere}

-- a row that is found has what every row has
All-find :
    (P : PlanStep → Type 0) (k : String) (steps : List PlanStep) (s : PlanStep)
    → All P steps
    → step_at k steps ≡ some s
    → P s
unfolding find
All-find P k [] s every h = cc
All-find P k (r ∷ steps) s (first, rest) h = elim (Bool-cases (r.step_id == k)) [
  | inl e ↦ subst P (some-injective (rw e at h)) first
  | inr e ↦ All-find P k steps s rest (rw e at h)
]

all-elem :
    (known ds : List String) (d : String)
    → all (λ e. elem e known) ds ≡ true
    → elem d ds ≡ true
    → elem d known ≡ true
all-elem known [] d every h = cc
all-elem known (e ∷ ds) d every h = elim (Bool-cases (e == d)) [
  | inl same ↦ ground (arith, eq_iff e d, same, every)
  | inr other ↦ all-elem known ds d (ground (arith, every)) (ground (arith, other, h))
]

found_id :
    (d : String) (steps : List PlanStep)
    → elem d (map step_id_of steps) ≡ true
    → is_some (step_at d steps) ≡ true
unfolding find
found_id d [] h = cc
found_id d (s ∷ steps) h = ground (arith, found_id d steps, h)

-- the dependencies of a step are among `known`
abbrev pub Named : List String → PlanStep → Type 0
Named known s = all (λ d. elem d known) s.depends_on ≡ true

pub Named-Closed : (steps : List PlanStep) → All (Named (map step_id_of steps)) steps → Closed steps
Named-Closed steps every x d s at_x listed = found_id d steps (
    all-elem (map step_id_of steps) s.depends_on d
      (All-find (Named (map step_id_of steps)) x steps s every at_x) listed)

CanRun-Named :
    (goal : SharedGoal) (known : List String) (registry : Registry) (now : ℤ)
    (steps : List PlanStep)
    → All (CanRun goal known registry now) steps
    → All (Named known) steps
CanRun-Named goal known registry now [] every = tt
CanRun-Named goal known registry now (s ∷ steps) (first, rest) =
    (first.named, CanRun-Named goal known registry now steps rest)

module _ (goal : SharedGoal) (registry : Registry) (now : ℤ) (steps : List PlanStep) where
  CanRun-Closed : All (CanRun goal (map step_id_of steps) registry now) steps → Closed steps
  CanRun-Closed every =
      Named-Closed steps (CanRun-Named goal (map step_id_of steps) registry now steps every)

  -- an order for all steps
  pub record Schedule : Type 0 where
    pub order : List String
    pub ordered : Ordered steps order
    pub complete : All (λ id. elem id order ≡ true) (map step_id_of steps)

  search-ok : Closed steps → no_cycle (check_cycles steps) ≡ ok tt → Schedule
  search-ok closed h = elim (check_cycles-decides steps closed) [
    | inl (v, e, ordered, all) ↦ record { order = v.visited; ordered = ordered; complete = all }
    | inr (e, x, r) ↦ let impossible = rw e at h in cc
  ]

  search-err :
      (e : PlanValidationError)
      → Closed steps
      → no_cycle (check_cycles steps) ≡ err e
      → (e ≡ dependency_cycle) × (x : String) × Reaches steps x x
  search-err e closed h = elim (check_cycles-decides steps closed) [
    | inl (v, r, ordered, all) ↦ let impossible = rw r at h in cc
    | inr (r, x, cyclic) ↦ (ground (arith, r, h), x, cyclic)
  ]

module _ (message_id : String) (goal : SharedGoal) (plan : Plan) (registry : Registry)
    (now : ℤ) where
  -- The plan of a validation that raised for none of its steps.
  validated_steps :
      validate_plan message_id goal plan registry now ≡ ok tt
      → (check_steps goal (map step_id_of plan.steps) registry now plan.steps ≡ ok tt)
        × (no_cycle (check_cycles plan.steps) ≡ ok tt)
  unfolding validate_plan
  validated_steps h =
      let (_, _, h₁) =
        >>=-eq-ok (validate_core_message_size message_id "plan" (plan_payload plan)) _ h in
      let (_, _, h₂) =
        >>=-eq-ok
          (refuse
            (not (plan.goal_id == goal.goal_id)
              || (ltb_ℤ plan.revision (pos 1) || no_steps plan.steps))
            bad_identity)
          _ h₁ in
      let (_, _, h₃) = >>=-eq-ok (refuse (ltb 256 (length plan.steps)) too_many_steps) _ h₂ in
      let (_, _, h₄) =
        >>=-eq-ok
          (refuse
            (any (λ id. id == "") (map step_id_of plan.steps)
              || not (unique (map step_id_of plan.steps)))
            bad_step_ids)
          _ h₃ in
      let (_, checked, h₅) =
        >>=-eq-ok (check_steps goal (map step_id_of plan.steps) registry now plan.steps) _ h₄ in
      (checked, h₅)

  -- what an error says of the dependencies
  abbrev Explained : PlanValidationError → Type 0
  Explained e =
      Elsewhere goal (map step_id_of plan.steps) registry now e
      ⊎ ((e ≡ dependency_cycle) × (x : String) × Reaches plan.steps x x)

  fits-Explained :
      (r : Result TransportError Encoded) (e : PlanValidationError) → fits r ≡ err e → Explained e
  fits-Explained (ok _) e h = cc
  fits-Explained (err _) e h = inl (λ p. cc, λ p. cc)

  validate_plan-Explained :
      (e : PlanValidationError)
      → validate_plan message_id goal plan registry now ≡ err e
      → Explained e
  unfolding validate_plan validate_core_message_size
  validate_plan-Explained =
      raises-bind (validate_core_message_size message_id "plan" (plan_payload plan))
        (fits-Explained _)
        λ _ _.
          raises-bind
            (refuse
              (not (plan.goal_id == goal.goal_id)
                || (ltb_ℤ plan.revision (pos 1) || no_steps plan.steps))
              bad_identity)
            (raises-refuse Explained _ _ (inl (λ p. cc, λ p. cc)))
            λ _ _.
              raises-bind (refuse (ltb 256 (length plan.steps)) too_many_steps)
                (raises-refuse Explained _ _ (inl (λ p. cc, λ p. cc)))
                λ _ _.
                  raises-bind
                    (refuse
                      (any (λ id. id == "") (map step_id_of plan.steps)
                        || not (unique (map step_id_of plan.steps)))
                      bad_step_ids)
                    (raises-refuse Explained _ _ (inl (λ p. cc, λ p. cc)))
                    λ _ _.
                      raises-bind
                        (check_steps goal (map step_id_of plan.steps) registry now plan.steps)
                        (λ e h. inl (
                          check_steps-Elsewhere goal (map step_id_of plan.steps) registry now
                            plan.steps e h))
                        λ _ checked e h. inr (
                          search-err goal registry now plan.steps e
                            (CanRun-Closed goal registry now plan.steps (
                              check_steps-CanRun goal (map step_id_of plan.steps) registry now
                                plan.steps checked))
                            h)

-- A plan that `validate_plan` accepts can be carried out as far as the coordinator knows: every step
-- goes to an invited robot with a manifest and a fresh state, which offers the step's capability as
-- available, its deadline is within the goal's and has not passed, and its dependencies are steps of
-- the plan; and there is an order of the steps, latest first, that has each step once and after all
-- that it depends on.
pub validate_plan-CanRun :
    (message_id : String) (goal : SharedGoal) (plan : Plan) (registry : Registry) (now : ℤ)
    → validate_plan message_id goal plan registry now ≡ ok tt
    → All (CanRun goal (map step_id_of plan.steps) registry now) plan.steps
      × Schedule goal registry now plan.steps
validate_plan-CanRun message_id goal plan registry now h =
    let (checked, searched) = validated_steps message_id goal plan registry now h in
    let runs =
      check_steps-CanRun goal (map step_id_of plan.steps) registry now plan.steps checked in
    (
      runs,
      search-ok goal registry now plan.steps (CanRun-Closed goal registry now plan.steps runs)
          searched,
    )

-- The search for cycles always ends: whatever the plan, `validate_plan` neither runs out of the
-- fuel of one more than its steps nor looks for a step that is not in the graph.
pub validate_plan-ends :
    (message_id : String) (goal : SharedGoal) (plan : Plan) (registry : Registry) (now : ℤ)
    → validate_plan message_id goal plan registry now ≢ err search_failed
validate_plan-ends message_id goal plan registry now h =
    elim (validate_plan-Explained message_id goal plan registry now search_failed h) [
      | inl (_, other) ↦ other refl
      | inr (e, x, _) ↦ cc
    ]

-- A plan is refused for a cycle only where it has one: then some step waits for itself through a
-- chain of dependencies.
pub validate_plan-cyclic :
    (message_id : String) (goal : SharedGoal) (plan : Plan) (registry : Registry) (now : ℤ)
    → validate_plan message_id goal plan registry now ≡ err dependency_cycle
    → (x : String) × Reaches plan.steps x x
validate_plan-cyclic message_id goal plan registry now h =
    elim (validate_plan-Explained message_id goal plan registry now dependency_cycle h) [
      | inl (other, _) ↦ absurd (other refl)
      | inr (_, x, cyclic) ↦ (x, cyclic)
    ]
