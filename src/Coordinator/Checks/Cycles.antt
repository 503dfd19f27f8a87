-- ===== src/Coordinator/Checks/Cycles.antt =====
-- The depth-first search of `validate_plan`: how each visit ends.
use ump.Prelude.{
  ℕ, zero, suc, ◌<◌, ◌≤◌, String, ◌≡◌, refl, sym, ◌∙◌, ap, ◌⊎◌, inl, inr, Bool, true, false, not,
  ◌||◌, some, is_some, List, [], ◌∷◌, elem, All, ◌==◌, Result, ok, err, arith, eq_iff, eq_refl,
  Bool-cases, Option-cases,
}
use ump.Prelude.Count.{count}
use ump.Prelude.Table.{find}
use ump.Models.Step.{PlanStep}
use ump.Coordinator.Checks.Visit.{
  Visits, VisitError, cycle, step_at, remove, leave, visit_all, visit_new, visit,
}
use ump.Coordinator.Checks.Order.{Depends, Reaches, direct, further, Stands, Ordered, not_same}

-- every dependency names a step
abbrev pub Closed : List PlanStep → Type 0
Closed steps =
    (x d : String) (s : PlanStep)
    → step_at x steps ≡ some s
    → elem d s.depends_on ≡ true
    → is_some (step_at d steps) ≡ true

-- the steps that are not on the stack
abbrev pub waiting : List String → PlanStep → Bool
waiting visiting s = not (elem s.step_id visiting)

count-waiting_le :
    (id : String) (visiting : List String) (steps : List PlanStep)
    → count (waiting (id ∷ visiting)) steps ≤ count (waiting visiting) steps
unfolding count
count-waiting_le id visiting [] = omega arith
count-waiting_le id visiting (s ∷ steps) = ground (arith, count-waiting_le id visiting steps)

-- a step that goes on the stack leaves fewer
count-waiting_less :
    (id : String) (visiting : List String) (steps : List PlanStep) (s : PlanStep)
    → step_at id steps ≡ some s
    → elem id visiting ≡ false
    → count (waiting (id ∷ visiting)) steps < count (waiting visiting) steps
unfolding count find
count-waiting_less id visiting [] s h out = cc
count-waiting_less id visiting (r ∷ steps) s h out = elim (Bool-cases (r.step_id == id)) [
  | inl e ↦
      let same : r.step_id ≡ id = (eq_iff r.step_id id).0 e in
      rw (same) (rw (out, eq_refl id) (omega (arith, count-waiting_le id visiting steps)))
  | inr e ↦
      let fewer = count-waiting_less id visiting steps s (rw e at h) out in
      let other : (id == r.step_id) ≡ false =
        ground (arith, e, eq_iff r.step_id id, eq_iff id r.step_id) in
      rw other (omega (arith, fewer))
]

module _ (steps : List PlanStep) where
  -- what holds of the two sets
  pub record Fits (v : Visits) : Type 0 where
    pub ordered : Ordered steps v.visited
    pub apart : (u : String) → elem u v.visited ≡ true → elem u v.visiting ≡ false

  -- `later` has the same stack, and has visited more
  pub record After (v later : Visits) : Type 0 where
    pub stack : later.visiting ≡ v.visiting
    pub fits : Fits later
    pub grows : (u : String) → elem u v.visited ≡ true → elem u later.visited ≡ true

  -- how a loop of visits ends
  abbrev pub Ends : (Visits → Type 0) → Visits → Result VisitError Visits → Type 0
  Ends P v r =
      ((later : Visits) × (r ≡ ok later) × After v later × P later)
      ⊎ ((r ≡ err cycle) × (x : String) × Reaches steps x x)

  abbrev pub Done : String → Visits → Type 0
  Done id later = elem id later.visited ≡ true

  -- a loop of visits that each end
  pub visit_all-Ends :
      (go : String → Visits → Result VisitError Visits) (P : String → Type 0) (stack : List String)
      → ((id : String) (v : Visits)
          → v.visiting ≡ stack
          → Fits v
          → P id
          → Ends (Done id) v (go id v))
      → (ids : List String) (v : Visits) → v.visiting ≡ stack
      → Fits v
      → All P ids
      → Ends (λ later. All (λ id. elem id later.visited ≡ true) ids) v (visit_all go ids v)
  unfolding visit_all
  visit_all-Ends go P stack ends [] v same fits all =
      inl (v, refl, record { stack = refl; fits = fits; grows = λ u h. h }, tt)
  visit_all-Ends go P stack ends (id ∷ ids) v same fits (first, rest) =
      elim (ends id v same fits first) [
        | inr (e, x, r) ↦ inr (rw e refl, x, r)
        | inl (middle, e, after, here) ↦
            elim (visit_all-Ends go P stack ends ids middle (after.stack ∙ same) after.fits rest) [
              | inr (e', x, r) ↦ inr (rw e e', x, r)
              | inl (later, e', more, there) ↦ inl (
                later,
                rw e e',
                record {
                  stack = more.stack ∙ after.stack;
                  fits = more.fits;
                  grows = λ u h. more.grows u (after.grows u h);
                },
                (more.grows id here, there),
              )
            ]
      ]

  -- the steps that `visit` may be called on while `stack` is being visited
  pub record Allowed (stack : List String) (id : String) : Type 0 where
    pub known : is_some (step_at id steps) ≡ true
    pub reached : (u : String) → elem u stack ≡ true → Reaches steps u id

  Fits-push :
      (id : String) (v : Visits)
      → Fits v
      → elem id v.visited ≡ false
      → Fits (record v { visiting = id ∷ v.visiting })
  Fits-push id v fits new = record {
    ordered = fits.ordered;
    apart = λ u h. rw (not_same steps id u v.visited new h) (fits.apart u h);
  }

  module _ (id : String) (v middle : Visits)
      (after : After (record v { visiting = id ∷ v.visiting }) middle) where
    -- what was visited meanwhile is not on the stack
    off_stack : (u : String) → elem u middle.visited ≡ true → elem u (id ∷ v.visiting) ≡ false
    off_stack u h = ap (elem u) (sym after.stack) ∙ after.fits.apart u h

    absent : elem id middle.visited ≡ false
    absent = elim (Bool-cases (elem id middle.visited)) [
      | inr out ↦ out
      | inl here ↦ ground (arith, off_stack id here, eq_refl id)
    ]

    pop : remove id middle.visiting ≡ v.visiting
    unfolding remove
    pop = rw after.stack (rw (eq_refl id) refl)

    pop_apart :
        elem id v.visiting ≡ false
        → (u : String) → (id == u || elem u middle.visited) ≡ true
        → elem u v.visiting ≡ false
    pop_apart free u h = elim (Bool-cases (id == u)) [
      | inl same ↦ rw (sym ((eq_iff id u).0 same)) free
      | inr other ↦ ground (arith, off_stack u (ground (arith, other, h)), other)
    ]

    leave-After :
        elem id v.visiting ≡ false → Stands steps id middle.visited → After v (leave id middle)
    unfolding leave
    leave-After free stands = record {
      stack = pop;
      fits = record {
        ordered = (stands, after.fits.ordered);
        apart = λ u h. rw pop (pop_apart free u h);
      };
      grows = λ u h. ground (arith, after.grows u h);
    }

  -- the end of the visit of a new step
  visit_new-Ends :
      (go : String → Visits → Result VisitError Visits) (id : String) (v : Visits) (s : PlanStep)
      → step_at id steps ≡ some s
      → Fits v
      → elem id v.visited ≡ false
      → elem id v.visiting ≡ false
      → Ends
          (λ later. All (λ d. elem d later.visited ≡ true) s.depends_on)
          (record v { visiting = id ∷ v.visiting })
          (visit_all go s.depends_on (record v { visiting = id ∷ v.visiting }))
      → Ends (Done id) v (visit_new go (some s) id v)
  visit_new-Ends go id v s found fits new free (inr (e, x, r)) = inr (rw e refl, x, r)
  visit_new-Ends go id v s found fits new free (inl (middle, e, after, deps)) =
      let stands : Stands steps id middle.visited = record {
        step = s;
        found = found;
        after_all = deps;
        once = absent id v middle after;
      } in
      inl (
        leave id middle,
        rw e refl,
        leave-After id v middle after free stands,
        unfold leave in (rw (eq_refl id) refl),
      )

  module _ (closed : Closed steps) where
    -- the dependencies of the step that goes on the stack may be visited
    dependencies-Allowed :
        (id : String) (stack : List String) (s : PlanStep)
        → step_at id steps ≡ some s
        → ((u : String) → elem u stack ≡ true → Reaches steps u id)
        → (ds : List String) → ((d : String) → elem d ds ≡ true → elem d s.depends_on ≡ true)
        → All (Allowed (id ∷ stack)) ds
    dependencies-Allowed id stack s found reached [] listed = tt
    dependencies-Allowed id stack s found reached (d ∷ ds) listed = (
      record {
        known = closed id d s found (listed d (rw (eq_refl d) refl));
        reached = λ u h.
            let last : Depends steps id d = record {
              step = s;
              found = found;
              listed = listed d (rw (eq_refl d) refl);
            } in
            elim (Bool-cases (id == u)) [
              | inl same ↦ rw (sym ((eq_iff id u).0 same)) (direct last)
              | inr other ↦ further (reached u (ground (arith, other, h))) last
            ];
      },
      dependencies-Allowed id stack s found reached ds (λ e h. listed e (ground (arith, h))),
    )

    -- `visit` ends where its fuel exceeds the steps that are not on the stack
    pub visit-Ends :
        (n : ℕ) (stack : List String)
        → count (waiting stack) steps < n
        → (id : String) (v : Visits) → v.visiting ≡ stack
        → Fits v
        → Allowed stack id
        → Ends (Done id) v (visit n steps id v)
    unfolding visit
    visit-Ends zero stack room id v same fits allowed = absurd (omega (arith, room))
    visit-Ends (suc n) stack room id v same fits allowed = elim (Bool-cases (elem id v.visiting)) [
      | inl on ↦ rw on (inr (refl, id, allowed.reached id (rw (sym same) on)))
      | inr off ↦ elim (Bool-cases (elem id v.visited)) [
        | inl old ↦
            rw off
              (rw old (inl (v, refl, record { stack = refl; fits = fits; grows = λ u h. h }, old)))
        | inr new ↦ elim (Option-cases (step_at id steps)) [
          | inl e ↦ absurd (ground (arith, e, allowed.known))
          | inr (s, e) ↦ rw off (
              rw new (
                rw e (
                  visit_new-Ends (visit n steps) id v s e fits new off (
                    visit_all-Ends (visit n steps) (Allowed (id ∷ stack)) (id ∷ stack)
                      (visit-Ends n (id ∷ stack) (
                        omega
                          (arith, room, count-waiting_less id stack steps s e (rw (sym same) off))))
                      s.depends_on (record v { visiting = id ∷ v.visiting }) (ap (λ l. id ∷ l) same)
                      (Fits-push id v fits new)
                      (dependencies-Allowed id stack s e allowed.reached s.depends_on
                        (λ d h. h))))))
        ]
      ]
    ]
