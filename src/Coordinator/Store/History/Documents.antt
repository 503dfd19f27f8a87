-- ===== src/Coordinator/Store/History/Documents.antt =====
-- The goal and the plan of a run, from `create_run` through every history.
use ump.Prelude.{
  String, ◌≡◌, refl, ◌∙◌, ap, inl, inr, Bool, true, false, ◌&&◌, none, some, List, [], ◌∷◌, ok, err,
  ◌==◌, is_some, any, All, arith, eq_refl, Option-cases, Bool-cases, Result-cases,
}
use ump.Prelude.Int.{ℤ}
use ump.Prelude.Table.{find, update, find-update, find-append}
use ump.Models.Json.{Json, json_eq, json_eq→eq}
use ump.Models.Status.{AssignmentStatus}
use ump.Models.Step.{Assignment, make_step}
use ump.Models.Plan.{SharedGoal, Plan, goal_payload, plan_payload, goal_post_init, plan_post_init}
use ump.Models.Plan.Codec.{make_goal, make_plan, decode_goal-goal_payload, decode_plan-plan_payload}
use ump.Coordinator.Tables.{
  CoordinatorStore, StoreError, RunRow, RunStatus, StepRow, StepStatus, run_key, step_key, statuses,
  run_status, refresh_run, set_run_status, move_steps,
}
use ump.Coordinator.Store.{
  create_run, mark_dispatched, request_cancellation, record_cancellation_acknowledgement, new_run,
  record_acknowledgement, record_outcome, reconcile_outcome, recover_interrupted_runs, insert_steps,
  known_outcome, move_step, cancel_steps, interrupted,
}
use ump.Coordinator.Store.Reads.{goal_of, plan_at}
use ump.Coordinator.Store.History.{
  Call, creating, dispatching, cancelling, answering_cancel, acknowledging, reporting, reconciling,
  recovering, perform, perform_all,
}
use ump.Coordinator.Store.History.Rows.{
  Effect, transition-Effect, reconcile-Effect, cancellation-Effect,
}

-- The run `k` has these documents.
pub record Bound (k : String) (goal plan : Json) (s : CoordinatorStore) : Type 0 where
  pub row : RunRow
  pub found : find run_key k s.runs ≡ some row
  pub same_goal : row.goal_json ≡ goal
  pub same_plan : row.plan_json ≡ plan

-- an UPDATE of the runs that writes other columns
Bound-update :
    (k : String) (goal plan : Json) (s t : CoordinatorStore) (p : RunRow → Bool)
    (f : RunRow → RunRow)
    → ((r : RunRow) → run_key (f r) ≡ run_key r)
    → ((r : RunRow) → (f r).goal_json ≡ r.goal_json)
    → ((r : RunRow) → (f r).plan_json ≡ r.plan_json)
    → t.runs ≡ update p f s.runs
    → Bound k goal plan s
    → Bound k goal plan t
Bound-update k goal plan s t p f keyed goals plans written b = elim (Bool-cases (p b.row)) [
  | inl e ↦ record {
    row = f b.row;
    found =
        ap (find run_key k) written ∙ (find-update run_key k p f s.runs keyed ∙ rw b.found (rw e));
    same_goal = goals b.row ∙ b.same_goal;
    same_plan = plans b.row ∙ b.same_plan;
  }
  | inr e ↦ record {
    row = b.row;
    found =
        ap (find run_key k) written ∙ (find-update run_key k p f s.runs keyed ∙ rw b.found (rw e));
    same_goal = b.same_goal;
    same_plan = b.same_plan;
  }
]

module _ (k : String) (goal plan : Json) (s : CoordinatorStore) (b : Bound k goal plan s) where
  Bound-same : (t : CoordinatorStore) → t.runs ≡ s.runs → Bound k goal plan t
  Bound-same t same = record {
    row = b.row;
    found = ap (find run_key k) same ∙ b.found;
    same_goal = b.same_goal;
    same_plan = b.same_plan;
  }

  -- a store whose runs are those of a refresh
  Bound-refreshed :
      (t : CoordinatorStore) (id : String) (now : ℤ) (u : CoordinatorStore)
      → u.runs ≡ s.runs
      → t.runs ≡ (refresh_run id now u).runs
      → Bound k goal plan t
  unfolding refresh_run
  Bound-refreshed t id now u same written =
      Bound-update k goal plan s t (λ r. run_key r == id)
        (set_run_status (run_status (statuses id u.steps)) now) (λ r. refl) (λ r. refl) (λ r. refl)
        (written
          ∙ ap
              (update (λ r. run_key r == id)
                (set_run_status (run_status (statuses id u.steps)) now))
              same)
        b

  Bound-Effect :
      (id : String) (target : StepStatus) (now : ℤ) (t : CoordinatorStore)
      → Effect id target now s t
      → Bound k goal plan t
  unfolding move_step move_steps
  Bound-Effect id target now t (inl same) = rw same b
  Bound-Effect id target now t (inr (inl (row, found, refreshed))) =
      Bound-refreshed t row.plan_id now s refl (ap (λ u. u.runs) refreshed)
  Bound-Effect id target now t (inr (inr (row, found, loose, moved))) =
      Bound-refreshed t row.plan_id now
        (move_steps (λ r. step_key r == row.assignment_id) target now s) refl
        (ap (λ u. u.runs) moved)

  Bound-acknowledged :
      (id : String) (status : AssignmentStatus) (now : ℤ)
      → Bound k goal plan (record_acknowledgement id status now s).1
  unfolding record_acknowledgement
  Bound-acknowledged id AssignmentStatus.accepted t =
      Bound-Effect id StepStatus.accepted t _ (transition-Effect id t s StepStatus.accepted true)
  Bound-acknowledged id AssignmentStatus.rejected t =
      Bound-Effect id StepStatus.rejected t _ (transition-Effect id t s StepStatus.rejected true)
  Bound-acknowledged id AssignmentStatus.unknown t =
      Bound-Effect id StepStatus.unknown t _ (transition-Effect id t s StepStatus.unknown true)
  Bound-acknowledged id AssignmentStatus.succeeded t = b
  Bound-acknowledged id AssignmentStatus.failed t = b
  Bound-acknowledged id AssignmentStatus.cancelled t = b

  Bound-reported :
      (id : String) (status : AssignmentStatus) (now : ℤ)
      → Bound k goal plan (record_outcome id status now s).1
  unfolding record_outcome
  Bound-reported id AssignmentStatus.accepted t = b
  Bound-reported id AssignmentStatus.rejected t =
      Bound-Effect id StepStatus.rejected t _ (transition-Effect id t s StepStatus.rejected false)
  Bound-reported id AssignmentStatus.unknown t =
      Bound-Effect id StepStatus.unknown t _ (transition-Effect id t s StepStatus.unknown false)
  Bound-reported id AssignmentStatus.succeeded t =
      Bound-Effect id StepStatus.succeeded t _ (transition-Effect id t s StepStatus.succeeded false)
  Bound-reported id AssignmentStatus.failed t =
      Bound-Effect id StepStatus.failed t _ (transition-Effect id t s StepStatus.failed false)
  Bound-reported id AssignmentStatus.cancelled t =
      Bound-Effect id StepStatus.cancelled t _ (transition-Effect id t s StepStatus.cancelled false)

  Bound-reconciled :
      (id : String) (status : AssignmentStatus) (now : ℤ)
      → Bound k goal plan (reconcile_outcome id status now s).1
  Bound-reconciled id status t = elim (Option-cases (known_outcome status)) [
    | inl p ↦ Bound-same _ (ap (λ u. u.runs) (refused p))
    | inr (target, p) ↦ Bound-Effect id target t _ (reconcile-Effect id t s status target p)
  ]
    where
      refused : known_outcome status ≡ none → (reconcile_outcome id status t s).1 ≡ s
      refused p = unfold reconcile_outcome in ground arith

  Bound-cancelled : (id : String) (now : ℤ) → Bound k goal plan (request_cancellation id now s).1
  Bound-cancelled id t = elim (Bool-cases (is_some (find run_key id s.runs))) [
    | inl known ↦
        Bound-refreshed _ id t (cancel_steps id t s) (unfold cancel_steps move_steps in refl)
          (cancelled known)
    | inr unknown ↦ Bound-same _ (refused unknown)
  ]
    where
      cancelled :
          is_some (find run_key id s.runs) ≡ true
          → (request_cancellation id t s).1.runs ≡ (refresh_run id t (cancel_steps id t s)).runs
      cancelled known = unfold request_cancellation in rw known refl

      refused :
          is_some (find run_key id s.runs) ≡ false → (request_cancellation id t s).1.runs ≡ s.runs
      refused unknown = unfold request_cancellation in rw unknown refl

  Bound-recovered : Bound k goal plan (recover_interrupted_runs s)
  unfolding recover_interrupted_runs
  Bound-recovered =
      Bound-update k goal plan s (recover_interrupted_runs s)
        (λ r. any (λ x. x.plan_id == run_key r && interrupted x) s.steps)
        (λ r. record r { status = RunStatus.unknown }) (λ r. refl) (λ r. refl) (λ r. refl) refl b

  Bound-created :
      (g : SharedGoal) (p : Plan) (assignments : List Assignment) (now : ℤ)
      → Bound k goal plan (create_run g p assignments now s).1
  Bound-created g p assignments t = record {
    row = b.row;
    found = elim (Result-cases (insert_steps p assignments t s.steps)) [
      | inl (rows, e) ↦ inserted rows e
      | inr (failure, e) ↦ refused failure e
    ];
    same_goal = b.same_goal;
    same_plan = b.same_plan;
  }
    where
      inserted :
          (rows : List StepRow)
          → insert_steps p assignments t s.steps ≡ ok rows
          → find run_key k (create_run g p assignments t s).1.runs ≡ some b.row
      inserted rows e =
          unfold create_run in
          ground (arith, e, b.found, find-append run_key k s.runs (new_run g p t))

      refused :
          (failure : StoreError)
          → insert_steps p assignments t s.steps ≡ err failure
          → find run_key k (create_run g p assignments t s).1.runs ≡ some b.row
      refused failure e = unfold create_run in ground (arith, e, b.found)

  perform-Bound : (c : Call) → Bound k goal plan (perform c s)
  unfolding perform mark_dispatched move_steps
  perform-Bound (creating g p assignments t) = Bound-created g p assignments t
  perform-Bound (dispatching id t) = Bound-same _ refl
  perform-Bound (cancelling plan_id t) = Bound-cancelled plan_id t
  perform-Bound (answering_cancel id agreed t) =
      Bound-Effect id StepStatus.unknown t (record_cancellation_acknowledgement id agreed t s).1
        (cancellation-Effect id t s agreed)
  perform-Bound (acknowledging id status t) = Bound-acknowledged id status t
  perform-Bound (reporting id status t) = Bound-reported id status t
  perform-Bound (reconciling id status t) = Bound-reconciled id status t
  perform-Bound recovering = Bound-recovered

perform_all-Bound :
    (k : String) (goal plan : Json) (calls : List Call) (s : CoordinatorStore)
    → Bound k goal plan s
    → Bound k goal plan (perform_all calls s)
unfolding perform_all
perform_all-Bound k goal plan [] s b = b
perform_all-Bound k goal plan (c ∷ calls) s b =
    perform_all-Bound k goal plan calls (perform c s) (perform-Bound k goal plan s b c)

module _ (goal : SharedGoal) (plan : Plan) (assignments : List Assignment) (now : ℤ)
    (s : CoordinatorStore) where
  created_new :
      find run_key plan.plan_id s.runs ≡ none
      → (create_run goal plan assignments now s).0 ≡ ok tt
      → find run_key plan.plan_id (create_run goal plan assignments now s).1.runs
        ≡ some (new_run goal plan now)
  created_new p done = elim (Result-cases (insert_steps plan assignments now s.steps)) [
    | inl (rows, e) ↦
        unfold create_run in
        ground (
          arith,
          e,
          find-append run_key plan.plan_id s.runs (new_run goal plan now),
          eq_refl plan.plan_id,
        )
    | inr (failure, e) ↦ unfold create_run in ground (arith, e, done)
  ]

  created_again :
      (old : RunRow)
      → find run_key plan.plan_id s.runs ≡ some old
      → (create_run goal plan assignments now s).0 ≡ ok tt
      → (find run_key plan.plan_id (create_run goal plan assignments now s).1.runs ≡ some old)
        × (json_eq old.goal_json (goal_payload goal) ≡ true)
        × (json_eq old.plan_json (plan_payload plan) ≡ true)
  unfolding create_run
  created_again old p done = ground (arith, p, done)

  create_run-Bound :
      (create_run goal plan assignments now s).0 ≡ ok tt
      → Bound plan.plan_id
          (goal_payload goal)
          (plan_payload plan)
          (create_run goal plan assignments now s).1
  create_run-Bound done = elim (Option-cases (find run_key plan.plan_id s.runs)) [
    | inl p ↦ record {
      row = new_run goal plan now;
      found = created_new p done;
      same_goal = refl;
      same_plan = refl;
    }
    | inr (old, p) ↦
        let (found, goals, plans) = created_again old p done in
        record {
          row = old;
          found = found;
          same_goal = json_eq→eq old.goal_json (goal_payload goal) goals;
          same_plan = json_eq→eq old.plan_json (plan_payload plan) plans;
        }
  ]

-- After a `create_run` that returned, of a goal, a plan and steps that pass their checks, and any
-- further calls, `goal` and `plan` of the plan's identifier return exactly that goal and that plan.
pub create_run-reads :
    (goal : SharedGoal) (plan : Plan) (assignments : List Assignment) (now : ℤ) (calls : List Call)
    (s : CoordinatorStore)
    → goal_post_init goal ≡ ok tt
    → plan_post_init plan ≡ ok tt
    → All (λ x. make_step x ≡ ok x) plan.steps
    → (create_run goal plan assignments now s).0 ≡ ok tt
    → (goal_of plan.plan_id (perform_all calls (create_run goal plan assignments now s).1)
        ≡ ok goal)
      × (plan_at plan.plan_id (perform_all calls (create_run goal plan assignments now s).1)
          ≡ ok plan)
unfolding goal_of plan_at make_goal make_plan
create_run-reads goal plan assignments t calls s valid_goal valid_plan valid_steps done =
    let b =
      perform_all-Bound plan.plan_id (goal_payload goal) (plan_payload plan) calls
        (create_run goal plan assignments t s).1
        (create_run-Bound goal plan assignments t s done) in
    (
      rw b.found (rw b.same_goal (rw (decode_goal-goal_payload goal) (rw valid_goal refl))),
      rw b.found
          (rw b.same_plan (rw (decode_plan-plan_payload plan valid_steps) (rw valid_plan refl))),
    )
