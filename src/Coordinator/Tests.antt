-- ===== src/Coordinator/Tests.antt =====
-- Runs of the coordinator's store, and its theorems at concrete calls.
use ump.Prelude.{ok, ◌≡◌, refl, true, false, none, some, List, [], ◌∷◌}
use ump.Prelude.Int.{pos}
use ump.Prelude.Table.{find, update}
use ump.Models.Json.{obj, end}
use ump.Models.Status.{AssignmentStatus}
use ump.Models.Step.{make_step}
use ump.Models.Plan.{SharedGoal, Plan, goal_post_init, plan_post_init, goal_payload, plan_payload}
use ump.Models.Plan.Codec.{
  decode_goal, decode_plan, make_goal, make_plan, decode_goal-goal_payload,
  decode_plan-plan_payload,
}
use ump.Coordinator.Store.Reads.{goal_of, plan_at}
use ump.Coordinator.Store.History.Documents.{create_run-reads}
use ump.Models.Samples.{carry, carry_job}
use ump.Coordinator.Tables.{CoordinatorStore, StepRow, StepStatus, empty_store, row_of, refresh_run}
use ump.Coordinator.Store.{
  create_run, insert_steps, mark_dispatched, record_outcome, transition, move_step, pending_row,
}
use ump.Coordinator.Store.History.{Call, reporting, recovering, perform_all}
use ump.Coordinator.Store.History.Settled.{perform_all-settled}
use ump.Coordinator.Store.History.Dispatch.{mark_dispatched-once}

abbrev carry_goal : SharedGoal
carry_goal = record {
  goal_id = "goal-1";
  description = "Move the payload";
  participant_ids = "robot-1" ∷ [];
  constraints = obj end;
  deadline_ms = none;
}

abbrev carry_plan : Plan
carry_plan = record {
  plan_id = "plan-1";
  goal_id = "goal-1";
  planner_id = "coordinator-1";
  summary = "One carry";
  steps = carry ∷ [];
  revision = pos 1;
  supersedes_plan_id = none;
}

abbrev created_store : CoordinatorStore
created_store = (create_run carry_goal carry_plan (carry_job ∷ []) (pos 1000) empty_store).1

dispatched_first : (mark_dispatched "assignment-1" (pos 1001) created_store).0 ≡ true
unfolding create_run insert_steps find mark_dispatched
dispatched_first = refl

mark_dispatched-once_example :
    (mark_dispatched "assignment-1"
      (pos 1002)
      (perform_all (recovering ∷ []) (mark_dispatched "assignment-1" (pos 1001) created_store).1)).0
    ≡ false
mark_dispatched-once_example =
    mark_dispatched-once "assignment-1" (pos 1001) (recovering ∷ []) (pos 1002) created_store
      dispatched_first

created_first : (create_run carry_goal carry_plan (carry_job ∷ []) (pos 1000) empty_store).0 ≡ ok tt
unfolding create_run insert_steps find
created_first = refl

goal_checks : goal_post_init carry_goal ≡ ok tt
unfolding goal_post_init
goal_checks = refl

plan_checks : plan_post_init carry_plan ≡ ok tt
unfolding plan_post_init
plan_checks = refl

step_checks : make_step carry ≡ ok carry
unfolding make_step
step_checks = refl

create_run-reads_example :
    (goal_of "plan-1" (perform_all (recovering ∷ []) created_store) ≡ ok carry_goal)
    × (plan_at "plan-1" (perform_all (recovering ∷ []) created_store) ≡ ok carry_plan)
create_run-reads_example =
    create_run-reads carry_goal carry_plan (carry_job ∷ []) (pos 1000) (recovering ∷ []) empty_store
      goal_checks plan_checks (step_checks, tt) created_first

decode_goal_example : decode_goal (goal_payload carry_goal) ≡ make_goal carry_goal
decode_goal_example = decode_goal-goal_payload carry_goal

decode_plan_example : decode_plan (plan_payload carry_plan) ≡ make_plan carry_plan
decode_plan_example = decode_plan-plan_payload carry_plan (step_checks, tt)

abbrev reported_store : CoordinatorStore
reported_store =
    (record_outcome "assignment-1" AssignmentStatus.succeeded (pos 1003)
      (mark_dispatched "assignment-1" (pos 1001) created_store).1).1

abbrev reported_row : StepRow
reported_row = record (pending_row carry_plan carry_job (pos 1003)) {
  status = StepStatus.succeeded;
}

reported_first : row_of "assignment-1" reported_store ≡ some reported_row
unfolding create_run insert_steps find mark_dispatched record_outcome transition move_step
    refresh_run update
reported_first = refl

abbrev late_calls : List Call
late_calls = reporting "assignment-1" AssignmentStatus.failed (pos 1004) ∷ recovering ∷ []

perform_all-settled_example :
    (r' : StepRow) × (row_of "assignment-1" (perform_all late_calls reported_store) ≡ some r')
    × (r'.status ≡ StepStatus.succeeded)
    × (r'.plan_id ≡ "plan-1")
    × (r'.step_id ≡ "carry")
    × (r'.assignment_json ≡ reported_row.assignment_json)
perform_all-settled_example =
    perform_all-settled "assignment-1" late_calls reported_store reported_row reported_first refl
