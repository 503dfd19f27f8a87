-- ===== src/Coordinator/Store/Reads.antt =====
-- The reads of `CoordinatorStore` in coordinator_store.py.
use ump.Prelude.{String, ◌==◌, Option, none, some, List, map, Result, ok, err, ◌>>=◌}
use ump.Prelude.Table.{find, select}
use ump.Models.Step.{Assignment}
use ump.Models.Codec.{decode_assignment}
use ump.Models.Plan.{SharedGoal, Plan, PlanError}
use ump.Models.Plan.Codec.{decode_goal, decode_plan}
use ump.Coordinator.Tables.{
  RunStatus, StepStatus, RunRow, StepRow, CoordinatorStore, run_key, row_of, StoreError,
  unknown_plan, invalid, invalid_plan,
}

-- `RunSnapshot`
pub record RunSnapshot : Type 0 where
  pub plan_id : String
  pub goal_id : String
  pub status : RunStatus
  pub steps : List (String × StepStatus)

-- the row of a run, or KeyError
abbrev pub known_run : Option RunRow → Result StoreError RunRow
known_run none = err unknown_plan
known_run (some row) = ok row

abbrev pub lift_plan {ℓ} : {A : Type ℓ} → Result PlanError A → Result StoreError A
lift_plan (ok a) = ok a
lift_plan (err e) = err (invalid_plan e)

-- `goal`
unfoldable pub goal_of : String → CoordinatorStore → Result StoreError SharedGoal
goal_of plan_id s = do
  row ← known_run (find run_key plan_id s.runs)
  lift_plan (decode_goal row.goal_json)

-- `plan`
unfoldable pub plan_at : String → CoordinatorStore → Result StoreError Plan
plan_at plan_id s = do
  row ← known_run (find run_key plan_id s.runs)
  lift_plan (decode_plan row.plan_json)

-- `snapshot`
unfoldable pub snapshot : String → CoordinatorStore → Result StoreError RunSnapshot
snapshot plan_id s = do
  row ← known_run (find run_key plan_id s.runs)
  ok (record {
    plan_id = plan_id;
    goal_id = row.goal_id;
    status = row.status;
    steps = map (λ r. (r.step_id, r.status)) (select (λ r. r.plan_id == plan_id) s.steps);
  })

-- `status_for_assignment`
abbrev pub status_of : Option StepRow → Option StepStatus
status_of none = none
status_of (some row) = some row.status

unfoldable pub status_for_assignment : String → CoordinatorStore → Option StepStatus
status_for_assignment assignment_id s = status_of (row_of assignment_id s)

abbrev pub decode_row : Option StepRow → Result StoreError (Option Assignment)
decode_row none = ok none
decode_row (some row) = elim (decode_assignment row.assignment_json) [
  | ok a ↦ ok (some a)
  | err e ↦ err (invalid e)
]

-- `assignment`
unfoldable pub assignment_of : String → CoordinatorStore → Result StoreError (Option Assignment)
assignment_of assignment_id s = decode_row (row_of assignment_id s)

abbrev pub robot_of : Option Assignment → Option String
robot_of none = none
robot_of (some a) = some a.step.assigned_robot_id

-- `robot_for_assignment`
unfoldable pub robot_for_assignment : String → CoordinatorStore → Result StoreError (Option String)
unfolding assignment_of
robot_for_assignment assignment_id s = do found ← assignment_of assignment_id s; ok (robot_of found)
