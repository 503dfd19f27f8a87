-- ===== src/Coordinator/Tables.antt =====
-- The tables of coordinator_store.py, its statuses, and the statements that its methods share.
use Prim.Native.String.{len}
use ump.Prelude.{
  String, Bool, true, false, ◌&&◌, ◌||◌, Option, none, some, List, [], map, any, all, ◌==◌,
  if◌then◌else◌, ltb, Result, Done, ok, err,
}
use ump.Prelude.Int.{ℤ}
use ump.Prelude.Table.{select, update, find}
use ump.Models.Text.{ModelError}
use ump.Models.Plan.{PlanError}
use ump.Models.Json.{Json}

pub data RunStatus : Type 0 where
  active succeeded failed cancelled unknown : RunStatus

pub data StepStatus : Type 0 where
  pending dispatched accepted cancellation_requested : StepStatus
  succeeded failed rejected cancelled unknown : StepStatus

-- A row of `runs`.
pub record RunRow : Type 0 where
  pub plan_id : String
  pub goal_id : String
  pub goal_json : Json
  pub plan_json : Json
  pub status : RunStatus
  pub created_at_ms : ℤ
  pub updated_at_ms : ℤ

-- A row of `run_steps`.
pub record StepRow : Type 0 where
  pub assignment_id : String
  pub plan_id : String
  pub step_id : String
  pub assignment_json : Json
  pub dependencies : List String
  pub status : StepStatus
  pub updated_at_ms : ℤ

pub record CoordinatorStore : Type 0 where
  pub runs : List RunRow
  pub steps : List StepRow
  pub coordinator_id : Option String

abbrev pub empty_store : CoordinatorStore
empty_store = record { runs = []; steps = []; coordinator_id = none }

abbrev pub run_key : RunRow → String
run_key r = r.plan_id

abbrev pub step_key : StepRow → String
step_key r = r.assignment_id

-- One constructor for each `raise`; a violated key is `integrity_error`.
pub data StoreError : Type 0 where
  bad_identity other_identity plan_rebound unknown_plan terminal_immutable : StoreError
  invalid_transition not_terminal not_reconcilable only_unknown_reconciled : StoreError
  integrity_error : StoreError
  invalid : ModelError → StoreError
  invalid_plan : PlanError → StoreError

-- the sets of statuses that the statements and the code test for
abbrev pub is_pending : StepStatus → Bool
is_pending StepStatus.pending = true
is_pending _ = false

abbrev pub is_sent : StepStatus → Bool
is_sent StepStatus.dispatched = true
is_sent StepStatus.accepted = true
is_sent _ = false

abbrev pub is_cancelling : StepStatus → Bool
is_cancelling StepStatus.cancellation_requested = true
is_cancelling _ = false

abbrev pub is_unknown : StepStatus → Bool
is_unknown StepStatus.unknown = true
is_unknown _ = false

abbrev pub is_succeeded : StepStatus → Bool
is_succeeded StepStatus.succeeded = true
is_succeeded _ = false

abbrev pub is_refused : StepStatus → Bool
is_refused StepStatus.failed = true
is_refused StepStatus.rejected = true
is_refused _ = false

abbrev pub is_closed : StepStatus → Bool
is_closed StepStatus.succeeded = true
is_closed StepStatus.cancelled = true
is_closed _ = false

-- `TERMINAL_STEP_STATUSES`
abbrev pub is_terminal : StepStatus → Bool
is_terminal s = is_succeeded s || is_refused s || is_closed s || is_unknown s

abbrev pub is_run_active : RunStatus → Bool
is_run_active RunStatus.active = true
is_run_active _ = false

-- `bind_coordinator`
unfoldable pub bind_coordinator :
    String → CoordinatorStore → Result StoreError Done × CoordinatorStore
bind_coordinator id s =
    if id == "" || ltb 128 (len id) then (err bad_identity, s) else elim s.coordinator_id [
      | none ↦ (ok tt, record s { coordinator_id = some id })
      | some bound ↦ if bound == id then (ok tt, s) else (err other_identity, s)
    ]

-- the statuses of a plan's steps: SELECT status FROM run_steps WHERE plan_id = ?
unfoldable pub statuses : String → List StepRow → List StepStatus
statuses plan_id steps = map (λ r. r.status) (select (λ r. r.plan_id == plan_id) steps)

-- the run status that `_refresh_run_locked` computes from the set of step statuses
unfoldable pub run_status : List StepStatus → RunStatus
run_status found =
    if any is_unknown found
    then RunStatus.unknown
    else if any is_refused found
    then RunStatus.failed
    else if any is_succeeded found && all is_succeeded found
    then RunStatus.succeeded
    else if all is_closed found
    then RunStatus.cancelled
    else RunStatus.active

abbrev pub set_run_status : RunStatus → ℤ → RunRow → RunRow
set_run_status status now_ms r = record r { status = status; updated_at_ms = now_ms }

-- `_refresh_run_locked`
unfoldable pub refresh_run : String → ℤ → CoordinatorStore → CoordinatorStore
refresh_run plan_id now_ms s = record s {
  runs =
      update (λ r. run_key r == plan_id)
        (set_run_status (run_status (statuses plan_id s.steps)) now_ms) s.runs;
}

abbrev pub set_step_status : StepStatus → ℤ → StepRow → StepRow
set_step_status status now_ms r = record r { status = status; updated_at_ms = now_ms }

-- UPDATE run_steps SET status = ?, updated_at_ms = ? WHERE ...
unfoldable pub move_steps : (StepRow → Bool) → StepStatus → ℤ → CoordinatorStore → CoordinatorStore
move_steps p status now_ms s = record s { steps = update p (set_step_status status now_ms) s.steps }

-- `plan_for_assignment`, `status_for_assignment`
abbrev pub row_of : String → CoordinatorStore → Option StepRow
row_of assignment_id s = find step_key assignment_id s.steps
