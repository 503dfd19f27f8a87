-- ===== src/Coordinator/Store.antt =====
-- `CoordinatorStore` of coordinator_store.py. The lock and BEGIN IMMEDIATE make each method one
-- step. Documents stand for their JSON texts, and `dependencies_json` for its list.
pub mod History
pub mod Reads
use Prim.Native.String.{len}
use ump.Prelude.{
  ℕ, String, Bool, true, false, ◌&&◌, ◌||◌, not, Option, none, some, List, [], ◌∷◌, ◌++◌, map, any,
  all, ◌==◌, if◌then◌else◌, is_some, ltb, Result, Done, ok, err, ◌>>=◌, ◌>>◌, guard, refuse,
  transaction,
}
use ump.Prelude.Int.{ℤ}
use ump.Prelude.Table.{select, update, find}
use ump.Models.Text.{ModelError}
use ump.Models.Json.{Json, json_eq}
use ump.Models.Status.{AssignmentStatus}
use ump.Models.Step.{Assignment}
use ump.Models.Plan.{SharedGoal, Plan, goal_payload, plan_payload}
use ump.Models.Codec.{assignment_payload, decode_assignment}
use ump.Coordinator.Tables.{
  RunStatus, StepStatus, RunRow, StepRow, CoordinatorStore, empty_store, run_key, step_key,
  StoreError, is_pending, is_sent, is_cancelling, is_unknown, is_succeeded, is_refused, is_closed,
  is_terminal, is_run_active, bind_coordinator, run_status, set_run_status, refresh_run,
  set_step_status, move_steps, row_of, bad_identity, other_identity, plan_rebound, unknown_plan,
  terminal_immutable, invalid_transition, not_terminal, not_reconcilable, only_unknown_reconciled,
  integrity_error, invalid,
}

-- `_recover_interrupted_runs`
abbrev pub interrupted : StepRow → Bool
interrupted r = is_sent r.status || is_cancelling r.status

unfoldable pub recover_interrupted_runs : CoordinatorStore → CoordinatorStore
recover_interrupted_runs s = record s {
  steps = update interrupted (λ r. record r { status = StepStatus.unknown }) s.steps;
  runs =
      update (λ r. any (λ x. x.plan_id == run_key r && interrupted x) s.steps)
        (λ r. record r { status = RunStatus.unknown }) s.runs;
}

abbrev pub pending_row : Plan → Assignment → ℤ → StepRow
pending_row plan a now_ms = record {
  assignment_id = a.assignment_id;
  plan_id = plan.plan_id;
  step_id = a.step.step_id;
  assignment_json = assignment_payload a;
  dependencies = a.step.depends_on;
  status = StepStatus.pending;
  updated_at_ms = now_ms;
}

-- the INSERTs of the steps, under PRIMARY KEY (assignment_id) and UNIQUE (plan_id, step_id)
unfoldable pub insert_steps :
    Plan → List Assignment → ℤ → List StepRow → Result StoreError (List StepRow)
insert_steps plan [] now_ms rows = ok rows
insert_steps plan (a ∷ rest) now_ms rows =
    if is_some (find step_key a.assignment_id rows)
      || any (λ r. r.plan_id == plan.plan_id && r.step_id == a.step.step_id) rows
    then err integrity_error
    else insert_steps plan rest now_ms (rows ++ pending_row plan a now_ms ∷ [])

abbrev pub new_run : SharedGoal → Plan → ℤ → RunRow
new_run goal plan now_ms = record {
  plan_id = plan.plan_id;
  goal_id = goal.goal_id;
  goal_json = goal_payload goal;
  plan_json = plan_payload plan;
  status = RunStatus.active;
  created_at_ms = now_ms;
  updated_at_ms = now_ms;
}

unfoldable pub create_at :
    Option RunRow
    → SharedGoal
    → Plan
    → List Assignment
    → ℤ
    → CoordinatorStore
    → Result StoreError (Done × CoordinatorStore)
create_at none goal plan assignments now_ms s = do
  rows ← insert_steps plan assignments now_ms s.steps
  ok (tt, record s { runs = s.runs ++ new_run goal plan now_ms ∷ []; steps = rows })
create_at (some old) goal plan assignments now_ms s = do
  guard (json_eq old.goal_json (goal_payload goal) && json_eq old.plan_json (plan_payload plan))
      plan_rebound
  ok (tt, s)

-- `create_run`
unfoldable pub create_run :
    SharedGoal
    → Plan
    → List Assignment
    → ℤ
    → CoordinatorStore
    → Result StoreError Done × CoordinatorStore
unfolding create_at
create_run goal plan assignments now_ms =
    transaction (λ s. create_at (find run_key plan.plan_id s.runs) goal plan assignments now_ms s)

-- `mark_dispatched`; the primary key makes the row count 0 or 1
unfoldable pub mark_dispatched : String → ℤ → CoordinatorStore → Bool × CoordinatorStore
unfolding move_steps
mark_dispatched assignment_id now_ms s =
    let waits = λ (r : StepRow). step_key r == assignment_id && is_pending r.status in
    (any waits s.steps, move_steps waits StepStatus.dispatched now_ms s)

-- the two UPDATEs of `request_cancellation`
unfoldable pub cancel_steps : String → ℤ → CoordinatorStore → CoordinatorStore
unfolding move_steps
cancel_steps plan_id now_ms s =
    move_steps (λ r. r.plan_id == plan_id && (is_sent r.status || is_unknown r.status))
      StepStatus.cancellation_requested now_ms
      (move_steps (λ r. r.plan_id == plan_id && is_pending r.status) StepStatus.cancelled now_ms s)

unfoldable pub decode_all : List StepRow → Result StoreError (List Assignment)
decode_all [] = ok []
decode_all (r ∷ rows) = elim (decode_assignment r.assignment_json) [
  | ok a ↦ (do rest ← decode_all rows; ok (a ∷ rest))
  | err e ↦ err (invalid e)
]

-- `request_cancellation`; a stored document that cannot be decoded raises after COMMIT ran, inside
-- the `try`, so the error leaves the committed state
unfoldable pub request_cancellation :
    String → ℤ → CoordinatorStore → Result StoreError (List Assignment) × CoordinatorStore
request_cancellation plan_id now_ms s =
    if is_some (find run_key plan_id s.runs)
    then (
      decode_all
          (select (λ r. r.plan_id == plan_id && (is_sent r.status || is_unknown r.status)) s.steps),
      refresh_run plan_id now_ms (cancel_steps plan_id now_ms s),
    )
    else (err unknown_plan, s)

-- one step moved, and its run refreshed
unfoldable pub move_step : StepRow → StepStatus → ℤ → CoordinatorStore → CoordinatorStore
unfolding move_steps refresh_run
move_step row status now_ms s =
    refresh_run row.plan_id now_ms
      (move_steps (λ r. step_key r == row.assignment_id) status now_ms s)

abbrev pub acknowledge_cancellation :
    Option StepRow
    → Bool
    → ℤ
    → CoordinatorStore
    → Result StoreError (Option String × CoordinatorStore)
acknowledge_cancellation none agreed now_ms s = ok (none, s)
acknowledge_cancellation (some row) agreed now_ms s = ok (
  some row.plan_id,
  if is_cancelling row.status && not agreed
      then move_step row StepStatus.unknown now_ms s
      else refresh_run row.plan_id now_ms s,
)

-- `record_cancellation_acknowledgement`
unfoldable pub record_cancellation_acknowledgement :
    String → Bool → ℤ → CoordinatorStore → Result StoreError (Option String) × CoordinatorStore
record_cancellation_acknowledgement assignment_id agreed now_ms =
    transaction (λ s. acknowledge_cancellation (row_of assignment_id s) agreed now_ms s)

-- `current is target`
unfoldable pub same_status : StepStatus → StepStatus → Bool
same_status StepStatus.succeeded StepStatus.succeeded = true
same_status StepStatus.failed StepStatus.failed = true
same_status StepStatus.rejected StepStatus.rejected = true
same_status StepStatus.cancelled StepStatus.cancelled = true
same_status StepStatus.unknown StepStatus.unknown = true
same_status StepStatus.accepted StepStatus.accepted = true
same_status StepStatus.pending StepStatus.pending = true
same_status StepStatus.dispatched StepStatus.dispatched = true
same_status StepStatus.cancellation_requested StepStatus.cancellation_requested = true
same_status _ _ = false

-- the transitions that `_transition` allows from a status that is not terminal
abbrev pub is_allowed : Bool → StepStatus → Bool
is_allowed true current = is_sent current
is_allowed false current = is_sent current || is_cancelling current

unfoldable pub transition_at :
    Option StepRow
    → StepStatus
    → ℤ
    → Bool
    → CoordinatorStore
    → Result StoreError (Option String × CoordinatorStore)
unfolding same_status
transition_at none target now_ms from_ack s = ok (none, s)
transition_at (some row) target now_ms from_ack s =
    if is_terminal row.status
    then (if from_ack then ok (some row.plan_id, s) else do
      guard (same_status row.status target) terminal_immutable
      ok (some row.plan_id, refresh_run row.plan_id now_ms s))
    else do
      guard (is_allowed from_ack row.status) invalid_transition
      ok (some row.plan_id, move_step row target now_ms s)

-- `_transition`
unfoldable pub transition :
    String
    → StepStatus
    → ℤ
    → Bool
    → CoordinatorStore
    → Result StoreError (Option String) × CoordinatorStore
unfolding transition_at
transition assignment_id target now_ms from_ack =
    transaction (λ s. transition_at (row_of assignment_id s) target now_ms from_ack s)

abbrev pub plan_of : Option StepRow → Option String
plan_of none = none
plan_of (some row) = some row.plan_id

-- the target of an acknowledgement
abbrev pub ack_target : AssignmentStatus → Option StepStatus
ack_target AssignmentStatus.accepted = some StepStatus.accepted
ack_target AssignmentStatus.rejected = some StepStatus.rejected
ack_target AssignmentStatus.unknown = some StepStatus.unknown
ack_target _ = none

-- `record_acknowledgement`
unfoldable pub record_acknowledgement :
    String
    → AssignmentStatus
    → ℤ
    → CoordinatorStore
    → Result StoreError (Option String) × CoordinatorStore
record_acknowledgement assignment_id status now_ms s = elim (ack_target status) [
  | none ↦ (ok (plan_of (row_of assignment_id s)), s)
  | some target ↦ transition assignment_id target now_ms true s
]

-- the mapping of `reconcile_outcome`; `record_outcome` adds UNKNOWN
abbrev pub known_outcome : AssignmentStatus → Option StepStatus
known_outcome AssignmentStatus.succeeded = some StepStatus.succeeded
known_outcome AssignmentStatus.failed = some StepStatus.failed
known_outcome AssignmentStatus.rejected = some StepStatus.rejected
known_outcome AssignmentStatus.cancelled = some StepStatus.cancelled
known_outcome _ = none

abbrev pub outcome_target : AssignmentStatus → Option StepStatus
outcome_target AssignmentStatus.unknown = some StepStatus.unknown
outcome_target status = known_outcome status

-- `record_outcome`
unfoldable pub record_outcome :
    String
    → AssignmentStatus
    → ℤ
    → CoordinatorStore
    → Result StoreError (Option String) × CoordinatorStore
record_outcome assignment_id status now_ms s = elim (outcome_target status) [
  | none ↦ (err not_terminal, s)
  | some target ↦ transition assignment_id target now_ms false s
]

unfoldable pub reconcile_at :
    Option StepRow
    → StepStatus
    → ℤ
    → CoordinatorStore
    → Result StoreError (Option String × CoordinatorStore)
reconcile_at none target now_ms s = ok (none, s)
reconcile_at (some row) target now_ms s = do
  guard (is_unknown row.status) only_unknown_reconciled
  ok (some row.plan_id, move_step row target now_ms s)

-- `reconcile_outcome`
unfoldable pub reconcile_outcome :
    String
    → AssignmentStatus
    → ℤ
    → CoordinatorStore
    → Result StoreError (Option String) × CoordinatorStore
unfolding reconcile_at
reconcile_outcome assignment_id status now_ms s = elim (known_outcome status) [
  | none ↦ (err not_reconcilable, s)
  | some target ↦ transaction (λ t. reconcile_at (row_of assignment_id t) target now_ms t) s
]

-- every dependency of a row has succeeded: `statuses.get(item) == "succeeded"` for all items
abbrev pub has_succeeded : String → List StepRow → String → Bool
has_succeeded plan_id steps step_id =
    any (λ r. r.plan_id == plan_id && (r.step_id == step_id && is_succeeded r.status)) steps

unfoldable pub is_ready : String → List StepRow → StepRow → Bool
is_ready plan_id steps r =
    r.plan_id == plan_id
    && (is_pending r.status && all (has_succeeded plan_id steps) r.dependencies)

-- `ready_assignments`
unfoldable pub ready_assignments : String → CoordinatorStore → Result StoreError (List Assignment)
unfolding decode_all
ready_assignments plan_id s = elim (find run_key plan_id s.runs) [
  | none ↦ err unknown_plan
  | some run ↦
      if is_run_active run.status
      then decode_all (select (is_ready plan_id s.steps) s.steps)
      else ok []
]

-- `unknown_assignments`
unfoldable pub unknown_assignments : String → CoordinatorStore → Result StoreError (List Assignment)
unfolding decode_all
unknown_assignments plan_id s =
    decode_all (select (λ r. r.plan_id == plan_id && is_unknown r.status) s.steps)
