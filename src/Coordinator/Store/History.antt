-- ===== src/Coordinator/Store/History.antt =====
-- Histories of the coordinator's store: its calls, and recovery after a restart.
pub mod Rows
pub mod Documents
pub mod Steps
pub mod Settled
pub mod Dispatch
use ump.Prelude.{String, Bool, List, [], ◌∷◌}
use ump.Prelude.Int.{ℤ}
use ump.Models.Status.{AssignmentStatus}
use ump.Models.Step.{Assignment}
use ump.Models.Plan.{SharedGoal, Plan}
use ump.Coordinator.Tables.{CoordinatorStore}
use ump.Coordinator.Store.{
  create_run, mark_dispatched, request_cancellation, record_cancellation_acknowledgement,
  record_acknowledgement, record_outcome, reconcile_outcome, recover_interrupted_runs,
}

pub data Call : Type 0 where
  creating : SharedGoal → Plan → List Assignment → ℤ → Call
  dispatching : String → ℤ → Call
  cancelling : String → ℤ → Call
  answering_cancel : String → Bool → ℤ → Call
  acknowledging reporting reconciling : String → AssignmentStatus → ℤ → Call
  recovering : Call

-- The store after a call, whether it returned or raised.
unfoldable pub perform : Call → CoordinatorStore → CoordinatorStore
perform (creating goal plan assignments now_ms) s = (create_run goal plan assignments now_ms s).1
perform (dispatching id now_ms) s = (mark_dispatched id now_ms s).1
perform (cancelling plan_id now_ms) s = (request_cancellation plan_id now_ms s).1
perform (answering_cancel id agreed now_ms) s =
    (record_cancellation_acknowledgement id agreed now_ms s).1
perform (acknowledging id status now_ms) s = (record_acknowledgement id status now_ms s).1
perform (reporting id status now_ms) s = (record_outcome id status now_ms s).1
perform (reconciling id status now_ms) s = (reconcile_outcome id status now_ms s).1
perform recovering s = recover_interrupted_runs s

unfoldable pub perform_all : List Call → CoordinatorStore → CoordinatorStore
perform_all [] s = s
perform_all (c ∷ calls) s = perform_all calls (perform c s)
