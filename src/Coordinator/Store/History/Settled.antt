-- ===== src/Coordinator/Store/History/Settled.antt =====
-- Steps that ended, over every history of the store of coordinator_store.py.
use ump.Prelude.{String, ◌≡◌, true, some, List}
use ump.Coordinator.Tables.{CoordinatorStore, StepRow, row_of}
use ump.Coordinator.Store.History.{Call, perform_all}
use ump.Coordinator.Store.History.Rows.{is_settled}
use ump.Coordinator.Store.History.Steps.{perform_all-Next}

-- Where the step of an assignment has succeeded, failed, been rejected or been cancelled, then
-- after any calls, recoveries among them, it is still there, with the same status, plan, step id
-- and assignment document.
pub perform_all-settled :
    (k : String) (calls : List Call) (s : CoordinatorStore) (r : StepRow)
    → row_of k s ≡ some r
    → is_settled r.status ≡ true
    → (r' : StepRow) × (row_of k (perform_all calls s) ≡ some r')
      × (r'.status ≡ r.status)
      × (r'.plan_id ≡ r.plan_id)
      × (r'.step_id ≡ r.step_id)
      × (r'.assignment_json ≡ r.assignment_json)
perform_all-settled k calls s r at_k settled =
    let (r', at_end, follows) = perform_all-Next k calls r s at_k in
    (r', at_end, follows.settled settled, follows.plan, follows.step, follows.document)
