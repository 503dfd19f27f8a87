-- ===== src/Runtime/Participant/Direct.antt =====
-- `Participant` of runtime.py without an executor, its default: the handler of an assignment runs
-- `_execute_assignment` itself.
use ump.Prelude.{String, [], ◌∷◌, ◌++◌}
use ump.Models.Json.{Json}
use ump.Transport.Envelope.{Envelope}
use ump.Runtime.Participant.{Participant, Job, Ended, Conditions, receive_with}
use ump.Runtime.Participant.Execution.{Reply, finish}

-- `_execute_assignment`, in one step
unfoldable pub execute_job : (Json → String) → Reply → Job → Participant → Participant × Ended
unfolding finish
execute_job digest reply job p =
    finish digest job reply (record p { accept_calls = p.accept_calls ++ job.assignment ∷ [] })

-- `_assignment` where `self._executor` is None
unfoldable pub receive_direct :
    (Json → String) → Reply → Conditions → Envelope → Participant → Participant × Ended
unfolding receive_with execute_job
receive_direct digest reply c envelope p =
    receive_with (execute_job digest reply) digest c envelope p
