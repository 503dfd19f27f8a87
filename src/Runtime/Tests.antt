-- ===== src/Runtime/Tests.antt =====
-- Runs of a participant, and its theorems at concrete messages.
use ump.Prelude.{
  ◌≡◌, ◌≤◌, ◌⊎◌, refl, String, true, false, none, some, List, [], ◌∷◌, ◌++◌, ok, not, ◌&&◌,
}
use ump.Prelude.Count.{count}
use ump.Prelude.Int.{pos}
use ump.Prelude.Table.{find, select}
use ump.Models.Json.{Json}
use ump.Models.Outcome.{Outcome}
use ump.Models.Samples.{carry_job, carry_lease, delivered}
use ump.Models.Step.{Assignment}
use ump.Models.Lease.{AuthorityLease}
use ump.Authority.Store.{AuthorityStore, grant, open_store, authorize}
use ump.Journal.Durable.{claim, accepted_row, reserve}
use ump.Journal.Durable.History.Rows.{row_of}
use ump.Transport.Samples.{carry_message}
use ump.Runtime.Registry.{RobotManifest, Registry, peer_of, is_fresh, missing_context}
use ump.Runtime.Registry.Context.{has_manifest, missing_context-is_fresh}
use ump.Runtime.Participant.{
  Participant, Job, Safety, Conditions, before, after, read_assignment, receive_assignment,
}
use ump.Runtime.Participant.Answers.{Answers}
use ump.Runtime.Participant.Execution.{Reply, finish}
use ump.Runtime.Participant.Reports.{Reports, Stores, finish-Stores}
use ump.Runtime.Participant.History.{
  Event, assigned, executed, granting, starting, finishing, restarting, run, start_up,
}
use ump.Runtime.Participant.History.Quiet.{is_call_of}
use ump.Runtime.Participant.History.Admission.{receive_assignment-authorized}
use ump.Runtime.Participant.History.Once.{run-accepts_once}

abbrev one_digest : Json → String
one_digest _ = "digest"

abbrev able : Conditions
able = record { now_ms = pos 2000; advertised = true; inputs_conform = true }

abbrev delivery_reply : Reply
delivery_reply = record {
  accepted = ok delivered;
  advertised = true;
  schema_error = none;
  completed_at_ms = pos 3000;
  state_read = some Safety.normal;
}

-- the same assignment comes again and again, with a restart between, to an executor and without one
abbrev events : List Event
events =
    granting carry_lease (pos 1000)
    ∷ assigned able carry_message
    ∷ starting 0
    ∷ assigned able carry_message
    ∷ finishing 0 delivery_reply
    ∷ restarting "session-9"
    ∷ executed delivery_reply able carry_message
    ∷ assigned able carry_message
    ∷ starting 0
    ∷ []

abbrev robot : Participant
robot = start_up "robot-1" "session-1"

run-accepts_once_example :
    count (is_call_of "assignment-1") (run one_digest events robot).accept_calls ≤ 1
run-accepts_once_example = run-accepts_once one_digest "robot-1" "session-1" events "assignment-1"

abbrev granted_store : AuthorityStore
granted_store = (grant carry_lease (pos 1000) (open_store "robot-1")).1

-- the participant that holds the lease
abbrev ready_robot : Participant
ready_robot = record robot { leases = granted_store }

receive_assignment-authorized_example :
    ((receive_assignment one_digest able carry_message ready_robot).0.queued ≡ ready_robot.queued)
    ⊎ ((a : Assignment) × (l : AuthorityLease) × ((receive_assignment one_digest able carry_message
            ready_robot).0.queued
          ≡ ready_robot.queued ++ record { assignment = a; correlation_id = none } ∷ [])
        × (read_assignment "robot-1" carry_message.payload ≡ ok (some a))
        × (authorize "coordinator-1" "robot-1" a (pos 2000) ready_robot.leases ≡ ok l)
        × (before (pos 2000) a.step.not_before_ms ≡ false)
        × (after (pos 2000) a.step.deadline_ms ≡ false)
        × (able.advertised ≡ true)
        × (able.inputs_conform ≡ true)
        × (row_of a.assignment_id ready_robot.journal ≡ none)
        × (row_of a.assignment_id
              (receive_assignment one_digest able carry_message ready_robot).0.journal
            ≡ some (accepted_row one_digest a "coordinator-1" (pos 2000))))
unfolding start_up
receive_assignment-authorized_example =
    receive_assignment-authorized one_digest able carry_message ready_robot

-- the participant that has called the adapter
abbrev carry_work : Job
carry_work = record { assignment = carry_job; correlation_id = none }

abbrev busy_robot : Participant
busy_robot = record ready_robot {
  journal = (claim one_digest carry_job "coordinator-1" (pos 2000) ready_robot.journal).1;
}

claimed_row :
    row_of "assignment-1" busy_robot.journal
    ≡ some (accepted_row one_digest carry_job "coordinator-1" (pos 2000))
unfolding claim find reserve start_up
claimed_row = refl

finish-Stores_example :
    ((finish one_digest carry_work delivery_reply busy_robot).0.sent ≡ busy_robot.sent)
    ⊎ ((o : Outcome) × Reports o busy_robot
          (finish one_digest carry_work delivery_reply busy_robot).0
        × Stores "assignment-1" o
            (finish one_digest carry_work delivery_reply busy_robot).0.journal)
finish-Stores_example =
    finish-Stores one_digest carry_work delivery_reply busy_robot
      (accepted_row one_digest carry_job "coordinator-1" (pos 2000)) claimed_row

abbrev carrier : RobotManifest
carrier = record {
  robot_id = "robot-1";
  manufacturer = "Acme";
  model = "M1";
  robot_class = "carrier";
  capabilities = [];
  adapter_version = "0.1.0";
}

abbrev peers : Registry
peers =
    record {
      robot_id = "robot-1";
      manifest = some carrier;
      state = some (record { fresh_for_ms = pos 2000 });
      state_timestamp_ms = pos 1000;
      session_id = some "session-1";
    }
    ∷ []

-- one peer that is fresh, one that is not known
missing_context-is_fresh_example :
    missing_context ("robot-1" ∷ "robot-2" ∷ []) (pos 2000) peers
    ≡ select
        (λ id. not (has_manifest (peer_of id peers) && is_fresh id (pos 2000) peers))
        ("robot-1" ∷ "robot-2" ∷ [])
missing_context-is_fresh_example =
    missing_context-is_fresh ("robot-1" ∷ "robot-2" ∷ []) (pos 2000) peers
