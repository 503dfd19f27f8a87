-- ===== src/Runtime/Participant.antt =====
-- `Participant` of runtime.py: what a robot does with assignments, queries and cancellations. The
-- adapter, the clock and the JSON Schema validator are other code: what they answer in one call is
-- an argument of the step. The executor's threads are two lists, so that other steps stand between
-- the claim of an assignment, the call of the adapter, and its end. `Direct` has a participant without
-- executor.
pub mod Execution
pub mod Direct
pub mod Requests
pub mod History
pub mod Answers
pub mod Reports
use ump.Prelude.{
  ℕ, zero, suc, ◌+◌, String, Bool, true, false, not, ◌&&◌, ◌||◌, Option, none, some, List, [], ◌∷◌,
  ◌++◌, ◌==◌, if◌then◌else◌, is_some, Result, Done, ok, err, ◌>>=◌, ◌>>◌, guard, refuse,
}
use ump.Prelude.Int.{ℤ, ltb_ℤ}
use ump.Models.Text.{ModelError}
use ump.Models.Json.{Json, text, obj, end, get, json_eq}
use ump.Models.Status.{AssignmentStatus, CancellationStatus}
use ump.Models.Step.{Assignment}
use ump.Models.Outcome.{Outcome, make_outcome, is_succeeded, is_unknown}
use ump.Models.Codec.{as_object, required, text_at, decode_assignment}
use ump.Models.Messages.{
  AssignmentSnapshot, AssignmentQuery, query_post_init, CancellationRequest, request_post_init,
}
use ump.Authority.Store.{AuthorityStore, AuthorityError, invalid_row, authorize}
use ump.Journal.Claim.{ClaimKind, ClaimResult, JournalError}
use ump.Journal.Durable.{Journal, JournalRecord, claim, complete, lookup}
use ump.Transport.Envelope.{Envelope}

-- Why an acknowledgement, and the outcome with it, says what it says: one constructor for each branch
-- of `_assignment`, in place of the texts.
pub data Reason : Type 0 where
  window_not_open deadline_passed unadvertised inputs_differ : Reason
  unauthorized : AuthorityError → Reason
  replayed id_conflict resource_reserved interrupted accepted_for_execution : Reason

-- `Safety`
pub data Safety : Type 0 where
  normal protective_stop emergency_stop recovery_required unknown : Safety

-- What is published. A refusal is the `Outcome` of a constant text that did not succeed; of a
-- robot's state the model keeps the safety status.
pub data Message : Type 0 where
  acknowledgement refusal : String → AssignmentStatus → Reason → Message
  outcome : Outcome → Message
  snapshot : AssignmentSnapshot → Message
  cancellation : String → CancellationStatus → Message
  state : Safety → Message

pub data Stream : Type 0 where
  operational safety_stream : Stream

pub record Publication : Type 0 where
  pub message : Message
  pub stream : Stream
  pub sequence : ℕ
  pub timestamp_ms : ℤ
  pub correlation_id : Option String

-- The arguments of `_execute_assignment`.
pub record Job : Type 0 where
  pub assignment : Assignment
  pub correlation_id : Option String

-- `sent` is what went to the bus, and `accept_calls` the calls of `adapter.accept`, in order.
pub record Participant : Type 0 where
  pub robot_id : String
  pub session_id : String
  pub operational_sequence : ℕ
  pub safety_sequence : ℕ
  pub last_published_safety : Option Safety
  pub leases : AuthorityStore
  pub journal : Journal
  pub queued : List Job
  pub running : List Job
  pub accept_calls : List Assignment
  pub sent : List Publication

-- How a handler ends.
pub data Ended : Type 0 where
  returned raised : Ended

-- `_send`
unfoldable pub send : Stream → Message → ℤ → Option String → Participant → Participant
send operational message now_ms correlation_id p = record p {
  operational_sequence = p.operational_sequence + 1;
  sent =
      p.sent
      ++ record {
        message = message;
        stream = operational;
        sequence = p.operational_sequence + 1;
        timestamp_ms = now_ms;
        correlation_id = correlation_id;
      }
        ∷ [];
}
send safety_stream message now_ms correlation_id p = record p {
  safety_sequence = p.safety_sequence + 1;
  sent =
      p.sent
      ++ record {
        message = message;
        stream = safety_stream;
        sequence = p.safety_sequence + 1;
        timestamp_ms = now_ms;
        correlation_id = correlation_id;
      }
        ∷ [];
}

-- `_acknowledge`, then the outcome that `_reject` and the refusing branches send
unfoldable pub answer_refused :
    Assignment → AssignmentStatus → Reason → ℤ → Option String → Participant → Participant
unfolding send
answer_refused a status why now_ms correlation_id p =
    send operational (refusal a.assignment_id status why) now_ms correlation_id
      (send operational (acknowledgement a.assignment_id status why) now_ms correlation_id p)

-- What the clock, the adapter and the validator answer to `_assignment`.
pub record Conditions : Type 0 where
  pub now_ms : ℤ
  pub advertised : Bool
  pub inputs_conform : Bool

-- Why `_assignment` goes no further: it refuses, or an exception leaves it.
pub data Problem : Type 0 where
  refused : Reason → Problem
  crashed : Problem

-- `except AuthorizationError`; a stored lease that fails its constructor raises ValueError
abbrev pub authority_problem : AuthorityError → Problem
authority_problem (invalid_row _) = crashed
authority_problem e = refused (unauthorized e)

abbrev pub lift_authority {ℓ} : {A : Type ℓ} → Result AuthorityError A → Result Problem A
lift_authority (ok a) = ok a
lift_authority (err e) = err (authority_problem e)

abbrev pub before : ℤ → Option ℤ → Bool
before now_ms none = false
before now_ms (some bound) = ltb_ℤ now_ms bound

abbrev pub after : ℤ → Option ℤ → Bool
after now_ms none = false
after now_ms (some bound) = ltb_ℤ bound now_ms

-- the checks of `_assignment` before the claim
unfoldable pub check_assignment :
    Conditions → String → Assignment → Participant → Result Problem Done
check_assignment c source_id a p = do
  refuse (before c.now_ms a.step.not_before_ms) (refused window_not_open)
  refuse (after c.now_ms a.step.deadline_ms) (refused deadline_passed)
  _ ← lift_authority (authorize source_id p.robot_id a c.now_ms p.leases)
  guard c.advertised (refused unadvertised)
  guard c.inputs_conform (refused inputs_differ)

-- `self._executor.submit`
unfoldable pub submit : Job → Participant → Participant × Ended
submit job p = (record p { queued = p.queued ++ job ∷ [] }, returned)

-- The answers to a claim. Where it is new, the assignment is acknowledged and handed to `work`: to
-- `submit`, or, without an executor, to `_execute_assignment` itself.
unfoldable pub respond :
    (Job → Participant → Participant × Ended)
    → ClaimKind
    → Option Outcome
    → Assignment
    → ℤ
    → Option String
    → Participant
    → Participant × Ended
unfolding send answer_refused
respond work ClaimKind.replay (some o) a now_ms correlation_id p = (
  send operational (outcome o) now_ms correlation_id (
      send operational (acknowledgement a.assignment_id o.status replayed) now_ms correlation_id p),
  returned,
)
respond work ClaimKind.replay none a now_ms correlation_id p = (p, raised)
respond work ClaimKind.conflict _ a now_ms correlation_id p =
    (answer_refused a AssignmentStatus.rejected id_conflict now_ms correlation_id p, returned)
respond work ClaimKind.resource_conflict _ a now_ms correlation_id p =
    (answer_refused a AssignmentStatus.rejected resource_reserved now_ms correlation_id p, returned)
respond work ClaimKind.uncertain _ a now_ms correlation_id p =
    (answer_refused a AssignmentStatus.unknown interrupted now_ms correlation_id p, returned)
respond work ClaimKind.new _ a now_ms correlation_id p =
    work (record { assignment = a; correlation_id = correlation_id })
      (send operational
        (acknowledgement a.assignment_id AssignmentStatus.accepted accepted_for_execution) now_ms
        correlation_id p)

abbrev pub respond_to :
    (Job → Participant → Participant × Ended)
    → Result JournalError ClaimResult
    → Assignment
    → ℤ
    → Option String
    → Participant
    → Participant × Ended
respond_to work (err e) a now_ms correlation_id p = (p, raised)
respond_to work (ok r) a now_ms correlation_id p =
    respond work r.kind r.outcome a now_ms correlation_id p

abbrev pub decide_checked :
    (Job → Participant → Participant × Ended)
    → Result Problem Done
    → (Json → String)
    → ℤ
    → String
    → Option String
    → Assignment
    → Participant
    → Participant × Ended
decide_checked work (err crashed) digest now_ms source_id correlation_id a p = (p, raised)
decide_checked work (err (refused why)) digest now_ms source_id correlation_id a p =
    (answer_refused a AssignmentStatus.rejected why now_ms correlation_id p, returned)
decide_checked work (ok _) digest now_ms source_id correlation_id a p =
    let (answer, journal) = claim digest a source_id now_ms p.journal in
    respond_to work answer a now_ms correlation_id (record p { journal = journal })

-- `_assignment` for an assignment to this robot
unfoldable pub decide :
    (Job → Participant → Participant × Ended)
    → (Json → String)
    → Conditions
    → String
    → Option String
    → Assignment
    → Participant
    → Participant × Ended
unfolding check_assignment
decide work digest c source_id correlation_id a p =
    decide_checked work (check_assignment c source_id a p) digest c.now_ms source_id correlation_id
      a p

-- the assignment of a payload, if it is for this robot
unfoldable pub read_assignment : String → Json → Result ModelError (Option Assignment)
unfolding get json_eq decode_assignment
read_assignment robot_id payload = do
  value ← as_object payload
  step_document ← required (get "step" value)
  step ← as_object step_document
  assigned ← required (get "assigned_robot_id" step)
  if json_eq assigned (text robot_id)
      then (do a ← decode_assignment payload; ok (some a))
      else ok none

abbrev pub receive_read :
    (Job → Participant → Participant × Ended)
    → Result ModelError (Option Assignment)
    → (Json → String)
    → Conditions
    → Envelope
    → Participant
    → Participant × Ended
receive_read work (err e) digest c envelope p = (p, raised)
receive_read work (ok none) digest c envelope p = (p, returned)
receive_read work (ok (some a)) digest c envelope p =
    decide work digest c envelope.source_id envelope.correlation_id a p

-- `_assignment`
unfoldable pub receive_with :
    (Job → Participant → Participant × Ended)
    → (Json → String)
    → Conditions
    → Envelope
    → Participant
    → Participant × Ended
unfolding decide
receive_with work digest c envelope p =
    receive_read work (read_assignment p.robot_id envelope.payload) digest c envelope p

-- `_assignment` of a participant with an executor
unfoldable pub receive_assignment :
    (Json → String) → Conditions → Envelope → Participant → Participant × Ended
unfolding receive_with submit
receive_assignment digest c envelope p = receive_with submit digest c envelope p
