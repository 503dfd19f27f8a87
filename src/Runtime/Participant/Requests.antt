-- ===== src/Runtime/Participant/Requests.antt =====
-- `_assignment_query` and `_cancellation_request` of `Participant` in runtime.py.
use ump.Prelude.{
  String, Bool, false, Option, none, some, ◌==◌, if◌then◌else◌, Result, Done, ok, err, ◌>>=◌, ◌>>◌,
}
use ump.Prelude.Int.{ℤ}
use ump.Models.Text.{ModelError}
use ump.Models.Json.{Json, obj, end, get}
use ump.Models.Status.{AssignmentStatus, CancellationStatus}
use ump.Models.Outcome.{Outcome, make_outcome, is_unknown}
use ump.Models.Codec.{as_object, text_at}
use ump.Models.Messages.{
  AssignmentQuery, query_post_init, CancellationRequest, request_post_init, cancellation_post_init,
  AssignmentSnapshot, snapshot_post_init,
}
use ump.Journal.Claim.{JournalError}
use ump.Journal.Durable.{JournalRecord, complete, lookup}
use ump.Transport.Envelope.{Envelope}
use ump.Runtime.Participant.{
  Participant, outcome, snapshot, cancellation, operational, Ended, returned, raised, send,
}

abbrev pub issued_by : String → Option JournalRecord → Option JournalRecord
issued_by source_id none = none
issued_by source_id (some r) = if r.issuer_id == source_id then some r else none

unfoldable pub read_query : Json → Result ModelError AssignmentQuery
unfolding get query_post_init
read_query payload = do
  value ← as_object payload
  assignment_id ← text_at "assignment_id" value
  robot_id ← text_at "robot_id" value
  let query : AssignmentQuery = record { assignment_id = assignment_id; robot_id = robot_id }
  query_post_init query
  ok query

abbrev pub snapshot_description : Option Outcome → String
snapshot_description none = "Participant journal has no terminal outcome"
snapshot_description (some o) = o.description

abbrev pub snapshot_of : String → String → JournalRecord → AssignmentSnapshot
snapshot_of assignment_id robot_id r = record {
  assignment_id = assignment_id;
  robot_id = robot_id;
  status = r.status;
  description = snapshot_description r.outcome;
  fingerprint = r.fingerprint;
  outcome = r.outcome;
}

abbrev pub send_snapshot :
    Result ModelError Done → AssignmentSnapshot → ℤ → Envelope → Participant → Participant × Ended
send_snapshot (err e) s now_ms envelope p = (p, raised)
send_snapshot (ok _) s now_ms envelope p =
    (send operational (snapshot s) now_ms envelope.correlation_id p, returned)

abbrev pub answer_found :
    Option JournalRecord → AssignmentQuery → ℤ → Envelope → Participant → Participant × Ended
answer_found none query now_ms envelope p = (p, returned)
answer_found (some r) query now_ms envelope p =
    let s = snapshot_of query.assignment_id p.robot_id r in
    send_snapshot (snapshot_post_init s) s now_ms envelope p

abbrev pub answer_query :
    Result JournalError (Option JournalRecord)
    → AssignmentQuery
    → ℤ
    → Envelope
    → Participant
    → Participant × Ended
answer_query (err e) query now_ms envelope p = (p, raised)
answer_query (ok found) query now_ms envelope p =
    answer_found (issued_by envelope.source_id found) query now_ms envelope p

abbrev pub answer_read :
    Result ModelError AssignmentQuery → ℤ → Envelope → Participant → Participant × Ended
answer_read (err e) now_ms envelope p = (p, raised)
answer_read (ok query) now_ms envelope p =
    if query.robot_id == p.robot_id
    then answer_query (lookup query.assignment_id p.journal) query now_ms envelope p
    else (p, returned)

-- `_assignment_query`
unfoldable pub receive_query : ℤ → Envelope → Participant → Participant × Ended
unfolding read_query send snapshot_post_init
receive_query now_ms envelope p = answer_read (read_query envelope.payload) now_ms envelope p

unfoldable pub read_request : Json → Result ModelError CancellationRequest
unfolding get request_post_init
read_request payload = do
  value ← as_object payload
  assignment_id ← text_at "assignment_id" value
  robot_id ← text_at "robot_id" value
  reason ← text_at "reason" value
  let request : CancellationRequest = record {
    assignment_id = assignment_id;
    robot_id = robot_id;
    reason = reason;
  }
  request_post_init request
  ok request

abbrev pub cancellation_ack :
    String → CancellationStatus → ℤ → Option String → Participant → Participant
cancellation_ack assignment_id status now_ms correlation_id p =
    send operational (cancellation assignment_id status) now_ms correlation_id p

abbrev pub cancelled_after :
    Result JournalError Done → Outcome → ℤ → Envelope → Participant → Participant × Ended
cancelled_after (err e) o now_ms envelope p = (p, raised)
cancelled_after (ok _) o now_ms envelope p = (
  send operational (outcome o) now_ms envelope.correlation_id (
      cancellation_ack o.assignment_id CancellationStatus.accepted now_ms envelope.correlation_id
        p),
  returned,
)

-- the adapter cancelled the work: its outcome is stored and sent
abbrev pub store_cancelled :
    (Json → String)
    → Result ModelError Outcome
    → JournalRecord
    → ℤ
    → Envelope
    → Participant
    → Participant × Ended
store_cancelled digest (err e) r now_ms envelope p = (p, raised)
store_cancelled digest (ok o) r now_ms envelope p =
    let (done, journal) = complete digest r.assignment o now_ms p.journal in
    cancelled_after done o now_ms envelope (record p { journal = journal })

-- the adapter gave the description of the refusal
abbrev pub refuse_cancelling :
    Result ModelError Done → CancellationRequest → ℤ → Envelope → Participant → Participant × Ended
refuse_cancelling (err e) request now_ms envelope p = (p, raised)
refuse_cancelling (ok _) request now_ms envelope p = (
  cancellation_ack request.assignment_id CancellationStatus.rejected now_ms envelope.correlation_id
      p,
  returned,
)

-- what `adapter.cancel` answers; `none` where it raises
abbrev pub try_cancel :
    (Json → String)
    → Option (Bool × String)
    → CancellationRequest
    → JournalRecord
    → ℤ
    → Envelope
    → Participant
    → Participant × Ended
try_cancel digest none request r now_ms envelope p = (p, raised)
try_cancel digest (some (agreed, description)) request r now_ms envelope p =
    if agreed
    then store_cancelled digest
        (make_outcome request.assignment_id p.robot_id false description
          (some AssignmentStatus.cancelled) (obj end))
        r now_ms envelope p
    else refuse_cancelling
        (cancellation_post_init (record {
          assignment_id = request.assignment_id;
          robot_id = p.robot_id;
          status = CancellationStatus.rejected;
          description = description;
        }))
        request now_ms envelope p

abbrev pub cancel_with :
    (Json → String)
    → Option Outcome
    → Option (Bool × String)
    → CancellationRequest
    → JournalRecord
    → ℤ
    → Envelope
    → Participant
    → Participant × Ended
cancel_with digest (some o) answer request r now_ms envelope p = (
  send operational (outcome o) now_ms envelope.correlation_id (
      cancellation_ack request.assignment_id CancellationStatus.already_terminal now_ms
        envelope.correlation_id p),
  returned,
)
cancel_with digest none answer request r now_ms envelope p =
    if is_unknown r.status
    then (
      cancellation_ack request.assignment_id CancellationStatus.unknown now_ms
          envelope.correlation_id p,
      returned,
    )
    else try_cancel digest answer request r now_ms envelope p

abbrev pub cancel_record :
    (Json → String)
    → Option JournalRecord
    → Option (Bool × String)
    → CancellationRequest
    → ℤ
    → Envelope
    → Participant
    → Participant × Ended
cancel_record digest none answer request now_ms envelope p = (p, returned)
cancel_record digest (some r) answer request now_ms envelope p =
    cancel_with digest r.outcome answer request r now_ms envelope p

abbrev pub cancel_found :
    (Json → String)
    → Result JournalError (Option JournalRecord)
    → Option (Bool × String)
    → CancellationRequest
    → ℤ
    → Envelope
    → Participant
    → Participant × Ended
cancel_found digest (err e) answer request now_ms envelope p = (p, raised)
cancel_found digest (ok found) answer request now_ms envelope p =
    cancel_record digest (issued_by envelope.source_id found) answer request now_ms envelope p

abbrev pub cancel_read :
    (Json → String)
    → Result ModelError CancellationRequest
    → Option (Bool × String)
    → ℤ
    → Envelope
    → Participant
    → Participant × Ended
cancel_read digest (err e) answer now_ms envelope p = (p, raised)
cancel_read digest (ok request) answer now_ms envelope p =
    if request.robot_id == p.robot_id
    then cancel_found digest (lookup request.assignment_id p.journal) answer request now_ms envelope
        p
    else (p, returned)

-- `_cancellation_request`
unfoldable pub receive_cancellation :
    (Json → String) → Option (Bool × String) → ℤ → Envelope → Participant → Participant × Ended
unfolding read_request send make_outcome cancellation_post_init
receive_cancellation digest answer now_ms envelope p =
    cancel_read digest (read_request envelope.payload) answer now_ms envelope p
