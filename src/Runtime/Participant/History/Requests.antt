-- ===== src/Runtime/Participant/History/Requests.antt =====
-- Queries and cancellations of runtime.py submit no work and lose no row.
use ump.Prelude.{
  String, inl, inr, Bool, true, false, Option, none, some, Result, Done, ok, err, ◌==◌, Bool-cases,
}
use ump.Prelude.Int.{ℤ}
use ump.Models.Json.{Json}
use ump.Models.Text.{ModelError}
use ump.Models.Messages.{
  AssignmentQuery, CancellationRequest, AssignmentSnapshot, snapshot_post_init,
  cancellation_post_init,
}
use ump.Models.Outcome.{Outcome, is_unknown}
use ump.Transport.Envelope.{Envelope}
use ump.Journal.Claim.{JournalError}
use ump.Journal.Durable.{JournalRecord, complete, lookup}
use ump.Runtime.Participant.{Participant, operational}
use ump.Runtime.Participant.Requests.{
  answer_found, answer_read, snapshot_of, send_snapshot, refuse_cancelling, cancel_with,
  cancel_read, receive_query, read_query, answer_query, issued_by, receive_cancellation,
  read_request, cancel_found, cancel_record, try_cancel, store_cancelled, cancelled_after,
}
use ump.Runtime.Participant.History.Quiet.{
  Quiet, Quiet-refl, Quiet-trans, Quiet-send, Quiet-complete,
}

module _ (now : ℤ) (envelope : Envelope) (p : Participant) where
  Quiet-send_snapshot :
      (check : Result ModelError Done) (s : AssignmentSnapshot)
      → Quiet p (send_snapshot check s now envelope p).0
  Quiet-send_snapshot (err e) s = Quiet-refl p
  Quiet-send_snapshot (ok _) s = Quiet-send operational _ now envelope.correlation_id p

  Quiet-answer_found :
      (found : Option JournalRecord) (query : AssignmentQuery)
      → Quiet p (answer_found found query now envelope p).0
  Quiet-answer_found none query = Quiet-refl p
  Quiet-answer_found (some r) query =
      Quiet-send_snapshot (snapshot_post_init (snapshot_of query.assignment_id p.robot_id r)) _

  Quiet-answer_query :
      (found : Result JournalError (Option JournalRecord)) (query : AssignmentQuery)
      → Quiet p (answer_query found query now envelope p).0
  Quiet-answer_query (err e) query = Quiet-refl p
  Quiet-answer_query (ok found) query =
      Quiet-answer_found (issued_by envelope.source_id found) query

  Quiet-answer_read :
      (read : Result ModelError AssignmentQuery) → Quiet p (answer_read read now envelope p).0
  Quiet-answer_read (err e) = Quiet-refl p
  Quiet-answer_read (ok query) = elim (Bool-cases (query.robot_id == p.robot_id)) [
    | inl e ↦ rw e (Quiet-answer_query (lookup query.assignment_id p.journal) query)
    | inr e ↦ rw e (Quiet-refl p)
  ]

  pub Quiet-receive_query : Quiet p (receive_query now envelope p).0
  unfolding receive_query
  Quiet-receive_query = Quiet-answer_read (read_query envelope.payload)

module _ (digest : Json → String) (answer : Option (Bool × String)) (now : ℤ)
    (envelope : Envelope) where
  Quiet-cancelled_after :
      (done : Result JournalError Done) (o : Outcome) (p : Participant)
      → Quiet p (cancelled_after done o now envelope p).0
  Quiet-cancelled_after (err e) o p = Quiet-refl p
  Quiet-cancelled_after (ok _) o p =
      Quiet-trans (Quiet-send operational _ now envelope.correlation_id p)
        (Quiet-send operational _ now envelope.correlation_id _)

  Quiet-store_cancelled :
      (made : Result ModelError Outcome) (r : JournalRecord) (p : Participant)
      → Quiet p (store_cancelled digest made r now envelope p).0
  Quiet-store_cancelled (err e) r p = Quiet-refl p
  Quiet-store_cancelled (ok o) r p =
      Quiet-trans (Quiet-complete digest r.assignment o now p)
        (Quiet-cancelled_after (complete digest r.assignment o now p.journal).0 o _)

  Quiet-refuse_cancelling :
      (check : Result ModelError Done) (request : CancellationRequest) (p : Participant)
      → Quiet p (refuse_cancelling check request now envelope p).0
  Quiet-refuse_cancelling (err e) request p = Quiet-refl p
  Quiet-refuse_cancelling (ok _) request p = Quiet-send operational _ now envelope.correlation_id p

  Quiet-try_cancel :
      (given : Option (Bool × String)) (request : CancellationRequest) (r : JournalRecord)
      (p : Participant)
      → Quiet p (try_cancel digest given request r now envelope p).0
  Quiet-try_cancel none request r p = Quiet-refl p
  Quiet-try_cancel (some (true, description)) request r p = Quiet-store_cancelled _ r p
  Quiet-try_cancel (some (false, description)) request r p =
      Quiet-refuse_cancelling (cancellation_post_init _) request p

  Quiet-cancel_with :
      (stored : Option Outcome) (request : CancellationRequest) (r : JournalRecord)
      (p : Participant)
      → Quiet p (cancel_with digest stored answer request r now envelope p).0
  Quiet-cancel_with (some o) request r p =
      Quiet-trans (Quiet-send operational _ now envelope.correlation_id p)
        (Quiet-send operational _ now envelope.correlation_id _)
  Quiet-cancel_with none request r p = elim (Bool-cases (is_unknown r.status)) [
    | inl e ↦ rw e (Quiet-send operational _ now envelope.correlation_id p)
    | inr e ↦ rw e (Quiet-try_cancel answer request r p)
  ]

  Quiet-cancel_record :
      (found : Option JournalRecord) (request : CancellationRequest) (p : Participant)
      → Quiet p (cancel_record digest found answer request now envelope p).0
  Quiet-cancel_record none request p = Quiet-refl p
  Quiet-cancel_record (some r) request p = Quiet-cancel_with r.outcome request r p

  Quiet-cancel_found :
      (found : Result JournalError (Option JournalRecord)) (request : CancellationRequest)
      (p : Participant)
      → Quiet p (cancel_found digest found answer request now envelope p).0
  Quiet-cancel_found (err e) request p = Quiet-refl p
  Quiet-cancel_found (ok found) request p =
      Quiet-cancel_record (issued_by envelope.source_id found) request p

  Quiet-cancel_read :
      (read : Result ModelError CancellationRequest) (p : Participant)
      → Quiet p (cancel_read digest read answer now envelope p).0
  Quiet-cancel_read (err e) p = Quiet-refl p
  Quiet-cancel_read (ok request) p = elim (Bool-cases (request.robot_id == p.robot_id)) [
    | inl e ↦ rw e (Quiet-cancel_found (lookup request.assignment_id p.journal) request p)
    | inr e ↦ rw e (Quiet-refl p)
  ]

  pub Quiet-receive_cancellation :
      (p : Participant) → Quiet p (receive_cancellation digest answer now envelope p).0
  unfolding receive_cancellation
  Quiet-receive_cancellation p = Quiet-cancel_read (read_request envelope.payload) p
