-- ===== src/Runtime/Participant/History/Quiet.antt =====
-- The jobs and the adapter calls of one assignment, against the rows of its participant's journal.
use ump.Prelude.{
  ℕ, ◌+◌, ◌≤◌, String, ◌≡◌, refl, ◌∙◌, inl, inr, Bool, Option, none, some, List, Result, Done, ok,
  err, is_some, ◌==◌, arith, Bool-cases,
}
use ump.Prelude.Count.{unit, count}
use ump.Prelude.Int.{ℤ}
use ump.Models.Json.{Json}
use ump.Models.Step.{Assignment}
use ump.Models.Outcome.{Outcome}
use ump.Journal.Claim.{JournalError}
use ump.Journal.Durable.{Journal, AssignmentRow, JournalRecord, complete, lookup}
use ump.Journal.Durable.History.{Call, perform, completing}
use ump.Journal.Durable.History.Rows.{row_of, perform-Kept}
use ump.Runtime.Participant.{
  Participant, Job, Message, Safety, outcome, Stream, send, operational, safety_stream,
}
use ump.Runtime.Participant.Execution.{
  Reply, pull, publish_state, safety_changed, report, reported_after, stored_outcome, settle,
  settle_with, finish_taken, finish_job, finish,
}

-- the jobs that no thread has taken, and the calls of the adapter, for one assignment identifier
abbrev pub is_job_of : String → Job → Bool
is_job_of k job = job.assignment.assignment_id == k

abbrev pub is_call_of : String → Assignment → Bool
is_call_of k a = a.assignment_id == k

-- There are no more of them than rows of the journal.
abbrev pub Fits : String → Participant → Type 0
Fits k p =
    count (is_job_of k) p.queued + count (is_call_of k) p.accept_calls
    ≤ unit (is_some (row_of k p.journal))

-- an event that submits and takes no job, and loses no row
pub record Quiet (p p' : Participant) : Type 0 where
  pub queued : p'.queued ≡ p.queued
  pub accept_calls : p'.accept_calls ≡ p.accept_calls
  pub rows :
      (k : String) → unit (is_some (row_of k p.journal)) ≤ unit (is_some (row_of k p'.journal))

pub Quiet-Fits : (k : String) (p p' : Participant) → Quiet p p' → Fits k p → Fits k p'
Quiet-Fits k p p' q h = rw (q.queued, q.accept_calls) (omega (arith, q.rows k, h))

pub Quiet-refl : (p : Participant) → Quiet p p
Quiet-refl p = record { queued = refl; accept_calls = refl; rows = λ k. omega arith }

pub Quiet-trans : {p q r : Participant} → Quiet p q → Quiet q r → Quiet p r
Quiet-trans first second = record {
  queued = second.queued ∙ first.queued;
  accept_calls = second.accept_calls ∙ first.accept_calls;
  rows = λ k. omega (arith, first.rows k, second.rows k);
}

-- a call of the journal loses no row
pub rows-perform :
    (digest : Json → String) (c : Call) (j : Journal) (k : String) (old : Option AssignmentRow)
    → row_of k j ≡ old
    → unit (is_some old) ≤ unit (is_some (row_of k (perform digest c j)))
rows-perform digest c j k none h = omega arith
rows-perform digest c j k (some r) h =
    let (r', later, _) = perform-Kept digest c k r j h in rw later (omega arith)

pub Quiet-perform :
    (digest : Json → String) (c : Call) (p : Participant)
    → Quiet p (record p { journal = perform digest c p.journal })
Quiet-perform digest c p = record {
  queued = refl;
  accept_calls = refl;
  rows = λ k. rows-perform digest c p.journal k (row_of k p.journal) refl;
}

-- Sends touch neither.
pub Quiet-send :
    (s : Stream) (m : Message) (now : ℤ) (correlation_id : Option String) (p : Participant)
    → Quiet p (send s m now correlation_id p)
unfolding send
Quiet-send operational m now correlation_id p = record {
  queued = refl;
  accept_calls = refl;
  rows = λ k. omega arith;
}
Quiet-send safety_stream m now correlation_id p = record {
  queued = refl;
  accept_calls = refl;
  rows = λ k. omega arith;
}

module _ (now : ℤ) (correlation_id : Option String) where
  pub Quiet-publish_state :
      (s : Option Safety) (p : Participant) → Quiet p (publish_state s now correlation_id p).0
  unfolding publish_state
  Quiet-publish_state none p = Quiet-refl p
  Quiet-publish_state (some s) p = elim (Bool-cases (safety_changed p.last_published_safety s)) [
    | inl e ↦
        rw e
          (unfold send in (record { queued = refl; accept_calls = refl; rows = λ k. omega arith }))
    | inr e ↦
        rw e
          (unfold send in (record { queued = refl; accept_calls = refl; rows = λ k. omega arith }))
  ]

module _ (digest : Json → String) where
  pub Quiet-complete :
      (a : Assignment) (o : Outcome) (now : ℤ) (p : Participant)
      → Quiet p (record p { journal = (complete digest a o now p.journal).1 })
  unfolding perform
  Quiet-complete a o now p = Quiet-perform digest (completing a o now) p

  Quiet-report :
      (o : Outcome) (reply : Reply) (correlation_id : Option String) (p : Participant)
      → Quiet p (report o reply correlation_id p).0
  Quiet-report o reply correlation_id p =
      Quiet-trans (Quiet-send operational (outcome o) reply.completed_at_ms correlation_id p)
        (Quiet-publish_state reply.completed_at_ms correlation_id reply.state_read _)

  Quiet-reported_after :
      (done : Result JournalError Done) (o : Outcome) (reply : Reply)
      (correlation_id : Option String) (p : Participant)
      → Quiet p (reported_after done o reply correlation_id p).0
  Quiet-reported_after (err e) o reply correlation_id p = Quiet-refl p
  Quiet-reported_after (ok _) o reply correlation_id p = Quiet-report o reply correlation_id p

  Quiet-settle_with :
      (stored : Option Outcome) (job : Job) (o : Outcome) (reply : Reply) (p : Participant)
      → Quiet p (settle_with digest stored job o reply p).0
  Quiet-settle_with (some stored) job o reply p = Quiet-report stored reply job.correlation_id p
  Quiet-settle_with none job o reply p =
      Quiet-trans (Quiet-complete job.assignment o reply.completed_at_ms p) (
        Quiet-reported_after (complete digest job.assignment o reply.completed_at_ms p.journal).0 o
          reply job.correlation_id _)

  Quiet-settle :
      (latest : Result JournalError (Option JournalRecord)) (job : Job) (o : Outcome)
      (reply : Reply) (p : Participant)
      → Quiet p (settle digest latest job o reply p).0
  Quiet-settle (err e) job o reply p = Quiet-refl p
  Quiet-settle (ok latest) job o reply p = Quiet-settle_with (stored_outcome latest) job o reply p

  pub Quiet-finish :
      (job : Job) (reply : Reply) (p : Participant) → Quiet p (finish digest job reply p).0
  unfolding finish
  Quiet-finish job reply p =
      Quiet-settle (lookup job.assignment.assignment_id p.journal) job _ reply p

  Quiet-finish_taken :
      (taken : Option (Job × List Job)) (reply : Reply) (p : Participant)
      → Quiet p (finish_taken digest taken reply p).0
  Quiet-finish_taken none reply p = Quiet-refl p
  Quiet-finish_taken (some (job, rest)) reply p =
      Quiet-trans (record { queued = refl; accept_calls = refl; rows = λ k. omega arith })
        (Quiet-finish job reply (record p { running = rest }))

  pub Quiet-finish_job :
      (n : ℕ) (reply : Reply) (p : Participant) → Quiet p (finish_job digest n reply p).0
  unfolding finish_job
  Quiet-finish_job n reply p = Quiet-finish_taken (pull n p.running) reply p
