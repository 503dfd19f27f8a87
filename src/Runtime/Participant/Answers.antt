-- ===== src/Runtime/Participant/Answers.antt =====
-- What `Participant._assignment` of runtime.py sends for an assignment to its robot, apart from what
-- the execution of the work sends.
use ump.Prelude.{◌<◌, String, ◌≡◌, ◌⊎◌, Option, none, some, [], ◌∷◌, ◌++◌}
use ump.Models.Json.{Json}
use ump.Models.Status.{AssignmentStatus}
use ump.Models.Step.{Assignment}
use ump.Models.Outcome.{Outcome}
use ump.Journal.Durable.{Journal}
use ump.Runtime.Participant.{
  Participant, Publication, Message, acknowledgement, refusal, outcome, Reason, Ended, returned,
  Job, raised, operational,
}

-- the status that a message reports at the end of an assignment
abbrev pub reports : Message → Option AssignmentStatus
reports (refusal _ status _) = some status
reports (outcome o) = some o.status
reports _ = none

-- An exception leaves the handler before anything is sent.
pub record Silent (p : Participant) (end : Participant × Ended) : Type 0 where
  pub raises : end.1 ≡ raised
  pub sent : end.0.sent ≡ p.sent
  pub queued : end.0.queued ≡ p.queued
  pub accept_calls : end.0.accept_calls ≡ p.accept_calls

-- The acknowledgement that the handler sends first.
pub record Acknowledges (a : Assignment) (correlation_id : Option String) (p : Participant)
    (status : AssignmentStatus) (x : Publication) : Type 0 where
  pub why : Reason
  pub says : x.message ≡ acknowledgement a.assignment_id status why
  pub on : x.stream ≡ operational
  pub numbered : p.operational_sequence < x.sequence
  pub answers : x.correlation_id ≡ correlation_id

-- The handler refuses or replays: it sends an acknowledgement and then a final report with the same
-- status, and makes no work.
pub record Closed (a : Assignment) (correlation_id : Option String) (p : Participant)
    (end : Participant × Ended) : Type 0 where
  pub status : AssignmentStatus
  pub first : Publication
  pub acknowledges : Acknowledges a correlation_id p status first
  pub final : Publication
  pub reported : reports final.message ≡ some status
  pub on : final.stream ≡ operational
  pub numbered : first.sequence < final.sequence
  pub answers : final.correlation_id ≡ correlation_id
  pub returns : end.1 ≡ returned
  pub sent : end.0.sent ≡ p.sent ++ first ∷ final ∷ []
  pub queued : end.0.queued ≡ p.queued
  pub accept_calls : end.0.accept_calls ≡ p.accept_calls

-- The handler acknowledges the assignment as accepted, sends nothing else itself, and ends as `work`
-- does on its job.
pub record Accepted (work : Job → Participant → Participant × Ended) (a : Assignment)
    (correlation_id : Option String) (p : Participant) (end : Participant × Ended) : Type 0 where
  pub first : Publication
  pub acknowledges : Acknowledges a correlation_id p AssignmentStatus.accepted first
  pub middle : Participant
  pub sent : middle.sent ≡ p.sent ++ first ∷ []
  pub queued : middle.queued ≡ p.queued
  pub accept_calls : middle.accept_calls ≡ p.accept_calls
  pub works : end ≡ work (record { assignment = a; correlation_id = correlation_id }) middle

module _ (work : Job → Participant → Participant × Ended) (a : Assignment)
    (correlation_id : Option String) where
  -- the three ways in which `_assignment` answers
  abbrev pub Answers : Participant → Participant × Ended → Type 0
  Answers p end =
      Silent p end ⊎ (Closed a correlation_id p end ⊎ Accepted work a correlation_id p end)
