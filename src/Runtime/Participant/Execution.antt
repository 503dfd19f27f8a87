-- ===== src/Runtime/Participant/Execution.antt =====
-- `_execute_assignment` and `publish_state` of `Participant` in runtime.py.
use ump.Prelude.{
  ℕ, zero, suc, String, Bool, true, false, not, Option, none, some, List, [], ◌∷◌, ◌++◌, ◌==◌,
  if◌then◌else◌, Result, Done, ok, err, ◌>>=◌, ◌>>◌, guard,
}
use ump.Prelude.Int.{ℤ}
use ump.Models.Json.{Json, obj, end}
use ump.Models.Status.{AssignmentStatus}
use ump.Models.Step.{Assignment}
use ump.Models.Outcome.{Outcome, is_succeeded}
use ump.Journal.Claim.{JournalError}
use ump.Journal.Durable.{JournalRecord, complete, lookup}
use ump.Runtime.Participant.{
  Participant, Job, outcome, state, Safety, operational, safety_stream, Ended, returned, raised,
  send,
}

-- `is` on the members of `Safety`
unfoldable pub same_safety : Safety → Safety → Bool
same_safety Safety.normal Safety.normal = true
same_safety Safety.protective_stop Safety.protective_stop = true
same_safety Safety.emergency_stop Safety.emergency_stop = true
same_safety Safety.recovery_required Safety.recovery_required = true
same_safety Safety.unknown Safety.unknown = true
same_safety _ _ = false

abbrev pub safety_changed : Option Safety → Safety → Bool
safety_changed none s = false
safety_changed (some last) s = not (same_safety s last)

-- `publish_state`, with the state that the adapter gives; `none` where it raises
unfoldable pub publish_state : Option Safety → ℤ → Option String → Participant → Participant × Ended
unfolding send same_safety
publish_state none now_ms correlation_id p = (p, raised)
publish_state (some s) now_ms correlation_id p =
    let warned =
      if safety_changed p.last_published_safety s
      then send safety_stream (state s) now_ms correlation_id p
      else p in
    (
      send operational (state s) now_ms correlation_id
          (record warned { last_published_safety = some s }),
      returned,
    )

-- What the adapter, the validator and the clock answer while a job ends. An exception stands for its
-- name; `schema_error` is that of the output's validation, which runs for a success.
pub record Reply : Type 0 where
  pub accepted : Result String Outcome
  pub advertised : Bool
  pub schema_error : Option String
  pub completed_at_ms : ℤ
  pub state_read : Option Safety

abbrev pub raise_if : Option String → Result String Done
raise_if none = ok tt
raise_if (some name) = err name

abbrev pub schema_check : Outcome → Reply → Result String Done
schema_check o reply = if is_succeeded o.status then raise_if reply.schema_error else ok tt

-- the `try` block of `_execute_assignment`
unfoldable pub adapter_outcome : String → Assignment → Reply → Result String Outcome
adapter_outcome robot_id a reply = do
  o ← reply.accepted
  guard (o.assignment_id == a.assignment_id) "ValueError"
  guard (o.robot_id == robot_id) "ValueError"
  guard reply.advertised "ValueError"
  schema_check o reply
  ok o

abbrev pub append_text : String → String → String
append_text String.[] t = t
append_text (String.◌∷◌ c s) t = String.◌∷◌ c (append_text s t)

abbrev pub unknown_after : String → String → String → Outcome
unknown_after robot_id assignment_id name = record {
  assignment_id = assignment_id;
  robot_id = robot_id;
  succeeded = false;
  description = append_text "Native adapter outcome is unknown after " name;
  status = AssignmentStatus.unknown;
  outputs = obj end;
}

-- `except Exception`
abbrev pub outcome_or_unknown : String → String → Result String Outcome → Outcome
outcome_or_unknown robot_id assignment_id (ok o) = o
outcome_or_unknown robot_id assignment_id (err name) = unknown_after robot_id assignment_id name

abbrev pub stored_outcome : Option JournalRecord → Option Outcome
stored_outcome none = none
stored_outcome (some r) = r.outcome

abbrev pub report : Outcome → Reply → Option String → Participant → Participant × Ended
report o reply correlation_id p =
    publish_state reply.state_read reply.completed_at_ms correlation_id
      (send operational (outcome o) reply.completed_at_ms correlation_id p)

abbrev pub reported_after :
    Result JournalError Done → Outcome → Reply → Option String → Participant → Participant × Ended
reported_after (err e) o reply correlation_id p = (p, raised)
reported_after (ok _) o reply correlation_id p = report o reply correlation_id p

-- an outcome that the journal has is reported in place of the adapter's
abbrev pub settle_with :
    (Json → String) → Option Outcome → Job → Outcome → Reply → Participant → Participant × Ended
settle_with digest (some stored) job o reply p = report stored reply job.correlation_id p
settle_with digest none job o reply p =
    let (done, journal) = complete digest job.assignment o reply.completed_at_ms p.journal in
    reported_after done o reply job.correlation_id (record p { journal = journal })

abbrev pub settle :
    (Json → String)
    → Result JournalError (Option JournalRecord)
    → Job
    → Outcome
    → Reply
    → Participant
    → Participant × Ended
settle digest (err e) job o reply p = (p, raised)
settle digest (ok latest) job o reply p = settle_with digest (stored_outcome latest) job o reply p

-- the rest of `_execute_assignment` after the call of `adapter.accept`
unfoldable pub finish : (Json → String) → Job → Reply → Participant → Participant × Ended
unfolding adapter_outcome publish_state
finish digest job reply p =
    settle digest (lookup job.assignment.assignment_id p.journal) job
      (outcome_or_unknown p.robot_id job.assignment.assignment_id
        (adapter_outcome p.robot_id job.assignment reply))
      reply p

-- take one element out of a list
unfoldable pub pull {ℓ} : {A : Type ℓ} → ℕ → List A → Option (A × List A)
pull n [] = none
pull zero (x ∷ xs) = some (x, xs)
pull (suc n) (x ∷ xs) = elim (pull n xs) [ none ↦ none | some (y, rest) ↦ some (y, x ∷ rest) ]

-- a thread of the executor takes a job and calls `adapter.accept`
abbrev pub start_taken : Option (Job × List Job) → Participant → Participant
start_taken none p = p
start_taken (some (job, rest)) p = record p {
  queued = rest;
  running = p.running ++ job ∷ [];
  accept_calls = p.accept_calls ++ job.assignment ∷ [];
}

unfoldable pub start_job : ℕ → Participant → Participant
unfolding pull
start_job n p = start_taken (pull n p.queued) p

-- the call returns or raises, and the thread goes on to the end
abbrev pub finish_taken :
    (Json → String) → Option (Job × List Job) → Reply → Participant → Participant × Ended
finish_taken digest none reply p = (p, returned)
finish_taken digest (some (job, rest)) reply p =
    finish digest job reply (record p { running = rest })

unfoldable pub finish_job : (Json → String) → ℕ → Reply → Participant → Participant × Ended
unfolding pull finish
finish_job digest n reply p = finish_taken digest (pull n p.running) reply p
