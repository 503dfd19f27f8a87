-- ===== src/Runtime/Participant/History/Once.antt =====
-- How often a participant calls `adapter.accept` of adapter.py for one assignment.
use ump.Prelude.{
  ℕ, zero, suc, ◌+◌, ◌≤◌, String, ◌≡◌, refl, inl, inr, Bool, true, false, Option, none, some, List,
  [], ◌∷◌, ◌++◌, ok, is_some, ◌==◌, arith, eq_iff, Bool-cases, Option-cases,
}
use ump.Prelude.Count.{unit, count, count-append}
use ump.Prelude.Int.{ℤ}
use ump.Models.Status.{AssignmentStatus}
use ump.Models.Json.{Json}
use ump.Models.Step.{Assignment}
use ump.Transport.Envelope.{Envelope}
use ump.Journal.Claim.{ClaimKind}
use ump.Journal.Durable.{Journal, claim, claimed, resolve_unknown, restart}
use ump.Journal.Durable.History.{Call, claiming, perform}
use ump.Journal.Durable.History.Rows.{row_of}
use ump.Journal.Durable.History.Once.{claim-inserts}
use ump.Runtime.Participant.{Participant, Job, Conditions, Ended}
use ump.Runtime.Participant.Direct.{execute_job, receive_direct}
use ump.Runtime.Participant.Execution.{Reply, pull, start_taken, start_job}
use ump.Runtime.Participant.History.{
  Event, assigned, executed, queried, cancelling, starting, finishing, publishing, granting,
  revoking, resolving, restarting, step, run, start_up, reopen,
}
use ump.Runtime.Participant.History.Admission.{
  Admitted, Handed, receive_with_cases, receive_assignment_cases, claim-new-none,
}
use ump.Runtime.Participant.History.Requests.{Quiet-receive_query, Quiet-receive_cancellation}
use ump.Runtime.Participant.History.Quiet.{
  is_job_of, is_call_of, Fits, Quiet, Quiet-Fits, Quiet-perform, rows-perform, Quiet-publish_state,
  Quiet-finish, Quiet-finish_job,
}

-- What taking a job from a list does to the count of one assignment.
count-pull :
    (k : String) (n : ℕ) (jobs rest : List Job) (job : Job)
    → pull n jobs ≡ some (job, rest)
    → count (is_job_of k) jobs ≡ unit (is_job_of k job) + count (is_job_of k) rest
unfolding pull count
count-pull k n [] rest job h = cc
count-pull k zero (x ∷ xs) rest job h = ground arith
count-pull k (suc n) (x ∷ xs) rest job h = elim (Option-cases (pull n xs)) [
  | inl e ↦ ground (arith, e)
  | inr ((y, ys), e) ↦ ground (arith, e, count-pull k n xs ys y e)
]

start_taken-Fits :
    (k : String) (n : ℕ) (p : Participant) (taken : Option (Job × List Job))
    → pull n p.queued ≡ taken
    → Fits k p
    → Fits k (start_taken taken p)
unfolding count
start_taken-Fits k n p none e h = h
start_taken-Fits k n p (some (job, rest)) e h =
    rw (count-append (is_call_of k) p.accept_calls (job.assignment ∷ []))
      (omega (arith, count-pull k n p.queued rest job e, h))

rows-claim :
    (digest : Json → String) (a : Assignment) (issuer_id : String) (now : ℤ) (j : Journal)
    (k : String)
    → unit (is_some (row_of k j)) ≤ unit (is_some (row_of k (claim digest a issuer_id now j).1))
unfolding perform
rows-claim digest a i t j k = rows-perform digest (claiming a i t) j k (row_of k j) refl

rows-restart :
    (j : Journal) (k : String) → unit (is_some (row_of k j)) ≤ unit (is_some (row_of k (restart j)))
unfolding perform
rows-restart j k = rows-perform (λ d. "") Call.restarting j k (row_of k j) refl

Quiet-resolving :
    (digest : Json → String) (id : String) (status : AssignmentStatus)
    (description resolver evidence : String) (now : ℤ) (p : Participant)
    → Quiet p (record p {
      journal = (resolve_unknown id status description resolver evidence now p.journal).1;
    })
unfolding perform
Quiet-resolving digest id status description resolver evidence now p =
    Quiet-perform digest (Call.resolving id status description resolver evidence now) p

-- a claim that is answered NEW makes one place for the calls of its assignment
room-claim :
    (digest : Json → String) (a : Assignment) (issuer_id : String) (now : ℤ) (j : Journal)
    (k : String)
    → (claim digest a issuer_id now j).0 ≡ ok (claimed ClaimKind.new)
    → unit (is_some (row_of k j)) + unit (a.assignment_id == k)
      ≤ unit (is_some (row_of k (claim digest a issuer_id now j).1))
room-claim digest a i t j k fresh = elim (Bool-cases (a.assignment_id == k)) [
  | inl e ↦
      let found = claim-inserts digest a i t j fresh in
      let before = claim-new-none digest a i t j fresh in
      ground (arith, found, before, eq_iff a.assignment_id k)
  | inr e ↦ rw e (omega (arith, rows-claim digest a i t j k))
]

-- a new job takes the place that its new row makes
Admitted-Fits :
    (digest : Json → String) (c : Conditions) (envelope : Envelope) (k : String)
    (p p' : Participant)
    → Admitted digest c envelope p p'
    → Fits k p
    → Fits k p'
unfolding count
Admitted-Fits digest c envelope k p p' m h =
    let job : Job = record {
      assignment = m.assignment;
      correlation_id = envelope.correlation_id;
    } in
    rw (m.queued, m.accept_calls, m.journal)
      (rw (count-append (is_job_of k) p.queued (job ∷ [])) (
        omega (
          arith,
          room-claim digest m.assignment envelope.source_id c.now_ms p.journal k m.fresh,
          h,
        )))

-- and so does the call of a participant without executor
Handed-Fits :
    (digest : Json → String) (reply : Reply) (c : Conditions) (envelope : Envelope) (k : String)
    (p : Participant) (end : Participant × Ended)
    → Handed digest c envelope p (execute_job digest reply) end
    → Fits k p
    → Fits k end.0
unfolding count execute_job
Handed-Fits digest reply c envelope k p end m h =
    let job : Job = record {
      assignment = m.assignment;
      correlation_id = envelope.correlation_id;
    } in
    let called : Participant = record (m.middle) {
      accept_calls = m.middle.accept_calls ++ m.assignment ∷ [];
    } in
    let fits : Fits k called =
      rw (m.queued, m.accept_calls, m.journal)
        (rw (count-append (is_call_of k) p.accept_calls (m.assignment ∷ [])) (
          omega (
            arith,
            room-claim digest m.assignment envelope.source_id c.now_ms p.journal k m.fresh,
            h,
          ))) in
    rw m.works (Quiet-Fits k called _ (Quiet-finish digest job reply called) fits)

step-Fits :
    (digest : Json → String) (k : String) (e : Event) (p : Participant)
    → Fits k p
    → Fits k (step digest e p)
unfolding step count reopen receive_direct
step-Fits digest k (assigned c envelope) p h = elim (receive_assignment_cases digest c envelope p) [
  | inl q ↦ Quiet-Fits k p _ q h
  | inr m ↦ Admitted-Fits digest c envelope k p _ m h
]
step-Fits digest k (executed reply c envelope) p h =
    elim (receive_with_cases digest c envelope p (execute_job digest reply)) [
      | inl q ↦ Quiet-Fits k p _ q h
      | inr m ↦ Handed-Fits digest reply c envelope k p _ m h
    ]
step-Fits digest k (queried now envelope) p h =
    Quiet-Fits k p _ (Quiet-receive_query now envelope p) h
step-Fits digest k (cancelling answer now envelope) p h =
    Quiet-Fits k p _ (Quiet-receive_cancellation digest answer now envelope p) h
step-Fits digest k (starting n) p h =
    unfold start_job in (start_taken-Fits k n p (pull n p.queued) refl h)
step-Fits digest k (finishing n reply) p h = Quiet-Fits k p _ (Quiet-finish_job digest n reply p) h
step-Fits digest k (publishing s now correlation_id) p h =
    Quiet-Fits k p _ (Quiet-publish_state now correlation_id s p) h
step-Fits digest k (granting lease now) p h = h
step-Fits digest k (revoking lease_id revision now reason) p h = h
step-Fits digest k (resolving id status description resolver evidence now) p h =
    Quiet-Fits k p _ (Quiet-resolving digest id status description resolver evidence now p) h
step-Fits digest k (restarting session_id) p h = omega (arith, rows-restart p.journal k, h)

pub run-Fits :
    (digest : Json → String) (k : String) (events : List Event) (p : Participant)
    → Fits k p
    → Fits k (run digest events p)
unfolding run
run-Fits digest k [] p h = h
run-Fits digest k (e ∷ events) p h =
    run-Fits digest k events (step digest e p) (step-Fits digest k e p h)

unit_le : (b : Bool) → unit b ≤ 1
unit_le true = omega arith
unit_le false = omega arith

start_up-Fits : (robot_id session_id k : String) → Fits k (start_up robot_id session_id)
unfolding start_up count
start_up-Fits robot session k = omega arith

-- The adapter's `accept` is called at most once for one assignment identifier: a participant that
-- starts on empty stores has made at most one call with any given identifier, after any assignments,
-- submitted to an executor or executed at once, queries, cancellations, starts and ends of jobs,
-- grants and revocations, operators' resolutions and restarts of its process, in any order, whatever
-- the adapter answers and whether handlers raise.
pub run-accepts_once :
    (digest : Json → String) (robot_id session_id : String) (events : List Event) (k : String)
    → count (is_call_of k) (run digest events (start_up robot_id session_id)).accept_calls ≤ 1
run-accepts_once digest robot session events k =
    let p = run digest events (start_up robot session) in
    let fits = run-Fits digest k events (start_up robot session) (start_up-Fits robot session k) in
    omega (arith, fits, unit_le (is_some (row_of k p.journal)))
