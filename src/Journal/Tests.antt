-- ===== src/Journal/Tests.antt =====
-- Runs of the durable journal, and its theorems at concrete calls. The digest of the tests is
-- a constant function.
use ump.Prelude.{List, String, ◌≡◌, ◌≢◌, refl, false, some, [], ◌∷◌, ok, eq_iff, false≢true}
use ump.Prelude.Int.{pos}
use ump.Journal.Memory.{new_journal, memory_resolve_unknown}
use ump.Journal.Memory.History.{MemoryCall, memory_perform_all, memory_resolve_unknown-raises}
use ump.Prelude.Table.{find, update, select}
use ump.Models.Json.{Json}
use ump.Models.Status.{AssignmentStatus}
use ump.Models.Outcome.{Outcome, outcome_post_init}
use ump.Models.Samples.{carry_job, second_job, delivered}
use ump.Journal.Claim.{new, replay, resource_conflict}
use ump.Journal.Durable.{
  Journal, AssignmentRow, empty_journal, claim, claimed, complete, resolve_unknown, restart,
  accepted_row, reserve,
}
use ump.Journal.Durable.History.{restarting, perform, perform_all}
use ump.Journal.Durable.History.Once.{claim-new_once, claim-replays}
use ump.Journal.Durable.History.Exclusive.{claim-exclusive, unknown_outcome_stuck}

abbrev one_digest : Json → String
one_digest _ = "digest"

first_claim :
    (claim one_digest carry_job "coordinator-1" (pos 1000) empty_journal).0 ≡ ok (claimed new)
unfolding claim find reserve
first_claim = refl

abbrev claimed_journal : Journal
claimed_journal = (claim one_digest carry_job "coordinator-1" (pos 1000) empty_journal).1

second_refused :
    (claim one_digest second_job "coordinator-1" (pos 1001) claimed_journal).0
    ≡ ok (claimed resource_conflict)
unfolding claim find reserve
second_refused = refl

completed_run : (complete one_digest carry_job delivered (pos 2000) claimed_journal).0 ≡ ok tt
unfolding claim complete find reserve update select
completed_run = refl

claim-new_once_example :
    (claim one_digest carry_job "coordinator-2"
      (pos 3000)
      (perform_all one_digest (restarting ∷ []) claimed_journal)).0
    ≢ ok (claimed new)
claim-new_once_example =
    claim-new_once one_digest carry_job carry_job "coordinator-1" "coordinator-2" (pos 1000)
      (pos 3000) (restarting ∷ []) empty_journal first_claim refl

completed_after :
    (complete one_digest carry_job delivered
      (pos 2000)
      (perform_all one_digest [] claimed_journal)).0
    ≡ ok tt
unfolding perform_all
completed_after = completed_run

valid_outcome : outcome_post_init delivered ≡ ok tt
unfolding outcome_post_init
valid_outcome = refl

claim-replays_example :
    (claim one_digest carry_job "coordinator-1" (pos 3000) (
      perform_all one_digest
        (restarting ∷ [])
        (complete one_digest carry_job delivered
          (pos 2000)
          (perform_all one_digest [] claimed_journal)).1)).0
    ≡ ok (record { kind = replay; outcome = some delivered })
claim-replays_example =
    claim-replays one_digest carry_job "coordinator-1" (pos 1000) (pos 2000) (pos 3000) []
      (restarting ∷ []) delivered empty_journal valid_outcome first_claim completed_after

other_id : second_job.assignment_id ≢ carry_job.assignment_id
other_id e = false≢true ((eq_iff second_job.assignment_id carry_job.assignment_id).1 e)

abbrev interrupted : AssignmentRow
interrupted = record (accepted_row one_digest carry_job "coordinator-1" (pos 1000)) {
  status = AssignmentStatus.unknown;
}

interrupted_stored :
    find
      (λ r. r.assignment_id)
      "assignment-1"
      (perform_all one_digest (restarting ∷ []) claimed_journal).assignments
    ≡ some interrupted
unfolding claim find reserve update perform perform_all restart
interrupted_stored = refl

claim-exclusive_example :
    (claim one_digest second_job "coordinator-2"
      (pos 3000)
      (perform_all one_digest (restarting ∷ []) claimed_journal)).0
    ≢ ok (claimed new)
claim-exclusive_example =
    claim-exclusive one_digest carry_job second_job "coordinator-1" "coordinator-2" "dock-1"
      (pos 1000) (pos 3000) (restarting ∷ []) empty_journal interrupted first_claim refl refl
      other_id interrupted_stored (λ d e. cc)

abbrev lost : Outcome
lost = record delivered {
  succeeded = false;
  description = "Native adapter outcome is unknown after TimeoutError";
  status = AssignmentStatus.unknown;
}

lost_run : (complete one_digest carry_job lost (pos 2000) claimed_journal).0 ≡ ok tt
unfolding claim complete find reserve update select
lost_run = refl

unknown_outcome_stuck_example :
    ((resolve_unknown "assignment-1" AssignmentStatus.succeeded "Found at station 4"
        "operator/alice" "inspection-record"
        (pos 3000)
        (perform_all one_digest
          (restarting ∷ [])
          (complete one_digest carry_job lost (pos 2000) claimed_journal).1)).0
      ≢ ok delivered)
    × ((claim one_digest second_job "coordinator-2" (pos 3000) (
          perform_all one_digest
            (restarting ∷ [])
            (complete one_digest carry_job lost (pos 2000) claimed_journal).1)).0
        ≢ ok (claimed new))
unknown_outcome_stuck_example =
    unknown_outcome_stuck one_digest carry_job second_job "coordinator-1" "coordinator-2" "dock-1"
      (pos 1000) (pos 2000) (pos 3000) (restarting ∷ []) lost delivered empty_journal
      AssignmentStatus.succeeded "Found at station 4" "operator/alice" "inspection-record"
      first_claim lost_run refl refl refl other_id

abbrev memory_calls : List MemoryCall
memory_calls =
    MemoryCall.claiming carry_job "coordinator-1" ∷ MemoryCall.completing carry_job lost ∷ []

memory_resolve_unknown-raises_example :
    memory_resolve_unknown one_digest "assignment-1" AssignmentStatus.succeeded "Delivered by hand"
      "operator-1" "photo"
      (memory_perform_all one_digest memory_calls new_journal)
    ≢ ok (delivered, new_journal)
memory_resolve_unknown-raises_example =
    memory_resolve_unknown-raises one_digest memory_calls "assignment-1" AssignmentStatus.succeeded
      "Delivered by hand" "operator-1" "photo" (delivered, new_journal)
