-- ===== src/Journal/Memory.antt =====
-- `MemoryAssignmentJournal` of journal.py. A dict is a list of entries in the order of insertion. A
-- method that raises does so before it writes.
pub mod History
use ump.Prelude.{
  String, ◌≡◌, ◌≢◌, refl, sym, ◌∙◌, ap, inl, inr, Bool, true, false, ◌&&◌, ◌||◌, not, Option, none,
  some, List, [], ◌∷◌, ◌++◌, any, ◌==◌, if◌then◌else◌, is_some, Result, Done, ok, err, ◌>>=◌, ◌>>◌,
  guard, refuse, arith, eq_iff, eq_refl, Option-cases, Bool-cases, Result-cases,
}
use ump.Prelude.Table.{select, update, find, find-update, find-append, find-key}
use ump.Models.Text.{ModelError}
use ump.Models.Json.{Json, obj, end, json_eq}
use ump.Models.Status.{AssignmentStatus}
use ump.Models.Step.{Assignment}
use ump.Models.Outcome.{Outcome, make_outcome, is_succeeded, is_unknown}
use ump.Models.Codec.{outcome_payload}
use ump.Journal.Claim.{
  ClaimKind, new, replay, conflict, resource_conflict, uncertain, ClaimResult, JournalError,
  unclaimed_or_conflicting, outcome_immutable, no_assignment, only_unknown_resolved,
  assignment_fingerprint, validate_resolution,
}
use ump.Journal.Durable.{JournalRecord, claimed, lift_model}

-- An entry of `_resources`.
pub record Owner : Type 0 where
  pub resource : String
  pub assignment_id : String

pub record MemoryJournal : Type 0 where
  pub records : List JournalRecord
  pub resources : List Owner

abbrev pub new_journal : MemoryJournal
new_journal = record { records = []; resources = [] }

abbrev pub record_key : JournalRecord → String
record_key r = r.assignment.assignment_id

abbrev pub owner_key : Owner → String
owner_key o = o.resource

-- `d[key] = entry`
unfoldable pub put {ℓ} : {R : Type ℓ} → (R → String) → R → List R → List R
put key r rows =
    if is_some (find key (key r) rows)
    then update (λ x. key x == key r) (λ _. r) rows
    else rows ++ r ∷ []

abbrev pub owned_by_other : String → Option Owner → Bool
owned_by_other id none = false
owned_by_other id (some o) = not (o.assignment_id == id)

-- `any(owner != assignment.assignment_id for ...)`
abbrev pub in_conflict : Assignment → MemoryJournal → Bool
in_conflict a j =
    any (λ resource. owned_by_other a.assignment_id (find owner_key resource j.resources))
      a.step.resources

-- the loop of `claim` over the resources
unfoldable pub take_resources : String → List String → List Owner → List Owner
unfolding put
take_resources id [] owners = owners
take_resources id (name ∷ rest) owners =
    take_resources id rest (put owner_key (record { resource = name; assignment_id = id }) owners)

abbrev pub record_of :
    (Json → String) → Assignment → String → AssignmentStatus → Option Outcome → JournalRecord
record_of digest a issuer_id status outcome = record {
  assignment = a;
  issuer_id = issuer_id;
  status = status;
  outcome = outcome;
  fingerprint = assignment_fingerprint digest a;
}

unfoldable pub memory_claim_at :
    Option JournalRecord
    → (Json → String)
    → Assignment
    → String
    → MemoryJournal
    → ClaimResult × MemoryJournal
unfolding put take_resources assignment_fingerprint
memory_claim_at none digest a issuer_id j =
    if in_conflict a j then (claimed resource_conflict, j) else (
      claimed new,
      record {
        records =
            put record_key (record_of digest a issuer_id AssignmentStatus.accepted none) j.records;
        resources = take_resources a.assignment_id a.step.resources j.resources;
      },
    )
memory_claim_at (some r) digest a issuer_id j =
    if not (r.fingerprint == assignment_fingerprint digest a) || not (r.issuer_id == issuer_id)
    then (claimed conflict, j)
    else elim r.outcome [
      | some o ↦ (record { kind = replay; outcome = some o }, j)
      | none ↦ (claimed uncertain, j)
    ]

-- `MemoryAssignmentJournal.claim`
unfoldable pub memory_claim :
    (Json → String) → Assignment → String → MemoryJournal → ClaimResult × MemoryJournal
unfolding memory_claim_at
memory_claim digest a issuer_id j =
    memory_claim_at (find record_key a.assignment_id j.records) digest a issuer_id j

-- the loop of `complete` over the resources
unfoldable pub release_resources : String → List String → List Owner → List Owner
unfolding select
release_resources id [] owners = owners
release_resources id (name ∷ rest) owners =
    release_resources id rest
      (select (λ o. not (owner_key o == name && o.assignment_id == id)) owners)

-- `record.outcome is not None and record.outcome != outcome`
abbrev pub other_outcome : Option Outcome → Outcome → Bool
other_outcome none o = false
other_outcome (some old) o = not (json_eq (outcome_payload old) (outcome_payload o))

unfoldable pub memory_complete_at :
    Option JournalRecord
    → (Json → String)
    → Assignment
    → Outcome
    → MemoryJournal
    → Result JournalError MemoryJournal
unfolding put release_resources assignment_fingerprint
memory_complete_at none digest a outcome j = err unclaimed_or_conflicting
memory_complete_at (some r) digest a outcome j = do
  guard (r.fingerprint == assignment_fingerprint digest a) unclaimed_or_conflicting
  refuse (other_outcome r.outcome outcome) outcome_immutable
  ok (record {
    records =
        put record_key (record_of digest a r.issuer_id outcome.status (some outcome)) j.records;
    resources =
        if is_unknown outcome.status
        then j.resources
        else release_resources a.assignment_id a.step.resources j.resources;
  })

-- `MemoryAssignmentJournal.complete`
unfoldable pub memory_complete :
    (Json → String) → Assignment → Outcome → MemoryJournal → Result JournalError MemoryJournal
unfolding memory_complete_at
memory_complete digest a outcome j =
    memory_complete_at (find record_key a.assignment_id j.records) digest a outcome j

-- `MemoryAssignmentJournal.lookup`
unfoldable pub memory_lookup : String → MemoryJournal → Option JournalRecord
memory_lookup assignment_id j = find record_key assignment_id j.records

abbrev pub existing_record : Option JournalRecord → Result JournalError JournalRecord
existing_record none = err no_assignment
existing_record (some r) = ok r

-- `MemoryAssignmentJournal.resolve_unknown`
unfoldable pub memory_resolve_unknown :
    (Json → String)
    → String
    → AssignmentStatus
    → String
    → String
    → String
    → MemoryJournal
    → Result JournalError (Outcome × MemoryJournal)
unfolding memory_complete validate_resolution make_outcome
memory_resolve_unknown digest assignment_id status description resolver_id evidence j = do
  validate_resolution status resolver_id evidence
  r ← existing_record (find record_key assignment_id j.records)
  refuse (not (is_unknown r.status) || is_some r.outcome) only_unknown_resolved
  outcome ← lift_model (
      make_outcome assignment_id r.assignment.step.assigned_robot_id (is_succeeded status)
        description (some status) (obj end))
  j' ← memory_complete digest r.assignment outcome j
  ok (outcome, j')
