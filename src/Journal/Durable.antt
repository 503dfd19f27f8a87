-- ===== src/Journal/Durable.antt =====
-- `SqliteAssignmentJournal` of journal.py. The lock and BEGIN IMMEDIATE make each method one step.
pub mod History
use ump.Prelude.{
  String, Bool, true, false, ◌&&◌, ◌||◌, not, Option, none, some, List, [], ◌∷◌, ◌++◌, any, elem,
  ◌==◌, if◌then◌else◌, is_some, Result, Done, ok, err, ◌>>=◌, ◌>>◌, guard, refuse, transaction,
}
use ump.Prelude.Int.{ℤ}
use ump.Prelude.Table.{select, update, find}
use ump.Models.Text.{ModelError}
use ump.Models.Json.{Json, obj, end, json_eq}
use ump.Models.Status.{AssignmentStatus}
use ump.Models.Step.{Assignment}
use ump.Models.Outcome.{Outcome, make_outcome, is_succeeded, is_accepted, is_unknown}
use ump.Models.Codec.{assignment_payload, decode_assignment, outcome_payload, decode_outcome}
use ump.Journal.Claim.{
  ClaimKind, new, replay, conflict, resource_conflict, uncertain, ClaimResult, JournalError,
  unclaimed_or_conflicting, outcome_immutable, no_assignment, only_unknown_resolved,
  integrity_error, invalid, assignment_fingerprint, validate_resolution,
}

-- A row of `assignments`. The columns that ALTER TABLE adds to an old journal may be NULL.
pub record AssignmentRow : Type 0 where
  pub assignment_id : String
  pub fingerprint : String
  pub assignment_json : Option Json
  pub issuer_id : Option String
  pub status : AssignmentStatus
  pub outcome_json : Option Json
  pub accepted_at_ms : ℤ
  pub updated_at_ms : ℤ

-- A row of `assignment_resolutions`.
pub record ResolutionRow : Type 0 where
  pub assignment_id : String
  pub status : AssignmentStatus
  pub resolver_id : String
  pub evidence : String
  pub occurred_at_ms : ℤ
  pub outcome_json : Json

-- A row of `resource_reservations`.
pub record ReservationRow : Type 0 where
  pub resource_id : String
  pub assignment_id : String
  pub reserved_at_ms : ℤ

pub record Journal : Type 0 where
  pub assignments : List AssignmentRow
  pub resolutions : List ResolutionRow
  pub reservations : List ReservationRow

abbrev pub empty_journal : Journal
empty_journal = record { assignments = []; resolutions = []; reservations = [] }

abbrev pub assignment_key : AssignmentRow → String
assignment_key r = r.assignment_id

abbrev pub resolution_key : ResolutionRow → String
resolution_key r = r.assignment_id

abbrev pub reservation_key : ReservationRow → String
reservation_key r = r.resource_id

-- `JournalRecord`
pub record JournalRecord : Type 0 where
  pub assignment : Assignment
  pub issuer_id : String
  pub status : AssignmentStatus
  pub outcome : Option Outcome
  pub fingerprint : String

-- the UPDATE that `SqliteAssignmentJournal.__init__` runs on the journal that it opens
unfoldable pub restart : Journal → Journal
restart j = record j {
  assignments =
      update (λ r. is_accepted r.status && not (is_some r.outcome_json))
        (λ r. record r { status = AssignmentStatus.unknown }) j.assignments;
}

abbrev pub reservation : String → String → ℤ → ReservationRow
reservation resource assignment_id now_ms = record {
  resource_id = resource;
  assignment_id = assignment_id;
  reserved_at_ms = now_ms;
}

-- the INSERT into `resource_reservations` for each resource
unfoldable pub reserve :
    List String → String → ℤ → List ReservationRow → Result JournalError (List ReservationRow)
reserve [] assignment_id now_ms rows = ok rows
reserve (resource ∷ rest) assignment_id now_ms rows =
    if is_some (find reservation_key resource rows)
    then err integrity_error
    else reserve rest assignment_id now_ms (rows ++ reservation resource assignment_id now_ms ∷ [])

-- the SELECT of a conflicting resource finds a row
unfoldable pub has_conflict : Assignment → List ReservationRow → Bool
has_conflict a rows =
    any (λ r. elem r.resource_id a.step.resources && not (r.assignment_id == a.assignment_id)) rows

abbrev pub claimed : ClaimKind → ClaimResult
claimed kind = record { kind = kind; outcome = none }

abbrev pub lift_model {ℓ} : {A : Type ℓ} → Result ModelError A → Result JournalError A
lift_model (ok a) = ok a
lift_model (err e) = err (invalid e)

-- the row that `claim` inserts
abbrev pub accepted_row : (Json → String) → Assignment → String → ℤ → AssignmentRow
accepted_row digest a issuer_id now_ms = record {
  assignment_id = a.assignment_id;
  fingerprint = assignment_fingerprint digest a;
  assignment_json = some (assignment_payload a);
  issuer_id = some issuer_id;
  status = AssignmentStatus.accepted;
  outcome_json = none;
  accepted_at_ms = now_ms;
  updated_at_ms = now_ms;
}

-- the part of `claim` for an assignment that has no row
unfoldable pub claim_new :
    (Json → String)
    → Assignment
    → String
    → ℤ
    → Journal
    → Result JournalError (ClaimResult × Journal)
unfolding has_conflict
claim_new digest a issuer_id now_ms j =
    if has_conflict a j.reservations then ok (claimed resource_conflict, j) else do
      reservations ← reserve a.step.resources a.assignment_id now_ms j.reservations
      ok (
        claimed new,
        record j {
          assignments = j.assignments ++ accepted_row digest a issuer_id now_ms ∷ [];
          reservations = reservations;
        },
      )

-- `row[1] == issuer_id`, where the column may be NULL
abbrev pub held_by : Option String → String → Bool
held_by none issuer_id = false
held_by (some i) issuer_id = i == issuer_id

-- the answer to a claim of an assignment that has a row with this outcome
abbrev pub claim_old : Option Json → Result JournalError ClaimResult
claim_old none = ok (claimed uncertain)
claim_old (some document) = do
  outcome ← lift_model (decode_outcome document)
  ok (record { kind = replay; outcome = some outcome })

unfoldable pub claim_at :
    Option AssignmentRow
    → (Json → String)
    → Assignment
    → String
    → ℤ
    → Journal
    → Result JournalError (ClaimResult × Journal)
unfolding claim_new
claim_at none digest a issuer_id now_ms j = claim_new digest a issuer_id now_ms j
claim_at (some row) digest a issuer_id now_ms j =
    if not (row.fingerprint == assignment_fingerprint digest a)
      || not (held_by row.issuer_id issuer_id)
    then ok (claimed conflict, j)
    else do result ← claim_old row.outcome_json; ok (result, j)

-- `SqliteAssignmentJournal.claim`
unfoldable pub claim :
    (Json → String) → Assignment → String → ℤ → Journal → Result JournalError ClaimResult × Journal
unfolding claim_at
claim digest a issuer_id now_ms =
    transaction (λ j.
      claim_at (find assignment_key a.assignment_id j.assignments) digest a issuer_id now_ms j)

-- the write of a terminal outcome
abbrev pub set_outcome : AssignmentStatus → Json → ℤ → AssignmentRow → AssignmentRow
set_outcome status document now_ms r = record r {
  status = status;
  outcome_json = some document;
  updated_at_ms = now_ms;
}

-- DELETE FROM resource_reservations WHERE assignment_id = ?
unfoldable pub release : String → List ReservationRow → List ReservationRow
release assignment_id = select (λ r. not (r.assignment_id == assignment_id))

-- UPDATE assignments ... WHERE assignment_id = ?
unfoldable pub write_outcome :
    String → AssignmentStatus → Json → ℤ → List AssignmentRow → List AssignmentRow
write_outcome assignment_id status document now_ms =
    update (λ r. assignment_key r == assignment_id) (set_outcome status document now_ms)

-- `row[1] is not None and row[1] != encoded`
abbrev pub holds_other : Option Json → Json → Bool
holds_other none document = false
holds_other (some old) document = not (json_eq old document)

unfoldable pub complete_at :
    Option AssignmentRow
    → (Json → String)
    → Assignment
    → Outcome
    → ℤ
    → Journal
    → Result JournalError (Done × Journal)
unfolding assignment_fingerprint
complete_at none digest a outcome now_ms j = err unclaimed_or_conflicting
complete_at (some row) digest a outcome now_ms j = do
  guard (row.fingerprint == assignment_fingerprint digest a) unclaimed_or_conflicting
  let document = outcome_payload outcome
  refuse (holds_other row.outcome_json document) outcome_immutable
  ok (
    tt,
    record j {
      assignments = write_outcome a.assignment_id outcome.status document now_ms j.assignments;
      reservations =
          if is_unknown outcome.status
          then j.reservations
          else release a.assignment_id j.reservations;
    },
  )

-- `SqliteAssignmentJournal.complete`
unfoldable pub complete :
    (Json → String) → Assignment → Outcome → ℤ → Journal → Result JournalError Done × Journal
unfolding complete_at
complete digest a outcome now_ms =
    transaction (λ j.
      complete_at (find assignment_key a.assignment_id j.assignments) digest a outcome now_ms j)

-- `_decode_outcome(row[4]) if row[4] is not None else None`
abbrev pub decode_optional : Option Json → Result JournalError (Option Outcome)
decode_optional none = ok none
decode_optional (some document) = do
  outcome ← lift_model (decode_outcome document)
  ok (some outcome)

abbrev pub read_record :
    AssignmentRow → Option Json → Option String → Result JournalError (Option JournalRecord)
read_record row (some document) (some issuer_id) = do
  a ← lift_model (decode_assignment document)
  outcome ← decode_optional row.outcome_json
  ok (
      some (record {
        assignment = a;
        issuer_id = issuer_id;
        status = row.status;
        outcome = outcome;
        fingerprint = row.fingerprint;
      }))
read_record row _ _ = ok none

abbrev pub read_row : Option AssignmentRow → Result JournalError (Option JournalRecord)
read_row none = ok none
read_row (some row) = read_record row row.assignment_json row.issuer_id

-- `SqliteAssignmentJournal.lookup`
unfoldable pub lookup : String → Journal → Result JournalError (Option JournalRecord)
lookup assignment_id j = read_row (find assignment_key assignment_id j.assignments)

-- a stored document that is NULL cannot be decoded
abbrev pub stored_document : Option Json → Result JournalError Json
stored_document none = err (invalid ModelError.bad_document)
stored_document (some document) = ok document

abbrev pub existing : Option AssignmentRow → Result JournalError AssignmentRow
existing none = err no_assignment
existing (some row) = ok row

-- the three writes of `resolve_unknown`
unfoldable pub write_resolution :
    String → AssignmentStatus → Json → String → String → ℤ → Journal → Journal
write_resolution assignment_id status encoded resolver_id evidence now_ms j = record {
  assignments = write_outcome assignment_id status encoded now_ms j.assignments;
  resolutions =
      j.resolutions
      ++ record {
        assignment_id = assignment_id;
        status = status;
        resolver_id = resolver_id;
        evidence = evidence;
        occurred_at_ms = now_ms;
        outcome_json = encoded;
      }
        ∷ [];
  reservations = release assignment_id j.reservations;
}

unfoldable pub resolve_body :
    String
    → AssignmentStatus
    → String
    → String
    → String
    → ℤ
    → Journal
    → Result JournalError (Outcome × Journal)
resolve_body assignment_id status description resolver_id evidence now_ms j = do
  row ← existing (find assignment_key assignment_id j.assignments)
  refuse (not (is_unknown row.status) || is_some row.outcome_json) only_unknown_resolved
  document ← stored_document row.assignment_json
  a ← lift_model (decode_assignment document)
  outcome ← lift_model (
      make_outcome assignment_id a.step.assigned_robot_id (is_succeeded status) description
        (some status) (obj end))
  refuse (is_some (find resolution_key assignment_id j.resolutions)) integrity_error
  ok (
    outcome,
    write_resolution assignment_id status (outcome_payload outcome) resolver_id evidence now_ms j,
  )

-- `SqliteAssignmentJournal.resolve_unknown`. The validation reads no table, so that it makes no
-- difference that the program runs it before BEGIN IMMEDIATE.
unfoldable pub resolve_unknown :
    String
    → AssignmentStatus
    → String
    → String
    → String
    → ℤ
    → Journal
    → Result JournalError Outcome × Journal
resolve_unknown assignment_id status description resolver_id evidence now_ms = transaction λ j. do
  validate_resolution status resolver_id evidence
  resolve_body assignment_id status description resolver_id evidence now_ms j

-- `SqliteAssignmentJournal.resolution`
unfoldable pub resolution : String → Journal → Option ResolutionRow
resolution assignment_id j = find resolution_key assignment_id j.resolutions
