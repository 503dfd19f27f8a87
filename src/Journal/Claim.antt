-- ===== src/Journal/Claim.antt =====
-- What the journals of journal.py share: claims, errors, and the checks of a resolution.
use Prim.Native.String.{len}
use ump.Prelude.{String, Bool, true, false, ◌||◌, Option, Result, Done, ◌>>◌, guard, refuse, ltb}
use ump.Models.Text.{ModelError, blank, max_id_bytes}
use ump.Models.Json.{Json}
use ump.Models.Status.{AssignmentStatus}
use ump.Models.Step.{Assignment}
use ump.Models.Outcome.{Outcome}
use ump.Models.Codec.{assignment_payload}

pub data ClaimKind : Type 0 where
  new replay conflict resource_conflict uncertain : ClaimKind

pub record ClaimResult : Type 0 where
  pub kind : ClaimKind
  pub outcome : Option Outcome

-- One constructor for each `raise`; a violated PRIMARY KEY is `integrity_error`.
pub data JournalError : Type 0 where
  unclaimed_or_conflicting outcome_immutable : JournalError
  not_terminal bad_resolver bad_evidence no_assignment only_unknown_resolved : JournalError
  integrity_error : JournalError
  invalid : ModelError → JournalError

-- `assignment_fingerprint`
unfoldable pub assignment_fingerprint : (Json → String) → Assignment → String
assignment_fingerprint digest a = digest (assignment_payload a)

-- `status in {SUCCEEDED, FAILED, REJECTED, CANCELLED}`
abbrev pub is_known_terminal : AssignmentStatus → Bool
is_known_terminal AssignmentStatus.accepted = false
is_known_terminal AssignmentStatus.unknown = false
is_known_terminal _ = true

-- `_validate_resolution`
unfoldable pub validate_resolution : AssignmentStatus → String → String → Result JournalError Done
validate_resolution status resolver_id evidence = do
  guard (is_known_terminal status) not_terminal
  refuse (blank resolver_id || ltb max_id_bytes (len resolver_id)) bad_resolver
  refuse (blank evidence || ltb 4096 (len evidence)) bad_evidence
