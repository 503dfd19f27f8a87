-- ===== src/Models/Codec/RoundTrip.antt =====
-- The decoders of stored documents after `payload`, for steps, assignments and outcomes.
use ump.Prelude.{String, ◌≡◌, refl, List, [], ◌∷◌, ok, Option, none, some}
use ump.Prelude.Int.{ℤ}
use ump.Models.Json.{texts}
use ump.Models.Status.{AssignmentStatus}
use ump.Models.Step.{PlanStep, Assignment, make_step, make_assignment}
use ump.Models.Outcome.{Outcome, outcome_post_init}
use ump.Models.Codec.{
  items_texts, step_payload, decode_step, assignment_payload, decode_assignment, outcome_payload,
  decode_outcome, parse_status, status_value, as_optional_int, optional_int, as_optional_text,
  optional_text,
}

pub items_texts-texts : (xs : List String) → items_texts (texts xs) ≡ ok xs
unfolding items_texts texts
items_texts-texts [] = refl
items_texts-texts (x ∷ xs) = rw (items_texts-texts xs)

parse_status-status_value : (s : AssignmentStatus) → parse_status (status_value s) ≡ ok s
unfolding parse_status
parse_status-status_value AssignmentStatus.accepted = refl
parse_status-status_value AssignmentStatus.succeeded = refl
parse_status-status_value AssignmentStatus.failed = refl
parse_status-status_value AssignmentStatus.rejected = refl
parse_status-status_value AssignmentStatus.cancelled = refl
parse_status-status_value AssignmentStatus.unknown = refl

pub int_option : (t : Option ℤ) → as_optional_int (some (optional_int t)) ≡ ok t
int_option none = refl
int_option (some t) = refl

pub text_option : (t : Option String) → as_optional_text (some (optional_text t)) ≡ ok t
text_option none = refl
text_option (some t) = refl

-- Decoding the document of a step is constructing the step again: it gives the step itself, or the
-- error that its constructor raises.
pub decode_step-step_payload : (s : PlanStep) → decode_step (step_payload s) ≡ make_step s
unfolding decode_step step_payload
decode_step-step_payload s =
    simp (items_texts-texts, int_option s.not_before_ms, int_option s.deadline_ms)

-- Decoding the document of an assignment whose step passes its checks is constructing the
-- assignment again: it gives the assignment, or the error that its constructor raises.
pub decode_assignment-assignment_payload :
    (a : Assignment)
    → make_step a.step ≡ ok a.step
    → decode_assignment (assignment_payload a) ≡ make_assignment a
unfolding decode_assignment assignment_payload
decode_assignment-assignment_payload a valid =
    simp (decode_step-step_payload a.step, valid, text_option a.authority_lease_id)

-- Decoding the document of an outcome that passes its own checks gives the outcome back.
pub decode_outcome-outcome_payload :
    (o : Outcome) → outcome_post_init o ≡ ok tt → decode_outcome (outcome_payload o) ≡ ok o
unfolding decode_outcome outcome_payload outcome_post_init
decode_outcome-outcome_payload o valid = simp (parse_status-status_value o.status, valid)
