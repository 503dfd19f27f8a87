-- ===== src/Models/Tests.antt =====
-- Runs of the data model, and its theorems at concrete values.
use ump.Prelude.{◌≡◌, refl, ok, err}
use ump.Models.Text.{identifier, bad_text}
use ump.Models.Step.{make_step, make_assignment}
use ump.Models.Outcome.{outcome_post_init}
use ump.Models.Codec.{
  assignment_payload, decode_assignment, outcome_payload, decode_outcome, decode_step, step_payload,
}
use ump.Models.Codec.RoundTrip.{
  decode_step-step_payload, decode_assignment-assignment_payload, decode_outcome-outcome_payload,
}
use ump.Models.Samples.{carry, carry_job, delivered}

blank_identifier : identifier "  " "step_id" ≡ err (bad_text "step_id")
unfolding identifier
blank_identifier = refl

valid_carry : make_step carry ≡ ok carry
unfolding make_step
valid_carry = refl

valid_delivered : outcome_post_init delivered ≡ ok tt
unfolding outcome_post_init
valid_delivered = refl

decode_step_example : decode_step (step_payload carry) ≡ make_step carry
decode_step_example = decode_step-step_payload carry

decode_assignment_example :
    decode_assignment (assignment_payload carry_job) ≡ make_assignment carry_job
decode_assignment_example = decode_assignment-assignment_payload carry_job valid_carry

decode_outcome_example : decode_outcome (outcome_payload delivered) ≡ ok delivered
decode_outcome_example = decode_outcome-outcome_payload delivered valid_delivered
