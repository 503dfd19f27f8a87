-- ===== src/Models/Outcome.antt =====
-- `Outcome` of models.py: what a robot reports when an assignment ended.
pub mod Size
use ump.Prelude.{
  ℕ, String, ◌≡◌, Bool, true, false, ◌&&◌, ◌||◌, not, Option, none, some, Result, Done, ok, ◌>>=◌,
  ◌>>◌, refuse, ltb, if◌then◌else◌,
}
use ump.Models.Text.{
  ModelError, not_terminal, flag_disagrees, outputs_not_object, outputs_too_large, required_text,
  identifier,
}
use ump.Models.Json.{Json, obj}
use ump.Models.Status.{AssignmentStatus}
use Size.{json_size}

-- `status` is the resolved one that `__post_init__` writes back.
pub record Outcome : Type 0 where
  pub assignment_id : String
  pub robot_id : String
  pub succeeded : Bool
  pub description : String
  pub status : AssignmentStatus
  pub outputs : Json

abbrev pub max_structured_output_bytes : ℕ
max_structured_output_bytes = 16384

-- `status is AssignmentStatus.SUCCEEDED`
abbrev pub is_succeeded : AssignmentStatus → Bool
is_succeeded AssignmentStatus.succeeded = true
is_succeeded _ = false

-- `status is AssignmentStatus.ACCEPTED`
abbrev pub is_accepted : AssignmentStatus → Bool
is_accepted AssignmentStatus.accepted = true
is_accepted _ = false

-- `status is AssignmentStatus.UNKNOWN`
abbrev pub is_unknown : AssignmentStatus → Bool
is_unknown AssignmentStatus.unknown = true
is_unknown _ = false

-- `self.status or (SUCCEEDED if self.succeeded else FAILED)`
abbrev pub resolved : Option AssignmentStatus → Bool → AssignmentStatus
resolved (some status) succeeded = status
resolved none true = AssignmentStatus.succeeded
resolved none false = AssignmentStatus.failed

abbrev pub is_object : Json → Bool
is_object (obj _) = true
is_object _ = false

-- `a != b` of two flags
abbrev pub differ : Bool → Bool → Bool
differ true b = not b
differ false b = b

-- the checks of `Outcome.__post_init__`, after the status is resolved
unfoldable pub outcome_post_init : Outcome → Result ModelError Done
unfolding identifier required_text json_size
outcome_post_init o = do
  identifier o.assignment_id "assignment_id"
  identifier o.robot_id "robot_id"
  required_text o.description "outcome description" 4096
  refuse (is_accepted o.status) not_terminal
  refuse (differ o.succeeded (is_succeeded o.status)) flag_disagrees
  refuse (not (is_object o.outputs)) outputs_not_object
  refuse (ltb max_structured_output_bytes (json_size o.outputs)) outputs_too_large

-- the constructor call `Outcome(assignment_id, robot_id, succeeded, description, status, outputs)`
unfoldable pub make_outcome :
    String → String → Bool → String → Option AssignmentStatus → Json → Result ModelError Outcome
make_outcome assignment_id robot_id succeeded description status outputs = do
  let o : Outcome = record {
    assignment_id = assignment_id;
    robot_id = robot_id;
    succeeded = succeeded;
    description = description;
    status = resolved status succeeded;
    outputs = outputs;
  }
  outcome_post_init o
  ok o
