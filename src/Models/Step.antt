-- ===== src/Models/Step.antt =====
-- `PlanStep` and `Assignment` of models.py.
use ump.Prelude.{
  String, Bool, false, Option, none, some, List, Result, Done, ok, ◌>>◌, refuse, unique, not,
}
use ump.Prelude.Int.{ℤ, pos, ltb_ℤ}
use ump.Models.Text.{
  ModelError, negative_not_before, negative_deadline, bad_window, duplicate_resources,
  required_text, identifier, identifiers,
}
use ump.Models.Json.{Json}

pub record PlanStep : Type 0 where
  pub step_id : String
  pub description : String
  pub assigned_robot_id : String
  pub capability : String
  pub inputs : Json
  pub completion_criteria : String
  pub depends_on : List String
  pub resources : List String
  pub not_before_ms : Option ℤ
  pub deadline_ms : Option ℤ

-- `value is not None and value < 0`
abbrev pub is_negative : Option ℤ → Bool
is_negative none = false
is_negative (some t) = ltb_ℤ t (pos 0)

-- `self.not_before_ms is not None and self.deadline_ms is not None
-- and self.not_before_ms > self.deadline_ms`
abbrev pub window_is_empty : Option ℤ → Option ℤ → Bool
window_is_empty (some opens) (some closes) = ltb_ℤ closes opens
window_is_empty _ _ = false

-- `PlanStep.__post_init__`
unfoldable pub step_post_init : PlanStep → Result ModelError Done
unfolding identifier required_text identifiers
step_post_init s = do
  identifier s.step_id "step_id"
  required_text s.description "step description" 4096
  identifier s.assigned_robot_id "assigned_robot_id"
  identifier s.capability "capability"
  required_text s.completion_criteria "completion criteria" 4096
  identifiers s.depends_on "dependency"
  refuse (not (unique s.resources)) duplicate_resources
  identifiers s.resources "step resource"
  refuse (is_negative s.not_before_ms) negative_not_before
  refuse (is_negative s.deadline_ms) negative_deadline
  refuse (window_is_empty s.not_before_ms s.deadline_ms) bad_window

-- the constructor call `PlanStep(...)`
unfoldable pub make_step : PlanStep → Result ModelError PlanStep
unfolding step_post_init
make_step s = step_post_init s >> ok s

pub record Assignment : Type 0 where
  pub assignment_id : String
  pub goal_id : String
  pub plan_id : String
  pub step : PlanStep
  pub authority_lease_id : Option String

abbrev pub optional_identifier : Option String → String → Result ModelError Done
optional_identifier none field_name = ok tt
optional_identifier (some value) field_name = identifier value field_name

-- `Assignment.__post_init__`
unfoldable pub assignment_post_init : Assignment → Result ModelError Done
unfolding identifier
assignment_post_init a = do
  identifier a.assignment_id "assignment_id"
  identifier a.goal_id "goal_id"
  identifier a.plan_id "plan_id"
  optional_identifier a.authority_lease_id "authority_lease_id"

-- the constructor call `Assignment(...)`
unfoldable pub make_assignment : Assignment → Result ModelError Assignment
unfolding assignment_post_init
make_assignment a = assignment_post_init a >> ok a
