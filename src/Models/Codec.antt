-- ===== src/Models/Codec.antt =====
-- `payload` of models.py (`dataclasses.asdict`) on steps, assignments and outcomes, and the
-- decoders that rebuild them from stored documents (coordinator_store.py and journal.py).
pub mod RoundTrip
use ump.Prelude.{
  String, Bool, Option, none, some, List, [], ◌∷◌, Result, ok, err, ◌>>=◌, ◌==◌, if◌then◌else◌,
}
use ump.Prelude.Int.{ℤ}
use ump.Models.Text.{ModelError, bad_document}
use ump.Models.Json.{
  Json, null, bool, num, text, arr, obj, Items, nil, cons, Fields, end, field, get, texts,
}
use ump.Models.Status.{AssignmentStatus}
use ump.Models.Step.{PlanStep, make_step, Assignment, make_assignment}
use ump.Models.Outcome.{Outcome, make_outcome}

abbrev pub optional_int : Option ℤ → Json
optional_int none = null
optional_int (some n) = num n

abbrev pub optional_text : Option String → Json
optional_text none = null
optional_text (some s) = text s

unfoldable pub step_payload : PlanStep → Json
unfolding texts
step_payload s = obj (
    field "step_id" (text s.step_id) (
      field "description" (text s.description) (
        field "assigned_robot_id" (text s.assigned_robot_id) (
          field "capability" (text s.capability) (
            field "inputs" s.inputs (
              field "completion_criteria" (text s.completion_criteria) (
                field "depends_on" (arr (texts s.depends_on)) (
                  field "resources" (arr (texts s.resources)) (
                    field "not_before_ms" (optional_int s.not_before_ms)
                      (field "deadline_ms" (optional_int s.deadline_ms) end))))))))))

unfoldable pub assignment_payload : Assignment → Json
assignment_payload a = obj (
    field "assignment_id" (text a.assignment_id) (
      field "goal_id" (text a.goal_id) (
        field "plan_id" (text a.plan_id) (
          field "step" (step_payload a.step)
            (field "authority_lease_id" (optional_text a.authority_lease_id) end)))))

-- the value of an enumeration member
abbrev pub status_value : AssignmentStatus → String
status_value AssignmentStatus.accepted = "accepted"
status_value AssignmentStatus.succeeded = "succeeded"
status_value AssignmentStatus.failed = "failed"
status_value AssignmentStatus.rejected = "rejected"
status_value AssignmentStatus.cancelled = "cancelled"
status_value AssignmentStatus.unknown = "unknown"

unfoldable pub outcome_payload : Outcome → Json
outcome_payload o = obj (
    field "assignment_id" (text o.assignment_id) (
      field "robot_id" (text o.robot_id) (
        field "succeeded" (bool o.succeeded) (
          field "description" (text o.description)
            (field "status" (text (status_value o.status)) (field "outputs" o.outputs end))))))

-- A missing key, or a value of another type than the program writes, is `bad_document`.
abbrev pub required : Option Json → Result ModelError Json
required none = err bad_document
required (some j) = ok j

abbrev pub as_text : Json → Result ModelError String
as_text (text s) = ok s
as_text _ = err bad_document

abbrev pub as_bool : Json → Result ModelError Bool
as_bool (bool b) = ok b
as_bool _ = err bad_document

abbrev pub as_object : Json → Result ModelError Fields
as_object (obj fs) = ok fs
as_object _ = err bad_document

unfoldable pub items_texts : Items → Result ModelError (List String)
items_texts nil = ok []
items_texts (cons x rest) = do s ← as_text x; later ← items_texts rest; ok (s ∷ later)

-- `tuple(value.get(key, ()))`
abbrev pub as_texts : Option Json → Result ModelError (List String)
as_texts none = ok []
as_texts (some (arr xs)) = items_texts xs
as_texts (some _) = err bad_document

-- `value.get(key)` where null stands for `None`
abbrev pub as_optional_int : Option Json → Result ModelError (Option ℤ)
as_optional_int none = ok none
as_optional_int (some null) = ok none
as_optional_int (some (num n)) = ok (some n)
as_optional_int (some _) = err bad_document

abbrev pub as_optional_text : Option Json → Result ModelError (Option String)
as_optional_text none = ok none
as_optional_text (some null) = ok none
as_optional_text (some (text s)) = ok (some s)
as_optional_text (some _) = err bad_document

abbrev pub text_at : String → Fields → Result ModelError String
text_at key value = do j ← required (get key value); as_text j

-- `_decode_step` of coordinator_store.py
unfoldable pub decode_step : Json → Result ModelError PlanStep
unfolding get items_texts make_step
decode_step document = do
  value ← as_object document
  step_id ← text_at "step_id" value
  description ← text_at "description" value
  assigned_robot_id ← text_at "assigned_robot_id" value
  capability ← text_at "capability" value
  inputs ← required (get "inputs" value)
  completion_criteria ← text_at "completion_criteria" value
  depends_on ← as_texts (get "depends_on" value)
  resources ← as_texts (get "resources" value)
  not_before_ms ← as_optional_int (get "not_before_ms" value)
  deadline_ms ← as_optional_int (get "deadline_ms" value)
  make_step (record {
    step_id = step_id;
    description = description;
    assigned_robot_id = assigned_robot_id;
    capability = capability;
    inputs = inputs;
    completion_criteria = completion_criteria;
    depends_on = depends_on;
    resources = resources;
    not_before_ms = not_before_ms;
    deadline_ms = deadline_ms;
  })

-- `_decode_assignment` of coordinator_store.py, and of journal.py
unfoldable pub decode_assignment : Json → Result ModelError Assignment
unfolding get make_assignment
decode_assignment document = do
  value ← as_object document
  assignment_id ← text_at "assignment_id" value
  goal_id ← text_at "goal_id" value
  plan_id ← text_at "plan_id" value
  step_document ← required (get "step" value)
  step ← decode_step step_document
  authority_lease_id ← as_optional_text (get "authority_lease_id" value)
  make_assignment (record {
    assignment_id = assignment_id;
    goal_id = goal_id;
    plan_id = plan_id;
    step = step;
    authority_lease_id = authority_lease_id;
  })

-- `AssignmentStatus(value)`
unfoldable pub parse_status : String → Result ModelError AssignmentStatus
parse_status value =
    if value == "accepted"
    then ok AssignmentStatus.accepted
    else if value == "succeeded"
    then ok AssignmentStatus.succeeded
    else if value == "failed"
    then ok AssignmentStatus.failed
    else if value == "rejected"
    then ok AssignmentStatus.rejected
    else if value == "cancelled"
    then ok AssignmentStatus.cancelled
    else if value == "unknown"
    then ok AssignmentStatus.unknown
    else err bad_document

-- `value.get("outputs", {})`
abbrev pub outputs_or_empty : Option Json → Json
outputs_or_empty none = obj end
outputs_or_empty (some j) = j

-- `_decode_outcome` of journal.py
unfoldable pub decode_outcome : Json → Result ModelError Outcome
unfolding get parse_status make_outcome
decode_outcome document = do
  value ← as_object document
  assignment_id ← text_at "assignment_id" value
  robot_id ← text_at "robot_id" value
  succeeded_document ← required (get "succeeded" value)
  succeeded ← as_bool succeeded_document
  description ← text_at "description" value
  status_text ← text_at "status" value
  status ← parse_status status_text
  make_outcome assignment_id robot_id succeeded description (some status)
      (outputs_or_empty (get "outputs" value))
