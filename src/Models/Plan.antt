-- ===== src/Models/Plan.antt =====
-- `SharedGoal` and `Plan` of models.py, with their documents.
pub mod Codec
use ump.Prelude.{
  String, not, Option, none, some, List, [], ◌∷◌, Result, Done, ok, err, ◌>>◌, refuse, guard,
  unique, length, ◌==◌,
}
use ump.Prelude.Int.{ℤ, pos, ltb_ℤ, eqb_ℤ}
use ump.Models.Text.{ModelError, required_text, identifier, identifiers}
use ump.Models.Json.{Json, num, text, arr, obj, Items, nil, cons, end, field, texts}
use ump.Models.Step.{PlanStep, is_negative}
use ump.Models.Lease.{outside_1_to_256}
use ump.Models.Outcome.{is_object}
use ump.Models.Codec.{optional_int, optional_text, step_payload}

pub data PlanError : Type 0 where
  bad_field : ModelError → PlanError
  participant_count duplicate_participants constraints_not_object goal_deadline_negative : PlanError
  revision_not_positive initial_supersedes no_predecessor supersedes_itself step_count : PlanError

pub record SharedGoal : Type 0 where
  pub goal_id : String
  pub description : String
  pub participant_ids : List String
  pub constraints : Json
  pub deadline_ms : Option ℤ

abbrev pub lift_field : Result ModelError Done → Result PlanError Done
lift_field (ok u) = ok u
lift_field (err e) = err (bad_field e)

-- `SharedGoal.__post_init__`; every document of the model is JSON serializable
unfoldable pub goal_post_init : SharedGoal → Result PlanError Done
unfolding identifier identifiers required_text
goal_post_init g = do
  lift_field (identifier g.goal_id "goal_id")
  lift_field (required_text g.description "goal description" 4096)
  refuse (outside_1_to_256 (length g.participant_ids)) participant_count
  refuse (not (unique g.participant_ids)) duplicate_participants
  lift_field (identifiers g.participant_ids "participant_id")
  guard (is_object g.constraints) constraints_not_object
  refuse (is_negative g.deadline_ms) goal_deadline_negative

pub record Plan : Type 0 where
  pub plan_id : String
  pub goal_id : String
  pub planner_id : String
  pub summary : String
  pub steps : List PlanStep
  pub revision : ℤ
  pub supersedes_plan_id : Option String

-- the checks on the predecessor of a plan
unfoldable pub check_predecessor : Plan → Option String → Result PlanError Done
unfolding identifier
check_predecessor p none = refuse (ltb_ℤ (pos 1) p.revision) no_predecessor
check_predecessor p (some previous) = do
  refuse (eqb_ℤ p.revision (pos 1)) initial_supersedes
  lift_field (identifier previous "supersedes_plan_id")
  refuse (previous == p.plan_id) supersedes_itself

-- `Plan.__post_init__`
unfoldable pub plan_post_init : Plan → Result PlanError Done
unfolding identifier required_text check_predecessor
plan_post_init p = do
  lift_field (identifier p.plan_id "plan_id")
  lift_field (identifier p.goal_id "goal_id")
  lift_field (identifier p.planner_id "planner_id")
  lift_field (required_text p.summary "plan summary" 4096)
  refuse (ltb_ℤ p.revision (pos 1)) revision_not_positive
  check_predecessor p p.supersedes_plan_id
  refuse (outside_1_to_256 (length p.steps)) step_count

unfoldable pub steps_payload : List PlanStep → Items
unfolding step_payload
steps_payload [] = nil
steps_payload (s ∷ rest) = cons (step_payload s) (steps_payload rest)

-- `payload(goal)`
unfoldable pub goal_payload : SharedGoal → Json
unfolding texts
goal_payload g = obj (
    field "goal_id" (text g.goal_id) (
      field "description" (text g.description) (
        field "participant_ids" (arr (texts g.participant_ids)) (
          field "constraints" g.constraints
            (field "deadline_ms" (optional_int g.deadline_ms) end)))))

-- `payload(plan)`
unfoldable pub plan_payload : Plan → Json
unfolding steps_payload
plan_payload p = obj (
    field "plan_id" (text p.plan_id) (
      field "goal_id" (text p.goal_id) (
        field "planner_id" (text p.planner_id) (
          field "summary" (text p.summary) (
            field "steps" (arr (steps_payload p.steps)) (
              field "revision" (num p.revision)
                (field "supersedes_plan_id" (optional_text p.supersedes_plan_id) end)))))))
