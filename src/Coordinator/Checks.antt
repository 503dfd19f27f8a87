-- ===== src/Coordinator/Checks.antt =====
-- `validate_plan` of collaboration.py: what a coordinator asks of a plan before it runs it. The
-- identifier that `uuid4` gives is an argument.
pub mod Visit
pub mod Order
pub mod Cycles
pub mod Acyclic
pub mod Steps
pub mod Sound
mod Tests
use ump.Prelude.{
  ℕ, zero, suc, String, Bool, true, false, not, ◌&&◌, ◌||◌, Option, none, some, is_some, List, [],
  ◌∷◌, length, map, all, any, elem, unique, ◌==◌, if◌then◌else◌, ltb, Result, Done, ok, err, ◌>>=◌,
  ◌>>◌, guard, refuse,
}
use ump.Prelude.Int.{ℤ, pos, ltb_ℤ, eqb_ℤ}
use ump.Models.Json.{Json}
use ump.Models.Step.{PlanStep}
use ump.Models.Plan.{SharedGoal, Plan, plan_payload}
use ump.Transport.Envelope.{
  Encoded, TransportError, make_envelope, encode_envelope, operational_stream,
}
use ump.Runtime.Registry.{
  Availability, available, Capability, RobotManifest, capability, PeerView, Registry, peer_of,
  is_fresh,
}
use Visit.{Visits, VisitError, cycle, absent_key, out_of_fuel, step_id_of, check_cycles}

-- One constructor for each `raise`; `search_failed` is an exception of the search that is no
-- PlanValidationError.
pub data PlanValidationError : Type 0 where
  does_not_fit bad_identity too_many_steps bad_step_ids : PlanValidationError
  unknown_participant absent_or_stale capability_unavailable : String → PlanValidationError
  exceeds_goal_deadline step_deadline_passed unknown_dependencies : String → PlanValidationError
  dependency_cycle search_failed : PlanValidationError

-- `"s" * 128`
abbrev pub repeat : ℕ → String → String
repeat zero s = ""
repeat (suc n) (String.[]) = ""
repeat (suc n) (String.◌∷◌ c _) = String.◌∷◌ c (repeat n (String.◌∷◌ c ""))

abbrev pub fits : Result TransportError Encoded → Result PlanValidationError Done
fits (ok _) = ok tt
fits (err _) = err does_not_fit

-- `_validate_core_message_size`
unfoldable pub validate_core_message_size : String → String → Json → Result PlanValidationError Done
unfolding make_envelope encode_envelope
validate_core_message_size message_id message_type body = fits (
    encode_envelope (
      make_envelope message_id message_type (repeat 128 "s") (repeat 128 "s") (pos 1) (pos 0) body
        (some (repeat 128 "c")) operational_stream))

abbrev pub is_available : Availability → Bool
is_available available = true
is_available _ = false

abbrev pub offers : Option Capability → Bool
offers none = false
offers (some c) = is_available c.availability

-- `peer.manifest`, of a peer that is known and has one
abbrev pub manifest_of : Option PeerView → Option RobotManifest
manifest_of none = none
manifest_of (some p) = p.manifest

abbrev pub known_manifest : String → Option RobotManifest → Result PlanValidationError RobotManifest
known_manifest robot_id none = err (absent_or_stale robot_id)
known_manifest robot_id (some m) = ok m

-- `step.deadline_ms > goal.deadline_ms`, where both are given
abbrev pub past_goal : Option ℤ → Option ℤ → Bool
past_goal (some step) (some goal) = ltb_ℤ goal step
past_goal _ _ = false

abbrev pub has_passed : ℤ → Option ℤ → Bool
has_passed now_ms none = false
has_passed now_ms (some deadline) = ltb_ℤ deadline now_ms

-- one round of the loop over the steps
unfoldable pub check_step :
    SharedGoal → List String → Registry → ℤ → PlanStep → Result PlanValidationError Done
unfolding capability is_fresh
check_step goal known registry now_ms step = do
  guard (elem step.assigned_robot_id goal.participant_ids)
      (unknown_participant step.assigned_robot_id)
  manifest ←
      known_manifest step.assigned_robot_id (manifest_of (peer_of step.assigned_robot_id registry))
  guard (is_fresh step.assigned_robot_id now_ms registry) (absent_or_stale step.assigned_robot_id)
  guard (offers (capability step.capability manifest)) (capability_unavailable step.step_id)
  refuse (past_goal step.deadline_ms goal.deadline_ms) (exceeds_goal_deadline step.step_id)
  refuse (has_passed now_ms step.deadline_ms) (step_deadline_passed step.step_id)
  guard (all (λ d. elem d known) step.depends_on) (unknown_dependencies step.step_id)

unfoldable pub check_steps :
    SharedGoal → List String → Registry → ℤ → List PlanStep → Result PlanValidationError Done
unfolding check_step
check_steps goal known registry now_ms [] = ok tt
check_steps goal known registry now_ms (step ∷ steps) = do
  check_step goal known registry now_ms step
  check_steps goal known registry now_ms steps

abbrev pub no_cycle : Result VisitError Visits → Result PlanValidationError Done
no_cycle (ok _) = ok tt
no_cycle (err cycle) = err dependency_cycle
no_cycle (err absent_key) = err search_failed
no_cycle (err out_of_fuel) = err search_failed

abbrev pub no_steps : List PlanStep → Bool
no_steps [] = true
no_steps (_ ∷ _) = false

-- `validate_plan`
unfoldable pub validate_plan :
    String → SharedGoal → Plan → Registry → ℤ → Result PlanValidationError Done
unfolding validate_core_message_size plan_payload check_steps check_cycles
validate_plan message_id goal plan registry now_ms = do
  validate_core_message_size message_id "plan" (plan_payload plan)
  refuse
      (not (plan.goal_id == goal.goal_id) || (ltb_ℤ plan.revision (pos 1) || no_steps plan.steps))
      bad_identity
  refuse (ltb 256 (length plan.steps)) too_many_steps
  let step_ids = map step_id_of plan.steps
  refuse (any (λ id. id == "") step_ids || not (unique step_ids)) bad_step_ids
  check_steps goal step_ids registry now_ms plan.steps
  no_cycle (check_cycles plan.steps)
