-- ===== src/Coordinator/Checks/Tests.antt =====
-- Runs of `validate_plan`, and its theorems at concrete plans.
use ump.Prelude.{String, ◌≡◌, ◌≢◌, ◌↔◌, refl, none, some, [], ◌∷◌, map, All, ok, err}
use ump.Prelude.Int.{pos, ◌-ℤ◌}
use ump.Prelude.Table.{find}
use ump.Models.Json.{obj, end}
use ump.Models.Outcome.Size.{json_size}
use ump.Models.Codec.{step_payload}
use ump.Models.Plan.{SharedGoal, Plan, plan_payload}
use ump.Models.Step.{PlanStep}
use ump.Models.Samples.{carry}
use ump.Transport.Envelope.{encode_envelope, make_envelope}
use ump.Runtime.Registry.{Registry, available, capability, is_fresh}
use ump.Coordinator.Checks.{
  validate_plan, validate_core_message_size, check_step, check_steps, dependency_cycle,
  search_failed,
}
use ump.Coordinator.Checks.Visit.{step_id_of, cycle, check_cycles, visit, visit_all, leave, remove}
use ump.Coordinator.Checks.Order.{Reaches}
use ump.Coordinator.Checks.Cycles.{Closed}
use ump.Coordinator.Checks.Acyclic.{check_cycles_iff}
use ump.Coordinator.Checks.Steps.{CanRun}
use ump.Coordinator.Checks.Sound.{
  Named-Closed, Schedule, validate_plan-CanRun, validate_plan-ends, validate_plan-cyclic,
}

abbrev unload : PlanStep
unload = record carry { step_id = "unload"; depends_on = "carry" ∷ [] }

abbrev goal : SharedGoal
goal = record {
  goal_id = "goal-1";
  description = "Supply station 4";
  participant_ids = "robot-1" ∷ [];
  constraints = obj end;
  deadline_ms = some (pos 90000);
}

abbrev plan : Plan
plan = record {
  plan_id = "plan-1";
  goal_id = "goal-1";
  planner_id = "planner-1";
  summary = "Carry, then unload";
  steps = unload ∷ carry ∷ [];
  revision = pos 1;
  supersedes_plan_id = none;
}

-- two steps that wait for each other
abbrev knot : Plan
knot = record plan { steps = unload ∷ record carry { depends_on = "unload" ∷ [] } ∷ [] }

abbrev peers : Registry
peers =
    record {
      robot_id = "robot-1";
      manifest = some (record {
        robot_id = "robot-1";
        manufacturer = "Acme";
        model = "M1";
        robot_class = "carrier";
        capabilities =
            record {
              name = "ump.material.carry/v1";
              description = "Carry a payload";
              input_schema = obj end;
              output_schema = obj end;
              availability = available;
            }
            ∷ [];
        adapter_version = "0.1.0";
      });
      state = some (record { fresh_for_ms = pos 2000 });
      state_timestamp_ms = pos 1000;
      session_id = some "session-1";
    }
    ∷ []

valid_run : validate_plan "message-9" goal plan peers (pos 2000) ≡ ok tt
unfolding validate_plan validate_core_message_size make_envelope encode_envelope json_size
    plan_payload step_payload check_steps check_step capability is_fresh find ◌-ℤ◌ check_cycles
    visit visit_all leave remove
valid_run = refl

validate_plan-CanRun_example :
    All (CanRun goal (map step_id_of plan.steps) peers (pos 2000)) plan.steps
    × Schedule goal peers (pos 2000) plan.steps
validate_plan-CanRun_example = validate_plan-CanRun "message-9" goal plan peers (pos 2000) valid_run

validate_plan-ends_example :
    validate_plan "message-9" goal knot peers (pos 2000) ≢ err search_failed
validate_plan-ends_example = validate_plan-ends "message-9" goal knot peers (pos 2000)

cyclic_run : validate_plan "message-9" goal knot peers (pos 2000) ≡ err dependency_cycle
unfolding validate_plan validate_core_message_size make_envelope encode_envelope json_size
    plan_payload step_payload check_steps check_step capability is_fresh find ◌-ℤ◌ check_cycles
    visit visit_all leave remove
cyclic_run = refl

validate_plan-cyclic_example : (x : String) × Reaches knot.steps x x
validate_plan-cyclic_example =
    validate_plan-cyclic "message-9" goal knot peers (pos 2000) cyclic_run

knot-Closed : Closed knot.steps
knot-Closed = Named-Closed knot.steps (refl, (refl, tt))

check_cycles_iff_example :
    (check_cycles knot.steps ≡ err cycle) ↔ ((x : String) × Reaches knot.steps x x)
check_cycles_iff_example = check_cycles_iff knot.steps knot-Closed
