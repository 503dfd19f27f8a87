-- ===== src/Models/Samples.antt =====
-- Concrete values of the data model, for the witnesses of the components.
use ump.Prelude.{none, some, [], ◌∷◌, true}
use ump.Prelude.Int.{pos}
use ump.Models.Json.{obj, end, field, text}
use ump.Models.Status.{AssignmentStatus, LeaseStatus}
use ump.Models.Step.{PlanStep, Assignment}
use ump.Models.Lease.{AuthorityLease}
use ump.Models.Outcome.{Outcome}

abbrev pub carry : PlanStep
carry = record {
  step_id = "carry";
  description = "Carry the payload to station 4";
  assigned_robot_id = "robot-1";
  capability = "ump.material.carry/v1";
  inputs = obj (field "destination" (text "station-4") end);
  completion_criteria = "Payload is at station 4";
  depends_on = [];
  resources = "dock-1" ∷ [];
  not_before_ms = none;
  deadline_ms = some (pos 60000);
}

abbrev pub carry_job : Assignment
carry_job = record {
  assignment_id = "assignment-1";
  goal_id = "goal-1";
  plan_id = "plan-1";
  step = carry;
  authority_lease_id = some "lease-1";
}

abbrev pub second_job : Assignment
second_job = record carry_job { assignment_id = "assignment-2" }

abbrev pub delivered : Outcome
delivered = record {
  assignment_id = "assignment-1";
  robot_id = "robot-1";
  succeeded = true;
  description = "Delivered";
  status = AssignmentStatus.succeeded;
  outputs = obj end;
}

abbrev pub carry_lease : AuthorityLease
carry_lease = record {
  lease_id = "lease-1";
  grantor_robot_id = "robot-1";
  issuer_id = "coordinator-1";
  capabilities = "ump.material.carry/v1" ∷ [];
  issued_at_ms = pos 1000;
  expires_at_ms = pos 9000;
  maximum_clock_uncertainty_ms = pos 50;
  revision = pos 1;
  status = LeaseStatus.active;
}
