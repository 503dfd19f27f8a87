-- ===== src/Coordinator/Checks/Steps.antt =====
-- The loop of `validate_plan` over the steps of a plan.
use ump.Prelude.{
  String, ◌≡◌, ◌≢◌, true, false, Option, none, some, List, [], ◌∷◌, all, elem, All, ok, err, guard,
  refuse, arith, >>=-eq-ok, guard-eq-ok, refuse-eq-ok, raises-bind, raises-guard, raises-refuse,
}
use ump.Prelude.Int.{ℤ}
use ump.Models.Step.{PlanStep}
use ump.Models.Plan.{SharedGoal}
use ump.Runtime.Registry.{RobotManifest, capability, Registry, peer_of, is_fresh}
use ump.Coordinator.Checks.{
  PlanValidationError, unknown_participant, absent_or_stale, capability_unavailable,
  exceeds_goal_deadline, step_deadline_passed, dependency_cycle, search_failed, offers, manifest_of,
  known_manifest, past_goal, has_passed, check_step, check_steps,
}

module _ (goal : SharedGoal) (known : List String) (registry : Registry) (now : ℤ) where
  -- what the loop asks of a step
  pub record CanRun (s : PlanStep) : Type 0 where
    pub invited : elem s.assigned_robot_id goal.participant_ids ≡ true
    pub manifest : RobotManifest
    pub announced : manifest_of (peer_of s.assigned_robot_id registry) ≡ some manifest
    pub fresh : is_fresh s.assigned_robot_id now registry ≡ true
    pub offered : offers (capability s.capability manifest) ≡ true
    pub in_goal : past_goal s.deadline_ms goal.deadline_ms ≡ false
    pub in_time : has_passed now s.deadline_ms ≡ false
    pub named : all (λ d. elem d known) s.depends_on ≡ true

  known_manifest-eq-ok :
      (robot_id : String) (o : Option RobotManifest) (m : RobotManifest)
      → known_manifest robot_id o ≡ ok m
      → o ≡ some m
  known_manifest-eq-ok robot_id o m h = ground arith

  check_step-CanRun : (s : PlanStep) → check_step goal known registry now s ≡ ok tt → CanRun s
  unfolding check_step
  check_step-CanRun s h =
      let (_, invited, h₁) =
        >>=-eq-ok
          (guard (elem s.assigned_robot_id goal.participant_ids)
            (unknown_participant s.assigned_robot_id))
          _ h in
      let (m, announced, h₂) =
        >>=-eq-ok
          (known_manifest s.assigned_robot_id (manifest_of (peer_of s.assigned_robot_id registry)))
          _ h₁ in
      let (_, fresh, h₃) =
        >>=-eq-ok
          (guard (is_fresh s.assigned_robot_id now registry) (absent_or_stale s.assigned_robot_id))
          _ h₂ in
      let (_, offered, h₄) =
        >>=-eq-ok (guard (offers (capability s.capability m)) (capability_unavailable s.step_id)) _
          h₃ in
      let (_, in_goal, h₅) =
        >>=-eq-ok
          (refuse (past_goal s.deadline_ms goal.deadline_ms) (exceeds_goal_deadline s.step_id)) _
          h₄ in
      let (_, in_time, h₆) =
        >>=-eq-ok (refuse (has_passed now s.deadline_ms) (step_deadline_passed s.step_id)) _ h₅ in
      record {
        invited = guard-eq-ok _ _ invited;
        manifest = m;
        announced = known_manifest-eq-ok s.assigned_robot_id _ m announced;
        fresh = guard-eq-ok _ _ fresh;
        offered = guard-eq-ok _ _ offered;
        in_goal = refuse-eq-ok _ _ in_goal;
        in_time = refuse-eq-ok _ _ in_time;
        named = guard-eq-ok _ _ h₆;
      }

  pub check_steps-CanRun :
      (steps : List PlanStep) → check_steps goal known registry now steps ≡ ok tt → All CanRun steps
  unfolding check_steps
  check_steps-CanRun [] h = tt
  check_steps-CanRun (s ∷ steps) h =
      let (_, first, rest) = >>=-eq-ok (check_step goal known registry now s) _ h in
      (check_step-CanRun s first, check_steps-CanRun steps rest)

  -- an error of the search for cycles
  abbrev pub Elsewhere : PlanValidationError → Type 0
  Elsewhere e = (e ≢ dependency_cycle) × (e ≢ search_failed)

  known_manifest-Elsewhere :
      (robot_id : String) (o : Option RobotManifest) (e : PlanValidationError)
      → known_manifest robot_id o ≡ err e
      → Elsewhere e
  known_manifest-Elsewhere robot_id (some m) e h = cc
  known_manifest-Elsewhere robot_id none e h = (λ p. cc, λ p. cc)

  check_step-Elsewhere :
      (s : PlanStep) (e : PlanValidationError)
      → check_step goal known registry now s ≡ err e
      → Elsewhere e
  unfolding check_step
  check_step-Elsewhere s =
      raises-bind
        (guard (elem s.assigned_robot_id goal.participant_ids)
          (unknown_participant s.assigned_robot_id))
        (raises-guard Elsewhere _ _ (λ p. cc, λ p. cc))
        λ _ _.
          raises-bind
            (known_manifest s.assigned_robot_id
              (manifest_of (peer_of s.assigned_robot_id registry)))
            (known_manifest-Elsewhere s.assigned_robot_id _)
            λ m _.
              raises-bind
                (guard (is_fresh s.assigned_robot_id now registry)
                  (absent_or_stale s.assigned_robot_id))
                (raises-guard Elsewhere _ _ (λ p. cc, λ p. cc))
                λ _ _.
                  raises-bind
                    (guard (offers (capability s.capability m)) (capability_unavailable s.step_id))
                    (raises-guard Elsewhere _ _ (λ p. cc, λ p. cc))
                    λ _ _.
                      raises-bind
                        (refuse (past_goal s.deadline_ms goal.deadline_ms)
                          (exceeds_goal_deadline s.step_id))
                        (raises-refuse Elsewhere _ _ (λ p. cc, λ p. cc))
                        λ _ _.
                          raises-bind
                            (refuse (has_passed now s.deadline_ms) (step_deadline_passed s.step_id))
                            (raises-refuse Elsewhere _ _ (λ p. cc, λ p. cc))
                            λ _ _. raises-guard Elsewhere _ _ (λ p. cc, λ p. cc)

  pub check_steps-Elsewhere :
      (steps : List PlanStep) (e : PlanValidationError)
      → check_steps goal known registry now steps ≡ err e
      → Elsewhere e
  unfolding check_steps
  check_steps-Elsewhere [] e h = cc
  check_steps-Elsewhere (s ∷ steps) e h =
      raises-bind (check_step goal known registry now s) (check_step-Elsewhere s)
        (λ _ _. check_steps-Elsewhere steps) e h
