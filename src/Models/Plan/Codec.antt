-- ===== src/Models/Plan/Codec.antt =====
-- `_decode_goal` and `_decode_plan` of coordinator_store.py.
use ump.Prelude.{◌≡◌, refl, Option, none, some, List, [], ◌∷◌, Result, ok, err, ◌>>=◌, ◌>>◌, All}
use ump.Prelude.Int.{ℤ, pos}
use ump.Models.Text.{ModelError, bad_document}
use ump.Models.Json.{Json, num, arr, Items, nil, cons, get}
use ump.Models.Step.{PlanStep, make_step}
use ump.Models.Codec.{
  required, as_object, as_texts, as_optional_int, as_optional_text, text_at, outputs_or_empty,
  decode_step, items_texts,
}
use ump.Models.Codec.RoundTrip.{
  decode_step-step_payload, items_texts-texts, int_option, text_option,
}
use ump.Models.Plan.{
  SharedGoal, Plan, PlanError, bad_field, goal_post_init, plan_post_init, goal_payload,
  plan_payload, steps_payload,
}

-- the constructor calls
unfoldable pub make_goal : SharedGoal → Result PlanError SharedGoal
unfolding goal_post_init
make_goal g = goal_post_init g >> ok g

unfoldable pub make_plan : Plan → Result PlanError Plan
unfolding plan_post_init
make_plan p = plan_post_init p >> ok p

abbrev pub lift_document {ℓ} : {A : Type ℓ} → Result ModelError A → Result PlanError A
lift_document (ok a) = ok a
lift_document (err e) = err (bad_field e)

-- `value.get("revision", 1)`
abbrev pub revision_or_one : Option Json → Result ModelError ℤ
revision_or_one none = ok (pos 1)
revision_or_one (some (num n)) = ok n
revision_or_one (some _) = err bad_document

abbrev pub as_items : Json → Result ModelError Items
as_items (arr xs) = ok xs
as_items _ = err bad_document

-- `_decode_goal`
unfoldable pub decode_goal : Json → Result PlanError SharedGoal
unfolding get items_texts make_goal
decode_goal document = do
  value ← lift_document (as_object document)
  goal_id ← lift_document (text_at "goal_id" value)
  description ← lift_document (text_at "description" value)
  participants ← lift_document (required (get "participant_ids" value))
  participant_ids ← lift_document (as_texts (some participants))
  deadline_ms ← lift_document (as_optional_int (get "deadline_ms" value))
  make_goal (record {
    goal_id = goal_id;
    description = description;
    participant_ids = participant_ids;
    constraints = outputs_or_empty (get "constraints" value);
    deadline_ms = deadline_ms;
  })

-- `tuple(_decode_step(step) for step in value["steps"])`
unfoldable pub decode_steps : Items → Result ModelError (List PlanStep)
unfolding decode_step
decode_steps nil = ok []
decode_steps (cons x rest) = do first ← decode_step x; later ← decode_steps rest; ok (first ∷ later)

-- `_decode_plan`
unfoldable pub decode_plan : Json → Result PlanError Plan
unfolding get decode_steps make_plan
decode_plan document = do
  value ← lift_document (as_object document)
  plan_id ← lift_document (text_at "plan_id" value)
  goal_id ← lift_document (text_at "goal_id" value)
  planner_id ← lift_document (text_at "planner_id" value)
  summary ← lift_document (text_at "summary" value)
  steps_document ← lift_document (required (get "steps" value))
  step_items ← lift_document (as_items steps_document)
  steps ← lift_document (decode_steps step_items)
  revision ← lift_document (revision_or_one (get "revision" value))
  supersedes_plan_id ← lift_document (as_optional_text (get "supersedes_plan_id" value))
  make_plan (record {
    plan_id = plan_id;
    goal_id = goal_id;
    planner_id = planner_id;
    summary = summary;
    steps = steps;
    revision = revision;
    supersedes_plan_id = supersedes_plan_id;
  })

-- Decoding the document of a goal is constructing the goal again: it gives the goal itself, or the
-- error that its constructor raises.
pub decode_goal-goal_payload : (g : SharedGoal) → decode_goal (goal_payload g) ≡ make_goal g
unfolding decode_goal goal_payload
decode_goal-goal_payload g = simp (items_texts-texts, int_option g.deadline_ms)

decode_steps-steps_payload :
    (steps : List PlanStep)
    → All (λ s. make_step s ≡ ok s) steps
    → decode_steps (steps_payload steps) ≡ ok steps
unfolding decode_steps steps_payload
decode_steps-steps_payload [] h = refl
decode_steps-steps_payload (s ∷ rest) h =
    simp (decode_step-step_payload s, h.0, decode_steps-steps_payload rest h.1)

-- Decoding the document of a plan whose steps pass their checks is constructing the plan again: it
-- gives the plan itself, or the error that its constructor raises.
pub decode_plan-plan_payload :
    (p : Plan) → All (λ s. make_step s ≡ ok s) p.steps → decode_plan (plan_payload p) ≡ make_plan p
unfolding decode_plan plan_payload
decode_plan-plan_payload p valid =
    simp (decode_steps-steps_payload p.steps valid, text_option p.supersedes_plan_id)
