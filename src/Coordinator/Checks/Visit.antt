-- ===== src/Coordinator/Checks/Visit.antt =====
-- The depth-first search of `validate_plan` in collaboration.py for dependency cycles. Its two sets
-- are lists without repetitions, and `visit` runs on fuel.
use ump.Prelude.{
  ℕ, zero, suc, String, Option, none, some, List, [], ◌∷◌, length, map, elem, ◌==◌, if◌then◌else◌,
  Result, ok, err, ◌>>=◌,
}
use ump.Prelude.Table.{find}
use ump.Models.Step.{PlanStep}

pub record Visits : Type 0 where
  pub visiting : List String
  pub visited : List String

-- `cycle` is the PlanValidationError, and `absent_key` the KeyError of `graph[step_id]`.
pub data VisitError : Type 0 where
  cycle absent_key out_of_fuel : VisitError

abbrev pub step_id_of : PlanStep → String
step_id_of s = s.step_id

-- `graph[step_id]`, whose value is the step's dependencies; step identifiers are unique
abbrev pub step_at : String → List PlanStep → Option PlanStep
step_at = find step_id_of

unfoldable pub remove : String → List String → List String
remove k [] = []
remove k (x ∷ xs) = if x == k then xs else x ∷ remove k xs

unfoldable pub leave : String → Visits → Visits
unfolding remove
leave id v = record { visiting = remove id v.visiting; visited = id ∷ v.visited }

-- a loop of calls of `visit`
unfoldable pub visit_all :
    (String → Visits → Result VisitError Visits) → List String → Visits → Result VisitError Visits
visit_all go [] v = ok v
visit_all go (id ∷ ids) v = do later ← go id v; visit_all go ids later

-- a step that is in neither set
abbrev pub visit_new :
    (String → Visits → Result VisitError Visits)
    → Option PlanStep
    → String
    → Visits
    → Result VisitError Visits
visit_new go none id v = err absent_key
visit_new go (some step) id v = do
  later ← visit_all go step.depends_on (record v { visiting = id ∷ v.visiting })
  ok (leave id later)

-- `visit`
unfoldable pub visit : ℕ → List PlanStep → String → Visits → Result VisitError Visits
unfolding visit_all leave
visit zero steps id v = err out_of_fuel
visit (suc n) steps id v =
    if elem id v.visiting
    then err cycle
    else if elem id v.visited
    then ok v
    else visit_new (visit n steps) (step_at id steps) id v

-- `for step_id in graph: visit(step_id)`, with fuel for a chain of all steps
unfoldable pub check_cycles : List PlanStep → Result VisitError Visits
unfolding visit
check_cycles steps =
    visit_all (visit (suc (length steps)) steps) (map step_id_of steps)
      (record { visiting = []; visited = [] })
