-- ===== src/Plan/Parse.antt =====
-- `parsePlan`: a planner's answer, checked and turned into a plan. What strips the code fence and
-- parses the text is the parameter `parse_json` of the executor, so the argument here is its result.
pub mod RoundTrip
use agent_ego.Base.{
  Bool, true, false, not, ◌&&◌, List, [], ◌∷◌, Option, none, some, String, if◌then◌else◌, str_eq,
}
use agent_ego.Base.Json.{
  Json, null, json_text, array, object, items_of, member, as_string, is_object_type,
}
use agent_ego.Base.Result.{Result, ok, err, ◌>>=◌, ◌>>◌, require}
use agent_ego.Plan.{PlanStep, Plan, pending}

pub data ParseError : Type 0 where
  invalid_json not_an_object missing_rationale missing_steps : ParseError
  step_not_object step_id_missing step_goal_missing : ParseError

-- A string that is not empty, `typeof v === 'string' && v.length > 0`.
abbrev pub non_empty : Option String → Option String
non_empty none = none
non_empty (some s) = if str_eq s "" then none else some s

abbrev pub or_fail {ℓ} : {A : Type ℓ} → Option A → ParseError → Result ParseError A
or_fail none e = err e
or_fail (some a) e = ok a

-- `.filter((x): x is string => typeof x === 'string')`.
unfoldable pub strings : List Json → List String
strings [] = []
strings (json_text s ∷ vs) = s ∷ strings vs
strings (_ ∷ vs) = strings vs

abbrev pub depends_on_of : Option Json → List String
depends_on_of (some (array vs)) = strings (items_of vs)
depends_on_of _ = []

-- `s.args && typeof s.args === 'object'`.
abbrev pub args_of : Option Json → Option Json
args_of none = none
args_of (some v) = if is_object_type v then some v else none

unfoldable pub parse_step : Json → Result ParseError PlanStep
parse_step raw = do
  require (is_object_type raw) step_not_object
  id ← or_fail (non_empty (as_string (member "id" raw))) step_id_missing
  goal ← or_fail (non_empty (as_string (member "goal" raw))) step_goal_missing
  ok (record {
    id = id;
    goal = goal;
    tool = non_empty (as_string (member "tool" raw));
    args = args_of (member "args" raw);
    depends_on = depends_on_of (member "dependsOn" raw);
    status = pending;
    observation = none;
  })

unfoldable pub parse_steps : List Json → Result ParseError (List PlanStep)
unfolding parse_step
parse_steps [] = ok []
parse_steps (raw ∷ rest) = do step ← parse_step raw; steps ← parse_steps rest; ok (step ∷ steps)

-- `Array.isArray(object.steps)` and not empty.
abbrev pub steps_of : Option Json → Option (List Json)
steps_of (some (array vs)) = elim (items_of vs) [ [] ↦ none | v ∷ more ↦ some (v ∷ more) ]
steps_of _ = none

-- `plan_id` is the generated id; `none` is text that `JSON.parse` refuses.
unfoldable pub parse_plan : String → Option Json → Result ParseError Plan
unfolding parse_steps
parse_plan plan_id none = err invalid_json
parse_plan plan_id (some parsed) = do
  require (is_object_type parsed) not_an_object
  rationale ← or_fail (as_string (member "rationale" parsed)) missing_rationale
  raw_steps ← or_fail (steps_of (member "steps" parsed)) missing_steps
  steps ← parse_steps raw_steps
  ok (record { id = plan_id; steps = steps; parent_plan_id = none; rationale = rationale })
