-- ===== src/Plan/Parse/RoundTrip.antt =====
-- What `parsePlan` returns, and that it reads back what the schema of the prompt describes.
use agent_ego.Base.{
  ◌≡◌, ◌≢◌, refl, ap, ◌∙◌, suc, Bool, true, false, List, [], ◌∷◌, Option, none, some, String,
  eq_iff, arith, All, length,
}
use agent_ego.Base.Json.{
  Json, null, json_text, array, object, Items, no_items, item, no_fields, entry, items_of, field,
  member, as_string, is_object_type,
}
use agent_ego.Base.Result.{ok, require, >>=-eq-ok}
use agent_ego.Plan.{PlanStep, Plan, pending}
use agent_ego.Plan.Parse.{
  ParseError, non_empty, strings, args_of, parse_step, parse_steps, steps_of, parse_plan, or_fail,
}

-- A step as the executor wants it from the planner.
pub record IsFresh (s : PlanStep) : Type 0 where
  pub id : s.id ≢ ""
  pub goal : s.goal ≢ ""
  pub tool : s.tool ≢ some ""
  pub status : s.status ≡ pending
  pub observation : s.observation ≡ none
  pub args : (v : Json) → s.args ≡ some v → is_object_type v ≡ true

non_empty-eq-some : (o : Option String) (s : String) → non_empty o ≡ some s → s ≢ ""
non_empty-eq-some none s e = cc
non_empty-eq-some (some t) s e = ground (arith, eq_iff t "")

non_empty-ne : (o : Option String) → non_empty o ≢ some ""
non_empty-ne o e = non_empty-eq-some o "" e refl

args_of-object : (o : Option Json) (v : Json) → args_of o ≡ some v → is_object_type v ≡ true
args_of-object none v e = cc
args_of-object (some w) v e = ground arith

or_fail-eq-ok :
    {A : Type 0} (o : Option A) (x : ParseError) {a : A} → or_fail o x ≡ ok a → o ≡ some a
or_fail-eq-ok none x e = cc
or_fail-eq-ok (some b) x e = cc

require-eq-ok : (b : Bool) (x : ParseError) {u : Unit {0}} → require b x ≡ ok u → b ≡ true
require-eq-ok true x e = refl
require-eq-ok false x e = cc

parse_step-IsFresh : (raw : Json) (s : PlanStep) → parse_step raw ≡ ok s → IsFresh s
unfolding parse_step
parse_step-IsFresh raw s h = record {
  id = λ e. ground (arith, non_empty-ne (as_string (member "id" raw)));
  goal = λ e. ground (arith, non_empty-ne (as_string (member "goal" raw)));
  tool = λ e. ground (arith, non_empty-ne (as_string (member "tool" raw)));
  status = ground arith;
  observation = ground arith;
  args = λ v e. ground (arith, args_of-object (member "args" raw) v);
}

parse_steps-IsFresh :
    (raws : List Json) (steps : List PlanStep)
    → parse_steps raws ≡ ok steps
    → All IsFresh steps × (length steps ≡ length raws)
unfolding parse_steps
parse_steps-IsFresh [] steps h = let e : steps ≡ [] = ground arith in rw e (tt, refl)
parse_steps-IsFresh (raw ∷ rest) steps h =
    let (s, hs, h1) = >>=-eq-ok (parse_step raw) _ h in
    let (ss, hss, h2) = >>=-eq-ok (parse_steps rest) _ h1 in
    let (fresh, size) = parse_steps-IsFresh rest ss hss in
    let e : steps ≡ s ∷ ss = ground arith in
    rw e ((parse_step-IsFresh raw s hs, fresh), ap suc size)

steps_of-ne-nil : (o : Option Json) → steps_of o ≢ some []
steps_of-ne-nil none e = cc
steps_of-ne-nil (some (array no_items)) e = cc
steps_of-ne-nil (some (array (item v vs))) e = cc
steps_of-ne-nil (some null) e = cc
steps_of-ne-nil (some _) e = cc

-- Whatever the planner answers, a plan that is accepted has a step, and each of its steps has a
-- non-empty id and goal, no empty tool name, an object or an array for arguments if it has any, and
-- is pending with no observation; the plan has the generated id and no parent.
pub parse_plan-IsFresh :
    (plan_id : String) (parsed : Option Json) (plan : Plan)
    → parse_plan plan_id parsed ≡ ok plan
    → (plan.steps ≢ [])
      × All IsFresh plan.steps
      × (plan.id ≡ plan_id)
      × (plan.parent_plan_id ≡ none)
unfolding parse_plan
parse_plan-IsFresh plan_id none plan h = cc
parse_plan-IsFresh plan_id (some v) plan h =
    let (u, hu, h1) = >>=-eq-ok (require (is_object_type v) _) _ h in
    let (r, hr, h2) = >>=-eq-ok (or_fail (as_string (member "rationale" v)) _) _ h1 in
    let (raws, hraws, h3) = >>=-eq-ok (or_fail (steps_of (member "steps" v)) _) _ h2 in
    let (steps, hsteps, h4) = >>=-eq-ok (parse_steps raws) _ h3 in
    let (fresh, size) = parse_steps-IsFresh raws steps hsteps in
    let e : plan ≡ record { id = plan_id; steps = steps; parent_plan_id = none; rationale = r } =
      ground arith in
    let given : steps_of (member "steps" v) ≡ some raws = or_fail-eq-ok _ _ hraws in
    rw e (
      some_steps raws steps size (λ n. steps_of-ne-nil (member "steps" v) (given ∙ ap some n)),
      fresh,
      refl,
      refl,
    )
  where
    some_steps :
        (raws : List Json) (steps : List PlanStep)
        → length steps ≡ length raws
        → raws ≢ []
        → steps ≢ []
    some_steps [] steps e n m = n refl
    some_steps (r ∷ raws) [] e n m = absurd (omega arith)
    some_steps (r ∷ raws) (s ∷ steps) e n m = cc

-- A step in the schema that the planner's prompt describes.
abbrev tool_json : Option String → Json
tool_json none = null
tool_json (some t) = json_text t

abbrev args_json : Option Json → Json
args_json none = null
args_json (some v) = v

str_elems : List String → Items
str_elems [] = no_items
str_elems (s ∷ ss) = item (json_text s) (str_elems ss)

step_json : PlanStep → Json
step_json s = object (
    entry "id" (json_text s.id) (
      entry "goal" (json_text s.goal) (
        entry "tool" (tool_json s.tool) (
          entry "args" (args_json s.args)
            (entry "dependsOn" (array (str_elems s.depends_on)) no_fields)))))

step_elems : List PlanStep → Items
step_elems [] = no_items
step_elems (s ∷ ss) = item (step_json s) (step_elems ss)

pub plan_json : Plan → Json
plan_json p = object (
    entry "rationale" (json_text p.rationale)
      (entry "steps" (array (step_elems p.steps)) no_fields))

strings-str_elems : (ss : List String) → strings (items_of (str_elems ss)) ≡ ss
unfolding strings str_elems
strings-str_elems [] = refl
strings-str_elems (s ∷ ss) = ap (◌∷◌ s) (strings-str_elems ss)

non_empty-some : (s : String) → s ≢ "" → non_empty (some s) ≡ some s
non_empty-some s h = ground (arith, eq_iff s "")

non_empty-tool : (o : Option String) → o ≢ some "" → non_empty (as_string (some (tool_json o))) ≡ o
unfolding as_string
non_empty-tool none h = refl
non_empty-tool (some t) h = non_empty-some t (λ e. h (ap some e))

args_of-json :
    (o : Option Json)
    → ((v : Json) → o ≡ some v → is_object_type v ≡ true)
    → args_of (some (args_json o)) ≡ o
unfolding is_object_type
args_of-json none h = refl
args_of-json (some v) h = rw (h v refl)

parse_step-json : (s : PlanStep) → IsFresh s → parse_step (step_json s) ≡ ok s
unfolding parse_step step_json member field as_string is_object_type
parse_step-json s f =
    rw (non_empty-some s.id f.id, non_empty-some s.goal f.goal)
      (rw (non_empty-tool s.tool f.tool, args_of-json s.args f.args, strings-str_elems s.depends_on)
        (ground arith))

parse_steps-json :
    (steps : List PlanStep)
    → All IsFresh steps
    → parse_steps (items_of (step_elems steps)) ≡ ok steps
unfolding parse_steps step_elems
parse_steps-json [] f = refl
parse_steps-json (s ∷ ss) f = rw (parse_step-json s f.0) (rw (parse_steps-json ss f.1) refl)

steps_of-json :
    (ss : List PlanStep)
    → ss ≢ []
    → steps_of (some (array (step_elems ss))) ≡ some (items_of (step_elems ss))
unfolding step_elems
steps_of-json [] n = absurd (n refl)
steps_of-json (s ∷ ss) n = refl

-- An answer written in the schema of the planner's prompt is read back as the plan that it
-- describes: its steps and their order, tools, arguments and dependencies, and its rationale, under
-- the generated id.
pub parse_plan-json :
    (p : Plan)
    → p.steps ≢ []
    → All IsFresh p.steps
    → p.parent_plan_id ≡ none
    → parse_plan p.id (some (plan_json p)) ≡ ok p
unfolding parse_plan plan_json member field as_string is_object_type
parse_plan-json p n f e =
    rw (steps_of-json p.steps n) (rw (parse_steps-json p.steps f) (ground arith))
