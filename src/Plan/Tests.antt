-- ===== src/Plan/Tests.antt =====
-- Runs on a small plan: build, then test, then a step that needs no tool; the world counts sandboxes.
use mathlib.Core.List.{Perm, flatten}
use agent_ego.Base.{
  ℕ, zero, suc, ◌+◌, ◌≤◌, ◌≡◌, ◌≢◌, refl, true, false, List, [], ◌∷◌, none, some, String, arith,
  All, length, if◌then◌else◌, str_eq, eq_iff,
}
use agent_ego.Base.Result.{ok}
use agent_ego.Plan.{PlanStep, Plan, pending, success, number}
use agent_ego.Plan.Levels.{compute_levels}
use agent_ego.Plan.Levels.Order.{flatten-compute_levels-perm, Layered, compute_levels-Layered}
use agent_ego.Plan.Parse.{parse_plan}
use agent_ego.Plan.Parse.RoundTrip.{IsFresh, parse_plan-IsFresh, parse_plan-json, plan_json}
use agent_ego.Plan.Retry.{Env, allowed, run_step_with_retries, execute_step}
use agent_ego.Plan.Retry.Attempts.{Ended, Counts, run_step_with_retries-Ended, held-execute_step}
use agent_ego.Plan.Execute.{execute_plan, success_all, partial}
use agent_ego.Plan.Execute.Kept.{is_good}
use agent_ego.Plan.Execute.Settled.{execute_plan-Settled}
use agent_ego.Plan.Execute.Cycles.{mutual_dependency_runs, pair}

abbrev with_tool : String → String → List String → PlanStep
with_tool id tool deps = record {
  id = id;
  goal = "work";
  tool = some tool;
  args = none;
  depends_on = deps;
  status = pending;
  observation = none;
}

abbrev build_and_test : List PlanStep
build_and_test = with_tool "build" "make" [] ∷ with_tool "test" "npm" ("build" ∷ []) ∷ []

-- A sandbox is no more than a count; the tool "make" succeeds and every other one fails.
abbrev pred : ℕ → ℕ
pred zero = zero
pred (suc n) = n

abbrev counting : Env
counting = record {
  World = ℕ;
  Sandbox = Unit;
  wired = true;
  aborted = λ w. (w, false);
  check = λ tool args w. (w, some allowed);
  acquire = λ w. (w + 1, some tt);
  execute = λ b tool args w. (
    w,
    some (record { tool_name = tool; success = str_eq tool "make"; output = none; error = none }),
  );
  release = λ b w. (pred w, true);
}

flatten-compute_levels-perm_example :
    Perm (flatten (compute_levels build_and_test)) (number 0 build_and_test)
flatten-compute_levels-perm_example = flatten-compute_levels-perm build_and_test

compute_levels-Layered_example : Layered [] (compute_levels build_and_test)
compute_levels-Layered_example = compute_levels-Layered build_and_test

-- The rank of a step by its id.
rank : String → ℕ
rank id = if str_eq id "test" then 1 else 0

run_step_with_retries-Ended_example :
    Ended counting 2
      (with_tool "test" "npm" [])
      (run_step_with_retries counting 2 (with_tool "test" "npm" []) 0)
run_step_with_retries-Ended_example =
    run_step_with_retries-Ended counting 2 (with_tool "test" "npm" []) 0

execute_plan-Settled_example :
    let r = execute_plan counting true 1 build_and_test 0 in
    (r.outcome ≢ partial)
    × (r.outcome ≡ success_all
        → (length r.store ≡ length build_and_test) × All (λ s. is_good s.status ≡ true) r.store)
execute_plan-Settled_example =
    execute_plan-Settled counting true 1 build_and_test 0 (refl, (refl, tt))

abbrev make_plan : Plan
make_plan = record {
  id = "p";
  steps = with_tool "build" "make" [] ∷ [];
  parent_plan_id = none;
  rationale = "because";
}

build-IsFresh : IsFresh (with_tool "build" "make" [])
build-IsFresh = record {
  id = λ e. ground (arith, eq_iff "build" "");
  goal = λ e. ground (arith, eq_iff "work" "");
  tool = λ e. ground (arith, eq_iff "make" "");
  status = refl;
  observation = refl;
  args = λ v e. cc;
}

parse_plan-json_example : parse_plan "p" (some (plan_json make_plan)) ≡ ok make_plan
parse_plan-json_example = parse_plan-json make_plan (λ e. cc) (build-IsFresh, tt) refl

parse_make_plan : parse_plan "p" (some (plan_json make_plan)) ≡ ok make_plan
parse_make_plan = parse_plan-json make_plan (λ e. cc) (build-IsFresh, tt) refl

parse_plan-IsFresh_example :
    (make_plan.steps ≢ [])
    × All IsFresh make_plan.steps
    × (make_plan.id ≡ "p")
    × (make_plan.parent_plan_id ≡ none)
parse_plan-IsFresh_example =
    parse_plan-IsFresh "p" (some (plan_json make_plan)) make_plan parse_make_plan

pred_add_one : (w : ℕ) → 1 ≤ w → pred w + 1 ≡ w
pred_add_one zero h = absurd (omega arith)
pred_add_one (suc w) h = omega arith

counting-Counts : Counts counting (λ w. w)
counting-Counts = record {
  check = λ tool args w. refl;
  execute = λ b tool args w. refl;
  refused_one = λ w e. cc;
  acquired_one = λ w b e. refl;
  released = λ b w h. pred_add_one w h;
}

held-execute_step_example : (execute_step counting (with_tool "build" "make" []) 3).0 ≡ 3
held-execute_step_example =
    held-execute_step counting (λ w. w) counting-Counts (with_tool "build" "make" []) 3

a_ne_b : ◌≢◌ {A = String} "a" "b"
a_ne_b e = ground (arith, eq_iff "a" "b")

mutual_dependency_runs_example :
    let r = execute_plan counting false 1 (pair "a" "b" "left" "right" a_ne_b) 0 in
    (r.outcome ≡ success_all) × All (λ s. s.status ≡ success) r.store
mutual_dependency_runs_example =
    mutual_dependency_runs "a" "b" "left" "right" a_ne_b counting 1 0 refl
