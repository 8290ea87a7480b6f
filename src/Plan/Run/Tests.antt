-- ===== src/Plan/Run/Tests.antt =====
-- A planner that plans one step, whose tool fails until the plan is made a second time.
use agent_ego.Base.{ℕ, ◌+◌, ◌≡◌, refl, true, false, [], ◌∷◌, none, some, ltb}
use agent_ego.Reasoning.{text_delta, text_content}
use agent_ego.Plan.Parse.{parse_plan}
use agent_ego.Plan.Retry.{Env, allowed}
use agent_ego.Plan.Execute.{execute_plan}
use agent_ego.Plan.Preserve.{preserve_prior_successes}
use agent_ego.Plan.Run.{PlanExecuteConfig, Context, PlanEnv, read_text}
use agent_ego.Plan.Run.Turn.{
  call_planner, adopt, synthesize_final, conclude, run_round, execution_loop, run_plan, run,
}
use agent_ego.Base.Json.{
  is_object_type, as_string, member, field, Json, object, array, json_text, entry as json_entry,
  no_fields, item, no_items,
}
use agent_ego.Plan.Levels.{compute_levels}
use agent_ego.Plan.Execute.{run_level, prefilter, visit}
use agent_ego.Plan.Retry.{execute_step, run_tool, in_sandbox}
use agent_ego.Plan.Run.Events.{Fine, plans_of}
use agent_ego.Plan.Run.Answers.{run-Fine}

-- `{ rationale: 'once more', steps: [{ id: 'build', goal: 'work', tool: 'make' }] }`.
abbrev build_json : Json
build_json = object (
    json_entry "rationale" (json_text "once more") (
      json_entry "steps"
        (array (
          item
            (object (
              json_entry "id" (json_text "build") (
                json_entry "goal" (json_text "work")
                  (json_entry "tool" (json_text "make") no_fields))))
            no_items))
        no_fields))

-- The state is the number of calls of the planner.
abbrev flaky : Env
flaky = record {
  World = ℕ;
  Sandbox = Unit;
  wired = true;
  aborted = λ w. (w, false);
  check = λ tool args w. (w, some allowed);
  acquire = λ w. (w, some tt);
  execute = λ box tool args w.
      (w, some (record { tool_name = tool; success = ltb 1 w; output = none; error = none }));
  release = λ box w. (w, true);
}

abbrev twice : PlanEnv
twice = record {
  tools = flaky;
  FallbackEvent = Unit;
  read_json = λ text. some build_json;
  generate_id = λ w. (w, "1");
  planner = λ q w. (w + 1, text_delta "{}" ∷ [], false);
  actor = λ p w. (w, text_delta "built" ∷ [], false);
  matcher = none;
  fallback = λ budget content w. (w, [], true);
  show = λ n. "n";
}

abbrev once : PlanExecuteConfig
once = record { step_retry_limit = none; replan_limit = some 1; parallel_execution = false }

abbrev ask : Context
ask = record {
  content = text_content "build it";
  budget = none;
  relevance = none;
  goal_updates = [];
}

two_plans : plans_of (run twice once ask 0).trace ≡ 2
unfolding run run_plan execution_loop run_round call_planner read_text adopt conclude
    synthesize_final plans_of parse_plan is_object_type as_string member field execute_plan
    compute_levels run_level prefilter visit execute_step run_tool in_sandbox
    preserve_prior_successes
two_plans = refl

run-Fine_example : Fine twice 1 (run twice once ask 0)
run-Fine_example = run-Fine twice once ask 0
