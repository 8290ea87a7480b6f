-- ===== src/Hybrid/Tests.antt =====
-- A planner that plans nothing, so that the turn is handed over to the ReAct reasoner.
use agent_ego.Base.{◌≡◌, refl, ◌+◌, ℕ, true, false, [], ◌∷◌, none, some, String}
use agent_ego.Base.Json.{object, no_fields}
use agent_ego.Base.Result.{err}
use agent_ego.Reasoning.{plan_execute, text_content, text_delta, extract_text}
use agent_ego.Plan.Retry.{allowed}
use agent_ego.Plan.Parse.{parse_plan}
use agent_ego.Plan.Run.{read_text}
use agent_ego.Plan.Run.Turn
use agent_ego.Plan.Run.Turn.{call_planner, downgrade_on_plan_error}
use agent_ego.Tools.Registry.{ToolDescriptor}
use agent_ego.React.{ReactEnv}
use agent_ego.React.Chunks.{read_chunks, handle_chunk}
use agent_ego.React.Loop
use agent_ego.React.Loop.{react_loop, react_step, act, finish, set_reason}
use agent_ego.Base.Dict
use agent_ego.Hybrid.{
  RouterConfig, high, direct_answer, select, HybridConfig, HybridEnv, HybridContext, effective_mode,
  run,
}
use agent_ego.Hybrid.Closing.{Closed, run-Closed}

abbrev defaults : RouterConfig
defaults = record { sentence_threshold = none; imperative_threshold = none; tool_threshold = none }

abbrev search : ToolDescriptor
search = record { name = "search"; description = "finds"; input_schema = object no_fields }

-- The state is the number of answers of the models.
abbrev talker : ReactEnv
talker = record {
  World = ℕ;
  Sandbox = Unit;
  tools_wired = true;
  policy_wired = true;
  live_tools = λ w. search ∷ [];
  aborted = λ w. (w, false);
  stream = λ q w. (w + 1, record { chunks = (text_delta "hello", false) ∷ []; throws = false });
  parse_json = λ s. err "no JSON";
  check = λ name args w. (w, some allowed);
  acquire = λ w. (w, some tt);
  execute = λ box name args w. (w, none);
  release = λ box w. (w, true);
  show = λ n. "n";
}

abbrev count : String → ℕ
count text = 1

abbrev hybrid : HybridEnv
hybrid = record {
  react = talker;
  generate_id = λ w. (w, "1");
  planner = λ q w. (w + 1, text_delta "no plan" ∷ [], false);
  actor = λ p w. (w + 1, [], false);
  matcher = none;
  router = select count count defaults;
}

abbrev settings : HybridConfig
settings = record {
  react = record { max_steps = none; max_tool_calls = none; tool_retry_limit = none };
  plan_execute = record {
    step_retry_limit = none;
    replan_limit = none;
    parallel_execution = false;
  };
  disable_plan_execute = false;
}

abbrev hard_question : HybridContext
hard_question = record {
  turn = record {
    content = text_content "compare";
    budget = none;
    relevance = none;
    goal_updates = [];
  };
  prior = [];
  available_tools = search ∷ [];
  ego_perception = some (record { request_type = direct_answer; estimated_complexity = high });
}

returns : (run hybrid settings hard_question 0).returned ≡ true
unfolding run effective_mode select Turn.run call_planner read_text parse_plan
    downgrade_on_plan_error Loop.run react_loop react_step act finish set_reason read_chunks
    handle_chunk Dict.values extract_text
returns = refl

run-Closed_example : Closed (run hybrid settings hard_question 0).events
run-Closed_example = run-Closed hybrid settings hard_question 0 returns
