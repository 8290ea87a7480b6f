-- ===== src/React/Tests.antt =====
-- A turn on concrete data.
use agent_ego.Base.{ℕ, zero, suc, ◌+◌, ◌≡◌, refl, Bool, true, false, List, [], ◌∷◌, none, some}
use agent_ego.Base.Dict
use agent_ego.Base.Dict.{Dict, str_eq_refl}
use agent_ego.Base.Json.{object, no_fields}
use agent_ego.Base.Result.{ok}
use agent_ego.Reasoning.{
  clone_budget, text_content, PriorMessage, extract_text, user, StreamChunk, text_delta,
  tool_call_start, tool_call_delta, tool_call_end, done_chunk,
}
use agent_ego.React.{ReactExecutorConfig, ReactEnv}
use agent_ego.React.Chunks.{read_chunks, handle_chunk}
use agent_ego.React.Calls.{execute_tool, call_tool, use_sandbox, run_calls}
use agent_ego.React.Loop.{
  act, react_step, react_loop, set_reason, finish, configure, run, initial_state, initial_messages,
}
use agent_ego.Plan.Retry.{allowed}
use agent_ego.Plan.{ToolResult}
use agent_ego.React.Budget.{Within, run-Within}
use agent_ego.React.Calm.{Calm, run_returns}
use agent_ego.React.Ending.{Ended}
use agent_ego.React.Pairing.{Paired, run-Paired}
use agent_ego.React.Protocol.{Answered, react_loop-Answered}

-- The first answer calls a tool, the second does not.
abbrev script : ℕ → List (StreamChunk × Bool)
script zero =
    (text_delta "look", false)
    ∷ (tool_call_start "1" "search", false)
    ∷ (tool_call_delta "1" "{}", false)
    ∷ (tool_call_end "1", false)
    ∷ []
script (suc n) = (text_delta "found", false) ∷ (done_chunk "end_turn", false) ∷ []

abbrev found : ToolResult
found = record { tool_name = "search"; success = true; output = some "two"; error = none }

-- The state is the number of answers that the model has given.
abbrev scripted : ReactEnv
scripted = record {
  World = ℕ;
  Sandbox = Unit;
  tools_wired = true;
  policy_wired = true;
  live_tools = λ w. [];
  aborted = λ w. (w, false);
  stream = λ q w. (w + 1, record { chunks = script w; throws = false });
  parse_json = λ s. ok (object no_fields);
  check = λ name args w. (w, some allowed);
  acquire = λ w. (w, some tt);
  execute = λ box name args w. (w, some found);
  release = λ box w. (w, true);
  show = λ n. "n";
}

abbrev defaults : ReactExecutorConfig
defaults = record { max_steps = none; max_tool_calls = none; tool_retry_limit = none }

abbrev earlier : List PriorMessage
earlier = record { role = user; content = "hello"; tool_call_id = none; tool_name = none } ∷ []

finds : (run scripted defaults none earlier (text_content "how many?") 0).0.final_text ≡ "found"
unfolding run react_loop react_step read_chunks handle_chunk act run_calls execute_tool call_tool
    use_sandbox finish set_reason extract_text Dict.values Dict.get Dict.set
finds = refl

scripted-Calm : Calm scripted
scripted-Calm = record {
  streams = λ q w. refl;
  checks = λ name args w n. cc;
  acquires = λ w n. cc;
  executes = λ box name args w n. cc;
  releases = λ box w. refl;
}

run-Within_example :
    Within
      (configure scripted defaults (clone_budget none))
      (run scripted defaults none earlier (text_content "how many?") 0).0
run-Within_example = run-Within scripted defaults none earlier (text_content "how many?") 0

run_returns_example :
    let r = run scripted defaults none earlier (text_content "how many?") 0 in
    (r.1 ≡ true) × Ended scripted r.0
run_returns_example =
    run_returns scripted scripted-Calm defaults none earlier (text_content "how many?") 0

react_loop-Answered_example :
    let messages = initial_messages scripted earlier (text_content "how many?") in
    Answered
      (react_loop scripted 2 2 (initial_state scripted (clone_budget none) messages 0)).0.messages
react_loop-Answered_example =
    react_loop-Answered scripted 2 2 (clone_budget none) earlier (text_content "how many?") 0
      ((λ n. cc), tt)

returns : (run scripted defaults none earlier (text_content "how many?") 0).1 ≡ true
returns = (run_returns scripted scripted-Calm defaults none earlier (text_content "how many?") 0).0

run-Paired_example : Paired (run scripted defaults none earlier (text_content "how many?") 0).0
run-Paired_example = run-Paired scripted defaults none earlier (text_content "how many?") 0 returns
