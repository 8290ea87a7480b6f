-- ===== src/React/Calls.antt =====
-- `executeTool` and the calls of a step.
use agent_ego.Base.{
  ℕ, ◌+◌, not, List, [], ◌∷◌, Option, none, some, String, ◌<>◌, or_else, str_eq, ltb, leb,
  if◌then◌else◌,
}
use agent_ego.Base.Dict
use agent_ego.Base.Dict.{Dict}
use agent_ego.Base.Json.{Json, object, no_fields}
use agent_ego.Base.Result.{Result, ok, err}
use agent_ego.Plan.{ToolResult}
use agent_ego.Plan.Retry.{allowed, refused}
use agent_ego.Reasoning.{tool_exhaustion, assistant, tool, ToolCallRef, CompletionMessage}
use agent_ego.React.{
  PendingToolCall, FailureReason, no_executor, invalid_args, permission_denied, no_policy,
  transient, exhausted, ToolObservation, tool_call, observation, ReactEnv, ReactState, Flow, go_on,
  stop, threw, State, is_success, yield_step, terminate,
}

pub record CallsRun (W : Type 0) : Type 0 where
  pub state : ReactState W
  pub executed : List (PendingToolCall × String)
  pub flow : Flow

abbrev pub refs : List (PendingToolCall × String) → List ToolCallRef
refs [] = []
refs ((c, _) ∷ cs) = record { id = c.id; name = c.name; arguments = c.args_raw } ∷ refs cs

abbrev pub tool_message : PendingToolCall → String → CompletionMessage
tool_message c text = record {
  role = tool;
  content = text;
  tool_call_id = some c.id;
  tool_name = some c.name;
  tool_calls = [];
}

abbrev pub tool_messages : List (PendingToolCall × String) → List CompletionMessage
tool_messages [] = []
tool_messages ((c, text) ∷ cs) = tool_message c text ∷ tool_messages cs

-- One assistant message with all of the calls that were executed, and one answer for each.
abbrev pub call_messages : String → List (PendingToolCall × String) → List CompletionMessage
call_messages step_text [] = []
call_messages step_text (c ∷ cs) =
    record {
      role = assistant;
      content = step_text;
      tool_call_id = none;
      tool_name = none;
      tool_calls = refs (c ∷ cs);
    }
    ∷ tool_messages (c ∷ cs)

abbrev pub retry_key : PendingToolCall → String
retry_key call = call.name <> ":" <> call.args_raw

module _ {W : Type 0} where
  -- Before the call of the tool.
  abbrev pub spend_call : PendingToolCall → ReactState W → ReactState W
  spend_call call st = yield_step (tool_call call) (record st {
    budget = record st.budget { spent_tool_calls = st.budget.spent_tool_calls + 1 };
  })

  abbrev pub prior_retries : PendingToolCall → ReactState W → ℕ
  prior_retries call st = or_else (Dict.get (retry_key call) st.retry_counts) 0

  -- After it.
  abbrev pub note_observation : PendingToolCall → ToolObservation → ReactState W → ReactState W
  note_observation call o st =
      let counted = Dict.set (retry_key call) (prior_retries call st + 1) st.retry_counts in
      yield_step (observation o)
        (record st { retry_counts = if is_success o then st.retry_counts else counted })

module _ (env : ReactEnv) where
  open env use {World}

  abbrev pub failure : FailureReason → String → ToolObservation
  failure reason text = record { text = text; reason = some reason }

  -- The result of a tool, with the budget of retries that its text tells the model.
  abbrev pub observe_result : ToolResult → ℕ → ℕ → ToolObservation
  observe_result r prior limit =
      if r.success
      then record { text = or_else r.output ""; reason = none }
      else if ltb prior limit
      then failure transient (
          "tool error (retry "
          <> env.show (prior + 1)
          <> "/"
          <> env.show limit
          <> "): "
          <> or_else r.error "unknown")
      else failure exhausted ("tool error (exhausted retries): " <> or_else r.error "unknown")

  -- `try … finally` around the sandbox.
  unfoldable pub use_sandbox :
      env.Sandbox → String → Json → ℕ → ℕ → World → World × Option ToolObservation
  use_sandbox box name args prior limit w =
      let (w1, answer) = env.execute box name args w in
      let (w2, released) = env.release box w1 in
      elim answer [
        | none ↦ (w2, none)
        | some r ↦ (w2, if released then some (observe_result r prior limit) else none)
      ]

  unfoldable pub call_tool : String → Json → ℕ → ℕ → World → World × Option ToolObservation
  call_tool name args prior limit w =
      let (w1, decision) = env.check name args w in
      let (w2, acquired) = env.acquire w1 in
      elim decision [
        | none ↦ (w1, none)
        | some d ↦ elim d [
          | refused reason ↦
              (w1, some (failure permission_denied ("permission denied: " <> reason)))
          | allowed ↦
              if not env.policy_wired
              then (
                w1,
                some (failure no_policy "[tool execution requires sessionPolicy to be wired]"),
              )
              else elim acquired [
                | none ↦ (w2, none)
                | some box ↦ use_sandbox box name args prior limit w2
              ]
        ]
      ]

  -- `JSON.parse` of the arguments, with none for an empty object.
  abbrev pub parse_args : String → Result String Json
  parse_args raw = if str_eq raw "" then ok (object no_fields) else env.parse_json raw

  -- `none` is an exception.
  unfoldable pub execute_tool : PendingToolCall → ℕ → ℕ → World → World × Option ToolObservation
  execute_tool call prior limit w =
      if not env.tools_wired
      then (w, some (failure no_executor "[tool execution not wired]"))
      else elim (parse_args call.args_raw) [
        | err message ↦ (w, some (failure invalid_args ("invalid JSON args: " <> message)))
        | ok args ↦ call_tool call.name args prior limit w
      ]

  -- One call that the budget still allows, and `rest` of the calls after it.
  abbrev pub after_call :
      PendingToolCall → State env → World × Option ToolObservation → CallsRun World → CallsRun World
  after_call call st (w, none) rest = record {
    state = record st { world = w };
    executed = [];
    flow = threw;
  }
  after_call call st (w, some o) rest = record rest { executed = (call, o.text) ∷ rest.executed }

  abbrev pub noted : PendingToolCall → State env → World × Option ToolObservation → State env
  noted call st (w, none) = record st { world = w }
  noted call st (w, some o) = note_observation call o (record st { world = w })

  unfoldable pub run_calls : ℕ → List PendingToolCall → State env → CallsRun World
  run_calls limit [] st = record { state = st; executed = []; flow = go_on }
  run_calls limit (call ∷ calls) st =
      let spent = spend_call call st in
      let answer = execute_tool call (prior_retries call st) limit st.world in
      let rest = run_calls limit calls (noted call spent answer) in
      if leb st.budget.max_tool_calls st.budget.spent_tool_calls
      then record { state = terminate tool_exhaustion st; executed = []; flow = stop }
      else after_call call spent answer rest
