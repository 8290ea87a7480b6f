-- ===== src/React/Loop.antt =====
-- The steps of a turn, and `run`.
use agent_ego.Base.{
  ℕ, zero, suc, ◌+◌, Bool, true, false, ◌&&◌, List, [], ◌∷◌, ◌++◌, map, Option, none, some, String,
  ◌<>◌, or_else, str_eq, any, leb, if◌then◌else◌,
}
use agent_ego.Base.Dict
use agent_ego.Base.Dict.{Dict}
use agent_ego.Reasoning.{
  TerminationReason, final_answer, max_steps_reached, hard_error, user_abort, ReasoningBudget,
  clone_budget, MessageContent, extract_text, CompletionMessage, PriorMessage,
  to_completion_message, user_message, StreamChunk, text_delta, usage_chunk,
}
use agent_ego.Tools.Registry.{ToolDescriptor}
use agent_ego.React.{
  ReactExecutorConfig, thought, final, ReasoningEvent, delta_event, usage_event, final_event,
  step_request, synthesis_request, ReactEnv, Flow, go_on, stop, threw, State, append_step,
  yield_step, terminate, is_tool_step, PendingToolCall,
}
use agent_ego.React.Chunks.{Turn, empty_turn, read_chunks}
use agent_ego.React.Calls.{CallsRun, call_messages, run_calls}

module _ (env : ReactEnv) where
  open env use {World}

  -- The tools of a step, if any can be executed.
  abbrev pub tool_definitions : World → Option (List ToolDescriptor)
  tool_definitions w = elim (env.live_tools w) [
    | [] ↦ none
    | t ∷ ts ↦ if env.tools_wired then some (t ∷ ts) else none
  ]

  abbrev pub think : String → State env → State env
  think step_text st = if str_eq step_text "" then st else append_step (thought step_text) st

  abbrev pub push_messages : String → CallsRun World → State env
  push_messages step_text run = record run.state {
    messages = run.state.messages ++ call_messages step_text run.executed;
  }

  -- The step after a stream that ended, with these calls of tools.
  unfoldable pub act : ℕ → List PendingToolCall → String → State env → State env × Flow
  act limit [] step_text st = (
    terminate final_answer (yield_step (final step_text) (record st { final_text = step_text })),
    stop,
  )
  act limit (call ∷ calls) step_text st =
      let run = run_calls env limit (call ∷ calls) (think step_text st) in
      elim run.flow [
        | threw ↦ (run.state, threw)
        | stop ↦ (push_messages step_text run, stop)
        | go_on ↦ (push_messages step_text run, go_on)
      ]

  -- A step whose stream yielded `turn`.
  abbrev pub end_stream : ℕ → Turn → Bool → State env → State env × Flow
  end_stream limit turn throws st =
      let told = record st { events = st.events ++ turn.events } in
      if turn.interrupted
      then (terminate user_abort told, stop)
      else if throws
      then (told, threw)
      else act limit (Dict.values turn.pending) turn.step_text told

  abbrev pub begin_step : World → State env → State env
  begin_step w st = record st {
    world = w;
    budget = record st.budget { spent_steps = st.budget.spent_steps + 1 };
  }

  -- The body of the loop.
  unfoldable pub react_step : ℕ → State env → State env × Flow
  react_step limit st =
      let (w, abort) = env.aborted st.world in
      let s = env.stream (step_request st.messages (tool_definitions w)) w in
      if abort
      then (terminate user_abort (record st { world = w }), stop)
      else end_stream limit (read_chunks s.1.chunks empty_turn) s.1.throws (begin_step s.0 st)

  -- The `while` loop, for `rounds` rounds at most.
  unfoldable pub react_loop : ℕ → ℕ → State env → State env × Flow
  react_loop zero limit st = (st, go_on)
  react_loop (suc rounds) limit st =
      let (st1, flow) = react_step limit st in
      let rest = react_loop rounds limit st1 in
      if leb st.budget.max_steps st.budget.spent_steps
      then (st, go_on)
      else elim flow [ go_on ↦ rest | stop ↦ (st1, stop) | threw ↦ (st1, threw) ]

  -- A reason that is there stays.
  unfoldable pub set_reason : State env → State env
  set_reason st =
      let default =
        if leb st.budget.max_steps st.budget.spent_steps then max_steps_reached else hard_error in
      terminate (or_else st.termination default) st

  abbrev pub wants_synthesis : Option TerminationReason → Bool
  wants_synthesis (some user_abort) = false
  wants_synthesis (some final_answer) = false
  wants_synthesis _ = true

  abbrev pub should_synthesize : State env → Bool
  should_synthesize st =
      str_eq st.final_text "" && wants_synthesis st.termination && any is_tool_step st.trace

  -- `synthesizeFromTrace`: only texts and usages count, and the abort signal is not looked at.
  unfoldable pub read_synthesis :
      List (StreamChunk × Bool) → String → List ReasoningEvent → String × List ReasoningEvent
  read_synthesis [] text events = (text, events)
  read_synthesis ((text_delta delta, _) ∷ chunks) text events =
      read_synthesis chunks (text <> delta) (events ++ delta_event delta ∷ [])
  read_synthesis ((usage_chunk u, _) ∷ chunks) text events =
      read_synthesis chunks text (events ++ usage_event u ∷ [])
  read_synthesis (_ ∷ chunks) text events = read_synthesis chunks text events

  unfoldable pub synthesize_from_trace : List CompletionMessage → State env → State env × Bool
  synthesize_from_trace messages st =
      let (w, s) = env.stream (synthesis_request st.trace st.termination messages) st.world in
      let (text, events) = read_synthesis s.chunks "" st.events in
      if s.throws then (record st { world = w; events = events }, false) else (
        append_step (final text) (record st { world = w; events = events; final_text = text }),
        true,
      )

  -- After the loop; the flag is false for an exception.
  unfoldable pub finish : List CompletionMessage → State env → State env × Bool
  finish messages st =
      let reasoned = set_reason st in
      let (st1, done) =
        if should_synthesize reasoned
        then synthesize_from_trace messages reasoned
        else (reasoned, true) in
      if done
      then (
        record st1 { events = st1.events ++ final_event st1.final_text st1.termination ∷ [] },
        true,
      )
      else (st1, false)

  abbrev pub configure : ReactExecutorConfig → ReasoningBudget → ReasoningBudget
  configure config b = record b {
    max_steps = or_else config.max_steps b.max_steps;
    max_tool_calls = or_else config.max_tool_calls b.max_tool_calls;
  }

  abbrev pub initial_messages : List PriorMessage → MessageContent → List CompletionMessage
  initial_messages prior content =
      map to_completion_message prior ++ user_message (extract_text "[media]" content) ∷ []

  abbrev pub initial_state : ReasoningBudget → List CompletionMessage → World → State env
  initial_state budget messages w = record {
    world = w;
    budget = budget;
    trace = [];
    messages = messages;
    retry_counts = [];
    events = [];
    termination = none;
    final_text = "";
  }

  -- As many rounds as the budget has steps left; the flag is false for an exception.
  unfoldable pub run :
      ReactExecutorConfig
      → Option ReasoningBudget
      → List PriorMessage
      → MessageContent
      → World
      → State env × Bool
  run config given prior content w =
      let budget = configure config (clone_budget given) in
      let messages = initial_messages prior content in
      let (st, flow) =
        react_loop budget.max_steps (or_else config.tool_retry_limit 2)
          (initial_state budget messages w) in
      elim flow [ threw ↦ (st, false) | _ ↦ finish messages st ]
