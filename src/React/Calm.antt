-- ===== src/React/Calm.antt =====
-- When a turn ends with no exception.
use agent_ego.Base.{
  ℕ, zero, suc, ◌≡◌, ◌≢◌, refl, Bool, true, false, List, [], ◌∷◌, Option, none, some, String,
  or_else, leb, Bool-cases, Option-cases, inl, inr,
}
use agent_ego.Base.Dict
use agent_ego.Base.Dict.{Dict}
use agent_ego.Base.Json.{Json}
use agent_ego.Base.Result.{Result-cases}
use agent_ego.Reasoning.{
  ReasoningBudget, clone_budget, MessageContent, CompletionMessage, PriorMessage,
}
use agent_ego.React.{
  ReactExecutorConfig, PendingToolCall, ToolObservation, Request, step_request, synthesis_request,
  ReactEnv, threw, State, Flow-cases,
}
use agent_ego.React.Chunks.{Turn, empty_turn, read_chunks}
use agent_ego.React.Calls.{
  CallsRun, spend_call, noted, after_call, execute_tool, call_tool, use_sandbox, parse_args,
  prior_retries, run_calls,
}
use agent_ego.React.Loop.{
  think, act, end_stream, begin_step, react_step, react_loop, set_reason, should_synthesize,
  synthesize_from_trace, finish, configure, run, initial_state, initial_messages, tool_definitions,
}
use agent_ego.Plan.Retry.{allowed, refused}
use agent_ego.React.Ending.{Ended, run-Ended}

-- No call to the surroundings throws, once streams and tools are what they answer.
pub record Calm (env : ReactEnv) : Type 0 where
  pub streams : (q : Request) (w : env.World) → (env.stream q w).1.throws ≡ false
  pub checks : (name : String) (args : Json) (w : env.World) → (env.check name args w).1 ≢ none
  pub acquires : (w : env.World) → (env.acquire w).1 ≢ none
  pub executes :
      (box : env.Sandbox) (name : String) (args : Json) (w : env.World)
      → (env.execute box name args w).1 ≢ none
  pub releases : (box : env.Sandbox) (w : env.World) → (env.release box w).1 ≡ true

module _ (env : ReactEnv) (calm : Calm env) where
  open env use {World}

  use_sandbox-some :
      (box : env.Sandbox) (name : String) (args : Json) (prior limit : ℕ) (w : World)
      → (use_sandbox env box name args prior limit w).1 ≢ none
  unfolding use_sandbox
  use_sandbox-some box name args prior limit w =
      let r = env.execute box name args w in
      elim (Option-cases r.1) [
        | inl e ↦ absurd (calm.executes box name args w e)
        | inr (x, e) ↦ rw (e, use_sandbox, calm.releases box r.0) (λ n. cc)
      ]

  call_tool-some :
      (name : String) (args : Json) (prior limit : ℕ) (w : World)
      → (call_tool env name args prior limit w).1 ≢ none
  unfolding call_tool
  call_tool-some name args prior limit w =
      let r = env.check name args w in
      elim (Option-cases r.1) [
        | inl e ↦ absurd (calm.checks name args w e)
        | inr (refused reason, e) ↦ rw (e, call_tool) (λ n. cc)
        | inr (allowed, e) ↦ elim (Bool-cases env.policy_wired) [
          | inr p ↦ rw (e, call_tool, p) (λ n. cc)
          | inl p ↦ elim (Option-cases (env.acquire r.0).1) [
            | inl f ↦ absurd (calm.acquires r.0 f)
            | inr (box, f) ↦
                rw (e, call_tool, p, f)
                  (use_sandbox-some box name args prior limit (env.acquire r.0).0)
          ]
        ]
      ]

  execute_tool-some :
      (c : PendingToolCall) (prior limit : ℕ) (w : World)
      → (execute_tool env c prior limit w).1 ≢ none
  unfolding execute_tool
  execute_tool-some c prior limit w = elim (Bool-cases env.tools_wired) [
    | inr p ↦ rw (p, execute_tool) (λ n. cc)
    | inl p ↦ elim (Result-cases (parse_args env c.args_raw)) [
      | inl (m, e) ↦ rw (p, e, execute_tool) (λ n. cc)
      | inr (args, e) ↦ rw (p, e, execute_tool) (call_tool-some c.name args prior limit w)
    ]
  ]

  after_call-flow :
      (c : PendingToolCall) (st : State env) (answer : World × Option ToolObservation)
      → (rest : CallsRun World) → answer.1 ≢ none
      → rest.flow ≢ threw
      → (after_call env c st answer rest).flow ≢ threw
  after_call-flow c st (w, none) rest n h = absurd (n refl)
  after_call-flow c st (w, some o) rest n h = h

  run_calls-flow :
      (limit : ℕ) (cs : List PendingToolCall) (st : State env)
      → (run_calls env limit cs st).flow ≢ threw
  unfolding run_calls
  run_calls-flow limit [] st = λ n. cc
  run_calls-flow limit (c ∷ cs) st =
      let begun = spend_call c st in
      let answer = execute_tool env c (prior_retries c st) limit st.world in
      let next = noted env c begun answer in
      elim (Bool-cases (leb st.budget.max_tool_calls st.budget.spent_tool_calls)) [
        | inl e ↦ rw e (λ n. cc)
        | inr e ↦ rw e (
            after_call-flow c begun answer (run_calls env limit cs next)
              (execute_tool-some c (prior_retries c st) limit st.world)
              (run_calls-flow limit cs next))
      ]

  act-flow :
      (limit : ℕ) (cs : List PendingToolCall) (text : String) (st : State env)
      → (act env limit cs text st).1 ≢ threw
  unfolding act
  act-flow limit [] text st = λ n. cc
  act-flow limit (c ∷ cs) text st =
      let r = run_calls env limit (c ∷ cs) (think env text st) in
      elim (Flow-cases r.flow) [
        | inl f ↦ rw (f, act) (λ n. cc)
        | inr (inl f) ↦ rw (f, act) (λ n. cc)
        | inr (inr f) ↦ absurd (run_calls-flow limit (c ∷ cs) (think env text st) f)
      ]

  end_stream-flow :
      (limit : ℕ) (turn : Turn) (throws : Bool) (st : State env)
      → throws ≡ false
      → (end_stream env limit turn throws st).1 ≢ threw
  end_stream-flow limit turn throws st h = elim (Bool-cases turn.interrupted) [
    | inl e ↦ simp e (λ n. cc)
    | inr e ↦ simp (e, h) (act-flow limit (Dict.values turn.pending) turn.step_text _)
  ]

  react_step-flow : (limit : ℕ) (st : State env) → (react_step env limit st).1 ≢ threw
  unfolding react_step
  react_step-flow limit st =
      let w = (env.aborted st.world).0 in
      let q = step_request st.messages (tool_definitions env w) in
      let s = env.stream q w in
      elim (Bool-cases (env.aborted st.world).1) [
        | inl e ↦ simp e (λ n. cc)
        | inr e ↦ simp e (
            end_stream-flow limit (read_chunks s.1.chunks empty_turn) s.1.throws
              (begin_step env s.0 st) (calm.streams q w))
      ]

  react_loop-flow : (rounds limit : ℕ) (st : State env) → (react_loop env rounds limit st).1 ≢ threw
  unfolding react_loop
  react_loop-flow zero limit st = λ n. cc
  react_loop-flow (suc rounds) limit st =
      let r = react_step env limit st in
      elim (Bool-cases (leb st.budget.max_steps st.budget.spent_steps)) [
        | inl e ↦ rw e (λ n. cc)
        | inr e ↦ elim (Flow-cases r.1) [
          | inl f ↦ rw (e, f) (react_loop-flow rounds limit r.0)
          | inr (inl f) ↦ rw (e, f) (λ n. cc)
          | inr (inr f) ↦ absurd (react_step-flow limit st f)
        ]
      ]

  synthesize_returns :
      (ms : List CompletionMessage) (st : State env) → (synthesize_from_trace env ms st).1 ≡ true
  unfolding synthesize_from_trace
  synthesize_returns ms st =
      simp (calm.streams (synthesis_request st.trace st.termination ms) st.world) refl

  finish_returns : (ms : List CompletionMessage) (st : State env) → (finish env ms st).1 ≡ true
  unfolding finish
  finish_returns ms st =
      let reasoned = set_reason env st in
      elim (Bool-cases (should_synthesize env reasoned)) [
        | inl e ↦ rw (e, synthesize_returns ms reasoned, finish) refl
        | inr e ↦ rw (e, finish) refl
      ]

  -- Where no call to the surroundings throws, a turn returns: it yields one final event, as its last,
  -- with the final text and with a reason for the end of the turn, which is never `hard_error`.
  pub run_returns :
      (config : ReactExecutorConfig) (given : Option ReasoningBudget) (prior : List PriorMessage)
      → (content : MessageContent) (w : World)
      → let r = run env config given prior content w in (r.1 ≡ true) × Ended env r.0
  unfolding run
  run_returns config given prior content w =
      let b = configure env config (clone_budget given) in
      let messages = initial_messages env prior content in
      let st = initial_state env b messages w in
      let limit = or_else config.tool_retry_limit 2 in
      let r = react_loop env b.max_steps limit st in
      let returns : (run env config given prior content w).1 ≡ true = elim (Flow-cases r.1) [
        | inl f ↦ rw (f, run) (finish_returns messages r.0)
        | inr (inl f) ↦ rw (f, run) (finish_returns messages r.0)
        | inr (inr f) ↦ absurd (react_loop-flow b.max_steps limit st f)
      ] in
      (returns, run-Ended env config given prior content w returns)
