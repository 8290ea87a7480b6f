-- ===== src/React/Budget.antt =====
-- The budgets of a turn, and that it ends.
use agent_ego.Base.{
  ℕ, zero, suc, ◌+◌, ◌-◌, ◌≤◌, ◌≡◌, refl, Bool, false, List, [], ◌∷◌, ◌++◌, Option, none, some,
  String, or_else, leb, arith, Bool-cases, inl, inr, str_eq,
}
use agent_ego.Base.Dict
use agent_ego.Base.Dict.{Dict}
use agent_ego.Reasoning.{
  ReasoningBudget, clone_budget, MessageContent, CompletionMessage, PriorMessage,
}
use agent_ego.React.{
  ReactExecutorConfig, PendingToolCall, ToolObservation, TraceStep, thought, tool_call, observation,
  final, step_request, synthesis_request, ReactEnv, ReactState, State, Flow-cases,
}
use agent_ego.React.Chunks.{Turn, empty_turn, read_chunks}
use agent_ego.React.Calls.{
  CallsRun, note_observation, spend_call, noted, after_call, execute_tool, prior_retries, run_calls,
}
use agent_ego.React.Loop.{
  think, act, end_stream, begin_step, react_step, react_loop, set_reason, should_synthesize,
  synthesize_from_trace, read_synthesis, finish, configure, run, initial_state, initial_messages,
  tool_definitions,
}

-- The calls of tools in a trace.
unfoldable pub calls_of : List TraceStep → ℕ
calls_of [] = 0
calls_of (tool_call c ∷ t) = suc (calls_of t)
calls_of (thought x ∷ t) = calls_of t
calls_of (observation x ∷ t) = calls_of t
calls_of (final x ∷ t) = calls_of t

calls_of-append : (t u : List TraceStep) → calls_of (t ++ u) ≡ calls_of t + calls_of u
unfolding calls_of
calls_of-append [] u = omega arith
calls_of-append (tool_call c ∷ t) u = omega (arith, calls_of-append t u)
calls_of-append (thought x ∷ t) u = calls_of-append t u
calls_of-append (observation x ∷ t) u = calls_of-append t u
calls_of-append (final x ∷ t) u = calls_of-append t u

-- The state of a turn that began with budget `b`.
pub record Within (b : ReasoningBudget) {W : Type 0} (st : ReactState W) : Type 0 where
  pub same_steps : st.budget.max_steps ≡ b.max_steps
  pub same_calls : st.budget.max_tool_calls ≡ b.max_tool_calls
  pub steps : st.budget.spent_steps ≤ b.spent_steps + (b.max_steps - b.spent_steps)
  pub calls :
      st.budget.spent_tool_calls ≤ b.spent_tool_calls + (b.max_tool_calls - b.spent_tool_calls)
  pub counted : st.budget.spent_tool_calls ≡ b.spent_tool_calls + calls_of st.trace

module _ (b : ReasoningBudget) {W : Type 0} where
  spend_call-Within :
      (c : PendingToolCall) (st : ReactState W)
      → leb st.budget.max_tool_calls st.budget.spent_tool_calls ≡ false
      → Within b st
      → Within b (spend_call c st)
  unfolding calls_of
  spend_call-Within c st e v = record {
    same_steps = v.same_steps;
    same_calls = v.same_calls;
    steps = v.steps;
    calls = ground arith;
    counted = omega (arith, v.counted, calls_of-append st.trace (tool_call c ∷ []));
  }

  same-Within :
      (st st2 : ReactState W)
      → st2.budget ≡ st.budget
      → calls_of st2.trace ≡ calls_of st.trace
      → Within b st
      → Within b st2
  same-Within st st2 e t v = record {
    same_steps = rw e v.same_steps;
    same_calls = rw e v.same_calls;
    steps = rw e v.steps;
    calls = rw e v.calls;
    counted = rw (e, t) v.counted;
  }

  note-Within :
      (c : PendingToolCall) (o : ToolObservation) (st : ReactState W)
      → Within b st
      → Within b (note_observation c o st)
  unfolding calls_of
  note-Within c o st v =
      same-Within st (note_observation c o st) refl
        (omega (arith, calls_of-append st.trace (observation o ∷ []))) v

module _ (b : ReasoningBudget) (env : ReactEnv) where
  open env use {World}

  after_call-Within :
      (c : PendingToolCall) (st : State env) (answer : World × Option ToolObservation)
      → (rest : CallsRun World) → (Within b (noted env c st answer) → Within b rest.state)
      → Within b st
      → Within b (after_call env c st answer rest).state
  after_call-Within c st (w, none) rest ih v =
      same-Within b st (record st { world = w }) refl refl v
  after_call-Within c st (w, some o) rest ih v = ih (
      note-Within b c o (record st { world = w })
        (same-Within b st (record st { world = w }) refl refl v))

  run_calls-Within :
      (limit : ℕ) (cs : List PendingToolCall) (st : State env)
      → Within b st
      → Within b (run_calls env limit cs st).state
  unfolding run_calls
  run_calls-Within limit [] st v = v
  run_calls-Within limit (c ∷ cs) st v =
      let spent = spend_call c st in
      let answer = execute_tool env c (prior_retries c st) limit st.world in
      elim (Bool-cases (leb st.budget.max_tool_calls st.budget.spent_tool_calls)) [
        | inl e ↦ rw e (same-Within b st _ refl refl v)
        | inr e ↦ rw e (
            after_call-Within c spent answer (run_calls env limit cs (noted env c spent answer))
              (run_calls-Within limit cs (noted env c spent answer)) (spend_call-Within b c st e v))
      ]

  think-Within : (text : String) (st : State env) → Within b st → Within b (think env text st)
  unfolding calls_of
  think-Within text st v = elim (Bool-cases (str_eq text "")) [
    | inl e ↦ rw e v
    | inr e ↦
        rw e
          (same-Within b st _ refl (omega (arith, calls_of-append st.trace (thought text ∷ []))) v)
  ]

  act-Within :
      (limit : ℕ) (cs : List PendingToolCall) (text : String) (st : State env)
      → Within b st
      → Within b (act env limit cs text st).0
  unfolding act calls_of
  act-Within limit [] text st v =
      same-Within b st _ refl (omega (arith, calls_of-append st.trace (final text ∷ []))) v
  act-Within limit (c ∷ cs) text st v =
      let u = run_calls-Within limit (c ∷ cs) (think env text st) (think-Within text st v) in
      let r = run_calls env limit (c ∷ cs) (think env text st) in
      elim (Flow-cases r.flow) [
        | inl f ↦ rw (f, act) (same-Within b r.state _ refl refl u)
        | inr (inl f) ↦ rw (f, act) (same-Within b r.state _ refl refl u)
        | inr (inr f) ↦ rw (f, act) u
      ]

  end_stream-Within :
      (limit : ℕ) (turn : Turn) (throws : Bool) (st : State env)
      → Within b st
      → Within b (end_stream env limit turn throws st).0
  end_stream-Within limit turn throws st v =
      let told : State env = record st { events = st.events ++ turn.events } in
      let u : Within b told = same-Within b st told refl refl v in
      elim (Bool-cases turn.interrupted) [
        | inl e ↦ simp e (same-Within b st _ refl refl v)
        | inr e ↦ elim (Bool-cases throws) [
          | inl f ↦ simp (e, f) u
          | inr f ↦ simp (e, f) (act-Within limit (Dict.values turn.pending) turn.step_text told u)
        ]
      ]

  react_step-Within :
      (limit : ℕ) (st : State env)
      → leb st.budget.max_steps st.budget.spent_steps ≡ false
      → Within b st
      → Within b (react_step env limit st).0
  unfolding react_step
  react_step-Within limit st h v =
      let w = (env.aborted st.world).0 in
      let s = env.stream (step_request st.messages (tool_definitions env w)) w in
      let begun : State env = begin_step env s.0 st in
      let u : Within b begun = record {
        same_steps = v.same_steps;
        same_calls = v.same_calls;
        steps = ground arith;
        calls = v.calls;
        counted = v.counted;
      } in
      elim (Bool-cases (env.aborted st.world).1) [
        | inl e ↦ simp e (same-Within b st _ refl refl v)
        | inr e ↦
            simp e (end_stream-Within limit (read_chunks s.1.chunks empty_turn) s.1.throws begun u)
      ]

  react_loop-Within :
      (rounds limit : ℕ) (st : State env)
      → Within b st
      → Within b (react_loop env rounds limit st).0
  unfolding react_loop
  react_loop-Within zero limit st v = v
  react_loop-Within (suc rounds) limit st v =
      elim (Bool-cases (leb st.budget.max_steps st.budget.spent_steps)) [
        | inl e ↦ rw e v
        | inr e ↦
            let u = react_step-Within limit st e v in
            elim (Flow-cases (react_step env limit st).1) [
              | inl f ↦ rw (e, f) (react_loop-Within rounds limit _ u)
              | inr (inl f) ↦ rw (e, f) u
              | inr (inr f) ↦ rw (e, f) u
            ]
      ]

  synthesize-Within :
      (ms : List CompletionMessage) (st : State env)
      → Within b st
      → Within b (synthesize_from_trace env ms st).0
  unfolding synthesize_from_trace calls_of
  synthesize-Within ms st v =
      let s = (env.stream (synthesis_request st.trace st.termination ms) st.world).1 in
      let text = (read_synthesis env s.chunks "" st.events).0 in
      elim (Bool-cases s.throws) [
        | inl e ↦ simp e (same-Within b st _ refl refl v)
        | inr e ↦
            simp e (
              same-Within b st _ refl (omega (arith, calls_of-append st.trace (final text ∷ []))) v)
      ]

  finish-Within :
      (ms : List CompletionMessage) (st : State env) → Within b st → Within b (finish env ms st).0
  unfolding finish set_reason
  finish-Within ms st v =
      let reasoned = set_reason env st in
      let u : Within b reasoned = same-Within b st reasoned refl refl v in
      let w = synthesize-Within ms reasoned u in
      elim (Bool-cases (should_synthesize env reasoned)) [
        | inl e ↦ elim (Bool-cases (synthesize_from_trace env ms reasoned).1) [
          | inl f ↦ rw (e, f) (same-Within b _ _ refl refl w)
          | inr f ↦ rw (e, f) w
        ]
        | inr e ↦ rw e (same-Within b reasoned _ refl refl u)
      ]

module _ (env : ReactEnv) where
  open env use {World}

  -- Whatever the model, the tools and the guard do, also when an exception ends it: a turn spends no
  -- more steps and no more calls of tools than its budget has left, and the calls that it spends are
  -- those of its trace.
  pub run-Within :
      (config : ReactExecutorConfig) (given : Option ReasoningBudget) (prior : List PriorMessage)
      → (content : MessageContent) (w : World)
      → Within (configure env config (clone_budget given)) (run env config given prior content w).0
  unfolding run calls_of
  run-Within config given prior content w =
      let b = configure env config (clone_budget given) in
      let messages = initial_messages env prior content in
      let st = initial_state env b messages w in
      let limit = or_else config.tool_retry_limit 2 in
      let u : Within b st = record {
        same_steps = refl;
        same_calls = refl;
        steps = omega arith;
        calls = omega arith;
        counted = omega arith;
      } in
      let after = react_loop-Within b env b.max_steps limit st u in
      elim (Flow-cases (react_loop env b.max_steps limit st).1) [
        | inl f ↦ rw (f, run) (finish-Within b env messages _ after)
        | inr (inl f) ↦ rw (f, run) (finish-Within b env messages _ after)
        | inr (inr f) ↦ rw (f, run) after
      ]
