-- ===== src/React/Pairing.antt =====
-- Calls and observations in the trace of a turn.
use agent_ego.Base.{
  ℕ, zero, suc, ◌≡◌, refl, subst, ◌∙◌, Bool, true, false, List, [], ◌∷◌, ◌++◌, Option, none, some,
  String, or_else, leb, Bool-cases, inl, inr, str_eq,
}
use agent_ego.Base.Dict
use agent_ego.Base.Dict.{Dict, str_eq_refl}
use agent_ego.Reasoning.{
  ReasoningBudget, clone_budget, MessageContent, CompletionMessage, PriorMessage,
}
use agent_ego.React.{
  ReactExecutorConfig, PendingToolCall, ToolObservation, TraceStep, thought, tool_call, observation,
  final, step_request, synthesis_request, ReactEnv, ReactState, Flow, go_on, stop, threw, State,
  Flow-cases,
}
use agent_ego.React.Chunks.{Turn, empty_turn, read_chunks}
use agent_ego.React.Calls.{
  CallsRun, spend_call, noted, after_call, execute_tool, prior_retries, run_calls,
}
use agent_ego.React.Loop.{
  think, act, end_stream, begin_step, react_step, react_loop, set_reason, should_synthesize,
  synthesize_from_trace, read_synthesis, finish, configure, run, initial_state, initial_messages,
  tool_definitions,
}

-- Whether a call is open after a step; `none` where a step may not stand.
unfoldable pub advance : Option Bool → TraceStep → Option Bool
advance none s = none
advance (some true) (observation o) = some false
advance (some true) (thought text) = none
advance (some true) (tool_call c) = none
advance (some true) (final text) = none
advance (some false) (observation o) = none
advance (some false) (thought text) = some false
advance (some false) (tool_call c) = some true
advance (some false) (final text) = some false

unfoldable pub open_call : Option Bool → List TraceStep → Option Bool
open_call o [] = o
open_call o (s ∷ ss) = open_call (advance o s) ss

-- Each call is followed at once by one observation, and no observation stands elsewhere.
abbrev pub Paired : {W : Type 0} → ReactState W → Type 0
Paired st = open_call (some false) st.trace ≡ some false

abbrev PairedUnless : {W : Type 0} → ReactState W → Flow → Type 0
PairedUnless st go_on = Paired st
PairedUnless st stop = Paired st
PairedUnless st threw = Unit

open_call-append :
    (o : Option Bool) (t u : List TraceStep) → open_call o (t ++ u) ≡ open_call (open_call o t) u
unfolding open_call
open_call-append o [] u = refl
open_call-append o (s ∷ t) u = open_call-append (advance o s) t u

append-open :
    (t : List TraceStep) (s : TraceStep) (a : Bool)
    → open_call (some false) t ≡ some a
    → open_call (some false) (t ++ s ∷ []) ≡ advance (some a) s
unfolding open_call
append-open t s a h = open_call-append (some false) t (s ∷ []) ∙ rw h refl

module _ (env : ReactEnv) where
  open env use {World}

  after_call-Paired :
      (c : PendingToolCall) (st : State env) (answer : World × Option ToolObservation)
      → (rest : CallsRun World)
      → (Paired (noted env c st answer) → PairedUnless rest.state rest.flow)
      → open_call (some false) st.trace ≡ some true
      → let r = after_call env c st answer rest in PairedUnless r.state r.flow
  unfolding advance
  after_call-Paired c st (w, none) rest ih h = tt
  after_call-Paired c st (w, some o) rest ih h = ih (append-open st.trace (observation o) true h)

  run_calls-Paired :
      (limit : ℕ) (cs : List PendingToolCall) (st : State env)
      → Paired st
      → let r = run_calls env limit cs st in PairedUnless r.state r.flow
  unfolding run_calls advance
  run_calls-Paired limit [] st h = h
  run_calls-Paired limit (c ∷ cs) st h =
      let begun = spend_call c st in
      let answer = execute_tool env c (prior_retries c st) limit st.world in
      let next = noted env c begun answer in
      elim (Bool-cases (leb st.budget.max_tool_calls st.budget.spent_tool_calls)) [
        | inl e ↦ rw e h
        | inr e ↦ rw e (
            after_call-Paired c begun answer (run_calls env limit cs next)
              (run_calls-Paired limit cs next) (append-open st.trace (tool_call c) false h))
      ]

  think-Paired : (text : String) (st : State env) → Paired st → Paired (think env text st)
  unfolding advance
  think-Paired text st h = elim (Bool-cases (str_eq text "")) [
    | inl e ↦ rw e h
    | inr e ↦ rw e (append-open st.trace (thought text) false h)
  ]

  act-Paired :
      (limit : ℕ) (cs : List PendingToolCall) (text : String) (st : State env)
      → Paired st
      → let r = act env limit cs text st in PairedUnless r.0 r.1
  unfolding act advance
  act-Paired limit [] text st h = append-open st.trace (final text) false h
  act-Paired limit (c ∷ cs) text st h =
      let r = run_calls env limit (c ∷ cs) (think env text st) in
      let u = run_calls-Paired limit (c ∷ cs) (think env text st) (think-Paired text st h) in
      elim (Flow-cases r.flow) [
        | inl f ↦ let v : Paired r.state = subst (PairedUnless r.state) f u in rw (f, act) v
        | inr (inl f) ↦ let v : Paired r.state = subst (PairedUnless r.state) f u in rw (f, act) v
        | inr (inr f) ↦ rw (f, act) tt
      ]

  end_stream-Paired :
      (limit : ℕ) (turn : Turn) (throws : Bool) (st : State env)
      → Paired st
      → let r = end_stream env limit turn throws st in PairedUnless r.0 r.1
  end_stream-Paired limit turn throws st h = elim (Bool-cases turn.interrupted) [
    | inl e ↦ simp e h
    | inr e ↦ elim (Bool-cases throws) [
      | inl f ↦ simp (e, f) tt
      | inr f ↦
          simp (e, f)
            (act-Paired limit (Dict.values turn.pending) turn.step_text
              (record st { events = st.events ++ turn.events }) h)
    ]
  ]

  react_step-Paired :
      (limit : ℕ) (st : State env)
      → Paired st
      → let r = react_step env limit st in PairedUnless r.0 r.1
  unfolding react_step
  react_step-Paired limit st h =
      let w = (env.aborted st.world).0 in
      let s = env.stream (step_request st.messages (tool_definitions env w)) w in
      elim (Bool-cases (env.aborted st.world).1) [
        | inl e ↦ simp e h
        | inr e ↦ simp e (
            end_stream-Paired limit (read_chunks s.1.chunks empty_turn) s.1.throws
              (begin_step env s.0 st) h)
      ]

  react_loop-Paired :
      (rounds limit : ℕ) (st : State env)
      → Paired st
      → let r = react_loop env rounds limit st in PairedUnless r.0 r.1
  unfolding react_loop
  react_loop-Paired zero limit st h = h
  react_loop-Paired (suc rounds) limit st h =
      let r = react_step env limit st in
      let u = react_step-Paired limit st h in
      elim (Bool-cases (leb st.budget.max_steps st.budget.spent_steps)) [
        | inl e ↦ rw e h
        | inr e ↦ elim (Flow-cases r.1) [
          | inl f ↦ rw (e, f) (react_loop-Paired rounds limit r.0 (subst (PairedUnless r.0) f u))
          | inr (inl f) ↦ rw (e, f) (subst (PairedUnless r.0) f u)
          | inr (inr f) ↦ rw (e, f) tt
        ]
      ]

  synthesize-Paired :
      (ms : List CompletionMessage) (st : State env)
      → Paired st
      → Paired (synthesize_from_trace env ms st).0
  unfolding synthesize_from_trace advance
  synthesize-Paired ms st h =
      let s = (env.stream (synthesis_request st.trace st.termination ms) st.world).1 in
      elim (Bool-cases s.throws) [
        | inl e ↦ simp e h
        | inr e ↦
            simp e
              (append-open st.trace (final (read_synthesis env s.chunks "" st.events).0) false h)
      ]

  finish-Paired :
      (ms : List CompletionMessage) (st : State env) → Paired st → Paired (finish env ms st).0
  unfolding finish set_reason
  finish-Paired ms st h =
      let reasoned = set_reason env st in
      let w = synthesize-Paired ms reasoned h in
      elim (Bool-cases (should_synthesize env reasoned)) [
        | inl e ↦ elim (Bool-cases (synthesize_from_trace env ms reasoned).1) [
          | inl f ↦ rw (e, f, finish) w
          | inr f ↦ rw (e, f, finish) w
        ]
        | inr e ↦ rw (e, finish) h
      ]

  -- In the trace of a turn that no exception ends, each call of a tool is followed at once by one
  -- observation, and no observation stands elsewhere: also where the budget of calls or the abort
  -- signal cuts the turn short.
  pub run-Paired :
      (config : ReactExecutorConfig) (given : Option ReasoningBudget) (prior : List PriorMessage)
      → (content : MessageContent) (w : World) → (run env config given prior content w).1 ≡ true
      → Paired (run env config given prior content w).0
  unfolding run open_call
  run-Paired config given prior content w =
      let b = configure env config (clone_budget given) in
      let messages = initial_messages env prior content in
      let st = initial_state env b messages w in
      let limit = or_else config.tool_retry_limit 2 in
      let r = react_loop env b.max_steps limit st in
      let u = react_loop-Paired b.max_steps limit st refl in
      elim (Flow-cases r.1) [
        | inl f ↦ rw (f, run) (λ e. finish-Paired messages r.0 (subst (PairedUnless r.0) f u))
        | inr (inl f) ↦ rw (f, run) (λ e. finish-Paired messages r.0 (subst (PairedUnless r.0) f u))
        | inr (inr f) ↦ rw (f, run) (λ e. cc)
      ]
