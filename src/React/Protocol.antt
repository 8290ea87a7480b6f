-- ===== src/React/Protocol.antt =====
-- The messages that the model is sent, and the order of a trace.
use agent_ego.Base.{
  ℕ, zero, suc, ◌≡◌, ◌≢◌, refl, ap, ◌∙◌, Bool, false, ◌&&◌, List, [], ◌∷◌, ◌++◌, map, Option, none,
  some, String, leb, Bool-cases, inl, inr, str_eq, if◌then◌else◌, All,
}
use agent_ego.Base.Dict
use agent_ego.Base.Dict.{Dict, str_eq_refl}
use agent_ego.Reasoning.{
  ReasoningBudget, MessageContent, CompletionMessage, PriorMessage, to_completion_message,
  user_message, extract_text, Role-cases, user, assistant, tool, ToolCallRef,
}
use agent_ego.React.{PendingToolCall, ToolObservation, step_request, ReactEnv, State, Flow-cases}
use agent_ego.React.Chunks.{Turn, empty_turn, read_chunks}
use agent_ego.React.Calls.{
  CallsRun, spend_call, noted, after_call, execute_tool, prior_retries, run_calls, refs,
  tool_message, tool_messages, call_messages,
}
use agent_ego.React.Loop.{
  think, act, end_stream, begin_step, react_step, react_loop, initial_state, initial_messages,
  tool_definitions,
}

abbrev same_text : Option String → String → Bool
same_text none t = false
same_text (some s) t = str_eq s t

-- What a message makes of the calls that are still to answer: the tool messages after an assistant
-- message answer its calls, each by its identifier and name and in their order.
unfoldable pub advance : Option (List ToolCallRef) → CompletionMessage → Option (List ToolCallRef)
advance none m = none
advance (some []) m = elim m.role [ user ↦ some [] | assistant ↦ some m.tool_calls | tool ↦ none ]
advance (some (c ∷ cs)) m = elim m.role [
  | user ↦ none
  | assistant ↦ none
  | tool ↦ if same_text m.tool_call_id c.id && same_text m.tool_name c.name then some cs else none
]

unfoldable pub unanswered :
    Option (List ToolCallRef) → List CompletionMessage → Option (List ToolCallRef)
unanswered open_calls [] = open_calls
unanswered open_calls (m ∷ ms) = unanswered (advance open_calls m) ms

-- Every call is answered, and every answer has its call.
abbrev pub Answered : List CompletionMessage → Type 0
Answered ms = unanswered (some []) ms ≡ some []

unanswered-append :
    (o : Option (List ToolCallRef)) (ms ns : List CompletionMessage)
    → unanswered o (ms ++ ns) ≡ unanswered (unanswered o ms) ns
unfolding unanswered
unanswered-append o [] ns = refl
unanswered-append o (m ∷ ms) ns = unanswered-append (advance o m) ms ns

advance-reply :
    (c : PendingToolCall) (text : String) (cs : List (PendingToolCall × String))
    → advance (some (refs ((c, text) ∷ cs))) (tool_message c text) ≡ some (refs cs)
unfolding advance
advance-reply c text cs = rw (str_eq_refl c.id, str_eq_refl c.name, advance) refl

unanswered-tool_messages :
    (cs : List (PendingToolCall × String))
    → unanswered (some (refs cs)) (tool_messages cs) ≡ some []
unfolding unanswered
unanswered-tool_messages [] = refl
unanswered-tool_messages ((c, text) ∷ cs) =
    ap (λ o. unanswered o (tool_messages cs)) (advance-reply c text cs)
    ∙ unanswered-tool_messages cs

call_messages-Answered :
    (text : String) (cs : List (PendingToolCall × String)) → Answered (call_messages text cs)
unfolding unanswered advance
call_messages-Answered text [] = refl
call_messages-Answered text (c ∷ cs) = unanswered-tool_messages (c ∷ cs)

append-Answered : (ms ns : List CompletionMessage) → Answered ms → Answered ns → Answered (ms ++ ns)
append-Answered ms ns h k = unanswered-append (some []) ms ns ∙ rw h k

prior-Answered :
    (ms : List PriorMessage) → All (λ m. m.role ≢ tool) ms → Answered (map to_completion_message ms)
unfolding unanswered advance
prior-Answered [] h = refl
prior-Answered (m ∷ ms) (n, h) = elim (Role-cases m.role) [
  | inl e ↦ rw e (prior-Answered ms h)
  | inr (inl e) ↦ rw e (prior-Answered ms h)
  | inr (inr e) ↦ absurd (n e)
]

module _ (env : ReactEnv) where
  open env use {World}

  after_call-messages :
      (c : PendingToolCall) (st : State env) (answer : World × Option ToolObservation)
      → (rest : CallsRun World) → (rest.state.messages ≡ (noted env c st answer).messages)
      → (after_call env c st answer rest).state.messages ≡ st.messages
  after_call-messages c st (w, none) rest h = refl
  after_call-messages c st (w, some o) rest h = h

  run_calls-messages :
      (limit : ℕ) (cs : List PendingToolCall) (st : State env)
      → (run_calls env limit cs st).state.messages ≡ st.messages
  unfolding run_calls
  run_calls-messages limit [] st = refl
  run_calls-messages limit (c ∷ cs) st =
      let begun = spend_call c st in
      let answer = execute_tool env c (prior_retries c st) limit st.world in
      let next = noted env c begun answer in
      elim (Bool-cases (leb st.budget.max_tool_calls st.budget.spent_tool_calls)) [
        | inl e ↦ rw e refl
        | inr e ↦ rw e (
            after_call-messages c begun answer (run_calls env limit cs next)
              (run_calls-messages limit cs next))
      ]

  act-Answered :
      (limit : ℕ) (cs : List PendingToolCall) (text : String) (st : State env)
      → Answered st.messages
      → Answered (act env limit cs text st).0.messages
  unfolding act
  act-Answered limit [] text st h = h
  act-Answered limit (c ∷ cs) text st h =
      let thinking = think env text st in
      let same : thinking.messages ≡ st.messages = elim (Bool-cases (str_eq text "")) [
        | inl e ↦ rw e refl
        | inr e ↦ rw e refl
      ] in
      let r = run_calls env limit (c ∷ cs) thinking in
      let u : Answered r.state.messages = rw (run_calls-messages limit (c ∷ cs) thinking, same) h in
      let v =
        append-Answered r.state.messages (call_messages text r.executed) u
          (call_messages-Answered text r.executed) in
      elim (Flow-cases r.flow) [
        | inl f ↦ rw (f, act) v
        | inr (inl f) ↦ rw (f, act) v
        | inr (inr f) ↦ rw (f, act) u
      ]

  end_stream-Answered :
      (limit : ℕ) (turn : Turn) (throws : Bool) (st : State env)
      → Answered st.messages
      → Answered (end_stream env limit turn throws st).0.messages
  end_stream-Answered limit turn throws st h = elim (Bool-cases turn.interrupted) [
    | inl e ↦ simp e h
    | inr e ↦ elim (Bool-cases throws) [
      | inl f ↦ simp (e, f) h
      | inr f ↦ simp (e, f) (act-Answered limit (Dict.values turn.pending) turn.step_text _ h)
    ]
  ]

  react_step-Answered :
      (limit : ℕ) (st : State env)
      → Answered st.messages
      → Answered (react_step env limit st).0.messages
  unfolding react_step
  react_step-Answered limit st h =
      let w = (env.aborted st.world).0 in
      let s = env.stream (step_request st.messages (tool_definitions env w)) w in
      elim (Bool-cases (env.aborted st.world).1) [
        | inl e ↦ simp e h
        | inr e ↦ simp e (
            end_stream-Answered limit (read_chunks s.1.chunks empty_turn) s.1.throws
              (begin_step env s.0 st) h)
      ]

  react_loop-Answered_from :
      (rounds limit : ℕ) (st : State env)
      → Answered st.messages
      → Answered (react_loop env rounds limit st).0.messages
  unfolding react_loop
  react_loop-Answered_from zero limit st h = h
  react_loop-Answered_from (suc rounds) limit st h =
      let u = react_step-Answered limit st h in
      elim (Bool-cases (leb st.budget.max_steps st.budget.spent_steps)) [
        | inl e ↦ rw e h
        | inr e ↦ elim (Flow-cases (react_step env limit st).1) [
          | inl f ↦ rw (e, f) (react_loop-Answered_from rounds limit (react_step env limit st).0 u)
          | inr (inl f) ↦ rw (e, f) u
          | inr (inr f) ↦ rw (e, f) u
        ]
      ]

  -- Where the conversation before the turn has no tool messages, the messages of a turn, after any
  -- number of rounds and so at each request to the model, answer every call: after an assistant
  -- message stand the answers to its calls, each by its identifier and name and in the same order, and
  -- no tool message stands elsewhere.
  pub react_loop-Answered :
      (rounds limit : ℕ) (b : ReasoningBudget) (prior : List PriorMessage)
      (content : MessageContent)
      → (w : World) → All (λ m. m.role ≢ tool) prior
      → let messages = initial_messages env prior content in
        Answered (react_loop env rounds limit (initial_state env b messages w)).0.messages
  unfolding unanswered advance
  react_loop-Answered rounds limit b prior content w h = react_loop-Answered_from rounds limit _ (
      append-Answered (map to_completion_message prior)
        (user_message (extract_text "[media]" content) ∷ []) (prior-Answered prior h) refl)
