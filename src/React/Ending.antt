-- ===== src/React/Ending.antt =====
-- How the turn ends.
use agent_ego.Base.{
  ℕ, ◌≤◌, ◌≡◌, ◌≢◌, refl, Bool, true, List, [], ◌∷◌, ◌++◌, Option, some, String, or_else, arith,
  Bool-cases, inl, inr,
}
use agent_ego.Reasoning.{
  ReasoningBudget, clone_budget, MessageContent, CompletionMessage, PriorMessage, TerminationReason,
  max_steps_reached, hard_error, StreamChunk, text_delta, tool_call_start, tool_call_delta,
  tool_call_end, usage_chunk, done_chunk,
}
use agent_ego.React.{
  ReactExecutorConfig, synthesis_request, ReactEnv, State, Flow-cases, ReasoningEvent, delta_event,
  usage_event, final_event,
}
use agent_ego.React.Loop.{
  react_loop, set_reason, should_synthesize, synthesize_from_trace, read_synthesis, finish,
  configure, run, initial_state, initial_messages,
}
use agent_ego.React.Rounds.{finals, finals-append, Settled, Open, react_loop-Ends}

module _ (env : ReactEnv) where
  open env use {World}

  read_synthesis-finals :
      (chunks : List (StreamChunk × Bool)) (text : String) (es : List ReasoningEvent)
      → finals es ≡ 0
      → finals (read_synthesis env chunks text es).1 ≡ 0
  unfolding read_synthesis finals
  read_synthesis-finals [] text es h = h
  read_synthesis-finals ((text_delta delta, a) ∷ chunks) text es h =
      read_synthesis-finals chunks _ _ (omega (arith, h, finals-append es (delta_event delta ∷ [])))
  read_synthesis-finals ((tool_call_start id name, a) ∷ chunks) text es h =
      read_synthesis-finals chunks text es h
  read_synthesis-finals ((tool_call_delta id args, a) ∷ chunks) text es h =
      read_synthesis-finals chunks text es h
  read_synthesis-finals ((tool_call_end id, a) ∷ chunks) text es h =
      read_synthesis-finals chunks text es h
  read_synthesis-finals ((usage_chunk u, a) ∷ chunks) text es h =
      read_synthesis-finals chunks text _ (omega (arith, h, finals-append es (usage_event u ∷ [])))
  read_synthesis-finals ((done_chunk reason, a) ∷ chunks) text es h =
      read_synthesis-finals chunks text es h

  synthesize-Settled :
      (ms : List CompletionMessage) (st : State env)
      → Settled st
      → Settled (synthesize_from_trace env ms st).0
  unfolding synthesize_from_trace
  synthesize-Settled ms st v =
      let s = (env.stream (synthesis_request st.trace st.termination ms) st.world).1 in
      let q = read_synthesis-finals s.chunks "" st.events v.quiet in
      elim (Bool-cases s.throws) [
        | inl e ↦ simp e (record { reason = v.reason; set = v.set; known = v.known; quiet = q })
        | inr e ↦ simp e (record { reason = v.reason; set = v.set; known = v.known; quiet = q })
      ]

  -- The last event, and the only one of its kind, is the final one, with a reason that is known.
  pub record Ended (st : State env) : Type 0 where
    pub before : List ReasoningEvent
    pub reason : TerminationReason
    pub last : st.events ≡ before ++ final_event st.final_text (some reason) ∷ []
    pub quiet : finals before ≡ 0
    pub set : st.termination ≡ some reason
    pub known : reason ≢ hard_error

  close :
      (st : State env)
      → Settled st
      → Ended (record st { events = st.events ++ final_event st.final_text st.termination ∷ [] })
  close st v = record {
    before = st.events;
    reason = v.reason;
    last = rw v.set refl;
    quiet = v.quiet;
    set = v.set;
    known = v.known;
  }

  finish-Ended :
      (ms : List CompletionMessage) (st : State env)
      → Settled (set_reason env st)
      → (finish env ms st).1 ≡ true
      → Ended (finish env ms st).0
  unfolding finish
  finish-Ended ms st v =
      let reasoned = set_reason env st in
      let w = synthesize-Settled ms reasoned v in
      elim (Bool-cases (should_synthesize env reasoned)) [
        | inl e ↦ elim (Bool-cases (synthesize_from_trace env ms reasoned).1) [
          | inl f ↦ rw (e, f, finish) (λ g. close _ w)
          | inr f ↦ rw (e, f, finish) (λ g. cc)
        ]
        | inr e ↦ rw (e, finish) (λ g. close reasoned v)
      ]

  set_reason-Open :
      (max n : ℕ) (st : State env) → max ≤ n → Open max n st → Settled (set_reason env st)
  unfolding set_reason
  set_reason-Open max n st h o = record {
    reason = max_steps_reached;
    set = rw o.unset (ground (arith, o.same, o.at));
    known = λ n. cc;
    quiet = o.quiet;
  }

  set_reason-Settled : (st : State env) → Settled st → Settled (set_reason env st)
  unfolding set_reason
  set_reason-Settled st v = record {
    reason = v.reason;
    set = rw v.set refl;
    known = v.known;
    quiet = v.quiet;
  }

  -- A turn that no exception ends yields one final event, as its last, with the final text and with
  -- a reason for the end of the turn, which is never `hard_error`.
  pub run-Ended :
      (config : ReactExecutorConfig) (given : Option ReasoningBudget) (prior : List PriorMessage)
      → (content : MessageContent) (w : World) → (run env config given prior content w).1 ≡ true
      → Ended (run env config given prior content w).0
  unfolding run finals
  run-Ended config given prior content w =
      let b = configure env config (clone_budget given) in
      let messages = initial_messages env prior content in
      let st = initial_state env b messages w in
      let limit = or_else config.tool_retry_limit 2 in
      let o : Open b.max_steps b.spent_steps st = record {
        unset = refl;
        same = refl;
        at = refl;
        quiet = refl;
      } in
      let r = react_loop env b.max_steps limit st in
      let u = react_loop-Ends env b.max_steps limit b.max_steps b.spent_steps st (omega arith) o in
      elim (Flow-cases r.1) [
        | inl f ↦
            let v = u.0 f in
            rw (f, run) (finish-Ended messages r.0 (set_reason-Open b.max_steps v.0 r.0 v.1 v.2))
        | inr (inl f) ↦ rw (f, run) (finish-Ended messages r.0 (set_reason-Settled r.0 (u.1 f)))
        | inr (inr f) ↦ rw (f, run) (λ e. cc)
      ]
