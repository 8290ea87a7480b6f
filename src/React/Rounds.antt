-- ===== src/React/Rounds.antt =====
-- How the loop ends.
use agent_ego.Base.{
  ℕ, zero, suc, ◌+◌, ◌≤◌, ◌≡◌, ◌≢◌, refl, ap, subst, ◌∙◌, Bool, true, false, List, [], ◌∷◌, ◌++◌,
  Option, none, some, String, leb, arith, Bool-cases, inl, inr, str_eq,
}
use agent_ego.Base.Dict
use agent_ego.Base.Dict.{Dict}
use agent_ego.Reasoning.{
  TerminationReason, final_answer, tool_exhaustion, hard_error, user_abort, StreamChunk, text_delta,
  tool_call_start, tool_call_delta, tool_call_end, usage_chunk, done_chunk,
}
use agent_ego.React.{
  PendingToolCall, ToolObservation, TraceStep, tool_call, observation, final, step_request,
  ReactEnv, ReactState, Flow, go_on, stop, threw, State, terminate, yield_step, Flow-cases,
  ReasoningEvent, step_event, delta_event, usage_event, final_event,
}
use agent_ego.React.Chunks.{Turn, empty_turn, read_chunks, handle_chunk}
use agent_ego.React.Calls.{
  CallsRun, spend_call, noted, after_call, execute_tool, prior_retries, run_calls,
}
use agent_ego.React.Loop.{
  think, act, end_stream, begin_step, react_step, react_loop, tool_definitions,
}

unfoldable pub finals : List ReasoningEvent → ℕ
finals [] = 0
finals (final_event text r ∷ es) = suc (finals es)
finals (step_event s ∷ es) = finals es
finals (delta_event text ∷ es) = finals es
finals (usage_event u ∷ es) = finals es

pub finals-append : (es fs : List ReasoningEvent) → finals (es ++ fs) ≡ finals es + finals fs
unfolding finals
finals-append [] fs = omega arith
finals-append (final_event text r ∷ es) fs = omega (arith, finals-append es fs)
finals-append (step_event s ∷ es) fs = finals-append es fs
finals-append (delta_event text ∷ es) fs = finals-append es fs
finals-append (usage_event u ∷ es) fs = finals-append es fs

read_chunks-finals :
    (chunks : List (StreamChunk × Bool)) (t : Turn)
    → finals t.events ≡ 0
    → finals (read_chunks chunks t).events ≡ 0
unfolding read_chunks handle_chunk finals
read_chunks-finals [] t h = h
read_chunks-finals ((chunk, true) ∷ chunks) t h = h
read_chunks-finals ((text_delta delta, false) ∷ chunks) t h =
    read_chunks-finals chunks _ (omega (arith, h, finals-append t.events (delta_event delta ∷ [])))
read_chunks-finals ((tool_call_start id name, false) ∷ chunks) t h = read_chunks-finals chunks _ h
read_chunks-finals ((tool_call_delta id args, false) ∷ chunks) t h = read_chunks-finals chunks _ h
read_chunks-finals ((tool_call_end id, false) ∷ chunks) t h = read_chunks-finals chunks _ h
read_chunks-finals ((usage_chunk u, false) ∷ chunks) t h =
    read_chunks-finals chunks _ (omega (arith, h, finals-append t.events (usage_event u ∷ [])))
read_chunks-finals ((done_chunk reason, false) ∷ chunks) t h = read_chunks-finals chunks _ h

-- A reason that the loop has set.
pub record Settled {W : Type 0} (st : ReactState W) : Type 0 where
  pub reason : TerminationReason
  pub set : st.termination ≡ some reason
  pub known : reason ≢ hard_error
  pub quiet : finals st.events ≡ 0

-- Nothing has ended the turn yet, `spent` of `max` steps are spent.
pub record Open {W : Type 0} (max spent : ℕ) (st : ReactState W) : Type 0 where
  pub unset : st.termination ≡ none
  pub same : st.budget.max_steps ≡ max
  pub at : st.budget.spent_steps ≡ spent
  pub quiet : finals st.events ≡ 0

-- What holds of a state with which a part of the loop ends.
abbrev pub Ends : {W : Type 0} → ℕ → ℕ → ReactState W → Flow → Type 0
Ends max spent st go_on = Open max spent st
Ends max spent st stop = Settled st
Ends max spent st threw = Unit

module _ (max spent : ℕ) {W : Type 0} where
  yield-Open :
      (s : TraceStep) (st : ReactState W) → Open max spent st → Open max spent (yield_step s st)
  unfolding finals
  yield-Open s st o = record {
    unset = o.unset;
    same = o.same;
    at = o.at;
    quiet = omega (arith, o.quiet, finals-append st.events (step_event s ∷ []));
  }

  same-Open :
      (st st2 : ReactState W)
      → st2.budget.max_steps ≡ st.budget.max_steps
      → st2.budget.spent_steps ≡ st.budget.spent_steps
      → st2.termination ≡ st.termination
      → st2.events ≡ st.events
      → Open max spent st
      → Open max spent st2
  same-Open st st2 m s t e o = record {
    unset = t ∙ o.unset;
    same = m ∙ o.same;
    at = s ∙ o.at;
    quiet = ap finals e ∙ o.quiet;
  }

  settle :
      (r : TerminationReason) (st : ReactState W)
      → r ≢ hard_error
      → Open max spent st
      → Settled (terminate r st)
  settle r st n o = record { reason = r; set = refl; known = n; quiet = o.quiet }

module _ (env : ReactEnv) (max spent : ℕ) where
  open env use {World}

  after_call-Ends :
      (c : PendingToolCall) (st : State env) (answer : World × Option ToolObservation)
      → (rest : CallsRun World)
      → (Open max spent (noted env c st answer) → Ends max spent rest.state rest.flow)
      → Open max spent st
      → let r = after_call env c st answer rest in Ends max spent r.state r.flow
  after_call-Ends c st (w, none) rest ih o = tt
  after_call-Ends c st (w, some x) rest ih o =
      ih (yield-Open max spent (observation x) _ (same-Open max spent st _ refl refl refl refl o))

  run_calls-Ends :
      (limit : ℕ) (cs : List PendingToolCall) (st : State env)
      → Open max spent st
      → let r = run_calls env limit cs st in Ends max spent r.state r.flow
  unfolding run_calls
  run_calls-Ends limit [] st o = o
  run_calls-Ends limit (c ∷ cs) st o =
      let begun = spend_call c st in
      let answer = execute_tool env c (prior_retries c st) limit st.world in
      let next = noted env c begun answer in
      elim (Bool-cases (leb st.budget.max_tool_calls st.budget.spent_tool_calls)) [
        | inl e ↦ rw e (settle max spent tool_exhaustion st (λ n. cc) o)
        | inr e ↦ rw e (
            after_call-Ends c begun answer (run_calls env limit cs next)
              (run_calls-Ends limit cs next)
              (yield-Open max spent (tool_call c) _
                (same-Open max spent st _ refl refl refl refl o)))
      ]

  think-Open :
      (text : String) (st : State env) → Open max spent st → Open max spent (think env text st)
  think-Open text st o = elim (Bool-cases (str_eq text "")) [
    | inl e ↦ rw e o
    | inr e ↦ rw e (same-Open max spent st _ refl refl refl refl o)
  ]

  act-Ends :
      (limit : ℕ) (cs : List PendingToolCall) (text : String) (st : State env)
      → Open max spent st
      → let r = act env limit cs text st in Ends max spent r.0 r.1
  unfolding act
  act-Ends limit [] text st o =
      settle max spent final_answer _ (λ n. cc)
        (yield-Open max spent (final text) _ (same-Open max spent st _ refl refl refl refl o))
  act-Ends limit (c ∷ cs) text st o =
      let r = run_calls env limit (c ∷ cs) (think env text st) in
      let u = run_calls-Ends limit (c ∷ cs) (think env text st) (think-Open text st o) in
      elim (Flow-cases r.flow) [
        | inl f ↦
            let v : Open max spent r.state = subst (Ends max spent r.state) f u in
            rw (f, act) (same-Open max spent r.state _ refl refl refl refl v)
        | inr (inl f) ↦
            let v : Settled r.state = subst (Ends max spent r.state) f u in
            rw (f, act)
              (record { reason = v.reason; set = v.set; known = v.known; quiet = v.quiet })
        | inr (inr f) ↦ rw (f, act) tt
      ]

  end_stream-Ends :
      (limit : ℕ) (turn : Turn) (throws : Bool) (st : State env)
      → finals turn.events ≡ 0
      → Open max spent st
      → let r = end_stream env limit turn throws st in Ends max spent r.0 r.1
  end_stream-Ends limit turn throws st h o =
      let told : State env = record st { events = st.events ++ turn.events } in
      let u : Open max spent told = record {
        unset = o.unset;
        same = o.same;
        at = o.at;
        quiet = omega (arith, h, o.quiet, finals-append st.events turn.events);
      } in
      elim (Bool-cases turn.interrupted) [
        | inl e ↦ simp e (settle max spent user_abort told (λ n. cc) u)
        | inr e ↦ elim (Bool-cases throws) [
          | inl f ↦ simp (e, f) tt
          | inr f ↦ simp (e, f) (act-Ends limit (Dict.values turn.pending) turn.step_text told u)
        ]
      ]

module _ (env : ReactEnv) where
  open env use {World}

  react_step-Ends :
      (limit max spent : ℕ) (st : State env)
      → Open max spent st
      → let r = react_step env limit st in Ends max (suc spent) r.0 r.1
  unfolding react_step finals
  react_step-Ends limit max spent st o =
      let w = (env.aborted st.world).0 in
      let s = env.stream (step_request st.messages (tool_definitions env w)) w in
      let begun : State env = begin_step env s.0 st in
      let u : Open max (suc spent) begun = record {
        unset = o.unset;
        same = o.same;
        at = omega (arith, o.at);
        quiet = o.quiet;
      } in
      let turn = read_chunks s.1.chunks empty_turn in
      elim (Bool-cases (env.aborted st.world).1) [
        | inl e ↦ simp e (
            settle max spent user_abort _ (λ n. cc)
              (same-Open max spent st _ refl refl refl refl o))
        | inr e ↦ simp e (
            end_stream-Ends env max (suc spent) limit turn s.1.throws begun
              (read_chunks-finals s.1.chunks empty_turn refl) u)
      ]

  -- The rounds are enough: the loop is left by its own test, by a reason that it has set, or by an
  -- exception.
  pub react_loop-Ends :
      (rounds limit max spent : ℕ) (st : State env)
      → max ≤ spent + rounds
      → Open max spent st
      → let r = react_loop env rounds limit st in
        (r.1 ≡ go_on → (n : ℕ) × (max ≤ n) × Open max n r.0) × (r.1 ≡ stop → Settled r.0)
  unfolding react_loop
  react_loop-Ends zero limit max spent st h o = (λ e. (spent, omega arith, o), λ e. cc)
  react_loop-Ends (suc rounds) limit max spent st h o =
      let r = react_step env limit st in
      let u = react_step-Ends limit max spent st o in
      elim (Bool-cases (leb st.budget.max_steps st.budget.spent_steps)) [
        | inl e ↦ rw e (λ f. (spent, ground (arith, o.same, o.at), o), λ f. cc)
        | inr e ↦ elim (Flow-cases r.1) [
          | inl f ↦
              rw (e, f)
                (react_loop-Ends rounds limit max (suc spent) r.0 (omega arith)
                  (subst (Ends max (suc spent) r.0) f u))
          | inr (inl f) ↦ rw (e, f) (λ g. cc, λ g. subst (Ends max (suc spent) r.0) f u)
          | inr (inr f) ↦ rw (e, f) (λ g. cc, λ g. cc)
        ]
      ]
