-- ===== src/Workflow/Engine/Depth.antt =====
-- As much fuel as the limit of the call depth is enough.
use agent_ego.Base.{
  ℕ, zero, suc, ◌+◌, ◌-◌, ◌≤◌, ◌<◌, ◌≡◌, refl, sym, ap, subst, ◌∙◌, Bool, true, false, not, ◌||◌,
  List, [], Option, none, some, String, arith, if◌then◌else◌, leb, inl, inr, Bool-cases,
  Option-cases,
}
use agent_ego.Base.Dict
use agent_ego.Base.Dict.{Dict}
use agent_ego.Base.Json.{Json}
use agent_ego.Workflow.{
  WorkflowStep, tool_call, set_var, sequence, parallel, branch, call, return_, try_, scope, Steps,
  no_steps, step_then, OptionalStep, absent, given, Kind, sequence_kind, branch_kind, call_kind,
  try_kind, scope_kind, Workflow,
}
use agent_ego.Workflow.Values.{Frame, eval_condition}
use agent_ego.Workflow.Engine.{
  ExecState, Runtime, State, guarded, begin_step, finish_step, push, pop, save, enter_call, handle,
  finally_after, bind_args, run_call, run_step, run_sequence, run_optional, run_given, run,
  initial_state,
}
use agent_ego.Workflow.Engine.Balance.{
  is_sequential, all_sequential, optional_sequential, SequentialFunctions, and-eq-true,
}
use agent_ego.Workflow.Engine.Isolation.{Enters, step-Balanced, handle-Balanced, given-Keeps}
use agent_ego.Workflow.Engine.Frames.{run-Enters}

module _ {W : Type 0} where
  guarded-eq :
      (id : String) (kind : Kind) (f g : ExecState W → ExecState W × Option String)
      (st : ExecState W)
      → f (begin_step id kind st) ≡ g (begin_step id kind st)
      → guarded id kind f st ≡ guarded id kind g st
  unfolding guarded
  guarded-eq id kind f g st e =
      ap (λ r. if st.failed || st.returning then st else finish_step id kind r) e

  abbrev called : Frame → ExecState W → ExecState W
  called frame st = record (push frame st) {
    returning = false;
    return_value = none;
    call_depth = st.call_depth + 1;
  }

  abbrev leave_call : Option String → ExecState W → ExecState W → ExecState W
  leave_call save_as st inner =
      let after = record (pop inner) {
        returning = st.returning;
        return_value = st.return_value;
        call_depth = inner.call_depth - 1;
      } in
      if not inner.failed then save save_as inner.return_value after else after

  enter_call-eq :
      (save_as : Option String) (frame : Frame) (f g : ExecState W → ExecState W) (st : ExecState W)
      → f (called frame st) ≡ g (called frame st)
      → enter_call save_as frame f st ≡ enter_call save_as frame g st
  unfolding enter_call
  enter_call-eq save_as frame f g st e = ap (leave_call save_as st) e

  -- Two handlers that agree on the states of the same functions, depth and limit.
  abbrev Agree :
      Option (ExecState W → ExecState W) → Option (ExecState W → ExecState W) → ExecState W → Type 0
  Agree none none st = Unit
  Agree (some f) (some g) st =
      (s : ExecState W)
      → s.functions ≡ st.functions
      → s.call_depth ≡ st.call_depth
      → s.max_call_depth ≡ st.max_call_depth
      → f s ≡ g s
  Agree _ _ st = ⊥

  handle-eq :
      (f g : Option (ExecState W → ExecState W)) (st : ExecState W)
      → Agree f g st
      → handle f st ≡ handle g st
  unfolding handle
  handle-eq none none st a = refl
  handle-eq none (some g) st a = elim a [ ]
  handle-eq (some f) none st a = elim a [ ]
  handle-eq (some f) (some g) st a = ap (λ s. if st.failed then pop s else st) (a _ refl refl refl)

  after_finally : ExecState W → ExecState W → ExecState W
  after_finally st after = if after.failed then after else record after {
    failed = st.failed;
    error = st.error;
    failed_at_step_id = st.failed_at_step_id;
    returning = st.returning;
  }

  finally_after-eq :
      (f g : Option (ExecState W → ExecState W)) (st : ExecState W)
      → Agree f g st
      → finally_after f st ≡ finally_after g st
  unfolding finally_after after_finally
  finally_after-eq none none st a = refl
  finally_after-eq none (some g) st a = elim a [ ]
  finally_after-eq (some f) none st a = elim a [ ]
  finally_after-eq (some f) (some g) st a = ap (after_finally st) (a _ refl refl refl)

  if-eq :
      (b : Bool) {x y z w : ExecState W}
      → x ≡ y
      → z ≡ w
      → (if b then x else z) ≡ (if b then y else w)
  if-eq true e f = e
  if-eq false e f = f

-- Two ways to run functions that agree one call deeper than the state, while the limit allows it.
abbrev Deeper :
    (rt : Runtime)
    → (WorkflowStep → State rt → State rt)
    → (WorkflowStep → State rt → State rt)
    → ℕ
    → ℕ
    → Type 0
Deeper rt e1 e2 depth limit =
    (body : WorkflowStep) (s : State rt)
    → is_sequential body ≡ true
    → SequentialFunctions s.functions
    → s.call_depth ≡ depth + 1
    → s.max_call_depth ≡ limit
    → depth < limit
    → e1 body s ≡ e2 body s

module _ (rt : Runtime) (e1 e2 : WorkflowStep → State rt → State rt) where
  run_call-eq :
      (function : String) (args : Option (List (String × Json))) (save_as : Option String)
      (st : State rt)
      → SequentialFunctions st.functions
      → Deeper rt e1 e2 st.call_depth st.max_call_depth
      → run_call rt e1 function args save_as st ≡ run_call rt e2 function args save_as st
  unfolding run_call
  run_call-eq function args save_as st fs h = elim (Option-cases (Dict.get function st.functions)) [
    | inl e ↦ rw (e, run_call) refl
    | inr (body, e) ↦ elim (Bool-cases (leb st.max_call_depth st.call_depth)) [
      | inl d ↦ rw (e, d, run_call) refl
      | inr d ↦
          let same =
            enter_call-eq save_as (bind_args args st.scopes) (e1 body) (e2 body) st
              (h body _ (fs function body e) fs refl refl (ground arith)) in
          rw (e, d, run_call) (ap (λ s. (s, none)) same)
    ]
  ]

  module _ (enters : Enters rt e2) (depth limit : ℕ) (deeper : Deeper rt e1 e2 depth limit) where
    mutual
      unfolding run_step is_sequential

      step-eq :
          (step : WorkflowStep) (st : State rt)
          → is_sequential step ≡ true
          → SequentialFunctions st.functions
          → st.call_depth ≡ depth
          → st.max_call_depth ≡ limit
          → run_step rt e1 step st ≡ run_step rt e2 step st
      step-eq (tool_call id tool args save_as) st q fs d l = refl
      step-eq (set_var id name value) st q fs d l = refl
      step-eq (sequence id steps) st q fs d l =
          guarded-eq id _ _ _ st
            (ap (λ s. (s, none)) (sequence-eq steps (begin_step id sequence_kind st) q fs d l))
      step-eq (parallel id steps) st q fs d l = cc
      step-eq (branch id condition when_true when_false) st q fs d l = guarded-eq id _ _ _ st (
          ap (λ s. (s, none))
            (if-eq (eval_condition rt.same_object condition st.scopes)
              (step-eq when_true (begin_step id branch_kind st) (and-eq-true _ _ q).0 fs d l)
              (optional-eq when_false (begin_step id branch_kind st) (and-eq-true _ _ q).1 fs d l)))
      step-eq (call id function args save_as) st q fs d l = guarded-eq id _ _ _ st (
          run_call-eq function args save_as (begin_step id call_kind st) fs (λ body s k h e f lt.
            deeper body s k h (e ∙ ap (λ n. n + 1) d) (f ∙ l) (omega (arith, d, l, lt))))
      step-eq (return_ id value) st q fs d l = refl
      step-eq (try_ id body catch finally) st q fs d l =
          let from = begin_step id try_kind st in
          let qs = and-eq-true _ _ q in
          let rest = and-eq-true _ _ qs.1 in
          let ran = run_step rt e2 body from in
          let first = step-Balanced rt e2 enters body from qs.0 fs in
          let fs1 = subst SequentialFunctions (sym first.functions) fs in
          let d1 = first.depth ∙ d in
          let l1 = first.limit ∙ l in
          let handled = handle (run_given rt e2 catch) ran in
          let second =
            handle-Balanced (run_given rt e2 catch) ran
              (given-Keeps rt e2 enters catch ran rest.0 fs1) in
          let fs2 = subst SequentialFunctions (sym second.functions) fs1 in
          guarded-eq id _ _ _ st (
            ap (λ s. (s, none))
              (ap (λ s. finally_after (run_given rt e1 finally) (handle (run_given rt e1 catch) s))
                  (step-eq body from qs.0 fs d l)
                ∙ ap (finally_after (run_given rt e1 finally))
                    (handle-eq _ _ ran (given-Agree catch ran rest.0 fs1 d1 l1))
                ∙ finally_after-eq _ _ handled (
                    given-Agree finally handled rest.1 fs2 (second.depth ∙ d1)
                      (second.limit ∙ l1))))
      step-eq (scope id body) st q fs d l =
          guarded-eq id _ _ _ st (
            ap (λ s. (pop s, none)) (step-eq body (push [] (begin_step id scope_kind st)) q fs d l))

      sequence-eq :
          (steps : Steps) (st : State rt)
          → all_sequential steps ≡ true
          → SequentialFunctions st.functions
          → st.call_depth ≡ depth
          → st.max_call_depth ≡ limit
          → run_sequence rt e1 steps st ≡ run_sequence rt e2 steps st
      sequence-eq no_steps st q fs d l = refl
      sequence-eq (step_then step steps) st q fs d l =
          let qs = and-eq-true _ _ q in
          let first = step-Balanced rt e2 enters step st qs.0 fs in
          ap (run_sequence rt e1 steps) (step-eq step st qs.0 fs d l)
          ∙ sequence-eq steps (run_step rt e2 step st) qs.1
              (subst SequentialFunctions (sym first.functions) fs) (first.depth ∙ d)
              (first.limit ∙ l)

      optional-eq :
          (step : OptionalStep) (st : State rt)
          → optional_sequential step ≡ true
          → SequentialFunctions st.functions
          → st.call_depth ≡ depth
          → st.max_call_depth ≡ limit
          → run_optional rt e1 step st ≡ run_optional rt e2 step st
      optional-eq absent st q fs d l = refl
      optional-eq (given step) st q fs d l = step-eq step st q fs d l

      given-Agree :
          (step : OptionalStep) (st : State rt)
          → optional_sequential step ≡ true
          → SequentialFunctions st.functions
          → st.call_depth ≡ depth
          → st.max_call_depth ≡ limit
          → Agree (run_given rt e1 step) (run_given rt e2 step) st
      given-Agree absent st q fs d l = tt
      given-Agree (given step) st q fs d l =
          λ s sf sd sl. step-eq step s q (subst SequentialFunctions (sym sf) fs) (sd ∙ d) (sl ∙ l)

module _ (rt : Runtime) where
  run-enough :
      (fuel big : ℕ) (step : WorkflowStep) (st : State rt)
      → fuel ≤ big
      → is_sequential step ≡ true
      → SequentialFunctions st.functions
      → st.max_call_depth ≤ st.call_depth + fuel
      → run rt fuel step st ≡ run rt big step st
  unfolding run
  run-enough zero zero step st b q fs h = refl
  run-enough zero (suc big) step st b q fs h =
      step-eq rt (λ b s. s) (run rt big) (run-Enters rt big) st.call_depth st.max_call_depth
        (λ body s k f e m lt. absurd (omega (arith, h, lt))) step st q fs refl refl
  run-enough (suc fuel) zero step st b q fs h = absurd (omega arith)
  run-enough (suc fuel) (suc big) step st b q fs h =
      step-eq rt (run rt fuel) (run rt big) (run-Enters rt big) st.call_depth st.max_call_depth
        (λ body s k f e m lt. run-enough fuel big body s (omega arith) k f (omega (arith, h, e, m)))
        step st q fs refl refl

  -- The fuel of `execute_workflow` is enough: with the limit of the call depth for fuel, a workflow
  -- without `parallel` runs as with any greater fuel, since a call beyond the limit is refused. So no
  -- answer of the model, for recursive functions either, comes from running out of fuel.
  pub run-initial_state-enough :
      (fuel limit : ℕ) (wf : Workflow) (vars : Frame) (abort : Bool) (w : rt.World)
      → limit ≤ fuel
      → is_sequential wf.entry ≡ true
      → SequentialFunctions wf.functions
      → run rt fuel wf.entry (initial_state rt wf vars abort limit w)
        ≡ run rt limit wf.entry (initial_state rt wf vars abort limit w)
  run-initial_state-enough fuel limit wf vars abort w b q fs =
      sym (
        run-enough limit fuel wf.entry (initial_state rt wf vars abort limit w) b q fs
          (omega arith))
