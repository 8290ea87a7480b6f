-- ===== src/Workflow/Engine/Isolation.antt =====
-- No step touches the frames below the innermost one, and calls and scopes leave no trace in it.
use agent_ego.Base.{
  subst, ◌+◌, ◌-◌, ◌≡◌, refl, sym, Bool, true, false, not, ◌&&◌, List, [], Option, none, some,
  String, arith, if◌then◌else◌, leb, inl, inr, Option-cases,
}
use agent_ego.Base.Dict
use agent_ego.Base.Dict.{Dict}
use agent_ego.Base.Json.{Json, null, json_text}
use agent_ego.Base.Result.{Result, ok, err}
use agent_ego.Workflow.{
  WorkflowStep, tool_call, set_var, sequence, parallel, branch, call, return_, try_, scope,
  try_kind, Steps, no_steps, step_then, OptionalStep, absent, given,
}
use agent_ego.Workflow.Values.{Frame, resolve_value, resolve_args, eval_condition}
use agent_ego.Workflow.Engine.{
  ExecState, Runtime, State, begin_step, save, push, pop, tool_result, enter_call, clear_failure,
  handle, finally_after, fail_with, tool_outcome, ToolAnswer, bind_args, run_tool_call, run_call,
  run_step, run_sequence, run_optional, run_given,
}
use agent_ego.Workflow.Engine.Balance.{
  SequentialFunctions, is_sequential, all_sequential, optional_sequential, Coherent, Balanced,
  Balanced-refl, Balanced-trans, if-Balanced, and-eq-true, guarded-Balanced, drop-write_top,
  Balanced-scopes, save-Balanced, pop-Balanced,
}

module _ {W : Type 0} where
  -- `functions`, the depth and the failure are what `Balanced` speaks of beside the frames.
  pub enter_call-Balanced :
      (save_as : Option String) (frame : Frame) (body : ExecState W → ExecState W)
      (st : ExecState W)
      → ((s : ExecState W) → s.functions ≡ st.functions → Balanced s (body s))
      → Balanced st (enter_call save_as frame body st)
  unfolding enter_call
  enter_call-Balanced save_as frame body st h =
      let from = record (push frame st) {
        returning = false;
        return_value = none;
        call_depth = st.call_depth + 1;
      } in
      let inner = body from in
      let b = h from refl in
      let after = record (pop inner) {
        returning = st.returning;
        return_value = st.return_value;
        call_depth = inner.call_depth - 1;
      } in
      let left : Balanced st after = record {
        below = rw b.below refl;
        root = rw b.below refl;
        depth = omega (arith, b.depth);
        limit = b.limit;
        functions = b.functions;
        coherent = λ c.
            let d = b.coherent (record { error = c.error; failed_at = c.failed_at }) in
            record { error = d.error; failed_at = d.failed_at };
      } in
      if-Balanced (not inner.failed)
        (Balanced-trans left (save-Balanced save_as inner.return_value after)) left

  abbrev pub Keeps : Option (ExecState W → ExecState W) → ExecState W → Type 0
  Keeps none st = Unit
  Keeps (some f) st = (s : ExecState W) → s.functions ≡ st.functions → Balanced s (f s)

  Balanced-clear : (st : ExecState W) → Balanced st (clear_failure st)
  Balanced-clear st = record {
    below = refl;
    root = refl;
    depth = refl;
    limit = refl;
    functions = refl;
    coherent = λ c. record { error = refl; failed_at = refl };
  }

  pub handle-Balanced :
      (catch_ : Option (ExecState W → ExecState W)) (st : ExecState W)
      → Keeps catch_ st
      → Balanced st (handle catch_ st)
  unfolding handle
  handle-Balanced none st h = Balanced-refl st
  handle-Balanced (some f) st h =
      if-Balanced st.failed
        (Balanced-trans (Balanced-clear st)
          (pop-Balanced _ (clear_failure st) _ (h (push _ (clear_failure st)) refl)).1)
        (Balanced-refl st)

  finally_after-Balanced :
      (last : Option (ExecState W → ExecState W)) (st : ExecState W)
      → Keeps last st
      → Balanced st (finally_after last st)
  unfolding finally_after
  finally_after-Balanced none st h = Balanced-refl st
  finally_after-Balanced (some f) st h =
      let from = record (clear_failure st) { returning = false } in
      let b = h from refl in
      let clear : Coherent from = record { error = refl; failed_at = refl } in
      if-Balanced (f from).failed
        (record {
          below = b.below;
          root = b.root;
          depth = b.depth;
          limit = b.limit;
          functions = b.functions;
          coherent = λ c. b.coherent clear;
        })
        (record {
          below = b.below;
          root = b.root;
          depth = b.depth;
          limit = b.limit;
          functions = b.functions;
          coherent = λ c. record { error = c.error; failed_at = c.failed_at };
        })

  fail_with-Balanced :
      (message id : String) (st : ExecState W) → Balanced st (fail_with message id st)
  fail_with-Balanced message id st = record {
    below = refl;
    root = refl;
    depth = refl;
    limit = refl;
    functions = refl;
    coherent = λ c. record { error = refl; failed_at = refl };
  }

  tool_result-Balanced :
      (id tool : String) (save_as : Option String) (r : _) (st : ExecState W)
      → Balanced st (tool_result id tool save_as r st)
  tool_result-Balanced id tool save_as r st =
      let saved = save save_as (some (elim r.output [ none ↦ null | some s ↦ json_text s ])) st in
      let b =
        save-Balanced save_as (some (elim r.output [ none ↦ null | some s ↦ json_text s ])) st in
      if-Balanced (not r.success && saved.abort_on_tool_error)
        (Balanced-trans b (fail_with-Balanced _ id saved)) b

  tool_outcome-Balanced :
      (id tool : String) (save_as : Option String) (answer : Result String ToolAnswer)
      (st : ExecState W)
      → Balanced st (tool_outcome id tool save_as answer st).0
  tool_outcome-Balanced id tool save_as (err message) st = Balanced-refl st
  tool_outcome-Balanced id tool save_as (ok r) st = tool_result-Balanced id tool save_as r st

module _ (rt : Runtime) where
  open rt use {World}

  pub run_tool_call-Balanced :
      (id tool : String) (args : List (String × Json)) (save_as : Option String) (st : State rt)
      → Balanced st (run_tool_call rt id tool args save_as st).0
  unfolding run_tool_call
  run_tool_call-Balanced id tool args save_as st =
      let (w, answer) = rt.execute tool (resolve_args args st.scopes) st.world in
      let moved : Balanced st (record st { world = w }) = record {
        below = refl;
        root = refl;
        depth = refl;
        limit = refl;
        functions = refl;
        coherent = λ c. record { error = c.error; failed_at = c.failed_at };
      } in
      Balanced-trans moved (tool_outcome-Balanced id tool save_as answer _)

  abbrev pub Enters : (WorkflowStep → State rt → State rt) → Type 0
  Enters enter =
      (body : WorkflowStep) (st : State rt)
      → is_sequential body ≡ true
      → SequentialFunctions st.functions
      → Balanced st (enter body st)

  SequentialFunctions-eq :
      {fs gs : Dict WorkflowStep} → fs ≡ gs → SequentialFunctions gs → SequentialFunctions fs
  SequentialFunctions-eq e h = subst SequentialFunctions (sym e) h

  pub run_call-Balanced :
      (enter : WorkflowStep → State rt → State rt) (function : String)
      (args : Option (List (String × Json))) (save_as : Option String) (st : State rt)
      → Enters enter
      → SequentialFunctions st.functions
      → Balanced st (run_call rt enter function args save_as st).0
  unfolding run_call
  run_call-Balanced enter function args save_as st h fs =
      elim (Option-cases (Dict.get function st.functions)) [
        | inl e ↦ rw (e, run_call) (Balanced-refl st)
        | inr (body, e) ↦
            rw (e, run_call)
              (enter_or_refuse (leb st.max_call_depth st.call_depth) _ (
                enter_call-Balanced save_as (bind_args args st.scopes) (enter body) st
                  (λ s same. h body s (fs function body e) (SequentialFunctions-eq same fs))))
      ]
    where
      enter_or_refuse :
          (b : Bool) (m : String) {entered : State rt}
          → Balanced st entered
          → let r : State rt × Option String = if b then (st, some m) else (entered, none) in
            Balanced st r.0
      enter_or_refuse true m k = Balanced-refl st
      enter_or_refuse false m k = k

  module _ (enter : WorkflowStep → State rt → State rt) (enters : Enters enter) where
    mutual
      unfolding run_step is_sequential

      pub step-Balanced :
          (step : WorkflowStep) (st : State rt)
          → is_sequential step ≡ true
          → SequentialFunctions st.functions
          → Balanced st (run_step rt enter step st)
      step-Balanced (tool_call id tool args save_as) st q fs =
          guarded-Balanced id _ _ st (run_tool_call-Balanced id tool args save_as _)
      step-Balanced (set_var id name value) st q fs =
          let v = resolve_value value st.scopes in
          let (below, root) = drop-write_top name v st.scopes in
          guarded-Balanced id _ _ st (Balanced-scopes _ _ below root)
      step-Balanced (sequence id steps) st q fs =
          guarded-Balanced id _ _ st (sequence-Balanced steps _ q fs)
      step-Balanced (parallel id steps) st q fs = cc
      step-Balanced (branch id condition when_true when_false) st q fs =
          guarded-Balanced id _ _ st (
            if-Balanced (eval_condition rt.same_object condition st.scopes)
              (step-Balanced when_true _ (and-eq-true _ _ q).0 fs)
              (optional-Balanced when_false _ (and-eq-true _ _ q).1 fs))
      step-Balanced (call id function args save_as) st q fs =
          guarded-Balanced id _ _ st (run_call-Balanced enter function args save_as _ enters fs)
      step-Balanced (return_ id value) st q fs = guarded-Balanced id _ _ st (record {
        below = refl;
        root = refl;
        depth = refl;
        limit = refl;
        functions = refl;
        coherent = λ c. record { error = c.error; failed_at = c.failed_at };
      })
      step-Balanced (try_ id body catch finally) st q fs =
          let first = step-Balanced body (begin_step id try_kind st) (and-eq-true _ _ q).0 fs in
          let fs1 = SequentialFunctions-eq first.functions fs in
          let second =
            handle-Balanced (run_given rt enter catch) _
              (given-Keeps catch _ (and-eq-true _ _ (and-eq-true _ _ q).1).0 fs1) in
          let fs2 = SequentialFunctions-eq second.functions fs1 in
          let third =
            finally_after-Balanced (run_given rt enter finally) _
              (given-Keeps finally _ (and-eq-true _ _ (and-eq-true _ _ q).1).1 fs2) in
          guarded-Balanced id _ _ st (Balanced-trans first (Balanced-trans second third))
      step-Balanced (scope id body) st q fs =
          guarded-Balanced id _ _ st (pop-Balanced [] _ _ (step-Balanced body _ q fs)).1

      sequence-Balanced :
          (steps : Steps) (st : State rt)
          → all_sequential steps ≡ true
          → SequentialFunctions st.functions
          → Balanced st (run_sequence rt enter steps st)
      sequence-Balanced no_steps st q fs = Balanced-refl st
      sequence-Balanced (step_then step steps) st q fs =
          let first = step-Balanced step st (and-eq-true _ _ q).0 fs in
          Balanced-trans first (
            sequence-Balanced steps _ (and-eq-true _ _ q).1
              (SequentialFunctions-eq first.functions fs))

      optional-Balanced :
          (step : OptionalStep) (st : State rt)
          → optional_sequential step ≡ true
          → SequentialFunctions st.functions
          → Balanced st (run_optional rt enter step st)
      optional-Balanced absent st q fs = Balanced-refl st
      optional-Balanced (given step) st q fs = step-Balanced step st q fs

      pub given-Keeps :
          (step : OptionalStep) (st : State rt)
          → optional_sequential step ≡ true
          → SequentialFunctions st.functions
          → Keeps (run_given rt enter step) st
      given-Keeps absent st q fs = tt
      given-Keeps (given step) st q fs =
          λ s same. step-Balanced step s q (SequentialFunctions-eq same fs)
