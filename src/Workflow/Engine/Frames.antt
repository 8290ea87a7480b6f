-- ===== src/Workflow/Engine/Frames.antt =====
-- What a whole run leaves, and what scopes and calls leave of the variables.
use agent_ego.Base.{
  ℕ, zero, suc, ◌+◌, ◌-◌, ◌≡◌, refl, Bool, true, false, not, ◌||◌, List, Option, none, some, String,
  str_eq, if◌then◌else◌, leb,
}
use agent_ego.Base.Dict
use agent_ego.Base.Json.{Json}
use agent_ego.Workflow.{WorkflowStep, call, call_kind, Workflow, Kind}
use agent_ego.Workflow.Values.{Value, Frame}
use agent_ego.Workflow.Engine.{
  ExecState, Runtime, State, guarded, begin_step, finish_step, push, pop, save, enter_call,
  bind_args, run_call, run_step, run,
}
use agent_ego.Workflow.Engine.Balance.{is_sequential, SequentialFunctions, Balanced, Balanced-refl}
use agent_ego.Workflow.Engine.Isolation.{Enters, step-Balanced}

module _ (rt : Runtime) where
  open rt use {World}

  pub run-Enters : (fuel : ℕ) → Enters rt (run rt fuel)
  unfolding run
  run-Enters zero body st q fs =
      step-Balanced rt (λ b s. s) (λ b s k h. Balanced-refl s) body st q fs
  run-Enters (suc fuel) body st q fs = step-Balanced rt (run rt fuel) (run-Enters fuel) body st q fs

  -- If neither the step nor any function of the workflow has a `parallel` in it, then a run of the
  -- step, whatever the tools answer, leaves every frame of variables below the innermost as it was,
  -- the depth of calls, its limit and the functions too, and a failure is recorded exactly when there
  -- is a message and the id of a step, if that was so before.
  pub run-Balanced :
      (fuel : ℕ) (step : WorkflowStep) (st : State rt)
      → is_sequential step ≡ true
      → SequentialFunctions st.functions
      → Balanced st (run rt fuel step st)
  run-Balanced = run-Enters

-- Leaving a call gives the caller its return state back.
module _ {W : Type 0} where
  pub save-returning :
      (save_as : Option String) (value : Value) (st : ExecState W)
      → ((save save_as value st).returning ≡ st.returning)
        × ((save save_as value st).return_value ≡ st.return_value)
  unfolding save
  save-returning none value st = (refl, refl)
  save-returning (some name) value st = go (str_eq name "") _
    where
      go :
          (b : Bool) (scopes : List Frame)
          → let out : ExecState W = if b then st else record st { scopes = scopes } in
            (out.returning ≡ st.returning) × (out.return_value ≡ st.return_value)
      go true scopes = (refl, refl)
      go false scopes = (refl, refl)

  pub enter_call-returning :
      (save_as : Option String) (frame : Frame) (body : ExecState W → ExecState W)
      (st : ExecState W)
      → ((enter_call save_as frame body st).returning ≡ st.returning)
        × ((enter_call save_as frame body st).return_value ≡ st.return_value)
  unfolding enter_call
  enter_call-returning save_as frame body st =
      let inner = body (record (push frame st) {
        returning = false;
        return_value = none;
        call_depth = st.call_depth + 1;
      }) in
      let after = record (pop inner) {
        returning = st.returning;
        return_value = st.return_value;
        call_depth = inner.call_depth - 1;
      } in
      go (not inner.failed) (save save_as inner.return_value after) after
        (save-returning save_as inner.return_value after) (refl, refl)
    where
      go :
          (b : Bool) (x y : ExecState W)
          → (x.returning ≡ st.returning) × (x.return_value ≡ st.return_value)
          → (y.returning ≡ st.returning) × (y.return_value ≡ st.return_value)
          → let out : ExecState W = if b then x else y in
            (out.returning ≡ st.returning) × (out.return_value ≡ st.return_value)
      go true x y h k = h
      go false x y h k = k

module _ (rt : Runtime) where
  run_call-returning :
      (enter : WorkflowStep → State rt → State rt) (function : String)
      (args : Option (List (String × Json))) (save_as : Option String) (st : State rt)
      → let out = (run_call rt enter function args save_as st).0 in
        (out.returning ≡ st.returning) × (out.return_value ≡ st.return_value)
  unfolding run_call
  run_call-returning enter function args save_as st =
      go (Dict.get function st.functions) (leb st.max_call_depth st.call_depth) _ _
    where
      go :
          (f : Option WorkflowStep) (deep : Bool) (m n : String)
          → let out : State rt × Option String = elim f [
            | none ↦ (st, some m)
            | some body ↦
                if deep
                then (st, some n)
                else (enter_call save_as (bind_args args st.scopes) (enter body) st, none)
          ] in
            (out.0.returning ≡ st.returning) × (out.0.return_value ≡ st.return_value)
      go none deep m n = (refl, refl)
      go (some body) true m n = (refl, refl)
      go (some body) false m n = enter_call-returning save_as _ (enter body) st

  guarded-returning :
      (id : String) (kind : Kind) (body : State rt → State rt × Option String) (st : State rt)
      → ((body (begin_step id kind st)).0.returning ≡ st.returning)
        × ((body (begin_step id kind st)).0.return_value ≡ st.return_value)
      → ((guarded id kind body st).returning ≡ st.returning)
        × ((guarded id kind body st).return_value ≡ st.return_value)
  unfolding guarded
  guarded-returning id kind body st e =
      go (st.failed || st.returning) (body (begin_step id kind st)) e
    where
      go :
          (b : Bool) (r : State rt × Option String)
          → (r.0.returning ≡ st.returning) × (r.0.return_value ≡ st.return_value)
          → let out : State rt = if b then st else finish_step id kind r in
            (out.returning ≡ st.returning) × (out.return_value ≡ st.return_value)
      go true r e = (refl, refl)
      go false (out, none) e = e
      go false (out, some m) e = e

  -- A return does not leave the call that it happens in: whatever the function does, and whether or not
  -- it is defined and may be entered, the call step leaves the caller's return state as it was.
  pub returning-run_call :
      (fuel : ℕ) (id function : String) (args : Option (List (String × Json)))
      (save_as : Option String) (st : State rt)
      → let out = run rt fuel (call id function args save_as) st in
        (out.returning ≡ st.returning) × (out.return_value ≡ st.return_value)
  unfolding run run_step
  returning-run_call zero id function args save_as st =
      guarded-returning id call_kind _ st
        (run_call-returning _ function args save_as (begin_step id call_kind st))
  returning-run_call (suc fuel) id function args save_as st =
      guarded-returning id call_kind _ st
        (run_call-returning _ function args save_as (begin_step id call_kind st))
