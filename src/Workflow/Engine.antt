-- ===== src/Workflow/Engine.antt =====
-- packages/workflow/src/engine.ts: the interpreter. The stack of frames has the innermost frame first;
-- the names of the events' fields are the source's. What the tools do, how the event loop interleaves
-- the children of a `parallel` step over the shared state, what `===` says of two objects and how a
-- number is printed come from the surroundings, `Runtime`.
pub mod Balance
pub mod Isolation
pub mod Frames
pub mod Depth
mod Tests
use Prim.Native.String.{◌++◌ as ◌<>◌}
use agent_ego.Base.{
  ℕ, zero, suc, ◌+◌, ◌-◌, Bool, true, false, not, ◌||◌, ◌&&◌, List, [], ◌∷◌, Option, none, some,
  String, str_eq, is_some, or_else, leb, if◌then◌else◌,
}
use agent_ego.Base.Dict
use agent_ego.Base.Dict.{Dict}
use agent_ego.Base.Json.{Json, json_text, null}
use agent_ego.Base.Result.{Result, ok, err}
use agent_ego.Workflow.{
  WorkflowStep, tool_call, set_var, sequence, parallel, branch, call, return_, try_, scope, Steps,
  no_steps, step_then, OptionalStep, absent, given, Kind, tool_call_kind, set_var_kind,
  sequence_kind, parallel_kind, branch_kind, call_kind, return_kind, try_kind, scope_kind, Workflow,
}
use agent_ego.Workflow.Values.{Value, Frame, write_top, resolve_value, resolve_args, eval_condition}

pub record ToolAnswer : Type 0 where
  pub success : Bool
  pub output : Option String
  pub error : Option String

pub data StepEvent : Type 0 where
  start : (step_id : String) (kind : Kind) → StepEvent
  end_ : (step_id : String) (kind : Kind) (ok : Bool) (error : Option String) → StepEvent

-- `events` are those that `onStep` is called with, the last one first.
pub record ExecState (W : Type 0) : Type 0 where
  pub world : W
  pub functions : Dict WorkflowStep
  pub scopes : List Frame
  pub step_count : ℕ
  pub events : List StepEvent
  pub abort_on_tool_error : Bool
  pub failed : Bool
  pub error : Option String
  pub failed_at_step_id : Option String
  pub returning : Bool
  pub return_value : Value
  pub call_depth : ℕ
  pub max_call_depth : ℕ

pub record Runtime : Type 1 where
  pub World : Type 0
  pub execute : String → List (String × Value) → World → World × Result String ToolAnswer
  pub join : List (ExecState World → ExecState World) → ExecState World → ExecState World
  pub same_object : Json → Json → Bool
  pub show : ℕ → String

abbrev pub drop_top : List Frame → List Frame
drop_top [] = []
drop_top (frame ∷ frames) = frames

module _ {W : Type 0} where
  abbrev pub begin_step : String → Kind → ExecState W → ExecState W
  begin_step id kind st = record st {
    events = start id kind ∷ st.events;
    step_count = st.step_count + 1;
  }

  abbrev pub fail_with : String → String → ExecState W → ExecState W
  fail_with message id st = record st {
    failed = true;
    error = some message;
    failed_at_step_id = some id;
  }

  -- After the `switch`: its end, or the `catch` clause with the message that was thrown.
  abbrev pub finish_step : String → Kind → ExecState W × Option String → ExecState W
  finish_step id kind (st, none) = record st {
    events = end_ id kind (not st.failed) none ∷ st.events;
  }
  finish_step id kind (st, some message) = record (fail_with message id st) {
    events = end_ id kind false (some message) ∷ st.events;
  }

  -- `runStep` around the code of a kind of step.
  unfoldable pub guarded :
      String → Kind → (ExecState W → ExecState W × Option String) → ExecState W → ExecState W
  guarded id kind body st =
      if st.failed || st.returning then st else finish_step id kind (body (begin_step id kind st))

  abbrev pub quietly : (ExecState W → ExecState W) → ExecState W → ExecState W × Option String
  quietly f st = (f st, none)

  -- `if (step.saveAs) writeVar(...)`: an empty name is not written.
  unfoldable pub save : Option String → Value → ExecState W → ExecState W
  save none value st = st
  save (some name) value st =
      if str_eq name "" then st else record st { scopes = write_top name value st.scopes }

  abbrev pub push : Frame → ExecState W → ExecState W
  push frame st = record st { scopes = frame ∷ st.scopes }

  abbrev pub pop : ExecState W → ExecState W
  pop st = record st { scopes = drop_top st.scopes }

  -- The end of `runToolCall`.
  abbrev pub tool_result : String → String → Option String → ToolAnswer → ExecState W → ExecState W
  tool_result id tool save_as r st =
      let saved = save save_as (some (elim r.output [ none ↦ null | some s ↦ json_text s ])) st in
      if not r.success && saved.abort_on_tool_error
      then fail_with (or_else r.error ("tool " <> tool <> " failed")) id saved
      else saved

  -- A rejected call throws its message.
  abbrev pub tool_outcome :
      String
      → String
      → Option String
      → Result String ToolAnswer
      → ExecState W
      → ExecState W × Option String
  tool_outcome id tool save_as (err message) st = (st, some message)
  tool_outcome id tool save_as (ok r) st = (tool_result id tool save_as r st, none)

  -- `runCall` around the run of the function's body: a fresh frame and a fresh return state, which are
  -- the caller's again afterwards.
  unfoldable pub enter_call :
      Option String → Frame → (ExecState W → ExecState W) → ExecState W → ExecState W
  enter_call save_as frame body st =
      let inner = body (record (push frame st) {
        returning = false;
        return_value = none;
        call_depth = st.call_depth + 1;
      }) in
      let after = record (pop inner) {
        returning = st.returning;
        return_value = st.return_value;
        call_depth = inner.call_depth - 1;
      } in
      if not inner.failed then save save_as inner.return_value after else after

  abbrev pub clear_failure : ExecState W → ExecState W
  clear_failure st = record st { failed = false; error = none; failed_at_step_id = none }

  -- `try`'s handler, in a frame of its own; without one the failure stays as it is.
  unfoldable pub handle : Option (ExecState W → ExecState W) → ExecState W → ExecState W
  handle none st = st
  handle (some catch_) st =
      if st.failed
      then pop (
          catch_ (
            push
              (("__error__", some (json_text (or_else st.error "")))
                ∷ ("__errorStepId__", some (json_text (or_else st.failed_at_step_id "")))
                ∷ [])
              (clear_failure st)))
      else st

  -- A `finally` that ends well leaves the failure and the return state of before.
  unfoldable pub finally_after : Option (ExecState W → ExecState W) → ExecState W → ExecState W
  finally_after none st = st
  finally_after (some last) st =
      let after = last (record (clear_failure st) { returning = false }) in
      if after.failed then after else record after {
        failed = st.failed;
        error = st.error;
        failed_at_step_id = st.failed_at_step_id;
        returning = st.returning;
      }

abbrev pub bind_args : Option (List (String × Json)) → List Frame → Frame
bind_args none scopes = []
bind_args (some args) scopes = resolve_args args scopes

module _ (rt : Runtime) where
  open rt use {World}

  abbrev pub State : Type 0
  State = ExecState World

  unfoldable pub run_tool_call :
      String → String → List (String × Json) → Option String → State → State × Option String
  run_tool_call id tool args save_as st =
      let (w, answer) = rt.execute tool (resolve_args args st.scopes) st.world in
      tool_outcome id tool save_as answer (record st { world = w })

  -- `runCall`; `enter` runs the body of a function.
  unfoldable pub run_call :
      (WorkflowStep → State → State)
      → String
      → Option (List (String × Json))
      → Option String
      → State
      → State × Option String
  unfolding enter_call
  run_call enter function args save_as st = elim (Dict.get function st.functions) [
    | none ↦ (st, some ("call: function '" <> function <> "' is not defined"))
    | some body ↦
        if leb st.max_call_depth st.call_depth
        then (
          st,
          some (
              "call: depth limit ("
              <> rt.show st.max_call_depth
              <> ") exceeded — possible infinite recursion at function '"
              <> function
              <> "'"),
        )
        else (enter_call save_as (bind_args args st.scopes) (enter body) st, none)
  ]

  module _ (enter : WorkflowStep → State → State) where
    unfoldable mutual
      pub run_step : WorkflowStep → State → State
      run_step (tool_call id tool args save_as) st =
          guarded id tool_call_kind (run_tool_call id tool args save_as) st
      run_step (set_var id name value) st =
          guarded id set_var_kind
            (quietly
              (λ s. record s { scopes = write_top name (resolve_value value s.scopes) s.scopes }))
            st
      run_step (sequence id steps) st = guarded id sequence_kind (quietly (run_sequence steps)) st
      run_step (parallel id steps) st =
          guarded id parallel_kind (quietly (rt.join (run_children steps))) st
      run_step (branch id condition when_true when_false) st =
          guarded id branch_kind
            (quietly (λ s.
              if eval_condition rt.same_object condition s.scopes
              then run_step when_true s
              else run_optional when_false s))
            st
      run_step (call id function args save_as) st =
          guarded id call_kind (run_call enter function args save_as) st
      run_step (return_ id value) st =
          guarded id return_kind
            (quietly
              (λ s. record s { return_value = resolve_value value s.scopes; returning = true }))
            st
      run_step (try_ id body catch finally) st =
          guarded id try_kind
            (quietly
              (λ s. finally_after (run_given finally) (handle (run_given catch) (run_step body s))))
            st
      run_step (scope id body) st =
          guarded id scope_kind (quietly (λ s. pop (run_step body (push [] s)))) st

      -- The loop's own test is the one at the start of `runStep`.
      pub run_sequence : Steps → State → State
      run_sequence no_steps st = st
      run_sequence (step_then step steps) st = run_sequence steps (run_step step st)

      pub run_children : Steps → List (State → State)
      run_children no_steps = []
      run_children (step_then step steps) = run_step step ∷ run_children steps

      pub run_optional : OptionalStep → State → State
      run_optional absent st = st
      run_optional (given step) st = run_step step st

      pub run_given : OptionalStep → Option (State → State)
      run_given absent = none
      run_given (given step) = some (run_step step)

  -- The interpreter with calls nested at most `fuel` deep.
  unfoldable pub run : ℕ → WorkflowStep → State → State
  unfolding run_step
  run zero step st = run_step (λ body s. s) step st
  run (suc fuel) step st = run_step (run fuel) step st

  pub record ExecuteResult : Type 0 where
    pub completed : Bool
    pub vars : Frame
    pub error : Option String
    pub steps_executed : ℕ

  abbrev pub root_frame : List Frame → Frame
  root_frame [] = []
  root_frame (frame ∷ []) = frame
  root_frame (frame ∷ frames) = root_frame frames

  abbrev pub non_empty_error : Option String → Option String
  non_empty_error none = none
  non_empty_error (some e) = if str_eq e "" then none else some e

  abbrev pub initial_state : Workflow → Frame → Bool → ℕ → World → State
  initial_state wf vars abort_on_tool_error max_call_depth w = record {
    world = w;
    functions = wf.functions;
    scopes = vars ∷ [];
    step_count = 0;
    events = [];
    abort_on_tool_error = abort_on_tool_error;
    failed = false;
    error = none;
    failed_at_step_id = none;
    returning = false;
    return_value = none;
    call_depth = 0;
    max_call_depth = max_call_depth;
  }

  -- With `max_call_depth` for fuel.
  unfoldable pub execute_workflow : Workflow → Frame → Bool → ℕ → World → World × ExecuteResult
  execute_workflow wf vars abort_on_tool_error max_call_depth w =
      let st =
        run max_call_depth wf.entry (initial_state wf vars abort_on_tool_error max_call_depth w) in
      (
        st.world,
        record {
          completed = not st.failed;
          vars = root_frame st.scopes;
          error = non_empty_error st.error;
          steps_executed = st.step_count;
        },
      )
