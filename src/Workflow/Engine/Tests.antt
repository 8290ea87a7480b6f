-- ===== src/Workflow/Engine/Tests.antt =====
-- A workflow with a function that calls itself, run with tools that count their calls.
use agent_ego.Base.{
  ℕ, ◌+◌, ◌≡◌, refl, subst, Bool, true, false, [], ◌∷◌, none, some, arith, str_eq, if◌then◌else◌,
}
use agent_ego.Base.Dict
use agent_ego.Base.Dict.{Dict}
use agent_ego.Base.Json.{json_text}
use agent_ego.Base.Result.{ok}
use agent_ego.Workflow.{
  WorkflowStep, set_var, sequence, call, scope, tool_call, no_steps, step_then, Workflow,
}
use agent_ego.Workflow.Engine.{Runtime, run, initial_state}
use agent_ego.Workflow.Engine.Balance.{is_sequential, SequentialFunctions, Balanced}
use agent_ego.Workflow.Engine.Frames.{run-Balanced, returning-run_call}
use agent_ego.Workflow.Engine.Depth.{run-initial_state-enough}

abbrev counting_tools : Runtime
counting_tools = record {
  World = ℕ;
  execute =
      λ name args w. (w + 1, ok (record { success = true; output = some name; error = none }));
  join = λ children st. st;
  same_object = λ a b. false;
  show = λ n. "n";
}

-- `loop` calls itself.
abbrev looping : WorkflowStep
looping = sequence "s" (
    step_then (tool_call "t" "ping" [] (some "x")) (step_then (call "c" "loop" none none) no_steps))

abbrev scoped : WorkflowStep
scoped = scope "o" (set_var "v" "y" (some (json_text "1")))

abbrev endless : Workflow
endless = record {
  id = "w";
  name = none;
  version = "1";
  entry = looping;
  functions = ("loop", looping) ∷ [];
}

looping-sequential : is_sequential looping ≡ true
unfolding is_sequential
looping-sequential = refl

endless-SequentialFunctions : SequentialFunctions endless.functions
unfolding Dict.get is_sequential
endless-SequentialFunctions name body = go (str_eq "loop" name)
  where
    go : (b : Bool) → (if b then some looping else none) ≡ some body → is_sequential body ≡ true
    go true e = let same : looping ≡ body = cc in subst (λ s. is_sequential s ≡ true) same refl
    go false e = cc

run-Balanced_example :
    Balanced
      (initial_state counting_tools endless [] true 2 0)
      (run counting_tools 2 looping (initial_state counting_tools endless [] true 2 0))
run-Balanced_example =
    run-Balanced counting_tools 2 looping (initial_state counting_tools endless [] true 2 0)
      looping-sequential endless-SequentialFunctions

returning-run_call_example :
    let st = initial_state counting_tools endless [] true 2 0 in
    let out = run counting_tools 2 (call "c" "loop" none none) st in
    (out.returning ≡ st.returning) × (out.return_value ≡ st.return_value)
returning-run_call_example =
    returning-run_call counting_tools 2 "c" "loop" none none
      (initial_state counting_tools endless [] true 2 0)

run-initial_state-enough_example :
    run counting_tools 5 endless.entry (initial_state counting_tools endless [] true 2 0)
    ≡ run counting_tools 2 endless.entry (initial_state counting_tools endless [] true 2 0)
run-initial_state-enough_example =
    run-initial_state-enough counting_tools 5 2 endless [] true 0 (omega arith) looping-sequential
      endless-SequentialFunctions

abbrev ping_once : Workflow
ping_once = record endless { entry = scoped }
