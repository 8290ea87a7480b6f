-- ===== src/Plan/Retry.antt =====
-- `runStepWithRetries` and `executeStep`. The world outside (the abort signal, the capability guard,
-- the sandbox) is a state that each call to it changes. A promise that is rejected is `none`.
pub mod Attempts
use agent_ego.Base.{
  ℕ, zero, suc, ◌+◌, Bool, true, false, not, ◌&&◌, ◌||◌, List, [], ◌∷◌, ◌++◌, Option, none, some,
  String, if◌then◌else◌, str_eq, any, length, get_elem?, set, ltb, or_else,
}
use agent_ego.Base.Json.{Json, object, no_fields}
use agent_ego.Plan.{
  PlanStepStatus, pending, running, success, failed, skipped, ToolResult, Observation, no_tool,
  not_wired, denied, result, PlanStep, Ref,
}
use agent_ego.Plan.Levels.{compute_levels}

pub data Decision : Type 0 where
  allowed : Decision
  refused : (reason : String) → Decision

-- What the executor is given: `deps`, the session and the abort signal of the context.
pub record Env : Type 1 where
  pub World : Type 0
  pub Sandbox : Type 0
  pub wired : Bool
  pub aborted : World → World × Bool
  pub check : String → Json → World → World × Option Decision
  pub acquire : World → World × Option Sandbox
  pub execute : Sandbox → String → Json → World → World × Option ToolResult
  pub release : Sandbox → World → World × Bool

-- What the events say of a step.
pub data Progress : Type 0 where
  started done broken : Progress

pub data StepEvent : Type 0 where
  step_progress : (id goal : String) → Progress → StepEvent

pub data Verdict : Type 0 where
  succeeded not_succeeded threw : Verdict

pub record Attempted (W : Type 0) : Type 0 where
  pub world : W
  pub step : PlanStep
  pub events : List StepEvent
  pub verdict : Verdict

abbrev pub verdict_of : Bool → Verdict
verdict_of true = succeeded
verdict_of false = not_succeeded

abbrev pub observe : PlanStep → Observation → PlanStep
observe s o = record s { observation = some o }

abbrev pub event : PlanStep → Progress → StepEvent
event s p = step_progress s.id s.goal p

module _ (env : Env) where
  open env use {World, Sandbox}

  -- Inside `try … finally`: the observation is written before the sandbox is released, and an
  -- exception of either call passes on.
  unfoldable pub in_sandbox :
      PlanStep → String → Json → Sandbox → World → World × PlanStep × Verdict
  in_sandbox s tool args box w =
      let (w1, answer) = env.execute box tool args w in
      let (w2, released) = env.release box w1 in
      elim answer [
        | none ↦ (w2, s, threw)
        | some r ↦ (w2, observe s (result r), if released then verdict_of r.success else threw)
      ]

  unfoldable pub run_tool : PlanStep → String → Json → World → World × PlanStep × Verdict
  run_tool s tool args w =
      let (w1, decision) = env.check tool args w in
      let (w2, acquired) = env.acquire w1 in
      elim decision [
        | none ↦ (w1, s, threw)
        | some d ↦ elim d [
          | refused reason ↦ (w1, observe s (denied reason), not_succeeded)
          | allowed ↦ elim acquired [
            | none ↦ (w2, s, threw)
            | some box ↦ in_sandbox s tool args box w2
          ]
        ]
      ]

  -- `if (!step.tool)`: no tool, or an empty name.
  unfoldable pub execute_step : PlanStep → World → World × PlanStep × Verdict
  execute_step s w = elim s.tool [
    | none ↦ (w, observe s no_tool, succeeded)
    | some tool ↦
        if str_eq tool ""
        then (w, observe s no_tool, succeeded)
        else if env.wired
        then run_tool s tool (or_else s.args (object no_fields)) w
        else (w, observe s not_wired, not_succeeded)
  ]

  -- What follows an attempt; `again` is the rest of the loop.
  unfoldable pub settle : World × PlanStep × Verdict → Attempted World → Attempted World
  settle (w, s, v) again = elim v [
    | succeeded ↦ record {
      world = w;
      step = record s { status = success };
      events = event s done ∷ [];
      verdict = succeeded;
    }
    | threw ↦ record { world = w; step = s; events = []; verdict = threw }
    | not_succeeded ↦ again
  ]

  -- After the last attempt.
  unfoldable pub give_up : World × PlanStep × Verdict → Attempted World
  give_up (w, s, v) = record {
    world = w;
    step = record s { status = failed };
    events = event s broken ∷ [];
    verdict = not_succeeded;
  }

  abbrev pub started_with : PlanStep → Attempted World → Attempted World
  started_with s a = record a { events = event s started ∷ a.events }

  -- The loop of `runStepWithRetries`, by the retries that are left.
  unfoldable pub run_step_with_retries : ℕ → PlanStep → World → Attempted World
  unfolding settle give_up
  run_step_with_retries zero s w =
      let tried = execute_step (record s { status = running }) w in
      started_with s (settle tried (give_up tried))
  run_step_with_retries (suc retries) s w =
      let tried = execute_step (record s { status = running }) w in
      let again = run_step_with_retries retries tried.1 tried.0 in
      started_with s (settle tried again)
