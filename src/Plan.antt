-- ===== src/Plan.antt =====
-- packages/agent-worker/src/reasoning/plan-execute-executor.ts, over the types of
-- packages/core/src/schema/reasoning.ts: plans and their steps. A step is an object that the plan,
-- its levels and the executor share; a reference to it is its place in the plan.
pub mod Levels
pub mod Parse
pub mod Retry
pub mod Execute
pub mod Preserve
pub mod Run
mod Tests
use agent_ego.Base.{ℕ, suc, Bool, List, [], ◌∷◌, Option, String}
use agent_ego.Base.Json.{Json}

pub data PlanStepStatus : Type 0 where
  pending running success failed skipped : PlanStepStatus

pub record ToolResult : Type 0 where
  pub tool_name : String
  pub success : Bool
  pub output : Option String
  pub error : Option String

-- What the executor writes into `observation`.
pub data Observation : Type 0 where
  no_tool : Observation
  not_wired : Observation
  denied : String → Observation
  result : ToolResult → Observation

pub record PlanStep : Type 0 where
  pub id : String
  pub goal : String
  pub tool : Option String
  pub args : Option Json
  pub depends_on : List String
  pub status : PlanStepStatus
  pub observation : Option Observation

pub record Plan : Type 0 where
  pub id : String
  pub steps : List PlanStep
  pub parent_plan_id : Option String
  pub rationale : String

-- A reference to a step, with the step as the planner made it.
abbrev pub Ref : Type 0
Ref = ℕ × PlanStep

pub number : ℕ → List PlanStep → List Ref
number n [] = []
number n (s ∷ ss) = (n, s) ∷ number (suc n) ss
