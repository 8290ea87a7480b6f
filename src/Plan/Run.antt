-- ===== src/Plan/Run.antt =====
-- `run` of the plan-and-execute reasoner. The planner and the actor answer with the chunks of a stream
-- and whether it throws after them; a prompt is what it is built from. A plan in the trace is its id,
-- since the trace shares the plan's steps with the executor.
pub mod Turn
pub mod Events
pub mod Planning
pub mod Answers
mod Tests
use agent_ego.Base.{
  ℕ, zero, suc, ◌+◌, ◌-◌, ◌*◌, Bool, true, false, not, ◌&&◌, ◌||◌, List, [], ◌∷◌, ◌++◌, map, Option,
  none, some, String, ◌<>◌, or_else, any, ltb, leb, length, if◌then◌else◌, filter,
}
use agent_ego.Base.Json.{Json}
use agent_ego.Base.Result.{Result, ok, err}
use agent_ego.Reasoning.{
  TerminationReason, final_answer, hard_error, user_abort, ReasoningBudget, MessageContent,
  text_content, extract_text, join, Usage, StreamChunk, text_delta, usage_chunk,
}
use agent_ego.Plan.{PlanStep, PlanStepStatus, pending, failed, Plan}
use agent_ego.Plan.Parse.{parse_plan}
use agent_ego.Plan.Retry.{Env, StepEvent}
use agent_ego.Plan.Execute.{
  Outcome, success_all, partial, aborted_run, rejected, replan_needed, PlanRun, is_failed,
  execute_plan,
}
use agent_ego.Plan.Preserve.{Matcher, Carry, preserve_prior_successes}

pub record PlanExecuteConfig : Type 0 where
  pub step_retry_limit : Option ℕ
  pub replan_limit : Option ℕ
  pub parallel_execution : Bool

-- What the planner is asked for.
pub data PlannerRequest : Type 0 where
  initial_plan : PlannerRequest
  goal_refresh : (previous : Plan) → PlannerRequest
  replan : (previous : Plan) (failed_step : PlanStep) (attempt round : ℕ) → PlannerRequest

pub data ReplanReason : Type 0 where
  goal_updates_high_relevance : ReplanReason
  step_retry_exhausted : (failed_step_id : String) (attempt : ℕ) → ReplanReason

pub data HandOverReason : Type 0 where
  replan_limit_exceeded plan_validation_error : HandOverReason

pub data TraceEntry : Type 0 where
  plan_entry : (plan_id : String) → TraceEntry
  replan_entry : (from_id to_id : String) → ReplanReason → (preserved : List String) → TraceEntry
  invalid_plan_entry : TraceEntry
  hand_over_entry :
      HandOverReason
      → (round : ℕ) (failed_step_id : String) (remaining_goals : List String) → TraceEntry
  answer_entry : (text : String) → TraceEntry

pub data PlanEvent (F : Type 0) : Type 0 where
  progress : StepEvent → PlanEvent F
  entry : TraceEntry → PlanEvent F
  spent : Usage → PlanEvent F
  final : (text : String) → Option TerminationReason → PlanEvent F
  from_fallback : F → PlanEvent F

-- The parts of the context that the run itself reads; a relevance is a fraction.
pub record Context : Type 0 where
  pub content : MessageContent
  pub budget : Option ReasoningBudget
  pub relevance : Option (ℕ × ℕ)
  pub goal_updates : List String

-- `FallbackEvent`: the events of the ReAct fallback.
pub record PlanEnv : Type 1 where
  pub tools : Env
  pub FallbackEvent : Type 0
  pub read_json : String → Option Json
  pub generate_id : tools.World → tools.World × String
  pub planner : PlannerRequest → tools.World → tools.World × List StreamChunk × Bool
  pub actor : Plan → tools.World → tools.World × List StreamChunk × Bool
  pub matcher : Option (Matcher tools.World)
  pub fallback :
      Option ReasoningBudget
      → MessageContent
      → tools.World
      → tools.World × List FallbackEvent × Bool
  pub show : ℕ → String

pub record PlanState (W F : Type 0) : Type 0 where
  pub world : W
  pub plan : Plan
  pub trace : List TraceEntry
  pub events : List (PlanEvent F)

-- How a run ends: with a final event of its own, with the fallback's run, or with an exception.
pub data Ending : Type 0 where
  answered delegated crashed : Ending

pub record RunResult (W F : Type 0) : Type 0 where
  pub world : W
  pub plan : Option Plan
  pub trace : List TraceEntry
  pub events : List (PlanEvent F)
  pub termination : Option TerminationReason
  pub ending : Ending

pub data Planned : Type 0 where
  planned : Plan → Planned
  invalid planner_threw : Planned

-- The text of a stream and what it spent.
unfoldable pub read_text : List StreamChunk → String × List Usage
read_text [] = ("", [])
read_text (text_delta delta ∷ chunks) = let (text, us) = read_text chunks in (delta <> text, us)
read_text (usage_chunk u ∷ chunks) = let (text, us) = read_text chunks in (text, u ∷ us)
read_text (_ ∷ chunks) = read_text chunks

abbrev pub with_parent : PlannerRequest → Plan → Plan
with_parent initial_plan p = p
with_parent (goal_refresh previous) p = record p { parent_plan_id = some previous.id }
with_parent (replan previous failed_step attempt round) p = record p {
  parent_plan_id = some previous.id;
}

-- `egoRelevance > 0.8`, and at least one update.
abbrev pub should_fire_goal_update_replan : Context → Bool
should_fire_goal_update_replan ctx = elim ctx.relevance [
  | none ↦ false
  | some (n, d) ↦ ltb (4 * d) (5 * n) && ltb 0 (length ctx.goal_updates)
]

abbrev pub is_remaining : PlanStepStatus → Bool
is_remaining pending = true
is_remaining failed = true
is_remaining _ = false

abbrev pub goals_of : List PlanStep → List String
goals_of [] = []
goals_of (s ∷ ss) = s.goal ∷ goals_of ss

module _ (env : PlanEnv) where
  open env use {tools, FallbackEvent}
  open tools use {World}

  abbrev pub State : Type 0
  State = PlanState World FallbackEvent

  abbrev pub Run : Type 0
  Run = RunResult World FallbackEvent

  abbrev pub Event : Type 0
  Event = PlanEvent FallbackEvent
