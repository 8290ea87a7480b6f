-- ===== src/Hybrid.antt =====
-- The reasoner that chooses between the two executors: packages/agent-worker/src/reasoning/
-- hybrid-reasoner.ts and complexity-router.ts. What the regular expressions of the router count is an
-- argument. The fallback of the plan-and-execute reasoner is the ReAct reasoner of the same worker.
pub mod Routing
pub mod Closing
mod Tests
use agent_ego.Base.{
  ℕ, ◌+◌, Bool, true, false, not, ◌&&◌, List, [], ◌∷◌, map, Option, none, some, String, or_else,
  leb, length, if◌then◌else◌,
}
use agent_ego.Base.Json.{Json}
use agent_ego.Base.Result.{Result, ok, err}
use agent_ego.Reasoning.{
  ReasoningMode, react, plan_execute, ReasoningBudget, MessageContent, extract_text, PriorMessage,
  StreamChunk,
}
use agent_ego.Tools.Registry.{ToolDescriptor}
use agent_ego.Plan.{Plan}
use agent_ego.Plan.Retry.{Env}
use agent_ego.Plan.Preserve.{Matcher}
use agent_ego.Plan.Run.{
  PlanExecuteConfig, PlannerRequest, Context, PlanEnv, PlanEvent, from_fallback, Ending, answered,
  delegated, crashed,
}
use agent_ego.Plan.Run.Turn
use agent_ego.React.{ReactExecutorConfig, ReactEnv, ReasoningEvent, State}
use agent_ego.React.Loop

pub data RequestType : Type 0 where
  direct_answer tool_assisted research_needed workflow_execution clarification_needed
        not_actionable :
      RequestType

pub data EstimatedComplexity : Type 0 where
  low medium high : EstimatedComplexity

-- The parts of a perception that the router reads.
pub record Perception : Type 0 where
  pub request_type : RequestType
  pub estimated_complexity : EstimatedComplexity

pub record RouterConfig : Type 0 where
  pub sentence_threshold : Option ℕ
  pub imperative_threshold : Option ℕ
  pub tool_threshold : Option ℕ

pub record RouterInput : Type 0 where
  pub ego_perception : Option Perception
  pub content : MessageContent
  pub available_tools : List ToolDescriptor
  pub force_mode : Option ReasoningMode

-- `if (condition) score++`.
abbrev pub point : Bool → ℕ
point condition = if condition then 1 else 0

-- What a perception decides; each of its complexities decides.
abbrev pub perceived : Perception → ReasoningMode
perceived p = elim p.request_type [
  | workflow_execution ↦ plan_execute
  | _ ↦ elim p.estimated_complexity [ low ↦ react | medium ↦ plan_execute | high ↦ plan_execute ]
]

-- The counts of sentences and of imperative verbs in a text.
module _ (count_sentences count_imperative_verbs : String → ℕ) where
  unfoldable pub score : RouterConfig → MessageContent → List ToolDescriptor → ℕ
  score config content tools =
      let text = extract_text "" content in
      point (leb (or_else config.sentence_threshold 2) (count_sentences text))
      + point (leb (or_else config.imperative_threshold 2) (count_imperative_verbs text))
      + point (leb (or_else config.tool_threshold 3) (length tools))

  unfoldable pub select : RouterConfig → RouterInput → ReasoningMode
  unfolding score
  select config input = elim input.force_mode [
    | some mode ↦ mode
    | none ↦ elim input.available_tools [
      | [] ↦ react
      | t ∷ ts ↦ elim input.ego_perception [
        | some p ↦ perceived p
        | none ↦ if leb 2 (score config input.content (t ∷ ts)) then plan_execute else react
      ]
    ]
  ]

pub record HybridConfig : Type 0 where
  pub react : ReactExecutorConfig
  pub plan_execute : PlanExecuteConfig
  pub disable_plan_execute : Bool

-- The surroundings of the ReAct reasoner and of the planner. `router` is the router that is injected,
-- or the default one.
pub record HybridEnv : Type 1 where
  pub react : ReactEnv
  pub generate_id : react.World → react.World × String
  pub planner : PlannerRequest → react.World → react.World × List StreamChunk × Bool
  pub actor : Plan → react.World → react.World × List StreamChunk × Bool
  pub matcher : Option (Matcher react.World)
  pub router : RouterInput → ReasoningMode

-- The parts of the context that the reasoners read.
pub record HybridContext : Type 0 where
  pub turn : Context
  pub prior : List PriorMessage
  pub available_tools : List ToolDescriptor
  pub ego_perception : Option Perception

pub record HybridRun (W : Type 0) : Type 0 where
  pub world : W
  pub events : List (PlanEvent ReasoningEvent)
  pub returned : Bool

abbrev pub has_returned : Ending → Bool
has_returned answered = true
has_returned delegated = true
has_returned crashed = false

abbrev pub parsed : Result String Json → Option Json
parsed (ok v) = some v
parsed (err message) = none

module _ (env : HybridEnv) where
  open env.react use {World}

  -- All three of the tool dependencies are there.
  abbrev pub tools_wired : Bool
  tools_wired = env.react.tools_wired && env.react.policy_wired

  abbrev pub plan_tools : Env
  plan_tools = record {
    World = World;
    Sandbox = env.react.Sandbox;
    wired = tools_wired;
    aborted = env.react.aborted;
    check = env.react.check;
    acquire = env.react.acquire;
    execute = env.react.execute;
    release = env.react.release;
  }

  abbrev pub run_react :
      ReactExecutorConfig
      → List PriorMessage
      → Option ReasoningBudget
      → MessageContent
      → World
      → World × List ReasoningEvent × Bool
  run_react config prior budget content w =
      let (st, returned) = Loop.run env.react config budget prior content w in
      (st.world, st.events, returned)

  abbrev pub plan_env : ReactExecutorConfig → List PriorMessage → PlanEnv
  plan_env config prior = record {
    tools = plan_tools;
    FallbackEvent = ReasoningEvent;
    read_json = λ text. parsed (env.react.parse_json text);
    generate_id = env.generate_id;
    planner = env.planner;
    actor = env.actor;
    matcher = env.matcher;
    fallback = run_react config prior;
    show = env.react.show;
  }

  abbrev pub select_mode : HybridContext → ReasoningMode
  select_mode ctx = env.router (record {
    ego_perception = ctx.ego_perception;
    content = ctx.turn.content;
    available_tools = ctx.available_tools;
    force_mode = none;
  })

  abbrev pub plan_execute_available : HybridConfig → Bool
  plan_execute_available config = tools_wired && not config.disable_plan_execute

  unfoldable pub effective_mode : HybridConfig → HybridContext → ReasoningMode
  effective_mode config ctx = elim (select_mode ctx) [
    | react ↦ react
    | plan_execute ↦ if plan_execute_available config then plan_execute else react
  ]

  unfoldable pub run : HybridConfig → HybridContext → World → HybridRun World
  run config ctx w =
      let r = Turn.run (plan_env config.react ctx.prior) config.plan_execute ctx.turn w in
      let (w1, events, returned) =
        run_react config.react ctx.prior ctx.turn.budget ctx.turn.content w in
      elim (effective_mode config ctx) [
        | plan_execute ↦ record {
          world = r.world;
          events = r.events;
          returned = has_returned r.ending;
        }
        | react ↦ record { world = w1; events = map from_fallback events; returned = returned }
      ]
