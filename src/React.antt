-- ===== src/React.antt =====
-- packages/agent-worker/src/reasoning/react-executor.ts. The model, the guard, the sandbox and the abort
-- signal are a state that each call to them changes; a stream is the chunks that it yields, each with
-- whether the abort signal is set when it arrives, and whether it throws after them.
pub mod Chunks
pub mod Calls
pub mod Loop
pub mod Budget
pub mod Rounds
pub mod Protocol
pub mod Pairing
pub mod Ending
pub mod Calm
mod Tests
use agent_ego.Base.{
  ℕ, zero, suc, ◌+◌, Bool, true, false, not, ◌&&◌, ◌||◌, List, [], ◌∷◌, ◌++◌, map, Option, none,
  some, String, ◌<>◌, ◌≡◌, ◌⊎◌, inl, inr, refl, or_else, str_eq, any, ltb, leb, length,
  if◌then◌else◌,
}
use agent_ego.Base.Dict
use agent_ego.Base.Dict.{Dict}
use agent_ego.Base.Json.{Json, object, no_fields}
use agent_ego.Base.Result.{Result, ok, err}
use agent_ego.Plan.{ToolResult}
use agent_ego.Plan.Retry.{Decision, allowed, refused}
use agent_ego.Reasoning.{
  TerminationReason, final_answer, max_steps_reached, tool_exhaustion, hard_error, user_abort,
  ReasoningBudget, clone_budget, MessageContent, extract_text, Role, assistant, tool, ToolCallRef,
  CompletionMessage, PriorMessage, to_completion_message, user_message, Usage, StreamChunk,
  text_delta, tool_call_start, tool_call_delta, tool_call_end, usage_chunk, done_chunk,
}
use agent_ego.Tools.Registry.{ToolDescriptor}

pub record ReactExecutorConfig : Type 0 where
  pub max_steps : Option ℕ
  pub max_tool_calls : Option ℕ
  pub tool_retry_limit : Option ℕ

pub record PendingToolCall : Type 0 where
  pub id : String
  pub name : String
  pub args_raw : String

pub data FailureReason : Type 0 where
  no_executor invalid_args permission_denied no_policy transient exhausted : FailureReason

-- `reason` is `none` for a success.
pub record ToolObservation : Type 0 where
  pub text : String
  pub reason : Option FailureReason

pub data TraceStep : Type 0 where
  thought : (text : String) → TraceStep
  tool_call : PendingToolCall → TraceStep
  observation : ToolObservation → TraceStep
  final : (text : String) → TraceStep

pub data ReasoningEvent : Type 0 where
  step_event : TraceStep → ReasoningEvent
  delta_event : String → ReasoningEvent
  usage_event : Usage → ReasoningEvent
  final_event : (text : String) → Option TerminationReason → ReasoningEvent

pub data Request : Type 0 where
  step_request : List CompletionMessage → Option (List ToolDescriptor) → Request
  synthesis_request : List TraceStep → Option TerminationReason → List CompletionMessage → Request

pub record Stream : Type 0 where
  pub chunks : List (StreamChunk × Bool)
  pub throws : Bool

-- `tools_wired`: a guard and a sandbox are given; `show` prints a number.
pub record ReactEnv : Type 1 where
  pub World : Type 0
  pub Sandbox : Type 0
  pub tools_wired : Bool
  pub policy_wired : Bool
  pub live_tools : World → List ToolDescriptor
  pub aborted : World → World × Bool
  pub stream : Request → World → World × Stream
  pub parse_json : String → Result String Json
  pub check : String → Json → World → World × Option Decision
  pub acquire : World → World × Option Sandbox
  pub execute : Sandbox → String → Json → World → World × Option ToolResult
  pub release : Sandbox → World → World × Bool
  pub show : ℕ → String

pub record ReactState (W : Type 0) : Type 0 where
  pub world : W
  pub budget : ReasoningBudget
  pub trace : List TraceStep
  pub messages : List CompletionMessage
  pub retry_counts : Dict ℕ
  pub events : List ReasoningEvent
  pub termination : Option TerminationReason
  pub final_text : String

-- How a part of the turn ends: the loop goes on, it is left, or an exception passes through.
pub data Flow : Type 0 where
  go_on stop threw : Flow

abbrev pub is_success : ToolObservation → Bool
is_success o = elim o.reason [ none ↦ true | some _ ↦ false ]

abbrev pub is_tool_step : TraceStep → Bool
is_tool_step (tool_call _) = true
is_tool_step (observation _) = true
is_tool_step _ = false

module _ {W : Type 0} where
  abbrev pub append_step : TraceStep → ReactState W → ReactState W
  append_step s st = record st { trace = st.trace ++ s ∷ [] }

  abbrev pub yield_step : TraceStep → ReactState W → ReactState W
  yield_step s st = record st {
    trace = st.trace ++ s ∷ [];
    events = st.events ++ step_event s ∷ [];
  }

  abbrev pub terminate : TerminationReason → ReactState W → ReactState W
  terminate r st = record st { termination = some r }

abbrev pub State : ReactEnv → Type 0
State env = ReactState env.World

pub Flow-cases : (f : Flow) → (f ≡ go_on) ⊎ ((f ≡ stop) ⊎ (f ≡ threw))
Flow-cases go_on = inl refl
Flow-cases stop = inr (inl refl)
Flow-cases threw = inr (inr refl)
