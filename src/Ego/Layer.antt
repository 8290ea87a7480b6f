-- ===== src/Ego/Layer.antt =====
-- packages/ego/src/layer.ts. The model (with what is gathered for it and the validation of its
-- answer), the audit log and the sessions are a state that each call changes; a call that throws says
-- so. Confidences are whole numbers of one scale, costs of another. A pipeline that the timeout
-- overtakes goes on in the background: what is left of it is an operation of its own.
pub mod Pipeline
pub mod Turns
pub mod Decisions
pub mod Fallback
mod Tests
use agent_ego.Base.{
  ℕ, ◌+◌, Bool, true, false, not, ◌&&◌, ◌||◌, List, [], ◌∷◌, Option, none, some, String, ◌<>◌,
  or_else, ltb, str_eq, if◌then◌else◌, take,
}
use agent_ego.Base.Result.{Result, ok, err}
use agent_ego.Ego.CircuitBreaker.{Breaker, allow, record_success, record_failure}
use agent_ego.Ego.CircuitBreaker
use agent_ego.Ego.States.{EgoState, is_operational, is_intervening, downgrade_state}

pub record EgoConfig : Type 0 where
  pub state : EgoState
  pub breaker : CircuitBreaker.Config
  pub fast_path_enabled : Option Bool
  pub fallback_on_error : Bool
  pub max_cost_usd_per_day : ℕ
  pub min_confidence_to_act : ℕ
  pub audit_enabled : Bool

pub data Action : Type 0 where
  act_passthrough act_enrich act_redirect act_direct_response : Action

pub record Redirect : Type 0 where
  pub target_agent_id : String
  pub target_session_id : Option String
  pub reason : String

-- The memories that the model adds are all of an enrichment that is looked at.
pub record Judgment : Type 0 where
  pub action : Action
  pub confidence : ℕ
  pub reason : String
  pub add_memories : List String
  pub redirect : Option Redirect
  pub direct_response : Option String

-- `memories` are those that were gathered.
pub record Thinking : Type 0 where
  pub judgment : Judgment
  pub memories : List String

pub data Decision : Type 0 where
  passthrough : Decision
  enrich : (add_memories : List String) (decision_id : String) → Decision
  redirect_to : Redirect → Decision
  direct_response : (text reason : String) → Decision

pub data Failure : Type 0 where
  schema_violation : (tag : String) → Failure
  timed_out other_failure cost_cap_exceeded : Failure

pub data AuditTag : Type 0 where
  llm_provider_error ego_circuit_open ego_timeout ego_runtime_error daily_cost_cap_hit
        ego_decision :
      AuditTag
  schema_tag : String → AuditTag

pub record ProcessRecord : Type 0 where
  pub decision : Decision
  pub fast_exit : Bool
  pub cost_usd : ℕ

-- When the timeout fires: after the pipeline has ended, while the model thinks, or after that.
pub data Timing : Type 0 where
  in_time overtakes_thinking overtakes_decision : Timing

pub record EgoEnv : Type 1 where
  pub World : Type 0
  pub Message : Type 0
  pub has_llm : Bool
  pub should_fast_exit : Message → EgoConfig → Bool
  pub think : Message → World → World × Result Failure Thinking
  pub timing : World → World × Timing
  pub audit : AuditTag → World → World × Bool
  pub perform_redirect : Redirect → Message → World → World × Bool
  pub generate_id : World → World × String

pub record EgoLayer : Type 0 where
  pub config : EgoConfig
  pub breaker : Breaker
  pub day : String
  pub cost_usd : ℕ

unfoldable pub new : EgoConfig → EgoLayer
new config = record {
  config = config;
  breaker = CircuitBreaker.new config.breaker;
  day = "";
  cost_usd = 0;
}

-- `DailyCostLedger.add`.
unfoldable pub add_cost : ℕ → String → EgoLayer → EgoLayer
add_cost usd today l = record l {
  day = today;
  cost_usd = (if str_eq l.day today then l.cost_usd else 0) + usd;
}

-- The estimate of the cost of a call.
abbrev pub estimated_cost : ℕ
estimated_cost = 0

-- The layer once the model has answered.
unfoldable pub charged : String → EgoLayer → EgoLayer
unfolding add_cost
charged today l = add_cost estimated_cost today (record l { breaker = record_success l.breaker })

unfoldable pub over_cap : EgoLayer → Bool
over_cap l = ltb l.config.max_cost_usd_per_day l.cost_usd

-- Below the threshold nothing is done.
abbrev pub override : EgoConfig → Judgment → Judgment
override config j =
    if ltb j.confidence config.min_confidence_to_act
    then record j {
      action = act_passthrough;
      reason = j.reason <> " [overridden: below threshold]";
    }
    else j

abbrev pub effective_action : EgoConfig → Judgment → Action
effective_action config j =
    if is_intervening config.state then (override config j).action else act_passthrough

abbrev pub add_memories : Thinking → List String
add_memories t = elim t.judgment.add_memories [ [] ↦ take 3 t.memories | m ∷ ms ↦ m ∷ ms ]

abbrev pub skip : Bool → ProcessRecord
skip fast = record { decision = passthrough; fast_exit = fast; cost_usd = 0 }

abbrev pub tag_of : Failure → AuditTag
tag_of (schema_violation tag) = schema_tag tag
tag_of timed_out = ego_timeout
tag_of other_failure = ego_runtime_error
tag_of cost_cap_exceeded = ego_runtime_error
