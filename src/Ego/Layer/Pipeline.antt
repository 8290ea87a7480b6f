-- ===== src/Ego/Layer/Pipeline.antt =====
-- `processDetailed` and what it calls.
use agent_ego.Base.{
  ℕ, Bool, true, false, not, ◌&&◌, Option, none, some, String, or_else, if◌then◌else◌,
}
use agent_ego.Base.Result.{Result, ok, err}
use agent_ego.Ego.CircuitBreaker.{allow, record_failure}
use agent_ego.Ego.States.{is_operational, downgrade_state}
use agent_ego.Ego.Layer.{
  EgoConfig, Action, Thinking, Decision, Failure, ProcessRecord, EgoEnv, EgoLayer, estimated_cost,
  charged, over_cap, effective_action, add_memories, skip, tag_of, act_passthrough, act_enrich,
  act_redirect, act_direct_response, passthrough, enrich, redirect_to, direct_response, timed_out,
  other_failure, cost_cap_exceeded, llm_provider_error, ego_circuit_open, daily_cost_cap_hit,
  ego_decision, in_time, overtakes_thinking, overtakes_decision,
}

module _ (env : EgoEnv) where
  open env use {World, Message}

  -- `none` is an exception.
  unfoldable pub materialize_decision :
      Action → Thinking → Message → String → World → World × Option Decision
  materialize_decision act_passthrough t msg id w = (w, some passthrough)
  materialize_decision act_enrich t msg id w = (w, some (enrich (add_memories t) id))
  materialize_decision act_redirect t msg id w = elim t.judgment.redirect [
    | none ↦ (w, some passthrough)
    | some r ↦
        let (w1, performed) = env.perform_redirect r msg w in
        (w1, if performed then some (redirect_to r) else none)
  ]
  materialize_decision act_direct_response t msg id w = elim t.judgment.direct_response [
    | none ↦ (w, some passthrough)
    | some text ↦ (w, some (direct_response text t.judgment.reason))
  ]

  -- `auditDecision`: false for an exception.
  unfoldable pub audit_decision : EgoConfig → World → World × Bool
  audit_decision config w = if config.audit_enabled then env.audit ego_decision w else (w, true)

  -- The pipeline from the validated thoughts on.
  unfoldable pub decide :
      String
      → Message
      → Thinking
      → EgoLayer
      → World
      → World × EgoLayer × Result Failure ProcessRecord
  decide today msg t l w =
      let spent = charged today l in
      let downgraded = record spent {
        config = record spent.config { state = downgrade_state spent.config.state };
      } in
      let (w1, told) = env.audit daily_cost_cap_hit w in
      let (w2, id) = env.generate_id w in
      let (w3, made) =
        materialize_decision (effective_action spent.config t.judgment) t msg id w2 in
      let (w4, logged) = audit_decision spent.config w3 in
      if over_cap spent
      then (w1, downgraded, err (if told then cost_cap_exceeded else other_failure))
      else elim made [
        | none ↦ (w3, spent, err other_failure)
        | some decision ↦ (
          w4,
          spent,
          if logged
              then ok (record { decision = decision; fast_exit = false; cost_usd = estimated_cost })
              else err other_failure,
        )
      ]

  -- `catch` of `processDetailed`.
  unfoldable pub recover : ℕ → Failure → EgoLayer → World → World × EgoLayer × Option ProcessRecord
  recover now f l w =
      let failed = record l { breaker = record_failure l.breaker now } in
      let (w1, told) = env.audit (tag_of f) w in
      (w1, failed, if told && l.config.fallback_on_error then some (skip false) else none)

  abbrev pub settle :
      ℕ → World × EgoLayer × Result Failure ProcessRecord → World × EgoLayer × Option ProcessRecord
  settle now (w, l, ok r) = (w, l, some r)
  settle now (w, l, err f) = recover now f l w

  -- The deep path, raced against the timeout.
  unfoldable pub deep_path :
      ℕ → String → Message → EgoLayer → World → World × EgoLayer × Option ProcessRecord
  deep_path now today msg l w =
      let (w1, thought) = env.think msg w in
      let (w2, timing) = env.timing w1 in
      elim timing [
        | overtakes_thinking ↦ recover now timed_out l w2
        | in_time ↦ elim thought [
          | err f ↦ recover now f l w2
          | ok t ↦ settle now (decide today msg t l w2)
        ]
        | overtakes_decision ↦ elim thought [
          | err f ↦ recover now f l w2
          | ok t ↦ let (w3, l3, r) = decide today msg t l w2 in recover now timed_out l3 w3
        ]
      ]

  -- What is left of a pipeline that was overtaken while the model thought, once the thoughts are there.
  unfoldable pub late_path : String → Message → Thinking → EgoLayer → World → World × EgoLayer
  late_path today msg t l w = let (w1, l1, r) = decide today msg t l w in (w1, l1)

  unfoldable pub process_detailed :
      ℕ → String → Message → EgoLayer → World → World × EgoLayer × Option ProcessRecord
  process_detailed now today msg l w =
      let (w1, logged) = audit_decision l.config w in
      let (b, healthy) = allow l.breaker now in
      let tried = if env.has_llm then record l { breaker = b } else l in
      let tag = if env.has_llm then ego_circuit_open else llm_provider_error in
      let (w2, told) = env.audit tag w in
      if not (is_operational l.config.state)
      then (w, l, some (skip true))
      else if or_else l.config.fast_path_enabled true && env.should_fast_exit msg l.config
      then (w1, l, if logged then some (skip true) else none)
      else if env.has_llm && healthy
      then deep_path now today msg tried w
      else (w2, tried, if told then some (skip false) else none)
