-- ===== src/Ego/Layer/Fallback.antt =====
-- When a message always gets a decision.
use agent_ego.Base.{
  ℕ, ◌≡◌, ◌≢◌, inl, inr, refl, ◌∙◌, true, ◌&&◌, none, String, or_else, Bool-cases, Option-cases,
}
use agent_ego.Base.Result.{Result, ok, err, Result-cases}
use agent_ego.Ego.CircuitBreaker.{allow}
use agent_ego.Ego.States.{is_operational}
use agent_ego.Ego.Layer.{
  ego_decision, EgoConfig, EgoEnv, EgoLayer, Thinking, Failure, timed_out, ProcessRecord, AuditTag,
  ego_circuit_open, llm_provider_error, add_cost, charged, over_cap, effective_action, tag_of,
}
use agent_ego.Ego.Layer.Pipeline.{
  materialize_decision, audit_decision, decide, recover, settle, deep_path, process_detailed,
}
use agent_ego.Ego.Layer.Turns.{Timing-cases}

module _ (env : EgoEnv)
    (audits : (tag : AuditTag) (w : env.World) → (env.audit tag w).1 ≡ true) where
  open env use {World, Message}

  audit_decision_works : (config : EgoConfig) (w : World) → (audit_decision env config w).1 ≡ true
  unfolding audit_decision
  audit_decision_works config w = elim (Bool-cases config.audit_enabled) [
    | inl e ↦ simp (e, audit_decision) (audits ego_decision w)
    | inr e ↦ simp (e, audit_decision) refl
  ]

  recover_decides :
      (now : ℕ) (f : Failure) (l : EgoLayer) (w : World)
      → l.config.fallback_on_error ≡ true
      → (recover env now f l w).2 ≢ none
  unfolding recover
  recover_decides now f l w h = simp (audits (tag_of f) w, h, recover) (λ n. cc)

  settle_decides :
      (now : ℕ) (w : World) (l : EgoLayer) (r : Result Failure ProcessRecord)
      → l.config.fallback_on_error ≡ true
      → (settle env now (w, l, r)).2 ≢ none
  settle_decides now w l (ok r) h = λ n. cc
  settle_decides now w l (err f) h = recover_decides now f l w h

  decide-fallback_on_error :
      (today : String) (msg : Message) (t : Thinking) (l : EgoLayer) (w : World)
      → (decide env today msg t l w).1.config.fallback_on_error ≡ l.config.fallback_on_error
  unfolding decide charged add_cost
  decide-fallback_on_error today msg t l w =
      let spent = charged today l in
      let w2 = env.generate_id w in
      let made =
        materialize_decision env (effective_action spent.config t.judgment) t msg w2.1 w2.0 in
      elim (Bool-cases (over_cap spent)) [
        | inl e ↦ rw (e, decide) refl
        | inr e ↦ elim (Option-cases made.1) [
          | inl g ↦ rw (e, g, decide) refl
          | inr (d, g) ↦ rw (e, g, decide) refl
        ]
      ]

  deep_path_decides :
      (now : ℕ) (today : String) (msg : Message) (l : EgoLayer) (w : World)
      → l.config.fallback_on_error ≡ true
      → (deep_path env now today msg l w).2 ≢ none
  unfolding deep_path
  deep_path_decides now today msg l w h =
      let thought = env.think msg w in
      let raced = env.timing thought.0 in
      elim (Timing-cases raced.1) [
        | inl e ↦ rw (e, deep_path) (recover_decides now timed_out l raced.0 h)
        | inr (inl e) ↦ elim (Result-cases thought.1) [
          | inl (problem, g) ↦ rw (e, g, deep_path) (recover_decides now problem l raced.0 h)
          | inr (t, g) ↦
              let r = decide env today msg t l raced.0 in
              rw (e, g, deep_path)
                (settle_decides now r.0 r.1 r.2
                  (decide-fallback_on_error today msg t l raced.0 ∙ h))
        ]
        | inr (inr e) ↦ elim (Result-cases thought.1) [
          | inl (problem, g) ↦ rw (e, g, deep_path) (recover_decides now problem l raced.0 h)
          | inr (t, g) ↦
              let r = decide env today msg t l raced.0 in
              rw (e, g, deep_path)
                (recover_decides now timed_out r.1 r.0
                  (decide-fallback_on_error today msg t l raced.0 ∙ h))
        ]
      ]

  -- With the fallback on and an audit log that does not throw, every message gets a decision, whatever
  -- fails on the way: the model, its answer, the redirect of a session or the timeout.
  pub process_detailed_decides :
      (now : ℕ) (today : String) (msg : Message) (l : EgoLayer) (w : World)
      → l.config.fallback_on_error ≡ true
      → (process_detailed env now today msg l w).2 ≢ none
  unfolding process_detailed
  process_detailed_decides now today msg l w h =
      let allowed : EgoLayer = record l { breaker = (allow l.breaker now).0 } in
      elim (Bool-cases (is_operational l.config.state)) [
        | inr a ↦ rw (a, process_detailed) (λ n. cc)
        | inl a ↦
            elim (Bool-cases
              (or_else l.config.fast_path_enabled true && env.should_fast_exit msg l.config)) [
                | inl b ↦ rw (a, b, audit_decision_works l.config w, process_detailed) (λ n. cc)
                | inr b ↦ elim (Bool-cases env.has_llm) [
                  | inr c ↦ simp (a, b, c, audits llm_provider_error w, process_detailed) (λ n. cc)
                  | inl c ↦ elim (Bool-cases (allow l.breaker now).1) [
                    | inl d ↦
                        simp (a, b, c, d, process_detailed)
                          (deep_path_decides now today msg allowed w h)
                    | inr d ↦
                        simp (a, b, c, d, audits ego_circuit_open w, process_detailed) (λ n. cc)
                  ]
                ]
              ]
      ]
