-- ===== src/Ego/Layer/Decisions.antt =====
-- What is decided for a message.
use agent_ego.Base.{
  ℕ, ◌≡◌, inl, inr, refl, Bool, true, false, ◌&&◌, Option, none, some, String, or_else,
  if◌then◌else◌, Bool-cases,
}
use agent_ego.Base.Result.{Result, ok, err, Result-cases}
use agent_ego.Ego.CircuitBreaker.{allow}
use agent_ego.Ego.States.{is_operational, is_intervening}
use agent_ego.Ego.Layer.{
  EgoEnv, EgoLayer, Thinking, passthrough, Failure, timed_out, other_failure, ProcessRecord,
  ego_circuit_open, llm_provider_error, estimated_cost, add_cost, charged, over_cap, tag_of,
}
use agent_ego.Ego.Layer.Pipeline.{
  materialize_decision, audit_decision, decide, recover, settle, deep_path, process_detailed,
}
use agent_ego.Ego.Layer.Turns.{Timing-cases}

-- A decision, if there is one, that leaves the message as it is.
pub LeavesIt : Option ProcessRecord → Type 0
LeavesIt none = Unit
LeavesIt (some r) = r.decision ≡ passthrough

LeavesItOk : Result Failure ProcessRecord → Type 0
LeavesItOk (err f) = Unit
LeavesItOk (ok r) = r.decision ≡ passthrough

LeavesItOk-decide :
    (logged : Bool)
    → LeavesItOk (
        if logged
        then ok (record { decision = passthrough; fast_exit = false; cost_usd = estimated_cost })
        else err other_failure)
unfolding LeavesItOk
LeavesItOk-decide true = refl
LeavesItOk-decide false = tt

module _ (env : EgoEnv) where
  open env use {World, Message}

  recover-LeavesIt :
      (now : ℕ) (f : Failure) (l : EgoLayer) (w : World) → LeavesIt (recover env now f l w).2
  unfolding recover LeavesIt
  recover-LeavesIt now f l w =
      elim (Bool-cases ((env.audit (tag_of f) w).1 && l.config.fallback_on_error)) [
        | inl e ↦ rw (e, recover) refl
        | inr e ↦ rw (e, recover) tt
      ]

  settle-LeavesIt :
      (now : ℕ) (w : World) (l : EgoLayer) (r : Result Failure ProcessRecord)
      → LeavesItOk r
      → LeavesIt (settle env now (w, l, r)).2
  unfolding LeavesIt LeavesItOk
  settle-LeavesIt now w l (ok r) h = h
  settle-LeavesIt now w l (err f) h = recover-LeavesIt now f l w

  decide-LeavesItOk :
      (today : String) (msg : Message) (t : Thinking) (l : EgoLayer) (w : World)
      → is_intervening l.config.state ≡ false
      → LeavesItOk (decide env today msg t l w).2
  unfolding decide charged add_cost LeavesItOk materialize_decision
  decide-LeavesItOk today msg t l w h = elim (Bool-cases (over_cap (charged today l))) [
    | inl e ↦ rw (e, decide) tt
    | inr e ↦ rw (e, h, decide) (LeavesItOk-decide _)
  ]

  deep_path-LeavesIt :
      (now : ℕ) (today : String) (msg : Message) (l : EgoLayer) (w : World)
      → is_intervening l.config.state ≡ false
      → LeavesIt (deep_path env now today msg l w).2
  unfolding deep_path
  deep_path-LeavesIt now today msg l w h =
      let thought = env.think msg w in
      let raced = env.timing thought.0 in
      elim (Timing-cases raced.1) [
        | inl e ↦ rw (e, deep_path) (recover-LeavesIt now timed_out l raced.0)
        | inr (inl e) ↦ elim (Result-cases thought.1) [
          | inl (problem, g) ↦ rw (e, g, deep_path) (recover-LeavesIt now problem l raced.0)
          | inr (t, g) ↦
              let r = decide env today msg t l raced.0 in
              rw (e, g, deep_path)
                (settle-LeavesIt now r.0 r.1 r.2 (decide-LeavesItOk today msg t l raced.0 h))
        ]
        | inr (inr e) ↦ elim (Result-cases thought.1) [
          | inl (problem, g) ↦ rw (e, g, deep_path) (recover-LeavesIt now problem l raced.0)
          | inr (t, g) ↦
              let r = decide env today msg t l raced.0 in
              rw (e, g, deep_path) (recover-LeavesIt now timed_out r.1 r.0)
        ]
      ]

  -- In a state that does not intervene, off or passive, whatever the model judges and whatever fails:
  -- a message that gets a decision is passed through unchanged.
  pub process_detailed-LeavesIt :
      (now : ℕ) (today : String) (msg : Message) (l : EgoLayer) (w : World)
      → is_intervening l.config.state ≡ false
      → LeavesIt (process_detailed env now today msg l w).2
  unfolding process_detailed LeavesIt
  process_detailed-LeavesIt now today msg l w h =
      let allowed : EgoLayer = record l { breaker = (allow l.breaker now).0 } in
      let logged = (audit_decision env l.config w).1 in
      elim (Bool-cases (is_operational l.config.state)) [
        | inr a ↦ rw (a, process_detailed) refl
        | inl a ↦
            elim (Bool-cases
              (or_else l.config.fast_path_enabled true && env.should_fast_exit msg l.config)) [
                | inl b ↦ elim (Bool-cases logged) [
                  | inl c ↦ rw (a, b, c, process_detailed) refl
                  | inr c ↦ rw (a, b, c, process_detailed) tt
                ]
                | inr b ↦ elim (Bool-cases env.has_llm) [
                  | inr c ↦ elim (Bool-cases (env.audit llm_provider_error w).1) [
                    | inl d ↦ simp (a, b, c, d, process_detailed) refl
                    | inr d ↦ simp (a, b, c, d, process_detailed) tt
                  ]
                  | inl c ↦ elim (Bool-cases (allow l.breaker now).1) [
                    | inl d ↦
                        simp (a, b, c, d, process_detailed)
                          (deep_path-LeavesIt now today msg allowed w h)
                    | inr d ↦ elim (Bool-cases (env.audit ego_circuit_open w).1) [
                      | inl e ↦ simp (a, b, c, d, e, process_detailed) refl
                      | inr e ↦ simp (a, b, c, d, e, process_detailed) tt
                    ]
                  ]
                ]
              ]
      ]
