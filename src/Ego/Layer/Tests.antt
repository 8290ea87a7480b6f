-- ===== src/Ego/Layer/Tests.antt =====
-- A passive layer with a model that would redirect every message, and one whose model fails.
use agent_ego.Base.{ℕ, zero, suc, ◌+◌, ◌≡◌, ◌≢◌, refl, true, false, [], ◌∷◌, none, some, arith}
use agent_ego.Base.Result.{Result, ok, err}
use agent_ego.Ego.CircuitBreaker.{
  Breaker, allow, record_success, record_failure, step, allow_call, success_call, failure_call,
}
use agent_ego.Ego.CircuitBreaker
use agent_ego.Ego.CircuitBreaker.Invariant.{Inv}
use agent_ego.Ego.Layer.{
  new, EgoConfig, EgoEnv, in_time, Thinking, Failure, other_failure, add_cost, charged, over_cap,
}
use agent_ego.Ego.Layer.Pipeline.{
  materialize_decision, audit_decision, decide, deep_path, process_detailed,
}
use agent_ego.Ego.States.{EgoState, active, passive}
use agent_ego.Ego.Layer.{Redirect, act_redirect, redirect_to}
use agent_ego.Ego.Layer.Turns.{happen, happen-new, arrives, ends_late}
use agent_ego.Ego.Layer.Decisions.{LeavesIt, process_detailed-LeavesIt}
use agent_ego.Ego.Layer.Fallback.{process_detailed_decides}

abbrev settings : EgoState → EgoConfig
settings s = record {
  state = s;
  breaker = record { threshold = 2; cooldown_minutes = 1 };
  fast_path_enabled = some false;
  fallback_on_error = true;
  max_cost_usd_per_day = 5;
  min_confidence_to_act = 60;
  audit_enabled = true;
}

abbrev to_other : Redirect
to_other = record { target_agent_id = "other"; target_session_id = none; reason = "theirs" }

abbrev thoughts : Thinking
thoughts = record {
  judgment = record {
    action = act_redirect;
    confidence = 90;
    reason = "theirs";
    add_memories = [];
    redirect = some to_other;
    direct_response = none;
  };
  memories = [];
}

-- The messages are numbers; the model fails on 0.
abbrev answer : ℕ → Result Failure Thinking
answer zero = err other_failure
answer (suc n) = ok thoughts

abbrev redirecting : EgoEnv
redirecting = record {
  World = ℕ;
  Message = ℕ;
  has_llm = true;
  should_fast_exit = λ msg config. false;
  think = λ msg w. (w + 1, answer msg);
  timing = λ w. (w, in_time);
  audit = λ tag w. (w, true);
  perform_redirect = λ r msg w. (w, true);
  generate_id = λ w. (w, "1");
}

redirects :
    (process_detailed redirecting 0 "day" 1 (new (settings active)) 0).2
    ≡ some (record { decision = redirect_to to_other; fast_exit = false; cost_usd = 0 })
unfolding process_detailed new allow CircuitBreaker.new deep_path decide charged add_cost over_cap
    materialize_decision audit_decision
redirects = refl

process_detailed-LeavesIt_example :
    LeavesIt (process_detailed redirecting 0 "day" 1 (new (settings passive)) 0).2
unfolding new
process_detailed-LeavesIt_example =
    process_detailed-LeavesIt redirecting 0 "day" 1 (new (settings passive)) 0 refl

process_detailed_decides_example :
    (process_detailed redirecting 0 "day" 0 (new (settings active)) 0).2 ≢ none
unfolding new
process_detailed_decides_example =
    process_detailed_decides redirecting (λ tag w. refl) 0 "day" 0 (new (settings active)) 0 refl

happen-new_example :
    let l =
      happen redirecting
        (arrives 0 "day" 0 ∷ ends_late "day" 1 thoughts ∷ [])
        (new (settings active))
        0 in
    (l.config ≡ settings active) × (l.cost_usd ≡ 0) × Inv l.breaker
happen-new_example =
    happen-new redirecting (settings active) (arrives 0 "day" 0 ∷ ends_late "day" 1 thoughts ∷ []) 0
      (omega arith)
