-- ===== src/Ego/CircuitBreaker/Invariant.antt =====
-- What holds of a breaker between two calls, and when it trips.
use agent_ego.Base.{ℕ, ◌≤◌, ◌<◌, ◌≡◌, ◌≢◌, refl, true, List, [], ◌∷◌, arith}
use agent_ego.Ego.CircuitBreaker.{
  closed, half_open, Config, Breaker, new, Call, allow_call, success_call, failure_call, reset_call,
  step, run,
}

pub record Inv (b : Breaker) : Type 0 where
  pub below : b.state ≡ closed → b.failures < b.config.threshold
  pub probing : b.probe_in_flight ≡ true → b.state ≡ half_open
  pub tripped : b.state ≢ closed → b.config.threshold ≤ b.failures

pub new-Inv : (c : Config) → 0 < c.threshold → Inv (new c)
unfolding new
new-Inv c h = record { below = λ _. h; probing = λ e. cc; tripped = λ n. absurd (n refl) }

-- No call changes the configuration.
pub config-step : (b : Breaker) (c : Call) (now : ℕ) → (step b c now).config ≡ b.config
unfolding step
config-step b allow_call now = ground arith
config-step b success_call now = refl
config-step b failure_call now = ground arith
config-step b reset_call now = refl

pub step-Inv :
    (b : Breaker) (c : Call) (now : ℕ) → 0 < b.config.threshold → Inv b → Inv (step b c now)
unfolding step
step-Inv b allow_call now h v = ground arith
step-Inv b success_call now h v = ground arith
step-Inv b failure_call now h v = ground arith
step-Inv b reset_call now h v = ground arith

run-Inv_from :
    (b : Breaker) (cs : List (Call × ℕ)) → 0 < b.config.threshold → Inv b → Inv (run b cs)
unfolding run
run-Inv_from b [] h v = v
run-Inv_from b ((c, now) ∷ cs) h v =
    run-Inv_from (step b c now) cs (ground (arith, config-step b c now)) (step-Inv b c now h v)

-- With a positive threshold, after any history of calls of a new breaker: in the closed state the
-- failure count is below the threshold, outside it the count has reached the threshold, and a
-- probe is in flight only in the half-open state.
pub run-Inv : (c : Config) (cs : List (Call × ℕ)) → 0 < c.threshold → Inv (run (new c) cs)
unfolding new
run-Inv c cs h = run-Inv_from (new c) cs h (new-Inv c h)
