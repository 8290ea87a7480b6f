-- ===== src/Ego/CircuitBreaker/Tripping.antt =====
-- When consecutive failures trip a breaker.
use agent_ego.Base.{
  ℕ, suc, ◌+◌, ◌<◌, ◌≡◌, ◌≢◌, refl, ap, ◌∙◌, List, [], ◌∷◌, arith, leb, if◌then◌else◌, length,
}
use agent_ego.Ego.CircuitBreaker.{closed, open_, half_open, Breaker, Call, failure_call, step, run}

abbrev pub failing : List ℕ → List (Call × ℕ)
failing [] = []
failing (t ∷ ts) = (failure_call, t) ∷ failing ts

-- The time of the last failure in a row of failures.
abbrev pub last_time : ℕ → List ℕ → ℕ
last_time d [] = d
last_time d (t ∷ ts) = last_time t ts

-- The breaker that `n` more failures leave, as the documentation has it: open from the threshold on.
abbrev pub failed : Breaker → ℕ → ℕ → Breaker
failed b n t =
    let reached = leb b.config.threshold (b.failures + n) in
    record b {
      failures = b.failures + n;
      state = if reached then open_ else closed;
      opened_at_ms = if reached then t else b.opened_at_ms;
    }

step-failed :
    (b : Breaker) (t : ℕ)
    → b.state ≢ half_open
    → b.state ≡ (if leb b.config.threshold b.failures then open_ else closed)
    → step b failure_call t ≡ failed b 1 t
unfolding step
step-failed b t h e = ground arith

-- Coming from the state that the count calls for, one more failure and then the rest is all of them.
failed-failed :
    (b : Breaker) (t : ℕ) (ts : List ℕ)
    → failed (failed b 1 t) (length ts) (last_time (failed b 1 t).opened_at_ms ts)
      ≡ failed b (suc (length ts)) (last_time t ts)
failed-failed b t [] = ground arith
failed-failed b t (u ∷ ts) = ground arith

is_open : (b : Breaker) (t : ℕ) → (failed b 1 t).state ≢ half_open
is_open b t e = ground arith

failing_from :
    (b : Breaker) (ts : List ℕ)
    → b.state ≢ half_open
    → b.state ≡ (if leb b.config.threshold b.failures then open_ else closed)
    → run b (failing ts) ≡ failed b (length ts) (last_time b.opened_at_ms ts)
unfolding run
failing_from b [] h e = ground arith
failing_from b (t ∷ ts) h e =
    ap (λ c. run c (failing ts)) (step-failed b t h e)
    ∙ failing_from (failed b 1 t) ts (is_open b t) refl
    ∙ failed-failed b t ts

-- A closed breaker below its threshold, after any row of failures: the failures are added up, it is
-- open exactly if the sum has reached the threshold, and if it is open it opened at the time of the
-- last of them (a failure that arrives while it is open restarts the cooldown).
pub run-failing :
    (b : Breaker) (ts : List ℕ)
    → b.state ≡ closed
    → b.failures < b.config.threshold
    → run b (failing ts) ≡ failed b (length ts) (last_time b.opened_at_ms ts)
run-failing b ts e h = failing_from b ts (λ p. cc) (ground arith)
