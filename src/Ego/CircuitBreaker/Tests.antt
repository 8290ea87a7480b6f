-- ===== src/Ego/CircuitBreaker/Tests.antt =====
-- A breaker with threshold 2 and a cooldown of one minute: runs, and the theorems at these runs.
use agent_ego.Base.{ℕ, ◌+◌, ◌≤◌, ◌<◌, ◌≡◌, refl, true, false, List, [], ◌∷◌, arith, All}
use agent_ego.Ego.CircuitBreaker.{
  closed, open_, half_open, Config, Breaker, new, allow, record_success, record_failure, Call,
  allow_call, failure_call, step, run, snapshot,
}
use agent_ego.Ego.CircuitBreaker.Invariant.{Inv, run-Inv}
use agent_ego.Ego.CircuitBreaker.Tripping.{failing, failed, run-failing}
use agent_ego.Ego.CircuitBreaker.Probing.{admitted, admitted_open, probe_result}

abbrev two : Config
two = record { threshold = 2; cooldown_minutes = 1 }

abbrev history : List (Call × ℕ)
history =
    (allow_call, 5)
    ∷ (failure_call, 10)
    ∷ (failure_call, 20)
    ∷ (allow_call, 60019)
    ∷ (allow_call, 60020)
    ∷ []

history-run :
    ((run (new two) history).state ≡ half_open)
    × ((run (new two) history).probe_in_flight ≡ true)
    × ((snapshot (run (new two) (failing (10 ∷ 20 ∷ []))) 1020).millis_until_half_open ≡ 59000)
unfolding run new step snapshot
history-run = (refl, refl, refl)

run-Inv_example : Inv (run (new two) history)
run-Inv_example = run-Inv two history (omega arith)

run-failing_example : run (new two) (failing (10 ∷ 20 ∷ 30 ∷ [])) ≡ failed (new two) 3 30
unfolding new
run-failing_example = run-failing (new two) (10 ∷ 20 ∷ 30 ∷ []) refl (omega arith)

abbrev tripped : Breaker
tripped = record {
  config = two;
  failures = 2;
  state = open_;
  opened_at_ms = 20;
  probe_in_flight = false;
}

admitted_open_example :
    (admitted tripped (30 ∷ 60020 ∷ 60021 ∷ []) ≤ 1)
    × (All (λ t. t < 20 + 60000) (30 ∷ 60020 ∷ 60021 ∷ [])
        → admitted tripped (30 ∷ 60020 ∷ 60021 ∷ []) ≡ 0)
admitted_open_example = admitted_open tripped (30 ∷ 60020 ∷ 60021 ∷ []) refl

abbrev probing : Breaker
probing = record tripped { state = half_open; probe_in_flight = true }

probe_result_example :
    ((record_success probing).state ≡ closed)
    × ((record_success probing).failures ≡ 0)
    × ((allow (record_success probing) 70000).1 ≡ true)
    × ((record_failure probing 60030).state ≡ open_)
    × (allow (record_failure probing 60030) 70000 ≡ (record_failure probing 60030, false))
probe_result_example = probe_result probing 60030 70000 refl (omega arith) (omega arith)
