-- ===== src/Ego/CircuitBreaker.antt =====
-- packages/ego/src/circuit-breaker.ts. The clock (`nowMs()`) is the argument `now` of each call; a
-- method returns the new object. Cooldowns are whole minutes.
pub mod Invariant
pub mod Tripping
pub mod Probing
mod Tests
use agent_ego.Base.{
  ℕ, suc, ◌+◌, ◌-◌, ◌*◌, Bool, true, false, List, [], ◌∷◌, leb, ◌==◌, if◌then◌else◌,
}

pub data CircuitState : Type 0 where
  closed open_ half_open : CircuitState

pub record Config : Type 0 where
  pub threshold : ℕ
  pub cooldown_minutes : ℕ

pub record Breaker : Type 0 where
  pub config : Config
  pub failures : ℕ
  pub state : CircuitState
  pub opened_at_ms : ℕ
  pub probe_in_flight : Bool

unfoldable pub new : Config → Breaker
new c = record {
  config = c;
  failures = 0;
  state = closed;
  opened_at_ms = 0;
  probe_in_flight = false;
}

abbrev pub cooldown_ms : Breaker → ℕ
cooldown_ms b = b.config.cooldown_minutes * 60000

-- Math.max(0, cooldown - (now - openedAt)), with one truncated subtraction: it is exact for a clock
-- that went back too.
unfoldable pub millis_until_half_open : Breaker → ℕ → ℕ
millis_until_half_open b now = elim b.state [ open_ ↦ b.opened_at_ms + cooldown_ms b - now | _ ↦ 0 ]

pub record Snapshot : Type 0 where
  pub state : CircuitState
  pub failures : ℕ
  pub millis_until_half_open : ℕ

unfoldable pub snapshot : Breaker → ℕ → Snapshot
snapshot b now = record {
  state = b.state;
  failures = b.failures;
  millis_until_half_open = millis_until_half_open b now;
}

-- The tail of `allow`, in the half-open state: one probe at a time.
unfoldable pub take_probe : Breaker → Breaker × Bool
take_probe b = if b.probe_in_flight then (b, false) else (record b { probe_in_flight = true }, true)

unfoldable pub allow : Breaker → ℕ → Breaker × Bool
unfolding take_probe millis_until_half_open
allow b now = elim b.state [
  | closed ↦ (b, true)
  | open_ ↦
      if millis_until_half_open b now == 0
      then take_probe (record b { state = half_open; probe_in_flight = false })
      else (b, false)
  | half_open ↦ take_probe b
]

unfoldable pub record_success : Breaker → Breaker
record_success b = record b { failures = 0; probe_in_flight = false; state = closed }

unfoldable pub trip : Breaker → ℕ → Breaker
trip b now = record b { state = open_; opened_at_ms = now }

-- A failure outside the half-open state counts, and trips at the threshold.
unfoldable pub count_failure : Breaker → ℕ → Breaker
unfolding trip
count_failure b now =
    let counted = record b { failures = b.failures + 1 } in
    if leb b.config.threshold (b.failures + 1) then trip counted now else counted

unfoldable pub record_failure : Breaker → ℕ → Breaker
unfolding trip count_failure
record_failure b now = elim b.state [
  | half_open ↦ trip (record b { probe_in_flight = false }) now
  | _ ↦ count_failure b now
]

unfoldable pub reset : Breaker → Breaker
reset b = record b { failures = 0; state = closed; opened_at_ms = 0; probe_in_flight = false }

-- The calls of the public interface that change the object.
pub data Call : Type 0 where
  allow_call success_call failure_call reset_call : Call

unfoldable pub step : Breaker → Call → ℕ → Breaker
unfolding allow record_success record_failure reset
step b allow_call now = (allow b now).0
step b success_call now = record_success b
step b failure_call now = record_failure b now
step b reset_call now = reset b

-- A history: each call with the time at which it is made.
unfoldable pub run : Breaker → List (Call × ℕ) → Breaker
run b [] = b
run b ((c, now) ∷ cs) = run (step b c now) cs
