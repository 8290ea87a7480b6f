-- ===== src/Ego/CircuitBreaker/Probing.antt =====
-- Who gets through a breaker that is not closed.
use agent_ego.Base.{
  ℕ, suc, ◌+◌, ◌≤◌, ◌<◌, ◌≡◌, refl, true, false, List, [], ◌∷◌, arith, ltb, if◌then◌else◌, All,
}
use agent_ego.Ego.CircuitBreaker.{
  closed, open_, half_open, Breaker, allow, record_failure, record_success, cooldown_ms,
}

-- The answers to a row of `allow` calls with no result recorded between them.
pub admitted : Breaker → List ℕ → ℕ
admitted b [] = 0
admitted b (t ∷ ts) =
    let rest = admitted (allow b t).0 ts in if (allow b t).1 then suc rest else rest

-- A breaker with a probe in flight lets nobody through.
probing_shut :
    (b : Breaker) (ts : List ℕ) → b.state ≡ half_open → b.probe_in_flight ≡ true → admitted b ts ≡ 0
unfolding admitted allow
probing_shut b [] e p = refl
probing_shut b (t ∷ ts) e p = ground (arith, probing_shut b ts e p)

probing_start :
    (b : Breaker) (t : ℕ) (ts : List ℕ)
    → b.state ≡ half_open
    → b.probe_in_flight ≡ false
    → admitted b (t ∷ ts) ≡ 1
unfolding admitted allow
probing_start b t ts e p =
    ground (arith, probing_shut (record b { probe_in_flight = true }) ts e refl)

-- What an open breaker does at one call: before the end of its cooldown it refuses and stays as it
-- is, and from then on it is half-open with this call for its probe.
pub allow_open :
    (b : Breaker) (now : ℕ)
    → b.state ≡ open_
    → allow b now ≡ (
        if ltb now (b.opened_at_ms + cooldown_ms b)
        then (b, false)
        else (record b { state = half_open; probe_in_flight = true }, true))
unfolding allow
allow_open b now e = ground arith

-- From the moment an open breaker has tripped until the result of a call is recorded, however many
-- calls ask and at whatever times, it admits at most one, and none if all of them come before the
-- end of the cooldown.
pub admitted_open :
    (b : Breaker) (ts : List ℕ)
    → b.state ≡ open_
    → (admitted b ts ≤ 1) × (All (λ t. t < b.opened_at_ms + cooldown_ms b) ts → admitted b ts ≡ 0)
unfolding admitted
admitted_open b [] e = (omega arith, λ _. refl)
admitted_open b (t ∷ ts) e = (
  ground (
    arith,
    allow_open b t e,
    (admitted_open b ts e).0,
    probing_shut (record b { state = half_open; probe_in_flight = true }) ts refl refl,
  ),
  λ h. ground (arith, allow_open b t e, (admitted_open b ts e).1 h.1),
)

-- A half-open breaker decides by the probe's result: success closes it with no failure counted, and
-- failure opens it again for a whole cooldown from `now`.
pub probe_result :
    (b : Breaker) (now later : ℕ)
    → b.state ≡ half_open
    → now ≤ later
    → later < now + cooldown_ms b
    → ((record_success b).state ≡ closed)
      × ((record_success b).failures ≡ 0)
      × ((allow (record_success b) later).1 ≡ true)
      × ((record_failure b now).state ≡ open_)
      × ((allow (record_failure b now) later) ≡ (record_failure b now, false))
unfolding allow record_success record_failure
probe_result b now later e h k = (refl, refl, refl, ground arith, ground arith)
