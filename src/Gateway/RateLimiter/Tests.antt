-- ===== src/Gateway/RateLimiter/Tests.antt =====
-- A limiter with a burst of two calls and one call each second.
use agent_ego.Base.{ℕ, ◌+◌, ◌-◌, ◌*◌, ◌≤◌, ◌≡◌, refl, true, List, [], ◌∷◌, arith, String}
use agent_ego.Gateway.RateLimiter.{take_bucket, refilled, RateLimiter, new, take}
use agent_ego.Gateway.RateLimiter.Bound.{admitted, admitted_bound, Isolation, take-Isolation}
use agent_ego.Base.Dict

abbrev burst : RateLimiter
burst = new (record { capacity = 2; refill_per_second = 1 })

abbrev calls : List (String × ℕ)
calls = ("a", 0) ∷ ("a", 10) ∷ ("b", 20) ∷ ("a", 30) ∷ ("a", 1500) ∷ []

calls-admitted : (admitted "a" burst calls ≡ 3) × ((take burst "a" 0).1 ≡ true)
unfolding admitted take Dict.get Dict.set take_bucket refilled
calls-admitted = (refl, refl)

admitted_bound_example : 1000 * admitted "a" burst calls ≤ 1000 * 2 + (1500 - 0) * 1
unfolding Dict.get
admitted_bound_example = admitted_bound "a" calls burst 0 1500 refl (omega arith)

take-Isolation_example : Isolation burst "a" 10
take-Isolation_example = take-Isolation burst "a" 10
