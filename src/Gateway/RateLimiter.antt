-- ===== src/Gateway/RateLimiter.antt =====
-- packages/control-plane/src/gateway/rate-limiter.ts. Capacity and refill rate are whole numbers, and
-- a bucket holds thousandths of a token, so that `elapsed / 1000 * refillPerSecond` is exact: the
-- rounding of floating point is left out. The count is an integer, for a clock that goes back.
pub mod Buckets
pub mod Bound
mod Tests
use agent_ego.Base.{ℕ, ◌+◌, ◌*◌, Bool, true, false, Option, none, some, [], String, if◌then◌else◌}
use agent_ego.Base.Int.{ℤ, pos, ◌+ℤ◌, ◌-ℤ◌, ◌*ℤ◌, leb_ℤ, min_ℤ}
use agent_ego.Base.Dict
use agent_ego.Base.Dict.{Dict}

pub record Config : Type 0 where
  pub capacity : ℕ
  pub refill_per_second : ℕ

pub record Bucket : Type 0 where
  pub millitokens : ℤ
  pub last_refill_ms : ℕ

pub record RateLimiter : Type 0 where
  pub config : Config
  pub buckets : Dict Bucket

abbrev pub new : Config → RateLimiter
new c = record { config = c; buckets = [] }

-- The level of a bucket at `now`, capped.
unfoldable pub refilled : Config → Bucket → ℕ → ℤ
unfolding min_ℤ ◌+ℤ◌ ◌-ℤ◌ ◌*ℤ◌
refilled c b now =
    min_ℤ (pos (c.capacity * 1000))
      (b.millitokens +ℤ (pos now -ℤ pos b.last_refill_ms) *ℤ pos c.refill_per_second)

unfoldable pub take_bucket : Config → Bucket → ℕ → Bucket × Bool
unfolding ◌-ℤ◌
take_bucket c b now =
    let level = refilled c b now in
    if leb_ℤ (pos 1000) level
    then (record { millitokens = level -ℤ pos 1000; last_refill_ms = now }, true)
    else (record { millitokens = level; last_refill_ms = now }, false)

-- `this.buckets.get(key) ?? { tokens: capacity, lastRefillMs: now }`.
unfoldable pub bucket_or_full : RateLimiter → String → ℕ → Bucket
bucket_or_full r key now = elim (Dict.get key r.buckets) [
  | none ↦ record { millitokens = pos (r.config.capacity * 1000); last_refill_ms = now }
  | some b ↦ b
]

unfoldable pub take : RateLimiter → String → ℕ → RateLimiter × Bool
unfolding bucket_or_full
take r key now =
    let (b, allowed) = take_bucket r.config (bucket_or_full r key now) now in
    (record r { buckets = Dict.set key b r.buckets }, allowed)

-- In thousandths of a token.
unfoldable pub remaining : RateLimiter → String → ℕ → ℤ
remaining r key now = elim (Dict.get key r.buckets) [
  | none ↦ pos (r.config.capacity * 1000)
  | some b ↦ refilled r.config b now
]

unfoldable pub reset : RateLimiter → Option String → RateLimiter
reset r none = record r { buckets = [] }
reset r (some key) = record r { buckets = Dict.delete key r.buckets }
