-- ===== src/Gateway/RateLimiter/Buckets.antt =====
-- One bucket, and what a call to the limiter changes.
use agent_ego.Base.{
  ℕ, ◌+◌, ◌-◌, ◌*◌, ◌≤◌, ◌≡◌, inl, inr, refl, ap, Bool, true, false, arith, leb, if◌then◌else◌,
  Bool-cases,
}
use agent_ego.Base.Int.{pos}
use Prim.Native.Nat.{min}
use agent_ego.Gateway.RateLimiter.{Config, Bucket, refilled, take_bucket}

abbrev pub cost : Bool → ℕ
cost true = 1000
cost false = 0

-- With a clock that does not go back, a bucket that is not in debt is refilled by the time elapsed
-- times the rate, up to the capacity.
pub refilled-pos :
    (c : Config) (n last now : ℕ)
    → last ≤ now
    → refilled c (record { millitokens = pos n; last_refill_ms = last }) now
      ≡ pos (min (c.capacity * 1000) (n + (now - last) * c.refill_per_second))
unfolding refilled
refilled-pos c n last now h = ground arith

pub elapsed : (last now r : ℕ) → last ≤ now → (now - last) * r + last * r ≡ now * r
elapsed last now r h =
    let e : (now - last) + last ≡ now = omega arith in omega (arith, ap (λ (t : ℕ). t * r) e)

abbrev level : Config → ℕ → ℕ → ℕ → ℕ
level c n last now = min (c.capacity * 1000) (n + (now - last) * c.refill_per_second)

abbrev took : ℕ → ℕ → Bucket × Bool
took l now =
    if leb 1000 l
    then (record { millitokens = pos (l - 1000); last_refill_ms = now }, true)
    else (record { millitokens = pos l; last_refill_ms = now }, false)

take_bucket-took :
    (c : Config) (b : Bucket) (l now : ℕ)
    → refilled c b now ≡ pos l
    → take_bucket c b now ≡ took l now
unfolding take_bucket
take_bucket-took c b l now e = rw (e, take_bucket) (ground arith)

-- What a call takes out of a bucket is at most what it held and what was refilled since.
pub record Pays (c : Config) (n last now : ℕ) (r : Bucket × Bool) : Type 0 where
  pub left : ℕ
  pub bucket : r.0 ≡ record { millitokens = pos left; last_refill_ms = now }
  pub paid : left + cost r.1 + last * c.refill_per_second ≤ n + now * c.refill_per_second
  pub capped : left + cost r.1 ≤ c.capacity * 1000

took-Pays :
    (c : Config) (n last now l : ℕ)
    → l ≤ c.capacity * 1000
    → l + last * c.refill_per_second ≤ n + now * c.refill_per_second
    → Pays c n last now (took l now)
took-Pays c n last now l h k = elim (Bool-cases (leb 1000 l)) [
  | inl e ↦
      rw e (record { left = l - 1000; bucket = refl; paid = ground arith; capped = ground arith })
  | inr e ↦ rw e (record { left = l; bucket = refl; paid = omega arith; capped = omega arith })
]

pub take_bucket-Pays :
    (c : Config) (n last now : ℕ)
    → last ≤ now
    → Pays c n last now (take_bucket c (record { millitokens = pos n; last_refill_ms = last }) now)
take_bucket-Pays c n last now h =
    rw (take_bucket-took c _ (level c n last now) now (refilled-pos c n last now h)) (
      took-Pays c n last now (level c n last now) (omega arith)
        (omega (arith, elapsed last now c.refill_per_second h)))
