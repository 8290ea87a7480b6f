-- ===== src/Gateway/RateLimiter/Bound.antt =====
-- How many calls a limiter lets through in a stretch of time, and how keys are kept apart.
use agent_ego.Base.{
  ℕ, ◌+◌, ◌-◌, ◌*◌, ◌≤◌, ◌≡◌, ◌≢◌, inl, inr, refl, ap, ◌∙◌, Bool, true, false, List, [], ◌∷◌, arith,
  if◌then◌else◌, String, Option, none, some, str_eq, eq_iff, Bool-cases, ◌↔◌, Option-cases, sym,
}
use agent_ego.Base.Int.{ℤ, pos, ◌≤ℤ◌}
use agent_ego.Base.Dict
use agent_ego.Base.Dict.{Dict, get-set, get-delete, str_eq_refl}
use agent_ego.Gateway.RateLimiter.{
  Config, Bucket, RateLimiter, refilled, take_bucket, bucket_or_full, take, remaining, reset,
}
use agent_ego.Gateway.RateLimiter.Buckets.{take_bucket-Pays, cost, elapsed, refilled-pos}

-- Calls in the order of a clock that does not go back, all from `from` to `to`.
abbrev pub Ordered : ℕ → List (String × ℕ) → ℕ → Type 0
Ordered from [] to = from ≤ to
Ordered from ((key, t) ∷ ts) to = (from ≤ t) × Ordered t ts to

Ordered-earlier :
    (a b : ℕ) (ts : List (String × ℕ)) (to : ℕ) → a ≤ b → Ordered b ts to → Ordered a ts to
Ordered-earlier a b [] to h o = omega arith
Ordered-earlier a b ((k, t) ∷ ts) to h o = (omega arith, o.1)

Ordered-le : (a : ℕ) (ts : List (String × ℕ)) (to : ℕ) → Ordered a ts to → a ≤ to
Ordered-le a [] to o = o
Ordered-le a ((k, t) ∷ ts) to o = omega (arith, Ordered-le t ts to o.1)

abbrev pub one_if : Bool → ℕ
one_if true = 1
one_if false = 0

-- The calls for one key that are let through, among calls for any keys.
unfoldable pub admitted : String → RateLimiter → List (String × ℕ) → ℕ
admitted key r [] = 0
admitted key r ((j, t) ∷ ts) =
    (if str_eq j key then one_if (take r j t).1 else 0) + admitted key (take r j t).0 ts

get-take_self :
    (r : RateLimiter) (j : String) (t : ℕ)
    → Dict.get j (take r j t).0.buckets ≡ some (take_bucket r.config (bucket_or_full r j t) t).0
unfolding take
get-take_self r j t = get-set j j _ r.buckets ∙ rw (str_eq_refl j)

get-take_ne :
    (r : RateLimiter) (j key : String) (t : ℕ)
    → str_eq j key ≡ false
    → Dict.get key (take r j t).0.buckets ≡ Dict.get key r.buckets
unfolding take
get-take_ne r j key t e = get-set j key _ r.buckets ∙ rw e

take-allowed :
    (r : RateLimiter) (j : String) (t : ℕ)
    → (take r j t).1 ≡ (take_bucket r.config (bucket_or_full r j t) t).1
unfolding take
take-allowed r j t = refl

mul_mono : (a b c : ℕ) → a ≤ b → a * c ≤ b * c
mul_mono a b c h = grind arith

abbrev Holding : RateLimiter → String → ℕ → ℕ → Type 0
Holding r key n last =
    Dict.get key r.buckets ≡ some (record { millitokens = pos n; last_refill_ms = last })

pays_take :
    (r : RateLimiter) (key : String) (n last t : ℕ)
    → bucket_or_full r key t ≡ record { millitokens = pos n; last_refill_ms = last }
    → last ≤ t
    → (left : ℕ) × Holding (take r key t).0 key left t
      × (left + 1000 * one_if (take r key t).1 + last * r.config.refill_per_second
          ≤ n + t * r.config.refill_per_second)
      × (left + 1000 * one_if (take r key t).1 ≤ r.config.capacity * 1000)
pays_take r key n last t e h =
    let p = take_bucket-Pays r.config n last t h in
    let allowed =
      (take_bucket r.config (record { millitokens = pos n; last_refill_ms = last }) t).1 in
    let same : (take r key t).1 ≡ allowed =
      take-allowed r key t ∙ ap (λ b. (take_bucket r.config b t).1) e in
    let costs : cost allowed ≡ 1000 * one_if (take r key t).1 = rw same (cost_one allowed) in
    (
      p.left,
      get-take_self r key t ∙ ap (λ b. some (take_bucket r.config b t).0) e ∙ ap some p.bucket,
      omega (arith, costs, p.paid),
      omega (arith, costs, p.capped),
    )
  where
    cost_one : (b : Bool) → cost b ≡ 1000 * one_if b
    cost_one true = refl
    cost_one false = refl

or_full_some :
    (r : RateLimiter) (key : String) (t : ℕ) (b : Bucket)
    → Dict.get key r.buckets ≡ some b
    → bucket_or_full r key t ≡ b
unfolding bucket_or_full
or_full_some r key t b e = rw (e, bucket_or_full) refl

or_full_none :
    (r : RateLimiter) (key : String) (t : ℕ)
    → Dict.get key r.buckets ≡ none
    → bucket_or_full r key t
      ≡ record { millitokens = pos (r.config.capacity * 1000); last_refill_ms = t }
unfolding bucket_or_full
or_full_none r key t e = rw (e, bucket_or_full) refl

-- From a bucket that holds `n` thousandths since `last`.
admitted-Holding :
    (key : String) (ts : List (String × ℕ)) (r : RateLimiter) (n last to : ℕ)
    → Holding r key n last
    → Ordered last ts to
    → 1000 * admitted key r ts + last * r.config.refill_per_second
      ≤ n + to * r.config.refill_per_second
unfolding admitted take
admitted-Holding key [] r n last to hold o =
    omega (arith, mul_mono last to r.config.refill_per_second o)
admitted-Holding key ((j, t) ∷ ts) r n last to hold (h, o) = elim (Bool-cases (str_eq j key)) [
  | inl e ↦
      let p = pays_take r key n last t (or_full_some r key t _ hold) h in
      let ih = admitted-Holding key ts (take r key t).0 p.0 t to p.1 o in
      let same : j ≡ key = (eq_iff j key).0 e in rw (same, str_eq_refl key) (omega (arith, ih, p.2))
  | inr e ↦
      let ih =
        admitted-Holding key ts (take r j t).0 n last to (get-take_ne r j key t e ∙ hold)
          (Ordered-earlier last t ts to h o) in
      rw e (omega (arith, ih))
]

admitted_absent :
    (key : String) (ts : List (String × ℕ)) (r : RateLimiter) (from to : ℕ)
    → Dict.get key r.buckets ≡ none
    → Ordered from ts to
    → 1000 * admitted key r ts + from * r.config.refill_per_second
      ≤ r.config.capacity * 1000 + to * r.config.refill_per_second
unfolding admitted take
admitted_absent key [] r from to absent o =
    omega (arith, mul_mono from to r.config.refill_per_second o)
admitted_absent key ((j, t) ∷ ts) r from to absent (h, o) = elim (Bool-cases (str_eq j key)) [
  | inl e ↦
      let p =
        pays_take r key (r.config.capacity * 1000) t t (or_full_none r key t absent)
          (omega arith) in
      let ih = admitted-Holding key ts (take r key t).0 p.0 t to p.1 o in
      let same : j ≡ key = (eq_iff j key).0 e in
      rw (same, str_eq_refl key)
        (omega (arith, ih, p.2, mul_mono from t r.config.refill_per_second h, p.3))
  | inr e ↦
      let ih =
        admitted_absent key ts (take r j t).0 from to (get-take_ne r j key t e ∙ absent)
          (Ordered-earlier from t ts to h o) in
      rw e (omega (arith, ih))
]

-- A limiter that holds no bucket for a key lets through, from `from` to `to`, at most the capacity
-- plus the refill of that time (in thousandths of a token), whatever calls for other keys come
-- between, as long as the clock does not go back.
pub admitted_bound :
    (key : String) (ts : List (String × ℕ)) (r : RateLimiter) (from to : ℕ)
    → Dict.get key r.buckets ≡ none
    → Ordered from ts to
    → 1000 * admitted key r ts ≤ 1000 * r.config.capacity + (to - from) * r.config.refill_per_second
admitted_bound key ts r from to absent o = omega (
  arith,
  admitted_absent key ts r from to absent o,
  elapsed from to r.config.refill_per_second (Ordered-le from ts to o),
)

refl-str_eq : (a b : String) → b ≢ a → str_eq a b ≡ false
refl-str_eq a b h = ground (arith, eq_iff a b)

take_bucket_allowed :
    (c : Config) (b : Bucket) (now : ℕ)
    → ((take_bucket c b now).1 ≡ true) ↔ (pos 1000 ≤ℤ refilled c b now)
unfolding take_bucket
take_bucket_allowed c b now = ground arith

-- What `remaining` shows of the bucket that is found.
abbrev shown : Config → ℕ → Option Bucket → ℤ
shown c now none = pos (c.capacity * 1000)
shown c now (some b) = refilled c b now

remaining-shown :
    (r : RateLimiter) (key : String) (now : ℕ)
    → remaining r key now ≡ shown r.config now (Dict.get key r.buckets)
unfolding remaining
remaining-shown r key now = ground arith

full_level :
    (c : Config) (now : ℕ)
    → refilled c (record { millitokens = pos (c.capacity * 1000); last_refill_ms = now }) now
      ≡ pos (c.capacity * 1000)
full_level c now = refilled-pos c (c.capacity * 1000) now now (omega arith) ∙ ap pos (omega arith)

refilled-or_full :
    (r : RateLimiter) (key : String) (now : ℕ)
    → refilled r.config (bucket_or_full r key now) now ≡ remaining r key now
unfolding bucket_or_full remaining
refilled-or_full r key now = elim (Option-cases (Dict.get key r.buckets)) [
  | inl e ↦ rw (e, bucket_or_full, remaining) (full_level r.config now)
  | inr (b, e) ↦ rw (e, bucket_or_full, remaining) refl
]

remaining_congr :
    (r s : RateLimiter) (key : String) (now : ℕ)
    → r.config ≡ s.config
    → Dict.get key r.buckets ≡ Dict.get key s.buckets
    → remaining r key now ≡ remaining s key now
remaining_congr r s key now c e =
    remaining-shown r key now
    ∙ ap (λ o. shown r.config now o) e
    ∙ ap (λ d. shown d now (Dict.get key s.buckets)) c
    ∙ sym (remaining-shown s key now)

-- A call is let through exactly if `remaining` shows a whole token for its key, and neither a call
-- nor a reset for one key changes what `remaining` shows for another; after a reset of its own, or
-- of everything, a key has the whole capacity.
pub record Isolation (r : RateLimiter) (key : String) (now : ℕ) : Type 0 where
  pub allowed : ((take r key now).1 ≡ true) ↔ (pos 1000 ≤ℤ remaining r key now)
  pub kept :
      (other : String) (t : ℕ)
      → other ≢ key
      → (remaining (take r key now).0 other t ≡ remaining r other t)
        × (remaining (reset r (some key)) other t ≡ remaining r other t)
  pub restored :
      (t : ℕ)
      → (remaining (reset r (some key)) key t ≡ pos (r.config.capacity * 1000))
        × (remaining (reset r none) key t ≡ pos (r.config.capacity * 1000))

get-delete_self : (r : RateLimiter) (key : String) → Dict.get key (Dict.delete key r.buckets) ≡ none
get-delete_self r key = get-delete key key r.buckets ∙ rw (str_eq_refl key)

-- A call is let through exactly when `remaining` showed at least one whole token at that time; a call
-- or a reset of one key leaves what any other key has at any time; and after a reset, of the key or of
-- all keys, the key has its full capacity.
pub take-Isolation : (r : RateLimiter) (key : String) (now : ℕ) → Isolation r key now
unfolding take reset Dict.get
take-Isolation r key now = record {
  allowed =
      rw (← refilled-or_full r key now)
        (take_bucket_allowed r.config (bucket_or_full r key now) now);
  kept = λ other t ne. (
    remaining_congr (take r key now).0 r other t refl
        (get-take_ne r key other now (refl-str_eq key other ne)),
    remaining_congr (reset r (some key)) r other t refl
        (get-delete key other r.buckets ∙ rw (refl-str_eq key other ne)),
  );
  restored = λ t. (
    remaining-shown (reset r (some key)) key t ∙ ap (shown r.config t) (get-delete_self r key),
    remaining-shown (reset r none) key t,
  );
}
