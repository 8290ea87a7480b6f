-- ===== src/Ego/Layer/Turns.antt =====
-- What a message can do to the layer, and what comes of it.
use agent_ego.Base.{
  ℕ, ◌<◌, ◌≡◌, ◌⊎◌, inl, inr, refl, ◌∙◌, true, false, ◌&&◌, List, [], ◌∷◌, String, or_else, str_eq,
  Bool-cases, Option-cases, arith,
}
use agent_ego.Base.Result.{Result, ok, err, Result-cases}
use agent_ego.Ego.CircuitBreaker.{
  Breaker, allow, record_success, record_failure, step, allow_call, success_call, failure_call,
}
use agent_ego.Ego.CircuitBreaker
use agent_ego.Ego.CircuitBreaker.Invariant.{new-Inv, Inv, step-Inv, config-step}
use agent_ego.Ego.States.{is_operational}
use agent_ego.Ego.Layer.{
  new, EgoConfig, EgoEnv, EgoLayer, Timing, in_time, overtakes_thinking, overtakes_decision,
  Thinking, Failure, timed_out, ProcessRecord, add_cost, charged, over_cap, effective_action,
}
use agent_ego.Ego.Layer.Pipeline.{
  materialize_decision, decide, recover, settle, deep_path, late_path, process_detailed,
}

pub Timing-cases :
    (t : Timing) → (t ≡ overtakes_thinking) ⊎ ((t ≡ in_time) ⊎ (t ≡ overtakes_decision))
Timing-cases overtakes_thinking = inl refl
Timing-cases in_time = inr (inl refl)
Timing-cases overtakes_decision = inr (inr refl)

-- The layer after a message, as against the one before.
pub record Sound (l m : EgoLayer) : Type 0 where
  pub same_config : m.config ≡ l.config
  pub cost : m.cost_usd ≡ 0
  pub threshold : m.breaker.config ≡ l.breaker.config
  pub breaker : Inv m.breaker

config-new :
    (c : CircuitBreaker.Config) → 0 < c.threshold → 0 < (CircuitBreaker.new c).config.threshold
unfolding CircuitBreaker.new
config-new c h = h

module _ (env : EgoEnv) where
  open env use {World, Message}

  -- What holds of a layer to which nothing has been charged.
  pub record Fresh (l : EgoLayer) : Type 0 where
    pub cost : l.cost_usd ≡ 0
    pub positive : 0 < l.breaker.config.threshold
    pub breaker : Inv l.breaker

  Sound-refl : (l : EgoLayer) → Fresh l → Sound l l
  Sound-refl l f = record {
    same_config = refl;
    cost = f.cost;
    threshold = refl;
    breaker = f.breaker;
  }

  charged-Sound : (today : String) (l : EgoLayer) → Fresh l → Sound l (charged today l)
  unfolding charged add_cost step
  charged-Sound today l f = record {
    same_config = refl;
    cost = elim (Bool-cases (str_eq l.day today)) [
      | inl e ↦ rw e (omega (arith, f.cost))
      | inr e ↦ rw e (omega arith)
    ];
    threshold = config-step l.breaker success_call 0;
    breaker = step-Inv l.breaker success_call 0 f.positive f.breaker;
  }

  charged-over_cap : (today : String) (l : EgoLayer) → Fresh l → over_cap (charged today l) ≡ false
  unfolding over_cap
  charged-over_cap today l f = let zero_cost = (charged-Sound today l f).cost in ground arith

  decide-charged :
      (today : String) (msg : Message) (t : Thinking) (l : EgoLayer) (w : World)
      → Fresh l
      → (decide env today msg t l w).1 ≡ charged today l
  unfolding decide
  decide-charged today msg t l w f =
      let spent = charged today l in
      let w2 = env.generate_id w in
      let made =
        materialize_decision env (effective_action spent.config t.judgment) t msg w2.1 w2.0 in
      elim (Option-cases made.1) [
        | inl e ↦ rw (charged-over_cap today l f, e, decide) refl
        | inr (d, e) ↦ rw (charged-over_cap today l f, e, decide) refl
      ]

  decide-Sound :
      (today : String) (msg : Message) (t : Thinking) (l : EgoLayer) (w : World)
      → Fresh l
      → Sound l (decide env today msg t l w).1
  decide-Sound today msg t l w f = rw (decide-charged today msg t l w f) (charged-Sound today l f)

  recover-Sound :
      (now : ℕ) (f : Failure) (l m : EgoLayer) (w : World)
      → 0 < l.breaker.config.threshold
      → Sound l m
      → Sound l (recover env now f m w).1
  unfolding recover step
  recover-Sound now f l m w h v = record {
    same_config = v.same_config;
    cost = v.cost;
    threshold = config-step m.breaker failure_call now ∙ v.threshold;
    breaker = step-Inv m.breaker failure_call now (rw v.threshold h) v.breaker;
  }

  settle-Sound :
      (now : ℕ) (l m : EgoLayer) (w : World) (r : Result Failure ProcessRecord)
      → 0 < l.breaker.config.threshold
      → Sound l m
      → Sound l (settle env now (w, m, r)).1
  settle-Sound now l m w (ok r) h v = v
  settle-Sound now l m w (err f) h v = recover-Sound now f l m w h v

  deep_path-Sound :
      (now : ℕ) (today : String) (msg : Message) (l : EgoLayer) (w : World)
      → Fresh l
      → Sound l (deep_path env now today msg l w).1
  unfolding deep_path
  deep_path-Sound now today msg l w f =
      let thought = env.think msg w in
      let raced = env.timing thought.0 in
      let unchanged = Sound-refl l f in
      let failed =
        λ (problem : Failure). recover-Sound now problem l l raced.0 f.positive unchanged in
      elim (Timing-cases raced.1) [
        | inl e ↦ rw (e, deep_path) (failed timed_out)
        | inr (inl e) ↦ elim (Result-cases thought.1) [
          | inl (problem, g) ↦ rw (e, g, deep_path) (failed problem)
          | inr (t, g) ↦
              let r = decide env today msg t l raced.0 in
              rw (e, g, deep_path)
                (settle-Sound now l r.1 r.0 r.2 f.positive (decide-Sound today msg t l raced.0 f))
        ]
        | inr (inr e) ↦ elim (Result-cases thought.1) [
          | inl (problem, g) ↦ rw (e, g, deep_path) (failed problem)
          | inr (t, g) ↦
              let r = decide env today msg t l raced.0 in
              rw (e, g, deep_path)
                (recover-Sound now timed_out l r.1 r.0 f.positive
                  (decide-Sound today msg t l raced.0 f))
        ]
      ]

  process_detailed-Sound :
      (now : ℕ) (today : String) (msg : Message) (l : EgoLayer) (w : World)
      → Fresh l
      → Sound l (process_detailed env now today msg l w).1
  unfolding process_detailed step
  process_detailed-Sound now today msg l w f =
      let unchanged = Sound-refl l f in
      let allowed : EgoLayer = record l { breaker = (allow l.breaker now).0 } in
      let same = config-step l.breaker allow_call now in
      let kept = step-Inv l.breaker allow_call now f.positive f.breaker in
      let after : Sound l allowed = record {
        same_config = refl;
        cost = f.cost;
        threshold = same;
        breaker = kept;
      } in
      let deep =
        deep_path-Sound now today msg allowed w
          (record { cost = f.cost; positive = rw same f.positive; breaker = kept }) in
      let through : Sound l (deep_path env now today msg allowed w).1 = record {
        same_config = deep.same_config;
        cost = deep.cost;
        threshold = deep.threshold ∙ same;
        breaker = deep.breaker;
      } in
      elim (Bool-cases (is_operational l.config.state)) [
        | inr a ↦ rw (a, process_detailed) unchanged
        | inl a ↦
            elim (Bool-cases
              (or_else l.config.fast_path_enabled true && env.should_fast_exit msg l.config)) [
                | inl b ↦ rw (a, b, process_detailed) unchanged
                | inr b ↦ elim (Bool-cases env.has_llm) [
                  | inr c ↦ simp (a, b, c, process_detailed) unchanged
                  | inl c ↦ elim (Bool-cases (allow l.breaker now).1) [
                    | inl d ↦ simp (a, b, c, d, process_detailed) through
                    | inr d ↦ simp (a, b, c, d, process_detailed) after
                  ]
                ]
              ]
      ]

  late_path-Sound :
      (today : String) (msg : Message) (t : Thinking) (l : EgoLayer) (w : World)
      → Fresh l
      → Sound l (late_path env today msg t l w).1
  unfolding late_path
  late_path-Sound today msg t l w f = decide-Sound today msg t l w f

  -- What happens to a layer: a message, or the end of a pipeline that was overtaken.
  pub data Happening : Type 0 where
    arrives : (now : ℕ) (today : String) → Message → Happening
    ends_late : (today : String) → Message → Thinking → Happening

  pub happen : List Happening → EgoLayer → World → EgoLayer
  happen [] l w = l
  happen (arrives now today msg ∷ hs) l w =
      let r = process_detailed env now today msg l w in happen hs r.1 r.0
  happen (ends_late today msg t ∷ hs) l w =
      let r = late_path env today msg t l w in happen hs r.1 r.0

  Sound→Fresh : (l m : EgoLayer) → Fresh l → Sound l m → Fresh m
  Sound→Fresh l m f v = record {
    cost = v.cost;
    positive = rw v.threshold f.positive;
    breaker = v.breaker;
  }

  Sound-trans : (l m n : EgoLayer) → Sound l m → Sound m n → Sound l n
  Sound-trans l m n v u = record {
    same_config = u.same_config ∙ v.same_config;
    cost = u.cost;
    threshold = u.threshold ∙ v.threshold;
    breaker = u.breaker;
  }

  happen-Sound :
      (hs : List Happening) (l : EgoLayer) (w : World) → Fresh l → Sound l (happen hs l w)
  unfolding happen
  happen-Sound [] l w f = Sound-refl l f
  happen-Sound (arrives now today msg ∷ hs) l w f =
      let m = (process_detailed env now today msg l w).1 in
      let u = process_detailed-Sound now today msg l w f in
      let g = Sound→Fresh l m f u in Sound-trans l m _ u (happen-Sound hs m _ g)
  happen-Sound (ends_late today msg t ∷ hs) l w f =
      let m = (late_path env today msg t l w).1 in
      let u = late_path-Sound today msg t l w f in
      let g = Sound→Fresh l m f u in Sound-trans l m _ u (happen-Sound hs m _ g)

  -- Whatever happens to a new layer whose breaker has a positive threshold, messages and late ends of
  -- pipelines in any order: nothing is ever charged, so that the daily cap, which is no less than 0,
  -- does not fire and the configuration, the operating state included, stays as it was; and the
  -- breaker satisfies its invariant.
  pub happen-new :
      (config : EgoConfig) (hs : List Happening) (w : World)
      → 0 < config.breaker.threshold
      → let l = happen hs (new config) w in (l.config ≡ config) × (l.cost_usd ≡ 0) × Inv l.breaker
  unfolding new
  happen-new config hs w h =
      let f : Fresh (new config) = record {
        cost = refl;
        positive = config-new config.breaker h;
        breaker = new-Inv config.breaker h;
      } in
      let v = happen-Sound hs (new config) w f in (v.same_config, v.cost, v.breaker)
