-- ===== src/Plan/Run/Events.antt =====
-- The final events and the plans of a run, and how it ends.
use agent_ego.Base.{
  ℕ, suc, ◌+◌, ◌≤◌, ◌≡◌, ◌⊎◌, inl, inr, refl, true, List, [], ◌∷◌, ◌++◌, map, Option, some, String,
  ◌<>◌, arith, All, Bool-cases,
}
use agent_ego.Base.Result.{Result-cases}
use agent_ego.Reasoning.{
  TerminationReason, final_answer, user_abort, ReasoningBudget, MessageContent,
}
use agent_ego.Plan.{Plan}
use agent_ego.Plan.Parse.{parse_plan}
use agent_ego.Plan.Execute.Kept.{is_good}
use agent_ego.Plan.Run.{
  PlannerRequest, TraceEntry, plan_entry, replan_entry, invalid_plan_entry, hand_over_entry,
  answer_entry, PlanEvent, progress, entry, spent, final, from_fallback, PlanEnv, answered,
  delegated, read_text, State, Run, Event,
}
use agent_ego.Plan.Run.Turn.{call_planner, call_events, log_entry, crash, final_event}

-- The events with which a run ends: final ones, and those of the fallback.
unfoldable pub finals : {F : Type 0} → List (PlanEvent F) → ℕ
finals [] = 0
finals (final text reason ∷ es) = suc (finals es)
finals (progress e ∷ es) = finals es
finals (entry e ∷ es) = finals es
finals (spent u ∷ es) = finals es
finals (from_fallback e ∷ es) = suc (finals es)

-- The plans in a trace.
unfoldable pub plans_of : List TraceEntry → ℕ
plans_of [] = 0
plans_of (plan_entry id ∷ t) = suc (plans_of t)
plans_of (replan_entry from_id to_id reason preserved ∷ t) = plans_of t
plans_of (invalid_plan_entry ∷ t) = plans_of t
plans_of (hand_over_entry reason round id goals ∷ t) = plans_of t
plans_of (answer_entry text ∷ t) = plans_of t

pub plans_of-append : (t u : List TraceEntry) → plans_of (t ++ u) ≡ plans_of t + plans_of u
unfolding plans_of
plans_of-append [] u = omega arith
plans_of-append (plan_entry id ∷ t) u = omega (arith, plans_of-append t u)
plans_of-append (replan_entry from_id to_id reason preserved ∷ t) u = plans_of-append t u
plans_of-append (invalid_plan_entry ∷ t) u = plans_of-append t u
plans_of-append (hand_over_entry reason round id goals ∷ t) u = plans_of-append t u
plans_of-append (answer_entry text ∷ t) u = plans_of-append t u

pub finals-append :
    {F : Type 0} (es fs : List (PlanEvent F)) → finals (es ++ fs) ≡ finals es + finals fs
unfolding finals
finals-append [] fs = omega arith
finals-append (final text reason ∷ es) fs = omega (arith, finals-append es fs)
finals-append (progress e ∷ es) fs = finals-append es fs
finals-append (entry e ∷ es) fs = finals-append es fs
finals-append (spent u ∷ es) fs = finals-append es fs
finals-append (from_fallback e ∷ es) fs = omega (arith, finals-append es fs)

pub finals-map :
    {F A : Type 0} (f : A → PlanEvent F) (xs : List A)
    → ((x : A) → finals (f x ∷ []) ≡ 0)
    → finals (map f xs) ≡ 0
unfolding finals
finals-map f [] h = refl
finals-map f (x ∷ xs) h = omega (arith, finals-append (f x ∷ []) (map f xs), h x, finals-map f xs h)

module _ (env : PlanEnv) where
  open env use {tools, FallbackEvent}
  open tools use {World}

  -- A run that has not ended, with at most `plans` plans.
  pub record Quiet (plans : ℕ) (st : State env) : Type 0 where
    pub events : finals st.events ≡ 0
    pub trace : plans_of st.trace ≤ plans

  -- The end of a run with a final event of its own.
  pub record Own (r : Run env) : Type 0 where
    pub before : List (Event env)
    pub text : String
    pub reason : TerminationReason
    pub last : r.events ≡ before ++ final text (some reason) ∷ []
    pub quiet : finals before ≡ 0
    pub set : r.termination ≡ some reason
    pub done :
        (reason ≡ user_abort)
        ⊎ ((reason ≡ final_answer)
            × (p : Plan) × (r.plan ≡ some p)
            × All (λ s. is_good s.status ≡ true) p.steps)

  -- The end of a run that the fallback's run ends: its events are the last ones.
  pub record Handed (r : Run env) : Type 0 where
    pub before : List (Event env)
    pub budget : Option ReasoningBudget
    pub content : MessageContent
    pub world : World
    pub returned : (env.fallback budget content world).2 ≡ true
    pub last : r.events ≡ before ++ map from_fallback (env.fallback budget content world).1
    pub quiet : finals before ≡ 0

  pub record Fine (limit : ℕ) (r : Run env) : Type 0 where
    pub plans : plans_of r.trace ≤ 1 + limit
    pub own : r.ending ≡ answered → Own r
    pub handed : r.ending ≡ delegated → Handed r

  pub add-Quiet :
      (n : ℕ) (st : State env) (w : World) (es : List (Event env))
      → finals es ≡ 0
      → Quiet n st
      → Quiet n (call_events env es (record st { world = w }))
  add-Quiet n st w es h q = record {
    events = omega (arith, h, q.events, finals-append st.events es);
    trace = q.trace;
  }

  pub log-Quiet :
      (n m : ℕ) (e : TraceEntry) (st : State env)
      → plans_of (e ∷ []) + n ≤ m
      → Quiet n st
      → Quiet m (log_entry env e st)
  unfolding finals
  log-Quiet n m e st h q = record {
    events = omega (arith, q.events, finals-append st.events (entry e ∷ []));
    trace = omega (arith, h, q.trace, plans_of-append st.trace (e ∷ []));
  }

  pub crash-Fine :
      (n limit : ℕ) (st : State env) → n ≤ 1 + limit → Quiet n st → Fine limit (crash env st)
  crash-Fine n limit st h q = record {
    plans = omega (arith, q.trace);
    own = λ e. cc;
    handed = λ e. cc;
  }

  pub final-Fine :
      (n limit : ℕ) (text : String) (reason : TerminationReason) (st : State env)
      → n ≤ 1 + limit
      → (reason ≡ user_abort)
        ⊎ ((reason ≡ final_answer) × All (λ s. is_good s.status ≡ true) st.plan.steps)
      → Quiet n st
      → Fine limit (final_event env text reason st)
  final-Fine n limit text reason st h d q = record {
    plans = omega (arith, q.trace);
    own = λ e. record {
      before = st.events;
      text = text;
      reason = reason;
      last = refl;
      quiet = q.events;
      set = refl;
      done = elim d [ inl a ↦ inl a | inr (f, g) ↦ inr (f, st.plan, refl, g) ];
    };
    handed = λ e. cc;
  }

  pub call_planner-finals : (q : PlannerRequest) (w : World) → finals (call_planner env q w).1 ≡ 0
  unfolding call_planner finals
  call_planner-finals q w =
      let (w1, chunks, throws) = env.planner q w in
      let (text, us) = read_text chunks in
      let (w2, id) = env.generate_id w1 in
      let h = finals-map {F = FallbackEvent} spent us (λ u. refl) in
      elim (Bool-cases throws) [
        | inl e ↦ rw (e, call_planner) h
        | inr e ↦ elim (Result-cases (parse_plan ("plan-" <> id) (env.read_json text))) [
          | inl (x, f) ↦ rw (e, f, call_planner) h
          | inr (p, f) ↦ rw (e, f, call_planner) h
        ]
      ]
