-- ===== src/Plan/Run/Answers.antt =====
-- How a run ends, and how often it plans.
use agent_ego.Base.{
  ℕ, zero, suc, ◌+◌, ◌-◌, ◌≤◌, ◌<◌, ◌≡◌, inl, inr, refl, sym, subst, true, false, List, [], ◌∷◌,
  ◌++◌, map, none, or_else, ltb, arith, append_assoc, Bool-cases, Option-cases, ◌&&◌,
}
use agent_ego.Reasoning.{user_abort}
use agent_ego.Plan.{PlanStep}
use agent_ego.Plan.Execute.{execute_plan}
use agent_ego.Plan.Execute.Kept.{NoneFailed}
use agent_ego.Plan.Execute.Settled.{execute_plan-Settled}
use agent_ego.Plan.Run.{
  PlanExecuteConfig, initial_plan, replan, step_retry_exhausted, HandOverReason,
  replan_limit_exceeded, plan_validation_error, plan_entry, invalid_plan_entry, hand_over_entry,
  progress, entry, from_fallback, Context, PlanEnv, should_fire_goal_update_replan, State, Run,
  Event,
}
use agent_ego.Plan.Run.Turn.{
  call_planner, call_events, log_entry, adopt, apply_goal_update_replan, remaining_goals,
  augment_user_message, downgrade_to_react, run_round, execution_loop, run_plan,
  downgrade_on_plan_error, run,
}
use agent_ego.Plan.Run.Events.{
  finals, finals-append, finals-map, plans_of, Quiet, Fine, add-Quiet, log-Quiet, crash-Fine,
  final-Fine, call_planner-finals,
}
use agent_ego.Plan.Run.Planning.{
  Planned-cases, Outcome-cases, call_planner-fresh, adopt-Quiet, apply_goal_update_replan-Quiet,
  conclude-Fine,
}

module _ (env : PlanEnv) where
  open env use {tools, FallbackEvent}
  open tools use {World}

  -- A round ends the run as it should, if what follows a failed step does.
  run_round-Fine :
      (n limit : ℕ) (config : PlanExecuteConfig) (st : State env)
      → (next : PlanStep → ℕ → State env → Run env) → n ≤ 1 + limit
      → NoneFailed st.plan.steps
      → Quiet env n st
      → ((s : PlanStep) (k : ℕ) (st1 : State env) → Quiet env n st1 → Fine env limit (next s k st1))
      → Fine env limit (run_round env config st next)
  unfolding run_round finals
  run_round-Fine n limit config st next h sound q later =
      let (w, abort) = tools.aborted st.world in
      let retries = or_else config.step_retry_limit 1 in
      let r = execute_plan tools config.parallel_execution retries st.plan.steps w in
      let (never, done) =
        execute_plan-Settled tools config.parallel_execution retries st.plan.steps w sound in
      let after : State env = record st {
        world = r.world;
        plan = record st.plan { steps = r.store };
        events = st.events ++ map progress r.events;
      } in
      let u : Quiet env n after = record {
        events = omega (
          arith,
          q.events,
          finals-append st.events (map progress r.events),
          finals-map {F = FallbackEvent} progress r.events (λ x. refl),
        );
        trace = q.trace;
      } in
      elim (Bool-cases abort) [
        | inl e ↦
            rw (e, run_round)
              (final-Fine env n limit "" user_abort (record st { world = w }) h (inl refl)
                (record { events = q.events; trace = q.trace }))
        | inr e ↦ elim (Outcome-cases r.outcome) [
          | inl f ↦ rw (e, f, run_round) (conclude-Fine env n limit after h (done f).1 u)
          | inr (inl f) ↦ absurd (never f)
          | inr (inr (inl f)) ↦
              rw (e, f, run_round) (final-Fine env n limit "" user_abort after h (inl refl) u)
          | inr (inr (inr (inl f))) ↦ rw (e, f, run_round) (crash-Fine env n limit after h u)
          | inr (inr (inr (inr (s, k, f)))) ↦ rw (e, f, run_round) (later s k after u)
        ]
      ]

  downgrade_to_react-Fine :
      (n limit : ℕ) (ctx : Context) (reason : HandOverReason) (round : ℕ) (s : PlanStep)
      → (st : State env) → n ≤ 1 + limit
      → Quiet env n st
      → Fine env limit (downgrade_to_react env ctx reason round s st)
  unfolding downgrade_to_react plans_of finals
  downgrade_to_react-Fine n limit ctx reason round s st h q =
      let goals = remaining_goals env st.plan.steps in
      let noted = log_entry env (hand_over_entry reason round s.id goals) st in
      let u = log-Quiet env n n (hand_over_entry reason round s.id goals) st (omega arith) q in
      let content = augment_user_message env ctx.content goals in
      elim (Bool-cases (env.fallback none content st.world).2) [
        | inl e ↦
            rw (e, downgrade_to_react)
              (record {
                plans = omega (arith, u.trace);
                own = λ f. cc;
                handed = λ f. record {
                  before = noted.events;
                  budget = none;
                  content = content;
                  world = st.world;
                  returned = e;
                  last = refl;
                  quiet = u.events;
                };
              })
        | inr e ↦
            rw (e, downgrade_to_react)
              (record { plans = omega (arith, u.trace); own = λ f. cc; handed = λ f. cc })
      ]

  execution_loop-Fine :
      (limit left round : ℕ) (config : PlanExecuteConfig) (ctx : Context) (st : State env)
      → round + left ≡ limit
      → NoneFailed st.plan.steps
      → Quiet env (suc round) st
      → Fine env limit (execution_loop env config ctx left round st)
  unfolding execution_loop
  execution_loop-Fine limit zero round config ctx st h sound q =
      run_round-Fine (suc round) limit config st _ (omega arith) sound q (λ s k st1 q1.
        downgrade_to_react-Fine (suc round) limit ctx replan_limit_exceeded round s st1
          (omega arith) q1)
  execution_loop-Fine limit (suc left) round config ctx st h sound q =
      run_round-Fine (suc round) limit config st _ (omega arith) sound q (λ s k st1 q1.
        let request = replan st1.plan s k (round + 1) in
        let (w, es, answer) = call_planner env request st1.world in
        let asked = call_events env es (record st1 { world = w }) in
        let u = add-Quiet env (suc round) st1 w es (call_planner-finals env request st1.world) q1 in
        elim (Planned-cases answer) [
          | inr (inr e) ↦ rw e (crash-Fine env (suc round) limit asked (omega arith) u)
          | inr (inl e) ↦ rw e (
              downgrade_to_react-Fine (suc round) limit ctx plan_validation_error (round + 1) s
                asked (omega arith) u)
          | inl (p, e) ↦
              let fresh = call_planner-fresh env request st1.world p e in
              let reason = step_retry_exhausted s.id k in
              let (kept, v) = adopt-Quiet env (suc round) reason p asked fresh u in
              let st2 = (adopt env reason p asked).0 in
              let same : round + 1 ≡ suc round = omega arith in
              elim (Bool-cases (adopt env reason p asked).1) [
                | inl f ↦
                    rw (e, f)
                      (execution_loop-Fine limit left (round + 1) config ctx st2 (omega arith)
                        (kept f) (subst (λ m. Quiet env (suc m) st2) (sym same) v))
                | inr f ↦ rw (e, f) (crash-Fine env (suc (suc round)) limit st2 (omega arith) v)
              ]
        ])

  run_plan-Fine :
      (config : PlanExecuteConfig) (ctx : Context) (st : State env)
      → NoneFailed st.plan.steps
      → Quiet env 1 st
      → Fine env (or_else config.replan_limit 2) (run_plan env config ctx st)
  unfolding run_plan
  run_plan-Fine config ctx st sound q =
      let limit = or_else config.replan_limit 2 in
      let (unchanged, changed, threw) = apply_goal_update_replan-Quiet env 1 st sound q in
      let r = apply_goal_update_replan env st in
      elim (Bool-cases (should_fire_goal_update_replan ctx && ltb 0 limit)) [
        | inr e ↦
            rw (e, run_plan) (execution_loop-Fine limit limit 0 config ctx st (omega arith) sound q)
        | inl e ↦
            let positive : 0 < limit = ground arith in
            elim (Option-cases r.1) [
              | inl f ↦ rw (e, f, run_plan) (crash-Fine env 2 limit r.0 (omega arith) threw)
              | inr (true, f) ↦
                  let (good, v) = changed f in
                  rw (e, f, run_plan)
                    (execution_loop-Fine limit (limit - 1) 1 config ctx r.0 (omega arith) good v)
              | inr (false, f) ↦
                  let (good, v) = unchanged f in
                  rw (e, f, run_plan)
                    (execution_loop-Fine limit limit 0 config ctx r.0 (omega arith) good v)
            ]
      ]

  downgrade_on_plan_error-Fine :
      (limit : ℕ) (ctx : Context) (w : World) (es : List (Event env))
      → finals es ≡ 0
      → Fine env limit (downgrade_on_plan_error env ctx w es)
  unfolding downgrade_on_plan_error finals plans_of
  downgrade_on_plan_error-Fine limit ctx w es h =
      let r = env.fallback ctx.budget ctx.content w in
      let told = es ++ entry invalid_plan_entry ∷ [] in
      elim (Bool-cases r.2) [
        | inl e ↦
            rw (e, downgrade_on_plan_error)
              (record {
                plans = omega arith;
                own = λ f. cc;
                handed = λ f. record {
                  before = told;
                  budget = ctx.budget;
                  content = ctx.content;
                  world = w;
                  returned = e;
                  last =
                      sym (append_assoc es (entry invalid_plan_entry ∷ []) (map from_fallback r.1));
                  quiet = omega (arith, h, finals-append es (entry invalid_plan_entry ∷ []));
                };
              })
        | inr e ↦
            rw (e, downgrade_on_plan_error)
              (record { plans = omega arith; own = λ f. cc; handed = λ f. cc })
      ]

  -- Whatever the models, the tools and the abort signal do: a run makes at most one plan more than its
  -- limit of replans. If it ends with a final event of its own, that is its last event and the only
  -- one of its kind, and either the user aborted the run or the reason is a final answer and every
  -- step of the last plan is done or skipped. If the fallback ends it, then the fallback has returned,
  -- its events are the last ones, and no final event stands before them.
  pub run-Fine :
      (config : PlanExecuteConfig) (ctx : Context) (w : World)
      → Fine env (or_else config.replan_limit 2) (run env config ctx w)
  unfolding run finals plans_of
  run-Fine config ctx w =
      let limit = or_else config.replan_limit 2 in
      let (w1, abort) = tools.aborted w in
      let (w2, es, answer) = call_planner env initial_plan w1 in
      let h = call_planner-finals env initial_plan w1 in
      elim (Bool-cases abort) [
        | inl e ↦
            rw (e, run)
              (record {
                plans = omega arith;
                own = λ f. record {
                  before = [];
                  text = "";
                  reason = user_abort;
                  last = refl;
                  quiet = refl;
                  set = refl;
                  done = inl refl;
                };
                handed = λ f. cc;
              })
        | inr e ↦ elim (Planned-cases answer) [
          | inr (inr f) ↦
              rw (e, f, run) (record { plans = omega arith; own = λ g. cc; handed = λ g. cc })
          | inr (inl f) ↦ rw (e, f, run) (downgrade_on_plan_error-Fine limit ctx w2 es h)
          | inl (p, f) ↦
              rw (e, f, run)
                (run_plan-Fine config ctx _ (call_planner-fresh env initial_plan w1 p f) (record {
                  events = omega (arith, h, finals-append es (entry (plan_entry p.id) ∷ []));
                  trace = omega arith;
                }))
        ]
      ]
