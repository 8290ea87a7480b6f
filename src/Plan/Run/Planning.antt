-- ===== src/Plan/Run/Planning.antt =====
-- The parts of a run that plan and that conclude.
use agent_ego.Base.{
  ℕ, suc, ◌+◌, ◌≤◌, ◌≡◌, ◌⊎◌, inl, inr, refl, subst, true, false, List, [], ◌∷◌, ◌++◌, map, some,
  ◌<>◌, any, arith, All, All-map, Bool-cases, Option-cases,
}
use agent_ego.Base.Result.{Result-cases}
use agent_ego.Reasoning.{final_answer}
use agent_ego.Plan.{PlanStep, PlanStepStatus, pending, failed, skipped, success, running, Plan}
use agent_ego.Plan.Parse.{parse_plan}
use agent_ego.Plan.Parse.RoundTrip.{IsFresh, parse_plan-IsFresh}
use agent_ego.Plan.Execute.{
  Outcome, success_all, partial, aborted_run, rejected, replan_needed, is_failed,
}
use agent_ego.Plan.Execute.Kept.{NoneFailed, is_good}
use agent_ego.Plan.Preserve.{preserve_prior_successes}
use agent_ego.Plan.Preserve.Statuses.{preserve-All}
use agent_ego.Plan.Run.{
  PlannerRequest, initial_plan, goal_refresh, replan, ReplanReason, goal_updates_high_relevance,
  plan_entry, replan_entry, answer_entry, spent, PlanEnv, Planned, planned, invalid, planner_threw,
  read_text, with_parent, State,
}
use agent_ego.Plan.Run.Turn.{
  call_planner, call_events, log_entry, adopt, apply_goal_update_replan, synthesize_final, conclude,
}
use agent_ego.Plan.Run.Events.{
  finals, finals-map, plans_of, plans_of-append, Quiet, Fine, add-Quiet, log-Quiet, crash-Fine,
  final-Fine, call_planner-finals,
}

pub Planned-cases :
    (a : Planned) → ((p : Plan) × (a ≡ planned p)) ⊎ ((a ≡ invalid) ⊎ (a ≡ planner_threw))
Planned-cases (planned p) = inl (p, refl)
Planned-cases invalid = inr (inl refl)
Planned-cases planner_threw = inr (inr refl)

pub Outcome-cases :
    (o : Outcome)
    → (o ≡ success_all)
      ⊎ ((o ≡ partial)
          ⊎ ((o ≡ aborted_run)
              ⊎ ((o ≡ rejected) ⊎ ((s : PlanStep) × (k : ℕ) × (o ≡ replan_needed s k)))))
Outcome-cases success_all = inl refl
Outcome-cases partial = inr (inl refl)
Outcome-cases aborted_run = inr (inr (inl refl))
Outcome-cases rejected = inr (inr (inr (inl refl)))
Outcome-cases (replan_needed s k) = inr (inr (inr (inr (s, k, refl))))

good-failed : (s : PlanStepStatus) → is_good s ≡ true → is_failed s ≡ false
good-failed pending h = refl
good-failed running h = refl
good-failed success h = refl
good-failed failed h = cc
good-failed skipped h = refl

none_failed-any :
    (ss : List PlanStep)
    → All (λ s. is_good s.status ≡ true) ss
    → any (λ s. is_failed s.status) ss ≡ false
none_failed-any [] h = refl
none_failed-any (s ∷ ss) (h, hs) = rw (good-failed s.status h) (none_failed-any ss hs)

module _ (env : PlanEnv) where
  open env use {tools, FallbackEvent}
  open tools use {World}

  with_parent-steps : (q : PlannerRequest) (p : Plan) → (with_parent q p).steps ≡ p.steps
  with_parent-steps initial_plan p = refl
  with_parent-steps (goal_refresh previous) p = refl
  with_parent-steps (replan previous failed_step attempt round) p = refl

  -- A plan of the planner has no failed step.
  pub call_planner-fresh :
      (q : PlannerRequest) (w : World) (p : Plan)
      → (call_planner env q w).2 ≡ planned p
      → NoneFailed p.steps
  unfolding call_planner
  call_planner-fresh q w p =
      let (w1, chunks, throws) = env.planner q w in
      let (text, us) = read_text chunks in
      let (w2, id) = env.generate_id w1 in
      elim (Bool-cases throws) [
        | inl e ↦ rw (e, call_planner) (λ h. cc)
        | inr e ↦ elim (Result-cases (parse_plan ("plan-" <> id) (env.read_json text))) [
          | inl (x, f) ↦ rw (e, f, call_planner) (λ h. cc)
          | inr (made, f) ↦
              rw (e, f, call_planner)
                (λ h.
                  let same : with_parent q made ≡ p = cc in
                  let fresh = (parse_plan-IsFresh _ _ made f).1 in
                  let none_failed : NoneFailed made.steps =
                    All-map IsFresh (λ s. is_failed s.status ≡ false) (λ s i. rw i.status refl)
                      made.steps fresh in
                  subst (λ x. NoneFailed x.steps) same (rw (with_parent-steps q made) none_failed))
        ]
      ]

  pub adopt-Quiet :
      (n : ℕ) (reason : ReplanReason) (p : Plan) (st : State env)
      → NoneFailed p.steps
      → Quiet env n st
      → let r = adopt env reason p st in
        (r.1 ≡ true → NoneFailed r.0.plan.steps) × Quiet env (suc n) r.0
  unfolding adopt plans_of
  adopt-Quiet n reason p st h q =
      let r = preserve_prior_successes st.plan.steps p.steps env.matcher st.world in
      elim (Option-cases r.1) [
        | inl e ↦
            rw (e, adopt) ((λ f. cc), record { events = q.events; trace = omega (arith, q.trace) })
        | inr (c, e) ↦
            let good =
              preserve-All (λ s. is_failed s.status ≡ false) (λ s p. refl) st.plan.steps p.steps
                env.matcher st.world c e h in
            let noted = log_entry env (replan_entry st.plan.id p.id reason c.preserved) st in
            let current : State env = record noted {
              world = r.0;
              plan = record p { steps = c.items };
            } in
            let u =
              log-Quiet env n n (replan_entry st.plan.id p.id reason c.preserved) st (omega arith)
                q in
            let v =
              log-Quiet env n (suc n) (plan_entry p.id) current (omega arith)
                (record { events = u.events; trace = u.trace }) in
            rw (e, adopt) ((λ f. good), v)
      ]

  -- What is known after the refresh: a step may have failed only where it throws.
  pub apply_goal_update_replan-Quiet :
      (n : ℕ) (st : State env)
      → NoneFailed st.plan.steps
      → Quiet env n st
      → let r = apply_goal_update_replan env st in
        (r.1 ≡ some false → NoneFailed r.0.plan.steps × Quiet env n r.0)
        × (r.1 ≡ some true → NoneFailed r.0.plan.steps × Quiet env (suc n) r.0)
        × Quiet env (suc n) r.0
  unfolding apply_goal_update_replan
  apply_goal_update_replan-Quiet n st h q =
      let (w, es, answer) = call_planner env (goal_refresh st.plan) st.world in
      let asked = call_events env es (record st { world = w }) in
      let u = add-Quiet env n st w es (call_planner-finals env (goal_refresh st.plan) st.world) q in
      let later : Quiet env (suc n) asked = record {
        events = u.events;
        trace = omega (arith, u.trace);
      } in
      elim (Planned-cases answer) [
        | inl (p, e) ↦
            let fresh = call_planner-fresh (goal_refresh st.plan) st.world p e in
            let (kept, v) = adopt-Quiet n goal_updates_high_relevance p asked fresh u in
            elim (Bool-cases (adopt env goal_updates_high_relevance p asked).1) [
              | inl f ↦ rw (e, apply_goal_update_replan, f) ((λ g. cc), (λ g. (kept f, v)), v)
              | inr f ↦ rw (e, apply_goal_update_replan, f) ((λ g. cc), (λ g. cc), v)
            ]
        | inr (inl e) ↦ rw (e, apply_goal_update_replan) ((λ g. (h, u)), (λ g. cc), later)
        | inr (inr e) ↦ rw (e, apply_goal_update_replan) ((λ g. cc), (λ g. cc), later)
      ]

  pub conclude-Fine :
      (n limit : ℕ) (st : State env)
      → n ≤ 1 + limit
      → All (λ s. is_good s.status ≡ true) st.plan.steps
      → Quiet env n st
      → Fine env limit (conclude env st)
  unfolding conclude synthesize_final plans_of finals
  conclude-Fine n limit st h good q =
      let (w, chunks, throws) = env.actor st.plan st.world in
      let (text, us) = read_text chunks in
      let told = call_events env (map spent us) (record st { world = w }) in
      let u = add-Quiet env n st w (map spent us) (finals-map spent us (λ x. refl)) q in
      let written : State env = record told { trace = told.trace ++ answer_entry text ∷ [] } in
      let v : Quiet env n written = record {
        events = u.events;
        trace = omega (arith, u.trace, plans_of-append told.trace (answer_entry text ∷ []));
      } in
      elim (Bool-cases throws) [
        | inl e ↦ rw (e, conclude, synthesize_final) (crash-Fine env n limit told h u)
        | inr e ↦
            rw (e, conclude, synthesize_final, none_failed-any st.plan.steps good)
              (final-Fine env n limit text final_answer written h (inr (refl, good)) v)
      ]
