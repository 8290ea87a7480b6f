-- ===== src/Plan/Run/Turn.antt =====
-- The parts of a run, and `run`.
use agent_ego.Base.{
  ℕ, zero, suc, ◌+◌, ◌-◌, Bool, true, false, ◌&&◌, List, [], ◌∷◌, ◌++◌, map, Option, none, some,
  String, ◌<>◌, or_else, any, ltb, if◌then◌else◌, filter,
}
use agent_ego.Base.Result.{ok, err}
use agent_ego.Reasoning.{
  TerminationReason, final_answer, hard_error, user_abort, MessageContent, text_content,
  extract_text, join,
}
use agent_ego.Plan.{PlanStep, Plan}
use agent_ego.Plan.Parse.{parse_plan}
use agent_ego.Plan.Execute.{
  success_all, partial, aborted_run, rejected, replan_needed, is_failed, execute_plan,
}
use agent_ego.Plan.Preserve.{preserve_prior_successes}
use agent_ego.Plan.Run.{
  PlanExecuteConfig, PlannerRequest, initial_plan, goal_refresh, replan, ReplanReason,
  goal_updates_high_relevance, step_retry_exhausted, HandOverReason, replan_limit_exceeded,
  plan_validation_error, TraceEntry, plan_entry, replan_entry, invalid_plan_entry, hand_over_entry,
  answer_entry, progress, entry, spent, final, from_fallback, Ending, Context, PlanEnv, answered,
  delegated, crashed, Planned, planned, invalid, planner_threw, read_text, with_parent,
  should_fire_goal_update_replan, is_remaining, goals_of, State, Run, Event,
}

module _ (env : PlanEnv) where
  open env use {tools, FallbackEvent}
  open tools use {World}

  -- One call of the planner: what `callPlanner` and the beginning of `applyGoalUpdateReplan` share.
  unfoldable pub call_planner : PlannerRequest → World → World × List (Event env) × Planned
  call_planner q w =
      let (w1, chunks, throws) = env.planner q w in
      let (text, us) = read_text chunks in
      let (w2, id) = env.generate_id w1 in
      elim throws [
        | true ↦ (w1, map spent us, planner_threw)
        | false ↦ elim (parse_plan ("plan-" <> id) (env.read_json text)) [
          | err problem ↦ (w1, map spent us, invalid)
          | ok p ↦ (w2, map spent us, planned (with_parent q p))
        ]
      ]

  abbrev pub call_events : List (Event env) → State env → State env
  call_events es st = record st { events = st.events ++ es }

  abbrev pub log_entry : TraceEntry → State env → State env
  log_entry e st = record st { trace = st.trace ++ e ∷ []; events = st.events ++ entry e ∷ [] }

  -- How a run ends.
  abbrev pub result_of : State env → Option TerminationReason → Ending → Run env
  result_of st reason ending = record {
    world = st.world;
    plan = some st.plan;
    trace = st.trace;
    events = st.events;
    termination = reason;
    ending = ending;
  }

  abbrev pub crash : State env → Run env
  crash st = result_of st none crashed

  abbrev pub final_event : String → TerminationReason → State env → Run env
  final_event text reason st =
      result_of (record st { events = st.events ++ final text (some reason) ∷ [] }) (some reason)
        answered

  -- A new plan takes the place of the old one, once the steps that are done are carried over.
  unfoldable pub adopt : ReplanReason → Plan → State env → State env × Bool
  adopt reason p st =
      let (w, carried) = preserve_prior_successes st.plan.steps p.steps env.matcher st.world in
      elim carried [
        | none ↦ (record st { world = w }, false)
        | some c ↦
            let noted = log_entry (replan_entry st.plan.id p.id reason c.preserved) st in
            let current = record noted { world = w; plan = record p { steps = c.items } } in
            (log_entry (plan_entry p.id) current, true)
      ]

  -- `applyGoalUpdateReplan`: whether a new plan came of it; `none` is an exception.
  unfoldable pub apply_goal_update_replan : State env → State env × Option Bool
  apply_goal_update_replan st =
      let (w, es, answer) = call_planner (goal_refresh st.plan) st.world in
      let asked = call_events es (record st { world = w }) in
      elim answer [
        | planner_threw ↦ (asked, none)
        | invalid ↦ (asked, some false)
        | planned p ↦
            let (st1, done) = adopt goal_updates_high_relevance p asked in
            (st1, if done then some true else none)
      ]

  unfoldable pub synthesize_final : State env → State env × Option String
  synthesize_final st =
      let (w, chunks, throws) = env.actor st.plan st.world in
      let (text, us) = read_text chunks in
      let told = call_events (map spent us) (record st { world = w }) in
      (told, if throws then none else some text)

  -- After the loop.
  unfoldable pub conclude : State env → Run env
  conclude st =
      let (st1, answer) = synthesize_final st in
      let reason =
        if any (λ s. is_failed s.status) st1.plan.steps then hard_error else final_answer in
      elim answer [
        | none ↦ crash st1
        | some text ↦
            final_event text reason (record st1 { trace = st1.trace ++ answer_entry text ∷ [] })
      ]

  -- `augmentUserMessage`: the goals that are left are listed from 1.
  pub numbered : ℕ → List String → List String
  numbered n [] = []
  numbered n (g ∷ gs) = (env.show n <> ". " <> g) ∷ numbered (n + 1) gs

  unfoldable pub augment_user_message : MessageContent → List String → MessageContent
  unfolding numbered
  augment_user_message content [] = text_content (extract_text "" content)
  augment_user_message content (g ∷ gs) = text_content (
      extract_text "" content
      <> "\n\n[plan-execute 가 다음 목표를 완료하지 못해 ReAct 로 위임됨]\n"
      <> join "\n" (numbered 1 (g ∷ gs)))

  abbrev pub remaining_goals : List PlanStep → List String
  remaining_goals steps = goals_of (filter (λ s. is_remaining s.status) steps)

  -- The fallback's events follow those of the run; it starts with no budget of the context.
  unfoldable pub downgrade_to_react : Context → HandOverReason → ℕ → PlanStep → State env → Run env
  downgrade_to_react ctx reason round failed_step st =
      let goals = remaining_goals st.plan.steps in
      let noted = log_entry (hand_over_entry reason round failed_step.id goals) st in
      let (w, es, returned) = env.fallback none (augment_user_message ctx.content goals) st.world in
      result_of (call_events (map from_fallback es) (record noted { world = w })) none
        (if returned then delegated else crashed)

  -- The body of the loop; `next` is what follows when a step has used up its retries.
  unfoldable pub run_round :
      PlanExecuteConfig → State env → (PlanStep → ℕ → State env → Run env) → Run env
  run_round config st next =
      let (w, abort) = tools.aborted st.world in
      let retries = or_else config.step_retry_limit 1 in
      let r = execute_plan tools config.parallel_execution retries st.plan.steps w in
      let after = record st {
        world = r.world;
        plan = record st.plan { steps = r.store };
        events = st.events ++ map progress r.events;
      } in
      if abort then final_event "" user_abort (record st { world = w }) else elim r.outcome [
        | aborted_run ↦ final_event "" user_abort after
        | success_all ↦ conclude after
        | partial ↦ conclude after
        | rejected ↦ crash after
        | replan_needed failed_step attempt ↦ next failed_step attempt after
      ]

  -- `left` replans are left, and `round` have been made.
  unfoldable pub execution_loop :
      PlanExecuteConfig → Context → (left round : ℕ) → State env → Run env
  execution_loop config ctx zero round st = run_round config st (λ failed_step attempt st1.
      downgrade_to_react ctx replan_limit_exceeded round failed_step st1)
  execution_loop config ctx (suc left) round st = run_round config st (λ failed_step attempt st1.
      let (w, es, answer) =
        call_planner (replan st1.plan failed_step attempt (round + 1)) st1.world in
      let asked = call_events es (record st1 { world = w }) in
      elim answer [
        | planner_threw ↦ crash asked
        | invalid ↦ downgrade_to_react ctx plan_validation_error (round + 1) failed_step asked
        | planned p ↦
            let (st2, done) = adopt (step_retry_exhausted failed_step.id attempt) p asked in
            if done then execution_loop config ctx left (round + 1) st2 else crash st2
      ])

  -- The rest of a run that has its first plan.
  unfoldable pub run_plan : PlanExecuteConfig → Context → State env → Run env
  run_plan config ctx st =
      let limit = or_else config.replan_limit 2 in
      let (st1, refreshed) = apply_goal_update_replan st in
      if should_fire_goal_update_replan ctx && ltb 0 limit
      then elim refreshed [
        | none ↦ crash st1
        | some counted ↦
            if counted
            then execution_loop config ctx (limit - 1) 1 st1
            else execution_loop config ctx limit 0 st1
      ]
      else execution_loop config ctx limit 0 st

  -- A run that ends before it has a plan.
  abbrev pub without_plan : World → List (Event env) → Option TerminationReason → Ending → Run env
  without_plan w es reason ending = record {
    world = w;
    plan = none;
    trace = [];
    events = es;
    termination = reason;
    ending = ending;
  }

  unfoldable pub downgrade_on_plan_error : Context → World → List (Event env) → Run env
  downgrade_on_plan_error ctx w es =
      let (w1, more, returned) = env.fallback ctx.budget ctx.content w in
      without_plan w1 (es ++ entry invalid_plan_entry ∷ map from_fallback more) none
        (if returned then delegated else crashed)

  unfoldable pub run : PlanExecuteConfig → Context → World → Run env
  run config ctx w =
      let (w1, abort) = tools.aborted w in
      let (w2, es, answer) = call_planner initial_plan w1 in
      if abort
      then without_plan w1 (final "" (some user_abort) ∷ []) (some user_abort) answered
      else elim answer [
        | planner_threw ↦ without_plan w2 es none crashed
        | invalid ↦ downgrade_on_plan_error ctx w2 es
        | planned p ↦ run_plan config ctx (record {
          world = w2;
          plan = p;
          trace = plan_entry p.id ∷ [];
          events = es ++ entry (plan_entry p.id) ∷ [];
        })
      ]
