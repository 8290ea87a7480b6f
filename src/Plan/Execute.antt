-- ===== src/Plan/Execute.antt =====
-- `executePlan` and `executeLevelParallel`. The steps of the plan are a store, written in place. The
-- steps of a parallel level are run in their order: the configuration asks that tools have no effect
-- on each other, and each of these runs writes its own step only.
pub mod Kept
pub mod Settled
pub mod Cycles
use agent_ego.Base.{
  ℕ, zero, suc, ◌+◌, Bool, true, false, not, ◌&&◌, ◌||◌, List, [], ◌∷◌, ◌++◌, Option, none, some,
  String, if◌then◌else◌, str_eq, any, length, get_elem?, set, ltb, or_else,
}
use agent_ego.Base.Json.{Json, object, no_fields}
use agent_ego.Plan.{
  PlanStepStatus, pending, running, success, failed, skipped, ToolResult, Observation, no_tool,
  not_wired, denied, result, PlanStep, Ref,
}
use agent_ego.Plan.Levels.{compute_levels}
use agent_ego.Plan.Retry.{
  Env, Verdict, succeeded, not_succeeded, threw, StepEvent, broken, event, run_step_with_retries,
}

-- What `executePlan` ends with; `rejected` is an exception that passes through it.
pub data Outcome : Type 0 where
  success_all partial aborted_run rejected : Outcome
  replan_needed : (failed_step : PlanStep) → (attempt : ℕ) → Outcome

-- How far a level came.
pub data LevelEnd : Type 0 where
  next_level level_threw : LevelEnd
  failed_at : PlanStep → LevelEnd

pub record LevelRun (W : Type 0) : Type 0 where
  pub world : W
  pub store : List PlanStep
  pub events : List StepEvent
  pub end_ : LevelEnd

pub record PlanRun (W : Type 0) : Type 0 where
  pub world : W
  pub store : List PlanStep
  pub events : List StepEvent
  pub outcome : Outcome

abbrev pub is_settled : PlanStepStatus → Bool
is_settled success = true
is_settled failed = true
is_settled skipped = true
is_settled _ = false

abbrev pub is_failed : PlanStepStatus → Bool
is_failed failed = true
is_failed _ = false

-- `new Map(plan.steps.map((s) => [s.id, s]))`: the last step with an id wins.
unfoldable pub step_by_id : String → List PlanStep → Option PlanStep
step_by_id d [] = none
step_by_id d (s ∷ ss) = elim (step_by_id d ss) [
  | some t ↦ some t
  | none ↦ if str_eq s.id d then some s else none
]

abbrev pub blocks : Option PlanStep → Bool
blocks none = true
blocks (some d) = elim d.status [ failed ↦ true | skipped ↦ true | _ ↦ false ]

abbrev pub dep_failed : List PlanStep → PlanStep → Bool
dep_failed store s = any (λ d. blocks (step_by_id d store)) s.depends_on

-- The pre-filter at one reference: the store, the events, and the reference if it is to be run.
unfoldable pub visit : List PlanStep → ℕ → List PlanStep × List StepEvent × List ℕ
visit store i = elim (get_elem? store i) [
  | none ↦ (store, [], [])
  | some s ↦
      if is_settled s.status
      then (store, [], [])
      else if dep_failed store s
      then (set store i (record s { status = skipped }), event s broken ∷ [], [])
      else (store, [], i ∷ [])
]

unfoldable pub prefilter : List PlanStep → List Ref → List PlanStep × List StepEvent × List ℕ
prefilter store [] = (store, [], [])
prefilter store ((i, planned) ∷ rs) =
    let (store1, events1, run1) = visit store i in
    let (store2, events2, run2) = prefilter store1 rs in (store2, events1 ++ events2, run1 ++ run2)

-- The no_fields of a level all of whose steps are run, `e` being how the later ones ended: an exception
-- rejects it, and otherwise the first failed step by position is reported.
abbrev pub join_end : Verdict → PlanStep → LevelEnd → LevelEnd
join_end threw s e = level_threw
join_end succeeded s e = e
join_end not_succeeded s level_threw = level_threw
join_end not_succeeded s e = failed_at s

abbrev pub final_outcome : List PlanStep → Outcome
final_outcome store = if any (λ s. is_failed s.status) store then partial else success_all

module _ (env : Env) where
  open env use {World}

  -- Steps one after another, up to the first that fails.
  unfoldable pub run_sequential : ℕ → List PlanStep → World → List ℕ → LevelRun World
  unfolding run_step_with_retries
  run_sequential n store w [] = record { world = w; store = store; events = []; end_ = next_level }
  run_sequential n store w (i ∷ is) = elim (get_elem? store i) [
    | none ↦ run_sequential n store w is
    | some s ↦
        let a = run_step_with_retries env n s w in
        let store1 = set store i a.step in
        let rest = run_sequential n store1 a.world is in
        elim a.verdict [
          | succeeded ↦ record rest { events = a.events ++ rest.events }
          | not_succeeded ↦ record {
            world = a.world;
            store = store1;
            events = a.events;
            end_ = failed_at a.step;
          }
          | threw ↦ record {
            world = a.world;
            store = store1;
            events = a.events;
            end_ = level_threw;
          }
        ]
  ]

  run_all : ℕ → List PlanStep → World → List ℕ → LevelRun World
  unfolding run_step_with_retries
  run_all n store w [] = record { world = w; store = store; events = []; end_ = next_level }
  run_all n store w (i ∷ is) = elim (get_elem? store i) [
    | none ↦ run_all n store w is
    | some s ↦
        let a = run_step_with_retries env n s w in
        let rest = run_all n (set store i a.step) a.world is in
        record rest { events = a.events ++ rest.events; end_ = join_end a.verdict a.step rest.end_ }
  ]

  -- Buffered events are dropped when `Promise.all` rejects.
  abbrev pub flush_events : LevelRun World → LevelRun World
  flush_events r = elim r.end_ [ level_threw ↦ record r { events = [] } | _ ↦ r ]

  unfoldable pub execute_level_parallel : ℕ → List PlanStep → World → List ℕ → LevelRun World
  unfolding run_all
  execute_level_parallel n store w is = flush_events (run_all n store w is)

  unfoldable pub run_level : Bool → ℕ → List PlanStep → World → List ℕ → LevelRun World
  unfolding run_sequential execute_level_parallel
  run_level parallel n store w is =
      if parallel && ltb 1 (length is)
      then execute_level_parallel n store w is
      else run_sequential n store w is

  -- What follows the pre-filter and the run `r` of a level, `rest` being the run of the later ones.
  abbrev pub continue_with :
      Bool
      → List PlanStep
      → World
      → ℕ
      → List StepEvent
      → LevelRun World
      → PlanRun World
      → PlanRun World
  continue_with true store w n events r rest = record {
    world = w;
    store = store;
    events = [];
    outcome = aborted_run;
  }
  continue_with false store w n events r rest = elim r.end_ [
    | next_level ↦ record rest { events = events ++ r.events ++ rest.events }
    | failed_at s ↦ record {
      world = r.world;
      store = r.store;
      events = events ++ r.events;
      outcome = replan_needed s (n + 1);
    }
    | level_threw ↦ record {
      world = r.world;
      store = r.store;
      events = events ++ r.events;
      outcome = rejected;
    }
  ]

  unfoldable pub execute_levels : Bool → ℕ → List PlanStep → World → List (List Ref) → PlanRun World
  execute_levels parallel n store w [] = record {
    world = w;
    store = store;
    events = [];
    outcome = final_outcome store;
  }
  execute_levels parallel n store w (l ∷ ls) =
      let (w1, abort) = env.aborted w in
      let (store1, events1, runnable) = prefilter store l in
      let r = run_level parallel n store1 w1 runnable in
      let rest = execute_levels parallel n r.store r.world ls in
      continue_with abort store w1 n events1 r rest

  unfoldable pub execute_plan : Bool → ℕ → List PlanStep → World → PlanRun World
  unfolding execute_levels
  execute_plan parallel n steps w = execute_levels parallel n steps w (compute_levels steps)
