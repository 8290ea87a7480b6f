-- ===== src/Plan/Execute/Cycles.antt =====
-- What happens to steps that depend on each other: they stand in the last level, where a dependency
-- that is still pending does not hold a step back.
use agent_ego.Base.{
  ℕ, zero, suc, ◌≡◌, ◌≢◌, refl, false, List, [], ◌∷◌, none, some, String, arith, str_eq, eq_iff,
  All,
}
use agent_ego.Base.Dict.{str_eq_refl}
use agent_ego.Plan.{PlanStep, pending, success, number}
use agent_ego.Plan.Levels.{compute_levels}
use agent_ego.Plan.Retry.{Env, execute_step}
use agent_ego.Plan.Execute.{
  step_by_id, visit, prefilter, run_sequential, run_level, execute_levels, execute_plan,
  success_all,
}

-- A pending step with no tool.
abbrev pub waiting : String → String → String → PlanStep
waiting id goal dep = record {
  id = id;
  goal = goal;
  tool = none;
  args = none;
  depends_on = dep ∷ [];
  status = pending;
  observation = none;
}

module _ (a b g h : String) (ne : a ≢ b) where
  abbrev pub pair : List PlanStep
  pair = waiting a g b ∷ waiting b h a ∷ []

  compute_levels-pair : compute_levels pair ≡ ((0, waiting a g b) ∷ (1, waiting b h a) ∷ []) ∷ []
  unfolding compute_levels number
  compute_levels-pair = refl

  find_second : step_by_id b pair ≡ some (waiting b h a)
  unfolding step_by_id
  find_second = ground (arith, str_eq_refl b)

  differ : str_eq b a ≡ false
  differ = ground (arith, eq_iff b a)

  find_first : step_by_id a pair ≡ some (waiting a g b)
  unfolding step_by_id
  find_first = ground (arith, differ, str_eq_refl a)

  prefilter-pair :
      prefilter pair ((0, waiting a g b) ∷ (1, waiting b h a) ∷ []) ≡ (pair, [], 0 ∷ 1 ∷ [])
  unfolding prefilter visit
  prefilter-pair = rw (find_second, find_first)

  -- Two steps with no tool that depend on each other are not skipped: the sequential executor runs
  -- both and reports success, whatever the retries and the surroundings, unless the run is aborted.
  pub mutual_dependency_runs :
      (env : Env) (n : ℕ) (w : env.World)
      → (env.aborted w).1 ≡ false
      → let r = execute_plan env false n pair w in
        (r.outcome ≡ success_all) × All (λ s. s.status ≡ success) r.store
  unfolding execute_plan execute_levels run_level run_sequential execute_step
  mutual_dependency_runs env zero w e =
      rw compute_levels-pair (rw (prefilter-pair) (rw e (refl, (refl, (refl, tt)))))
  mutual_dependency_runs env (suc n) w e =
      rw compute_levels-pair (rw (prefilter-pair) (rw e (refl, (refl, (refl, tt)))))
