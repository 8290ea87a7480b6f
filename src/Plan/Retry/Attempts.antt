-- ===== src/Plan/Retry/Attempts.antt =====
-- The retry budget, what a run of a step leaves in the step, and the release of the sandbox.
use agent_ego.Base.{
  ℕ, zero, suc, ◌+◌, ◌≤◌, ◌≡◌, inl, inr, refl, List, [], ◌∷◌, none, some, String, arith, or_else,
  Option-cases,
}
use agent_ego.Base.Json.{Json, object, no_fields}
use agent_ego.Plan.{PlanStep, running, success, failed}
use agent_ego.Plan.Retry.{
  Env, started, StepEvent, step_progress, Verdict, succeeded, not_succeeded, Attempted, in_sandbox,
  run_tool, execute_step, settle, give_up, run_step_with_retries, event,
}

-- How often a run says that it starts the step.
unfoldable pub starts : List StepEvent → ℕ
starts [] = 0
starts (step_progress i g started ∷ es) = suc (starts es)
starts (_ ∷ es) = starts es

-- What the plan says of a step, which no run changes.
pub record SamePlan (s t : PlanStep) : Type 0 where
  pub id : t.id ≡ s.id
  pub goal : t.goal ≡ s.goal
  pub tool : t.tool ≡ s.tool
  pub args : t.args ≡ s.args
  pub depends_on : t.depends_on ≡ s.depends_on

module _ (env : Env) where
  open env use {World}

  execute_step-SamePlan :
      (s : PlanStep) (w : World)
      → let t = (execute_step env s w).1 in SamePlan s t × (t.status ≡ s.status)
  unfolding execute_step run_tool in_sandbox
  execute_step-SamePlan s w = ground arith

  -- How a run with `n` retries ends.
  pub record Ended (n : ℕ) (s : PlanStep) (a : Attempted World) : Type 0 where
    pub same : SamePlan s a.step
    pub tried : 1 ≤ starts a.events
    pub bounded : starts a.events ≤ n + 1
    pub success_status : a.verdict ≡ succeeded → a.step.status ≡ success
    pub failed_status : a.verdict ≡ not_succeeded → a.step.status ≡ failed
    pub exhausted : a.verdict ≡ not_succeeded → starts a.events ≡ n + 1

  settle-Ended-zero :
      (s t : PlanStep) (w : World) (v : Verdict)
      → SamePlan s t
      → Ended 0 s (record (settle env (w, t, v) (give_up env (w, t, v))) {
        events = event s started ∷ (settle env (w, t, v) (give_up env (w, t, v))).events;
      })
  unfolding settle give_up starts
  settle-Ended-zero s t w v p = ground arith

  settle-Ended-suc :
      (n : ℕ) (s t : PlanStep) (w : World) (v : Verdict) (again : Attempted World)
      → SamePlan s t
      → Ended n t again
      → Ended (suc n) s (record (settle env (w, t, v) again) {
        events = event s started ∷ (settle env (w, t, v) again).events;
      })
  unfolding settle starts
  settle-Ended-suc n s t w v again p h = ground arith

  SamePlan-running : (s t : PlanStep) → SamePlan (record s { status = running }) t → SamePlan s t
  SamePlan-running s t p = record {
    id = p.id;
    goal = p.goal;
    tool = p.tool;
    args = p.args;
    depends_on = p.depends_on;
  }

  -- A run of a step tries it at least once and at most one time more than the retries allow; if it
  -- ends in failure it has used all of them, and the step is marked failed; if it ends in success the
  -- step is marked so; and nothing else of the step changes than its status and observation.
  pub run_step_with_retries-Ended :
      (n : ℕ) (s : PlanStep) (w : World) → Ended n s (run_step_with_retries env n s w)
  unfolding run_step_with_retries
  run_step_with_retries-Ended zero s w =
      let p = execute_step-SamePlan (record s { status = running }) w in
      settle-Ended-zero s _ _ _ (SamePlan-running s _ p.0)
  run_step_with_retries-Ended (suc n) s w =
      let p = execute_step-SamePlan (record s { status = running }) w in
      let tried = execute_step env (record s { status = running }) w in
      settle-Ended-suc n s _ _ _ _ (SamePlan-running s _ p.0)
        (run_step_with_retries-Ended n tried.1 tried.0)

  -- `held` counts the sandboxes that are out. Only acquiring and releasing change it: each acquired
  -- sandbox adds one, and each call to release takes one back.
  pub record Counts (held : World → ℕ) : Type 0 where
    pub check : (tool : String) (args : Json) (w : World) → held (env.check tool args w).0 ≡ held w
    pub execute :
        (b : env.Sandbox) (tool : String) (args : Json) (w : World)
        → held (env.execute b tool args w).0 ≡ held w
    pub refused_one : (w : World) → (env.acquire w).1 ≡ none → held (env.acquire w).0 ≡ held w
    pub acquired_one :
        (w : World) (b : env.Sandbox)
        → (env.acquire w).1 ≡ some b
        → held (env.acquire w).0 ≡ held w + 1
    pub released :
        (b : env.Sandbox) (w : World) → 1 ≤ held w → held (env.release b w).0 + 1 ≡ held w

  module _ (held : World → ℕ) (counts : Counts held) where
    held-in_sandbox :
        (s : PlanStep) (tool : String) (args : Json) (b : env.Sandbox) (w : World)
        → 1 ≤ held w
        → held (in_sandbox env s tool args b w).0 + 1 ≡ held w
    unfolding in_sandbox
    held-in_sandbox s tool args b w h =
        ground
          (arith, counts.execute b tool args w, counts.released b (env.execute b tool args w).0)

    held-run_tool :
        (s : PlanStep) (tool : String) (args : Json) (w : World)
        → held (run_tool env s tool args w).0 ≡ held w
    unfolding run_tool
    held-run_tool s tool args w =
        let w1 = (env.check tool args w).0 in
        let unchecked = counts.check tool args w in
        elim (Option-cases (env.acquire w1).1) [
          | inl e ↦ ground (arith, e, unchecked, counts.refused_one w1)
          | inr (b, e) ↦ ground (
            arith,
            e,
            unchecked,
            counts.acquired_one w1 b e,
            held-in_sandbox s tool args b (env.acquire w1).0,
          )
        ]

    -- Whatever the guard answers, whether the sandbox can be had, and whether the tool succeeds,
    -- fails or throws, a step leaves as many sandboxes out as before it.
    pub held-execute_step : (s : PlanStep) (w : World) → held (execute_step env s w).0 ≡ held w
    unfolding execute_step
    held-execute_step s w = elim (Option-cases s.tool) [
      | inl e ↦ rw (e, execute_step) refl
      | inr (t, e) ↦
          rw (e, execute_step)
            (ground (arith, held-run_tool s t (or_else s.args (object no_fields)) w))
    ]
