-- ===== src/Plan/Execute/Settled.antt =====
-- What a whole execution leaves: every step done or skipped.
use mathlib.Core.List.{Mem, Memᴰ, flatten}
use mathlib.Core.List.Perm
use mathlib.Core.Logic.{∥∥₁_elim}
use agent_ego.Base.{
  All-Memᴰ, All-map, ℕ, zero, suc, ◌+◌, ◌<◌, ◌≡◌, ◌≢◌, ◌⊎◌, inl, inr, refl, sym, subst, Bool, true,
  false, List, [], ◌∷◌, none, some, arith, length, Bool-cases, Option-cases, All, All-append,
  get_elem?, set, any, get_elem?-lt, ltb, ◌&&◌,
}
use agent_ego.Plan.{PlanStep, Ref, number}
use agent_ego.Plan.Levels.{compute_levels}
use agent_ego.Plan.Levels.Order.{flatten-compute_levels-perm}
use mathlib.Core.Bool.{Bool-set}
use agent_ego.Plan.Retry.{
  Env, Verdict, succeeded, not_succeeded, threw, StepEvent, run_step_with_retries,
}
use agent_ego.Plan.Retry.Attempts.{run_step_with_retries-Ended}
use agent_ego.Plan.Execute.{
  continue_with, is_failed, prefilter, run_sequential, run_all, execute_level_parallel, run_level,
  execute_levels, execute_plan, success_all, partial, LevelEnd, next_level, level_threw, failed_at,
  LevelRun, PlanRun, join_end, flush_events,
}
use agent_ego.Plan.Execute.Kept.{
  is_good, GoodAt, NoneFailed, Kept, In, Kept-refl, Kept-trans, Kept-set, GoodAt-of_none,
  prefilter-Filtered,
}

-- A level's run that lets the next level begin: every step of it is good.
record LevelDone (a b : List PlanStep) (is : List ℕ) : Type 0 where
  kept : Kept a b
  good : All (GoodAt b) is

module _ (env : Env) where
  open env use {World}

  run_good :
      (n : ℕ) (a : List PlanStep) (i : ℕ) (s : PlanStep) (w : World)
      → NoneFailed a
      → (run_step_with_retries env n s w).verdict ≡ succeeded
      → let b = set a i (run_step_with_retries env n s w).step in Kept a b × GoodAt b i
  run_good n a i s w h e =
      Kept-set a i _ (rw ((run_step_with_retries-Ended env n s w).success_status e) refl) h

  LevelDone-cons :
      (a b c : List PlanStep) (i : ℕ) (is : List ℕ)
      → Kept a b
      → GoodAt b i
      → LevelDone b c is
      → LevelDone a c (i ∷ is)
  LevelDone-cons a b c i is k g d = record {
    kept = Kept-trans k d.kept;
    good = (d.kept.keeps i g, d.good);
  }

  abbrev Completes : List PlanStep → List ℕ → LevelRun World → Type 0
  Completes a is r = r.end_ ≡ next_level → LevelDone a r.store is

  Verdict-cases : (v : Verdict) → (v ≡ succeeded) ⊎ ((v ≡ not_succeeded) ⊎ (v ≡ threw))
  Verdict-cases succeeded = inl refl
  Verdict-cases not_succeeded = inr (inl refl)
  Verdict-cases threw = inr (inr refl)

  absent :
      (a b : List PlanStep) (i : ℕ) (is : List ℕ)
      → get_elem? a i ≡ none
      → LevelDone a b is
      → LevelDone a b (i ∷ is)
  absent a b i is m d = record {
    kept = d.kept;
    good = (d.kept.keeps i (GoodAt-of_none a i m), d.good);
  }

  run_sequential-LevelDone :
      (n : ℕ) (a : List PlanStep) (w : World) (is : List ℕ)
      → NoneFailed a
      → Completes a is (run_sequential env n a w is)
  unfolding run_sequential
  run_sequential-LevelDone n a w [] h = λ e. record { kept = Kept-refl a h; good = tt }
  run_sequential-LevelDone n a w (i ∷ is) h = elim (Option-cases (get_elem? a i)) [
    | inl m ↦
        rw (m, run_sequential) (λ e. absent a _ i is m (run_sequential-LevelDone n a w is h e))
    | inr (s, f) ↦
        let ran = run_step_with_retries env n s w in
        let b = set a i ran.step in
        rw (f, run_sequential)
          (elim (Verdict-cases ran.verdict) [
            | inl v ↦
                let (kept, good) = run_good n a i s w h v in
                rw (v, run_sequential)
                  (λ e.
                    LevelDone-cons a b _ i is kept good
                      (run_sequential-LevelDone n b ran.world is kept.none_failed e))
            | inr o ↦ elim o [
              | inl v ↦ rw (v, run_sequential) (λ e. cc)
              | inr v ↦ rw (v, run_sequential) (λ e. cc)
            ]
          ])
  ]

  join_end-next :
      (v : Verdict) (s : PlanStep) (e : LevelEnd)
      → join_end v s e ≡ next_level
      → (v ≡ succeeded) × (e ≡ next_level)
  join_end-next threw s e h = cc
  join_end-next succeeded s e h = (refl, h)
  join_end-next not_succeeded s level_threw h = cc
  join_end-next not_succeeded s next_level h = cc
  join_end-next not_succeeded s (failed_at t) h = cc

  run_all-LevelDone :
      (n : ℕ) (a : List PlanStep) (w : World) (is : List ℕ)
      → NoneFailed a
      → Completes a is (run_all env n a w is)
  unfolding run_all
  run_all-LevelDone n a w [] h = λ e. record { kept = Kept-refl a h; good = tt }
  run_all-LevelDone n a w (i ∷ is) h = elim (Option-cases (get_elem? a i)) [
    | inl m ↦ rw (m, run_all) (λ e. absent a _ i is m (run_all-LevelDone n a w is h e))
    | inr (s, f) ↦
        let ran = run_step_with_retries env n s w in
        let b = set a i ran.step in
        rw (f, run_all)
          (λ e.
            let (v, later) = join_end-next ran.verdict ran.step _ e in
            let (kept, good) = run_good n a i s w h v in
            LevelDone-cons a b _ i is kept good
              (run_all-LevelDone n b ran.world is kept.none_failed later))
  ]

  flush-store :
      (r : LevelRun World)
      → ((flush_events env r).store ≡ r.store) × ((flush_events env r).end_ ≡ r.end_)
  flush-store r = ground arith

  run_level-LevelDone :
      (parallel : Bool) (n : ℕ) (a : List PlanStep) (w : World) (is : List ℕ)
      → NoneFailed a
      → Completes a is (run_level env parallel n a w is)
  unfolding run_level execute_level_parallel
  run_level-LevelDone parallel n a w is h = elim (Bool-cases (parallel && ltb 1 (length is))) [
    | inl p ↦ rw p (
        rw (flush-store (run_all env n a w is)).0
          (rw (flush-store (run_all env n a w is)).1 (run_all-LevelDone n a w is h)))
    | inr p ↦ rw p (run_sequential-LevelDone n a w is h)
  ]

  End-cases :
      (e : LevelEnd) → (e ≡ next_level) ⊎ ((e ≡ level_threw) ⊎ ((s : PlanStep) × (e ≡ failed_at s)))
  End-cases next_level = inl refl
  End-cases level_threw = inr (inl refl)
  End-cases (failed_at s) = inr (inr (s, refl))

  abbrev Completed : List PlanStep → List (List Ref) → PlanRun World → Type 0
  Completed a ls r =
      (r.outcome ≢ partial)
      × (r.outcome ≡ success_all → Kept a r.store × All (All (λ q. GoodAt r.store q.0)) ls)

  none_any : (a : List PlanStep) → NoneFailed a → any (λ s. is_failed s.status) a ≡ false
  none_any [] h = refl
  none_any (s ∷ a) h = rw (h.0) (none_any a h.1)

  level_good :
      (b c : List PlanStep) (l : List Ref) (run : List ℕ)
      → All (λ r. In r.0 run ⊎ GoodAt b r.0) l
      → LevelDone b c run
      → All (λ r. GoodAt c r.0) l
  level_good b c l run f d =
      All-map _ _ (λ r m. elim m [ inl i ↦ at run r.0 i d.good | inr g ↦ d.kept.keeps r.0 g ]) l f
    where
      at : (js : List ℕ) (i : ℕ) → In i js → All (GoodAt c) js → GoodAt c i
      at [] i m g = elim m [ ]
      at (j ∷ js) i (inl e) g = subst (GoodAt c) (sym e) g.0
      at (j ∷ js) i (inr m) g = at js i m g.1

  continue_with-Completed :
      (abort : Bool) (a : List PlanStep) (w : World) (n : ℕ) (events : List StepEvent)
      (r : LevelRun World) (rest : PlanRun World) (ls : List (List Ref))
      → (r.end_ ≡ next_level → Completed a ls rest)
      → Completed a ls (continue_with env abort a w n events r rest)
  continue_with-Completed true a w n events r rest ls h = ((λ e. cc), λ e. cc)
  continue_with-Completed false a w n events r rest ls h = elim (End-cases r.end_) [
    | inl e ↦ rw e (h e)
    | inr o ↦ elim o [ inl e ↦ rw e ((λ x. cc), λ x. cc) | inr (s, e) ↦ rw e ((λ x. cc), λ x. cc) ]
  ]

  execute_levels-Completed :
      (parallel : Bool) (n : ℕ) (a : List PlanStep) (w : World) (ls : List (List Ref))
      → NoneFailed a
      → Completed a ls (execute_levels env parallel n a w ls)
  unfolding execute_levels
  execute_levels-Completed parallel n a w [] h =
      rw (none_any a h) ((λ e. cc), λ e. (Kept-refl a h, tt))
  execute_levels-Completed parallel n a w (l ∷ ls) h =
      let (w1, abort) = env.aborted w in
      let (b, events, runnable) = prefilter a l in
      let (kept, filtered) = prefilter-Filtered a l h in
      let r = run_level env parallel n b w1 runnable in
      continue_with-Completed abort a w1 n events r
        (execute_levels env parallel n r.store r.world ls) (l ∷ ls)
        (λ e.
          let done = run_level-LevelDone parallel n b w1 runnable kept.none_failed e in
          let (never, then_) =
            execute_levels-Completed parallel n r.store r.world ls done.kept.none_failed in
          (
            never,
            λ o.
                let (k, later) = then_ o in
                (
                  Kept-trans kept (Kept-trans done.kept k),
                  (
                    All-map _ _ (λ q g. k.keeps q.0 g) l
                        (level_good b r.store l runnable filtered done),
                    later,
                  ),
                ),
          ))

-- A reference to each place of the plan.
number-Mem :
    (n : ℕ) (steps : List PlanStep) (i : ℕ) {s : PlanStep}
    → get_elem? steps i ≡ some s
    → Memᴰ (n + i, s) (number n steps)
unfolding number
number-Mem n [] i e = cc
number-Mem n (t ∷ steps) zero {s} e = Memᴰ.head (ground arith)
number-Mem n (t ∷ steps) (suc i) {s} e =
    let same : n + suc i ≡ suc n + i = omega arith in
    Memᴰ.tail
      (subst (λ k. Memᴰ (k, s) (number (suc n) steps)) (sym same) (number-Mem (suc n) steps i e))

All-flatten {ℓ κ} :
    {A : Type ℓ} (P : A → Type κ) (xss : List (List A)) → All (All P) xss → All P (flatten xss)
unfolding flatten
All-flatten P [] h = tt
All-flatten P (xs ∷ xss) h = All-append P xs (flatten xss) h.0 (All-flatten P xss h.1)

All-of_places : (a : List PlanStep) → ((i : ℕ) → GoodAt a i) → All (λ s. is_good s.status ≡ true) a
All-of_places [] g = tt
All-of_places (s ∷ a) g = (g 0 s refl, All-of_places a (λ i. g (suc i)))

place {ℓ} : {A : Type ℓ} (xs : List A) (i : ℕ) → i < length xs → (x : A) × (get_elem? xs i ≡ some x)
place [] i h = elim h [ ]
place (x ∷ xs) zero h = (x, refl)
place (x ∷ xs) (suc i) h = place xs i (omega arith)

good_places :
    (steps b : List PlanStep)
    → length b ≡ length steps
    → All (All (λ q. GoodAt b q.0)) (compute_levels steps)
    → (i : ℕ) → GoodAt b i
good_places steps b same h i t e =
    let (s, at) = place steps i (omega (arith, get_elem?-lt b i e)) in
    let listed : Mem (0 + i, s) (flatten (compute_levels steps)) =
      (Perm.mem_iff (flatten-compute_levels-perm steps)).1 ∣ number-Mem 0 steps i at ∣₁ in
    ∥∥₁_elim listed (Bool-set _ _) (λ m.
      let shift : 0 + i ≡ i = omega arith in
      subst (GoodAt b) shift (All-Memᴰ (λ q. GoodAt b q.0) _ (All-flatten _ _ h) m) t e)

-- A plan none of whose steps is failed at the start, executed in sequence or level by level in
-- parallel, with any number of retries, never ends as partly failed; and if it ends in success then
-- every one of its steps is done or skipped, and none is left pending, running or failed.
pub execute_plan-Settled :
    (env : Env) (parallel : Bool) (n : ℕ) (steps : List PlanStep) (w : env.World)
    → NoneFailed steps
    → let r = execute_plan env parallel n steps w in
      (r.outcome ≢ partial)
      × (r.outcome ≡ success_all
          → (length r.store ≡ length steps) × All (λ s. is_good s.status ≡ true) r.store)
unfolding execute_plan
execute_plan-Settled env parallel n steps w h =
    let (never, done) = execute_levels-Completed env parallel n steps w (compute_levels steps) h in
    (
      never,
      λ o.
          let (kept, good) = done o in
          (kept.same_length, All-of_places _ (good_places steps _ kept.same_length good)),
    )
