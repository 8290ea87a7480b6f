-- ===== src/Plan/Execute/Kept.antt =====
-- What one level keeps of the store: no failed step, and each step that was done or skipped.
use native.Mathlib.Decide.{ℕ_discrete}
use agent_ego.Base.{
  All-map, ℕ, ◌≡◌, ◌⊎◌, inl, inr, refl, sym, subst, ap, ◌∙◌, Bool, true, false, List, [], ◌∷◌, ◌++◌,
  none, some, arith, length, Bool-cases, Option-cases, All, get_elem?, set, get_elem?-set_ne,
  length-set, All-set, All-get_elem?, get_elem?-set_eq,
}
use agent_ego.Plan.{PlanStepStatus, PlanStep, Ref, success, skipped}
use agent_ego.Plan.Retry.{StepEvent}
use agent_ego.Plan.Execute.{is_settled, is_failed, dep_failed, visit, prefilter}

abbrev pub is_good : PlanStepStatus → Bool
is_good success = true
is_good skipped = true
is_good _ = false

-- The step at a place is done or skipped.
abbrev pub GoodAt : List PlanStep → ℕ → Type 0
GoodAt store i = (s : PlanStep) → get_elem? store i ≡ some s → is_good s.status ≡ true

abbrev pub NoneFailed : List PlanStep → Type 0
NoneFailed = All (λ s. is_failed s.status ≡ false)

-- From a store with no failed step to another with none, where what was good has stayed so.
pub record Kept (a b : List PlanStep) : Type 0 where
  pub none_failed : NoneFailed b
  pub keeps : (j : ℕ) → GoodAt a j → GoodAt b j
  pub same_length : length b ≡ length a

pub Kept-refl : (a : List PlanStep) → NoneFailed a → Kept a a
Kept-refl a h = record { none_failed = h; keeps = λ j g. g; same_length = refl }

pub Kept-trans : {a b c : List PlanStep} → Kept a b → Kept b c → Kept a c
Kept-trans p q = record {
  none_failed = q.none_failed;
  keeps = λ j g. q.keeps j (p.keeps j g);
  same_length = q.same_length ∙ p.same_length;
}

GoodAt-set :
    (a : List PlanStep) (i j : ℕ) (s : PlanStep)
    → is_good s.status ≡ true
    → GoodAt a j
    → GoodAt (set a i s) j
GoodAt-set a i j s g h t e = elim (ℕ_discrete i j) [
  | yes same ↦
      let found : get_elem? (set a i s) i ≡ some t = ap (λ k. get_elem? (set a i s) k) same ∙ e in
      subst (λ u. is_good u.status ≡ true) (get_elem?-set_eq a i s found) g
  | no other ↦ h t (sym (get_elem?-set_ne a i j s other) ∙ e)
]

pub Kept-set :
    (a : List PlanStep) (i : ℕ) (s : PlanStep)
    → is_good s.status ≡ true
    → NoneFailed a
    → Kept a (set a i s) × GoodAt (set a i s) i
Kept-set a i s g h = (
  record {
    none_failed = All-set _ a i s h (ground arith);
    keeps = λ j k. GoodAt-set a i j s g k;
    same_length = length-set a i s;
  },
  λ t e. subst (λ u. is_good u.status ≡ true) (get_elem?-set_eq a i s e) g,
)

settled_good :
    (st : PlanStepStatus) → is_settled st ≡ true → is_failed st ≡ false → is_good st ≡ true
settled_good st h k = ground arith

GoodAt-of_eq :
    (a : List PlanStep) (i : ℕ) (s : PlanStep)
    → get_elem? a i ≡ some s
    → is_good s.status ≡ true
    → GoodAt a i
GoodAt-of_eq a i s e g t found =
    let same : s ≡ t = cc in subst (λ u. is_good u.status ≡ true) same g

pub GoodAt-of_none : (a : List PlanStep) (i : ℕ) → get_elem? a i ≡ none → GoodAt a i
GoodAt-of_none a i e t found = cc

-- One reference of the pre-filter: the step is good by now, or it is to be run.
abbrev pub Visited : List PlanStep → ℕ → List PlanStep × List StepEvent × List ℕ → Type 0
Visited a i (b, es, run) = Kept a b × ((run ≡ i ∷ []) ⊎ (GoodAt b i × (run ≡ [])))

visit-Visited : (a : List PlanStep) (i : ℕ) → NoneFailed a → Visited a i (visit a i)
unfolding visit
visit-Visited a i h = elim (Option-cases (get_elem? a i)) [
  | inl e ↦ rw (e, visit) (Kept-refl a h, inr (GoodAt-of_none a i e, refl))
  | inr (s, e) ↦
      rw (e, visit)
        (elim (Bool-cases (is_settled s.status)) [
          | inl t ↦
              let good = settled_good s.status t (All-get_elem? _ a i h e) in
              rw t (Kept-refl a h, inr (GoodAt-of_eq a i s e good, refl))
          | inr f ↦ rw f (elim (Bool-cases (dep_failed a s)) [
            | inl d ↦
                let (kept, good) = Kept-set a i (record s { status = skipped }) refl h in
                rw d (kept, inr (good, refl))
            | inr d ↦ rw d (Kept-refl a h, inl refl)
          ])
        ])
]

abbrev pub In : ℕ → List ℕ → Type 0
In i [] = ⊥
In i (j ∷ js) = (i ≡ j) ⊎ In i js

-- A level after the pre-filter: each of its steps is good or among those to be run.
abbrev pub Filtered : List PlanStep → List Ref → List PlanStep × List StepEvent × List ℕ → Type 0
Filtered a rs (b, es, run) = Kept a b × All (λ r. In r.0 run ⊎ GoodAt b r.0) rs

In-append : (i : ℕ) (xs ys : List ℕ) → In i ys → In i (xs ++ ys)
In-append i [] ys h = h
In-append i (x ∷ xs) ys h = inr (In-append i xs ys h)

pub prefilter-Filtered :
    (a : List PlanStep) (rs : List Ref) → NoneFailed a → Filtered a rs (prefilter a rs)
unfolding prefilter
prefilter-Filtered a [] h = (Kept-refl a h, tt)
prefilter-Filtered a ((i, planned) ∷ rs) h =
    let (b, es, run) = visit a i in
    let (kept, here) = visit-Visited a i h in
    let (c, es', run') = prefilter b rs in
    let (kept', later) = prefilter-Filtered b rs kept.none_failed in
    (
      Kept-trans kept kept',
      (
        elim here [ inl e ↦ inl (rw e (inl refl)) | inr g ↦ inr (kept'.keeps i g.0) ],
        All-map (λ r. In r.0 run' ⊎ GoodAt c r.0) (λ r. In r.0 (run ++ run') ⊎ GoodAt c r.0)
            (λ r d. elim d [ inl m ↦ inl (In-append r.0 run run' m) | inr g ↦ inr g ]) rs later,
      ),
    )
