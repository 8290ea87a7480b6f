-- ===== src/Plan/Preserve/Statuses.antt =====
-- What holds of the steps of a new plan, and of a step that takes over a result, holds of all that is
-- carried over.
use agent_ego.Base.{
  ◌≡◌, subst, true, false, List, [], ◌∷◌, Option, none, some, String, All, Option-cases, Bool-cases,
  inl, inr,
}
use agent_ego.Base.Dict.{Dict}
use agent_ego.Plan.{PlanStep}
use agent_ego.Plan.Preserve.{
  index_from, successes, inherit, Entry, Carry, claim, use_id, match_ids, Matcher, Answer, nothing,
  crash, carry, read_answer, use_answer, semantic_entry, steps_of, is_nil, match_semantic,
  after_ids, preserve_prior_successes, unused, candidates, exact_entry,
}

-- All of the steps that come of a pass, if no exception ends it.
abbrev AllOf : (PlanStep → Type 0) → Option (Carry PlanStep) → Type 0
AllOf P none = Unit
AllOf P (some c) = All P c.items

module _ (P : PlanStep → Type 0) (passes : (s p : PlanStep) → P (inherit s p)) where
  match_ids-All :
      (by_id : Dict PlanStep) (used : List String) (ss : List PlanStep)
      → All P ss
      → All P (steps_of (match_ids by_id used ss).items)
  unfolding match_ids
  match_ids-All by_id used [] h = tt
  match_ids-All by_id used (s ∷ ss) (h, hs) =
      let prior = claim by_id used s.id in
      let rest = match_ids-All by_id (use_id prior used) ss hs in
      go prior (match_ids by_id (use_id prior used) ss) rest
    where
      go :
          (prior : Option PlanStep) (c : Carry Entry)
          → All P (steps_of c.items)
          → All P (steps_of (exact_entry s prior c).items)
      go none c r = (h, r)
      go (some p) c r = (passes s p, r)

  semantic_entry-All :
      (s : PlanStep) (a : Answer) (rest : Option (Carry PlanStep))
      → P s
      → AllOf P rest
      → AllOf P (semantic_entry s a rest)
  semantic_entry-All s nothing none h r = tt
  semantic_entry-All s nothing (some c) h r = (h, r)
  semantic_entry-All s crash none h r = tt
  semantic_entry-All s crash (some c) h r = tt
  semantic_entry-All s (carry p) none h r = tt
  semantic_entry-All s (carry p) (some c) h r = (passes s p, r)

  match_semantic-All :
      {W : Type 0} (matcher : Matcher W) (by_id : Dict PlanStep) (priors : List PlanStep)
      → (used : List String) (w : W) (es : List Entry) → All P (steps_of es)
      → AllOf P (match_semantic matcher by_id priors used w es).1
  unfolding match_semantic
  match_semantic-All matcher by_id priors used w [] h = tt
  match_semantic-All matcher by_id priors used w ((s, false) ∷ es) (h, hs) =
      semantic_entry-All s nothing (match_semantic matcher by_id priors used w es).1 h
        (match_semantic-All matcher by_id priors used w es hs)
  match_semantic-All matcher by_id priors used w ((s, true) ∷ es) (h, hs) =
      let called = matcher s.goal (candidates (unused used priors)) w in
      let answer = read_answer by_id used called.1 in
      let next = use_answer answer used in
      let rest = match_semantic-All matcher by_id priors next called.0 es hs in
      elim (Bool-cases (is_nil (unused used priors))) [
        | inl e ↦ rw e (h, hs)
        | inr e ↦ rw e (
            semantic_entry-All s answer (match_semantic matcher by_id priors next called.0 es).1 h
              rest)
      ]

  after_ids-All :
      (first : List String) (rest : Option (Carry PlanStep))
      → AllOf P rest
      → AllOf P (after_ids first rest)
  after_ids-All first none r = tt
  after_ids-All first (some c) r = r

  preserve-AllOf :
      {W : Type 0} (prior_steps new_steps : List PlanStep) (matcher : Option (Matcher W)) (w : W)
      → All P new_steps
      → AllOf P (preserve_prior_successes prior_steps new_steps matcher w).1
  unfolding preserve_prior_successes
  preserve-AllOf prior_steps new_steps matcher w h =
      let priors = successes prior_steps in
      let by_id = index_from [] priors in
      let exact = match_ids by_id [] new_steps in
      let u = match_ids-All by_id [] new_steps h in
      elim (Bool-cases (is_nil priors)) [
        | inl e ↦ rw e h
        | inr e ↦ elim (Option-cases matcher) [
          | inl f ↦ rw (e, f) u
          | inr (m, f) ↦
              rw (e, f)
                (after_ids-All exact.preserved _
                  (match_semantic-All m by_id priors exact.used w exact.items u))
        ]
      ]

  pub preserve-All :
      {W : Type 0} (prior_steps new_steps : List PlanStep) (matcher : Option (Matcher W)) (w : W)
      → (c : Carry PlanStep) → (preserve_prior_successes prior_steps new_steps matcher w).1 ≡ some c
      → All P new_steps
      → All P c.items
  preserve-All prior_steps new_steps matcher w c e h =
      subst (AllOf P) e (preserve-AllOf prior_steps new_steps matcher w h)
