-- ===== src/Plan/Preserve.antt =====
-- `preservePriorSuccesses`: completed work is carried over to a new plan. The matcher is the injected
-- `StepMatcher`, an argument: it answers with the id of one of the candidates that it is offered, or
-- with none. Its state is threaded through as `W`.
pub mod Statuses
use agent_ego.Base.{
  Bool, true, false, not, List, [], ◌∷◌, ◌++◌, ◌||◌, Option, none, some, String, if◌then◌else◌,
  str_eq, filter, includes,
}
use agent_ego.Base.Dict
use agent_ego.Base.Dict.{Dict}
use agent_ego.Plan.{PlanStep, PlanStepStatus, success}

abbrev pub is_success : PlanStepStatus → Bool
is_success success = true
is_success _ = false

-- `priorSteps.filter((s) => s.status === 'success')`.
abbrev pub successes : List PlanStep → List PlanStep
successes = filter (λ s. is_success s.status)

-- `new Map(list.map((s) => [s.id, s]))`.
unfoldable pub index_from : Dict PlanStep → List PlanStep → Dict PlanStep
index_from m [] = m
index_from m (s ∷ ss) = index_from (Dict.set s.id s m) ss

-- A new step takes over the result of an old one.
abbrev pub inherit : PlanStep → PlanStep → PlanStep
inherit step prior = record step { status = success; observation = prior.observation }

-- The new plan as far as it is settled: each step, and whether it still looks for a semantic match.
abbrev pub Entry : Type 0
Entry = PlanStep × Bool

-- The entries or the steps, the ids of the preserved steps, and the ids of the priors that are used.
pub record Carry (A : Type 0) : Type 0 where
  pub items : List A
  pub preserved : List String
  pub used : List String

-- `prior && !used.has(prior.id)`.
unfoldable pub claim : Dict PlanStep → List String → String → Option PlanStep
claim by_id used id = elim (Dict.get id by_id) [
  | none ↦ none
  | some prior ↦ if includes used prior.id then none else some prior
]

-- What one new step adds, once it is decided which prior it takes over; `rest` is the rest of the
-- pass.
abbrev pub exact_entry : PlanStep → Option PlanStep → Carry Entry → Carry Entry
exact_entry s none rest = record rest { items = (s, true) ∷ rest.items }
exact_entry s (some prior) rest = record rest {
  items = (inherit s prior, false) ∷ rest.items;
  preserved = s.id ∷ rest.preserved;
}

abbrev pub use_id : Option PlanStep → List String → List String
use_id none used = used
use_id (some prior) used = prior.id ∷ used

-- Pass 1: exact id matches.
unfoldable pub match_ids : Dict PlanStep → List String → List PlanStep → Carry Entry
unfolding claim
match_ids by_id used [] = record { items = []; preserved = []; used = used }
match_ids by_id used (s ∷ ss) =
    let prior = claim by_id used s.id in
    exact_entry s prior (match_ids by_id (use_id prior used) ss)

abbrev pub unused : List String → List PlanStep → List PlanStep
unused used = filter (λ p. not (includes used p.id))

-- `{ id, goal }` of each candidate.
abbrev pub candidates : List PlanStep → List (String × String)
candidates [] = []
candidates (p ∷ ps) = (p.id, p.goal) ∷ candidates ps

abbrev pub Matcher : Type 0 → Type 0
Matcher W = String → List (String × String) → W → W × Option String

-- An answer of the matcher: nothing to carry over, a prior, or an id that is no prior's, on which the
-- lookup of its observation throws.
pub data Answer : Type 0 where
  nothing crash : Answer
  carry : PlanStep → Answer

unfoldable pub read_answer : Dict PlanStep → List String → Option String → Answer
read_answer by_id used none = nothing
read_answer by_id used (some id) =
    if str_eq id "" || includes used id
    then nothing
    else elim (Dict.get id by_id) [ none ↦ crash | some prior ↦ carry prior ]

abbrev pub use_answer : Answer → List String → List String
use_answer (carry prior) used = prior.id ∷ used
use_answer _ used = used

abbrev pub semantic_entry : PlanStep → Answer → Option (Carry PlanStep) → Option (Carry PlanStep)
semantic_entry s nothing (some rest) = some (record rest { items = s ∷ rest.items })
semantic_entry s crash rest = none
semantic_entry s (carry prior) (some rest) =
    some (record rest { items = inherit s prior ∷ rest.items; preserved = s.id ∷ rest.preserved })
semantic_entry s _ none = none

abbrev pub steps_of : List Entry → List PlanStep
steps_of [] = []
steps_of ((s, _) ∷ es) = s ∷ steps_of es

abbrev pub is_nil {ℓ} : {A : Type ℓ} → List A → Bool
is_nil [] = true
is_nil (_ ∷ _) = false

module _ {W : Type 0} (matcher : Matcher W) (by_id : Dict PlanStep) (priors : List PlanStep) where
  -- Pass 2: one call of the matcher for each step that pass 1 left, while a prior is unused.
  unfoldable pub match_semantic : List String → W → List Entry → W × Option (Carry PlanStep)
  unfolding read_answer
  match_semantic used w [] = (w, some (record { items = []; preserved = []; used = used }))
  match_semantic used w ((s, false) ∷ es) =
      let (w1, rest) = match_semantic used w es in (w1, semantic_entry s nothing rest)
  match_semantic used w ((s, true) ∷ es) =
      let remaining = unused used priors in
      let (w1, id) = matcher s.goal (candidates remaining) w in
      let answer = read_answer by_id used id in
      let (w2, rest) = match_semantic (use_answer answer used) w1 es in
      if is_nil remaining
      then (w, some (record { items = s ∷ steps_of es; preserved = []; used = used }))
      else (w2, semantic_entry s answer rest)

-- The steps of the new plan and the ids that are preserved; `none` is the exception of a matcher that
-- answers with an unknown id.
abbrev pub after_ids : List String → Option (Carry PlanStep) → Option (Carry PlanStep)
after_ids first none = none
after_ids first (some c) = some (record c { preserved = first ++ c.preserved })

unfoldable pub preserve_prior_successes :
    {W : Type 0}
    → List PlanStep
    → List PlanStep
    → Option (Matcher W)
    → W
    → W × Option (Carry PlanStep)
unfolding match_ids match_semantic index_from
preserve_prior_successes prior_steps new_steps matcher w =
    let priors = successes prior_steps in
    let by_id = index_from [] priors in
    let exact = match_ids by_id [] new_steps in
    let unmatched : Carry PlanStep = record {
      items = steps_of exact.items;
      preserved = exact.preserved;
      used = exact.used;
    } in
    if is_nil priors
    then (w, some (record { items = new_steps; preserved = []; used = [] }))
    else elim matcher [
      | none ↦ (w, some unmatched)
      | some m ↦
          let (w1, rest) = match_semantic m by_id priors exact.used w exact.items in
          (w1, after_ids exact.preserved rest)
    ]
