-- ===== src/Plan/Levels/Ranked.antt =====
-- A plan with no cycle and no dangling dependency: every step comes after all of its dependencies.
use agent_ego.Base.{ℕ, ◌<◌, ◌≡◌, true, ◌||◌, List, [], ◌∷◌, ◌++◌, String, includes, All}
use agent_ego.Plan.{PlanStep, Ref, number}
use agent_ego.Plan.Levels.{is_ready, ids}

-- Every dependency of the step is the id of one of `rs` or placed, and ranks below the step.
abbrev Sound : (String → ℕ) → List String → List String → Ref → Type 0
Sound rank placed known r =
    All (λ d. ((includes placed d || includes known d) ≡ true) × (rank d < rank r.1.id))
      r.1.depends_on

-- Every level has all of its dependencies in earlier levels.
abbrev pub Ordered : List String → List (List Ref) → Type 0
Ordered placed [] = Unit
Ordered placed (l ∷ ls) = All (λ r. is_ready placed r ≡ true) l × Ordered (ids l ++ placed) ls

-- In the plan every dependency is the id of a step, and ranks below the step that depends on it.
abbrev pub IsRanked : (String → ℕ) → List PlanStep → Type 0
IsRanked rank steps =
    All
      (λ r.
        All (λ d. (includes (ids (number 0 steps)) d ≡ true) × (rank d < rank r.1.id))
          r.1.depends_on)
      (number 0 steps)
