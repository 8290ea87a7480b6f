-- ===== src/Plan/Levels.antt =====
-- `computeLevels`: the steps of a plan in dependency levels.
pub mod Order
pub mod Ranked
use agent_ego.Base.{
  ℕ, zero, suc, Bool, not, List, [], ◌∷◌, ◌++◌, String, if◌then◌else◌, length, all, filter,
  includes, map,
}
use agent_ego.Plan.{PlanStep, Ref, number}

-- `step.dependsOn.every((id) => placed.has(id))`.
abbrev pub is_ready : List String → Ref → Bool
is_ready placed r = all (includes placed) r.1.depends_on

abbrev pub is_blocked : List String → Ref → Bool
is_blocked placed r = not (is_ready placed r)

abbrev pub ids : List Ref → List String
ids [] = []
ids (r ∷ rs) = r.1.id ∷ ids rs

-- One round of the loop, with `rest` for the rounds that follow it: steps that are left, none of
-- them ready, become the last level.
abbrev pub place_level : List Ref → List Ref → List (List Ref) → List (List Ref)
place_level remaining [] rest = remaining ∷ []
place_level remaining (r ∷ ready) rest = (r ∷ ready) ∷ rest

-- Each round of the `while` places a step, so as many rounds as steps are enough.
unfoldable pub levels_from : ℕ → List String → List Ref → List (List Ref)
levels_from zero placed remaining = []
levels_from (suc rounds) placed [] = []
levels_from (suc rounds) placed (r ∷ rs) =
    let ready = filter (is_ready placed) (r ∷ rs) in
    let rest = levels_from rounds (ids ready ++ placed) (filter (is_blocked placed) (r ∷ rs)) in
    place_level (r ∷ rs) ready rest

unfoldable pub compute_levels : List PlanStep → List (List Ref)
unfolding levels_from number
compute_levels steps = levels_from (length steps) [] (number 0 steps)
