-- ===== src/Ego/Goals.antt =====
-- packages/ego/src/goal-store.ts: the goals of a `FileGoalStore` in memory, over the type of
-- packages/core/src/schema/goal.ts. Reading and writing the file is outside; a progress is of any
-- type `P`.
pub mod Updates
use agent_ego.Base.{
  ℕ, Bool, true, false, List, [], ◌∷◌, ◌++◌, Option, none, some, String, or_else, str_eq, filter,
  find, if◌then◌else◌,
}
use agent_ego.Base.Json.{Json}

pub data GoalStatus : Type 0 where
  active paused completed abandoned : GoalStatus

pub data Creator : Type 0 where
  user ego : Creator

pub record Goal (P : Type 0) : Type 0 where
  pub id : String
  pub description : String
  pub status : GoalStatus
  pub created_at : ℕ
  pub updated_at : ℕ
  pub progress : P
  pub completion_criteria : Option String
  pub related_session_ids : List String
  pub created_by : Creator
  pub metadata : Option Json

-- The fields of a patch that are given. Those that an update sets itself are left out.
pub record Patch (P : Type 0) : Type 0 where
  pub description : Option String
  pub status : Option GoalStatus
  pub progress : Option P
  pub completion_criteria : Option (Option String)
  pub related_session_ids : Option (List String)
  pub created_by : Option Creator
  pub metadata : Option (Option Json)

abbrev same_status : GoalStatus → GoalStatus → Bool
same_status active active = true
same_status paused paused = true
same_status completed completed = true
same_status abandoned abandoned = true
same_status _ _ = false

module _ {P : Type 0} where
  abbrev pub list : Option GoalStatus → List (Goal P) → List (Goal P)
  list none goals = goals
  list (some status) goals = filter (λ g. same_status g.status status) goals

  unfoldable pub get : String → List (Goal P) → Option (Goal P)
  get id [] = none
  get id (g ∷ goals) = if str_eq g.id id then some g else get id goals

  -- `new_id` is the generated id.
  unfoldable pub create : Goal P → String → ℕ → List (Goal P) → List (Goal P) × Goal P
  create given new_id now goals =
      let goal = record given { id = new_id; created_at = now; updated_at = now } in
      (goals ++ goal ∷ [], goal)

  unfoldable pub merge : Goal P → Patch P → ℕ → Goal P
  merge g patch now = record g {
    description = or_else patch.description g.description;
    status = or_else patch.status g.status;
    progress = or_else patch.progress g.progress;
    completion_criteria = or_else patch.completion_criteria g.completion_criteria;
    related_session_ids = or_else patch.related_session_ids g.related_session_ids;
    created_by = or_else patch.created_by g.created_by;
    metadata = or_else patch.metadata g.metadata;
    updated_at = now;
  }

  -- The first goal with the id is replaced in its place; `none` is the exception of an unknown id.
  unfoldable pub update : String → Patch P → ℕ → List (Goal P) → Option (List (Goal P))
  unfolding merge
  update id patch now [] = none
  update id patch now (g ∷ goals) =
      let rest = update id patch now goals in
      if str_eq g.id id
      then some (merge g patch now ∷ goals)
      else elim rest [ none ↦ none | some gs ↦ some (g ∷ gs) ]

  unfoldable pub archive : String → ℕ → List (Goal P) → Option (List (Goal P))
  unfolding update
  archive id now goals =
      update id
        (record {
          description = none;
          status = some abandoned;
          progress = none;
          completion_criteria = none;
          related_session_ids = none;
          created_by = none;
          metadata = none;
        })
        now goals
