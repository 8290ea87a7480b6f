-- ===== src/Ego/Tests.antt =====
-- One goal whose progress is updated, and the state in the middle.
use agent_ego.Base.{ℕ, [], some, none}
use agent_ego.Ego.Goals.{Goal, Patch, active, user}

abbrev one_goal : Goal ℕ
one_goal = record {
  id = "goal-1";
  description = "d";
  status = active;
  created_at = 1;
  updated_at = 1;
  progress = 0;
  completion_criteria = none;
  related_session_ids = [];
  created_by = user;
  metadata = none;
}

abbrev no_change : Patch ℕ
no_change = record {
  description = none;
  status = none;
  progress = some 1;
  completion_criteria = none;
  related_session_ids = none;
  created_by = none;
  metadata = none;
}
