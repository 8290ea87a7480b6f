-- ===== src/Ego/Goals/Updates.antt =====
-- What an update leaves under each id.
use agent_ego.Base.{ℕ, Option, none, some, String, str_eq, if◌then◌else◌}
use agent_ego.Ego.Goals.{Goal, Patch, merge}

-- What `get` answers after an update, from what it answered before.
abbrev pub patched :
    {P : Type 0} → String → Patch P → ℕ → String → Option (Goal P) → Option (Goal P)
patched id patch now asked none = none
patched id patch now asked (some g) = if str_eq id asked then some (merge g patch now) else some g
