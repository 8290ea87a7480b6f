-- ===== src/Ego/States.antt =====
-- packages/core/src/adr/state.ts: the operating states of the ego layer.
pub mod Order
use agent_ego.Base.{ℕ, Bool, true, false}
use agent_ego.Base.Int.{ℤ, pos, ◌-ℤ◌}

pub data EgoState : Type 0 where
  off passive active : EgoState

-- `ORDER.indexOf(state)`.
abbrev pub index_of : EgoState → ℕ
index_of off = 0
index_of passive = 1
index_of active = 2

abbrev pub is_operational : EgoState → Bool
is_operational off = false
is_operational _ = true

abbrev pub is_intervening : EgoState → Bool
is_intervening active = true
is_intervening _ = false

-- Any transition is legal.
abbrev pub can_transition : EgoState → EgoState → Bool
can_transition from to = true

unfoldable pub downgrade_state : EgoState → EgoState
downgrade_state off = off
downgrade_state passive = off
downgrade_state active = passive

unfoldable pub upgrade_state : EgoState → EgoState
upgrade_state off = passive
upgrade_state passive = active
upgrade_state active = active

unfoldable pub compare_states : EgoState → EgoState → ℤ
unfolding ◌-ℤ◌
compare_states a b = pos (index_of a) -ℤ pos (index_of b)
