-- ===== src/Ego/States/Order.antt =====
-- Upgrades and downgrades are the neighbours in the order of the states.
use agent_ego.Base.{◌+◌, ◌-◌, ◌≡◌, refl}
use agent_ego.Ego.States.{EgoState, off, passive, active, index_of, downgrade_state, upgrade_state}
use Prim.Native.Nat.{min}

-- An upgrade goes one up in the order and stops at the top, a downgrade goes one down and stops at the
-- bottom.
pub index_of-change :
    (s : EgoState)
    → (index_of (upgrade_state s) ≡ min (index_of s + 1) 2)
      × (index_of (downgrade_state s) ≡ index_of s - 1)
unfolding upgrade_state downgrade_state
index_of-change off = (refl, refl)
index_of-change passive = (refl, refl)
index_of-change active = (refl, refl)
