-- ===== src/Bus/Delivery.antt =====
-- What a consumer group gets of a subject, whatever else goes on at the bus.
use agent_ego.Base.{ℕ, ◌&&◌, List, [], ◌∷◌, ◌++◌, String, str_eq, if◌then◌else◌}
use agent_ego.Base.Dict
use agent_ego.Base.Dict.{Dict}
use agent_ego.Bus.{BusEntry, InProcessBus, buffer, next_batch, Operation, next_batch_op, apply}
use agent_ego.Bus.Batches.{Advances}

module _ {M : Type 0} where
  -- The entries that an operation hands to the group.
  pub handed : String → String → Operation M → InProcessBus M → List (BusEntry M)
  handed subject group (next_batch_op s options) b =
      if str_eq s subject && str_eq options.group group then (next_batch s options b).1 else []
  handed subject group _ b = []

  pub apply_all : (ℕ → String) → List (Operation M) → InProcessBus M → InProcessBus M
  apply_all show [] b = b
  apply_all show (op ∷ ops) b = apply_all show ops (apply show op b)

  -- All entries that a row of operations hands to the group, in their order.
  pub received :
      (ℕ → String) → String → String → List (Operation M) → InProcessBus M → List (BusEntry M)
  received show subject group [] b = []
  received show subject group (op ∷ ops) b =
      handed subject group op b ++ received show subject group ops (apply show op b)

  -- The operations, seen from the buffer of one subject.
  abbrev Views : (ℕ → String) → String → String → InProcessBus M → Operation M → Type 0
  Views show subject group b op =
      Advances group (buffer subject b) (buffer subject (apply show op b))
        (handed subject group op b)
