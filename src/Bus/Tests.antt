-- ===== src/Bus/Tests.antt =====
-- Two entries, and a consumer that reads one at a time.
use agent_ego.Base.{ℕ, List, [], ◌∷◌, some, String}
use agent_ego.Bus.{
  SubscribeOptions, Operation, publish_op, subscribe_op, next_batch_op, deliver_op, ack_op,
}

abbrev one_at_a_time : SubscribeOptions
one_at_a_time = record { group = "g"; consumer = "c"; count = some 1 }

abbrev show_constant : ℕ → String
show_constant n = "0"

abbrev session : List (Operation ℕ)
session =
    publish_op "s" 7 1
    ∷ subscribe_op "s" one_at_a_time
    ∷ publish_op "s" 8 2
    ∷ next_batch_op "s" one_at_a_time
    ∷ deliver_op "s" one_at_a_time "0-0"
    ∷ ack_op "s" "g" "0-0"
    ∷ next_batch_op "s" one_at_a_time
    ∷ []
