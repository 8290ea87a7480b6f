-- ===== src/Bus.antt =====
-- packages/message-bus/src/in-process-bus.ts, over the interface of packages/message-bus/src/bus.ts.
-- An operation is a function on the bus; what runs between two awaits of the source is one operation.
-- A subscriber's loop is a row of `next_batch`, `deliver` for each entry of the batch, and pauses,
-- interleaved with those of the others; a handler is outside. The waiters, which only end a pause
-- early, are left out.
pub mod Batches
pub mod Delivery
mod Tests
use Prim.Native.String.{◌++◌ as ◌<>◌}
use agent_ego.Base.{
  ℕ, zero, suc, ◌+◌, Bool, true, false, List, [], ◌∷◌, ◌++◌, Option, none, some, String, or_else,
  take, drop, length, if◌then◌else◌,
}
use agent_ego.Base.Dict
use agent_ego.Base.Dict.{Dict, has}

pub record BusEntry (M : Type 0) : Type 0 where
  pub id : String
  pub subject : String
  pub message : M

-- `pending` has for each entry the consumer of each group.
pub record SubjectBuffer (M : Type 0) : Type 0 where
  pub entries : List (BusEntry M)
  pub offsets : Dict ℕ
  pub pending : Dict (Dict String)

pub record InProcessBus (M : Type 0) : Type 0 where
  pub subjects : Dict (SubjectBuffer M)
  pub next_id : ℕ
  pub closed : Bool

pub record SubscribeOptions : Type 0 where
  pub group : String
  pub consumer : String
  pub count : Option ℕ

abbrev is_nil {ℓ} : {A : Type ℓ} → List A → Bool
is_nil [] = true
is_nil (x ∷ xs) = false

abbrev drop_empty : String → Dict String → Dict (Dict String) → Dict (Dict String)
drop_empty entry_id consumers pending =
    if is_nil consumers then Dict.delete entry_id pending else Dict.set entry_id consumers pending

pub record Peek : Type 0 where
  pub entries : ℕ
  pub pending : ℕ
  pub group_offsets : Dict ℕ

pub data Operation (M : Type 0) : Type 0 where
  publish_op : (subject : String) (message : M) (now : ℕ) → Operation M
  subscribe_op next_batch_op : (subject : String) (options : SubscribeOptions) → Operation M
  deliver_op : (subject : String) (options : SubscribeOptions) (entry_id : String) → Operation M
  ack_op : (subject group entry_id : String) → Operation M
  close_op : Operation M

module _ {M : Type 0} where
  abbrev pub new : InProcessBus M
  new = record { subjects = []; next_id = 0; closed = false }

  abbrev pub empty_buffer : SubjectBuffer M
  empty_buffer = record { entries = []; offsets = []; pending = [] }

  -- The buffer of a subject, made when it is missing.
  unfoldable pub buffer : String → InProcessBus M → SubjectBuffer M
  buffer subject b = or_else (Dict.get subject b.subjects) empty_buffer

  abbrev pub put : String → SubjectBuffer M → InProcessBus M → InProcessBus M
  put subject buf b = record b { subjects = Dict.set subject buf b.subjects }

  -- `show` prints a number; `none` is the exception of a closed bus.
  unfoldable pub publish :
      (ℕ → String) → String → M → ℕ → InProcessBus M → InProcessBus M × Option (BusEntry M)
  unfolding buffer
  publish show subject message now b =
      let entry : BusEntry M = record {
        id = show now <> "-" <> show b.next_id;
        subject = subject;
        message = message;
      } in
      let buf = buffer subject b in
      if b.closed then (b, none) else (
        record (put subject (record buf { entries = buf.entries ++ entry ∷ [] }) b) {
          next_id = b.next_id + 1;
        },
        some entry,
      )

  -- The start of `subscribe`; the flag is false for the exception of a closed bus.
  unfoldable pub subscribe : String → SubscribeOptions → InProcessBus M → InProcessBus M × Bool
  unfolding buffer
  subscribe subject options b =
      let buf = buffer subject b in
      if b.closed then (b, false) else (
        put subject
            (if has options.group buf.offsets
              then buf
              else record buf { offsets = Dict.set options.group 0 buf.offsets })
            b,
        true,
      )

  unfoldable pub next_batch :
      String → SubscribeOptions → InProcessBus M → InProcessBus M × List (BusEntry M)
  next_batch subject options b = elim (Dict.get subject b.subjects) [
    | none ↦ (b, [])
    | some buf ↦
        let offset = or_else (Dict.get options.group buf.offsets) 0 in
        let batch = take (or_else options.count 10) (drop offset buf.entries) in
        if is_nil batch then (b, batch) else (
          put subject
              (record buf { offsets = Dict.set options.group (offset + length batch) buf.offsets })
              b,
          batch,
        )
  ]

  -- An entry is pending for the group before its handler is called.
  unfoldable pub deliver : String → SubscribeOptions → String → InProcessBus M → InProcessBus M
  unfolding buffer
  deliver subject options entry_id b =
      let buf = buffer subject b in
      let consumers = or_else (Dict.get entry_id buf.pending) [] in
      put subject
        (record buf {
          pending =
              Dict.set entry_id (Dict.set options.group options.consumer consumers) buf.pending;
        })
        b

  unfoldable pub ack : String → String → String → InProcessBus M → InProcessBus M
  ack subject group entry_id b = elim (Dict.get subject b.subjects) [
    | none ↦ b
    | some buf ↦ elim (Dict.get entry_id buf.pending) [
      | none ↦ b
      | some consumers ↦
          put subject
            (record buf { pending = drop_empty entry_id (Dict.delete group consumers) buf.pending })
            b
    ]
  ]

  abbrev pub close : InProcessBus M → InProcessBus M
  close b = record b { closed = true }

  abbrev pub peek : String → InProcessBus M → Peek
  peek subject b =
      let buf = buffer subject b in
      record {
        entries = length buf.entries;
        pending = length buf.pending;
        group_offsets = buf.offsets;
      }

  -- The bus after an operation.
  unfoldable pub apply : (ℕ → String) → Operation M → InProcessBus M → InProcessBus M
  unfolding publish subscribe next_batch deliver ack
  apply show (publish_op subject message now) b = (publish show subject message now b).0
  apply show (subscribe_op subject options) b = (subscribe subject options b).0
  apply show (next_batch_op subject options) b = (next_batch subject options b).0
  apply show (deliver_op subject options entry_id) b = deliver subject options entry_id b
  apply show (ack_op subject group entry_id) b = ack subject group entry_id b
  apply show close_op b = close b
