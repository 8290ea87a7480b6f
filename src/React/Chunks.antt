-- ===== src/React/Chunks.antt =====
-- `handleChunk` and the loop over a stream.
use agent_ego.Base.{Bool, true, false, List, [], ◌∷◌, ◌++◌, Option, none, some, String, ◌<>◌}
use agent_ego.Base.Dict
use agent_ego.Base.Dict.{Dict}
use agent_ego.Reasoning.{
  StreamChunk, text_delta, tool_call_start, tool_call_delta, tool_call_end, usage_chunk, done_chunk,
}
use agent_ego.React.{PendingToolCall, ReasoningEvent, delta_event, usage_event}

-- What has come of a stream so far.
pub record Turn : Type 0 where
  pub pending : Dict PendingToolCall
  pub step_text : String
  pub events : List ReasoningEvent
  pub interrupted : Bool

abbrev pub add_args : String → Option PendingToolCall → Dict PendingToolCall → Dict PendingToolCall
add_args args none pending = pending
add_args args (some entry) pending =
    Dict.set entry.id (record entry { args_raw = entry.args_raw <> args }) pending

-- `handleChunk`, and what the loop over the stream does with a chunk.
unfoldable pub handle_chunk : StreamChunk → Turn → Turn
handle_chunk (text_delta delta) t = record t {
  step_text = t.step_text <> delta;
  events = t.events ++ delta_event delta ∷ [];
}
handle_chunk (tool_call_start id name) t = record t {
  pending = Dict.set id (record { id = id; name = name; args_raw = "" }) t.pending;
}
handle_chunk (tool_call_delta id args) t = record t {
  pending = add_args args (Dict.get id t.pending) t.pending;
}
handle_chunk (tool_call_end id) t = t
handle_chunk (usage_chunk u) t = record t { events = t.events ++ usage_event u ∷ [] }
handle_chunk (done_chunk stop_reason) t = t

-- The abort signal is looked at before each chunk.
unfoldable pub read_chunks : List (StreamChunk × Bool) → Turn → Turn
unfolding handle_chunk
read_chunks [] t = t
read_chunks ((chunk, aborted) ∷ chunks) t = elim aborted [
  | true ↦ record t { interrupted = true }
  | false ↦ read_chunks chunks (handle_chunk chunk t)
]

abbrev pub empty_turn : Turn
empty_turn = record { pending = []; step_text = ""; events = []; interrupted = false }
