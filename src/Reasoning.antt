-- ===== src/Reasoning.antt =====
-- The types of reasoning turns: packages/core/src/schema/reasoning.ts, contracts/reasoner.ts,
-- types/message.ts, and packages/agent-worker/src/model/types.ts.
use agent_ego.Base.{◌≡◌, ◌⊎◌, inl, inr, refl, ℕ, List, [], ◌∷◌, Option, none, String, ◌<>◌, or_else}

pub data ReasoningMode : Type 0 where
  react plan_execute : ReasoningMode

pub data TerminationReason : Type 0 where
  final_answer max_steps_reached tool_exhaustion hard_error user_abort plan_validation_error :
      TerminationReason

pub record ReasoningBudget : Type 0 where
  pub max_steps : ℕ
  pub max_tool_calls : ℕ
  pub spent_steps : ℕ
  pub spent_tool_calls : ℕ

abbrev pub default_budget : ReasoningBudget
default_budget = record {
  max_steps = 8;
  max_tool_calls = 16;
  spent_steps = 0;
  spent_tool_calls = 0;
}

abbrev pub clone_budget : Option ReasoningBudget → ReasoningBudget
clone_budget b = or_else b default_budget

pub data MessageContent : Type 0 where
  text_content : (body : String) → MessageContent
  media_content : (mime_type url : String) (caption : Option String) → MessageContent
  reaction_content : (emoji target_message_id : String) → MessageContent
  command_content : (name : String) (args : List String) → MessageContent

-- `args.join(' ')`.
pub join : String → List String → String
join sep [] = ""
join sep (s ∷ []) = s
join sep (s ∷ t ∷ ss) = s <> sep <> join sep (t ∷ ss)

-- The text of a message; `fallback` is what the caller takes for a medium without a caption.
unfoldable pub extract_text : String → MessageContent → String
unfolding join
extract_text fallback (text_content body) = body
extract_text fallback (command_content name args) = "/" <> name <> " " <> join " " args
extract_text fallback (media_content mime url caption) = or_else caption fallback
extract_text fallback (reaction_content emoji target) = emoji

pub data Role : Type 0 where
  user assistant tool : Role

pub record ToolCallRef : Type 0 where
  pub id : String
  pub name : String
  pub arguments : String

pub record CompletionMessage : Type 0 where
  pub role : Role
  pub content : String
  pub tool_call_id : Option String
  pub tool_name : Option String
  pub tool_calls : List ToolCallRef

-- A message of the conversation before the turn.
pub record PriorMessage : Type 0 where
  pub role : Role
  pub content : String
  pub tool_call_id : Option String
  pub tool_name : Option String

abbrev pub to_completion_message : PriorMessage → CompletionMessage
to_completion_message m = record {
  role = m.role;
  content = m.content;
  tool_call_id = m.tool_call_id;
  tool_name = m.tool_name;
  tool_calls = [];
}

abbrev pub user_message : String → CompletionMessage
user_message content = record {
  role = user;
  content = content;
  tool_call_id = none;
  tool_name = none;
  tool_calls = [];
}

pub record Usage : Type 0 where
  pub input_tokens : ℕ
  pub output_tokens : ℕ

pub data StreamChunk : Type 0 where
  text_delta : (delta : String) → StreamChunk
  tool_call_start : (id name : String) → StreamChunk
  tool_call_delta : (id args : String) → StreamChunk
  tool_call_end : (id : String) → StreamChunk
  usage_chunk : Usage → StreamChunk
  done_chunk : (stop_reason : String) → StreamChunk

pub Role-cases : (r : Role) → (r ≡ user) ⊎ ((r ≡ assistant) ⊎ (r ≡ tool))
Role-cases user = inl refl
Role-cases assistant = inr (inl refl)
Role-cases tool = inr (inr refl)
