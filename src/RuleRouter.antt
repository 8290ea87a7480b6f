-- ===== src/RuleRouter.antt =====
-- packages/control-plane/src/session/router.ts, over the rules of packages/core/src/schema/routing.ts.
-- The session store, the regular expressions and `trimEnd` are parameters; a pattern that is malformed
-- tests as `none`. Priorities are integers.
pub mod Best
mod Tests
use agent_ego.Base.{
  ℕ, Bool, true, false, not, ◌&&◌, List, [], ◌∷◌, ◌++◌, Option, none, some, String, ◌<>◌, or_else,
  leb, str_eq, filter, includes, if◌then◌else◌,
}
use agent_ego.Base.Int.{ℤ, pos, negsuc}
use agent_ego.Reasoning.{
  MessageContent, text_content, media_content, reaction_content, command_content, join,
}

-- `a <= b`.
abbrev pub at_most : ℤ → ℤ → Bool
at_most (pos a) (pos b) = leb a b
at_most (pos a) (negsuc b) = false
at_most (negsuc a) (pos b) = true
at_most (negsuc a) (negsuc b) = leb b a

pub record Conditions : Type 0 where
  pub channel_type : Option (List String)
  pub sender_ids : Option (List String)
  pub conversation_ids : Option (List String)
  pub content_pattern : Option String

pub record RoutingRule : Type 0 where
  pub id : String
  pub conditions : Conditions
  pub agent_id : String
  pub priority : ℤ

-- The parts of a message that are looked at.
pub record Incoming : Type 0 where
  pub channel_type : String
  pub sender_id : String
  pub conversation_id : String
  pub content : MessageContent

pub record RouteDecision : Type 0 where
  pub agent_id : String
  pub session_id : String
  pub priority : ℤ

pub record RouterEnv : Type 1 where
  pub World : Type 0
  pub trim_end : String → String
  pub test : String → String → Option Bool
  pub resolve_session : (agent_id channel_type conversation_id : String) → World → World × String

-- `!list || list.includes(value)`.
abbrev pub allows : Option (List String) → String → Bool
allows none value = true
allows (some list) value = includes list value

-- `rules.sort((a, b) => b.priority - a.priority)`: rules of one priority keep their order.
unfoldable pub insert : RoutingRule → List RoutingRule → List RoutingRule
insert r [] = r ∷ []
insert r (q ∷ qs) =
    let rest = insert r qs in if at_most q.priority r.priority then r ∷ q ∷ qs else q ∷ rest

unfoldable pub sort : List RoutingRule → List RoutingRule
sort [] = []
sort (r ∷ rs) = insert r (sort rs)

unfoldable pub remove_rule : String → List RoutingRule → List RoutingRule
remove_rule rule_id rules = filter (λ r. not (str_eq r.id rule_id)) rules

unfoldable pub add_rule : RoutingRule → List RoutingRule → List RoutingRule
unfolding sort remove_rule
add_rule rule rules = sort (remove_rule rule.id rules ++ rule ∷ [])

-- The rules of the options, one after the other.
unfoldable pub add_rules : List RoutingRule → List RoutingRule → List RoutingRule
add_rules [] rules = rules
add_rules (r ∷ rs) rules = add_rules rs (add_rule r rules)

module _ (env : RouterEnv) where
  open env use {World}

  unfoldable pub content_text : MessageContent → String
  content_text (text_content body) = body
  content_text (command_content name args) = env.trim_end ("/" <> name <> " " <> join " " args)
  content_text (media_content mime url caption) = or_else caption ""
  content_text (reaction_content emoji target) = emoji

  unfoldable pub matches_pattern : Option String → MessageContent → Bool
  matches_pattern none content = true
  matches_pattern (some pattern) content =
      let text = content_text content in
      if str_eq pattern ""
      then true
      else if str_eq text ""
      then false
      else or_else (env.test pattern text) false

  unfoldable pub rule_matches : RoutingRule → Incoming → Bool
  unfolding matches_pattern
  rule_matches rule msg =
      let c = rule.conditions in
      allows c.channel_type msg.channel_type
      && allows c.sender_ids msg.sender_id
      && allows c.conversation_ids msg.conversation_id
      && matches_pattern c.content_pattern msg.content

  unfoldable pub first_matching_rule : List RoutingRule → Incoming → Option RoutingRule
  first_matching_rule [] msg = none
  first_matching_rule (r ∷ rs) msg =
      let rest = first_matching_rule rs msg in if rule_matches r msg then some r else rest

  abbrev pub agent_of : String → Option RoutingRule → String
  agent_of default_agent_id none = default_agent_id
  agent_of default_agent_id (some r) = r.agent_id

  abbrev pub priority_of : Option RoutingRule → ℤ
  priority_of none = pos 0
  priority_of (some r) = r.priority

  unfoldable pub route : String → List RoutingRule → Incoming → World → World × RouteDecision
  unfolding first_matching_rule
  route default_agent_id rules msg w =
      let matched = first_matching_rule rules msg in
      let agent = agent_of default_agent_id matched in
      let (w1, session) = env.resolve_session agent msg.channel_type msg.conversation_id w in
      (w1, record { agent_id = agent; session_id = session; priority = priority_of matched })
