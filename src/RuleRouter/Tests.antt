-- ===== src/RuleRouter/Tests.antt =====
-- Two rules, the later of which has priority.
use agent_ego.Base.{ℕ, ◌≡◌, refl, List, [], ◌∷◌, none, some, true}
use agent_ego.Base.Int.{pos, negsuc}
use agent_ego.Reasoning.{text_content}
use agent_ego.RuleRouter.{
  RoutingRule, Incoming, RouterEnv, route, first_matching_rule, rule_matches, matches_pattern,
  content_text, add_rule, sort, insert, remove_rule,
}
use agent_ego.RuleRouter.Best.{Change, adds, removes, changed, Best, route-Best}

abbrev plain : RouterEnv
plain = record {
  World = ℕ;
  trim_end = λ s. s;
  test = λ pattern text. some true;
  resolve_session = λ agent channel conversation w. (w, "session");
}

abbrev everything : RoutingRule
everything = record {
  id = "everything";
  conditions = record {
    channel_type = none;
    sender_ids = none;
    conversation_ids = none;
    content_pattern = none;
  };
  agent_id = "helper";
  priority = negsuc 0;
}

abbrev from_boss : RoutingRule
from_boss = record {
  id = "boss";
  conditions = record {
    channel_type = none;
    sender_ids = some ("boss" ∷ []);
    conversation_ids = none;
    content_pattern = some "please";
  };
  agent_id = "assistant";
  priority = pos 5;
}

abbrev request : Incoming
request = record {
  channel_type = "slack";
  sender_id = "boss";
  conversation_id = "c";
  content = text_content "please";
}

abbrev setup : List Change
setup = adds everything ∷ adds from_boss ∷ removes "other" ∷ []

to_assistant : (route plain "default" (changed setup []) request 0).1.agent_id ≡ "assistant"
unfolding route first_matching_rule rule_matches matches_pattern content_text changed add_rule sort
    insert remove_rule
to_assistant = refl

route-Best_example :
    Best plain "default"
      (changed setup [])
      request
      (route plain "default" (changed setup []) request 0).1
route-Best_example = route-Best plain "default" setup request 0
