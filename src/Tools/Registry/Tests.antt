-- ===== src/Tools/Registry/Tests.antt =====
-- A registry of two tools, one of which is preserved.
use agent_ego.Base.{◌≡◌, [], ◌∷◌, some, String}
use agent_ego.Base.Dict
use agent_ego.Base.Json.{object, no_fields}
use agent_ego.Tools.{low, high, AgentTool}
use agent_ego.Tools.Registry.{LiveToolRegistry, replace}
use agent_ego.Tools.Registry.Replace.{replaced, get-replace}

abbrev named_tool : String → AgentTool
named_tool name = record {
  name = name;
  description = "";
  permissions = [];
  risk_level = low;
  input_schema = object no_fields;
}

abbrev old_and_kept : LiveToolRegistry
old_and_kept = ("old", named_tool "old") ∷ ("kept", named_tool "kept") ∷ []

abbrev fresh : AgentTool
fresh = record (named_tool "old") { risk_level = high }

get-replace_example :
    Dict.get "old" (replace (fresh ∷ []) (some ("kept" ∷ [])) old_and_kept)
    ≡ replaced (fresh ∷ []) (some ("kept" ∷ [])) old_and_kept "old"
get-replace_example = get-replace (fresh ∷ []) (some ("kept" ∷ [])) old_and_kept "old"
