-- ===== src/Tools/Registry.antt =====
-- packages/agent-worker/src/tools/live-registry.ts: `LiveToolRegistry`. The registry is its map, which
-- `asMap` shares with the guard and the sandbox.
pub mod Replace
mod Tests
use agent_ego.Base.{
  ℕ, Bool, not, List, [], ◌∷◌, Option, none, some, String, if◌then◌else◌, includes, length, map,
}
use agent_ego.Base.Dict
use agent_ego.Base.Dict.{Dict, has}
use agent_ego.Base.Json.{Json}
use agent_ego.Tools.{AgentTool}

abbrev pub LiveToolRegistry : Type 0
LiveToolRegistry = Dict AgentTool

abbrev pub register : AgentTool → LiveToolRegistry → LiveToolRegistry
register tool m = Dict.set tool.name tool m

unfoldable pub register_all : List AgentTool → LiveToolRegistry → LiveToolRegistry
register_all [] m = m
register_all (t ∷ ts) m = register_all ts (register t m)

abbrev pub new : List AgentTool → LiveToolRegistry
new initial = register_all initial []

abbrev pub snapshot : LiveToolRegistry → List AgentTool
snapshot = Dict.values

pub record ToolDescriptor : Type 0 where
  pub name : String
  pub description : String
  pub input_schema : Json

abbrev pub descriptors : LiveToolRegistry → List ToolDescriptor
descriptors m =
    map (λ t. record { name = t.name; description = t.description; input_schema = t.input_schema })
      (snapshot m)

-- The new map, and whether there was such a tool.
abbrev pub unregister : String → LiveToolRegistry → LiveToolRegistry × Bool
unregister name m = (Dict.delete name m, has name m)

abbrev pub size : LiveToolRegistry → ℕ
size m = length m

-- The loop over a copy of the keys, which deletes all that are not to be preserved.
unfoldable pub delete_others : List String → List String → LiveToolRegistry → LiveToolRegistry
delete_others preserve [] m = m
delete_others preserve (k ∷ ks) m =
    delete_others preserve ks (if not (includes preserve k) then Dict.delete k m else m)

unfoldable pub replace : List AgentTool → Option (List String) → LiveToolRegistry → LiveToolRegistry
unfolding delete_others register_all
replace next none m = register_all next []
replace next (some preserve) m = register_all next (delete_others preserve (Dict.keys m) m)
