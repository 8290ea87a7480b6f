-- ===== src/Tools/Guard/Tests.antt =====
-- A session that is not the owner's, and a tool that reads files.
use agent_ego.Base.{[], ◌∷◌}
use agent_ego.Base.Json.{object, no_fields}
use agent_ego.Tools.{read, filesystem, low, AgentTool, trusted}
use agent_ego.Tools.Guard.{PolicyCapabilityGuard, owner_policy}

abbrev reader : AgentTool
reader = record {
  name = "reader";
  description = "reads";
  permissions = filesystem read [] ∷ [];
  risk_level = low;
  input_schema = object no_fields;
}

abbrev guard_of_reader : PolicyCapabilityGuard
guard_of_reader = record {
  policies = ("s", record (owner_policy "s") { trust_level = trusted }) ∷ [];
  tools = ("reader", reader) ∷ [];
}
