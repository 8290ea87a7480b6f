-- ===== src/Tools/Guard/Decides.antt =====
-- Which calls the guard lets through.
use agent_ego.Base.{◌≡◌, ◌⊎◌, true, false, not, ◌&&◌, List, some, String, includes, All}
use agent_ego.Base.Dict
use agent_ego.Tools.{
  read, write, sandboxed, full, Permission, filesystem, network, process, browser, system,
  AgentTool, owner, SessionPolicy,
}
use agent_ego.Tools.Guard.{PolicyCapabilityGuard, is_untrusted, is_low}

-- What a policy permits, category by category: an owner everything but a disabled network; anybody
-- else no writing of files, no process and no full browser.
pub data Permitted (policy : SessionPolicy) : Permission → Type 0 where
  by_network :
      (ds : List String)
      → policy.resource_limits.network_enabled ≡ true
      → Permitted policy (network ds)
  by_reading : (ps : List String) → Permitted policy (filesystem read ps)
  by_writing :
      (ps : List String) → policy.trust_level ≡ owner → Permitted policy (filesystem write ps)
  by_running : (cs : List String) → policy.trust_level ≡ owner → Permitted policy (process cs)
  by_sandbox : Permitted policy (browser sandboxed)
  by_browser : policy.trust_level ≡ owner → Permitted policy (browser full)
  by_system : {a : _} → Permitted policy (system a)

-- A tool that a policy lets through by its trust and permissions.
abbrev pub Passes : SessionPolicy → AgentTool → Type 0
Passes policy tool =
    (((is_untrusted policy.trust_level && not (is_low tool.risk_level)) ≡ false)
      × All (Permitted policy) tool.permissions)

-- A tool is let through exactly when the session has a policy, the tool is known, the policy does not
-- deny it, and the policy either grants it by name or passes it: an untrusted session only a tool of
-- low risk, and each of the tool's permissions permitted.
pub record Lets (g : PolicyCapabilityGuard) (session name : String) : Type 0 where
  pub policy : SessionPolicy
  pub tool : AgentTool
  pub has_policy : Dict.get session g.policies ≡ some policy
  pub has_tool : Dict.get name g.tools ≡ some tool
  pub not_denied : includes policy.denied_capabilities name ≡ false
  pub passes : (includes policy.granted_capabilities name ≡ true) ⊎ Passes policy tool
