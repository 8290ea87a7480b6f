-- ===== src/Tools/Guard.antt =====
-- packages/agent-worker/src/security/capability-guard.ts: `PolicyCapabilityGuard`. The texts of the
-- reasons are constructors.
pub mod Decides
mod Tests
use agent_ego.Base.{
  Bool, true, false, not, ◌&&◌, List, [], ◌∷◌, Option, none, some, String, if◌then◌else◌, includes,
}
use agent_ego.Base.Dict
use agent_ego.Base.Dict.{Dict}
use agent_ego.Tools.{
  FileAccess, write, BrowserScope, full, Permission, filesystem, network, process, browser, system,
  RiskLevel, low, AgentTool, TrustLevel, owner, untrusted, SandboxMode, non_owner, ResourceLimits,
  SessionPolicy,
}

pub data Violation : Type 0 where
  network_disabled write_requires_owner process_requires_owner full_browser_requires_owner :
      Violation

pub data Reason : Type 0 where
  no_policy denied_by_policy : Reason
  unknown_tool : String → Reason
  too_risky : RiskLevel → Reason
  violation : Violation → Reason

pub data CapabilityDecision : Type 0 where
  allowed : CapabilityDecision
  refused : (reason : Reason) → (suggest_escalation : Bool) → CapabilityDecision

pub record PolicyCapabilityGuard : Type 0 where
  pub policies : Dict SessionPolicy
  pub tools : Dict AgentTool

abbrev pub is_owner : TrustLevel → Bool
is_owner owner = true
is_owner _ = false

abbrev pub is_untrusted : TrustLevel → Bool
is_untrusted untrusted = true
is_untrusted _ = false

abbrev pub is_low : RiskLevel → Bool
is_low low = true
is_low _ = false

abbrev pub is_write : FileAccess → Bool
is_write write = true
is_write _ = false

abbrev pub is_full : BrowserScope → Bool
is_full full = true
is_full _ = false

unfoldable pub permission_violates_policy : Permission → SessionPolicy → Option Violation
permission_violates_policy (network _) policy =
    if not policy.resource_limits.network_enabled then some network_disabled else none
permission_violates_policy (filesystem access _) policy =
    if is_write access && not (is_owner policy.trust_level) then some write_requires_owner else none
permission_violates_policy (process _) policy =
    if not (is_owner policy.trust_level) then some process_requires_owner else none
permission_violates_policy (browser scope) policy =
    if is_full scope && not (is_owner policy.trust_level)
    then some full_browser_requires_owner
    else none
permission_violates_policy (system _) policy = none

-- The loop over the permissions of the tool: the first violation decides.
unfoldable pub check_permissions : SessionPolicy → List Permission → CapabilityDecision
unfolding permission_violates_policy
check_permissions policy [] = allowed
check_permissions policy (perm ∷ perms) =
    let rest = check_permissions policy perms in
    elim (permission_violates_policy perm policy) [
      | some v ↦ refused (violation v) (not (is_untrusted policy.trust_level))
      | none ↦ rest
    ]

-- The checks once the policy and the tool are found.
unfoldable pub check_tool : SessionPolicy → String → AgentTool → CapabilityDecision
unfolding check_permissions
check_tool policy name tool =
    if includes policy.denied_capabilities name
    then refused denied_by_policy false
    else if includes policy.granted_capabilities name
    then allowed
    else if is_untrusted policy.trust_level && not (is_low tool.risk_level)
    then refused (too_risky tool.risk_level) true
    else check_permissions policy tool.permissions

unfoldable pub check : PolicyCapabilityGuard → String → String → CapabilityDecision
unfolding check_tool
check g session_id name = elim (Dict.get session_id g.policies) [
  | none ↦ refused no_policy true
  | some policy ↦ elim (Dict.get name g.tools) [
    | none ↦ refused (unknown_tool name) false
    | some tool ↦ check_tool policy name tool
  ]
]

abbrev pub owner_policy : String → SessionPolicy
owner_policy session_id = record {
  session_id = session_id;
  trust_level = owner;
  granted_capabilities = [];
  denied_capabilities = [];
  sandbox_mode = non_owner;
  resource_limits = record {
    max_cpu_seconds = 30;
    max_memory_mb = 512;
    max_disk_mb = 256;
    network_enabled = true;
  };
}
