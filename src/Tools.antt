-- ===== src/Tools.antt =====
-- packages/agent-worker/src/tools/types.ts and packages/core/src/schema/capability.ts: tools and what
-- they are permitted. What a tool does when it runs is left to the sandbox.
pub mod Guard
pub mod Registry
use agent_ego.Base.{ℕ, Bool, List, String}
use agent_ego.Base.Json.{Json}

pub data FileAccess : Type 0 where
  read write : FileAccess

pub data BrowserScope : Type 0 where
  sandboxed full : BrowserScope

pub data SystemAccess : Type 0 where
  notify clipboard camera location : SystemAccess

-- Network access is outbound, process access is execution, and browser access is navigation.
pub data Permission : Type 0 where
  filesystem : (access : FileAccess) → (paths : List String) → Permission
  network : (domains : List String) → Permission
  process : (commands : List String) → Permission
  browser : (scope : BrowserScope) → Permission
  system : (access : SystemAccess) → Permission

pub data RiskLevel : Type 0 where
  low medium high critical : RiskLevel

pub record AgentTool : Type 0 where
  pub name : String
  pub description : String
  pub permissions : List Permission
  pub risk_level : RiskLevel
  pub input_schema : Json

pub data TrustLevel : Type 0 where
  owner trusted untrusted : TrustLevel

pub data SandboxMode : Type 0 where
  always non_owner never : SandboxMode

pub record ResourceLimits : Type 0 where
  pub max_cpu_seconds : ℕ
  pub max_memory_mb : ℕ
  pub max_disk_mb : ℕ
  pub network_enabled : Bool

pub record SessionPolicy : Type 0 where
  pub session_id : String
  pub trust_level : TrustLevel
  pub granted_capabilities : List String
  pub denied_capabilities : List String
  pub sandbox_mode : SandboxMode
  pub resource_limits : ResourceLimits
