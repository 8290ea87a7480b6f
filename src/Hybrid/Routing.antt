-- ===== src/Hybrid/Routing.antt =====
-- When a turn is planned.
use agent_ego.Base.{◌≡◌, ◌≢◌, ◌⊎◌, ◌≤◌, [], none, some, ℕ, String}
use agent_ego.Hybrid.{RouterConfig, RouterInput, Perception, workflow_execution, low, score}

-- A perception that asks for a plan.
pub AsksPlan : Perception → Type 0
AsksPlan p = (p.request_type ≡ workflow_execution) ⊎ (p.estimated_complexity ≢ low)

module _ (count_sentences count_imperative_verbs : String → ℕ) where
  -- Why the router plans a message, with some tools.
  pub record Routed (config : RouterConfig) (input : RouterInput) : Type 0 where
    pub tools : input.available_tools ≢ []
    pub reason :
        ((p : Perception) × (input.ego_perception ≡ some p) × AsksPlan p)
        ⊎ ((input.ego_perception ≡ none)
            × (2
                ≤ score count_sentences count_imperative_verbs config input.content
                    input.available_tools))
