-- ===== src/Orchestrator/Backends.antt =====
-- What the orchestrator calls: the protocols of src/flowsec/runtime/backends.py, tools.py and
-- memory.py. A backend may do anything; `E` is the state of all of them together, and every call
-- takes it and leaves a new one. What the arguments' deep copies guard against, a backend that
-- writes into the runtime's objects, cannot be written down here.
use flow_security_agent.Budget.{BudgetLimits}
use flow_security_agent.Contracts.Enums.{AgentAction, Capability, GapDomain}
use flow_security_agent.Contracts.Evidence.{
  CallMetrics, EvidenceItem, TrafficExpertResult, UnknownDecision,
}
use flow_security_agent.Contracts.Experience.{ExperienceRecord}
use flow_security_agent.Contracts.Requests.{SupervisorDecision, ToolRequest, ToolResult}
use flow_security_agent.Contracts.State.{SupervisorView}
use flow_security_agent.Prelude.{ℕ, String, Bool, List}

-- How a call ends: by an exception of the named class, with an object of another class than the
-- contract's, or with one of that class.
pub data Output (A : Type 0) : Type 0 where
  raises : String → Output A
  wrong_type : Output A
  returns : A → Output A

-- An element of what a memory retrieves.
pub data Retrieved : Type 0 where
  foreign : Retrieved
  experience : ExperienceRecord → Retrieved

pub record Backends (E : Type 0) : Type 0 where
  pub expert_estimate : List EvidenceItem → E → Output CallMetrics × E
  pub expert_evaluate : List EvidenceItem → E → Output TrafficExpertResult × E
  -- The context is the round index and the number of evidence items.
  pub unknown_score : TrafficExpertResult → ℕ → ℕ → E → Output UnknownDecision × E
  pub supervisor_estimate : SupervisorView → E → Output CallMetrics × E
  pub supervisor_decide : SupervisorView → E → Output SupervisorDecision × E
  pub tool_estimate : AgentAction → ToolRequest → E → Output CallMetrics × E
  pub tool_execute : AgentAction → ToolRequest → List EvidenceItem → E → Output ToolResult × E
  pub memory_retrieve : String → ℕ → E → Output (List Retrieved) × E
  pub memory_add : ExperienceRecord → E → Output (Unit {0}) × E

-- A tool as it is registered.
pub record Registration : Type 0 where
  pub action : AgentAction
  pub capability : Capability

-- The fields of a `RuntimeOrchestrator`. `tools` are the actions that have a tool.
pub record Config : Type 0 where
  pub tools : List AgentAction
  pub budget_limits : BudgetLimits
  pub allowed_actions : List AgentAction
  pub allowed_information_domains : List GapDomain
  pub allowed_request_signatures : List (AgentAction × List String)
  pub has_memory : Bool
  pub memory_retrieval_limit : ℕ
  pub max_invalid_retries : ℕ
