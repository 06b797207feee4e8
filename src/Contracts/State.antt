-- ===== src/Contracts/State.antt =====
-- The runtime's state, its views, its trace and its result: src/flowsec/runtime/contracts.py. The
-- budget of a state is the run's own object, which the run changes under it, so a function takes it
-- beside the state.
use flow_security_agent.Budget.{BudgetState}
use flow_security_agent.Contracts.Enums.{
  AgentAction, Capability, Capability-discrete, FailureCode, FinalDecisionType, RuntimePhase,
  TraceEventType, UnknownState,
}
use flow_security_agent.Contracts.Evidence.{
  CapabilityStatus, EvidenceItem, TrafficExpertResult, UnknownDecision,
}
use flow_security_agent.Contracts.Experience.{
  ExperienceRecord, ValidatedExperienceView, VerifiedFeedback, view_of_record,
}
use flow_security_agent.Contracts.Values.{Fields}
use flow_security_agent.Prelude.{ℕ, String, Bool, ◌&&◌, List, Option, map, any, same}

pub record EvidenceState : Type 0 where
  pub sample_id : String
  pub evidence : List EvidenceItem
  pub traffic_expert_result : TrafficExpertResult
  pub traffic_expert_history : List TrafficExpertResult
  pub unknown_decision : UnknownDecision
  pub capabilities : List CapabilityStatus
  pub round_index : ℕ
  pub request_history : List String
  pub action_history : List AgentAction
  pub tool_failures : List FailureCode
  pub retrieved_experiences : List ExperienceRecord

-- What the Supervisor sees: no sample identity and no feedback.
pub record SupervisorView : Type 0 where
  pub evidence : List EvidenceItem
  pub traffic_expert_result : TrafficExpertResult
  pub traffic_expert_history : List TrafficExpertResult
  pub unknown_decision : UnknownDecision
  pub capabilities : List CapabilityStatus
  pub budget : BudgetState
  pub round_index : ℕ
  pub request_history : List String
  pub action_history : List AgentAction
  pub tool_failures : List FailureCode
  pub retrieved_experiences : List ValidatedExperienceView

pub record TraceEvent : Type 0 where
  pub step : ℕ
  pub round_index : ℕ
  pub event_type : TraceEventType
  pub summary : Fields
  pub budget_before : BudgetState
  pub budget_after : BudgetState
  pub failure : Option FailureCode
  pub stop_reason : Option String

pub record FinalDecision : Type 0 where
  pub decision_type : FinalDecisionType
  pub action : AgentAction
  pub label : Option String
  pub reason : String
  pub unknown_state : UnknownState

pub record RuntimeInput : Type 0 where
  pub sample_id : String
  pub initial_evidence : List EvidenceItem
  pub capabilities : List CapabilityStatus
  pub phase : RuntimePhase
  pub verified_feedback : Option VerifiedFeedback
  pub memory_query : String

pub record RuntimeResult : Type 0 where
  pub sample_id : String
  pub final_decision : FinalDecision
  pub final_state : Option EvidenceState
  pub trace : List TraceEvent
  pub budget : BudgetState
  pub failures : List FailureCode
  pub memory_written : Bool

-- `capability in state.available_capabilities`
unfoldable pub is_available : Capability → List CapabilityStatus → Bool
unfolding Capability-discrete
is_available c statuses =
    any (λ (s : CapabilityStatus). s.available && same Capability-discrete s.capability c) statuses

-- `EvidenceState.to_supervisor_view`
unfoldable pub to_supervisor_view : EvidenceState → BudgetState → SupervisorView
to_supervisor_view s b = record {
  evidence = s.evidence;
  traffic_expert_result = s.traffic_expert_result;
  traffic_expert_history = s.traffic_expert_history;
  unknown_decision = s.unknown_decision;
  capabilities = s.capabilities;
  budget = b;
  round_index = s.round_index;
  request_history = s.request_history;
  action_history = s.action_history;
  tool_failures = s.tool_failures;
  retrieved_experiences = map view_of_record s.retrieved_experiences;
}
