-- ===== src/Contracts/Enums.antt =====
-- The enumerations of src/flowsec/runtime/contracts.py, their texts where the trace shows them, and
-- the tables from an action to its capability and to its gap.
use flow_security_agent.Prelude.{String, Bool, true, false, not, Option, some}

pub data GapDomain : Type 0 where
  observational knowledge : GapDomain

pub data GapType : Type 0 where
  packet temporal graph application knowledge none other : GapType

pub data EvidenceSufficiency : Type 0 where
  insufficient coarse_only sufficient : EvidenceSufficiency

pub data UnknownState : Type 0 where
  known_likely uncertain unknown_likely : UnknownState

pub data AgentAction : Type 0 where
  expand_packets expand_temporal_context expand_graph_context request_application_evidence
        retrieve_knowledge accept_fine backoff_coarse reject_unknown abstain :
      AgentAction

pub data Capability : Type 0 where
  packet_expansion temporal_context graph_context application_evidence knowledge_retrieval :
      Capability

pub data EvidenceTrust : Type 0 where
  trusted untrusted_evidence : EvidenceTrust

pub data ToolStatus : Type 0 where
  success unavailable failure : ToolStatus

pub data RuntimePhase : Type 0 where
  train validation u_dev test u_final : RuntimePhase

pub data FeedbackSource : Type 0 where
  ground_truth human_label few_shot_confirmation verified_tool : FeedbackSource

pub data FinalDecisionType : Type 0 where
  fine coarse unknown abstain : FinalDecisionType

pub data FailureCode : Type 0 where
  invalid_action capability_unavailable tool_failure supervisor_output_failure
        traffic_expert_output_failure unknown_scorer_failure budget_exhausted max_rounds_reached
        repeated_request no_state_change unsafe_evidence memory_access_failure
        memory_write_failure :
      FailureCode

pub data TraceEventType : Type 0 where
  traffic_expert unknown_scorer supervisor tool memory failure final : TraceEventType

unfoldable pub GapDomain-discrete : Discrete GapDomain
GapDomain-discrete = hlevel

unfoldable pub GapType-discrete : Discrete GapType
GapType-discrete = hlevel

unfoldable pub EvidenceSufficiency-discrete : Discrete EvidenceSufficiency
EvidenceSufficiency-discrete = hlevel

unfoldable pub UnknownState-discrete : Discrete UnknownState
UnknownState-discrete = hlevel

unfoldable pub AgentAction-discrete : Discrete AgentAction
AgentAction-discrete = hlevel

unfoldable pub Capability-discrete : Discrete Capability
Capability-discrete = hlevel

unfoldable pub EvidenceTrust-discrete : Discrete EvidenceTrust
EvidenceTrust-discrete = hlevel

unfoldable pub ToolStatus-discrete : Discrete ToolStatus
ToolStatus-discrete = hlevel

unfoldable pub RuntimePhase-discrete : Discrete RuntimePhase
RuntimePhase-discrete = hlevel

unfoldable pub FinalDecisionType-discrete : Discrete FinalDecisionType
FinalDecisionType-discrete = hlevel

unfoldable pub FailureCode-discrete : Discrete FailureCode
FailureCode-discrete = hlevel

unfoldable pub TraceEventType-discrete : Discrete TraceEventType
TraceEventType-discrete = hlevel

-- `EVIDENCE_ACTIONS`, by membership.
abbrev pub is_evidence_action : AgentAction → Bool
is_evidence_action AgentAction.expand_packets = true
is_evidence_action AgentAction.expand_temporal_context = true
is_evidence_action AgentAction.expand_graph_context = true
is_evidence_action AgentAction.request_application_evidence = true
is_evidence_action AgentAction.retrieve_knowledge = true
is_evidence_action _ = false

-- `TERMINAL_ACTIONS`: every other action.
abbrev pub is_terminal_action : AgentAction → Bool
is_terminal_action a = not (is_evidence_action a)

-- `ACTION_CAPABILITY.get`
abbrev pub action_capability : AgentAction → Option Capability
action_capability AgentAction.expand_packets = some Capability.packet_expansion
action_capability AgentAction.expand_temporal_context = some Capability.temporal_context
action_capability AgentAction.expand_graph_context = some Capability.graph_context
action_capability AgentAction.request_application_evidence = some Capability.application_evidence
action_capability AgentAction.retrieve_knowledge = some Capability.knowledge_retrieval
action_capability _ = Option.none

-- `ACTION_GAP.get`, of orchestrator.py
abbrev pub action_gap : AgentAction → Option GapType
action_gap AgentAction.expand_packets = some GapType.packet
action_gap AgentAction.expand_temporal_context = some GapType.temporal
action_gap AgentAction.expand_graph_context = some GapType.graph
action_gap AgentAction.request_application_evidence = some GapType.application
action_gap AgentAction.retrieve_knowledge = some GapType.knowledge
action_gap _ = Option.none

unfoldable pub gap_value : GapType → String
gap_value GapType.packet = "packet"
gap_value GapType.temporal = "temporal"
gap_value GapType.graph = "graph"
gap_value GapType.application = "application"
gap_value GapType.knowledge = "knowledge"
gap_value GapType.none = "none"
gap_value GapType.other = "other"

unfoldable pub sufficiency_value : EvidenceSufficiency → String
sufficiency_value EvidenceSufficiency.insufficient = "insufficient"
sufficiency_value EvidenceSufficiency.coarse_only = "coarse_only"
sufficiency_value EvidenceSufficiency.sufficient = "sufficient"

unfoldable pub unknown_value : UnknownState → String
unknown_value UnknownState.known_likely = "known_likely"
unknown_value UnknownState.uncertain = "uncertain"
unknown_value UnknownState.unknown_likely = "unknown_likely"

unfoldable pub action_value : AgentAction → String
action_value AgentAction.expand_packets = "expand_packets"
action_value AgentAction.expand_temporal_context = "expand_temporal_context"
action_value AgentAction.expand_graph_context = "expand_graph_context"
action_value AgentAction.request_application_evidence = "request_application_evidence"
action_value AgentAction.retrieve_knowledge = "retrieve_knowledge"
action_value AgentAction.accept_fine = "accept_fine"
action_value AgentAction.backoff_coarse = "backoff_coarse"
action_value AgentAction.reject_unknown = "reject_unknown"
action_value AgentAction.abstain = "abstain"

unfoldable pub capability_value : Capability → String
capability_value Capability.packet_expansion = "packet_expansion"
capability_value Capability.temporal_context = "temporal_context"
capability_value Capability.graph_context = "graph_context"
capability_value Capability.application_evidence = "application_evidence"
capability_value Capability.knowledge_retrieval = "knowledge_retrieval"

unfoldable pub status_value : ToolStatus → String
status_value ToolStatus.success = "success"
status_value ToolStatus.unavailable = "unavailable"
status_value ToolStatus.failure = "failure"

unfoldable pub decision_value : FinalDecisionType → String
decision_value FinalDecisionType.fine = "fine"
decision_value FinalDecisionType.coarse = "coarse"
decision_value FinalDecisionType.unknown = "unknown"
decision_value FinalDecisionType.abstain = "abstain"
