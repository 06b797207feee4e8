-- ===== src/Backends.antt =====
-- The scripted backends of src/flowsec/runtime/backends.py and `SyntheticEvidenceTool` of
-- src/flowsec/runtime/tools.py. A method returns how the call ends and the object as it is then.
pub mod Scripts
use flow_security_agent.Budget.{BudgetState}
use flow_security_agent.Contracts.Enums.{
  AgentAction, AgentAction-discrete, Capability, ToolStatus, action_value,
}
use flow_security_agent.Contracts.Evidence.{
  CallMetrics, EvidenceItem, TrafficExpertResult, UnknownDecision, no_metrics,
}
use flow_security_agent.Contracts.Host.{Host}
use flow_security_agent.Contracts.Requests.{SupervisorDecision, ToolRequest, ToolResult, signature}
use flow_security_agent.Contracts.State.{SupervisorView}
use flow_security_agent.Orchestrator.Backends.{Output, raises, returns}
use flow_security_agent.Prelude.Text.{◌<>◌}
use flow_security_agent.Prelude.{
  String, Bool, not, List, [], ◌∷◌, ◌++◌, Option, none, some, same, if◌then◌else◌,
}

-- A mock with inputs `A` and responses `B`: what is left of the script, and the inputs so far. A
-- response that is an exception is `raises`, an object of another class `wrong_type`.
pub record Mock (A : Type 0) (B : Type 0) : Type 0 where
  pub responses : List (Output B)
  pub calls : List A
  pub estimate_metrics : CallMetrics

-- `estimate_metrics or CallMetrics()`
unfoldable pub new_mock : {A B : Type 0} → List (Output B) → Option CallMetrics → Mock A B
new_mock responses estimate = record {
  responses = responses;
  calls = [];
  estimate_metrics = elim estimate [ none ↦ no_metrics | some m ↦ m ];
}

unfoldable pub mock_call : {A B : Type 0} → Mock A B → A → Output B × Mock A B
mock_call m a = elim m.responses [
  | [] ↦ (raises "RuntimeError", record m { calls = m.calls ++ a ∷ [] })
  | response ∷ rest ↦ (
    response,
    record { responses = rest; calls = m.calls ++ a ∷ []; estimate_metrics = m.estimate_metrics },
  )
]

-- `MockTrafficExpertBackend.evaluate`
unfoldable pub mock_evaluate :
    Mock (List EvidenceItem) TrafficExpertResult
    → List EvidenceItem
    → Output TrafficExpertResult × Mock (List EvidenceItem) TrafficExpertResult
unfolding mock_call
mock_evaluate m evidence = mock_call m evidence

-- `MockUnknownScorer.score`
unfoldable pub mock_score :
    Mock TrafficExpertResult UnknownDecision
    → TrafficExpertResult
    → Output UnknownDecision × Mock TrafficExpertResult UnknownDecision
unfolding mock_call
mock_score m result = mock_call m result

-- `MockSupervisorBackend.decide`
unfoldable pub mock_decide :
    Mock SupervisorView SupervisorDecision
    → SupervisorView
    → Output SupervisorDecision × Mock SupervisorView SupervisorDecision
unfolding mock_call
mock_decide m view = mock_call m view

pub record SyntheticTool : Type 0 where
  pub action : AgentAction
  pub handler : Option (ToolRequest → List EvidenceItem → Output ToolResult)
  pub default_evidence : List EvidenceItem
  pub default_metrics : CallMetrics
  pub estimate_metrics : CallMetrics
  pub requests : List ToolRequest

unfoldable pub new_tool :
    AgentAction
    → Option (ToolRequest → List EvidenceItem → Output ToolResult)
    → List EvidenceItem
    → Option CallMetrics
    → Option CallMetrics
    → SyntheticTool
new_tool action handler evidence metrics estimate =
    let default : CallMetrics = elim metrics [ none ↦ no_metrics | some m ↦ m ] in
    record {
      action = action;
      handler = handler;
      default_evidence = evidence;
      default_metrics = default;
      estimate_metrics = elim estimate [ none ↦ default | some m ↦ m ];
      requests = [];
    }

-- The action and the capability of each subclass.
unfoldable pub tool_classes : List (AgentAction × Capability)
tool_classes =
    (AgentAction.expand_packets, Capability.packet_expansion)
    ∷ (AgentAction.expand_temporal_context, Capability.temporal_context)
    ∷ (AgentAction.expand_graph_context, Capability.graph_context)
    ∷ (AgentAction.request_application_evidence, Capability.application_evidence)
    ∷ (AgentAction.retrieve_knowledge, Capability.knowledge_retrieval)
    ∷ []

module _ ⦃h : Host⦄ where
  unfoldable pub synthetic_output :
      SyntheticTool → ToolRequest → List EvidenceItem → Output ToolResult
  unfolding AgentAction-discrete action_value
  synthetic_output t q current =
      if not (same AgentAction-discrete q.action t.action)
      then returns (record {
        status = ToolStatus.failure;
        request_signature = signature q;
        evidence = [];
        metrics = no_metrics;
        error = some ("tool cannot execute action " <> action_value q.action);
      })
      else elim t.handler [
        | some handler ↦ handler q current
        | none ↦ returns (record {
          status = ToolStatus.success;
          request_signature = signature q;
          evidence = t.default_evidence;
          metrics = t.default_metrics;
          error = none;
        })
      ]

  -- `SyntheticEvidenceTool.execute`
  unfoldable pub synthetic_execute :
      SyntheticTool → ToolRequest → List EvidenceItem → Output ToolResult × SyntheticTool
  synthetic_execute t q current =
      (synthetic_output t q current, record t { requests = t.requests ++ q ∷ [] })
