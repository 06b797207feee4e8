-- ===== src/Contracts/Requests.antt =====
-- Tool requests, tool results and the Supervisor's decision: src/flowsec/runtime/contracts.py. The
-- values of a request are JSON data here, so the `json.dumps` of `validate_parameters` succeeds.
use flow_security_agent.Contracts.Enums.{AgentAction, ToolStatus, action_value}
use flow_security_agent.Contracts.Evidence.{
  CallMetrics, EvidenceItem, no_metrics, is_filled, is_visible, fields_are_visible, item_is_valid,
}
use flow_security_agent.Contracts.Host.{Host}
use flow_security_agent.Contracts.Values.{Value, Fields}
use flow_security_agent.Contracts.Visible.Scan.{codes}
use flow_security_agent.Prelude.Int.{ℤ}
use flow_security_agent.Prelude.{
  String, Bool, true, ◌&&◌, List, [], Option, none, some, leb, all, length,
}

pub record ToolRequest : Type 0 where
  pub action : AgentAction
  pub parameters : Fields

pub record ToolResult : Type 0 where
  pub status : ToolStatus
  pub request_signature : String
  pub evidence : List EvidenceItem
  pub metrics : CallMetrics
  pub error : Option String

pub record SupervisorDecision : Type 0 where
  pub action : AgentAction
  pub request : Option ToolRequest
  pub short_reason : String
  pub priority : Option ℤ
  pub expected_value : Option ℤ
  pub planned_actions : List AgentAction
  pub metrics : CallMetrics

-- `ToolRequest.validate_parameters`
unfoldable pub request_is_valid : ToolRequest → Bool
request_is_valid q = fields_are_visible q.parameters

-- `ToolRequest.signature`
unfoldable pub signature : ⦃h : Host⦄ → ToolRequest → String
unfolding action_value
signature ⦃h⦄ q = h.sha256 (
    h.dumps_sorted (
      Fields.field "action" (Value.text (action_value q.action))
        (Fields.field "parameters" (Value.dict q.parameters) Fields.end)))

unfoldable pub tool_result_is_valid : ToolResult → Bool
tool_result_is_valid t = all item_is_valid t.evidence

-- `ToolResult(status=FAILURE, request_signature=..., error=...)`
unfoldable pub failed_result : String → String → ToolResult
failed_result sig error = record {
  status = ToolStatus.failure;
  request_signature = sig;
  evidence = [];
  metrics = no_metrics;
  error = some error;
}

-- `short_reason` has 1 to 1000 characters and is visible; a request is validated with it.
unfoldable pub decision_is_valid : SupervisorDecision → Bool
decision_is_valid d =
    is_filled d.short_reason
    && leb (length (codes d.short_reason)) 1000
    && is_visible d.short_reason
    && elim d.request [ none ↦ true | some q ↦ request_is_valid q ]
