-- ===== src/Orchestrator/Summaries.antt =====
-- The dicts that the orchestrator puts into its trace.
use flow_security_agent.Contracts.Enums.{
  AgentAction, Capability, action_value, capability_value, decision_value, gap_value, status_value,
  sufficiency_value, unknown_value,
}
use flow_security_agent.Contracts.Evidence.{
  CallMetrics, CapabilityStatus, EvidenceItem, MissingEvidence, PredictionCandidate,
  SupportingEvidence, TrafficExpertResult, UnknownDecision,
}
use flow_security_agent.Contracts.Experience.{ExperienceRecord}
use flow_security_agent.Contracts.Host.{Host}
use flow_security_agent.Contracts.Requests.{SupervisorDecision, ToolRequest, ToolResult, signature}
use flow_security_agent.Contracts.State.{EvidenceState, FinalDecision, is_available}
use flow_security_agent.Contracts.Values.{Value, Fields, nat, opt_text, texts}
use flow_security_agent.Prelude.Int.{ℤ, pos}
use flow_security_agent.Prelude.{String, List, [], ◌∷◌, Option, none, some, map, keep_if, length}

-- A dict literal of one entry, and an entry before others.
abbrev pub one : String → Value → Fields
one k v = Fields.field k v Fields.end

abbrev pub error_type : String → Fields
error_type name = one "error_type" (Value.text name)

abbrev pub error_stage : String → String → Fields
error_stage name stage =
    Fields.field "error_type" (Value.text name) (one "stage" (Value.text stage))

unfoldable pub action_summary : AgentAction → Fields
action_summary a = one "action" (Value.text (action_value a))

unfoldable pub action_reason : AgentAction → String → Fields
action_reason a reason =
    Fields.field "action" (Value.text (action_value a)) (one "reason" (Value.text reason))

-- `metrics.model_dump(mode="json")`
unfoldable pub metrics_dump : CallMetrics → Value
metrics_dump m = Value.dict (
    Fields.field "abstract_tokens" (nat m.abstract_tokens) (
      Fields.field "abstract_cost" (Value.real (pos m.abstract_cost))
        (one "abstract_latency" (Value.real (pos m.abstract_latency)))))

estimated_and_actual : CallMetrics → CallMetrics → Fields
unfolding metrics_dump
estimated_and_actual estimate actual =
    Fields.field "estimated_metrics" (metrics_dump estimate)
      (one "actual_metrics" (metrics_dump actual))

unfoldable pub expert_summary : CallMetrics → TrafficExpertResult → Fields
unfolding estimated_and_actual
expert_summary estimate r =
    Fields.field "fine_labels"
      (Value.list (texts (map (λ (c : PredictionCandidate). c.label) r.fine_candidates)))
      (Fields.field "coarse_labels"
        (Value.list (texts (map (λ (c : PredictionCandidate). c.label) r.coarse_candidates)))
        (Fields.field "sufficiency" (Value.text (sufficiency_value r.evidence_sufficiency)) (
          Fields.field "supporting_evidence_ids"
            (Value.list
              (texts (map (λ (s : SupportingEvidence). s.evidence_id) r.supporting_evidence)))
            (Fields.field "missing_gap_types"
              (Value.list
                (texts (map (λ (m : MissingEvidence). gap_value m.gap_type) r.missing_evidence)))
              (estimated_and_actual estimate r.metrics)))))

opt_real : Option ℤ → Value
opt_real none = Value.null
opt_real (some x) = Value.real x

unfoldable pub scorer_summary : UnknownDecision → Fields
unfolding opt_real
scorer_summary u =
    Fields.field "state" (Value.text (unknown_value u.state)) (one "score" (opt_real u.score))

-- `sorted` over the set of the available capabilities' texts.
unfoldable pub sorted_capabilities : List CapabilityStatus → List String
unfolding is_available
sorted_capabilities statuses = map capability_value (
    keep_if (λ c. is_available c statuses)
      (Capability.application_evidence ∷ Capability.graph_context ∷ Capability.knowledge_retrieval
        ∷ Capability.packet_expansion ∷ Capability.temporal_context ∷ []))

unfoldable pub experience_ids : List ExperienceRecord → Value
experience_ids es = Value.list (texts (map (λ (e : ExperienceRecord). e.experience_id) es))

state_summary : EvidenceState → Fields
unfolding sorted_capabilities experience_ids
state_summary s = Fields.field "evidence_count" (nat (length s.evidence)) (
    Fields.field "sufficiency"
      (Value.text (sufficiency_value s.traffic_expert_result.evidence_sufficiency))
      (Fields.field "unknown_state" (Value.text (unknown_value s.unknown_decision.state)) (
        Fields.field "available_capabilities"
          (Value.list (texts (sorted_capabilities s.capabilities)))
          (Fields.field "request_count" (nat (length s.request_history)) (
            Fields.field "tool_failure_count" (nat (length s.tool_failures))
              (one "retrieved_experience_ids" (experience_ids s.retrieved_experiences)))))))

unfoldable pub supervisor_summary :
    ⦃h : Host⦄ → CallMetrics → SupervisorDecision → EvidenceState → Fields
unfolding metrics_dump state_summary
supervisor_summary estimate d s = Fields.field "action" (Value.text (action_value d.action)) (
    Fields.field "short_reason" (Value.text d.short_reason) (
      Fields.field "request_signature"
        (elim d.request [ none ↦ Value.null | some q ↦ Value.text (signature q) ])
        (Fields.field "planned_action_count" (nat (length d.planned_actions)) (
          Fields.field "estimated_metrics" (metrics_dump estimate) (
            Fields.field "actual_metrics" (metrics_dump d.metrics)
              (one "evidence_state" (Value.dict (state_summary s))))))))

unfoldable pub tool_summary :
    ⦃h : Host⦄ → AgentAction → ToolRequest → CallMetrics → ToolResult → Fields
unfolding estimated_and_actual
tool_summary a q estimate t = Fields.field "action" (Value.text (action_value a)) (
    Fields.field "request_signature" (Value.text (signature q)) (
      Fields.field "status" (Value.text (status_value t.status)) (
        Fields.field "evidence_ids"
          (Value.list (texts (map (λ (e : EvidenceItem). e.evidence_id) t.evidence)))
          (Fields.field "provenance"
            (Value.list (texts (map (λ (e : EvidenceItem). e.provenance) t.evidence)))
            (estimated_and_actual estimate t.metrics)))))

unfoldable pub final_summary : FinalDecision → Fields
final_summary f =
    Fields.field "action" (Value.text (action_value f.action))
      (one "decision_type" (Value.text (decision_value f.decision_type)))

unfoldable pub final_label_summary : FinalDecision → Fields
final_label_summary f = Fields.field "action" (Value.text (action_value f.action)) (
    Fields.field "decision_type" (Value.text (decision_value f.decision_type))
      (one "label" (opt_text f.label)))
