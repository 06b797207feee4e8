-- ===== src/Llm/Parsing/Answers.antt =====
-- What the parsers of src/flowsec/integrations/llm/parsing.py return.
use mathlib.Core.Path.{subst}
use mathlib.Core.Logic.{◌⊎◌}
use flow_security_agent.Contracts.Evidence.{TrafficExpertResult, result_is_valid}
use flow_security_agent.Contracts.Requests.{SupervisorDecision, ToolRequest, decision_is_valid}
use flow_security_agent.Contracts.Values.{Fields}
use flow_security_agent.Llm.Contracts.{LlmFailureKind, ParseAudit, RawLlmResponse, to_metrics}
use flow_security_agent.Llm.Executor.{parses}
use flow_security_agent.Llm.Parsing.{
  Decoder, ExpertPayload, Extraction, SupervisorPayload, expert_parse, expert_result,
  extract_payload, extracts, is_truncated, refuses_payload, requested, supervisor_decision,
  supervisor_parse,
}
use flow_security_agent.Prelude.{
  ◌≡◌, refl, sym, ap, ◌∙◌, true, false, Option, none, some, inl, inr, Bool-cases, Option-cases,
}

-- The response is neither a failure nor cut off.
abbrev pub IsWhole : RawLlmResponse → Type 0
IsWhole response = (response.failure ≡ none) × (is_truncated response.finish_status ≡ false)

extract_payload-IsWhole :
    (d : Decoder) (response : RawLlmResponse) (payload : Fields) (audit : ParseAudit)
    → extract_payload d response ≡ extracts payload audit
    → IsWhole response
unfolding extract_payload
extract_payload-IsWhole d response payload audit h = elim (Option-cases response.failure) [
  | inr (kind, failed) ↦ cc (rw (failed, extract_payload) at h)
  | inl sound ↦ elim (Bool-cases (is_truncated response.finish_status)) [
    | inl cut ↦ cc (rw (sound, cut, extract_payload) at h)
    | inr whole ↦ (sound, whole)
  ]
]

Extraction-cases :
    (e : Extraction)
    → ((kind : LlmFailureKind) × (audit : ParseAudit) × (e ≡ refuses_payload kind audit))
      ⊎ ((payload : Fields) × (audit : ParseAudit) × (e ≡ extracts payload audit))
Extraction-cases (refuses_payload kind audit) = inl (kind, audit, refl)
Extraction-cases (extracts payload audit) = inr (payload, audit, refl)

-- What the parser of the traffic expert's answers returns is valid, carries the metrics of the response,
-- and comes from a response that is neither a failure nor truncated.
pub expert_parse-IsValid :
    (d : Decoder) (read : Fields → Option ExpertPayload) (response : RawLlmResponse)
    (result : TrafficExpertResult) (audit : ParseAudit)
    → expert_parse d read response ≡ parses result audit
    → (result_is_valid result ≡ true)
      × (result.metrics ≡ to_metrics response.usage)
      × IsWhole response
unfolding expert_parse expert_result
expert_parse-IsValid d read response result audit h =
    elim (Extraction-cases (extract_payload d response)) [
      | inl (kind, refused, e) ↦ cc (rw (e, expert_parse) at h)
      | inr (payload, found, e) ↦ elim (Option-cases (read payload)) [
        | inl unread ↦ cc (rw (e, unread, expert_parse) at h)
        | inr (parsed, given) ↦
            elim (Bool-cases (result_is_valid (expert_result response parsed))) [
              | inr invalid ↦ cc (rw (e, given, invalid, expert_parse) at h)
              | inl valid ↦
                  let same : expert_result response parsed ≡ result =
                    cc (rw (e, given, valid, expert_parse) at h) in
                  (
                    ap result_is_valid (sym same) ∙ valid,
                    ap (λ (r : TrafficExpertResult). r.metrics) (sym same),
                    extract_payload-IsWhole d response payload found e,
                  )
            ]
      ]
    ]

-- A request of a decision is for the decision's own action.
abbrev pub IsOwn : SupervisorDecision → Option ToolRequest → Type 0
IsOwn decision none = Unit
IsOwn decision (some request) = request.action ≡ decision.action

requested-IsOwn :
    (decision : SupervisorDecision) (parameters : Option Fields)
    → IsOwn decision (requested decision.action parameters)
unfolding requested
requested-IsOwn decision none = tt
requested-IsOwn decision (some parameters) = refl

-- What the parser of the supervisor's answers returns is a valid decision, whose request, if it has one,
-- is for its own action; it carries the metrics of the response, and comes from a response that is
-- neither a failure nor truncated.
pub supervisor_parse-IsValid :
    (d : Decoder) (read : Fields → Option SupervisorPayload) (response : RawLlmResponse)
    (decision : SupervisorDecision) (audit : ParseAudit)
    → supervisor_parse d read response ≡ parses decision audit
    → (decision_is_valid decision ≡ true)
      × IsOwn decision decision.request
      × (decision.metrics ≡ to_metrics response.usage)
      × IsWhole response
unfolding supervisor_parse supervisor_decision
supervisor_parse-IsValid d read response decision audit h =
    elim (Extraction-cases (extract_payload d response)) [
      | inl (kind, refused, e) ↦ cc (rw (e, supervisor_parse) at h)
      | inr (payload, found, e) ↦ elim (Option-cases (read payload)) [
        | inl unread ↦ cc (rw (e, unread, supervisor_parse) at h)
        | inr (parsed, given) ↦
            elim (Bool-cases (decision_is_valid (supervisor_decision response parsed))) [
              | inr invalid ↦ cc (rw (e, given, invalid, supervisor_parse) at h)
              | inl valid ↦
                  let same : supervisor_decision response parsed ≡ decision =
                    cc (rw (e, given, valid, supervisor_parse) at h) in
                  (
                    ap decision_is_valid (sym same) ∙ valid,
                    subst (λ (c : SupervisorDecision). IsOwn c c.request) same
                        (requested-IsOwn (supervisor_decision response parsed)
                          parsed.request_parameters),
                    ap (λ (c : SupervisorDecision). c.metrics) (sym same),
                    extract_payload-IsWhole d response payload found e,
                  )
            ]
      ]
    ]
