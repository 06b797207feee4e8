-- ===== src/Contracts/Evidence.antt =====
-- Evidence and the outputs of the model backends: src/flowsec/runtime/contracts.py. A float stands as
-- a multiple of 2 ^ -1074 (Prelude/Floats). `…_is_valid` are the checks that pydantic makes when a
-- model is built or validated again, beyond what the types say.
use flow_security_agent.Prelude.{
  ℕ, String, Bool, true, not, ◌&&◌, ◌||◌, List, Option, none, some, str_eq, same, leb, all,
}
use mathlib.Core.Bool.{beq}
use flow_security_agent.Prelude.Int.{ℤ}
use flow_security_agent.Contracts.Enums.{
  GapDomain, GapType, EvidenceSufficiency, UnknownState, Capability, EvidenceTrust,
  GapDomain-discrete, GapType-discrete, EvidenceTrust-discrete, gap_value,
}
use flow_security_agent.Contracts.Equality.{eq_dict}
use flow_security_agent.Contracts.Host.{Host}
use flow_security_agent.Contracts.Values.{Value, Fields}
use flow_security_agent.Contracts.Visible.{passes, check_text, check_fields}

pub record CallMetrics : Type 0 where
  pub abstract_tokens : ℕ
  pub abstract_cost : ℕ
  pub abstract_latency : ℕ

abbrev pub no_metrics : CallMetrics
no_metrics = record { abstract_tokens = 0; abstract_cost = 0; abstract_latency = 0 }

pub record PredictionCandidate : Type 0 where
  pub label : String
  pub score : Option ℤ

pub record SupportingEvidence : Type 0 where
  pub evidence_id : String
  pub statement : String

pub record MissingEvidence : Type 0 where
  pub description : String
  pub gap_type : GapType
  pub domain : GapDomain
  pub valuable : Bool

pub record EvidenceItem : Type 0 where
  pub evidence_id : String
  pub gap_type : GapType
  pub domain : GapDomain
  pub content : String
  pub provenance : String
  pub trust : EvidenceTrust
  pub model_safe : Bool
  pub metadata : Fields

pub record TrafficExpertResult : Type 0 where
  pub fine_candidates : List PredictionCandidate
  pub coarse_candidates : List PredictionCandidate
  pub short_analysis : String
  pub supporting_evidence : List SupportingEvidence
  pub missing_evidence : List MissingEvidence
  pub evidence_sufficiency : EvidenceSufficiency
  pub model_signals : Fields
  pub metrics : CallMetrics

pub record UnknownDecision : Type 0 where
  pub score : Option ℤ
  pub state : UnknownState
  pub metadata : Fields

pub record CapabilityStatus : Type 0 where
  pub capability : Capability
  pub available : Bool
  pub reason : Option String

-- `Field(min_length=1)`
abbrev pub is_filled : String → Bool
is_filled s = not (str_eq s "")

unfoldable pub is_visible : String → Bool
is_visible s = passes (check_text s)

unfoldable pub fields_are_visible : Fields → Bool
fields_are_visible fs = passes (check_fields fs)

unfoldable pub candidate_is_valid : PredictionCandidate → Bool
candidate_is_valid c = is_filled c.label

unfoldable pub supporting_is_valid : SupportingEvidence → Bool
supporting_is_valid s =
    is_filled s.evidence_id
    && is_filled s.statement
    && is_visible s.evidence_id
    && is_visible s.statement

unfoldable pub is_observable_gap : GapType → Bool
is_observable_gap GapType.packet = true
is_observable_gap GapType.temporal = true
is_observable_gap GapType.graph = true
is_observable_gap GapType.application = true
is_observable_gap _ = Bool.false

-- `MissingEvidence.validate_domain`
unfoldable pub missing_is_valid : MissingEvidence → Bool
unfolding is_observable_gap GapType-discrete GapDomain-discrete
missing_is_valid m =
    is_filled m.description
    && is_visible m.description
    && (not (same GapType-discrete m.gap_type GapType.knowledge)
        || same GapDomain-discrete m.domain GapDomain.knowledge)
    && (not (is_observable_gap m.gap_type)
        || same GapDomain-discrete m.domain GapDomain.observational)

-- `EvidenceItem.validate_model_projection`
unfoldable pub item_is_valid : EvidenceItem → Bool
item_is_valid e =
    is_filled e.evidence_id
    && is_filled e.content
    && is_filled e.provenance
    && is_visible e.evidence_id
    && is_visible e.content
    && is_visible e.provenance
    && fields_are_visible e.metadata

unfoldable pub result_is_valid : TrafficExpertResult → Bool
result_is_valid r =
    all candidate_is_valid r.fine_candidates
    && all candidate_is_valid r.coarse_candidates
    && is_visible r.short_analysis
    && all supporting_is_valid r.supporting_evidence
    && all missing_is_valid r.missing_evidence
    && fields_are_visible r.model_signals

unfoldable pub unknown_is_valid : UnknownDecision → Bool
unknown_is_valid u = fields_are_visible u.metadata

unfoldable pub status_is_valid : CapabilityStatus → Bool
status_is_valid c = elim c.reason [ none ↦ true | some reason ↦ is_visible reason ]

unfoldable pub domain_value : GapDomain → String
domain_value GapDomain.observational = "observational"
domain_value GapDomain.knowledge = "knowledge"

unfoldable pub trust_value : EvidenceTrust → String
trust_value EvidenceTrust.trusted = "trusted"
trust_value EvidenceTrust.untrusted_evidence = "untrusted_evidence"

-- `item.model_dump(exclude={"evidence_id"})`
unfoldable pub item_fields : EvidenceItem → Fields
unfolding domain_value trust_value gap_value
item_fields e = Fields.field "gap_type" (Value.text (gap_value e.gap_type)) (
    Fields.field "domain" (Value.text (domain_value e.domain)) (
      Fields.field "content" (Value.text e.content) (
        Fields.field "provenance" (Value.text e.provenance) (
          Fields.field "trust" (Value.text (trust_value e.trust)) (
            Fields.field "model_safe" (Value.flag e.model_safe)
              (Fields.field "metadata" (Value.dict e.metadata) Fields.end))))))

unfoldable pub fingerprint : ⦃h : Host⦄ → EvidenceItem → String
fingerprint ⦃h⦄ e = h.dump_json (item_fields e)

-- `existing == item` on two models: field by field.
unfoldable pub eq_item : EvidenceItem → EvidenceItem → Bool
unfolding eq_dict GapType-discrete GapDomain-discrete EvidenceTrust-discrete
eq_item a b =
    str_eq a.evidence_id b.evidence_id
    && same GapType-discrete a.gap_type b.gap_type
    && same GapDomain-discrete a.domain b.domain
    && str_eq a.content b.content
    && str_eq a.provenance b.provenance
    && same EvidenceTrust-discrete a.trust b.trust
    && beq a.model_safe b.model_safe
    && eq_dict a.metadata b.metadata

-- `RuntimeOrchestrator._metrics_within_estimate`
unfoldable pub metrics_within_estimate : CallMetrics → CallMetrics → Bool
metrics_within_estimate actual estimate =
    leb actual.abstract_tokens estimate.abstract_tokens
    && leb actual.abstract_cost estimate.abstract_cost
    && leb actual.abstract_latency estimate.abstract_latency
