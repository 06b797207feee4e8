-- ===== src/Policies.antt =====
-- `DeterministicRuleSupervisor` of src/flowsec/runtime/policies.py: the configured baseline policy. A
-- policy's dicts are lists of pairs, the first pair of a key counting.
pub mod Proposals
pub mod Gaps
pub mod Passing
use flow_security_agent.Contracts.Enums.{
  AgentAction, AgentAction-discrete, Capability, EvidenceSufficiency, EvidenceSufficiency-discrete,
  GapType, GapType-discrete, UnknownState, UnknownState-discrete, action_capability, gap_value,
}
use flow_security_agent.Contracts.Evidence.{
  CallMetrics, MissingEvidence, TrafficExpertResult, no_metrics,
}
use flow_security_agent.Contracts.Host.{Host}
use flow_security_agent.Contracts.Requests.{
  SupervisorDecision, ToolRequest, request_is_valid, signature,
}
use flow_security_agent.Contracts.State.{SupervisorView, is_available}
use flow_security_agent.Contracts.Values.{Fields}
use flow_security_agent.Orchestrator.Backends.{Output, raises, returns}
use flow_security_agent.Orchestrator.Checks.{contains_text}
use flow_security_agent.Prelude.Text.{◌<>◌}
use flow_security_agent.Prelude.{
  String, Bool, true, false, not, ◌&&◌, ◌||◌, List, [], ◌∷◌, Option, none, some, same, any,
  is_empty, if◌then◌else◌,
}

pub record Policy : Type 0 where
  pub gap_actions : List (GapType × AgentAction)
  pub request_parameters : List (AgentAction × Fields)

unfoldable pub default_gap_actions : List (GapType × AgentAction)
default_gap_actions =
    (GapType.packet, AgentAction.expand_packets)
    ∷ (GapType.temporal, AgentAction.expand_temporal_context)
    ∷ (GapType.graph, AgentAction.expand_graph_context)
    ∷ (GapType.application, AgentAction.request_application_evidence)
    ∷ (GapType.knowledge, AgentAction.retrieve_knowledge)
    ∷ []

-- `__init__`: an empty dict is falsy, and stands for the default as `None` does.
unfoldable pub new_policy :
    Option (List (GapType × AgentAction)) → Option (List (AgentAction × Fields)) → Policy
new_policy gaps parameters = record {
  gap_actions = elim gaps [
    | none ↦ default_gap_actions
    | some given ↦ if is_empty given then default_gap_actions else given
  ];
  request_parameters = elim parameters [ none ↦ [] | some given ↦ given ];
}

unfoldable pub gap_action : GapType → List (GapType × AgentAction) → Option AgentAction
unfolding GapType-discrete
gap_action g [] = none
gap_action g ((k, a) ∷ rest) = if same GapType-discrete k g then some a else gap_action g rest

-- `self.request_parameters.get(action, {})`
unfoldable pub parameters_of : AgentAction → List (AgentAction × Fields) → Fields
unfolding AgentAction-discrete
parameters_of a [] = Fields.end
parameters_of a ((k, fs) ∷ rest) =
    if same AgentAction-discrete k a then fs else parameters_of a rest

-- A decision with the default fields.
unfoldable pub decision : AgentAction → Option ToolRequest → String → SupervisorDecision
decision a q reason = record {
  action = a;
  request = q;
  short_reason = reason;
  priority = none;
  expected_value = none;
  planned_actions = [];
  metrics = no_metrics;
}

-- What the loop does at one gap: it goes on, or the method ends with a value or an exception.
pub data AtGap : Type 0 where
  goes_on : AtGap
  ends : Output SupervisorDecision → AtGap

module _ ⦃h : Host⦄ (p : Policy) where
  -- From the capability on.
  unfoldable pub propose : AgentAction → Capability → MissingEvidence → SupervisorView → AtGap
  propose a capability gap v =
      let q : ToolRequest = record {
        action = a;
        parameters = parameters_of a p.request_parameters;
      } in
      if not (is_available capability v.capabilities)
      then goes_on
      else if not (request_is_valid q)
      then ends (raises "ValidationError")
      else if contains_text (signature q) v.request_history
      then goes_on
      else ends (
          returns
            (decision a (some q) ("configured action for " <> gap_value gap.gap_type <> " gap")))

  unfoldable pub at_gap : MissingEvidence → SupervisorView → AtGap
  at_gap gap v = elim (gap_action gap.gap_type p.gap_actions) [
    | none ↦ goes_on
    | some a ↦ elim (action_capability a) [
      | none ↦ goes_on
      | some capability ↦ if not gap.valuable then goes_on else propose a capability gap v
    ]
  ]

  -- The loop over the gaps; `none` where it runs out.
  unfoldable pub first_proposal :
      List MissingEvidence → SupervisorView → Option (Output SupervisorDecision)
  first_proposal [] v = none
  first_proposal (gap ∷ rest) v = elim (at_gap gap v) [
    | ends o ↦ some o
    | goes_on ↦ first_proposal rest v
  ]

  unfoldable pub terminal_action : SupervisorView → AgentAction
  unfolding UnknownState-discrete EvidenceSufficiency-discrete
  terminal_action v =
      let result = v.traffic_expert_result in
      if same UnknownState-discrete v.unknown_decision.state UnknownState.unknown_likely
        && not (any (λ (m : MissingEvidence). m.valuable) result.missing_evidence)
      then AgentAction.reject_unknown
      else if same UnknownState-discrete v.unknown_decision.state UnknownState.known_likely
          && same EvidenceSufficiency-discrete result.evidence_sufficiency
              EvidenceSufficiency.sufficient
          && not (is_empty result.fine_candidates)
      then AgentAction.accept_fine
      else if same EvidenceSufficiency-discrete result.evidence_sufficiency
            EvidenceSufficiency.coarse_only
          && not (is_empty result.coarse_candidates)
      then AgentAction.backoff_coarse
      else AgentAction.abstain

  unfoldable pub decide : SupervisorView → Output SupervisorDecision
  decide v = elim (first_proposal v.traffic_expert_result.missing_evidence v) [
    | some o ↦ o
    | none ↦ returns (decision (terminal_action v) none "deterministic terminal rule")
  ]

-- `estimate`
unfoldable pub estimate : SupervisorView → CallMetrics
estimate v = no_metrics
