-- ===== src/Orchestrator/Checks.antt =====
-- `RuntimeOrchestrator._validate_decision` and `_request_parameters_are_safe`.
pub mod Wanted
pub mod Admissible
use flow_security_agent.Contracts.Enums.{
  AgentAction, AgentAction-discrete, Capability, EvidenceSufficiency, EvidenceSufficiency-discrete,
  FailureCode, GapDomain, GapDomain-discrete, GapType, GapType-discrete, UnknownState,
  UnknownState-discrete, action_capability, action_gap, is_terminal_action,
}
use flow_security_agent.Contracts.Evidence.{MissingEvidence}
use flow_security_agent.Contracts.Host.{Host}
use flow_security_agent.Contracts.Requests.{SupervisorDecision, ToolRequest, signature}
use flow_security_agent.Contracts.State.{EvidenceState, is_available}
use flow_security_agent.Contracts.Values.{Value, Fields}
use flow_security_agent.Contracts.Visible.Scan.{codes, eq_codes, normalize}
use flow_security_agent.Orchestrator.Backends.{Config}
use flow_security_agent.Prelude.Int.{is_zero}
use flow_security_agent.Prelude.{
  ℕ, String, Bool, true, false, not, ◌&&◌, ◌||◌, List, [], ◌∷◌, Option, none, some, str_eq, same,
  any, keep_if, is_empty, if◌then◌else◌,
}

unfoldable pub future_markers : List (List ℕ)
future_markers =
    codes "future"
    ∷ codes "include_future"
    ∷ codes "lookahead"
    ∷ codes "future_window"
    ∷ codes "end_timestamp"
    ∷ codes "absolute_end_time"
    ∷ []

-- `value is False or value is None or value == 0 or value == ""`
unfoldable pub is_falsy : Value → Bool
is_falsy Value.null = true
is_falsy (Value.flag b) = not b
is_falsy (Value.int n) = is_zero n
is_falsy (Value.real x) = is_zero x
is_falsy (Value.text s) = str_eq s ""
is_falsy _ = false

-- The entries of a dict comprehension over normalized keys, the last of a key winning.
unfoldable pub get_normalized : List ℕ → Fields → Option Value
get_normalized k Fields.end = none
get_normalized k (Fields.field j v fs) = elim (get_normalized k fs) [
  | some later ↦ some later
  | none ↦ if eq_codes (normalize (codes j)) k then some v else none
]

-- `key in future_markers and not (...)` for one marker of the normalized dict.
unfoldable pub asks_future : Fields → List ℕ → Bool
unfolding get_normalized is_falsy
asks_future fs marker = elim (get_normalized marker fs) [ none ↦ false | some v ↦ not (is_falsy v) ]

unfoldable pub is_true : Option Value → Bool
is_true (some (Value.flag b)) = b
is_true _ = false

unfoldable pub contains_text : String → List String → Bool
contains_text s ts = any (λ t. str_eq t s) ts

-- `self.allowed_request_signatures.get(action)`
unfoldable pub lookup_signatures :
    AgentAction → List (AgentAction × List String) → Option (List String)
unfolding AgentAction-discrete
lookup_signatures a [] = none
lookup_signatures a ((b, sigs) ∷ rest) =
    if same AgentAction-discrete b a then some sigs else lookup_signatures a rest

unfoldable pub contains_action : AgentAction → List AgentAction → Bool
unfolding AgentAction-discrete
contains_action a bs = any (λ b. same AgentAction-discrete b a) bs

unfoldable pub contains_domain : GapDomain → List GapDomain → Bool
unfolding GapDomain-discrete
contains_domain d ds = any (λ e. same GapDomain-discrete e d) ds

-- `[item for item in gaps if item.gap_type is required_gap]` over the valuable gaps.
unfoldable pub matching_gaps : GapType → List MissingEvidence → List MissingEvidence
unfolding GapType-discrete
matching_gaps g ms =
    keep_if (λ (m : MissingEvidence). m.valuable && same GapType-discrete m.gap_type g) ms

-- Whether the state refuses a terminal action.
unfoldable pub is_refused : AgentAction → EvidenceState → Bool
unfolding EvidenceSufficiency-discrete UnknownState-discrete
is_refused AgentAction.accept_fine s =
    not (
      same EvidenceSufficiency-discrete s.traffic_expert_result.evidence_sufficiency
        EvidenceSufficiency.sufficient)
    || is_empty s.traffic_expert_result.fine_candidates
    || not (same UnknownState-discrete s.unknown_decision.state UnknownState.known_likely)
is_refused AgentAction.backoff_coarse s =
    same EvidenceSufficiency-discrete s.traffic_expert_result.evidence_sufficiency
      EvidenceSufficiency.insufficient
    || is_empty s.traffic_expert_result.coarse_candidates
    || same UnknownState-discrete s.unknown_decision.state UnknownState.unknown_likely
is_refused AgentAction.reject_unknown s =
    not (same UnknownState-discrete s.unknown_decision.state UnknownState.unknown_likely)
is_refused _ s = false

-- The branch of a terminal action.
unfoldable pub check_terminal : SupervisorDecision → EvidenceState → Option FailureCode
check_terminal d s = elim d.request [
  | some q ↦ some FailureCode.invalid_action
  | none ↦ if is_refused d.action s then some FailureCode.invalid_action else none
]

module _ ⦃h : Host⦄ (cfg : Config) where
  unfoldable pub request_parameters_are_safe : ToolRequest → Bool
  request_parameters_are_safe q =
      not (any (asks_future q.parameters) future_markers)
      && (not (same AgentAction-discrete q.action AgentAction.expand_temporal_context)
          || is_true (get_normalized (codes "past_only") q.parameters))
      && elim (lookup_signatures q.action cfg.allowed_request_signatures) [
        | none ↦ true
        | some sigs ↦ contains_text (signature q) sigs
      ]

  -- The evidence branch, from the capability on.
  unfoldable pub check_capability :
      AgentAction → ToolRequest → Capability → GapType → EvidenceState → Option FailureCode
  check_capability action q capability gap s =
      let matching = matching_gaps gap s.traffic_expert_result.missing_evidence in
      if not (is_available capability s.capabilities) || not (contains_action action cfg.tools)
      then some FailureCode.capability_unavailable
      else if contains_text (signature q) s.request_history
      then some FailureCode.repeated_request
      else if is_empty matching
          || any
              (λ (m : MissingEvidence).
                not (contains_domain m.domain cfg.allowed_information_domains))
              matching
          || same AgentAction-discrete action AgentAction.retrieve_knowledge
            && any
                (λ (m : MissingEvidence).
                  not (same GapDomain-discrete m.domain GapDomain.knowledge))
                matching
      then some FailureCode.invalid_action
      else none

  -- The evidence branch. An action outside the two tables is no evidence action, and is refused.
  unfoldable pub check_evidence : SupervisorDecision → EvidenceState → Option FailureCode
  check_evidence d s = elim d.request [
    | none ↦ some FailureCode.invalid_action
    | some q ↦
        if not (same AgentAction-discrete q.action d.action) || not (request_parameters_are_safe q)
        then some FailureCode.invalid_action
        else elim (action_capability d.action) [
          | none ↦ some FailureCode.invalid_action
          | some capability ↦ elim (action_gap d.action) [
            | none ↦ some FailureCode.invalid_action
            | some gap ↦ check_capability d.action q capability gap s
          ]
        ]
  ]

  unfoldable pub validate_decision : SupervisorDecision → EvidenceState → Option FailureCode
  validate_decision d s =
      if not (contains_action d.action cfg.allowed_actions)
      then some FailureCode.invalid_action
      else if is_terminal_action d.action
      then check_terminal d s
      else check_evidence d s
