-- ===== src/Policies/Gaps.antt =====
-- The conditions of the checks on an evidence decision, one by one.
use flow_security_agent.Contracts.Enums.{
  AgentAction, AgentAction-discrete, Capability, GapDomain, GapDomain-discrete, GapType,
  GapType-discrete, action_capability, action_gap,
}
use flow_security_agent.Contracts.Evidence.{MissingEvidence, missing_is_valid}
use flow_security_agent.Contracts.Host.{Host}
use flow_security_agent.Contracts.Requests.{SupervisorDecision, ToolRequest, signature}
use flow_security_agent.Contracts.State.{EvidenceState, is_available}
use flow_security_agent.Orchestrator.Backends.{Config}
use flow_security_agent.Orchestrator.Checks.{
  check_capability, check_evidence, contains_action, contains_domain, contains_text, matching_gaps,
  request_parameters_are_safe,
}
use flow_security_agent.Policies.{default_gap_actions, gap_action}
use flow_security_agent.Prelude.{
  true, false, not, ◌&&◌, ◌≡◌, ◌⊎◌, refl, List, [], ◌∷◌, none, some, inl, inr, arith, same,
  same_self, same→eq, if_cases, any, all, is_empty, Bool-cases,
}

pub gap_action-default :
    (g : GapType) (a : AgentAction)
    → gap_action g default_gap_actions ≡ some a
    → action_gap a ≡ some g
unfolding gap_action default_gap_actions GapType-discrete
gap_action-default g a e = ground arith

-- Where both domains are allowed, no gap lies outside.
domains-allowed :
    (cfg : Config) (ms : List MissingEvidence)
    → contains_domain GapDomain.observational cfg.allowed_information_domains ≡ true
    → contains_domain GapDomain.knowledge cfg.allowed_information_domains ≡ true
    → any
        (λ (m : MissingEvidence). not (contains_domain m.domain cfg.allowed_information_domains))
        ms
      ≡ false
domains-allowed cfg [] o k = refl
domains-allowed cfg (m ∷ ms) o k = elim (domain_cases m.domain) [
  | inl e ↦ rw (e, o) (domains-allowed cfg ms o k)
  | inr e ↦ rw (e, k) (domains-allowed cfg ms o k)
]
  where
    domain_cases : (x : GapDomain) → x ≡ GapDomain.observational ⊎ x ≡ GapDomain.knowledge
    domain_cases GapDomain.observational = inl refl
    domain_cases GapDomain.knowledge = inr refl

-- A valid gap of the knowledge type lies in the knowledge domain.
knowledge-matching :
    (ms : List MissingEvidence)
    → all missing_is_valid ms ≡ true
    → any
        (λ (m : MissingEvidence). not (same GapDomain-discrete m.domain GapDomain.knowledge))
        (matching_gaps GapType.knowledge ms)
      ≡ false
unfolding matching_gaps missing_is_valid
knowledge-matching [] v = refl
knowledge-matching (m ∷ ms) v =
    if_cases
      (λ xs.
        any (λ (x : MissingEvidence). not (same GapDomain-discrete x.domain GapDomain.knowledge)) xs
        ≡ false)
      (m.valuable && same GapType-discrete m.gap_type GapType.knowledge)
      (λ kept. ground (arith, knowledge-matching ms (ground (arith, v))))
      (λ left. knowledge-matching ms (ground (arith, v)))

action_gap-knowledge :
    (a : AgentAction) (g : GapType)
    → action_gap a ≡ some g
    → same AgentAction-discrete a AgentAction.retrieve_knowledge ≡ true
    → g ≡ GapType.knowledge
action_gap-knowledge a g e k =
    let is_knowledge = same→eq AgentAction-discrete a AgentAction.retrieve_knowledge k in
    ground (arith, e, is_knowledge)

module _ ⦃h : Host⦄ (cfg : Config) (s : EvidenceState) (d : SupervisorDecision) where
  knowledge-only :
      (g : GapType)
      → action_gap d.action ≡ some g
      → all missing_is_valid s.traffic_expert_result.missing_evidence ≡ true
      → (same AgentAction-discrete d.action AgentAction.retrieve_knowledge
          && any
              (λ (m : MissingEvidence). not (same GapDomain-discrete m.domain GapDomain.knowledge))
              (matching_gaps g s.traffic_expert_result.missing_evidence))
        ≡ false
  knowledge-only g e valid =
      elim (Bool-cases (same AgentAction-discrete d.action AgentAction.retrieve_knowledge)) [
        | inr other ↦ ground (arith, other)
        | inl rag ↦
            let is_knowledge = action_gap-knowledge d.action g e rag in
            rw (is_knowledge, rag)
              (knowledge-matching s.traffic_expert_result.missing_evidence valid)
      ]

  pub check_capability-passes :
      (q : ToolRequest) (c : Capability) (g : GapType)
      → is_available c s.capabilities ≡ true
      → contains_action d.action cfg.tools ≡ true
      → contains_text (signature q) s.request_history ≡ false
      → is_empty (matching_gaps g s.traffic_expert_result.missing_evidence) ≡ false
      → contains_domain GapDomain.observational cfg.allowed_information_domains ≡ true
      → contains_domain GapDomain.knowledge cfg.allowed_information_domains ≡ true
      → all missing_is_valid s.traffic_expert_result.missing_evidence ≡ true
      → action_gap d.action ≡ some g
      → check_capability cfg d.action q c g s ≡ none
  unfolding check_capability
  check_capability-passes q c g on tool new wanted observational knowledge valid gap =
      let inside =
        domains-allowed cfg (matching_gaps g s.traffic_expert_result.missing_evidence) observational
          knowledge in
      rw (on, tool, new, wanted, inside, knowledge-only g gap valid) refl

  pub check_evidence-passes :
      (q : ToolRequest) (c : Capability) (g : GapType)
      → d.request ≡ some q
      → q.action ≡ d.action
      → request_parameters_are_safe cfg q ≡ true
      → action_capability d.action ≡ some c
      → action_gap d.action ≡ some g
      → check_capability cfg d.action q c g s ≡ none
      → check_evidence cfg d s ≡ none
  unfolding check_evidence
  check_evidence-passes q c g asked act safe cap gap ok =
      let own : same AgentAction-discrete q.action d.action ≡ true =
        rw act (same_self AgentAction-discrete d.action) in
      rw (asked, own, safe, cap, gap) ok
