-- ===== src/Orchestrator/Checks/Admissible.antt =====
-- What it takes for a decision of the Supervisor to pass `_validate_decision`.
use flow_security_agent.Contracts.Enums.{
  AgentAction, AgentAction-discrete, Capability, EvidenceSufficiency, GapDomain, GapDomain-discrete,
  GapType, UnknownState, action_capability, action_gap, is_terminal_action,
}
use flow_security_agent.Contracts.Evidence.{MissingEvidence}
use flow_security_agent.Contracts.Host.{Host}
use flow_security_agent.Contracts.Requests.{SupervisorDecision, ToolRequest, signature}
use flow_security_agent.Contracts.State.{EvidenceState, is_available}
use flow_security_agent.Orchestrator.Backends.{Config}
use flow_security_agent.Orchestrator.Checks.{
  check_capability, check_evidence, check_terminal, contains_action, contains_domain, contains_text,
  is_refused, matching_gaps, request_parameters_are_safe, validate_decision,
}
use flow_security_agent.Orchestrator.Checks.Wanted.{
  IsSafe, IsWanted, matching_gaps-All, matching_gaps-Any, request_parameters_are_safe_iff,
}
use flow_security_agent.Prelude.{
  All, Any, same_self, Bool, true, false, not, List, [], ◌≡◌, ◌≢◌, ◌↔◌, inl, inr, refl, none, some,
  any, is_empty, arith, same, same→eq, Bool-cases, Option-cases,
}

-- The state in which each terminal action is right.
abbrev pub Warrants : AgentAction → EvidenceState → Type 0
Warrants AgentAction.accept_fine s =
    (s.traffic_expert_result.evidence_sufficiency ≡ EvidenceSufficiency.sufficient)
    × (s.traffic_expert_result.fine_candidates ≢ [])
    × (s.unknown_decision.state ≡ UnknownState.known_likely)
Warrants AgentAction.backoff_coarse s =
    (s.traffic_expert_result.evidence_sufficiency ≢ EvidenceSufficiency.insufficient)
    × (s.traffic_expert_result.coarse_candidates ≢ [])
    × (s.unknown_decision.state ≢ UnknownState.unknown_likely)
Warrants AgentAction.reject_unknown s = s.unknown_decision.state ≡ UnknownState.unknown_likely
Warrants AgentAction.abstain s = Unit
Warrants _ s = ⊥

-- The request, the tool, the capability and the gap of an evidence action.
pub record IsEvidenceStep ⦃h : Host⦄ (cfg : Config) (d : SupervisorDecision) (s : EvidenceState)
    : Type 0 where
  pub request : ToolRequest
  pub asked : d.request ≡ some request
  pub same_action : request.action ≡ d.action
  pub safe : IsSafe cfg request
  pub registered : contains_action d.action cfg.tools ≡ true
  pub capability : Capability
  pub capability_of : action_capability d.action ≡ some capability
  pub available : is_available capability s.capabilities ≡ true
  pub fresh : contains_text (signature request) s.request_history ≡ false
  pub gap : GapType
  pub gap_of : action_gap d.action ≡ some gap
  pub some_gap : Any (IsWanted gap) s.traffic_expert_result.missing_evidence
  pub permitted :
      All
        (λ (m : MissingEvidence).
          IsWanted gap m → contains_domain m.domain cfg.allowed_information_domains ≡ true)
        s.traffic_expert_result.missing_evidence
  pub knowledge_only :
      d.action ≡ AgentAction.retrieve_knowledge
      → All
          (λ (m : MissingEvidence). IsWanted gap m → m.domain ≡ GapDomain.knowledge)
          s.traffic_expert_result.missing_evidence

is_refused_iff :
    (a : AgentAction) (s : EvidenceState)
    → is_terminal_action a ≡ true
    → (is_refused a s ≡ false) ↔ Warrants a s
unfolding is_refused
is_refused_iff AgentAction.accept_fine s t = ground arith
is_refused_iff AgentAction.backoff_coarse s t = ground arith
is_refused_iff AgentAction.reject_unknown s t = ground arith
is_refused_iff AgentAction.abstain s t = (λ _. tt, λ _. refl)
is_refused_iff _ s t = cc

module _ ⦃h : Host⦄ (cfg : Config) (d : SupervisorDecision) (s : EvidenceState) where
  -- A terminal decision passes exactly when its action is allowed, it carries no request, and the
  -- state warrants it: an accepted fine label rests on sufficient evidence of a likely known class,
  -- a coarse one on more than insufficient evidence of a class that is not likely unknown, and a
  -- rejection on a likely unknown one.
  pub validate_decision-terminal_iff :
      is_terminal_action d.action ≡ true
      → (validate_decision cfg d s ≡ none) ↔ (
          (contains_action d.action cfg.allowed_actions ≡ true)
          × (d.request ≡ none)
          × Warrants d.action s)
  unfolding validate_decision check_terminal
  validate_decision-terminal_iff t =
      let w = is_refused_iff d.action s t in
      elim (Bool-cases (is_refused d.action s)) [
        | inl bad ↦ (λ e. absurd (ground arith), λ p. absurd (ground (arith, w.1 p.2)))
        | inr fine ↦ (λ e. (ground arith, ground arith, w.0 fine), λ p. ground arith)
      ]

  abbrev gaps : List MissingEvidence
  gaps = s.traffic_expert_result.missing_evidence

  abbrev is_retrieval : Bool
  is_retrieval = same AgentAction-discrete d.action AgentAction.retrieve_knowledge

  abbrev is_knowledge : MissingEvidence → Bool
  is_knowledge m = same GapDomain-discrete m.domain GapDomain.knowledge

  is_knowledge_iff :
      (m : MissingEvidence) → (is_knowledge m ≡ true) ↔ (m.domain ≡ GapDomain.knowledge)
  is_knowledge_iff m = (
    same→eq GapDomain-discrete m.domain GapDomain.knowledge,
    λ e. rw e (same_self GapDomain-discrete GapDomain.knowledge),
  )

  permitted_iff :
      (g : GapType)
      → (any
            (λ (m : MissingEvidence).
              not (contains_domain m.domain cfg.allowed_information_domains))
            (matching_gaps g gaps)
          ≡ false)
        ↔ All
            (λ (m : MissingEvidence).
              IsWanted g m → contains_domain m.domain cfg.allowed_information_domains ≡ true)
            gaps
  permitted_iff g =
      matching_gaps-All
        (λ (m : MissingEvidence). contains_domain m.domain cfg.allowed_information_domains)
        (λ (m : MissingEvidence). contains_domain m.domain cfg.allowed_information_domains ≡ true)
        (λ m. (λ h. h, λ h. h)) g gaps

  knowledge_iff :
      (g : GapType)
      → (any (λ (m : MissingEvidence). not (is_knowledge m)) (matching_gaps g gaps) ≡ false)
        ↔ All (λ (m : MissingEvidence). IsWanted g m → m.domain ≡ GapDomain.knowledge) gaps
  knowledge_iff g =
      matching_gaps-All is_knowledge (λ (m : MissingEvidence). m.domain ≡ GapDomain.knowledge)
        is_knowledge_iff g gaps

  -- The checks from the capability on, one by one.
  check_capability-eq_none_iff :
      (q : ToolRequest) (c : Capability) (g : GapType)
      → (check_capability cfg d.action q c g s ≡ none) ↔ (
          (contains_action d.action cfg.tools ≡ true)
          × (is_available c s.capabilities ≡ true)
          × (contains_text (signature q) s.request_history ≡ false)
          × (is_empty (matching_gaps g gaps) ≡ false)
          × (any
                (λ (m : MissingEvidence).
                  not (contains_domain m.domain cfg.allowed_information_domains))
                (matching_gaps g gaps)
              ≡ false)
          × (is_retrieval ≡ true
              → any (λ (m : MissingEvidence). not (is_knowledge m)) (matching_gaps g gaps) ≡ false))
  unfolding check_capability
  check_capability-eq_none_iff q c g = ground arith

  -- The checks of the request, the capability and the gap, one by one.
  check_evidence-eq_none_iff :
      (q : ToolRequest) (c : Capability) (g : GapType)
      → d.request ≡ some q
      → action_capability d.action ≡ some c
      → action_gap d.action ≡ some g
      → (check_evidence cfg d s ≡ none) ↔ (
          (same AgentAction-discrete q.action d.action ≡ true)
          × (request_parameters_are_safe cfg q ≡ true)
          × (check_capability cfg d.action q c g s ≡ none))
  unfolding check_evidence
  check_evidence-eq_none_iff q c g asked has_c has_g =
      rw (asked, check_evidence) (rw has_c (rw has_g (ground arith)))

  of_checks :
      (q : ToolRequest) (c : Capability) (g : GapType)
      → d.request ≡ some q
      → action_capability d.action ≡ some c
      → action_gap d.action ≡ some g
      → check_evidence cfg d s ≡ none
      → IsEvidenceStep cfg d s
  of_checks q c g asked has_c has_g ok =
      let (act, safe, rest) = (check_evidence-eq_none_iff q c g asked has_c has_g).0 ok in
      let (registered, available, fresh, some_gap, permitted, knowledge) =
        (check_capability-eq_none_iff q c g).0 rest in
      record {
        request = q;
        asked = asked;
        same_action = same→eq AgentAction-discrete q.action d.action act;
        safe = (request_parameters_are_safe_iff cfg q).0 safe;
        registered = registered;
        capability = c;
        capability_of = has_c;
        available = available;
        fresh = fresh;
        gap = g;
        gap_of = has_g;
        some_gap = (matching_gaps-Any g gaps).0 some_gap;
        permitted = (permitted_iff g).0 permitted;
        knowledge_only = λ e.
            (knowledge_iff g).0
              (knowledge (rw e (same_self AgentAction-discrete AgentAction.retrieve_knowledge)));
      }

  to_checks : IsEvidenceStep cfg d s → check_evidence cfg d s ≡ none
  to_checks step =
      let q = step.request in
      let g = step.gap in
      (check_evidence-eq_none_iff q step.capability g step.asked step.capability_of step.gap_of).1 (
        rw step.same_action (same_self AgentAction-discrete d.action),
        (request_parameters_are_safe_iff cfg q).1 step.safe,
        (check_capability-eq_none_iff q step.capability g).1 (
          step.registered,
          step.available,
          step.fresh,
          (matching_gaps-Any g gaps).1 step.some_gap,
          (permitted_iff g).1 step.permitted,
          λ e. (knowledge_iff g).1 (
              step.knowledge_only
                (same→eq AgentAction-discrete d.action AgentAction.retrieve_knowledge e)),
        ),
      )

  check_evidence-IsEvidenceStep : check_evidence cfg d s ≡ none → IsEvidenceStep cfg d s
  unfolding check_evidence
  check_evidence-IsEvidenceStep e = elim (Option-cases d.request) [
    | inl missing ↦ absurd (ground arith)
    | inr (q, asked) ↦ elim (Option-cases (action_capability d.action)) [
      | inl missing ↦ absurd (ground arith)
      | inr (c, has_c) ↦ elim (Option-cases (action_gap d.action)) [
        | inl missing ↦ absurd (ground arith)
        | inr (g, has_g) ↦ of_checks q c g asked has_c has_g e
      ]
    ]
  ]

  -- A decision for evidence passes exactly when its action is allowed and it carries a request for its
  -- own action, not made before, of which no parameter asks for what lies ahead, which asks for past
  -- temporal context only, and which is among the allowed ones where its action has a list of them;
  -- the action's tool is registered and its capability available; the Traffic Expert has named a
  -- valuable gap of the action's type; and all of these gaps are in the allowed information domains,
  -- and in that of knowledge if knowledge is asked for.
  pub validate_decision-evidence_iff :
      is_terminal_action d.action ≡ false
      → (validate_decision cfg d s ≡ none)
        ↔ ((contains_action d.action cfg.allowed_actions ≡ true) × IsEvidenceStep cfg d s)
  unfolding validate_decision
  validate_decision-evidence_iff t =
      let parts : (validate_decision cfg d s ≡ none) ↔ (
          (contains_action d.action cfg.allowed_actions ≡ true) × (check_evidence cfg d s ≡ none)) =
        ground arith in
      (
        λ e. (let (allowed, ok) = parts.0 e in (allowed, check_evidence-IsEvidenceStep ok)),
        λ h. parts.1 (h.0, to_checks h.1),
      )
