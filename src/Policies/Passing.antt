-- ===== src/Policies/Passing.antt =====
-- The policy's decisions under the orchestrator's checks.
use flow_security_agent.Budget.{BudgetState}
use flow_security_agent.Contracts.Enums.{
  AgentAction, Capability, EvidenceSufficiency, EvidenceSufficiency-discrete, GapDomain,
  UnknownState, UnknownState-discrete, action_capability, is_terminal_action,
}
use flow_security_agent.Contracts.Evidence.{missing_is_valid}
use flow_security_agent.Contracts.Host.{Host}
use flow_security_agent.Contracts.Requests.{SupervisorDecision, ToolRequest}
use flow_security_agent.Contracts.State.{EvidenceState, to_supervisor_view}
use flow_security_agent.Orchestrator.Backends.{Config, returns}
use flow_security_agent.Orchestrator.Checks.{
  contains_action, contains_domain, request_parameters_are_safe, validate_decision,
}
use flow_security_agent.Orchestrator.Checks.Admissible.{Warrants, validate_decision-terminal_iff}
use flow_security_agent.Policies.{
  Policy, decide, default_gap_actions, gap_action, parameters_of, terminal_action,
}
use flow_security_agent.Policies.Gaps.{
  check_capability-passes, check_evidence-passes, gap_action-default,
}
use flow_security_agent.Policies.Proposals.{Decides, decide-Decides}
use mathlib.Core.Path.{subst, sym}
use flow_security_agent.Prelude.{
  Bool, true, false, not, ◌&&◌, ◌≡◌, ◌≢◌, ◌↔◌, refl, List, [], none, some, inl, inr, arith, same,
  same→eq, if_cases, all, is_empty,
}

action_capability-terminal :
    (a : AgentAction) (c : Capability) → action_capability a ≡ some c → is_terminal_action a ≡ false
action_capability-terminal a c e = ground arith

-- The one terminal decision that a state of the terminal rule does not warrant.
abbrev pub IsContradicted : AgentAction → EvidenceState → Type 0
IsContradicted a s =
    (a ≡ AgentAction.backoff_coarse) × (s.unknown_decision.state ≡ UnknownState.unknown_likely)

abbrev IsRuled : EvidenceState → AgentAction → Type 0
IsRuled s a = (is_terminal_action a ≡ true) × (Warrants a s ↔ ¬ IsContradicted a s)

nonempty : {A : Type 0} (xs : List A) → not (is_empty xs) ≡ true → xs ≢ []
nonempty xs h e = absurd (ground arith)

accept-IsRuled :
    (s : EvidenceState)
    → (same UnknownState-discrete s.unknown_decision.state UnknownState.known_likely
        && same EvidenceSufficiency-discrete s.traffic_expert_result.evidence_sufficiency
            EvidenceSufficiency.sufficient
        && not (is_empty s.traffic_expert_result.fine_candidates))
      ≡ true
    → IsRuled s AgentAction.accept_fine
accept-IsRuled s h = (
  refl,
  (
    (λ w c. absurd (cc (c.0))),
    (λ n. (
      same→eq EvidenceSufficiency-discrete _ _ (ground arith),
      nonempty _ (ground arith),
      same→eq UnknownState-discrete _ _ (ground arith),
    )),
  ),
)

backoff-IsRuled :
    (s : EvidenceState)
    → (same EvidenceSufficiency-discrete s.traffic_expert_result.evidence_sufficiency
          EvidenceSufficiency.coarse_only
        && not (is_empty s.traffic_expert_result.coarse_candidates))
      ≡ true
    → IsRuled s AgentAction.backoff_coarse
backoff-IsRuled s h =
    let coarse =
      same→eq EvidenceSufficiency-discrete s.traffic_expert_result.evidence_sufficiency
        EvidenceSufficiency.coarse_only (ground arith) in
    (
      refl,
      (
        (λ w c. w.2 c.1),
        (λ n. ((λ e. cc (coarse, e)), nonempty _ (ground arith), (λ e. n (refl, e)))),
      ),
    )

reject-IsRuled :
    (s : EvidenceState) (useless : Bool)
    → (same UnknownState-discrete s.unknown_decision.state UnknownState.unknown_likely && useless)
      ≡ true
    → IsRuled s AgentAction.reject_unknown
reject-IsRuled s useless h =
    (refl, ((λ w c. absurd (cc (c.0))), (λ n. same→eq UnknownState-discrete _ _ (ground arith))))

terminal_action-IsRuled :
    ⦃h : Host⦄ (p : Policy) (s : EvidenceState) (b : BudgetState)
    → IsRuled s (terminal_action p (to_supervisor_view s b))
unfolding terminal_action to_supervisor_view
terminal_action-IsRuled p s b = if_cases (IsRuled s) _ (reject-IsRuled s _) (λ _.
    if_cases (IsRuled s) _ (accept-IsRuled s) (λ _.
      if_cases (IsRuled s) _ (backoff-IsRuled s)
        (λ _. (refl, ((λ w c. absurd (cc (c.0))), (λ n. tt))))))

module _ ⦃h : Host⦄ (cfg : Config) (p : Policy) (s : EvidenceState) (b : BudgetState)
    (d : SupervisorDecision) (decided : decide p (to_supervisor_view s b) ≡ returns d) where
  decided-Decides : Decides p (to_supervisor_view s b) (returns d)
  decided-Decides =
      subst (Decides p (to_supervisor_view s b)) decided (decide-Decides p (to_supervisor_view s b))

  -- A terminal decision of the policy passes the checks where its action is allowed, except for one:
  -- a coarse label in a state that the Unknown Scorer calls likely unknown, which the checks refuse.
  pub decide-terminal_passes :
      is_terminal_action d.action ≡ true
      → contains_action d.action cfg.allowed_actions ≡ true
      → (validate_decision cfg d s ≡ none) ↔ ¬ IsContradicted d.action s
  decide-terminal_passes t allowed =
      let (to, from) = validate_decision-terminal_iff cfg d s t in
      elim decided-Decides [
        | inl i ↦
            absurd
              (ground (arith, t, action_capability-terminal d.action i.capability i.capability_of))
        | inr (asks_nothing, ruled) ↦
            let rule : IsRuled s d.action =
              subst (IsRuled s) (sym ruled) (terminal_action-IsRuled p s b) in
            ((λ ok. rule.1.0 ((to ok).2)), (λ n. from (allowed, asks_nothing, rule.1.1 n)))
      ]

module _ ⦃h : Host⦄ (cfg : Config) (p : Policy) (s : EvidenceState) (b : BudgetState)
    (d : SupervisorDecision) (decided : decide p (to_supervisor_view s b) ≡ returns d) where
  -- An evidence decision of the policy with the default actions passes the checks, where its action is
  -- allowed and has a tool, both information domains are allowed, the gaps are valid, and the
  -- parameters configured for the action are safe.
  pub decide-evidence_passes :
      is_terminal_action d.action ≡ false
      → p.gap_actions ≡ default_gap_actions
      → contains_action d.action cfg.allowed_actions ≡ true
      → contains_action d.action cfg.tools ≡ true
      → contains_domain GapDomain.observational cfg.allowed_information_domains ≡ true
      → contains_domain GapDomain.knowledge cfg.allowed_information_domains ≡ true
      → all missing_is_valid s.traffic_expert_result.missing_evidence ≡ true
      → request_parameters_are_safe cfg
          (record { action = d.action; parameters = parameters_of d.action p.request_parameters })
        ≡ true
      → validate_decision cfg d s ≡ none
  unfolding validate_decision to_supervisor_view
  decide-evidence_passes evidence default allowed tool observational knowledge valid safe =
      elim (decided-Decides cfg p s b d decided) [
        | inr (asks_nothing, ruled) ↦ absurd (ground (arith, evidence, terminal_of ruled))
        | inl i ↦
            let gap =
              gap_action-default i.gap d.action
                (subst (λ x. gap_action i.gap x ≡ some d.action) default i.mapped) in
            let own : i.request ≡ record {
              action = d.action;
              parameters = parameters_of d.action p.request_parameters;
            } =
              request_eq i.request i.same_action i.configured in
            rw (allowed, evidence)
              (check_evidence-passes cfg s d i.request i.capability i.gap i.asked i.same_action
                (rw own safe) i.capability_of gap
                (check_capability-passes cfg s d i.request i.capability i.gap i.available tool
                  i.fresh i.wanted observational knowledge valid gap))
      ]
    where
      terminal_of :
          d.action ≡ terminal_action p (to_supervisor_view s b) → is_terminal_action d.action ≡ true
      terminal_of ruled = rw ruled (terminal_action-IsRuled p s b).0

      request_eq :
          (q : ToolRequest)
          → q.action ≡ d.action
          → q.parameters ≡ parameters_of d.action p.request_parameters
          → q
            ≡ record { action = d.action; parameters = parameters_of d.action p.request_parameters }
      request_eq q e f = λ i. record { action = e i; parameters = f i }
