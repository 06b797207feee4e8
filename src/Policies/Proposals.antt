-- ===== src/Policies/Proposals.antt =====
-- What the policy's loop over the gaps proposes.
use flow_security_agent.Contracts.Enums.{
  AgentAction, Capability, GapType, GapType-discrete, action_capability,
}
use flow_security_agent.Contracts.Evidence.{MissingEvidence}
use flow_security_agent.Contracts.Host.{Host}
use flow_security_agent.Contracts.Requests.{
  SupervisorDecision, ToolRequest, request_is_valid, signature,
}
use flow_security_agent.Contracts.State.{SupervisorView, is_available}
use flow_security_agent.Orchestrator.Backends.{Output, raises, wrong_type, returns}
use flow_security_agent.Orchestrator.Checks.{contains_text, matching_gaps}
use flow_security_agent.Policies.{
  AtGap, Policy, at_gap, decide, decision, ends, first_proposal, gap_action, goes_on, parameters_of,
  propose, terminal_action,
}
use flow_security_agent.Prelude.{
  true, false, not, ◌≡◌, ◌⊎◌, refl, List, [], ◌∷◌, Option, none, some, inl, inr, arith, same_self,
  is_empty, Option-cases, if_cases,
}

module _ ⦃h : Host⦄ (p : Policy) where
  -- A proposal for one of the gaps.
  pub record IsProposal (gaps : List MissingEvidence) (v : SupervisorView) (d : SupervisorDecision)
      : Type 0 where
    pub gap : GapType
    pub mapped : gap_action gap p.gap_actions ≡ some d.action
    pub wanted : is_empty (matching_gaps gap gaps) ≡ false
    pub capability : Capability
    pub capability_of : action_capability d.action ≡ some capability
    pub available : is_available capability v.capabilities ≡ true
    pub request : ToolRequest
    pub asked : d.request ≡ some request
    pub same_action : request.action ≡ d.action
    pub configured : request.parameters ≡ parameters_of d.action p.request_parameters
    pub valid : request_is_valid request ≡ true
    pub fresh : contains_text (signature request) v.request_history ≡ false

  abbrev Proposes :
      List MissingEvidence → SupervisorView → Option (Output SupervisorDecision) → Type 0
  Proposes gaps v (some (returns d)) = IsProposal gaps v d
  Proposes gaps v (some wrong_type) = ⊥
  Proposes gaps v _ = Unit

  abbrev EndsAt : MissingEvidence → SupervisorView → AtGap → Type 0
  EndsAt gap v goes_on = Unit
  EndsAt gap v (ends o) = Proposes (gap ∷ []) v (some o)

  propose-EndsAt :
      (a : AgentAction) (c : Capability) (gap : MissingEvidence) (v : SupervisorView)
      → gap_action gap.gap_type p.gap_actions ≡ some a
      → action_capability a ≡ some c
      → is_empty (matching_gaps gap.gap_type (gap ∷ [])) ≡ false
      → EndsAt gap v (propose p a c gap v)
  unfolding propose decision
  propose-EndsAt a c gap v mapped cap wanted =
      let q : ToolRequest = record {
        action = a;
        parameters = parameters_of a p.request_parameters;
      } in
      if_cases (EndsAt gap v) (not (is_available c v.capabilities)) (λ off. tt)
        (λ on.
          if_cases (EndsAt gap v) (not (request_is_valid q)) (λ bad. tt)
            (λ good.
              if_cases (EndsAt gap v) (contains_text (signature q) v.request_history) (λ old. tt)
                (λ new. record {
                  gap = gap.gap_type;
                  mapped = mapped;
                  wanted = wanted;
                  capability = c;
                  capability_of = cap;
                  available = ground (arith, on);
                  request = q;
                  asked = refl;
                  same_action = refl;
                  configured = refl;
                  valid = ground (arith, good);
                  fresh = new;
                })))

  at_gap-EndsAt : (gap : MissingEvidence) (v : SupervisorView) → EndsAt gap v (at_gap p gap v)
  unfolding at_gap matching_gaps
  at_gap-EndsAt gap v = elim (Option-cases (gap_action gap.gap_type p.gap_actions)) [
    | inl e ↦ rw (e, at_gap) tt
    | inr (a, e) ↦ elim (Option-cases (action_capability a)) [
      | inl k ↦ rw (e, at_gap, k) tt
      | inr (c, k) ↦
          rw (e, at_gap, k)
            (if_cases (EndsAt gap v) (not gap.valuable) (λ useless. tt)
              (λ useful.
                propose-EndsAt a c gap v e k
                  (ground (arith, useful, same_self GapType-discrete gap.gap_type))))
    ]
  ]

  widen :
      (gaps more : List MissingEvidence) (v : SupervisorView) (d : SupervisorDecision)
      → (i : IsProposal gaps v d) → is_empty (matching_gaps i.gap more) ≡ false
      → IsProposal more v d
  widen gaps more v d i wanted = record {
    gap = i.gap;
    mapped = i.mapped;
    wanted = wanted;
    capability = i.capability;
    capability_of = i.capability_of;
    available = i.available;
    request = i.request;
    asked = i.asked;
    same_action = i.same_action;
    configured = i.configured;
    valid = i.valid;
    fresh = i.fresh;
  }

  later :
      (gap : MissingEvidence) (gaps : List MissingEvidence) (v : SupervisorView)
      (o : Option (Output SupervisorDecision))
      → Proposes gaps v o
      → Proposes (gap ∷ gaps) v o
  unfolding matching_gaps
  later gap gaps v none x = tt
  later gap gaps v (some (returns d)) x = widen gaps _ v d x (ground (arith, x.wanted))
  later gap gaps v (some wrong_type) x = x
  later gap gaps v (some (raises n)) x = tt

  earlier :
      (gap : MissingEvidence) (gaps : List MissingEvidence) (v : SupervisorView)
      (o : Output SupervisorDecision)
      → Proposes (gap ∷ []) v (some o)
      → Proposes (gap ∷ gaps) v (some o)
  unfolding matching_gaps
  earlier gap gaps v (returns d) x = widen (gap ∷ []) _ v d x (ground (arith, x.wanted))
  earlier gap gaps v wrong_type x = x
  earlier gap gaps v (raises n) x = tt

  first_proposal-Proposes :
      (gaps : List MissingEvidence) (v : SupervisorView) → Proposes gaps v (first_proposal p gaps v)
  unfolding first_proposal
  first_proposal-Proposes [] v = tt
  first_proposal-Proposes (gap ∷ gaps) v =
      go (at_gap p gap v) refl (at_gap-EndsAt gap v) (first_proposal-Proposes gaps v)
    where
      go :
          (x : AtGap)
          → at_gap p gap v ≡ x
          → EndsAt gap v x
          → Proposes gaps v (first_proposal p gaps v)
          → Proposes (gap ∷ gaps) v (first_proposal p (gap ∷ gaps) v)
      go goes_on e x rest = rw (e, first_proposal) (later gap gaps v _ rest)
      go (ends o) e x rest = rw (e, first_proposal) (earlier gap gaps v o x)

  -- A decision is a proposal for one of the gaps, or the terminal rule's.
  abbrev pub Decides : SupervisorView → Output SupervisorDecision → Type 0
  Decides v (returns d) =
      IsProposal v.traffic_expert_result.missing_evidence v d
      ⊎ ((d.request ≡ none) × (d.action ≡ terminal_action p v))
  Decides v wrong_type = ⊥
  Decides v (raises n) = Unit

  pub decide-Decides : (v : SupervisorView) → Decides v (decide p v)
  unfolding decide decision
  decide-Decides v =
      go (first_proposal p v.traffic_expert_result.missing_evidence v) refl
        (first_proposal-Proposes v.traffic_expert_result.missing_evidence v)
    where
      go :
          (o : Option (Output SupervisorDecision))
          → first_proposal p v.traffic_expert_result.missing_evidence v ≡ o
          → Proposes v.traffic_expert_result.missing_evidence v o
          → Decides v (decide p v)
      go none e x = rw (e, decide) (inr (refl, refl))
      go (some (returns d)) e x = rw (e, decide) (inl x)
      go (some wrong_type) e x = rw (e, decide) x
      go (some (raises n)) e x = rw (e, decide) tt
