-- ===== src/Tests/Runs.antt =====
-- Runs, decisions and reservations in the small world.
use flow_security_agent.Budget.{BudgetState, Kind, can_consume, consume, fresh, reconcile_metrics}
use flow_security_agent.Budget.Bounds.{Settles, fresh-IsWithin, reserve-settle}
use flow_security_agent.Contracts.Enums.{
  FailureCode, AgentAction, EvidenceSufficiency, GapDomain, UnknownState, is_terminal_action,
}
use flow_security_agent.Contracts.Evidence.{EvidenceItem, metrics_within_estimate, missing_is_valid}
use flow_security_agent.Contracts.Requests.{SupervisorDecision}
use flow_security_agent.Contracts.State.{EvidenceState, to_supervisor_view}
use flow_security_agent.Contracts.Values.{Fields}
use flow_security_agent.Orchestrator.Backends.{Config, returns}
use flow_security_agent.Orchestrator.Checks.{
  contains_action, contains_domain, request_parameters_are_safe, validate_decision,
}
use flow_security_agent.Orchestrator.Checks.Admissible.{
  IsEvidenceStep, Warrants, validate_decision-evidence_iff, validate_decision-terminal_iff,
}
use flow_security_agent.Orchestrator.Flow.{Step, done}
use flow_security_agent.Orchestrator.Merge.{merge_evidence}
use flow_security_agent.Orchestrator.Merge.Laws.{Merges, merge_evidence-Merges}
use flow_security_agent.Orchestrator.Run.{run}
use flow_security_agent.Orchestrator.Sound.Loop.{EndsSound, run-ends}
use flow_security_agent.Orchestrator.Trust.Loop.{Delivers, run-Delivers}
use flow_security_agent.Policies.{Policy, decide, decision, parameters_of, default_gap_actions}
use flow_security_agent.Policies.Passing.{
  IsContradicted, decide-evidence_passes, decide-terminal_passes,
}
use flow_security_agent.Prelude.Floats.{exact}
use flow_security_agent.Prelude.{
  ℕ, String, ◌≡◌, ◌↔◌, refl, true, false, all, [], ◌∷◌, Option, none, some, length,
}
use flow_security_agent.Variants.{ExperimentVariant, variant_config}
use flow_security_agent.Variants.Basic.{Refrains, run-basic}
use flow_security_agent.Tests.Data.{
  accept, ask, backends, config, host, input, item, limits, metrics, state, sure, sure_state,
  unsure,
}
use flow_security_agent.Tests.Program.{program}

-- The label, the length of the trace and the number of records written.
abbrev shown : Option (Step ℕ) → Option (Option String × ℕ × ℕ)
shown (some (done res n)) = some (res.final_decision.label, length res.trace, n)
shown _ = none

shown-run : shown (run backends config input 0) ≡ some (some "web", 10, 1)
unfolding program
shown-run = refl

run-ends_example :
    (s : Step ℕ) × (run backends config input 0 ≡ some s) × EndsSound config backends input s
run-ends_example = run-ends config backends input 0

run-Delivers_example :
    (s : Step ℕ) × (run backends config input 0 ≡ some s) × Delivers config backends input s
run-Delivers_example = run-Delivers config backends input 0

validate_decision-terminal_iff_example : (validate_decision config accept sure_state ≡ none) ↔ (
    (contains_action AgentAction.accept_fine config.allowed_actions ≡ true)
    × (accept.request ≡ none)
    × Warrants AgentAction.accept_fine sure_state)
validate_decision-terminal_iff_example =
    validate_decision-terminal_iff config accept sure_state refl

asked : validate_decision config ask state ≡ none
unfolding program
asked = refl

validate_decision-evidence_iff_example : (validate_decision config ask state ≡ none) ↔ (
    (contains_action AgentAction.expand_packets config.allowed_actions ≡ true)
    × IsEvidenceStep config ask state)
validate_decision-evidence_iff_example = validate_decision-evidence_iff config ask state refl

abbrev IsSafe : EvidenceItem → Type 0
IsSafe e = e.model_safe ≡ true

merge_evidence-Merges_example :
    Merges IsSafe
      (item "first" ∷ [])
      (item "first" ∷ item "second" ∷ [])
      (merge_evidence (item "first" ∷ []) (item "first" ∷ item "second" ∷ []))
merge_evidence-Merges_example =
    merge_evidence-Merges IsSafe (item "first" ∷ []) (item "first" ∷ item "second" ∷ [])
      (refl, (refl, tt))

tool_is_free : can_consume Kind.tool (metrics 5) (fresh limits) ≡ true
unfolding program
tool_is_free = refl

fits : metrics_within_estimate (metrics 3) (metrics 5) ≡ true
unfolding program
fits = refl

reserve-settle_example :
    (b₁ : BudgetState) × (b₂ : BudgetState) × (consume Kind.tool (metrics 5) (fresh limits)
      ≡ some b₁)
    × (reconcile_metrics (metrics 5) (metrics 3) b₁ ≡ some b₂)
    × Settles (metrics 5) (metrics 3) (fresh limits) b₁ b₂
reserve-settle_example =
    reserve-settle Kind.tool (metrics 5) (metrics 3) (fresh limits) (fresh-IsWithin limits)
      (λ p. cc) refl refl tool_is_free fits

abbrev policy : Policy
policy = record { gap_actions = default_gap_actions; request_parameters = [] }

-- A likely unknown with a coarse label and a gap that no capability is left for.
abbrev torn_state : EvidenceState
torn_state = record state {
  capabilities = [];
  traffic_expert_result = record unsure {
    coarse_candidates = sure.coarse_candidates;
    evidence_sufficiency = EvidenceSufficiency.coarse_only;
  };
  unknown_decision = record (state.unknown_decision) { state = UnknownState.unknown_likely };
}

abbrev coarse : SupervisorDecision
coarse = decision AgentAction.backoff_coarse none "deterministic terminal rule"

torn : decide policy (to_supervisor_view torn_state (fresh limits)) ≡ returns coarse
unfolding program
torn = refl

coarse_allowed : contains_action coarse.action config.allowed_actions ≡ true
unfolding program
coarse_allowed = refl

coarse_is_terminal : is_terminal_action coarse.action ≡ true
unfolding program
coarse_is_terminal = refl

decide-terminal_passes_example :
    (validate_decision config coarse torn_state ≡ none) ↔ ¬ IsContradicted coarse.action torn_state
decide-terminal_passes_example =
    decide-terminal_passes config policy torn_state (fresh limits) coarse torn coarse_is_terminal
      coarse_allowed

-- The checks refuse what the policy decides there.
torn_refused : validate_decision config coarse torn_state ≡ some FailureCode.invalid_action
unfolding program
torn_refused = refl

abbrev proposal : SupervisorDecision
proposal =
    decision AgentAction.expand_packets
      (some (record { action = AgentAction.expand_packets; parameters = Fields.end }))
      "configured action for packet gap"

proposed : decide policy (to_supervisor_view state (fresh limits)) ≡ returns proposal
unfolding program
proposed = refl

-- The conditions on the configuration, for the proposal.
proposal_fits :
    (is_terminal_action proposal.action ≡ false)
    × (contains_action proposal.action config.allowed_actions ≡ true)
    × (contains_action proposal.action config.tools ≡ true)
    × (contains_domain GapDomain.observational config.allowed_information_domains ≡ true)
    × (contains_domain GapDomain.knowledge config.allowed_information_domains ≡ true)
    × (all missing_is_valid state.traffic_expert_result.missing_evidence ≡ true)
    × (request_parameters_are_safe config (record {
      action = proposal.action;
      parameters = parameters_of proposal.action policy.request_parameters;
    })
        ≡ true)
unfolding program
proposal_fits = (refl, refl, refl, refl, refl, refl, refl)

decide-evidence_passes_example : validate_decision config proposal state ≡ none
decide-evidence_passes_example =
    decide-evidence_passes config policy state (fresh limits) proposal proposed proposal_fits.0 refl
      proposal_fits.1 proposal_fits.2 proposal_fits.3 proposal_fits.4 proposal_fits.5
      proposal_fits.6

abbrev basic_config : Config
basic_config = record config {
  allowed_actions = (variant_config limits ExperimentVariant.basic).allowed_actions;
  budget_limits = (variant_config limits ExperimentVariant.basic).budget;
}

run-basic_example :
    (s : Step ℕ) × (run backends basic_config input 0 ≡ some s)
    × Refrains basic_config limits backends input refl refl s
run-basic_example = run-basic basic_config limits backends input refl refl 0
