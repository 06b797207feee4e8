-- ===== src/Orchestrator/Trust.antt =====
-- Predicates on the state of `run` at the loop's head and on what it returns. The children follow the
-- parts of an iteration.
pub mod State
pub mod Calls
pub mod Finish
pub mod Supervise
pub mod Acquire
pub mod Loop
use flow_security_agent.Contracts.Enums.{
  AgentAction, FinalDecisionType, Capability, RuntimePhase, action_capability, is_evidence_action,
}
use flow_security_agent.Contracts.Evidence.{
  EvidenceItem, PredictionCandidate, TrafficExpertResult, item_is_valid,
}
use flow_security_agent.Contracts.Experience.{
  ExperienceRecord, VerifiedFeedback, experience_is_valid,
}
use flow_security_agent.Contracts.State.{
  EvidenceState, FinalDecision, RuntimeInput, RuntimeResult, is_available,
}
use flow_security_agent.Orchestrator.Backends.{Config}
use flow_security_agent.Orchestrator.Checks.{contains_action, contains_text}
use flow_security_agent.Orchestrator.Checks.Admissible.{Warrants}
use flow_security_agent.Orchestrator.Flow.{Step, next, done, raised}
use flow_security_agent.Prelude.{
  ℕ, suc, String, true, false, List, [], ◌∷◌, ◌++◌, ◌≡◌, Option, none, some, All, length,
}

-- No text stands in the list twice.
abbrev pub IsUnique : List String → Type 0
IsUnique [] = Unit
IsUnique (s ∷ ss) = (contains_text s ss ≡ false) × IsUnique ss

-- An allowed evidence action with a tool, whose capability was offered with the sample.
abbrev pub IsUsable : Config → RuntimeInput → AgentAction → Type 0
IsUsable cfg input a =
    (is_evidence_action a ≡ true)
    × (contains_action a cfg.allowed_actions ≡ true)
    × (contains_action a cfg.tools ≡ true)
    × ((c : Capability) × (action_capability a ≡ some c)
        × (is_available c input.capabilities ≡ true))

module _ (cfg : Config) (input : RuntimeInput) where
  pub record IsTrusted (s : EvidenceState) : Type 0 where
    pub named : s.sample_id ≡ input.sample_id
    -- The initial evidence, and behind it what tools have added.
    pub added : List EvidenceItem
    pub grown : s.evidence ≡ input.initial_evidence ++ added
    pub safe : All (λ (e : EvidenceItem). e.model_safe ≡ true) s.evidence
    pub valid : All (λ (e : EvidenceItem). item_is_valid e ≡ true) s.evidence
    pub experienced :
        All
          (λ (e : ExperienceRecord). (e.feedback.verified ≡ true) × (experience_is_valid e ≡ true))
          s.retrieved_experiences
    pub once : IsUnique s.request_history
    pub paired : length s.request_history ≡ length s.action_history
    pub used : All (IsUsable cfg input) s.action_history
    -- No capability has become available.
    pub offered :
        (c : Capability)
        → is_available c s.capabilities ≡ true
        → is_available c input.capabilities ≡ true
    -- The current evaluation is the last of the history.
    pub older : List TrafficExpertResult
    pub latest : s.traffic_expert_history ≡ older ++ s.traffic_expert_result ∷ []

  -- The label that belongs to a type of decision.
  abbrev pub Labels :
      FinalDecisionType
      → AgentAction
      → Option String
      → List PredictionCandidate
      → List PredictionCandidate
      → Type 0
  Labels FinalDecisionType.fine a label fine coarse =
      (a ≡ AgentAction.accept_fine)
      × (c : PredictionCandidate) × (rest : List PredictionCandidate) × (fine ≡ c ∷ rest)
      × (label ≡ some c.label)
  Labels FinalDecisionType.coarse a label fine coarse =
      (a ≡ AgentAction.backoff_coarse)
      × (c : PredictionCandidate) × (rest : List PredictionCandidate) × (coarse ≡ c ∷ rest)
      × (label ≡ some c.label)
  Labels FinalDecisionType.unknown a label fine coarse =
      (a ≡ AgentAction.reject_unknown) × (label ≡ none)
  Labels FinalDecisionType.abstain a label fine coarse = (a ≡ AgentAction.abstain) × (label ≡ none)

  pub record Decides (d : FinalDecision) (s : EvidenceState) : Type 0 where
    pub warranted : Warrants d.action s
    pub labelled :
        Labels d.decision_type d.action d.label s.traffic_expert_result.fine_candidates
          s.traffic_expert_result.coarse_candidates
    pub scored : d.unknown_state ≡ s.unknown_decision.state

  -- A run of which experience may be written.
  abbrev pub IsTrainingRun : Type 0
  IsTrainingRun =
      (cfg.has_memory ≡ true)
      × (input.phase ≡ RuntimePhase.train)
      × (feedback : VerifiedFeedback) × (input.verified_feedback ≡ some feedback)
      × (feedback.verified ≡ true)

  abbrev pub Returns : Option EvidenceState → RuntimeResult → Type 0
  Returns none res =
      (res.final_decision.action ≡ AgentAction.abstain)
      × (res.final_decision.decision_type ≡ FinalDecisionType.abstain)
      × (res.final_decision.label ≡ none)
      × (res.memory_written ≡ false)
  Returns (some s) res =
      IsTrusted s × Decides res.final_decision s × (res.memory_written ≡ true → IsTrainingRun)

  abbrev pub Keeps : {E : Type 0} → Step E → Type 0
  Keeps (next l) = IsTrusted l.state
  Keeps (done res env) = Returns res.final_state res
  Keeps raised = Unit
