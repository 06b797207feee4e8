-- ===== src/Orchestrator/Trust/Finish.antt =====
-- `_finish`, `_finish_without_state` and a rejection over trusted states.
use flow_security_agent.Contracts.Enums.{AgentAction, FailureCode}
use flow_security_agent.Contracts.Evidence.{PredictionCandidate}
use flow_security_agent.Contracts.Experience.{experience_is_valid}
use flow_security_agent.Contracts.State.{EvidenceState, FinalDecision, RuntimeInput}
use flow_security_agent.Orchestrator.Backends.{Backends, Config}
use flow_security_agent.Orchestrator.Checks.Admissible.{Warrants}
use flow_security_agent.Orchestrator.Context.{Context, Details}
use flow_security_agent.Orchestrator.Finish.{
  choose, experience_of, final_decision, finish, finish_without_state, halt, reject, result_of,
  safety_stop, store, writable_feedback,
}
use flow_security_agent.Orchestrator.Flow.{LoopState}
use flow_security_agent.Orchestrator.Trust.{Decides, IsTrainingRun, IsTrusted, Keeps, Labels}
use mathlib.Core.Path.{subst, sym}
use flow_security_agent.Prelude.{
  Bool, true, List, [], ◌∷◌, ◌≡◌, ◌≢◌, refl, String, Option, inl, inr, none, some, arith,
  Bool-cases, Option-cases, length, ltb, suc,
}

-- The candidates that an action labels with.
abbrev Needs : AgentAction → List PredictionCandidate → List PredictionCandidate → Type 0
Needs AgentAction.accept_fine fine coarse = fine ≢ []
Needs AgentAction.backoff_coarse fine coarse = coarse ≢ []
Needs AgentAction.reject_unknown fine coarse = Unit
Needs AgentAction.abstain fine coarse = Unit
Needs _ fine coarse = ⊥

Needs-of_Warrants :
    (a : AgentAction) (s : EvidenceState)
    → Warrants a s
    → Needs a s.traffic_expert_result.fine_candidates s.traffic_expert_result.coarse_candidates
Needs-of_Warrants AgentAction.accept_fine s w = w.1
Needs-of_Warrants AgentAction.backoff_coarse s w = w.1
Needs-of_Warrants AgentAction.reject_unknown s w = tt
Needs-of_Warrants AgentAction.abstain s w = tt
Needs-of_Warrants AgentAction.expand_packets s w = w
Needs-of_Warrants AgentAction.expand_temporal_context s w = w
Needs-of_Warrants AgentAction.expand_graph_context s w = w
Needs-of_Warrants AgentAction.request_application_evidence s w = w
Needs-of_Warrants AgentAction.retrieve_knowledge s w = w

module _ (cfg : Config) (input : RuntimeInput) where
  -- With its candidates at hand an action is kept, and the label is the first candidate's.
  choose-Labels :
      (a : AgentAction) (fine coarse : List PredictionCandidate)
      → Needs a fine coarse
      → let (t, a', label) = choose a fine coarse in
        (a' ≡ a) × Labels cfg input t a' label fine coarse
  unfolding choose
  choose-Labels AgentAction.accept_fine [] coarse n = absurd (n refl)
  choose-Labels AgentAction.accept_fine (c ∷ cs) coarse n = (refl, (refl, c, cs, refl, refl))
  choose-Labels AgentAction.backoff_coarse fine [] n = absurd (n refl)
  choose-Labels AgentAction.backoff_coarse fine (c ∷ cs) n = (refl, (refl, c, cs, refl, refl))
  choose-Labels AgentAction.reject_unknown fine coarse n = (refl, (refl, refl))
  choose-Labels AgentAction.abstain fine coarse n = (refl, (refl, refl))
  choose-Labels AgentAction.expand_packets fine coarse n = absurd n
  choose-Labels AgentAction.expand_temporal_context fine coarse n = absurd n
  choose-Labels AgentAction.expand_graph_context fine coarse n = absurd n
  choose-Labels AgentAction.request_application_evidence fine coarse n = absurd n
  choose-Labels AgentAction.retrieve_knowledge fine coarse n = absurd n

  final_decision-Decides :
      (a : AgentAction) (reason : String) (s : EvidenceState)
      → Warrants a s
      → Decides cfg input (final_decision a reason s) s
  unfolding final_decision
  final_decision-Decides a reason s w =
      let chosen =
        choose-Labels a s.traffic_expert_result.fine_candidates
          s.traffic_expert_result.coarse_candidates (Needs-of_Warrants a s w) in
      record {
        warranted = subst (λ x. Warrants x s) (sym (chosen.0)) w;
        labelled = chosen.1;
        scored = refl;
      }

  writable-IsTrainingRun : writable_feedback cfg input ≢ none → IsTrainingRun cfg input
  unfolding writable_feedback
  writable-IsTrainingRun h = elim (Option-cases input.verified_feedback) [
    | inl p ↦ absurd (ground arith)
    | inr (feedback, p) ↦ (ground arith, ground arith, feedback, p, ground arith)
  ]

  module _ {E : Type 0} (b : Backends E) where
    -- What `store` comes to: a record is written in training only.
    abbrev Writes : Option (Bool × Context E) → Type 0
    Writes none = Unit
    Writes (some (written, c)) = written ≡ true → IsTrainingRun cfg input

    store-Writes :
        (s : EvidenceState) (final : FinalDecision) (c : Context E)
        → Writes (store b cfg input s final c)
    unfolding store
    store-Writes s final c = elim (Option-cases (writable_feedback cfg input)) [
      | inl p ↦ rw (p, store) (λ e. cc)
      | inr (feedback, p) ↦
          let training = writable-IsTrainingRun (λ q. ground (arith, p, q)) in
          elim (Bool-cases
            (experience_is_valid (experience_of input s final feedback (length c.trace)))) [
              | inl ok ↦ rw (p, ok, store) (λ e. training)
              | inr bad ↦ rw (p, bad, store) tt
            ]
    ]

    pub finish-Keeps :
        (a : AgentAction) (reason : String) (s : EvidenceState) (c : Context E)
        → Warrants a s
        → IsTrusted cfg input s
        → Keeps cfg input (finish b cfg input a reason s c)
    unfolding finish result_of
    finish-Keeps a reason s c w t =
        go (store b cfg input s (final_decision a reason s) c) refl (store-Writes s _ c)
      where
        go :
            (o : Option (Bool × Context E))
            → store b cfg input s (final_decision a reason s) c ≡ o
            → Writes o
            → Keeps cfg input (finish b cfg input a reason s c)
        go none e q = rw (e, finish) tt
        go (some (written, c₁)) e q = rw (e, finish) (t, final_decision-Decides a reason s w, q)

    pub finish_without_state-Keeps :
        (reason : String) (c : Context E)
        → Keeps cfg input (finish_without_state b cfg input reason c)
    unfolding finish_without_state result_of
    finish_without_state-Keeps reason c = (refl, refl, refl, refl)

    pub safety_stop-Keeps :
        (l : LoopState E)
        → IsTrusted cfg input l.state
        → Keeps cfg input (safety_stop b cfg input l)
    unfolding safety_stop
    safety_stop-Keeps l t = finish-Keeps AgentAction.abstain _ l.state l.context tt t

    pub halt-Keeps :
        (code : FailureCode) (d : Details) (l : LoopState E)
        → IsTrusted cfg input l.state
        → Keeps cfg input (halt b cfg input code d l)
    unfolding halt
    halt-Keeps code d l t = safety_stop-Keeps _ t

    pub reject-Keeps :
        (code : FailureCode) (d : Details) (l : LoopState E)
        → IsTrusted cfg input l.state
        → Keeps cfg input (reject b cfg input code d l)
    unfolding reject
    reject-Keeps code d l t = elim (Bool-cases (ltb cfg.max_invalid_retries (suc l.rejections))) [
      | inl many ↦ rw (many, reject) (safety_stop-Keeps _ t)
      | inr few ↦ rw (few, reject) t
    ]
