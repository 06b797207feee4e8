-- ===== src/Orchestrator/Sound/Evaluate.antt =====
-- `_evaluate` over sound variables.
use flow_security_agent.Budget.{BudgetState, Kind, can_consume}
use flow_security_agent.Contracts.Evidence.{
  CallMetrics, EvidenceItem, TrafficExpertResult, metrics_within_estimate, result_is_valid,
  unknown_is_valid,
}
use flow_security_agent.Orchestrator.Backends.{Backends, Config}
use flow_security_agent.Orchestrator.Context.{Context}
use flow_security_agent.Orchestrator.Evaluate.{evaluate, evaluate_reserved, score_unknown}
use flow_security_agent.Orchestrator.Flow.{
  Evaluation, evaluated, stopped, escaped, Caught, failed, got, caught,
}
use flow_security_agent.Orchestrator.Sound.{
  IsSound, emit-IsSound, env-IsSound, fail-IsSound, reconcile-IsSound, reserve-IsSound,
}
use flow_security_agent.Prelude.Floats.{Rounding}
use flow_security_agent.Prelude.{
  ℕ, ◌≡◌, true, List, length, String, ◌⊎◌, inl, inr, refl, Bool-cases,
}

-- A split on a caught call that keeps the equation.
pub Caught-cases :
    {A : Type 0} (x : Caught A) → ((name : String) × (x ≡ failed name)) ⊎ ((a : A) × (x ≡ got a))
Caught-cases (failed name) = inl (name, refl)
Caught-cases (got a) = inr (a, refl)

module _ ⦃r : Rounding⦄ (cfg : Config) {E : Type 0} (n k : ℕ) where
  abbrev pub EvaluatesSound : Evaluation E → Type 0
  EvaluatesSound (evaluated result unknown c) = IsSound cfg n k c
  EvaluatesSound (stopped c) = IsSound cfg n k c
  EvaluatesSound escaped = ⊥

  module _ (b : Backends E) (evidence : List EvidenceItem) (round : ℕ) where
    score_unknown_sound :
        (result : TrafficExpertResult) (c : Context E)
        → IsSound cfg n k c
        → EvaluatesSound (score_unknown b evidence round result c)
    unfolding score_unknown
    score_unknown_sound result c s =
        let (out, env) = b.unknown_score result round (length evidence) c.env in
        let s₁ = env-IsSound cfg n k env c s in
        elim (Caught-cases (caught "TypeError" unknown_is_valid out)) [
          | inl (name, e) ↦ rw (e, score_unknown) (fail-IsSound cfg n k _ round _ _ s₁)
          | inr (unknown, e) ↦ rw (e, score_unknown) (emit-IsSound cfg n k _ round _ _ (λ p. cc) s₁)
        ]

    evaluate_reserved_sound :
        (before : BudgetState) (est : CallMetrics) (c : Context E)
        → IsSound cfg n k c
        → EvaluatesSound (evaluate_reserved b evidence round before est c)
    unfolding evaluate_reserved
    evaluate_reserved_sound before est c s =
        let (out, env) = b.expert_evaluate evidence c.env in
        let c₁ : Context E = record c { env = env } in
        let s₁ = env-IsSound cfg n k env c s in
        elim (Caught-cases (caught "TypeError" result_is_valid out)) [
          | inl (name, e) ↦ rw (e, evaluate_reserved) (fail-IsSound cfg n k _ round _ _ s₁)
          | inr (result, e) ↦ elim (Bool-cases (metrics_within_estimate result.metrics est)) [
            | inl fits ↦
                let (c₂, settled, s₂) = reconcile-IsSound cfg n k est result.metrics c₁ fits s₁ in
                rw (e, fits, settled, evaluate_reserved)
                  (score_unknown_sound result _ (emit-IsSound cfg n k _ round _ c₂ (λ p. cc) s₂))
            | inr over ↦ rw (e, over, evaluate_reserved) (fail-IsSound cfg n k _ round _ _ s₁)
          ]
        ]

    pub evaluate_sound :
        (c : Context E) → IsSound cfg n k c → EvaluatesSound (evaluate b evidence round c)
    unfolding evaluate
    evaluate_sound c s =
        let (out, env) = b.expert_estimate evidence c.env in
        let c₁ : Context E = record c { env = env } in
        let s₁ = env-IsSound cfg n k env c s in
        elim (Caught-cases (caught "TypeError" (λ _. true) out)) [
          | inl (name, e) ↦ rw (e, evaluate) (fail-IsSound cfg n k _ round _ _ s₁)
          | inr (est, e) ↦ elim (Bool-cases (can_consume Kind.traffic_expert est c₁.budget)) [
            | inl can ↦
                let (c₂, taken, s₂) =
                  reserve-IsSound cfg n k Kind.traffic_expert est c₁ (λ p. cc) (λ p. cc) can s₁ in
                rw (e, can, taken, evaluate) (evaluate_reserved_sound c.budget est c₂ s₂)
            | inr full ↦ rw (e, full, evaluate) (fail-IsSound cfg n k _ round _ _ s₁)
          ]
        ]
