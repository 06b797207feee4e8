-- ===== src/Orchestrator/Trust/Supervise.antt =====
-- The Supervisor's half of an iteration over trusted states.
use flow_security_agent.Budget.{BudgetState, Kind, can_consume}
use flow_security_agent.Contracts.Evidence.{CallMetrics, metrics_within_estimate}
use flow_security_agent.Contracts.Host.{Host}
use flow_security_agent.Contracts.Requests.{SupervisorDecision, decision_is_valid}
use flow_security_agent.Contracts.State.{EvidenceState, RuntimeInput, to_supervisor_view}
use flow_security_agent.Orchestrator.Backends.{Backends, Config}
use flow_security_agent.Orchestrator.Flow.{
  LoopState, Phase, proceed, settle, caught, reconcile, reserve,
}
use flow_security_agent.Orchestrator.Sound.Evaluate.{Caught-cases}
use flow_security_agent.Orchestrator.Sound.Supervise.{Output-cases}
use flow_security_agent.Orchestrator.Supervise.{accept_decision, ask_decision, ask_supervisor}
use flow_security_agent.Orchestrator.Trust.{IsTrusted, Keeps}
use flow_security_agent.Orchestrator.Trust.Finish.{halt-Keeps, reject-Keeps}
use flow_security_agent.Prelude.Floats.{Rounding}
use flow_security_agent.Prelude.{◌≡◌, refl, true, inl, inr, Bool-cases, Option-cases}

module _ ⦃r : Rounding⦄ ⦃h : Host⦄ (cfg : Config) {E : Type 0} (b : Backends E)
    (input : RuntimeInput) where
  -- A part that goes on has not touched the state.
  abbrev pub Stays : EvidenceState → {A : Type 0} → Phase E A → Type 0
  Stays s (proceed d l') = l'.state ≡ s
  Stays s (settle st) = Keeps cfg input st

  module _ (l : LoopState E) (t : IsTrusted cfg input l.state) where
    accept_decision-Stays :
        (before : BudgetState) (est : CallMetrics) (d : SupervisorDecision)
        → Stays l.state (accept_decision b cfg input before est d l)
    unfolding accept_decision
    accept_decision-Stays before est d = elim (Bool-cases (decision_is_valid d)) [
      | inr bad ↦ rw (bad, accept_decision) (reject-Keeps cfg input b _ _ l t)
      | inl ok ↦ elim (Bool-cases (metrics_within_estimate d.metrics est)) [
        | inr over ↦ rw (ok, over, accept_decision) (halt-Keeps cfg input b _ _ l t)
        | inl fits ↦ elim (Option-cases (reconcile est d.metrics l.context)) [
          | inl none_left ↦ rw (ok, fits, none_left, accept_decision) tt
          | inr (c, settled) ↦ rw (ok, fits, settled, accept_decision) refl
        ]
      ]
    ]

  module _ (l : LoopState E) (t : IsTrusted cfg input l.state) where
    ask_decision-Stays :
        (before : BudgetState) (est : CallMetrics)
        → Stays l.state (ask_decision b cfg input before est l)
    unfolding ask_decision
    ask_decision-Stays before est =
        let (out, env) = b.supervisor_decide (to_supervisor_view l.state before) l.context.env in
        let l₁ : LoopState E = record l { context = record (l.context) { env = env } } in
        elim (Output-cases out) [
          | inl (name, e) ↦ rw (e, ask_decision) (reject-Keeps cfg input b _ _ l₁ t)
          | inr (inl e) ↦ rw (e, ask_decision) (reject-Keeps cfg input b _ _ l₁ t)
          | inr (inr (d, e)) ↦ rw (e, ask_decision) (accept_decision-Stays l₁ t before est d)
        ]

  pub ask_supervisor-Stays :
      (l : LoopState E) → IsTrusted cfg input l.state → Stays l.state (ask_supervisor b cfg input l)
  unfolding ask_supervisor
  ask_supervisor-Stays l t =
      let before = l.context.budget in
      let (out, env) = b.supervisor_estimate (to_supervisor_view l.state before) l.context.env in
      let l₁ : LoopState E = record l { context = record (l.context) { env = env } } in
      elim (Caught-cases (caught "TypeError" (λ _. true) out)) [
        | inl (name, e) ↦ rw (e, ask_supervisor) (reject-Keeps cfg input b _ _ l₁ t)
        | inr (est, e) ↦ elim (Bool-cases (can_consume Kind.supervisor est before)) [
          | inr full ↦ rw (e, full, ask_supervisor) (halt-Keeps cfg input b _ _ l₁ t)
          | inl can ↦ elim (Option-cases (reserve Kind.supervisor est l₁.context)) [
            | inl none_left ↦ rw (e, can, none_left, ask_supervisor) tt
            | inr (c, taken) ↦
                rw (e, can, taken, ask_supervisor)
                  (ask_decision-Stays (record l₁ { context = c }) t before est)
          ]
        ]
      ]
