-- ===== src/Orchestrator/Sound/Supervise.antt =====
-- The Supervisor's half of an iteration over sound variables.
use flow_security_agent.Budget.{BudgetState, Kind, can_consume}
use flow_security_agent.Contracts.Evidence.{CallMetrics, metrics_within_estimate}
use flow_security_agent.Contracts.Host.{Host}
use flow_security_agent.Contracts.Requests.{SupervisorDecision, decision_is_valid}
use flow_security_agent.Contracts.State.{RuntimeInput, to_supervisor_view}
use flow_security_agent.Orchestrator.Backends.{
  Backends, Config, Output, raises, wrong_type, returns,
}
use flow_security_agent.Orchestrator.Checks.{validate_decision}
use flow_security_agent.Orchestrator.Flow.{
  LoopState, Phase, proceed, settle, Step, next, done, raised, caught,
}
use flow_security_agent.Orchestrator.Sound.{
  IsRefused, IsSound, IsSoundLoop, IsSoundResult, emit-IsSound, env-IsSound, reconcile-IsSound,
  reserve_supervisor-IsSound,
}
use flow_security_agent.Orchestrator.Sound.Evaluate.{Caught-cases}
use flow_security_agent.Orchestrator.Sound.Finish.{
  LandsSound, halt_ne-next, halt_sound, reject_sound, rejections-reject,
}
use flow_security_agent.Orchestrator.Supervise.{
  accept_decision, ask_decision, ask_supervisor, check_decision,
}
use flow_security_agent.Prelude.Floats.{Rounding}
use flow_security_agent.Prelude.{
  ℕ, suc, ◌≤◌, ◌≡◌, ◌∙◌, refl, true, String, ◌⊎◌, inl, inr, Bool-cases, Option-cases,
}

pub Output-cases :
    {A : Type 0} (x : Output A)
    → ((name : String) × (x ≡ raises name)) ⊎ (x ≡ wrong_type) ⊎ ((a : A) × (x ≡ returns a))
Output-cases (raises name) = inl (name, refl)
Output-cases wrong_type = inr (inl refl)
Output-cases (returns a) = inr (inr (a, refl))

module _ ⦃r : Rounding⦄ ⦃h : Host⦄ (cfg : Config) {E : Type 0} (b : Backends E)
    (input : RuntimeInput) where
  -- What a whole iteration at `n` calls and `rej` rejections comes to: a loop that goes on has
  -- counted a rejection or a call.
  abbrev pub Advances : ℕ → ℕ → Step E → Type 0
  Advances n rej (next l) =
      (IsSoundLoop cfg n l × (l.rejections ≡ suc rej)) ⊎ IsSoundLoop cfg (suc n) l
  Advances n rej (done res env) = IsSoundResult cfg res
  Advances n rej raised = IsRefused cfg input

  pub Advances-of_call :
      (n rej : ℕ) (s : Step E) → LandsSound cfg b input (suc n) s → Advances n rej s
  Advances-of_call n rej (next l) h = inr h
  Advances-of_call n rej (done res env) h = h
  Advances-of_call n rej raised h = h

  pub Advances-of_rejection :
      (n rej : ℕ) (s : Step E)
      → LandsSound cfg b input n s
      → ((l : LoopState E) → s ≡ next l → l.rejections ≡ suc rej)
      → Advances n rej s
  Advances-of_rejection n rej (next l) h more = inl (h, more l refl)
  Advances-of_rejection n rej (done res env) h more = h
  Advances-of_rejection n rej raised h more = h

  -- What a part comes to after the call has been counted: `m` counts it.
  abbrev pub Proceeds : ℕ → LoopState E → {A : Type 0} → Phase E A → Type 0
  Proceeds m l (proceed d l') =
      IsSound cfg m l'.state.round_index l'.context
      × (l'.state ≡ l.state)
      × (l'.rejections ≡ l.rejections)
  Proceeds m l (settle s) = LandsSound cfg b input m s

  module _ (m : ℕ) (l : LoopState E) (capped : l.state.round_index ≤ cfg.budget_limits.max_rounds)
      (s : IsSound cfg m l.state.round_index l.context) where
    accept_decision_sound :
        (before : BudgetState) (est : CallMetrics) (d : SupervisorDecision)
        → Proceeds m l (accept_decision b cfg input before est d l)
    unfolding accept_decision
    accept_decision_sound before est d = elim (Bool-cases (decision_is_valid d)) [
      | inr bad ↦ rw (bad, accept_decision) (reject_sound cfg b input m l capped _ _ s)
      | inl ok ↦ elim (Bool-cases (metrics_within_estimate d.metrics est)) [
        | inr over ↦ rw (ok, over, accept_decision) (halt_sound cfg b input m l capped _ _ s)
        | inl fits ↦
            let (c, settled, s₁) =
              reconcile-IsSound cfg m l.state.round_index est d.metrics l.context fits s in
            rw (ok, fits, settled, accept_decision)
              (emit-IsSound cfg m l.state.round_index _ _ _ c (λ p. cc) s₁, refl, refl)
      ]
    ]

    pub check_decision_sound :
        (d : SupervisorDecision) → Proceeds m l (check_decision b cfg input d l)
    unfolding check_decision
    check_decision_sound d = elim (Option-cases (validate_decision cfg d l.state)) [
      | inl ok ↦ rw (ok, check_decision) (s, refl, refl)
      | inr (code, bad) ↦ rw (bad, check_decision) (reject_sound cfg b input m l capped code _ s)
    ]

  module _ (m : ℕ) (l : LoopState E) (capped : l.state.round_index ≤ cfg.budget_limits.max_rounds)
      (s : IsSound cfg m l.state.round_index l.context) where
    ask_decision_sound :
        (before : BudgetState) (est : CallMetrics)
        → Proceeds m l (ask_decision b cfg input before est l)
    unfolding ask_decision
    ask_decision_sound before est =
        let (out, env) = b.supervisor_decide (to_supervisor_view l.state before) l.context.env in
        let l₁ : LoopState E = record l { context = record (l.context) { env = env } } in
        let s₁ = env-IsSound cfg m l.state.round_index env l.context s in
        elim (Output-cases out) [
          | inl (name, e) ↦ rw (e, ask_decision) (reject_sound cfg b input m l₁ capped _ _ s₁)
          | inr (inl e) ↦ rw (e, ask_decision) (reject_sound cfg b input m l₁ capped _ _ s₁)
          | inr (inr (d, e)) ↦
              rw (e, ask_decision) (accept_decision_sound m l₁ capped s₁ before est d)
        ]

  -- What asking comes to: as `Advances` if it settles, and with the call counted if it proceeds.
  abbrev pub Asks : ℕ → LoopState E → Phase E SupervisorDecision → Type 0
  Asks n l (proceed d l') =
      IsSound cfg (suc n) l'.state.round_index l'.context
      × (l'.state ≡ l.state)
      × (l'.rejections ≡ l.rejections)
  Asks n l (settle s) = Advances n l.rejections s

  Asks-of_Proceeds :
      (n : ℕ) (l l₁ : LoopState E) (p : Phase E SupervisorDecision)
      → l₁.state ≡ l.state
      → l₁.rejections ≡ l.rejections
      → Proceeds (suc n) l₁ p
      → Asks n l p
  Asks-of_Proceeds n l l₁ (proceed d l') es er h = (h.0, h.1 ∙ es, h.2 ∙ er)
  Asks-of_Proceeds n l l₁ (settle st) es er h = Advances-of_call n l.rejections st h

  pub ask_supervisor_sound :
      (n : ℕ) (l : LoopState E) → IsSoundLoop cfg n l → Asks n l (ask_supervisor b cfg input l)
  unfolding ask_supervisor
  ask_supervisor_sound n l sl =
      let before = l.context.budget in
      let (out, env) = b.supervisor_estimate (to_supervisor_view l.state before) l.context.env in
      let l₁ : LoopState E = record l { context = record (l.context) { env = env } } in
      let s₁ = env-IsSound cfg n l.state.round_index env l.context sl.context in
      elim (Caught-cases (caught "TypeError" (λ _. true) out)) [
        | inl (name, e) ↦
            rw (e, ask_supervisor)
              (Advances-of_rejection n l.rejections _
                (reject_sound cfg b input n l₁ sl.rounds_capped _ _ s₁)
                (rejections-reject cfg b input n l₁ sl.rounds_capped _ _))
        | inr (est, e) ↦ elim (Bool-cases (can_consume Kind.supervisor est before)) [
          | inr full ↦
              rw (e, full, ask_supervisor)
                (Advances-of_rejection n l.rejections _
                  (halt_sound cfg b input n l₁ sl.rounds_capped _ _ s₁)
                  (λ l' p. absurd (halt_ne-next cfg b input n _ _ l₁ l' p)))
          | inl can ↦
              let (c, taken, s₂) =
                reserve_supervisor-IsSound cfg n l.state.round_index est l₁.context can s₁ in
              let l₂ : LoopState E = record l₁ { context = c } in
              rw (e, can, taken, ask_supervisor)
                (Asks-of_Proceeds n l l₂ _ refl refl
                  (ask_decision_sound (suc n) l₂ sl.rounds_capped s₂ before est))
        ]
      ]
