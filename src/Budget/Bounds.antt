-- ===== src/Budget/Bounds.antt =====
-- The limits of a budget under `consume` and `reconcile_metrics`.
use flow_security_agent.Budget.{
  BudgetLimits, BudgetState, Kind, fresh, counter_is_full, can_consume, consume, reconcile_metrics,
}
use flow_security_agent.Contracts.Evidence.{CallMetrics, no_metrics, metrics_within_estimate}
use flow_security_agent.Prelude.{
  ℕ, suc, ◌+◌, ◌-◌, ◌≤◌, ◌≡◌, ◌∙◌, ap, refl, ◌≢◌, true, false, none, some, arith, some_of_ne-none,
}
use native.Mathlib.Nat.{add-zero}
use flow_security_agent.Prelude.Floats.{Rounding, float_add, float_sub, IsFloat}

module _ ⦃r : Rounding⦄ where
  -- Every counter and every sum is at most its limit, and the sums of floats are floats.
  pub record IsWithin (b : BudgetState) : Type 0 where
    pub expert : b.traffic_expert_calls ≤ b.limits.max_traffic_expert_calls
    pub supervised : b.supervisor_calls ≤ b.limits.max_supervisor_calls
    pub tools : b.tool_calls ≤ b.limits.max_tool_calls
    pub rags : b.rag_calls ≤ b.limits.max_rag_calls
    pub tokens : b.abstract_tokens ≤ b.limits.max_abstract_tokens
    pub cost : b.abstract_cost ≤ b.limits.max_abstract_cost
    pub latency : b.abstract_latency ≤ b.limits.max_abstract_latency
    pub cost_float : IsFloat b.abstract_cost
    pub latency_float : IsFloat b.abstract_latency

  pub fresh-IsWithin : (l : BudgetLimits) → IsWithin (fresh l)
  unfolding fresh
  fresh-IsWithin l = ground (arith, r.round_zero)

  pub consume-IsWithin :
      (k : Kind) (m : CallMetrics) (b b' : BudgetState)
      → IsWithin b
      → consume k m b ≡ some b'
      → IsWithin b'
  unfolding consume
  consume-IsWithin k m b b' w e = ground (
    arith,
    r.round_idem (b.abstract_cost + m.abstract_cost),
    r.round_idem (b.abstract_latency + m.abstract_latency),
  )

  pub consume-ne-none :
      (k : Kind) (m : CallMetrics) (b : BudgetState)
      → k ≢ Kind.other
      → can_consume k m b ≡ true
      → consume k m b ≢ none
  unfolding consume
  consume-ne-none Kind.other m b known h = absurd (known refl)
  consume-ne-none _ m b known h = ground arith

  pub consume-eq_some :
      (k : Kind) (m : CallMetrics) (b : BudgetState)
      → k ≢ Kind.other
      → can_consume k m b ≡ true
      → (b' : BudgetState) × (consume k m b ≡ some b')
  consume-eq_some k m b known h = some_of_ne-none (consume k m b) (consume-ne-none k m b known h)

  -- What a call leaves alone.
  pub consume_keeps :
      (k : Kind) (m : CallMetrics) (b b' : BudgetState)
      → consume k m b ≡ some b'
      → (b'.limits ≡ b.limits)
        × (b'.rounds ≡ b.rounds)
        × (k ≢ Kind.supervisor → b'.supervisor_calls ≡ b.supervisor_calls)
        × (k ≡ Kind.supervisor → b'.supervisor_calls ≡ suc b.supervisor_calls)
  unfolding consume
  consume_keeps Kind.supervisor m b b' e =
      (ground arith, ground arith, λ other. absurd (other refl), λ _. ground arith)
  consume_keeps Kind.traffic_expert m b b' e =
      (ground arith, ground arith, λ _. ground arith, λ same. cc)
  consume_keeps Kind.tool m b b' e = (ground arith, ground arith, λ _. ground arith, λ same. cc)
  consume_keeps Kind.rag m b b' e = (ground arith, ground arith, λ _. ground arith, λ same. cc)
  consume_keeps Kind.other m b b' e = (ground arith, ground arith, λ _. ground arith, λ same. cc)

  pub reconcile_keeps :
      (est act : CallMetrics) (b b' : BudgetState)
      → reconcile_metrics est act b ≡ some b'
      → (b'.limits ≡ b.limits) × (b'.rounds ≡ b.rounds) × (b'.supervisor_calls ≡ b.supervisor_calls)
  unfolding reconcile_metrics
  reconcile_keeps est act b b' e = ground arith

  -- A budget within its limits allows a call that costs nothing, if its counter is free.
  pub can_consume-rag :
      (b : BudgetState)
      → IsWithin b
      → counter_is_full Kind.rag b ≡ false
      → can_consume Kind.rag no_metrics b ≡ true
  unfolding can_consume
  can_consume-rag b w free =
      let add_zero : (x : ℕ) → IsFloat x → float_add x 0 ≡ x = λ x f. ap r.round (add-zero x) ∙ f in
      let cost = add_zero b.abstract_cost w.cost_float in
      let latency = add_zero b.abstract_latency w.latency_float in ground arith

  pub consume-tool_rag :
      (m : CallMetrics) (b b' : BudgetState)
      → consume Kind.tool m b ≡ some b'
      → counter_is_full Kind.rag b' ≡ counter_is_full Kind.rag b
  unfolding consume
  consume-tool_rag m b b' e = ground arith

  pub can_consume-free :
      (k : Kind) (m : CallMetrics) (b : BudgetState)
      → can_consume k m b ≡ true
      → counter_is_full k b ≡ false
  unfolding can_consume
  can_consume-free k m b h = ground arith

  pub reconcile-IsWithin :
      (reserved actual : CallMetrics) (b b' : BudgetState)
      → IsWithin b
      → reconcile_metrics reserved actual b ≡ some b'
      → IsWithin b'
  unfolding reconcile_metrics
  reconcile-IsWithin reserved actual b b' w e =
      let cost = b.abstract_cost in
      let latency = b.abstract_latency in
      let c = float_sub reserved.abstract_cost actual.abstract_cost in
      let l = float_sub reserved.abstract_latency actual.abstract_latency in
      ground (
        arith,
        r.round_mono (cost - c) cost,
        r.round_mono (latency - l) latency,
        r.round_idem (cost - c),
        r.round_idem (latency - l),
      )

  pub reconcile-ne-none :
      (reserved actual : CallMetrics) (b : BudgetState)
      → metrics_within_estimate actual reserved ≡ true
      → reconcile_metrics reserved actual b ≢ none
  unfolding reconcile_metrics metrics_within_estimate
  reconcile-ne-none reserved actual b h = ground arith

  pub reconcile-eq_some :
      (reserved actual : CallMetrics) (b : BudgetState)
      → metrics_within_estimate actual reserved ≡ true
      → (b' : BudgetState) × (reconcile_metrics reserved actual b ≡ some b')
  reconcile-eq_some reserved actual b h =
      some_of_ne-none (reconcile_metrics reserved actual b) (reconcile-ne-none reserved actual b h)

  -- What a reservation of metrics `est` leaves, and what its settlement by `act` gives back.
  pub record Settles (est act : CallMetrics) (b b₁ b₂ : BudgetState) : Type 0 where
    pub within : IsWithin b₂
    pub tokens_exact : b₂.abstract_tokens ≡ b.abstract_tokens + act.abstract_tokens
    pub cost_covered : float_sub est.abstract_cost act.abstract_cost ≤ b₁.abstract_cost
    pub latency_covered : float_sub est.abstract_latency act.abstract_latency ≤ b₁.abstract_latency
    pub limits_kept : b₂.limits ≡ b.limits

  refund-le : (old est act : ℕ) → IsFloat est → float_sub est act ≤ float_add old est
  refund-le old est act f =
      omega (arith, r.round_mono (est - act) est, r.round_mono est (old + est), f)

  consume-adds :
      (k : Kind) (m : CallMetrics) (b b₁ : BudgetState)
      → consume k m b ≡ some b₁
      → (b₁.abstract_tokens ≡ b.abstract_tokens + m.abstract_tokens)
        × (b₁.abstract_cost ≡ float_add b.abstract_cost m.abstract_cost)
        × (b₁.abstract_latency ≡ float_add b.abstract_latency m.abstract_latency)
        × (b₁.limits ≡ b.limits)
  unfolding consume
  consume-adds k m b b₁ e = ground arith

  reconcile-subtracts :
      (est act : CallMetrics) (b₁ b₂ : BudgetState)
      → reconcile_metrics est act b₁ ≡ some b₂
      → (b₂.abstract_tokens ≡ b₁.abstract_tokens - (est.abstract_tokens - act.abstract_tokens))
        × (act.abstract_tokens ≤ est.abstract_tokens)
        × (b₂.limits ≡ b₁.limits)
  unfolding reconcile_metrics
  reconcile-subtracts est act b₁ b₂ e = ground arith

  -- A call that is reserved by an estimate and settled by metrics within it goes through: the two
  -- updates raise nothing, the budget stays within every limit, exactly the used tokens are added,
  -- and no float is taken below zero by the refund, however the host rounds.
  pub reserve-settle :
      (k : Kind) (est act : CallMetrics) (b : BudgetState)
      → IsWithin b
      → k ≢ Kind.other
      → IsFloat est.abstract_cost
      → IsFloat est.abstract_latency
      → can_consume k est b ≡ true
      → metrics_within_estimate act est ≡ true
      → (b₁ : BudgetState) × (b₂ : BudgetState) × (consume k est b ≡ some b₁)
        × (reconcile_metrics est act b₁ ≡ some b₂)
        × Settles est act b b₁ b₂
  reserve-settle k est act b w known fc fl can fits =
      let (b₁, taken) = consume-eq_some k est b known can in
      let (b₂, settled) = reconcile-eq_some est act b₁ fits in
      let added = consume-adds k est b b₁ taken in
      let left = reconcile-subtracts est act b₁ b₂ settled in
      (
        b₁,
        b₂,
        taken,
        settled,
        record {
          within = reconcile-IsWithin est act b₁ b₂ (consume-IsWithin k est b b₁ w taken) settled;
          tokens_exact = omega arith;
          cost_covered =
              rw (added.1) (refund-le b.abstract_cost est.abstract_cost act.abstract_cost fc);
          latency_covered =
              rw (added.2)
                (refund-le b.abstract_latency est.abstract_latency act.abstract_latency fl);
          limits_kept = left.2 ∙ added.3;
        },
      )
