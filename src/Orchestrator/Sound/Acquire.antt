-- ===== src/Orchestrator/Sound/Acquire.antt =====
-- The tool's half of an iteration over sound variables.
use flow_security_agent.Budget.{BudgetState, Kind, can_consume, consume, counter_is_full}
use flow_security_agent.Budget.Bounds.{
  IsWithin, can_consume-free, can_consume-rag, consume-tool_rag,
}
use flow_security_agent.Contracts.Enums.{AgentAction, FailureCode, ToolStatus}
use flow_security_agent.Contracts.Evidence.{
  CallMetrics, EvidenceItem, metrics_within_estimate, no_metrics,
}
use flow_security_agent.Contracts.Host.{Host}
use flow_security_agent.Contracts.Requests.{
  SupervisorDecision, ToolRequest, ToolResult, signature, tool_result_is_valid,
}
use flow_security_agent.Contracts.State.{RuntimeInput}
use flow_security_agent.Orchestrator.Acquire.{
  absorb, acquire, advance, breaks_rag_domain, by_status, call_tool, execute, is_rag,
  note_tool_failure, record_call, reserve_tool, switch_off,
}
use flow_security_agent.Orchestrator.Backends.{Backends, Config}
use flow_security_agent.Orchestrator.Checks.{contains_action}
use flow_security_agent.Orchestrator.Context.{Context}
use flow_security_agent.Orchestrator.Evaluate.{evaluate}
use flow_security_agent.Orchestrator.Flow.{
  Evaluation, LoopState, evaluated, stopped, escaped, caught, reserve,
}
use flow_security_agent.Orchestrator.Merge.{merge_evidence}
use flow_security_agent.Orchestrator.Sound.{
  IsSound, budget-IsSound, emit-IsSound, env-IsSound, reconcile-IsSound, reserve-IsSound,
}
use flow_security_agent.Orchestrator.Sound.Evaluate.{Caught-cases, evaluate_sound}
use flow_security_agent.Orchestrator.Sound.Finish.{
  LandsSound, halt_sound, reject_sound, safety_stop_sound,
}
use flow_security_agent.Prelude.Floats.{Rounding}
use flow_security_agent.Prelude.{
  ℕ, suc, ◌≤◌, ◌<◌, ◌≡◌, ◌∙◌, refl, ap, true, not, ◌&&◌, ◌||◌, List, ◌⊎◌, inl, inr, some, arith,
  Bool-cases, Option-cases, any, str_eq, map, ◌++◌, ◌∷◌, [],
}

-- How an evaluation ends, with the equation kept.
pub Evaluation-cases :
    {E : Type 0} (x : Evaluation E)
    → (x ≡ escaped)
      ⊎ ((c : Context E) × (x ≡ stopped c))
      ⊎ ((result : _) × (unknown : _) × (c : Context E) × (x ≡ evaluated result unknown c))
Evaluation-cases escaped = inl refl
Evaluation-cases (stopped c) = inr (inl (c, refl))
Evaluation-cases (evaluated result unknown c) = inr (inr (result, unknown, c, refl))

rounds-IsWithin :
    ⦃r : Rounding⦄ (k : ℕ) (b : BudgetState) → IsWithin b → IsWithin (record b { rounds = k })
rounds-IsWithin k b w = record {
  expert = w.expert;
  supervised = w.supervised;
  tools = w.tools;
  rags = w.rags;
  tokens = w.tokens;
  cost = w.cost;
  latency = w.latency;
  cost_float = w.cost_float;
  latency_float = w.latency_float;
}

module _ ⦃r : Rounding⦄ ⦃h : Host⦄ (cfg : Config) {E : Type 0} (b : Backends E)
    (input : RuntimeInput) (n : ℕ) where
  module _ (l : LoopState E) (capped : l.state.round_index < cfg.budget_limits.max_rounds)
      (s : IsSound cfg n l.state.round_index l.context) where
    advance_sound :
        (merged : List EvidenceItem) → LandsSound cfg b input n (advance b cfg input merged l)
    unfolding advance
    advance_sound merged =
        let budget = l.context.budget in
        let round = suc l.state.round_index in
        let c : Context E = record (l.context) {
          budget = record budget { rounds = suc budget.rounds };
        } in
        let s₁ : IsSound cfg n round c =
          budget-IsSound cfg n l.state.round_index n round (c.budget) (l.context) s
            (rounds-IsWithin (suc budget.rounds) budget s.within) refl s.calls (ap suc s.rounds) in
        let ev = evaluate_sound cfg n round b merged round c s₁ in
        elim (Evaluation-cases (evaluate b merged round c)) [
          | inl e ↦ absurd (rw e at ev)
          | inr (inl (c₁, e)) ↦
              rw (e, advance) (safety_stop_sound cfg b input n _ capped (rw e at ev))
          | inr (inr (result, unknown, c₁, e)) ↦
              rw (e, advance)
                (record {
                  context = rw e at ev;
                  rounds_capped = capped;
                  retries_capped = omega arith;
                })
        ]

    -- The state changes that the tool's branches make before a rejection leave the round alone.
    absorb_sound :
        (action : AgentAction) (t : ToolResult)
        → LandsSound cfg b input n (absorb b cfg input action t l)
    unfolding absorb note_tool_failure
    absorb_sound action t =
        let merged = merge_evidence l.state.evidence t.evidence in
        elim (Bool-cases (any (λ (e : EvidenceItem). not e.model_safe) t.evidence)) [
          | inl unsafe ↦ rw (unsafe, absorb) (halt_sound cfg b input n l below _ _ s)
          | inr safe ↦ elim (Bool-cases (is_rag action && any breaks_rag_domain t.evidence)) [
            | inl breaks ↦ rw (safe, breaks, absorb) (halt_sound cfg b input n l below _ _ s)
            | inr keeps ↦ elim (Option-cases merged.1) [
              | inl new ↦ rw (safe, keeps, new, absorb) (advance_sound merged.0)
              | inr (code, old) ↦
                  rw (safe, keeps, old, absorb)
                    (reject_sound cfg b input n (note_tool_failure code l) below _ _ s)
            ]
          ]
        ]
      where
        below : l.state.round_index ≤ cfg.budget_limits.max_rounds
        below = omega arith

    by_status_sound :
        (status : ToolStatus) (action : AgentAction) (t : ToolResult)
        → LandsSound cfg b input n (by_status b cfg input status action t l)
    unfolding by_status note_tool_failure
    by_status_sound ToolStatus.unavailable action t =
        reject_sound cfg b input n
          (record l {
            state = record (l.state) {
              capabilities = map (switch_off action) l.state.capabilities;
              tool_failures = l.state.tool_failures ++ FailureCode.capability_unavailable ∷ [];
            };
          })
          (omega arith) _ _ s
    by_status_sound ToolStatus.failure action t =
        reject_sound cfg b input n (note_tool_failure FailureCode.tool_failure l) (omega arith) _ _
          s
    by_status_sound ToolStatus.success action t = absorb_sound action t

  module _ (l : LoopState E) (capped : l.state.round_index < cfg.budget_limits.max_rounds)
      (s : IsSound cfg n l.state.round_index l.context) where
    record_call_sound :
        (action : AgentAction) (q : ToolRequest) (t : ToolResult)
        → LandsSound cfg b input n (record_call b cfg input action q t l)
    unfolding record_call note_tool_failure
    record_call_sound action q t =
        let l₁ : LoopState E = record l {
          state = record (l.state) {
            request_history = l.state.request_history ++ signature q ∷ [];
            action_history = l.state.action_history ++ action ∷ [];
          };
        } in
        elim (Bool-cases (str_eq t.request_signature (signature q))) [
          | inl echoed ↦ rw (echoed, record_call) (by_status_sound l₁ capped s t.status action t)
          | inr other ↦
              rw (other, record_call)
                (halt_sound cfg b input n (note_tool_failure FailureCode.tool_failure l₁)
                  (omega arith) _ _ s)
        ]

  module _ (l : LoopState E) (capped : l.state.round_index < cfg.budget_limits.max_rounds)
      (s : IsSound cfg n l.state.round_index l.context) where
    execute_sound :
        (before : BudgetState) (est : CallMetrics) (action : AgentAction) (q : ToolRequest)
        → LandsSound cfg b input n (execute b cfg input before est action q l)
    unfolding execute
    execute_sound before est action q =
        let (out, env) = b.tool_execute action q l.state.evidence l.context.env in
        let k = l.state.round_index in
        let c : Context E = record (l.context) { env = env } in
        let l₁ : LoopState E = record l { context = c } in
        let s₁ : IsSound cfg n k c = env-IsSound cfg n k env l.context s in
        elim (Caught-cases (caught "AttributeError" tool_result_is_valid out)) [
          | inl (name, e) ↦
              rw (e, execute)
                (record_call_sound _ capped (emit-IsSound cfg n k _ k _ c (λ p. cc) s₁) action q _)
          | inr (t, e) ↦ elim (Bool-cases (metrics_within_estimate t.metrics est)) [
            | inr over ↦ rw (e, over, execute) (halt_sound cfg b input n l₁ (omega arith) _ _ s₁)
            | inl fits ↦
                let (c₂, settled, s₂) = reconcile-IsSound cfg n k est t.metrics c fits s₁ in
                rw (e, fits, settled, execute)
                  (record_call_sound _ capped (emit-IsSound cfg n k _ k _ c₂ (λ p. cc) s₂) action q
                    t)
          ]
        ]

  -- After a tool's call has been reserved, knowledge retrieval's own counter is free still.
  reserve-tool_rag :
      (est : CallMetrics) (c c₁ : Context E)
      → reserve Kind.tool est c ≡ some c₁
      → counter_is_full Kind.rag c₁.budget ≡ counter_is_full Kind.rag c.budget
  unfolding reserve
  reserve-tool_rag est c c₁ e = elim (Option-cases (consume Kind.tool est c.budget)) [
    | inl p ↦ ground arith
    | inr (x, p) ↦ ground (arith, consume-tool_rag est c.budget x p)
  ]

  reserve_tool-IsSound :
      (k : ℕ) (action : AgentAction) (est : CallMetrics) (c : Context E)
      → (can_consume Kind.tool est c.budget
          && (not (is_rag action) || can_consume Kind.rag no_metrics c.budget))
        ≡ true
      → IsSound cfg n k c
      → (c' : Context E) × (reserve_tool b cfg input action est c ≡ some c') × IsSound cfg n k c'
  unfolding reserve_tool
  reserve_tool-IsSound k action est c can s =
      let (c₁, e, s₁) =
        reserve-IsSound cfg n k Kind.tool est c (λ p. cc) (λ p. cc) (ground arith) s in
      elim (Bool-cases (is_rag action)) [
        | inr other ↦ (c₁, rw (e, other, reserve_tool), s₁)
        | inl rag ↦
            let free = can_consume-free Kind.rag no_metrics c.budget (ground arith) in
            let (c₂, e₂, s₂) =
              reserve-IsSound cfg n k Kind.rag no_metrics c₁ (λ p. cc) (λ p. cc)
                (can_consume-rag c₁.budget s₁.within (reserve-tool_rag est c c₁ e ∙ free)) s₁ in
            (c₂, rw (e, rag, e₂, reserve_tool), s₂)
      ]

  module _ (l : LoopState E) (capped : l.state.round_index < cfg.budget_limits.max_rounds)
      (s : IsSound cfg n l.state.round_index l.context) where
    call_tool_sound :
        (action : AgentAction) (q : ToolRequest)
        → LandsSound cfg b input n (call_tool b cfg input action q l)
    unfolding call_tool
    call_tool_sound action q =
        let before = l.context.budget in
        let k = l.state.round_index in
        let (out, env) = b.tool_estimate action q l.context.env in
        let c : Context E = record (l.context) { env = env } in
        let l₁ : LoopState E = record l { context = c } in
        let s₁ : IsSound cfg n k c = env-IsSound cfg n k env l.context s in
        let allowed = λ (est : CallMetrics).
          can_consume Kind.tool est before
          && (not (is_rag action) || can_consume Kind.rag no_metrics before) in
        elim (Caught-cases (caught "TypeError" (λ _. true) out)) [
          | inl (name, e) ↦ rw (e, call_tool) (halt_sound cfg b input n l₁ (omega arith) _ _ s₁)
          | inr (est, e) ↦ elim (Bool-cases (allowed est)) [
            | inr full ↦ rw (e, full, call_tool) (halt_sound cfg b input n l₁ (omega arith) _ _ s₁)
            | inl can ↦
                let (c₂, taken, s₂) = reserve_tool-IsSound k action est c can s₁ in
                rw (e, can, taken, call_tool)
                  (execute_sound (record l₁ { context = c₂ }) capped s₂ before est action q)
          ]
        ]

    -- With the request and the tool that the checks of a decision ask for.
    pub acquire_sound :
        (d : SupervisorDecision) (q : ToolRequest)
        → d.request ≡ some q
        → contains_action d.action cfg.tools ≡ true
        → LandsSound cfg b input n (acquire b cfg input d l)
    unfolding acquire
    acquire_sound d q asked registered =
        rw (asked, registered, acquire) (call_tool_sound d.action q)
