-- ===== src/Orchestrator/Trust/Acquire.antt =====
-- The tool's half of an iteration over trusted states.
use flow_security_agent.Budget.{BudgetState, Kind, can_consume}
use flow_security_agent.Contracts.Enums.{AgentAction, FailureCode, ToolStatus, is_evidence_action}
use flow_security_agent.Contracts.Evidence.{
  CallMetrics, EvidenceItem, item_is_valid, item_is_valid, metrics_within_estimate, no_metrics,
}
use flow_security_agent.Contracts.Host.{Host}
use flow_security_agent.Contracts.Requests.{
  SupervisorDecision, ToolRequest, ToolResult, failed_result, signature, tool_result_is_valid,
}
use flow_security_agent.Contracts.State.{RuntimeInput}
use flow_security_agent.Orchestrator.Acquire.{
  absorb, acquire, advance, breaks_rag_domain, by_status, call_tool, execute, is_rag,
  note_tool_failure, record_call, reserve_tool,
}
use flow_security_agent.Orchestrator.Backends.{Backends, Config}
use flow_security_agent.Orchestrator.Checks.{contains_action, contains_text}
use flow_security_agent.Orchestrator.Checks.Admissible.{IsEvidenceStep}
use flow_security_agent.Orchestrator.Context.{Context}
use flow_security_agent.Orchestrator.Evaluate.{evaluate}
use flow_security_agent.Orchestrator.Flow.{LoopState, caught, reconcile}
use flow_security_agent.Orchestrator.Merge.{merge_evidence}
use flow_security_agent.Orchestrator.Merge.Laws.{Merges, merge_evidence-Merges}
use flow_security_agent.Orchestrator.Sound.Acquire.{Evaluation-cases}
use flow_security_agent.Orchestrator.Sound.Evaluate.{Caught-cases}
use flow_security_agent.Orchestrator.Trust.{IsTrusted, IsUsable, Keeps}
use flow_security_agent.Orchestrator.Trust.Calls.{
  all-IsClean, caught-eq_got, is_available-switch_off,
}
use flow_security_agent.Orchestrator.Trust.State.{
  IsClean, called-IsTrusted, evaluated-IsTrusted, grown-IsTrusted, marked-IsTrusted,
}
use flow_security_agent.Orchestrator.Trust.Finish.{halt-Keeps, reject-Keeps, safety_stop-Keeps}
use flow_security_agent.Prelude.Floats.{Rounding}
use flow_security_agent.Prelude.{
  suc, true, false, not, ◌&&◌, ◌||◌, ◌≡◌, refl, List, [], ◌∷◌, ◌++◌, Option, none, some, inl, inr,
  any, str_eq, all, All, Bool-cases, Option-cases,
}

module _ ⦃r : Rounding⦄ ⦃h : Host⦄ (cfg : Config) {E : Type 0} (b : Backends E)
    (input : RuntimeInput) where
  module _ (l : LoopState E) (t : IsTrusted cfg input l.state) where
    advance-Keeps :
        (merged new : List EvidenceItem)
        → merged ≡ l.state.evidence ++ new
        → All IsClean new
        → Keeps cfg input (advance b cfg input merged l)
    unfolding advance
    advance-Keeps merged new e clean =
        let budget = l.context.budget in
        let c : Context E = record (l.context) {
          budget = record budget { rounds = suc budget.rounds };
        } in
        let t₁ = grown-IsTrusted cfg input l.state t merged new e clean in
        elim (Evaluation-cases (evaluate b merged (suc l.state.round_index) c)) [
          | inl x ↦ rw (x, advance) tt
          | inr (inl (c₁, x)) ↦ rw (x, advance) (safety_stop-Keeps cfg input b _ t₁)
          | inr (inr (result, unknown, c₁, x)) ↦
              rw (x, advance) (evaluated-IsTrusted cfg input _ t₁ result unknown)
        ]

    marked-Keeps : (code : FailureCode) → IsTrusted cfg input (note_tool_failure code l).state
    unfolding note_tool_failure
    marked-Keeps code = marked-IsTrusted cfg input l.state t _ _ (λ c on. on)

    -- The items of the result have passed the validation with it.
    absorb-Keeps :
        (action : AgentAction) (result : ToolResult)
        → all item_is_valid result.evidence ≡ true
        → Keeps cfg input (absorb b cfg input action result l)
    unfolding absorb
    absorb-Keeps action result valid =
        elim (Bool-cases (any (λ (e : EvidenceItem). not e.model_safe) result.evidence)) [
          | inl unsafe ↦ rw (unsafe, absorb) (halt-Keeps cfg input b _ _ l t)
          | inr safe ↦ elim (Bool-cases (is_rag action && any breaks_rag_domain result.evidence)) [
            | inl breaks ↦ rw (safe, breaks, absorb) (halt-Keeps cfg input b _ _ l t)
            | inr keeps ↦ go safe keeps (merge_evidence l.state.evidence result.evidence).1 refl (
                merge_evidence-Merges IsClean l.state.evidence result.evidence
                  (all-IsClean result.evidence safe valid))
          ]
        ]
      where
        go :
            any (λ (e : EvidenceItem). not e.model_safe) result.evidence ≡ false
            → (is_rag action && any breaks_rag_domain result.evidence) ≡ false
            → (failure : Option FailureCode)
            → (merge_evidence l.state.evidence result.evidence).1 ≡ failure
            → Merges IsClean l.state.evidence result.evidence
                ((merge_evidence l.state.evidence result.evidence).0, failure)
            → Keeps cfg input (absorb b cfg input action result l)
        go safe keeps none e (new, grown, more, clean, distinct, separate, covers) =
            rw (safe, keeps, e, absorb) (advance-Keeps _ new grown clean)
        go safe keeps (some code) e x =
            rw (safe, keeps, e, absorb) (reject-Keeps cfg input b _ _ _ (marked-Keeps code))

    by_status-Keeps :
        (status : ToolStatus) (action : AgentAction) (result : ToolResult)
        → all item_is_valid result.evidence ≡ true
        → Keeps cfg input (by_status b cfg input status action result l)
    unfolding by_status note_tool_failure
    by_status-Keeps ToolStatus.unavailable action result valid = reject-Keeps cfg input b _ _ _ (
        marked-IsTrusted cfg input l.state t _ _
          (λ c. is_available-switch_off action c l.state.capabilities))
    by_status-Keeps ToolStatus.failure action result valid =
        reject-Keeps cfg input b _ _ _ (marked-Keeps FailureCode.tool_failure)
    by_status-Keeps ToolStatus.success action result valid = absorb-Keeps action result valid

  -- A call is recorded that has not been made before, of an action that may be taken.
  module _ (action : AgentAction) (q : ToolRequest) (usable : IsUsable cfg input action)
      (l : LoopState E) (t : IsTrusted cfg input l.state)
      (new : contains_text (signature q) l.state.request_history ≡ false) where
    record_call-Keeps :
        (result : ToolResult)
        → all item_is_valid result.evidence ≡ true
        → Keeps cfg input (record_call b cfg input action q result l)
    unfolding record_call note_tool_failure
    record_call-Keeps result valid =
        let l₁ : LoopState E = record l {
          state = record (l.state) {
            request_history = l.state.request_history ++ signature q ∷ [];
            action_history = l.state.action_history ++ action ∷ [];
          };
        } in
        let t₁ = called-IsTrusted cfg input l.state t (signature q) action new usable in
        elim (Bool-cases (str_eq result.request_signature (signature q))) [
          | inl echoed ↦
              rw (echoed, record_call) (by_status-Keeps l₁ t₁ result.status action result valid)
          | inr other ↦
              rw (other, record_call)
                (halt-Keeps cfg input b _ _ _ (marked-Keeps l₁ t₁ FailureCode.tool_failure))
        ]

  module _ (action : AgentAction) (q : ToolRequest) (usable : IsUsable cfg input action)
      (l : LoopState E) (t : IsTrusted cfg input l.state)
      (new : contains_text (signature q) l.state.request_history ≡ false) where
    execute-Keeps :
        (before : BudgetState) (est : CallMetrics)
        → Keeps cfg input (execute b cfg input before est action q l)
    unfolding execute failed_result tool_result_is_valid
    execute-Keeps before est =
        let (out, env) = b.tool_execute action q l.state.evidence l.context.env in
        let c : Context E = record (l.context) { env = env } in
        elim (Caught-cases (caught "AttributeError" tool_result_is_valid out)) [
          | inl (name, e) ↦ rw (e, execute) (record_call-Keeps action q usable _ t new _ refl)
          | inr (result, e) ↦
              let valid = caught-eq_got "AttributeError" tool_result_is_valid out result e in
              elim (Bool-cases (metrics_within_estimate result.metrics est)) [
                | inr over ↦ rw (e, over, execute) (halt-Keeps cfg input b _ _ _ t)
                | inl fits ↦ elim (Option-cases (reconcile est result.metrics c)) [
                  | inl none_left ↦ rw (e, fits, none_left, execute) tt
                  | inr (c₂, settled) ↦
                      rw (e, fits, settled, execute)
                        (record_call-Keeps action q usable _ t new result valid)
                ]
              ]
        ]

  module _ (action : AgentAction) (q : ToolRequest) (usable : IsUsable cfg input action)
      (l : LoopState E) (t : IsTrusted cfg input l.state)
      (new : contains_text (signature q) l.state.request_history ≡ false) where
    call_tool-Keeps : Keeps cfg input (call_tool b cfg input action q l)
    unfolding call_tool
    call_tool-Keeps =
        let before = l.context.budget in
        let (out, env) = b.tool_estimate action q l.context.env in
        let c : Context E = record (l.context) { env = env } in
        let allowed = λ (est : CallMetrics).
          can_consume Kind.tool est before
          && (not (is_rag action) || can_consume Kind.rag no_metrics before) in
        elim (Caught-cases (caught "TypeError" (λ _. true) out)) [
          | inl (name, e) ↦ rw (e, call_tool) (halt-Keeps cfg input b _ _ _ t)
          | inr (est, e) ↦ elim (Bool-cases (allowed est)) [
            | inr full ↦ rw (e, full, call_tool) (halt-Keeps cfg input b _ _ _ t)
            | inl can ↦ elim (Option-cases (reserve_tool b cfg input action est c)) [
              | inl none_left ↦ rw (e, can, none_left, call_tool) tt
              | inr (c₂, taken) ↦
                  rw (e, can, taken, call_tool)
                    (execute-Keeps action q usable (record l { context = c₂ }) t new before est)
            ]
          ]
        ]

  -- A decision for evidence that has passed the checks.
  pub acquire-Keeps :
      (d : SupervisorDecision) (l : LoopState E)
      → IsTrusted cfg input l.state
      → is_evidence_action d.action ≡ true
      → contains_action d.action cfg.allowed_actions ≡ true
      → IsEvidenceStep cfg d l.state
      → Keeps cfg input (acquire b cfg input d l)
  unfolding acquire
  acquire-Keeps d l t evidence allowed step =
      rw (step.asked, step.registered, acquire)
        (call_tool-Keeps d.action step.request
          (
            evidence,
            allowed,
            step.registered,
            (step.capability, step.capability_of, t.offered step.capability step.available),
          )
          l t step.fresh)
