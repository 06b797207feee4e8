-- ===== src/Llm/Backends/Answers.antt =====
-- The answers of the adapters against the checks that the runtime makes of an answer.
use mathlib.Core.Path.{subst}
use flow_security_agent.Contracts.Evidence.{
  CallMetrics, CapabilityStatus, EvidenceItem, TrafficExpertResult, item_is_valid,
  metrics_within_estimate, no_metrics, result_is_valid, status_is_valid, unknown_is_valid,
}
use flow_security_agent.Contracts.Requests.{SupervisorDecision, decision_is_valid}
use flow_security_agent.Contracts.State.{SupervisorView}
use flow_security_agent.Llm.Backends.{
  BackendState, LlmBackend, Prepared, executor, next_audit, expert_estimate, expert_evaluate,
  expert_executor, expert_request, output_of, prepared, refused, run_call, run_estimate,
  set_decision_metrics, set_result_metrics, supervisor_decide, supervisor_estimate,
  supervisor_executor, supervisor_request,
}
use flow_security_agent.Llm.Contracts.{BackendAttemptRecord, LlmTransportRequest}
use flow_security_agent.Llm.Executor.{
  Adapter, Call, CallEnd, Estimated, call, estimate_call, safe_transport_estimate,
}
use flow_security_agent.Llm.Executor.Attempts.{EndsBy, total_from}
use flow_security_agent.Llm.Executor.Calls.{
  Accounts, Estimated-cases, answers, call-Accounts, escaped, leaks, unestimated, ready,
}
use flow_security_agent.Llm.Executor.Estimates.{call-within_estimate}
use flow_security_agent.Orchestrator.Backends.{returns}
use flow_security_agent.Prelude.Floats.{exact}
use flow_security_agent.Prelude.{
  String, false, not, ◌||◌, ◌⊎◌, any, all, arith, if_cases, All, All-of_all-true, ℕ, suc, ◌≡◌, refl,
  sym, ap, ◌∙◌, Bool, true, List, [], ◌∷◌, ◌++◌, Option, some, inl, inr, Bool-cases,
}

-- The answer passes the runtime's checks, and its metrics are the sum of those in the audit.
abbrev pub IsAnswer :
    {A : Type 0}
    → (A → Bool)
    → (A → CallMetrics)
    → CallMetrics
    → Option (List BackendAttemptRecord)
    → A
    → Type 0
IsAnswer is_valid metrics_of e audit x =
    (is_valid x ≡ true)
    × (metrics_within_estimate (metrics_of x) e ≡ true)
    × ((rs : List BackendAttemptRecord) × (audit ≡ some rs)
        × (metrics_of x ≡ total_from no_metrics rs))

module _ {A S : Type 0} (a : Adapter A S) where
  -- A result that a call returns carries the sum of the recorded attempts.
  returned-total :
      (request : LlmTransportRequest) (s : S) (c : Call A S) (x : A)
      → Accounts a request s c
      → c.end ≡ CallEnd.returns x
      → (rs : List BackendAttemptRecord) × (c.attempts ≡ some rs)
        × ((y : A) × (x ≡ a.set_metrics (total_from no_metrics rs) y))
  returned-total request s c x (leaks leak u) h = cc (u.0, h)
  returned-total request s c x (unestimated kind e u) h = cc (u.0, h)
  returned-total request s c x (escaped m e escape) h = cc (escape.ends, h)
  returned-total request s c x (answers m e answer) h =
      let rs = answer.front ++ answer.last ∷ [] in
      let ends = subst (EndsBy a m request (ready a request s) rs _ answer.last) h answer.ends in
      let (y, m', audit, judged, made) = ends.1 in (rs, answer.recorded, (y, made))

  module _ (is_valid : A → Bool) (metrics_of : A → CallMetrics)
      (metrics_of-set : (m : CallMetrics) (x : A) → metrics_of (a.set_metrics m x) ≡ m) where
    output_of-returns :
        (end : CallEnd A) (x : A)
        → output_of is_valid end ≡ returns x
        → (end ≡ CallEnd.returns x) × (is_valid x ≡ true)
    unfolding output_of
    output_of-returns (CallEnd.returns y) x h = elim (Bool-cases (is_valid y)) [
      | inl good ↦
          (let e : y ≡ x = cc (rw good at h) in
            (ap CallEnd.returns e, subst (λ z. is_valid z ≡ true) e good))
      | inr bad ↦ cc (rw bad at h)
    ]
    output_of-returns (CallEnd.backend_error kind n) x h = cc
    output_of-returns (CallEnd.transport_error kind) x h = cc
    output_of-returns CallEnd.escapes x h = cc

    run_estimate-returns :
        (request : LlmTransportRequest) (s : S) (e : CallMetrics)
        → (run_estimate a (prepared request) s).0 ≡ returns e
        → (estimate_call a request s).0 ≡ Estimated.estimates e
    unfolding run_estimate
    run_estimate-returns request s e h = elim (Estimated-cases (estimate_call a request s).0) [
      | inl (kind, k) ↦ cc (rw (k, run_estimate) at h)
      | inr (inl k) ↦ cc (rw (k, run_estimate) at h)
      | inr (inr (m, k)) ↦
          (let same : m ≡ e = cc (rw (k, run_estimate) at h) in k ∙ ap Estimated.estimates same)
    ]

    run_call-IsAnswer :
        (left : ℕ) (p : Prepared) (asked : S) (s : BackendState S) (e : CallMetrics) (x : A)
        → suc left ≡ a.config.retry_policy.max_attempts
        → ((q : LlmTransportRequest)
            → (safe_transport_estimate a q s.transport_state).0
              ≡ (safe_transport_estimate a q asked).0)
        → (run_estimate a p asked).0 ≡ returns e
        → (run_call a is_valid p s).0 ≡ returns x
        → IsAnswer is_valid metrics_of e (run_call a is_valid p s).1.last_call_audit x
    unfolding run_estimate run_call next_audit
    run_call-IsAnswer left (refused name) asked s e x most steady h k = cc
    run_call-IsAnswer left (prepared request) asked s e x most steady h k =
        let c = call a request s.transport_state in
        let (returned, good) = output_of-returns c.end x k in
        let (rs, recorded, (y, made)) =
          returned-total request s.transport_state c x
            (call-Accounts a request s.transport_state left most) returned in
        let total = ap metrics_of made ∙ metrics_of-set (total_from no_metrics rs) y in
        let within =
          call-within_estimate a request asked s.transport_state (steady request) left e rs most
            (run_estimate-returns request asked e h) recorded in
        (
          good,
          subst (λ m. metrics_within_estimate m e ≡ true) (sym total) within,
          (rs, ap (λ o. next_audit o s.last_call_audit) recorded, total),
        )

-- The evidence is valid and safe to show to a model, and what else is shown is valid.
abbrev pub IsSafeView : SupervisorView → Type 0
IsSafeView view =
    All (λ (item : EvidenceItem). (item_is_valid item ≡ true) × (item.model_safe ≡ true))
      view.evidence
    × (result_is_valid view.traffic_expert_result ≡ true)
    × All (λ (x : TrafficExpertResult). result_is_valid x ≡ true) view.traffic_expert_history
    × (unknown_is_valid view.unknown_decision ≡ true)
    × All (λ (c : CapabilityStatus). status_is_valid c ≡ true) view.capabilities

All-valid_safe :
    (items : List EvidenceItem)
    → all item_is_valid items ≡ true
    → any (λ (item : EvidenceItem). not item.model_safe) items ≡ false
    → All (λ (item : EvidenceItem). (item_is_valid item ≡ true) × (item.model_safe ≡ true)) items
All-valid_safe [] h k = tt
All-valid_safe (x ∷ xs) h k =
    ((ground arith, ground arith), All-valid_safe xs (ground arith) (ground arith))

module _ {S : Type 0} where
  metrics-set_result :
      (b : LlmBackend (List EvidenceItem) TrafficExpertResult S) (m : CallMetrics)
      (y : TrafficExpertResult)
      → ((expert_executor b).set_metrics m y).metrics ≡ m
  unfolding executor set_result_metrics
  metrics-set_result b m y = refl

  metrics-set_decision :
      (b : LlmBackend SupervisorView SupervisorDecision S) (m : CallMetrics)
      (y : SupervisorDecision)
      → ((supervisor_executor b).set_metrics m y).metrics ≡ m
  unfolding executor set_decision_metrics
  metrics-set_decision b m y = refl

  -- Where the policy allows an attempt, costs and latencies are not rounded, and the transport estimates
  -- every request as it did when it was asked for the estimate of this call, what the traffic expert's
  -- backend returns is a valid result, and its metrics, the sum of the attempts' in the audit, are
  -- within that estimate.
  pub expert_evaluate-IsAnswer :
      (b : LlmBackend (List EvidenceItem) TrafficExpertResult S) (left : ℕ)
      (evidence : List EvidenceItem) (asked : S) (s : BackendState S) (e : CallMetrics)
      (x : TrafficExpertResult)
      → suc left ≡ b.config.retry_policy.max_attempts
      → ((q : LlmTransportRequest)
          → (safe_transport_estimate (expert_executor b) q s.transport_state).0
            ≡ (safe_transport_estimate (expert_executor b) q asked).0)
      → (expert_estimate b evidence asked).0 ≡ returns e
      → (expert_evaluate b evidence s).0 ≡ returns x
      → IsAnswer result_is_valid
          (λ (y : TrafficExpertResult). y.metrics)
          e
          (expert_evaluate b evidence s).1.last_call_audit
          x
  unfolding expert_estimate expert_evaluate set_result_metrics executor
  expert_evaluate-IsAnswer b left evidence asked s e x most steady h k =
      run_call-IsAnswer (expert_executor b) result_is_valid (λ (y : TrafficExpertResult). y.metrics)
        (metrics-set_result b) left (expert_request b evidence) asked s e x most steady h k

  supervisor_request-IsSafeView :
      (b : LlmBackend SupervisorView SupervisorDecision S) (view : SupervisorView)
      → ((name : String) × (supervisor_request b view ≡ refused name)) ⊎ IsSafeView view
  unfolding supervisor_request
  supervisor_request-IsSafeView b view =
      if_cases (λ (p : Prepared). ((name : String) × (p ≡ refused name)) ⊎ IsSafeView view)
        (not (all item_is_valid view.evidence)
          || not (result_is_valid view.traffic_expert_result)
          || not (all result_is_valid view.traffic_expert_history)
          || not (unknown_is_valid view.unknown_decision)
          || not (all status_is_valid view.capabilities))
        (λ bad. inl ("ValidationError", refl))
        (λ good.
          if_cases (λ (p : Prepared). ((name : String) × (p ≡ refused name)) ⊎ IsSafeView view)
            (any (λ (item : EvidenceItem). not item.model_safe) view.evidence)
            (λ unsafe. inl ("LLMTransportError", refl))
            (λ safe. inr (
              All-valid_safe view.evidence (ground arith) safe,
              ground arith,
              All-of_all-true result_is_valid view.traffic_expert_history (ground arith),
              ground arith,
              All-of_all-true status_is_valid view.capabilities (ground arith),
            )))

  supervisor_decide-IsSafeView :
      (b : LlmBackend SupervisorView SupervisorDecision S) (view : SupervisorView)
      (s : BackendState S) (x : SupervisorDecision)
      → (supervisor_decide b view s).0 ≡ returns x
      → IsSafeView view
  unfolding supervisor_decide run_call
  supervisor_decide-IsSafeView b view s x h = elim (supervisor_request-IsSafeView b view) [
    | inl (name, e) ↦ cc (rw (e, supervisor_decide, run_call) at h)
    | inr safe ↦ safe
  ]

  -- Where the policy allows an attempt, costs and latencies are not rounded, and the transport estimates
  -- every request as it did when it was asked for the estimate of this call, the supervisor's backend
  -- returns a decision on a valid view only, all of whose evidence is safe for a model; the decision is
  -- valid, and its metrics, the sum of the attempts' in the audit, are within that estimate.
  pub supervisor_decide-IsAnswer :
      (b : LlmBackend SupervisorView SupervisorDecision S) (left : ℕ) (view : SupervisorView)
      (asked : S) (s : BackendState S) (e : CallMetrics) (x : SupervisorDecision)
      → suc left ≡ b.config.retry_policy.max_attempts
      → ((q : LlmTransportRequest)
          → (safe_transport_estimate (supervisor_executor b) q s.transport_state).0
            ≡ (safe_transport_estimate (supervisor_executor b) q asked).0)
      → (supervisor_estimate b view asked).0 ≡ returns e
      → (supervisor_decide b view s).0 ≡ returns x
      → IsAnswer decision_is_valid
          (λ (y : SupervisorDecision). y.metrics)
          e
          (supervisor_decide b view s).1.last_call_audit
          x
        × IsSafeView view
  unfolding supervisor_estimate supervisor_decide set_decision_metrics executor
  supervisor_decide-IsAnswer b left view asked s e x most steady h k = (
    run_call-IsAnswer (supervisor_executor b) decision_is_valid
        (λ (y : SupervisorDecision). y.metrics) (metrics-set_decision b) left
        (supervisor_request b view) asked s e x most steady h k,
    supervisor_decide-IsSafeView b view s x k,
  )
