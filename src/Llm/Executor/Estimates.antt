-- ===== src/Llm/Executor/Estimates.antt =====
-- The estimate of a call against what its attempts cost.
use mathlib.Core.Path.{subst}
use flow_security_agent.Contracts.Evidence.{CallMetrics, metrics_within_estimate, no_metrics}
use flow_security_agent.Llm.Contracts.{
  BackendAttemptRecord, LlmTransportRequest, add_metrics, holds_secret, scale_metrics,
}
use flow_security_agent.Llm.Executor.{
  Adapter, Call, Estimated, call, estimate_call, safe_transport_estimate,
}
use flow_security_agent.Llm.Executor.Accounts.{IsWithin}
use flow_security_agent.Llm.Executor.Attempts.{total_from}
use flow_security_agent.Llm.Executor.Calls.{
  Accounts, call-Accounts, leaks, unestimated, answers, escaped,
}
use flow_security_agent.Prelude.Floats.{exact}
use flow_security_agent.Prelude.{
  ℕ, suc, ◌+◌, ◌*◌, ◌≤◌, ◌≡◌, sym, ◌∙◌, true, List, [], ◌∷◌, ◌++◌, some, inl, inr, arith, length,
  length-snoc, All, Bool-cases,
}

mul_mono : (a b c : ℕ) → a ≤ b → c * a ≤ c * b
mul_mono a b c h = grind arith

-- The sum of attempts that are each within the estimate, from a sum on.
total-IsWithin :
    (estimate m : CallMetrics) (k : ℕ) (rs : List BackendAttemptRecord)
    → IsWithin (scale_metrics estimate k) m
    → All (λ (q : BackendAttemptRecord). IsWithin estimate q.metrics) rs
    → IsWithin (scale_metrics estimate (k + length rs)) (total_from m rs)
unfolding scale_metrics add_metrics
total-IsWithin estimate m k [] h w =
    subst (λ n. IsWithin (scale_metrics estimate n) m) (omega arith) h
total-IsWithin estimate m k (q ∷ rs) h w =
    subst (λ n. IsWithin (scale_metrics estimate n) (total_from m (q ∷ rs))) (omega arith)
      (total-IsWithin estimate (add_metrics m q.metrics) (suc k) rs
        (grind (arith, h.0, w.0.0), grind (arith, h.1, w.0.1), grind (arith, h.2, w.0.2)) w.1)

scale_mono :
    (estimate m : CallMetrics) (j k : ℕ)
    → j ≤ k
    → IsWithin (scale_metrics estimate j) m
    → IsWithin (scale_metrics estimate k) m
unfolding scale_metrics
scale_mono estimate m j k h w = (
  omega (arith, w.0, mul_mono j k estimate.abstract_tokens h),
  omega (arith, w.1, mul_mono j k estimate.abstract_cost h),
  omega (arith, w.2, mul_mono j k estimate.abstract_latency h),
)

nothing-IsWithin : (estimate : CallMetrics) → IsWithin (scale_metrics estimate 0) no_metrics
unfolding scale_metrics
nothing-IsWithin estimate = (omega arith, omega arith, omega arith)

metrics_within_estimate-IsWithin :
    (m e : CallMetrics) → IsWithin e m → metrics_within_estimate m e ≡ true
unfolding metrics_within_estimate
metrics_within_estimate-IsWithin m e h = ground arith

-- The estimate is asked for in the state `asked`, and the call made in the state `s`, in which the
-- transport gives the same estimate.
module _ {A S : Type 0} (a : Adapter A S) (request : LlmTransportRequest) (asked s : S)
    (steady : (safe_transport_estimate a request s).0
      ≡ (safe_transport_estimate a request asked).0) where
  -- What `estimate` says, from what the transport says.
  estimate_call-estimates :
      (e m : CallMetrics)
      → (estimate_call a request asked).0 ≡ Estimated.estimates e
      → (safe_transport_estimate a request asked).0 ≡ Estimated.estimates m
      → e ≡ scale_metrics m a.config.retry_policy.max_attempts
  unfolding estimate_call
  estimate_call-estimates e m h k =
      elim (Bool-cases (holds_secret a.secret_values (a.serialize request))) [
        | inl leak ↦ cc (rw (leak, estimate_call) at h)
        | inr clean ↦ cc (rw k at (rw (clean, estimate_call) at h))
      ]

  attempts-within :
      (e : CallMetrics) (rs : List BackendAttemptRecord) (c : Call A S)
      → (estimate_call a request asked).0 ≡ Estimated.estimates e
      → Accounts a request s c
      → c.attempts ≡ some rs
      → metrics_within_estimate (total_from no_metrics rs) e ≡ true
  attempts-within e rs c h (leaks leak u) k = cc (u.1)
  attempts-within e rs c h (unestimated kind said u) k = cc (u.1)
  attempts-within e rs c h (answers m said answer) k =
      let all_within =
        total-IsWithin m no_metrics 0 (answer.front ++ answer.last ∷ []) (nothing-IsWithin m)
          answer.within in
      let n : 0 + length (answer.front ++ answer.last ∷ []) ≤ a.config.retry_policy.max_attempts =
        omega (arith, answer.at_most, length-snoc answer.front answer.last) in
      let same_attempts : answer.front ++ answer.last ∷ [] ≡ rs = cc (answer.recorded, k) in
      subst (λ x. metrics_within_estimate (total_from no_metrics rs) x ≡ true)
        (sym (estimate_call-estimates e m h (sym steady ∙ said)))
        (metrics_within_estimate-IsWithin _ _ (
          subst
            (λ xs.
              IsWithin (scale_metrics m a.config.retry_policy.max_attempts)
                (total_from no_metrics xs))
            same_attempts (scale_mono m _ _ a.config.retry_policy.max_attempts n all_within)))
  attempts-within e rs c h (escaped m said escape) k = cc (escape.unrecorded)

  -- Where no sum or product of costs and latencies is rounded, the metrics of a call's attempts
  -- together pass the check that the runtime makes of an answer against the estimate of the call, if
  -- the transport still estimates what it did then.
  pub call-within_estimate :
      (left : ℕ) (e : CallMetrics) (rs : List BackendAttemptRecord)
      → suc left ≡ a.config.retry_policy.max_attempts
      → (estimate_call a request asked).0 ≡ Estimated.estimates e
      → (call a request s).attempts ≡ some rs
      → metrics_within_estimate (total_from no_metrics rs) e ≡ true
  call-within_estimate left e rs most h k =
      attempts-within e rs (call a request s) h (call-Accounts a request s left most) k
