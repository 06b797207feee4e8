-- ===== src/Llm/Executor/Accounts.antt =====
-- What a call of an executor does and keeps account of.
use mathlib.Core.Path.{subst}
use flow_security_agent.Contracts.Evidence.{CallMetrics}
use flow_security_agent.Llm.Contracts.{
  BackendAttemptRecord, LlmTransportRequest, RawLlmResponse, to_metrics,
}
use flow_security_agent.Llm.Executor.{
  Adapter, Outcome, Parsed, Sent, failure_metrics, identity_is_valid, judge, metrics_within,
  read_parsed, is_free, record_of,
}
use flow_security_agent.Prelude.{
  ℕ, zero, suc, ◌+◌, ◌≤◌, ◌≡◌, refl, Bool, true, false, not, List, [], ◌∷◌, ◌++◌, none, some, inl,
  inr, arith, length, Option-cases, if_both, if_cases,
}

abbrev pub IsWithin : CallMetrics → CallMetrics → Type 0
IsWithin estimate m =
    (m.abstract_tokens ≤ estimate.abstract_tokens)
    × (m.abstract_cost ≤ estimate.abstract_cost)
    × (m.abstract_latency ≤ estimate.abstract_latency)

IsWithin-metrics_within :
    (m estimate : CallMetrics) → metrics_within m estimate ≡ true → IsWithin estimate m
unfolding metrics_within
IsWithin-metrics_within m estimate h = ground arith

true_of_not : (b : Bool) → not b ≡ false → b ≡ true
true_of_not b h = ground arith

IsWithin-self : (m : CallMetrics) → IsWithin m m
IsWithin-self m = omega arith

failure_metrics-IsWithin :
    (response : RawLlmResponse) (estimate : CallMetrics)
    → IsWithin estimate (failure_metrics response estimate)
unfolding failure_metrics
failure_metrics-IsWithin response estimate =
    let m = to_metrics response.usage in
    if_both (IsWithin estimate) (is_free m) (IsWithin-self estimate) (
      if_cases (IsWithin estimate) (not (metrics_within m estimate)) (λ _. IsWithin-self estimate)
        (λ h. IsWithin-metrics_within m estimate (true_of_not _ h)))

abbrev pub OutcomeIsWithin : {A : Type 0} → CallMetrics → Outcome A → Type 0
OutcomeIsWithin estimate (Outcome.succeeds x m audit) = IsWithin estimate m
OutcomeIsWithin estimate (Outcome.fails kind retry m audit) = IsWithin estimate m
OutcomeIsWithin estimate Outcome.escapes = Unit

module _ {A S : Type 0} (a : Adapter A S) (estimate : CallMetrics) where
  read_parsed-IsWithin :
      (response : RawLlmResponse) (p : Parsed A)
      → IsWithin estimate (to_metrics response.usage)
      → OutcomeIsWithin estimate (read_parsed a estimate response p)
  unfolding read_parsed
  read_parsed-IsWithin response (Parsed.refuses kind audit) inside =
      failure_metrics-IsWithin response estimate
  read_parsed-IsWithin response Parsed.raises inside = failure_metrics-IsWithin response estimate
  read_parsed-IsWithin response (Parsed.parses result audit) inside =
      elim (Option-cases (a.validate result)) [
        | inl refused ↦ rw (refused, read_parsed) (failure_metrics-IsWithin response estimate)
        | inr (result', kept) ↦ rw (kept, read_parsed) inside
      ]

  pub judge-IsWithin : (sent : Sent) → OutcomeIsWithin estimate (judge a estimate sent)
  unfolding judge
  judge-IsWithin (Sent.fails kind retry) = IsWithin-self estimate
  judge-IsWithin Sent.raises = IsWithin-self estimate
  judge-IsWithin Sent.nothing = IsWithin-self estimate
  judge-IsWithin Sent.foreign = tt
  judge-IsWithin (Sent.invalid response) = failure_metrics-IsWithin response estimate
  judge-IsWithin (Sent.responds response) =
      let m = to_metrics response.usage in
      let failed = failure_metrics-IsWithin response estimate in
      if_both (OutcomeIsWithin estimate) (not (identity_is_valid a.config response)) failed (
        if_cases (OutcomeIsWithin estimate) (not (metrics_within m estimate)) (λ _. failed)
          λ h.
            read_parsed-IsWithin response (a.parse response)
              (IsWithin-metrics_within m estimate (true_of_not _ h)))

  module _ (request : LlmTransportRequest) where
    -- The transport after it has been sent the request a number of times.
    unfoldable pub sends : ℕ → S → S
    sends zero s = s
    sends (suc n) s = sends n (a.transport.send request s).1

    -- How the transport's next answer is judged.
    abbrev pub judged : S → Outcome A
    judged s = judge a estimate (a.transport.send request s).0

    -- The record of an attempt is the one of its outcome.
    abbrev pub Records : ℕ → Outcome A → BackendAttemptRecord → Type 0
    Records k (Outcome.succeeds x m audit) r = (r ≡ record_of a k none m audit)
    Records k (Outcome.fails kind retry m audit) r = (r ≡ record_of a k (some kind) m audit)
    Records k Outcome.escapes r = ⊥

    -- The records of attempts that begin with the `k`-th, one for each sending.
    abbrev pub Trace : ℕ → S → List BackendAttemptRecord → Type 0
    Trace k s [] = Unit
    Trace k s (r ∷ rs) = Records k (judged s) r × Trace (suc k) (a.transport.send request s).1 rs

    pub Trace-snoc :
        (k : ℕ) (s : S) (rs : List BackendAttemptRecord) (r : BackendAttemptRecord)
        → Trace k s rs
        → Records (k + length rs) (judged (sends (length rs) s)) r
        → Trace k s (rs ++ r ∷ [])
    unfolding sends
    Trace-snoc k s [] r t h = (subst (λ n. Records n (judged s) r) (omega arith) h, tt)
    Trace-snoc k s (q ∷ rs) r t h =
        let s' = (a.transport.send request s).1 in
        (
          t.0,
          Trace-snoc (suc k) s' rs r t.1
              (subst (λ n. Records n (judged (sends (length rs) s')) r) (omega arith) h),
        )

    pub sends-suc : (n : ℕ) (s : S) → sends (suc n) s ≡ (a.transport.send request (sends n s)).1
    unfolding sends
    sends-suc zero s = refl
    sends-suc (suc n) s = sends-suc n (a.transport.send request s).1
