-- ===== src/Llm/Executor/Retries.antt =====
-- When a call succeeds.
use flow_security_agent.Contracts.Evidence.{CallMetrics}
use flow_security_agent.Llm.Contracts.{
  BackendAttemptRecord, LlmFailureKind, LlmTransportRequest, ParseAudit, holds_secret, is_retryable,
}
use flow_security_agent.Llm.Executor.{
  Adapter, Call, CallEnd, Estimated, Outcome, call, judge, record_of, safe_transport_estimate,
}
use flow_security_agent.Llm.Executor.Accounts.{Records, Trace, judged, sends}
use flow_security_agent.Llm.Executor.Attempts.{
  Answers, EndsBy, Escaped, IsRetried, after, total_from,
}
use flow_security_agent.Llm.Executor.Calls.{
  Accounts, answers, call-Accounts, escaped, leaks, ready, unestimated,
}
use flow_security_agent.Contracts.Evidence.{no_metrics}
use flow_security_agent.Prelude.Floats.{Rounding}
use mathlib.Core.Path.{subst}
use flow_security_agent.Prelude.{
  ℕ, zero, suc, ◌+◌, ◌≤◌, ◌<◌, ◌≡◌, refl, ap, true, false, List, [], ◌∷◌, ◌++◌, ◌⊎◌, inl, inr,
  arith, length, All,
}

module _ {A S : Type 0} (a : Adapter A S) (estimate : CallMetrics)
    (request : LlmTransportRequest) where
  Trace-last :
      (k : ℕ) (s : S) (front : List BackendAttemptRecord) (last : BackendAttemptRecord)
      → Trace a estimate request k s (front ++ last ∷ [])
      → Records a estimate request
          (k + length front)
          (judged a estimate request (sends a estimate request (length front) s))
          last
  unfolding sends
  Trace-last k s [] last t =
      subst (λ n. Records a estimate request n (judged a estimate request s) last) (omega arith) t.0
  Trace-last k s (q ∷ front) last t =
      let s' = (a.transport.send request s).1 in
      subst
        (λ n.
          Records a estimate request n
            (judged a estimate request (sends a estimate request (length front) s')) last)
        (omega arith) (Trace-last (suc k) s' front last t.1)

  Trace-front :
      (k : ℕ) (s : S) (front back : List BackendAttemptRecord)
      → Trace a estimate request k s (front ++ back)
      → Trace a estimate request k s front
  Trace-front k s [] back t = tt
  Trace-front k s (q ∷ front) back t =
      (t.0, Trace-front (suc k) (a.transport.send request s).1 front back t.1)

  -- The record in a place of a list of attempts.
  Trace-at :
      (P : BackendAttemptRecord → Type 0) (n k : ℕ) (s : S) (rs : List BackendAttemptRecord)
      → n < length rs
      → All P rs
      → Trace a estimate request k s rs
      → (q : BackendAttemptRecord) × P q
        × Records a estimate request
            (k + n)
            (judged a estimate request (sends a estimate request n s))
            q
  unfolding sends
  Trace-at P n k s [] h p t = elim h [ ]
  Trace-at P zero k s (q ∷ rs) h p t = (
    q,
    p.0,
    subst (λ j. Records a estimate request j (judged a estimate request s) q) (omega arith) t.0,
  )
  Trace-at P (suc n) k s (q ∷ rs) h p t =
      let s' = (a.transport.send request s).1 in
      let (found, good, r) = Trace-at P n (suc k) s' rs (omega arith) p.1 t.1 in
      (
        found,
        good,
        subst
            (λ j.
              Records a estimate request j
                (judged a estimate request (sends a estimate request n s')) found)
            (omega arith) r,
      )

-- Numbers are equal or one is less.
compare_cases : (m n : ℕ) → (m < n) ⊎ (m ≡ n) ⊎ (n < m)
compare_cases zero zero = inr (inl refl)
compare_cases zero (suc n) = inl (omega arith)
compare_cases (suc m) zero = inr (inr (omega arith))
compare_cases (suc m) (suc n) = elim (compare_cases m n) [
  | inl lt ↦ inl (omega (arith, lt))
  | inr (inl e) ↦ inr (inl (ap suc e))
  | inr (inr gt) ↦ inr (inr (omega (arith, gt)))
]

module _ {A S : Type 0} (a : Adapter A S) ⦃r : Rounding⦄ (estimate : CallMetrics)
    (request : LlmTransportRequest) (start : S) where
  abbrev state_after : ℕ → S
  state_after = after a estimate request start

  -- The attempt after `n` others fails, and in a way that is tried again.
  abbrev pub FailsSoftly : ℕ → Type 0
  FailsSoftly n =
      (kind : LlmFailureKind) × (m : CallMetrics) × (audit : ParseAudit) × (judged a estimate
          request (state_after n)
        ≡ Outcome.fails kind true m audit)
      × (is_retryable a.config.retry_policy kind ≡ true)

  abbrev pub Succeeds : ℕ → A → Type 0
  Succeeds n x =
      (m : CallMetrics) × (audit : ParseAudit) × (judged a estimate request (state_after n)
        ≡ Outcome.succeeds x m audit)

  abbrev Ends : Call A S → A → Type 0
  Ends c x = (t : CallMetrics) × (c.end ≡ CallEnd.returns (a.set_metrics t x))

  module _ (n : ℕ) (x : A) (few : suc n ≤ a.config.retry_policy.max_attempts)
      (before : (i : ℕ) → i < n → FailsSoftly i) (success : Succeeds n x) (c : Call A S) where
    -- A list of attempts that are tried again does not reach the one that succeeds.
    success-not_pending :
        (rs : List BackendAttemptRecord)
        → n < length rs
        → All (IsRetried a estimate request start) rs
        → Trace a estimate request 1 start rs
        → ⊥
    unfolding record_of
    success-not_pending rs long all_tried traced =
        let (q, tried, h) =
          Trace-at a estimate request (IsRetried a estimate request start) n 1 start rs long
            all_tried traced in
        let (m, audit, e) = success in
        let recorded = subst (λ o. Records a estimate request (1 + n) o q) e h in
        cc (tried.1, ap (λ (p : BackendAttemptRecord). p.failure) recorded)

    failure-not_last :
        (answer : Answers a estimate request start c)
        → length answer.front < n
        → (e : CallEnd A)
        → EndsBy a estimate request start
            (answer.front ++ answer.last ∷ [])
            (length answer.front)
            answer.last
            e
        → ⊥
    unfolding record_of
    failure-not_last answer short (CallEnd.returns y) ends =
        let (k, m, audit, e, tried) = before (length answer.front) short in cc (e, ends.1.3)
    failure-not_last answer short (CallEnd.backend_error kind k) ends =
        let (k, m, audit, e, tried) = before (length answer.front) short in
        elim (ends.2) [
          | inl full ↦ absurd (omega (arith, full, few, short))
          | inr (inl final) ↦
              let recorded =
                subst (λ o. Records a estimate request (1 + length answer.front) o answer.last) e
                  (Trace-last a estimate request 1 start answer.front answer.last answer.traced) in
              cc (ends.0, ap (λ (p : BackendAttemptRecord). p.failure) recorded, final, tried)
          | inr (inr (m', audit', e')) ↦ cc (e, e')
        ]
    failure-not_last answer short (CallEnd.transport_error kind) ends = ends
    failure-not_last answer short CallEnd.escapes ends = ends

    success-last :
        (answer : Answers a estimate request start c)
        → length answer.front ≡ n
        → (e : CallEnd A) → c.end ≡ e
        → EndsBy a estimate request start
            (answer.front ++ answer.last ∷ [])
            (length answer.front)
            answer.last
            e
        → Ends c x
    unfolding record_of
    success-last answer same (CallEnd.returns y) h ends =
        let (m, audit, e) = success in
        let (y', m', audit', e', made) = ends.1 in
        let e'' =
          subst (λ j. judged a estimate request (state_after j) ≡ Outcome.succeeds y' m' audit')
            same e' in
        (total_from no_metrics (answer.front ++ answer.last ∷ []), cc (h, made, e, e''))
    success-last answer same (CallEnd.backend_error kind k) h ends =
        let (m, audit, e) = success in
        let recorded =
          Trace-last a estimate request 1 start answer.front answer.last answer.traced in
        let recorded' =
          subst
            (λ j.
              Records a estimate request (1 + length answer.front)
                (judged a estimate request (state_after j)) answer.last)
            same recorded in
        let recorded'' =
          subst (λ o. Records a estimate request (1 + length answer.front) o answer.last) e
            recorded' in
        cc (ends.0, ap (λ (p : BackendAttemptRecord). p.failure) recorded'')
    success-last answer same (CallEnd.transport_error kind) h ends = absurd ends
    success-last answer same CallEnd.escapes h ends = absurd ends

    Answers-Ends : Answers a estimate request start c → Ends c x
    Answers-Ends answer = elim (compare_cases (length answer.front) n) [
      | inl short ↦ absurd (failure-not_last answer short c.end answer.ends)
      | inr (inl same) ↦ success-last answer same c.end refl answer.ends
      | inr (inr long) ↦ absurd (
          success-not_pending answer.front long answer.retried
            (Trace-front a estimate request 1 start answer.front (answer.last ∷ []) answer.traced))
    ]

    not-Escaped : Escaped a estimate request start c → ⊥
    unfolding judge
    not-Escaped escape =
        let escaped_there : judged a estimate request (state_after (length escape.earlier))
            ≡ Outcome.escapes =
          rw escape.cause refl in
        elim (compare_cases (length escape.earlier) n) [
          | inl short ↦
              let (k, m, audit, e, tried) = before (length escape.earlier) short in
              cc (escaped_there, e)
          | inr (inl same) ↦
              let (m, audit, e) = success in
              let there =
                subst (λ j. judged a estimate request (state_after j) ≡ Outcome.escapes) same
                  escaped_there in
              cc (there, e)
          | inr (inr long) ↦ success-not_pending escape.earlier long escape.retried escape.traced
        ]

module _ {A S : Type 0} (a : Adapter A S) ⦃r : Rounding⦄ (request : LlmTransportRequest)
    (s : S) where
  -- A call returns the result of the first attempt that yields one, if the request holds no secret,
  -- the transport gives an estimate, no more attempts come before than the policy allows, and each of
  -- these fails in a way that is tried again.
  pub call-returns :
      (left : ℕ) (m : CallMetrics) (n : ℕ) (x : A)
      → suc left ≡ a.config.retry_policy.max_attempts
      → holds_secret a.secret_values (a.serialize request) ≡ false
      → (safe_transport_estimate a request s).0 ≡ Estimated.estimates m
      → suc n ≤ a.config.retry_policy.max_attempts
      → ((i : ℕ) → i < n → FailsSoftly a m request (ready a request s) i)
      → Succeeds a m request (ready a request s) n x
      → (t : CallMetrics) × ((call a request s).end ≡ CallEnd.returns (a.set_metrics t x))
  call-returns left m n x most clean said few before success =
      go (call a request s) (call-Accounts a request s left most)
    where
      go :
          (c : Call A S)
          → Accounts a request s c
          → (t : CallMetrics) × (c.end ≡ CallEnd.returns (a.set_metrics t x))
      go c (leaks leak u) = cc (leak, clean)
      go c (unestimated kind refused u) = cc (refused, said)
      go c (answers m' said' answer) =
          let same : m' ≡ m = cc (said, said') in
          Answers-Ends a m request (ready a request s) n x few before success c
            (subst (λ e. Answers a e request (ready a request s) c) same answer)
      go c (escaped m' said' escape) =
          let same : m' ≡ m = cc (said, said') in
          absurd (
            not-Escaped a m request (ready a request s) n x few before success c
              (subst (λ e. Escaped a e request (ready a request s) c) same escape))
