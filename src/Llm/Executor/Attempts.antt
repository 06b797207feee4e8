-- ===== src/Llm/Executor/Attempts.antt =====
-- The ways in which a call can end, by the attempts that it makes.
use flow_security_agent.Contracts.Evidence.{CallMetrics, no_metrics}
use flow_security_agent.Llm.Contracts.{
  BackendAttemptRecord, LlmFailureKind, LlmTransportRequest, ParseAudit, RawLlmResponse,
  add_metrics, is_retryable, to_metrics,
}
use flow_security_agent.Llm.Executor.{
  Adapter, Call, CallEnd, Outcome, Parsed, Sent, identity_is_valid, judge, metrics_within,
  read_parsed,
}
use flow_security_agent.Llm.Executor.Accounts.{IsWithin, Trace, judged, sends}
use flow_security_agent.Prelude.Floats.{Rounding}
use flow_security_agent.Prelude.{
  ℕ, suc, ◌≤◌, ◌≡◌, refl, Bool, true, false, not, List, [], ◌∷◌, ◌++◌, none, some, ◌⊎◌, inl, inr,
  length, All, Option-cases, if_both,
}

pub Outcome-cases :
    {A : Type 0} (o : Outcome A)
    → (o ≡ Outcome.escapes)
      ⊎ ((x : A) × (m : CallMetrics) × (audit : ParseAudit) × (o ≡ Outcome.succeeds x m audit))
      ⊎ ((kind : LlmFailureKind) × (retry : Bool) × (m : CallMetrics) × (audit : ParseAudit) × (o
            ≡ Outcome.fails kind retry m audit))
Outcome-cases (Outcome.succeeds x m audit) = inr (inl (x, m, audit, refl))
Outcome-cases (Outcome.fails kind retry m audit) = inr (inr (kind, retry, m, audit, refl))
Outcome-cases Outcome.escapes = inl refl

-- The metrics of attempts, added up from the first.
abbrev pub total_from : ⦃r : Rounding⦄ → CallMetrics → List BackendAttemptRecord → CallMetrics
total_from m [] = m
total_from m (q ∷ rs) = total_from (add_metrics m q.metrics) rs

pub total_from-snoc :
    ⦃r : Rounding⦄ (m : CallMetrics) (rs : List BackendAttemptRecord) (q : BackendAttemptRecord)
    → total_from m (rs ++ q ∷ []) ≡ add_metrics (total_from m rs) q.metrics
total_from-snoc m [] q = refl
total_from-snoc m (p ∷ rs) q = total_from-snoc (add_metrics m p.metrics) rs q

module _ {A S : Type 0} (a : Adapter A S) (estimate : CallMetrics) where
  Escapes : Outcome A → Type 0
  Escapes o = o ≡ Outcome.escapes

  read_parsed-ne-Escapes :
      (response : RawLlmResponse) (p : Parsed A) → ¬ Escapes (read_parsed a estimate response p)
  unfolding read_parsed Escapes
  read_parsed-ne-Escapes response (Parsed.refuses kind audit) h = cc
  read_parsed-ne-Escapes response Parsed.raises h = cc
  read_parsed-ne-Escapes response (Parsed.parses result audit) h =
      elim (Option-cases (a.validate result)) [
        | inl refused ↦ cc (rw (refused, read_parsed) at h)
        | inr (result', kept) ↦ cc (rw (kept, read_parsed) at h)
      ]

  -- Only an object of another class makes an exception escape.
  pub judge-escapes : (sent : Sent) → judge a estimate sent ≡ Outcome.escapes → sent ≡ Sent.foreign
  unfolding judge Escapes
  judge-escapes (Sent.fails kind retry) h = cc
  judge-escapes Sent.raises h = cc
  judge-escapes Sent.nothing h = cc
  judge-escapes Sent.foreign h = refl
  judge-escapes (Sent.invalid response) h = cc
  judge-escapes (Sent.responds response) h =
      if_both (λ o. Escapes o → Sent.responds response ≡ Sent.foreign)
        (not (identity_is_valid a.config response)) (λ k. cc)
        (if_both (λ o. Escapes o → Sent.responds response ≡ Sent.foreign)
          (not (metrics_within (to_metrics response.usage) estimate)) (λ k. cc)
          (λ k. absurd (read_parsed-ne-Escapes response (a.parse response) k)))
        h

module _ {A S : Type 0} (a : Adapter A S) ⦃r : Rounding⦄ (estimate : CallMetrics)
    (request : LlmTransportRequest) (start : S) where
  abbrev pub max_attempts : ℕ
  max_attempts = a.config.retry_policy.max_attempts

  -- The attempt failed in a way that is tried again.
  abbrev pub IsRetried : BackendAttemptRecord → Type 0
  IsRetried q =
      (kind : LlmFailureKind) × (q.failure ≡ some kind)
      × (is_retryable a.config.retry_policy kind ≡ true)

  abbrev pub after : ℕ → S
  after n = sends a estimate request n start

  -- Why there is no further attempt: there have been as many as are allowed, failures of the kind are
  -- not tried again, or this one forbids it.
  abbrev pub Stops : LlmFailureKind → ℕ → Type 0
  Stops kind n =
      (suc n ≡ max_attempts)
      ⊎ (is_retryable a.config.retry_policy kind ≡ false)
      ⊎ ((m : CallMetrics) × (audit : ParseAudit) × (judged a estimate request (after n)
            ≡ Outcome.fails kind false m audit))

  -- `n` is the number of attempts before the last.
  abbrev pub EndsBy : List BackendAttemptRecord → ℕ → BackendAttemptRecord → CallEnd A → Type 0
  EndsBy rs n last (CallEnd.returns x) =
      (last.failure ≡ none)
      × ((y : A) × (m : CallMetrics) × (audit : ParseAudit) × (judged a estimate request (after n)
            ≡ Outcome.succeeds y m audit)
          × (x ≡ a.set_metrics (total_from no_metrics rs) y))
  EndsBy rs n last (CallEnd.backend_error kind k) =
      (last.failure ≡ some kind) × (k ≡ length rs) × Stops kind n
  EndsBy rs n last (CallEnd.transport_error kind) = ⊥
  EndsBy rs n last CallEnd.escapes = ⊥

  -- A call that ends with a result or a failure, by the attempts `front` and `last`.
  pub record Answers (c : Call A S) : Type 0 where
    pub front : List BackendAttemptRecord
    pub last : BackendAttemptRecord
    pub recorded : c.attempts ≡ some (front ++ last ∷ [])
    pub at_most : suc (length front) ≤ max_attempts
    pub traced : Trace a estimate request 1 start (front ++ last ∷ [])
    pub retried : All IsRetried front
    pub within :
        All (λ (q : BackendAttemptRecord). IsWithin estimate q.metrics) (front ++ last ∷ [])
    pub sent : c.state ≡ after (suc (length front))
    pub ends : EndsBy (front ++ last ∷ []) (length front) last c.end

  -- A call out of which an exception escapes: the transport returned an object of another class.
  pub record Escaped (c : Call A S) : Type 0 where
    pub earlier : List BackendAttemptRecord
    pub at_most : suc (length earlier) ≤ max_attempts
    pub traced : Trace a estimate request 1 start earlier
    pub retried : All IsRetried earlier
    pub cause : (a.transport.send request (after (length earlier))).0 ≡ Sent.foreign
    pub unrecorded : c.attempts ≡ none
    pub sent : c.state ≡ after (suc (length earlier))
    pub ends : c.end ≡ CallEnd.escapes
