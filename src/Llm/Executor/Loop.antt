-- ===== src/Llm/Executor/Loop.antt =====
-- The loop over the attempts of a call.
use flow_security_agent.Llm.Executor.Attempts.{
  Answers, Escaped, IsRetried, Outcome-cases, Stops, after, judge-escapes, max_attempts, total_from,
  total_from-snoc,
}
use mathlib.Core.Path.{subst}
use flow_security_agent.Contracts.Evidence.{CallMetrics, no_metrics}
use flow_security_agent.Llm.Contracts.{
  BackendAttemptRecord, LlmFailureKind, LlmTransportRequest, ParseAudit, is_retryable,
}
use flow_security_agent.Llm.Executor.{Adapter, Call, Outcome, attempts_from, record_of}
use flow_security_agent.Llm.Executor.Accounts.{
  IsWithin, OutcomeIsWithin, Records, Trace, Trace-snoc, judge-IsWithin, judged, sends, sends-suc,
}
use flow_security_agent.Prelude.Floats.{Rounding}
use flow_security_agent.Prelude.{
  ℕ, zero, suc, ◌+◌, ◌<◌, ◌≡◌, refl, sym, ap, Bool, true, false, not, ◌||◌, List, [], ◌∷◌, ◌++◌,
  none, some, ◌⊎◌, inl, inr, arith, leb, leb→le, length, length-snoc, All, All-append, Bool-cases,
}

module _ {A S : Type 0} (a : Adapter A S) ⦃r : Rounding⦄ (estimate : CallMetrics)
    (request : LlmTransportRequest) (start : S) where
  abbrev limit : ℕ
  limit = max_attempts a estimate request start

  abbrev state_after : ℕ → S
  state_after = after a estimate request start

  abbrev Good : Call A S → Type 0
  Good c = Answers a estimate request start c ⊎ Escaped a estimate request start c

  -- The attempts so far, all of which were failures to be tried again.
  record IsPending (done : List BackendAttemptRecord) : Type 0 where
    traced : Trace a estimate request 1 start done
    retried : All (IsRetried a estimate request start) done
    within : All (λ (q : BackendAttemptRecord). IsWithin estimate q.metrics) done

  module _ (done : List BackendAttemptRecord) (p : IsPending done) where
    IsWithin-judged :
        (o : Outcome A)
        → judged a estimate request (state_after (length done)) ≡ o
        → OutcomeIsWithin estimate o
    IsWithin-judged o e =
        subst (OutcomeIsWithin estimate) e
          (judge-IsWithin a estimate (a.transport.send request (state_after (length done))).0)

    Trace-next :
        (o : Outcome A) (q : BackendAttemptRecord)
        → judged a estimate request (state_after (length done)) ≡ o
        → Records a estimate request (suc (length done)) o q
        → Trace a estimate request 1 start (done ++ q ∷ [])
    Trace-next o q e h = Trace-snoc a estimate request 1 start done q p.traced (
        subst (λ x. Records a estimate request (1 + length done) x q) (sym e)
          (subst (λ n. Records a estimate request n o q) (omega arith) h))

  module _ (left : ℕ) (kind : LlmFailureKind) (done : List BackendAttemptRecord)
      (count : length done + suc left ≡ limit) (p : IsPending done) where
    abbrev here : S
    here = state_after (length done)

    abbrev loop : Call A S
    loop =
        attempts_from a estimate request (suc left) (suc (length done)) kind
          (total_from no_metrics done) done here

    abbrev next_state : S
    next_state = (a.transport.send request here).1

    next_state-after : next_state ≡ state_after (suc (length done))
    next_state-after = sym (sends-suc a estimate request (length done) start)

    loop-Escaped :
        judged a estimate request here ≡ Outcome.escapes → Escaped a estimate request start loop
    unfolding attempts_from
    loop-Escaped e =
        rw (e, attempts_from)
          (record {
            earlier = done;
            at_most = omega arith;
            traced = p.traced;
            retried = p.retried;
            cause = judge-escapes a estimate _ e;
            unrecorded = refl;
            sent = next_state-after;
            ends = refl;
          })

    loop-Answers_result :
        (x : A) (m : CallMetrics) (audit : ParseAudit)
        → judged a estimate request here ≡ Outcome.succeeds x m audit
        → Answers a estimate request start loop
    unfolding attempts_from record_of
    loop-Answers_result x m audit e =
        let q = record_of a (suc (length done)) none m audit in
        rw (e, attempts_from)
          (record {
            front = done;
            last = q;
            recorded = refl;
            at_most = omega arith;
            traced = Trace-next done p (Outcome.succeeds x m audit) q e refl;
            retried = p.retried;
            within =
                All-append _ done (q ∷ []) p.within
                  (IsWithin-judged done p (Outcome.succeeds x m audit) e, tt);
            sent = next_state-after;
            ends = (
              refl,
              (
                x,
                m,
                audit,
                e,
                ap (λ t. a.set_metrics t x) (sym (total_from-snoc no_metrics done q)),
              ),
            );
          })

    module _ (k : LlmFailureKind) (retry : Bool) (m : CallMetrics) (audit : ParseAudit)
        (e : judged a estimate request here ≡ Outcome.fails k retry m audit) where
      abbrev failed : BackendAttemptRecord
      failed = record_of a (suc (length done)) (some k) m audit

      traced_next : Trace a estimate request 1 start (done ++ failed ∷ [])
      traced_next = Trace-next done p (Outcome.fails k retry m audit) failed e refl

      IsWithin-next :
          All (λ (q : BackendAttemptRecord). IsWithin estimate q.metrics) (done ++ failed ∷ [])
      unfolding record_of
      IsWithin-next =
          All-append _ done (failed ∷ []) p.within
            (IsWithin-judged done p (Outcome.fails k retry m audit) e, tt)

      abbrev stops : Bool
      stops =
          leb limit (suc (length done)) || not (is_retryable a.config.retry_policy k) || not retry

      stops-Stops : stops ≡ true → Stops a estimate request start k (length done)
      stops-Stops h = elim (Bool-cases (leb limit (suc (length done)))) [
        | inl full ↦ inl (omega (arith, leb→le limit (suc (length done)) full))
        | inr more ↦ elim (Bool-cases (is_retryable a.config.retry_policy k)) [
          | inl tried ↦ inr (
              inr (
                m,
                audit,
                subst (λ b. judged a estimate request here ≡ Outcome.fails k b m audit)
                    (ground arith) e,
              ))
          | inr final ↦ inr (inl final)
        ]
      ]

      loop-Answers_failure : stops ≡ true → Answers a estimate request start loop
      unfolding attempts_from record_of
      loop-Answers_failure h =
          rw (e, attempts_from)
            (rw h (record {
              front = done;
              last = failed;
              recorded = refl;
              at_most = omega arith;
              traced = traced_next;
              retried = p.retried;
              within = IsWithin-next;
              sent = next_state-after;
              ends = (refl, refl, stops-Stops h);
            }))

      IsPending-next : stops ≡ false → IsPending (done ++ failed ∷ [])
      unfolding record_of
      IsPending-next h = record {
        traced = traced_next;
        retried =
            All-append (IsRetried a estimate request start) done (failed ∷ []) p.retried
              ((k, refl, ground arith), tt);
        within = IsWithin-next;
      }

      last_chance : stops ≡ false → 0 < left
      last_chance h = ground (arith, count)

      -- The loop goes on as from the longer list of attempts.
      loop-next :
          stops ≡ false
          → loop
            ≡ attempts_from a estimate request left
                (suc (length (done ++ failed ∷ [])))
                k
                (total_from no_metrics (done ++ failed ∷ []))
                (done ++ failed ∷ [])
                (state_after (length (done ++ failed ∷ [])))
      unfolding attempts_from record_of
      loop-next h =
          rw (e, attempts_from)
            (rw h (
              rw
                (
                  total_from-snoc no_metrics done failed,
                  length-snoc done failed,
                  ← next_state-after,
                )
                refl))

    -- One round, given what comes of the rounds after a failure that is tried again.
    loop-Good :
        ((k : LlmFailureKind) (retry : Bool) (m : CallMetrics) (audit : ParseAudit)
            (e : judged a estimate request here ≡ Outcome.fails k retry m audit)
          → stops k retry m audit e ≡ false
          → Good loop)
        → Good loop
    loop-Good later = elim (Outcome-cases (judged a estimate request here)) [
      | inl e ↦ inr (loop-Escaped e)
      | inr (inl (x, m, audit, e)) ↦ inl (loop-Answers_result x m audit e)
      | inr (inr (k, retry, m, audit, e)) ↦ elim (Bool-cases (stops k retry m audit e)) [
        | inl h ↦ inl (loop-Answers_failure k retry m audit e h)
        | inr h ↦ later k retry m audit e h
      ]
    ]

  attempts_from-Good :
      (left : ℕ) (kind : LlmFailureKind) (done : List BackendAttemptRecord)
      (count : length done + suc left ≡ limit) (p : IsPending done)
      → Good (loop left kind done count p)
  attempts_from-Good zero kind done count p =
      loop-Good zero kind done count p λ k retry m audit e h.
        absurd (omega (arith, last_chance zero kind done count p k retry m audit e h))
  attempts_from-Good (suc left) kind done count p =
      loop-Good (suc left) kind done count p λ k retry m audit e h.
        let q = failed (suc left) kind done count p k retry m audit e in
        subst Good (sym (loop-next (suc left) kind done count p k retry m audit e h)) (
          attempts_from-Good left k (done ++ q ∷ []) (omega (arith, length-snoc done q, count))
            (IsPending-next (suc left) kind done count p k retry m audit e h))

  -- The whole loop, where at least one attempt is allowed.
  pub attempts-Good :
      (left : ℕ) (kind : LlmFailureKind)
      → suc left ≡ limit
      → Good (attempts_from a estimate request limit 1 kind no_metrics [] start)
  unfolding sends
  attempts-Good left kind h =
      subst (λ n. Good (attempts_from a estimate request n 1 kind no_metrics [] start)) h
        (attempts_from-Good left kind [] (omega (arith, h))
          (record { traced = tt; retried = tt; within = tt }))
