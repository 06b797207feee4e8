-- ===== src/Llm/Executor/Calls.antt =====
-- A call as a whole, and its estimate.
use flow_security_agent.Contracts.Evidence.{CallMetrics}
use flow_security_agent.Llm.Contracts.{LlmFailureKind, LlmTransportRequest, holds_secret}
use flow_security_agent.Llm.Executor.{
  Adapter, Call, as_refusal, CallEnd, Estimated, call, safe_transport_estimate,
}
use flow_security_agent.Llm.Executor.Attempts.{Answers, Escaped}
use flow_security_agent.Llm.Executor.Loop.{attempts-Good}
use flow_security_agent.Prelude.Floats.{Rounding}
use flow_security_agent.Prelude.{
  ℕ, suc, ◌≡◌, ◌≢◌, refl, true, false, none, ◌⊎◌, inl, inr, Bool-cases,
}

pub Estimated-cases :
    (o : Estimated)
    → ((kind : LlmFailureKind) × (o ≡ Estimated.fails kind))
      ⊎ (o ≡ Estimated.raises)
      ⊎ ((m : CallMetrics) × (o ≡ Estimated.estimates m))
Estimated-cases (Estimated.fails kind) = inl (kind, refl)
Estimated-cases Estimated.raises = inr (inl refl)
Estimated-cases (Estimated.estimates m) = inr (inr (m, refl))

as_refusal-ne-raises : (o : Estimated) → as_refusal o ≢ Estimated.raises
unfolding as_refusal
as_refusal-ne-raises (Estimated.fails kind) h = cc
as_refusal-ne-raises Estimated.raises h = cc
as_refusal-ne-raises (Estimated.estimates m) h = cc

module _ {A S : Type 0} (a : Adapter A S) ⦃r : Rounding⦄ (request : LlmTransportRequest)
    (s : S) where
  abbrev pub LeaksSecret : Type 0
  LeaksSecret = holds_secret a.secret_values (a.serialize request) ≡ true

  abbrev estimated : Estimated
  estimated = (safe_transport_estimate a request s).0

  abbrev pub ready : S
  ready = (safe_transport_estimate a request s).1

  -- The call ends before the request is sent.
  abbrev pub Unsent : LlmFailureKind → S → Call A S → Type 0
  Unsent kind s' c = (c.end ≡ CallEnd.transport_error kind) × (c.attempts ≡ none) × (c.state ≡ s')

  -- What a call comes to. A request with a secret in it is not sent, nor one that the transport cannot
  -- estimate; otherwise there are the attempts, each against the estimate.
  pub data Accounts (c : Call A S) : Type 0 where
    leaks : LeaksSecret → Unsent LlmFailureKind.secret_configuration_failure s c → Accounts c
    unestimated :
        (kind : LlmFailureKind)
        → estimated ≡ Estimated.fails kind
        → Unsent kind ready c
        → Accounts c
    answers :
        (m : CallMetrics)
        → estimated ≡ Estimated.estimates m
        → Answers a m request ready c
        → Accounts c
    escaped :
        (m : CallMetrics)
        → estimated ≡ Estimated.estimates m
        → Escaped a m request ready c
        → Accounts c

  -- The call of a request whose secrets were looked for.
  sent_call-Accounts :
      (left : ℕ)
      → suc left ≡ a.config.retry_policy.max_attempts
      → holds_secret a.secret_values (a.serialize request) ≡ false
      → Accounts (call a request s)
  unfolding call safe_transport_estimate
  sent_call-Accounts left h clean = elim (Estimated-cases estimated) [
    | inl (kind, e) ↦ rw (clean, call) (rw e (unestimated kind e (refl, refl, refl)))
    | inr (inl e) ↦ absurd (as_refusal-ne-raises (a.transport.estimate request s).0 e)
    | inr (inr (m, e)) ↦
        rw (clean, call)
          (rw e (elim (attempts-Good a m request ready left LlmFailureKind.transport_failure h) [
            | inl answer ↦ answers m e answer
            | inr escape ↦ escaped m e escape
          ]))
  ]

  -- A call keeps account: a request that holds a secret is not sent, and if the transport gives no
  -- estimate, nothing is sent. If the transport answers with an object of another class, the request was
  -- sent and an exception leaves the call, with nothing recorded. Otherwise the request is sent once for
  -- each recorded attempt, at most as often as the policy allows; all but the last recorded attempt
  -- failed with a kind that is tried again; the last gave the result, which carries the sum of the
  -- attempts' metrics, or it failed and the policy, the number of attempts or its cause forbids another;
  -- and no attempt is charged more than the estimate.
  pub call-Accounts :
      (left : ℕ) → suc left ≡ a.config.retry_policy.max_attempts → Accounts (call a request s)
  unfolding call
  call-Accounts left h = elim (Bool-cases (holds_secret a.secret_values (a.serialize request))) [
    | inl leak ↦ rw (leak, call) (leaks leak (refl, refl, refl))
    | inr clean ↦ sent_call-Accounts left h clean
  ]
