-- ===== src/Llm/Fake/Log.antt =====
-- What the transport has logged after a call.
use mathlib.Core.List.{append_assoc, append-nil}
use flow_security_agent.Contracts.Evidence.{CallMetrics}
use flow_security_agent.Contracts.Values.{Fields}
use flow_security_agent.Llm.Contracts.{BackendAttemptRecord, LlmTransportRequest, RawLlmResponse}
use flow_security_agent.Llm.Executor.{Adapter, Call, call, safe_transport_estimate}
use flow_security_agent.Llm.Executor.Accounts.{sends}
use flow_security_agent.Llm.Executor.Calls.{
  Accounts, answers, call-Accounts, escaped, leaks, ready, unestimated,
}
use flow_security_agent.Llm.Fake.{
  FakeTransport, FakeTransportEvent, fake_estimate, fake_send, fake_transport, take_event,
}
use flow_security_agent.Prelude.Floats.{Rounding}
use flow_security_agent.Prelude.{
  ℕ, zero, suc, ◌≡◌, refl, sym, ap, ◌∙◌, List, [], ◌∷◌, ◌++◌, Option, some, length, length-snoc,
}
use mathlib.Core.Path.{subst}

module _ {ℓ} {A : Type ℓ} where
  abbrev pub drop : ℕ → List A → List A
  drop zero xs = xs
  drop (suc n) [] = []
  drop (suc n) (x ∷ xs) = drop n xs

  abbrev pub replicate : ℕ → A → List A
  replicate zero x = []
  replicate (suc n) x = x ∷ replicate n x

  drop-suc : (n : ℕ) (xs : List A) → drop n (drop 1 xs) ≡ drop (suc n) xs
  drop-suc zero [] = refl
  drop-suc (suc n) [] = refl
  drop-suc n (x ∷ xs) = refl

module _ (normalize : Fields → LlmTransportRequest → Option RawLlmResponse) where
  -- The request has been sent a number of times more, and as many events are used up, if there are so
  -- many.
  pub record Sends (n : ℕ) (request : LlmTransportRequest) (t t' : FakeTransport) : Type 0 where
    pub logged : t'.requests ≡ t.requests ++ replicate n request
    pub used : t'.events ≡ drop n t.events

  module _ {A : Type 0} (a : Adapter A FakeTransport) (request : LlmTransportRequest)
      (fake : a.transport ≡ fake_transport normalize) where
    send-eq : (t : FakeTransport) → a.transport.send request t ≡ fake_send normalize request t
    send-eq t = ap (λ f. f.send request t) fake

    take_event-log :
        (es : List FakeTransportEvent) (t : FakeTransport)
        → t.events ≡ es
        → ((take_event normalize es request t).1.requests ≡ t.requests)
          × ((take_event normalize es request t).1.events ≡ drop 1 es)
    unfolding take_event
    take_event-log [] t h = (refl, h)
    take_event-log (event ∷ rest) t h = (refl, refl)

    fake_send-Sends : (t : FakeTransport) → Sends 1 request t (fake_send normalize request t).1
    unfolding fake_send take_event
    fake_send-Sends t =
        let t' = record t {
          operation_log = t.operation_log ++ "send" ∷ [];
          requests = t.requests ++ request ∷ [];
        } in
        let (logged, used) = take_event-log t.events t' refl in
        record { logged = logged; used = used }

    sends-Sends :
        (estimate : CallMetrics) (n : ℕ) (t : FakeTransport)
        → Sends n request t (sends a estimate request n t)
    unfolding sends
    sends-Sends estimate zero t = record { logged = sym (append-nil t.requests); used = refl }
    sends-Sends estimate (suc n) t =
        let t' = (a.transport.send request t).1 in
        let first = subst (λ p. Sends 1 request t p.1) (sym (send-eq t)) (fake_send-Sends t) in
        let rest = sends-Sends estimate n t' in
        record {
          logged =
              rest.logged
              ∙ ap (λ xs. xs ++ replicate n request) first.logged
              ∙ append_assoc t.requests (request ∷ []) (replicate n request);
          used = rest.used ∙ ap (drop n) first.used ∙ drop-suc n t.events;
        }

    module _ ⦃r : Rounding⦄ where
      ready-log :
          (t : FakeTransport)
          → ((ready a request t).requests ≡ t.requests) × ((ready a request t).events ≡ t.events)
      unfolding safe_transport_estimate fake_estimate
      ready-log t = (
        ap (λ f. (f.estimate request t).1.requests) fake,
        ap (λ f. (f.estimate request t).1.events) fake,
      )

      Sends-ready :
          (n : ℕ) (t t' : FakeTransport)
          → Sends n request (ready a request t) t'
          → Sends n request t t'
      Sends-ready n t t' l =
          let (requests, events) = ready-log t in
          record {
            logged = l.logged ∙ ap (λ xs. xs ++ replicate n request) requests;
            used = l.used ∙ ap (drop n) events;
          }

      logs :
          (t : FakeTransport) (rs : List BackendAttemptRecord) (c : Call A FakeTransport)
          → Accounts a request t c
          → c.attempts ≡ some rs
          → Sends (length rs) request t c.state
      logs t rs c (leaks leak u) h = cc (u.1, h)
      logs t rs c (unestimated kind e u) h = cc (u.1, h)
      logs t rs c (escaped m e escape) h = cc (escape.unrecorded, h)
      logs t rs c (answers m e answer) h =
          let same : answer.front ++ answer.last ∷ [] ≡ rs = cc (answer.recorded, h) in
          let n : suc (length answer.front) ≡ length rs =
            sym (length-snoc answer.front answer.last) ∙ ap length same in
          subst (λ k. Sends k request t c.state) n
            (subst (Sends (suc (length answer.front)) request t) (sym answer.sent) (
              Sends-ready (suc (length answer.front)) t _
                (sends-Sends m (suc (length answer.front)) (ready a request t))))

      -- A call through the fake transport that records its attempts takes one event for each of them
      -- from the script, as long as there are some, and logs the request as often.
      pub call-Sends :
          (left : ℕ) (t : FakeTransport) (rs : List BackendAttemptRecord)
          → suc left ≡ a.config.retry_policy.max_attempts
          → (call a request t).attempts ≡ some rs
          → Sends (length rs) request t (call a request t).state
      call-Sends left t rs most h =
          logs t rs (call a request t) (call-Accounts a request t left most) h
