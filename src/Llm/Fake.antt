-- ===== src/Llm/Fake.antt =====
-- `FakeLLMTransport` of src/flowsec/integrations/llm/transport.py. The profile that reads an envelope
-- is any.
pub mod Log
use flow_security_agent.Contracts.Evidence.{CallMetrics}
use flow_security_agent.Contracts.Values.{Fields}
use flow_security_agent.Llm.Contracts.{
  LlmFailureKind, LlmTransportRequest, RawLlmResponse, to_metrics,
}
use flow_security_agent.Llm.Executor.{Estimated, Sent, Transport}
use flow_security_agent.Prelude.{String, Bool, true, List, [], ◌∷◌, ◌++◌, Option, none, some}

-- What stands in the script: an envelope, a response, a response that is not valid when it is built
-- again, a `FakeFailure`, or an exception.
pub data FakeTransportEvent : Type 0 where
  envelope : Fields → FakeTransportEvent
  response invalid_response : RawLlmResponse → FakeTransportEvent
  failure : LlmFailureKind → FakeTransportEvent
  exception : FakeTransportEvent

pub record FakeTransport : Type 0 where
  pub events : List FakeTransportEvent
  pub estimate_metrics : CallMetrics
  pub estimate_requests : List LlmTransportRequest
  pub requests : List LlmTransportRequest
  pub attempt_metrics : List CallMetrics
  pub operation_log : List String

unfoldable pub new_fake : List FakeTransportEvent → CallMetrics → FakeTransport
new_fake events estimate_metrics = record {
  events = events;
  estimate_metrics = estimate_metrics;
  estimate_requests = [];
  requests = [];
  attempt_metrics = [];
  operation_log = [];
}

-- `profile.normalize`: a response, or `none` where it raises an `LLMTransportError`.
module _ (normalize : Fields → LlmTransportRequest → Option RawLlmResponse) where
  -- The response of an event, or how the call fails.
  unfoldable pub answer_of : FakeTransportEvent → LlmTransportRequest → Sent
  answer_of (failure kind) request = Sent.fails kind true
  answer_of exception request = Sent.fails LlmFailureKind.transport_failure true
  answer_of (response r) request = Sent.responds r
  answer_of (invalid_response r) request = Sent.raises
  answer_of (envelope e) request = elim (normalize e request) [
    | none ↦ Sent.fails LlmFailureKind.unsupported_response true
    | some r ↦ Sent.responds r
  ]

  -- `self.attempt_metrics.append(...)`, for a response only.
  unfoldable pub metrics_sent : Sent → List CallMetrics
  metrics_sent (Sent.responds r) = to_metrics r.usage ∷ []
  metrics_sent _ = []

  -- The rest of `send`, with the script.
  unfoldable pub take_event :
      List FakeTransportEvent → LlmTransportRequest → FakeTransport → Sent × FakeTransport
  unfolding answer_of metrics_sent
  take_event [] request t = (Sent.fails LlmFailureKind.transport_failure true, t)
  take_event (event ∷ rest) request t =
      let sent = answer_of event request in
      (sent, record t { events = rest; attempt_metrics = t.attempt_metrics ++ metrics_sent sent })

  unfoldable pub fake_send : LlmTransportRequest → FakeTransport → Sent × FakeTransport
  unfolding take_event
  fake_send request t = take_event t.events request (record t {
    operation_log = t.operation_log ++ "send" ∷ [];
    requests = t.requests ++ request ∷ [];
  })

  unfoldable pub fake_estimate : LlmTransportRequest → FakeTransport → Estimated × FakeTransport
  fake_estimate request t = (
    Estimated.estimates t.estimate_metrics,
    record t {
      operation_log = t.operation_log ++ "estimate" ∷ [];
      estimate_requests = t.estimate_requests ++ request ∷ [];
    },
  )

  abbrev pub fake_transport : Transport FakeTransport
  fake_transport = record { estimate = fake_estimate; send = fake_send }
