-- ===== src/Tests/Models.antt =====
-- Calls of a language model at small inputs.
use flow_security_agent.Contracts.Enums.{EvidenceTrust}
use flow_security_agent.Contracts.Evidence.{
  CallMetrics, TrafficExpertResult, metrics_within_estimate, no_metrics, result_is_valid,
}
use flow_security_agent.Contracts.Requests.{SupervisorDecision, decision_is_valid}
use flow_security_agent.Contracts.State.{SupervisorView}
use flow_security_agent.Contracts.Values.{Fields, Items, Value}
use flow_security_agent.Budget.{fresh}
use flow_security_agent.Llm.Backends.{BackendState, LlmBackend, expert_evaluate, supervisor_decide}
use flow_security_agent.Llm.Backends.Answers.{
  IsAnswer, IsSafeView, expert_evaluate-IsAnswer, supervisor_decide-IsAnswer,
}
use flow_security_agent.Llm.Contracts.{
  BackendAttemptRecord, ContentKind, LlmBackendConfig, LlmFailureKind, LlmMessage,
  LlmTransportRequest, MessageContent, MessageRole, RawLlmResponse, RepairType, ResponseMode,
  begins_with_system, unparsed,
}
use flow_security_agent.Llm.Contracts.Boundary.{IsBounded, messages_are_valid-IsBounded}
use flow_security_agent.Llm.Executor.{Adapter, CallEnd, call, parses}
use flow_security_agent.Llm.Executor.Attempts.{total_from}
use flow_security_agent.Llm.Executor.Calls.{Accounts, call-Accounts, ready}
use flow_security_agent.Llm.Executor.Estimates.{call-within_estimate}
use flow_security_agent.Llm.Executor.Retries.{FailsSoftly, call-returns}
use flow_security_agent.Llm.Fake.{FakeTransport, FakeTransportEvent, fake_transport, new_fake}
use flow_security_agent.Llm.Fake.Log.{Sends, call-Sends}
use flow_security_agent.Llm.Secrets.{entries_in, has_secret_field, redact_mapping}
use flow_security_agent.Llm.Secrets.Redacted.{
  IsHarmless, IsRedacted, has_secret_field_iff, redact_mapping-IsRedacted,
}
use flow_security_agent.Prelude.Floats.{exact}
use flow_security_agent.Prelude.{
  ℕ, zero, suc, ◌<◌, ◌≡◌, ◌↔◌, refl, false, true, All, List, [], ◌∷◌, Option, none, some, arith,
}
use flow_security_agent.Tests.Data.{accept, item, limits, state, sure}
use flow_security_agent.Tests.Program.{program}

abbrev profile : Fields → LlmTransportRequest → Option RawLlmResponse
profile e request = none

abbrev block : ContentKind → Option EvidenceTrust → MessageContent
block kind trust = record { kind = kind; content = "text"; trust = trust; label = "block" }

abbrev messages : List LlmMessage
messages =
    record { role = MessageRole.system; content = block ContentKind.instruction none ∷ [] }
    ∷ record {
      role = MessageRole.user;
      content = block ContentKind.evidence_data (some EvidenceTrust.untrusted_evidence) ∷ [];
    }
    ∷ []

abbrev settings : LlmBackendConfig
settings = record {
  provider = "p";
  model_id = "m";
  retry_policy = record { max_attempts = 3; retryable_failures = LlmFailureKind.timeout ∷ [] };
  response_mode = ResponseMode.text;
}

abbrev request : LlmTransportRequest
request = record {
  provider = "p";
  base_url = "local";
  model_id = "m";
  messages = messages;
  timeout_seconds = 1;
  response_mode = ResponseMode.text;
  generation_options = Fields.end;
  prompt = record {
    prompt_id = "prompt";
    prompt_version = "1";
    prompt_hash = "hash";
    renderer_version = "1";
  };
  request_metadata = Fields.end;
}

abbrev response : ℕ → RawLlmResponse
response tokens = record {
  raw_text = some "answer";
  structured_payload = none;
  usage = record {
    input_tokens = some tokens;
    output_tokens = none;
    total_tokens = none;
    abstract_cost = 1;
    abstract_latency = 0;
  };
  finish_status = none;
  provider = "p";
  model_id = none;
  failure = none;
}

abbrev at_most_nine : CallMetrics
at_most_nine = record { abstract_tokens = 9; abstract_cost = 2; abstract_latency = 2 }

-- A timeout, and then an answer.
abbrev script : FakeTransport
script =
    new_fake
      (FakeTransportEvent.failure LlmFailureKind.timeout
        ∷ FakeTransportEvent.response (response 4)
        ∷ [])
      at_most_nine

-- The result is what the metrics are set on.
abbrev adapter : Adapter CallMetrics FakeTransport
adapter = record {
  transport = fake_transport profile;
  config = settings;
  parse = λ r. parses no_metrics unparsed;
  validate = λ x. some x;
  set_metrics = λ m x. m;
  serialize = λ q. "request";
  secret_values = "hunter2" ∷ "" ∷ [];
}

called :
    (call adapter request script).end
    ≡ CallEnd.returns (record { abstract_tokens = 13; abstract_cost = 3; abstract_latency = 2 })
unfolding program
called = refl

call-Accounts_example : Accounts adapter request script (call adapter request script)
call-Accounts_example = call-Accounts adapter request script 2 refl

timeout_first :
    (i : ℕ) → i < 1 → FailsSoftly adapter at_most_nine request (ready adapter request script) i
unfolding program
timeout_first zero h = (LlmFailureKind.timeout, at_most_nine, unparsed, refl, refl)
timeout_first (suc i) h = absurd (omega arith)

call-returns_example :
    (t : CallMetrics) × ((call adapter request script).end
      ≡ CallEnd.returns (adapter.set_metrics t no_metrics))
unfolding program
call-returns_example =
    call-returns adapter request script 2 at_most_nine 1 no_metrics refl refl refl (omega arith)
      timeout_first
      (record { abstract_tokens = 4; abstract_cost = 1; abstract_latency = 0 }, unparsed, refl)

abbrev attempts : List BackendAttemptRecord
attempts =
    record {
      attempt = 1;
      failure = some LlmFailureKind.timeout;
      metrics = at_most_nine;
      repair_applied = false;
      repair_type = RepairType.unrepaired;
    }
    ∷ record {
      attempt = 2;
      failure = none;
      metrics = record { abstract_tokens = 4; abstract_cost = 1; abstract_latency = 0 };
      repair_applied = false;
      repair_type = RepairType.unrepaired;
    }
    ∷ []

call-within_estimate_example :
    metrics_within_estimate
      (total_from no_metrics attempts)
      (record { abstract_tokens = 27; abstract_cost = 6; abstract_latency = 6 })
    ≡ true
unfolding program
call-within_estimate_example =
    call-within_estimate adapter request script script refl 2
      (record { abstract_tokens = 27; abstract_cost = 6; abstract_latency = 6 }) attempts refl refl
      refl

call-Sends_example : Sends profile 2 request script (call adapter request script).state
unfolding program
call-Sends_example = call-Sends profile adapter request refl 2 script attempts refl refl

messages_are_valid-IsBounded_example :
    (begins_with_system messages ≡ true)
    × All (λ (m : LlmMessage). All (IsBounded m.role) m.content) messages
unfolding program
messages_are_valid-IsBounded_example = messages_are_valid-IsBounded messages refl

abbrev options : Value
options = Value.dict (
    Fields.field "nested"
      (Value.list
        (Items.cons (Value.dict (Fields.field "API-Key" (Value.text "k") Fields.end)) Items.nil))
      Fields.end)

redact_mapping-IsRedacted_example : All IsRedacted (entries_in (redact_mapping (λ s. s) options))
redact_mapping-IsRedacted_example = redact_mapping-IsRedacted (λ s. s) options

has_secret_field_iff_example :
    (has_secret_field options ≡ false) ↔ All IsHarmless (entries_in options)
has_secret_field_iff_example = has_secret_field_iff options

secret_found : has_secret_field options ≡ true
unfolding program
secret_found = refl

abbrev backend : {I A : Type 0} → A → LlmBackend I A FakeTransport
backend x = record {
  transport = fake_transport profile;
  config = settings;
  base_url = "local";
  timeout_seconds = 1;
  generation_options = Fields.end;
  request_metadata = Fields.end;
  identity = request.prompt;
  render = λ _. messages;
  parse = λ r. parses x unparsed;
  serialize = λ q. "request";
  secret_values = [];
}

abbrev waiting : BackendState FakeTransport
waiting = record { transport_state = script; last_call_audit = none }

abbrev total : CallMetrics
total = record { abstract_tokens = 13; abstract_cost = 3; abstract_latency = 2 }

abbrev estimate : CallMetrics
estimate = record { abstract_tokens = 27; abstract_cost = 6; abstract_latency = 6 }

expert_evaluate-IsAnswer_example :
    IsAnswer result_is_valid
      (λ (y : TrafficExpertResult). y.metrics)
      estimate
      (expert_evaluate (backend sure) (item "a" ∷ []) waiting).1.last_call_audit
      (record sure { metrics = total })
unfolding program
expert_evaluate-IsAnswer_example =
    expert_evaluate-IsAnswer (backend sure) 2 (item "a" ∷ []) script waiting estimate
      (record sure { metrics = total }) refl (λ q. refl) refl refl

abbrev view : SupervisorView
view = record {
  evidence = item "a" ∷ [];
  traffic_expert_result = sure;
  traffic_expert_history = [];
  unknown_decision = state.unknown_decision;
  capabilities = [];
  budget = fresh limits;
  round_index = 0;
  request_history = [];
  action_history = [];
  tool_failures = [];
  retrieved_experiences = [];
}

supervisor_decide-IsAnswer_example :
    IsAnswer decision_is_valid
      (λ (y : SupervisorDecision). y.metrics)
      estimate
      (supervisor_decide (backend accept) view waiting).1.last_call_audit
      (record accept { metrics = total })
    × IsSafeView view
unfolding program
supervisor_decide-IsAnswer_example =
    supervisor_decide-IsAnswer (backend accept) 2 view script waiting estimate
      (record accept { metrics = total }) refl (λ q. refl) refl refl
