-- ===== src/Llm/Backends.antt =====
-- `LLMTrafficExpertBackend` and `LLMSupervisorBackend` of src/flowsec/integrations/llm/adapters.py, as
-- backends of the runtime. The renderer of prompts is any, and so are the transport and the parser.
-- The check of `base_url` is left out: the configuration has passed it already.
pub mod Answers
use flow_security_agent.Contracts.Evidence.{
  CallMetrics, EvidenceItem, TrafficExpertResult, fields_are_visible, item_is_valid,
  result_is_valid, status_is_valid, unknown_is_valid,
}
use flow_security_agent.Contracts.Requests.{SupervisorDecision, decision_is_valid}
use flow_security_agent.Contracts.State.{SupervisorView}
use flow_security_agent.Contracts.Values.{Fields, Value, get_field}
use flow_security_agent.Llm.Contracts.{
  BackendAttemptRecord, LlmBackendConfig, LlmMessage, LlmTransportRequest, PromptIdentity,
  RawLlmResponse, ResponseMode, messages_are_valid,
}
use flow_security_agent.Llm.Executor.{
  Adapter, Call, CallEnd, Estimated, Parsed, Transport, call, estimate_call,
}
use flow_security_agent.Llm.Secrets.{fields_have_secret}
use flow_security_agent.Orchestrator.Backends.{Output, raises, returns}
use flow_security_agent.Prelude.Floats.{Rounding}
use flow_security_agent.Prelude.{
  ℕ, String, Bool, true, false, not, ◌&&◌, ◌||◌, List, [], ◌∷◌, Option, none, some, all, any,
  str_eq, if◌then◌else◌,
}

-- The fields that a backend is built with. `I` is what a prompt is rendered from.
pub record LlmBackend (I A S : Type 0) : Type 0 where
  pub transport : Transport S
  pub config : LlmBackendConfig
  pub base_url : String
  pub timeout_seconds : ℕ
  pub generation_options : Fields
  pub request_metadata : Fields
  pub identity : PromptIdentity
  pub render : I → List LlmMessage
  pub parse : RawLlmResponse → Parsed A
  pub serialize : LlmTransportRequest → String
  pub secret_values : List String

-- The transport's state, and `last_call_audit`.
pub record BackendState (S : Type 0) : Type 0 where
  pub transport_state : S
  pub last_call_audit : Option (List BackendAttemptRecord)

unfoldable pub drop_field : String → Fields → Fields
drop_field key Fields.end = Fields.end
drop_field key (Fields.field k v fs) =
    let rest = drop_field key fs in if str_eq k key then rest else Fields.field k v rest

-- `{"backend_role": role, **metadata}`: a role in the metadata takes the place of the first.
unfoldable pub with_role : String → Fields → Fields
unfolding drop_field get_field
with_role role metadata =
    Fields.field "backend_role"
      (elim (get_field "backend_role" metadata) [ none ↦ Value.text role | some v ↦ v ])
      (drop_field "backend_role" metadata)

-- How `_request` ends: with a request, or by an exception of the named class.
pub data Prepared : Type 0 where
  refused : String → Prepared
  prepared : LlmTransportRequest → Prepared

module _ {I A S : Type 0} where
  -- `LlmTransportRequest(...)`, with its validators.
  unfoldable pub new_request : LlmBackend I A S → String → I → Prepared
  unfolding with_role
  new_request b role input =
      let metadata = with_role role b.request_metadata in
      if messages_are_valid (b.render input)
        && not (fields_have_secret b.generation_options)
        && not (fields_have_secret metadata)
        && fields_are_visible b.generation_options
        && fields_are_visible metadata
      then prepared (record {
        provider = b.config.provider;
        base_url = b.base_url;
        model_id = b.config.model_id;
        messages = b.render input;
        timeout_seconds = b.timeout_seconds;
        response_mode = b.config.response_mode;
        generation_options = b.generation_options;
        prompt = b.identity;
        request_metadata = metadata;
      })
      else refused "ValidationError"

  -- The executor of a backend, for a type of results with a validator and with metrics.
  unfoldable pub executor : LlmBackend I A S → (A → Bool) → (CallMetrics → A → A) → Adapter A S
  executor b is_valid set_metrics = record {
    transport = b.transport;
    config = b.config;
    parse = b.parse;
    validate = λ x. if is_valid x then some x else none;
    set_metrics = set_metrics;
    serialize = b.serialize;
    secret_values = b.secret_values;
  }

-- `self._executor.estimate(self._request(...))`
unfoldable pub run_estimate :
    {A S : Type 0} → ⦃r : Rounding⦄ → Adapter A S → Prepared → S → Output CallMetrics × S
run_estimate a (refused name) s = (raises name, s)
run_estimate a (prepared request) s =
    let (estimated, s') = estimate_call a request s in
    elim estimated [
      | Estimated.fails kind ↦ (raises "LLMTransportError", s')
      | Estimated.raises ↦ (raises "LLMTransportError", s')
      | Estimated.estimates m ↦ (returns m, s')
    ]

-- `self.last_call_audit = ...`, where a call comes to it.
unfoldable pub next_audit :
    Option (List BackendAttemptRecord)
    → Option (List BackendAttemptRecord)
    → Option (List BackendAttemptRecord)
next_audit none old = old
next_audit (some attempts) old = some attempts

-- How a call looks from outside, with the last `model_validate` of the result.
unfoldable pub output_of : {A : Type 0} → (A → Bool) → CallEnd A → Output A
output_of is_valid (CallEnd.returns x) = if is_valid x then returns x else raises "ValidationError"
output_of is_valid (CallEnd.backend_error kind n) = raises "LLMBackendError"
output_of is_valid (CallEnd.transport_error kind) = raises "LLMTransportError"
output_of is_valid CallEnd.escapes = raises "AttributeError"

-- `self._executor.call(self._request(...))` and what follows it.
unfoldable pub run_call :
    {A S : Type 0}
    → ⦃r : Rounding⦄ → Adapter A S
    → (A → Bool)
    → Prepared
    → BackendState S
    → Output A × BackendState S
unfolding output_of next_audit
run_call a is_valid (refused name) s = (raises name, s)
run_call a is_valid (prepared request) s =
    let c = call a request s.transport_state in
    (
      output_of is_valid c.end,
      record {
        transport_state = c.state;
        last_call_audit = next_audit c.attempts s.last_call_audit;
      },
    )

unfoldable pub set_result_metrics : CallMetrics → TrafficExpertResult → TrafficExpertResult
set_result_metrics m x = record x { metrics = m }

unfoldable pub set_decision_metrics : CallMetrics → SupervisorDecision → SupervisorDecision
set_decision_metrics m d = record d { metrics = m }

module _ {S : Type 0} where
  -- `LLMTrafficExpertBackend._request`
  unfoldable pub expert_request :
      LlmBackend (List EvidenceItem) TrafficExpertResult S → List EvidenceItem → Prepared
  unfolding new_request
  expert_request b evidence =
      if not (all item_is_valid evidence)
      then refused "ValidationError"
      else if any (λ (item : EvidenceItem). not item.model_safe) evidence
      then refused "LLMTransportError"
      else new_request b "traffic_expert" evidence

  -- `LLMSupervisorBackend._request`. The view is validated again; the fields that have no validator,
  -- the views of experiences among them, are bounded by their types.
  unfoldable pub supervisor_request :
      LlmBackend SupervisorView SupervisorDecision S → SupervisorView → Prepared
  unfolding new_request
  supervisor_request b view =
      if not (all item_is_valid view.evidence)
        || not (result_is_valid view.traffic_expert_result)
        || not (all result_is_valid view.traffic_expert_history)
        || not (unknown_is_valid view.unknown_decision)
        || not (all status_is_valid view.capabilities)
      then refused "ValidationError"
      else if any (λ (item : EvidenceItem). not item.model_safe) view.evidence
      then refused "LLMTransportError"
      else new_request b "supervisor" view

  abbrev pub expert_executor :
      LlmBackend (List EvidenceItem) TrafficExpertResult S → Adapter TrafficExpertResult S
  expert_executor b = executor b result_is_valid set_result_metrics

  abbrev pub supervisor_executor :
      LlmBackend SupervisorView SupervisorDecision S → Adapter SupervisorDecision S
  supervisor_executor b = executor b decision_is_valid set_decision_metrics

  module _ ⦃r : Rounding⦄ where
    unfoldable pub expert_estimate :
        LlmBackend (List EvidenceItem) TrafficExpertResult S
        → List EvidenceItem
        → S
        → Output CallMetrics × S
    unfolding run_estimate expert_request executor
    expert_estimate b evidence s = run_estimate (expert_executor b) (expert_request b evidence) s

    unfoldable pub expert_evaluate :
        LlmBackend (List EvidenceItem) TrafficExpertResult S
        → List EvidenceItem
        → BackendState S
        → Output TrafficExpertResult × BackendState S
    unfolding run_call expert_request executor
    expert_evaluate b evidence s =
        run_call (expert_executor b) result_is_valid (expert_request b evidence) s

    unfoldable pub supervisor_estimate :
        LlmBackend SupervisorView SupervisorDecision S → SupervisorView → S → Output CallMetrics × S
    unfolding run_estimate supervisor_request executor
    supervisor_estimate b view s =
        run_estimate (supervisor_executor b) (supervisor_request b view) s

    unfoldable pub supervisor_decide :
        LlmBackend SupervisorView SupervisorDecision S
        → SupervisorView
        → BackendState S
        → Output SupervisorDecision × BackendState S
    unfolding run_call supervisor_request executor
    supervisor_decide b view s =
        run_call (supervisor_executor b) decision_is_valid (supervisor_request b view) s
