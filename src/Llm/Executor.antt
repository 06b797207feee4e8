-- ===== src/Llm/Executor.antt =====
-- `_AdapterExecutor` of src/flowsec/integrations/llm/adapters.py: one call of a model, with the
-- attempts that it takes. The transport and the parser are any; `S` is the transport's state, `A` the
-- type of the result.
pub mod Accounts
pub mod Attempts
pub mod Loop
pub mod Calls
pub mod Estimates
pub mod Retries
use flow_security_agent.Contracts.Evidence.{CallMetrics, no_metrics}
use flow_security_agent.Llm.Contracts.{
  BackendAttemptRecord, LlmBackendConfig, LlmFailureKind, LlmTransportRequest, ParseAudit,
  RawLlmResponse, RepairType, ResponseMode, add_metrics, holds_secret, is_given, is_retryable,
  scale_metrics, to_metrics, unparsed,
}
use flow_security_agent.Prelude.Floats.{Rounding}
use flow_security_agent.Prelude.{
  ℕ, zero, suc, ◌+◌, String, Bool, true, false, not, ◌&&◌, ◌||◌, List, [], ◌∷◌, ◌++◌, Option, none,
  some, leb, ◌==◌, length, str_eq, if◌then◌else◌,
}

-- How `transport.send` ends: by an `LLMTransportError`, by another exception, with `None`, with an
-- object of another class that has no `usage`, with a response that is not valid when it is built
-- again, or with a response.
pub data Sent : Type 0 where
  fails : LlmFailureKind → Bool → Sent
  raises nothing foreign : Sent
  invalid responds : RawLlmResponse → Sent

-- How `transport.estimate` ends; `raises` stands for any exception but an `LLMTransportError`, and for
-- an object that is no valid `CallMetrics`.
pub data Estimated : Type 0 where
  fails : LlmFailureKind → Estimated
  raises : Estimated
  estimates : CallMetrics → Estimated

-- How the parser ends: by an `LLMResponseError`, by another exception, or with a result.
pub data Parsed (A : Type 0) : Type 0 where
  refuses : LlmFailureKind → ParseAudit → Parsed A
  raises : Parsed A
  parses : A → ParseAudit → Parsed A

pub record Transport (S : Type 0) : Type 0 where
  pub estimate : LlmTransportRequest → S → Estimated × S
  pub send : LlmTransportRequest → S → Sent × S

-- What an executor is built of. `validate` is `type(result).model_validate(result.model_dump(...))`,
-- `none` where it raises; `serialize` is `request.model_dump_json()`.
pub record Adapter (A S : Type 0) : Type 0 where
  pub transport : Transport S
  pub config : LlmBackendConfig
  pub parse : RawLlmResponse → Parsed A
  pub validate : A → Option A
  pub set_metrics : CallMetrics → A → A
  pub serialize : LlmTransportRequest → String
  pub secret_values : List String

-- How a call ends: with a result, by an `LLMBackendError` after a number of attempts, by an
-- `LLMTransportError` before the first, or by an exception that escapes from a handler.
pub data CallEnd (A : Type 0) : Type 0 where
  returns : A → CallEnd A
  backend_error : LlmFailureKind → ℕ → CallEnd A
  transport_error : LlmFailureKind → CallEnd A
  escapes : CallEnd A

-- `attempts` is the new `last_call_audit`, if the call sets one.
pub record Call (A S : Type 0) : Type 0 where
  pub end : CallEnd A
  pub attempts : Option (List BackendAttemptRecord)
  pub state : S

-- `_metrics_within`
unfoldable pub metrics_within : CallMetrics → CallMetrics → Bool
metrics_within actual estimate =
    leb actual.abstract_tokens estimate.abstract_tokens
    && leb actual.abstract_cost estimate.abstract_cost
    && leb actual.abstract_latency estimate.abstract_latency

-- `actual == CallMetrics()`
unfoldable pub is_free : CallMetrics → Bool
is_free m = m.abstract_tokens == 0 && m.abstract_cost == 0 && m.abstract_latency == 0

-- `_failure_metrics` of a response; without one it is the estimate.
unfoldable pub failure_metrics : RawLlmResponse → CallMetrics → CallMetrics
unfolding to_metrics is_free metrics_within
failure_metrics response conservative_estimate =
    let actual = to_metrics response.usage in
    if is_free actual
    then conservative_estimate
    else if not (metrics_within actual conservative_estimate)
    then conservative_estimate
    else actual

-- `_validate_response_identity`: whether it passes.
unfoldable pub identity_is_valid : LlmBackendConfig → RawLlmResponse → Bool
unfolding is_given
identity_is_valid config response =
    str_eq response.provider config.provider
    && elim response.model_id [ none ↦ true | some id ↦ str_eq id config.model_id ]
    && elim config.response_mode [
      | ResponseMode.text ↦ is_given response.raw_text && not (is_given response.structured_payload)
      | ResponseMode.structured ↦ is_given response.structured_payload
      | ResponseMode.auto ↦ true
    ]

-- How an attempt ends. A failure has its kind, whether it still allows a retry, what it costs and the
-- parser's repair.
pub data Outcome (A : Type 0) : Type 0 where
  succeeds : A → CallMetrics → ParseAudit → Outcome A
  fails : LlmFailureKind → Bool → CallMetrics → ParseAudit → Outcome A
  escapes : Outcome A

-- The handlers of `_safe_transport_estimate`.
unfoldable pub as_refusal : Estimated → Estimated
as_refusal (fails kind) = fails kind
as_refusal raises = fails LlmFailureKind.transport_failure
as_refusal (estimates m) = estimates m

module _ {A S : Type 0} (a : Adapter A S) where
  -- The `try` block from the parser on, by how the parser ends.
  unfoldable pub read_parsed : CallMetrics → RawLlmResponse → Parsed A → Outcome A
  unfolding failure_metrics
  read_parsed estimate response (refuses kind audit) =
      fails kind true (failure_metrics response estimate) audit
  read_parsed estimate response raises =
      fails LlmFailureKind.unsupported_response true (failure_metrics response estimate) unparsed
  read_parsed estimate response (parses result audit) = elim (a.validate result) [
    | none ↦
        fails LlmFailureKind.unsupported_response true (failure_metrics response estimate) audit
    | some result' ↦ succeeds result' (to_metrics response.usage) audit
  ]

  -- The `try` block and its handlers. A handler reads the `usage` of an object of another class, and
  -- what that raises is not caught.
  unfoldable pub judge : CallMetrics → Sent → Outcome A
  unfolding read_parsed
  judge estimate (fails kind retry_allowed) = fails kind retry_allowed estimate unparsed
  judge estimate raises = fails LlmFailureKind.unsupported_response true estimate unparsed
  judge estimate nothing = fails LlmFailureKind.unsupported_response true estimate unparsed
  judge estimate foreign = escapes
  judge estimate (invalid response) =
      fails LlmFailureKind.unsupported_response true (failure_metrics response estimate) unparsed
  judge estimate (responds response) =
      if not (identity_is_valid a.config response)
      then fails LlmFailureKind.unsupported_response false (failure_metrics response estimate)
          unparsed
      else if not (metrics_within (to_metrics response.usage) estimate)
      then fails LlmFailureKind.unsupported_response false (failure_metrics response estimate)
          unparsed
      else read_parsed estimate response (a.parse response)

  unfoldable pub record_of :
      ℕ → Option LlmFailureKind → CallMetrics → ParseAudit → BackendAttemptRecord
  record_of attempt failure metrics audit = record {
    attempt = attempt;
    failure = failure;
    metrics = metrics;
    repair_applied = audit.repair_applied;
    repair_type = audit.repair_type;
  }

  module _ ⦃r : Rounding⦄ (estimate : CallMetrics) (request : LlmTransportRequest) where
    -- The loop over the attempts, on the number of attempts that are left.
    unfoldable pub attempts_from :
        ℕ → ℕ → LlmFailureKind → CallMetrics → List BackendAttemptRecord → S → Call A S
    unfolding judge record_of
    attempts_from zero attempt last_kind cumulative attempts s = record {
      end = backend_error last_kind (length attempts);
      attempts = some attempts;
      state = s;
    }
    attempts_from (suc left) attempt last_kind cumulative attempts s =
        let (sent, s') = a.transport.send request s in
        elim (judge estimate sent) [
          | escapes ↦ record { end = escapes; attempts = none; state = s' }
          | succeeds result metrics audit ↦ record {
            end = returns (a.set_metrics (add_metrics cumulative metrics) result);
            attempts = some (attempts ++ record_of attempt none metrics audit ∷ []);
            state = s';
          }
          | fails kind retry_allowed metrics audit ↦
              let attempts' = attempts ++ record_of attempt (some kind) metrics audit ∷ [] in
              let rest =
                attempts_from left (suc attempt) kind (add_metrics cumulative metrics) attempts'
                  s' in
              if leb a.config.retry_policy.max_attempts attempt
                || not (is_retryable a.config.retry_policy kind)
                || not retry_allowed
              then record {
                end = backend_error kind (length attempts');
                attempts = some attempts';
                state = s';
              }
              else rest
        ]

  -- `_safe_transport_estimate`, by the kind of the `LLMTransportError` that it raises.
  unfoldable pub safe_transport_estimate : LlmTransportRequest → S → Estimated × S
  unfolding as_refusal
  safe_transport_estimate request s =
      let (estimated, s') = a.transport.estimate request s in (as_refusal estimated, s')

  module _ ⦃r : Rounding⦄ where
    unfoldable pub call : LlmTransportRequest → S → Call A S
    unfolding safe_transport_estimate attempts_from holds_secret
    call request s =
        if holds_secret a.secret_values (a.serialize request)
        then record {
          end = transport_error LlmFailureKind.secret_configuration_failure;
          attempts = none;
          state = s;
        }
        else let (estimated, s') = safe_transport_estimate request s in
          elim estimated [
            | fails kind ↦ record { end = transport_error kind; attempts = none; state = s' }
            | raises ↦ record {
              end = transport_error LlmFailureKind.transport_failure;
              attempts = none;
              state = s';
            }
            | estimates m ↦
                attempts_from m request a.config.retry_policy.max_attempts 1
                  LlmFailureKind.transport_failure no_metrics [] s'
          ]

    -- `_AdapterExecutor.estimate`
    unfoldable pub estimate_call : LlmTransportRequest → S → Estimated × S
    unfolding safe_transport_estimate holds_secret scale_metrics
    estimate_call request s =
        if holds_secret a.secret_values (a.serialize request)
        then (fails LlmFailureKind.secret_configuration_failure, s)
        else let (estimated, s') = safe_transport_estimate request s in
          elim estimated [
            | fails kind ↦ (fails kind, s')
            | raises ↦ (raises, s')
            | estimates m ↦ (estimates (scale_metrics m a.config.retry_policy.max_attempts), s')
          ]
