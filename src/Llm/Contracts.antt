-- ===== src/Llm/Contracts.antt =====
-- src/flowsec/integrations/llm/contracts.py. The texts of failures are left out, and so is that
-- `json.dumps` accepts the options; floats are as in Prelude/Floats.
pub mod Boundary
use flow_security_agent.Contracts.Enums.{EvidenceTrust, EvidenceTrust-discrete}
use flow_security_agent.Contracts.Evidence.{CallMetrics, no_metrics}
use flow_security_agent.Contracts.Values.{Fields}
use flow_security_agent.Contracts.Visible.{passes, check_text, check_fields}
use flow_security_agent.Contracts.Visible.Scan.{codes, contains}
use flow_security_agent.Prelude.Floats.{Rounding, float_add}
use flow_security_agent.Prelude.{
  ℕ, ◌+◌, ◌*◌, String, Bool, true, false, not, ◌&&◌, ◌||◌, List, [], ◌∷◌, Option, none, some, leb,
  any, all, is_empty, same, str_eq, if◌then◌else◌,
}

pub data LlmFailureKind : Type 0 where
  transport_failure timeout rate_limit_like_failure empty_response malformed_response :
      LlmFailureKind
  schema_validation_failure unsupported_response truncated_response : LlmFailureKind
  secret_configuration_failure : LlmFailureKind

unfoldable pub LlmFailureKind-discrete : Discrete LlmFailureKind
LlmFailureKind-discrete = hlevel

pub data ResponseMode : Type 0 where
  text structured auto : ResponseMode

pub data MessageRole : Type 0 where
  system user : MessageRole

pub data ContentKind : Type 0 where
  instruction evidence_data : ContentKind

pub data RepairType : Type 0 where
  unrepaired strip_markdown_fence extract_unique_json_object : RepairType

-- `item.kind is ContentKind.INSTRUCTION` and `self.role is MessageRole.SYSTEM`
unfoldable pub is_instruction : ContentKind → Bool
is_instruction ContentKind.instruction = true
is_instruction ContentKind.evidence_data = false

unfoldable pub is_system : MessageRole → Bool
is_system MessageRole.system = true
is_system MessageRole.user = false

unfoldable pub is_untrusted : Option EvidenceTrust → Bool
is_untrusted none = false
is_untrusted (some t) = same EvidenceTrust-discrete t EvidenceTrust.untrusted_evidence

unfoldable pub is_given : {A : Type 0} → Option A → Bool
is_given none = false
is_given (some x) = true

pub record MessageContent : Type 0 where
  pub kind : ContentKind
  pub content : String
  pub trust : Option EvidenceTrust
  pub label : String

unfoldable pub content_is_valid : MessageContent → Bool
unfolding is_instruction is_untrusted is_given
content_is_valid c =
    not (str_eq c.content "")
    && not (str_eq c.label "")
    && passes (check_text c.content)
    && not (is_untrusted c.trust && is_instruction c.kind)
    && not (is_instruction c.kind && is_given c.trust)

pub record LlmMessage : Type 0 where
  pub role : MessageRole
  pub content : List MessageContent

unfoldable pub message_is_valid : LlmMessage → Bool
unfolding content_is_valid is_system is_instruction
message_is_valid m =
    all content_is_valid m.content
    && not (is_empty m.content)
    && not (is_system m.role && any (λ (c : MessageContent). not (is_instruction c.kind)) m.content)

pub record PromptIdentity : Type 0 where
  pub prompt_id : String
  pub prompt_version : String
  pub prompt_hash : String
  pub renderer_version : String

pub record LlmTransportRequest : Type 0 where
  pub provider : String
  pub base_url : String
  pub model_id : String
  pub messages : List LlmMessage
  pub timeout_seconds : ℕ
  pub response_mode : ResponseMode
  pub generation_options : Fields
  pub prompt : PromptIdentity
  pub request_metadata : Fields

-- `not self.messages or self.messages[0].role is not MessageRole.SYSTEM`, negated.
unfoldable pub begins_with_system : List LlmMessage → Bool
unfolding is_system
begins_with_system [] = false
begins_with_system (m ∷ ms) = is_system m.role

-- The validators of the messages of a request, and the first test of `validate_request`.
unfoldable pub messages_are_valid : List LlmMessage → Bool
unfolding message_is_valid begins_with_system
messages_are_valid ms = all message_is_valid ms && begins_with_system ms

pub record RetryPolicy : Type 0 where
  pub max_attempts : ℕ
  pub retryable_failures : List LlmFailureKind

-- The fields of `LLMBackendConfig` that a call reads.
pub record LlmBackendConfig : Type 0 where
  pub provider : String
  pub model_id : String
  pub retry_policy : RetryPolicy
  pub response_mode : ResponseMode

unfoldable pub is_retryable : RetryPolicy → LlmFailureKind → Bool
is_retryable p kind = any (λ k. same LlmFailureKind-discrete k kind) p.retryable_failures

pub record RawUsage : Type 0 where
  pub input_tokens : Option ℕ
  pub output_tokens : Option ℕ
  pub total_tokens : Option ℕ
  pub abstract_cost : ℕ
  pub abstract_latency : ℕ

unfoldable pub or_zero : Option ℕ → ℕ
or_zero none = 0
or_zero (some n) = n

unfoldable pub total_suffices : Option ℕ → Option ℕ → Option ℕ → Bool
total_suffices none input output = true
total_suffices (some total) none output = true
total_suffices (some total) (some input) none = true
total_suffices (some total) (some input) (some output) = leb (input + output) total

-- `validate_total`
unfoldable pub usage_is_valid : RawUsage → Bool
unfolding total_suffices
usage_is_valid u = total_suffices u.total_tokens u.input_tokens u.output_tokens

unfoldable pub to_metrics : RawUsage → CallMetrics
unfolding or_zero
to_metrics u = record {
  abstract_tokens = elim u.total_tokens [
    | none ↦ or_zero u.input_tokens + or_zero u.output_tokens
    | some total ↦ total
  ];
  abstract_cost = u.abstract_cost;
  abstract_latency = u.abstract_latency;
}

pub record RawLlmResponse : Type 0 where
  pub raw_text : Option String
  pub structured_payload : Option Fields
  pub usage : RawUsage
  pub finish_status : Option String
  pub provider : String
  pub model_id : Option String
  pub failure : Option LlmFailureKind

pub record ParseAudit : Type 0 where
  pub repair_applied : Bool
  pub repair_type : RepairType

-- `ParseAudit(parser_profile_id="unparsed")`
abbrev pub unparsed : ParseAudit
unparsed = record { repair_applied = false; repair_type = RepairType.unrepaired }

pub record BackendAttemptRecord : Type 0 where
  pub attempt : ℕ
  pub failure : Option LlmFailureKind
  pub metrics : CallMetrics
  pub repair_applied : Bool
  pub repair_type : RepairType

-- `SecretRedactor.contains`, after `SecretRedactor.__init__` has dropped the empty values.
unfoldable pub holds_secret : List String → String → Bool
holds_secret values serialized =
    any (λ secret. not (str_eq secret "") && contains (codes secret) (codes serialized)) values

module _ ⦃r : Rounding⦄ where
  unfoldable pub add_metrics : CallMetrics → CallMetrics → CallMetrics
  add_metrics left right = record {
    abstract_tokens = left.abstract_tokens + right.abstract_tokens;
    abstract_cost = float_add left.abstract_cost right.abstract_cost;
    abstract_latency = float_add left.abstract_latency right.abstract_latency;
  }

  -- The product of a float and a whole number is rounded once.
  unfoldable pub scale_metrics : CallMetrics → ℕ → CallMetrics
  scale_metrics metrics multiplier = record {
    abstract_tokens = metrics.abstract_tokens * multiplier;
    abstract_cost = r.round (metrics.abstract_cost * multiplier);
    abstract_latency = r.round (metrics.abstract_latency * multiplier);
  }
