-- ===== src/Tests/Parsing.antt =====
-- Responses of a language model that are parsed.
use flow_security_agent.Contracts.Enums.{AgentAction}
use flow_security_agent.Contracts.Evidence.{TrafficExpertResult, result_is_valid}
use flow_security_agent.Contracts.Requests.{SupervisorDecision, decision_is_valid}
use flow_security_agent.Contracts.Values.{Fields}
use flow_security_agent.Llm.Contracts.{
  LlmFailureKind, ParseAudit, RawLlmResponse, RepairType, to_metrics, unparsed,
}
use flow_security_agent.Llm.Executor.{parses, refuses}
use flow_security_agent.Llm.Parsing.{
  Decoded, Decoder, ExpertPayload, RawDecoded, SupervisorPayload, expert_parse, extract_payload,
  extracts, refuses_payload, supervisor_parse,
}
use flow_security_agent.Llm.Parsing.Answers.{
  IsOwn, IsWhole, expert_parse-IsValid, supervisor_parse-IsValid,
}
use flow_security_agent.Llm.Parsing.Objects.{Segment, extract_payload-the_object}
use flow_security_agent.Prelude.Chars.{Chars}
use flow_security_agent.Prelude.{
  ℕ, suc, ◌≡◌, refl, String, true, [], ◌∷◌, none, some, ◌==◌, if◌then◌else◌,
}
use flow_security_agent.Tests.Data.{accept, sure}
use flow_security_agent.Tests.Program.{program}

-- An object ends at the first closing brace and is empty.
abbrev to_brace : ℕ → Chars → RawDecoded
to_brace n [] = RawDecoded.syntax_error
to_brace n (c ∷ cs) =
    let rest = to_brace (suc n) cs in
    if c == b'}' then RawDecoded.read_object Fields.end n else rest

-- A text is JSON as a whole if it is "{}".
abbrev whole : Chars → Decoded
whole (a ∷ b ∷ []) = if a == b'{' then Decoded.object Fields.end else Decoded.syntax_error
whole s = Decoded.syntax_error

abbrev decoder : Decoder
decoder = record { decode = whole; raw_decode = to_brace 0; serializes = λ f. true }

abbrev response : String → RawLlmResponse
response text = record {
  raw_text = some text;
  structured_payload = none;
  usage = record {
    input_tokens = some 2;
    output_tokens = none;
    total_tokens = none;
    abstract_cost = 1;
    abstract_latency = 0;
  };
  finish_status = none;
  provider = "p";
  model_id = none;
  failure = none;
}

plain : extract_payload decoder (response "{}") ≡ extracts Fields.end unparsed
unfolding program
plain = refl

in_fence :
    extract_payload decoder (response "```JSON\n{}\n```")
    ≡ extracts Fields.end
        (record { repair_applied = true; repair_type = RepairType.strip_markdown_fence })
unfolding program
in_fence = refl

two_objects :
    extract_payload decoder (response "{} or {}")
    ≡ refuses_payload LlmFailureKind.malformed_response unparsed
unfolding program
two_objects = refl

cut_off :
    extract_payload decoder (record (response "{}") { finish_status = some "LENGTH" })
    ≡ refuses_payload LlmFailureKind.truncated_response unparsed
unfolding program
cut_off = refl

abbrev segment : Segment
segment = record { prose = b'i' ∷ b's' ∷ 32 ∷ []; body = b'x' ∷ b'}' ∷ []; value = Fields.end }

abbrev extracted : ParseAudit
extracted = record { repair_applied = true; repair_type = RepairType.extract_unique_json_object }

extract_payload-the_object_example :
    extract_payload decoder (response "is {x} ok") ≡ extracts Fields.end extracted
unfolding program
extract_payload-the_object_example =
    extract_payload-the_object decoder (response "is {x} ok") "is {x} ok" (segment ∷ [])
      (32 ∷ b'o' ∷ b'k' ∷ []) refl refl refl refl refl refl refl refl
      ((refl, (refl, (refl, tt))), refl, (refl, (refl, (refl, tt))))

abbrev result : TrafficExpertResult
result = record sure {
  metrics = record { abstract_tokens = 2; abstract_cost = 1; abstract_latency = 0 };
}

abbrev expert_payload : ExpertPayload
expert_payload = record {
  fine_candidates = sure.fine_candidates;
  coarse_candidates = sure.coarse_candidates;
  short_analysis = sure.short_analysis;
  supporting_evidence = sure.supporting_evidence;
  missing_evidence = sure.missing_evidence;
  evidence_sufficiency = sure.evidence_sufficiency;
  model_signals = sure.model_signals;
}

parsed_result :
    expert_parse decoder (λ f. some expert_payload) (response "{}") ≡ parses result unparsed
unfolding program
parsed_result = refl

unread_result :
    expert_parse decoder (λ f. none) (response "is {}")
    ≡ refuses LlmFailureKind.schema_validation_failure extracted
unfolding program
unread_result = refl

expert_parse-IsValid_example :
    (result_is_valid result ≡ true)
    × (result.metrics ≡ to_metrics (response "{}").usage)
    × IsWhole (response "{}")
expert_parse-IsValid_example =
    expert_parse-IsValid decoder (λ f. some expert_payload) (response "{}") result unparsed
      parsed_result

abbrev decision : SupervisorDecision
decision = record accept {
  action = AgentAction.expand_packets;
  request = some (record { action = AgentAction.expand_packets; parameters = Fields.end });
  metrics = record { abstract_tokens = 2; abstract_cost = 1; abstract_latency = 0 };
}

abbrev supervisor_payload : SupervisorPayload
supervisor_payload = record {
  action = AgentAction.expand_packets;
  request_parameters = some Fields.end;
  short_reason = "clear";
  priority = none;
  expected_value = none;
}

parsed_decision :
    supervisor_parse decoder (λ f. some supervisor_payload) (response "{}")
    ≡ parses decision unparsed
unfolding program
parsed_decision = refl

supervisor_parse-IsValid_example :
    (decision_is_valid decision ≡ true)
    × IsOwn decision decision.request
    × (decision.metrics ≡ to_metrics (response "{}").usage)
    × IsWhole (response "{}")
supervisor_parse-IsValid_example =
    supervisor_parse-IsValid decoder (λ f. some supervisor_payload) (response "{}") decision
      unparsed parsed_decision
