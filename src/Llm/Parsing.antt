-- ===== src/Llm/Parsing.antt =====
-- The parsers of src/flowsec/integrations/llm/parsing.py. Texts are lists of characters, and letters and
-- white space are ASCII. The JSON decoder is a parameter, and so is how pydantic reads a payload's
-- fields; the names of the parsers' profiles are left out.
pub mod Answers
pub mod Objects
use flow_security_agent.Contracts.Enums.{AgentAction, EvidenceSufficiency}
use flow_security_agent.Contracts.Evidence.{
  MissingEvidence, PredictionCandidate, SupportingEvidence, TrafficExpertResult, result_is_valid,
}
use flow_security_agent.Contracts.Requests.{
  SupervisorDecision, ToolRequest, decision_is_valid, request_is_valid,
}
use flow_security_agent.Contracts.Values.{Fields}
use flow_security_agent.Contracts.Visible.Scan.{codes, eq_codes}
use flow_security_agent.Llm.Contracts.{
  LlmFailureKind, ParseAudit, RawLlmResponse, RepairType, to_metrics, unparsed,
}
use flow_security_agent.Llm.Executor.{Parsed, parses, refuses}
use flow_security_agent.Prelude.Chars.{Chars, strip}
use flow_security_agent.Prelude.Int.{ℤ}
use flow_security_agent.Prelude.{
  ℕ, zero, suc, ◌+◌, String, Bool, true, false, not, ◌&&◌, ◌||◌, List, [], ◌∷◌, ◌++◌, Option, none,
  some, map, leb, ◌==◌, is_empty, str_eq, if◌then◌else◌,
}

-- What `decode` makes of a text: an object, another value, a `JSONDecodeError`, or another `ValueError`,
-- of a repeated key or a constant that is not finite.
pub data Decoded : Type 0 where
  object : Fields → Decoded
  other_value syntax_error rejected : Decoded

-- What `raw_decode` makes of the text from an opening brace on, with the number of characters that it
-- reads behind the brace.
pub data RawDecoded : Type 0 where
  read_object : Fields → ℕ → RawDecoded
  read_other : ℕ → RawDecoded
  syntax_error rejected : RawDecoded

-- `serializes` tells whether `json.dumps` without NaN accepts an object.
pub record Decoder : Type 0 where
  pub decode : Chars → Decoded
  pub raw_decode : Chars → RawDecoded
  pub serializes : Fields → Bool

pub data Extraction : Type 0 where
  extracts : Fields → ParseAudit → Extraction
  refuses_payload : LlmFailureKind → ParseAudit → Extraction

unfoldable pub lower : ℕ → ℕ
lower c = if leb 65 c && leb c 90 then c + 32 else c

unfoldable pub is_truncated : Option String → Bool
unfolding lower eq_codes
is_truncated none = false
is_truncated (some status) =
    let folded = map lower (codes status) in
    eq_codes folded (codes "length")
    || eq_codes folded (codes "truncated")
    || eq_codes folded (codes "max_tokens")
    || eq_codes folded (codes "incomplete")

-- The text behind an opening fence.
unfoldable pub drop_opening : Chars → Option Chars
drop_opening (a ∷ b ∷ c ∷ rest) = if a == 96 && b == 96 && c == 96 then some rest else none
drop_opening s = none

-- Behind the word json, if it is there.
unfoldable pub drop_json : Chars → Chars
unfolding lower
drop_json (j ∷ s ∷ o ∷ n ∷ rest) =
    if lower j == b'j' && lower s == b's' && lower o == b'o' && lower n == b'n'
    then rest
    else j ∷ s ∷ o ∷ n ∷ rest
drop_json s = s

unfoldable pub is_fence : Chars → Bool
is_fence (a ∷ b ∷ c ∷ []) = a == 96 && b == 96 && c == 96
is_fence s = false

-- The text before a fence that closes it.
unfoldable pub drop_closing : Chars → Option Chars
unfolding is_fence
drop_closing [] = none
drop_closing (c ∷ cs) =
    let rest = drop_closing cs in
    if is_fence (c ∷ cs) then some [] else elim rest [ none ↦ none | some s ↦ some (c ∷ s) ]

-- The group of the pattern of a fence, stripped.
unfoldable pub fenced : Chars → Option Chars
unfolding drop_opening drop_json drop_closing strip
fenced cleaned = elim (drop_opening cleaned) [
  | none ↦ none
  | some inner ↦ elim (drop_closing (drop_json inner)) [ none ↦ none | some s ↦ some (strip s) ]
]

unfoldable pub is_repair : RepairType → Bool
is_repair RepairType.unrepaired = false
is_repair RepairType.strip_markdown_fence = true
is_repair RepairType.extract_unique_json_object = true

unfoldable pub audit_of : RepairType → ParseAudit
unfolding is_repair
audit_of repair = record { repair_applied = is_repair repair; repair_type = repair }

module _ (d : Decoder) where
  -- The loop over the opening braces, past the first characters; `none` where it raises.
  unfoldable pub scan : ℕ → Chars → Option (List Fields)
  scan skipped [] = some []
  scan (suc skipped) (c ∷ cs) = scan skipped cs
  scan zero (c ∷ cs) = elim (c == b'{') [
    | false ↦ scan zero cs
    | true ↦ elim (d.raw_decode (c ∷ cs)) [
      | read_object value n ↦ elim (scan n cs) [ none ↦ none | some values ↦ some (value ∷ values) ]
      | read_other n ↦ scan n cs
      | syntax_error ↦ scan zero cs
      | rejected ↦ none
    ]
  ]

  -- The last steps of `_extract_payload`, with an object and the repair that led to it.
  unfoldable pub finish_payload : Fields → RepairType → Extraction
  unfolding audit_of
  finish_payload value repair =
      if d.serializes value
      then extracts value (audit_of repair)
      else refuses_payload LlmFailureKind.malformed_response unparsed

  -- What is made of the objects that the loop has found.
  unfoldable pub single_object : Option (List Fields) → Extraction
  unfolding finish_payload
  single_object (some (value ∷ [])) = finish_payload value RepairType.extract_unique_json_object
  single_object (some (value ∷ other ∷ values)) =
      refuses_payload LlmFailureKind.malformed_response unparsed
  single_object (some []) = refuses_payload LlmFailureKind.malformed_response unparsed
  single_object none = refuses_payload LlmFailureKind.malformed_response unparsed

  unfoldable pub extract_decoded : RepairType → Chars → Decoded → Extraction
  unfolding single_object scan finish_payload audit_of
  extract_decoded repair cleaned (object value) = finish_payload value repair
  extract_decoded repair cleaned other_value =
      refuses_payload LlmFailureKind.schema_validation_failure (audit_of repair)
  extract_decoded repair cleaned rejected =
      refuses_payload LlmFailureKind.malformed_response unparsed
  extract_decoded repair cleaned syntax_error = single_object (scan 0 cleaned)

  unfoldable pub extract_text : Chars → Extraction
  unfolding fenced strip extract_decoded
  extract_text text =
      let cleaned = strip text in
      if is_empty cleaned
      then refuses_payload LlmFailureKind.empty_response unparsed
      else elim (fenced cleaned) [
        | none ↦ extract_decoded RepairType.unrepaired cleaned (d.decode cleaned)
        | some inner ↦ extract_decoded RepairType.strip_markdown_fence inner (d.decode inner)
      ]

  -- `_extract_payload`
  unfoldable pub extract_payload : RawLlmResponse → Extraction
  unfolding is_truncated extract_text
  extract_payload response = elim response.failure [
    | some kind ↦ refuses_payload kind unparsed
    | none ↦
        if is_truncated response.finish_status
        then refuses_payload LlmFailureKind.truncated_response unparsed
        else elim response.structured_payload [
          | some payload ↦
              if d.serializes payload
              then extracts payload unparsed
              else refuses_payload LlmFailureKind.malformed_response unparsed
          | none ↦ elim response.raw_text [
            | none ↦ refuses_payload LlmFailureKind.empty_response unparsed
            | some text ↦ extract_text (codes text)
          ]
        ]
  ]

-- `_FixtureTrafficExpertPayloadV0`
pub record ExpertPayload : Type 0 where
  pub fine_candidates : List PredictionCandidate
  pub coarse_candidates : List PredictionCandidate
  pub short_analysis : String
  pub supporting_evidence : List SupportingEvidence
  pub missing_evidence : List MissingEvidence
  pub evidence_sufficiency : EvidenceSufficiency
  pub model_signals : Fields

-- `_FixtureSupervisorPayloadV0`
pub record SupervisorPayload : Type 0 where
  pub action : AgentAction
  pub request_parameters : Option Fields
  pub short_reason : String
  pub priority : Option ℤ
  pub expected_value : Option ℤ

unfoldable pub expert_result : RawLlmResponse → ExpertPayload → TrafficExpertResult
unfolding to_metrics
expert_result response p = record {
  fine_candidates = p.fine_candidates;
  coarse_candidates = p.coarse_candidates;
  short_analysis = p.short_analysis;
  supporting_evidence = p.supporting_evidence;
  missing_evidence = p.missing_evidence;
  evidence_sufficiency = p.evidence_sufficiency;
  model_signals = p.model_signals;
  metrics = to_metrics response.usage;
}

-- `FixtureTrafficExpertResponseParserV0.parse`; `read` is the `model_validate` of the payload.
unfoldable pub expert_parse :
    Decoder → (Fields → Option ExpertPayload) → RawLlmResponse → Parsed TrafficExpertResult
unfolding extract_payload expert_result
expert_parse d read response = elim (extract_payload d response) [
  | refuses_payload kind audit ↦ refuses kind audit
  | extracts payload audit ↦ elim (read payload) [
    | none ↦ refuses LlmFailureKind.schema_validation_failure audit
    | some parsed ↦
        if result_is_valid (expert_result response parsed)
        then parses (expert_result response parsed) audit
        else refuses LlmFailureKind.schema_validation_failure audit
  ]
]

unfoldable pub requested : AgentAction → Option Fields → Option ToolRequest
requested action none = none
requested action (some parameters) = some (record { action = action; parameters = parameters })

unfoldable pub supervisor_decision : RawLlmResponse → SupervisorPayload → SupervisorDecision
unfolding to_metrics requested
supervisor_decision response p = record {
  action = p.action;
  request = requested p.action p.request_parameters;
  short_reason = p.short_reason;
  priority = p.priority;
  expected_value = p.expected_value;
  planned_actions = [];
  metrics = to_metrics response.usage;
}

-- `FixtureSupervisorResponseParserV0.parse`. That a decision is valid implies that its request is.
unfoldable pub supervisor_parse :
    Decoder → (Fields → Option SupervisorPayload) → RawLlmResponse → Parsed SupervisorDecision
unfolding extract_payload supervisor_decision
supervisor_parse d read response = elim (extract_payload d response) [
  | refuses_payload kind audit ↦ refuses kind audit
  | extracts payload audit ↦ elim (read payload) [
    | none ↦ refuses LlmFailureKind.schema_validation_failure audit
    | some parsed ↦
        if decision_is_valid (supervisor_decision response parsed)
        then parses (supervisor_decision response parsed) audit
        else refuses LlmFailureKind.schema_validation_failure audit
  ]
]
