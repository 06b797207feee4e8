-- ===== src/Llm/Parsing/Objects.antt =====
-- The objects that are found in a text, of src/flowsec/integrations/llm/parsing.py.
use flow_security_agent.Contracts.Values.{Fields}
use flow_security_agent.Contracts.Visible.Scan.{codes}
use flow_security_agent.Llm.Contracts.{LlmFailureKind, RawLlmResponse, RepairType, unparsed}
use flow_security_agent.Llm.Parsing.{
  Decoded, Decoder, Extraction, RawDecoded, audit_of, extract_decoded, extract_payload,
  extract_text, extracts, fenced, finish_payload, is_truncated, refuses_payload, scan,
  single_object,
}
use flow_security_agent.Prelude.Chars.{Chars, strip}
use flow_security_agent.Prelude.{
  ◌≡◌, refl, ap, ◌∙◌, String, false, List, [], ◌∷◌, ◌++◌, Option, none, some, ◌==◌, length,
  is_empty, All, if◌then◌else◌,
}

-- Text without an opening brace, and an object behind it: `body` is what follows its opening brace.
pub record Segment : Type 0 where
  pub prose : Chars
  pub body : Chars
  pub value : Fields

abbrev pub HasNoBrace : Chars → Type 0
HasNoBrace = All (λ c. (c == b'{') ≡ false)

-- The text of segments, and text behind them.
abbrev pub weave : List Segment → Chars → Chars
weave [] tail = tail
weave (s ∷ segments) tail = s.prose ++ (b'{' ∷ (s.body ++ weave segments tail))

-- The decoder reads each object where it stands, and reads it to its end.
abbrev pub ReadsSegments : Decoder → List Segment → Chars → Type 0
ReadsSegments d [] tail = HasNoBrace tail
ReadsSegments d (s ∷ segments) tail =
    HasNoBrace s.prose
    × (d.raw_decode (b'{' ∷ (s.body ++ weave segments tail))
        ≡ RawDecoded.read_object s.value (length s.body))
    × ReadsSegments d segments tail

abbrev pub values_of : List Segment → List Fields
values_of [] = []
values_of (s ∷ segments) = s.value ∷ values_of segments

module _ (d : Decoder) where
  scan-length : (s t : Chars) → scan d (length s) (s ++ t) ≡ scan d 0 t
  unfolding scan
  scan-length [] t = refl
  scan-length (c ∷ s) t = scan-length s t

  scan-HasNoBrace : (s t : Chars) → HasNoBrace s → scan d 0 (s ++ t) ≡ scan d 0 t
  unfolding scan
  scan-HasNoBrace [] t h = refl
  scan-HasNoBrace (c ∷ s) t h = rw (h.0, scan) (scan-HasNoBrace s t h.1)

  scan-end : (s : Chars) → HasNoBrace s → scan d 0 s ≡ some []
  unfolding scan
  scan-end [] h = refl
  scan-end (c ∷ s) h = rw (h.0, scan) (scan-end s h.1)

  scan-weave :
      (segments : List Segment) (tail : Chars)
      → ReadsSegments d segments tail
      → scan d 0 (weave segments tail) ≡ some (values_of segments)
  unfolding scan
  scan-weave [] tail h = scan-end tail h
  scan-weave (s ∷ segments) tail (plain, read, rest) =
      scan-HasNoBrace s.prose (b'{' ∷ (s.body ++ weave segments tail)) plain
      ∙ rw (read, scan)
          (ap
            (λ (o : Option (List Fields)). elim o [
              | none ↦ none
              | some values ↦ some (s.value ∷ values)
            ])
            (scan-length s.body (weave segments tail) ∙ scan-weave segments tail rest))

  -- What a text with these objects gives.
  abbrev pub the_object : List Segment → Extraction
  the_object (s ∷ []) =
      if d.serializes s.value
      then extracts s.value (audit_of RepairType.extract_unique_json_object)
      else refuses_payload LlmFailureKind.malformed_response unparsed
  the_object (s ∷ t ∷ segments) = refuses_payload LlmFailureKind.malformed_response unparsed
  the_object [] = refuses_payload LlmFailureKind.malformed_response unparsed

  single_object-values :
      (segments : List Segment) → single_object d (some (values_of segments)) ≡ the_object segments
  unfolding single_object finish_payload
  single_object-values [] = refl
  single_object-values (s ∷ []) = refl
  single_object-values (s ∷ t ∷ segments) = refl

  extract_text-weave :
      (text : Chars) (segments : List Segment) (tail : Chars)
      → strip text ≡ weave segments tail
      → is_empty (strip text) ≡ false
      → fenced (strip text) ≡ none
      → d.decode (strip text) ≡ Decoded.syntax_error
      → ReadsSegments d segments tail
      → extract_text d text ≡ the_object segments
  unfolding extract_text extract_decoded
  extract_text-weave text segments tail same filled plain undecoded reads =
      rw (filled, extract_text)
        (rw plain (
          rw undecoded (
            ap (λ s. single_object d (scan d 0 s)) same
            ∙ ap (single_object d) (scan-weave segments tail reads)
            ∙ single_object-values segments)))

  -- A response in plain text, in which objects stand among other text without opening braces, gives
  -- its object if there is exactly one, marked as extracted, and it is finite; with none or several
  -- objects, or one that is not finite, it is refused as malformed. The text has no fence and is not
  -- JSON as a whole.
  pub extract_payload-the_object :
      (response : RawLlmResponse) (text : String) (segments : List Segment) (tail : Chars)
      → response.failure ≡ none
      → is_truncated response.finish_status ≡ false
      → response.structured_payload ≡ none
      → response.raw_text ≡ some text
      → strip (codes text) ≡ weave segments tail
      → is_empty (strip (codes text)) ≡ false
      → fenced (strip (codes text)) ≡ none
      → d.decode (strip (codes text)) ≡ Decoded.syntax_error
      → ReadsSegments d segments tail
      → extract_payload d response ≡ the_object segments
  unfolding extract_payload
  extract_payload-the_object response text segments tail sound whole unstructured given same filled
        plain undecoded reads =
      rw (sound, extract_payload)
        (rw whole (
          rw unstructured (
            rw given
              (extract_text-weave (codes text) segments tail same filled plain undecoded reads))))
