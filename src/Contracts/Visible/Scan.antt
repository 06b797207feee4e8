-- ===== src/Contracts/Visible/Scan.antt =====
-- The searches that `validate_model_visible_value` makes in a text: prohibited names, the IPv4
-- pattern and the pattern of an absolute time.
use Prim.Native.Char.{code}
use flow_security_agent.Prelude.{
  ℕ, zero, suc, ◌+◌, String, Bool, true, false, not, ◌&&◌, ◌||◌, List, [], ◌∷◌, map, leb, ◌==◌,
  if◌then◌else◌,
}

abbrev pub codes : String → List ℕ
codes String.[] = []
codes (String.◌∷◌ c s) = code c ∷ codes s

-- `casefold().replace("-", "_")`, by the character.
unfoldable pub normalize_code : ℕ → ℕ
normalize_code c = if leb b'A' c && leb c b'Z' then c + 32 else if c == b'-' then b'_' else c

unfoldable pub normalize : List ℕ → List ℕ
normalize = map normalize_code

unfoldable pub prohibited_names : List (List ℕ)
prohibited_names =
    codes "ground_truth"
    ∷ codes "evaluation_label"
    ∷ codes "dataset_id"
    ∷ codes "dataset_name"
    ∷ codes "capture_id"
    ∷ codes "capture_name"
    ∷ codes "scenario_id"
    ∷ codes "scenario_name"
    ∷ codes "backend_identity"
    ∷ codes "backend_id"
    ∷ codes "sample_id"
    ∷ codes "fine_label"
    ∷ codes "coarse_label"
    ∷ codes "ku_role"
    ∷ codes "u_dev"
    ∷ codes "u_final"
    ∷ codes "physical_split"
    ∷ codes "sft_membership"
    ∷ codes "selection_reason"
    ∷ codes "source_file"
    ∷ codes "source_path"
    ∷ codes "filesystem_path"
    ∷ codes "pcap_path"
    ∷ codes "csv_path"
    ∷ codes "source_hash"
    ∷ codes "source_sha256"
    ∷ codes "capture_ref_hash"
    ∷ codes "source_ip"
    ∷ codes "destination_ip"
    ∷ codes "src_ip"
    ∷ codes "dst_ip"
    ∷ codes "raw_ip"
    ∷ codes "raw_payload"
    ∷ codes "unsanitized_payload"
    ∷ codes "absolute_timestamp"
    ∷ codes "timestamp_absolute"
    ∷ codes "timestamp_start"
    ∷ codes "timestamp_end"
    ∷ []

unfoldable pub eq_codes : List ℕ → List ℕ → Bool
eq_codes [] [] = true
eq_codes [] (d ∷ ds) = false
eq_codes (c ∷ cs) [] = false
eq_codes (c ∷ cs) (d ∷ ds) = c == d && eq_codes cs ds

unfoldable pub begins : List ℕ → List ℕ → Bool
begins [] s = true
begins (c ∷ cs) [] = false
begins (c ∷ cs) (d ∷ ds) = c == d && begins cs ds

-- `name in s`
unfoldable pub contains : List ℕ → List ℕ → Bool
contains name [] = begins name []
contains name (c ∷ cs) = begins name (c ∷ cs) || contains name cs

abbrev pub is_digit : ℕ → Bool
is_digit c = leb b'0' c && leb c b'9'

abbrev pub is_word : ℕ → Bool
is_word c = is_digit c || leb b'a' c && leb c b'z' || leb b'A' c && leb c b'Z' || c == b'_'

-- How many digits a text begins with, and what stands behind them.
unfoldable pub split_digits : List ℕ → ℕ × List ℕ
split_digits [] = (0, [])
split_digits (c ∷ cs) =
    let (n, rest) = split_digits cs in if is_digit c then (suc n, rest) else (0, c ∷ cs)

-- `\d{1,3}` up to a character that is no digit: the run has one to three digits.
abbrev pub is_octet : ℕ → Bool
is_octet n = leb 1 n && leb n 3

-- `(?:\d{1,3}\.){k}\d{1,3}(?!\d)`. The dots and the end leave one way to take each run.
unfoldable pub octets : ℕ → List ℕ → Bool
octets zero s = is_octet (split_digits s).0
octets (suc k) s = elim (split_digits s).1 [
  | [] ↦ false
  | c ∷ rest ↦ is_octet (split_digits s).0 && c == b'.' && octets k rest
]

-- A search for a pattern that must not stand behind a character of a class; `inside` tells that such
-- a character stands before.
unfoldable pub search_from : (List ℕ → Bool) → (ℕ → Bool) → Bool → List ℕ → Bool
search_from test edge inside [] = false
search_from test edge inside (c ∷ cs) =
    not inside && test (c ∷ cs) || search_from test edge (edge c) cs

-- `_IPV4_PATTERN.search`: `(?<!\d)` asks that no digit stands before.
unfoldable pub has_ipv4 : List ℕ → Bool
has_ipv4 = search_from (octets 3) is_digit false

unfoldable pub matches : List (ℕ → Bool) → List ℕ → Bool
matches [] s = true
matches (p ∷ ps) [] = false
matches (p ∷ ps) (c ∷ cs) = p c && matches ps cs

-- `\d{4}-\d{2}-\d{2}[T ][0-2]\d:[0-5]\d`
unfoldable pub time_pattern : List (ℕ → Bool)
time_pattern =
    is_digit
    ∷ is_digit
    ∷ is_digit
    ∷ is_digit
    ∷ (λ c. c == b'-')
    ∷ is_digit
    ∷ is_digit
    ∷ (λ c. c == b'-')
    ∷ is_digit
    ∷ is_digit
    ∷ (λ c. c == b'T' || c == b' ')
    ∷ (λ c. leb b'0' c && leb c b'2')
    ∷ is_digit
    ∷ (λ c. c == b':')
    ∷ (λ c. leb b'0' c && leb c b'5')
    ∷ is_digit
    ∷ []

-- `_ABSOLUTE_TIME_PATTERN.search`: the pattern begins with a digit, so `\b` asks that no word
-- character stands before.
unfoldable pub has_absolute_time : List ℕ → Bool
has_absolute_time = search_from (matches time_pattern) is_word false
