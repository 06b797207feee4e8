-- ===== src/Tests/Batch.antt =====
-- Runs of the batch runner and of the chunking at small inputs.
use flow_security_agent.Contracts.Values.{Fields, Value}
use flow_security_agent.Knowledge.{chunk_texts, split_units}
use flow_security_agent.Prelude.Chars.{Chars}
use flow_security_agent.Knowledge.Bounds.{AreWithin, HasShortPieces, chunk_texts-AreWithin}
use flow_security_agent.Knowledge.Visible.{all_visible, visible}
use flow_security_agent.Knowledge.Kept.{chunk_texts-visible}
use flow_security_agent.Runner.{
  CachedResult, CompletionResponse, Files, Hashes, LlmRequest, LlmRunner, RecordSuccess,
  RequestIdentity, RunOutcome, Schema, World, run_requests,
}
use flow_security_agent.Runner.Resume.{run_requests-resume}
use flow_security_agent.Runner.Shards.{select_shard, shards_count, shards_count-all}
use flow_security_agent.Prelude.{
  ℕ, zero, suc, ◌-◌, ◌≡◌, refl, String, Bool, true, false, List, [], ◌∷◌, Option, none, some, arith,
  str_eq,
}
use flow_security_agent.Tests.Program.{program}

abbrev hashes : Hashes
hashes = record {
  sha256_text = λ s. s;
  sha256_json = λ v. "json";
  digest = λ (i : RequestIdentity). i.record_id;
}

-- An answer is its text.
abbrev read_back : Fields → Option String
read_back Fields.end = none
read_back (Fields.field key (Value.text t) rest) = some t
read_back (Fields.field key other rest) = none

abbrev answers : Schema String
answers = record {
  read_output = λ t. some t;
  validate = read_back;
  dump = λ t. Fields.field "text" (Value.text t) Fields.end;
  record_id_of = λ t. none;
}

-- The first call fails.
abbrev reply : ℕ → Option CompletionResponse
reply zero = none
reply (suc n) = some (record { text = "answer"; usage = Fields.end; response_id = none })

abbrev world : World ℕ
world = record {
  complete = λ prompt model generation e. (reply e, suc e);
  elapsed = λ start e. e - start;
  now = λ e. "now";
  pause = λ e. e;
}

abbrev runner : LlmRunner String ℕ
runner = record {
  hashes = hashes;
  schema = answers;
  world = world;
  model = "model";
  generation = Value.text "generation";
  schema_version = "1";
  runtime_identity = Value.text "runtime";
  max_retries = 2;
}

abbrev request : String → LlmRequest
request id = record { record_id = id; input_data = Value.text "input"; prompt = "prompt" }

abbrev requests : List LlmRequest
requests = request "a" ∷ request "b" ∷ []

abbrev identity : String → RequestIdentity
identity id = record {
  record_id = id;
  input_fingerprint = "json";
  prompt_fingerprint = "prompt";
  model = "model";
  generation_fingerprint = "json";
  runtime_fingerprint = "json";
  schema_version = "1";
}

abbrev cached : String → ℕ → ℕ → CachedResult
cached id latency attempts = record {
  identity = identity id;
  output = Fields.field "text" (Value.text "answer") Fields.end;
  usage = Fields.end;
  latency_seconds = latency;
  attempts = attempts;
  response_id = none;
  created_at = "now";
}

abbrev files : Files
files = ("a/a.json", some (cached "a" 2 2)) ∷ ("b/b.json", some (cached "b" 1 1)) ∷ []

abbrev got : Bool → String → ℕ → ℕ → RecordSuccess
got hit id latency attempts = record {
  record_id = id;
  identity = identity id;
  output = Fields.field "text" (Value.text "answer") Fields.end;
  cache_hit = hit;
  attempts = attempts;
  latency_seconds = latency;
  usage = Fields.end;
  response_id = none;
}

abbrev first_run : RunOutcome
first_run = record {
  successes = got false "a" 2 2 ∷ got false "b" 1 1 ∷ [];
  failures = [];
  api_calls = 3;
}

abbrev second_run : RunOutcome
second_run = record {
  successes = got true "a" 2 0 ∷ got true "b" 1 0 ∷ [];
  failures = [];
  api_calls = 0;
}

first : run_requests runner requests [] 0 ≡ some (first_run, files, 3)
unfolding program
first = refl

own_files : str_eq "b/b.json" "a/a.json" ≡ false
own_files = refl

run_requests-resume_example : run_requests runner requests files 9 ≡ some (second_run, files, 9)
unfolding program
run_requests-resume_example =
    run_requests-resume runner (λ a. refl) requests [] files 0 3 9 first_run
      (((own_files, tt), (tt, tt))) first refl

repeated : run_requests runner (request "a" ∷ request "a" ∷ []) [] 0 ≡ none
unfolding program
repeated = refl

abbrev sizes : String → ℕ
sizes id = if_a (str_eq id "a")
  where
    if_a : Bool → ℕ
    if_a true = 5
    if_a false = 6

second_shard : select_shard sizes requests 3 0 ≡ some (request "b" ∷ [])
unfolding program
second_shard = refl

shards_count-all_example : shards_count sizes (λ q. true) requests 3 3 ≡ 2
unfolding program
shards_count-all_example = shards_count-all sizes (λ q. true) requests 3 (omega arith)

-- "# T", two lines of text and another paragraph.
abbrev body : Chars
body =
    b'#' ∷ 32 ∷ b'T' ∷ 10 ∷ b'a' ∷ 32 ∷ 10 ∷ b'b' ∷ b'c' ∷ b'd' ∷ b'e' ∷ 10 ∷ 10 ∷ b'f' ∷ 32 ∷ b'g'
    ∷ 10 ∷ []

chunks :
    chunk_texts 8 6 body
    ≡ (b'#' ∷ 32 ∷ b'T' ∷ [])
      ∷ (b'a' ∷ 10 ∷ b'b' ∷ b'c' ∷ b'd' ∷ b'e' ∷ [])
      ∷ (b'f' ∷ 32 ∷ b'g' ∷ [])
      ∷ []
unfolding program
chunks = refl

-- Two words that fill a chunk each: the white space between them becomes a chunk without text.
empty_chunk :
    chunk_texts 2 2 (b'a' ∷ b'b' ∷ 32 ∷ b'c' ∷ b'd' ∷ 10 ∷ [])
    ≡ (b'a' ∷ b'b' ∷ []) ∷ [] ∷ (b'c' ∷ b'd' ∷ []) ∷ []
unfolding program
empty_chunk = refl

chunk_texts-visible_example : all_visible (chunk_texts 8 6 body) ≡ visible body
chunk_texts-visible_example = chunk_texts-visible 8 6 body

short_pieces : HasShortPieces 8 (split_units body)
unfolding program
short_pieces = (
  (omega arith, (omega arith, (omega arith, tt))),
  (
    (omega arith, (omega arith, (omega arith, tt))),
    ((omega arith, (omega arith, (omega arith, tt))), tt),
  ),
)

chunk_texts-AreWithin_example : AreWithin 8 (chunk_texts 8 6 body)
chunk_texts-AreWithin_example = chunk_texts-AreWithin 8 6 body short_pieces
