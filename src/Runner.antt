-- ===== src/Runner.antt =====
-- The batch runner of src/flowsec/llm/: `LLMRunner` of runtime.py with one worker, `FileResultCache`
-- of cache.py and `RequestIdentity` of fingerprint.py. A file of the cache holds a `CachedResult` or
-- something that cannot be read as one; that a written file reads back as what was written is how JSON
-- and pydantic work, and so is not spelled out; writing it does not fail. `E` is the state of the outside
-- world, and a duration is a number of clock ticks.
pub mod Saved
pub mod Resume
pub mod Shards
use Prim.Native.String.{slice}
use flow_security_agent.Contracts.Values.{Fields, Value}
use flow_security_agent.Prelude.Text.{◌<>◌}
use flow_security_agent.Prelude.{
  ℕ, zero, suc, ◌+◌, String, Bool, true, false, not, ◌&&◌, ◌||◌, List, [], ◌∷◌, ◌++◌, Option, none,
  some, map, any, ltb, str_eq, if◌then◌else◌,
}

pub record LlmRequest : Type 0 where
  pub record_id : String
  pub input_data : Value
  pub prompt : String

pub record RequestIdentity : Type 0 where
  pub record_id : String
  pub input_fingerprint : String
  pub prompt_fingerprint : String
  pub model : String
  pub generation_fingerprint : String
  pub runtime_fingerprint : String
  pub schema_version : String

unfoldable pub eq_identity : RequestIdentity → RequestIdentity → Bool
eq_identity i j =
    str_eq i.record_id j.record_id
    && str_eq i.input_fingerprint j.input_fingerprint
    && str_eq i.prompt_fingerprint j.prompt_fingerprint
    && str_eq i.model j.model
    && str_eq i.generation_fingerprint j.generation_fingerprint
    && str_eq i.runtime_fingerprint j.runtime_fingerprint
    && str_eq i.schema_version j.schema_version

-- What the host computes: `sha256_text`, `sha256_json`, and the latter of an identity's dump.
pub record Hashes : Type 0 where
  pub sha256_text : String → String
  pub sha256_json : Value → String
  pub digest : RequestIdentity → String

pub record CachedResult : Type 0 where
  pub identity : RequestIdentity
  pub output : Fields
  pub usage : Fields
  pub latency_seconds : ℕ
  pub attempts : ℕ
  pub response_id : Option String
  pub created_at : String

-- A file is `none` if it cannot be read as a `CachedResult`.
abbrev pub Files : Type 0
Files = List (String × Option CachedResult)

unfoldable pub read_file : String → Files → Option CachedResult
read_file path [] = none
read_file path ((p, content) ∷ files) = if str_eq p path then content else read_file path files

-- `os.replace(temporary, path)`
unfoldable pub write_file : String → CachedResult → Files → Files
write_file path c [] = (path, some c) ∷ []
write_file path c ((p, content) ∷ files) =
    let rest = write_file path c files in
    if str_eq p path then (p, some c) ∷ files else (p, content) ∷ rest

pub record CompletionResponse : Type 0 where
  pub text : String
  pub usage : Fields
  pub response_id : Option String

-- The schema of the answers, with values of type `A`: `validate_structured_output`, `model_validate`
-- of a dump, the dump, and `getattr(output, "record_id", ...)`, `none` where there is no such field.
pub record Schema (A : Type 0) : Type 0 where
  pub read_output : String → Option A
  pub validate : Fields → Option A
  pub dump : A → Fields
  pub record_id_of : A → Option String

-- `complete` is `none` where it raises. `elapsed` is the time since an earlier state, `now` the time of
-- day; both are read from the state. `pause` sleeps for the delay between attempts.
pub record World (E : Type 0) : Type 0 where
  pub complete : String → String → Value → E → Option CompletionResponse × E
  pub elapsed : E → E → ℕ
  pub now : E → String
  pub pause : E → E

pub record LlmRunner (A E : Type 0) : Type 0 where
  pub hashes : Hashes
  pub schema : Schema A
  pub world : World E
  pub model : String
  pub generation : Value
  pub schema_version : String
  pub runtime_identity : Value
  pub max_retries : ℕ

pub record RecordSuccess : Type 0 where
  pub record_id : String
  pub identity : RequestIdentity
  pub output : Fields
  pub cache_hit : Bool
  pub attempts : ℕ
  pub latency_seconds : ℕ
  pub usage : Fields
  pub response_id : Option String

-- The type and the text of the error are left out.
pub record FailedRecord : Type 0 where
  pub record_id : String
  pub identity : RequestIdentity
  pub attempts : ℕ
  pub latency_seconds : ℕ

pub data Outcome : Type 0 where
  success : RecordSuccess → Outcome
  failed : FailedRecord → Outcome

-- An answer, with the files and the state of the world behind it.
pub record Ran (E : Type 0) : Type 0 where
  pub outcome : Outcome
  pub files : Files
  pub state : E

module _ {A E : Type 0} (r : LlmRunner A E) where
  -- `_identity`, by `build_request_identity`.
  unfoldable pub identity_of : LlmRequest → RequestIdentity
  identity_of q = record {
    record_id = q.record_id;
    input_fingerprint = r.hashes.sha256_json q.input_data;
    prompt_fingerprint = r.hashes.sha256_text q.prompt;
    model = r.model;
    generation_fingerprint = r.hashes.sha256_json r.generation;
    runtime_fingerprint = r.hashes.sha256_json r.runtime_identity;
    schema_version = r.schema_version;
  }

  -- `path_for`: sixteen characters of the hash of the id, and the digest.
  unfoldable pub path_for : RequestIdentity → String
  path_for i = slice (r.hashes.sha256_text i.record_id) 0 16 <> "/" <> r.hashes.digest i <> ".json"

  -- What is made of a file: another identity, or an output that does not fit the schema, counts as no
  -- file.
  unfoldable pub read_entry : RequestIdentity → Option CachedResult → Option (A × CachedResult)
  unfolding eq_identity
  read_entry i none = none
  read_entry i (some cached) =
      if not (eq_identity cached.identity i)
      then none
      else elim (r.schema.validate cached.output) [ none ↦ none | some a ↦ some (a, cached) ]

  -- `FileResultCache.load`
  unfoldable pub load : RequestIdentity → Files → Option (A × CachedResult)
  unfolding read_file path_for read_entry
  load i files = read_entry i (read_file (path_for i) files)

  unfoldable pub save : CachedResult → Files → Files
  unfolding write_file path_for
  save c files = write_file (path_for c.identity) c files

  -- `output_record_id != request.record_id`, negated.
  unfoldable pub is_about : LlmRequest → A → Bool
  is_about q a = elim (r.schema.record_id_of a) [ none ↦ true | some id ↦ str_eq id q.record_id ]

  -- What `validate_structured_output` and the test of the id make of a response.
  unfoldable pub accepted : LlmRequest → Option CompletionResponse → Option (A × CompletionResponse)
  unfolding is_about
  accepted q none = none
  accepted q (some response) = elim (r.schema.read_output response.text) [
    | none ↦ none
    | some a ↦ if is_about q a then some (a, response) else none
  ]

  -- The `CachedResult` that is saved, and the `RecordSuccess` that is returned with it.
  unfoldable pub entry_of : LlmRequest → A → CompletionResponse → ℕ → ℕ → String → CachedResult
  unfolding identity_of
  entry_of q a response latency attempt created_at = record {
    identity = identity_of q;
    output = r.schema.dump a;
    usage = response.usage;
    latency_seconds = latency;
    attempts = attempt;
    response_id = response.response_id;
    created_at = created_at;
  }

  unfoldable pub success_of : LlmRequest → A → CompletionResponse → ℕ → ℕ → RecordSuccess
  unfolding identity_of
  success_of q a response latency attempt = record {
    record_id = q.record_id;
    identity = identity_of q;
    output = r.schema.dump a;
    cache_hit = false;
    attempts = attempt;
    latency_seconds = latency;
    usage = response.usage;
    response_id = response.response_id;
  }

  -- The loop over the attempts, on the number of attempts that are left; `start` is the state in which
  -- the clock was started.
  unfoldable pub try_from : E → LlmRequest → ℕ → ℕ → Files → E → Ran E
  unfolding accepted entry_of success_of save identity_of
  try_from start q zero attempt files e = record {
    outcome = failed (record {
      record_id = q.record_id;
      identity = identity_of q;
      attempts = suc r.max_retries;
      latency_seconds = r.world.elapsed start e;
    });
    files = files;
    state = e;
  }
  try_from start q (suc left) attempt files e =
      let (answer, e') = r.world.complete q.prompt r.model r.generation e in
      let rest =
        try_from start q left (suc attempt) files (if ltb 0 left then r.world.pause e' else e') in
      elim (accepted q answer) [
        | none ↦ rest
        | some (a, response) ↦ record {
          outcome = success (success_of q a response (r.world.elapsed start e') attempt);
          files =
              save (entry_of q a response (r.world.elapsed start e') attempt (r.world.now e'))
                files;
          state = e';
        }
      ]

  unfoldable pub hit_of : LlmRequest → A → CachedResult → RecordSuccess
  unfolding identity_of
  hit_of q a entry = record {
    record_id = q.record_id;
    identity = identity_of q;
    output = r.schema.dump a;
    cache_hit = true;
    attempts = 0;
    latency_seconds = entry.latency_seconds;
    usage = entry.usage;
    response_id = entry.response_id;
  }

  unfoldable pub run_one : LlmRequest → Files → E → Ran E
  unfolding load identity_of try_from hit_of
  run_one q files e = elim (load (identity_of q) files) [
    | some (a, entry) ↦ record { outcome = success (hit_of q a entry); files = files; state = e }
    | none ↦ try_from e q (suc r.max_retries) 1 files e
  ]

  -- `[self._run_one(request, output_schema) for request in requests]`
  unfoldable pub run_each : List LlmRequest → Files → E → List Outcome × Files × E
  unfolding run_one
  run_each [] files e = ([], files, e)
  run_each (q ∷ qs) files e =
      let ran = run_one q files e in
      let (outcomes, files', e') = run_each qs ran.files ran.state in
      (ran.outcome ∷ outcomes, files', e')

unfoldable pub has_repeated_id : List LlmRequest → Bool
has_repeated_id [] = false
has_repeated_id (q ∷ qs) =
    any (λ (p : LlmRequest). str_eq p.record_id q.record_id) qs || has_repeated_id qs

unfoldable pub successes_of : List Outcome → List RecordSuccess
successes_of [] = []
successes_of (success s ∷ os) = s ∷ successes_of os
successes_of (failed f ∷ os) = successes_of os

unfoldable pub failures_in : List Outcome → List FailedRecord
failures_in [] = []
failures_in (success s ∷ os) = failures_in os
failures_in (failed f ∷ os) = f ∷ failures_in os

-- A hit adds nothing to `api_calls`.
unfoldable pub calls_of : List Outcome → ℕ
calls_of [] = 0
calls_of (success s ∷ os) =
    let rest = calls_of os in if s.cache_hit then rest else s.attempts + rest
calls_of (failed f ∷ os) = f.attempts + calls_of os

pub record RunOutcome : Type 0 where
  pub successes : List RecordSuccess
  pub failures : List FailedRecord
  pub api_calls : ℕ

unfoldable pub outcome_of : List Outcome → RunOutcome
unfolding successes_of failures_in calls_of
outcome_of records = record {
  successes = successes_of records;
  failures = failures_in records;
  api_calls = calls_of records;
}

-- `run` with one worker: the records are in the order of the requests already, so that sorting them
-- leaves them so. `none` where ids repeat.
unfoldable pub run_requests :
    {A E : Type 0} → LlmRunner A E → List LlmRequest → Files → E → Option (RunOutcome × Files × E)
unfolding has_repeated_id run_each outcome_of
run_requests r qs files e =
    if has_repeated_id qs
    then none
    else let (records, files', e') = run_each r qs files e in some (outcome_of records, files', e')
