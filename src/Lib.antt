-- ===== src/Lib.antt =====
-- The agent runtime of src/flowsec/runtime, the language models that it calls
-- (src/flowsec/integrations/llm), and the batch runner, the ingestion of knowledge and the matching of
-- events beside it.
--
-- A run analyses one sample of network traffic. `RuntimeOrchestrator.run` evaluates the evidence at
-- hand by a Traffic Expert and an Unknown Scorer, and then asks a Supervisor, again and again, what to
-- do: to end with a label, a rejection or an abstention, or to let a tool acquire more evidence. The
-- orchestrator trusts none of them: it validates each object that it gets, checks each decision against
-- its state, reserves the cost of each call before it is made and settles it afterwards, and records
-- every step in a trace.
--
-- Prelude is shared: Boolean tests, lists, texts, integers, and floats as multiples of 2 ^ -1074 whose
-- rounding is a parameter. The other files follow the program's:
--   Contracts    src/flowsec/runtime/contracts.py: Enums (the StrEnums and the tables on actions),
--                Values (JSON values), Equality (Python's `==` on them), Visible with Visible/Scan
--                (`validate_model_visible_value`), Evidence, Requests, Experience and State (the
--                records with their validators), Host (JSON text and SHA-256, which are parameters).
--   Budget       `BudgetLimits` and `BudgetState` of contracts.py: `can_consume`, `consume`,
--                `reconcile_metrics`; Budget/Bounds has its invariant.
--   Orchestrator src/flowsec/runtime/orchestrator.py. Backends is the interface of all that the
--                orchestrator calls (backends.py, tools.py, memory.py): functions on an environment
--                of any type, which may raise, return a foreign object or a value. Create is
--                `__init__`; Checks is `_validate_decision` and `_request_parameters_are_safe`, with
--                Wanted and Admissible; Merge is `_merge_evidence`; Context is `emit` and what it
--                shares with `run`; Flow is the control flow; Summaries the summaries of the
--                trace; Evaluate is `_evaluate`; Finish is `_finish` and `_finish_without_state`;
--                Supervise and Acquire are the two halves of the loop's body, and Run is `run`. Sound
--                carries the budget and the trace through all of them, Trust the state and the
--                decision.
--   Policies     `DeterministicRuleSupervisor` of src/flowsec/runtime/policies.py; Proposals and
--                Passing (with Gaps) relate its decisions to the orchestrator's checks.
--   Memory       the stores of src/flowsec/runtime/memory.py; Ranking and Store have their laws.
--   Variants     src/flowsec/runtime/variants.py; Basic follows the `basic` variant through a run.
--   Backends     the scripted backends of src/flowsec/runtime/backends.py and the synthetic tool of
--                src/flowsec/runtime/tools.py.
--   Evaluation   src/flowsec/runtime/evaluation.py.
--   Llm          src/flowsec/integrations/llm. Contracts is contracts.py (messages, requests, responses,
--                usage); Secrets its tests for secrets; Executor is `_AdapterExecutor` of adapters.py,
--                which sends a request until an attempt succeeds or fails finally; Backends are the
--                two backends of adapters.py, as the runtime's orchestrator calls them; Parsing is
--                parsing.py, with Objects and Answers; Fake is the scripted transport of transport.py.
--   Runner       `LLMRunner` of src/flowsec/llm/runtime.py with the cache of cache.py and the identity of
--                fingerprint.py; Saved and Resume follow a cache from one run into the next; Shards is
--                `select_shard`.
--   Knowledge    the chunks of src/flowsec/rag/ingestion.py; Visible and Kept follow the characters of a
--                body into its chunks, Bounds their lengths.
--   Data         src/flowsec/data/event_matching.py: Events (the events, times and days), Matching
--                (`EventIndex`) with Buckets, Candidates and Scan. Grouping is grouping.py, the episodes
--                and the gaps of flows, with Groups, Summary, Openings, Reports and Gaps.
--   Tests        a small world, runs in it, and the theorems applied there.
--
-- State is passed explicitly. `LoopState` holds the variables of the loop, `Context` those that `emit`
-- shares with `run` (budget, trace, failures, step) and the backends' environment. An iteration is a
-- `Step`: the next variables, a result, or an exception that leaves `run`. The two halves of an
-- iteration are chained in a monad of `Phase`s, which go on or settle the step. The budget that the
-- source's state points to is the run's own, so it is kept once, in the context.
--
-- The loop runs on fuel. Each iteration that does not end the run uses up one of the Supervisor's calls
-- or one of the rejections left in a row, so max_supervisor_calls * (max_invalid_retries + 2) +
-- max_invalid_retries + 3 steps are enough, and a run with that fuel always comes to its end.
--
-- The attempts of a call run on the number of attempts that the policy allows, those of the batch runner
-- on max_retries + 1, and the days of an event on their number.
--
-- Not modelled: a backend that writes into the objects it is given, which the source's deep copies
-- guard against; characters beyond ASCII in case folding and patterns; infinite floats; the locations
-- in error messages; filters of `retrieve`; the texts of prompts, which are a parameter of the
-- model's calls, and the decoding of JSON; the transports over the network; several workers of the
-- batch runner; the patterns that redact texts and the check of a base URL; reading files and front
-- matter; the quantiles of NumPy; ground truth from CSV; the production and training tooling, which
-- works on files.
pub mod Prelude
pub mod Contracts
pub mod Budget
pub mod Orchestrator
pub mod Policies
pub mod Memory
pub mod Variants
pub mod Backends
pub mod Evaluation
pub mod Data
pub mod Llm
pub mod Runner
pub mod Knowledge
pub mod Tests
