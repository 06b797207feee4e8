-- ===== src/Orchestrator/Run.antt =====
-- `RuntimeOrchestrator.run`: the initial projection, the memory, the first evaluation, and the loop.
use flow_security_agent.Budget.{fresh}
use flow_security_agent.Contracts.Enums.{FailureCode, TraceEventType, is_terminal_action}
use flow_security_agent.Contracts.Evidence.{EvidenceItem, item_is_valid, status_is_valid}
use flow_security_agent.Contracts.Experience.{ExperienceRecord, experience_is_valid}
use flow_security_agent.Contracts.Host.{Host}
use flow_security_agent.Contracts.Requests.{SupervisorDecision}
use flow_security_agent.Contracts.State.{RuntimeInput}
use flow_security_agent.Contracts.Values.{Value, texts}
use flow_security_agent.Orchestrator.Acquire.{acquire}
use flow_security_agent.Orchestrator.Backends.{
  Backends, Config, Output, raises, wrong_type, returns, Retrieved, foreign, experience,
}
use flow_security_agent.Orchestrator.Context.{Context, emit, fail, plain}
use flow_security_agent.Orchestrator.Evaluate.{evaluate}
use flow_security_agent.Orchestrator.Finish.{finish, finish_without_state, halt}
use flow_security_agent.Orchestrator.Flow.{
  LoopState, settle, ◌>>=◌, ◌>>◌, outcome, Step, next, raised, evaluated, stopped, escaped, Caught,
  failed, got,
}
use flow_security_agent.Orchestrator.Summaries.{
  action_summary, error_stage, error_type, experience_ids, one,
}
use flow_security_agent.Orchestrator.Supervise.{ask_supervisor, check_decision}
use flow_security_agent.Prelude.Floats.{Rounding}
use flow_security_agent.Prelude.{
  ℕ, zero, suc, ◌+◌, ◌*◌, not, ◌&&◌, List, [], ◌∷◌, Option, none, some, map, keep_if, is_empty, all,
  leb, if◌then◌else◌,
}

-- The records of what was retrieved; `none` where one is of another class or not verified.
unfoldable pub verified_records : List Retrieved → Option (List ExperienceRecord)
verified_records [] = some []
verified_records (foreign ∷ rest) = none
verified_records (experience e ∷ rest) = elim (verified_records rest) [
  | none ↦ none
  | some es ↦ if e.feedback.verified then some (e ∷ es) else none
]

-- The `try` around `retrieve`, up to the records validated again.
unfoldable pub caught_records : Output (List Retrieved) → Caught (List ExperienceRecord)
caught_records (raises name) = failed name
caught_records wrong_type = failed "TypeError"
caught_records (returns found) = elim (verified_records found) [
  | none ↦ failed "ValueError"
  | some es ↦ if all experience_is_valid es then got es else failed "ValidationError"
]

module _ ⦃r : Rounding⦄ ⦃h : Host⦄ {E : Type 0} (b : Backends E) (cfg : Config)
    (input : RuntimeInput) where
  unfoldable pub retrieve_experiences : Context E → List ExperienceRecord × Context E
  retrieve_experiences c =
      let (out, env) = b.memory_retrieve input.memory_query cfg.memory_retrieval_limit c.env in
      let c₁ = record c { env = env } in
      elim (caught_records out) [
        | failed name ↦ ([], fail FailureCode.memory_access_failure 0 (plain (error_type name)) c₁)
        | got es ↦ (
          es,
          emit TraceEventType.memory 0 (plain (one "retrieved_experience_ids" (experience_ids es)))
              c₁,
        )
      ]

  -- From the first evaluation up to the loop.
  unfoldable pub start_evaluated : List ExperienceRecord → Context E → Step E
  start_evaluated es c = elim (evaluate b input.initial_evidence 0 c) [
    | escaped ↦ raised
    | stopped c₁ ↦ finish_without_state b cfg input "initial model evaluation failed" c₁
    | evaluated result unknown c₁ ↦ next (record {
      state = record {
        sample_id = input.sample_id;
        evidence = input.initial_evidence;
        traffic_expert_result = result;
        traffic_expert_history = result ∷ [];
        unknown_decision = unknown;
        capabilities = input.capabilities;
        round_index = 0;
        request_history = [];
        action_history = [];
        tool_failures = [];
        retrieved_experiences = es;
      };
      rejections = 0;
      context = c₁;
    })
  ]

  -- `experiences` stays empty where there is no memory.
  unfoldable pub with_memory : Context E → Step E
  with_memory c =
      let (es, c₁) = retrieve_experiences c in
      if cfg.has_memory then start_evaluated es c₁ else start_evaluated [] c

  unfoldable pub start : E → Step E
  start env =
      let c : Context E = record {
        budget = fresh cfg.budget_limits;
        step = 0;
        trace = [];
        failures = [];
        env = env;
      } in
      let unsafe = keep_if (λ (e : EvidenceItem). not e.model_safe) input.initial_evidence in
      if all item_is_valid input.initial_evidence && all status_is_valid input.capabilities
      then if is_empty unsafe
        then with_memory c
        else finish_without_state b cfg input "initial evidence is not model-safe" (
            fail FailureCode.unsafe_evidence 0
              (plain (
                one "unsafe_evidence_ids"
                  (Value.list (texts (map (λ (e : EvidenceItem). e.evidence_id) unsafe)))))
              c)
      else finish_without_state b cfg input "initial evidence projection failed validation" (
          fail FailureCode.unsafe_evidence 0
            (plain (error_stage "ValidationError" "initial_projection")) c)

  -- What a checked decision leads to.
  unfoldable pub act : SupervisorDecision → LoopState E → Step E
  act d l =
      if is_terminal_action d.action
      then finish b cfg input d.action d.short_reason l.state l.context
      else if leb cfg.budget_limits.max_rounds l.state.round_index
      then halt b cfg input FailureCode.max_rounds_reached
          (record {
            summary = action_summary d.action;
            before = none;
            failure = none;
            stop_reason = some "maximum evidence rounds reached";
          })
          l
      else acquire b cfg input d l

  -- One iteration of `while True`.
  unfoldable pub iterate : LoopState E → Step E
  iterate l =
      outcome (
        (do d ← ask_supervisor b cfg input; check_decision b cfg input d; λ l'. settle (act d l'))
          l)

  -- The loop with fuel; `none` is a loop that has not come to an end.
  unfoldable pub loop : ℕ → Step E → Option (Step E)
  loop zero s = none
  loop (suc fuel) (next l) = loop fuel (iterate l)
  loop (suc fuel) s = some s

  -- Every iteration that does not end the run uses one of the Supervisor's calls or one of the
  -- rejections that are left in a row.
  abbrev pub enough_fuel : ℕ
  enough_fuel =
      cfg.budget_limits.max_supervisor_calls * (cfg.max_invalid_retries + 2)
      + cfg.max_invalid_retries
      + 3

  unfoldable pub run : E → Option (Step E)
  run env = loop enough_fuel (start env)
