-- ===== src/Orchestrator/Finish.antt =====
-- `RuntimeOrchestrator._finish` and `_finish_without_state`: the final decision, the write to the
-- experience memory, the last event.
use flow_security_agent.Contracts.Enums.{
  AgentAction, FailureCode, FinalDecisionType, RuntimePhase, RuntimePhase-discrete, TraceEventType,
  UnknownState, decision_value, unknown_value,
}
use flow_security_agent.Contracts.Evidence.{PredictionCandidate}
use flow_security_agent.Contracts.Experience.{
  ExperienceRecord, VerifiedFeedback, experience_is_valid,
}
use flow_security_agent.Contracts.State.{EvidenceState, FinalDecision, RuntimeInput}
use flow_security_agent.Contracts.Values.{Value, Fields}
use flow_security_agent.Orchestrator.Backends.{Backends, Config}
use flow_security_agent.Orchestrator.Context.{Context, Details, emit, fail, plain}
use flow_security_agent.Orchestrator.Flow.{LoopState, Step, next, done, raised, failed, got, caught}
use flow_security_agent.Orchestrator.Summaries.{error_type, final_label_summary, final_summary, one}
use flow_security_agent.Prelude.Text.{◌<>◌, show_nat, split}
use flow_security_agent.Prelude.{
  ℕ, suc, String, Bool, true, false, ◌&&◌, List, ◌∷◌, Option, none, some, same, length, ltb,
  if◌then◌else◌,
}

-- The `if`/`elif` over the requested action: the decision's type, its action and its label.
unfoldable pub choose :
    AgentAction
    → List PredictionCandidate
    → List PredictionCandidate
    → FinalDecisionType × AgentAction × Option String
choose AgentAction.accept_fine (c ∷ cs) coarse =
    (FinalDecisionType.fine, AgentAction.accept_fine, some c.label)
choose AgentAction.backoff_coarse fine (c ∷ cs) =
    (FinalDecisionType.coarse, AgentAction.backoff_coarse, some c.label)
choose AgentAction.reject_unknown fine coarse =
    (FinalDecisionType.unknown, AgentAction.reject_unknown, none)
choose _ fine coarse = (FinalDecisionType.abstain, AgentAction.abstain, none)

unfoldable pub final_decision : AgentAction → String → EvidenceState → FinalDecision
final_decision requested reason s =
    let (decision_type, action, label) =
      choose requested s.traffic_expert_result.fine_candidates
        s.traffic_expert_result.coarse_candidates in
    record {
      decision_type = decision_type;
      action = action;
      label = label;
      reason = reason;
      unknown_state = s.unknown_decision.state;
    }

unfoldable pub outcome_text : Bool → FinalDecisionType → String
outcome_text positive t =
    (if positive
      then "verified positive terminal outcome: "
      else "verified negative terminal outcome: ")
    <> decision_value t

-- The record of a run; `events` is the length of the trace.
unfoldable pub experience_of :
    RuntimeInput → EvidenceState → FinalDecision → VerifiedFeedback → ℕ → ExperienceRecord
experience_of input s final feedback events = record {
  experience_id = input.sample_id <> ":" <> show_nat events;
  state_summary =
      "rounds="
      <> show_nat s.round_index
      <> "; unknown="
      <> unknown_value s.unknown_decision.state
      <> "; evidence="
      <> show_nat (length s.evidence);
  action = final.action;
  outcome = outcome_text feedback.outcome_positive final.decision_type;
  feedback = feedback;
  keywords = split input.memory_query;
  positive = feedback.outcome_positive;
}

-- The feedback of a run that is written to memory: there is a memory, the phase is training, and the
-- feedback is verified.
unfoldable pub writable_feedback : Config → RuntimeInput → Option VerifiedFeedback
writable_feedback cfg input = elim input.verified_feedback [
  | none ↦ none
  | some feedback ↦
      if cfg.has_memory
        && same RuntimePhase-discrete input.phase RuntimePhase.train
        && feedback.verified
      then some feedback
      else none
]

module _ {E : Type 0} (b : Backends E) (cfg : Config) (input : RuntimeInput) where
  -- `memory_written` and the context behind the write.
  unfoldable pub write_experience : ExperienceRecord → ℕ → Context E → Bool × Context E
  write_experience e round c =
      let (out, env) = b.memory_add e c.env in
      let c₁ = record c { env = env } in
      elim (caught "TypeError" (λ _. true) out) [
        | failed name ↦
            (false, fail FailureCode.memory_write_failure round (plain (error_type name)) c₁)
        | got _ ↦ (
          true,
          emit TraceEventType.memory round
              (plain (
                Fields.field "write" (Value.flag true)
                  (one "experience_id" (Value.text e.experience_id))))
              c₁,
        )
      ]

  -- `none` is the exception of an `ExperienceRecord` that pydantic refuses to build.
  unfoldable pub store : EvidenceState → FinalDecision → Context E → Option (Bool × Context E)
  store s final c = elim (writable_feedback cfg input) [
    | none ↦ some (false, c)
    | some feedback ↦
        let e = experience_of input s final feedback (length c.trace) in
        if experience_is_valid e then some (write_experience e s.round_index c) else none
  ]

  unfoldable pub result_of : FinalDecision → Option EvidenceState → Bool → Context E → Step E
  result_of final s written c =
      done
        (record {
          sample_id = input.sample_id;
          final_decision = final;
          final_state = s;
          trace = c.trace;
          budget = c.budget;
          failures = c.failures;
          memory_written = written;
        })
        c.env

  unfoldable pub finish : AgentAction → String → EvidenceState → Context E → Step E
  finish requested reason s c =
      let final = final_decision requested reason s in
      elim (store s final c) [
        | none ↦ raised
        | some (written, c₁) ↦ result_of final (some s) written (
            emit TraceEventType.final s.round_index
              (record {
                summary = final_label_summary final;
                before = none;
                failure = none;
                stop_reason = some reason;
              })
              c₁)
      ]

  -- `_finish_without_state`
  unfoldable pub finish_without_state : String → Context E → Step E
  finish_without_state reason c =
      let final : FinalDecision = record {
        decision_type = FinalDecisionType.abstain;
        action = AgentAction.abstain;
        label = none;
        reason = reason;
        unknown_state = UnknownState.uncertain;
      } in
      result_of final none false (
        emit TraceEventType.final c.budget.rounds
          (record {
            summary = final_summary final;
            before = none;
            failure = none;
            stop_reason = some reason;
          })
          c)

  -- `_finish` with its default arguments.
  unfoldable pub safety_stop : LoopState E → Step E
  safety_stop l = finish AgentAction.abstain "runtime safety stop" l.state l.context

  -- A failure after which `run` returns at once.
  unfoldable pub halt : FailureCode → Details → LoopState E → Step E
  halt code d l = safety_stop (record l { context = fail code l.state.round_index d l.context })

  -- A failure that counts as a rejection: `run` returns once there are too many in a row.
  unfoldable pub reject : FailureCode → Details → LoopState E → Step E
  reject code d l =
      let l' = record l {
        rejections = suc l.rejections;
        context = fail code l.state.round_index d l.context;
      } in
      if ltb cfg.max_invalid_retries l'.rejections then safety_stop l' else next l'
