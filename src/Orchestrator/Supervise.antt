-- ===== src/Orchestrator/Supervise.antt =====
-- The first half of an iteration of `run`: the Supervisor is asked under a reservation, and its
-- decision is checked.
use flow_security_agent.Budget.{BudgetState, Kind, can_consume}
use flow_security_agent.Contracts.Enums.{FailureCode, TraceEventType}
use flow_security_agent.Contracts.Evidence.{CallMetrics, metrics_within_estimate}
use flow_security_agent.Contracts.Host.{Host}
use flow_security_agent.Contracts.Requests.{SupervisorDecision, decision_is_valid}
use flow_security_agent.Contracts.State.{RuntimeInput, to_supervisor_view}
use flow_security_agent.Contracts.Values.{Value, Fields}
use flow_security_agent.Orchestrator.Backends.{Backends, Config, raises, wrong_type, returns}
use flow_security_agent.Orchestrator.Checks.{validate_decision}
use flow_security_agent.Orchestrator.Context.{emit, plain, since}
use flow_security_agent.Orchestrator.Finish.{halt, reject}
use flow_security_agent.Orchestrator.Flow.{
  LoopState, Phase, proceed, settle, raised, failed, got, caught, reconcile, reserve,
}
use flow_security_agent.Orchestrator.Summaries.{
  action_summary, error_stage, error_type, one, supervisor_summary,
}
use flow_security_agent.Prelude.Floats.{Rounding}
use flow_security_agent.Prelude.{true, none, some, if◌then◌else◌}

module _ ⦃r : Rounding⦄ ⦃h : Host⦄ {E : Type 0} (b : Backends E) (cfg : Config)
    (input : RuntimeInput) where
  -- From a decision of the right class on: it is validated, and its reservation is settled.
  unfoldable pub accept_decision :
      BudgetState → CallMetrics → SupervisorDecision → LoopState E → Phase E SupervisorDecision
  accept_decision before estimate d l =
      if decision_is_valid d
      then if metrics_within_estimate d.metrics estimate
        then elim (reconcile estimate d.metrics l.context) [
          | none ↦ settle raised
          | some c ↦ proceed d (record l {
            context =
                emit TraceEventType.supervisor l.state.round_index
                  (since before (supervisor_summary estimate d l.state)) c;
          })
        ]
        else settle (
            halt b cfg input FailureCode.supervisor_output_failure
              (plain (
                Fields.field "stage" (Value.text "metrics")
                  (one "reason" (Value.text "estimate_exceeded"))))
              l)
      else settle (
          reject b cfg input FailureCode.supervisor_output_failure
            (plain (error_stage "ValidationError" "validation")) l)

  -- The call of `decide`, the reservation being made.
  unfoldable pub ask_decision : BudgetState → CallMetrics → LoopState E → Phase E SupervisorDecision
  ask_decision before estimate l =
      let (out, env) = b.supervisor_decide (to_supervisor_view l.state before) l.context.env in
      let l₁ = record l { context = record (l.context) { env = env } } in
      elim out [
        | raises name ↦ settle (
            reject b cfg input FailureCode.supervisor_output_failure
              (since before (error_type name)) l₁)
        | wrong_type ↦ settle (
            reject b cfg input FailureCode.supervisor_output_failure
              (since before (error_type "invalid_decision_type")) l₁)
        | returns d ↦ accept_decision before estimate d l₁
      ]

  unfoldable pub ask_supervisor : LoopState E → Phase E SupervisorDecision
  ask_supervisor l =
      let before = l.context.budget in
      let (out, env) = b.supervisor_estimate (to_supervisor_view l.state before) l.context.env in
      let l₁ = record l { context = record (l.context) { env = env } } in
      elim (caught "TypeError" (λ _. true) out) [
        | failed name ↦ settle (
            reject b cfg input FailureCode.supervisor_output_failure
              (since before (error_stage name "estimate")) l₁)
        | got estimate ↦
            if can_consume Kind.supervisor estimate before
            then elim (reserve Kind.supervisor estimate l₁.context) [
              | none ↦ settle raised
              | some c ↦ ask_decision before estimate (record l₁ { context = c })
            ]
            else settle (
                halt b cfg input FailureCode.budget_exhausted
                  (record {
                    summary = Fields.end;
                    before = none;
                    failure = none;
                    stop_reason = some "supervisor budget exhausted";
                  })
                  l₁)
      ]

  unfoldable pub check_decision : SupervisorDecision → LoopState E → Phase E (Unit {0})
  check_decision d l = elim (validate_decision cfg d l.state) [
    | none ↦ proceed tt l
    | some code ↦ settle (reject b cfg input code (plain (action_summary d.action)) l)
  ]
