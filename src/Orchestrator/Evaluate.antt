-- ===== src/Orchestrator/Evaluate.antt =====
-- `RuntimeOrchestrator._evaluate`: the Traffic Expert under a reservation, then the Unknown Scorer.
use flow_security_agent.Budget.{Kind, can_consume}
use flow_security_agent.Contracts.Enums.{FailureCode, TraceEventType}
use flow_security_agent.Contracts.Evidence.{
  CallMetrics, EvidenceItem, TrafficExpertResult, metrics_within_estimate, result_is_valid,
  unknown_is_valid,
}
use flow_security_agent.Contracts.Values.{Value, Fields}
use flow_security_agent.Orchestrator.Backends.{Backends}
use flow_security_agent.Orchestrator.Context.{Context, emit, fail, plain, since}
use flow_security_agent.Orchestrator.Flow.{
  Evaluation, evaluated, stopped, escaped, failed, got, caught, reconcile, reserve,
}
use flow_security_agent.Orchestrator.Summaries.{
  error_stage, error_type, expert_summary, one, scorer_summary,
}
use flow_security_agent.Budget.{BudgetState}
use flow_security_agent.Prelude.Floats.{Rounding}
use flow_security_agent.Prelude.{ℕ, true, List, none, some, length, if◌then◌else◌}

module _ ⦃r : Rounding⦄ {E : Type 0} (b : Backends E) (evidence : List EvidenceItem)
    (round : ℕ) where
  unfoldable pub score_unknown : TrafficExpertResult → Context E → Evaluation E
  score_unknown result c =
      let (out, env) = b.unknown_score result round (length evidence) c.env in
      let c₁ = record c { env = env } in
      elim (caught "TypeError" unknown_is_valid out) [
        | failed name ↦
            stopped (fail FailureCode.unknown_scorer_failure round (plain (error_type name)) c₁)
        | got unknown ↦
            evaluated result unknown
              (emit TraceEventType.unknown_scorer round (plain (scorer_summary unknown)) c₁)
      ]

  -- From the reservation on; `before` is the budget's snapshot at the start.
  unfoldable pub evaluate_reserved : BudgetState → CallMetrics → Context E → Evaluation E
  evaluate_reserved before estimate c =
      let (out, env) = b.expert_evaluate evidence c.env in
      let c₁ = record c { env = env } in
      elim (caught "TypeError" result_is_valid out) [
        | failed name ↦ stopped (
            fail FailureCode.traffic_expert_output_failure round (since before (error_type name))
              c₁)
        | got result ↦
            if metrics_within_estimate result.metrics estimate
            then elim (reconcile estimate result.metrics c₁) [
              | none ↦ escaped
              | some c₂ ↦ score_unknown result (
                  emit TraceEventType.traffic_expert round
                    (since before (expert_summary estimate result)) c₂)
            ]
            else stopped (
                fail FailureCode.traffic_expert_output_failure round
                  (record {
                    summary =
                        Fields.field "stage" (Value.text "metrics")
                          (one "reason" (Value.text "estimate_exceeded"));
                    before = some before;
                    failure = none;
                    stop_reason = some "Traffic Expert violated preflight cost estimate";
                  })
                  c₁)
      ]

  unfoldable pub evaluate : Context E → Evaluation E
  evaluate c =
      let before = c.budget in
      let (out, env) = b.expert_estimate evidence c.env in
      let c₁ = record c { env = env } in
      elim (caught "TypeError" (λ _. true) out) [
        | failed name ↦ stopped (
            fail FailureCode.traffic_expert_output_failure round
              (since before (error_stage name "estimate")) c₁)
        | got estimate ↦
            if can_consume Kind.traffic_expert estimate c₁.budget
            then elim (reserve Kind.traffic_expert estimate c₁) [
              | none ↦ escaped
              | some c₂ ↦ evaluate_reserved before estimate c₂
            ]
            else stopped (
                fail FailureCode.budget_exhausted round
                  (record {
                    summary = Fields.end;
                    before = none;
                    failure = none;
                    stop_reason = some "Traffic Expert budget exhausted";
                  })
                  c₁)
      ]
