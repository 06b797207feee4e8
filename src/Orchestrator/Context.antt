-- ===== src/Orchestrator/Context.antt =====
-- The variables that every part of `run` shares, and `emit`.
use flow_security_agent.Budget.{BudgetState}
use flow_security_agent.Contracts.Enums.{FailureCode, TraceEventType}
use flow_security_agent.Contracts.State.{TraceEvent}
use flow_security_agent.Contracts.Values.{Fields}
use flow_security_agent.Prelude.{ℕ, suc, String, List, [], ◌∷◌, ◌++◌, Option, none, some}

-- `budget`, `step`, `trace` and `failures` of `run`, and the state of the backends.
pub record Context (E : Type 0) : Type 0 where
  pub budget : BudgetState
  pub step : ℕ
  pub trace : List TraceEvent
  pub failures : List FailureCode
  pub env : E

-- The keyword arguments of `emit` after the event's type and round.
pub record Details : Type 0 where
  pub summary : Fields
  pub before : Option BudgetState
  pub failure : Option FailureCode
  pub stop_reason : Option String

abbrev pub plain : Fields → Details
plain summary = record { summary = summary; before = none; failure = none; stop_reason = none }

abbrev pub since : BudgetState → Fields → Details
since before summary = record {
  summary = summary;
  before = some before;
  failure = none;
  stop_reason = none;
}

module _ {E : Type 0} where
  unfoldable pub emit : TraceEventType → ℕ → Details → Context E → Context E
  emit kind round d c = record c {
    trace =
        c.trace
        ++ record {
          step = c.step;
          round_index = round;
          event_type = kind;
          summary = d.summary;
          budget_before = elim d.before [ none ↦ c.budget | some b ↦ b ];
          budget_after = c.budget;
          failure = d.failure;
          stop_reason = d.stop_reason;
        }
          ∷ [];
    step = suc c.step;
  }

  -- `failures.append(code)` followed by the `emit` of that failure.
  unfoldable pub fail : FailureCode → ℕ → Details → Context E → Context E
  unfolding emit
  fail code round d c =
      emit TraceEventType.failure round (record d { failure = some code })
        (record c { failures = c.failures ++ code ∷ [] })
