-- ===== src/Orchestrator/Sound.antt =====
-- Predicates on the variables that the parts of `run` share, the budget, the step and the trace, and
-- on a result. The children follow the parts of an iteration.
pub mod Evaluate
pub mod Finish
pub mod Supervise
pub mod Acquire
pub mod Start
pub mod Loop
use flow_security_agent.Budget.{BudgetLimits, BudgetState, Kind, can_consume, consume}
use flow_security_agent.Budget.Bounds.{
  IsWithin, consume-IsWithin, consume-eq_some, consume_keeps, reconcile-IsWithin, reconcile-eq_some,
  reconcile_keeps,
}
use flow_security_agent.Contracts.Enums.{FailureCode, TraceEventType}
use flow_security_agent.Contracts.Evidence.{CallMetrics, metrics_within_estimate}
use flow_security_agent.Contracts.Experience.{VerifiedFeedback, experience_is_valid}
use flow_security_agent.Contracts.State.{
  EvidenceState, FinalDecision, RuntimeInput, RuntimeResult, TraceEvent,
}
use flow_security_agent.Orchestrator.Backends.{Config}
use flow_security_agent.Orchestrator.Context.{Context, Details, emit, fail}
use flow_security_agent.Orchestrator.Finish.{experience_of, writable_feedback}
use flow_security_agent.Orchestrator.Flow.{
  Evaluation, evaluated, stopped, escaped, LoopState, Step, next, done, raised, reconcile, reserve,
}
use flow_security_agent.Prelude.Floats.{Rounding}
use flow_security_agent.Prelude.{
  ℕ, suc, ◌+◌, ◌≤◌, ◌≡◌, ◌≢◌, ◌∙◌, ap, refl, true, false, List, [], ◌∷◌, ◌++◌, some, none, arith,
  All, All-append, length, length-snoc,
}

-- The events carry the numbers from `i` on.
abbrev pub IsNumbered : ℕ → List TraceEvent → Type 0
IsNumbered i [] = Unit
IsNumbered i (e ∷ es) = (e.step ≡ i) × IsNumbered (suc i) es

abbrev pub IsOpen : List TraceEvent → Type 0
IsOpen = All (λ (e : TraceEvent). e.event_type ≢ TraceEventType.final)

-- The last event is the `final` one, and the only one.
pub record IsClosed (trace : List TraceEvent) : Type 0 where
  pub body : List TraceEvent
  pub last : TraceEvent
  pub parts : trace ≡ body ++ last ∷ []
  pub body_open : IsOpen body
  pub last_final : last.event_type ≡ TraceEventType.final

pub IsNumbered-snoc :
    (i n : ℕ) (es : List TraceEvent) (e : TraceEvent)
    → IsNumbered i es
    → length es ≡ n
    → e.step ≡ i + n
    → IsNumbered i (es ++ e ∷ [])
IsNumbered-snoc i n [] e h l s = (omega arith, tt)
IsNumbered-snoc i n (x ∷ es) e h l s =
    (h.0, IsNumbered-snoc (suc i) (length es) es e h.1 refl (omega arith))

module _ ⦃r : Rounding⦄ (cfg : Config) where
  -- `n` calls of the Supervisor and `k` rounds have been counted.
  pub record IsSound {E : Type 0} (n k : ℕ) (c : Context E) : Type 0 where
    pub within : IsWithin c.budget
    pub limits : c.budget.limits ≡ cfg.budget_limits
    pub calls : c.budget.supervisor_calls ≡ n
    pub rounds : c.budget.rounds ≡ k
    pub numbered : IsNumbered 0 c.trace
    pub counted : length c.trace ≡ c.step
    pub unclosed : IsOpen c.trace

  -- The same of the variables of the loop, at its head.
  pub record IsSoundLoop {E : Type 0} (n : ℕ) (l : LoopState E) : Type 0 where
    pub context : IsSound n l.state.round_index l.context
    pub rounds_capped : l.state.round_index ≤ cfg.budget_limits.max_rounds
    pub retries_capped : l.rejections ≤ cfg.max_invalid_retries

  pub record IsSoundResult (res : RuntimeResult) : Type 0 where
    pub within : IsWithin res.budget
    pub limits : res.budget.limits ≡ cfg.budget_limits
    pub rounds_capped : res.budget.rounds ≤ cfg.budget_limits.max_rounds
    pub numbered : IsNumbered 0 res.trace
    pub closed : IsClosed res.trace

  -- The one exception that `run` lets out: pydantic refuses the record of a training run.
  abbrev pub IsRefused : RuntimeInput → Type 0
  IsRefused input =
      (feedback : VerifiedFeedback) × (writable_feedback cfg input ≡ some feedback)
      × (s : EvidenceState) × (final : FinalDecision) × (events : ℕ) × (experience_is_valid
            (experience_of input s final feedback events)
          ≡ false)

  module _ {E : Type 0} (n k : ℕ) where
    pub emit-IsSound :
        (kind : TraceEventType) (round : ℕ) (d : Details) (c : Context E)
        → kind ≢ TraceEventType.final
        → IsSound n k c
        → IsSound n k (emit kind round d c)
    unfolding emit
    emit-IsSound kind round d c other s = record {
      within = s.within;
      limits = s.limits;
      calls = s.calls;
      rounds = s.rounds;
      numbered = IsNumbered-snoc 0 c.step c.trace _ s.numbered s.counted (omega arith);
      counted = omega (arith, length-snoc c.trace _, s.counted);
      unclosed = All-append _ c.trace _ s.unclosed (other, tt);
    }

    pub fail-IsSound :
        (code : FailureCode) (round : ℕ) (d : Details) (c : Context E)
        → IsSound n k c
        → IsSound n k (fail code round d c)
    unfolding fail
    fail-IsSound code round d c s =
        emit-IsSound TraceEventType.failure round (record d { failure = some code })
          (record c { failures = c.failures ++ code ∷ [] }) (λ e. cc)
          (record {
            within = s.within;
            limits = s.limits;
            calls = s.calls;
            rounds = s.rounds;
            numbered = s.numbered;
            counted = s.counted;
            unclosed = s.unclosed;
          })

    pub env-IsSound :
        (env : E) (c : Context E) → IsSound n k c → IsSound n k (record c { env = env })
    env-IsSound env c s = record {
      within = s.within;
      limits = s.limits;
      calls = s.calls;
      rounds = s.rounds;
      numbered = s.numbered;
      counted = s.counted;
      unclosed = s.unclosed;
    }

    pub budget-IsSound :
        (n' k' : ℕ) (b : BudgetState) (c : Context E)
        → IsSound n k c
        → IsWithin b
        → b.limits ≡ c.budget.limits
        → b.supervisor_calls ≡ n'
        → b.rounds ≡ k'
        → IsSound n' k' (record c { budget = b })
    budget-IsSound n' k' b c s w limits calls rounds = record {
      within = w;
      limits = limits ∙ s.limits;
      calls = calls;
      rounds = rounds;
      numbered = s.numbered;
      counted = s.counted;
      unclosed = s.unclosed;
    }

    -- A call that the budget allows is reserved, and raises nothing.
    pub reserve-IsSound :
        (kind : Kind) (m : CallMetrics) (c : Context E)
        → kind ≢ Kind.supervisor
        → kind ≢ Kind.other
        → can_consume kind m c.budget ≡ true
        → IsSound n k c
        → (c' : Context E) × (reserve kind m c ≡ some c') × IsSound n k c'
    unfolding reserve
    reserve-IsSound kind m c counted known can s =
        let (b, e) = consume-eq_some kind m c.budget known can in
        let keeps = consume_keeps kind m c.budget b e in
        (
          record c { budget = b },
          rw (e, reserve),
          budget-IsSound n k b c s (consume-IsWithin kind m c.budget b s.within e) keeps.0
              (keeps.2 counted ∙ s.calls) (keeps.1 ∙ s.rounds),
        )

    pub reserve_supervisor-IsSound :
        (m : CallMetrics) (c : Context E)
        → can_consume Kind.supervisor m c.budget ≡ true
        → IsSound n k c
        → (c' : Context E) × (reserve Kind.supervisor m c ≡ some c') × IsSound (suc n) k c'
    unfolding reserve
    reserve_supervisor-IsSound m c can s =
        let (b, e) = consume-eq_some Kind.supervisor m c.budget (λ p. cc) can in
        let keeps = consume_keeps Kind.supervisor m c.budget b e in
        (
          record c { budget = b },
          rw (e, reserve),
          budget-IsSound (suc n) k b c s (consume-IsWithin Kind.supervisor m c.budget b s.within e)
              keeps.0 (keeps.3 refl ∙ ap suc s.calls) (keeps.1 ∙ s.rounds),
        )

    -- Metrics within the estimate are settled, and raise nothing.
    pub reconcile-IsSound :
        (est act : CallMetrics) (c : Context E)
        → metrics_within_estimate act est ≡ true
        → IsSound n k c
        → (c' : Context E) × (reconcile est act c ≡ some c') × IsSound n k c'
    unfolding reconcile
    reconcile-IsSound est act c fits s =
        let (b, e) = reconcile-eq_some est act c.budget fits in
        let keeps = reconcile_keeps est act c.budget b e in
        (
          record c { budget = b },
          rw (e, reconcile),
          budget-IsSound n k b c s (reconcile-IsWithin est act c.budget b s.within e) keeps.0
              (keeps.2 ∙ s.calls) (keeps.1 ∙ s.rounds),
        )
