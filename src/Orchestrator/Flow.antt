-- ===== src/Orchestrator/Flow.antt =====
-- How the parts of `run` hand on control: the loop's variables, what an iteration comes to, and the
-- monad of the steps within one.
use flow_security_agent.Budget.{Kind, consume, reconcile_metrics}
use flow_security_agent.Contracts.Evidence.{CallMetrics, TrafficExpertResult, UnknownDecision}
use flow_security_agent.Contracts.State.{EvidenceState, RuntimeResult}
use flow_security_agent.Orchestrator.Backends.{Output, raises, wrong_type, returns}
use flow_security_agent.Orchestrator.Context.{Context}
use flow_security_agent.Prelude.Floats.{Rounding}
use flow_security_agent.Prelude.{ℕ, String, Bool, ◌≡◌, Option, none, some, if◌then◌else◌}

-- The variables of `while True`: `state`, `consecutive_rejections`, and those shared with `emit`.
pub record LoopState (E : Type 0) : Type 0 where
  pub state : EvidenceState
  pub rejections : ℕ
  pub context : Context E

-- An iteration continues, returns, or lets an exception out of `run`.
pub data Step (E : Type 0) : Type 0 where
  next : LoopState E → Step E
  done : RuntimeResult → E → Step E
  raised : Step E

-- A part of an iteration goes on with a value, or settles what the iteration comes to.
pub data Phase (E : Type 0) (A : Type 0) : Type 0 where
  proceed : A → LoopState E → Phase E A
  settle : Step E → Phase E A

infixl 5 ◌>>=◌ ◌>>◌
abbrev pub ◌>>=◌ :
    {E A B : Type 0}
    → (LoopState E → Phase E A)
    → (A → LoopState E → Phase E B)
    → LoopState E
    → Phase E B
◌>>=◌ m f l = elim (m l) [ proceed a l' ↦ f a l' | settle s ↦ settle s ]

abbrev pub ◌>>◌ :
    {E A B : Type 0}
    → (LoopState E → Phase E A)
    → (LoopState E → Phase E B)
    → LoopState E
    → Phase E B
m >> k = m >>= λ _. k

-- The step that a settled iteration comes to; a part that ends an iteration settles it always.
abbrev pub outcome : {E : Type 0} → Phase E (Unit {0}) → Step E
outcome (proceed _ l) = next l
outcome (settle s) = s

-- What `_evaluate` comes to: a pair, `None`, or an exception.
pub data Evaluation (E : Type 0) : Type 0 where
  evaluated : TrafficExpertResult → UnknownDecision → Context E → Evaluation E
  stopped : Context E → Evaluation E
  escaped : Evaluation E

-- A call inside `try`: the class name of the exception, or the value.
pub data Caught (A : Type 0) : Type 0 where
  failed : String → Caught A
  got : A → Caught A

-- A call whose result is checked by `isinstance` or by an attribute that other classes lack, and
-- validated again by pydantic.
unfoldable pub caught : {A : Type 0} → String → (A → Bool) → Output A → Caught A
caught type_error valid (raises name) = failed name
caught type_error valid wrong_type = failed type_error
caught type_error valid (returns a) = if valid a then got a else failed "ValidationError"

module _ ⦃r : Rounding⦄ {E : Type 0} where
  -- `budget.consume` and `budget.reconcile_metrics` on the shared budget.
  unfoldable pub reserve : Kind → CallMetrics → Context E → Option (Context E)
  reserve k m c = elim (consume k m c.budget) [
    | none ↦ none
    | some b ↦ some (record c { budget = b })
  ]

  unfoldable pub reconcile : CallMetrics → CallMetrics → Context E → Option (Context E)
  reconcile reserved actual c = elim (reconcile_metrics reserved actual c.budget) [
    | none ↦ none
    | some b ↦ some (record c { budget = b })
  ]

module _ {E A B : Type 0} (m : LoopState E → Phase E A) (f : A → LoopState E → Phase E B) where
  pub >>=-settle : (l : LoopState E) (s : Step E) → m l ≡ settle s → (m >>= f) l ≡ settle s
  >>=-settle l s e = rw (e, ◌>>=◌)

  pub >>=-proceed : (l l' : LoopState E) (a : A) → m l ≡ proceed a l' → (m >>= f) l ≡ f a l'
  >>=-proceed l l' a e = rw (e, ◌>>=◌)
