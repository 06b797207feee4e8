-- ===== src/Variants/Basic.antt =====
-- A run of the `basic` variant.
use flow_security_agent.Budget.{BudgetLimits}
use flow_security_agent.Contracts.Enums.{AgentAction, AgentAction-discrete, is_evidence_action}
use flow_security_agent.Contracts.Host.{Host}
use flow_security_agent.Contracts.State.{EvidenceState, RuntimeInput, RuntimeResult}
use flow_security_agent.Orchestrator.Backends.{Backends, Config}
use flow_security_agent.Orchestrator.Checks.{contains_action}
use flow_security_agent.Orchestrator.Flow.{Step, next, done, raised}
use flow_security_agent.Orchestrator.Run.{run}
use flow_security_agent.Orchestrator.Sound.{IsRefused, IsSoundResult}
use flow_security_agent.Orchestrator.Sound.Loop.{EndsSound, run-ends}
use flow_security_agent.Orchestrator.Trust.{IsTrusted, IsUsable, Keeps, Returns}
use flow_security_agent.Orchestrator.Trust.Loop.{Keeps-of_run}
use flow_security_agent.Variants.{ExperimentVariant, basic_budget, terminals, variant_config}
use mathlib.Core.Path.{subst}
use flow_security_agent.Prelude.Floats.{Rounding}
use flow_security_agent.Prelude.{
  String, ◌≡◌, ◌∙◌, refl, ap, true, false, List, [], ◌∷◌, Option, none, some, arith, All, length,
}

contains-terminals :
    (a : AgentAction) → is_evidence_action a ≡ true → contains_action a terminals ≡ false
unfolding contains_action terminals AgentAction-discrete
contains-terminals a e = ground arith

module _ ⦃r : Rounding⦄ ⦃h : Host⦄ (cfg : Config) (common : BudgetLimits) {E : Type 0}
    (b : Backends E) (input : RuntimeInput)
    (actions_of : cfg.allowed_actions
      ≡ (variant_config common ExperimentVariant.basic).allowed_actions)
    (budget_of : cfg.budget_limits ≡ (variant_config common ExperimentVariant.basic).budget) where
  -- Neither a request nor an action is in the state.
  abbrev pub IsUntouched : Option EvidenceState → Type 0
  IsUntouched none = Unit
  IsUntouched (some s) = (s.request_history ≡ []) × (s.action_history ≡ [])

  abbrev pub Refrains : Step E → Type 0
  Refrains (next l) = ⊥
  Refrains (done res env) =
      IsUntouched res.final_state
      × ((res.budget.tool_calls ≡ 0) × (res.budget.rag_calls ≡ 0) × (res.budget.rounds ≡ 0))
  Refrains raised = IsRefused cfg input

  untouched : (s : EvidenceState) → IsTrusted cfg input s → IsUntouched (some s)
  unfolding variant_config
  untouched s t = go s.request_history s.action_history t.used t.paired
    where
      go :
          (requests : List String) (actions : List AgentAction)
          → All (IsUsable cfg input) actions
          → length requests ≡ length actions
          → (requests ≡ []) × (actions ≡ [])
      go [] [] u e = (refl, refl)
      go (q ∷ qs) [] u e = absurd (omega (arith, e))
      go [] (a ∷ rest) u e = absurd (omega (arith, e))
      go (q ∷ qs) (a ∷ rest) u e = absurd (
          ground (
            arith,
            contains-terminals a u.0.0,
            subst (λ x. contains_action a x ≡ true) actions_of u.0.1,
          ))

  refrains : (s : Step E) → EndsSound cfg b input s → Keeps cfg input s → Refrains s
  unfolding variant_config basic_budget
  refrains (next l) ends kept = absurd ends
  refrains (done res env) ends kept = (untouched_result res.final_state kept, spent res ends)
    where
      untouched_result : (o : Option EvidenceState) → Returns cfg input o res → IsUntouched o
      untouched_result none x = tt
      untouched_result (some s) x = untouched s x.0

      spent :
          (x : RuntimeResult)
          → IsSoundResult cfg x
          → (x.budget.tool_calls ≡ 0) × (x.budget.rag_calls ≡ 0) × (x.budget.rounds ≡ 0)
      spent x sound =
          let limits = sound.limits ∙ budget_of in
          (
            omega (arith, sound.within.tools, ap (λ (l : BudgetLimits). l.max_tool_calls) limits),
            omega (arith, sound.within.rags, ap (λ (l : BudgetLimits). l.max_rag_calls) limits),
            omega (arith, sound.rounds_capped, ap (λ (l : BudgetLimits). l.max_rounds) budget_of),
          )
  refrains raised ends kept = ends

  -- A run under the actions and the budget of `basic` ends without a request, a round, a tool's call
  -- or a call of knowledge retrieval; or it lets out the refusal of an experience record.
  pub run-basic : (env : E) → (s : Step E) × (run b cfg input env ≡ some s) × Refrains s
  run-basic env =
      let (s, e, ends) = run-ends cfg b input env in
      (s, e, refrains s ends (Keeps-of_run cfg b input env s e))
