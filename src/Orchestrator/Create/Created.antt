-- ===== src/Orchestrator/Create/Created.antt =====
-- When an orchestrator is created, and what it then has.
use flow_security_agent.Contracts.Enums.{AgentAction, action_capability, is_evidence_action}
use flow_security_agent.Contracts.Host.{Host}
use flow_security_agent.Contracts.Values.{Fields}
use flow_security_agent.Orchestrator.Backends.{Registration}
use flow_security_agent.Orchestrator.Checks.{contains_action}
use flow_security_agent.Orchestrator.Create.{
  Arguments, CreateError, Creation, refused, created, create, create_checked, has_capability,
  has_repeats, parameters_are_valid,
}
use flow_security_agent.Prelude.Int.{ℤ, pos, negsuc}
use flow_security_agent.Prelude.{
  true, false, not, ◌≡◌, refl, List, [], ◌∷◌, Option, none, some, arith, map, any, All, if_cases,
}

abbrev pub IsNegative : ℤ → Type 0
IsNegative (pos n) = ⊥
IsNegative (negsuc n) = Unit

-- No action stands in the list twice.
abbrev pub HasDistinctActions : List AgentAction → Type 0
HasDistinctActions [] = Unit
HasDistinctActions (a ∷ actions) = (contains_action a actions ≡ false) × HasDistinctActions actions

-- A tool for an evidence action, with the capability that the checks ask for.
abbrev pub IsTool : Registration → Type 0
IsTool t = (is_evidence_action t.action ≡ true) × (action_capability t.action ≡ some t.capability)

module _ ⦃h : Host⦄ (a : Arguments) where
  abbrev pub Creates : Creation → Type 0
  Creates (refused CreateError.repeated_tool) =
      has_repeats (map (λ (t : Registration). t.action) a.tools) ≡ true
  Creates (refused CreateError.foreign_tool) =
      any (λ x. not (is_evidence_action x)) (map (λ (t : Registration). t.action) a.tools) ≡ true
  Creates (refused CreateError.wrong_capability) = any (λ t. not (has_capability t)) a.tools ≡ true
  Creates (refused CreateError.negative_limit) = IsNegative a.memory_retrieval_limit
  Creates (refused CreateError.negative_retries) = IsNegative a.max_invalid_retries
  Creates (refused CreateError.invalid_parameters) =
      (ps : List (AgentAction × List Fields)) × (a.allowed_request_parameters ≡ some ps)
      × (parameters_are_valid ps ≡ false)
  Creates (created cfg) =
      HasDistinctActions cfg.tools
      × (cfg.tools ≡ map (λ (t : Registration). t.action) a.tools)
      × All IsTool a.tools
      × (a.memory_retrieval_limit ≡ pos cfg.memory_retrieval_limit)
      × (a.max_invalid_retries ≡ pos cfg.max_invalid_retries)
      × (cfg.budget_limits ≡ a.budget_limits)

  HasDistinctActions-of_has_repeats :
      (actions : List AgentAction) → has_repeats actions ≡ false → HasDistinctActions actions
  unfolding has_repeats
  HasDistinctActions-of_has_repeats [] e = tt
  HasDistinctActions-of_has_repeats (x ∷ actions) e =
      (ground arith, HasDistinctActions-of_has_repeats actions (ground arith))

  has_capability-eq :
      (t : Registration) → has_capability t ≡ true → action_capability t.action ≡ some t.capability
  unfolding has_capability
  has_capability-eq t e = ground arith

  All-IsTool :
      (ts : List Registration)
      → any (λ x. not (is_evidence_action x)) (map (λ (t : Registration). t.action) ts) ≡ false
      → any (λ t. not (has_capability t)) ts ≡ false
      → All IsTool ts
  All-IsTool [] e c = tt
  All-IsTool (t ∷ ts) e c = (
    (ground arith, has_capability-eq t (ground arith)),
    All-IsTool ts (ground arith) (ground arith),
  )

  create_checked-Creates :
      has_repeats (map (λ (t : Registration). t.action) a.tools) ≡ false
      → any (λ x. not (is_evidence_action x)) (map (λ (t : Registration). t.action) a.tools) ≡ false
      → any (λ t. not (has_capability t)) a.tools ≡ false
      → (limit retries : ℤ) → a.memory_retrieval_limit ≡ limit
      → a.max_invalid_retries ≡ retries
      → Creates (create_checked a limit retries)
  unfolding create_checked parameters_are_valid
  create_checked-Creates e f c (negsuc n) retries p q = rw p tt
  create_checked-Creates e f c (pos limit) (negsuc n) p q = rw q tt
  create_checked-Creates e f c (pos limit) (pos retries) p q =
      if_cases Creates (parameters_are_valid given)
        (λ ok. (HasDistinctActions-of_has_repeats _ e, refl, All-IsTool a.tools f c, p, q, refl))
        (λ bad. blame a.allowed_request_parameters refl bad)
    where
      given : List (AgentAction × List Fields)
      given = elim a.allowed_request_parameters [ none ↦ [] | some ps ↦ ps ]

      blame :
          (o : Option (List (AgentAction × List Fields)))
          → a.allowed_request_parameters ≡ o
          → parameters_are_valid (elim o [ none ↦ [] | some ps ↦ ps ]) ≡ false
          → (ps : List (AgentAction × List Fields)) × (a.allowed_request_parameters ≡ some ps)
            × (parameters_are_valid ps ≡ false)
      blame none e bad = absurd (ground arith)
      blame (some ps) e bad = (ps, e, bad)

  -- An orchestrator is created with pairwise different evidence actions for its tools, each under the
  -- capability that its action needs, and with the two numbers given, which are not negative; it is
  -- refused for a repeated tool, a foreign one, a wrong capability, a negative number or request
  -- parameters that no model may see, and only where that is so.
  pub create-Creates : Creates (create a)
  unfolding create
  create-Creates =
      if_cases Creates _ (λ bad. bad)
        (λ e.
          if_cases Creates _ (λ bad. bad)
            (λ f.
              if_cases Creates _ (λ bad. bad)
                (λ c.
                  create_checked-Creates e f c a.memory_retrieval_limit a.max_invalid_retries refl
                    refl)))
