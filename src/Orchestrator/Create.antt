-- ===== src/Orchestrator/Create.antt =====
-- `RuntimeOrchestrator.__init__`: the checks on the tools and the numbers, and the defaults. The
-- backends are handed on as they are.
pub mod Created
use flow_security_agent.Budget.{BudgetLimits}
use flow_security_agent.Contracts.Enums.{
  AgentAction, Capability-discrete, GapDomain, action_capability, is_evidence_action,
}
use flow_security_agent.Contracts.Host.{Host}
use flow_security_agent.Contracts.Requests.{ToolRequest, request_is_valid, signature}
use flow_security_agent.Contracts.Values.{Fields}
use flow_security_agent.Orchestrator.Backends.{Config, Registration}
use flow_security_agent.Orchestrator.Checks.{contains_action}
use flow_security_agent.Prelude.Int.{ℤ, pos, negsuc}
use flow_security_agent.Prelude.{
  String, Bool, true, false, not, ◌&&◌, ◌||◌, List, [], ◌∷◌, Option, none, some, map, any, all,
  same, if◌then◌else◌,
}

-- The exceptions: five `ValueError`s, and pydantic's for a request that it refuses.
pub data CreateError : Type 0 where
  repeated_tool foreign_tool wrong_capability negative_limit negative_retries invalid_parameters :
      CreateError

pub data Creation : Type 0 where
  refused : CreateError → Creation
  created : Config → Creation

-- The arguments beside the backends; `none` is `None`.
pub record Arguments : Type 0 where
  pub tools : List Registration
  pub budget_limits : BudgetLimits
  pub allowed_actions : Option (List AgentAction)
  pub allowed_information_domains : Option (List GapDomain)
  pub allowed_request_parameters : Option (List (AgentAction × List Fields))
  pub has_memory : Bool
  pub memory_retrieval_limit : ℤ
  pub max_invalid_retries : ℤ

-- `frozenset(AgentAction)`
unfoldable pub every_action : List AgentAction
every_action =
    AgentAction.expand_packets ∷ AgentAction.expand_temporal_context
    ∷ AgentAction.expand_graph_context ∷ AgentAction.request_application_evidence
    ∷ AgentAction.retrieve_knowledge ∷ AgentAction.accept_fine ∷ AgentAction.backoff_coarse
    ∷ AgentAction.reject_unknown ∷ AgentAction.abstain ∷ []

-- `frozenset(GapDomain)`
unfoldable pub every_domain : List GapDomain
every_domain = GapDomain.observational ∷ GapDomain.knowledge ∷ []

-- `len({...}) != len(tool_list)`
unfoldable pub has_repeats : List AgentAction → Bool
has_repeats [] = false
has_repeats (a ∷ rest) = contains_action a rest || has_repeats rest

-- `tool.capability is ACTION_CAPABILITY[tool.action]`
unfoldable pub has_capability : Registration → Bool
has_capability t = elim (action_capability t.action) [
  | none ↦ false
  | some c ↦ same Capability-discrete t.capability c
]

unfoldable pub parameters_are_valid : List (AgentAction × List Fields) → Bool
parameters_are_valid ps =
    all
      (λ (p : AgentAction × List Fields).
        all (λ fs. request_is_valid (record { action = p.0; parameters = fs })) p.1)
      ps

module _ ⦃h : Host⦄ where
  unfoldable pub signatures_of : List (AgentAction × List Fields) → List (AgentAction × List String)
  signatures_of = map (λ (p : AgentAction × List Fields).
      (p.0, map (λ fs. signature (record { action = p.0; parameters = fs })) p.1))

  -- From the two numbers on.
  unfoldable pub create_checked : Arguments → ℤ → ℤ → Creation
  create_checked a (negsuc n) retries = refused CreateError.negative_limit
  create_checked a (pos limit) (negsuc n) = refused CreateError.negative_retries
  create_checked a (pos limit) (pos retries) =
      let parameters : List (AgentAction × List Fields) = elim a.allowed_request_parameters [
        | none ↦ []
        | some ps ↦ ps
      ] in
      if parameters_are_valid parameters
      then created (record {
        tools = map (λ (t : Registration). t.action) a.tools;
        budget_limits = a.budget_limits;
        allowed_actions = elim a.allowed_actions [ none ↦ every_action | some rest ↦ rest ];
        allowed_information_domains = elim a.allowed_information_domains [
          | none ↦ every_domain
          | some ds ↦ ds
        ];
        allowed_request_signatures = signatures_of parameters;
        has_memory = a.has_memory;
        memory_retrieval_limit = limit;
        max_invalid_retries = retries;
      })
      else refused CreateError.invalid_parameters

  unfoldable pub create : Arguments → Creation
  create a =
      let actions = map (λ (t : Registration). t.action) a.tools in
      if has_repeats actions
      then refused CreateError.repeated_tool
      else if any (λ x. not (is_evidence_action x)) actions
      then refused CreateError.foreign_tool
      else if any (λ t. not (has_capability t)) a.tools
      then refused CreateError.wrong_capability
      else create_checked a a.memory_retrieval_limit a.max_invalid_retries
