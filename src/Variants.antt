-- ===== src/Variants.antt =====
-- The experiment variants of src/flowsec/runtime/variants.py.
pub mod Basic
use flow_security_agent.Budget.{BudgetLimits}
use flow_security_agent.Contracts.Enums.{AgentAction, GapDomain}
use flow_security_agent.Orchestrator.Create.{every_action, every_domain}
use flow_security_agent.Prelude.{
  ℕ, String, Bool, List, [], ◌∷◌, Option, none, some, ◌==◌, if◌then◌else◌,
}

pub data ExperimentVariant : Type 0 where
  basic fixed_full rule_policy llm_supervisor learnable_policy : ExperimentVariant

pub record ExperimentVariantConfig : Type 0 where
  pub variant : ExperimentVariant
  pub allowed_information_domains : List GapDomain
  pub allowed_actions : List AgentAction
  pub budget : BudgetLimits
  pub max_rounds : ℕ
  pub implementation_status : String

-- `validate_budget_alignment`
unfoldable pub variant_is_valid : ExperimentVariantConfig → Bool
variant_is_valid c = c.max_rounds == c.budget.max_rounds

unfoldable pub terminals : List AgentAction
terminals =
    AgentAction.accept_fine ∷ AgentAction.backoff_coarse ∷ AgentAction.reject_unknown
    ∷ AgentAction.abstain ∷ []

unfoldable pub basic_budget : BudgetLimits → BudgetLimits
basic_budget common = record common { max_rounds = 0; max_tool_calls = 0; max_rag_calls = 0 }

-- A variant with all information and all actions.
unfoldable pub full_variant : ExperimentVariant → String → BudgetLimits → ExperimentVariantConfig
full_variant v status common = record {
  variant = v;
  allowed_information_domains = every_domain;
  allowed_actions = every_action;
  budget = common;
  max_rounds = common.max_rounds;
  implementation_status = status;
}

-- `build_variant_configs(common_budget)[variant]`
unfoldable pub variant_config : BudgetLimits → ExperimentVariant → ExperimentVariantConfig
variant_config common ExperimentVariant.basic = record {
  variant = ExperimentVariant.basic;
  allowed_information_domains = [];
  allowed_actions = terminals;
  budget = basic_budget common;
  max_rounds = 0;
  implementation_status = "available";
}
variant_config common ExperimentVariant.fixed_full =
    full_variant ExperimentVariant.fixed_full "available" common
variant_config common ExperimentVariant.rule_policy =
    full_variant ExperimentVariant.rule_policy "available" common
variant_config common ExperimentVariant.llm_supervisor =
    full_variant ExperimentVariant.llm_supervisor "available" common
variant_config common ExperimentVariant.learnable_policy =
    full_variant ExperimentVariant.learnable_policy "placeholder_only" common
