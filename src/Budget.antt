-- ===== src/Budget.antt =====
-- `BudgetLimits` and `BudgetState` of src/flowsec/runtime/contracts.py. Costs and latencies are
-- floats (Prelude/Floats): adding and subtracting them rounds.
pub mod Bounds
use flow_security_agent.Contracts.Evidence.{CallMetrics, no_metrics}
use flow_security_agent.Prelude.{
  ℕ, ◌+◌, ◌-◌, Bool, true, false, not, ◌&&◌, ◌||◌, Option, none, some, leb, ltb, if◌then◌else◌,
}
use flow_security_agent.Prelude.Floats.{Rounding, float_add, float_sub}

pub record BudgetLimits : Type 0 where
  pub max_rounds : ℕ
  pub max_traffic_expert_calls : ℕ
  pub max_supervisor_calls : ℕ
  pub max_tool_calls : ℕ
  pub max_rag_calls : ℕ
  pub max_abstract_tokens : ℕ
  pub max_abstract_cost : ℕ
  pub max_abstract_latency : ℕ

pub record BudgetState : Type 0 where
  pub limits : BudgetLimits
  pub rounds : ℕ
  pub traffic_expert_calls : ℕ
  pub supervisor_calls : ℕ
  pub tool_calls : ℕ
  pub rag_calls : ℕ
  pub abstract_tokens : ℕ
  pub abstract_cost : ℕ
  pub abstract_latency : ℕ

-- The texts that `kind` is compared with; `other` is any other text.
pub data Kind : Type 0 where
  traffic_expert supervisor tool rag other : Kind

-- `BudgetState(limits=...)`
unfoldable pub fresh : BudgetLimits → BudgetState
fresh l = record {
  limits = l;
  rounds = 0;
  traffic_expert_calls = 0;
  supervisor_calls = 0;
  tool_calls = 0;
  rag_calls = 0;
  abstract_tokens = 0;
  abstract_cost = 0;
  abstract_latency = 0;
}

-- `counters[kind][0] >= counters[kind][1]`, false where `kind` is no key.
unfoldable pub counter_is_full : Kind → BudgetState → Bool
counter_is_full Kind.traffic_expert b = leb b.limits.max_traffic_expert_calls b.traffic_expert_calls
counter_is_full Kind.supervisor b = leb b.limits.max_supervisor_calls b.supervisor_calls
counter_is_full Kind.tool b = leb b.limits.max_tool_calls b.tool_calls
counter_is_full Kind.rag b = leb b.limits.max_rag_calls b.rag_calls
counter_is_full Kind.other b = false

-- The `if`/`elif` of `consume` over the counters; `none` is its last `raise`.
unfoldable pub count_call : Kind → BudgetState → Option BudgetState
count_call Kind.traffic_expert b =
    some (record b { traffic_expert_calls = b.traffic_expert_calls + 1 })
count_call Kind.supervisor b = some (record b { supervisor_calls = b.supervisor_calls + 1 })
count_call Kind.tool b = some (record b { tool_calls = b.tool_calls + 1 })
count_call Kind.rag b = some (record b { rag_calls = b.rag_calls + 1 })
count_call Kind.other b = none

module _ ⦃r : Rounding⦄ where
  unfoldable pub can_consume : Kind → CallMetrics → BudgetState → Bool
  unfolding counter_is_full
  can_consume kind m b =
      not (counter_is_full kind b)
      && (leb (b.abstract_tokens + m.abstract_tokens) b.limits.max_abstract_tokens
          && leb (float_add b.abstract_cost m.abstract_cost) b.limits.max_abstract_cost
          && leb (float_add b.abstract_latency m.abstract_latency) b.limits.max_abstract_latency)

  unfoldable pub add_metrics : CallMetrics → BudgetState → BudgetState
  add_metrics m b = record b {
    abstract_tokens = b.abstract_tokens + m.abstract_tokens;
    abstract_cost = float_add b.abstract_cost m.abstract_cost;
    abstract_latency = float_add b.abstract_latency m.abstract_latency;
  }

  -- `none` is a `ValueError`.
  unfoldable pub consume : Kind → CallMetrics → BudgetState → Option BudgetState
  unfolding can_consume count_call add_metrics
  consume kind m b =
      if can_consume kind m b
      then elim (count_call kind b) [ none ↦ none | some b' ↦ some (add_metrics m b') ]
      else none

  -- `none` is a `ValueError`. Whether a subtraction stops at 0 here is Budget/Bounds' matter.
  unfoldable pub reconcile_metrics : CallMetrics → CallMetrics → BudgetState → Option BudgetState
  reconcile_metrics reserved actual b =
      if ltb reserved.abstract_tokens actual.abstract_tokens
        || ltb reserved.abstract_cost actual.abstract_cost
        || ltb reserved.abstract_latency actual.abstract_latency
      then none
      else some (record b {
        abstract_tokens = b.abstract_tokens - (reserved.abstract_tokens - actual.abstract_tokens);
        abstract_cost =
            float_sub b.abstract_cost (float_sub reserved.abstract_cost actual.abstract_cost);
        abstract_latency =
            float_sub b.abstract_latency
              (float_sub reserved.abstract_latency actual.abstract_latency);
      })
