-- ===== src/Evaluation.antt =====
-- `summarize_runtime_results` of src/flowsec/runtime/evaluation.py. A `Counter` is a list of keys with
-- their counts, in the order in which the keys first appear.
pub mod Counting
use flow_security_agent.Budget.{BudgetState}
use flow_security_agent.Contracts.Enums.{
  FailureCode, FailureCode-discrete, FinalDecisionType, FinalDecisionType-discrete, TraceEventType,
  TraceEventType-discrete, decision_value,
}
use flow_security_agent.Contracts.State.{FinalDecision, RuntimeResult, TraceEvent}
use flow_security_agent.Contracts.Values.{Value, get_field}
use flow_security_agent.Prelude.{
  ℕ, suc, ◌+◌, String, Bool, not, List, [], ◌∷◌, ◌++◌, Option, none, some, map, same, str_eq,
  length, if◌then◌else◌,
}

-- `Counter(...)[key]` for a list of values of an enumeration.
unfoldable pub count_of : {A : Type 0} → Discrete A → A → List A → ℕ
count_of dec a [] = 0
count_of dec a (x ∷ xs) = let rest = count_of dec a xs in if same dec x a then suc rest else rest

unfoldable pub sum : List ℕ → ℕ
sum [] = 0
sum (n ∷ ns) = n + sum ns

-- The `for` clauses of a comprehension over results and their events.
unfoldable pub events_of : List RuntimeResult → List TraceEvent
events_of [] = []
events_of (r ∷ rs) = r.trace ++ events_of rs

unfoldable pub failures_of : List RuntimeResult → List FailureCode
failures_of [] = []
failures_of (r ∷ rs) = r.failures ++ failures_of rs

-- `counter[key] += 1`
unfoldable pub bump : String → List (String × ℕ) → List (String × ℕ)
bump k [] = (k, 1) ∷ []
bump k ((j, n) ∷ rest) =
    let later = bump k rest in if str_eq j k then (j, suc n) ∷ rest else (j, n) ∷ later

-- `event.summary.get("action")`, where it is a text that is not empty; the runtime puts nothing but a
-- text there.
unfoldable pub action_of : TraceEvent → Option String
action_of e = elim (get_field "action" e.summary) [
  | some (Value.text s) ↦ if str_eq s "" then none else some s
  | _ ↦ none
]

unfoldable pub histogram_from : List (String × ℕ) → List TraceEvent → List (String × ℕ)
histogram_from counts [] = counts
histogram_from counts (e ∷ es) = elim (action_of e) [
  | none ↦ histogram_from counts es
  | some k ↦ histogram_from (bump k counts) es
]

unfoldable pub decisions_of : List RuntimeResult → List FinalDecisionType
decisions_of = map (λ (r : RuntimeResult). r.final_decision.decision_type)

pub record Summary : Type 0 where
  pub sample_count : ℕ
  pub final_decision_distribution : List (String × ℕ)
  pub fine_count : ℕ
  pub coarse_count : ℕ
  pub unknown_reject_count : ℕ
  pub abstain_count : ℕ
  pub rounds : ℕ
  pub traffic_expert_calls : ℕ
  pub supervisor_calls : ℕ
  pub tool_calls : ℕ
  pub rag_calls : ℕ
  pub tool_failures : ℕ
  pub budget_exhaustion : ℕ
  pub action_histogram : List (String × ℕ)
  pub abstract_tokens : ℕ
  pub abstract_cost : ℕ
  pub abstract_latency : ℕ
  pub trace_event_count : ℕ

-- The events that are not `final`.
unfoldable pub count_open : List TraceEvent → ℕ
unfolding TraceEventType-discrete
count_open [] = 0
count_open (e ∷ es) =
    let rest = count_open es in
    if not (same TraceEventType-discrete e.event_type TraceEventType.final) then suc rest else rest

-- `Counter(item.final_decision.decision_type.value for item in results)`
unfoldable pub distribution_from : List (String × ℕ) → List FinalDecisionType → List (String × ℕ)
unfolding decision_value
distribution_from counts [] = counts
distribution_from counts (t ∷ ts) = distribution_from (bump (decision_value t) counts) ts

-- How Python adds floats up differs between its versions (3.12 compensates), so `sum_floats` is given.
module _ (sum_floats : List ℕ → ℕ) where
  unfoldable pub summarize : List RuntimeResult → Summary
  unfolding FinalDecisionType-discrete FailureCode-discrete
  summarize rs =
      let decided = decisions_of rs in
      let failures = failures_of rs in
      record {
        sample_count = length rs;
        final_decision_distribution = distribution_from [] decided;
        fine_count = count_of FinalDecisionType-discrete FinalDecisionType.fine decided;
        coarse_count = count_of FinalDecisionType-discrete FinalDecisionType.coarse decided;
        unknown_reject_count =
            count_of FinalDecisionType-discrete FinalDecisionType.unknown decided;
        abstain_count = count_of FinalDecisionType-discrete FinalDecisionType.abstain decided;
        rounds = sum (map (λ (x : RuntimeResult). x.budget.rounds) rs);
        traffic_expert_calls = sum (map (λ (x : RuntimeResult). x.budget.traffic_expert_calls) rs);
        supervisor_calls = sum (map (λ (x : RuntimeResult). x.budget.supervisor_calls) rs);
        tool_calls = sum (map (λ (x : RuntimeResult). x.budget.tool_calls) rs);
        rag_calls = sum (map (λ (x : RuntimeResult). x.budget.rag_calls) rs);
        tool_failures = count_of FailureCode-discrete FailureCode.tool_failure failures;
        budget_exhaustion = count_of FailureCode-discrete FailureCode.budget_exhausted failures;
        action_histogram = histogram_from [] (events_of rs);
        abstract_tokens = sum (map (λ (x : RuntimeResult). x.budget.abstract_tokens) rs);
        abstract_cost = sum_floats (map (λ (x : RuntimeResult). x.budget.abstract_cost) rs);
        abstract_latency = sum_floats (map (λ (x : RuntimeResult). x.budget.abstract_latency) rs);
        trace_event_count = count_open (events_of rs);
      }
