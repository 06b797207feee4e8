-- ===== src/Orchestrator/Acquire.antt =====
-- The second half of an iteration of `run`: a tool is called under a reservation, what it returns is
-- checked and merged, and the state is evaluated again.
use flow_security_agent.Budget.{BudgetState, Kind, can_consume}
use flow_security_agent.Contracts.Enums.{
  AgentAction, AgentAction-discrete, Capability-discrete, EvidenceTrust, EvidenceTrust-discrete,
  FailureCode, GapDomain, GapDomain-discrete, GapType, GapType-discrete, ToolStatus, TraceEventType,
  action_capability,
}
use flow_security_agent.Contracts.Evidence.{
  CallMetrics, CapabilityStatus, EvidenceItem, metrics_within_estimate, no_metrics,
}
use flow_security_agent.Contracts.Host.{Host}
use flow_security_agent.Contracts.Requests.{
  SupervisorDecision, ToolRequest, ToolResult, failed_result, signature, tool_result_is_valid,
}
use flow_security_agent.Contracts.State.{RuntimeInput}
use flow_security_agent.Contracts.Values.{Fields}
use flow_security_agent.Orchestrator.Backends.{Backends, Config}
use flow_security_agent.Orchestrator.Checks.{contains_action}
use flow_security_agent.Orchestrator.Context.{Context, emit, plain, since}
use flow_security_agent.Orchestrator.Evaluate.{evaluate}
use flow_security_agent.Orchestrator.Finish.{halt, reject, safety_stop}
use flow_security_agent.Orchestrator.Flow.{
  LoopState, Step, next, raised, evaluated, stopped, escaped, failed, got, caught, reconcile,
  reserve,
}
use flow_security_agent.Orchestrator.Merge.{merge_evidence}
use flow_security_agent.Orchestrator.Summaries.{
  action_reason, action_summary, error_stage, tool_summary,
}
use flow_security_agent.Prelude.Floats.{Rounding}
use flow_security_agent.Prelude.{
  suc, Bool, true, false, not, ◌&&◌, ◌||◌, List, [], ◌∷◌, ◌++◌, Option, none, some, map, same, any,
  str_eq, if◌then◌else◌,
}

unfoldable pub is_rag : AgentAction → Bool
is_rag a = same AgentAction-discrete a AgentAction.retrieve_knowledge

-- `item.capability is ACTION_CAPABILITY[action]` turns the status off.
unfoldable pub switch_off : AgentAction → CapabilityStatus → CapabilityStatus
switch_off a s = elim (action_capability a) [
  | none ↦ s
  | some c ↦
      if same Capability-discrete s.capability c
      then record s { available = false; reason = some "tool reported unavailable" }
      else s
]

-- An item that knowledge retrieval must not return.
unfoldable pub breaks_rag_domain : EvidenceItem → Bool
breaks_rag_domain e =
    not (same GapDomain-discrete e.domain GapDomain.knowledge)
    || not (same GapType-discrete e.gap_type GapType.knowledge)
    || not (same EvidenceTrust-discrete e.trust EvidenceTrust.untrusted_evidence)

-- `state.tool_failures = (*state.tool_failures, code)`
unfoldable pub note_tool_failure : {E : Type 0} → FailureCode → LoopState E → LoopState E
note_tool_failure code l = record l {
  state = record (l.state) { tool_failures = l.state.tool_failures ++ code ∷ [] };
}

module _ ⦃r : Rounding⦄ ⦃h : Host⦄ {E : Type 0} (b : Backends E) (cfg : Config)
    (input : RuntimeInput) where
  -- The new evidence is taken in and evaluated.
  unfoldable pub advance : List EvidenceItem → LoopState E → Step E
  advance merged l =
      let budget = l.context.budget in
      let round = suc l.state.round_index in
      let s = record (l.state) { round_index = round; evidence = merged } in
      let c = record (l.context) { budget = record budget { rounds = suc budget.rounds } } in
      elim (evaluate b merged round c) [
        | escaped ↦ raised
        | stopped c₁ ↦ safety_stop b cfg input (record { state = s; rejections = 0; context = c₁ })
        | evaluated result unknown c₁ ↦ next (record {
          state = record s {
            traffic_expert_result = result;
            unknown_decision = unknown;
            traffic_expert_history = s.traffic_expert_history ++ result ∷ [];
          };
          rejections = 0;
          context = c₁;
        })
      ]

  -- A successful result: its evidence is checked and merged.
  unfoldable pub absorb : AgentAction → ToolResult → LoopState E → Step E
  absorb action t l =
      if any (λ (e : EvidenceItem). not e.model_safe) t.evidence
      then halt b cfg input FailureCode.unsafe_evidence (plain Fields.end) l
      else if is_rag action && any breaks_rag_domain t.evidence
      then halt b cfg input FailureCode.unsafe_evidence
          (plain (action_reason action "rag_domain_mismatch")) l
      else let (merged, failure) = merge_evidence l.state.evidence t.evidence in
        elim failure [
          | some code ↦
              reject b cfg input code (plain (action_reason action "evidence_not_new"))
                (note_tool_failure code l)
          | none ↦ advance merged l
        ]

  -- The branches on the status.
  unfoldable pub by_status : ToolStatus → AgentAction → ToolResult → LoopState E → Step E
  by_status ToolStatus.unavailable action t l =
      let l₁ = note_tool_failure FailureCode.capability_unavailable l in
      reject b cfg input FailureCode.capability_unavailable (plain (action_summary action))
        (record l₁ {
          state = record (l₁.state) { capabilities = map (switch_off action) l.state.capabilities };
        })
  by_status ToolStatus.failure action t l =
      reject b cfg input FailureCode.tool_failure (plain (action_summary action))
        (note_tool_failure FailureCode.tool_failure l)
  by_status ToolStatus.success action t l = absorb action t l

  -- The histories, and the signature that the result must repeat.
  unfoldable pub record_call : AgentAction → ToolRequest → ToolResult → LoopState E → Step E
  record_call action q t l =
      let l₁ = record l {
        state = record (l.state) {
          request_history = l.state.request_history ++ signature q ∷ [];
          action_history = l.state.action_history ++ action ∷ [];
        };
      } in
      if str_eq t.request_signature (signature q)
      then by_status t.status action t l₁
      else halt b cfg input FailureCode.tool_failure
          (plain (action_reason action "signature_mismatch"))
          (note_tool_failure FailureCode.tool_failure l₁)

  -- The call of `execute`, the reservation being made. An exception leaves the reservation as it is.
  unfoldable pub execute :
      BudgetState → CallMetrics → AgentAction → ToolRequest → LoopState E → Step E
  execute before estimate action q l =
      let (out, env) = b.tool_execute action q l.state.evidence l.context.env in
      let l₁ = record l { context = record (l.context) { env = env } } in
      let round = l.state.round_index in
      elim (caught "AttributeError" tool_result_is_valid out) [
        | failed name ↦
            let t = failed_result (signature q) name in
            record_call action q t (record l₁ {
              context =
                  emit TraceEventType.tool round (since before (tool_summary action q estimate t))
                    l₁.context;
            })
        | got t ↦
            if metrics_within_estimate t.metrics estimate
            then elim (reconcile estimate t.metrics l₁.context) [
              | none ↦ raised
              | some c ↦ record_call action q t (record l₁ {
                context =
                    emit TraceEventType.tool round (since before (tool_summary action q estimate t))
                      c;
              })
            ]
            else halt b cfg input FailureCode.tool_failure
                (record {
                  summary = action_reason action "estimate_exceeded";
                  before = some before;
                  failure = none;
                  stop_reason = some "tool violated preflight cost estimate";
                })
                l₁
      ]

  -- `budget.consume(kind="tool", ...)`, and for knowledge retrieval `budget.consume(kind="rag")`.
  unfoldable pub reserve_tool : AgentAction → CallMetrics → Context E → Option (Context E)
  reserve_tool action estimate c = elim (reserve Kind.tool estimate c) [
    | none ↦ none
    | some c₁ ↦ if is_rag action then reserve Kind.rag no_metrics c₁ else some c₁
  ]

  unfoldable pub call_tool : AgentAction → ToolRequest → LoopState E → Step E
  call_tool action q l =
      let before = l.context.budget in
      let (out, env) = b.tool_estimate action q l.context.env in
      let l₁ = record l { context = record (l.context) { env = env } } in
      elim (caught "TypeError" (λ _. true) out) [
        | failed name ↦
            halt b cfg input FailureCode.tool_failure (since before (error_stage name "estimate"))
              l₁
        | got estimate ↦
            if can_consume Kind.tool estimate before
              && (not (is_rag action) || can_consume Kind.rag no_metrics before)
            then elim (reserve_tool action estimate l₁.context) [
              | none ↦ raised
              | some c ↦ execute before estimate action q (record l₁ { context = c })
            ]
            else halt b cfg input FailureCode.budget_exhausted
                (record {
                  summary = action_summary action;
                  before = some before;
                  failure = none;
                  stop_reason = some "tool budget exhausted";
                })
                l₁
      ]

  -- The `assert` on the request and the lookup of the tool, each of which could raise.
  unfoldable pub acquire : SupervisorDecision → LoopState E → Step E
  acquire d l = elim d.request [
    | none ↦ raised
    | some q ↦ if contains_action d.action cfg.tools then call_tool d.action q l else raised
  ]
