-- ===== src/Tests/Parts.antt =====
-- The other parts at small inputs.
use flow_security_agent.Backends.{Mock, new_tool, synthetic_execute}
use flow_security_agent.Backends.Scripts.{answers, play, play-answers}
use flow_security_agent.Budget.{fresh}
use flow_security_agent.Contracts.Enums.{
  ToolStatus, AgentAction, Capability, FinalDecisionType, TraceEventType, UnknownState,
}
use flow_security_agent.Contracts.Evidence.{no_metrics}
use flow_security_agent.Contracts.Requests.{ToolRequest, signature}
use flow_security_agent.Contracts.State.{RuntimeResult, TraceEvent}
use flow_security_agent.Contracts.Values.{Value, Items, Fields}
use flow_security_agent.Contracts.Visible.{Rejection, check_value}
use flow_security_agent.Contracts.Visible.Reading.{
  IsPlain, IsPlainKey, check_value_iff, keys_in, texts_in,
}
use flow_security_agent.Evaluation.{sum, summarize}
use flow_security_agent.Evaluation.Counting.{Tallies, summarize-Tallies}
use flow_security_agent.Orchestrator.Sound.{IsClosed}
use flow_security_agent.Memory.{add, add_class, get_class, load_classes, retrieve}
use flow_security_agent.Memory.Ranking.{Ranks, retrieve-Ranks}
use flow_security_agent.Memory.Store.{
  Adds, AddsClass, latest, add-Adds, add_class-AddsClass, load_classes-get, IsStore, Reaches, added,
  preloaded, Reaches-IsStore,
}
use flow_security_agent.Orchestrator.Backends.{returns, raises}
use flow_security_agent.Orchestrator.Create.{Arguments, create}
use flow_security_agent.Orchestrator.Create.Created.{Creates, create-Creates}
use flow_security_agent.Prelude.Floats.{exact}
use flow_security_agent.Prelude.Int.{pos}
use flow_security_agent.Prelude.{ℕ, All, ◌≡◌, ◌↔◌, refl, false, [], ◌∷◌, ◌++◌, none, some}
use flow_security_agent.Tests.Data.{class_memory, experience, host, item, limits, metrics}
use flow_security_agent.Tests.Program.{program}

abbrev arguments : Arguments
arguments = record {
  tools =
      record { action = AgentAction.expand_packets; capability = Capability.packet_expansion } ∷ [];
  budget_limits = limits;
  allowed_actions = none;
  allowed_information_domains = none;
  allowed_request_parameters = none;
  has_memory = false;
  memory_retrieval_limit = pos 2;
  max_invalid_retries = pos 1;
}

create-Creates_example : Creates arguments (create arguments)
create-Creates_example = create-Creates arguments

retrieve-Ranks_example :
    Ranks "web a" 1
      (experience "b" ∷ experience "a" ∷ [])
      (retrieve "web a" 1 (experience "b" ∷ experience "a" ∷ []))
retrieve-Ranks_example = retrieve-Ranks "web a" 1 (experience "b" ∷ experience "a" ∷ [])

-- The record with two terms of the query stands before the older one.
retrieved : retrieve "web A" 1 (experience "b" ∷ experience "a" ∷ []) ≡ experience "a" ∷ []
unfolding program
retrieved = refl

reached : Reaches (experience "a" ∷ []) (experience "a" ∷ experience "b" ∷ [])
unfolding program
reached =
    added (experience "b") (experience "a" ∷ []) (experience "a" ∷ experience "b" ∷ [])
      (preloaded (experience "a" ∷ []) refl) refl

Reaches-IsStore_example : IsStore (experience "a" ∷ []) (experience "a" ∷ experience "b" ∷ [])
Reaches-IsStore_example =
    Reaches-IsStore (experience "a" ∷ []) (experience "a" ∷ experience "b" ∷ []) reached

add-Adds_example :
    Adds (experience "b") (experience "a" ∷ []) (add (experience "b") (experience "a" ∷ []))
add-Adds_example = add-Adds (experience "b") (experience "a" ∷ [])

load_classes-get_example :
    get_class "x" (load_classes [] (class_memory "x" "old" ∷ class_memory "x" "new" ∷ []))
    ≡ latest "x" none (class_memory "x" "old" ∷ class_memory "x" "new" ∷ [])
load_classes-get_example =
    load_classes-get "x" (class_memory "x" "old" ∷ class_memory "x" "new" ∷ [])

add_class-AddsClass_example :
    AddsClass
      (class_memory "y" "new")
      (class_memory "x" "old" ∷ [])
      (add_class (class_memory "y" "new") (class_memory "x" "old" ∷ []))
add_class-AddsClass_example =
    add_class-AddsClass (class_memory "y" "new") (class_memory "x" "old" ∷ [])

abbrev summary_value : Value
summary_value =
    Value.dict
      (Fields.field "window" (Value.list (Items.cons (Value.text "tcp") Items.nil)) Fields.end)

check_value_iff_example :
    (check_value summary_value ≡ none)
    ↔ (All IsPlain (texts_in summary_value) × All IsPlainKey (keys_in summary_value))
check_value_iff_example = check_value_iff summary_value

-- An address and a prohibited name are refused at any depth.
address :
    check_value (Value.list (Items.cons (Value.text "to 10.0.0.1.") Items.nil))
    ≡ some Rejection.raw_ipv4
unfolding program
address = refl

prohibited :
    check_value (Value.dict (Fields.field "Sample-ID" Value.null Fields.end))
    ≡ some (Rejection.backend_field "Sample-ID")
unfolding program
prohibited = refl

abbrev mock : Mock ℕ ℕ
mock = record {
  responses = returns 7 ∷ raises "TimeoutError" ∷ [];
  calls = [];
  estimate_metrics = metrics 1;
}

play-answers_example :
    ((play mock (1 ∷ 2 ∷ 3 ∷ [])).0 ≡ answers {A = ℕ} mock.responses (1 ∷ 2 ∷ 3 ∷ []))
    × ((play mock (1 ∷ 2 ∷ 3 ∷ [])).1.calls ≡ mock.calls ++ 1 ∷ 2 ∷ 3 ∷ [])
    × ((play mock (1 ∷ 2 ∷ 3 ∷ [])).1.estimate_metrics ≡ mock.estimate_metrics)
play-answers_example = play-answers mock (1 ∷ 2 ∷ 3 ∷ [])

abbrev packet_request : ToolRequest
packet_request = record { action = AgentAction.expand_packets; parameters = Fields.end }

-- A tool refuses a request for another action.
refused_request :
    let t =
      new_tool AgentAction.expand_graph_context none (item "second" ∷ []) (some (metrics 2)) none in
    synthetic_execute t packet_request [] ≡ (
      returns (record {
        status = ToolStatus.failure;
        request_signature = signature packet_request;
        evidence = [];
        metrics = no_metrics;
        error = some "tool cannot execute action expand_packets";
      }),
      record t { requests = packet_request ∷ [] },
    )
unfolding program
refused_request = refl

-- A trace of two events, the last one `final`.
abbrev event : ℕ → TraceEventType → TraceEvent
event n kind = record {
  step = n;
  round_index = 0;
  event_type = kind;
  summary = Fields.field "action" (Value.text "abstain") Fields.end;
  budget_before = fresh limits;
  budget_after = fresh limits;
  failure = none;
  stop_reason = none;
}

abbrev result : RuntimeResult
result = record {
  sample_id = "sample";
  final_decision = record {
    decision_type = FinalDecisionType.abstain;
    action = AgentAction.abstain;
    label = none;
    reason = "none";
    unknown_state = UnknownState.uncertain;
  };
  final_state = none;
  trace = event 0 TraceEventType.failure ∷ event 1 TraceEventType.final ∷ [];
  budget = fresh limits;
  failures = [];
  memory_written = false;
}

closed : IsClosed result.trace
closed = record {
  body = event 0 TraceEventType.failure ∷ [];
  last = event 1 TraceEventType.final;
  parts = refl;
  body_open = ((λ p. cc), tt);
  last_final = refl;
}

summarize-Tallies_example :
    Tallies sum (result ∷ result ∷ []) (summarize sum (result ∷ result ∷ []))
summarize-Tallies_example = summarize-Tallies sum (result ∷ result ∷ []) (closed, (closed, tt))

summarized : (summarize sum (result ∷ result ∷ [])).action_histogram ≡ ("abstain", 4) ∷ []
unfolding program
summarized = refl
