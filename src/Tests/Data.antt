-- ===== src/Tests/Data.antt =====
-- A small world that the tests share: a host, limits, evidence, and backends that ask for packets once
-- and then accept a label.
use flow_security_agent.Budget.{BudgetLimits}
use flow_security_agent.Contracts.Enums.{
  AgentAction, Capability, EvidenceSufficiency, EvidenceTrust, FeedbackSource, GapDomain, GapType,
  RuntimePhase, ToolStatus, UnknownState,
}
use flow_security_agent.Contracts.Evidence.{
  CallMetrics, CapabilityStatus, EvidenceItem, MissingEvidence, PredictionCandidate,
  TrafficExpertResult, UnknownDecision, no_metrics,
}
use flow_security_agent.Contracts.Experience.{ClassMemoryRecord, ExperienceRecord, VerifiedFeedback}
use flow_security_agent.Contracts.Host.{Host}
use flow_security_agent.Contracts.Requests.{SupervisorDecision}
use flow_security_agent.Contracts.State.{EvidenceState, RuntimeInput, SupervisorView}
use flow_security_agent.Contracts.Values.{Value, Fields}
use flow_security_agent.Orchestrator.Backends.{Backends, Config, returns}
use flow_security_agent.Prelude.{
  ℕ, suc, String, true, [], ◌∷◌, none, some, length, leb, if◌then◌else◌,
}

-- The text of the first entry that is one.
abbrev first_text : Fields → String
first_text Fields.end = ""
first_text (Fields.field k (Value.text s) fs) = s
first_text (Fields.field k _ fs) = first_text fs

instance abbrev pub host : Host
host = record { dump_json = content_of; dumps_sorted = first_text; sha256 = λ s. s }
  where
    content_of : Fields → String
    content_of (Fields.field k v (Fields.field k₁ v₁ (Fields.field k₂ (Value.text s) fs))) = s
    content_of _ = ""

abbrev pub metrics : ℕ → CallMetrics
metrics n = record { abstract_tokens = n; abstract_cost = n; abstract_latency = n }

abbrev pub limits : BudgetLimits
limits = record {
  max_rounds = 2;
  max_traffic_expert_calls = 3;
  max_supervisor_calls = 3;
  max_tool_calls = 2;
  max_rag_calls = 1;
  max_abstract_tokens = 100;
  max_abstract_cost = 100;
  max_abstract_latency = 100;
}

abbrev pub item : String → EvidenceItem
item id = record {
  evidence_id = id;
  gap_type = GapType.packet;
  domain = GapDomain.observational;
  content = id;
  provenance = "probe";
  trust = EvidenceTrust.trusted;
  model_safe = true;
  metadata = Fields.end;
}

abbrev pub packet_gap : MissingEvidence
packet_gap = record {
  description = "more packets";
  gap_type = GapType.packet;
  domain = GapDomain.observational;
  valuable = true;
}

abbrev pub candidate : String → PredictionCandidate
candidate label = record { label = label; score = none }

abbrev pub unsure : TrafficExpertResult
unsure = record {
  fine_candidates = [];
  coarse_candidates = [];
  short_analysis = "short";
  supporting_evidence = [];
  missing_evidence = packet_gap ∷ [];
  evidence_sufficiency = EvidenceSufficiency.insufficient;
  model_signals = Fields.end;
  metrics = metrics 1;
}

abbrev pub sure : TrafficExpertResult
sure = record {
  fine_candidates = candidate "web" ∷ candidate "mail" ∷ [];
  coarse_candidates = candidate "benign" ∷ [];
  short_analysis = "enough";
  supporting_evidence = [];
  missing_evidence = [];
  evidence_sufficiency = EvidenceSufficiency.sufficient;
  model_signals = Fields.end;
  metrics = metrics 1;
}

abbrev pub known : UnknownDecision
known = record { score = none; state = UnknownState.known_likely; metadata = Fields.end }

abbrev pub ask : SupervisorDecision
ask = record {
  action = AgentAction.expand_packets;
  request = some (record { action = AgentAction.expand_packets; parameters = Fields.end });
  short_reason = "look closer";
  priority = none;
  expected_value = none;
  planned_actions = [];
  metrics = no_metrics;
}

abbrev pub accept : SupervisorDecision
accept = record {
  action = AgentAction.accept_fine;
  request = none;
  short_reason = "clear";
  priority = none;
  expected_value = none;
  planned_actions = [];
  metrics = no_metrics;
}

abbrev pub packets_at_hand : CapabilityStatus
packets_at_hand = record {
  capability = Capability.packet_expansion;
  available = true;
  reason = none;
}

abbrev pub feedback : VerifiedFeedback
feedback = record {
  verified = true;
  source = FeedbackSource.human_label;
  summary = "right";
  outcome_positive = true;
}

abbrev pub experience : String → ExperienceRecord
experience id = record {
  experience_id = id;
  state_summary = "state";
  action = AgentAction.accept_fine;
  outcome = "fine";
  feedback = feedback;
  keywords = "web" ∷ id ∷ [];
  positive = true;
}

abbrev pub class_memory : String → String → ClassMemoryRecord
class_memory id label = record {
  class_id = id;
  label = label;
  description = "a class";
  supporting_examples = [];
}

abbrev pub config : Config
config = record {
  tools = AgentAction.expand_packets ∷ [];
  budget_limits = limits;
  allowed_actions =
      AgentAction.expand_packets ∷ AgentAction.accept_fine ∷ AgentAction.backoff_coarse
      ∷ AgentAction.abstain ∷ [];
  allowed_information_domains = GapDomain.observational ∷ GapDomain.knowledge ∷ [];
  allowed_request_signatures = [];
  has_memory = true;
  memory_retrieval_limit = 2;
  max_invalid_retries = 1;
}

abbrev pub input : RuntimeInput
input = record {
  sample_id = "sample";
  initial_evidence = item "first" ∷ [];
  capabilities = packets_at_hand ∷ [];
  phase = RuntimePhase.train;
  verified_feedback = some feedback;
  memory_query = "web";
}

-- The environment counts the calls of `add`.
abbrev pub backends : Backends ℕ
backends = record {
  expert_estimate = λ es n. (returns (metrics 2), n);
  expert_evaluate = λ es n. (returns (if leb 2 (length es) then sure else unsure), n);
  unknown_score = λ t round count n. (returns known, n);
  supervisor_estimate = λ v n. (returns no_metrics, n);
  supervisor_decide =
      λ (v : SupervisorView) n. (returns (if leb 1 v.round_index then accept else ask), n);
  tool_estimate = λ a q n. (returns (metrics 2), n);
  tool_execute = λ a q es n. (
    returns (record {
      status = ToolStatus.success;
      request_signature = "expand_packets";
      evidence = item "second" ∷ [];
      metrics = metrics 1;
      error = none;
    }),
    n,
  );
  memory_retrieve = λ q limit n. (returns [], n);
  memory_add = λ e n. (returns tt, suc n);
}

abbrev pub state : EvidenceState
state = record {
  sample_id = "sample";
  evidence = item "first" ∷ [];
  traffic_expert_result = unsure;
  traffic_expert_history = unsure ∷ [];
  unknown_decision = known;
  capabilities = packets_at_hand ∷ [];
  round_index = 0;
  request_history = [];
  action_history = [];
  tool_failures = [];
  retrieved_experiences = [];
}

abbrev pub sure_state : EvidenceState
sure_state = record state { traffic_expert_result = sure; traffic_expert_history = sure ∷ [] }
