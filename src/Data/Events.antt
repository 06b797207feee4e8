-- ===== src/Data/Events.antt =====
-- `GroundTruthEvent` of src/flowsec/data/ground_truth.py and the records of
-- src/flowsec/data/event_matching.py. Times are milliseconds since 1970, none of them earlier.
use flow_security_agent.Prelude.{ℕ, String, Bool, List, Option}

pub record GroundTruthEvent : Type 0 where
  pub event_id : String
  pub start_ms : ℕ
  pub end_ms : ℕ
  pub source_ip : String
  pub destination_ip : String
  pub protocol : Option ℕ
  pub source_port : Option ℕ
  pub destination_port : Option ℕ
  pub label : String
  pub scenario_id : Option String

pub data MatchStatus : Type 0 where
  unique ambiguous unmatched : MatchStatus

pub record FlowIdentity : Type 0 where
  pub flow_id : String
  pub start_ms : ℕ
  pub end_ms : ℕ
  pub source_ip : String
  pub destination_ip : String
  pub protocol : ℕ
  pub source_port : ℕ
  pub destination_port : ℕ
  pub label : Option String

pub record MatchResult : Type 0 where
  pub flow_id : String
  pub status : MatchStatus
  pub event_ids : List String
  pub rule_types : List String
  pub label_agreement : Option Bool
