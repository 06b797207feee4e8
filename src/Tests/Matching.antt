-- ===== src/Tests/Matching.antt =====
-- Events and flows at small inputs.
use flow_security_agent.Data.Events.{FlowIdentity, GroundTruthEvent, MatchStatus}
use flow_security_agent.Data.Matching.{id_of, match_flow, new_index}
use flow_security_agent.Data.Matching.Scan.{
  covers_day, match_flow-crossing, match_flow-scan, match_flow-scan_days, scan,
}
use flow_security_agent.Prelude.Sorting.{HasDistinctKeys}
use flow_security_agent.Prelude.{ℕ, String, ◌≡◌, refl, true, List, [], ◌∷◌, none, some, arith}
use flow_security_agent.Tests.Program.{program}

abbrev event : String → ℕ → ℕ → GroundTruthEvent
event id start end = record {
  event_id = id;
  start_ms = start;
  end_ms = end;
  source_ip = "a";
  destination_ip = "b";
  protocol = none;
  source_port = none;
  destination_port = some 80;
  label = "scan";
  scenario_id = none;
}

abbrev flow : ℕ → ℕ → FlowIdentity
flow start end = record {
  flow_id = "f";
  start_ms = start;
  end_ms = end;
  source_ip = "b";
  destination_ip = "a";
  protocol = 6;
  source_port = 80;
  destination_port = 5000;
  label = some "scan";
}

-- Two days, and one on the second day only.
abbrev events : List GroundTruthEvent
events = event "y" 86400000 86400500 ∷ event "x" 1000 86400500 ∷ []

events-HasDistinctKeys : HasDistinctKeys id_of events
events-HasDistinctKeys = ((refl, tt), (tt, tt))

-- Both events are found, in the order of their ids, against their direction.
matched : match_flow (new_index events true) (flow 86400100 86400200) ≡ record {
  flow_id = "f";
  status = MatchStatus.ambiguous;
  event_ids = "x" ∷ "y" ∷ [];
  rule_types = "reverse_direction_time" ∷ "reverse_direction_time" ∷ [];
  label_agreement = some true;
}
unfolding program
matched = refl

match_flow-scan_days_example :
    match_flow (new_index events true) (flow 86399000 86400200)
    ≡ scan covers_day true events (flow 86399000 86400200)
match_flow-scan_days_example =
    match_flow-scan_days events true (flow 86399000 86400200) events-HasDistinctKeys

match_flow-scan_example :
    match_flow (new_index events true) (flow 86400100 86400200)
    ≡ scan (λ _ _. true) true events (flow 86400100 86400200)
unfolding program
match_flow-scan_example =
    match_flow-scan events true (flow 86400100 86400200) events-HasDistinctKeys refl

-- A flow over midnight does not find the event that begins after midnight.
match_flow-crossing_example :
    ((match_flow
        (new_index (event "y" 86400000 86400500 ∷ []) true)
        (flow 86399000 86400200)).status
      ≡ MatchStatus.unmatched)
    × ((scan (λ _ _. true) true (event "y" 86400000 86400500 ∷ []) (flow 86399000 86400200)).status
        ≡ MatchStatus.unique)
unfolding program
match_flow-crossing_example =
    match_flow-crossing (event "y" 86400000 86400500) true (flow 86399000 86400200) refl
      (omega arith)
