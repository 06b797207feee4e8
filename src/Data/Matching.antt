-- ===== src/Data/Matching.antt =====
-- `EventIndex` of src/flowsec/data/event_matching.py: the buckets by day, protocol and end points, and
-- the match of a flow. A date is its number of days since 1970.
pub mod Buckets
pub mod Candidates
pub mod Scan
use Prim.Native.Nat.{◌/◌}
use flow_security_agent.Data.Events.{GroundTruthEvent, FlowIdentity, MatchResult, MatchStatus}
use flow_security_agent.Prelude.Sorting.{sort_by}
use flow_security_agent.Prelude.{
  ℕ, zero, suc, ◌-◌, String, Bool, true, false, not, ◌&&◌, ◌||◌, List, [], ◌∷◌, ◌++◌, Option, none,
  some, map, ltb, leb, ◌==◌, all, length, is_empty, str_eq, if◌then◌else◌,
}

-- `_utc_day`
unfoldable pub utc_day : ℕ → ℕ
utc_day timestamp_ms = timestamp_ms / 86400000

-- `==` of two optional numbers.
unfoldable pub eq_optional : Option ℕ → Option ℕ → Bool
eq_optional none none = true
eq_optional none (some b) = false
eq_optional (some a) none = false
eq_optional (some a) (some b) = a == b

pub record Key : Type 0 where
  pub day : ℕ
  pub protocol : Option ℕ
  pub source : String
  pub destination : String

unfoldable pub eq_key : Key → Key → Bool
unfolding eq_optional
eq_key j k =
    j.day == k.day
    && eq_optional j.protocol k.protocol
    && str_eq j.source k.source
    && str_eq j.destination k.destination

-- A `defaultdict` of lists.
abbrev pub Buckets : Type 0
Buckets = List (Key × List GroundTruthEvent)

-- `self._buckets.get(key, ())`
unfoldable pub get_bucket : Key → Buckets → List GroundTruthEvent
unfolding eq_key
get_bucket k [] = []
get_bucket k ((j, es) ∷ rest) = if eq_key j k then es else get_bucket k rest

-- `self._buckets[key].append(event)`
unfoldable pub append_event : Key → GroundTruthEvent → Buckets → Buckets
unfolding eq_key
append_event k e [] = (k, e ∷ []) ∷ []
append_event k e ((j, es) ∷ rest) =
    let later = append_event k e rest in
    if eq_key j k then (j, es ++ e ∷ []) ∷ rest else (j, es) ∷ later

unfoldable pub direct_key : ℕ → GroundTruthEvent → Key
direct_key day e = record {
  day = day;
  protocol = e.protocol;
  source = e.source_ip;
  destination = e.destination_ip;
}

unfoldable pub reverse_key : ℕ → GroundTruthEvent → Key
reverse_key day e = record {
  day = day;
  protocol = e.protocol;
  source = e.destination_ip;
  destination = e.source_ip;
}

-- The body of the loop over the days.
unfoldable pub add_day : Bool → GroundTruthEvent → ℕ → Buckets → Buckets
unfolding direct_key reverse_key append_event
add_day allow_reverse e day buckets =
    let direct = append_event (direct_key day e) e buckets in
    if allow_reverse && not (str_eq e.source_ip e.destination_ip)
    then append_event (reverse_key day e) e direct
    else direct

-- `while current_day <= last_day`, on fuel.
unfoldable pub add_days : ℕ → Bool → GroundTruthEvent → ℕ → ℕ → Buckets → Buckets
unfolding add_day
add_days zero allow_reverse e current last buckets = buckets
add_days (suc fuel) allow_reverse e current last buckets =
    let rest =
      add_days fuel allow_reverse e (suc current) last (add_day allow_reverse e current buckets) in
    if leb current last then rest else buckets

-- There are at most as many rounds as days up to the last.
unfoldable pub add_event : Bool → GroundTruthEvent → Buckets → Buckets
unfolding add_days utc_day
add_event allow_reverse e buckets =
    add_days (suc (utc_day e.end_ms) - utc_day e.start_ms) allow_reverse e (utc_day e.start_ms)
      (utc_day e.end_ms) buckets

unfoldable pub add_events : Bool → List GroundTruthEvent → Buckets → Buckets
unfolding add_event
add_events allow_reverse [] buckets = buckets
add_events allow_reverse (e ∷ es) buckets =
    add_events allow_reverse es (add_event allow_reverse e buckets)

pub record EventIndex : Type 0 where
  pub allow_reverse : Bool
  pub buckets : Buckets

abbrev pub id_of : GroundTruthEvent → String
id_of e = e.event_id

unfoldable pub new_index : List GroundTruthEvent → Bool → EventIndex
unfolding add_events
new_index events allow_reverse = record {
  allow_reverse = allow_reverse;
  buckets = add_events allow_reverse (sort_by id_of events) [];
}

-- `candidates[event.event_id] = event`
unfoldable pub put_candidate : GroundTruthEvent → List GroundTruthEvent → List GroundTruthEvent
put_candidate e [] = e ∷ []
put_candidate e (d ∷ ds) =
    let rest = put_candidate e ds in if str_eq d.event_id e.event_id then e ∷ ds else d ∷ rest

unfoldable pub put_candidates :
    List GroundTruthEvent → List GroundTruthEvent → List GroundTruthEvent
unfolding put_candidate
put_candidates [] ds = ds
put_candidates (e ∷ es) ds = put_candidates es (put_candidate e ds)

unfoldable pub flow_key : FlowIdentity → Option ℕ → Key
flow_key flow protocol = record {
  day = utc_day flow.start_ms;
  protocol = protocol;
  source = flow.source_ip;
  destination = flow.destination_ip;
}

-- `_candidate_events`
unfoldable pub candidate_events : EventIndex → FlowIdentity → List GroundTruthEvent
unfolding flow_key get_bucket put_candidates
candidate_events index flow = sort_by id_of (
    put_candidates (get_bucket (flow_key flow none) index.buckets)
      (put_candidates (get_bucket (flow_key flow (some flow.protocol)) index.buckets) []))

-- A port that an event names has to be the flow's.
unfoldable pub is_port : Option ℕ → ℕ → Bool
is_port none port = true
is_port (some expected) port = port == expected

unfoldable pub is_open : Option ℕ → Bool
is_open none = true
is_open (some n) = false

unfoldable pub goes_direct : GroundTruthEvent → FlowIdentity → Bool
goes_direct e flow =
    str_eq flow.source_ip e.source_ip && str_eq flow.destination_ip e.destination_ip

unfoldable pub goes_reverse : Bool → GroundTruthEvent → FlowIdentity → Bool
goes_reverse allow_reverse e flow =
    allow_reverse
    && str_eq flow.source_ip e.destination_ip
    && str_eq flow.destination_ip e.source_ip

-- The body of the loop in `match`: the rule under which the event matches, if it is not passed over.
unfoldable pub rule_of : Bool → FlowIdentity → GroundTruthEvent → Option String
unfolding goes_direct goes_reverse is_port is_open
rule_of allow_reverse flow e =
    let direct = goes_direct e flow in
    let reverse = goes_reverse allow_reverse e flow in
    let source_port = if direct then e.source_port else e.destination_port in
    let destination_port = if direct then e.destination_port else e.source_port in
    let wildcard = is_open e.protocol || is_open e.source_port || is_open e.destination_port in
    if ltb flow.end_ms e.start_ms || ltb e.end_ms flow.start_ms
    then none
    else if not (direct || reverse)
    then none
    else if not (is_port source_port flow.source_port)
    then none
    else if not (is_port destination_port flow.destination_port)
    then none
    else if reverse
    then some "reverse_direction_time"
    else if wildcard
    then some "wildcard_port_time"
    else some "exact_5tuple_time"

unfoldable pub matches_of :
    Bool → FlowIdentity → List GroundTruthEvent → List (GroundTruthEvent × String)
unfolding rule_of
matches_of allow_reverse flow [] = []
matches_of allow_reverse flow (e ∷ es) =
    let rest = matches_of allow_reverse flow es in
    elim (rule_of allow_reverse flow e) [ none ↦ rest | some rule ↦ (e, rule) ∷ rest ]

unfoldable pub match_result : FlowIdentity → List (GroundTruthEvent × String) → MatchResult
match_result flow matches =
    if is_empty matches
    then record {
      flow_id = flow.flow_id;
      status = MatchStatus.unmatched;
      event_ids = [];
      rule_types = [];
      label_agreement = none;
    }
    else record {
      flow_id = flow.flow_id;
      status = if length matches == 1 then MatchStatus.unique else MatchStatus.ambiguous;
      event_ids = map (λ (m : GroundTruthEvent × String). m.0.event_id) matches;
      rule_types = map (λ (m : GroundTruthEvent × String). m.1) matches;
      label_agreement = elim flow.label [
        | none ↦ none
        | some label ↦
            some (all (λ (m : GroundTruthEvent × String). str_eq m.0.label label) matches)
      ];
    }

unfoldable pub match_flow : EventIndex → FlowIdentity → MatchResult
unfolding candidate_events matches_of match_result
match_flow index flow =
    match_result flow (matches_of index.allow_reverse flow (candidate_events index flow))

unfoldable pub match_many : EventIndex → List FlowIdentity → List MatchResult
unfolding match_flow
match_many index flows = map (match_flow index) flows
