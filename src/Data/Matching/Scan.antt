-- ===== src/Data/Matching/Scan.antt =====
-- The match of a flow against a scan of all events.

use mathlib.Core.Path.{fun_ext}
use flow_security_agent.Data.Events.{GroundTruthEvent, FlowIdentity, MatchResult, MatchStatus}
use flow_security_agent.Data.Matching.{
  eq_optional, flow_key, goes_direct, goes_reverse, id_of, is_open, is_port, match_flow, matches_of,
  new_index, match_result, rule_of, utc_day,
}
use flow_security_agent.Data.Matching.Candidates.{candidate_events-new_index, is_candidate}
use flow_security_agent.Data.Matching.Buckets.{at_ends, in_bucket, in_days}
use flow_security_agent.Prelude.Sorting.{insert_by, sort_by, HasDistinctKeys}
use flow_security_agent.Prelude.Distinct.{str_eq_sym}
use flow_security_agent.Prelude.{
  ℕ, ◌<◌, ◌≡◌, refl, ap, ◌∙◌, String, Bool, true, false, ◌&&◌, ◌||◌, List, [], ◌∷◌, Option, none,
  some, inl, inr, arith, map, leb, ◌==◌, eq_iff, keep_if, leb→le, le→leb, and→both, Bool-cases,
  if◌then◌else◌,
}

-- What it is for an event to explain a flow, apart from the index: the event leaves the protocol
-- open or has the flow's, the times overlap, and the end points are the flow's with the ports that
-- the event names, in the one direction or, if that is allowed, in the other.
abbrev pub overlaps : FlowIdentity → GroundTruthEvent → Bool
overlaps flow e = leb e.start_ms flow.end_ms && leb flow.start_ms e.end_ms

abbrev pub fits_protocol : FlowIdentity → GroundTruthEvent → Bool
fits_protocol flow e = elim e.protocol [ none ↦ true | some p ↦ p == flow.protocol ]

abbrev pub explains : Bool → FlowIdentity → GroundTruthEvent → Bool
explains allow flow e =
    fits_protocol flow e
    && overlaps flow e
    && (if goes_direct e flow
        then is_port e.source_port flow.source_port
          && is_port e.destination_port flow.destination_port
        else goes_reverse allow e flow
          && is_port e.destination_port flow.source_port
          && is_port e.source_port flow.destination_port)

abbrev pub rule_name : Bool → FlowIdentity → GroundTruthEvent → String
rule_name allow flow e =
    if goes_reverse allow e flow
    then "reverse_direction_time"
    else if is_open e.protocol || is_open e.source_port || is_open e.destination_port
    then "wildcard_port_time"
    else "exact_5tuple_time"

-- The event's days hold the day on which the flow starts.
abbrev pub covers_day : FlowIdentity → GroundTruthEvent → Bool
covers_day flow e = in_days (utc_day e.start_ms) (utc_day e.end_ms) (utc_day flow.start_ms)

factor_out : (c a b d : Bool) → (c && (a && d) || c && (b && d)) ≡ (c && (a || b) && d)
factor_out c a b d = ground arith

some_if_none : {A : Type 0} (c : Bool) (x : A) → none ≡ (if c then some x else none) → c ≡ false
some_if_none c x h = ground arith

-- What matching should come to: all events in the order of their ids, and of these the ones that
-- explain the flow, each under its rule.
abbrev pub scan :
    (FlowIdentity → GroundTruthEvent → Bool)
    → Bool
    → List GroundTruthEvent
    → FlowIdentity
    → MatchResult
scan also allow events flow = match_result flow (
    map (λ e. (e, rule_name allow flow e))
      (keep_if (λ e. also flow e && explains allow flow e) (sort_by id_of events)))

module _ (allow : Bool) (flow : FlowIdentity) where
  at_ends-two_ways :
      (p : Option ℕ) (e : GroundTruthEvent)
      → at_ends allow (flow_key flow p) e
        ≡ (eq_optional e.protocol p && (goes_direct e flow || goes_reverse allow e flow))
  unfolding at_ends flow_key goes_direct goes_reverse
  at_ends-two_ways p e = ground (
    arith,
    str_eq_sym e.source_ip flow.source_ip,
    str_eq_sym e.destination_ip flow.destination_ip,
    str_eq_sym e.source_ip flow.destination_ip,
    str_eq_sym e.destination_ip flow.source_ip,
    eq_iff e.source_ip e.destination_ip,
  )

  fits_protocol-eq_optional :
      (e : GroundTruthEvent)
      → (eq_optional e.protocol (some flow.protocol) || eq_optional e.protocol none)
        ≡ fits_protocol flow e
  unfolding eq_optional
  fits_protocol-eq_optional e = go e.protocol
    where
      go :
          (o : Option ℕ)
          → (eq_optional o (some flow.protocol) || eq_optional o none)
            ≡ elim o [ none ↦ true | some p ↦ p == flow.protocol ]
      go none = refl
      go (some p) = ground arith

  is_candidate-eq :
      (e : GroundTruthEvent)
      → is_candidate allow flow e ≡ (
          covers_day flow e
          && fits_protocol flow e
          && (goes_direct e flow || goes_reverse allow e flow))
  unfolding is_candidate in_bucket flow_key
  is_candidate-eq e =
      ap (λ b. covers_day flow e && b || covers_day flow e && at_ends allow (flow_key flow none) e)
        (at_ends-two_ways (some flow.protocol) e)
      ∙ ap
          (λ b.
            covers_day flow e
              && (eq_optional e.protocol (some flow.protocol)
                  && (goes_direct e flow || goes_reverse allow e flow))
            || covers_day flow e && b)
          (at_ends-two_ways none e)
      ∙ factor_out (covers_day flow e) (eq_optional e.protocol (some flow.protocol))
          (eq_optional e.protocol none) (goes_direct e flow || goes_reverse allow e flow)
      ∙ ap (λ b. covers_day flow e && b && (goes_direct e flow || goes_reverse allow e flow))
          (fits_protocol-eq_optional e)

  is_candidate-rule_of :
      (e : GroundTruthEvent)
      → (if is_candidate allow flow e then rule_of allow flow e else none) ≡ (
          if covers_day flow e && explains allow flow e
          then some (rule_name allow flow e)
          else none)
  unfolding is_candidate rule_of
  is_candidate-rule_of e = rw (is_candidate-eq e) (elim (Bool-cases (goes_direct e flow)) [
    | inl direct ↦ ground (arith, goes_reverse)
    | inr other ↦ ground arith
  ])

  matches_of-keep_if :
      (es : List GroundTruthEvent)
      → matches_of allow flow (keep_if (is_candidate allow flow) es)
        ≡ map
            (λ e. (e, rule_name allow flow e))
            (keep_if (λ e. covers_day flow e && explains allow flow e) es)
  unfolding matches_of
  matches_of-keep_if [] = refl
  matches_of-keep_if (e ∷ es) =
      let rest = matches_of-keep_if es in
      let one = is_candidate-rule_of e in
      elim (Bool-cases (is_candidate allow flow e)) [
        | inl asked ↦ elim (Bool-cases (covers_day flow e && explains allow flow e)) [
          | inl found ↦
              let rule = rw (asked, found) at one in
              rw (asked, found, keep_if)
                (rw (rule, matches_of) (ap (λ xs. (e, rule_name allow flow e) ∷ xs) rest))
          | inr missed ↦
              let no_rule = rw (asked, missed) at one in
              rw (asked, missed, keep_if) (rw (no_rule, matches_of) rest)
        ]
        | inr skipped ↦
            let missed =
              some_if_none (covers_day flow e && explains allow flow e) (rule_name allow flow e)
                (rw skipped at one) in
            rw (skipped, missed, keep_if) rest
      ]

-- An index over events with distinct ids matches a flow as a scan of all events does that asks besides
-- whether the days of the event, from its start to its end, hold the day on which the flow starts.
pub match_flow-scan_days :
    (events : List GroundTruthEvent) (allow : Bool) (flow : FlowIdentity)
    → HasDistinctKeys id_of events
    → match_flow (new_index events allow) flow ≡ scan covers_day allow events flow
unfolding match_flow new_index
match_flow-scan_days events allow flow d =
    ap (λ es. match_result flow (matches_of allow flow es))
      (candidate_events-new_index allow flow events d)
    ∙ ap (match_result flow) (matches_of-keep_if allow flow (sort_by id_of events))

keep_if_ext :
    (p q : GroundTruthEvent → Bool)
    → ((e : GroundTruthEvent) → p e ≡ q e)
    → (es : List GroundTruthEvent) → keep_if p es ≡ keep_if q es
keep_if_ext p q h es = ap (λ r. keep_if r es) (fun_ext h)

covers_day-overlaps :
    (flow : FlowIdentity) (e : GroundTruthEvent)
    → utc_day flow.start_ms ≡ utc_day flow.end_ms
    → overlaps flow e ≡ true
    → covers_day flow e ≡ true
unfolding in_days utc_day
covers_day-overlaps flow e h o =
    let (starts, ends) = and→both (leb e.start_ms flow.end_ms) (leb flow.start_ms e.end_ms) o in
    let begins = leb→le e.start_ms flow.end_ms starts in
    let lasts = leb→le flow.start_ms e.end_ms ends in
    rw
      (
        le→leb (utc_day e.start_ms) (utc_day flow.start_ms) (omega (arith, begins, h)),
        le→leb (utc_day flow.start_ms) (utc_day e.end_ms) (omega (arith, lasts)),
      )
      refl

drop_test : (c f o x : Bool) → (o ≡ true → c ≡ true) → (c && (f && o && x)) ≡ (f && o && x)
drop_test c f true x h = rw (h refl) refl
drop_test c true false x h = ground arith
drop_test c false false x h = ground arith

explains-covers_day :
    (allow : Bool) (flow : FlowIdentity) (e : GroundTruthEvent)
    → utc_day flow.start_ms ≡ utc_day flow.end_ms
    → (covers_day flow e && explains allow flow e) ≡ explains allow flow e
explains-covers_day allow flow e h =
    drop_test (covers_day flow e) (fits_protocol flow e) (overlaps flow e) _
      (covers_day-overlaps flow e h)

-- A flow that ends on the day on which it starts is matched as by a scan of all events: the index
-- loses none.
pub match_flow-scan :
    (events : List GroundTruthEvent) (allow : Bool) (flow : FlowIdentity)
    → HasDistinctKeys id_of events
    → utc_day flow.start_ms ≡ utc_day flow.end_ms
    → match_flow (new_index events allow) flow ≡ scan (λ _ _. true) allow events flow
match_flow-scan events allow flow d h =
    match_flow-scan_days events allow flow d
    ∙ ap (λ es. match_result flow (map (λ e. (e, rule_name allow flow e)) es))
        (keep_if_ext (λ e. covers_day flow e && explains allow flow e) (explains allow flow)
          (λ e. explains-covers_day allow flow e h) (sort_by id_of events))

gt→leb-false : (a b : ℕ) → a < b → leb b a ≡ false
gt→leb-false a b h = ground arith

-- An event that explains a flow, and that starts on a later day than the flow does, is not found: the
-- flow stays unmatched, where a scan has it as the only match.
pub match_flow-crossing :
    (e : GroundTruthEvent) (allow : Bool) (flow : FlowIdentity)
    → explains allow flow e ≡ true
    → utc_day flow.start_ms < utc_day e.start_ms
    → ((match_flow (new_index (e ∷ []) allow) flow).status ≡ MatchStatus.unmatched)
      × ((scan (λ _ _. true) allow (e ∷ []) flow).status ≡ MatchStatus.unique)
unfolding sort_by insert_by match_result in_days
match_flow-crossing e allow flow h late =
    let missed : covers_day flow e ≡ false = rw (gt→leb-false _ _ late) refl in
    (
      ap (λ (r : MatchResult). r.status) (match_flow-scan_days (e ∷ []) allow flow (tt, tt))
          ∙ rw (missed, keep_if) refl,
      rw (h, keep_if) refl,
    )
