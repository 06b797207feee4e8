-- ===== src/Data/Matching/Candidates.antt =====
-- The candidates that an index offers for a flow.
use mathlib.Core.List.{append_assoc}
use mathlib.Core.List
use flow_security_agent.Data.Events.{GroundTruthEvent, FlowIdentity}
use flow_security_agent.Data.Matching.{
  add_events, candidate_events, eq_optional, flow_key, get_bucket, id_of, new_index, put_candidate,
  put_candidates,
}
use flow_security_agent.Data.Matching.Buckets.{
  at_ends, get_bucket-add_events, in_bucket, eq_optional→eq,
}
use flow_security_agent.Prelude.Sorting.{
  sort_by, sort_by-IsAscending, sort_by-keep_if, HasDistinctKeys,
}
use flow_security_agent.Prelude.Distinct.{
  HasDistinctKeys-before, HasDistinctKeys-front, HasDistinctKeys-keep_if, All-of_each,
}
use flow_security_agent.Prelude.{
  ◌≡◌, refl, sym, ap, ◌∙◌, Bool, false, ◌&&◌, ◌||◌, List, [], ◌∷◌, ◌++◌, none, some, inl, inr,
  arith, str_eq, keep_if, All, Bool-cases,
}

put_candidate-new :
    (e : GroundTruthEvent) (ds : List GroundTruthEvent)
    → All (λ d. str_eq (id_of d) (id_of e) ≡ false) ds
    → put_candidate e ds ≡ ds ++ e ∷ []
unfolding put_candidate
put_candidate-new e [] h = refl
put_candidate-new e (d ∷ ds) h =
    rw (h.0, put_candidate) (ap (λ xs. d ∷ xs) (put_candidate-new e ds h.1))

put_candidates-distinct :
    (es ds : List GroundTruthEvent)
    → HasDistinctKeys id_of (ds ++ es)
    → put_candidates es ds ≡ ds ++ es
unfolding put_candidates
put_candidates-distinct [] ds h = sym (List.append-nil ds)
put_candidates-distinct (e ∷ es) ds h =
    ap (put_candidates es) (put_candidate-new e ds (HasDistinctKeys-before id_of e ds es h))
    ∙ put_candidates-distinct es (ds ++ e ∷ []) (rw (append_assoc ds (e ∷ []) es) h)
    ∙ append_assoc ds (e ∷ []) es

-- The event stands in one of the two buckets that are looked up.
module _ (allow : Bool) (flow : FlowIdentity) where
  unfoldable pub is_candidate : GroundTruthEvent → Bool
  is_candidate e =
      in_bucket allow (flow_key flow (some flow.protocol)) e
      || in_bucket allow (flow_key flow none) e

  buckets_apart :
      (e : GroundTruthEvent)
      → (in_bucket allow (flow_key flow (some flow.protocol)) e
          && in_bucket allow (flow_key flow none) e)
        ≡ false
  unfolding in_bucket flow_key at_ends eq_optional
  buckets_apart e = elim (Bool-cases (eq_optional e.protocol none)) [
    | inl open_protocol ↦
        ground
          (arith, eq_optional→eq e.protocol none, eq_optional→eq e.protocol (some flow.protocol))
    | inr closed ↦ ground arith
  ]

  pub candidate_events-new_index :
      (events : List GroundTruthEvent)
      → HasDistinctKeys id_of events
      → candidate_events (new_index events allow) flow ≡ keep_if is_candidate (sort_by id_of events)
  unfolding candidate_events new_index is_candidate
  candidate_events-new_index events d =
      let S = sort_by id_of events in
      let p = in_bucket allow (flow_key flow (some flow.protocol)) in
      let q = in_bucket allow (flow_key flow none) in
      let apart = All-of_each (λ e. (p e && q e) ≡ false) buckets_apart S in
      let ascending = sort_by-IsAscending id_of events d in
      let both = HasDistinctKeys-keep_if id_of p q S apart ascending in
      ap (sort_by id_of) (
        ap
          (λ xs. put_candidates xs (
            put_candidates (get_bucket (flow_key flow (some flow.protocol)) (add_events allow S []))
              []))
          (get_bucket-add_events allow (flow_key flow none) S [])
        ∙ ap (λ xs. put_candidates (keep_if q S) (put_candidates xs []))
            (get_bucket-add_events allow (flow_key flow (some flow.protocol)) S [])
        ∙ ap (put_candidates (keep_if q S)) (
            put_candidates-distinct (keep_if p S) []
              (HasDistinctKeys-front id_of (keep_if p S) (keep_if q S) both))
        ∙ put_candidates-distinct (keep_if q S) (keep_if p S) both)
      ∙ sort_by-keep_if id_of p q S apart ascending
