-- ===== src/Evaluation/Counting.antt =====
-- What the numbers of a summary count.
use flow_security_agent.Contracts.Enums.{
  FinalDecisionType, FinalDecisionType-discrete, TraceEventType, TraceEventType-discrete,
  decision_value,
}
use flow_security_agent.Contracts.State.{RuntimeResult, TraceEvent}
use flow_security_agent.Evaluation.{
  Summary, action_of, bump, count_of, count_open, decisions_of, distribution_from, events_of,
  histogram_from, summarize,
}
use flow_security_agent.Orchestrator.Sound.{IsClosed, IsOpen}
use flow_security_agent.Prelude.{
  ℕ, suc, ◌+◌, ◌≡◌, ◌∙◌, refl, ap, String, Bool, true, false, List, [], ◌∷◌, ◌++◌, Option, none,
  some, inl, inr, arith, same, same→eq, same_self, str_eq, eq_iff, length, length-append,
  length-snoc, All, Bool-cases, if◌then◌else◌,
}

-- The decisions of a type, of results.
abbrev pub IsType : Type 0
IsType = FinalDecisionType → Bool

abbrev pub is_fine : IsType
is_fine FinalDecisionType.fine = true
is_fine _ = false

abbrev pub is_coarse : IsType
is_coarse FinalDecisionType.coarse = true
is_coarse _ = false

abbrev pub is_unknown : IsType
is_unknown FinalDecisionType.unknown = true
is_unknown _ = false

abbrev pub is_abstention : IsType
is_abstention FinalDecisionType.abstain = true
is_abstention _ = false

-- How many results have a decision of a type.
abbrev pub count_decided : IsType → List RuntimeResult → ℕ
count_decided p [] = 0
count_decided p (r ∷ rs) =
    if p r.final_decision.decision_type then suc (count_decided p rs) else count_decided p rs

-- A type is counted as a test of it, and so are the decisions.
count_of-decided :
    (t : FinalDecisionType) (p : IsType)
    → ((u : FinalDecisionType) → same FinalDecisionType-discrete u t ≡ p u)
    → (rs : List RuntimeResult)
    → count_of FinalDecisionType-discrete t (decisions_of rs) ≡ count_decided p rs
unfolding count_of decisions_of
count_of-decided t p h [] = refl
count_of-decided t p h (r ∷ rs) =
    ground (arith, h r.final_decision.decision_type, count_of-decided t p h rs)

same-is_fine :
    (u : FinalDecisionType) → same FinalDecisionType-discrete u FinalDecisionType.fine ≡ is_fine u
unfolding FinalDecisionType-discrete
same-is_fine u = ground arith

same-is_coarse :
    (u : FinalDecisionType)
    → same FinalDecisionType-discrete u FinalDecisionType.coarse ≡ is_coarse u
unfolding FinalDecisionType-discrete
same-is_coarse u = ground arith

same-is_unknown :
    (u : FinalDecisionType)
    → same FinalDecisionType-discrete u FinalDecisionType.unknown ≡ is_unknown u
unfolding FinalDecisionType-discrete
same-is_unknown u = ground arith

same-is_abstention :
    (u : FinalDecisionType)
    → same FinalDecisionType-discrete u FinalDecisionType.abstain ≡ is_abstention u
unfolding FinalDecisionType-discrete
same-is_abstention u = ground arith

partition :
    (rs : List RuntimeResult)
    → count_decided is_fine rs
        + count_decided is_coarse rs
        + count_decided is_unknown rs
        + count_decided is_abstention rs
      ≡ length rs
partition [] = refl
partition (r ∷ rs) = one r.final_decision.decision_type (partition rs)
  where
    one :
        (t : FinalDecisionType)
        → count_decided is_fine rs
            + count_decided is_coarse rs
            + count_decided is_unknown rs
            + count_decided is_abstention rs
          ≡ length rs
        → (if is_fine t then suc (count_decided is_fine rs) else count_decided is_fine rs)
            + (if is_coarse t then suc (count_decided is_coarse rs) else count_decided is_coarse rs)
            + (if is_unknown t
                then suc (count_decided is_unknown rs)
                else count_decided is_unknown rs)
            + (if is_abstention t
                then suc (count_decided is_abstention rs)
                else count_decided is_abstention rs)
          ≡ suc (length rs)
    one FinalDecisionType.fine h = omega arith
    one FinalDecisionType.coarse h = omega arith
    one FinalDecisionType.unknown h = omega arith
    one FinalDecisionType.abstain h = omega arith

-- The count under a key, 0 where it is missing.
abbrev pub count_at : String → List (String × ℕ) → ℕ
count_at k [] = 0
count_at k ((j, n) ∷ rest) = if str_eq j k then n else count_at k rest

abbrev pub is_action : String → Option String → Bool
is_action k none = false
is_action k (some j) = str_eq j k

-- How many events carry an action.
abbrev pub count_action : String → List TraceEvent → ℕ
count_action k [] = 0
count_action k (e ∷ es) =
    if is_action k (action_of e) then suc (count_action k es) else count_action k es

count_at-bump :
    (k j : String) (counts : List (String × ℕ))
    → count_at k (bump j counts)
      ≡ (if str_eq j k then suc (count_at k counts) else count_at k counts)
unfolding bump
count_at-bump k j [] = refl
count_at-bump k j ((i, n) ∷ rest) = elim (Bool-cases (str_eq i j)) [
  | inl own ↦ ground (arith, own, eq_iff i j, eq_iff j k, eq_iff i k)
  | inr other ↦ ground (arith, other, count_at-bump k j rest, eq_iff i j, eq_iff j k, eq_iff i k)
]

-- How many results have a decision with this value.
abbrev pub count_value : String → List RuntimeResult → ℕ
count_value k [] = 0
count_value k (r ∷ rs) =
    if str_eq (decision_value r.final_decision.decision_type) k
    then suc (count_value k rs)
    else count_value k rs

distribution_from-count_at :
    (k : String) (counts : List (String × ℕ)) (rs : List RuntimeResult)
    → count_at k (distribution_from counts (decisions_of rs)) ≡ count_at k counts + count_value k rs
unfolding distribution_from decisions_of
distribution_from-count_at k counts [] = omega arith
distribution_from-count_at k counts (r ∷ rs) =
    let j = decision_value r.final_decision.decision_type in
    ground (arith, distribution_from-count_at k (bump j counts) rs, count_at-bump k j counts)

histogram_from-count_at :
    (k : String) (counts : List (String × ℕ)) (es : List TraceEvent)
    → count_at k (histogram_from counts es) ≡ count_at k counts + count_action k es
unfolding histogram_from
histogram_from-count_at k counts [] = omega arith
histogram_from-count_at k counts (e ∷ es) =
    go (action_of e) refl (λ c. histogram_from-count_at k c es)
  where
    go :
        (o : Option String)
        → action_of e ≡ o
        → ((c : List (String × ℕ))
            → count_at k (histogram_from c es) ≡ count_at k c + count_action k es)
        → count_at k (histogram_from counts (e ∷ es)) ≡ count_at k counts + count_action k (e ∷ es)
    go none quiet rest = rw (quiet, histogram_from) (rest counts)
    go (some j) acts rest =
        rw (acts, histogram_from) (ground (arith, rest (bump j counts), count_at-bump k j counts))

count_open-append :
    (es fs : List TraceEvent) → count_open (es ++ fs) ≡ count_open es + count_open fs
unfolding count_open
count_open-append [] fs = omega arith
count_open-append (e ∷ es) fs = ground (arith, count_open-append es fs)

count_open-IsOpen : (es : List TraceEvent) → IsOpen es → count_open es ≡ length es
unfolding count_open
count_open-IsOpen [] o = refl
count_open-IsOpen (e ∷ es) o =
    let other : same TraceEventType-discrete e.event_type TraceEventType.final ≡ false =
      false_of _ (λ t. o.0 (same→eq TraceEventType-discrete e.event_type TraceEventType.final t)) in
    rw other (ap suc (count_open-IsOpen es o.1))
  where
    false_of : (b : Bool) → ¬ (b ≡ true) → b ≡ false
    false_of true n = absurd (n refl)
    false_of false n = refl

count_open-final : (e : TraceEvent) → e.event_type ≡ TraceEventType.final → count_open (e ∷ []) ≡ 0
unfolding count_open
count_open-final e f =
    let own : same TraceEventType-discrete e.event_type TraceEventType.final ≡ true =
      rw f (same_self TraceEventType-discrete TraceEventType.final) in
    rw own refl

count_open-IsClosed : (t : List TraceEvent) → IsClosed t → suc (count_open t) ≡ length t
count_open-IsClosed t c = omega (
  arith,
  ap count_open c.parts,
  ap (λ (x : List TraceEvent). length x) c.parts,
  count_open-append c.body (c.last ∷ []),
  count_open-IsOpen c.body c.body_open,
  count_open-final c.last c.last_final,
  length-snoc c.body c.last,
)

events_of-IsClosed :
    (rs : List RuntimeResult)
    → All (λ (r : RuntimeResult). IsClosed r.trace) rs
    → count_open (events_of rs) + length rs ≡ length (events_of rs)
unfolding events_of count_open
events_of-IsClosed [] h = refl
events_of-IsClosed (r ∷ rs) h = omega (
  arith,
  count_open-append r.trace (events_of rs),
  length-append r.trace (events_of rs),
  count_open-IsClosed r.trace h.0,
  events_of-IsClosed rs h.1,
)

module _ (sum_floats : List ℕ → ℕ) (rs : List RuntimeResult) where
  -- What a summary counts: every sample under its own decision, every event but the last one of each
  -- trace, and every action as often as an event carries it.
  pub record Tallies (s : Summary) : Type 0 where
    pub fine : s.fine_count ≡ count_decided is_fine rs
    pub coarse : s.coarse_count ≡ count_decided is_coarse rs
    pub unknown : s.unknown_reject_count ≡ count_decided is_unknown rs
    pub abstained : s.abstain_count ≡ count_decided is_abstention rs
    pub samples :
        s.fine_count + s.coarse_count + s.unknown_reject_count + s.abstain_count ≡ s.sample_count
    pub counted : s.sample_count ≡ length rs
    pub distribution : (k : String) → count_at k s.final_decision_distribution ≡ count_value k rs
    pub actions : (k : String) → count_at k s.action_histogram ≡ count_action k (events_of rs)
    pub events : s.trace_event_count + s.sample_count ≡ length (events_of rs)

  -- The summary of results with closed traces counts each sample under its own decision, in the four
  -- counts, which add up to the samples, and in the distribution; each action as often as the events
  -- carry it; and each event except for the final one of a trace.
  pub summarize-Tallies :
      All (λ (r : RuntimeResult). IsClosed r.trace) rs → Tallies (summarize sum_floats rs)
  unfolding summarize
  summarize-Tallies closed =
      let fine = count_of-decided FinalDecisionType.fine is_fine same-is_fine rs in
      let coarse = count_of-decided FinalDecisionType.coarse is_coarse same-is_coarse rs in
      let unknown = count_of-decided FinalDecisionType.unknown is_unknown same-is_unknown rs in
      let abstained =
        count_of-decided FinalDecisionType.abstain is_abstention same-is_abstention rs in
      record {
        fine = fine;
        coarse = coarse;
        unknown = unknown;
        abstained = abstained;
        samples = omega (arith, partition rs);
        counted = refl;
        distribution = λ k. distribution_from-count_at k [] rs ∙ zero_left (count_value k rs);
        actions = λ k.
            histogram_from-count_at k [] (events_of rs) ∙ zero_left (count_action k (events_of rs));
        events = events_of-IsClosed rs closed;
      }
    where
      zero_left : (n : ℕ) → 0 + n ≡ n
      zero_left n = omega arith
