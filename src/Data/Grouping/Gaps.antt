-- ===== src/Data/Grouping/Gaps.antt =====
-- `collect_gap_profiles` of src/flowsec/data/grouping.py: the gaps between rows with one key. The
-- quantiles of the sampled gaps are left out. `sample_every` is not zero, by which the source divides.
pub mod Counts
use Prim.Native.Nat.{◌/◌, ◌%◌}
use flow_security_agent.Data.Grouping.{GroupKey, GroupingCandidate, Row, build_key, eq_group_key}
use flow_security_agent.Prelude.{
  ℕ, zero, suc, ◌+◌, ◌-◌, ◌*◌, ◌≤◌, ◌<◌, ◌≡◌, refl, sym, ap, ◌∙◌, Bool, true, false, List, [], ◌∷◌,
  ◌++◌, Option, none, some, inl, inr, arith, ltb, ◌==◌, length, length-snoc, All, Bool-cases,
  Option-cases, if◌then◌else◌,
}

pub record GapProfile : Type 0 where
  pub previous : List (GroupKey × ℕ)
  pub seen_gap_count : ℕ
  pub positive_gap_count : ℕ
  pub negative_gap_count : ℕ
  pub sampled_positive_gaps : List ℕ

unfoldable pub get_previous : GroupKey → List (GroupKey × ℕ) → Option ℕ
get_previous k [] = none
get_previous k ((j, t) ∷ previous) = if eq_group_key j k then some t else get_previous k previous

unfoldable pub put_previous : GroupKey → ℕ → List (GroupKey × ℕ) → List (GroupKey × ℕ)
put_previous k value [] = (k, value) ∷ []
put_previous k value ((j, t) ∷ previous) =
    let rest = put_previous k value previous in
    if eq_group_key j k then (j, value) ∷ previous else (j, t) ∷ rest

-- What is counted of the gap to the row before.
unfoldable pub count_gap : ℕ → ℕ → Option ℕ → GapProfile → GapProfile
count_gap sample_every value none p = p
count_gap sample_every value (some previous) p =
    if ltb value previous
    then record p {
      seen_gap_count = p.seen_gap_count + 1;
      negative_gap_count = p.negative_gap_count + 1;
    }
    else if ltb previous value
    then record p {
      seen_gap_count = p.seen_gap_count + 1;
      positive_gap_count = p.positive_gap_count + 1;
      sampled_positive_gaps =
          if (p.positive_gap_count + 1) % sample_every == 0
          then p.sampled_positive_gaps ++ (value - previous) ∷ []
          else p.sampled_positive_gaps;
    }
    else record p { seen_gap_count = p.seen_gap_count + 1 }

unfoldable pub add_gap : ℕ → GroupingCandidate → Row → GapProfile → GapProfile
unfolding build_key get_previous put_previous count_gap
add_gap sample_every candidate row p =
    let key = build_key candidate row.source row.destination in
    let counted = count_gap sample_every row.timestamp (get_previous key p.previous) p in
    record counted { previous = put_previous key row.timestamp p.previous }

abbrev pub GapProfiles : Type 0
GapProfiles = List (GroupingCandidate × GapProfile)

unfoldable pub add_gap_to_all : ℕ → Row → GapProfiles → GapProfiles
unfolding add_gap
add_gap_to_all sample_every row [] = []
add_gap_to_all sample_every row ((candidate, p) ∷ rest) =
    (candidate, add_gap sample_every candidate row p) ∷ add_gap_to_all sample_every row rest

unfoldable pub add_gaps : ℕ → List Row → GapProfiles → GapProfiles
unfolding add_gap_to_all
add_gaps sample_every [] profiles = profiles
add_gaps sample_every (row ∷ rows) profiles =
    add_gaps sample_every rows (add_gap_to_all sample_every row profiles)

-- The rows before which a later one stands.
unfoldable pub violations_from : Option ℕ → List Row → ℕ
violations_from before [] = 0
violations_from none (row ∷ rows) = violations_from (some row.timestamp) rows
violations_from (some previous) (row ∷ rows) =
    (if ltb row.timestamp previous then 1 else 0) + violations_from (some row.timestamp) rows

pub record GapReport : Type 0 where
  pub key_count : ℕ
  pub gap_count : ℕ
  pub positive_gap_count : ℕ
  pub negative_gap_count : ℕ
  pub sample_size : ℕ

unfoldable pub gap_report : GapProfile → GapReport
gap_report p = record {
  key_count = length p.previous;
  gap_count = p.seen_gap_count;
  positive_gap_count = p.positive_gap_count;
  negative_gap_count = p.negative_gap_count;
  sample_size = length p.sampled_positive_gaps;
}

unfoldable pub gap_reports : GapProfiles → List (GroupingCandidate × GapReport)
unfolding gap_report
gap_reports [] = []
gap_reports ((candidate, p) ∷ rest) = (candidate, gap_report p) ∷ gap_reports rest

unfoldable pub start_profiles : List GroupingCandidate → GapProfiles
start_profiles [] = []
start_profiles (candidate ∷ candidates) =
    (
      candidate,
      record {
        previous = [];
        seen_gap_count = 0;
        positive_gap_count = 0;
        negative_gap_count = 0;
        sampled_positive_gaps = [];
      },
    )
    ∷ start_profiles candidates

pub record GapProfilesReport : Type 0 where
  pub row_count : ℕ
  pub global_timestamp_order_violations : ℕ
  pub sample_every : ℕ
  pub candidates : List (GroupingCandidate × GapReport)

unfoldable pub collect_gap_profiles : ℕ → List GroupingCandidate → List Row → GapProfilesReport
unfolding violations_from gap_reports add_gaps start_profiles
collect_gap_profiles sample_every candidate_names rows = record {
  row_count = length rows;
  global_timestamp_order_violations = violations_from none rows;
  sample_every = sample_every;
  candidates = gap_reports (add_gaps sample_every rows (start_profiles candidate_names));
}
