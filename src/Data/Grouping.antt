-- ===== src/Data/Grouping.antt =====
-- Episodes of flows, src/flowsec/data/grouping.py: the groups of the candidate rules. A CSV file is the
-- list of its rows; times are milliseconds since 1970, none of them earlier, and thresholds are not
-- negative. Of the sizes, the medians and quantiles of NumPy are left out; a fraction is a pair.
pub mod Groups
pub mod Summary
pub mod Openings
pub mod Reports
pub mod Gaps
use flow_security_agent.Prelude.Order.{text_lt}
use flow_security_agent.Prelude.Sorting.{sort_by}
use flow_security_agent.Prelude.{
  ℕ, zero, suc, ◌+◌, String, Bool, true, false, not, ◌&&◌, List, [], ◌∷◌, ◌++◌, Option, none, some,
  map, ltb, leb, ◌==◌, length, str_eq, if◌then◌else◌,
}

pub record Row : Type 0 where
  pub timestamp : ℕ
  pub source : String
  pub destination : String
  pub label : String

-- `CANDIDATE_BUILDERS`
pub data GroupingCandidate : Type 0 where
  directed_pair_episode unordered_pair_episode source_host_episode : GroupingCandidate

pub data GroupKey : Type 0 where
  pair : String → String → GroupKey
  host : String → GroupKey

unfoldable pub build_key : GroupingCandidate → String → String → GroupKey
build_key GroupingCandidate.directed_pair_episode source destination = pair source destination
build_key GroupingCandidate.unordered_pair_episode source destination =
    if not (text_lt destination source) then pair source destination else pair destination source
build_key GroupingCandidate.source_host_episode source destination = host source

unfoldable pub eq_group_key : GroupKey → GroupKey → Bool
eq_group_key (pair a b) (pair c d) = str_eq a c && str_eq b d
eq_group_key (host a) (host b) = str_eq a b
eq_group_key (pair a b) (host c) = false
eq_group_key (host a) (pair b c) = false

abbrev pub Counts : Type 0
Counts = List (String × ℕ)

-- `counter[label] += 1`
unfoldable pub count_label : String → Counts → Counts
count_label label [] = (label, 1) ∷ []
count_label label ((l, n) ∷ counts) =
    let rest = count_label label counts in
    if str_eq l label then (l, suc n) ∷ counts else (l, n) ∷ rest

unfoldable pub greater : ℕ → ℕ → ℕ
greater a b = if leb a b then b else a

-- `max(labels.values())`, of a group with a row.
unfoldable pub dominant_of : Counts → ℕ
unfolding greater
dominant_of [] = 0
dominant_of ((l, n) ∷ counts) = greater n (dominant_of counts)

pub record ActiveGroup : Type 0 where
  pub last_timestamp : ℕ
  pub size : ℕ
  pub labels : Counts

pub record GroupSummary : Type 0 where
  pub active : List (GroupKey × ActiveGroup)
  pub sizes : List ℕ
  pub per_label_groups : Counts
  pub pure_groups : ℕ
  pub sum_dominant_rows : ℕ
  pub total_rows : ℕ

abbrev pub new_summary : GroupSummary
new_summary = record {
  active = [];
  sizes = [];
  per_label_groups = [];
  pure_groups = 0;
  sum_dominant_rows = 0;
  total_rows = 0;
}

unfoldable pub count_labels : Counts → Counts → Counts
unfolding count_label
count_labels [] counts = counts
count_labels ((l, n) ∷ labels) counts = count_labels labels (count_label l counts)

-- `_GroupSummary.finalize`
unfoldable pub finalize_group : ActiveGroup → GroupSummary → GroupSummary
unfolding dominant_of count_labels
finalize_group group s = record s {
  sizes = s.sizes ++ group.size ∷ [];
  total_rows = s.total_rows + group.size;
  sum_dominant_rows = s.sum_dominant_rows + dominant_of group.labels;
  pure_groups = if length group.labels == 1 then s.pure_groups + 1 else s.pure_groups;
  per_label_groups = count_labels group.labels s.per_label_groups;
}

unfoldable pub get_group : GroupKey → List (GroupKey × ActiveGroup) → Option ActiveGroup
unfolding eq_group_key
get_group k [] = none
get_group k ((j, g) ∷ active) = if eq_group_key j k then some g else get_group k active

unfoldable pub put_group :
    GroupKey → ActiveGroup → List (GroupKey × ActiveGroup) → List (GroupKey × ActiveGroup)
unfolding eq_group_key
put_group k g [] = (k, g) ∷ []
put_group k g ((j, h) ∷ active) =
    let rest = put_group k g active in if eq_group_key j k then (j, g) ∷ active else (j, h) ∷ rest

unfoldable pub open_group : Row → ActiveGroup
open_group row = record { last_timestamp = row.timestamp; size = 1; labels = (row.label, 1) ∷ [] }

unfoldable pub grow_group : Row → ActiveGroup → ActiveGroup
unfolding count_label
grow_group row group = record {
  last_timestamp = row.timestamp;
  size = group.size + 1;
  labels = count_label row.label group.labels;
}

-- A row with its key, where the group of the key is known.
unfoldable pub add_to : ℕ → Row → GroupKey → Option ActiveGroup → GroupSummary → GroupSummary
unfolding open_group grow_group put_group finalize_group
add_to threshold row key none s = record s { active = put_group key (open_group row) s.active }
add_to threshold row key (some group) s =
    if ltb (group.last_timestamp + threshold) row.timestamp
    then record (finalize_group group s) { active = put_group key (open_group row) s.active }
    else record s { active = put_group key (grow_group row group) s.active }

unfoldable pub add_row : GroupingCandidate → ℕ → Row → GroupSummary → GroupSummary
unfolding add_to build_key get_group
add_row candidate threshold row s =
    let key = build_key candidate row.source row.destination in
    add_to threshold row key (get_group key s.active) s

unfoldable pub finalize_all : List (GroupKey × ActiveGroup) → GroupSummary → GroupSummary
unfolding finalize_group
finalize_all [] s = s
finalize_all ((k, g) ∷ active) s = finalize_all active (finalize_group g s)

-- The candidates with their thresholds and their summaries.
abbrev pub Summaries : Type 0
Summaries = List ((GroupingCandidate × ℕ) × GroupSummary)

unfoldable pub add_row_to_all : Row → Summaries → Summaries
unfolding add_row
add_row_to_all row [] = []
add_row_to_all row (((candidate, threshold), s) ∷ rest) =
    ((candidate, threshold), add_row candidate threshold row s) ∷ add_row_to_all row rest

unfoldable pub add_rows_to_all : List Row → Summaries → Summaries
unfolding add_row_to_all
add_rows_to_all [] summaries = summaries
add_rows_to_all (row ∷ rows) summaries = add_rows_to_all rows (add_row_to_all row summaries)

pub record CandidateReport : Type 0 where
  pub threshold_ms : ℕ
  pub group_count : ℕ
  pub maximum : Option ℕ
  pub pure_group_fraction : Option (ℕ × ℕ)
  pub flow_weighted_label_purity : Option (ℕ × ℕ)
  pub per_label_group_count : Counts
  pub largest_group_flow_fraction : Option (ℕ × ℕ)
  pub supports_three_way_split_by_label : List (String × Bool)
  pub supports_train_five_fold_by_label_upper_bound : List (String × Bool)

-- `sizes.max()` of sizes that are not empty.
unfoldable pub maximum_of : List ℕ → ℕ
unfolding greater
maximum_of [] = 0
maximum_of (n ∷ ns) = greater n (maximum_of ns)

unfoldable pub when_any : {A : Type 0} → ℕ → A → Option A
when_any zero a = none
when_any (suc n) a = some a

unfoldable pub report_of : ℕ → GroupSummary → CandidateReport
unfolding maximum_of when_any
report_of threshold s =
    let count = length s.sizes in
    let per_label = sort_by (λ (c : String × ℕ). c.0) s.per_label_groups in
    record {
      threshold_ms = threshold;
      group_count = count;
      maximum = when_any count (maximum_of s.sizes);
      pure_group_fraction = when_any count (s.pure_groups, count);
      flow_weighted_label_purity = when_any s.total_rows (s.sum_dominant_rows, s.total_rows);
      per_label_group_count = per_label;
      largest_group_flow_fraction = when_any s.total_rows (maximum_of s.sizes, s.total_rows);
      supports_three_way_split_by_label = map (λ (c : String × ℕ). (c.0, leb 3 c.1)) per_label;
      supports_train_five_fold_by_label_upper_bound =
          map (λ (c : String × ℕ). (c.0, leb 8 c.1)) per_label;
    }

unfoldable pub reports_of : Summaries → List (GroupingCandidate × CandidateReport)
unfolding finalize_all report_of
reports_of [] = []
reports_of (((candidate, threshold), s) ∷ rest) =
    (candidate, report_of threshold (finalize_all s.active s)) ∷ reports_of rest

unfoldable pub start_all : List (GroupingCandidate × ℕ) → Summaries
start_all [] = []
start_all (c ∷ cs) = (c, new_summary) ∷ start_all cs

-- `evaluate_group_candidates`: the number of rows, and the report of each candidate.
unfoldable pub evaluate_group_candidates :
    List Row → List (GroupingCandidate × ℕ) → ℕ × List (GroupingCandidate × CandidateReport)
unfolding start_all add_rows_to_all reports_of
evaluate_group_candidates rows thresholds =
    (length rows, reports_of (add_rows_to_all rows (start_all thresholds)))
