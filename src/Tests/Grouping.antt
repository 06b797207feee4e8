-- ===== src/Tests/Grouping.antt =====
-- Reports on episodes and gaps at small inputs.
use flow_security_agent.Data.Grouping.{GroupingCandidate, Row, evaluate_group_candidates}
use flow_security_agent.Data.Grouping.Gaps.{collect_gap_profiles}
use flow_security_agent.Data.Grouping.Gaps.Counts.{CountsGaps, collect_gap_profiles-CountsGaps}
use flow_security_agent.Data.Grouping.Reports.{IsReport, evaluate_group_candidates-IsReport}
use flow_security_agent.Prelude.{
  ℕ, ◌≡◌, refl, String, true, false, List, [], ◌∷◌, some, arith, All, length,
}
use flow_security_agent.Tests.Program.{program}

abbrev row : ℕ → String → String → String → Row
row t source destination label = record {
  timestamp = t;
  source = source;
  destination = destination;
  label = label;
}

abbrev rows : List Row
rows =
    row 10 "a" "b" "benign"
    ∷ row 12 "b" "a" "dos"
    ∷ row 30 "a" "b" "benign"
    ∷ row 29 "a" "c" "benign"
    ∷ row 35 "a" "b" "benign"
    ∷ []

abbrev thresholds : List (GroupingCandidate × ℕ)
thresholds =
    (GroupingCandidate.unordered_pair_episode, 10)
    ∷ (GroupingCandidate.source_host_episode, 20)
    ∷ []

reports : evaluate_group_candidates rows thresholds ≡ (
  5,
  (
    GroupingCandidate.unordered_pair_episode,
    record {
      threshold_ms = 10;
      group_count = 3;
      maximum = some 2;
      pure_group_fraction = some (2, 3);
      flow_weighted_label_purity = some (4, 5);
      per_label_group_count = ("benign", 3) ∷ ("dos", 1) ∷ [];
      largest_group_flow_fraction = some (2, 5);
      supports_three_way_split_by_label = ("benign", true) ∷ ("dos", false) ∷ [];
      supports_train_five_fold_by_label_upper_bound = ("benign", false) ∷ ("dos", false) ∷ [];
    },
  )
      ∷ (
        GroupingCandidate.source_host_episode,
        record {
          threshold_ms = 20;
          group_count = 2;
          maximum = some 4;
          pure_group_fraction = some (2, 2);
          flow_weighted_label_purity = some (5, 5);
          per_label_group_count = ("benign", 1) ∷ ("dos", 1) ∷ [];
          largest_group_flow_fraction = some (4, 5);
          supports_three_way_split_by_label = ("benign", false) ∷ ("dos", false) ∷ [];
          supports_train_five_fold_by_label_upper_bound = ("benign", false) ∷ ("dos", false) ∷ [];
        },
      )
      ∷ [],
)
unfolding program
reports = refl

evaluate_group_candidates-IsReport_example :
    All (IsReport rows) (evaluate_group_candidates rows thresholds).1
evaluate_group_candidates-IsReport_example = evaluate_group_candidates-IsReport rows thresholds

gaps :
    (collect_gap_profiles 2 (GroupingCandidate.source_host_episode ∷ []) rows).candidates
    ≡ (
      GroupingCandidate.source_host_episode,
      record {
        key_count = 2;
        gap_count = 3;
        positive_gap_count = 2;
        negative_gap_count = 1;
        sample_size = 1;
      },
    )
      ∷ []
unfolding program
gaps = refl

violations : (collect_gap_profiles 2 [] rows).global_timestamp_order_violations ≡ 1
unfolding program
violations = refl

collect_gap_profiles-CountsGaps_example :
    All
      (CountsGaps 2 (length rows))
      (collect_gap_profiles 2 (GroupingCandidate.source_host_episode ∷ []) rows).candidates
collect_gap_profiles-CountsGaps_example =
    collect_gap_profiles-CountsGaps 2 (GroupingCandidate.source_host_episode ∷ []) rows
      (omega arith)
