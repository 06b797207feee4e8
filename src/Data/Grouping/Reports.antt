-- ===== src/Data/Grouping/Reports.antt =====
-- What the report of a candidate says of the rows, of src/flowsec/data/grouping.py.
use flow_security_agent.Data.Grouping.{
  CandidateReport, GroupSummary, GroupingCandidate, Row, Summaries, add_row_to_all, add_rows_to_all,
  evaluate_group_candidates, finalize_all, get_group, greater, maximum_of, report_of, reports_of,
  start_all, when_any,
}
use flow_security_agent.Data.Grouping.Groups.{sum_of}
use flow_security_agent.Data.Grouping.Summary.{finalize_all-closes}
use flow_security_agent.Prelude.{ℕ, ◌≤◌, ◌≡◌, ◌↔◌, refl, ap, List, [], ◌∷◌, arith, length, All}
use flow_security_agent.Data.Grouping.Openings.{
  HasSeen, add_row-HasSeen, latest_first, length-latest_first, opened,
}

-- What a report says of the rows of a file: it counts the rows that open a group, and its fractions are
-- fractions.
abbrev pub IsReport : List Row → GroupingCandidate × CandidateReport → Type 0
IsReport rows (candidate, r) =
    (r.group_count ≡ opened candidate r.threshold_ms (latest_first rows []))
    × ((pure : ℕ) × (dominant : ℕ) × (r.pure_group_fraction
          ≡ when_any r.group_count (pure, r.group_count))
        × (r.flow_weighted_label_purity ≡ when_any (length rows) (dominant, length rows))
        × (pure ≤ r.group_count)
        × (dominant ≤ length rows)
        × (pure ≡ r.group_count ↔ dominant ≡ length rows))
    × ((largest : ℕ) × (r.maximum ≡ when_any r.group_count largest)
        × (r.largest_group_flow_fraction ≡ when_any (length rows) (largest, length rows))
        × (largest ≤ length rows))

maximum_of-le : (ns : List ℕ) → maximum_of ns ≤ sum_of ns
unfolding maximum_of greater
maximum_of-le [] = omega arith
maximum_of-le (n ∷ ns) = ground (arith, maximum_of-le ns)

report_of-IsReport :
    (candidate : GroupingCandidate) (threshold : ℕ) (rows : List Row) (s : GroupSummary)
    → HasSeen candidate threshold (latest_first rows []) s
    → IsReport rows (candidate, report_of threshold (finalize_all s.active s))
unfolding report_of
report_of-IsReport candidate threshold rows s (tracks, (counted, groups, are_groups, closed)) =
    let ((sizes, dominant, pure, all_pure, all_dominant), total, count) =
      finalize_all-closes s.active s are_groups closed in
    let done = finalize_all s.active s in
    let all_rows : done.total_rows ≡ length rows = omega (arith, length-latest_first rows []) in
    (
      omega arith,
      (
        done.pure_groups,
        done.sum_dominant_rows,
        refl,
        ap (λ n. when_any n (done.sum_dominant_rows, n)) all_rows,
        pure,
        omega arith,
        (λ h. (let e = all_pure h in omega arith), λ h. all_dominant (omega arith)),
      ),
      (
        maximum_of done.sizes,
        refl,
        ap (λ n. when_any n (maximum_of done.sizes, n)) all_rows,
        omega (arith, maximum_of-le done.sizes),
      ),
    )

abbrev HaveSeen : List Row → Summaries → Type 0
HaveSeen seen [] = Unit
HaveSeen seen (((candidate, threshold), s) ∷ rest) =
    HasSeen candidate threshold seen s × HaveSeen seen rest

start_all-HaveSeen : (cs : List (GroupingCandidate × ℕ)) → HaveSeen [] (start_all cs)
unfolding start_all get_group
start_all-HaveSeen [] = tt
start_all-HaveSeen ((candidate, threshold) ∷ cs) = (
  (λ k. refl, (refl, refl, tt, (refl, omega arith, omega arith, λ h. refl, λ h. refl))),
  start_all-HaveSeen cs,
)

add_row_to_all-HaveSeen :
    (row : Row) (seen : List Row) (summaries : Summaries)
    → HaveSeen seen summaries
    → HaveSeen (row ∷ seen) (add_row_to_all row summaries)
unfolding add_row_to_all
add_row_to_all-HaveSeen row seen [] h = tt
add_row_to_all-HaveSeen row seen (((candidate, threshold), s) ∷ rest) h =
    (add_row-HasSeen candidate threshold row seen s h.0, add_row_to_all-HaveSeen row seen rest h.1)

add_rows_to_all-HaveSeen :
    (rows seen : List Row) (summaries : Summaries)
    → HaveSeen seen summaries
    → HaveSeen (latest_first rows seen) (add_rows_to_all rows summaries)
unfolding add_rows_to_all
add_rows_to_all-HaveSeen [] seen summaries h = h
add_rows_to_all-HaveSeen (row ∷ rows) seen summaries h =
    add_rows_to_all-HaveSeen rows (row ∷ seen) (add_row_to_all row summaries)
      (add_row_to_all-HaveSeen row seen summaries h)

reports_of-All :
    (rows : List Row) (summaries : Summaries)
    → HaveSeen (latest_first rows []) summaries
    → All (IsReport rows) (reports_of summaries)
unfolding reports_of
reports_of-All rows [] h = tt
reports_of-All rows (((candidate, threshold), s) ∷ rest) h =
    (report_of-IsReport candidate threshold rows s h.0, reports_of-All rows rest h.1)

-- Each report of `evaluate_group_candidates` has as many groups as rows are the first with their key or
-- come after the row before them with that key by more than the threshold. The label purity is a
-- fraction of all rows, the pure groups are a fraction of the groups, and one is whole exactly when the
-- other is; no group has more rows than there are.
pub evaluate_group_candidates-IsReport :
    (rows : List Row) (thresholds : List (GroupingCandidate × ℕ))
    → All (IsReport rows) (evaluate_group_candidates rows thresholds).1
unfolding evaluate_group_candidates
evaluate_group_candidates-IsReport rows thresholds =
    reports_of-All rows (add_rows_to_all rows (start_all thresholds))
      (add_rows_to_all-HaveSeen rows [] (start_all thresholds) (start_all-HaveSeen thresholds))
