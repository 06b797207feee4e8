-- ===== src/Data/Grouping/Groups.antt =====
-- Sizes and labels of the groups of a candidate, of src/flowsec/data/grouping.py.
use flow_security_agent.Data.Grouping.{
  ActiveGroup, Counts, GroupSummary, Row, count_label, dominant_of, finalize_group, greater,
  grow_group, open_group,
}
use flow_security_agent.Prelude.{
  ℕ, suc, ◌+◌, ◌≤◌, ◌<◌, ◌≡◌, ◌≢◌, refl, String, List, [], ◌∷◌, ◌++◌, inl, inr, arith, ◌==◌, length,
  length-snoc, str_eq, Bool-cases,
}

abbrev pub total_of : Counts → ℕ
total_of [] = 0
total_of ((l, n) ∷ counts) = n + total_of counts

abbrev pub sum_of : List ℕ → ℕ
sum_of [] = 0
sum_of (n ∷ ns) = n + sum_of ns

-- A label is counted as often as it was met.
abbrev ArePositive : Counts → Type 0
ArePositive [] = Unit
ArePositive ((l, n) ∷ counts) = (1 ≤ n) × ArePositive counts

-- The labels of a group count its rows.
abbrev pub IsGroup : ActiveGroup → Type 0
IsGroup g = (total_of g.labels ≡ g.size) × ArePositive g.labels × (1 ≤ g.size)

count_label-total : (l : String) (cs : Counts) → total_of (count_label l cs) ≡ suc (total_of cs)
unfolding count_label
count_label-total l [] = omega arith
count_label-total l ((k, n) ∷ cs) = ground (arith, count_label-total l cs)

count_label-ArePositive :
    (l : String) (cs : Counts) → ArePositive cs → ArePositive (count_label l cs)
unfolding count_label
count_label-ArePositive l [] h = (omega arith, tt)
count_label-ArePositive l ((k, n) ∷ cs) h = elim (Bool-cases (str_eq k l)) [
  | inl same ↦ rw (same, count_label) (omega arith, h.1)
  | inr other ↦ rw (other, count_label) (h.0, count_label-ArePositive l cs h.1)
]

pub open_group-IsGroup : (row : Row) → IsGroup (open_group row)
unfolding open_group
open_group-IsGroup row = (refl, (omega arith, tt), omega arith)

pub grow_group-IsGroup : (row : Row) (g : ActiveGroup) → IsGroup g → IsGroup (grow_group row g)
unfolding grow_group
grow_group-IsGroup row g h = (
  omega (arith, count_label-total row.label g.labels, h.0),
  count_label-ArePositive row.label g.labels h.1,
  omega arith,
)

dominant_of-le : (cs : Counts) → dominant_of cs ≤ total_of cs
unfolding dominant_of greater
dominant_of-le [] = omega arith
dominant_of-le ((l, n) ∷ cs) = ground (arith, dominant_of-le cs)

dominant_of-single :
    (cs : Counts) → ArePositive cs → 1 ≤ total_of cs → length cs ≡ 1 → dominant_of cs ≡ total_of cs
unfolding dominant_of greater
dominant_of-single [] h some_row single = omega arith
dominant_of-single ((l, n) ∷ []) h some_row single = ground arith
dominant_of-single ((l, n) ∷ c ∷ cs) h some_row single = omega arith

greater-lt : (n m d t : ℕ) → 1 ≤ n → 1 ≤ m → d ≤ m + t → greater n d < n + (m + t)
unfolding greater
greater-lt n m d t hn hm hd = ground arith

dominant_of-several :
    (cs : Counts) → ArePositive cs → 1 ≤ total_of cs → length cs ≢ 1 → dominant_of cs < total_of cs
unfolding dominant_of
dominant_of-several [] h some_row several = omega arith
dominant_of-several ((l, n) ∷ []) h some_row several = absurd (several refl)
dominant_of-several ((l, n) ∷ (k, m) ∷ cs) h some_row several =
    greater-lt n m (dominant_of ((k, m) ∷ cs)) (total_of cs) h.0 h.1.0
      (dominant_of-le ((k, m) ∷ cs))

-- The groups that are closed: what is summed up of them.
abbrev pub IsClosed : GroupSummary → Type 0
IsClosed s =
    (sum_of s.sizes ≡ s.total_rows)
    × (s.sum_dominant_rows ≤ s.total_rows)
    × (s.pure_groups ≤ length s.sizes)
    × (s.pure_groups ≡ length s.sizes → s.sum_dominant_rows ≡ s.total_rows)
    × (s.sum_dominant_rows ≡ s.total_rows → s.pure_groups ≡ length s.sizes)

sum_of-snoc : (ns : List ℕ) (n : ℕ) → sum_of (ns ++ n ∷ []) ≡ sum_of ns + n
sum_of-snoc [] n = omega arith
sum_of-snoc (m ∷ ns) n = omega (arith, sum_of-snoc ns n)

pub finalize_group-IsClosed :
    (g : ActiveGroup) (s : GroupSummary) → IsGroup g → IsClosed s → IsClosed (finalize_group g s)
unfolding finalize_group
finalize_group-IsClosed g s is_group (sizes, dominant, pure, all_pure, all_dominant) =
    let more = length-snoc s.sizes g.size in
    let sums = sum_of-snoc s.sizes g.size in
    elim (Bool-cases (length g.labels == 1)) [
      | inl single ↦
          let same = dominant_of-single g.labels is_group.1 (omega arith) (ground arith) in
          rw (single, finalize_group)
            (
              omega arith,
              omega arith,
              omega arith,
              λ h. (let e = all_pure (omega arith) in omega arith),
              λ h. (let e = all_dominant (omega arith) in omega arith),
            )
      | inr several ↦
          let less = dominant_of-several g.labels is_group.1 (omega arith) (λ h. ground arith) in
          rw (several, finalize_group)
            (omega arith, omega arith, omega arith, λ h. omega arith, λ h. omega arith)
    ]
