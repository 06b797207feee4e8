-- ===== src/Data/Grouping/Summary.antt =====
-- The summary of a candidate, row by row, of src/flowsec/data/grouping.py.
use mathlib.Core.Path.{subst}
use flow_security_agent.Data.Grouping.{
  ActiveGroup, GroupKey, GroupSummary, Row, add_to, eq_group_key, finalize_all, finalize_group,
  get_group, grow_group, open_group, put_group,
}
use flow_security_agent.Data.Grouping.Groups.{
  IsClosed, IsGroup, finalize_group-IsClosed, grow_group-IsGroup, open_group-IsGroup,
}
use flow_security_agent.Prelude.{
  ℕ, suc, ◌+◌, ◌≡◌, refl, ap, Bool, true, List, [], ◌∷◌, Option, none, some, inl, inr, arith, ltb,
  length, length-snoc, Bool-cases, Option-cases, if◌then◌else◌,
}

finalized :
    (g : ActiveGroup) (s : GroupSummary)
    → ((finalize_group g s).total_rows ≡ s.total_rows + g.size)
      × (length (finalize_group g s).sizes ≡ suc (length s.sizes))
unfolding finalize_group
finalized g s = (refl, length-snoc s.sizes g.size)

-- The rows of open groups.
abbrev pub open_rows : List (GroupKey × ActiveGroup) → ℕ
open_rows [] = 0
open_rows ((k, g) ∷ active) = g.size + open_rows active

abbrev pub AreGroups : List (GroupKey × ActiveGroup) → Type 0
AreGroups [] = Unit
AreGroups ((k, g) ∷ active) = IsGroup g × AreGroups active

-- What is known of a summary after so many rows and so many openings.
abbrev pub IsSummary : ℕ → ℕ → GroupSummary → Type 0
IsSummary rows opened s =
    (s.total_rows + open_rows s.active ≡ rows)
    × (length s.sizes + length s.active ≡ opened)
    × AreGroups s.active
    × IsClosed s

get_group-IsGroup :
    (k : GroupKey) (g : ActiveGroup) (active : List (GroupKey × ActiveGroup))
    → get_group k active ≡ some g
    → AreGroups active
    → IsGroup g
unfolding get_group
get_group-IsGroup k g [] found h = cc
get_group-IsGroup k g ((j, a) ∷ active) found h = elim (Bool-cases (eq_group_key j k)) [
  | inl same ↦ let e : a ≡ g = cc (rw (same, get_group) at found) in subst IsGroup e h.0
  | inr other ↦ get_group-IsGroup k g active (rw (other, get_group) at found) h.1
]

put_group-AreGroups :
    (k : GroupKey) (g : ActiveGroup) (active : List (GroupKey × ActiveGroup))
    → IsGroup g
    → AreGroups active
    → AreGroups (put_group k g active)
unfolding put_group
put_group-AreGroups k g [] hg h = (hg, tt)
put_group-AreGroups k g ((j, a) ∷ active) hg h = elim (Bool-cases (eq_group_key j k)) [
  | inl same ↦ rw (same, put_group) (hg, h.1)
  | inr other ↦ rw (other, put_group) (h.0, put_group-AreGroups k g active hg h.1)
]

put_group-none :
    (k : GroupKey) (g : ActiveGroup) (active : List (GroupKey × ActiveGroup))
    → get_group k active ≡ none
    → (open_rows (put_group k g active) ≡ open_rows active + g.size)
      × (length (put_group k g active) ≡ suc (length active))
unfolding put_group get_group
put_group-none k g [] missing = (omega arith, refl)
put_group-none k g ((j, a) ∷ active) missing = elim (Bool-cases (eq_group_key j k)) [
  | inl same ↦ cc (rw (same, get_group) at missing)
  | inr other ↦
      let (rows, groups) = put_group-none k g active (rw (other, get_group) at missing) in
      rw (other, put_group) (omega arith, omega arith)
]

put_group-some :
    (k : GroupKey) (g old : ActiveGroup) (active : List (GroupKey × ActiveGroup))
    → get_group k active ≡ some old
    → (open_rows (put_group k g active) + old.size ≡ open_rows active + g.size)
      × (length (put_group k g active) ≡ length active)
unfolding put_group get_group
put_group-some k g old [] found = cc
put_group-some k g old ((j, a) ∷ active) found = elim (Bool-cases (eq_group_key j k)) [
  | inl same ↦
      let e : a ≡ old = cc (rw (same, get_group) at found) in
      let sizes = ap (λ (b : ActiveGroup). b.size) e in rw (same, put_group) (omega arith, refl)
  | inr other ↦
      let (rows, groups) = put_group-some k g old active (rw (other, get_group) at found) in
      rw (other, put_group) (omega arith, omega arith)
]

-- Whether the row opens a group.
abbrev pub opens : ℕ → Row → Option ActiveGroup → Bool
opens threshold row none = true
opens threshold row (some group) = ltb (group.last_timestamp + threshold) row.timestamp

pub add_to-IsSummary :
    (threshold : ℕ) (row : Row) (key : GroupKey) (s : GroupSummary) (rows opened : ℕ)
    → IsSummary rows opened s
    → IsSummary
        (suc rows)
        ((if opens threshold row (get_group key s.active) then 1 else 0) + opened)
        (add_to threshold row key (get_group key s.active) s)
unfolding add_to finalize_group open_group grow_group
add_to-IsSummary threshold row key s rows opened (counted, groups, are_groups, closed) =
    elim (Option-cases (get_group key s.active)) [
      | inl missing ↦
          let (more_rows, more_groups) = put_group-none key (open_group row) s.active missing in
          rw (missing, add_to)
            (
              omega arith,
              omega arith,
              put_group-AreGroups key (open_group row) s.active (open_group-IsGroup row) are_groups,
              closed,
            )
      | inr (g, found) ↦
          let is_group = get_group-IsGroup key g s.active found are_groups in
          elim (Bool-cases (ltb (g.last_timestamp + threshold) row.timestamp)) [
            | inl late ↦
                let (new_rows, same_groups) =
                  put_group-some key (open_group row) g s.active found in
                let one_more = length-snoc s.sizes g.size in
                rw (found, add_to)
                  (rw late (
                    omega arith,
                    omega arith,
                    put_group-AreGroups key (open_group row) s.active (open_group-IsGroup row)
                        are_groups,
                    finalize_group-IsClosed g s is_group closed,
                  ))
            | inr within ↦
                let (new_rows, same_groups) =
                  put_group-some key (grow_group row g) g s.active found in
                rw (found, add_to)
                  (rw within (
                    omega arith,
                    omega arith,
                    put_group-AreGroups key (grow_group row g) s.active
                        (grow_group-IsGroup row g is_group) are_groups,
                    closed,
                  ))
          ]
    ]

-- All groups are closed in the end.
pub finalize_all-closes :
    (active : List (GroupKey × ActiveGroup)) (s : GroupSummary)
    → AreGroups active
    → IsClosed s
    → IsClosed (finalize_all active s)
      × ((finalize_all active s).total_rows ≡ s.total_rows + open_rows active)
      × (length (finalize_all active s).sizes ≡ length s.sizes + length active)
unfolding finalize_all
finalize_all-closes [] s h closed = (closed, omega arith, omega arith)
finalize_all-closes ((k, g) ∷ active) s h closed =
    let (closed', rows, groups) =
      finalize_all-closes active (finalize_group g s) h.1
        (finalize_group-IsClosed g s h.0 closed) in
    let (one_row, one_group) = finalized g s in (closed', omega arith, omega arith)
