-- ===== src/Data/Grouping/Openings.antt =====
-- Where the groups of a candidate open, of src/flowsec/data/grouping.py, and what its report says.
use mathlib.Core.Path.{subst}
use flow_security_agent.Data.Grouping.{
  ActiveGroup, GroupKey, GroupSummary, GroupingCandidate, Row, add_row, add_to, build_key,
  eq_group_key, finalize_group, get_group, grow_group, host, open_group, pair, put_group,
}
use flow_security_agent.Data.Grouping.Summary.{IsSummary, add_to-IsSummary, opens}
use flow_security_agent.Prelude.{
  ℕ, suc, ◌+◌, ◌≡◌, refl, sym, ap, ◌∙◌, Bool, true, false, List, [], ◌∷◌, Option, none, some, inl,
  inr, arith, ltb, length, eq_iff, Bool-cases, if◌then◌else◌,
}

eq_group_key-eq : (j k : GroupKey) → eq_group_key j k ≡ true → j ≡ k
unfolding eq_group_key
eq_group_key-eq (pair a b) (pair c d) h =
    let first : a ≡ c = ground (arith, eq_iff a c) in
    let second : b ≡ d = ground (arith, eq_iff b d) in λ i. pair (first i) (second i)
eq_group_key-eq (host a) (host b) h = ap host (ground (arith, eq_iff a b))
eq_group_key-eq (pair a b) (host c) h = cc
eq_group_key-eq (host a) (pair b c) h = cc

get_group-put_group :
    (k q : GroupKey) (g : ActiveGroup) (active : List (GroupKey × ActiveGroup))
    → get_group q (put_group k g active) ≡ (if eq_group_key k q then some g else get_group q active)
unfolding get_group put_group
get_group-put_group k q g [] = refl
get_group-put_group k q g ((j, a) ∷ active) = elim (Bool-cases (eq_group_key j k)) [
  | inl same ↦
      let moved = ap (λ x. eq_group_key x q) (eq_group_key-eq j k same) in
      rw (same, put_group) (ground (arith, moved))
  | inr other ↦
      rw (other, put_group)
        (elim (Bool-cases (eq_group_key k q)) [
          | inl asked ↦
              let elsewhere : (eq_group_key j q ≡ true → eq_group_key j k ≡ true) =
                subst (λ x. eq_group_key j x ≡ true) (sym (eq_group_key-eq k q asked)) in
              ground (arith, get_group-put_group k q g active, elsewhere)
          | inr unasked ↦ ground (arith, get_group-put_group k q g active)
        ])
]

abbrev pub key_of : GroupingCandidate → Row → GroupKey
key_of candidate row = build_key candidate row.source row.destination

-- The time of the latest row with a key, among rows of which the latest comes first.
abbrev pub last_of : GroupingCandidate → GroupKey → List Row → Option ℕ
last_of candidate k [] = none
last_of candidate k (row ∷ seen) =
    if eq_group_key (key_of candidate row) k then some row.timestamp else last_of candidate k seen

-- A row opens a group if it is the first with its key, or the one before it is too long ago.
abbrev pub opens_after : ℕ → Row → Option ℕ → Bool
opens_after threshold row none = true
opens_after threshold row (some last) = ltb (last + threshold) row.timestamp

-- How many rows open a group, among rows of which the latest comes first.
abbrev pub opened : GroupingCandidate → ℕ → List Row → ℕ
opened candidate threshold [] = 0
opened candidate threshold (row ∷ seen) =
    (if opens_after threshold row (last_of candidate (key_of candidate row) seen) then 1 else 0)
    + opened candidate threshold seen

abbrev pub latest_first : List Row → List Row → List Row
latest_first [] seen = seen
latest_first (row ∷ rows) seen = latest_first rows (row ∷ seen)

pub length-latest_first :
    (rows seen : List Row) → length (latest_first rows seen) ≡ length rows + length seen
length-latest_first [] seen = omega arith
length-latest_first (row ∷ rows) seen = omega (arith, length-latest_first rows (row ∷ seen))

abbrev last_in : Option ActiveGroup → Option ℕ
last_in none = none
last_in (some g) = some g.last_timestamp

-- The open groups know the latest row with each key.
abbrev pub Tracks : GroupingCandidate → List Row → List (GroupKey × ActiveGroup) → Type 0
Tracks candidate seen active =
    (k : GroupKey) → last_in (get_group k active) ≡ last_of candidate k seen

last_in-if :
    (b : Bool) (g : ActiveGroup) (o : Option ActiveGroup)
    → last_in (if b then some g else o) ≡ (if b then some g.last_timestamp else last_in o)
last_in-if true g o = refl
last_in-if false g o = refl

put_group-Tracks :
    (candidate : GroupingCandidate) (row : Row) (seen : List Row)
    (active : List (GroupKey × ActiveGroup)) (g : ActiveGroup)
    → g.last_timestamp ≡ row.timestamp
    → Tracks candidate seen active
    → Tracks candidate (row ∷ seen) (put_group (key_of candidate row) g active)
put_group-Tracks candidate row seen active g now h k =
    let asked = eq_group_key (key_of candidate row) k in
    ap last_in (get_group-put_group (key_of candidate row) k g active)
    ∙ last_in-if asked g (get_group k active)
    ∙ (λ i. if asked then some (now i) else h k i)

add_to-Tracks :
    (candidate : GroupingCandidate) (threshold : ℕ) (row : Row) (seen : List Row) (s : GroupSummary)
    (o : Option ActiveGroup)
    → Tracks candidate seen s.active
    → Tracks candidate (row ∷ seen) (add_to threshold row (key_of candidate row) o s).active
unfolding add_to finalize_group open_group grow_group
add_to-Tracks candidate threshold row seen s none h =
    put_group-Tracks candidate row seen s.active (open_group row) refl h
add_to-Tracks candidate threshold row seen s (some g) h =
    elim (Bool-cases (ltb (g.last_timestamp + threshold) row.timestamp)) [
      | inl late ↦
          rw (late, add_to) (put_group-Tracks candidate row seen s.active (open_group row) refl h)
      | inr within ↦
          rw (within, add_to)
            (put_group-Tracks candidate row seen s.active (grow_group row g) refl h)
    ]

opens-last_in :
    (threshold : ℕ) (row : Row) (o : Option ActiveGroup)
    → opens threshold row o ≡ opens_after threshold row (last_in o)
opens-last_in threshold row none = refl
opens-last_in threshold row (some g) = refl

-- What is known of a summary when these rows were seen, the latest first.
abbrev pub HasSeen : GroupingCandidate → ℕ → List Row → GroupSummary → Type 0
HasSeen candidate threshold seen s =
    Tracks candidate seen s.active × IsSummary (length seen) (opened candidate threshold seen) s

pub add_row-HasSeen :
    (candidate : GroupingCandidate) (threshold : ℕ) (row : Row) (seen : List Row) (s : GroupSummary)
    → HasSeen candidate threshold seen s
    → HasSeen candidate threshold (row ∷ seen) (add_row candidate threshold row s)
unfolding add_row
add_row-HasSeen candidate threshold row seen s (tracks, summary) = (
  add_to-Tracks candidate threshold row seen s (get_group (key_of candidate row) s.active) tracks,
  subst
      (λ (b : Bool).
        IsSummary (suc (length seen)) ((if b then 1 else 0) + opened candidate threshold seen)
          (add_row candidate threshold row s))
      (opens-last_in threshold row (get_group (key_of candidate row) s.active)
        ∙ ap (opens_after threshold row) (tracks (key_of candidate row)))
      (add_to-IsSummary threshold row (key_of candidate row) s (length seen)
        (opened candidate threshold seen) summary),
)
