-- ===== src/Data/Grouping/Gaps/Counts.antt =====
-- The counts of the gap profiles of src/flowsec/data/grouping.py.
use Prim.Native.Nat.{◌/◌, ◌%◌}
use mathlib.Core.Path.{subst}
use native.Mathlib.Nat.{
  add-mul, div-add-mod', div-eq_of_lt, mod-eq_of_lt, mul-add-div_right, mul-add-mod_self_right,
  mul-div_left, mul-mod_left,
}
use flow_security_agent.Data.Grouping.{GroupKey, GroupingCandidate, Row, build_key, eq_group_key}
use flow_security_agent.Prelude.{
  ℕ, suc, ◌+◌, ◌-◌, ◌*◌, ◌≤◌, ◌≡◌, refl, sym, ap, ◌∙◌, Bool, true, false, List, [], ◌∷◌, ◌++◌,
  Option, none, some, inl, inr, arith, ltb, ◌==◌, length, length-snoc, All, Bool-cases,
  if◌then◌else◌,
}
use flow_security_agent.Data.Grouping.Gaps.{
  GapProfile, GapProfiles, GapReport, add_gap, add_gap_to_all, add_gaps, collect_gap_profiles,
  count_gap, gap_reports, get_previous, put_previous, start_profiles,
}

-- The next number is a multiple exactly when its quotient grows.
suc-div :
    (p every : ℕ)
    → 1 ≤ every
    → (p + 1) / every ≡ (if (p + 1) % every == 0 then p / every + 1 else p / every)
suc-div p every h =
    let split : p / every * every + p % every ≡ p = div-add-mod' p every in
    let next : p / every * every + (p % every + 1) ≡ p + 1 = omega arith in
    elim (Bool-cases (ltb (p % every + 1) every)) [
      | inl inside ↦
          let left : (p + 1) % every ≡ p % every + 1 =
            ap (λ n. n % every) (sym next)
            ∙ mul-add-mod_self_right (p / every) every (p % every + 1)
            ∙ mod-eq_of_lt (ground arith) in
          let no_multiple : ((p + 1) % every == 0) ≡ false = ground arith in
          rw no_multiple (
            ap (λ n. n / every) (sym next)
            ∙ mul-add-div_right h (p / every) (p % every + 1)
            ∙ ap (λ n. p / every + n) (div-eq_of_lt (ground arith))
            ∙ (omega arith))
      | inr full ↦
          let last : p % every + 1 ≡ every = ground arith in
          let same : (p / every + 1) * every ≡ p + 1 =
            add-mul (p / every) 1 every ∙ (omega arith) in
          let multiple : ((p + 1) % every == 0) ≡ true =
            ground (arith, ap (λ n. n % every) (sym same) ∙ mul-mod_left (p / every + 1) every) in
          rw multiple (ap (λ n. n / every) (sym same) ∙ mul-div_left (p / every + 1) h)
    ]

abbrev is_new : Option ℕ → ℕ
is_new none = 1
is_new (some t) = 0

put_previous-length :
    (k : GroupKey) (value : ℕ) (previous : List (GroupKey × ℕ))
    → length (put_previous k value previous) ≡ length previous + is_new (get_previous k previous)
unfolding get_previous put_previous
put_previous-length k value [] = refl
put_previous-length k value ((j, t) ∷ previous) = elim (Bool-cases (eq_group_key j k)) [
  | inl same ↦ rw (same, put_previous, get_previous) (omega arith)
  | inr other ↦
      rw (other, put_previous, get_previous) (omega (arith, put_previous-length k value previous))
]

-- Every row has a new key or a gap; a gap is negative, positive or neither; one positive gap in
-- `every` is sampled.
abbrev HasGaps : ℕ → ℕ → GapProfile → Type 0
HasGaps every keys_and_gaps p =
    (length p.previous + p.seen_gap_count ≡ keys_and_gaps)
    × (p.positive_gap_count + p.negative_gap_count ≤ p.seen_gap_count)
    × (length p.sampled_positive_gaps ≡ p.positive_gap_count / every)

count_gap-HasGaps :
    (every value rows : ℕ) (o : Option ℕ) (p : GapProfile)
    → 1 ≤ every
    → HasGaps every rows p
    → (length p.previous + (count_gap every value o p).seen_gap_count + is_new o ≡ suc rows)
      × ((count_gap every value o p).positive_gap_count
            + (count_gap every value o p).negative_gap_count
          ≤ (count_gap every value o p).seen_gap_count)
      × (length (count_gap every value o p).sampled_positive_gaps
          ≡ (count_gap every value o p).positive_gap_count / every)
unfolding count_gap
count_gap-HasGaps every value rows none p h (counted, kinds, sampled) =
    (omega arith, kinds, sampled)
count_gap-HasGaps every value rows (some previous) p h (counted, kinds, sampled) =
    elim (Bool-cases (ltb value previous)) [
      | inl back ↦ rw (back, count_gap) (omega arith, omega arith, sampled)
      | inr forth ↦ elim (Bool-cases (ltb previous value)) [
        | inl later ↦
            rw (forth, count_gap)
              (rw later (
                omega arith,
                omega arith,
                sample ((p.positive_gap_count + 1) % every == 0) p.sampled_positive_gaps
                    ∙ ap (λ n. if (p.positive_gap_count + 1) % every == 0 then n + 1 else n) sampled
                    ∙ sym (suc-div p.positive_gap_count every h),
              ))
        | inr same ↦ rw (forth, count_gap) (rw same (omega arith, omega arith, sampled))
      ]
    ]
  where
    sample :
        (b : Bool) (gaps : List ℕ)
        → length (if b then gaps ++ (value - previous) ∷ [] else gaps)
          ≡ (if b then length gaps + 1 else length gaps)
    sample true gaps = length-snoc gaps (value - previous) ∙ (omega arith)
    sample false gaps = refl

add_gap-HasGaps :
    (every : ℕ) (candidate : GroupingCandidate) (row : Row) (p : GapProfile) (rows : ℕ)
    → 1 ≤ every
    → HasGaps every rows p
    → HasGaps every (suc rows) (add_gap every candidate row p)
unfolding add_gap
add_gap-HasGaps every candidate row p rows h has_gaps =
    let key = build_key candidate row.source row.destination in
    let (counted, kinds, sampled) =
      count_gap-HasGaps every row.timestamp rows (get_previous key p.previous) p h has_gaps in
    (omega (arith, put_previous-length key row.timestamp p.previous), kinds, sampled)

abbrev AllHaveGaps : ℕ → ℕ → GapProfiles → Type 0
AllHaveGaps every rows = All (λ (c : GroupingCandidate × GapProfile). HasGaps every rows c.1)

add_gap_to_all-AllHaveGaps :
    (every : ℕ) (row : Row) (profiles : GapProfiles) (rows : ℕ)
    → 1 ≤ every
    → AllHaveGaps every rows profiles
    → AllHaveGaps every (suc rows) (add_gap_to_all every row profiles)
unfolding add_gap_to_all
add_gap_to_all-AllHaveGaps every row [] rows h all = tt
add_gap_to_all-AllHaveGaps every row ((candidate, p) ∷ rest) rows h all = (
  add_gap-HasGaps every candidate row p rows h all.0,
  add_gap_to_all-AllHaveGaps every row rest rows h all.1,
)

add_gaps-AllHaveGaps :
    (every : ℕ) (rows : List Row) (profiles : GapProfiles) (before total : ℕ)
    → 1 ≤ every
    → before + length rows ≡ total
    → AllHaveGaps every before profiles
    → AllHaveGaps every total (add_gaps every rows profiles)
unfolding add_gaps
add_gaps-AllHaveGaps every [] profiles before total h sum all =
    let same : before ≡ total = omega arith in subst (λ n. AllHaveGaps every n profiles) same all
add_gaps-AllHaveGaps every (row ∷ rows) profiles before total h sum all =
    add_gaps-AllHaveGaps every rows (add_gap_to_all every row profiles) (suc before) total h
      (omega arith) (add_gap_to_all-AllHaveGaps every row profiles before h all)

start_profiles-AllHaveGaps :
    (every : ℕ) (candidates : List GroupingCandidate)
    → 1 ≤ every
    → AllHaveGaps every 0 (start_profiles candidates)
unfolding start_profiles
start_profiles-AllHaveGaps every [] h = tt
start_profiles-AllHaveGaps every (candidate ∷ candidates) h =
    ((refl, omega arith, sym (div-eq_of_lt h)), start_profiles-AllHaveGaps every candidates h)

-- What a report says of the rows.
abbrev pub CountsGaps : ℕ → ℕ → GroupingCandidate × GapReport → Type 0
CountsGaps every rows (candidate, r) =
    (r.key_count + r.gap_count ≡ rows)
    × (r.positive_gap_count + r.negative_gap_count ≤ r.gap_count)
    × (r.sample_size ≡ r.positive_gap_count / every)

gap_reports-CountsGaps :
    (every rows : ℕ) (profiles : GapProfiles)
    → AllHaveGaps every rows profiles
    → All (CountsGaps every rows) (gap_reports profiles)
unfolding gap_reports
gap_reports-CountsGaps every rows [] h = tt
gap_reports-CountsGaps every rows ((candidate, p) ∷ rest) h =
    (h.0, gap_reports-CountsGaps every rows rest h.1)

-- In each report of `collect_gap_profiles` the keys and the gaps are together as many as the rows, the
-- positive and the negative gaps are together at most the gaps, and the sample is as large as the number
-- of positive gaps divided by `sample_every`, rounded down.
pub collect_gap_profiles-CountsGaps :
    (sample_every : ℕ) (candidate_names : List GroupingCandidate) (rows : List Row)
    → 1 ≤ sample_every
    → All
        (CountsGaps sample_every (length rows))
        (collect_gap_profiles sample_every candidate_names rows).candidates
unfolding collect_gap_profiles
collect_gap_profiles-CountsGaps sample_every candidate_names rows h =
    gap_reports-CountsGaps sample_every (length rows)
      (add_gaps sample_every rows (start_profiles candidate_names))
      (add_gaps-AllHaveGaps sample_every rows (start_profiles candidate_names) 0 (length rows) h
        (omega arith) (start_profiles-AllHaveGaps sample_every candidate_names h))
