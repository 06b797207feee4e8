-- ===== src/Memory/Ranking.antt =====
-- What `retrieve` returns.
use flow_security_agent.Contracts.Experience.{ExperienceRecord}
use flow_security_agent.Memory.{
  Scored, count_common, haystack, insert, precedes, retrieve, scored_from, sort, terms_of,
}
use flow_security_agent.Prelude.{
  ℕ, zero, suc, ◌+◌, ◌≤◌, ◌<◌, ◌≡◌, ◌∙◌, refl, ap, Option, none, some, ◌==◌, String, Bool, true,
  false, ◌||◌, List, [], ◌∷◌, ◌++◌, ◌⊎◌, inl, inr, arith, map, ltb, take, length, is_empty, All,
  Bool-cases, if◌then◌else◌,
}

-- Every later entry comes after by the order of the sort.
abbrev IsSorted : List Scored → Type 0
IsSorted [] = Unit
IsSorted (x ∷ xs) = All (λ y. precedes x y ≡ true) xs × IsSorted xs

-- An entry has the higher score, or the same score and the lower index.
abbrev pub IsBefore : Scored → Scored → Type 0
IsBefore a b = (b.score < a.score) ⊎ ((a.score ≡ b.score) × (a.index ≤ b.index))

abbrev pub IsRanked : List Scored → Type 0
IsRanked [] = Unit
IsRanked (x ∷ xs) = All (IsBefore x) xs × IsRanked xs

precedes-IsBefore : (a b : Scored) → precedes a b ≡ true → IsBefore a b
unfolding precedes
precedes-IsBefore a b h = elim (Bool-cases (ltb b.score a.score)) [
  | inl higher ↦ inl (ground arith)
  | inr other ↦ inr (ground arith, ground arith)
]

IsSorted-IsRanked : (xs : List Scored) → IsSorted xs → IsRanked xs
IsSorted-IsRanked [] h = tt
IsSorted-IsRanked (x ∷ xs) h = (before xs h.0, IsSorted-IsRanked xs h.1)
  where
    before : (ys : List Scored) → All (λ y. precedes x y ≡ true) ys → All (IsBefore x) ys
    before [] k = tt
    before (y ∷ ys) k = (precedes-IsBefore x y k.0, before ys k.1)

-- How many entries have a property.
abbrev pub count : (Scored → Bool) → List Scored → ℕ
count p [] = 0
count p (x ∷ xs) = if p x then suc (count p xs) else count p xs

precedes_trans : (a b c : Scored) → precedes a b ≡ true → precedes b c ≡ true → precedes a c ≡ true
unfolding precedes
precedes_trans a b c h k = ground arith

precedes_total : (a b : Scored) → precedes a b ≡ false → precedes b a ≡ true
unfolding precedes
precedes_total a b h = ground arith

module _ (P : Scored → Type 0) where
  All-insert : (x : Scored) (ys : List Scored) → P x → All P ys → All P (insert x ys)
  unfolding insert
  All-insert x [] px h = (px, tt)
  All-insert x (y ∷ ys) px h = elim (Bool-cases (precedes x y)) [
    | inl before ↦ rw (before, insert) (px, h)
    | inr after ↦ rw (after, insert) (h.0, All-insert x ys px h.1)
  ]

  All-sort : (xs : List Scored) → All P xs → All P (sort xs)
  unfolding sort
  All-sort [] h = tt
  All-sort (x ∷ xs) h = All-insert x (sort xs) h.0 (All-sort xs h.1)

All-precedes :
    (x y : Scored) (zs : List Scored)
    → precedes x y ≡ true
    → All (λ z. precedes y z ≡ true) zs
    → All (λ z. precedes x z ≡ true) zs
All-precedes x y [] h k = tt
All-precedes x y (z ∷ zs) h k = (precedes_trans x y z h k.0, All-precedes x y zs h k.1)

insert-IsSorted : (x : Scored) (ys : List Scored) → IsSorted ys → IsSorted (insert x ys)
unfolding insert
insert-IsSorted x [] h = (tt, tt)
insert-IsSorted x (y ∷ ys) h = elim (Bool-cases (precedes x y)) [
  | inl before ↦ rw (before, insert) ((before, All-precedes x y ys before h.0), h)
  | inr after ↦
      rw (after, insert)
        (
          All-insert (λ z. precedes y z ≡ true) x ys (precedes_total x y after) h.0,
          insert-IsSorted x ys h.1,
        )
]

sort-IsSorted : (xs : List Scored) → IsSorted (sort xs)
unfolding sort
sort-IsSorted [] = tt
sort-IsSorted (x ∷ xs) = insert-IsSorted x (sort xs) (sort-IsSorted xs)

module _ (p : Scored → Bool) where
  count-insert : (x : Scored) (ys : List Scored) → count p (insert x ys) ≡ count p (x ∷ ys)
  unfolding insert
  count-insert x [] = refl
  count-insert x (y ∷ ys) = elim (Bool-cases (precedes x y)) [
    | inl before ↦ rw (before, insert) refl
    | inr after ↦ rw (after, insert) (ground (arith, count-insert x ys))
  ]

  count-sort : (xs : List Scored) → count p (sort xs) ≡ count p xs
  unfolding sort
  count-sort [] = refl
  count-sort (x ∷ xs) = ground (arith, count-insert x (sort xs), count-sort xs)

-- An entry has its score, which is positive unless the query is empty.
abbrev pub IsMatch : List (List ℕ) → Scored → Type 0
IsMatch terms s =
    (s.score ≡ count_common terms (haystack s.entry)) × ((is_empty terms || ltb 0 s.score) ≡ true)

scored_from-IsMatch :
    (terms : List (List ℕ)) (k : ℕ) (es : List ExperienceRecord)
    → All (IsMatch terms) (scored_from terms k es)
unfolding scored_from
scored_from-IsMatch terms k [] = tt
scored_from-IsMatch terms k (e ∷ es) =
    elim (Bool-cases (is_empty terms || ltb 0 (count_common terms (haystack e)))) [
      | inl hit ↦ rw (hit, scored_from) ((refl, hit), scored_from-IsMatch terms (suc k) es)
      | inr miss ↦ rw (miss, scored_from) (scored_from-IsMatch terms (suc k) es)
    ]

abbrev pub get_elem? : List ExperienceRecord → ℕ → Option ExperienceRecord
get_elem? [] i = none
get_elem? (e ∷ es) zero = some e
get_elem? (e ∷ es) (suc i) = get_elem? es i

-- An entry holds the record that stands at its index, counted from `k`.
abbrev HoldsFrom : ℕ → List ExperienceRecord → Scored → Type 0
HoldsFrom k es s = (j : ℕ) × (s.index ≡ k + j) × (get_elem? es j ≡ some s.entry)

HoldsFrom-suc :
    (k : ℕ) (e : ExperienceRecord) (es : List ExperienceRecord) (xs : List Scored)
    → All (HoldsFrom (suc k) es) xs
    → All (HoldsFrom k (e ∷ es)) xs
HoldsFrom-suc k e es [] h = tt
HoldsFrom-suc k e es (x ∷ xs) ((j, at, held), h) =
    ((suc j, omega arith, held), HoldsFrom-suc k e es xs h)

scored_from-HoldsFrom :
    (terms : List (List ℕ)) (k : ℕ) (es : List ExperienceRecord)
    → All (HoldsFrom k es) (scored_from terms k es)
unfolding scored_from
scored_from-HoldsFrom terms k [] = tt
scored_from-HoldsFrom terms k (e ∷ es) =
    let later =
      HoldsFrom-suc k e es (scored_from terms (suc k) es)
        (scored_from-HoldsFrom terms (suc k) es) in
    elim (Bool-cases (is_empty terms || ltb 0 (count_common terms (haystack e)))) [
      | inl hit ↦ rw (hit, scored_from) ((0, omega arith, refl), later)
      | inr miss ↦ rw (miss, scored_from) later
    ]

-- How often a record is to be among the entries: once if it has a term of the query, or if the query is
-- empty.
abbrev pub times : List (List ℕ) → Option ExperienceRecord → ℕ
times terms none = 0
times terms (some e) = if is_empty terms || ltb 0 (count_common terms (haystack e)) then 1 else 0

abbrev pub is_at : ℕ → Scored → Bool
is_at i s = s.index == i

scored_from-below :
    (terms : List (List ℕ)) (k i : ℕ) (es : List ExperienceRecord)
    → i < k
    → count (is_at i) (scored_from terms k es) ≡ 0
unfolding scored_from
scored_from-below terms k i [] h = refl
scored_from-below terms k i (e ∷ es) h =
    let later : count (is_at i) (scored_from terms (suc k) es) ≡ 0 =
      scored_from-below terms (suc k) i es (omega arith) in
    elim (Bool-cases (is_empty terms || ltb 0 (count_common terms (haystack e)))) [
      | inl hit ↦ rw (hit, scored_from) (ground arith)
      | inr miss ↦ rw (miss, scored_from) later
    ]

scored_from-times :
    (terms : List (List ℕ)) (k j i : ℕ) (es : List ExperienceRecord)
    → i ≡ k + j
    → count (is_at i) (scored_from terms k es) ≡ times terms (get_elem? es j)
unfolding scored_from
scored_from-times terms k j i [] h = refl
scored_from-times terms k zero i (e ∷ es) h =
    let later : count (is_at i) (scored_from terms (suc k) es) ≡ 0 =
      scored_from-below terms (suc k) i es (omega arith) in
    elim (Bool-cases (is_empty terms || ltb 0 (count_common terms (haystack e)))) [
      | inl hit ↦ rw (hit, scored_from) (ground arith)
      | inr miss ↦ rw (miss, scored_from) later
    ]
scored_from-times terms k (suc j) i (e ∷ es) h =
    let later : count (is_at i) (scored_from terms (suc k) es) ≡ times terms (get_elem? es j) =
      scored_from-times terms (suc k) j i es (omega arith) in
    elim (Bool-cases (is_empty terms || ltb 0 (count_common terms (haystack e)))) [
      | inl hit ↦
          let other : (k == i) ≡ false = ground arith in rw (hit, scored_from) (rw other later)
      | inr miss ↦ rw (miss, scored_from) later
    ]

take-split :
    {A B : Type 0} (f : A → B) (n : ℕ) (xs : List A)
    → (front : List A) × (back : List A) × (xs ≡ front ++ back)
      × (map f (take n xs) ≡ map f front)
      × (length front ≤ n)
      × (back ≡ [] ⊎ length front ≡ n)
take-split f zero xs = ([], xs, refl, refl, omega arith, inr refl)
take-split f (suc n) [] = ([], [], refl, refl, omega arith, inl refl)
take-split f (suc n) (x ∷ xs) =
    let (front, back, e, m, le, full) = take-split f n xs in
    (
      x ∷ front,
      back,
      ap (λ ys. x ∷ ys) e,
      ap (λ ys. f x ∷ ys) m,
      omega (arith, le),
      elim full [ inl none_left ↦ inl none_left | inr all_taken ↦ inr (ap suc all_taken) ],
    )

module _ (context : String) (limit : ℕ) (records : List ExperienceRecord) where
  abbrev matches : List Scored
  matches = scored_from (terms_of context) 0 records

  -- What is returned of the matches, and what is left behind it.
  pub record Ranks (found : List ExperienceRecord) : Type 0 where
    pub front : List Scored
    pub back : List Scored
    pub returned : found ≡ map (λ (s : Scored). s.entry) front
    pub at_most : length front ≤ limit
    pub complete : back ≡ [] ⊎ length front ≡ limit
    pub ranked : IsRanked (front ++ back)
    pub held : All (λ (s : Scored). get_elem? records s.index ≡ some s.entry) (front ++ back)
    pub once :
        (i : ℕ) → count (is_at i) (front ++ back) ≡ times (terms_of context) (get_elem? records i)
    pub matching : All (IsMatch (terms_of context)) (front ++ back)

  held_in :
      (xs : List Scored)
      → All (HoldsFrom 0 records) xs
      → All (λ (s : Scored). get_elem? records s.index ≡ some s.entry) xs
  held_in [] h = tt
  held_in (x ∷ xs) ((j, at, held), h) =
      let same : x.index ≡ j = omega arith in (ap (get_elem? records) same ∙ held, held_in xs h)

  -- The entries that match, each record with a term of the query once, or all records if the query is
  -- empty, are ordered by falling score and by age under equal scores, where the score is the number of
  -- common terms; `retrieve` returns the records of the first of them, at most `limit`, and of all if
  -- they are fewer.
  pub retrieve-Ranks : Ranks (retrieve context limit records)
  unfolding retrieve
  retrieve-Ranks =
      let (front, back, e, m, le, full) =
        take-split (λ (s : Scored). s.entry) limit (sort matches) in
      record {
        front = front;
        back = back;
        returned = m;
        at_most = le;
        complete = full;
        ranked = IsSorted-IsRanked (front ++ back) (rw e at (sort-IsSorted matches));
        held = held_in (front ++ back) (
            rw e at (
              All-sort (HoldsFrom 0 records) matches
                (scored_from-HoldsFrom (terms_of context) 0 records)));
        once = λ i.
            rw e at (count-sort (is_at i) matches)
            ∙ scored_from-times (terms_of context) 0 i i records (omega arith);
        matching = rw e at (
            All-sort (IsMatch (terms_of context)) matches
              (scored_from-IsMatch (terms_of context) 0 records));
      }
