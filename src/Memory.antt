-- ===== src/Memory.antt =====
-- The fixture stores of src/flowsec/runtime/memory.py: `InMemoryExperienceStore`, with `retrieve` as
-- the runtime calls it (without filters), and `InMemoryClassMemory`. Case is folded for ASCII letters
-- only.
pub mod Ranking
pub mod Store
use flow_security_agent.Contracts.Experience.{ClassMemoryRecord, ExperienceRecord}
use flow_security_agent.Contracts.Visible.Scan.{codes, eq_codes}
use flow_security_agent.Prelude.Text.{split}
use flow_security_agent.Prelude.{
  ℕ, zero, suc, ◌+◌, String, Bool, true, false, not, ◌&&◌, ◌||◌, List, [], ◌∷◌, ◌++◌, Option, none,
  some, map, ltb, leb, ◌==◌, any, all, take, length, is_empty, str_eq, if◌then◌else◌,
}

-- How a change of a store ends: by a `ValueError`, or with the store it leaves.
pub data MemoryError : Type 0 where
  unverified duplicate : MemoryError

pub data Change (A : Type 0) : Type 0 where
  refused : MemoryError → Change A
  changed : A → Change A

-- `casefold`, by the character.
unfoldable pub fold_code : ℕ → ℕ
fold_code c = if leb b'A' c && leb c b'Z' then c + 32 else c

unfoldable pub casefold : String → List ℕ
unfolding fold_code
casefold s = map fold_code (codes s)

unfoldable pub has_term : List ℕ → List (List ℕ) → Bool
unfolding eq_codes
has_term t ts = any (λ u. eq_codes u t) ts

-- A set: each element once, where it stands last.
unfoldable pub distinct : List (List ℕ) → List (List ℕ)
distinct [] = []
distinct (t ∷ ts) = let rest = distinct ts in if has_term t rest then rest else t ∷ rest

-- `{item.casefold() for item in context.split() if item}`
unfoldable pub terms_of : String → List (List ℕ)
terms_of context = distinct (map casefold (split context))

unfoldable pub haystack : ExperienceRecord → List (List ℕ)
haystack e = distinct (casefold e.experience_id ∷ map casefold e.keywords)

-- `len(terms.intersection(haystack))`
unfoldable pub count_common : List (List ℕ) → List (List ℕ) → ℕ
count_common [] hay = 0
count_common (t ∷ ts) hay =
    let rest = count_common ts hay in if has_term t hay then suc rest else rest

pub record Scored : Type 0 where
  pub score : ℕ
  pub index : ℕ
  pub entry : ExperienceRecord

-- The loop over the records, from an index on.
unfoldable pub scored_from : List (List ℕ) → ℕ → List ExperienceRecord → List Scored
scored_from terms index [] = []
scored_from terms index (e ∷ es) =
    let rest = scored_from terms (suc index) es in
    let score = count_common terms (haystack e) in
    if is_empty terms || ltb 0 score
    then record { score = score; index = index; entry = e } ∷ rest
    else rest

-- The order of the keys `(-score, index)`.
unfoldable pub precedes : Scored → Scored → Bool
precedes a b = ltb b.score a.score || a.score == b.score && leb a.index b.index

unfoldable pub insert : Scored → List Scored → List Scored
insert x [] = x ∷ []
insert x (y ∷ ys) = let rest = insert x ys in if precedes x y then x ∷ y ∷ ys else y ∷ rest

-- `scored.sort(key=...)`
unfoldable pub sort : List Scored → List Scored
sort [] = []
sort (x ∷ xs) = insert x (sort xs)

unfoldable pub retrieve : String → ℕ → List ExperienceRecord → List ExperienceRecord
retrieve context limit records =
    map (λ (s : Scored). s.entry) (take limit (sort (scored_from (terms_of context) 0 records)))

unfoldable pub preload : List ExperienceRecord → Change (List ExperienceRecord)
preload records =
    if any (λ (e : ExperienceRecord). not e.feedback.verified) records
    then refused MemoryError.unverified
    else changed records

unfoldable pub has_experience : String → List ExperienceRecord → Bool
has_experience id records = any (λ (e : ExperienceRecord). str_eq e.experience_id id) records

unfoldable pub add : ExperienceRecord → List ExperienceRecord → Change (List ExperienceRecord)
add e records =
    if not e.feedback.verified
    then refused MemoryError.unverified
    else if has_experience e.experience_id records
    then refused MemoryError.duplicate
    else changed (records ++ e ∷ [])

-- The dict from class ids to records, each record under its own id.
unfoldable pub get_class : String → List ClassMemoryRecord → Option ClassMemoryRecord
get_class id [] = none
get_class id (c ∷ cs) = if str_eq c.class_id id then some c else get_class id cs

-- `records[record.class_id] = record`
unfoldable pub put_class : ClassMemoryRecord → List ClassMemoryRecord → List ClassMemoryRecord
put_class c [] = c ∷ []
put_class c (d ∷ ds) =
    let rest = put_class c ds in if str_eq d.class_id c.class_id then c ∷ ds else d ∷ rest

unfoldable pub load_classes :
    List ClassMemoryRecord → List ClassMemoryRecord → List ClassMemoryRecord
load_classes m [] = m
load_classes m (c ∷ cs) = load_classes (put_class c m) cs

unfoldable pub add_class :
    ClassMemoryRecord → List ClassMemoryRecord → Change (List ClassMemoryRecord)
add_class c m = elim (get_class c.class_id m) [
  | some old ↦ refused MemoryError.duplicate
  | none ↦ changed (put_class c m)
]
