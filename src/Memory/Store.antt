-- ===== src/Memory/Store.antt =====
-- What the stores hold after they are loaded and added to.
use flow_security_agent.Contracts.Experience.{ClassMemoryRecord, ExperienceRecord}
use flow_security_agent.Memory.{
  Change, MemoryError, refused, changed, add, add_class, get_class, has_experience, load_classes,
  preload, put_class,
}
use mathlib.Core.Path.{subst}
use mathlib.Core.List.{append-nil, append_assoc}
use flow_security_agent.Prelude.Text.{str_eq_comm}
use flow_security_agent.Prelude.{
  ◌∙◌, ap, sym, String, true, false, not, ◌≡◌, refl, List, [], ◌∷◌, ◌++◌, Option, none, some, inl,
  inr, arith, any, str_eq, eq_iff, All, All-append, Bool-cases, Option-cases, if◌then◌else◌,
  if_cases,
}

-- Every record has verified feedback.
abbrev pub IsVerified : List ExperienceRecord → Type 0
IsVerified = All (λ (e : ExperienceRecord). e.feedback.verified ≡ true)

abbrev pub HasUniqueIds : List ExperienceRecord → Type 0
HasUniqueIds [] = Unit
HasUniqueIds (e ∷ es) = (has_experience e.experience_id es ≡ false) × HasUniqueIds es

IsVerified-of_any :
    (es : List ExperienceRecord)
    → any (λ (e : ExperienceRecord). not e.feedback.verified) es ≡ false
    → IsVerified es
IsVerified-of_any [] h = tt
IsVerified-of_any (e ∷ es) h = (ground arith, IsVerified-of_any es (ground arith))

has_experience-snoc :
    (id : String) (es : List ExperienceRecord) (x : ExperienceRecord)
    → has_experience id es ≡ false
    → str_eq x.experience_id id ≡ false
    → has_experience id (es ++ x ∷ []) ≡ false
unfolding has_experience
has_experience-snoc id [] x h d = ground arith
has_experience-snoc id (e ∷ es) x h d = ground (arith, has_experience-snoc id es x (ground arith) d)

HasUniqueIds-snoc :
    (es : List ExperienceRecord) (x : ExperienceRecord)
    → has_experience x.experience_id es ≡ false
    → HasUniqueIds es
    → HasUniqueIds (es ++ x ∷ [])
unfolding has_experience
HasUniqueIds-snoc [] x h u = (refl, tt)
HasUniqueIds-snoc (e ∷ es) x h u = (
  has_experience-snoc e.experience_id es x u.0
      (str_eq_comm e.experience_id x.experience_id (ground arith)),
  HasUniqueIds-snoc es x (ground arith) u.1,
)

-- What a change of the experiences comes to.
abbrev Loads : List ExperienceRecord → Change (List ExperienceRecord) → Type 0
Loads es (refused MemoryError.unverified) =
    (any (λ (e : ExperienceRecord). not e.feedback.verified) es ≡ true)
Loads es (refused MemoryError.duplicate) = ⊥
Loads es (changed es') = (es' ≡ es) × IsVerified es

-- Preloading takes the records as they are if each has verified feedback, and refuses them all if
-- one has not.
preload-Loads : (es : List ExperienceRecord) → Loads es (preload es)
unfolding preload
preload-Loads es = elim (Bool-cases (any (λ (e : ExperienceRecord). not e.feedback.verified) es)) [
  | inl bad ↦ rw (bad, preload) bad
  | inr good ↦ rw (good, preload) (refl, IsVerified-of_any es good)
]

abbrev pub Adds : ExperienceRecord → List ExperienceRecord → Change (List ExperienceRecord) → Type 0
Adds x es (refused MemoryError.unverified) = x.feedback.verified ≡ false
Adds x es (refused MemoryError.duplicate) = has_experience x.experience_id es ≡ true
Adds x es (changed es') =
    (es' ≡ es ++ x ∷ []) × (IsVerified es → IsVerified es') × (HasUniqueIds es → HasUniqueIds es')

-- Adding appends the record, and the store stays verified and free of repeated ids; a record without
-- verified feedback and a record of a known id are refused for that reason.
pub add-Adds : (x : ExperienceRecord) (es : List ExperienceRecord) → Adds x es (add x es)
unfolding add
add-Adds x es =
    if_cases (Adds x es) (not x.feedback.verified) (λ bad. ground arith)
      (λ good.
        if_cases (Adds x es) (has_experience x.experience_id es) (λ known. known)
          (λ new. (
            refl,
            (λ v. All-append _ es _ v (ground arith, tt)),
            (λ u. HasUniqueIds-snoc es x new u),
          )))

-- The stores that an `InMemoryExperienceStore` comes to hold: it is preloaded, and then added to. An
-- addition that is refused leaves it as it is.
pub data Reaches (start : List ExperienceRecord) : List ExperienceRecord → Type 0 where
  preloaded : (es : List ExperienceRecord) → preload start ≡ changed es → Reaches start es
  added :
      (x : ExperienceRecord) (es es' : List ExperienceRecord)
      → Reaches start es
      → add x es ≡ changed es'
      → Reaches start es'

pub record IsStore (start es : List ExperienceRecord) : Type 0 where
  pub verified : IsVerified es
  pub unique : HasUniqueIds start → HasUniqueIds es
  pub later : List ExperienceRecord
  pub kept : es ≡ start ++ later

IsStore-preloaded :
    (start es : List ExperienceRecord) → preload start ≡ changed es → IsStore start es
IsStore-preloaded start es e =
    let (same_records, verified) = subst (Loads start) e (preload-Loads start) in
    record {
      verified = rw same_records verified;
      unique = λ u. rw same_records u;
      later = [];
      kept = same_records ∙ sym (append-nil start);
    }

-- A store that is reached has verified feedback on every record; it still has the preloaded records in
-- front; and no id stands in it twice, if none does in them.
pub Reaches-IsStore : (start es : List ExperienceRecord) → Reaches start es → IsStore start es
Reaches-IsStore start es (preloaded _ e) = IsStore-preloaded start es e
Reaches-IsStore start es (added x before _ r e) =
    let i = Reaches-IsStore start before r in
    let (appended, verified, unique) = subst (Adds x before) e (add-Adds x before) in
    record {
      verified = verified i.verified;
      unique = λ u. unique (i.unique u);
      later = i.later ++ x ∷ [];
      kept = appended ∙ ap (λ xs. xs ++ x ∷ []) i.kept ∙ append_assoc start i.later (x ∷ []);
    }

-- The class memory under `id` after `c` has been put.
put_class-get :
    (id : String) (c : ClassMemoryRecord) (m : List ClassMemoryRecord)
    → get_class id (put_class c m) ≡ (if str_eq c.class_id id then some c else get_class id m)
unfolding put_class get_class
put_class-get id c [] = ground arith
put_class-get id c (d ∷ ds) = elim (Bool-cases (str_eq d.class_id c.class_id)) [
  | inl same_id ↦
      ground (arith, eq_iff d.class_id c.class_id, eq_iff d.class_id id, eq_iff c.class_id id)
  | inr other ↦ ground (
    arith,
    put_class-get id c ds,
    eq_iff d.class_id id,
    eq_iff c.class_id id,
    eq_iff d.class_id c.class_id,
  )
]

-- The last of the records under an id, or else what was there.
abbrev pub latest :
    String → Option ClassMemoryRecord → List ClassMemoryRecord → Option ClassMemoryRecord
latest id o [] = o
latest id o (c ∷ cs) = latest id (if str_eq c.class_id id then some c else o) cs

load_classes-get_from :
    (id : String) (m cs : List ClassMemoryRecord)
    → get_class id (load_classes m cs) ≡ latest id (get_class id m) cs
unfolding load_classes
load_classes-get_from id m [] = refl
load_classes-get_from id m (c ∷ cs) =
    rw (load_classes-get_from id (put_class c m) cs, put_class-get id c m) refl

-- A loaded class memory yields the last record of an id, and nothing under an id that no record has.
pub load_classes-get :
    (id : String) (cs : List ClassMemoryRecord)
    → get_class id (load_classes [] cs) ≡ latest id none cs
unfolding get_class
load_classes-get id cs = load_classes-get_from id [] cs

abbrev pub AddsClass :
    ClassMemoryRecord → List ClassMemoryRecord → Change (List ClassMemoryRecord) → Type 0
AddsClass c m (refused MemoryError.unverified) = ⊥
AddsClass c m (refused MemoryError.duplicate) =
    (old : ClassMemoryRecord) × (get_class c.class_id m ≡ some old)
AddsClass c m (changed m') =
    (get_class c.class_id m ≡ none)
    × ((id : String) → get_class id m' ≡ (if str_eq c.class_id id then some c else get_class id m))

-- Adding a class memory makes it the record of its id and leaves every other id alone, where its id has
-- no record; it is refused where its id has one.
pub add_class-AddsClass :
    (c : ClassMemoryRecord) (m : List ClassMemoryRecord) → AddsClass c m (add_class c m)
unfolding add_class
add_class-AddsClass c m = elim (Option-cases (get_class c.class_id m)) [
  | inl free ↦ rw (free, add_class) (free, λ id. put_class-get id c m)
  | inr (old, taken) ↦ rw (taken, add_class) (old, taken)
]
