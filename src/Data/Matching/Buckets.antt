-- ===== src/Data/Matching/Buckets.antt =====
-- What the buckets of an index hold.
use mathlib.Core.List.{append-nil, append_assoc}
use flow_security_agent.Data.Events.{GroundTruthEvent}
use flow_security_agent.Data.Matching.{
  Buckets, Key, eq_key, eq_optional, get_bucket, append_event, add_day, add_days, add_event,
  add_events, direct_key, reverse_key, utc_day,
}
use flow_security_agent.Prelude.{
  ℕ, zero, suc, ◌+◌, ◌-◌, ◌≤◌, ◌≡◌, refl, sym, ap, ◌∙◌, Bool, true, false, not, ◌&&◌, ◌||◌, List,
  [], ◌∷◌, ◌++◌, Option, none, some, inl, inr, arith, leb, ◌==◌, str_eq, eq_iff, eq_refl, keep_if,
  Bool-cases, if◌then◌else◌,
}

pub eq_optional→eq : (o p : Option ℕ) → eq_optional o p ≡ true → o ≡ p
unfolding eq_optional
eq_optional→eq none none h = refl
eq_optional→eq none (some b) h = cc
eq_optional→eq (some a) none h = cc
eq_optional→eq (some a) (some b) h = ap some (ground arith)

pub eq_optional_self : (o : Option ℕ) → eq_optional o o ≡ true
unfolding eq_optional
eq_optional_self none = refl
eq_optional_self (some a) = ground arith

eq_key→eq : (j k : Key) → eq_key j k ≡ true → j ≡ k
unfolding eq_key
eq_key→eq j k h = ground (
  arith,
  eq_optional→eq j.protocol k.protocol,
  eq_iff j.source k.source,
  eq_iff j.destination k.destination,
)

eq_key_self : (k : Key) → eq_key k k ≡ true
unfolding eq_key
eq_key_self k = ground (arith, eq_optional_self k.protocol, eq_refl k.source, eq_refl k.destination)

get_bucket-append_event :
    (j k : Key) (e : GroundTruthEvent) (b : Buckets)
    → get_bucket k (append_event j e b)
      ≡ (if eq_key j k then get_bucket k b ++ e ∷ [] else get_bucket k b)
unfolding get_bucket append_event
get_bucket-append_event j k e [] = refl
get_bucket-append_event j k e ((i, es) ∷ rest) = elim (Bool-cases (eq_key i j)) [
  | inl here ↦ rw (here, append_event) (rw (eq_key→eq i j here) (split j))
  | inr later ↦
      rw (later, append_event)
        (elim (Bool-cases (eq_key i k)) [
          | inl found ↦ ground (arith, eq_key→eq i k, eq_key→eq j k, eq_key_self j)
          | inr other ↦ rw (other, get_bucket) (get_bucket-append_event j k e rest)
        ])
]
  where
    split :
        (i : Key)
        → get_bucket k ((i, es ++ e ∷ []) ∷ rest) ≡ (
            if eq_key i k
            then get_bucket k ((i, es) ∷ rest) ++ e ∷ []
            else get_bucket k ((i, es) ∷ rest))
    split i = ground arith

-- The event as a part of a bucket.
abbrev pub entry : Bool → GroundTruthEvent → List GroundTruthEvent
entry b e = if b then e ∷ [] else []

-- The event goes to the bucket on its days.
unfoldable pub at_ends : Bool → Key → GroundTruthEvent → Bool
at_ends allow_reverse k e =
    eq_optional e.protocol k.protocol
    && (str_eq e.source_ip k.source && str_eq e.destination_ip k.destination
        || allow_reverse
          && not (str_eq e.source_ip e.destination_ip)
          && str_eq e.destination_ip k.source
          && str_eq e.source_ip k.destination)

-- Two appends that do not go to the same bucket, and one that may.
append_twice :
    (B C D : List GroundTruthEvent) (e : GroundTruthEvent) (a b : Bool)
    → (a && b) ≡ false
    → C ≡ (if a then B ++ e ∷ [] else B)
    → D ≡ (if b then C ++ e ∷ [] else C)
    → D ≡ B ++ entry (a || b) e
append_twice B C D e true true h p q = cc
append_twice B C D e true false h p q = q ∙ p
append_twice B C D e false true h p q = q ∙ ap (λ xs. xs ++ e ∷ []) p
append_twice B C D e false false h p q = q ∙ p ∙ sym (append-nil B)

append_once :
    (B C : List GroundTruthEvent) (e : GroundTruthEvent) (a : Bool)
    → C ≡ (if a then B ++ e ∷ [] else B)
    → C ≡ B ++ entry a e
append_once B C e true p = p
append_once B C e false p = p ∙ sym (append-nil B)

module _ (allow : Bool) (k : Key) (e : GroundTruthEvent) (day : ℕ) where
  keys_apart :
      str_eq e.source_ip e.destination_ip ≡ false
      → (eq_key (direct_key day e) k && eq_key (reverse_key day e) k) ≡ false
  unfolding eq_key direct_key reverse_key
  keys_apart h = ground (
    arith,
    eq_iff e.source_ip e.destination_ip,
    eq_iff e.source_ip k.source,
    eq_iff e.destination_ip k.source,
  )

  at_ends-two :
      (allow && not (str_eq e.source_ip e.destination_ip)) ≡ true
      → (eq_key (direct_key day e) k || eq_key (reverse_key day e) k)
        ≡ (day == k.day && at_ends allow k e)
  unfolding eq_key direct_key reverse_key at_ends
  at_ends-two h = ground arith

  at_ends-one :
      (allow && not (str_eq e.source_ip e.destination_ip)) ≡ false
      → eq_key (direct_key day e) k ≡ (day == k.day && at_ends allow k e)
  unfolding eq_key direct_key at_ends
  at_ends-one h = ground arith

  get_bucket-add_day :
      (b : Buckets)
      → get_bucket k (add_day allow e day b)
        ≡ get_bucket k b ++ entry (day == k.day && at_ends allow k e) e
  unfolding add_day
  get_bucket-add_day b =
      let b' = append_event (direct_key day e) e b in
      let direct = get_bucket-append_event (direct_key day e) k e b in
      elim (Bool-cases (allow && not (str_eq e.source_ip e.destination_ip))) [
        | inl both ↦
            rw (both, add_day)
              (rw (← (at_ends-two both)) (
                append_twice (get_bucket k b) (get_bucket k b')
                  (get_bucket k (append_event (reverse_key day e) e b')) e
                  (eq_key (direct_key day e) k) (eq_key (reverse_key day e) k)
                  (keys_apart (ground arith)) direct
                  (get_bucket-append_event (reverse_key day e) k e b')))
        | inr one ↦
            rw (one, add_day)
              (rw (← (at_ends-one one)) (
                append_once (get_bucket k b) (get_bucket k b') e (eq_key (direct_key day e) k)
                  direct))
      ]

entry_split :
    (B : List GroundTruthEvent) (e : GroundTruthEvent) (a b c : Bool)
    → (a && b) ≡ false
    → (a || b) ≡ c
    → (B ++ entry a e) ++ entry b e ≡ B ++ entry c e
entry_split B e true true c h p = cc
entry_split B e true false c h p = append-nil (B ++ e ∷ []) ∙ ap (λ d. B ++ entry d e) p
entry_split B e false b c h p =
    ap (λ xs. xs ++ entry b e) (append-nil B) ∙ ap (λ d. B ++ entry d e) p

-- The days of an event, from `first` to `last`, hold a day.
unfoldable pub in_days : ℕ → ℕ → ℕ → Bool
in_days first last day = leb first day && leb day last

get_bucket-add_days :
    (fuel : ℕ) (allow : Bool) (k : Key) (e : GroundTruthEvent) (current last : ℕ) (b : Buckets)
    → suc last ≤ current + fuel
    → get_bucket k (add_days fuel allow e current last b)
      ≡ get_bucket k b ++ entry (in_days current last k.day && at_ends allow k e) e
unfolding add_days in_days
get_bucket-add_days zero allow k e current last b h =
    append_once (get_bucket k b) (get_bucket k b) e
      (leb current k.day && leb k.day last && at_ends allow k e) (ground arith)
get_bucket-add_days (suc fuel) allow k e current last b h = elim (Bool-cases (leb current last)) [
  | inl inside ↦
      rw (inside, add_days)
        (get_bucket-add_days fuel allow k e (suc current) last (add_day allow e current b)
            (omega (arith, h))
          ∙ ap (λ xs. xs ++ entry (in_days (suc current) last k.day && at_ends allow k e) e)
              (get_bucket-add_day allow k e current b)
          ∙ entry_split (get_bucket k b) e (current == k.day && at_ends allow k e)
              (in_days (suc current) last k.day && at_ends allow k e)
              (in_days current last k.day && at_ends allow k e) (ground arith) (ground arith))
  | inr over ↦
      rw (over, add_days)
        (append_once (get_bucket k b) (get_bucket k b) e
          (leb current k.day && leb k.day last && at_ends allow k e) (ground arith))
]

-- An event stands in a bucket if its days hold the bucket's day and it goes to the bucket.
unfoldable pub in_bucket : Bool → Key → GroundTruthEvent → Bool
unfolding in_days at_ends
in_bucket allow k e = in_days (utc_day e.start_ms) (utc_day e.end_ms) k.day && at_ends allow k e

get_bucket-add_event :
    (allow : Bool) (k : Key) (e : GroundTruthEvent) (b : Buckets)
    → get_bucket k (add_event allow e b) ≡ get_bucket k b ++ entry (in_bucket allow k e) e
unfolding add_event in_bucket
get_bucket-add_event allow k e b =
    get_bucket-add_days (suc (utc_day e.end_ms) - utc_day e.start_ms) allow k e (utc_day e.start_ms)
      (utc_day e.end_ms) b (omega arith)

entry-keep_if :
    (p : GroundTruthEvent → Bool) (e : GroundTruthEvent) (es : List GroundTruthEvent)
    → entry (p e) e ++ keep_if p es ≡ keep_if p (e ∷ es)
entry-keep_if p e es = ground arith

-- A bucket holds, in their order, the events that belong there.
pub get_bucket-add_events :
    (allow : Bool) (k : Key) (es : List GroundTruthEvent) (b : Buckets)
    → get_bucket k (add_events allow es b) ≡ get_bucket k b ++ keep_if (in_bucket allow k) es
unfolding add_events
get_bucket-add_events allow k [] b = sym (append-nil (get_bucket k b))
get_bucket-add_events allow k (e ∷ es) b =
    get_bucket-add_events allow k es (add_event allow e b)
    ∙ ap (λ xs. xs ++ keep_if (in_bucket allow k) es) (get_bucket-add_event allow k e b)
    ∙ append_assoc (get_bucket k b) (entry (in_bucket allow k e) e) (keep_if (in_bucket allow k) es)
    ∙ ap (λ xs. get_bucket k b ++ xs) (entry-keep_if (in_bucket allow k) e es)
