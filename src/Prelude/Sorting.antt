-- ===== src/Prelude/Sorting.antt =====
-- `sorted(xs, key=...)` by a text: a stable insertion sort.
use flow_security_agent.Prelude.Order.{text_lt, text_lt_trans, text_lt_total, text_lt_asym}
use text.Mathlib.TextEquality.{eq_iff}
use text.Mathlib.Text.{◌==◌ as str_eq}
use Prim.Native.String.{String}
use mathlib.Core.Bool.{Bool, true, false, ◌&&◌, ◌||◌}
use mathlib.Core.List.{List, [], ◌∷◌, ◌++◌}
use mathlib.Core.Logic.{inl, inr}
use mathlib.Core.Path.{◌≡◌, refl, ap, ◌∙◌}
use native.Mathlib.Omega.{arith}
use flow_security_agent.Prelude.Lists.{All, All-append, keep_if}
use flow_security_agent.Prelude.Tests.{if◌then◌else◌, Bool-cases}

module _ {ℓ} {A : Type ℓ} (key : A → String) where
  unfoldable pub insert_by : A → List A → List A
  insert_by x [] = x ∷ []
  insert_by x (y ∷ ys) =
      let rest = insert_by x ys in if text_lt (key y) (key x) then y ∷ rest else x ∷ y ∷ ys

  unfoldable pub sort_by : List A → List A
  sort_by [] = []
  sort_by (x ∷ xs) = insert_by x (sort_by xs)

  -- The key of `x` comes before every key of the list.
  abbrev pub Before : A → List A → Type 0
  Before x = All (λ y. text_lt (key x) (key y) ≡ true)

  abbrev pub IsAscending : List A → Type 0
  IsAscending [] = Unit
  IsAscending (x ∷ xs) = Before x xs × IsAscending xs

  -- No two elements have the same key.
  abbrev pub HasDistinctKeys : List A → Type 0
  HasDistinctKeys [] = Unit
  HasDistinctKeys (x ∷ xs) = All (λ y. str_eq (key x) (key y) ≡ false) xs × HasDistinctKeys xs

  pub All-insert_by :
      (P : A → Type 0) (x : A) (ys : List A) → P x → All P ys → All P (insert_by x ys)
  unfolding insert_by
  All-insert_by P x [] px h = (px, tt)
  All-insert_by P x (y ∷ ys) px h = elim (Bool-cases (text_lt (key y) (key x))) [
    | inl later ↦ rw (later, insert_by) (h.0, All-insert_by P x ys px h.1)
    | inr here ↦ rw (here, insert_by) (px, h)
  ]

  pub All-sort_by : (P : A → Type 0) (xs : List A) → All P xs → All P (sort_by xs)
  unfolding sort_by
  All-sort_by P [] h = tt
  All-sort_by P (x ∷ xs) h = All-insert_by P x (sort_by xs) h.0 (All-sort_by P xs h.1)

  Before-trans :
      (x y : A) (zs : List A) → text_lt (key x) (key y) ≡ true → Before y zs → Before x zs
  Before-trans x y [] h k = tt
  Before-trans x y (z ∷ zs) h k =
      (text_lt_trans (key x) (key y) (key z) h k.0, Before-trans x y zs h k.1)

  insert_by-IsAscending :
      (x : A) (ys : List A)
      → All (λ y. str_eq (key x) (key y) ≡ false) ys
      → IsAscending ys
      → IsAscending (insert_by x ys)
  unfolding insert_by
  insert_by-IsAscending x [] d h = (tt, tt)
  insert_by-IsAscending x (y ∷ ys) d h = elim (Bool-cases (text_lt (key y) (key x))) [
    | inl later ↦
        rw (later, insert_by)
          (
            All-insert_by (λ z. text_lt (key y) (key z) ≡ true) x ys later h.0,
            insert_by-IsAscending x ys d.1 h.1,
          )
    | inr here ↦
        let first : text_lt (key x) (key y) ≡ true = elim (Bool-cases (text_lt (key x) (key y))) [
          | inl lt ↦ lt
          | inr not_lt ↦
              ground (arith, text_lt_total (key y) (key x) here not_lt, eq_iff (key x) (key y))
        ] in
        rw (here, insert_by) ((first, Before-trans x y ys first h.0), h)
  ]

  pub sort_by-IsAscending : (xs : List A) → HasDistinctKeys xs → IsAscending (sort_by xs)
  unfolding sort_by
  sort_by-IsAscending [] h = tt
  sort_by-IsAscending (x ∷ xs) h =
      insert_by-IsAscending x (sort_by xs)
        (All-sort_by (λ y. str_eq (key x) (key y) ≡ false) xs h.0) (sort_by-IsAscending xs h.1)

  insert_by-first : (x : A) (ys : List A) → Before x ys → insert_by x ys ≡ x ∷ ys
  unfolding insert_by
  insert_by-first x [] h = refl
  insert_by-first x (y ∷ ys) h = rw (text_lt_asym (key x) (key y) h.0, insert_by) refl

  -- An element before all others leads, wherever it stood.
  pub sort_by-middle :
      (x : A) (xs ys : List A)
      → Before x xs
      → Before x ys
      → sort_by (xs ++ x ∷ ys) ≡ x ∷ sort_by (xs ++ ys)
  unfolding sort_by insert_by
  sort_by-middle x [] ys hx hy =
      insert_by-first x (sort_by ys) (All-sort_by (λ z. text_lt (key x) (key z) ≡ true) ys hy)
  sort_by-middle x (y ∷ xs) ys hx hy =
      ap (insert_by y) (sort_by-middle x xs ys hx.1 hy) ∙ go (sort_by (xs ++ ys))
    where
      go : (zs : List A) → insert_by y (x ∷ zs) ≡ x ∷ insert_by y zs
      go zs = rw (hx.0, insert_by) refl

pub All-keep_if {ℓ κ} :
    {A : Type ℓ} (P : A → Type κ) (p : A → Bool) (xs : List A) → All P xs → All P (keep_if p xs)
All-keep_if P p [] h = tt
All-keep_if P p (x ∷ xs) h = elim (Bool-cases (p x)) [
  | inl kept ↦ rw (kept, keep_if) (h.0, All-keep_if P p xs h.1)
  | inr left_out ↦ rw (left_out, keep_if) (All-keep_if P p xs h.1)
]

pub IsAscending-keep_if {ℓ} :
    {A : Type ℓ} (key : A → String) (p : A → Bool) (xs : List A)
    → IsAscending key xs
    → IsAscending key (keep_if p xs)
IsAscending-keep_if key p [] h = tt
IsAscending-keep_if key p (x ∷ xs) h = elim (Bool-cases (p x)) [
  | inl kept ↦
      rw (kept, keep_if)
        (
          All-keep_if (λ y. text_lt (key x) (key y) ≡ true) p xs h.0,
          IsAscending-keep_if key p xs h.1,
        )
  | inr left_out ↦ rw (left_out, keep_if) (IsAscending-keep_if key p xs h.1)
]

-- Two selections of an ascending list that share nothing are sorted into one selection.
pub sort_by-keep_if {ℓ} :
    {A : Type ℓ} (key : A → String) (p q : A → Bool) (xs : List A)
    → All (λ x. (p x && q x) ≡ false) xs
    → IsAscending key xs
    → sort_by key (keep_if p xs ++ keep_if q xs) ≡ keep_if (λ x. p x || q x) xs
unfolding sort_by
sort_by-keep_if key p q [] d h = refl
sort_by-keep_if key p q (x ∷ xs) d h =
    let rest = sort_by-keep_if key p q xs d.1 h.1 in
    let first = λ (r : _ → Bool). All-keep_if (λ y. text_lt (key x) (key y) ≡ true) r xs h.0 in
    elim (Bool-cases (p x)) [
      | inl in_p ↦
          let e : q x ≡ false = ground arith in
          rw (in_p, e, keep_if)
            (sort_by-middle key x [] (keep_if p xs ++ keep_if q xs) tt
                (All-append _ _ _ (first p) (first q))
              ∙ ap (λ ys. x ∷ ys) rest)
      | inr not_p ↦ elim (Bool-cases (q x)) [
        | inl in_q ↦
            rw (not_p, in_q, keep_if)
              (sort_by-middle key x (keep_if p xs) (keep_if q xs) (first p) (first q)
                ∙ ap (λ ys. x ∷ ys) rest)
        | inr not_q ↦ rw (not_p, not_q, keep_if) rest
      ]
    ]
