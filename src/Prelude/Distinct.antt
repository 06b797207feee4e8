-- ===== src/Prelude/Distinct.antt =====
-- Lists in which no two keys are the same, and dicts that are filled from them.
use flow_security_agent.Prelude.Order.{text_lt, text_lt_irrefl}
use flow_security_agent.Prelude.Sorting.{HasDistinctKeys, IsAscending, All-keep_if}
use text.Mathlib.TextEquality.{eq_iff}
use text.Mathlib.Text.{◌==◌ as str_eq}
use Prim.Native.String.{String}
use mathlib.Core.Bool.{Bool, true, false, ◌&&◌}
use mathlib.Core.List.{List, [], ◌∷◌, ◌++◌}
use mathlib.Core.Logic.{inl, inr}
use mathlib.Core.Path.{◌≡◌}
use native.Mathlib.Omega.{arith}
use flow_security_agent.Prelude.Lists.{All, All-append, All-of_append, keep_if}
use flow_security_agent.Prelude.Tests.{Bool-cases}

pub str_eq_sym : (s t : String) → str_eq s t ≡ str_eq t s
str_eq_sym s t = ground (arith, eq_iff s t, eq_iff t s)

text_lt-str_eq : (s t : String) → text_lt s t ≡ true → str_eq s t ≡ false
text_lt-str_eq s t h = ground (arith, eq_iff s t, text_lt_irrefl s)

pub All-map {ℓ κ μ} :
    {A : Type ℓ} (P : A → Type κ) (Q : A → Type μ)
    → ((x : A) → P x → Q x)
    → (xs : List A) → All P xs
    → All Q xs
All-map P Q f [] h = tt
All-map P Q f (x ∷ xs) h = (f x h.0, All-map P Q f xs h.1)

pub All-of_each {ℓ κ} : {A : Type ℓ} (P : A → Type κ) → ((x : A) → P x) → (xs : List A) → All P xs
All-of_each P f [] = tt
All-of_each P f (x ∷ xs) = (f x, All-of_each P f xs)

module _ {ℓ} {A : Type ℓ} (key : A → String) where
  HasDistinctKeys-middle :
      (x : A) (xs ys : List A)
      → All (λ y. str_eq (key x) (key y) ≡ false) xs
      → All (λ y. str_eq (key x) (key y) ≡ false) ys
      → HasDistinctKeys key (xs ++ ys)
      → HasDistinctKeys key (xs ++ x ∷ ys)
  HasDistinctKeys-middle x [] ys hx hy h = (hy, h)
  HasDistinctKeys-middle x (y ∷ xs) ys hx hy h =
      let (front, back) = All-of_append (λ z. str_eq (key y) (key z) ≡ false) xs ys h.0 in
      (
        All-append (λ z. str_eq (key y) (key z) ≡ false) xs (x ∷ ys) front
            (ground (arith, hx.0, str_eq_sym (key x) (key y)), back),
        HasDistinctKeys-middle x xs ys hx.1 hy h.1,
      )

  pub HasDistinctKeys-front :
      (xs ys : List A) → HasDistinctKeys key (xs ++ ys) → HasDistinctKeys key xs
  HasDistinctKeys-front [] ys h = tt
  HasDistinctKeys-front (x ∷ xs) ys h = (
    (All-of_append (λ y. str_eq (key x) (key y) ≡ false) xs ys h.0).0,
    HasDistinctKeys-front xs ys h.1,
  )

  pub HasDistinctKeys-before :
      (x : A) (xs ys : List A)
      → HasDistinctKeys key (xs ++ x ∷ ys)
      → All (λ y. str_eq (key y) (key x) ≡ false) xs
  HasDistinctKeys-before x [] ys h = tt
  HasDistinctKeys-before x (y ∷ xs) ys h = (
    (All-of_append (λ z. str_eq (key y) (key z) ≡ false) xs (x ∷ ys) h.0).1.0,
    HasDistinctKeys-before x xs ys h.1,
  )

  -- Two selections of an ascending list that share nothing have distinct keys together.
  pub HasDistinctKeys-keep_if :
      (p q : A → Bool) (xs : List A)
      → All (λ x. (p x && q x) ≡ false) xs
      → IsAscending key xs
      → HasDistinctKeys key (keep_if p xs ++ keep_if q xs)
  HasDistinctKeys-keep_if p q [] d h = tt
  HasDistinctKeys-keep_if p q (x ∷ xs) d h =
      let rest = HasDistinctKeys-keep_if p q xs d.1 h.1 in
      let apart =
        All-map (λ y. text_lt (key x) (key y) ≡ true) (λ y. str_eq (key x) (key y) ≡ false)
          (λ y lt. text_lt-str_eq (key x) (key y) lt) xs h.0 in
      let kept = λ (r : A → Bool). All-keep_if (λ y. str_eq (key x) (key y) ≡ false) r xs apart in
      elim (Bool-cases (p x)) [
        | inl in_p ↦
            let e : q x ≡ false = ground arith in
            rw (in_p, e, keep_if) (All-append _ _ _ (kept p) (kept q), rest)
        | inr not_p ↦ elim (Bool-cases (q x)) [
          | inl in_q ↦
              rw (not_p, in_q, keep_if)
                (HasDistinctKeys-middle x (keep_if p xs) (keep_if q xs) (kept p) (kept q) rest)
          | inr not_q ↦ rw (not_p, not_q, keep_if) rest
        ]
      ]
