-- ===== src/Contracts/Visible/Search.antt =====
-- What the searches of Scan find, in terms of parts of a text.
use flow_security_agent.Contracts.Visible.Scan.{begins, contains, search_from}
use mathlib.Core.Path.{subst, sym}
use flow_security_agent.Prelude.{
  ℕ, ◌≡◌, ◌↔◌, refl, ap, Bool, true, false, not, ◌&&◌, List, [], ◌∷◌, ◌++◌, arith, Bool-cases, inl,
  inr,
}

-- A part of a text.
abbrev pub Occurs : List ℕ → List ℕ → Type 0
Occurs name t = (pre : List ℕ) × (post : List ℕ) × (t ≡ pre ++ name ++ post)

begins-true : (name post : List ℕ) → begins name (name ++ post) ≡ true
unfolding begins
begins-true [] post = refl
begins-true (c ∷ cs) post = ground (arith, begins-true cs post)

begins-eq : (name t : List ℕ) → begins name t ≡ true → (post : List ℕ) × (t ≡ name ++ post)
unfolding begins
begins-eq [] t h = (t, refl)
begins-eq (c ∷ cs) [] h = absurd (ground arith)
begins-eq (c ∷ cs) (d ∷ ds) h =
    let (post, e) = begins-eq cs ds (ground arith) in
    let same_code : d ≡ c = ground arith in (post, ground (arith, e, same_code))

contains-of_begins : (name t : List ℕ) → begins name t ≡ true → contains name t ≡ true
unfolding contains
contains-of_begins name [] h = h
contains-of_begins name (c ∷ cs) h = ground (arith, h)

contains-true : (name pre post : List ℕ) → contains name (pre ++ name ++ post) ≡ true
unfolding contains
contains-true name [] post = contains-of_begins name _ (begins-true name post)
contains-true name (c ∷ cs) post = ground (arith, contains-true name cs post)

contains-Occurs : (name t : List ℕ) → contains name t ≡ true → Occurs name t
unfolding contains
contains-Occurs name [] h = let (post, e) = begins-eq name [] h in ([], post, e)
contains-Occurs name (c ∷ cs) h = elim (Bool-cases (begins name (c ∷ cs))) [
  | inl here ↦ let (post, e) = begins-eq name (c ∷ cs) here in ([], post, e)
  | inr later ↦
      let (pre, post, e) = contains-Occurs name cs (ground (arith, h, later)) in
      (c ∷ pre, post, ap (λ xs. c ∷ xs) e)
]

pub contains_iff : (name t : List ℕ) → (contains name t ≡ true) ↔ Occurs name t
contains_iff name t = (
  contains-Occurs name t,
  (λ (pre, post, e). subst (λ s. contains name s ≡ true) (sym e) (contains-true name pre post)),
)

-- Whether the character before the rest of a text is of a class.
abbrev pub last_edge : (ℕ → Bool) → Bool → List ℕ → Bool
last_edge edge inside [] = inside
last_edge edge inside (c ∷ cs) = last_edge edge (edge c) cs

-- A rest of the text that has a property and does not stand behind a character of a class.
abbrev pub Found : (List ℕ → Type 0) → (ℕ → Bool) → Bool → List ℕ → Type 0
Found Q edge inside t =
    (pre : List ℕ) × (post : List ℕ) × (t ≡ pre ++ post)
    × (last_edge edge inside pre ≡ false)
    × Q post

module _ (test : List ℕ → Bool) (Q : List ℕ → Type 0) (edge : ℕ → Bool) (on_empty : test [] ≡ false)
    (test_iff : (t : List ℕ) → (test t ≡ true) ↔ Q t) where
  search_from-Found :
      (inside : Bool) (t : List ℕ) → search_from test edge inside t ≡ true → Found Q edge inside t
  unfolding search_from
  search_from-Found inside [] h = absurd (ground arith)
  search_from-Found inside (c ∷ cs) h = elim (Bool-cases (not inside && test (c ∷ cs))) [
    | inl here ↦
        ([], c ∷ cs, refl, ground (arith, here), (test_iff (c ∷ cs)).0 (ground (arith, here)))
    | inr later ↦
        let (pre, post, e, free, q) = search_from-Found (edge c) cs (ground (arith, h, later)) in
        (c ∷ pre, post, ap (λ xs. c ∷ xs) e, free, q)
  ]

  search_from-true :
      (inside : Bool) (pre post : List ℕ)
      → last_edge edge inside pre ≡ false
      → test post ≡ true
      → search_from test edge inside (pre ++ post) ≡ true
  unfolding search_from
  search_from-true inside [] [] free q = absurd (ground (arith, q, on_empty))
  search_from-true inside [] (c ∷ cs) free q = ground (arith, free, q)
  search_from-true inside (c ∷ pre) post free q =
      ground (arith, search_from-true (edge c) pre post free q)

  pub search_from_iff :
      (inside : Bool) (t : List ℕ) → (search_from test edge inside t ≡ true) ↔ Found Q edge inside t
  search_from_iff inside t = (
    search_from-Found inside t,
    (λ (pre, post, e, free, q).
        subst (λ s. search_from test edge inside s ≡ true) (sym e)
          (search_from-true inside pre post free ((test_iff post).1 q))),
  )
