-- ===== src/Contracts/Visible/Quad.antt =====
-- What the pattern of an IPv4 address matches.
use flow_security_agent.Contracts.Visible.Scan.{is_digit, is_octet, octets, split_digits}
use mathlib.Core.Path.{subst, sym}
use flow_security_agent.Prelude.{
  ℕ, zero, suc, ◌≡◌, ◌↔◌, ◌∙◌, refl, ap, Bool, true, false, List, [], ◌∷◌, ◌++◌, inl, inr, arith,
  length, All, Bool-cases,
}

abbrev pub starts_digit : List ℕ → Bool
starts_digit [] = false
starts_digit (c ∷ cs) = is_digit c

-- One to three digits.
abbrev pub IsOctet : List ℕ → Type 0
IsOctet run = (All (λ c. is_digit c ≡ true) run) × (is_octet (length run) ≡ true)

-- `k` octets each with a dot behind it, and one more that no digit follows.
abbrev pub IsQuad : ℕ → List ℕ → Type 0
IsQuad zero t =
    (run : List ℕ) × (rest : List ℕ) × (t ≡ run ++ rest) × IsOctet run × (starts_digit rest ≡ false)
IsQuad (suc k) t =
    (run : List ℕ) × (rest : List ℕ) × (t ≡ run ++ b'.' ∷ rest) × IsOctet run × IsQuad k rest

-- A text is its leading digits and a rest that starts with none.
split_digits-parts :
    (t : List ℕ)
    → (run : List ℕ) × (t ≡ run ++ (split_digits t).1)
      × (All (λ c. is_digit c ≡ true) run)
      × ((split_digits t).0 ≡ length run)
      × (starts_digit (split_digits t).1 ≡ false)
unfolding split_digits
split_digits-parts [] = ([], refl, tt, refl, refl)
split_digits-parts (c ∷ cs) = elim (Bool-cases (is_digit c)) [
  | inl digit ↦
      let (run, e, ds, n, stop) = split_digits-parts cs in
      rw digit (c ∷ run, ap (λ xs. c ∷ xs) e, (digit, ds), ap suc n, stop)
  | inr other ↦ rw other ([], refl, tt, refl, other)
]

split_digits-append :
    (run rest : List ℕ)
    → All (λ c. is_digit c ≡ true) run
    → starts_digit rest ≡ false
    → split_digits (run ++ rest) ≡ (length run, rest)
unfolding split_digits
split_digits-append [] [] ds stop = refl
split_digits-append [] (c ∷ cs) ds stop = rw stop refl
split_digits-append (c ∷ run) rest ds stop = rw (ds.0, split_digits-append run rest ds.1 stop) refl

octets-IsQuad : (k : ℕ) (t : List ℕ) → octets k t ≡ true → IsQuad k t
unfolding octets
octets-IsQuad zero t h =
    let (run, e, ds, n, stop) = split_digits-parts t in
    (run, (split_digits t).1, e, (ds, rw n at h), stop)
octets-IsQuad (suc k) t h =
    let (run, e, ds, n, stop) = split_digits-parts t in
    go (octets-IsQuad k) (split_digits t).1 refl run e ds n
  where
    go :
        ((r : List ℕ) → octets k r ≡ true → IsQuad k r)
        → (rest : List ℕ) → (split_digits t).1 ≡ rest
        → (run : List ℕ) → t ≡ run ++ (split_digits t).1
        → All (λ c. is_digit c ≡ true) run
        → (split_digits t).0 ≡ length run
        → IsQuad (suc k) t
    go next [] p run e ds n = absurd (ground (arith, h, p))
    go next (c ∷ rest) p run e ds n =
        let q = rw (p, octets) at h in
        let octet : is_octet (split_digits t).0 ≡ true = ground (arith, q) in
        let dot : c ≡ b'.' = ground (arith, q) in
        (
          run,
          rest,
          e ∙ ap (λ xs. run ++ xs) (p ∙ ap (λ x. x ∷ rest) dot),
          (ds, rw n at octet),
          next rest (ground (arith, q)),
        )

octets_dotted :
    (k : ℕ) (run rest : List ℕ)
    → IsOctet run
    → octets k rest ≡ true
    → octets (suc k) (run ++ b'.' ∷ rest) ≡ true
unfolding octets
octets_dotted k run rest (ds, octet) h =
    let parts = split_digits-append run (b'.' ∷ rest) ds refl in ground (arith, parts, octet, h)

octets-true : (k : ℕ) (t : List ℕ) → IsQuad k t → octets k t ≡ true
unfolding octets
octets-true zero t (run, rest, e, (ds, octet), stop) =
    rw (e, split_digits-append run rest ds stop) octet
octets-true (suc k) t (run, rest, e, o, q) =
    subst (λ x. octets (suc k) x ≡ true) (sym e) (octets_dotted k run rest o (octets-true k rest q))

pub octets_iff : (k : ℕ) (t : List ℕ) → (octets k t ≡ true) ↔ IsQuad k t
octets_iff k t = (octets-IsQuad k t, octets-true k t)
