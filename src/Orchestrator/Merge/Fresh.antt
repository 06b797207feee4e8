-- ===== src/Orchestrator/Merge/Fresh.antt =====
-- The items that a merge adds, and what covers an item, of src/flowsec/runtime/orchestrator.py.
use flow_security_agent.Contracts.Evidence.{EvidenceItem, eq_item, fingerprint}
use flow_security_agent.Contracts.Host.{Host}
use flow_security_agent.Orchestrator.Merge.{find_id, has_fingerprint}
use mathlib.Core.List.{append-nil, append_assoc}
use mathlib.Core.Path.{subst}
use flow_security_agent.Prelude.Text.{str_eq_comm}
use flow_security_agent.Prelude.{
  String, true, false, ◌⊎◌, ◌↔◌, ◌∙◌, Any, Any-append_left, Any-append_right, Any-of_append, List,
  [], ◌∷◌, ◌++◌, ◌≡◌, none, some, inl, inr, map, arith, All, str_eq, Bool-cases, Option-cases,
}

-- An id is found among the items exactly if one of them has it.
abbrev pub Lacks : String → List EvidenceItem → Type 0
Lacks id = All (λ (e : EvidenceItem). str_eq e.evidence_id id ≡ false)

-- The ids are pairwise different.
abbrev pub HasDistinctIds : List EvidenceItem → Type 0
HasDistinctIds [] = Unit
HasDistinctIds (e ∷ es) = Lacks e.evidence_id es × HasDistinctIds es

pub Lacks-of_find_id : (id : String) (es : List EvidenceItem) → find_id id es ≡ none → Lacks id es
unfolding find_id
Lacks-of_find_id id [] h = tt
Lacks-of_find_id id (e ∷ es) h = elim (Option-cases (find_id id es)) [
  | inl p ↦ (ground arith, Lacks-of_find_id id es p)
  | inr (later, p) ↦ absurd (ground arith)
]

HasDistinctIds-snoc :
    (es : List EvidenceItem) (e : EvidenceItem)
    → HasDistinctIds es
    → Lacks e.evidence_id es
    → HasDistinctIds (es ++ e ∷ [])
HasDistinctIds-snoc [] e d l = (tt, tt)
HasDistinctIds-snoc (x ∷ es) e d l = (snoc_lacks es d.0, HasDistinctIds-snoc es e d.1 l.1)
  where
    snoc_lacks :
        (ys : List EvidenceItem) → Lacks x.evidence_id ys → Lacks x.evidence_id (ys ++ e ∷ [])
    snoc_lacks [] h = (str_eq_comm x.evidence_id e.evidence_id l.0, tt)
    snoc_lacks (y ∷ ys) h = (h.0, snoc_lacks ys h.1)

pub id-of_find_id :
    (id : String) (es : List EvidenceItem) (e : EvidenceItem)
    → find_id id es ≡ some e
    → str_eq e.evidence_id id ≡ true
unfolding find_id
id-of_find_id id [] e h = absurd (ground arith)
id-of_find_id id (x ∷ es) e h = elim (Option-cases (find_id id es)) [
  | inr (later, p) ↦ id-of_find_id id es e (ground arith)
  | inl p ↦ ground arith
]

-- The item that is found is one of them.
pub Any-of_find_id :
    (id : String) (es : List EvidenceItem) (e : EvidenceItem)
    → find_id id es ≡ some e
    → Any (λ x. x ≡ e) es
unfolding find_id
Any-of_find_id id [] e h = cc
Any-of_find_id id (x ∷ es) e h = elim (Option-cases (find_id id es)) [
  | inr (later, p) ↦ inr (Any-of_find_id id es e (p ∙ (cc (rw (p, find_id) at h))))
  | inl p ↦ elim (Bool-cases (str_eq x.evidence_id id)) [
    | inl own ↦ inl (cc (rw (p, own, find_id) at h))
    | inr other ↦ cc (rw (p, other, find_id) at h)
  ]
]

module _ ⦃h : Host⦄ where
  -- None of the items has this fingerprint.
  abbrev pub LacksPrint : String → List EvidenceItem → Type 0
  LacksPrint f = All (λ (e : EvidenceItem). str_eq (fingerprint e) f ≡ false)

  -- Items of which each has an id and a fingerprint that no item before it has.
  abbrev pub AreFresh : List EvidenceItem → List EvidenceItem → Type 0
  AreFresh known [] = Unit
  AreFresh known (item ∷ new) =
      Lacks item.evidence_id known
      × LacksPrint (fingerprint item) known
      × AreFresh (known ++ item ∷ []) new

  -- The items hold an equal one under the item's id, or one with its fingerprint.
  abbrev pub Covers : List EvidenceItem → EvidenceItem → Type 0
  Covers es item =
      Any
        (λ (e : EvidenceItem).
          ((str_eq e.evidence_id item.evidence_id ≡ true) × (eq_item e item ≡ true))
          ⊎ (str_eq (fingerprint e) (fingerprint item) ≡ true))
        es

  -- The fingerprints are those of the items.
  abbrev pub ArePrints : List EvidenceItem → List String → Type 0
  ArePrints known prints =
      (f : String)
      → (has_fingerprint f prints ≡ true)
        ↔ Any (λ (e : EvidenceItem). str_eq (fingerprint e) f ≡ true) known

  pub ArePrints-map : (known : List EvidenceItem) → ArePrints known (map fingerprint known)
  unfolding has_fingerprint
  ArePrints-map [] f = (λ h. cc, λ h. absurd h)
  ArePrints-map (e ∷ es) f =
      let rest = ArePrints-map es f in
      elim (Bool-cases (str_eq (fingerprint e) f)) [
        | inl own ↦ (λ h. inl own, λ h. ground arith)
        | inr other ↦ (
          λ h. inr (rest.0 (ground arith)),
          λ h. elim h [ inl here ↦ cc | inr there ↦ (let found = rest.1 there in ground arith) ],
        )
      ]

  pub ArePrints-snoc :
      (known : List EvidenceItem) (item : EvidenceItem) (prints : List String)
      → ArePrints known prints
      → ArePrints (known ++ item ∷ []) (fingerprint item ∷ prints)
  unfolding has_fingerprint
  ArePrints-snoc known item prints h f = elim (Bool-cases (str_eq (fingerprint item) f)) [
    | inl own ↦ (λ k. Any-append_right _ known (item ∷ []) (inl own), λ k. ground arith)
    | inr other ↦ (
      λ k. Any-append_left _ known (item ∷ []) ((h f).0 (ground arith)),
      λ k. elim (Any-of_append _ known (item ∷ []) k) [
        | inl before ↦ (let found = (h f).1 before in ground arith)
        | inr (inl here) ↦ cc
        | inr (inr there) ↦ absurd there
      ],
    )
  ]

  pub LacksPrint-of_prints :
      (f : String) (known : List EvidenceItem)
      → (Any (λ (e : EvidenceItem). str_eq (fingerprint e) f ≡ true) known → ⊥)
      → LacksPrint f known
  LacksPrint-of_prints f [] h = tt
  LacksPrint-of_prints f (e ∷ es) h = elim (Bool-cases (str_eq (fingerprint e) f)) [
    | inl own ↦ absurd (h (inl own))
    | inr other ↦ (other, LacksPrint-of_prints f es (λ k. h (inr k)))
  ]

  -- Fresh items keep the ids pairwise different.
  pub AreFresh-HasDistinctIds :
      (known new : List EvidenceItem)
      → AreFresh known new
      → HasDistinctIds known
      → HasDistinctIds (known ++ new)
  AreFresh-HasDistinctIds known [] h d = rw (append-nil known) d
  AreFresh-HasDistinctIds known (item ∷ new) h d =
      subst HasDistinctIds (append_assoc known (item ∷ []) new) (
        AreFresh-HasDistinctIds (known ++ item ∷ []) new h.2 (HasDistinctIds-snoc known item d h.0))
