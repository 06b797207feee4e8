-- ===== src/Orchestrator/Merge/Laws.antt =====
-- What `_merge_evidence` adds, and when it refuses.
use flow_security_agent.Contracts.Enums.{FailureCode}
use flow_security_agent.Contracts.Evidence.{EvidenceItem, eq_item, fingerprint}
use flow_security_agent.Contracts.Host.{Host}
use flow_security_agent.Orchestrator.Merge.{additions, find_id, has_fingerprint, merge_evidence}
use mathlib.Core.List.{append-nil, append_assoc}
use mathlib.Core.Path.{subst}
use flow_security_agent.Prelude.{
  String, true, false, ◌⊎◌, sym, eq_refl, All-append, All-Any, Any, Any-append_left,
  Any-append_right, Any-map, List, [], ◌∷◌, ◌++◌, ◌≡◌, ◌≢◌, refl, Option, none, some, inl, inr, map,
  All, str_eq, Bool-cases, Option-cases,
}
use flow_security_agent.Orchestrator.Merge.Fresh.{
  HasDistinctIds, Lacks, id-of_find_id, Any-of_find_id, Lacks-of_find_id, LacksPrint, AreFresh,
  Covers, ArePrints, ArePrints-map, ArePrints-snoc, LacksPrint-of_prints, AreFresh-HasDistinctIds,
}

module _ ⦃h : Host⦄ where
  module _ (R K : EvidenceItem → Type 0) (R→K : (e : EvidenceItem) → R e → K e) where
    -- Two items of one id that differ: one that comes in, and one that was there or came in before.
    abbrev pub Conflict : Type 0
    Conflict =
        (item : EvidenceItem) × (old : EvidenceItem) × R item
        × K old
        × (str_eq old.evidence_id item.evidence_id ≡ true)
        × (eq_item old item ≡ false)

    -- What the loop comes to over the incoming items.
    abbrev Result : List EvidenceItem → List EvidenceItem → Option (List EvidenceItem) → Type 0
    Result known incoming none = Conflict
    Result known incoming (some new) =
        All R new × AreFresh known new × All (Covers (known ++ new)) incoming

    Result-passed :
        (known rest : List EvidenceItem) (item : EvidenceItem) (o : Option (List EvidenceItem))
        → Covers known item
        → Result known rest o
        → Result known (item ∷ rest) o
    Result-passed known rest item none covered r = r
    Result-passed known rest item (some new) covered (rs, fresh, covers) =
        (rs, fresh, (Any-append_left _ known new covered, covers))

    Result-added :
        (known rest : List EvidenceItem) (item : EvidenceItem) (o : Option (List EvidenceItem))
        → R item
        → Lacks item.evidence_id known
        → LacksPrint (fingerprint item) known
        → Result (known ++ item ∷ []) rest o
        → Result known (item ∷ rest) (elim o [ none ↦ none | some new ↦ some (item ∷ new) ])
    Result-added known rest item none ri id print r = r
    Result-added known rest item (some new) ri id print (rs, fresh, covers) = (
      (ri, rs),
      (id, print, fresh),
      (
        Any-append_right _ known (item ∷ new) (inl (inr (eq_refl (fingerprint item)))),
        subst (λ es. All (Covers es) rest) (append_assoc known (item ∷ []) new) covers,
      ),
    )

    additions-Result :
        (known : List EvidenceItem) (prints : List String) (incoming : List EvidenceItem)
        → All K known
        → All R incoming
        → ArePrints known prints
        → Result known incoming (additions known prints incoming)
    unfolding additions
    additions-Result known prints [] ks rs are = (tt, tt, tt)
    additions-Result known prints (item ∷ rest) ks rs are =
        elim (Option-cases (find_id item.evidence_id known)) [
          | inr (old, e) ↦
              let found = Any-of_find_id item.evidence_id known old e in
              let own = id-of_find_id item.evidence_id known old e in
              elim (Bool-cases (eq_item old item)) [
                | inl equal ↦
                    rw (e, equal, additions)
                      (Result-passed known rest item _
                        (Any-map _ _
                          (λ x p. inl (
                            subst (λ y. str_eq y.evidence_id item.evidence_id ≡ true) (sym p) own,
                            subst (λ y. eq_item y item ≡ true) (sym p) equal,
                          ))
                          known found)
                        (additions-Result known prints rest ks rs.1 are))
                | inr differs ↦
                    rw (e, differs, additions)
                      (item, old, rs.0, All-Any K old known ks found, own, differs)
              ]
          | inl e ↦ elim (Bool-cases (has_fingerprint (fingerprint item) prints)) [
            | inl repeated ↦
                rw (e, repeated, additions)
                  (Result-passed known rest item _
                    (Any-map _ _ (λ x p. inr p) known ((are (fingerprint item)).0 repeated))
                    (additions-Result known prints rest ks rs.1 are))
            | inr fresh ↦
                rw (e, fresh, additions)
                  (Result-added known rest item _ rs.0 (Lacks-of_find_id item.evidence_id known e)
                    (LacksPrint-of_prints (fingerprint item) known
                      (λ k. cc ((are (fingerprint item)).1 k, fresh)))
                    (additions-Result (known ++ item ∷ []) (fingerprint item ∷ prints) rest
                      (All-append K known (item ∷ []) ks (R→K item rs.0, tt)) rs.1
                      (ArePrints-snoc known item prints are)))
          ]
        ]

  module _ (R : EvidenceItem → Type 0) (current incoming : List EvidenceItem) where
    -- An item that was there, or came in.
    abbrev pub IsKnown : EvidenceItem → Type 0
    IsKnown e = Any (λ c. c ≡ e) current ⊎ R e

    -- What a merge comes to. It puts new items behind the current ones, which are incoming ones, not
    -- none, each with an id and a fingerprint of its own, so that every incoming item is covered; or it
    -- changes nothing, because two items of one id differ, or because every incoming item is covered.
    abbrev pub Merges : List EvidenceItem × Option FailureCode → Type 0
    Merges (merged, none) =
        (new : List EvidenceItem) × (merged ≡ current ++ new)
        × (new ≢ [])
        × All R new
        × (HasDistinctIds current → HasDistinctIds merged)
        × AreFresh current new
        × All (Covers merged) incoming
    Merges (merged, some FailureCode.unsafe_evidence) =
        (merged ≡ current) × Conflict R IsKnown (λ e r. inr r)
    Merges (merged, some FailureCode.no_state_change) =
        (merged ≡ current) × All (Covers current) incoming
    Merges (merged, some _) = ⊥

    -- A merge appends incoming items, at least one, each with an id and a fingerprint that no item
    -- before it has, and afterwards each incoming item is covered, by an equal item under its id or by
    -- one with its fingerprint; ids that are pairwise different stay so. Or it leaves the evidence as it
    -- is, for a conflict of an incoming item with one that was there or came in, which has its id and
    -- differs, or because each incoming item is covered already.
    pub merge_evidence-Merges : All R incoming → Merges (merge_evidence current incoming)
    unfolding merge_evidence
    merge_evidence-Merges rs = go (additions current (map fingerprint current) incoming) refl (
        additions-Result R IsKnown (λ e r. inr r) current (map fingerprint current) incoming
          (known current (λ e m. m)) rs (ArePrints-map current))
      where
        known :
            (es : List EvidenceItem)
            → ((e : EvidenceItem) → Any (λ c. c ≡ e) es → Any (λ c. c ≡ e) current)
            → All IsKnown es
        known [] within = tt
        known (e ∷ es) within = (inl (within e (inl refl)), known es (λ x m. within x (inr m)))

        go :
            (o : Option (List EvidenceItem))
            → additions current (map fingerprint current) incoming ≡ o
            → Result R IsKnown (λ e r. inr r) current incoming o
            → Merges (merge_evidence current incoming)
        go none e r = rw (e, merge_evidence) (refl, r)
        go (some []) e (tt_new, fresh, covers) =
            rw (e, merge_evidence)
              (refl, subst (λ es. All (Covers es) incoming) (append-nil current) covers)
        go (some (item ∷ new)) e (rn, fresh, covers) =
            rw (e, merge_evidence)
              (
                item ∷ new,
                refl,
                λ p. cc,
                rn,
                AreFresh-HasDistinctIds current (item ∷ new) fresh,
                fresh,
                covers,
              )
