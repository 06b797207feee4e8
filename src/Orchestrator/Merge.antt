-- ===== src/Orchestrator/Merge.antt =====
-- `RuntimeOrchestrator._merge_evidence`.
pub mod Fresh
pub mod Laws
use flow_security_agent.Contracts.Enums.{FailureCode}
use flow_security_agent.Contracts.Evidence.{EvidenceItem, eq_item, fingerprint}
use flow_security_agent.Contracts.Host.{Host}
use flow_security_agent.Prelude.{
  String, Bool, List, [], ◌∷◌, ◌++◌, Option, none, some, map, str_eq, any, if◌then◌else◌,
}

-- `by_id.get(id)`: a dict built from a list keeps the last item of an id.
unfoldable pub find_id : String → List EvidenceItem → Option EvidenceItem
find_id id [] = none
find_id id (e ∷ es) = elim (find_id id es) [
  | some later ↦ some later
  | none ↦ if str_eq e.evidence_id id then some e else none
]

unfoldable pub has_fingerprint : String → List String → Bool
has_fingerprint f fs = any (λ g. str_eq g f) fs

module _ ⦃h : Host⦄ where
  -- The loop over `incoming`; `known` holds the values of `by_id`, and `none` is the return of
  -- `UNSAFE_EVIDENCE`.
  unfoldable pub additions :
      List EvidenceItem → List String → List EvidenceItem → Option (List EvidenceItem)
  additions known prints [] = some []
  additions known prints (item ∷ rest) = elim (find_id item.evidence_id known) [
    | some existing ↦ if eq_item existing item then additions known prints rest else none
    | none ↦
        let skipped = additions known prints rest in
        let added = additions (known ++ item ∷ []) (fingerprint item ∷ prints) rest in
        if has_fingerprint (fingerprint item) prints
        then skipped
        else elim added [ none ↦ none | some new ↦ some (item ∷ new) ]
  ]

  unfoldable pub merge_evidence :
      List EvidenceItem → List EvidenceItem → List EvidenceItem × Option FailureCode
  merge_evidence current incoming = elim (additions current (map fingerprint current) incoming) [
    | none ↦ (current, some FailureCode.unsafe_evidence)
    | some [] ↦ (current, some FailureCode.no_state_change)
    | some (item ∷ new) ↦ (current ++ item ∷ new, none)
  ]
