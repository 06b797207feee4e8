-- ===== src/Orchestrator/Trust/State.antt =====
-- The changes that the run makes to a trusted state.
use flow_security_agent.Contracts.Enums.{AgentAction, Capability, FailureCode}
use flow_security_agent.Contracts.Evidence.{
  CapabilityStatus, EvidenceItem, TrafficExpertResult, UnknownDecision, item_is_valid,
}
use flow_security_agent.Contracts.State.{EvidenceState, RuntimeInput, is_available}
use flow_security_agent.Orchestrator.Backends.{Config}
use flow_security_agent.Orchestrator.Checks.{contains_text}
use flow_security_agent.Orchestrator.Trust.{IsTrusted, IsUnique, IsUsable}
use mathlib.Core.List.{append_assoc}
use flow_security_agent.Prelude.Text.{str_eq_comm}
use flow_security_agent.Prelude.{
  suc, String, true, false, ◌≡◌, ◌∙◌, refl, ap, List, [], ◌∷◌, ◌++◌, arith, length-snoc, All,
  All-append,
}

IsUnique-snoc :
    (ss : List String) (t : String)
    → contains_text t ss ≡ false
    → IsUnique ss
    → IsUnique (ss ++ t ∷ [])
unfolding contains_text
IsUnique-snoc [] t h u = (refl, tt)
IsUnique-snoc (s ∷ ss) t h u = (lacks ss u.0, IsUnique-snoc ss t (ground arith) u.1)
  where
    lacks : (xs : List String) → contains_text s xs ≡ false → contains_text s (xs ++ t ∷ []) ≡ false
    lacks [] p = ground (arith, str_eq_comm s t (ground arith))
    lacks (x ∷ xs) p = ground (arith, lacks xs (ground arith))

-- A safe item that passes the validation.
abbrev pub IsClean : EvidenceItem → Type 0
IsClean e = (e.model_safe ≡ true) × (item_is_valid e ≡ true)

module _ (cfg : Config) (input : RuntimeInput) (s : EvidenceState) (t : IsTrusted cfg input s) where
  pub marked-IsTrusted :
      (caps : List CapabilityStatus) (fs : List FailureCode)
      → ((c : Capability) → is_available c caps ≡ true → is_available c s.capabilities ≡ true)
      → IsTrusted cfg input (record s { capabilities = caps; tool_failures = fs })
  marked-IsTrusted caps fs fewer = record {
    named = t.named;
    added = t.added;
    grown = t.grown;
    safe = t.safe;
    valid = t.valid;
    experienced = t.experienced;
    once = t.once;
    paired = t.paired;
    used = t.used;
    offered = λ c on. t.offered c (fewer c on);
    older = t.older;
    latest = t.latest;
  }

  pub called-IsTrusted :
      (sig : String) (action : AgentAction)
      → contains_text sig s.request_history ≡ false
      → IsUsable cfg input action
      → IsTrusted cfg input (record s {
        request_history = s.request_history ++ sig ∷ [];
        action_history = s.action_history ++ action ∷ [];
      })
  called-IsTrusted sig action new usable = record {
    named = t.named;
    added = t.added;
    grown = t.grown;
    safe = t.safe;
    valid = t.valid;
    experienced = t.experienced;
    once = IsUnique-snoc s.request_history sig new t.once;
    paired =
        omega
          (arith, length-snoc s.request_history sig, length-snoc s.action_history action, t.paired);
    used = All-append (IsUsable cfg input) s.action_history _ t.used (usable, tt);
    offered = t.offered;
    older = t.older;
    latest = t.latest;
  }

  -- Clean items are added, and the round is counted before it is evaluated.
  pub grown-IsTrusted :
      (merged new : List EvidenceItem)
      → merged ≡ s.evidence ++ new
      → All IsClean new
      → IsTrusted cfg input (record s { evidence = merged; round_index = suc s.round_index })
  grown-IsTrusted merged new e clean = record {
    named = t.named;
    added = t.added ++ new;
    grown = e ∙ ap (λ es. es ++ new) t.grown ∙ append_assoc input.initial_evidence t.added new;
    safe = rw e (All-append _ s.evidence new t.safe (all_safe new clean));
    valid = rw e (All-append _ s.evidence new t.valid (all_valid new clean));
    experienced = t.experienced;
    once = t.once;
    paired = t.paired;
    used = t.used;
    offered = t.offered;
    older = t.older;
    latest = t.latest;
  }
    where
      all_safe :
          (xs : List EvidenceItem)
          → All IsClean xs
          → All (λ (x : EvidenceItem). x.model_safe ≡ true) xs
      all_safe [] h = tt
      all_safe (x ∷ xs) h = (h.0.0, all_safe xs h.1)

      all_valid :
          (xs : List EvidenceItem)
          → All IsClean xs
          → All (λ (x : EvidenceItem). item_is_valid x ≡ true) xs
      all_valid [] h = tt
      all_valid (x ∷ xs) h = (h.0.1, all_valid xs h.1)

  pub evaluated-IsTrusted :
      (result : TrafficExpertResult) (u : UnknownDecision)
      → IsTrusted cfg input (record s {
        traffic_expert_result = result;
        traffic_expert_history = s.traffic_expert_history ++ result ∷ [];
        unknown_decision = u;
      })
  evaluated-IsTrusted result u = record {
    named = t.named;
    added = t.added;
    grown = t.grown;
    safe = t.safe;
    valid = t.valid;
    experienced = t.experienced;
    once = t.once;
    paired = t.paired;
    used = t.used;
    offered = t.offered;
    older = s.traffic_expert_history;
    latest = refl;
  }
