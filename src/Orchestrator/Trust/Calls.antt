-- ===== src/Orchestrator/Trust/Calls.antt =====
-- What the validated calls hand to the run, and what a tool that is unavailable changes.
use flow_security_agent.Contracts.Enums.{
  AgentAction, Capability, Capability-discrete, action_capability,
}
use flow_security_agent.Contracts.Evidence.{CapabilityStatus, EvidenceItem, item_is_valid}
use flow_security_agent.Contracts.Experience.{ExperienceRecord, experience_is_valid}
use flow_security_agent.Contracts.State.{is_available}
use flow_security_agent.Orchestrator.Acquire.{switch_off}
use flow_security_agent.Orchestrator.Backends.{
  Output, raises, wrong_type, returns, Retrieved, foreign, experience,
}
use flow_security_agent.Orchestrator.Flow.{got, caught}
use flow_security_agent.Orchestrator.Run.{caught_records, verified_records}
use mathlib.Core.Path.{subst}
use flow_security_agent.Prelude.{
  map, same, ◌&&◌, ◌||◌, if_cases, String, Bool, true, false, not, ◌≡◌, refl, List, [], ◌∷◌, inl,
  inr, arith, any, all, keep_if, is_empty, All, Bool-cases, some, Option-cases,
}
use flow_security_agent.Orchestrator.Trust.State.{IsClean}

-- What a caught call yields has passed the validation.
pub caught-eq_got :
    {A : Type 0} (name : String) (valid : A → Bool) (out : Output A) (a : A)
    → caught name valid out ≡ got a
    → valid a ≡ true
unfolding caught
caught-eq_got name valid (raises n) a e = absurd (ground arith)
caught-eq_got name valid wrong_type a e = absurd (ground arith)
caught-eq_got name valid (returns x) a e = elim (Bool-cases (valid x)) [
  | inl ok ↦ ground arith
  | inr bad ↦ absurd (ground arith)
]

-- Items that are all safe, of a result that is valid, are clean.
pub all-IsClean :
    (es : List EvidenceItem)
    → any (λ (e : EvidenceItem). not e.model_safe) es ≡ false
    → all item_is_valid es ≡ true
    → All IsClean es
all-IsClean [] p q = tt
all-IsClean (e ∷ es) p q =
    ((ground arith, ground arith), all-IsClean es (ground arith) (ground arith))

-- No unsafe item was found, so every item is safe.
pub empty_keep_if-false :
    (es : List EvidenceItem)
    → is_empty (keep_if (λ (e : EvidenceItem). not e.model_safe) es) ≡ true
    → All (λ (e : EvidenceItem). e.model_safe ≡ true) es
empty_keep_if-false [] h = tt
empty_keep_if-false (e ∷ es) h = elim (Bool-cases e.model_safe) [
  | inl safe ↦ (safe, empty_keep_if-false es (rw safe at h))
  | inr unsafe ↦ absurd (ground arith)
]

-- The records that a memory has retrieved have verified feedback.
verified_records-verified :
    (found : List Retrieved) (es : List ExperienceRecord)
    → verified_records found ≡ some es
    → All (λ (e : ExperienceRecord). e.feedback.verified ≡ true) es
unfolding verified_records
verified_records-verified [] [] h = tt
verified_records-verified [] (x ∷ es) h = absurd (ground arith)
verified_records-verified (foreign ∷ found) es h = absurd (ground arith)
verified_records-verified (experience e ∷ found) es h =
    elim (Option-cases (verified_records found)) [
      | inl p ↦ absurd (ground arith)
      | inr (rest, p) ↦
          subst (All (λ (x : ExperienceRecord). x.feedback.verified ≡ true)) (the_list rest p)
            (ground arith, verified_records-verified found rest p)
    ]
  where
    the_list : (rest : List ExperienceRecord) → verified_records found ≡ some rest → e ∷ rest ≡ es
    the_list rest p = ground arith

pub caught_records-eq_got :
    (out : Output (List Retrieved)) (es : List ExperienceRecord)
    → caught_records out ≡ got es
    → All
        (λ (e : ExperienceRecord). (e.feedback.verified ≡ true) × (experience_is_valid e ≡ true))
        es
unfolding caught_records
caught_records-eq_got (raises n) es h = absurd (ground arith)
caught_records-eq_got wrong_type es h = absurd (ground arith)
caught_records-eq_got (returns found) es h = elim (Option-cases (verified_records found)) [
  | inl p ↦ absurd (ground arith)
  | inr (rest, p) ↦ elim (Bool-cases (all experience_is_valid rest)) [
    | inr bad ↦ absurd (ground arith)
    | inl good ↦
        subst
          (All (λ (e : ExperienceRecord).
            (e.feedback.verified ≡ true) × (experience_is_valid e ≡ true)))
          (ground (arith, h, p, good)) (both rest (verified_records-verified found rest p) good)
  ]
]
  where
    both :
        (xs : List ExperienceRecord)
        → All (λ (e : ExperienceRecord). e.feedback.verified ≡ true) xs
        → all experience_is_valid xs ≡ true
        → All
            (λ (e : ExperienceRecord).
              (e.feedback.verified ≡ true) × (experience_is_valid e ≡ true))
            xs
    both [] v k = tt
    both (x ∷ xs) v k = ((v.0, ground (arith, k)), both xs v.1 (ground (arith, k)))

abbrev counts : Capability → CapabilityStatus → Bool
counts c s = s.available && same Capability-discrete s.capability c

counts-switch_off :
    (a : AgentAction) (c : Capability) (s : CapabilityStatus)
    → counts c (switch_off a s) ≡ true
    → counts c s ≡ true
unfolding switch_off
counts-switch_off a c s = elim (Option-cases (action_capability a)) [
  | inl e ↦ rw (e, switch_off) (λ h. h)
  | inr (d, e) ↦
      rw (e, switch_off)
        (if_cases (λ x. counts c x ≡ true → counts c s ≡ true)
          (same Capability-discrete s.capability d) (λ own h. absurd (ne_true h)) (λ other h. h))
]
  where
    ne_true : false ≡ true → ⊥
    ne_true e = cc e

any_or :
    (x y x' y' : Bool)
    → (x ≡ true → x' ≡ true)
    → (y ≡ true → y' ≡ true)
    → (x || y) ≡ true
    → (x' || y') ≡ true
any_or true y x' y' f g h = rw (f refl) refl
any_or false y true y' f g h = refl
any_or false y false y' f g h = g h

-- Switching off makes no capability available.
pub is_available-switch_off :
    (a : AgentAction) (c : Capability) (caps : List CapabilityStatus)
    → is_available c (map (switch_off a) caps) ≡ true
    → is_available c caps ≡ true
unfolding is_available
is_available-switch_off a c [] = λ h. h
is_available-switch_off a c (s ∷ caps) =
    any_or _ _ _ _ (counts-switch_off a c s) (is_available-switch_off a c caps)
