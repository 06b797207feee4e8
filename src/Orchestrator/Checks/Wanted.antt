-- ===== src/Orchestrator/Checks/Wanted.antt =====
-- The gaps and the parameters that the checks of a decision accept, of
-- src/flowsec/runtime/orchestrator.py.
use flow_security_agent.Contracts.Enums.{
  AgentAction, AgentAction-discrete, GapType, GapType-discrete,
}
use flow_security_agent.Contracts.Evidence.{MissingEvidence}
use flow_security_agent.Contracts.Host.{Host}
use flow_security_agent.Contracts.Requests.{ToolRequest, signature}
use flow_security_agent.Contracts.Values.{Fields, Value}
use flow_security_agent.Contracts.Visible.Scan.{codes}
use flow_security_agent.Orchestrator.Backends.{Config}
use flow_security_agent.Orchestrator.Checks.{
  asks_future, contains_text, future_markers, get_normalized, is_falsy, is_true, lookup_signatures,
  matching_gaps, request_parameters_are_safe,
}
use mathlib.Core.Path.{subst}
use flow_security_agent.Prelude.{
  ℕ, String, Bool, true, false, not, ◌&&◌, ◌||◌, List, [], ◌∷◌, ◌≡◌, ◌↔◌, inl, inr, refl, Option,
  none, some, any, is_empty, arith, same, same→eq, same_self, All, Any, Bool-cases, Option-cases,
}

-- The gap is valuable and of the type.
abbrev pub IsWanted : GapType → MissingEvidence → Type 0
IsWanted g m = (m.valuable ≡ true) × (m.gap_type ≡ g)

abbrev is_wanted : GapType → MissingEvidence → Bool
is_wanted g m = m.valuable && same GapType-discrete m.gap_type g

is_wanted_iff : (g : GapType) (m : MissingEvidence) → (is_wanted g m ≡ true) ↔ IsWanted g m
is_wanted_iff g m = (
  λ h. (ground arith, same→eq GapType-discrete m.gap_type g (ground arith)),
  λ h.
      (let typed : same GapType-discrete m.gap_type g ≡ true =
          subst (λ t. same GapType-discrete m.gap_type t ≡ true) h.1
            (same_self GapType-discrete m.gap_type) in
        ground (arith, typed, h.0)),
)

pub matching_gaps-Any :
    (g : GapType) (ms : List MissingEvidence)
    → (is_empty (matching_gaps g ms) ≡ false) ↔ Any (IsWanted g) ms
unfolding matching_gaps
matching_gaps-Any g [] = (λ h. cc, λ h. absurd h)
matching_gaps-Any g (m ∷ ms) = elim (Bool-cases (is_wanted g m)) [
  | inl wanted ↦ rw (wanted, matching_gaps) (λ h. inl ((is_wanted_iff g m).0 wanted), λ h. refl)
  | inr other ↦
      let rest = matching_gaps-Any g ms in
      rw (other, matching_gaps)
        (
          λ h. inr (rest.0 h),
          λ h. elim h [
            | inl here ↦ cc ((is_wanted_iff g m).1 here, other)
            | inr there ↦ rest.1 there
          ],
        )
]

-- No wanted gap fails a test, if all of them have the property that it tests.
pub matching_gaps-All :
    (p : MissingEvidence → Bool) (P : MissingEvidence → Type 0)
    → ((m : MissingEvidence) → (p m ≡ true) ↔ P m)
    → (g : GapType) (ms : List MissingEvidence)
    → (any (λ (m : MissingEvidence). not (p m)) (matching_gaps g ms) ≡ false)
      ↔ All (λ (m : MissingEvidence). IsWanted g m → P m) ms
unfolding matching_gaps
matching_gaps-All p P p_iff g [] = (λ h. tt, λ h. refl)
matching_gaps-All p P p_iff g (m ∷ ms) =
    let rest = matching_gaps-All p P p_iff g ms in
    elim (Bool-cases (is_wanted g m)) [
      | inl wanted ↦
          rw (wanted, matching_gaps)
            (
              λ h. (λ w. (p_iff m).0 (ground arith), rest.0 (ground arith)),
              λ h.
                  (let here = (p_iff m).1 (h.0 ((is_wanted_iff g m).0 wanted)) in
                    ground (arith, here, rest.1 h.1)),
            )
      | inr other ↦
          rw (other, matching_gaps)
            (λ h. (λ w. cc ((is_wanted_iff g m).1 w, other), rest.0 h), λ h. rest.1 h.1)
    ]

-- A parameter that is missing or falsy.
abbrev pub IsHarmless : Option Value → Type 0
IsHarmless none = Unit
IsHarmless (some v) = is_falsy v ≡ true

asks_future_iff :
    (fs : Fields) (marker : List ℕ)
    → (asks_future fs marker ≡ false) ↔ IsHarmless (get_normalized marker fs)
unfolding asks_future
asks_future_iff fs marker = elim (Option-cases (get_normalized marker fs)) [
  | inl missing ↦ rw (missing, asks_future) (λ h. tt, λ h. refl)
  | inr (v, given) ↦ rw (given, asks_future) (λ h. ground arith, λ h. ground arith)
]

any-asks_future :
    (fs : Fields) (markers : List (List ℕ))
    → (any (asks_future fs) markers ≡ false)
      ↔ All (λ marker. IsHarmless (get_normalized marker fs)) markers
any-asks_future fs [] = (λ h. tt, λ h. refl)
any-asks_future fs (marker ∷ markers) =
    let here = asks_future_iff fs marker in
    let rest = any-asks_future fs markers in
    (
      λ h. (here.0 (ground arith), rest.0 (ground arith)),
      λ h. ground (arith, here.1 h.0, rest.1 h.1),
    )

-- The parameters that ask for what lies ahead.
abbrev pub ahead : List (List ℕ)
ahead =
    codes "future"
    ∷ codes "include_future"
    ∷ codes "lookahead"
    ∷ codes "future_window"
    ∷ codes "end_timestamp"
    ∷ codes "absolute_end_time"
    ∷ []

module _ ⦃h : Host⦄ (cfg : Config) (q : ToolRequest) where
  -- No parameter asks for what lies ahead; temporal context is asked for with `past_only`; and the
  -- request is among the allowed ones, where its action has a list of them.
  abbrev pub IsSafe : Type 0
  IsSafe =
      All (λ marker. IsHarmless (get_normalized marker q.parameters)) ahead
      × (q.action ≡ AgentAction.expand_temporal_context
          → get_normalized (codes "past_only") q.parameters ≡ some (Value.flag true))
      × ((sigs : List String)
          → lookup_signatures q.action cfg.allowed_request_signatures ≡ some sigs
          → contains_text (signature q) sigs ≡ true)

  is_true_iff : (o : Option Value) → (is_true o ≡ true) ↔ (o ≡ some (Value.flag true))
  unfolding is_true
  is_true_iff none = (λ h. cc, λ h. cc)
  is_true_iff (some (Value.flag true)) = (λ h. refl, λ h. refl)
  is_true_iff (some (Value.flag false)) = (λ h. cc, λ h. cc)
  is_true_iff (some Value.null) = (λ h. cc, λ h. cc)
  is_true_iff (some (Value.int n)) = (λ h. cc, λ h. cc)
  is_true_iff (some (Value.real x)) = (λ h. cc, λ h. cc)
  is_true_iff (some (Value.text s)) = (λ h. cc, λ h. cc)
  is_true_iff (some (Value.list vs)) = (λ h. cc, λ h. cc)
  is_true_iff (some (Value.dict fs)) = (λ h. cc, λ h. cc)

  abbrev is_allowed : Option (List String) → Bool
  is_allowed none = true
  is_allowed (some sigs) = contains_text (signature q) sigs

  abbrev Allows : Option (List String) → Type 0
  Allows o = (sigs : List String) → o ≡ some sigs → contains_text (signature q) sigs ≡ true

  is_allowed_iff : (o : Option (List String)) → (is_allowed o ≡ true) ↔ Allows o
  is_allowed_iff none = (λ h sigs e. cc, λ h. refl)
  is_allowed_iff (some sigs) = (
    λ h sigs' e.
        (let one : sigs ≡ sigs' = cc in subst (λ s. contains_text (signature q) s ≡ true) one h),
    λ h. h sigs refl,
  )

  pub request_parameters_are_safe_iff : (request_parameters_are_safe cfg q ≡ true) ↔ IsSafe
  unfolding request_parameters_are_safe future_markers
  request_parameters_are_safe_iff =
      let markers = any-asks_future q.parameters ahead in
      let past = is_true_iff (get_normalized (codes "past_only") q.parameters) in
      let listed = is_allowed_iff (lookup_signatures q.action cfg.allowed_request_signatures) in
      let action = same AgentAction-discrete q.action AgentAction.expand_temporal_context in
      let parts =
        split (any (asks_future q.parameters) ahead) action
          (is_true (get_normalized (codes "past_only") q.parameters))
          (is_allowed (lookup_signatures q.action cfg.allowed_request_signatures)) in
      (
        λ h.
            (let (none_ahead, backward, in_list) = parts.0 h in
              (markers.0 none_ahead, λ e. past.0 (backward (of_eq e)), listed.0 in_list)),
        λ h. parts.1 (
          markers.1 h.0,
          λ e. past.1 (h.1 (same→eq AgentAction-discrete q.action _ e)),
          listed.1 h.2,
        ),
      )
    where
      of_eq :
          q.action ≡ AgentAction.expand_temporal_context
          → same AgentAction-discrete q.action AgentAction.expand_temporal_context ≡ true
      of_eq e =
          subst (λ a. same AgentAction-discrete q.action a ≡ true) e
            (same_self AgentAction-discrete q.action)

      split :
          (a b c d : Bool)
          → ((not a && (not b || c) && d) ≡ true)
            ↔ ((a ≡ false) × (b ≡ true → c ≡ true) × (d ≡ true))
      split a b c d = ground arith
