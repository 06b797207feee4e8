-- ===== src/Backends/Scripts.antt =====
-- How the scripted backends answer.
use flow_security_agent.Backends.{Mock, mock_call, tool_classes}
use flow_security_agent.Contracts.Enums.{
  AgentAction, Capability, action_capability, is_evidence_action,
}
use flow_security_agent.Contracts.Evidence.{CallMetrics}
use flow_security_agent.Orchestrator.Backends.{Output, raises}
use mathlib.Core.List.{append-nil, append_assoc}
use flow_security_agent.Prelude.{◌≡◌, ◌∙◌, sym, refl, ap, true, List, [], ◌∷◌, ◌++◌, some, All}

module _ {A B : Type 0} where
  -- A mock is called with one input after the other.
  abbrev pub play : Mock A B → List A → List (Output B) × Mock A B
  play m [] = ([], m)
  play m (a ∷ inputs) =
      let (out, m₁) = mock_call m a in let (outs, m₂) = play m₁ inputs in (out ∷ outs, m₂)

  -- The script's responses, one for each input, and an exception where there is none left.
  abbrev pub answers : List (Output B) → List A → List (Output B)
  answers script [] = []
  answers [] (a ∷ inputs) = raises "RuntimeError" ∷ answers [] inputs
  answers (out ∷ script) (a ∷ inputs) = out ∷ answers script inputs

  play-answers_from :
      (script : List (Output B)) (calls : List A) (est : CallMetrics) (inputs : List A)
      → let m : Mock A B = record { responses = script; calls = calls; estimate_metrics = est } in
        ((play m inputs).0 ≡ answers script inputs)
        × ((play m inputs).1.calls ≡ calls ++ inputs)
        × ((play m inputs).1.estimate_metrics ≡ est)
  unfolding mock_call
  play-answers_from script calls est [] = (refl, sym (append-nil calls), refl)
  play-answers_from [] calls est (a ∷ inputs) =
      let (outs, seen, kept) = play-answers_from [] (calls ++ a ∷ []) est inputs in
      (ap (λ xs. raises "RuntimeError" ∷ xs) outs, seen ∙ append_assoc calls (a ∷ []) inputs, kept)
  play-answers_from (out ∷ script) calls est (a ∷ inputs) =
      let (outs, seen, kept) = play-answers_from script (calls ++ a ∷ []) est inputs in
      (ap (λ xs. out ∷ xs) outs, seen ∙ append_assoc calls (a ∷ []) inputs, kept)

  -- A mock answers its calls by its script in order, by `RuntimeError` after that, and records every
  -- input in order.
  pub play-answers :
      (m : Mock A B) (inputs : List A)
      → ((play m inputs).0 ≡ answers m.responses inputs)
        × ((play m inputs).1.calls ≡ m.calls ++ inputs)
        × ((play m inputs).1.estimate_metrics ≡ m.estimate_metrics)
  play-answers m inputs = play-answers_from m.responses m.calls m.estimate_metrics inputs

-- Each class of tools has an evidence action, and the capability that the orchestrator asks for.
pub tool_classes-capability :
    All
      (λ (c : AgentAction × Capability).
        (is_evidence_action c.0 ≡ true) × (action_capability c.0 ≡ some c.1))
      tool_classes
unfolding tool_classes
tool_classes-capability =
    ((refl, refl), ((refl, refl), ((refl, refl), ((refl, refl), ((refl, refl), tt)))))
