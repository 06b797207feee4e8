-- ===== src/Orchestrator/Sound/Start.antt =====
-- What `run` does before its loop, over sound variables.
use flow_security_agent.Budget.{fresh}
use flow_security_agent.Budget.Bounds.{fresh-IsWithin}
use flow_security_agent.Contracts.Evidence.{EvidenceItem, item_is_valid, status_is_valid}
use flow_security_agent.Contracts.Experience.{ExperienceRecord}
use flow_security_agent.Contracts.Host.{Host}
use flow_security_agent.Contracts.State.{RuntimeInput}
use flow_security_agent.Orchestrator.Backends.{Backends, Config}
use flow_security_agent.Orchestrator.Context.{Context}
use flow_security_agent.Orchestrator.Evaluate.{evaluate}
use flow_security_agent.Orchestrator.Run.{
  caught_records, retrieve_experiences, start, start_evaluated, with_memory,
}
use flow_security_agent.Orchestrator.Sound.{IsSound, emit-IsSound, env-IsSound, fail-IsSound}
use flow_security_agent.Orchestrator.Sound.Acquire.{Evaluation-cases}
use flow_security_agent.Orchestrator.Sound.Evaluate.{Caught-cases, evaluate_sound}
use flow_security_agent.Orchestrator.Sound.Finish.{LandsSound, finish_without_state_sound}
use flow_security_agent.Prelude.Floats.{Rounding}
use flow_security_agent.Prelude.{
  refl, not, ◌&&◌, List, [], inl, inr, arith, Bool-cases, if_both, all, is_empty, keep_if,
}

module _ ⦃r : Rounding⦄ ⦃h : Host⦄ (cfg : Config) {E : Type 0} (b : Backends E)
    (input : RuntimeInput) where
  start_evaluated_sound :
      (es : List ExperienceRecord) (c : Context E)
      → IsSound cfg 0 0 c
      → LandsSound cfg b input 0 (start_evaluated b cfg input es c)
  unfolding start_evaluated
  start_evaluated_sound es c s =
      let ev = evaluate_sound cfg 0 0 b input.initial_evidence 0 c s in
      elim (Evaluation-cases (evaluate b input.initial_evidence 0 c)) [
        | inl e ↦ absurd (rw e at ev)
        | inr (inl (c₁, e)) ↦
            rw (e, start_evaluated)
              (finish_without_state_sound cfg b input 0 0 (omega arith) _ c₁ (rw e at ev))
        | inr (inr (result, unknown, c₁, e)) ↦
            rw (e, start_evaluated)
              (record {
                context = rw e at ev;
                rounds_capped = omega arith;
                retries_capped = omega arith;
              })
      ]

  retrieve_experiences-IsSound :
      (c : Context E) → IsSound cfg 0 0 c → IsSound cfg 0 0 (retrieve_experiences b cfg input c).1
  unfolding retrieve_experiences
  retrieve_experiences-IsSound c s =
      let (out, env) = b.memory_retrieve input.memory_query cfg.memory_retrieval_limit c.env in
      let s₁ = env-IsSound cfg 0 0 env c s in
      elim (Caught-cases (caught_records out)) [
        | inl (name, e) ↦ rw (e, retrieve_experiences) (fail-IsSound cfg 0 0 _ 0 _ _ s₁)
        | inr (es, e) ↦ rw (e, retrieve_experiences) (emit-IsSound cfg 0 0 _ 0 _ _ (λ p. cc) s₁)
      ]

  with_memory_sound :
      (c : Context E) → IsSound cfg 0 0 c → LandsSound cfg b input 0 (with_memory b cfg input c)
  unfolding with_memory
  with_memory_sound c s =
      if_both (LandsSound cfg b input 0) cfg.has_memory
        (start_evaluated_sound _ _ (retrieve_experiences-IsSound c s))
        (start_evaluated_sound [] c s)

  pub start_sound : (env : E) → LandsSound cfg b input 0 (start b cfg input env)
  unfolding start fresh
  start_sound env =
      let c : Context E = record {
        budget = fresh cfg.budget_limits;
        step = 0;
        trace = [];
        failures = [];
        env = env;
      } in
      let s : IsSound cfg 0 0 c = record {
        within = fresh-IsWithin cfg.budget_limits;
        limits = refl;
        calls = refl;
        rounds = refl;
        numbered = tt;
        counted = refl;
        unclosed = tt;
      } in
      elim (Bool-cases
        (all item_is_valid input.initial_evidence && all status_is_valid input.capabilities)) [
          | inr bad ↦
              rw (bad, start)
                (finish_without_state_sound cfg b input 0 0 (omega arith) _ _
                  (fail-IsSound cfg 0 0 _ 0 _ c s))
          | inl valid ↦
              elim (Bool-cases (
                is_empty
                  (keep_if (λ (e : EvidenceItem). not e.model_safe) input.initial_evidence))) [
                    | inr unsafe ↦
                        rw (valid, unsafe, start)
                          (finish_without_state_sound cfg b input 0 0 (omega arith) _ _
                            (fail-IsSound cfg 0 0 _ 0 _ c s))
                    | inl safe ↦ rw (valid, safe, start) (with_memory_sound c s)
                  ]
        ]
