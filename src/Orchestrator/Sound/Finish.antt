-- ===== src/Orchestrator/Sound/Finish.antt =====
-- The ways in which `run` returns, and a rejection, over sound variables.
use flow_security_agent.Contracts.Enums.{AgentAction, FailureCode, TraceEventType}
use flow_security_agent.Contracts.Experience.{ExperienceRecord, experience_is_valid}
use flow_security_agent.Contracts.State.{EvidenceState, FinalDecision, RuntimeInput}
use flow_security_agent.Orchestrator.Backends.{Backends, Config}
use flow_security_agent.Orchestrator.Context.{Context, Details, emit}
use flow_security_agent.Orchestrator.Finish.{
  experience_of, final_decision, finish, finish_without_state, halt, reject, result_of, safety_stop,
  store, writable_feedback, write_experience,
}
use flow_security_agent.Orchestrator.Flow.{LoopState, Step, next, done, raised, caught}
use flow_security_agent.Orchestrator.Sound.{
  IsNumbered-snoc, IsRefused, IsSound, IsSoundLoop, IsSoundResult, emit-IsSound, env-IsSound,
  fail-IsSound,
}
use flow_security_agent.Orchestrator.Sound.Evaluate.{Caught-cases}
use flow_security_agent.Prelude.Floats.{Rounding}
use flow_security_agent.Prelude.{
  ℕ, suc, ◌≤◌, ◌≡◌, ◌≢◌, refl, true, false, Bool, String, Option, inl, inr, some, none, arith,
  Bool-cases, Option-cases, length, ltb,
}

module _ ⦃r : Rounding⦄ (cfg : Config) {E : Type 0} (b : Backends E) (input : RuntimeInput)
    (n : ℕ) where
  abbrev pub LandsSound : Step E → Type 0
  LandsSound (next l) = IsSoundLoop cfg n l
  LandsSound (done res env) = IsSoundResult cfg res
  LandsSound raised = IsRefused cfg input

  module _ (k : ℕ) (capped : k ≤ cfg.budget_limits.max_rounds) where
    write_experience-IsSound :
        (e : ExperienceRecord) (round : ℕ) (c : Context E)
        → IsSound cfg n k c
        → IsSound cfg n k (write_experience b cfg input e round c).1
    unfolding write_experience
    write_experience-IsSound e round c s =
        let (out, env) = b.memory_add e c.env in
        let s₁ = env-IsSound cfg n k env c s in
        elim (Caught-cases (caught "TypeError" (λ _. true) out)) [
          | inl (name, p) ↦ rw (p, write_experience) (fail-IsSound cfg n k _ round _ _ s₁)
          | inr (u, p) ↦ rw (p, write_experience) (emit-IsSound cfg n k _ round _ _ (λ q. cc) s₁)
        ]

    -- What `store` comes to.
    abbrev Stores : Option (Bool × Context E) → Type 0
    Stores none = IsRefused cfg input
    Stores (some (written, c)) = IsSound cfg n k c

    store_sound :
        (st : EvidenceState) (final : FinalDecision) (c : Context E)
        → IsSound cfg n k c
        → Stores (store b cfg input st final c)
    unfolding store
    store_sound st final c s = elim (Option-cases (writable_feedback cfg input)) [
      | inl p ↦ rw (p, store) s
      | inr (feedback, p) ↦
          let e = experience_of input st final feedback (length c.trace) in
          elim (Bool-cases (experience_is_valid e)) [
            | inl ok ↦ rw (p, ok, store) (write_experience-IsSound e st.round_index c s)
            | inr bad ↦ rw (p, bad, store) (feedback, p, st, final, length c.trace, bad)
          ]
    ]

    emit_final-IsSoundResult :
        (d : Details) (round : ℕ) (final : FinalDecision) (st : Option EvidenceState)
        (written : Bool) (c : Context E)
        → IsSound cfg n k c
        → LandsSound (result_of b cfg input final st written (emit TraceEventType.final round d c))
    unfolding result_of emit
    emit_final-IsSoundResult d round final st written c s = record {
      within = s.within;
      limits = s.limits;
      rounds_capped = omega arith;
      numbered = IsNumbered-snoc 0 c.step c.trace _ s.numbered s.counted (omega arith);
      closed = record {
        body = c.trace;
        last = _;
        parts = refl;
        body_open = s.unclosed;
        last_final = refl;
      };
    }

    pub finish_sound :
        (requested : AgentAction) (reason : String) (st : EvidenceState) (c : Context E)
        → IsSound cfg n k c
        → LandsSound (finish b cfg input requested reason st c)
    unfolding finish
    finish_sound requested reason st c s =
        let final = final_decision requested reason st in
        go (store b cfg input st final c) refl (store_sound st final c s)
      where
        go :
            (o : Option (Bool × Context E))
            → store b cfg input st (final_decision requested reason st) c ≡ o
            → Stores o
            → LandsSound (finish b cfg input requested reason st c)
        go none e q = rw (e, finish) q
        go (some (written, c₁)) e q = rw (e, finish) (emit_final-IsSoundResult _ _ _ _ written c₁ q)

    pub finish_without_state_sound :
        (reason : String) (c : Context E)
        → IsSound cfg n k c
        → LandsSound (finish_without_state b cfg input reason c)
    unfolding finish_without_state
    finish_without_state_sound reason c s = emit_final-IsSoundResult _ _ _ none false c s

  module _ (l : LoopState E) (capped : l.state.round_index ≤ cfg.budget_limits.max_rounds) where
    pub safety_stop_sound :
        IsSound cfg n l.state.round_index l.context → LandsSound (safety_stop b cfg input l)
    unfolding safety_stop
    safety_stop_sound s =
        finish_sound l.state.round_index capped AgentAction.abstain "runtime safety stop" l.state
          l.context s

    pub halt_sound :
        (code : FailureCode) (d : Details)
        → IsSound cfg n l.state.round_index l.context
        → LandsSound (halt b cfg input code d l)
    unfolding halt safety_stop
    halt_sound code d s =
        finish_sound l.state.round_index capped AgentAction.abstain "runtime safety stop" l.state _
          (fail-IsSound cfg n _ code _ d l.context s)

    pub reject_sound :
        (code : FailureCode) (d : Details)
        → IsSound cfg n l.state.round_index l.context
        → LandsSound (reject b cfg input code d l)
    unfolding reject safety_stop
    reject_sound code d s =
        let s₁ = fail-IsSound cfg n l.state.round_index code l.state.round_index d l.context s in
        elim (Bool-cases (ltb cfg.max_invalid_retries (suc l.rejections))) [
          | inl many ↦
              rw (many, reject)
                (finish_sound l.state.round_index capped AgentAction.abstain "runtime safety stop"
                  l.state _ s₁)
          | inr few ↦
              rw (few, reject)
                (record { context = s₁; rounds_capped = capped; retries_capped = ground arith })
        ]

    -- A rejection after which the loop goes on is counted.
    pub rejections-reject :
        (code : FailureCode) (d : Details) (l' : LoopState E)
        → reject b cfg input code d l ≡ next l'
        → l'.rejections ≡ suc l.rejections
    unfolding reject safety_stop finish result_of
    rejections-reject code d l' e = ground arith

  pub halt_ne-next :
      (code : FailureCode) (d : Details) (l l' : LoopState E) → halt b cfg input code d l ≢ next l'
  unfolding halt safety_stop finish result_of
  halt_ne-next code d l l' e = ground arith
