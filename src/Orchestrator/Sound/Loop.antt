-- ===== src/Orchestrator/Sound/Loop.antt =====
-- The loop of `run` over sound variables, and its fuel.
use flow_security_agent.Budget.{BudgetLimits}
use flow_security_agent.Contracts.Enums.{FailureCode, is_terminal_action}
use flow_security_agent.Contracts.Host.{Host}
use flow_security_agent.Contracts.Requests.{SupervisorDecision}
use flow_security_agent.Contracts.State.{RuntimeInput}
use flow_security_agent.Orchestrator.Backends.{Backends, Config}
use flow_security_agent.Orchestrator.Checks.{validate_decision}
use flow_security_agent.Orchestrator.Checks.Admissible.{validate_decision-evidence_iff}
use flow_security_agent.Orchestrator.Context.{plain}
use flow_security_agent.Orchestrator.Finish.{reject}
use flow_security_agent.Orchestrator.Summaries.{action_summary}
use flow_security_agent.Orchestrator.Flow.{
  LoopState, Phase, proceed, settle, outcome, ◌>>◌, >>=-settle, >>=-proceed, Step, next, done,
  raised,
}
use flow_security_agent.Orchestrator.Run.{act, enough_fuel, iterate, loop, run, start}
use flow_security_agent.Orchestrator.Sound.{IsRefused, IsSound, IsSoundLoop, IsSoundResult}
use flow_security_agent.Orchestrator.Sound.Acquire.{acquire_sound}
use flow_security_agent.Orchestrator.Sound.Finish.{
  LandsSound, finish_sound, halt_sound, reject_sound,
}
use flow_security_agent.Orchestrator.Sound.Start.{start_sound}
use flow_security_agent.Orchestrator.Sound.Supervise.{
  Advances, Advances-of_call, Asks, ask_supervisor_sound,
}
use flow_security_agent.Orchestrator.Supervise.{ask_supervisor, check_decision}
use flow_security_agent.Prelude.Floats.{Rounding}
use flow_security_agent.Prelude.{
  ℕ, zero, suc, ◌+◌, ◌-◌, ◌*◌, ◌≤◌, ◌<◌, ◌≡◌, refl, ap, ◌∙◌, inl, inr, some, none, arith,
  Bool-cases, Option-cases, leb,
}

module _ ⦃r : Rounding⦄ ⦃h : Host⦄ (cfg : Config) {E : Type 0} (b : Backends E)
    (input : RuntimeInput) where
  act_sound :
      (m : ℕ) (d : SupervisorDecision) (l : LoopState E)
      → l.state.round_index ≤ cfg.budget_limits.max_rounds
      → IsSound cfg m l.state.round_index l.context
      → validate_decision cfg d l.state ≡ none
      → LandsSound cfg b input m (act b cfg input d l)
  unfolding act
  act_sound m d l capped s ok = elim (Bool-cases (is_terminal_action d.action)) [
    | inl terminal ↦
        rw (terminal, act)
          (finish_sound cfg b input m l.state.round_index capped d.action d.short_reason l.state
            l.context s)
    | inr evidence ↦
        let step = ((validate_decision-evidence_iff cfg d l.state evidence).0 ok).1 in
        elim (Bool-cases (leb cfg.budget_limits.max_rounds l.state.round_index)) [
          | inl full ↦ rw (evidence, full, act) (halt_sound cfg b input m l capped _ _ s)
          | inr room ↦
              rw (evidence, room, act)
                (acquire_sound cfg b input m l (ground arith) s d step.request step.asked
                  step.registered)
        ]
  ]

  -- An iteration follows the Supervisor's half, and then the checks.
  pub iterate-settle :
      (l : LoopState E) (st : Step E)
      → ask_supervisor b cfg input l ≡ settle st
      → iterate b cfg input l ≡ st
  unfolding iterate
  iterate-settle l st e = ap outcome (>>=-settle (ask_supervisor b cfg input) _ l st e)

  iterate-proceed :
      (l l' : LoopState E) (d : SupervisorDecision)
      → ask_supervisor b cfg input l ≡ proceed d l'
      → iterate b cfg input l
        ≡ outcome ((check_decision b cfg input d >> λ l''. settle (act b cfg input d l'')) l')
  unfolding iterate
  iterate-proceed l l' d e = ap outcome (>>=-proceed (ask_supervisor b cfg input) _ l l' d e)

  pub iterate-act :
      (l l' : LoopState E) (d : SupervisorDecision)
      → ask_supervisor b cfg input l ≡ proceed d l'
      → validate_decision cfg d l'.state ≡ none
      → iterate b cfg input l ≡ act b cfg input d l'
  unfolding check_decision
  iterate-act l l' d e ok =
      iterate-proceed l l' d e
      ∙ ap outcome (>>=-proceed (check_decision b cfg input d) _ l' l' tt (rw (ok, check_decision)))

  pub iterate-reject :
      (l l' : LoopState E) (d : SupervisorDecision) (code : FailureCode)
      → ask_supervisor b cfg input l ≡ proceed d l'
      → validate_decision cfg d l'.state ≡ some code
      → iterate b cfg input l ≡ reject b cfg input code (plain (action_summary d.action)) l'
  unfolding check_decision
  iterate-reject l l' d code e bad =
      iterate-proceed l l' d e
      ∙ ap outcome (>>=-settle (check_decision b cfg input d) _ l' _ (rw (bad, check_decision)))

  pub iterate_sound :
      (n : ℕ) (l : LoopState E)
      → IsSoundLoop cfg n l
      → Advances cfg b input n l.rejections (iterate b cfg input l)
  iterate_sound n l sl =
      go (ask_supervisor b cfg input l) refl (ask_supervisor_sound cfg b input n l sl)
    where
      go :
          (p : Phase E SupervisorDecision)
          → ask_supervisor b cfg input l ≡ p
          → Asks cfg b input n l p
          → Advances cfg b input n l.rejections (iterate b cfg input l)
      go (settle st) e a = rw (iterate-settle l st e) a
      go (proceed d l') e a =
          let capped : l'.state.round_index ≤ cfg.budget_limits.max_rounds =
            rw (a.1) sl.rounds_capped in
          elim (Option-cases (validate_decision cfg d l'.state)) [
            | inl ok ↦ rw (iterate-act l l' d e ok) (
                Advances-of_call cfg b input n l.rejections _
                  (act_sound (suc n) d l' capped a.0 ok))
            | inr (code, bad) ↦ rw (iterate-reject l l' d code e bad) (
                Advances-of_call cfg b input n l.rejections _
                  (reject_sound cfg b input (suc n) l' capped code _ a.0))
          ]

  -- What the whole run may come to.
  abbrev pub EndsSound : Step E → Type 0
  EndsSound (next l) = ⊥
  EndsSound (done res env) = IsSoundResult cfg res
  EndsSound raised = IsRefused cfg input

  calls-le :
      (n : ℕ) (l : LoopState E) → IsSoundLoop cfg n l → n ≤ cfg.budget_limits.max_supervisor_calls
  calls-le n l sl = omega (
    arith,
    sl.context.within.supervised,
    sl.context.calls,
    ap (λ (x : BudgetLimits). x.max_supervisor_calls) sl.context.limits,
  )

  loop-ended :
      (fuel : ℕ) (s : Step E)
      → EndsSound s
      → 0 < fuel
      → (s' : Step E) × (loop b cfg input fuel s ≡ some s') × EndsSound s'
  unfolding loop
  loop-ended zero s h p = absurd (omega arith)
  loop-ended (suc fuel) (next l) h p = absurd h
  loop-ended (suc fuel) (done res env) h p = (done res env, refl, h)
  loop-ended (suc fuel) raised h p = (raised, refl, h)

  -- `k` calls of the Supervisor are left, and the rejections up to the limit.
  loop-ends :
      (fuel n k rej : ℕ) (s : Step E)
      → n + k ≡ cfg.budget_limits.max_supervisor_calls
      → rej ≤ cfg.max_invalid_retries
      → k * (cfg.max_invalid_retries + 2) + (cfg.max_invalid_retries - rej) < fuel
      → Advances cfg b input n rej s
      → (s' : Step E) × (loop b cfg input fuel s ≡ some s') × EndsSound s'
  unfolding loop
  loop-ends zero n k rej s e p m a = absurd (omega arith)
  loop-ends (suc fuel) n k rej (done res env) e p m a =
      loop-ended (suc fuel) (done res env) a (omega arith)
  loop-ends (suc fuel) n k rej raised e p m a = loop-ended (suc fuel) raised a (omega arith)
  loop-ends (suc fuel) n k rej (next l) e p m (inl (sl, more)) =
      loop-ends fuel n k l.rejections (iterate b cfg input l) e sl.retries_capped
        (let capped = sl.retries_capped in omega arith) (iterate_sound n l sl)
  loop-ends (suc fuel) n zero rej (next l) e p m (inr sl) =
      absurd (omega (arith, calls-le (suc n) l sl))
  loop-ends (suc fuel) n (suc k) rej (next l) e p m (inr sl) =
      loop-ends fuel (suc n) k l.rejections (iterate b cfg input l) (omega arith) sl.retries_capped
        (omega arith) (iterate_sound (suc n) l sl)

  start-ends :
      (fuel : ℕ) (s : Step E)
      → enough_fuel b cfg input ≤ fuel
      → LandsSound cfg b input 0 s
      → (s' : Step E) × (loop b cfg input fuel s ≡ some s') × EndsSound s'
  unfolding loop
  start-ends zero s m h = absurd (omega arith)
  start-ends (suc fuel) (done res env) m h = loop-ended (suc fuel) (done res env) h (omega arith)
  start-ends (suc fuel) raised m h = loop-ended (suc fuel) raised h (omega arith)
  start-ends (suc fuel) (next l) m sl =
      loop-ends fuel 0 cfg.budget_limits.max_supervisor_calls l.rejections (iterate b cfg input l)
        (omega arith) sl.retries_capped (omega arith) (iterate_sound 0 l sl)

  -- Whatever the backends do, the run ends within the fuel. It returns a result whose budget is
  -- within every limit, with no more rounds than allowed, and whose trace is numbered from 0 and
  -- closed by its only `final` event; or it lets out one exception, pydantic's refusal of the
  -- experience record of a training run with verified feedback.
  pub run-ends : (env : E) → (s : Step E) × (run b cfg input env ≡ some s) × EndsSound s
  unfolding run
  run-ends env =
      start-ends (enough_fuel b cfg input) (start b cfg input env) (omega arith)
        (start_sound cfg b input env)
