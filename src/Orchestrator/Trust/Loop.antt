-- ===== src/Orchestrator/Trust/Loop.antt =====
-- The loop of `run` over trusted states, and the results that it returns.
use flow_security_agent.Contracts.Enums.{AgentAction, is_evidence_action, is_terminal_action}
use flow_security_agent.Contracts.Evidence.{EvidenceItem, item_is_valid, status_is_valid}
use flow_security_agent.Contracts.Experience.{ExperienceRecord, experience_is_valid}
use flow_security_agent.Contracts.Host.{Host}
use flow_security_agent.Contracts.Requests.{SupervisorDecision}
use flow_security_agent.Contracts.State.{RuntimeInput}
use flow_security_agent.Orchestrator.Backends.{Backends, Config}
use flow_security_agent.Orchestrator.Checks.{validate_decision}
use flow_security_agent.Orchestrator.Checks.Admissible.{
  validate_decision-evidence_iff, validate_decision-terminal_iff,
}
use flow_security_agent.Orchestrator.Context.{Context}
use flow_security_agent.Orchestrator.Evaluate.{evaluate}
use flow_security_agent.Orchestrator.Flow.{
  LoopState, Phase, proceed, settle, Step, next, done, raised,
}
use flow_security_agent.Orchestrator.Run.{
  act, caught_records, iterate, loop, retrieve_experiences, run, start, start_evaluated,
  with_memory, enough_fuel,
}
use flow_security_agent.Orchestrator.Sound.Acquire.{Evaluation-cases}
use flow_security_agent.Orchestrator.Sound.Loop.{
  iterate-act, iterate-reject, iterate-settle, EndsSound, run-ends,
}
use flow_security_agent.Orchestrator.Sound.{IsRefused}
use flow_security_agent.Orchestrator.Sound.Evaluate.{Caught-cases}
use flow_security_agent.Orchestrator.Supervise.{ask_supervisor}
use flow_security_agent.Orchestrator.Trust.{IsTrusted, Keeps, Returns}
use flow_security_agent.Orchestrator.Trust.Acquire.{acquire-Keeps}
use flow_security_agent.Orchestrator.Trust.Finish.{
  finish-Keeps, finish_without_state-Keeps, halt-Keeps, reject-Keeps,
}
use flow_security_agent.Orchestrator.Trust.Calls.{caught_records-eq_got, empty_keep_if-false}
use flow_security_agent.Orchestrator.Trust.Supervise.{Stays, ask_supervisor-Stays}
use mathlib.Core.List.{append-nil}
use mathlib.Core.Path.{subst, sym}
use flow_security_agent.Prelude.Floats.{Rounding}
use flow_security_agent.Prelude.{
  ℕ, zero, suc, ◌≡◌, refl, true, false, not, ◌&&◌, List, [], Option, inl, inr, some, none, arith,
  Bool-cases, Option-cases, if_both, leb, all, is_empty, keep_if, All, All-of_all-true,
}

is_evidence_action-of_not_terminal :
    (a : AgentAction) → is_terminal_action a ≡ false → is_evidence_action a ≡ true
is_evidence_action-of_not_terminal a h = ground arith

module _ ⦃r : Rounding⦄ ⦃h : Host⦄ (cfg : Config) {E : Type 0} (b : Backends E)
    (input : RuntimeInput) where
  act-Keeps :
      (d : SupervisorDecision) (l : LoopState E)
      → IsTrusted cfg input l.state
      → validate_decision cfg d l.state ≡ none
      → Keeps cfg input (act b cfg input d l)
  unfolding act
  act-Keeps d l t ok = elim (Bool-cases (is_terminal_action d.action)) [
    | inl terminal ↦
        rw (terminal, act)
          (finish-Keeps cfg input b d.action d.short_reason l.state l.context
            ((validate_decision-terminal_iff cfg d l.state terminal).0 ok).2 t)
    | inr evidence ↦
        let (allowed, step) = (validate_decision-evidence_iff cfg d l.state evidence).0 ok in
        elim (Bool-cases (leb cfg.budget_limits.max_rounds l.state.round_index)) [
          | inl full ↦ rw (evidence, full, act) (halt-Keeps cfg input b _ _ l t)
          | inr room ↦
              rw (evidence, room, act)
                (acquire-Keeps cfg b input d l t
                  (is_evidence_action-of_not_terminal d.action evidence) allowed step)
        ]
  ]

  iterate-Keeps :
      (l : LoopState E) → IsTrusted cfg input l.state → Keeps cfg input (iterate b cfg input l)
  iterate-Keeps l t = go (ask_supervisor b cfg input l) refl (ask_supervisor-Stays cfg b input l t)
    where
      go :
          (p : Phase E SupervisorDecision)
          → ask_supervisor b cfg input l ≡ p
          → Stays cfg b input l.state p
          → Keeps cfg input (iterate b cfg input l)
      go (settle st) e k = rw (iterate-settle cfg b input l st e) k
      go (proceed d l') e k =
          let t' : IsTrusted cfg input l'.state = subst (IsTrusted cfg input) (sym k) t in
          elim (Option-cases (validate_decision cfg d l'.state)) [
            | inl ok ↦ rw (iterate-act cfg b input l l' d e ok) (act-Keeps d l' t' ok)
            | inr (code, bad) ↦
                rw (iterate-reject cfg b input l l' d code e bad)
                  (reject-Keeps cfg input b code _ l' t')
          ]

  abbrev KeepsSome : Option (Step E) → Type 0
  KeepsSome none = ⊥
  KeepsSome (some s) = Keeps cfg input s

  loop-Keeps :
      (fuel : ℕ) (s s' : Step E)
      → Keeps cfg input s
      → loop b cfg input fuel s ≡ some s'
      → Keeps cfg input s'
  unfolding loop
  loop-Keeps zero s s' k e = absurd (ground arith)
  loop-Keeps (suc fuel) (next l) s' k e =
      loop-Keeps fuel (iterate b cfg input l) s' (iterate-Keeps l k) e
  loop-Keeps (suc fuel) (done res env) s' k e = subst KeepsSome e k
  loop-Keeps (suc fuel) raised s' k e = subst KeepsSome e k

  module _ (valid : all item_is_valid input.initial_evidence ≡ true)
      (safe : is_empty (keep_if (λ (e : EvidenceItem). not e.model_safe) input.initial_evidence)
        ≡ true) where
    start_evaluated-Keeps :
        (es : List ExperienceRecord) (c : Context E)
        → All
            (λ (e : ExperienceRecord).
              (e.feedback.verified ≡ true) × (experience_is_valid e ≡ true))
            es
        → Keeps cfg input (start_evaluated b cfg input es c)
    unfolding start_evaluated
    start_evaluated-Keeps es c verified =
        elim (Evaluation-cases (evaluate b input.initial_evidence 0 c)) [
          | inl e ↦ rw (e, start_evaluated) tt
          | inr (inl (c₁, e)) ↦
              rw (e, start_evaluated) (finish_without_state-Keeps cfg input b _ c₁)
          | inr (inr (result, unknown, c₁, e)) ↦
              rw (e, start_evaluated)
                (record {
                  named = refl;
                  added = [];
                  grown = sym (append-nil input.initial_evidence);
                  safe = empty_keep_if-false input.initial_evidence safe;
                  valid = All-of_all-true item_is_valid input.initial_evidence valid;
                  experienced = verified;
                  once = tt;
                  paired = refl;
                  used = tt;
                  offered = λ c on. on;
                  older = [];
                  latest = refl;
                })
        ]

    retrieve_experiences-verified :
        (c : Context E)
        → All
            (λ (e : ExperienceRecord).
              (e.feedback.verified ≡ true) × (experience_is_valid e ≡ true))
            (retrieve_experiences b cfg input c).0
    unfolding retrieve_experiences
    retrieve_experiences-verified c =
        let (out, env) = b.memory_retrieve input.memory_query cfg.memory_retrieval_limit c.env in
        elim (Caught-cases (caught_records out)) [
          | inl (name, e) ↦ rw (e, retrieve_experiences) tt
          | inr (es, e) ↦ rw (e, retrieve_experiences) (caught_records-eq_got out es e)
        ]

    with_memory-Keeps : (c : Context E) → Keeps cfg input (with_memory b cfg input c)
    unfolding with_memory
    with_memory-Keeps c =
        if_both (Keeps cfg input) cfg.has_memory
          (start_evaluated-Keeps _ _ (retrieve_experiences-verified c))
          (start_evaluated-Keeps [] c tt)

  start-Keeps : (env : E) → Keeps cfg input (start b cfg input env)
  unfolding start
  start-Keeps env =
      elim (Bool-cases
        (all item_is_valid input.initial_evidence && all status_is_valid input.capabilities)) [
          | inr bad ↦ rw (bad, start) (finish_without_state-Keeps cfg input b _ _)
          | inl ok ↦
              elim (Bool-cases (
                is_empty
                  (keep_if (λ (e : EvidenceItem). not e.model_safe) input.initial_evidence))) [
                    | inr unsafe ↦
                        rw (ok, unsafe, start) (finish_without_state-Keeps cfg input b _ _)
                    | inl safe ↦ rw (ok, safe, start) (with_memory-Keeps (ground arith) safe _)
                  ]
        ]

  pub Keeps-of_run : (env : E) (s : Step E) → run b cfg input env ≡ some s → Keeps cfg input s
  unfolding run
  Keeps-of_run env s e =
      loop-Keeps (enough_fuel b cfg input) (start b cfg input env) s (start-Keeps env) e

  -- What the whole run delivers.
  abbrev pub Delivers : Step E → Type 0
  Delivers (next l) = ⊥
  Delivers (done res env) = Returns cfg input res.final_state res
  Delivers raised = IsRefused cfg input

  -- The run comes to an end. Unless it lets out the refusal of an experience record, it returns, with
  -- a final state or without. A final state has the initial evidence and behind it what tools have
  -- added, all of it safe and valid, and experiences with verified feedback only; no request was made
  -- twice, and every action taken is an allowed evidence action with a tool, whose capability was
  -- offered with the sample. The final decision is
  -- warranted by that state, and its label is the first candidate of the decision's kind in the state's
  -- current evaluation, the last one made. Experience was written only with a memory, in training and
  -- under verified feedback. Without a final state the run abstains, and writes nothing.
  pub run-Delivers : (env : E) → (s : Step E) × (run b cfg input env ≡ some s) × Delivers s
  run-Delivers env =
      let (s, e, ends) = run-ends cfg b input env in (s, e, go s ends (Keeps-of_run env s e))
    where
      go : (s : Step E) → EndsSound cfg b input s → Keeps cfg input s → Delivers s
      go (next l) ends kept = absurd ends
      go (done res env) ends kept = kept
      go raised ends kept = ends
