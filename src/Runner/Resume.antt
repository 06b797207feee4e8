-- ===== src/Runner/Resume.antt =====
-- A run on the cache that another run has left.
use mathlib.Core.Path.{subst}
use flow_security_agent.Runner.{
  Files, LlmRequest, LlmRunner, Outcome, Ran, RecordSuccess, RunOutcome, calls_of, failures_in,
  failed, has_repeated_id, identity_of, outcome_of, run_each, run_one, run_requests, success,
  successes_of,
}
use flow_security_agent.Prelude.{
  ◌≡◌, refl, ap, ◌∙◌, false, List, [], ◌∷◌, some, map, inl, inr, str_eq, All, Bool-cases,
}
use flow_security_agent.Runner.Saved.{Saved, as_hit, load-run_one, path_of, run_one-Saved}

module _ {A E : Type 0} (r : LlmRunner A E) where
  module _ (reads_back : (a : A) → r.schema.validate (r.schema.dump a) ≡ some a) where
    -- The files hold the answers of all records, none of which failed.
    abbrev SavedAll : List LlmRequest → List Outcome → Files → Type 0
    SavedAll [] [] files = Unit
    SavedAll (q ∷ qs) (success s ∷ os) files = Saved r q s files × SavedAll qs os files
    SavedAll [] (o ∷ os) files = ⊥
    SavedAll (q ∷ qs) [] files = ⊥
    SavedAll (q ∷ qs) (failed f ∷ os) files = ⊥

    -- No two requests have their files in one place.
    abbrev pub HasOwnFiles : List LlmRequest → Type 0
    HasOwnFiles [] = Unit
    HasOwnFiles (q ∷ qs) = All (λ p. str_eq (path_of r p) (path_of r q) ≡ false) qs × HasOwnFiles qs

    Saved-run_each :
        (q : LlmRequest) (s : RecordSuccess) (qs : List LlmRequest) (files : Files) (e : E)
        → All (λ p. str_eq (path_of r p) (path_of r q) ≡ false) qs
        → Saved r q s files
        → Saved r q s (run_each r qs files e).1
    unfolding run_each
    Saved-run_each q s [] files e apart saved = saved
    Saved-run_each q s (p ∷ qs) files e apart saved =
        let ran = run_one r p files e in
        let (a, entry, found, same) = saved in
        Saved-run_each q s qs ran.files ran.state apart.1
          (a, entry, load-run_one r (identity_of r q) p files e apart.0 ∙ found, same)

    SavedAll-cons :
        (q : LlmRequest) (qs : List LlmRequest) (o : Outcome) (os : List Outcome) (files : Files)
        → failures_in (o ∷ os) ≡ []
        → ((s : RecordSuccess) → o ≡ success s → Saved r q s files)
        → (failures_in os ≡ [] → SavedAll qs os files)
        → SavedAll (q ∷ qs) (o ∷ os) files
    unfolding failures_in
    SavedAll-cons q qs (success s) os files h first rest = (first s refl, rest h)
    SavedAll-cons q qs (failed f) os files h first rest = cc

    run_each-SavedAll :
        (qs : List LlmRequest) (files : Files) (e : E)
        → HasOwnFiles qs
        → failures_in (run_each r qs files e).0 ≡ []
        → SavedAll qs (run_each r qs files e).0 (run_each r qs files e).1
    unfolding run_each
    run_each-SavedAll [] files e own h = tt
    run_each-SavedAll (q ∷ qs) files e own h =
        let ran = run_one r q files e in
        SavedAll-cons q qs ran.outcome (run_each r qs ran.files ran.state).0
          (run_each r qs ran.files ran.state).1 h
          (λ s k.
            Saved-run_each q s qs ran.files ran.state own.0
              (run_one-Saved r reads_back q files e s k))
          (run_each-SavedAll qs ran.files ran.state own.1)

    abbrev hits_of : List Outcome → List Outcome
    hits_of [] = []
    hits_of (success s ∷ os) = success (as_hit s) ∷ hits_of os
    hits_of (failed f ∷ os) = failed f ∷ hits_of os

    run_one-hit :
        (q : LlmRequest) (s : RecordSuccess) (files : Files) (e : E)
        → Saved r q s files
        → run_one r q files e ≡ record { outcome = success (as_hit s); files = files; state = e }
    unfolding run_one
    run_one-hit q s files e (a, entry, found, same) =
        rw (found, run_one)
          (ap (λ x. record { outcome = success x; files = files; state = e }) same)

    run_each-hits :
        (qs : List LlmRequest) (os : List Outcome) (files : Files) (e : E)
        → SavedAll qs os files
        → run_each r qs files e ≡ (hits_of os, files, e)
    unfolding run_each
    run_each-hits [] [] files e h = refl
    run_each-hits [] (o ∷ os) files e h = absurd h
    run_each-hits (q ∷ qs) [] files e h = absurd h
    run_each-hits (q ∷ qs) (failed f ∷ os) files e h = absurd h
    run_each-hits (q ∷ qs) (success s ∷ os) files e h =
        ap
          (λ (ran : Ran E). (
            ran.outcome ∷ (run_each r qs ran.files ran.state).0,
            (run_each r qs ran.files ran.state).1,
            (run_each r qs ran.files ran.state).2,
          ))
          (run_one-hit q s files e h.0)
        ∙ ap (λ (t : List Outcome × Files × E). (success (as_hit s) ∷ t.0, t.1, t.2))
            (run_each-hits qs os files e h.1)

    hits_of-counts :
        (os : List Outcome)
        → failures_in os ≡ []
        → (successes_of (hits_of os) ≡ map as_hit (successes_of os))
          × (failures_in (hits_of os) ≡ [])
          × (calls_of (hits_of os) ≡ 0)
    unfolding failures_in successes_of calls_of
    hits_of-counts [] h = (refl, refl, refl)
    hits_of-counts (success s ∷ os) h =
        let (same, none_failed, no_calls) = hits_of-counts os h in
        (ap (λ ss. as_hit s ∷ ss) same, none_failed, no_calls)
    hits_of-counts (failed f ∷ os) h = cc

    outcome-eq :
        (os : List Outcome) {ss : List RecordSuccess}
        → successes_of os ≡ ss
        → failures_in os ≡ []
        → calls_of os ≡ 0
        → outcome_of os ≡ record { successes = ss; failures = []; api_calls = 0 }
    unfolding outcome_of
    outcome-eq os p q s = cc (p, q, s)

    -- A run in which no record failed is repeated from the cache alone, whatever the world has become:
    -- it makes no call, changes no file, and returns the same records as hits. What was dumped has to
    -- be valid again, and no two requests may have their files in one place.
    pub run_requests-resume :
        (qs : List LlmRequest) (files files' : Files) (e e' later : E) (o : RunOutcome)
        → HasOwnFiles qs
        → run_requests r qs files e ≡ some (o, files', e')
        → o.failures ≡ []
        → run_requests r qs files' later
          ≡ some (
            record { successes = map as_hit o.successes; failures = []; api_calls = 0 },
            files',
            later,
          )
    unfolding run_requests outcome_of
    run_requests-resume qs files files' e e' later o own h ok =
        elim (Bool-cases (has_repeated_id qs)) [
          | inl repeats ↦ cc (rw (repeats, run_requests) at h)
          | inr unique ↦
              let first = run_each r qs files e in
              let same : outcome_of first.0 ≡ o = cc (rw (unique, run_requests) at h) in
              let left : first.1 ≡ files' = cc (rw (unique, run_requests) at h) in
              let unfailed = ap (λ (x : RunOutcome). x.failures) same ∙ ok in
              let saved =
                subst (SavedAll qs first.0) left (run_each-SavedAll qs files e own unfailed) in
              let (successes, failures, calls) = hits_of-counts first.0 unfailed in
              rw (unique, run_requests)
                (ap (λ (t : List Outcome × Files × E). some (outcome_of t.0, t.1, t.2))
                    (run_each-hits qs first.0 files' later saved)
                  ∙ ap (λ x. some (x, files', later))
                      (outcome-eq (hits_of first.0) successes failures calls)
                  ∙ ap
                      (λ (x : RunOutcome). some (
                        record { successes = map as_hit x.successes; failures = []; api_calls = 0 },
                        files',
                        later,
                      ))
                      same)
        ]
