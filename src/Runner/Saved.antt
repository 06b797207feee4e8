-- ===== src/Runner/Saved.antt =====
-- What the cache holds of a record that has succeeded.
use mathlib.Core.Path.{subst}
use flow_security_agent.Runner.{
  CachedResult, Files, LlmRequest, LlmRunner, RecordSuccess, RequestIdentity, accepted, entry_of,
  eq_identity, hit_of, identity_of, load, read_entry, path_for, read_file, run_one, save, success,
  success_of, try_from, write_file,
}
use flow_security_agent.Prelude.{
  ℕ, zero, suc, ◌≡◌, refl, sym, ap, ◌∙◌, String, true, false, [], ◌∷◌, some, inl, inr, arith,
  str_eq, eq_iff, eq_refl, Option-cases, if◌then◌else◌,
}

read_file-write_file :
    (path other : String) (c : CachedResult) (files : Files)
    → read_file other (write_file path c files)
      ≡ (if str_eq path other then some c else read_file other files)
unfolding read_file write_file
read_file-write_file path other c [] = refl
read_file-write_file path other c ((p, content) ∷ files) = ground (
  arith,
  eq_iff p path,
  eq_iff p other,
  eq_iff path other,
  read_file-write_file path other c files,
)

eq_identity_self : (i : RequestIdentity) → eq_identity i i ≡ true
unfolding eq_identity
eq_identity_self i = ground (
  arith,
  eq_refl i.record_id,
  eq_refl i.input_fingerprint,
  eq_refl i.prompt_fingerprint,
  eq_refl i.model,
  eq_refl i.generation_fingerprint,
  eq_refl i.runtime_fingerprint,
  eq_refl i.schema_version,
)

-- The record as it comes from the cache.
abbrev pub as_hit : RecordSuccess → RecordSuccess
as_hit s = record s { cache_hit = true; attempts = 0 }

module _ {A E : Type 0} (r : LlmRunner A E) where
  abbrev pub path_of : LlmRequest → String
  path_of q = path_for r (identity_of r q)

  -- The files hold the answer of a record.
  abbrev pub Saved : LlmRequest → RecordSuccess → Files → Type 0
  Saved q s files =
      (a : A) × (entry : CachedResult) × (load r (identity_of r q) files ≡ some (a, entry))
      × (hit_of r q a entry ≡ as_hit s)

  -- Writing the file of another request leaves what is read under an identity.
  load-save :
      (i : RequestIdentity) (c : CachedResult) (files : Files)
      → str_eq (path_for r c.identity) (path_for r i) ≡ false
      → load r i (save r c files) ≡ load r i files
  unfolding load save
  load-save i c files h = ap (read_entry r i) (
      read_file-write_file (path_for r c.identity) (path_for r i) c files
      ∙ ap (λ b. if b then some c else read_file (path_for r i) files) h)

  load-try_from :
      (i : RequestIdentity) (start : E) (q : LlmRequest) (left attempt : ℕ) (files : Files) (e : E)
      → str_eq (path_of q) (path_for r i) ≡ false
      → load r i (try_from r start q left attempt files e).files ≡ load r i files
  unfolding try_from entry_of
  load-try_from i start q zero attempt files e h = refl
  load-try_from i start q (suc left) attempt files e h =
      elim (Option-cases (accepted r q (r.world.complete q.prompt r.model r.generation e).0)) [
        | inl refused ↦
            rw (refused, try_from) (load-try_from i start q left (suc attempt) files _ h)
        | inr ((a, response), ok) ↦ rw (ok, try_from) (load-save i _ files h)
      ]

  pub load-run_one :
      (i : RequestIdentity) (q : LlmRequest) (files : Files) (e : E)
      → str_eq (path_of q) (path_for r i) ≡ false
      → load r i (run_one r q files e).files ≡ load r i files
  unfolding run_one
  load-run_one i q files e h = elim (Option-cases (load r (identity_of r q) files)) [
    | inl missing ↦ rw (missing, run_one) (load-try_from i e q (suc r.max_retries) 1 files e h)
    | inr ((a, entry), found) ↦ rw (found, run_one) refl
  ]

  module _ (reads_back : (a : A) → r.schema.validate (r.schema.dump a) ≡ some a) where
    read_entry_self :
        (q : LlmRequest) (a : A) (c : CachedResult)
        → c.identity ≡ identity_of r q
        → c.output ≡ r.schema.dump a
        → read_entry r (identity_of r q) (some c) ≡ some (a, c)
    unfolding read_entry
    read_entry_self q a c same out =
        rw
          (
            subst (λ i. eq_identity i (identity_of r q) ≡ true) (sym same)
                (eq_identity_self (identity_of r q)),
            subst (λ o. r.schema.validate o ≡ some a) (sym out) (reads_back a),
          )
          refl

    load-save_self :
        (q : LlmRequest) (a : A) (c : CachedResult) (files : Files)
        → c.identity ≡ identity_of r q
        → c.output ≡ r.schema.dump a
        → load r (identity_of r q) (save r c files) ≡ some (a, c)
    unfolding load save
    load-save_self q a c files same out =
        let there =
          subst (λ i. str_eq (path_for r i) (path_of q) ≡ true) (sym same) (eq_refl (path_of q)) in
        ap (read_entry r (identity_of r q)) (
          read_file-write_file (path_for r c.identity) (path_of q) c files
          ∙ ap (λ b. if b then some c else read_file (path_of q) files) there)
        ∙ read_entry_self q a c same out

    try_from-Saved :
        (start : E) (q : LlmRequest) (left attempt : ℕ) (files : Files) (e : E) (s : RecordSuccess)
        → (try_from r start q left attempt files e).outcome ≡ success s
        → Saved q s (try_from r start q left attempt files e).files
    unfolding try_from entry_of success_of hit_of
    try_from-Saved start q zero attempt files e s h = cc
    try_from-Saved start q (suc left) attempt files e s h =
        elim (Option-cases (accepted r q (r.world.complete q.prompt r.model r.generation e).0)) [
          | inl refused ↦
              rw (refused, try_from)
                (try_from-Saved start q left (suc attempt) files _ s (rw (refused, try_from) at h))
          | inr ((a, response), ok) ↦
              let e' = (r.world.complete q.prompt r.model r.generation e).1 in
              let c = entry_of r q a response (r.world.elapsed start e') attempt (r.world.now e') in
              let same : success_of r q a response (r.world.elapsed start e') attempt ≡ s =
                cc (rw (ok, try_from) at h) in
              rw (ok, try_from) (a, c, load-save_self q a c files refl refl, ap as_hit same)
        ]

    pub run_one-Saved :
        (q : LlmRequest) (files : Files) (e : E) (s : RecordSuccess)
        → (run_one r q files e).outcome ≡ success s
        → Saved q s (run_one r q files e).files
    unfolding run_one hit_of
    run_one-Saved q files e s h = elim (Option-cases (load r (identity_of r q) files)) [
      | inl missing ↦
          rw (missing, run_one)
            (try_from-Saved e q (suc r.max_retries) 1 files e s (rw (missing, run_one) at h))
      | inr ((a, entry), found) ↦
          let same : hit_of r q a entry ≡ s = cc (rw (found, run_one) at h) in
          rw (found, run_one) (a, entry, found, ap as_hit same)
    ]
