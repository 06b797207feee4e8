-- ===== src/Runner/Shards.antt =====
-- `select_shard` of src/flowsec/llm/runtime.py. `digest` is the number that the first eight bytes of
-- an id's SHA-256 make.
use Prim.Native.Nat.{◌%◌}
use flow_security_agent.Runner.{LlmRequest}
use flow_security_agent.Prelude.{
  ℕ, zero, suc, ◌+◌, ◌≤◌, ◌<◌, ◌≡◌, refl, sym, ap, ◌∙◌, String, Bool, true, false, not, List, [],
  ◌∷◌, Option, none, some, inl, inr, arith, ltb, ◌==◌, keep_if, Bool-cases, if◌then◌else◌,
}

module _ (digest : String → ℕ) where
  unfoldable pub bucket : ℕ → String → ℕ
  bucket num_shards record_id = digest record_id % num_shards

  -- `none` where it raises: no shards, or no such shard.
  unfoldable pub select_shard : List LlmRequest → ℕ → ℕ → Option (List LlmRequest)
  unfolding bucket
  select_shard requests num_shards shard_index =
      if ltb num_shards 1
      then none
      else if not (ltb shard_index num_shards)
      then none
      else if num_shards == 1
      then some requests
      else some
          (keep_if (λ (q : LlmRequest). bucket num_shards q.record_id == shard_index) requests)

  abbrev pub count : (LlmRequest → Bool) → List LlmRequest → ℕ
  count p [] = 0
  count p (q ∷ qs) = (if p q then 1 else 0) + count p qs

  abbrev pub shard_count : (LlmRequest → Bool) → Option (List LlmRequest) → ℕ
  shard_count p none = 0
  shard_count p (some qs) = count p qs

  -- The requests with a property in the first shards.
  abbrev pub shards_count : (LlmRequest → Bool) → List LlmRequest → ℕ → ℕ → ℕ
  shards_count p requests num_shards zero = 0
  shards_count p requests num_shards (suc k) =
      shards_count p requests num_shards k + shard_count p (select_shard requests num_shards k)

  abbrev in_shard : ℕ → ℕ → LlmRequest → Bool
  in_shard n i q = bucket n q.record_id == i

  -- The same where the shards are selected by the bucket, also if there is one.
  abbrev kept_count : (LlmRequest → Bool) → List LlmRequest → ℕ → ℕ → ℕ
  kept_count p requests n zero = 0
  kept_count p requests n (suc k) =
      kept_count p requests n k + count p (keep_if (in_shard n k) requests)

  bucket-lt : (n : ℕ) (id : String) → 1 ≤ n → bucket n id < n
  unfolding bucket
  bucket-lt n id h = omega arith

  count-keep_if :
      (p : LlmRequest → Bool) (r : LlmRequest → Bool) (q : LlmRequest) (qs : List LlmRequest)
      → count p (keep_if r (q ∷ qs))
        ≡ (if r q then (if p q then 1 else 0) else 0) + count p (keep_if r qs)
  count-keep_if p r q qs = ground arith

  -- Of the first shards one holds the request, if its bucket is among them.
  kept_count-cons :
      (p : LlmRequest → Bool) (q : LlmRequest) (qs : List LlmRequest) (n k : ℕ)
      → kept_count p (q ∷ qs) n k
        ≡ (if ltb (bucket n q.record_id) k then (if p q then 1 else 0) else 0) + kept_count p qs n k
  kept_count-cons p q qs n zero = ground arith
  kept_count-cons p q qs n (suc k) =
      ground (arith, kept_count-cons p q qs n k, count-keep_if p (in_shard n k) q qs)

  kept_count-nil : (p : LlmRequest → Bool) (n k : ℕ) → kept_count p [] n k ≡ 0
  kept_count-nil p n zero = refl
  kept_count-nil p n (suc k) = omega (arith, kept_count-nil p n k)

  kept_count-all :
      (p : LlmRequest → Bool) (qs : List LlmRequest) (n : ℕ)
      → 1 ≤ n
      → kept_count p qs n n ≡ count p qs
  kept_count-all p [] n h = kept_count-nil p n n
  kept_count-all p (q ∷ qs) n h =
      ground (arith, kept_count-cons p q qs n n, kept_count-all p qs n h, bucket-lt n q.record_id h)

  keep_if-single : (qs : List LlmRequest) → keep_if (in_shard 1 0) qs ≡ qs
  unfolding bucket
  keep_if-single [] = refl
  keep_if-single (q ∷ qs) =
      let first : (digest q.record_id % 1 == 0) ≡ true = ground arith in
      rw (first, keep_if) (ap (λ rest. q ∷ rest) (keep_if-single qs))

  select_shard-count :
      (p : LlmRequest → Bool) (qs : List LlmRequest) (n i : ℕ)
      → i < n
      → shard_count p (select_shard qs n i) ≡ count p (keep_if (in_shard n i) qs)
  unfolding select_shard
  select_shard-count p qs n i h =
      let some_shards : ltb n 1 ≡ false = ground arith in
      let such_shard : ltb i n ≡ true = ground arith in
      elim (Bool-cases (n == 1)) [
        | inl single ↦
            let n_one : n ≡ 1 = ground arith in
            let i_zero : i ≡ 0 = omega arith in
            rw (some_shards, such_shard, single, select_shard)
              (ap (count p) (sym (keep_if-single qs))
                ∙ (λ t. count p (keep_if (in_shard (sym n_one t) (sym i_zero t)) qs)))
        | inr several ↦ rw (some_shards, such_shard, several, select_shard) refl
      ]

  shards_count-kept :
      (p : LlmRequest → Bool) (qs : List LlmRequest) (n k : ℕ)
      → k ≤ n
      → shards_count p qs n k ≡ kept_count p qs n k
  shards_count-kept p qs n zero h = refl
  shards_count-kept p qs n (suc k) h =
      omega
        (arith, shards_count-kept p qs n k (omega arith), select_shard-count p qs n k (omega arith))

  -- The shards share the requests out: whatever property is counted, the shards hold together as many
  -- requests with it as there are.
  pub shards_count-all :
      (p : LlmRequest → Bool) (requests : List LlmRequest) (num_shards : ℕ)
      → 1 ≤ num_shards
      → shards_count p requests num_shards num_shards ≡ count p requests
  shards_count-all p requests num_shards h =
      shards_count-kept p requests num_shards num_shards (omega arith)
      ∙ kept_count-all p requests num_shards h
