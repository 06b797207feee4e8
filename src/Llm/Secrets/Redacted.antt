-- ===== src/Llm/Secrets/Redacted.antt =====
-- What `redact_mapping` hides, and what `_reject_secret_fields` refuses.
use flow_security_agent.Llm.Secrets.{
  entries_in, item_entries, field_entries, has_secret_field, items_have_secret, fields_have_secret,
  is_sensitive, redact_mapping, redact_items, redact_fields,
}
use flow_security_agent.Contracts.Values.{Value, Items, Fields}
use flow_security_agent.Prelude.{
  String, Bool, true, false, ◌||◌, ◌≡◌, refl, ◌↔◌, arith, All, All-append, All-of_append,
  if◌then◌else◌,
}

-- An entry under a key that looks like a secret's shows nothing.
abbrev pub IsRedacted : String × Value → Type 0
IsRedacted (k, v) = is_sensitive k ≡ true → v ≡ Value.text "[REDACTED]"

entry-IsRedacted :
    (k : String) (v : Value) → IsRedacted (k, if is_sensitive k then Value.text "[REDACTED]" else v)
entry-IsRedacted k v h = rw h refl

entry_All :
    (b : Bool) (v : Value)
    → All IsRedacted (entries_in v)
    → All IsRedacted (entries_in (if b then Value.text "[REDACTED]" else v))
unfolding entries_in
entry_All true v h = tt
entry_All false v h = h

mutual
  unfolding redact_mapping redact_items redact_fields entries_in item_entries field_entries

  mapping-IsRedacted :
      (f : String → String) (v : Value) → All IsRedacted (entries_in (redact_mapping f v))
  mapping-IsRedacted f (Value.list xs) = items-IsRedacted f xs
  mapping-IsRedacted f (Value.dict fs) = fields-IsRedacted f fs
  mapping-IsRedacted f (Value.text s) = tt
  mapping-IsRedacted f Value.null = tt
  mapping-IsRedacted f (Value.flag b) = tt
  mapping-IsRedacted f (Value.int n) = tt
  mapping-IsRedacted f (Value.real x) = tt

  items-IsRedacted :
      (f : String → String) (xs : Items) → All IsRedacted (item_entries (redact_items f xs))
  items-IsRedacted f Items.nil = tt
  items-IsRedacted f (Items.cons v vs) =
      All-append IsRedacted (entries_in (redact_mapping f v)) (item_entries (redact_items f vs))
        (mapping-IsRedacted f v) (items-IsRedacted f vs)

  fields-IsRedacted :
      (f : String → String) (fs : Fields) → All IsRedacted (field_entries (redact_fields f fs))
  fields-IsRedacted f Fields.end = tt
  fields-IsRedacted f (Fields.field k v fs) = (
    entry-IsRedacted k (redact_mapping f v),
    All-append IsRedacted
        (entries_in (if is_sensitive k then Value.text "[REDACTED]" else redact_mapping f v))
        (field_entries (redact_fields f fs))
        (entry_All (is_sensitive k) (redact_mapping f v) (mapping-IsRedacted f v))
        (fields-IsRedacted f fs),
  )

-- Whatever is done to texts, a redacted value shows nothing under a key that looks like a secret's, at
-- any depth.
pub redact_mapping-IsRedacted :
    (redact_text : String → String) (v : Value)
    → All IsRedacted (entries_in (redact_mapping redact_text v))
redact_mapping-IsRedacted redact_text v = mapping-IsRedacted redact_text v

or→neither : (a b : Bool) → (a || b) ≡ false → (a ≡ false) × (b ≡ false)
or→neither a b h = ground arith

abbrev pub IsHarmless : String × Value → Type 0
IsHarmless (k, v) = is_sensitive k ≡ false

mutual
  unfolding has_secret_field items_have_secret fields_have_secret entries_in item_entries
      field_entries

  field_found : (v : Value) → has_secret_field v ≡ false → All IsHarmless (entries_in v)
  field_found (Value.list xs) h = item_found xs h
  field_found (Value.dict fs) h = fields_found fs h
  field_found (Value.text s) h = tt
  field_found Value.null h = tt
  field_found (Value.flag b) h = tt
  field_found (Value.int n) h = tt
  field_found (Value.real x) h = tt

  item_found : (xs : Items) → items_have_secret xs ≡ false → All IsHarmless (item_entries xs)
  item_found Items.nil h = tt
  item_found (Items.cons v vs) h =
      let rest = or→neither (has_secret_field v) (items_have_secret vs) h in
      All-append IsHarmless (entries_in v) (item_entries vs) (field_found v rest.0)
        (item_found vs rest.1)

  fields_found : (fs : Fields) → fields_have_secret fs ≡ false → All IsHarmless (field_entries fs)
  fields_found Fields.end h = tt
  fields_found (Fields.field k v fs) h = (
    (or→neither _ _ h).0,
    (let rest = or→neither (has_secret_field v) (fields_have_secret fs) (or→neither _ _ h).1 in
        All-append IsHarmless (entries_in v) (field_entries fs) (field_found v rest.0)
          (fields_found fs rest.1)),
  )

mutual
  unfolding has_secret_field items_have_secret fields_have_secret entries_in item_entries
      field_entries

  field_clean : (v : Value) → All IsHarmless (entries_in v) → has_secret_field v ≡ false
  field_clean (Value.list xs) h = item_clean xs h
  field_clean (Value.dict fs) h = fields_clean fs h
  field_clean (Value.text s) h = refl
  field_clean Value.null h = refl
  field_clean (Value.flag b) h = refl
  field_clean (Value.int n) h = refl
  field_clean (Value.real x) h = refl

  item_clean : (xs : Items) → All IsHarmless (item_entries xs) → items_have_secret xs ≡ false
  item_clean Items.nil h = refl
  item_clean (Items.cons v vs) h =
      let (front, back) = All-of_append IsHarmless (entries_in v) (item_entries vs) h in
      ground (arith, field_clean v front, item_clean vs back)

  fields_clean : (fs : Fields) → All IsHarmless (field_entries fs) → fields_have_secret fs ≡ false
  fields_clean Fields.end h = refl
  fields_clean (Fields.field k v fs) h =
      let (front, back) = All-of_append IsHarmless (entries_in v) (field_entries fs) h.1 in
      ground (arith, h.0, field_clean v front, fields_clean fs back)

-- Options and metadata pass `_reject_secret_fields` exactly when no key, at any depth, looks like a
-- secret's.
pub has_secret_field_iff :
    (v : Value) → (has_secret_field v ≡ false) ↔ All IsHarmless (entries_in v)
has_secret_field_iff v = (field_found v, field_clean v)
