-- ===== src/Llm/Secrets.antt =====
-- The keys that look like a secret's, in src/flowsec/integrations/llm/contracts.py:
-- `_reject_secret_fields` and `redact_mapping`. Case is folded for ASCII letters only.
pub mod Redacted
use flow_security_agent.Contracts.Values.{Value, Items, Fields}
use flow_security_agent.Contracts.Visible.Reading.{keys_in}
use flow_security_agent.Contracts.Visible.Scan.{codes, contains}
use flow_security_agent.Memory.{casefold}
use flow_security_agent.Prelude.{
  ℕ, String, Bool, true, false, not, ◌&&◌, ◌||◌, List, [], ◌∷◌, ◌++◌, Option, none, some, ◌≡◌, refl,
  ◌↔◌, ap, arith, any, All, All-append, All-of_append, Bool-cases, inl, inr, if◌then◌else◌,
}

-- The texts that `_SENSITIVE_KEY` matches.
unfoldable pub sensitive_names : List (List ℕ)
sensitive_names =
    codes "apikey"
    ∷ codes "api_key"
    ∷ codes "api-key"
    ∷ codes "authorization"
    ∷ codes "bearer"
    ∷ codes "password"
    ∷ codes "passwd"
    ∷ codes "secret"
    ∷ codes "accesstoken"
    ∷ codes "access_token"
    ∷ codes "access-token"
    ∷ codes "privatekey"
    ∷ codes "private_key"
    ∷ codes "private-key"
    ∷ []

-- `_SENSITIVE_KEY.search(key)`
unfoldable pub is_sensitive : String → Bool
unfolding sensitive_names
is_sensitive key = any (λ name. contains name (casefold key)) sensitive_names

-- `_reject_secret_fields`: whether it raises.
unfoldable mutual
  unfolding is_sensitive

  pub has_secret_field : Value → Bool
  has_secret_field (Value.list xs) = items_have_secret xs
  has_secret_field (Value.dict fs) = fields_have_secret fs
  has_secret_field _ = false

  pub items_have_secret : Items → Bool
  items_have_secret Items.nil = false
  items_have_secret (Items.cons v vs) = has_secret_field v || items_have_secret vs

  pub fields_have_secret : Fields → Bool
  fields_have_secret Fields.end = false
  fields_have_secret (Fields.field k v fs) =
      is_sensitive k || (has_secret_field v || fields_have_secret fs)

-- `redact_mapping`, for any way to redact a text.
unfoldable mutual
  unfolding is_sensitive

  pub redact_mapping : (String → String) → Value → Value
  redact_mapping redact_text (Value.list xs) = Value.list (redact_items redact_text xs)
  redact_mapping redact_text (Value.dict fs) = Value.dict (redact_fields redact_text fs)
  redact_mapping redact_text (Value.text s) = Value.text (redact_text s)
  redact_mapping redact_text Value.null = Value.null
  redact_mapping redact_text (Value.flag b) = Value.flag b
  redact_mapping redact_text (Value.int n) = Value.int n
  redact_mapping redact_text (Value.real x) = Value.real x

  pub redact_items : (String → String) → Items → Items
  redact_items redact_text Items.nil = Items.nil
  redact_items redact_text (Items.cons v vs) =
      Items.cons (redact_mapping redact_text v) (redact_items redact_text vs)

  pub redact_fields : (String → String) → Fields → Fields
  redact_fields redact_text Fields.end = Fields.end
  redact_fields redact_text (Fields.field k v fs) =
      Fields.field k
        (if is_sensitive k then Value.text "[REDACTED]" else redact_mapping redact_text v)
        (redact_fields redact_text fs)

-- The entries of the dicts of a value, at any depth.
unfoldable mutual
  pub entries_in : Value → List (String × Value)
  entries_in (Value.list xs) = item_entries xs
  entries_in (Value.dict fs) = field_entries fs
  entries_in _ = []

  pub item_entries : Items → List (String × Value)
  item_entries Items.nil = []
  item_entries (Items.cons v vs) = entries_in v ++ item_entries vs

  pub field_entries : Fields → List (String × Value)
  field_entries Fields.end = []
  field_entries (Fields.field k v fs) = (k, v) ∷ entries_in v ++ field_entries fs
