-- ===== src/Contracts/Visible/Reading.antt =====
-- Which values pass `validate_model_visible_value`: what they hold at any depth is read off, and
-- compared with the names and the two patterns.
use flow_security_agent.Contracts.Values.{Value, Items, Fields}
use flow_security_agent.Contracts.Visible.{
  Rejection, check_fields, check_items, check_text, check_value, has_marker, is_prohibited_name,
  or_else,
}
use flow_security_agent.Contracts.Visible.Quad.{IsQuad, octets_iff}
use flow_security_agent.Contracts.Visible.Scan.{
  codes, contains, eq_codes, has_absolute_time, has_ipv4, is_digit, is_word, matches, normalize,
  octets, prohibited_names, time_pattern, split_digits,
}
use flow_security_agent.Contracts.Visible.Search.{Found, Occurs, contains_iff, search_from_iff}
use mathlib.Core.Path.{subst}
use flow_security_agent.Prelude.{
  ℕ, String, ◌≡◌, ◌≢◌, ◌↔◌, refl, Bool, true, false, List, [], ◌∷◌, ◌++◌, Option, none, some, arith,
  any, All, All-append, All-of_append, if◌then◌else◌,
}

-- The texts and the keys of a value, at any depth.
unfoldable mutual
  pub texts_in : Value → List String
  texts_in (Value.text s) = s ∷ []
  texts_in (Value.list xs) = item_texts xs
  texts_in (Value.dict fs) = field_texts fs
  texts_in _ = []

  item_texts : Items → List String
  item_texts Items.nil = []
  item_texts (Items.cons v vs) = texts_in v ++ item_texts vs

  field_texts : Fields → List String
  field_texts Fields.end = []
  field_texts (Fields.field k v fs) = texts_in v ++ field_texts fs

unfoldable mutual
  pub keys_in : Value → List String
  keys_in (Value.list xs) = item_keys xs
  keys_in (Value.dict fs) = field_keys fs
  keys_in _ = []

  item_keys : Items → List String
  item_keys Items.nil = []
  item_keys (Items.cons v vs) = keys_in v ++ item_keys vs

  field_keys : Fields → List String
  field_keys Fields.end = []
  field_keys (Fields.field k v fs) = k ∷ keys_in v ++ field_keys fs

-- A text without a prohibited name in it, without four octets in dots that no digit surrounds, and
-- without a date and a time that no word character stands before.
abbrev pub IsPlain : String → Type 0
IsPlain s =
    All (λ name. ¬ Occurs name (normalize (codes s))) prohibited_names
    × ((¬ Found (IsQuad 3) is_digit false (codes s))
        × ¬ Found (λ t. matches time_pattern t ≡ true) is_word false (codes s))

-- A key that is no prohibited name.
abbrev pub IsPlainKey : String → Type 0
IsPlainKey k = All (λ name. name ≢ normalize (codes k)) prohibited_names

any_iff :
    (p : List ℕ → Bool) (Q : List ℕ → Type 0)
    → ((x : List ℕ) → (p x ≡ true) ↔ Q x)
    → (xs : List (List ℕ)) → (any p xs ≡ false) ↔ All (λ x. ¬ Q x) xs
any_iff p Q i [] = ((λ e. tt), (λ h. refl))
any_iff p Q i (x ∷ xs) = (
  (λ e. ((λ q. absurd (ground (arith, e, (i x).1 q))), (any_iff p Q i xs).0 (ground (arith, e)))),
  (λ h. ground (arith, false_of (p x) (λ e. h.0 ((i x).0 e)), (any_iff p Q i xs).1 h.1)),
)
  where
    false_of : (b : Bool) → ¬ (b ≡ true) → b ≡ false
    false_of true n = absurd (n refl)
    false_of false n = refl

eq_codes-eq : (s t : List ℕ) → eq_codes s t ≡ true → s ≡ t
unfolding eq_codes
eq_codes-eq [] [] h = refl
eq_codes-eq [] (d ∷ ds) h = absurd (ground arith)
eq_codes-eq (c ∷ cs) [] h = absurd (ground arith)
eq_codes-eq (c ∷ cs) (d ∷ ds) h =
    let e : c ≡ d = ground arith in ground (arith, e, eq_codes-eq cs ds (ground arith))

eq_codes_self : (s : List ℕ) → eq_codes s s ≡ true
unfolding eq_codes
eq_codes_self [] = refl
eq_codes_self (c ∷ cs) = ground (arith, eq_codes_self cs)

prohibited_iff : (k : String) → (is_prohibited_name (normalize (codes k)) ≡ false) ↔ IsPlainKey k
unfolding is_prohibited_name
prohibited_iff k =
    any_iff (λ name. eq_codes name (normalize (codes k))) (λ name. name ≡ normalize (codes k))
      (λ name. (
        eq_codes-eq name (normalize (codes k)),
        (λ e. subst (λ t. eq_codes name t ≡ true) e (eq_codes_self name)),
      ))
      prohibited_names

marker_iff :
    (s : String)
    → (has_marker (normalize (codes s)) ≡ false)
      ↔ All (λ name. ¬ Occurs name (normalize (codes s))) prohibited_names
unfolding has_marker
marker_iff s =
    any_iff (λ name. contains name (normalize (codes s)))
      (λ name. Occurs name (normalize (codes s))) (λ name. contains_iff name (normalize (codes s)))
      prohibited_names

ipv4_iff : (t : List ℕ) → (has_ipv4 t ≡ true) ↔ Found (IsQuad 3) is_digit false t
unfolding has_ipv4 octets split_digits
ipv4_iff t = search_from_iff (octets 3) (IsQuad 3) is_digit empty (octets_iff 3) false t
  where
    empty : octets 3 [] ≡ false
    empty = refl

time_iff :
    (t : List ℕ)
    → (has_absolute_time t ≡ true) ↔ Found (λ r. matches time_pattern r ≡ true) is_word false t
unfolding has_absolute_time matches time_pattern
time_iff t =
    search_from_iff (matches time_pattern) (λ r. matches time_pattern r ≡ true) is_word empty
      (λ r. ((λ e. e), (λ e. e))) false t
  where
    empty : matches time_pattern [] ≡ false
    empty = refl

false_iff : {Q : Type 0} (b : Bool) → (b ≡ true) ↔ Q → (b ≡ false) ↔ ¬ Q
false_iff true i = ((λ e. absurd (ground arith)), (λ n. absurd (n (i.0 refl))))
false_iff false i = ((λ e q. absurd (ground (arith, i.1 q))), (λ n. refl))

check_text_iff : (s : String) → (check_text s ≡ none) ↔ IsPlain s
unfolding check_text
check_text_iff s =
    let marker = marker_iff s in
    let ipv4 = false_iff (has_ipv4 (codes s)) (ipv4_iff (codes s)) in
    let time = false_iff (has_absolute_time (codes s)) (time_iff (codes s)) in
    (
      (λ e.
          (marker.0 (ground (arith, e)), (ipv4.0 (ground (arith, e)), time.0 (ground (arith, e))))),
      (λ p. ground (arith, marker.1 p.0, ipv4.1 p.1.0, time.1 p.1.1)),
    )

-- A value whose parts are plain.
abbrev IsClean : List String → List String → Type 0
IsClean texts keys = All IsPlain texts × All IsPlainKey keys

-- Of two checks in a row both pass.
both_iff :
    (x y : Option Rejection) (ts us ks ls : List String)
    → (x ≡ none) ↔ IsClean ts ks
    → (y ≡ none) ↔ IsClean us ls
    → (or_else x y ≡ none) ↔ IsClean (ts ++ us) (ks ++ ls)
both_iff none y ts us ks ls i j = (
  (λ e.
      let a = i.0 refl in
      let b = j.0 e in (All-append IsPlain ts us a.0 b.0, All-append IsPlainKey ks ls a.1 b.1)),
  (λ c. j.1 ((All-of_append IsPlain ts us c.0).1, (All-of_append IsPlainKey ks ls c.1).1)),
)
both_iff (some r) y ts us ks ls i j = (
  (λ e. absurd (ground arith)),
  (λ c. absurd (
      some_ne (i.1 ((All-of_append IsPlain ts us c.0).0, (All-of_append IsPlainKey ks ls c.1).0)))),
)
  where
    some_ne : some r ≡ none → ⊥
    some_ne e = ground arith

key_iff :
    (k : String) (x : Option Rejection) (ts ks : List String)
    → (x ≡ none) ↔ IsClean ts ks
    → ((if is_prohibited_name (normalize (codes k)) then some (Rejection.backend_field k) else x)
        ≡ none)
      ↔ IsClean ts (k ∷ ks)
key_iff k x ts ks i =
    let key = prohibited_iff k in
    (
      (λ e. let c = i.0 (ground (arith, e)) in (c.0, (key.0 (ground (arith, e)), c.1))),
      (λ c. let free = key.1 c.1.0 in let rest = i.1 (c.0, c.1.1) in ground (arith, free, rest)),
    )

mutual
  unfolding check_value texts_in keys_in

  value_iff : (v : Value) → (check_value v ≡ none) ↔ IsClean (texts_in v) (keys_in v)
  value_iff (Value.text s) =
      let i = check_text_iff s in ((λ e. ((i.0 e, tt), tt)), (λ c. i.1 c.0.0))
  value_iff (Value.list xs) = items_iff xs
  value_iff (Value.dict fs) = fields_iff fs
  value_iff Value.null = ((λ e. (tt, tt)), (λ c. refl))
  value_iff (Value.flag b) = ((λ e. (tt, tt)), (λ c. refl))
  value_iff (Value.int n) = ((λ e. (tt, tt)), (λ c. refl))
  value_iff (Value.real x) = ((λ e. (tt, tt)), (λ c. refl))

  items_iff : (xs : Items) → (check_items xs ≡ none) ↔ IsClean (item_texts xs) (item_keys xs)
  items_iff Items.nil = ((λ e. (tt, tt)), (λ c. refl))
  items_iff (Items.cons v vs) =
      both_iff (check_value v) (check_items vs) (texts_in v) (item_texts vs) (keys_in v)
        (item_keys vs) (value_iff v) (items_iff vs)

  fields_iff : (fs : Fields) → (check_fields fs ≡ none) ↔ IsClean (field_texts fs) (field_keys fs)
  fields_iff Fields.end = ((λ e. (tt, tt)), (λ c. refl))
  fields_iff (Fields.field k v fs) = key_iff k _ _ _ (
      both_iff (check_value v) (check_fields fs) (texts_in v) (field_texts fs) (keys_in v)
        (field_keys fs) (value_iff v) (fields_iff fs))

-- A value passes `validate_model_visible_value` exactly when, at any depth, every key is no prohibited
-- name, and every text holds no prohibited name, no IPv4 address and no absolute time. Names are
-- compared with small letters and with underscores for dashes.
pub check_value_iff :
    (v : Value) → (check_value v ≡ none) ↔ (All IsPlain (texts_in v) × All IsPlainKey (keys_in v))
check_value_iff v = value_iff v
