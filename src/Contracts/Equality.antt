-- ===== src/Contracts/Equality.antt =====
-- Python's `==` on values: numbers compare across bool, int and float, and dicts by their entries,
-- whatever the order.
use flow_security_agent.Prelude.{
  ℕ, suc, ◌*◌, String, Bool, true, false, ◌&&◌, Option, none, some, ◌==◌, str_eq,
}
use Prim.Native.Nat.{◌^◌}
use flow_security_agent.Prelude.Int.{ℤ, pos, negsuc}
use flow_security_agent.Contracts.Values.{Value, Items, Fields, get_field}

-- An int in the unit of the floats, 2 ^ -1074.
int_units : ℤ → ℤ
int_units (pos n) = pos (n * 2 ^ 1074)
int_units (negsuc n) = negsuc (suc n * 2 ^ 1074)

number_of : Value → Option ℤ
unfolding int_units
number_of (Value.flag true) = some (int_units (pos 1))
number_of (Value.flag false) = some (pos 0)
number_of (Value.int n) = some (int_units n)
number_of (Value.real x) = some x
number_of _ = none

eq_int : ℤ → ℤ → Bool
eq_int (pos a) (pos b) = a == b
eq_int (negsuc a) (negsuc b) = a == b
eq_int _ _ = false

eq_number : Option ℤ → Option ℤ → Bool
unfolding eq_int
eq_number (some a) (some b) = eq_int a b
eq_number _ _ = false

is_null : Value → Bool
is_null Value.null = true
is_null _ = false

is_text : String → Value → Bool
is_text s (Value.text t) = str_eq s t
is_text s _ = false

items_of : Value → Option Items
items_of (Value.list xs) = some xs
items_of _ = none

fields_of : Value → Option Fields
fields_of (Value.dict fs) = some fs
fields_of _ = none

size_fields : Fields → ℕ
size_fields Fields.end = 0
size_fields (Fields.field k v fs) = suc (size_fields fs)

unfoldable mutual
  unfolding number_of eq_number is_null is_text items_of fields_of size_fields get_field

  pub eq_value : Value → Value → Bool
  eq_value (Value.flag b) w = eq_number (number_of (Value.flag b)) (number_of w)
  eq_value (Value.int n) w = eq_number (number_of (Value.int n)) (number_of w)
  eq_value (Value.real x) w = eq_number (number_of (Value.real x)) (number_of w)
  eq_value Value.null w = is_null w
  eq_value (Value.text s) w = is_text s w
  eq_value (Value.list xs) w = elim (items_of w) [ none ↦ false | some ys ↦ eq_items xs ys ]
  eq_value (Value.dict fs) w = elim (fields_of w) [
    | none ↦ false
    | some gs ↦ size_fields fs == size_fields gs && within_fields fs gs
  ]

  pub eq_items : Items → Items → Bool
  eq_items Items.nil Items.nil = true
  eq_items Items.nil (Items.cons w ws) = false
  eq_items (Items.cons v vs) Items.nil = false
  eq_items (Items.cons v vs) (Items.cons w ws) = eq_value v w && eq_items vs ws

  pub within_fields : Fields → Fields → Bool
  within_fields Fields.end gs = true
  within_fields (Fields.field k v fs) gs = elim (get_field k gs) [
    | none ↦ false
    | some w ↦ eq_value v w && within_fields fs gs
  ]

unfoldable pub eq_dict : Fields → Fields → Bool
unfolding eq_value
eq_dict fs gs = eq_value (Value.dict fs) (Value.dict gs)
