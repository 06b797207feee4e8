-- ===== src/Contracts/Visible.antt =====
-- `validate_model_visible_value` of src/flowsec/runtime/contracts.py: the check that keeps names,
-- addresses and absolute times of the backend out of what a model sees. Characters are ASCII: the
-- case folding and the classes `\d`, `\w` of wider Unicode are left out. The location that the
-- source puts into its message is left out too.
pub mod Scan
pub mod Search
pub mod Quad
pub mod Reading
use flow_security_agent.Contracts.Values.{Value, Items, Fields}
use flow_security_agent.Prelude.{ℕ, String, Bool, List, Option, none, some, if◌then◌else◌, any}
use Scan.{codes, normalize, prohibited_names, eq_codes, contains, has_ipv4, has_absolute_time}

pub data Rejection : Type 0 where
  backend_field : String → Rejection
  backend_marker raw_ipv4 absolute_timestamp : Rejection

unfoldable pub is_prohibited_name : List ℕ → Bool
is_prohibited_name key = any (λ name. eq_codes name key) prohibited_names

unfoldable pub has_marker : List ℕ → Bool
has_marker s = any (λ name. contains name s) prohibited_names

-- The case of a `str`.
unfoldable pub check_text : String → Option Rejection
check_text s =
    if has_marker (normalize (codes s))
    then some Rejection.backend_marker
    else if has_ipv4 (codes s)
    then some Rejection.raw_ipv4
    else if has_absolute_time (codes s)
    then some Rejection.absolute_timestamp
    else none

-- The first exception ends the loop over a container.
abbrev pub or_else : Option Rejection → Option Rejection → Option Rejection
or_else none next = next
or_else (some r) next = some r

unfoldable mutual
  pub check_value : Value → Option Rejection
  check_value (Value.text s) = check_text s
  check_value (Value.list xs) = check_items xs
  check_value (Value.dict fs) = check_fields fs
  check_value _ = none

  pub check_items : Items → Option Rejection
  check_items Items.nil = none
  check_items (Items.cons v vs) = or_else (check_value v) (check_items vs)

  pub check_fields : Fields → Option Rejection
  check_fields Fields.end = none
  check_fields (Fields.field k v fs) =
      if is_prohibited_name (normalize (codes k))
      then some (Rejection.backend_field k)
      else or_else (check_value v) (check_fields fs)

abbrev pub passes : Option Rejection → Bool
passes none = Bool.true
passes (some _) = Bool.false
