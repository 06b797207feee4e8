-- ===== src/Contracts/Values.antt =====
-- Values of Python's `Any`, as far as JSON has them: what a dict of parameters, signals, metadata or
-- a trace summary holds. Tuples and sets are lists here.
use flow_security_agent.Prelude.{
  ℕ, String, Bool, List, [], ◌∷◌, Option, none, some, str_eq, if◌then◌else◌,
}
use flow_security_agent.Prelude.Int.{ℤ, pos}

mutual
  pub data Value : Type 0 where
    null : Value
    flag : Bool → Value
    int : ℤ → Value
    real : ℤ → Value
    text : String → Value
    list : Items → Value
    dict : Fields → Value

  pub data Items : Type 0 where
    nil : Items
    cons : Value → Items → Items

  pub data Fields : Type 0 where
    end : Fields
    field : String → Value → Fields → Fields

abbrev pub nat : ℕ → Value
nat n = int (pos n)

-- The entry of a dict literal, `k : v`, followed by the rest.
abbrev pub opt_text : Option String → Value
opt_text none = null
opt_text (some s) = text s

pub texts : List String → Items
texts [] = nil
texts (s ∷ ss) = cons (text s) (texts ss)

-- `fields.get(key)`
unfoldable pub get_field : String → Fields → Option Value
get_field k end = none
get_field k (field j v fs) = if str_eq j k then some v else get_field k fs
