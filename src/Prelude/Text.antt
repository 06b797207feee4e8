-- ===== src/Prelude/Text.antt =====
-- Python's operations on texts that the runtime uses: `str.split()`, `str()` of a natural number and
-- `+`. White space and letters are ASCII.
use Prim.Native.Nat.{◌/◌, ◌%◌}
use Prim.Native.Char.{code}
use Prim.Native.String.{◌++◌}
use flow_security_agent.Prelude.{
  ℕ, zero, suc, String, Bool, false, List, [], ◌∷◌, ◌||◌, ◌&&◌, ◌≡◌, arith, eq_iff, leb, ltb,
  str_eq, if◌then◌else◌,
}

abbrev pub is_space : ℕ → Bool
is_space c = leb 9 c && leb c 13 || leb 28 c && leb c 32

-- A word, if it is one, before the words that follow it.
unfoldable pub push_word : String → List String → List String
push_word w ws = if str_eq w "" then ws else w ∷ ws

-- The characters up to the first white space, and the words behind it.
unfoldable pub split_lead : String → String × List String
unfolding push_word
split_lead String.[] = ("", [])
split_lead (String.◌∷◌ c s) =
    let (w, ws) = split_lead s in
    if is_space (code c) then ("", push_word w ws) else (String.◌∷◌ c w, ws)

unfoldable pub split : String → List String
unfolding split_lead
split s = let (w, ws) = split_lead s in push_word w ws

digit_text : ℕ → String
digit_text zero = "0"
digit_text (suc zero) = "1"
digit_text (suc (suc zero)) = "2"
digit_text (suc (suc (suc zero))) = "3"
digit_text (suc (suc (suc (suc zero)))) = "4"
digit_text (suc (suc (suc (suc (suc zero))))) = "5"
digit_text (suc (suc (suc (suc (suc (suc zero)))))) = "6"
digit_text (suc (suc (suc (suc (suc (suc (suc zero))))))) = "7"
digit_text (suc (suc (suc (suc (suc (suc (suc (suc zero)))))))) = "8"
digit_text _ = "9"

-- A number below 10 ^ fuel in decimal.
show_fuel : ℕ → ℕ → String
unfolding digit_text
show_fuel zero n = ""
show_fuel (suc fuel) n =
    let front = show_fuel fuel (n / 10) in
    if ltb n 10 then digit_text n else front ++ digit_text (n % 10)

-- A number has at most as many digits as its value, and one more for 0.
unfoldable pub show_nat : ℕ → String
unfolding show_fuel
show_nat n = show_fuel (suc n) n

infixr 65 ◌<>◌
abbrev pub ◌<>◌ : String → String → String
s <> t = s ++ t

pub str_eq_comm : (s t : String) → str_eq s t ≡ false → str_eq t s ≡ false
str_eq_comm s t h = ground (arith, eq_iff s t, eq_iff t s)
