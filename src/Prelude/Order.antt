-- ===== src/Prelude/Order.antt =====
-- Python's order of texts, by code points, and `sorted(..., key=...)` by a text.
use Prim.Native.Char.{code}
use text.Mathlib.TextEquality.{Char-path}
use Prim.Native.String.{String}
use mathlib.Core.Bool.{Bool, true, false, ◌&&◌, ◌||◌}
use mathlib.Core.Logic.{inl, inr}
use mathlib.Core.Path.{◌≡◌, refl}
use native.Mathlib.Omega.{arith}
use flow_security_agent.Prelude.Tests.{ltb, ◌==◌, Bool-cases}

unfoldable pub text_lt : String → String → Bool
text_lt String.[] String.[] = false
text_lt String.[] (String.◌∷◌ d t) = true
text_lt (String.◌∷◌ c s) String.[] = false
text_lt (String.◌∷◌ c s) (String.◌∷◌ d t) = ltb (code c) (code d) || code c == code d && text_lt s t

pub text_lt_trans : (r s t : String) → text_lt r s ≡ true → text_lt s t ≡ true → text_lt r t ≡ true
unfolding text_lt
text_lt_trans String.[] String.[] t h k = cc
text_lt_trans String.[] (String.◌∷◌ d s) String.[] h k = cc
text_lt_trans String.[] (String.◌∷◌ d s) (String.◌∷◌ e t) h k = refl
text_lt_trans (String.◌∷◌ c r) String.[] t h k = cc
text_lt_trans (String.◌∷◌ c r) (String.◌∷◌ d s) String.[] h k = cc
text_lt_trans (String.◌∷◌ c r) (String.◌∷◌ d s) (String.◌∷◌ e t) h k =
    ground (arith, text_lt_trans r s t)

pub text_lt_irrefl : (s : String) → text_lt s s ≡ false
unfolding text_lt
text_lt_irrefl String.[] = refl
text_lt_irrefl (String.◌∷◌ c s) = ground (arith, text_lt_irrefl s)

-- Of two texts that are not equal one comes first.
pub text_lt_total : (s t : String) → text_lt s t ≡ false → text_lt t s ≡ false → s ≡ t
unfolding text_lt
text_lt_total String.[] String.[] h k = refl
text_lt_total String.[] (String.◌∷◌ d t) h k = cc
text_lt_total (String.◌∷◌ c s) String.[] h k = cc
text_lt_total (String.◌∷◌ c s) (String.◌∷◌ d t) h k =
    ap₂_cons (Char-path c d (ground arith)) (text_lt_total s t (ground arith) (ground arith))
  where
    ap₂_cons : {c d : _} {s t : String} → c ≡ d → s ≡ t → String.◌∷◌ c s ≡ String.◌∷◌ d t
    ap₂_cons p q = cc

pub text_lt_asym : (s t : String) → text_lt s t ≡ true → text_lt t s ≡ false
text_lt_asym s t h = elim (Bool-cases (text_lt t s)) [
  | inl back ↦ ground (arith, text_lt_trans s t s h back, text_lt_irrefl s)
  | inr none_back ↦ none_back
]
