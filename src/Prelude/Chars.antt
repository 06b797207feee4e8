-- ===== src/Prelude/Chars.antt =====
-- Texts as lists of characters, and `str.strip` with its halves; white space is ASCII.
use flow_security_agent.Prelude.Text.{is_space}
use flow_security_agent.Prelude.{ℕ, ◌&&◌, List, [], ◌∷◌, is_empty, if◌then◌else◌}

abbrev pub Chars : Type 0
Chars = List ℕ

unfoldable pub rstrip : Chars → Chars
rstrip [] = []
rstrip (c ∷ cs) = let rest = rstrip cs in if is_space c && is_empty rest then [] else c ∷ rest

unfoldable pub lstrip : Chars → Chars
lstrip [] = []
lstrip (c ∷ cs) = let rest = lstrip cs in if is_space c then rest else c ∷ cs

unfoldable pub strip : Chars → Chars
unfolding rstrip lstrip
strip s = lstrip (rstrip s)
