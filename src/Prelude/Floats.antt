-- ===== src/Prelude/Floats.antt =====
-- Non-negative Python floats. A finite double is a whole multiple of 2 ^ -1074, so it is written as
-- that multiple, a natural number. An operation computes exactly and then rounds; how it rounds is
-- the host's business, and only what IEEE 754 states of it is used: rounding is monotone, and leaves
-- a number alone that is a double already. Infinities and overflow to them are left out.
use Prim.Native.Nat.{ℕ, ◌+◌, ◌-◌, ◌≤◌}
use mathlib.Core.Path.{◌≡◌, refl}

pub record Rounding : Type 0 where
  pub round : ℕ → ℕ
  pub round_mono : (a b : ℕ) → a ≤ b → round a ≤ round b
  pub round_idem : (a : ℕ) → round (round a) ≡ round a
  pub round_zero : round 0 ≡ 0

module _ ⦃r : Rounding⦄ where
  abbrev pub float_add : ℕ → ℕ → ℕ
  float_add a b = r.round (a + b)

  -- Used only where `b ≤ a`.
  abbrev pub float_sub : ℕ → ℕ → ℕ
  float_sub a b = r.round (a - b)

  abbrev pub IsFloat : ℕ → Type 0
  IsFloat a = r.round a ≡ a

-- Numbers for which no rounding is needed, such as small whole amounts.
instance abbrev pub exact : Rounding
exact = record {
  round = λ a. a;
  round_mono = λ a b h. h;
  round_idem = λ a. refl;
  round_zero = refl;
}
