-- ===== src/Base/Int.antt =====
-- Python's integers, over the native numbers, with the operations that the program uses of them.
use Prim.Native.Nat.{ℕ, ◌-◌, ◌/◌, ◌%◌, ◌^◌, min}
use mathlib.Core.Logic.{◌↔◌}
use mathlib.Core.Path.{◌≡◌}
use mathlib.Core.Bool.{Bool, true, false}
use native.Mathlib.Omega.{arith}
use telemetryd.Base.Tests.{if◌then◌else◌, leb, ltb, ◌==◌}

-- `negsuc n` is -(n + 1).
pub data ℤ : Type 0 where
  pos : ℕ → ℤ
  negsuc : ℕ → ℤ

-- `(z >> lo) & (2 ** w - 1)`. The shift rounds towards minus infinity, and -(n + 1) is the
-- complement of n.
abbrev pub bits : ℤ → ℕ → ℕ → ℕ
bits (pos n) lo w = n / 2 ^ lo % 2 ^ w
bits (negsuc n) lo w = 2 ^ w - 1 - n / 2 ^ lo % 2 ^ w

-- `(a - b) % d` for a positive d: the remainder takes the sign of the divisor.
abbrev pub sub_mod : ℕ → ℕ → ℕ → ℕ
sub_mod a b d = if leb b a then (a - b) % d else (d - (b - a) % d) % d

abbrev pub is_zero : ℤ → Bool
is_zero (pos n) = n == 0
is_zero (negsuc n) = false

abbrev pub int_eq : ℤ → ℤ → Bool
int_eq (pos a) (pos b) = a == b
int_eq (negsuc a) (negsuc b) = a == b
int_eq (pos a) (negsuc b) = false
int_eq (negsuc a) (pos b) = false

pub int_eq_iff : (a b : ℤ) → (int_eq a b ≡ true) ↔ (a ≡ b)
int_eq_iff (pos a) (pos b) = ground arith
int_eq_iff (negsuc a) (negsuc b) = ground arith
int_eq_iff (pos a) (negsuc b) = ground arith
int_eq_iff (negsuc a) (pos b) = ground arith

-- `min(limit, n)` rounds, none if that is negative.
abbrev pub min_ℤ : ℤ → ℕ → ℕ
min_ℤ (pos limit) n = min limit n
min_ℤ (negsuc _) n = 0

-- `a < b`
abbrev pub int_ltb : ℤ → ℤ → Bool
int_ltb (pos a) (pos b) = ltb a b
int_ltb (pos a) (negsuc b) = false
int_ltb (negsuc a) (pos b) = true
int_ltb (negsuc a) (negsuc b) = ltb b a
