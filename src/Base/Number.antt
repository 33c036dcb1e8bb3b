-- ===== src/Base/Number.antt =====
-- Numbers as text: Python's `str(n)`, `f"{n:x}"`, `int(s)`.
use Prim.Native.Nat.{ℕ, zero, suc, ◌+◌, ◌-◌, ◌*◌, ◌/◌, ◌%◌, ◌<◌}
use mathlib.Core.Path.{◌≡◌, refl, ap}
use mathlib.Core.Logic.{inl, inr}
use mathlib.Core.Bool.{Bool, true, ◌&&◌}
use mathlib.Core.List.{[], ◌∷◌}
use native.Mathlib.Omega.{arith}
use telemetryd.Base.Tests.{if◌then◌else◌, ltb, leb, Bool-cases}
use telemetryd.Base.Lists.{length, All}
use telemetryd.Base.Int.{ℤ, pos, negsuc}
use telemetryd.Base.Strings.{Text}

-- `0`-`9`, then `a`-`f`.
abbrev pub digit : ℕ → ℕ
digit d = if ltb d 10 then b'0' + d else 87 + d

-- The digits of n in a base, in front of `acc`. `n < fuel` is enough fuel.
unfoldable pub to_digits : ℕ → ℕ → ℕ → Text → Text
to_digits base zero n acc = acc
to_digits base (suc fuel) n acc =
    let rest = to_digits base fuel (n / base) (digit (n % base) ∷ acc) in
    if ltb n base then digit n ∷ acc else rest

unfoldable pub decimal : ℕ → Text
unfolding to_digits
decimal n = to_digits 10 (suc n) n []

unfoldable pub hex : ℕ → Text
unfolding to_digits
hex n = to_digits 16 (suc n) n []

-- `str(z)`
unfoldable pub decimal_ℤ : ℤ → Text
unfolding decimal
decimal_ℤ (pos n) = decimal n
decimal_ℤ (negsuc n) = b'-' ∷ decimal (suc n)

pad_zeros : ℕ → Text → Text
pad_zeros zero t = t
pad_zeros (suc n) t = b'0' ∷ pad_zeros n t

-- `f"{n:0wx}"`
unfoldable pub hex_pad : ℕ → ℕ → Text
unfolding hex pad_zeros
hex_pad width n = pad_zeros (width - length (hex n)) (hex n)

-- `f"{z:0wx}"`: the sign counts in the width and stands in front of the zeros.
unfoldable pub hex_pad_ℤ : ℕ → ℤ → Text
unfolding hex_pad
hex_pad_ℤ width (pos n) = hex_pad width n
hex_pad_ℤ width (negsuc n) = b'-' ∷ hex_pad (width - 1) (suc n)

abbrev pub is_digit : ℕ → Bool
is_digit c = leb b'0' c && leb c b'9'

-- `int(s)` on ASCII digits, continuing from `acc`.
unfoldable pub value_from : ℕ → Text → ℕ
value_from acc [] = acc
value_from acc (c ∷ cs) = value_from (acc * 10 + (c - b'0')) cs

pub value-to_digits :
    (fuel n : ℕ) (rest : Text)
    → n < fuel
    → value_from 0 (to_digits 10 fuel n rest) ≡ value_from n rest
unfolding to_digits value_from
value-to_digits zero n rest h = elim h [ ]
value-to_digits (suc fuel) n rest h = elim (Bool-cases (ltb n 10)) [
  | inl small ↦ ground arith
  | inr large ↦ ground (
    arith,
    value-to_digits fuel (n / 10) (digit (n % 10) ∷ rest),
    ap (λ (k : ℕ). value_from k rest) (regroup n),
  )
]
  where
    regroup : (n : ℕ) → n / 10 * 10 + (b'0' + n % 10 - b'0') ≡ n
    regroup n = omega arith

pub to_digits-All :
    (fuel n : ℕ) (rest : Text)
    → All (λ c. is_digit c ≡ true) rest
    → All (λ c. is_digit c ≡ true) (to_digits 10 fuel n rest)
unfolding to_digits
to_digits-All zero n rest h = h
to_digits-All (suc fuel) n rest h =
    ground (arith, to_digits-All fuel (n / 10) (digit (n % 10) ∷ rest))

pub decimal-All : (n : ℕ) → All (λ c. is_digit c ≡ true) (decimal n)
unfolding decimal
decimal-All n = to_digits-All (suc n) n [] tt

-- Reading back what was printed.
pub value-decimal : (n : ℕ) → value_from 0 (decimal n) ≡ n
unfolding decimal value_from
value-decimal n = value-to_digits (suc n) n [] (omega arith)

cons_of_to_digits :
    (fuel n c : ℕ) (cs : Text) → (d : ℕ) × (ds : Text) × (to_digits 10 fuel n (c ∷ cs) ≡ d ∷ ds)
unfolding to_digits
cons_of_to_digits zero n c cs = (c, cs, refl)
cons_of_to_digits (suc fuel) n c cs = elim (Bool-cases (ltb n 10)) [
  | inl small ↦ (digit n, c ∷ cs, ground arith)
  | inr large ↦
      let (d, ds, e) = cons_of_to_digits fuel (n / 10) (digit (n % 10)) (c ∷ cs) in
      (d, ds, ground arith)
]

-- A printed number has a first digit.
pub decimal-cons : (n : ℕ) → (d : ℕ) × (ds : Text) × (decimal n ≡ d ∷ ds)
unfolding decimal to_digits
decimal-cons n = elim (Bool-cases (ltb n 10)) [
  | inl small ↦ (digit n, [], ground arith)
  | inr large ↦
      let (d, ds, e) = cons_of_to_digits n (n / 10) (digit (n % 10)) [] in (d, ds, ground arith)
]
