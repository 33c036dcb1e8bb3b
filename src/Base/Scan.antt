-- ===== src/Base/Scan.antt =====
-- Scanning of text as the program's regular expressions do it: literal text, `\d+` and `-?\d+`.
-- The digits are those of ASCII.
use Prim.Native.Nat.{ℕ, zero, suc}
use mathlib.Core.Path.{◌≡◌, refl, ap, ◌∙◌}
use mathlib.Core.Bool.{true, false}
use mathlib.Core.Option.{Option, none, some}
use mathlib.Core.List.{[], ◌∷◌, ◌++◌}
use native.Mathlib.Omega.{arith}
use telemetryd.Base.Tests.{if◌then◌else◌, ◌==◌}
use telemetryd.Base.Lists.{All}
use telemetryd.Base.Int.{ℤ, pos, negsuc}
use telemetryd.Base.Strings.{Text}
use telemetryd.Base.Number.{
  is_digit, decimal, decimal_ℤ, value_from, decimal-All, value-decimal, decimal-cons,
}

-- The longest run of digits, and what follows it.
unfoldable pub span_digits : Text → Text × Text
span_digits [] = ([], [])
span_digits (c ∷ cs) =
    let (ds, rest) = span_digits cs in if is_digit c then (c ∷ ds, rest) else ([], c ∷ cs)

-- The text does not go on with a digit.
abbrev pub NoDigit : Text → Type 0
NoDigit [] = Unit
NoDigit (c ∷ cs) = is_digit c ≡ false

pub span-append :
    (ds rest : Text)
    → All (λ c. is_digit c ≡ true) ds
    → NoDigit rest
    → span_digits (ds ++ rest) ≡ (ds, rest)
unfolding span_digits
span-append [] [] h k = refl
span-append [] (c ∷ cs) h k = ground arith
span-append (d ∷ ds) rest h k = ground (arith, span-append ds rest h.1 k)

number_of : Text × Text → Option (ℕ × Text)
number_of ([], rest) = none
number_of (d ∷ ds, rest) = some (value_from 0 (d ∷ ds), rest)

-- `\d+`: the number and the rest of the text.
unfoldable pub read_nat : Text → Option (ℕ × Text)
unfolding span_digits number_of value_from
read_nat cs = number_of (span_digits cs)

negated : Option (ℕ × Text) → Option (ℤ × Text)
negated none = none
negated (some (zero, rest)) = some (pos 0, rest)
negated (some (suc n, rest)) = some (negsuc n, rest)

positive : Option (ℕ × Text) → Option (ℤ × Text)
positive none = none
positive (some (n, rest)) = some (pos n, rest)

-- `-?\d+`
unfoldable pub read_int : Text → Option (ℤ × Text)
unfolding read_nat negated positive
read_int [] = none
read_int (c ∷ cs) = if c == b'-' then negated (read_nat cs) else positive (read_nat (c ∷ cs))

-- A literal at the head of the text: what follows it.
unfoldable pub strip_prefix : Text → Text → Option Text
strip_prefix [] cs = some cs
strip_prefix (p ∷ ps) [] = none
strip_prefix (p ∷ ps) (c ∷ cs) = if p == c then strip_prefix ps cs else none

pub strip_prefix-append : (p rest : Text) → strip_prefix p (p ++ rest) ≡ some rest
unfolding strip_prefix
strip_prefix-append [] rest = refl
strip_prefix-append (c ∷ p) rest = ground (arith, strip_prefix-append p rest)

number_of-decimal : (n : ℕ) (rest : Text) → number_of (decimal n, rest) ≡ some (n, rest)
unfolding number_of
number_of-decimal n rest = let (d, ds, e) = decimal-cons n in ground (arith, value-decimal n)

pub read_nat-decimal :
    (n : ℕ) (rest : Text) → NoDigit rest → read_nat (decimal n ++ rest) ≡ some (n, rest)
unfolding read_nat
read_nat-decimal n rest h =
    ap number_of (span-append (decimal n) rest (decimal-All n) h) ∙ number_of-decimal n rest

digit-ne-dash : (d : ℕ) → is_digit d ≡ true → (d == b'-') ≡ false
digit-ne-dash d h = ground arith

read_int-digits :
    (t rest : Text) (d : ℕ) (ds : Text)
    → t ≡ d ∷ ds
    → All (λ c. is_digit c ≡ true) t
    → read_int (t ++ rest) ≡ positive (read_nat (t ++ rest))
unfolding read_int
read_int-digits [] rest d ds e h = ground arith
read_int-digits (c ∷ t) rest d ds e h = ground (arith, digit-ne-dash c h.0)

pub read_int-decimal_ℤ :
    (z : ℤ) (rest : Text) → NoDigit rest → read_int (decimal_ℤ z ++ rest) ≡ some (z, rest)
unfolding decimal_ℤ positive read_int negated
read_int-decimal_ℤ (pos n) rest h =
    let (d, ds, e) = decimal-cons n in
    read_int-digits (decimal n) rest d ds e (decimal-All n)
    ∙ ap positive (read_nat-decimal n rest h)
    ∙ refl
read_int-decimal_ℤ (negsuc n) rest h = ap negated (read_nat-decimal (suc n) rest h) ∙ refl
