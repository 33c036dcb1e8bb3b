-- ===== src/Treewalk/Steps.antt =====
-- treewalk.py: the steps of a path, names of members and indices in brackets.
use mathlib.Core.List.{append-nil}
use telemetryd.Base.{
  split_last, split_last-append, ◌≡◌, refl, subst, decimal_ℤ, read_int-decimal_ℤ, ℕ, ℤ, pos, ◌&&◌,
  Option, none, some, List, [], ◌∷◌, ◌++◌, Text, codes, decimal, read_int, Result, ok, raise, ◌==◌,
  if◌then◌else◌,
}
use telemetryd.Treewalk.Kernel.{ReadError, other_error}

abbrev pub index_name : ℕ → Text
index_name i = b'[' ∷ (decimal i ++ (b']' ∷ []))

abbrev pub target_name : Text
target_name = codes "*"

-- What stands between brackets, which are the first and the last of the characters.
unfoldable pub between_brackets : Text → Option Text
between_brackets [] = none
between_brackets (c ∷ cs) = elim (split_last cs) [
  | none ↦ none
  | some (inner, end) ↦ if c == b'[' && end == b']' then some inner else none
]

-- `int(text)`, where the text is ASCII digits, with a sign or without one.
unfoldable pub parse_int : Text → Result ReadError ℤ
parse_int text = elim (read_int text) [
  | none ↦ raise (other_error (codes "ValueError"))
  | some (z, []) ↦ ok z
  | some (z, c ∷ cs) ↦ raise (other_error (codes "ValueError"))
]

-- `path[-1] if path else root_name`
abbrev pub last_name : Text → List Text → Text
last_name name [] = name
last_name name (step ∷ path) = last_name step path

-- An index's name is read back as the index.
pub between_brackets-index_name : (i : ℕ) → between_brackets (index_name i) ≡ some (decimal i)
unfolding between_brackets
between_brackets-index_name i = rw (split_last-append (decimal i) b']', between_brackets) refl

pub parse_int-decimal : (i : ℕ) → parse_int (decimal i) ≡ ok (pos i)
unfolding parse_int decimal_ℤ
parse_int-decimal i =
    let whole : read_int (decimal i) ≡ some (pos i, []) =
      subst (λ (t : Text). read_int t ≡ some (pos i, [])) (append-nil (decimal i))
        (read_int-decimal_ℤ (pos i) [] tt) in
    rw (whole, parse_int) refl
