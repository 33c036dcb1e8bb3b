-- ===== src/Events/Pattern.antt =====
-- The regular expressions of the collector's lines (`_EVENT_RE`, `_ERR_COUNT_RE`) as lists of
-- items: literal text, `(\d+)`, `(-?\d+)` and `\s*`. What follows a number in them is never a
-- digit, and what follows spaces is never a space, so the longest run is the only one that can
-- match.
use telemetryd.Base.{
  ℕ, ℤ, pos, negsuc, ◌≡◌, refl, sym, Bool, true, false, Option, none, some, List, [], ◌∷◌, ◌++◌,
  Text, decimal, decimal_ℤ, read_nat, read_int, strip_prefix, strip, strip_left, is_space,
  if◌then◌else◌, ◌&&◌, NoDigit, strip_prefix-append, read_nat-decimal, read_int-decimal_ℤ, is_digit,
  get_elem?,
}

pub data Item : Type 0 where
  lit : Text → Item
  natural : Item
  integer : Item
  spaces : Item

group_before : ℤ → Option (List ℤ × Text) → Option (List ℤ × Text)
group_before z none = none
group_before z (some (groups, rest)) = some (z ∷ groups, rest)

-- The groups' numbers, and what follows the match.
unfoldable pub match_items : List Item → Text → Option (List ℤ × Text)
unfolding group_before
match_items [] cs = some ([], cs)
match_items (lit p ∷ items) cs = elim (strip_prefix p cs) [
  | none ↦ none
  | some rest ↦ match_items items rest
]
match_items (natural ∷ items) cs = elim (read_nat cs) [
  | none ↦ none
  | some (n, rest) ↦ group_before (pos n) (match_items items rest)
]
match_items (integer ∷ items) cs = elim (read_int cs) [
  | none ↦ none
  | some (z, rest) ↦ group_before z (match_items items rest)
]
match_items (spaces ∷ items) cs = match_items items (strip_left cs)

abbrev pub all_space : Text → Bool
all_space [] = true
all_space (c ∷ cs) = is_space c && all_space cs

-- The `\s*$` behind the items.
unfoldable pub ended : Option (List ℤ × Text) → Option (List ℤ)
ended none = none
ended (some (groups, rest)) = if all_space rest then some groups else none

-- `re.match(line.strip())`, the groups as numbers.
unfoldable pub match_line : List Item → Text → Option (List ℤ)
unfolding ended match_items
match_line items line = ended (match_items items (strip line))

-- `int(m.group(k + 1))`; no other group is asked for than the expression has.
abbrev pub group : List ℤ → ℕ → ℤ
group groups k = elim (get_elem? groups k) [ none ↦ pos 0 | some z ↦ z ]

-- The number of a `\d+`, which has no sign.
abbrev pub natural_of : ℤ → ℕ
natural_of (pos n) = n
natural_of (negsuc n) = 0

-- What the collector's printf writes for the items: the values in the numbers' places.
unfoldable pub render : List Item → List ℤ → Text
render [] values = []
render (lit p ∷ items) values = p ++ render items values
render (natural ∷ items) [] = []
render (natural ∷ items) (z ∷ values) = decimal (natural_of z) ++ render items values
render (integer ∷ items) [] = []
render (integer ∷ items) (z ∷ values) = decimal_ℤ z ++ render items values
render (spaces ∷ items) values = render items values

-- A number's item is at the end or in front of a literal that begins with no digit.
abbrev pub Parts : List Item → Type 0
Parts [] = Unit
Parts (lit [] ∷ items) = ⊥
Parts (lit (c ∷ p) ∷ items) = is_digit c ≡ false
Parts (natural ∷ items) = ⊥
Parts (integer ∷ items) = ⊥
Parts (spaces ∷ items) = ⊥

abbrev pub IsSeparated : List Item → Type 0
IsSeparated [] = Unit
IsSeparated (lit p ∷ items) = IsSeparated items
IsSeparated (natural ∷ items) = Parts items × IsSeparated items
IsSeparated (integer ∷ items) = Parts items × IsSeparated items
IsSeparated (spaces ∷ items) = ⊥

-- One value for each number, none negative where the item has no sign.
abbrev pub Fits : List Item → List ℤ → Type 0
Fits [] [] = Unit
Fits [] (z ∷ values) = ⊥
Fits (lit p ∷ items) values = Fits items values
Fits (natural ∷ items) [] = ⊥
Fits (natural ∷ items) (z ∷ values) = (z ≡ pos (natural_of z)) × Fits items values
Fits (integer ∷ items) [] = ⊥
Fits (integer ∷ items) (z ∷ values) = Fits items values
Fits (spaces ∷ items) values = Fits items values

NoDigit-render : (items : List Item) (values : List ℤ) → Parts items → NoDigit (render items values)
unfolding render
NoDigit-render [] values h = tt
NoDigit-render (lit [] ∷ items) values h = elim h [ ]
NoDigit-render (lit (c ∷ p) ∷ items) values h = h
NoDigit-render (natural ∷ items) values h = elim h [ ]
NoDigit-render (integer ∷ items) values h = elim h [ ]
NoDigit-render (spaces ∷ items) values h = elim h [ ]

-- What was printed matches, and its groups are what was printed.
pub match_items-render :
    (items : List Item) (values : List ℤ)
    → IsSeparated items
    → Fits items values
    → match_items items (render items values) ≡ some (values, [])
unfolding match_items render
match_items-render [] [] s f = refl
match_items-render [] (z ∷ values) s f = elim f [ ]
match_items-render (lit p ∷ items) values s f =
    rw (strip_prefix-append p (render items values), match_items)
      (match_items-render items values s f)
match_items-render (natural ∷ items) [] s f = elim f [ ]
match_items-render (natural ∷ items) (z ∷ values) s f =
    rw
      (
        read_nat-decimal (natural_of z) (render items values) (NoDigit-render items values s.0),
        match_items,
        match_items-render items values s.1 f.1,
        sym f.0,
      )
      refl
match_items-render (integer ∷ items) [] s f = elim f [ ]
match_items-render (integer ∷ items) (z ∷ values) s f =
    rw
      (
        read_int-decimal_ℤ z (render items values) (NoDigit-render items values s.0),
        match_items,
        match_items-render items values s.1 f,
      )
      refl
match_items-render (spaces ∷ items) values s f = elim s [ ]
