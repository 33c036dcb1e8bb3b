-- ===== src/Events/Printed.antt =====
-- What the collector prints for the items of a pattern matches the pattern.
use telemetryd.Base.{
  append_laws, ℕ, ℤ, ◌≡◌, refl, sym, ap, ◌∙◌, true, false, some, List, [], ◌∷◌, ◌++◌, All, Text,
  strip, strip_left, strip_right, subst, is_space, is_digit, decimal_ℤ, decimal, decimal-All,
  decimal-cons, arith,
}
use mathlib.Core.List.{append-nil}
use telemetryd.Events.Pattern.{
  Item, lit, natural, integer, match_items, match_line, ended, render, Fits, IsSeparated, spaces,
  match_items-render, natural_of,
}

-- A text with no whitespace in front.
abbrev pub Starts : Text → Type 0
Starts [] = Unit
Starts (c ∷ cs) = is_space c ≡ false

pub strip_left-Starts : (t : Text) → Starts t → strip_left t ≡ t
unfolding strip_left
strip_left-Starts [] h = refl
strip_left-Starts (c ∷ cs) h = ground (arith, h)

digit-is_space : (c : ℕ) → is_digit c ≡ true → is_space c ≡ false
unfolding is_space
digit-is_space c h = ground arith

strip_right-digits :
    (d : ℕ) (ds : Text) → All (λ c. is_digit c ≡ true) (d ∷ ds) → strip_right (d ∷ ds) ≡ d ∷ ds
unfolding strip_right
strip_right-digits d [] (h, t) = ground (arith, digit-is_space d h)
strip_right-digits d (e ∷ ds) (h, t) = ground (arith, strip_right-digits e ds t)

strip_right-append :
    (t : Text) (d : ℕ) (ds : Text)
    → strip_right (d ∷ ds) ≡ d ∷ ds
    → strip_right (t ++ (d ∷ ds)) ≡ t ++ (d ∷ ds)
unfolding strip_right
strip_right-append [] d ds h = h
strip_right-append (c ∷ []) d ds h = ground (arith, h)
strip_right-append (c ∷ c' ∷ t) d ds h = ground (arith, strip_right-append (c' ∷ t) d ds h)

-- The items end with a number that has no sign.
unfoldable pub LastNatural : Item → List Item → Type 0
LastNatural (lit p) [] = ⊥
LastNatural natural [] = Unit
LastNatural integer [] = ⊥
LastNatural spaces [] = ⊥
LastNatural i (j ∷ items) = LastNatural j items

render-last :
    (i : Item) (items : List Item) (values : List ℤ)
    → LastNatural i items
    → Fits (i ∷ items) values
    → (t : Text) × (n : ℕ) × (render (i ∷ items) values ≡ t ++ decimal n)
unfolding LastNatural render
render-last (lit p) [] values l f = elim l [ ]
render-last natural [] [] l f = elim f [ ]
render-last natural [] (z ∷ values) l f = ([], natural_of z, append-nil (decimal (natural_of z)))
render-last integer [] values l f = elim l [ ]
render-last spaces [] values l f = elim l [ ]
render-last (lit p) (j ∷ items) values l f =
    let (t, n, e) = render-last j items values l f in (p ++ t, n, simp (append_laws, e))
render-last natural (j ∷ items) [] l f = elim f [ ]
render-last natural (j ∷ items) (z ∷ values) l f =
    let (t, n, e) = render-last j items values l f.1 in
    (decimal (natural_of z) ++ t, n, simp (append_laws, e))
render-last integer (j ∷ items) [] l f = elim f [ ]
render-last integer (j ∷ items) (z ∷ values) l f =
    let (t, n, e) = render-last j items values l f in (decimal_ℤ z ++ t, n, simp (append_laws, e))
render-last spaces (j ∷ items) values l f = render-last j items values l f

pub strip_right-decimal : (t : Text) (n : ℕ) → strip_right (t ++ decimal n) ≡ t ++ decimal n
strip_right-decimal t n =
    let (d, ds, e) = decimal-cons n in
    let digits : All (λ c. is_digit c ≡ true) (d ∷ ds) =
      subst (All (λ c. is_digit c ≡ true)) e (decimal-All n) in
    rw e (strip_right-append t d ds (strip_right-digits d ds digits))

strip_left-line :
    (c : ℕ) (p : Text) (items : List Item) (values : List ℤ)
    → is_space c ≡ false
    → strip_left (render (lit (c ∷ p) ∷ items) values) ≡ render (lit (c ∷ p) ∷ items) values
unfolding render
strip_left-line c p items values clean = strip_left-Starts (c ∷ (p ++ render items values)) clean

ended-all : (values : List ℤ) → ended (some (values, [])) ≡ some values
unfolding ended
ended-all values = refl

pub strip-both : (t : Text) → strip_left t ≡ t → strip_right t ≡ t → strip t ≡ t
unfolding strip
strip-both t l r = ap strip_right l ∙ r

-- A line of a literal and of numbers that is printed matches the items, with these numbers.
pub match_line-render :
    (c : ℕ) (p : Text) (items : List Item) (values : List ℤ)
    → is_space c ≡ false
    → LastNatural (lit (c ∷ p)) items
    → IsSeparated items
    → Fits items values
    → match_line (lit (c ∷ p) ∷ items) (render (lit (c ∷ p) ∷ items) values) ≡ some values
unfolding match_line
match_line-render c p items values clean l s f =
    let line = render (lit (c ∷ p) ∷ items) values in
    let (t, n, e) = render-last (lit (c ∷ p)) items values l f in
    let tail : strip_right line ≡ line = ap strip_right e ∙ strip_right-decimal t n ∙ sym e in
    let bare : strip line ≡ line = strip-both line (strip_left-line c p items values clean) tail in
    ap (λ x. ended (match_items (lit (c ∷ p) ∷ items) x)) bare
    ∙ ap ended (match_items-render (lit (c ∷ p) ∷ items) values s f)
    ∙ ended-all values
