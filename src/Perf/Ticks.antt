-- ===== src/Perf/Ticks.antt =====
-- `text.split("---TICK---")[-2]` of ebpf_perf.py `_parse_last_complete_tick` and proc_stats.py
-- `_last_complete_tick`: the collector prints its maps once a second and then the mark.
use telemetryd.Base.{
  append_laws, map, ℕ, zero, suc, ◌≡◌, refl, ap, ◌∙◌, false, Option, none, some, List, [], ◌∷◌,
  ◌++◌, All, Text, codes, strip_prefix, ◌==◌, arith,
}

abbrev pub tick_mark : Text
tick_mark = codes "---TICK---"

abbrev pub cons_first : ℕ → List Text → List Text
cons_first c [] = (c ∷ []) ∷ []
cons_first c (part ∷ parts) = (c ∷ part) ∷ parts

-- `text.split(mark)`, where so many characters of a mark are still to be passed over.
unfoldable pub split_from : ℕ → Text → List Text
split_from skip [] = [] ∷ []
split_from (suc skip) (c ∷ cs) = split_from skip cs
split_from zero (c ∷ cs) =
    let marked = [] ∷ split_from 9 cs in
    let other = cons_first c (split_from zero cs) in
    elim (strip_prefix tick_mark (c ∷ cs)) [ none ↦ other | some rest ↦ marked ]

unfoldable pub split_ticks : Text → List Text
unfolding split_from strip_prefix
split_ticks text = split_from 0 text

-- `parts[-2] if len(parts) >= 2`
abbrev pub last_but_one : List Text → Option Text
last_but_one [] = none
last_but_one (a ∷ []) = none
last_but_one (a ∷ b ∷ []) = some a
last_but_one (a ∷ b ∷ c ∷ parts) = last_but_one (b ∷ c ∷ parts)

unfoldable pub last_complete_tick : Text → Option Text
unfolding split_ticks
last_complete_tick text = last_but_one (split_ticks text)

-- What the collector prints: each tick's text, the end of its line, and the mark.
abbrev pub printed : List Text → Text → Text
printed [] rest = rest
printed (tick ∷ ticks) rest = tick ++ (10 ∷ (tick_mark ++ printed ticks rest))

-- The mark stands nowhere in the text.
abbrev pub NoMark : Text → Type 0
NoMark [] = Unit
NoMark (c ∷ cs) = (strip_prefix tick_mark (c ∷ cs) ≡ none) × NoMark cs

-- A pattern without the end of a line does not match across one.
strip_prefix-newline :
    (p t rest : Text)
    → All (λ c. (c == 10) ≡ false) p
    → strip_prefix p t ≡ none
    → strip_prefix p (t ++ (10 ∷ rest)) ≡ none
unfolding strip_prefix
strip_prefix-newline [] t rest h e = absurd (ground (arith, e))
strip_prefix-newline (c ∷ p) [] rest h e = ground (arith, h.0)
strip_prefix-newline (c ∷ p) (d ∷ t) rest h e = ground (arith, strip_prefix-newline p t rest h.1, e)

no_mark_in_nothing : strip_prefix tick_mark [] ≡ none
unfolding strip_prefix
no_mark_in_nothing = refl

All-append :
    (ticks : List Text) (tick : Text)
    → All NoMark ticks
    → NoMark tick
    → All NoMark (ticks ++ (tick ∷ []))
All-append [] tick h k = (k, tt)
All-append (t ∷ ticks) tick h k = (h.0, All-append ticks tick h.1 k)

mark_newline : All (λ c. (c == 10) ≡ false) tick_mark
mark_newline = (refl, (refl, (refl, (refl, (refl, (refl, (refl, (refl, (refl, (refl, tt))))))))))

split_from-mark : (rest : Text) → split_from 0 (tick_mark ++ rest) ≡ [] ∷ split_from 0 rest
unfolding split_from strip_prefix
split_from-mark rest = refl

-- The text up to the end of its line is one part, whatever follows the mark.
split_from-marked :
    (tick rest : Text)
    → NoMark tick
    → split_from 0 (tick ++ (10 ∷ (tick_mark ++ rest))) ≡ (tick ++ (10 ∷ [])) ∷ split_from 0 rest
unfolding split_from
split_from-marked [] rest h =
    let other : strip_prefix tick_mark (10 ∷ (tick_mark ++ rest)) ≡ none =
      strip_prefix-newline tick_mark [] (tick_mark ++ rest) mark_newline no_mark_in_nothing in
    rw (other, split_from) (ap (cons_first 10) (split_from-mark rest))
split_from-marked (c ∷ tick) rest h =
    let other : strip_prefix tick_mark ((c ∷ tick) ++ (10 ∷ (tick_mark ++ rest))) ≡ none =
      strip_prefix-newline tick_mark (c ∷ tick) (tick_mark ++ rest) mark_newline h.0 in
    rw (other, split_from) (ap (cons_first c) (split_from-marked tick rest h.1))

split_from-last : (rest : Text) → NoMark rest → split_from 0 rest ≡ rest ∷ []
unfolding split_from
split_from-last [] h = refl
split_from-last (c ∷ cs) h = rw (h.0, split_from) (ap (cons_first c) (split_from-last cs h.1))

abbrev line_of : Text → Text
line_of tick = tick ++ (10 ∷ [])

split_from-printed :
    (ticks : List Text) (rest : Text)
    → All NoMark ticks
    → NoMark rest
    → split_from 0 (printed ticks rest) ≡ map line_of ticks ++ (rest ∷ [])
split_from-printed [] rest h k = split_from-last rest k
split_from-printed (tick ∷ ticks) rest h k =
    split_from-marked tick (printed ticks rest) h.0
    ∙ ap (λ (parts : List Text). line_of tick ∷ parts) (split_from-printed ticks rest h.1 k)

last_but_one-append :
    (parts : List Text) (a b : Text) → last_but_one (parts ++ (a ∷ b ∷ [])) ≡ some a
last_but_one-append [] a b = refl
last_but_one-append (x ∷ []) a b = refl
last_but_one-append (x ∷ y ∷ []) a b = refl
last_but_one-append (x ∷ y ∷ z ∷ parts) a b = last_but_one-append (y ∷ z ∷ parts) a b

-- However many ticks the log holds, and whatever the collector has written of the next one, as long
-- as the mark stands in none of their texts: the last tick that has its mark behind it is taken, whole
-- and alone, and before the first mark there is none.
pub last_complete_tick-printed :
    (ticks : List Text) (tick rest : Text)
    → All NoMark ticks
    → NoMark tick
    → NoMark rest
    → (last_complete_tick (printed (ticks ++ (tick ∷ [])) rest) ≡ some (tick ++ (10 ∷ [])))
      × (last_complete_tick rest ≡ none)
unfolding last_complete_tick split_ticks
last_complete_tick-printed ticks tick rest h k l = (
  ap last_but_one {y = map line_of ticks ++ (line_of tick ∷ rest ∷ [])} (
        split_from-printed (ticks ++ (tick ∷ [])) rest (All-append ticks tick h k) l
        ∙ simp append_laws)
      ∙ last_but_one-append (map line_of ticks) (line_of tick) rest,
  ap last_but_one (split_from-last rest l),
)
