-- ===== src/Profiler/Lines.antt =====
-- backend/proc_stats.py: the lines of a tick, by four regular expressions. They are tried on a
-- stripped line, so a `$` is the end of the text.

pub mod Printed
use telemetryd.Base.{
  ◌==◌, ℕ, ℤ, Option, none, some, List, [], ◌∷◌, ◌++◌, Text, codes, Bool, true, false, ◌||◌,
  strip_prefix, if◌then◌else◌,
}
use telemetryd.Events.Pattern.{natural_of, Item, lit, natural, integer, spaces, match_items, group}

-- Nothing stands behind the match.
abbrev pub whole : Option (List ℤ × Text) → Option (List ℤ)
whole none = none
whole (some (groups, [])) = some groups
whole (some (groups, c ∷ cs)) = none

-- `\]:\s*(\d+)$`
abbrev pub ending : List Item
ending = lit (codes "]:") ∷ spaces ∷ natural ∷ []

abbrev pub ending_at : Option (Text × ℤ) → ℕ → Option (List ℤ) → Option (Text × ℤ)
ending_at (some (front, n)) c found = some (c ∷ front, n)
ending_at none c none = none
ending_at none c (some groups) = some ([], group groups 0)

-- `.` is no newline.
abbrev pub behind : ℕ → Option (Text × ℤ) → Option (Text × ℤ)
behind c none = none
behind c (some found) = if c == 10 then none else some found

-- `(.*)\]:\s*(\d+)$`: the longest text in front of an ending, and the number of that.
unfoldable pub read_comm : Text → Option (Text × ℤ)
unfolding match_items
read_comm [] = none
read_comm (c ∷ cs) = ending_at (behind c (read_comm cs)) c (whole (match_items ending (c ∷ cs)))

-- A line of `_RE_PROC_OPS` or `_RE_THR_OPS`: the numbers, the name, and the count.
abbrev pub Named : Type 0
Named = List ℤ × (Text × ℤ)

abbrev pub with_comm : Option (List ℤ × Text) → Option Named
with_comm none = none
with_comm (some (groups, rest)) = elim (read_comm rest) [
  | none ↦ none
  | some found ↦ some (groups, found)
]

-- `(-?\d+), (-?\d+), `
abbrev pub two_keys : List Item
two_keys = integer ∷ lit (codes ", ") ∷ integer ∷ lit (codes ", ") ∷ []

unfoldable pub match_proc_ops : Text → Option Named
unfolding read_comm match_items
match_proc_ops line = with_comm (match_items (lit (codes "@proc_ops[") ∷ two_keys) line)

unfoldable pub match_thr_ops : Text → Option Named
unfolding read_comm match_items
match_thr_ops line =
    with_comm
      (match_items (lit (codes "@thr_ops[") ∷ (two_keys ++ (integer ∷ lit (codes ", ") ∷ []))) line)

-- What a counter of `_RE_2KEY` counts.
pub data Counted : Type 0 where
  bytes : Counted
  read : Counted
  write : Counted
  lat_sum : Counted
  lat_cnt : Counted
  seq : Counted
  rand : Counted

-- `_RE_2KEY`: the names, one after the other.
unfoldable pub match_either :
    {A : Type 0} → List Item → List (Text × A) → Text → Option (A × List ℤ)
unfolding match_items
match_either items [] line = none
match_either items ((name, what) ∷ names) line =
    let later = match_either items names line in
    elim (whole (match_items (lit name ∷ items) line)) [
      | none ↦ later
      | some groups ↦ some (what, groups)
    ]

-- `\[(-?\d+), (-?\d+)\]:\s*(\d+)$`
abbrev pub counted_items : List Item
counted_items = lit (codes "[") ∷ integer ∷ lit (codes ", ") ∷ integer ∷ ending

abbrev pub counted_names : List (Text × Counted)
counted_names =
    (codes "@proc_bytes", bytes)
    ∷ (codes "@proc_rd", read)
    ∷ (codes "@proc_wr", write)
    ∷ (codes "@proc_lat_sum", lat_sum)
    ∷ (codes "@proc_lat_cnt", lat_cnt)
    ∷ (codes "@proc_seq", seq)
    ∷ (codes "@proc_rand", rand)
    ∷ []

unfoldable pub match_counted : Text → Option (Counted × List ℤ)
unfolding match_either
match_counted line = match_either counted_items counted_names line

-- What a table of `_RE_3KEY` is about.
pub data Table : Type 0 where
  sizes : Table
  queues : Table

abbrev pub table_items : List Item
table_items =
    lit (codes "[") ∷ integer ∷ lit (codes ", ") ∷ integer ∷ lit (codes ", ") ∷ integer ∷ ending

abbrev pub table_names : List (Text × Table)
table_names = (codes "@proc_bs", sizes) ∷ (codes "@proc_q", queues) ∷ []

unfoldable pub match_table : Text → Option (Table × List ℤ)
unfolding match_either
match_table line = match_either table_items table_names line

abbrev pub starts_with : Text → Text → Bool
starts_with prefix line = elim (strip_prefix prefix line) [ none ↦ false | some rest ↦ true ]

-- What a line says: the slot, and what is added there.
pub data Line : Type 0 where
  proc_ops : ℤ → ℤ → Text → ℕ → Line
  thr_ops : ℤ → ℤ → ℤ → Text → ℕ → Line
  counted : ℤ → ℤ → Counted → ℕ → Line
  table : ℤ → ℤ → Table → ℤ → ℕ → Line

-- The expressions in the order in which they are tried.
unfoldable pub read_table : Text → Option Line
unfolding match_table
read_table line = elim (match_table line) [
  | none ↦ none
  | some (which, g) ↦
      some (table (group g 0) (group g 1) which (group g 2) (natural_of (group g 3)))
]

unfoldable pub read_counted : Text → Option Line
unfolding match_counted read_table
read_counted line = elim (match_counted line) [
  | none ↦ read_table line
  | some (what, g) ↦ some (counted (group g 0) (group g 1) what (natural_of (group g 2)))
]

unfoldable pub read_thr_ops : Text → Option Line
unfolding match_thr_ops read_counted
read_thr_ops line = elim (match_thr_ops line) [
  | none ↦ read_counted line
  | some (g, (comm, n)) ↦ some (thr_ops (group g 0) (group g 1) (group g 2) comm (natural_of n))
]

unfoldable pub read_proc_ops : Text → Option Line
unfolding match_proc_ops read_thr_ops
read_proc_ops line = elim (match_proc_ops line) [
  | none ↦ read_thr_ops line
  | some (g, (comm, n)) ↦ some (proc_ops (group g 0) (group g 1) comm (natural_of n))
]

-- A stripped line.
unfoldable pub read_line : Text → Option Line
unfolding read_proc_ops strip_prefix
read_line line =
    if starts_with (codes "@proc") line || starts_with (codes "@thr_ops") line
    then read_proc_ops line
    else none
