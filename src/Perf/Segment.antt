-- ===== src/Perf/Segment.antt =====
-- backend/ebpf_perf.py: the maps of one tick, as bpftrace prints them. `none` stands for the
-- ValueError that `float` raises on a bound such as `1.2.3`.
pub mod Clean
use telemetryd.Base.{
  ℕ, ◌*◌, ◌/◌, ◌^◌, ℤ, Bool, true, false, not, ◌&&◌, ◌||◌, Option, none, some, List, [], ◌∷◌, ◌++◌,
  length, Text, codes, strip, strip_left, strip_prefix, split_last, is_space, is_digit, read_nat,
  value_from, leb, ◌==◌, if◌then◌else◌, Dict, get_or, put, text_keys, int_keys, pair_keys,
}
use telemetryd.Events.Pattern.{
  Item, lit, natural, integer, spaces, match_items, ended, group, natural_of,
}
use telemetryd.Events.Stats.{splitlines}
use telemetryd.Perf.{Bucket, Counters, QueueKey}
use telemetryd.Perf.Ticks.{last_complete_tick}

-- `\w`, among the ASCII characters.
abbrev pub is_word : ℕ → Bool
is_word c = is_digit c || leb b'A' c && leb c b'Z' || leb b'a' c && leb c b'z' || c == b'_'

-- The longest run of characters that pass a test, and what follows it.
unfoldable pub span : (ℕ → Bool) → Text → Text × Text
span p [] = ([], [])
span p (c ∷ cs) = let (front, rest) = span p cs in if p c then (c ∷ front, rest) else ([], c ∷ cs)

abbrev pub named : Text × Text → Option (Text × Text)
named ([], rest) = none
named (n ∷ name, rest) = some (n ∷ name, rest)

-- `@(\w+)`: the name of a map and what follows it.
unfoldable pub read_name : Text → Option (Text × Text)
unfolding span
read_name [] = none
read_name (c ∷ cs) = if c == b'@' then named (span is_word cs) else none

-- `\[(-?\d+),\s*(-?\d+)\]:`
abbrev pub key_items : List Item
key_items = lit (codes "[") ∷ integer ∷ lit (codes ",") ∷ spaces ∷ integer ∷ lit (codes "]:") ∷ []

-- `_SCALAR_RE`, behind the name.
abbrev pub scalar_items : List Item
scalar_items = key_items ++ (spaces ∷ natural ∷ [])

-- The name and the numbers of a stripped line that is a name with the items behind it.
unfoldable pub match_named : List Item → Text → Option (Text × List ℤ)
unfolding read_name match_items ended
match_named items line = elim (read_name line) [
  | none ↦ none
  | some (name, rest) ↦ elim (ended (match_items items rest)) [
    | none ↦ none
    | some groups ↦ some (name, groups)
  ]
]

-- `_parse_bucket_bound`. The text is cut at its first dot.
abbrev pub multiplier : ℕ → Option ℕ
multiplier c =
    if c == b'K'
    then some 1024
    else if c == b'M'
    then some (1024 * 1024)
    else if c == b'G'
    then some (1024 * 1024 * 1024)
    else none

abbrev pub all_digits : Text → Bool
all_digits [] = true
all_digits (c ∷ cs) = is_digit c && all_digits cs

abbrev pub no_text : Text → Bool
no_text [] = true
no_text (c ∷ cs) = false

-- The digits in front of the dot and behind it, as a number of units of the last place.
abbrev pub decimal_parts : Text × Text → Option (ℕ × ℕ)
decimal_parts (front, []) = if no_text front then none else some (value_from 0 front, 1)
decimal_parts (front, dot ∷ back) =
    if dot == b'.' && all_digits back && not (no_text front && no_text back)
    then some (value_from 0 (front ++ back), 10 ^ length back)
    else none

-- `int(float(s) * m)`, in exact arithmetic.
unfoldable pub scaled : ℕ → Text → Option ℕ
unfolding span value_from
scaled m s = elim (decimal_parts (span is_digit s)) [ none ↦ none | some (n, d) ↦ some (n * m / d) ]

unfoldable pub parse_bucket_bound : Text → Option ℕ
unfolding scaled strip split_last
parse_bucket_bound text =
    let s = strip text in
    elim (split_last s) [
      | none ↦ none
      | some (front, end) ↦ elim (multiplier end) [ none ↦ scaled 1 s | some m ↦ scaled m front ]
    ]

abbrev pub is_bound_char : ℕ → Bool
is_bound_char c = is_digit c || c == b'.'

abbrev pub with_suffix : Text × Text → Option (Text × Text)
with_suffix ([], rest) = none
with_suffix (n ∷ num, []) = some (n ∷ num, [])
with_suffix (n ∷ num, c ∷ cs) = elim (multiplier c) [
  | none ↦ some (n ∷ num, c ∷ cs)
  | some m ↦ some ((n ∷ num) ++ (c ∷ []), cs)
]

-- `[0-9.]+[KMG]?`
unfoldable pub read_bound : Text → Option (Text × Text)
unfolding span
read_bound cs = with_suffix (span is_bound_char cs)

-- `\s+`
unfoldable pub skip_spaces : Text → Option Text
unfolding strip_left
skip_spaces [] = none
skip_spaces (c ∷ cs) = if is_space c then some (strip_left cs) else none

infixl 5 ◌>>=◌
abbrev ◌>>=◌ {ℓ κ} : {A : Type ℓ} {B : Type κ} → Option A → (A → Option B) → Option B
none >>= next = none
some x >>= next = next x

-- `_HIST_BUCKET_RE`: the two bounds and the count.
unfoldable pub match_bucket : Text → Option (Text × (Text × ℕ))
unfolding read_bound skip_spaces strip_prefix read_nat
match_bucket line = do
  rest ← strip_prefix (codes "[") line
  (lo, rest) ← read_bound rest
  rest ← strip_prefix (codes ", ") rest
  (hi, rest) ← read_bound rest
  rest ← strip_prefix (codes ")") rest
  rest ← skip_spaces rest
  (count, rest) ← read_nat rest
  rest ← skip_spaces rest
  rest ← strip_prefix (codes "|") rest
  some (lo, (hi, count))

-- The two dictionaries that the parser fills.
pub record Maps : Type 0 where
  pub scalars : Dict QueueKey Counters
  pub hists : Dict QueueKey (List Bucket)

-- A histogram whose buckets are being read.
abbrev pub Reading : Type 0
Reading = Option (QueueKey × List Bucket)

abbrev pub key_of : List ℤ → QueueKey
key_of groups = (group groups 0, group groups 1)

unfoldable pub set_scalar : Maps → QueueKey → Text → ℕ → Maps
set_scalar maps key name value = record maps {
  scalars = put maps.scalars key (put (get_or maps.scalars key []) name value);
}

-- `hists.setdefault(key, []).extend(buckets)`, when the block ends.
unfoldable pub close_block : Reading → Maps → Maps
close_block none maps = maps
close_block (some (key, buckets)) maps = record maps {
  hists = put maps.hists key (get_or maps.hists key [] ++ buckets);
}

-- A line that is not a bucket of the block before it.
unfoldable pub other_line : Maps → Text → Reading × Maps
unfolding match_named set_scalar
other_line maps line = elim (match_named scalar_items line) [
  | some (name, groups) ↦ (none, set_scalar maps (key_of groups) name (natural_of (group groups 2)))
  | none ↦ elim (match_named key_items line) [
    | some (name, groups) ↦ (some (key_of groups, []), maps)
    | none ↦ (none, maps)
  ]
]

unfoldable pub bucket_of : Text × (Text × ℕ) → Option Bucket
unfolding parse_bucket_bound
bucket_of (lo_text, (hi_text, count)) = do
  lo ← parse_bucket_bound lo_text
  hi ← parse_bucket_bound hi_text
  some record { lo = lo; hi = hi; count = count }

abbrev pub add_bucket : QueueKey → List Bucket → Maps → Option Bucket → Option (Reading × Maps)
add_bucket key buckets maps none = none
add_bucket key buckets maps (some bucket) = some (some (key, buckets ++ (bucket ∷ [])), maps)

-- One line, in the outer loop or in the loop over a block's buckets.
unfoldable pub read_line : Reading → Maps → Text → Option (Reading × Maps)
unfolding other_line close_block match_bucket bucket_of
read_line none maps line = some (other_line maps line)
read_line (some (key, buckets)) maps line = elim (match_bucket line) [
  | none ↦ some (other_line (close_block (some (key, buckets)) maps) line)
  | some found ↦ add_bucket key buckets maps (bucket_of found)
]

unfoldable pub read_lines : Reading → Maps → List Text → Option Maps
unfolding read_line strip
read_lines reading maps [] = some (close_block reading maps)
read_lines reading maps (line ∷ lines) = elim (read_line reading maps (strip line)) [
  | none ↦ none
  | some (next, maps') ↦ read_lines next maps' lines
]

abbrev pub no_maps : Maps
no_maps = record { scalars = []; hists = [] }

unfoldable pub parse_segment : Text → Option Maps
unfolding read_lines splitlines
parse_segment segment = read_lines none no_maps (splitlines segment)

unfoldable pub parse_last_complete_tick : Text → Option Maps
unfolding parse_segment last_complete_tick
parse_last_complete_tick text = elim (last_complete_tick text) [
  | none ↦ some no_maps
  | some segment ↦ parse_segment segment
]
