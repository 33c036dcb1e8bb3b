-- ===== src/Events/Stats/Latest.antt =====
-- What the counters of the collector's log are read as.
use telemetryd.Base.{
  ℕ, ℤ, pos, negsuc, int_ltb, int_eq_iff, ◌≡◌, refl, sym, ap, ap₂, ◌∙◌, ◌↔◌, Bool, true, false,
  Option, none, some, List, [], ◌∷◌, map, Text, if◌then◌else◌, select, Dict, get, put, get-put,
  NoDup, NoDup-put, get-Member, Member-get, int_keys, pair_keys, sum, arith, Option-cases, inl, inr,
  Member, Member-map, Member-select, Member-select_inv, Member-map_inv, Member-sort_by,
  Member-sort_by_inv, IsSorted, sort_by-IsSorted, subst,
}
use telemetryd.Names.{device_name, match_device-device_name}
use telemetryd.Platform.LogFile.{
  Bytes, Decoder, SourceArgument, as_log_source, available, read_tail,
}
use telemetryd.Models.Events.{ErrorStatusCount, DeviceErrorStats}
use telemetryd.Events.Stats.{
  CountKey, parse_count, count_line, count_lines, splitlines, parse_err_counts, row_lt, row_of,
  is_of, sorted_rows, report, read_error_stats, tail_bytes,
}

-- The value that a line has for a key.
abbrev pub value_of : Option (CountKey × ℕ) → CountKey → Option ℕ
value_of none k = none
value_of (some (j, n)) k = if pair_keys.beq j k then some n else none

-- The value in the last line that has one for the key.
abbrev pub latest : List Text → CountKey → Option ℕ
latest [] k = none
latest (line ∷ lines) k = elim (latest lines k) [
  | none ↦ value_of (parse_count line) k
  | some n ↦ some n
]

abbrev pub or_before : Option ℕ → Option ℕ → Option ℕ
or_before none before = before
or_before (some n) before = some n

get-count_line :
    (counts : Dict CountKey ℕ) (o : Option (CountKey × ℕ)) (k : CountKey)
    → get (count_line counts o) k ≡ or_before (value_of o k) (get counts k)
unfolding count_line
get-count_line counts none k = refl
get-count_line counts (some (j, n)) k = ground (arith, get-put counts j k n)

get-count_lines :
    (counts : Dict CountKey ℕ) (lines : List Text) (k : CountKey)
    → get (count_lines counts lines) k ≡ or_before (latest lines k) (get counts k)
unfolding count_lines
get-count_lines counts [] k = refl
get-count_lines counts (line ∷ lines) k =
    let rest = get-count_lines (count_line counts (parse_count line)) lines k in
    let first = get-count_line counts (parse_count line) k in
    rest
    ∙ ap (or_before (latest lines k)) first
    ∙ joined (latest lines k) (value_of (parse_count line) k) (get counts k)
  where
    joined :
        (a b c : Option ℕ)
        → or_before a (or_before b c) ≡ or_before (elim a [ none ↦ b | some n ↦ some n ]) c
    joined none b c = refl
    joined (some n) b c = refl

NoDup-count_lines :
    (counts : Dict CountKey ℕ) (lines : List Text) → NoDup counts → NoDup (count_lines counts lines)
unfolding count_lines count_line
NoDup-count_lines counts [] h = h
NoDup-count_lines counts (line ∷ lines) h = elim (Option-cases (parse_count line)) [
  | inl e ↦ rw e (NoDup-count_lines counts lines h)
  | inr ((k, n), e) ↦ rw e (NoDup-count_lines (put counts k n) lines (NoDup-put counts k n h))
]

parse_err_counts-NoDup : (text : Text) → NoDup (parse_err_counts text)
unfolding parse_err_counts
parse_err_counts-NoDup text = NoDup-count_lines [] (splitlines text) tt

-- What a key has is the value in the last line of the text that has one for the key.
pub get-parse_err_counts :
    (text : Text) (k : CountKey) → get (parse_err_counts text) k ≡ latest (splitlines text) k
unfolding parse_err_counts get
get-parse_err_counts text k =
    get-count_lines [] (splitlines text) k ∙ before_none (latest (splitlines text) k)
  where
    before_none : (o : Option ℕ) → or_before o none ≡ o
    before_none none = refl
    before_none (some n) = refl

row_of-same :
    (i : ℕ) (sct sc : ℤ) (n : ℕ) (q : CountKey × ℕ)
    → row_of ((pos i, (sct, sc)), n) ≡ row_of q
    → is_of i q ≡ true
    → q ≡ ((pos i, (sct, sc)), n)
row_of-same i sct sc n ((c, (a, b)), k) same mine =
    ap₂ (λ (x : CountKey) (y : ℕ). (x, y))
      (ap₂ (λ (x : ℤ) (y : ℤ × ℤ). (x, y)) ((int_eq_iff c (pos i)).0 mine)
        (ap₂ (λ (x y : ℤ). (x, y)) (sym (ap (λ r. r.sct) same)) (sym (ap (λ r. r.sc) same))))
      (sym (ap (λ r. r.count) same))

-- The row of a counter of the controller.
sorted_rows-Member :
    (counts : Dict CountKey ℕ) (i : ℕ) (sct sc : ℤ) (n : ℕ)
    → NoDup counts
    → Member (row_of ((pos i, (sct, sc)), n)) (sorted_rows counts i)
      ↔ (get counts (pos i, (sct, sc)) ≡ some n)
unfolding sorted_rows
sorted_rows-Member counts i sct sc n h =
    let mine = select (is_of i) counts in
    (
      λ m.
          let (q, found, same) =
            Member-map_inv row_of mine (Member-sort_by_inv row_lt (map row_of mine) m) in
          let (present, of_i) = Member-select_inv (is_of i) counts found in
          get-Member counts (pos i, (sct, sc)) n h
            (subst (λ p. Member p counts) (row_of-same i sct sc n q same of_i) present),
      λ e. Member-sort_by row_lt (map row_of mine) (
          Member-map row_of (
            Member-select (is_of i) counts (Member-get counts (pos i, (sct, sc)) n e)
              ((int_eq_iff (pos i) (pos i)).1 refl))),
    )

int_ltb-asym : (a b : ℤ) → int_ltb a b ≡ true → int_ltb b a ≡ false
int_ltb-asym (pos a) (pos b) h = ground arith
int_ltb-asym (pos a) (negsuc b) h = ground arith
int_ltb-asym (negsuc a) (pos b) h = ground arith
int_ltb-asym (negsuc a) (negsuc b) h = ground arith

int_ltb_irrefl : (a : ℤ) → int_ltb a a ≡ false
int_ltb_irrefl (pos a) = ground arith
int_ltb_irrefl (negsuc a) = ground arith

row_lt-asym : (a b : ErrorStatusCount) → row_lt a b ≡ true → row_lt b a ≡ false
row_lt-asym a b h = ground (
  arith,
  int_ltb-asym a.sct b.sct,
  int_ltb-asym a.sc b.sc,
  int_ltb_irrefl a.sct,
  int_ltb_irrefl b.sct,
  int_eq_iff a.sct b.sct,
  int_eq_iff b.sct a.sct,
)

sorted_rows-IsSorted : (counts : Dict CountKey ℕ) (i : ℕ) → IsSorted row_lt (sorted_rows counts i)
unfolding sorted_rows
sorted_rows-IsSorted counts i =
    sort_by-IsSorted row_lt row_lt-asym (map row_of (select (is_of i) counts))

-- What the tail of the log says of the counters of a controller: a row for each status code type
-- and code with a counter, with its last value in the tail; the most frequent first, and in the
-- order of the codes where the counts are equal; and the sum.
pub record IsReport (tail : Text) (i : ℕ) (stats : DeviceErrorStats) : Type 0 where
  pub available : stats.available ≡ true
  pub no_error : stats.error ≡ none
  pub sorted : IsSorted row_lt stats.counts
  pub total : stats.total ≡ sum (map (λ r. r.count) stats.counts)
  pub rows :
      (sct sc : ℤ) (n : ℕ)
      → Member (row_of ((pos i, (sct, sc)), n)) stats.counts
        ↔ (latest (splitlines tail) (pos i, (sct, sc)) ≡ some n)

report-IsReport : (device tail : Text) (i : ℕ) → IsReport tail i (report device tail i)
unfolding report
report-IsReport device tail i = record {
  available = refl;
  no_error = refl;
  sorted = sorted_rows-IsSorted (parse_err_counts tail) i;
  total = refl;
  rows = λ sct sc n.
      subst
        (λ o.
          Member (row_of ((pos i, (sct, sc)), n)) (sorted_rows (parse_err_counts tail) i)
          ↔ (o ≡ some n))
        (get-parse_err_counts tail (pos i, (sct, sc)))
        (sorted_rows-Member (parse_err_counts tail) i sct sc n (parse_err_counts-NoDup tail));
}

-- Where there is a log, the statistics of a controller, asked for by the name that the program
-- prints for it, are the report of what can be read of the log's last 512 KiB: the last line of each
-- counter there gives its count, a line of a tick that is not finished included.
pub read_error_stats-IsReport :
    (repr : Text → Text) (decode : Decoder) (log_path : SourceArgument) (i : ℕ) (exists : Bool)
    (size : Option ℕ) (content : Option Bytes)
    → available (as_log_source log_path) exists ≡ true
    → IsReport
        (read_tail decode (as_log_source log_path) tail_bytes size content)
        i
        (read_error_stats repr decode log_path (device_name i) exists size content)
unfolding read_error_stats
read_error_stats-IsReport repr decode log_path i exists size content there_is =
    rw (match_device-device_name i, read_error_stats, there_is)
      (report-IsReport (device_name i)
        (read_tail decode (as_log_source log_path) tail_bytes size content) i)
