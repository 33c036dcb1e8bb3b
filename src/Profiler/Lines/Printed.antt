-- ===== src/Profiler/Lines/Printed.antt =====
-- The collector's lines with a process's name, and how the expressions read them.
use telemetryd.Base.{
  ℕ, ℤ, pos, ◌≡◌, refl, subst, arith, true, false, ◌==◌, Option, none, some, List, [], ◌∷◌, ◌++◌,
  All, Text, codes, decimal, decimal_ℤ, decimal-All, decimal-cons, is_digit, is_space, strip_left,
  strip_prefix, read_nat, read_nat-decimal, read_int-decimal_ℤ,
}
use mathlib.Core.List.{append-nil}
use telemetryd.Events.Pattern.{match_items, lit, integer}
use telemetryd.Events.Stats.{is_line_break}
use telemetryd.Profiler.Lines.{
  read_comm, ending, with_comm, two_keys, match_proc_ops, match_thr_ops, proc_ops, thr_ops,
  read_line, read_proc_ops, read_thr_ops,
}

-- No ending begins here.
read_comm-other :
    (c : ℕ) (cs : Text) → (c == b']') ≡ false → read_comm cs ≡ none → read_comm (c ∷ cs) ≡ none
unfolding read_comm match_items strip_prefix
read_comm-other c cs other rest =
    let no : strip_prefix (codes "]:") (c ∷ cs) ≡ none = ground (arith, other) in
    rw (rest, read_comm, no, match_items) refl

read_comm-digits : (ds : Text) → All (λ c. is_digit c ≡ true) ds → read_comm ds ≡ none
unfolding read_comm
read_comm-digits [] h = refl
read_comm-digits (d ∷ ds) h = read_comm-other d ds (ground (arith, h.0)) (read_comm-digits ds h.1)

strip_left-digits :
    (t ds : Text) (d : ℕ) → t ≡ d ∷ ds → All (λ c. is_digit c ≡ true) t → strip_left (32 ∷ t) ≡ t
unfolding strip_left is_space
strip_left-digits [] ds d e h = refl
strip_left-digits (c ∷ t) ds d e h = ground (arith, h.0)

-- `]: ` and a number.
abbrev pub count_text : ℕ → Text
count_text n = codes "]: " ++ decimal n

match_items-ending : (n : ℕ) → match_items ending (count_text n) ≡ some (pos n ∷ [], [])
unfolding match_items strip_prefix
match_items-ending n =
    let (d, ds, e) = decimal-cons n in
    let number : read_nat (decimal n) ≡ some (n, []) =
      subst (λ (t : Text). read_nat t ≡ some (n, [])) (append-nil (decimal n))
        (read_nat-decimal n [] tt) in
    rw (strip_left-digits (decimal n) ds d e (decimal-All n), match_items, number) refl

-- A name without a character at which `splitlines` parts lines.
abbrev pub IsOneLine : Text → Type 0
IsOneLine t = All (λ c. is_line_break c ≡ false) t

read_comm-printed :
    (comm : Text) (n : ℕ) → IsOneLine comm → read_comm (comm ++ count_text n) ≡ some (comm, pos n)
unfolding read_comm
read_comm-printed [] n h =
    let later : read_comm (58 ∷ 32 ∷ decimal n) ≡ none =
      read_comm-other 58 (32 ∷ decimal n) refl
        (read_comm-other 32 (decimal n) refl (read_comm-digits (decimal n) (decimal-All n))) in
    rw (later, read_comm, match_items-ending n) refl
read_comm-printed (c ∷ comm) n h =
    let inside : (c == 10) ≡ false = ground (arith, h.0) in
    rw (read_comm-printed comm n h.1, read_comm) (rw inside refl)

-- What the collector prints for a process.
abbrev pub proc_line : ℤ → ℤ → Text → ℕ → Text
proc_line ctrl tgid comm n =
    codes "@proc_ops["
    ++ (decimal_ℤ ctrl
        ++ (codes ", " ++ (decimal_ℤ tgid ++ (codes ", " ++ (comm ++ count_text n)))))

-- What the collector prints for a thread.
abbrev pub thread_line : ℤ → ℤ → ℤ → Text → ℕ → Text
thread_line ctrl tgid tid comm n =
    codes "@thr_ops["
    ++ (decimal_ℤ ctrl
        ++ (codes ", "
            ++ (decimal_ℤ tgid
                ++ (codes ", " ++ (decimal_ℤ tid ++ (codes ", " ++ (comm ++ count_text n)))))))

with_comm-found :
    (m : Option (List ℤ × Text)) (groups : List ℤ) (rest : Text) (found : Text × ℤ)
    → m ≡ some (groups, rest)
    → read_comm rest ≡ some found
    → with_comm m ≡ some (groups, found)
with_comm-found m groups rest found e f = rw (e, with_comm, f) refl

match_proc_ops-printed :
    (ctrl tgid : ℤ) (comm : Text) (n : ℕ)
    → IsOneLine comm
    → match_proc_ops (proc_line ctrl tgid comm n) ≡ some (ctrl ∷ tgid ∷ [], (comm, pos n))
unfolding match_proc_ops match_items strip_prefix
match_proc_ops-printed ctrl tgid comm n h =
    let rest2 = codes ", " ++ (comm ++ count_text n) in
    let rest1 = codes ", " ++ (decimal_ℤ tgid ++ rest2) in
    with_comm-found (match_items (lit (codes "@proc_ops[") ∷ two_keys) (proc_line ctrl tgid comm n))
      (ctrl ∷ tgid ∷ []) (comm ++ count_text n) (comm, pos n)
      (rw (read_int-decimal_ℤ ctrl rest1 refl, match_items, read_int-decimal_ℤ tgid rest2 refl)
        refl)
      (read_comm-printed comm n h)

match_thr_ops-printed :
    (ctrl tgid tid : ℤ) (comm : Text) (n : ℕ)
    → IsOneLine comm
    → match_thr_ops (thread_line ctrl tgid tid comm n)
      ≡ some (ctrl ∷ tgid ∷ tid ∷ [], (comm, pos n))
unfolding match_thr_ops match_items strip_prefix
match_thr_ops-printed ctrl tgid tid comm n h =
    let rest3 = codes ", " ++ (comm ++ count_text n) in
    let rest2 = codes ", " ++ (decimal_ℤ tid ++ rest3) in
    let rest1 = codes ", " ++ (decimal_ℤ tgid ++ rest2) in
    with_comm-found
      (match_items (lit (codes "@thr_ops[") ∷ (two_keys ++ (integer ∷ lit (codes ", ") ∷ [])))
        (thread_line ctrl tgid tid comm n))
      (ctrl ∷ tgid ∷ tid ∷ []) (comm ++ count_text n) (comm, pos n)
      (rw
        (
          read_int-decimal_ℤ ctrl rest1 refl,
          match_items,
          read_int-decimal_ℤ tgid rest2 refl,
          read_int-decimal_ℤ tid rest3 refl,
        )
        refl)
      (read_comm-printed comm n h)

pub read_line-printed :
    (ctrl tgid tid : ℤ) (comm : Text) (n : ℕ)
    → IsOneLine comm
    → (read_line (proc_line ctrl tgid comm n) ≡ some (proc_ops ctrl tgid comm n))
      × (read_line (thread_line ctrl tgid tid comm n) ≡ some (thr_ops ctrl tgid tid comm n))
unfolding read_line read_proc_ops read_thr_ops match_items strip_prefix
read_line-printed ctrl tgid tid comm n h = (
  rw (match_proc_ops-printed ctrl tgid comm n h, read_line, read_proc_ops) refl,
  rw (match_thr_ops-printed ctrl tgid tid comm n h, read_line, read_proc_ops, read_thr_ops) refl,
)
