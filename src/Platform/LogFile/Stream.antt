-- ===== src/Platform/LogFile/Stream.antt =====
-- The incremental cursor over a file that the collector appends to while it is read.
pub mod Exact
mod Polls
use telemetryd.Base.{
  append_laws, ℕ, zero, suc, ◌+◌, ◌-◌, ◌≤◌, ◌<◌, ◌≡◌, ◌≢◌, refl, ap, ap₂, sym, subst, ◌∙◌, Bool,
  true, false, Option, none, some, List, [], ◌∷◌, ◌++◌, map, drop, take, length, length-append,
  drop-append, take-append-drop, All, ltb, ◌==◌, if◌then◌else◌, Text, arith, ◌⊎◌, inl, inr,
  Option-cases, Bool-cases,
}
use mathlib.Core.List.{append_assoc, append-nil, map-append}
use telemetryd.Platform.LogFile.{
  Bytes, Decoder, FileCursor, has_path, last_newline, split_lines, cons_line, take_lines, rewound,
  read_new_lines,
}

abbrev pub NoNewline : Bytes → Type 0
NoNewline = All (λ c. (c == 10) ≡ false)

-- The lines with a newline behind each.
abbrev pub unlines : List Bytes → Bytes
unlines [] = []
unlines (l ∷ ls) = l ++ (10 ∷ unlines ls)

-- What `rfind` finds: no newline at all, or the last one.
pub last_newline-none : (cs : Bytes) → last_newline cs ≡ none → NoNewline cs
unfolding last_newline
last_newline-none [] h = tt
last_newline-none (c ∷ cs) h = elim (Option-cases (last_newline cs)) [
  | inl no_later ↦ (ground (arith, no_later), last_newline-none cs no_later)
  | inr (k, later) ↦ absurd (ground (arith, later))
]

pub last_newline-some :
    (cs : Bytes) (k : ℕ)
    → last_newline cs ≡ some k
    → (cs ≡ take k cs ++ (10 ∷ drop (suc k) cs)) × NoNewline (drop (suc k) cs)
unfolding last_newline
last_newline-some [] k h = absurd (ground arith)
last_newline-some (c ∷ cs) zero h = elim (Option-cases (last_newline cs)) [
  | inl no_later ↦
      let newline : c ≡ 10 = ground (arith, no_later) in
      (ap (λ x. x ∷ cs) newline, last_newline-none cs no_later)
  | inr (j, later) ↦ absurd (ground (arith, later))
]
last_newline-some (c ∷ cs) (suc k) h = elim (Option-cases (last_newline cs)) [
  | inl no_later ↦ absurd (ground (arith, no_later))
  | inr (j, later) ↦
      let same : j ≡ k = ground (arith, later) in
      let (parts, rest) = last_newline-some cs k (later ∙ ap some same) in
      (ap (λ (x : Bytes). c ∷ x) parts, rest)
]

cons_line-All :
    (c : ℕ) (ls : List Bytes)
    → (c == 10) ≡ false
    → All NoNewline ls
    → All NoNewline (cons_line c ls)
unfolding cons_line
cons_line-All c [] e a = ((e, tt), tt)
cons_line-All c (l ∷ ls) e (a, more) = ((e, a), more)

pub split_lines-All : (cs : Bytes) → All NoNewline (split_lines cs)
unfolding split_lines
split_lines-All [] = (tt, tt)
split_lines-All (c ∷ cs) =
    let rest = split_lines-All cs in
    elim (Bool-cases (c == 10)) [
      | inl e ↦ rw e (tt, rest)
      | inr e ↦ rw e (cons_line-All c (split_lines cs) e rest)
    ]

unlines-cons_line : (c : ℕ) (ls : List Bytes) → ls ≢ [] → unlines (cons_line c ls) ≡ c ∷ unlines ls
unfolding cons_line
unlines-cons_line c [] some_line = absurd (some_line refl)
unlines-cons_line c (l ∷ ls) some_line = refl

cons_line-cons : (c : ℕ) (ls : List Bytes) → cons_line c ls ≢ []
unfolding cons_line
cons_line-cons c [] h = absurd (ground (arith, h))
cons_line-cons c (l ∷ ls) h = absurd (ground (arith, h))

split_lines-cons : (cs : Bytes) → split_lines cs ≢ []
unfolding split_lines
split_lines-cons [] h = absurd (ground (arith, h))
split_lines-cons (c ∷ cs) h = elim (Bool-cases (c == 10)) [
  | inl e ↦ absurd (ground (arith, e))
  | inr e ↦ cons_line-cons c (split_lines cs) (ground (arith, e))
]

pub unlines-split_lines : (cs : Bytes) → unlines (split_lines cs) ≡ cs ++ (10 ∷ [])
unfolding split_lines
unlines-split_lines [] = refl
unlines-split_lines (c ∷ cs) =
    let rest = unlines-split_lines cs in
    elim (Bool-cases (c == 10)) [
      | inl e ↦
          let newline : c ≡ 10 = ground (arith, e) in
          rw e (ap₂ (λ (x : ℕ) (y : Bytes). x ∷ y) (sym newline) rest)
      | inr e ↦ rw e (
          unlines-cons_line c (split_lines cs) (split_lines-cons cs)
          ∙ ap (λ (x : Bytes). c ∷ x) rest)
    ]

pub unlines-append : (ls ms : List Bytes) → unlines (ls ++ ms) ≡ unlines ls ++ unlines ms
unlines-append [] ms = refl
unlines-append (l ∷ ls) ms = simp (append_laws, unlines-append ls ms)

pub All-append :
    (ls ms : List Bytes) → All NoNewline ls → All NoNewline ms → All NoNewline (ls ++ ms)
All-append [] ms a b = b
All-append (l ∷ ls) ms (a, more) b = (a, All-append ls ms more b)

-- The collector and the reader of its file: the file's content, the reader's cursor, and the
-- lines that the reader has been given so far.
pub record World : Type 0 where
  pub content : Bytes
  pub cursor : FileCursor
  pub delivered : List Text

-- The collector appends; or the reader polls, and the collector appends between the reader's
-- asking for the size and its reading.
pub data Action : Type 0 where
  append : Bytes → Action
  poll : Bytes → Action

unfoldable pub act : Decoder → World → Action → World
act decode w (append b) = record w { content = w.content ++ b }
act decode w (poll b) =
    let content = w.content ++ b in
    let (cursor, lines) = read_new_lines decode w.cursor (some (length w.content)) (some content) in
    record { content = content; cursor = cursor; delivered = w.delivered ++ lines }

unfoldable pub run_actions : Decoder → World → List Action → World
run_actions decode w [] = w
run_actions decode w (a ∷ rest) = run_actions decode (act decode w a) rest

-- The content is whole lines, which have been delivered and are what is behind the cursor, and a
-- rest.
pub record IsExact (decode : Decoder) (w : World) (lines : List Bytes) (pending : Bytes)
    : Type 0 where
  pub parts : w.content ≡ unlines lines ++ pending
  pub at : w.cursor.offset ≡ length (unlines lines)
  pub given : w.delivered ≡ map decode lines
  pub whole : All NoNewline lines
  pub on_path : has_path w.cursor.path ≡ true

-- Decoding does not join or part lines.
abbrev pub KeepsLines : Decoder → Type 0
KeepsLines decode = (b : Bytes) → split_lines (decode b) ≡ map decode (split_lines b)
