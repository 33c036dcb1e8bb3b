-- ===== src/Platform/LogFile/Stream/Exact.antt =====
-- What the reader of a growing file is given.
use telemetryd.Base.{
  append_laws, ℕ, suc, ◌+◌, ◌<◌, ◌≡◌, refl, ap, ap₂, sym, subst, ◌∙◌, true, false, none, some, List,
  [], ◌∷◌, ◌++◌, drop, take, length, length-append, ltb, lt→ltb, Text, arith, inl, inr,
  Option-cases,
}
use mathlib.Core.List.{append_assoc, append-nil, map-append}
use telemetryd.Platform.LogFile.{
  Bytes, Decoder, FileCursor, has_path, last_newline, split_lines, read_new_lines, open_cursor,
}
use telemetryd.Platform.LogFile.Stream.{
  NoNewline, unlines, last_newline-none, last_newline-some, split_lines-All, unlines-split_lines,
  unlines-append, All-append, World, Action, append, poll, act, run_actions, IsExact, KeepsLines,
}
use telemetryd.Platform.LogFile.Stream.Polls.{
  not_shorter, append-IsExact, act-poll-none, act-poll-some, length-take-le,
}

poll-none :
    (decode : Decoder) (w : World) (lines : List Bytes) (pending b : Bytes)
    → IsExact decode w lines pending
    → last_newline (pending ++ b) ≡ none
    → IsExact decode (act decode w (poll b)) lines (pending ++ b)
poll-none decode w lines pending b ok e =
    subst (λ v. IsExact decode v lines (pending ++ b))
      (sym (act-poll-none decode w lines pending b ok e))
      record {
        parts = simp (append_laws, ok.parts);
        at = ok.at;
        given = ok.given;
        whole = ok.whole;
        on_path = ok.on_path;
      }

poll-some :
    (decode : Decoder) (w : World) (lines : List Bytes) (pending b : Bytes) (k : ℕ)
    → KeepsLines decode
    → IsExact decode w lines pending
    → last_newline (pending ++ b) ≡ some k
    → IsExact decode
        (act decode w (poll b))
        (lines ++ split_lines (take k (pending ++ b)))
        (drop (suc k) (pending ++ b))
poll-some decode w lines pending b k keeps ok e =
    let chunk = pending ++ b in
    let got = split_lines (take k chunk) in
    let chunk_parts : chunk ≡ unlines got ++ drop (suc k) chunk =
      (last_newline-some chunk k e).0
      ∙ sym (append_assoc (take k chunk) (10 ∷ []) (drop (suc k) chunk))
      ∙ ap (λ (x : Bytes). x ++ drop (suc k) chunk) (sym (unlines-split_lines (take k chunk))) in
    let grown : unlines lines ++ unlines got ≡ unlines (lines ++ got) =
      sym (unlines-append lines got) in
    let long : length (unlines got) ≡ k + 1 =
      ap length (unlines-split_lines (take k chunk))
      ∙ length-append (take k chunk) (10 ∷ [])
      ∙ ap (λ (n : ℕ). n + 1) (length-take-le k chunk e) in
    subst (λ v. IsExact decode v (lines ++ got) (drop (suc k) chunk))
      (sym (act-poll-some decode w lines pending b k ok e))
      record {
        parts =
            ap (λ (x : Bytes). x ++ b) ok.parts
            ∙ append_assoc (unlines lines) pending b
            ∙ ap (λ (x : Bytes). unlines lines ++ x) chunk_parts
            ∙ sym (append_assoc (unlines lines) (unlines got) (drop (suc k) chunk))
            ∙ ap (λ (x : Bytes). x ++ drop (suc k) chunk) grown;
        at =
            ap₂ (λ (m n : ℕ). m + n) ok.at (sym long)
            ∙ sym (length-append (unlines lines) (unlines got))
            ∙ ap length grown;
        given =
            ap₂ (λ (x y : List Text). x ++ y) ok.given (keeps (take k chunk))
            ∙ sym (map-append decode lines got);
        whole = All-append lines got ok.whole (split_lines-All (take k chunk));
        on_path = ok.on_path;
      }

-- A poll keeps the world exact, and leaves nothing behind that has a newline.
pub poll-IsExact :
    (decode : Decoder) (w : World) (lines : List Bytes) (pending b : Bytes)
    → KeepsLines decode
    → IsExact decode w lines pending
    → (more : List Bytes) × (rest : Bytes) × IsExact decode
        (act decode w (poll b))
        (lines ++ more)
        rest
      × NoNewline rest
poll-IsExact decode w lines pending b keeps ok = elim (Option-cases (last_newline (pending ++ b))) [
  | inl e ↦ (
    [],
    pending ++ b,
    rw (append-nil lines) (poll-none decode w lines pending b ok e),
    last_newline-none (pending ++ b) e,
  )
  | inr (k, e) ↦ (
    split_lines (take k (pending ++ b)),
    drop (suc k) (pending ++ b),
    poll-some decode w lines pending b k keeps ok e,
    (last_newline-some (pending ++ b) k e).1,
  )
]

-- The reader of a new source, before the collector's first line.
abbrev pub opened : Text → World
opened path = record {
  content = [];
  cursor = record { path = some path; offset = 0 };
  delivered = [];
}

run_actions-kept :
    (decode : Decoder) (w : World) (lines : List Bytes) (pending : Bytes) (actions : List Action)
    → KeepsLines decode
    → IsExact decode w lines pending
    → (all_lines : List Bytes) × (rest : Bytes) × IsExact decode
        (run_actions decode w actions)
        all_lines
        rest
unfolding run_actions
run_actions-kept decode w lines pending [] keeps ok = (lines, pending, ok)
run_actions-kept decode w lines pending (append b ∷ actions) keeps ok =
    run_actions-kept decode (act decode w (append b)) lines (pending ++ b) actions keeps
      (append-IsExact decode w lines pending b ok)
run_actions-kept decode w lines pending (poll b ∷ actions) keeps ok =
    let (more, rest, kept, clean) = poll-IsExact decode w lines pending b keeps ok in
    run_actions-kept decode (act decode w (poll b)) (lines ++ more) rest actions keeps kept

-- Where decoding neither joins nor parts lines, whatever the order of appends and polls (with
-- appends within a poll) from an empty file and a cursor at its beginning, a further poll leaves
-- the reader with exactly the decoded lines, each once and in order, that the file holds up to its
-- last newline: the file is those lines, each with its newline, and a rest without one.
pub poll-run_actions :
    (decode : Decoder) (c : ℕ) (path : Text) (actions : List Action) (b : Bytes)
    → KeepsLines decode
    → (lines : List Bytes) × (rest : Bytes) × IsExact decode
        (act decode (run_actions decode (opened (c ∷ path)) actions) (poll b))
        lines
        rest
      × NoNewline rest
poll-run_actions decode c path actions b keeps =
    let start : IsExact decode (opened (c ∷ path)) [] [] = record {
      parts = refl;
      at = refl;
      given = refl;
      whole = tt;
      on_path = refl;
    } in
    let (lines, pending, ok) =
      run_actions-kept decode (opened (c ∷ path)) [] [] actions keeps start in
    let (more, rest, kept, clean) =
      poll-IsExact decode (run_actions decode (opened (c ∷ path)) actions) lines pending b keeps
        ok in
    (lines ++ more, rest, kept, clean)

-- When the file has become shorter than what was read of it, a poll reads it from its beginning,
-- as a new cursor of the same path does.
pub read_new_lines-rotated :
    (decode : Decoder) (c : FileCursor) (size : ℕ) (content : Bytes)
    → has_path c.path ≡ true
    → size < c.offset
    → read_new_lines decode c (some size) (some content)
      ≡ read_new_lines decode (open_cursor record { path = c.path }) (some size) (some content)
unfolding read_new_lines open_cursor
read_new_lines-rotated decode c size content on shorter =
    let cut : ltb size c.offset ≡ true = lt→ltb size c.offset shorter in
    let fresh : ltb size 0 ≡ false = not_shorter size 0 (omega arith) in rw (on, cut, fresh) refl
