-- ===== src/Platform/LogFile/Stream/Polls.antt =====
-- One append and one poll of the incremental cursor over a growing file.
use telemetryd.Base.{
  append_laws, ℕ, zero, suc, ◌+◌, ◌≤◌, ◌≡◌, refl, ap, ◌∙◌, true, false, none, some, List, [], ◌∷◌,
  ◌++◌, drop, take, length, length-append, ltb, ltb→lt, arith, inl, inr, Option-cases,
}
use mathlib.Core.List.{append_assoc, append-nil}
use telemetryd.Platform.LogFile.{
  Bytes, Decoder, FileCursor, has_path, last_newline, split_lines, take_lines, read_new_lines,
}
use telemetryd.Platform.LogFile.Stream.{unlines, World, append, poll, act, IsExact}

drop-length : (xs ys : Bytes) → drop (length xs) (xs ++ ys) ≡ ys
drop-length [] ys = refl
drop-length (x ∷ xs) ys = drop-length xs ys

pub not_shorter : (a b : ℕ) → b ≤ a → ltb a b ≡ false
not_shorter a b le = ground (arith, ltb→lt a b)

-- A cursor that has read a part of a file that has not become shorter takes what is behind it.
read_new_lines-behind :
    (decode : Decoder) (c : FileCursor) (past pending b : Bytes)
    → has_path c.path ≡ true
    → c.offset ≡ length past
    → read_new_lines decode c (some (length (past ++ pending))) (some ((past ++ pending) ++ b))
      ≡ take_lines decode c (pending ++ b)
unfolding read_new_lines
read_new_lines-behind decode c past pending b on at =
    let kept : ltb (length (past ++ pending)) c.offset ≡ false =
      not_shorter (length (past ++ pending)) c.offset
        (ground (arith, at, length-append past pending)) in
    rw (on, kept, at, append_assoc past pending b, drop-length past (pending ++ b)) refl

pub append-IsExact :
    (decode : Decoder) (w : World) (lines : List Bytes) (pending b : Bytes)
    → IsExact decode w lines pending
    → IsExact decode (act decode w (append b)) lines (pending ++ b)
unfolding act
append-IsExact decode w lines pending b ok = record {
  parts = simp (append_laws, ok.parts);
  at = ok.at;
  given = ok.given;
  whole = ok.whole;
  on_path = ok.on_path;
}

-- What a poll makes of the world when the chunk has no newline.
pub act-poll-none :
    (decode : Decoder) (w : World) (lines : List Bytes) (pending b : Bytes)
    → IsExact decode w lines pending
    → last_newline (pending ++ b) ≡ none
    → act decode w (poll b)
      ≡ record { content = w.content ++ b; cursor = w.cursor; delivered = w.delivered }
unfolding act take_lines
act-poll-none decode w lines pending b ok e =
    rw
      (
        ok.parts,
        read_new_lines-behind decode w.cursor (unlines lines) pending b ok.on_path ok.at,
        e,
        take_lines,
        append-nil w.delivered,
      )
      refl

pub act-poll-some :
    (decode : Decoder) (w : World) (lines : List Bytes) (pending b : Bytes) (k : ℕ)
    → IsExact decode w lines pending
    → last_newline (pending ++ b) ≡ some k
    → act decode w (poll b) ≡ record {
      content = w.content ++ b;
      cursor = record w.cursor { offset = w.cursor.offset + (k + 1) };
      delivered = w.delivered ++ split_lines (decode (take k (pending ++ b)));
    }
unfolding act take_lines
act-poll-some decode w lines pending b k ok e =
    rw
      (
        ok.parts,
        read_new_lines-behind decode w.cursor (unlines lines) pending b ok.on_path ok.at,
        e,
        take_lines,
      )
      refl

pub length-take-le : (k : ℕ) (cs : Bytes) → last_newline cs ≡ some k → length (take k cs) ≡ k
unfolding last_newline
length-take-le zero cs h = refl
length-take-le (suc k) [] h = absurd (ground arith)
length-take-le (suc k) (c ∷ cs) h = elim (Option-cases (last_newline cs)) [
  | inl no_later ↦ absurd (ground (arith, no_later))
  | inr (j, later) ↦
      let same : j ≡ k = ground (arith, later) in
      ap (λ (x : ℕ). suc x) (length-take-le k cs (later ∙ ap some same))
]
