-- ===== src/Events/Ring.antt =====
-- What the readers' ring buffers hold.
use telemetryd.Base.{
  ℕ, zero, suc, ◌+◌, ◌-◌, ◌<◌, ◌≡◌, refl, sym, ap, ◌∙◌, List, [], ◌∷◌, ◌++◌, drop, length,
  length-append, length-drop, drop-append, ltb, Text, arith, Bool-cases, inl, inr,
}
use mathlib.Core.List.{append_assoc, append-nil}
use telemetryd.Platform.LogFile.{FileLogSource}
use telemetryd.Models.Events.{NvmeEvent}
use telemetryd.Events.Reader.{
  Clock, Parser, EventReader, new_reader, parse_lines, last_items, trim, absorb,
}

drop_nil : (k : ℕ) → drop {A = NvmeEvent} k [] ≡ []
drop_nil zero = refl
drop_nil (suc k) = refl

drop-drop : (n m : ℕ) (xs : List NvmeEvent) → drop n (drop m xs) ≡ drop (m + n) xs
drop-drop n zero xs = ap (λ (k : ℕ). drop k xs) (omega arith)
drop-drop n (suc m) [] = drop_nil n ∙ sym (drop_nil (suc m + n))
drop-drop n (suc m) (x ∷ xs) = drop-drop n m xs ∙ ap (λ (k : ℕ). drop k (x ∷ xs)) (shifted m n)
  where
    shifted : (m n : ℕ) → suc (m + n) ≡ suc m + n
    shifted m n = omega arith

-- Trimming keeps the last n, where n is not 0.
trim-drop : (n : ℕ) (xs : List NvmeEvent) → 0 < n → trim n xs ≡ drop (length xs - n) xs
unfolding trim last_items
trim-drop n xs some_room = elim (Bool-cases (ltb n (length xs))) [
  | inl more ↦ ground (arith, more)
  | inr fits ↦
      let none_over : 0 ≡ length xs - n = ground (arith, fits) in
      rw fits (ap (λ (k : ℕ). drop k xs) none_over)
]

-- Trimming before more comes does not change what is left when it has come.
trim-append :
    (n : ℕ) (xs ys : List NvmeEvent) → 0 < n → trim n (trim n xs ++ ys) ≡ trim n (xs ++ ys)
trim-append n xs ys some_room =
    let a = length xs - n in
    let all = xs ++ ys in
    let kept : trim n xs ++ ys ≡ drop a all =
      ap (λ zs. zs ++ ys) (trim-drop n xs some_room) ∙ sym (drop-append a xs ys (omega arith)) in
    let over : a + (length (drop a all) - n) ≡ length all - n =
      omega (arith, length-drop a all, length-append xs ys) in
    ap (trim n) kept
    ∙ trim-drop n (drop a all) some_room
    ∙ drop-drop (length (drop a all) - n) a all
    ∙ ap (λ (k : ℕ). drop k all) over
    ∙ sym (trim-drop n all some_room)

-- All that the reader has parsed, in order: a batch of lines for each poll.
abbrev pub parsed_batches : Parser → List (Clock × List Text) → List NvmeEvent
parsed_batches parse [] = []
parsed_batches parse ((clock, lines) ∷ batches) =
    parse_lines parse clock lines ++ parsed_batches parse batches

unfoldable pub absorb_batches : Parser → EventReader → List (Clock × List Text) → EventReader
absorb_batches parse r [] = r
absorb_batches parse r ((clock, lines) ∷ batches) =
    absorb_batches parse (absorb parse clock r lines) batches

trim_nil : (n : ℕ) → trim n [] ≡ []
unfolding trim last_items
trim_nil n = ground arith

absorb_batches-trim :
    (parse : Parser) (r : EventReader) (seen : List NvmeEvent) (batches : List (Clock × List Text))
    → 0 < r.max_events
    → r.events ≡ trim r.max_events seen
    → (absorb_batches parse r batches).events
      ≡ trim r.max_events (seen ++ parsed_batches parse batches)
unfolding absorb_batches absorb
absorb_batches-trim parse r seen [] some_room now =
    now ∙ ap (trim r.max_events) (sym (append-nil seen))
absorb_batches-trim parse r seen ((clock, lines) ∷ batches) some_room now =
    let fresh = parse_lines parse clock lines in
    let next : trim r.max_events (r.events ++ fresh) ≡ trim r.max_events (seen ++ fresh) =
      ap (λ zs. trim r.max_events (zs ++ fresh)) now
      ∙ trim-append r.max_events seen fresh some_room in
    absorb_batches-trim parse (absorb parse clock r lines) (seen ++ fresh) batches some_room next
    ∙ ap (trim r.max_events) (append_assoc seen fresh (parsed_batches parse batches))

-- A new reader with a maximum that is not 0 holds, whatever the batches in which the lines came,
-- exactly the last events of all that were parsed, as many as the maximum or all if there are
-- fewer, in their order.
pub absorb_batches-last :
    (parse : Parser) (source : FileLogSource) (max_events : ℕ) (batches : List (Clock × List Text))
    → 0 < max_events
    → let all = parsed_batches parse batches in
      (absorb_batches parse (new_reader source max_events) batches).events
      ≡ drop (length all - max_events) all
unfolding new_reader
absorb_batches-last parse source max_events batches some_room =
    absorb_batches-trim parse (new_reader source max_events) [] batches some_room
      (sym (trim_nil max_events))
    ∙ trim-drop max_events (parsed_batches parse batches) some_room
