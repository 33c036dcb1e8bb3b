-- ===== src/Events/Reader.antt =====
-- `TimeoutEventReader` and `ErrorEventReader`, which are the same but for how a line is parsed.
-- The k-th call of `time.time()` while lines are read is answered by `clock k`.
use telemetryd.Base.{
  ℕ, suc, ◌-◌, Option, none, some, List, [], ◌∷◌, ◌++◌, drop, length, select, ltb, ◌==◌,
  if◌then◌else◌, Text, text_eq,
}
use telemetryd.Platform.LogFile.{
  Bytes, Decoder, FileCursor, FileLogSource, open_cursor, read_new_lines,
}
use telemetryd.Models.Events.{NvmeEvent}

abbrev pub Clock : Type 0
Clock = ℕ → ℕ

abbrev pub Parser : Type 0
Parser = ℕ → Text → Option NvmeEvent

pub record EventReader : Type 0 where
  pub cursor : FileCursor
  pub max_events : ℕ
  pub events : List NvmeEvent

unfoldable pub new_reader : FileLogSource → ℕ → EventReader
unfolding open_cursor
new_reader source max_events = record {
  cursor = open_cursor source;
  max_events = max_events;
  events = [];
}

-- The events of the lines, in the lines' order.
unfoldable pub parse_lines : Parser → Clock → List Text → List NvmeEvent
parse_lines parse clock [] = []
parse_lines parse clock (line ∷ lines) = elim (parse (clock 0) line) [
  | none ↦ parse_lines parse (λ k. clock (suc k)) lines
  | some e ↦ e ∷ parse_lines parse (λ k. clock (suc k)) lines
]

-- `xs[-n:]` for a list longer than n; `xs[-0:]` is the whole list.
unfoldable pub last_items : ℕ → List NvmeEvent → List NvmeEvent
last_items n xs = if n == 0 then xs else drop (length xs - n) xs

unfoldable pub trim : ℕ → List NvmeEvent → List NvmeEvent
unfolding last_items
trim n xs = if ltb n (length xs) then last_items n xs else xs

-- New lines into the ring buffer.
unfoldable pub absorb : Parser → Clock → EventReader → List Text → EventReader
absorb parse clock r lines = record r {
  events = trim r.max_events (r.events ++ parse_lines parse clock lines);
}

-- `poll`, with what the file system answers to the cursor; its result is the new reader's events.
unfoldable pub poll_events :
    Parser → Decoder → Clock → EventReader → Option ℕ → Option Bytes → EventReader
unfolding absorb
poll_events parse decode clock r size content =
    let (cursor, lines) = read_new_lines decode r.cursor size content in
    absorb parse clock (record r { cursor = cursor }) lines

unfoldable pub events_for_device : EventReader → Text → List NvmeEvent
events_for_device r device = select (λ e. text_eq e.device device) r.events
