-- ===== src/Tests/Logs.antt =====
-- The cursor on a log that grows and is rotated.
use telemetryd.Base.{◌≡◌, refl, sym, some, List, [], ◌∷◌, Text, codes}
use mathlib.Core.List.{map-id}
use telemetryd.Platform.LogFile.{
  Bytes, Decoder, FileCursor, split_lines, read_new_lines, open_cursor,
}
use telemetryd.Platform.LogFile.Stream.{
  NoNewline, Action, append, poll, act, run_actions, IsExact, KeepsLines,
}
use telemetryd.Platform.LogFile.Stream.Exact.{opened, poll-run_actions}

abbrev ascii : Decoder
ascii bytes = bytes

abbrev path : Text
path = codes "log"

abbrev actions : List Action
actions = append (codes "a") ∷ poll (codes "b") ∷ append (b'\n' ∷ codes "c") ∷ []

keeps_lines : KeepsLines ascii
keeps_lines b = sym (map-id (split_lines b))

whole_lines :
    (act ascii (run_actions ascii (opened path) actions) (poll (b'\n' ∷ codes "d"))).delivered
    ≡ codes "ab" ∷ codes "c" ∷ []
unfolding act run_actions read_new_lines telemetryd.Platform.LogFile.take_lines
    telemetryd.Platform.LogFile.last_newline split_lines
whole_lines = refl

poll-run_actions_example :
    (lines : List Bytes) × (rest : Bytes) × IsExact ascii
      (act ascii (run_actions ascii (opened path) actions) (poll (codes "d")))
      lines
      rest
    × NoNewline rest
poll-run_actions_example = poll-run_actions ascii b'l' (codes "og") actions (codes "d") keeps_lines

abbrev old_cursor : FileCursor
old_cursor = record { path = some path; offset = 9 }
