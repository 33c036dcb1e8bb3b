-- ===== src/Platform/LogFile.antt =====
-- platform/ebpf/logfile.py: the collector's log file and the incremental cursor. What the file
-- system answers (`os.path.getsize`, `os.path.exists`, reading the file; `none` is an `OSError`)
-- is an argument, and so is the decoding of bytes to text with errors="replace".
pub mod Stream
use telemetryd.Base.{
  ℕ, suc, ◌+◌, ◌-◌, Bool, true, false, ◌&&◌, Option, none, some, List, [], ◌∷◌, drop, take, length,
  ltb, ◌==◌, if◌then◌else◌, Text, codes,
}

abbrev pub Bytes : Type 0
Bytes = List ℕ

abbrev pub Decoder : Type 0
Decoder = Bytes → Text

pub record FileCursor : Type 0 where
  pub path : Option Text
  pub offset : ℕ

-- `bool(self._path)`
abbrev pub has_path : Option Text → Bool
has_path none = false
has_path (some []) = false
has_path (some (c ∷ cs)) = true

-- `chunk.rfind(b"\n")`; `none` for -1.
unfoldable pub last_newline : Bytes → Option ℕ
last_newline [] = none
last_newline (c ∷ cs) = elim (last_newline cs) [
  | none ↦ if c == 10 then some 0 else none
  | some k ↦ some (suc k)
]

unfoldable pub cons_line : ℕ → List Text → List Text
cons_line c [] = (c ∷ []) ∷ []
cons_line c (line ∷ lines) = (c ∷ line) ∷ lines

-- `text.split("\n")`
unfoldable pub split_lines : Text → List Text
unfolding cons_line
split_lines [] = [] ∷ []
split_lines (c ∷ cs) = let rest = split_lines cs in if c == 10 then [] ∷ rest else cons_line c rest

-- What the chunk behind the offset gives: the new offset and the lines.
unfoldable pub take_lines : Decoder → FileCursor → Bytes → FileCursor × List Text
take_lines decode c chunk = elim (last_newline chunk) [
  | none ↦ (c, [])
  | some k ↦ (record c { offset = c.offset + (k + 1) }, split_lines (decode (take k chunk)))
]

-- A file that has become shorter is read from its beginning.
abbrev pub rewound : FileCursor → ℕ → FileCursor
rewound c size = if ltb size c.offset then record c { offset = 0 } else c

-- The file is read after its size was asked for, and may have changed in between.
unfoldable pub read_new_lines :
    Decoder → FileCursor → Option ℕ → Option Bytes → FileCursor × List Text
read_new_lines decode c none content = (c, [])
read_new_lines decode c (some size) none = if has_path c.path then (rewound c size, []) else (c, [])
read_new_lines decode c (some size) (some content) =
    if has_path c.path
    then take_lines decode (rewound c size) (drop (rewound c size).offset content)
    else (c, [])

-- `FileEbpfLogSource`, and `NullEbpfLogSource`, which has no path.
pub record FileLogSource : Type 0 where
  pub path : Option Text

unfoldable pub null_log_source : FileLogSource
null_log_source = record { path = none }

-- `bool(self._path) and os.path.exists(self._path)`
unfoldable pub available : FileLogSource → Bool → Bool
available s exists = has_path s.path && exists

-- `decode` is that of a file opened as text.
unfoldable pub read_all : Decoder → FileLogSource → Option Bytes → Text
read_all decode s none = []
read_all decode s (some content) = if has_path s.path then decode content else []

unfoldable pub read_tail : Decoder → FileLogSource → ℕ → Option ℕ → Option Bytes → Text
read_tail decode s max_bytes none content = []
read_tail decode s max_bytes (some size) none = []
read_tail decode s max_bytes (some size) (some content) =
    if has_path s.path
    then decode (if ltb max_bytes size then drop (size - max_bytes) content else content)
    else []

unfoldable pub open_cursor : FileLogSource → FileCursor
open_cursor s = record { path = s.path; offset = 0 }

-- What may be passed for a log source: nothing, a path, or a source.
pub data SourceArgument : Type 0 where
  nothing : SourceArgument
  at_path : Text → SourceArgument
  source : FileLogSource → SourceArgument

unfoldable pub as_log_source : SourceArgument → FileLogSource
unfolding null_log_source
as_log_source nothing = null_log_source
as_log_source (at_path p) = record { path = some p }
as_log_source (source s) = s
