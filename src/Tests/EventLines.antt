-- ===== src/Tests/EventLines.antt =====
-- Event lines, the readers and the counters on concrete logs.
use telemetryd.Base.{
  ℕ, ◌+◌, ◌-◌, ◌≡◌, ◌↔◌, ◌⊎◌, ◌++◌, ap, ◌∙◌, decimal, decimal_ℤ, refl, ℤ, pos, negsuc, true, some,
  List, [], ◌∷◌, drop, length, Text, codes, arith, Member, IsSorted,
}
use telemetryd.Models.Events.{NvmeEvent, ErrorEventDetail}
use telemetryd.Names.{device_name}
use telemetryd.Platform.LogFile.{
  Bytes, Decoder, FileLogSource, at_path, as_log_source, available, read_tail, read_new_lines,
  open_cursor, take_lines, last_newline, split_lines, cons_line,
}
use telemetryd.Events.Pattern.{render}
use telemetryd.Events.Errors.{error_items, error_event, parse_error_line}
use telemetryd.Events.Lines.Printf.{Completion, error_line, IsReported, parse_error_line-printed}
use telemetryd.Events.Lines.{parse_error_line-render, IsErrorEvent, parse_error_line-IsErrorEvent}
use telemetryd.Events.Reader.{Clock, new_reader, poll_events, absorb, parse_lines, trim}
use telemetryd.Events.Ring.{parsed_batches, absorb_batches, absorb_batches-last}
use telemetryd.Events.Stats.{tail_bytes, read_error_stats}
use telemetryd.Events.Stats.Latest.{IsReport, read_error_stats-IsReport}
use telemetryd.Events.Service.{
  EventService, new_service, Answers, observed_before, sources, poll_timeouts, poll_errors,
  get_events, get_events-Member,
}

abbrev ascii : Decoder
ascii bytes = bytes

abbrev quoted : Text → Text
quoted t = t

-- A read of LBA 8 on queue 1 that failed with an unrecovered read error, its broadcast namespace
-- number printed as -1.
abbrev error_values : List ℤ
error_values =
    pos 5
    ∷ pos 0
    ∷ pos 1
    ∷ pos 7
    ∷ pos 7
    ∷ pos 2
    ∷ negsuc 0
    ∷ pos 0x281
    ∷ pos 2
    ∷ pos 129
    ∷ pos 0
    ∷ pos 0
    ∷ pos 0
    ∷ pos 8
    ∷ pos 1
    ∷ pos 0
    ∷ pos 1
    ∷ pos 900
    ∷ []

-- The same, as the tracepoint has it: the broadcast namespace number has all bits set.
abbrev completion : Completion
completion = record {
  ts_ns = 5;
  ctrl = 0;
  qid = 1;
  cid = 0x5007;
  status = 0x4281;
  retries = 1;
  submit_seen = true;
  opcode = 2;
  nsid = 0xFFFFFFFF;
  slba = 8;
  nlb = 1;
  elapsed_ns = 900;
}

parse_error_line-printed_example :
    (e : NvmeEvent) × (d : ErrorEventDetail) × (parse_error_line 3 (error_line completion) ≡ some e)
    × IsReported 3 completion e d
parse_error_line-printed_example = parse_error_line-printed 3 completion (omega arith) (omega arith)

error_line_read :
    parse_error_line 3 (render error_items error_values) ≡ some (error_event 3 error_values)
error_line_read = parse_error_line-render 3 error_values (refl, (refl, (refl, tt)))

error_line_read_at :
    parse_error_line 100 (render error_items error_values) ≡ some (error_event 100 error_values)
error_line_read_at = parse_error_line-render 100 error_values (refl, (refl, (refl, tt)))

parse_error_line-IsErrorEvent_example :
    (d : ErrorEventDetail) × IsErrorEvent (error_event 3 error_values) d
parse_error_line-IsErrorEvent_example =
    parse_error_line-IsErrorEvent 3 (render error_items error_values) (error_event 3 error_values)
      error_line_read

abbrev timeout_values : List ℤ
timeout_values =
    pos 5
    ∷ pos 0
    ∷ pos 1
    ∷ pos 7
    ∷ pos 2
    ∷ pos 1
    ∷ pos 0
    ∷ pos 8
    ∷ pos 0
    ∷ pos 0
    ∷ pos 0
    ∷ pos 0
    ∷ pos 0
    ∷ pos 900
    ∷ []

abbrev one_decimal : ℕ → ℕ → Text
one_decimal n d = codes "0.0"

abbrev log : FileLogSource
log = record { path = some (codes "log") }

abbrev clock : Clock
clock k = 100 + k

abbrev batches : List (Clock × List Text)
batches =
    (clock, render error_items error_values ∷ codes "noise" ∷ [])
    ∷ (clock, render error_items error_values ∷ [])
    ∷ []

absorb_batches-last_example :
    (absorb_batches parse_error_line (new_reader log 1) batches).events
    ≡ drop
        (length (parsed_batches parse_error_line batches) - 1)
        (parsed_batches parse_error_line batches)
absorb_batches-last_example = absorb_batches-last parse_error_line log 1 batches (omega arith)

abbrev counters : Bytes
counters = codes "@err_count[0, 2, 129]: 12"

path_is_a_log : available (as_log_source (at_path (codes "log"))) true ≡ true
unfolding available as_log_source
path_is_a_log = refl

service_has_a_log : available (new_service log).log true ≡ true
unfolding available new_service
service_has_a_log = refl

read_error_stats-IsReport_example :
    IsReport
      (read_tail ascii (as_log_source (at_path (codes "log"))) tail_bytes (some 25) (some counters))
      0
      (read_error_stats quoted ascii
        (at_path (codes "log"))
        (device_name 0)
        true
        (some 25)
        (some counters))
read_error_stats-IsReport_example =
    read_error_stats-IsReport quoted ascii (at_path (codes "log")) 0 true (some 25) (some counters)
      path_is_a_log

abbrev error_log : Bytes
error_log = render error_items error_values ++ (10 ∷ [])

abbrev answers : Answers
answers = record { clock = clock; size = some (length error_log); content = some error_log }

abbrev called : EventService × List NvmeEvent
called = get_events one_decimal ascii (new_service log) (codes "nvme0") true answers answers

lines_read :
    (read_new_lines ascii (new_reader log 200).cursor answers.size answers.content).1
    ≡ render error_items error_values ∷ []
unfolding read_new_lines new_reader open_cursor take_lines last_newline split_lines cons_line render
    decimal_ℤ decimal
lines_read = refl

one_line_read :
    (line : Text) (e : NvmeEvent)
    → parse_error_line 100 line ≡ some e
    → trim 200 (parse_lines parse_error_line clock (line ∷ [])) ≡ e ∷ []
unfolding parse_lines trim
one_line_read line e h = rw (h, parse_lines) refl

-- The event of the line is among those that the reader of errors holds.
error_read :
    (poll_errors ascii clock (new_reader log 200) answers.size answers.content).events
    ≡ error_event 100 error_values ∷ []
unfolding poll_events absorb new_reader
error_read =
    ap (λ (lines : List Text). trim 200 (parse_lines parse_error_line clock lines)) lines_read
    ∙ one_line_read (render error_items error_values) (error_event 100 error_values)
        error_line_read_at

get_events-Member_example :
    (sources called.0 ≡ (
      poll_timeouts one_decimal ascii clock
          (sources (new_service log)).0
          answers.size
          answers.content,
      poll_errors ascii clock (sources (new_service log)).1 answers.size answers.content,
    ))
    × IsSorted observed_before called.1
    × ((e : NvmeEvent)
        → Member e called.1 ↔ (
            (Member e
                (poll_timeouts one_decimal ascii clock
                  (sources (new_service log)).0
                  answers.size
                  answers.content).events
              ⊎ Member e
                  (poll_errors ascii clock
                    (sources (new_service log)).1
                    answers.size
                    answers.content).events)
            × (e.device ≡ codes "nvme0")))
get_events-Member_example =
    get_events-Member one_decimal ascii (new_service log) (codes "nvme0") true answers answers
      service_has_a_log
