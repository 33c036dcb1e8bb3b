-- ===== src/Lib.antt =====
-- telemetryd shows the live state of NVMe devices: it reads the kernel's structures through drgn
-- and the output of an eBPF collector, and offers what it finds as services (queues, events,
-- performance, topology, profiler) to a command line, a web application and a gRPC server.
--
-- The files of this library and the code they are about, with paths from the repository's root:
--
--   Base/          Python's integers, strings, dictionaries, sorting and number formats as far as
--                  the program uses them
--   Names          the names of devices and disks: the patterns of
--                  src/telemetryd/services/queues/decode.py, .../service.py and
--                  src/telemetryd/backend/ebpf_error_events.py
--   NvmeConst      src/telemetryd/nvme_const.py
--   Models/        the records of src/telemetryd/models.py
--   Queues/        src/telemetryd/services/queues/: Decode is decode.py, Service and Payload are
--                  service.py (Service finds devices and shows rings and counts, Payload the data
--                  of a command, Node the structure tree), Kernel is what they read of the kernel.
--                  The other files are proofs: Window of the ring windows, Prp, Flat and Transfer of
--                  the decoding of PRP entries, Refines, Shown and Lengths of the payload query, Devices and Listed of
--                  the lookup, Entries and Inflight of the ring entries and the request counts
--   Platform/      src/telemetryd/platform/: Cache is cache.py, LogFile is ebpf/logfile.py
--   Events/        the event service: Errors is src/telemetryd/backend/ebpf_error_events.py's line
--                  parser, Timeouts is src/telemetryd/backend/ebpf_timeout_events.py, Reader is
--                  both files' readers, Stats the counters, Service is
--                  src/telemetryd/services/events/service.py with backend/event_registry.py, and
--                  Pattern the regular expressions. Printed, Lines, Ring and Stats/Latest are proofs;
--                  Lines/Printf has the printf of ebpf/nvme_perf.bt that writes an error's line
--   Targets/       src/telemetryd/backend/targets.py: Rules are rule_matches and the rules of
--                  TargetRegistry, SessionIds is _session_id, Sessions the part of refresh that
--                  keeps the sessions, Attribution the part that shares out the I/O, Registry is
--                  refresh, State is _save and _load; Chosen, Kept and Sessions/Observed are proofs
--   Perf/          src/telemetryd/backend/ebpf_perf.py and services/perf/service.py: Ticks finds the
--                  last whole tick of the log, Segment parses its maps, Perf makes the rows, and
--                  Service puts them together; Percentile, Sums, Segment/Clean and Service/Totals
--                  are proofs
--   Procinfo/      src/telemetryd/backend/procinfo.py: Procinfo is the list of processes and their
--                  command lines, PageTable the walk through the page table; Argv, Grouped, Listed,
--                  and PageTable/Bytewise, /Loop and /Unit are proofs. Unit has the processor's paging
--                  unit, from the layout of its entries: of a large page's entry the walk's mask keeps
--                  bits that are not of the address, so the two are compared where these are clear
--   Profiler/      Lines and Collected are src/telemetryd/backend/proc_stats.py; Entries and Service
--                  are src/telemetryd/services/profiler/service.py: Entries the list of processes,
--                  Service its state. Lines/Printed, Collected/Printed, Entries/Conserved, Service/Shared and
--                  Service/Inventory are proofs
--   Treewalk/      src/telemetryd/treewalk.py: Kernel is what drgn offers, Describe and Expand are its
--                  functions, Steps the names in a path; the files below Expand are proofs
--   Tests/         runs on concrete inputs
--
-- How they interact: the queue service reads the kernel and decodes with Decode and NvmeConst; the
-- event service polls two readers, each of which has a cursor of its own on the collector's log,
-- and reads the counters from the log's tail. The profiler service puts the kernel's list of
-- processes, which it reads through the cache, together with the collector's statistics, and keeps
-- the registry of targets.
--
-- State. The cache and the readers are records, and an operation returns the new one. The kernel's
-- memory, the file system's answers, the clock, and the decoding of bytes to text are arguments. A
-- read that raises is `none`, and an exception that is passed on is a value of `Result`. Python's
-- integers are natural numbers where the program only makes such, and ℤ where a sign can occur.
--
-- Bounds. Three recursions are on fuel: the loop of the page-table walk, whose rounds each read a
-- byte at least, the digits of a printed number, which are fewer than the number itself plus one,
-- and the search for a free session id, which is found among as many candidates as there are ids
-- and one more. Ring depths, lengths and times have no bound.
--
-- Left out or simplified: `\d` stands for the ASCII digits; times are whole ticks, elapsed times
-- and latencies stay in nanoseconds and are not divided by 1000.0, rates and the cache's duration
-- factor are whole numbers, and a percentile's fraction is compared exactly, in thousandths.
-- `f"{x:.1f}"`, `repr`, regular expressions that a user writes, and the adapters are parameters.
-- The bounds of a histogram's buckets are read in exact arithmetic where the source goes through
-- `float`, and `\w` stands for ASCII characters. Topology and the adapters are not modelled, nor
-- are the JSON of the state file and the interfaces to the user. What the reads of a controller's and
-- of its queues' own fields raise is modelled of a device's snapshot; elsewhere these fields are taken
-- as readable. The script's printf is the one of its three conversions, and of what the script does
-- before it only the status fields, the tag and the flag are modelled.
pub mod Base
pub mod Names
pub mod NvmeConst
pub mod Platform
pub mod Models
pub mod Queues
pub mod Events
pub mod Targets
pub mod Perf
pub mod Procinfo
pub mod Treewalk
pub mod Profiler
pub mod Tests
