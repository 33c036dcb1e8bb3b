-- ===== src/Events/Service.antt =====
-- services/events/service.py and backend/event_registry.py: the readers' events together.
use telemetryd.Base.{
  ℕ, ◌≡◌, refl, ◌↔◌, ◌⊎◌, inl, inr, Bool, true, false, Option, none, some, List, [], ◌∷◌, ◌++◌,
  Text, text_eq, text_eq_iff, codes, ltb, if◌then◌else◌, sort_by, sort_by-IsSorted, IsSorted,
  Member, here, there, Member-select, Member-select_inv, Member-sort_by, Member-sort_by_inv, arith,
}
use telemetryd.Platform.LogFile.{Bytes, Decoder, FileLogSource, source, available}
use telemetryd.Models.Events.{NvmeEvent, DeviceErrorStats, EventKindInfo}
use telemetryd.Events.Errors.{error_kind, parse_error_line}
use telemetryd.Events.Timeouts.{timeout_kind, parse_timeout_line}
use telemetryd.Events.Reader.{Clock, EventReader, new_reader, poll_events, events_for_device}
use telemetryd.Events.Stats.{unavailable, read_error_stats}

-- `TimeoutEventReader.poll` and `ErrorEventReader.poll`.
abbrev pub poll_timeouts :
    (ℕ → ℕ → Text) → Decoder → Clock → EventReader → Option ℕ → Option Bytes → EventReader
poll_timeouts one_decimal = poll_events (parse_timeout_line one_decimal)

abbrev pub poll_errors : Decoder → Clock → EventReader → Option ℕ → Option Bytes → EventReader
poll_errors = poll_events parse_error_line

-- `EbpfEventService`; there are no readers before the first use.
pub record EventService : Type 0 where
  pub log : FileLogSource
  pub readers : Option (EventReader × EventReader)

unfoldable pub new_service : FileLogSource → EventService
new_service log = record { log = log; readers = none }

-- `_sources`: the timeouts' reader and the errors' reader, each with room for 200 events.
unfoldable pub sources : EventService → EventReader × EventReader
sources s = elim s.readers [
  | none ↦ (new_reader s.log 200, new_reader s.log 200)
  | some readers ↦ readers
]

-- What the file system and the clock answer to one poll of a reader.
pub record Answers : Type 0 where
  pub clock : Clock
  pub size : Option ℕ
  pub content : Option Bytes

abbrev pub observed_before : NvmeEvent → NvmeEvent → Bool
observed_before a b = ltb a.observed_at b.observed_at

-- `get_events`, and the service with its readers after it.
unfoldable pub get_events :
    (ℕ → ℕ → Text)
    → Decoder
    → EventService
    → Text
    → Bool
    → Answers
    → Answers
    → EventService × List NvmeEvent
get_events one_decimal decode s device exists first second =
    if available s.log exists
    then (let (timeouts, errors) = sources s in
        let timeouts =
          poll_timeouts one_decimal decode first.clock timeouts first.size first.content in
        let errors = poll_errors decode second.clock errors second.size second.content in
        (
          record s { readers = some (timeouts, errors) },
          sort_by observed_before
              (events_for_device timeouts device ++ events_for_device errors device),
        ))
    else (s, [])

unfoldable pub get_error_stats :
    (Text → Text)
    → Decoder
    → EventService
    → Text
    → Bool
    → Option ℕ
    → Option Bytes
    → DeviceErrorStats
get_error_stats repr decode s device exists size content =
    if available s.log exists
    then read_error_stats repr decode (source s.log) device exists size content
    else unavailable device
        (codes "eBPF 수집기 로그 없음 — nvme_perf.bt가 안 떠 있거나 로그 경로가 설정되지 않음(DESIGN.md §9.6)")

-- `registered_event_kinds`
unfoldable pub registered_event_kinds : Bool → List EventKindInfo
registered_event_kinds active =
    record {
      kind = timeout_kind;
      label = codes "타임아웃";
      source = codes "eBPF kprobe:nvme_timeout";
      description =
          codes
            "blk-mq가 커맨드를 시간 내 완료하지 못해 nvme_timeout()을 부른 경우. 제출 시점에 캐시해 둔 CDW로 어떤 커맨드였는지 복원해서 함께 기록한다.";
      active = active;
    }
    ∷ record {
      kind = error_kind;
      label = codes "에러 완료";
      source = codes "eBPF tracepoint:nvme:nvme_complete_rq (status != 0)";
      description =
          codes
            "에러 status로 반환된 커맨드. 타임아웃까지 가는 건 이상 징후의 극히 일부이고 대부분은 여기서 잡히는데, nvme 코어가 재시도로 흡수해버려 애플리케이션에서는 안 보인다. SCT/SC/DNR로 분해해 기록하고 조합별 누적 카운터도 따로 유지한다.";
      active = active;
    }
    ∷ []

unfoldable pub list_event_kinds : EventService → Bool → List EventKindInfo
list_event_kinds s exists = registered_event_kinds (available s.log exists)

Member-append :
    (e : NvmeEvent) (xs ys : List NvmeEvent) → Member e (xs ++ ys) ↔ (Member e xs ⊎ Member e ys)
Member-append e [] ys = (λ m. inr m, λ s. elim s [ inl m ↦ elim m [ ] | inr m ↦ m ])
Member-append e (x ∷ xs) ys = (forth (Member-append e xs ys).0, back (Member-append e xs ys).1)
  where
    forth :
        {x : NvmeEvent} {xs ys : List NvmeEvent}
        → (Member e (xs ++ ys) → Member e xs ⊎ Member e ys)
        → Member e (x ∷ (xs ++ ys))
        → Member e (x ∷ xs) ⊎ Member e ys
    forth f (here same) = inl (here same)
    forth f (there m) = elim (f m) [ inl n ↦ inl (there n) | inr n ↦ inr n ]

    back :
        {x : NvmeEvent} {xs ys : List NvmeEvent}
        → (Member e xs ⊎ Member e ys → Member e (xs ++ ys))
        → Member e (x ∷ xs) ⊎ Member e ys
        → Member e (x ∷ (xs ++ ys))
    back g (inl (here same)) = here same
    back g (inl (there m)) = there (g (inl m))
    back g (inr m) = there (g (inr m))

device-Member :
    (r : EventReader) (device : Text) (e : NvmeEvent)
    → Member e (events_for_device r device) ↔ (Member e r.events × (e.device ≡ device))
unfolding events_for_device
device-Member r device e = (
  λ m.
      let (n, h) = Member-select_inv (λ x. text_eq x.device device) r.events m in
      (n, (text_eq_iff e.device device).0 h),
  λ h.
      Member-select (λ x. text_eq x.device device) r.events h.0
        ((text_eq_iff e.device device).1 h.1),
)

merged-Member :
    (a b : EventReader) (device : Text) (e : NvmeEvent)
    → Member e (sort_by observed_before (events_for_device a device ++ events_for_device b device))
      ↔ ((Member e a.events ⊎ Member e b.events) × (e.device ≡ device))
merged-Member a b device e =
    let all = events_for_device a device ++ events_for_device b device in
    let both = Member-append e (events_for_device a device) (events_for_device b device) in
    (
      λ m. elim (both.0 (Member-sort_by_inv observed_before all m)) [
        | inl n ↦ let (held, of_device) = (device-Member a device e).0 n in (inl held, of_device)
        | inr n ↦ let (held, of_device) = (device-Member b device e).0 n in (inr held, of_device)
      ],
      λ h. Member-sort_by observed_before all (elim h.0 [
        | inl n ↦ both.1 (inl ((device-Member a device e).1 (n, h.1)))
        | inr n ↦ both.1 (inr ((device-Member b device e).1 (n, h.1)))
      ]),
    )

observed_before-asym : (a b : NvmeEvent) → observed_before a b ≡ true → observed_before b a ≡ false
observed_before-asym a b h = ground arith

-- Where there is a log: the service keeps the two readers as the polls leave them, its answer is in
-- the order of observation, and its events are exactly the device's among those that either reader
-- holds after its poll.
pub get_events-Member :
    (one_decimal : ℕ → ℕ → Text) (decode : Decoder) (s : EventService) (device : Text)
    (exists : Bool) (first second : Answers)
    → available s.log exists ≡ true
    → let timeouts =
        poll_timeouts one_decimal decode first.clock (sources s).0 first.size first.content in
      let errors = poll_errors decode second.clock (sources s).1 second.size second.content in
      let (after, events) = get_events one_decimal decode s device exists first second in
      (sources after ≡ (timeouts, errors))
      × IsSorted observed_before events
      × ((e : NvmeEvent)
          → Member e events
            ↔ ((Member e timeouts.events ⊎ Member e errors.events) × (e.device ≡ device)))
unfolding get_events sources
get_events-Member one_decimal decode s device exists first second there_is =
    let timeouts =
      poll_timeouts one_decimal decode first.clock (sources s).0 first.size first.content in
    let errors = poll_errors decode second.clock (sources s).1 second.size second.content in
    rw there_is (
      refl,
      sort_by-IsSorted observed_before observed_before-asym
          (events_for_device timeouts device ++ events_for_device errors device),
      λ e. merged-Member timeouts errors device e,
    )
