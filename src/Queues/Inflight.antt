-- ===== src/Queues/Inflight.antt =====
-- The inflight counts of the device snapshot against the busy requests.
use telemetryd.Base.{
  ℕ, zero, suc, ◌+◌, ◌-◌, ◌≡◌, refl, sym, ◌∙◌, ◌&&◌, Option, none, some, List, [], ◌∷◌, map, length,
  length-map, length-range_from, range, range_from, sum, leb, ltb, ◌==◌, if◌then◌else◌, Text, ok,
  arith, Dict, get, get_or, get-put, nat_keys, ==_iff,
}
use telemetryd.Models.Queues.{QueueSnapshot, DeviceSnapshot}
use telemetryd.Queues.Kernel.{Request, Controller, Disk, Kernel}
use telemetryd.Queues.Service.{
  lookup_device, inflight_by_hctx, count_request, queue_snapshot, snapshot_of, get_device_snapshot,
}

abbrev on_hctx : ℕ → Option ℕ → ℕ
on_hctx i none = 0
on_hctx i (some j) = if j == i then 1 else 0

-- How many requests hang on hardware context i.
abbrev pub count_on : ℕ → List Request → ℕ
count_on i [] = 0
count_on i (rq ∷ rqs) = on_hctx i rq.hctx + count_on i rqs

get_or-count_request :
    (i : ℕ) (h : Option ℕ) (bucket : Dict ℕ ℕ)
    → get_or (count_request h bucket) i 0 ≡ get_or bucket i 0 + on_hctx i h
unfolding count_request
get_or-count_request i none bucket = omega arith
get_or-count_request i (some j) bucket =
    ground (arith, get-put bucket j i (get_or bucket j 0 + 1), ==_iff j i)

get_or-inflight :
    (i : ℕ) (rqs : List Request) (bucket : Dict ℕ ℕ)
    → get_or (inflight_by_hctx rqs bucket) i 0 ≡ get_or bucket i 0 + count_on i rqs
unfolding inflight_by_hctx
get_or-inflight i [] bucket = omega arith
get_or-inflight i (rq ∷ rqs) bucket = omega (
  arith,
  get_or-inflight i rqs (count_request rq.hctx bucket),
  get_or-count_request i rq.hctx bucket,
)

abbrev within : ℕ → ℕ → Option ℕ → ℕ
within start n none = 0
within start n (some j) = if leb start j && ltb j (start + n) then 1 else 0

-- How many requests hang on the n contexts from `start` on.
abbrev pub count_within : ℕ → ℕ → List Request → ℕ
count_within start n [] = 0
count_within start n (rq ∷ rqs) = within start n rq.hctx + count_within start n rqs

within-suc :
    (start n : ℕ) (h : Option ℕ) → within start (suc n) h ≡ on_hctx start h + within (suc start) n h
within-suc start n none = omega arith
within-suc start n (some j) = ground arith

count_within-zero : (start : ℕ) (rqs : List Request) → count_within start 0 rqs ≡ 0
count_within-zero start [] = refl
count_within-zero start (rq ∷ rqs) = ground (arith, count_within-zero start rqs)

count_within-suc :
    (start n : ℕ) (rqs : List Request)
    → count_within start (suc n) rqs ≡ count_on start rqs + count_within (suc start) n rqs
count_within-suc start n [] = omega arith
count_within-suc start n (rq ∷ rqs) =
    omega (arith, count_within-suc start n rqs, within-suc start n rq.hctx)

inflight_count :
    (i : ℕ) (rqs : List Request) → get_or (inflight_by_hctx rqs []) i 0 ≡ count_on i rqs
unfolding get
inflight_count i rqs = omega (arith, get_or-inflight i rqs [])

queues_of-length :
    (k : Kernel) (device : Text) (disk : Disk)
    → length (snapshot_of k device disk).queues ≡ disk.ctrl.online_queues
unfolding snapshot_of
queues_of-length k device disk =
    length-map _ (range disk.ctrl.online_queues) ∙ length-range_from 0 disk.ctrl.online_queues

first_counts_nothing :
    (q : QueueSnapshot) (n : ℕ) → q.inflight_driver ≡ 0 → q.inflight_driver + n ≡ n
first_counts_nothing q n h = omega arith

-- The admin queue has no context and counts nothing; the I/O queues count their own context.
sum_io :
    (c : Controller) (driver sched : List Request) (start n : ℕ)
    → sum (
        map
          (λ q. q.inflight_driver)
          (map
            (queue_snapshot c (inflight_by_hctx driver []) (inflight_by_hctx sched []))
            (range_from (suc start) n)))
      ≡ count_within start n driver
unfolding queue_snapshot
sum_io c driver sched start zero = sym (count_within-zero start driver)
sum_io c driver sched start (suc n) = omega (
  arith,
  sum_io c driver sched (suc start) n,
  count_within-suc start n driver,
  inflight_count start driver,
)

queues_of-sum :
    (k : Kernel) (device : Text) (disk : Disk)
    → sum (map (λ q. q.inflight_driver) (snapshot_of k device disk).queues)
      ≡ count_within 0 (disk.ctrl.online_queues - 1) disk.driver_busy
unfolding snapshot_of queue_snapshot
queues_of-sum k device disk = by_online disk.ctrl.online_queues
  where
    snap : ℕ → QueueSnapshot
    snap =
        queue_snapshot disk.ctrl (inflight_by_hctx disk.driver_busy [])
          (inflight_by_hctx disk.sched_busy [])

    by_online :
        (n : ℕ)
        → sum (map (λ q. q.inflight_driver) (map snap (range n)))
          ≡ count_within 0 (n - 1) disk.driver_busy
    by_online zero = sym (count_within-zero 0 disk.driver_busy)
    by_online (suc n) =
        let e : suc n - 1 ≡ n = omega arith in
        rw e (
          first_counts_nothing (snap 0)
            (sum (map (λ q. q.inflight_driver) (map snap (range_from 1 n)))) refl
          ∙ sum_io disk.ctrl disk.driver_busy disk.sched_busy 0 n)

-- Where the fields of the controller and of its online queues can be read, a snapshot has an entry for each online queue, and its driver counts together count each busy
-- request that hangs on a context of an online I/O queue exactly once, and no other request.
pub get_device_snapshot-inflight :
    (k : Kernel) (device : Text) (disk : Disk)
    → lookup_device k device ≡ ok disk
    → disk.ctrl.fault ≡ none
    → (s : DeviceSnapshot) × (get_device_snapshot k device ≡ ok s)
      × (length s.queues ≡ disk.ctrl.online_queues)
      × (sum (map (λ q. q.inflight_driver) s.queues)
          ≡ count_within 0 (disk.ctrl.online_queues - 1) disk.driver_busy)
unfolding get_device_snapshot
get_device_snapshot-inflight k device disk found readable = (
  snapshot_of k device disk,
  rw (found, readable) refl,
  queues_of-length k device disk,
  queues_of-sum k device disk,
)
