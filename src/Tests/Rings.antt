-- ===== src/Tests/Rings.antt =====
-- Windows, ring entries and snapshots of a concrete kernel.
use telemetryd.Base.{
  ℕ, ◌+◌, ◌<◌, ◌%◌, ◌-◌, ◌≡◌, refl, pos, true, false, some, List, [], ◌∷◌, map, length, get_elem?,
  select, sum, All, codes, ok, arith,
}
use telemetryd.Models.Queues.{DeviceSnapshot, QueueEntry}
use telemetryd.Queues.Decode.{window_indices}
use telemetryd.Queues.Kernel.{Command}
use telemetryd.Queues.Service.{check_qid, get_queue_entries, entry_indices, get_device_snapshot}
use telemetryd.Queues.Window.{length-window_indices, window_indices-behind}
use telemetryd.Queues.Entries.{is_some, Shows, get_queue_entries-slots}
use telemetryd.Queues.Inflight.{count_within, get_device_snapshot-inflight}
use telemetryd.Tests.Data.{kernel, disk, ring, nvme0_found}

newest_first : window_indices 2 5 (pos 3) ≡ 1 ∷ 0 ∷ 4 ∷ []
unfolding window_indices
newest_first = refl

length-window_indices_example : length (window_indices 2 5 (pos 3)) ≡ 3
length-window_indices_example = length-window_indices 2 5 (pos 3)

window_indices-behind_example :
    (s : ℕ) × (get_elem? (window_indices 2 5 (pos 3)) 2 ≡ some s)
    × (s < 5)
    × ((s + (2 + 1)) % 5 ≡ 2)
window_indices-behind_example = window_indices-behind 2 5 2 (pos 3) (omega arith) (omega arith)

queue_online : check_qid disk.ctrl (pos 1) ≡ ok 1
unfolding check_qid
queue_online = refl

get_queue_entries-slots_example :
    (es : List QueueEntry) × (get_queue_entries kernel (codes "nvme0") (pos 1) (pos 0) true ≡ ok es)
    × (map (λ e. e.index) es
        ≡ select (λ i. is_some (ring.sq_cmds i)) (entry_indices 3 4 (pos 0) true))
    × All (λ e. (c : Command) × (ring.sq_cmds e.index ≡ some c) × Shows false c e) es
get_queue_entries-slots_example =
    get_queue_entries-slots kernel (codes "nvme0") disk (pos 1) 1 (pos 0) true nvme0_found
      queue_online

get_device_snapshot-inflight_example :
    (s : DeviceSnapshot) × (get_device_snapshot kernel (codes "nvme0") ≡ ok s)
    × (length s.queues ≡ 2)
    × (sum (map (λ q. q.inflight_driver) s.queues) ≡ count_within 0 (2 - 1) disk.driver_busy)
get_device_snapshot-inflight_example =
    get_device_snapshot-inflight kernel (codes "nvme0") disk nvme0_found refl
