-- ===== src/Tests/Devices.antt =====
-- The devices of a concrete kernel.
use telemetryd.Base.{
  ℕ, ◌≤◌, ◌≡◌, ◌↔◌, refl, Option, some, List, [], ◌∷◌, map, Member, here, there, Text, codes,
  Result, ok, arith,
}
use telemetryd.Names.{device_name, match_device, match_disk, disk_name, match_disk-disk_name}
use telemetryd.Queues.Kernel.{Disk}
use telemetryd.Queues.Service.{lookup_device, list_devices, instances}
use telemetryd.Queues.Devices.{Serves, lookup_device-least, lookup_device-finds}
use telemetryd.Queues.Listed.{list_devices-iff-lookup}
use telemetryd.Tests.Data.{kernel, disk, nvme0_found}

listed : list_devices kernel ≡ device_name 0 ∷ device_name 1 ∷ []
unfolding list_devices instances telemetryd.Base.sort_by
listed = refl

lookup_device-least_example :
    (i : ℕ) × (nsid : ℕ) × (match_device (codes "nvme0") ≡ some i)
    × Member disk kernel.disks
    × Serves disk i nsid
    × ((d' : Disk) (n : ℕ) → Member d' kernel.disks → Serves d' i n → nsid ≤ n)
lookup_device-least_example = lookup_device-least kernel (codes "nvme0") disk nvme0_found

name_0 : match_device (codes "nvme0") ≡ some 0
unfolding match_device
name_0 = refl

disk_0 : Serves disk 0 1
unfolding match_disk
disk_0 = refl

second_disk_found : (d : Disk) × (lookup_device kernel (codes "nvme0") ≡ ok d)
second_disk_found =
    lookup_device-finds kernel (codes "nvme0") 0 1 disk name_0 (there (there (here refl))) disk_0

list_devices-iff-lookup_example :
    Member (device_name 1) (list_devices kernel)
    ↔ ((d : Disk) × (lookup_device kernel (device_name 1) ≡ ok d))
list_devices-iff-lookup_example = list_devices-iff-lookup kernel 1

disk_name_read : match_disk (disk_name 12 3) ≡ some (12, 3)
disk_name_read = match_disk-disk_name 12 3
