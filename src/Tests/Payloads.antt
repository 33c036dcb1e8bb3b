-- ===== src/Tests/Payloads.antt =====
-- Payload dumps of a concrete kernel.
use telemetryd.Base.{
  range, ◌/◌, ◌%◌, ℕ, suc, zero, ◌+◌, ◌<◌, ◌≤◌, ◌^◌, ◌*◌, ◌≡◌, ◌≢◌, refl, pos, true, none, some,
  length, take, codes, ok, arith, ◌==◌,
}
use telemetryd.Models.Queues.{PrpPayload}
use telemetryd.NvmeConst.{max_page_dump, page_size}
use telemetryd.Queues.Decode.{decode_prp_pages}
use telemetryd.Queues.Kernel.{Command, Kernel, Disk}
use telemetryd.Queues.Service.{
  lookup_device, check_qid, instance_of, find_any_namespace_disk, best_disk,
}
use telemetryd.Names.{match_device}
use telemetryd.Queues.Payload.{
  get_prp_payload, resolve_total_len, find_in_flight, len_of_command, find_command, answer,
  payload_of,
}
use telemetryd.Queues.Prp.{payload, ReadsAtMost}
use telemetryd.Queues.Flat.{flat}
use telemetryd.Queues.Transfer.{transfer, payload-decode}
use telemetryd.Queues.Shown.{IsSafe, IsUndecoded, get_prp_payload-IsSafe, length-get_prp_payload-le}
use telemetryd.Queues.Refines.{IsShowable, get_prp_payload-transfer}
use telemetryd.Queues.Lengths.{resolve_total_len-generation, len_of_command_bounds}
use telemetryd.Tests.Data.{byte_at, memory, kernel, disk, ring, read_command, nvme0_found}

earlier_slots : (j : ℕ) (c : Command) → j < 2 → ring.sq_cmds j ≡ some c → c.command_id ≢ 7
earlier_slots j c below h = absurd (ground arith)

showable : IsShowable kernel (codes "nvme0") disk 1 7 2 read_command byte_at
showable = record {
  device_found = nvme0_found;
  online = omega arith;
  command = record { inside = omega arith; holds = refl; id = refl; first = earlier_slots };
  prp = refl;
  pointer = omega arith;
  iommu_off = refl;
  reads = λ p n. refl;
}

get_prp_payload-transfer_example :
    (p : PrpPayload) × (get_prp_payload kernel (codes "nvme0") (pos 1) 7 ≡ ok p)
    × (payload p.pages
        ≡ take max_page_dump
            (transfer byte_at 8192 0 (resolve_total_len disk 1 7 read_command (1 == 0)).0))
get_prp_payload-transfer_example =
    get_prp_payload-transfer kernel (codes "nvme0") disk 1 7 2 read_command byte_at showable

payload-decode_example :
    payload (decode_prp_pages memory 8000 12288 5000)
    ≡ take max_page_dump (transfer byte_at 8000 12288 5000)
payload-decode_example = payload-decode byte_at memory (λ p n. refl) 8000 12288 5000 (omega arith)

-- With the IOMMU on.
abbrev guarded : Kernel
guarded = record kernel { iommu = true }

abbrev guarded_answer : PrpPayload
guarded_answer = payload_of guarded (codes "nvme0") disk 1 7 read_command

guarded_run : get_prp_payload guarded (codes "nvme0") (pos 1) 7 ≡ ok guarded_answer
unfolding get_prp_payload answer find_command check_qid lookup_device instance_of match_device
    find_any_namespace_disk best_disk
guarded_run = refl

get_prp_payload-IsSafe_example :
    IsSafe guarded guarded_answer
    × ((d : Disk) (n : ℕ) (cmd : Command)
        → lookup_device guarded (codes "nvme0") ≡ ok d
        → check_qid d.ctrl (pos 1) ≡ ok n
        → find_command (d.ctrl.queues n).sq_cmds 7 (range (d.ctrl.queues n).q_depth) ≡ some cmd
        → cmd.flags / 2 ^ 6 % 2 ^ 2 ≢ 0
        → IsUndecoded guarded_answer)
get_prp_payload-IsSafe_example =
    get_prp_payload-IsSafe guarded (codes "nvme0") (pos 1) 7 guarded_answer guarded_run

abbrev shown_answer : PrpPayload
shown_answer = payload_of kernel (codes "nvme0") disk 1 7 read_command

shown_run : get_prp_payload kernel (codes "nvme0") (pos 1) 7 ≡ ok shown_answer
unfolding get_prp_payload answer find_command check_qid lookup_device instance_of match_device
    find_any_namespace_disk best_disk
shown_run = refl

length-flat : (p n : ℕ) → length (flat byte_at p n) ≤ n
length-flat p zero = omega arith
length-flat p (suc n) = ground (arith, length-flat (p + 1) n)

reads_at_most : ReadsAtMost memory
reads_at_most p n = length-flat p n

length-get_prp_payload-le_example : length (payload shown_answer.pages) ≤ max_page_dump
length-get_prp_payload-le_example =
    length-get_prp_payload-le kernel (codes "nvme0") (pos 1) 7 shown_answer reads_at_most shown_run

resolve_total_len-generation_example :
    resolve_total_len disk 1 4103 read_command (1 == 0) ≡ len_of_command read_command (1 == 0)
resolve_total_len-generation_example =
    resolve_total_len-generation disk 1 4103 read_command (omega arith) (omega arith, tt)

abbrev identify_command : Command
identify_command = record read_command { opcode = 6 }

-- Of the admin queue the busy I/O request with the command's id for a tag is taken.
admin_tag : resolve_total_len disk 0 7 identify_command true ≡ (16, none)
unfolding resolve_total_len find_in_flight
admin_tag = refl

identify_bounds :
    (identify_command.opcode ≡ 6 → (len_of_command identify_command true).0 ≡ page_size)
    × (identify_command.opcode ≡ 2
        → (4 ≤ (len_of_command identify_command true).0)
          × ((len_of_command identify_command true).0 ≤ 4 * 2 ^ 32))
identify_bounds = len_of_command_bounds identify_command
