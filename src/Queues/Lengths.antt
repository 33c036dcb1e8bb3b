-- ===== src/Queues/Lengths.antt =====
-- Where the transfer length of a command comes from.
use telemetryd.Base.{
  ℕ, ◌*◌, ◌^◌, ◌≤◌, ◌<◌, ◌≡◌, ◌≢◌, refl, true, false, Option, none, List, [], ◌∷◌, All, arith, ◌==◌,
}
use telemetryd.NvmeConst.{page_size}
use telemetryd.Queues.Kernel.{Command, Request, Disk}
use telemetryd.Queues.Service.{hctx_of}
use telemetryd.Queues.Payload.{find_in_flight, len_of_command, resolve_total_len}

find_in_flight-none :
    (h : Option ℕ) (cid : ℕ) (rqs : List Request)
    → All (λ r. r.tag ≢ cid) rqs
    → find_in_flight h cid rqs ≡ none
unfolding find_in_flight
find_in_flight-none h cid [] a = refl
find_in_flight-none h cid (rq ∷ rqs) a =
    let other : (rq.tag == cid) ≡ false = ground (arith, a.0) in
    rw other (find_in_flight-none h cid rqs a.1)

All-above :
    (cid : ℕ) (rqs : List Request)
    → 2 ^ 12 ≤ cid
    → All (λ r. r.tag < 2 ^ 12) rqs
    → All (λ r. r.tag ≢ cid) rqs
All-above cid [] h a = tt
All-above cid (rq ∷ rqs) h a = (λ e. absurd (omega (arith, a.0)), All-above cid rqs h a.1)

-- Where tags have 12 bits, a command id with a generation number in its upper bits matches no busy
-- request: whatever is in flight, the length is guessed from the command.
pub resolve_total_len-generation :
    (disk : Disk) (qid cid : ℕ) (cmd : Command)
    → 2 ^ 12 ≤ cid
    → All (λ r. r.tag < 2 ^ 12) disk.driver_busy
    → resolve_total_len disk qid cid cmd (qid == 0) ≡ len_of_command cmd (qid == 0)
unfolding resolve_total_len
resolve_total_len-generation disk qid cid cmd h a =
    let missed = find_in_flight-none (hctx_of qid) cid disk.driver_busy (All-above cid _ h a) in
    rw (missed, resolve_total_len) refl

-- What the command alone tells: one page for Identify, and for Get Log Page a positive number of
-- dwords that 32 bits count.
pub len_of_command_bounds :
    (cmd : Command)
    → (cmd.opcode ≡ 6 → (len_of_command cmd true).0 ≡ page_size)
      × (cmd.opcode ≡ 2
          → (4 ≤ (len_of_command cmd true).0) × ((len_of_command cmd true).0 ≤ 4 * 2 ^ 32))
unfolding len_of_command
len_of_command_bounds cmd = (λ e. ground arith, λ e. (ground arith, ground arith))
