-- ===== src/Queues/Shown.antt =====
-- What `get_prp_payload` shows, and when it shows nothing.
use telemetryd.Base.{
  ◌≢◌, ◌/◌, ◌%◌, ◌^◌, ◌∙◌, subst, ℕ, ◌≤◌, ◌≡◌, refl, sym, >>=-eq-ok, ok-injective, ℤ, true, false,
  Option, none, some, [], length, range, ◌==◌, Text, ok, arith,
}
use telemetryd.Models.Queues.{PrpPayload}
use telemetryd.NvmeConst.{max_page_dump, to_bool}
use telemetryd.Queues.Kernel.{Command, Disk, Kernel}
use telemetryd.Queues.Service.{lookup_device, check_qid, psdt}
use telemetryd.Queues.Payload.{
  resolve_total_len, find_command, payload_of, no_command, answer, get_prp_payload, iommu_note,
  not_found_note,
}
use telemetryd.Queues.Prp.{payload, ReadsAtMost, length-payload-le}

-- What a returned answer says of its pages.
pub record IsSafe (k : Kernel) (p : PrpPayload) : Type 0 where
  -- an IOVA is never read as a physical address
  pub iommu : k.iommu ≡ true → p.pages ≡ []
  -- nor a scatter-gather list as PRP entries
  pub sgl : p.uses_sgl ≡ true → (p.pages ≡ []) × (p.total_len ≡ 0)
  -- an empty answer is explained, or there is nothing to show
  pub explained : k.iommu ≡ true → p.uses_sgl ≡ false → (e : Text) × (p.error ≡ some e)

payload_of-IsSafe :
    (k : Kernel) (device : Text) (disk : Disk) (qid cid : ℕ) (cmd : Command)
    → IsSafe k (payload_of k device disk qid cid cmd)
unfolding payload_of
payload_of-IsSafe k device disk qid cid cmd = record {
  iommu = λ e. ground arith;
  sgl = λ e. ground arith;
  explained = λ e f. (iommu_note, ground arith);
}

no_command-IsSafe :
    (k : Kernel) (device : Text) (qid cid depth : ℕ) → IsSafe k (no_command device qid cid depth)
unfolding no_command
no_command-IsSafe k device qid cid depth = record {
  iommu = λ e. refl;
  sgl = λ e. cc;
  explained = λ e f. (not_found_note cid depth, refl);
}

answer-IsSafe :
    (k : Kernel) (device : Text) (disk : Disk) (qid cid : ℕ) (found : Option Command)
    → IsSafe k (answer k device disk qid cid found)
unfolding answer
answer-IsSafe k device disk qid cid none = no_command-IsSafe k device qid cid _
answer-IsSafe k device disk qid cid (some cmd) = payload_of-IsSafe k device disk qid cid cmd

-- Inversion of an answer: the device is known, the queue is online, the ring was searched.
record Answered (k : Kernel) (device : Text) (qid : ℤ) (cid : ℕ) (p : PrpPayload) : Type 0 where
  disk : Disk
  n : ℕ
  found : lookup_device k device ≡ ok disk
  online : check_qid disk.ctrl qid ≡ ok n
  result :
      p
      ≡ answer k device disk n cid
          (find_command (disk.ctrl.queues n).sq_cmds cid (range (disk.ctrl.queues n).q_depth))

get_prp_payload-Answered :
    (k : Kernel) (device : Text) (qid : ℤ) (cid : ℕ) (p : PrpPayload)
    → get_prp_payload k device qid cid ≡ ok p
    → Answered k device qid cid p
unfolding get_prp_payload
get_prp_payload-Answered k device qid cid p h =
    let (disk, found, h') = >>=-eq-ok (lookup_device k device) _ h in
    let (n, online, h'') = >>=-eq-ok (check_qid disk.ctrl qid) _ h' in
    record { disk = disk; n = n; found = found; online = online; result = sym (ok-injective h'') }

-- An answer that decodes nothing and says that the command has a scatter-gather list.
abbrev pub IsUndecoded : PrpPayload → Type 0
IsUndecoded p = (p.uses_sgl ≡ true) × (p.pages ≡ []) × (p.total_len ≡ 0)

payload_of-IsUndecoded :
    (k : Kernel) (device : Text) (disk : Disk) (qid cid : ℕ) (cmd : Command)
    → cmd.flags / 2 ^ 6 % 2 ^ 2 ≢ 0
    → IsUndecoded (payload_of k device disk qid cid cmd)
unfolding payload_of
payload_of-IsUndecoded k device disk qid cid cmd list =
    let given : to_bool (psdt cmd.flags) ≡ true = ground arith in rw given (refl, refl, refl)

-- What holds of every answer: with the IOMMU on no page is read, and the answer says why; where the
-- command that was found has a scatter-gather list, by the PSDT in its flags, the answer says so and
-- shows no page and no length, with or without the IOMMU.
pub get_prp_payload-IsSafe :
    (k : Kernel) (device : Text) (qid : ℤ) (cid : ℕ) (p : PrpPayload)
    → get_prp_payload k device qid cid ≡ ok p
    → IsSafe k p
      × ((disk : Disk) (n : ℕ) (cmd : Command)
          → lookup_device k device ≡ ok disk
          → check_qid disk.ctrl qid ≡ ok n
          → find_command (disk.ctrl.queues n).sq_cmds cid (range (disk.ctrl.queues n).q_depth)
            ≡ some cmd
          → cmd.flags / 2 ^ 6 % 2 ^ 2 ≢ 0
          → IsUndecoded p)
unfolding get_prp_payload answer
get_prp_payload-IsSafe k device qid cid p h =
    let a = get_prp_payload-Answered k device qid cid p h in
    (
      rw a.result (answer-IsSafe k device a.disk a.n cid _),
      λ disk n cmd found online there sgl.
          let run : get_prp_payload k device qid cid ≡ ok (payload_of k device disk n cid cmd) =
            rw (found, online, there) refl in
          subst IsUndecoded (ok-injective (sym run ∙ h))
            (payload_of-IsUndecoded k device disk n cid cmd sgl),
    )

answer-le :
    (k : Kernel) (device : Text) (disk : Disk) (qid cid : ℕ) (found : Option Command)
    → ReadsAtMost k.memory
    → length (payload (answer k device disk qid cid found).pages) ≤ max_page_dump
unfolding answer payload_of no_command payload
answer-le k device disk qid cid none fits = omega arith
answer-le k device disk qid cid (some cmd) fits = ground (
  arith,
  length-payload-le k.memory fits cmd.prp1 cmd.prp2
      (resolve_total_len disk qid cid cmd (qid == 0)).0,
)

-- No answer carries more than one page of payload.
pub length-get_prp_payload-le :
    (k : Kernel) (device : Text) (qid : ℤ) (cid : ℕ) (p : PrpPayload)
    → ReadsAtMost k.memory
    → get_prp_payload k device qid cid ≡ ok p
    → length (payload p.pages) ≤ max_page_dump
length-get_prp_payload-le k device qid cid p fits h =
    let a = get_prp_payload-Answered k device qid cid p h in
    rw a.result (answer-le k device a.disk a.n cid _ fits)
