-- ===== src/Queues/Entries.antt =====
-- The ring entries that `get_queue_entries` and `get_completion_entries` return.
use telemetryd.Base.{
  ◌≢◌, ◌^◌, ℕ, ◌/◌, ◌%◌, ◌≡◌, refl, ℤ, pos, Bool, true, false, Option, none, some, List, [], ◌∷◌,
  map, select, All, Text, ok, arith, Option-cases, inl, inr, ap₂, ◌==◌, ◌↔◌,
}
use telemetryd.Models.Queues.{QueueEntry, CompletionEntry}
use telemetryd.NvmeConst.{decode_status, opcode_name}
use telemetryd.Queues.Decode.{cdw2_cdw3}
use telemetryd.Queues.Kernel.{Command, Disk, Kernel}
use telemetryd.Queues.Service.{
  lookup_device, check_qid, entry_indices, read_slots, queue_entry, get_queue_entries,
}

abbrev pub is_some {ℓ} : {A : Type ℓ} → Option A → Bool
is_some none = false
is_some (some a) = true

module _ {ℓ κ} {A : Type ℓ} {B : Type κ} (ring : ℕ → Option A) (build : ℕ → A → B) where
  -- One entry for each slot that can be read, in the order of the slots.
  map-read_slots :
      (index : B → ℕ)
      → ((i : ℕ) (a : A) → index (build i a) ≡ i)
      → (is : List ℕ) → map index (read_slots ring build is) ≡ select (λ i. is_some (ring i)) is
  unfolding read_slots
  map-read_slots index keeps [] = refl
  map-read_slots index keeps (i ∷ is) = elim (Option-cases (ring i)) [
    | inl fault ↦ rw (fault, read_slots) (map-read_slots index keeps is)
    | inr (a, read) ↦ rw (read, read_slots) (ap₂ ◌∷◌ (keeps i a) (map-read_slots index keeps is))
  ]

  All-read_slots :
      (P : B → Type 0)
      → ((i : ℕ) (a : A) → ring i ≡ some a → P (build i a))
      → (is : List ℕ) → All P (read_slots ring build is)
  unfolding read_slots
  All-read_slots P each [] = tt
  All-read_slots P each (i ∷ is) = elim (Option-cases (ring i)) [
    | inl fault ↦ rw (fault, read_slots) (All-read_slots P each is)
    | inr (a, read) ↦ rw (read, read_slots) (each i a read, All-read_slots P each is)
  ]

-- What an entry says of the command that stands in its slot: every field of the command, the name of
-- its opcode, and whether its PSDT, the two upper bits of the flags, is not 0.
pub record Shows (is_admin : Bool) (c : Command) (e : QueueEntry) : Type 0 where
  pub cid : e.cid ≡ c.command_id
  pub opcode : e.opcode ≡ c.opcode
  pub opcode_text : e.opcode_name ≡ opcode_name (pos c.opcode) is_admin
  pub nsid : e.nsid ≡ c.nsid
  pub flags : e.flags ≡ c.flags
  pub sgl : (e.uses_sgl ≡ true) ↔ (c.flags / 2 ^ 6 % 2 ^ 2 ≢ 0)
  pub cdw2_3 : (e.cdw2, e.cdw3) ≡ cdw2_cdw3 c.cdw
  pub cdw10 : e.cdw10 ≡ c.cdw10
  pub cdw11 : e.cdw11 ≡ c.cdw11
  pub cdw12 : e.cdw12 ≡ c.cdw12
  pub cdw13 : e.cdw13 ≡ c.cdw13
  pub cdw14 : e.cdw14 ≡ c.cdw14
  pub cdw15 : e.cdw15 ≡ c.cdw15
  pub prp1 : e.prp1 ≡ c.prp1
  pub prp2 : e.prp2 ≡ c.prp2

queue_entry-Shows :
    (is_admin : Bool) (i : ℕ) (c : Command) → Shows is_admin c (queue_entry is_admin i c)
unfolding queue_entry
queue_entry-Shows is_admin i c = record {
  cid = refl;
  opcode = refl;
  opcode_text = refl;
  nsid = refl;
  flags = refl;
  sgl = ground arith;
  cdw2_3 = refl;
  cdw10 = refl;
  cdw11 = refl;
  cdw12 = refl;
  cdw13 = refl;
  cdw14 = refl;
  cdw15 = refl;
  prp1 = refl;
  prp2 = refl;
}

-- A returned list of submission entries shows the slots of the window that can be read, in the
-- window's order, each with all fields of the command that stands in its slot.
pub get_queue_entries-slots :
    (k : Kernel) (device : Text) (disk : Disk) (qid : ℤ) (n : ℕ) (limit : ℤ) (around : Bool)
    → lookup_device k device ≡ ok disk
    → check_qid disk.ctrl qid ≡ ok n
    → let q = disk.ctrl.queues n in
      (es : List QueueEntry) × (get_queue_entries k device qid limit around ≡ ok es)
      × (map (λ e. e.index) es
          ≡ select (λ i. is_some (q.sq_cmds i)) (entry_indices q.sq_tail q.q_depth limit around))
      × All (λ e. (c : Command) × (q.sq_cmds e.index ≡ some c) × Shows (n == 0) c e) es
unfolding get_queue_entries
get_queue_entries-slots k device disk qid n limit around found online =
    let q = disk.ctrl.queues n in
    let is = entry_indices q.sq_tail q.q_depth limit around in
    (
      read_slots q.sq_cmds (queue_entry (n == 0)) is,
      rw found (rw online refl),
      map-read_slots q.sq_cmds (queue_entry (n == 0)) (λ e. e.index)
          (unfold queue_entry in λ i c. refl) is,
      All-read_slots q.sq_cmds (queue_entry (n == 0)) _
          (λ i c read. (c, (unfold queue_entry in read), queue_entry-Shows (n == 0) i c)) is,
    )

-- The fields that a completion entry splits its status into.
abbrev pub Decodes : CompletionEntry → Type 0
Decodes e =
    let d = decode_status (pos (e.status_raw / 2)) in
    (e.status_code ≡ d.sc)
    × (e.status_code_type ≡ d.sct)
    × ((e.phase ≡ true) ↔ (e.status_raw % 2 ≡ 1))
