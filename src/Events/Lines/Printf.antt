-- ===== src/Events/Lines/Printf.antt =====
-- ebpf/nvme_perf.bt: the line that the collector prints of a completion with an error, and how the
-- program reads it.
use telemetryd.Base.{
  ℕ, ◌-◌, ◌/◌, ◌%◌, ◌^◌, ◌<◌, ℤ, pos, negsuc, bits, ◌≡◌, refl, ap, ap₂, is_zero, Bool-cases, inl,
  inr, ◌∙◌, Bool, true, false, ◌&&◌, ◌||◌, not, none, some, List, [], ◌∷◌, ◌++◌, Text, codes,
  decimal, decimal_ℤ, ltb, ◌==◌, if◌then◌else◌, arith,
}
use telemetryd.NvmeConst.{decode_status, to_bool}
use telemetryd.Models.Events.{ErrorEventDetail, NvmeEvent}
use telemetryd.Events.Pattern.{render}
use telemetryd.Events.Errors.{
  error_items, is_lba_opcode, error_detail, error_event, parse_error_line,
}
use telemetryd.Events.Lines.{parse_error_line-render}

-- What the script has of a completion: the tracepoint's arguments, and what it kept of the command at
-- its submission, which it has seen where `submit_seen`.
pub record Completion : Type 0 where
  pub ts_ns : ℕ
  pub ctrl : ℕ
  pub qid : ℕ
  pub cid : ℕ
  pub status : ℕ
  pub retries : ℕ
  pub submit_seen : Bool
  pub opcode : ℕ
  pub nsid : ℕ
  pub slba : ℕ
  pub nlb : ℕ
  pub elapsed_ns : ℕ

-- An unsigned field of `w` bits where the tracepoint hands it on as a signed number.
abbrev pub signed : ℕ → ℕ → ℤ
signed w n = if ltb n (2 ^ (w - 1)) then pos n else negsuc (2 ^ w - 1 - n)

-- The arguments of the script's `printf`, with `$tag`, `$sct`, `$sc`, `$dnr`, `$more`, `$crd` and
-- `$cached`.
abbrev pub printed_values : Completion → List ℤ
printed_values x =
    pos x.ts_ns
    ∷ pos x.ctrl
    ∷ pos x.qid
    ∷ pos x.cid
    ∷ pos (x.cid % 2 ^ 12)
    ∷ signed 8 x.opcode
    ∷ signed 32 x.nsid
    ∷ pos x.status
    ∷ pos (x.status / 2 ^ 8 % 8)
    ∷ pos (x.status % 256)
    ∷ pos (x.status / 2 ^ 14 % 2)
    ∷ pos (x.status / 2 ^ 13 % 2)
    ∷ pos (x.status / 2 ^ 11 % 4)
    ∷ pos x.slba
    ∷ pos x.nlb
    ∷ pos x.retries
    ∷ pos (if x.submit_seen then 1 else 0)
    ∷ pos x.elapsed_ns
    ∷ []

-- Its format, up to the newline at which the reader parts lines.
abbrev pub error_format : Text
error_format =
    codes
      "ERROR_EVENT ts_ns=%lld ctrl=%d qid=%d cid=%d tag=%d opcode=%lld nsid=%lld status=%d sct=%lld sc=%lld dnr=%lld more=%lld crd=%lld slba=%llu nlb=%lld retries=%d cached=%d elapsed_ns=%lld"

-- The conversions `%d`, `%lld` and `%llu` of `printf`; `inside` one, its letters are passed over up to
-- the last.
unfoldable pub printf : Bool → Text → List ℤ → Text
printf inside [] args = []
printf false (c ∷ cs) args = elim (c == b'%') [
  | true ↦ printf true cs args
  | false ↦ c ∷ printf false cs args
]
printf true (c ∷ cs) [] = []
printf true (c ∷ cs) (z ∷ args) = elim (c == b'l') [
  | true ↦ printf true cs (z ∷ args)
  | false ↦ decimal_ℤ z ++ printf false cs args
]

unfoldable pub error_line : Completion → Text
error_line x = printf false error_format (printed_values x)

-- The event says of the completion what the device and the kernel said.
pub record IsReported (now : ℕ) (x : Completion) (e : NvmeEvent) (d : ErrorEventDetail)
    : Type 0 where
  pub slot : (e.kind ≡ codes "error") × (e.error ≡ some d) × (e.timeout ≡ none)
  pub seen :
      (e.observed_at ≡ now) × (e.device ≡ codes "nvme" ++ decimal x.ctrl) × (e.qid ≡ pos x.qid)
  pub command :
      (d.cid ≡ pos x.cid)
      × (d.tag ≡ pos (x.cid % 2 ^ 12))
      × (d.opcode ≡ x.opcode)
      × (d.nsid ≡ x.nsid)
  pub status :
      (d.status ≡ pos x.status)
      × (d.sc ≡ x.status % 256)
      × (d.sct ≡ x.status / 2 ^ 8 % 8)
      × (d.crd ≡ x.status / 2 ^ 11 % 4)
      × (d.more ≡ (x.status / 2 ^ 13 % 2 == 1))
      × (d.dnr ≡ (x.status / 2 ^ 14 % 2 == 1))
  pub counts : (d.retries ≡ pos x.retries) × (d.elapsed_ns ≡ x.elapsed_ns)
  pub submission : d.submit_cached ≡ x.submit_seen
  pub blocks : (d.slba ≡ pos x.slba) × (d.nlb ≡ pos x.nlb)
  pub shown :
      d.lba_valid ≡ (x.submit_seen && not (x.qid == 0) && (x.opcode == 0x01 || x.opcode == 0x02))

error_line-render : (x : Completion) → error_line x ≡ render error_items (printed_values x)
unfolding error_line printf render decimal_ℤ
error_line-render x = refl

bits-signed_8 : (n : ℕ) → n < 2 ^ 8 → bits (signed 8 n) 0 8 ≡ n
bits-signed_8 n h = elim (Bool-cases (ltb n (2 ^ 7))) [
  | inl low ↦ rw low (omega (arith, h))
  | inr high ↦ rw high (omega (arith, h))
]

bits-signed_32 : (n : ℕ) → n < 2 ^ 32 → bits (signed 32 n) 0 32 ≡ n
bits-signed_32 n h = elim (Bool-cases (ltb n (2 ^ 31))) [
  | inl low ↦ rw low (omega (arith, h))
  | inr high ↦ rw high (omega (arith, h))
]

low_bits : (n w : ℕ) → bits (pos n) 0 w ≡ n % 2 ^ w
low_bits n w = ap (λ (x : ℕ). x % 2 ^ w) (omega arith)

flag : (n : ℕ) → n < 2 → to_bool n ≡ (n == 1)
flag n h = ground arith

was_seen : (b : Bool) → not (is_zero (pos (if b then 1 else 0))) ≡ b
was_seen true = refl
was_seen false = refl

error_event-IsReported :
    (now : ℕ) (x : Completion)
    → x.opcode < 2 ^ 8
    → x.nsid < 2 ^ 32
    → IsReported now x (error_event now (printed_values x)) (error_detail (printed_values x))
unfolding error_event error_detail decode_status decimal_ℤ
error_event-IsReported now x byte word =
    let cached = was_seen x.submit_seen in
    let opcode = bits-signed_8 x.opcode byte in
    record {
      slot = (refl, refl, refl);
      seen = (refl, refl, refl);
      command = (refl, refl, opcode, bits-signed_32 x.nsid word);
      status = (
        refl,
        low_bits x.status 8,
        refl,
        refl,
        flag (x.status / 2 ^ 13 % 2) (omega arith),
        flag (x.status / 2 ^ 14 % 2) (omega arith),
      );
      counts = (refl, refl);
      submission = cached;
      blocks = (refl, refl);
      shown = ap₂ (λ (b : Bool) (o : ℕ). b && not (x.qid == 0) && is_lba_opcode o) cached opcode;
    }

-- The line that the collector's `printf` writes of a completion with an error, whose operation code
-- and namespace number have 8 and 32 bits and are printed as signed numbers, is read as one event, and
-- it says of the completion what the device and the kernel said: the command, the status and its
-- fields, the queue and the device, the block addresses, and whether these are of a read or write.
pub parse_error_line-printed :
    (now : ℕ) (x : Completion)
    → x.opcode < 2 ^ 8
    → x.nsid < 2 ^ 32
    → (e : NvmeEvent) × (d : ErrorEventDetail) × (parse_error_line now (error_line x) ≡ some e)
      × IsReported now x e d
parse_error_line-printed now x byte word = (
  error_event now (printed_values x),
  error_detail (printed_values x),
  ap (parse_error_line now) (error_line-render x)
      ∙ parse_error_line-render now (printed_values x) (refl, (refl, (refl, tt))),
  error_event-IsReported now x byte word,
)
