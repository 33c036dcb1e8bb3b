-- ===== src/NvmeConst/Status.antt =====
-- What `decode_status` of nvme_const.py loses and keeps of a status, and what the names stand for.
use telemetryd.Base.{ℕ, ◌+◌, ◌*◌, ◌<◌, ◌^◌, ℤ, pos, negsuc, Bool, true, false, ◌≡◌, arith}
use telemetryd.NvmeConst.{decode_status}

-- The bit of a flag.
abbrev pub flag : Bool → ℕ
flag true = 1
flag false = 0

-- The 15-bit status with these fields: SC, SCT, CRD, More, DNR from the lowest bit up.
abbrev pub encode_fields : (sc sct crd : ℕ) (more dnr : Bool) → ℕ
encode_fields sc sct crd more dnr =
    sc + 256 * sct + 2048 * crd + 8192 * flag more + 16384 * flag dnr

-- The decoded fields of a 15-bit status make up the status again.
pub encode-decode :
    (n : ℕ)
    → n < 2 ^ 15
    → let d = decode_status (pos n) in encode_fields d.sc d.sct d.crd d.more d.dnr ≡ n
unfolding decode_status
encode-decode n h = ground arith

-- A status made of fields that fit their widths is decoded into these fields.
pub decode-encode :
    (sc sct crd : ℕ) (more dnr : Bool)
    → sc < 256
    → sct < 8
    → crd < 4
    → let d = decode_status (pos (encode_fields sc sct crd more dnr)) in
      (d.sc ≡ sc) × (d.sct ≡ sct) × (d.crd ≡ crd) × (d.more ≡ more) × (d.dnr ≡ dnr)
unfolding decode_status
decode-encode sc sct crd true true h k l = ground arith
decode-encode sc sct crd true false h k l = ground arith
decode-encode sc sct crd false true h k l = ground arith
decode-encode sc sct crd false false h k l = ground arith

pub decode_status_bounds :
    (z : ℤ)
    → ((decode_status z).sc < 256) × ((decode_status z).sct < 8) × ((decode_status z).crd < 4)
unfolding decode_status
decode_status_bounds (pos n) = omega arith
decode_status_bounds (negsuc n) = omega arith
