-- ===== src/Tests/Numbers.antt =====
-- Status fields of concrete numbers.
use telemetryd.Base.{ℕ, ◌<◌, ◌^◌, ◌≡◌, refl, pos, Bool, true, false, arith, codes}
use telemetryd.NvmeConst.{decode_status, opcode_name, sc_name}
use telemetryd.NvmeConst.Status.{encode_fields, decode-encode}

fields_decoded :
    ((decode_status (pos (encode_fields 129 2 1 false true))).sc ≡ 129)
    × ((decode_status (pos (encode_fields 129 2 1 false true))).sct ≡ 2)
    × ((decode_status (pos (encode_fields 129 2 1 false true))).crd ≡ 1)
    × ((decode_status (pos (encode_fields 129 2 1 false true))).more ≡ false)
    × ((decode_status (pos (encode_fields 129 2 1 false true))).dnr ≡ true)
fields_decoded = decode-encode 129 2 1 false true (omega arith) (omega arith) (omega arith)

-- Two codes of the generic type have one name.
not_ready_twice : sc_name 0 0x1c ≡ sc_name 0 0x82
unfolding sc_name telemetryd.NvmeConst.table_get
not_ready_twice = refl

unknown_opcode : opcode_name (pos 0x7f) false ≡ codes "0x7f"
unfolding opcode_name telemetryd.Base.hex_pad_ℤ telemetryd.Base.hex_pad telemetryd.Base.hex
    telemetryd.NvmeConst.table_get
unknown_opcode = refl
