-- ===== src/NvmeConst.antt =====
-- nvme_const.py: the opcode and status tables, the name lookups and the status field.
pub mod Status
use telemetryd.Base.{
  ℕ, suc, ◌+◌, ◌-◌, ◌*◌, ◌/◌, ◌^◌, ℤ, pos, negsuc, bits, Bool, true, false, List, [], ◌∷◌, ◌++◌,
  Option, none, some, Text, codes, hex, hex_pad, hex_pad_ℤ, ◌==◌, if◌then◌else◌,
}

-- NVM_OPC
abbrev pub nvm_opc : List (ℕ × Text)
nvm_opc =
    (0x00, codes "flush")
    ∷ (0x01, codes "write")
    ∷ (0x02, codes "read")
    ∷ (0x09, codes "dsm")
    ∷ (0x0d, codes "write_zeroes")
    ∷ []

-- ADM_OPC
abbrev pub adm_opc : List (ℕ × Text)
adm_opc =
    (0x00, codes "delete_sq")
    ∷ (0x01, codes "create_sq")
    ∷ (0x02, codes "get_log")
    ∷ (0x04, codes "delete_cq")
    ∷ (0x05, codes "create_cq")
    ∷ (0x06, codes "identify")
    ∷ (0x09, codes "set_features")
    ∷ (0x0a, codes "get_features")
    ∷ (0x0c, codes "async_event")
    ∷ []

-- SCT_NAMES
abbrev pub sct_names : List (ℕ × Text)
sct_names =
    (0x00, codes "Generic")
    ∷ (0x01, codes "Command Specific")
    ∷ (0x02, codes "Media/Data Integrity")
    ∷ (0x03, codes "Path Related")
    ∷ (0x07, codes "Vendor Specific")
    ∷ []

-- _SC_GENERIC
abbrev pub sc_generic : List (ℕ × Text)
sc_generic =
    (0x00, codes "Success")
    ∷ (0x01, codes "Invalid Command Opcode")
    ∷ (0x02, codes "Invalid Field in Command")
    ∷ (0x03, codes "Command ID Conflict")
    ∷ (0x04, codes "Data Transfer Error")
    ∷ (0x05, codes "Commands Aborted due to Power Loss")
    ∷ (0x06, codes "Internal Error")
    ∷ (0x07, codes "Command Abort Requested")
    ∷ (0x08, codes "Command Aborted due to SQ Deletion")
    ∷ (0x0b, codes "Invalid Namespace or Format")
    ∷ (0x0c, codes "Command Sequence Error")
    ∷ (0x1c, codes "Namespace Not Ready")
    ∷ (0x80, codes "LBA Out of Range")
    ∷ (0x81, codes "Capacity Exceeded")
    ∷ (0x82, codes "Namespace Not Ready")
    ∷ (0x83, codes "Reservation Conflict")
    ∷ []

-- _SC_CMD_SPECIFIC
abbrev pub sc_cmd_specific : List (ℕ × Text)
sc_cmd_specific =
    (0x00, codes "Completion Queue Invalid")
    ∷ (0x01, codes "Invalid Queue Identifier")
    ∷ (0x02, codes "Invalid Queue Size")
    ∷ (0x05, codes "Abort Command Limit Exceeded")
    ∷ (0x0a, codes "Invalid Format")
    ∷ (0x0e, codes "Invalid Log Page")
    ∷ (0x80, codes "Conflicting Attributes")
    ∷ (0x81, codes "Invalid Protection Information")
    ∷ (0x82, codes "Attempted Write to Read Only Range")
    ∷ []

-- _SC_MEDIA
abbrev pub sc_media : List (ℕ × Text)
sc_media =
    (0x80, codes "Write Fault")
    ∷ (0x81, codes "Unrecovered Read Error")
    ∷ (0x82, codes "End-to-end Guard Check Error")
    ∷ (0x83, codes "End-to-end Application Tag Check Error")
    ∷ (0x84, codes "End-to-end Reference Tag Check Error")
    ∷ (0x85, codes "Compare Failure")
    ∷ (0x86, codes "Access Denied")
    ∷ (0x87, codes "Deallocated or Unwritten Logical Block")
    ∷ []

-- _SC_PATH
abbrev pub sc_path : List (ℕ × Text)
sc_path =
    (0x00, codes "Internal Path Error")
    ∷ (0x01, codes "Asymmetric Access Persistent Loss")
    ∷ (0x02, codes "Asymmetric Access Inaccessible")
    ∷ (0x03, codes "Asymmetric Access Transition")
    ∷ (0x60, codes "Controller Path Error")
    ∷ (0x70, codes "Host Path Error")
    ∷ (0x71, codes "Command Aborted by Host")
    ∷ []

-- `table.get(code)`
unfoldable pub table_get {ℓ} : {A : Type ℓ} → List (ℕ × A) → ℕ → Option A
table_get [] code = none
table_get ((k, v) ∷ rest) code = if k == code then some v else table_get rest code

-- `table.get(code, default)`
abbrev pub or_else {ℓ} : {A : Type ℓ} → Option A → A → A
or_else none d = d
or_else (some a) d = a

-- An opcode that was read as a signed number can be negative, and is then in no table.
table_get_ℤ : List (ℕ × Text) → ℤ → Option Text
unfolding table_get
table_get_ℤ table (pos n) = table_get table n
table_get_ℤ table (negsuc n) = none

unfoldable pub opcode_name : ℤ → Bool → Text
unfolding table_get_ℤ hex_pad_ℤ
opcode_name opcode is_admin =
    or_else (table_get_ℤ (if is_admin then adm_opc else nvm_opc) opcode)
      (codes "0x" ++ hex_pad_ℤ 2 opcode)

abbrev pub page_size : ℕ
page_size = 4096

abbrev pub prps_per_page : ℕ
prps_per_page = page_size / 8

abbrev pub max_page_dump : ℕ
max_page_dump = page_size

-- `_SC_TABLES`
abbrev pub sc_tables : List (ℕ × List (ℕ × Text))
sc_tables = (0, sc_generic) ∷ (1, sc_cmd_specific) ∷ (2, sc_media) ∷ (3, sc_path) ∷ []

unfoldable pub sct_name : ℕ → Text
unfolding table_get hex
sct_name sct = or_else (table_get sct_names sct) (codes "SCT 0x" ++ hex sct)

unfoldable pub sc_name : ℕ → ℕ → Text
unfolding table_get hex_pad
sc_name sct sc = elim (table_get sc_tables sct) [
  | none ↦ codes "0x" ++ hex_pad 2 sc
  | some table ↦ or_else (table_get table sc) (codes "0x" ++ hex_pad 2 sc)
]

-- `sct_name` and `sc_name` of numbers that were read as signed.
unfoldable pub sct_name_ℤ : ℤ → Text
unfolding sct_name
sct_name_ℤ (pos sct) = sct_name sct
sct_name_ℤ (negsuc n) = codes "SCT 0x-" ++ hex (suc n)

unfoldable pub sc_name_ℤ : ℤ → ℤ → Text
unfolding sc_name
sc_name_ℤ (pos sct) (pos sc) = sc_name sct sc
sc_name_ℤ (pos sct) (negsuc n) = codes "0x" ++ hex_pad_ℤ 2 (negsuc n)
sc_name_ℤ (negsuc m) sc = codes "0x" ++ hex_pad_ℤ 2 sc

pub record StatusFields : Type 0 where
  pub sc : ℕ
  pub sct : ℕ
  pub crd : ℕ
  pub more : Bool
  pub dnr : Bool
  pub sct_text : Text
  pub sc_text : Text

-- `bool(n)`
abbrev pub to_bool : ℕ → Bool
to_bool n = if n == 0 then false else true

unfoldable pub decode_status : ℤ → StatusFields
decode_status status = record {
  sc = bits status 0 8;
  sct = bits status 8 3;
  crd = bits status 11 2;
  more = to_bool (bits status 13 1);
  dnr = to_bool (bits status 14 1);
  sct_text = sct_name (bits status 8 3);
  sc_text = sc_name (bits status 8 3) (bits status 0 8);
}
