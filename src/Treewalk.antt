-- ===== src/Treewalk.antt =====
-- treewalk.py: the lazy walk through the kernel's structures, one level at a time.
pub mod Kernel
pub mod Describe
pub mod Steps
pub mod Expand
use telemetryd.Base.{
  ℕ, zero, suc, ◌+◌, min, ℤ, pos, Bool, true, false, ◌&&◌, ◌||◌, not, Option, none, some, List, [],
  ◌∷◌, ◌++◌, length, range, Text, codes, text_in, decimal, hex, read_int, strip_prefix, Result, ok,
  raise, ◌>>=◌, ltb, ◌==◌, if◌then◌else◌,
}
use telemetryd.Models.Tree.{
  NodeKind, pointer, struct, array, scalar, string, unreadable, TreeNode, TreeExpansion,
}
use telemetryd.Treewalk.Kernel.{
  Compound, struct_kind, union_kind, class_kind, Ctype, int_type, bool_type, enum_type, void_type,
  other_type, pointer_to, array_of, compound, typedef_of, ReadError, fault_error, lookup_error,
  other_error, Drgn,
}

abbrev pub max_depth : ℕ
max_depth = 10

abbrev pub max_array_children : ℕ
max_array_children = 64

-- `_unwrap_typedef`
unfoldable pub unwrap_typedef : Ctype → Ctype
unwrap_typedef (typedef_of name t) = unwrap_typedef t
unwrap_typedef (int_type name size) = int_type name size
unwrap_typedef (bool_type name size) = bool_type name size
unwrap_typedef (enum_type tag) = enum_type tag
unwrap_typedef void_type = void_type
unwrap_typedef (other_type name) = other_type name
unwrap_typedef (pointer_to t) = pointer_to t
unwrap_typedef (array_of n t) = array_of n t
unwrap_typedef (compound k tag id) = compound k tag id

-- `_kind_of`, of an unwrapped type.
unfoldable pub kind_of : Ctype → NodeKind
kind_of (pointer_to t) = pointer
kind_of (compound k tag id) = struct
kind_of (array_of n t) = array
kind_of _ = scalar

-- `_is_byte_type`
unfoldable pub is_byte_type : Ctype → Bool
is_byte_type (int_type name size) = size == 1
is_byte_type (bool_type name size) = size == 1
is_byte_type _ = false

-- `_looks_like_string`, of an unwrapped type.
unfoldable pub looks_like_string : Ctype → Bool
unfolding is_byte_type unwrap_typedef
looks_like_string (pointer_to t) = is_byte_type (unwrap_typedef t)
looks_like_string (array_of n t) = is_byte_type (unwrap_typedef t)
looks_like_string _ = false

abbrev pub prefix_of : Compound → Text
prefix_of struct_kind = codes "struct"
prefix_of union_kind = codes "union"
prefix_of class_kind = codes "class"

-- `f"{prefix} {tag}"`; an empty tag is none.
abbrev pub tagged : Text → Option Text → Text
tagged prefix none = prefix ++ codes " <anonymous>"
tagged prefix (some []) = prefix ++ codes " <anonymous>"
tagged prefix (some (c ∷ cs)) = prefix ++ (b' ' ∷ c ∷ cs)

abbrev pub array_suffix : Option ℕ → Text
array_suffix none = codes " []"
array_suffix (some n) = codes " [" ++ (decimal n ++ codes "]")

-- `_short_type_name(whole)`, where `t` is what the typedefs of `whole` lead to so far.
unfoldable pub short_from : (Ctype → Text) → Ctype → Ctype → Text
short_from show whole (typedef_of name t) = short_from show whole t
short_from show whole (array_of n t) = short_from show t t ++ array_suffix n
short_from show whole (compound k tag id) = tagged (prefix_of k) tag
short_from show whole (enum_type tag) = tagged (codes "enum") tag
short_from show whole (int_type name size) = show whole
short_from show whole (bool_type name size) = show whole
short_from show whole void_type = show whole
short_from show whole (other_type name) = show whole
short_from show whole (pointer_to t) = show whole

abbrev pub short_type_name : (Ctype → Text) → Ctype → Text
short_type_name show t = short_from show t t

-- `except FaultError as e: …`
abbrev pub on_fault {ℓ} :
    {A : Type ℓ} → (Text → Result ReadError A) → Result ReadError A → Result ReadError A
on_fault handler (ok x) = ok x
on_fault handler (raise (fault_error e)) = handler e
on_fault handler (raise (lookup_error e)) = raise (lookup_error e)
on_fault handler (raise (other_error e)) = raise (other_error e)

-- `hex(n)`
abbrev pub hex_text : ℕ → Text
hex_text n = codes "0x" ++ hex n

-- The part behind the first `)`, where there is one.
unfoldable pub after_close : Text → Option Text
after_close [] = none
after_close (c ∷ cs) = if c == b')' then some cs else after_close cs

-- `"(enum X)NAME"` is shown as `NAME`.
unfoldable pub enumerator : Text → Text
unfolding after_close strip_prefix
enumerator rendered = elim (strip_prefix (codes "(enum") rendered) [
  | none ↦ rendered
  | some rest ↦ elim (after_close rendered) [ none ↦ rendered | some name ↦ name ]
]
