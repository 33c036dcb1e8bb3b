-- ===== src/Treewalk/Kernel.antt =====
-- What treewalk.py reads through drgn: the types of C, and objects with the reads that can raise.
use telemetryd.Base.{ℕ, ℤ, List, Option, Text, Result}

-- `TypeKind` of a struct, a union and a class.
pub data Compound : Type 0 where
  struct_kind union_kind class_kind : Compound

-- A drgn type. A compound type is given by its tag and by a number under which its members are
-- looked up, since it can contain pointers to itself. The other kinds are the scalars' (a float, a
-- complex number) and a function's.
pub data Ctype : Type 0 where
  int_type : Text → ℕ → Ctype
  bool_type : Text → ℕ → Ctype
  enum_type : Option Text → Ctype
  void_type : Ctype
  other_type : Text → Ctype
  pointer_to : Ctype → Ctype
  array_of : Option ℕ → Ctype → Ctype
  compound : Compound → Option Text → ℕ → Ctype
  typedef_of : Text → Ctype → Ctype

-- What a read raises: drgn's FaultError, a LookupError, or another exception, each with its text.
pub data ReadError : Type 0 where
  fault_error : Text → ReadError
  lookup_error : Text → ReadError
  other_error : Text → ReadError

-- `show_type` and `show` are `str`, `to_int` is `int`, and `value_text` is `str(obj.value_())`.
-- `members` is `none` for a compound type that is only declared.
-- `address` is `none` where `address_` is None or cannot be read. `string` decodes `string_()`.
pub record Drgn : Type 1 where
  pub Obj : Type 0
  pub type_of : Obj → Ctype
  pub show_type : Ctype → Text
  pub members : ℕ → Option (List (Option Text))
  pub to_int : Obj → Result ReadError ℕ
  pub member_ : Obj → Text → Result ReadError Obj
  pub index : Obj → ℤ → Result ReadError Obj
  pub address : Obj → Option ℕ
  pub string : Obj → Result ReadError Text
  pub show : Obj → Result ReadError Text
  pub value_text : Obj → Result ReadError Text
