-- ===== src/Treewalk/Describe.antt =====
-- treewalk.py `describe`: the summary of one object.
use telemetryd.Base.{
  ℕ, Bool, true, false, ◌&&◌, not, Option, none, some, ◌++◌, Text, codes, decimal, Result, ok,
  raise, ◌>>=◌, ◌==◌, if◌then◌else◌,
}
use telemetryd.Models.Tree.{NodeKind, string, unreadable, TreeNode}
use telemetryd.Treewalk.Kernel.{Ctype, enum_type, pointer_to, array_of, compound, ReadError, Drgn}
use telemetryd.Treewalk.{
  unwrap_typedef, kind_of, looks_like_string, short_type_name, on_fault, hex_text, enumerator,
}

-- What `describe` finds out of an object beside its name and type.
pub record Shown : Type 0 where
  pub kind : NodeKind
  pub value_repr : Text
  pub address : Option ℕ
  pub is_null : Bool
  pub expandable : Bool

abbrev pub plain : NodeKind → Text → Shown
plain kind repr = record {
  kind = kind;
  value_repr = repr;
  address = none;
  is_null = false;
  expandable = false;
}

abbrev pub angled : Text → Text
angled t = codes "<" ++ (t ++ codes ">")

-- `except Exception: …`
abbrev pub on_error {ℓ} :
    {A : Type ℓ} → Result ReadError A → Result ReadError A → Result ReadError A
on_error handler (ok x) = ok x
on_error handler (raise e) = handler

abbrev pub failed : Text → Shown
failed e = plain unreadable (codes "<읽기 실패(FaultError): " ++ (e ++ codes ">"))

abbrev pub node_of : Text → Text → Shown → TreeNode
node_of name type_name s = record {
  name = name;
  type_name = type_name;
  kind = s.kind;
  value_repr = s.value_repr;
  address = s.address;
  is_null = s.is_null;
  expandable = s.expandable;
}

module _ (d : Drgn) where
  open d use {Obj, type_of, show_type, members, to_int, member_, index}

  unfoldable pub show_pointer : Obj → NodeKind → Bool → ℕ → Result ReadError Shown
  show_pointer obj kind texty addr =
      let hexed : Shown = record (plain kind (hex_text addr)) {
        address = some addr;
        is_null = addr == 0;
      } in
      if texty && not (addr == 0)
      then on_fault (λ e. ok hexed)
          (d.string obj >>= (λ text. ok (record hexed { kind = string; value_repr = text })))
      else ok (record hexed { expandable = not (addr == 0) })

  unfoldable pub show_array : Obj → NodeKind → Bool → Option ℕ → Result ReadError Shown
  show_array obj kind true n =
      on_fault (λ e. ok (plain kind (codes "<char[]>")))
        (d.string obj >>= (λ text. ok (plain string text)))
  show_array obj kind false none =
      ok (record (plain kind (codes "<array>")) { expandable = true; address = d.address obj })
  show_array obj kind false (some n) =
      ok (record (plain kind (codes "<array len=" ++ (decimal n ++ codes ">"))) {
        expandable = true;
        address = d.address obj;
      })

  -- The body of the `try`, by the unwrapped type.
  unfoldable pub show_object : Obj → Text → Ctype → Result ReadError Shown
  unfolding show_pointer show_array kind_of looks_like_string enumerator
  show_object obj type_name (pointer_to t) =
      to_int obj >>= show_pointer obj (kind_of (pointer_to t)) (looks_like_string (pointer_to t))
  show_object obj type_name (compound k tag id) =
      ok (record (plain (kind_of (compound k tag id)) (angled type_name)) {
        expandable = true;
        address = d.address obj;
      })
  show_object obj type_name (array_of n t) =
      show_array obj (kind_of (array_of n t)) (looks_like_string (array_of n t)) n
  show_object obj type_name (enum_type tag) =
      d.show obj >>= (λ rendered. ok (plain (kind_of (enum_type tag)) (enumerator rendered)))
  show_object obj type_name t =
      on_error (d.show obj) (d.value_text obj) >>= (λ text. ok (plain (kind_of t) text))

  unfoldable pub describe : Text → Obj → Result ReadError TreeNode
  unfolding show_object unwrap_typedef
  describe name obj =
      let type_name = short_type_name show_type (type_of obj) in
      on_fault (λ e. ok (failed e)) (show_object obj type_name (unwrap_typedef (type_of obj)))
      >>= (λ s. ok (node_of name type_name s))
