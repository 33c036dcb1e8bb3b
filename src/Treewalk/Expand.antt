-- ===== src/Treewalk/Expand.antt =====
-- treewalk.py: `_child_objects`, `resolve_path` and `expand`.
pub mod Opened
pub mod Lazy
pub mod Followed
pub mod Contained
use telemetryd.Base.{
  ℕ, zero, suc, ◌+◌, min, ℤ, pos, Bool, true, false, ◌&&◌, ◌||◌, not, Option, none, some, List, [],
  ◌∷◌, ◌++◌, length, range, Text, codes, decimal, read_int, strip_prefix, Result, ok, raise, ◌>>=◌,
  ltb, ◌==◌, if◌then◌else◌,
}
use telemetryd.Models.Tree.{
  NodeKind, pointer, struct, array, scalar, string, unreadable, TreeNode, TreeExpansion,
}
use telemetryd.Treewalk.Kernel.{
  Ctype, int_type, bool_type, enum_type, void_type, other_type, pointer_to, array_of, compound,
  typedef_of, ReadError, fault_error, lookup_error, other_error, Drgn,
}
use telemetryd.Treewalk.Describe.{plain, node_of, describe}
use telemetryd.Treewalk.{
  max_depth, max_array_children, unwrap_typedef, kind_of, looks_like_string, short_type_name,
  on_fault, hex_text, enumerator,
}
use telemetryd.Treewalk.Steps.{index_name, target_name, between_brackets, parse_int, last_name}

abbrev pub length_or_zero : Option ℕ → ℕ
length_or_zero none = 0
length_or_zero (some n) = n

abbrev pub unreadable_node : Text → Text → TreeNode
unreadable_node name repr = node_of name (codes "?") (plain unreadable repr)

abbrev pub too_deep : ℕ → Text
too_deep depth =
    codes "최대 depth("
    ++ (decimal max_depth ++ (codes ")를 초과했습니다 (요청 depth=" ++ (decimal depth ++ codes ")")))

abbrev pub failed_expansion : Text → ℕ → Text → TreeExpansion
failed_expansion name depth e = record {
  node = unreadable_node name e;
  children = [];
  depth = depth;
  error = some e;
}

abbrev pub too_deep_expansion : Text → ℕ → TreeExpansion
too_deep_expansion name depth = record {
  node = unreadable_node name (codes "depth 초과");
  children = [];
  depth = depth;
  error = some (too_deep depth);
}

abbrev pub node_before :
    Result ReadError TreeNode → Result ReadError (List TreeNode) → Result ReadError (List TreeNode)
node_before (ok node) rest = rest >>= (λ nodes. ok (node ∷ nodes))
node_before (raise (fault_error e)) rest = ok []
node_before (raise (lookup_error e)) rest = raise (lookup_error e)
node_before (raise (other_error e)) rest = raise (other_error e)

module _ (d : Drgn) where
  open d use {Obj, type_of, members, to_int, member_, index}

  -- `except (FaultError, LookupError): continue`, or the child in front of the others.
  abbrev pub child_before :
      Text
      → Result ReadError Obj
      → Result ReadError (List (Text × Obj))
      → Result ReadError (List (Text × Obj))
  child_before name (ok child) rest = rest >>= (λ children. ok ((name, child) ∷ children))
  child_before name (raise (fault_error e)) rest = rest
  child_before name (raise (lookup_error e)) rest = rest
  child_before name (raise (other_error e)) rest = raise (other_error e)

  -- Anonymous members are passed over.
  unfoldable pub member_children : Obj → List (Option Text) → Result ReadError (List (Text × Obj))
  member_children obj [] = ok []
  member_children obj (none ∷ names) = member_children obj names
  member_children obj (some name ∷ names) =
      child_before name (member_ obj name) (member_children obj names)

  -- Going over the members of a type that is only declared is a TypeError.
  unfoldable pub named_children :
      Obj → Option (List (Option Text)) → Result ReadError (List (Text × Obj))
  unfolding member_children
  named_children obj none = raise (other_error (codes "'NoneType' object is not iterable"))
  named_children obj (some names) = member_children obj names

  unfoldable pub element_children : Obj → List ℕ → Result ReadError (List (Text × Obj))
  element_children obj [] = ok []
  element_children obj (i ∷ is) =
      child_before (index_name i) (index obj (pos i)) (element_children obj is)

  -- What a pointer that is not null points to, by the unwrapped type of that.
  unfoldable pub pointee_children : Obj → Ctype → Result ReadError (List (Text × Obj))
  unfolding named_children
  pointee_children obj (compound k tag id) = named_children obj (members id)
  pointee_children obj void_type = ok []
  pointee_children obj t =
      on_fault (λ e. ok []) (index obj (pos 0) >>= (λ target. ok ((target_name, target) ∷ [])))

  unfoldable pub children_by : Obj → Ctype → Result ReadError (List (Text × Obj))
  unfolding pointee_children named_children element_children unwrap_typedef
  children_by obj (pointer_to t) =
      to_int obj >>= (λ addr. if addr == 0 then ok [] else pointee_children obj (unwrap_typedef t))
  children_by obj (compound k tag id) = named_children obj (members id)
  children_by obj (array_of n t) =
      element_children obj (range (min (length_or_zero n) max_array_children))
  children_by obj t = ok []

  unfoldable pub child_objects : Obj → Result ReadError (List (Text × Obj))
  unfolding children_by unwrap_typedef
  child_objects obj = children_by obj (unwrap_typedef (type_of obj))

  unfoldable pub follow_step : Obj → Text → Result ReadError Obj
  unfolding between_brackets parse_int
  follow_step obj step = elim (between_brackets step) [
    | none ↦ member_ obj step
    | some inner ↦ parse_int inner >>= index obj
  ]

  unfoldable pub resolve_path : Obj → List Text → Result ReadError Obj
  unfolding follow_step
  resolve_path obj [] = ok obj
  resolve_path obj (step ∷ path) = follow_step obj step >>= (λ next. resolve_path next path)

  -- The loop over the children, which a FaultError ends; what was appended stays.
  unfoldable pub describe_all : List (Text × Obj) → Result ReadError (List TreeNode)
  describe_all [] = ok []
  describe_all ((name, child) ∷ children) =
      node_before (describe d name child) (describe_all children)

  unfoldable pub children_of : Obj → Bool → Result ReadError (List TreeNode)
  unfolding child_objects describe_all describe
  children_of obj shown =
      if shown then on_fault (λ e. ok []) (child_objects obj >>= describe_all) else ok []

  unfoldable pub expansion_of : Text → ℕ → Obj → Result ReadError TreeExpansion
  unfolding describe children_of
  expansion_of name depth obj = describe d name obj >>= (λ node.
      children_of obj (node.expandable && ltb depth max_depth)
      >>= (λ children. ok record { node = node; children = children; depth = depth; error = none }))

  -- `except (FaultError, LookupError) as e` around `resolve_path`.
  unfoldable pub expand_resolved : Text → ℕ → Result ReadError Obj → Result ReadError TreeExpansion
  unfolding expansion_of
  expand_resolved name depth (ok obj) = expansion_of name depth obj
  expand_resolved name depth (raise (fault_error e)) = ok (failed_expansion name depth e)
  expand_resolved name depth (raise (lookup_error e)) = ok (failed_expansion name depth e)
  expand_resolved name depth (raise (other_error e)) = raise (other_error e)

  unfoldable pub expand : Obj → Text → List Text → Result ReadError TreeExpansion
  unfolding expand_resolved resolve_path
  expand root root_name path =
      let depth = length path in
      let name = last_name root_name path in
      if ltb max_depth depth
      then ok (too_deep_expansion name depth)
      else expand_resolved name depth (resolve_path root path)
