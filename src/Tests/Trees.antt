-- ===== src/Tests/Trees.antt =====
-- The structure tree of a small kernel.
use telemetryd.Base.{
  split_last, ℕ, zero, suc, hex, decimal, ◌≡◌, ◌≢◌, refl, true, false, Option, none, some, List, [],
  ◌∷◌, ℤ, pos, negsuc, Text, codes, here, there, Result, ok, raise, text_eq, if◌then◌else◌, arith,
}
use telemetryd.Models.Tree.{TreeNode, TreeExpansion, pointer, struct, array}
use telemetryd.Treewalk.{short_from}
use telemetryd.Treewalk.Kernel.{
  Ctype, int_type, pointer_to, array_of, compound, struct_kind, typedef_of, ReadError, fault_error,
  other_error, Drgn,
}
use telemetryd.Treewalk.Steps.{target_name, between_brackets}
use telemetryd.Treewalk.Expand.{expand, child_objects}
use telemetryd.Treewalk.Expand.Followed.{HasPlainMembers}
use telemetryd.Treewalk.Expand.Lazy.{IsOpened, expand-IsOpened}
use telemetryd.Treewalk.Expand.Contained.{NoFault, IsBounded, expand-IsBounded}

-- A device with a pointer to its controller, a number and an array of two.
data Thing : Type 0 where
  dev ctrl id slots : Thing
  slot : ℕ → Thing

abbrev type_of : Thing → Ctype
type_of dev = compound struct_kind (some (codes "nvme_dev")) 0
type_of ctrl = pointer_to (compound struct_kind (some (codes "nvme_ctrl")) 1)
type_of id = int_type (codes "int") 4
type_of slots = array_of (some 2) (int_type (codes "int") 4)
type_of (slot i) = typedef_of (codes "u32") (int_type (codes "unsigned int") 4)

abbrev names : ℕ → Option (List (Option Text))
names zero = some (some (codes "ctrl") ∷ none ∷ some (codes "slots") ∷ [])
names (suc k) = some (some (codes "id") ∷ some (codes "gone") ∷ [])

abbrev member_of : Thing → Text → Result ReadError Thing
member_of t name =
    if text_eq name (codes "ctrl")
    then ok ctrl
    else if text_eq name (codes "slots")
    then ok slots
    else if text_eq name (codes "id")
    then ok id
    else raise (fault_error (codes "address not mapped"))

abbrev element : Thing → ℤ → Result ReadError Thing
element t (pos i) = ok (slot i)
element t (negsuc i) = raise (other_error (codes "negative"))

abbrev kernel : Drgn
kernel = record {
  Obj = Thing;
  type_of = type_of;
  show_type = λ t. codes "int";
  members = names;
  to_int = λ t. ok 4096;
  member_ = member_of;
  index = element;
  address = λ t. some 8192;
  string = λ t. ok [];
  show = λ t. ok (codes "x");
  value_text = λ t. ok (codes "5");
}

abbrev ctrl_node : TreeNode
ctrl_node = record {
  name = codes "ctrl";
  type_name = codes "int";
  kind = pointer;
  value_repr = codes "0x1000";
  address = some 4096;
  is_null = false;
  expandable = true;
}

abbrev slots_node : TreeNode
slots_node = record {
  name = codes "slots";
  type_name = codes "int [2]";
  kind = array;
  value_repr = codes "<array len=2>";
  address = some 8192;
  is_null = false;
  expandable = true;
}

abbrev top : TreeExpansion
top = record {
  node = record {
    name = codes "nvme0";
    type_name = codes "struct nvme_dev";
    kind = struct;
    value_repr = codes "<struct nvme_dev>";
    address = some 8192;
    is_null = false;
    expandable = true;
  };
  children = ctrl_node ∷ slots_node ∷ [];
  depth = 0;
  error = none;
}

top_runs : expand kernel dev (codes "nvme0") [] ≡ ok top
unfolding expand short_from hex decimal
top_runs = refl

names-HasPlainMembers : (k : ℕ) → HasPlainMembers kernel (names k)
unfolding between_brackets split_last
names-HasPlainMembers zero = (refl, (refl, tt))
names-HasPlainMembers (suc k) = (refl, (refl, tt))

slots_ne_target : codes "slots" ≢ target_name
slots_ne_target same = ground (arith, same)

expand-IsOpened_example : IsOpened kernel dev (codes "nvme0") (codes "slots" ∷ []) slots_node
expand-IsOpened_example =
    expand-IsOpened kernel names-HasPlainMembers dev (codes "nvme0") [] top slots_node top_runs
      (there (here refl)) slots_ne_target

expand-IsBounded_example :
    NoFault (expand kernel dev (codes "nvme0") (codes "gone" ∷ []))
    × ((x : TreeExpansion)
        → expand kernel dev (codes "nvme0") (codes "gone" ∷ []) ≡ ok x
        → IsBounded kernel 1 x)
expand-IsBounded_example = expand-IsBounded kernel dev (codes "nvme0") (codes "gone" ∷ [])

elements_run : child_objects kernel slots ≡ ok ((codes "[0]", slot 0) ∷ (codes "[1]", slot 1) ∷ [])
unfolding child_objects decimal
elements_run = refl
