-- ===== src/Models/Tree.antt =====
-- models.py: a node of the structure tree, and the answer of the tree query.
use telemetryd.Base.{ℕ, Bool, List, Option, Text}

-- `TreeNode.kind`, a string in the source.
pub data NodeKind : Type 0 where
  pointer struct array scalar string unreadable : NodeKind

pub record TreeNode : Type 0 where
  pub name : Text
  pub type_name : Text
  pub kind : NodeKind
  pub value_repr : Text
  pub address : Option ℕ
  pub is_null : Bool
  pub expandable : Bool

pub record TreeExpansion : Type 0 where
  pub node : TreeNode
  pub children : List TreeNode
  pub depth : ℕ
  pub error : Option Text
