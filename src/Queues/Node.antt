-- ===== src/Queues/Node.antt =====
-- services/queues/service.py `get_tree_node`: the structure tree below a device. What drgn gives for
-- the `struct nvme_dev` of a disk is a parameter.
use telemetryd.Base.{List, Text, Result, ok, raise, ◌⊎◌, inl, inr}
use telemetryd.Models.Tree.{TreeExpansion}
use telemetryd.Queues.Kernel.{Kernel, Disk}
use telemetryd.Queues.Service.{QueryError, lookup_device}
use telemetryd.Treewalk.Kernel.{ReadError, Drgn}
use telemetryd.Treewalk.Expand.{expand}

-- The errors of the lookup, or those of the tree.
abbrev pub read_or_raise :
    Result ReadError TreeExpansion → Result (QueryError ⊎ ReadError) TreeExpansion
read_or_raise (ok x) = ok x
read_or_raise (raise e) = raise (inr e)

module _ (d : Drgn) (nvme_dev : Disk → d.Obj) where
  abbrev pub below_disk :
      Text → List Text → Result QueryError Disk → Result (QueryError ⊎ ReadError) TreeExpansion
  below_disk device path (raise e) = raise (inl e)
  below_disk device path (ok disk) = read_or_raise (expand d (nvme_dev disk) device path)

  unfoldable pub get_tree_node :
      Kernel → Text → List Text → Result (QueryError ⊎ ReadError) TreeExpansion
  unfolding lookup_device
  get_tree_node k device path = below_disk device path (lookup_device k device)
