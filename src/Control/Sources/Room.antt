-- ===== src/Control/Sources/Room.antt =====
-- Where src/dfsha/control/access.py puts the new version of a block that has a base: it has room
-- there, and the base is there or on its way.
use dfsha.Prelude.{ℕ, ◌+◌, ◌≤◌, ◌≡◌, ◌⊎◌, true, some, List, IsIn}
use dfsha.Control.Table.{get, all}
use dfsha.Control.State.{Meta, BlockRef, DataNode, Location}
use dfsha.Control.Leases.{Authority, Clock}
use dfsha.Control.Placement.{
  Liveness, state_of, is_ready, storage_cost, location_of, used_by, reserved_by, assignment_on,
}
use dfsha.Control.Sources.{base_copy}

-- The node is stored, as that of a location of the block among the rows.
pub record HasCopy (tx : Meta) (block : ℕ) (rows : List Location) (n : DataNode) : Type 0 where
  pub location : Location
  pub there : IsIn location rows
  pub of_block : location.block ≡ block
  pub at_node : get tx.datanodes location.node ≡ some n

module _ (a : Authority) (c : Clock) (limits : Liveness) where
  -- A copy of `base` on its way to a stored node, from one that has it.
  pub record IsComing (tx tx' : Meta) (fresh operation : ℕ) (base : BlockRef) (cost : ℕ)
      (node : DataNode) : Type 0 where
    pub stored : IsIn node (all tx.datanodes)
    pub source : ℕ
    pub at_source : Location
    pub is_there : location_of tx base.block_version_id source ≡ some at_source
    pub copied :
        get tx'.tasks fresh ≡ some (base_copy c fresh operation base at_source source node.id)
    pub room :
        used_by a c tx node + reserved_by a c tx node + (cost + storage_cost base.size_bytes)
        ≤ node.capacity

  -- A stored node that has the base, and room for the new version.
  pub record IsHere (tx : Meta) (base : BlockRef) (cost : ℕ) (node : DataNode) : Type 0 where
    pub has_base : HasCopy tx base.block_version_id (all tx.locations) node
    pub room : used_by a c tx node + reserved_by a c tx node + cost ≤ node.capacity

  -- The assignment of the new version, and how its node gets the base.
  pub record IsPlaced (tx tx' : Meta) (fresh operation : ℕ) (base replacement : BlockRef)
      : Type 0 where
    pub node : DataNode
    pub ready : is_ready (state_of limits c.now node) ≡ true
    pub assigned :
        get tx'.assignments replacement.block_version_id
        ≡ some (assignment_on replacement operation node)
    pub based :
        IsHere tx base (storage_cost replacement.size_bytes) node
        ⊎ IsComing tx tx' fresh operation base (storage_cost replacement.size_bytes) node
