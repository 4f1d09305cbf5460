-- ===== src/Control/Sources.antt =====
-- src/dfsha/control/access.py: how `BeginWrite` plans its parts: where the new version of each block
-- goes, and from where it takes its base. The answer is without the capabilities.
pub mod Room
use dfsha.Prelude.{
  ℕ, ◌+◌, Bool, not, ◌&&◌, Option, none, some, List, [], ◌∷◌, ◌++◌, leb, ◌==◌, max, if◌then◌else◌,
  length, get_elem?, any_of, first_of?,
}
use dfsha.Common.Domain.{Result, ok, fault, ◌>>=◌, ◌>>◌, not_found, data_unavailable, no_space}
use dfsha.Control.Table.{get, all, put}
use dfsha.Control.State.{
  WritePart, Meta, BlockRef, Upload, Write, WrittenPart, DataNode, Location, Task, copy_task,
}
use dfsha.Control.Leases.{Authority, Clock}
use dfsha.Control.Placement.{
  Liveness, state_of, is_ready, storage_cost, location_of, used_by, reserved_by, has_room,
  assignment_on, plan_write,
}
use dfsha.Control.Inventory.{new_task}
use dfsha.Control.Handles.{found}

-- `PlannedBlock` of a patch, and its node.
pub record PlannedPart : Type 0 where
  pub block : Option BlockRef
  pub replacement : BlockRef
  pub part : WritePart
  pub node : ℕ

-- The uuids drawn for the operation, a lock, and the version and the copy task of each part.
pub record WriteIds : Type 0 where
  pub operation : ℕ
  pub lock : ℕ
  pub version : ℕ → ℕ
  pub task : ℕ → ℕ

abbrev pub with_assignment : Meta → BlockRef → ℕ → DataNode → Meta
with_assignment tx replacement operation node = record tx {
  assignments =
      put tx.assignments replacement.block_version_id (assignment_on replacement operation node);
}

abbrev pub size_of : Option BlockRef → ℕ
size_of none = 0
size_of (some b) = b.size_bytes

-- `replacement`
unfoldable pub replacement_of : ℕ → ℕ → Option BlockRef → WritePart → BlockRef
replacement_of version file base part = record {
  file_id = file;
  block_version_id = version;
  block_index = part.block_index;
  size_bytes = max (size_of base) (part.block_offset + part.length);
  plaintext_sha256 = record { size = 0; value = 0 };
}

abbrev pub add_written : WrittenPart → Option Write → Option Write
add_written p none = none
add_written p (some w) = some (record w { parts = w.parts ++ (p ∷ []) })

-- what a part adds to the operation
unfoldable pub with_part : Upload → Option BlockRef → BlockRef → WritePart → Upload
with_part op base replacement part = record op {
  allocations = put op.allocations replacement.block_index replacement;
  write =
      add_written
        (record {
          index = replacement.block_index;
          base = base;
          replacement = replacement;
          delta = part;
        })
        op.write;
}

-- The task that brings the base to the chosen node.
unfoldable pub base_copy : Clock → ℕ → ℕ → BlockRef → Location → ℕ → ℕ → Task
base_copy c fresh operation base location source dest =
    record (new_task fresh c.now copy_task base (some source) dest) {
      receipt = some location.receipt;
      reserved = storage_cost base.size_bytes;
      write_operation = some operation;
    }

module _ (a : Authority) (c : Clock) where
  module _ (limits : Liveness) where
    -- `candidates`: the ready nodes that hold the block, in the order of the locations
    unfoldable pub ready_holders : Meta → ℕ → List Location → List DataNode
    ready_holders tx block [] = []
    ready_holders tx block (l ∷ ls) =
        let rest = ready_holders tx block ls in
        if l.block == block
        then elim (get tx.datanodes l.node) [
          | none ↦ rest
          | some n ↦ if is_ready (state_of limits c.now n) then n ∷ rest else rest
        ]
        else rest

    -- `used + reserved + cost <= capacity and reserved + cost + 1048576 <= free`
    unfoldable pub fits : Meta → ℕ → DataNode → Bool
    fits tx cost node =
        leb (used_by a c tx node + reserved_by a c tx node + cost) node.capacity
        && leb (reserved_by a c tx node + cost + 1048576) node.free

    -- A node without the base that has room for both, and is not among the holders.
    unfoldable pub is_elsewhere : Meta → ℕ → List DataNode → DataNode → Bool
    is_elsewhere tx cost holders x =
        has_room a c limits tx cost x && not (any_of (λ (y : DataNode). y.id == x.id) holders)

    unfoldable pub place_elsewhere :
        Meta → ℕ → ℕ → BlockRef → BlockRef → List DataNode → DataNode → Result Meta
    place_elsewhere tx fresh operation base replacement holders source = do
      let cost = storage_cost replacement.size_bytes + storage_cost base.size_bytes
      node ← found no_space (first_of? (is_elsewhere tx cost holders) (all tx.datanodes))
      location ← found not_found (location_of tx base.block_version_id source.id)
      let copied : Meta = record tx {
        tasks = put tx.tasks fresh (base_copy c fresh operation base location source.id node.id);
      }
      ok (with_assignment copied replacement operation node)

    -- The first holder with room, or another node.
    place_at :
        Meta
        → ℕ
        → ℕ
        → BlockRef
        → BlockRef
        → List DataNode
        → DataNode
        → Option DataNode
        → Result Meta
    place_at tx fresh operation base replacement holders source none =
        place_elsewhere tx fresh operation base replacement holders source
    place_at tx fresh operation base replacement holders source (some node) =
        ok (with_assignment tx replacement operation node)

    place_among : Meta → ℕ → ℕ → BlockRef → BlockRef → List DataNode → Result Meta
    place_among tx fresh operation base replacement [] = fault data_unavailable
    place_among tx fresh operation base replacement (source ∷ rest) =
        place_at tx fresh operation base replacement (source ∷ rest) source
          (first_of? (fits tx (storage_cost replacement.size_bytes)) (source ∷ rest))

    -- Where the new version of a block that has a base goes.
    unfoldable pub place_part : Meta → ℕ → ℕ → Option BlockRef → BlockRef → Result Meta
    unfolding place_among place_at
    place_part tx fresh operation none replacement = ok tx
    place_part tx fresh operation (some base) replacement =
        place_among tx fresh operation base replacement
          (ready_holders tx base.block_version_id (all tx.locations))

    -- One round of the loop over the parts; the answer has the node that receives the patch.
    unfoldable pub plan_part :
        Meta
        → WriteIds
        → ℕ
        → List BlockRef
        → Upload
        → WritePart
        → Result (PlannedPart × Upload × Meta)
    plan_part tx ids file blocks op part = do
      let base = get_elem? blocks part.block_index
      let replacement = replacement_of (ids.version part.block_index) file base part
      placed ← place_part tx (ids.task part.block_index) op.id base replacement
      (target, made, planned) ← plan_write a c limits placed replacement op.id
      let op' = with_part op base replacement part
      ok (
        record { block = base; replacement = replacement; part = part; node = target.id },
        op',
        record planned { uploads = put planned.uploads op.id op' },
      )

    unfoldable pub plan_parts :
        Meta
        → WriteIds
        → ℕ
        → List BlockRef
        → Upload
        → List WritePart
        → Result (List PlannedPart × Upload × Meta)
    plan_parts tx ids file blocks op [] = ok ([], op, tx)
    plan_parts tx ids file blocks op (part ∷ parts) = do
      (plan, op', tx') ← plan_part tx ids file blocks op part
      (plans, op'', tx'') ← plan_parts tx' ids file blocks op' parts
      ok (plan ∷ plans, op'', tx'')
