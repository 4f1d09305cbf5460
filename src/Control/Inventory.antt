-- ===== src/Control/Inventory.antt =====
-- src/dfsha/control/distributed.py: what a data node reports to hold (`BlockReport`), and the tasks that
-- delete the rest. A task's uuid is given by its block and node.
pub mod Reports
pub mod Standing
use dfsha.Prelude.{
  ℕ, ◌+◌, Bool, not, ◌&&◌, Option, none, some, List, [], ◌∷◌, length, leb, ◌==◌, if◌then◌else◌,
  is_some,
}
use dfsha.Common.Domain.{
  Result, ok, fault, ◌>>=◌, ◌>>◌, need, version_conflict, invalid_argument, checksum_mismatch,
}
use dfsha.Control.Table.{Table, get, put, delete}
use dfsha.Control.State.{
  Meta, BlockRef, DataNode, Location, Receipt, receipt_eq, Task, TaskKind, delete_task, accepted,
}
use dfsha.Control.Placement.{location_id, location_of}
use dfsha.Control.Registry.{Cluster, NodeCall, node_peer}

-- A page of the inventory; `byte_size` is that of the encoded request.
pub record Report : Type 0 where
  pub node_id : ℕ
  pub boot_generation : ℕ
  pub report_id : ℕ
  pub page_index : ℕ
  pub receipts : List Receipt
  pub last_page : Bool
  pub byte_size : ℕ

-- `new_task`
unfoldable pub new_task : ℕ → ℕ → TaskKind → BlockRef → Option ℕ → ℕ → Task
new_task fresh now kind block source dest = record {
  id = fresh;
  kind = kind;
  block = block;
  src = source;
  dest = dest;
  expires = now + 300000;
  status = record { task_id = fresh; state = accepted; receipt = none; error_reason = 0 };
  reserved = 0;
  receipt = none;
  write_operation = none;
}

module _ (fresh : ℕ → ℕ → ℕ) where
  -- `retire_copy`
  unfoldable pub retire_copy : ℕ → Meta → BlockRef → ℕ → Meta
  retire_copy now tx block node_id =
      let identity = location_id block.block_version_id node_id in
      let task =
        new_task (fresh block.block_version_id node_id) now delete_task block none node_id in
      if is_some (get tx.retirements identity) then tx else record tx {
        tasks = put tx.tasks task.id task;
        retirements = put tx.retirements identity task.id;
      }

  -- A receipt of the page, of a copy that is confirmed or not.
  report_one : ℕ → ℕ → ℕ → Receipt → Meta → Option Location → Result Meta
  report_one now node_id report_id receipt tx none =
      -- An unconfirmed object never becomes a namespace entry merely by reporting it.
      ok (retire_copy now tx receipt.block node_id)
  report_one now node_id report_id receipt tx (some old) = do
    need (receipt_eq old.receipt receipt) checksum_mismatch
    ok (record tx {
      locations =
          put tx.locations (location_id receipt.block.block_version_id node_id)
            (record old { inventory = report_id });
    })

  unfoldable pub report_receipt : ℕ → ℕ → ℕ → Receipt → Meta → Result Meta
  unfolding report_one
  report_receipt now node_id report_id receipt tx = do
    need (receipt.node_id == node_id && receipt.ciphertext_sha256.size == 32) invalid_argument
    report_one now node_id report_id receipt tx
        (location_of tx receipt.block.block_version_id node_id)

  unfoldable pub report_receipts : ℕ → ℕ → ℕ → List Receipt → Meta → Result Meta
  report_receipts now node_id report_id [] tx = ok tx
  report_receipts now node_id report_id (r ∷ rs) tx = do
    tx' ← report_receipt now node_id report_id r tx
    report_receipts now node_id report_id rs tx'

-- After the last page the node's rows that no page named go, one by one.
unfoldable pub sweep : ℕ → ℕ → Table Location → Table Location → Table Location
sweep node_id report_id [] locations = locations
sweep node_id report_id ((k, l) ∷ rest) locations =
    let stale = l.node == node_id && not (l.inventory == report_id) in
    sweep node_id report_id rest (if stale then delete locations k else locations)

-- The page ends: the node's row, and the sweep after the last one.
unfoldable pub end_page : ℕ → Report → DataNode → Meta → Meta
end_page now req node tx = record tx {
  datanodes =
      put tx.datanodes req.node_id
        (record node { page = node.page + 1; seen = now; reconciled = req.last_page });
  locations =
      if req.last_page
      then sweep req.node_id req.report_id tx.locations tx.locations
      else tx.locations;
}

-- The row that may report this page.
expects : Report → DataNode → Bool
expects req node =
    node.location.boot_generation == req.boot_generation
    && (req.report_id == node.inventory_id && req.page_index == node.page)

reporter : Report → Option DataNode → Result DataNode
unfolding expects
reporter req none = fault version_conflict
reporter req (some node) = need (expects req node) version_conflict >> ok node

-- `BlockReport`; the answer is its revision
unfoldable pub block_report :
    (ℕ → ℕ → ℕ) → Cluster → Meta → NodeCall → ℕ → Report → Result (ℕ × Meta)
unfolding reporter
block_report fresh cluster tx call now req = do
  node_peer cluster tx call req.node_id
  need (leb (length req.receipts) 64 && leb req.byte_size 65536) invalid_argument
  node ← reporter req (get tx.datanodes req.node_id)
  tx' ← report_receipts fresh now req.node_id req.report_id req.receipts tx
  ok (req.page_index + 1, end_page now req node tx')
