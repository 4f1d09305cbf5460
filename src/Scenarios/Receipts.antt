-- ===== src/Scenarios/Receipts.antt =====
-- A node reports the block of the upload of the small control node.
use dfsha.Prelude.{◌≡◌, ◌≤◌, ◌<◌, refl, true, false, none, some, [], ◌∷◌}
use dfsha.Common.Domain.{ok}
use dfsha.Control.Table.{get}
use dfsha.Control.State.{BlockRef, block_ref_eq, Meta, Upload, Session, Assignment, Location}
use dfsha.Control.Placement.{location_of}
use dfsha.Control.Transfers.{held_operation, validate_full}
use dfsha.Control.Durability.{
  DurableReport, first_report, store_receipt, is_assigned, is_whole, session_of,
}
use dfsha.Control.Durability.Receipts.{first_report-ok}
use dfsha.Scenarios.World.{sys, admin, reference, upload, tx, authority, time}
use dfsha.Scenarios.Nodes.{node_at, copy_at}
use dfsha.Control.Handles.{found}
use dfsha.Control.Uploads.{operation}
use dfsha.Control.Auth.{require}

abbrev running : Upload
running = record upload { expires = 5000; max_expires = 9000 }

abbrev waiting : Meta
waiting = record tx {
  sessions =
      (77, record { id = 77; session_id = 78; user = 5; expires = 9000; revoked = false }) ∷ [];
  uploads = (20, running) ∷ [];
  datanodes = (11, node_at 11) ∷ [];
  assignments =
      (50, record { id = 50; node = 11; operation = 20; generation = 4; reserved = 4120 }) ∷ [];
}

abbrev news : DurableReport
news = record {
  receipt = copy_at 20 11;
  client_user = 5;
  client_epoch = 9;
  operation = reference;
  fence = none;
}

stores :
    first_report sys authority time waiting news (node_at 11) admin
    ≡ ok (true, store_receipt waiting (copy_at 20 11) (node_at 11))
unfolding first_report session_of found get held_operation operation require validate_full
    is_assigned is_whole
stores = refl

first_report-ok_example :
    (session : Session) × (op : Upload) × (x : Assignment) × (held_operation sys authority time
        waiting admin session news.operation news.fence
      ≡ ok op)
    × (get waiting.assignments news.receipt.block.block_version_id ≡ some x)
    × (x.node ≡ (node_at 11).id)
    × (x.operation ≡ op.id)
    × (x.generation ≡ news.receipt.boot_generation)
    × (b : BlockRef) × (get op.allocations news.receipt.block.block_index ≡ some b)
    × (block_ref_eq b news.receipt.block ≡ true)
    × (news.receipt.block.size_bytes < news.receipt.stored_size_bytes)
    × (news.receipt.stored_size_bytes ≤ x.reserved)
    × (get
          (store_receipt waiting (copy_at 20 11) (node_at 11)).blocks
          news.receipt.block.block_version_id
        ≡ some news.receipt.block)
    × (get
          (store_receipt waiting (copy_at 20 11) (node_at 11)).receipts
          news.receipt.block.block_version_id
        ≡ some news.receipt)
    × (l : Location) × (location_of
          (store_receipt waiting (copy_at 20 11) (node_at 11))
          news.receipt.block.block_version_id
          news.receipt.node_id
        ≡ some l)
    × (l.receipt ≡ news.receipt)
first_report-ok_example =
    first_report-ok sys authority time waiting (store_receipt waiting (copy_at 20 11) (node_at 11))
      news (node_at 11) admin true stores
