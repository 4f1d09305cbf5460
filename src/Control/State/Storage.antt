-- ===== src/Control/State/Storage.antt =====
-- The records of the data nodes and their copies: src/dfsha/control/distributed.py.
use dfsha.Prelude.{ℕ, Bool, true, false, ◌&&◌, ◌==◌, Option, none, some, Text, list_eq}
use dfsha.Control.State.Refs.{BlockRef, Digest, block_ref_eq, digest_eq}

-- `DurableReceipt`
pub record Receipt : Type 0 where
  pub receipt_id : ℕ
  pub operation_id : ℕ
  pub block : BlockRef
  pub node_id : ℕ
  pub boot_generation : ℕ
  pub failure_domain : Text
  pub stored_size_bytes : ℕ
  pub ciphertext_sha256 : Digest
  pub durable_at_unix_ms : ℕ

-- `asdict(a) == asdict(b)`
abbrev pub receipt_eq : Receipt → Receipt → Bool
receipt_eq a b =
    a.receipt_id == b.receipt_id
    && (a.operation_id == b.operation_id
        && (block_ref_eq a.block b.block
            && (a.node_id == b.node_id
                && (a.boot_generation == b.boot_generation
                    && (list_eq a.failure_domain b.failure_domain
                        && (a.stored_size_bytes == b.stored_size_bytes
                            && (digest_eq a.ciphertext_sha256 b.ciphertext_sha256
                                && a.durable_at_unix_ms == b.durable_at_unix_ms)))))))

-- `BlockLocation`
pub record BlockLocation : Type 0 where
  pub node_id : ℕ
  pub boot_generation : ℕ
  pub client_endpoint : Text
  pub private_endpoint : Text
  pub failure_domain : Text

-- `asdict(a) == asdict(b)`
abbrev pub block_location_eq : BlockLocation → BlockLocation → Bool
block_location_eq a b =
    a.node_id == b.node_id
    && (a.boot_generation == b.boot_generation
        && (list_eq a.client_endpoint b.client_endpoint
            && (list_eq a.private_endpoint b.private_endpoint
                && list_eq a.failure_domain b.failure_domain)))

-- The traffic of a node, by the names of `counters`.
pub record Counters : Type 0 where
  pub client_write_bytes : ℕ
  pub client_read_bytes : ℕ
  pub replica_write_bytes : ℕ
  pub replica_read_bytes : ℕ

-- A row `datanode`; what a row does not have yet is 0.
pub record DataNode : Type 0 where
  pub id : ℕ
  pub location : BlockLocation
  pub capacity : ℕ
  pub free : ℕ
  pub used : ℕ
  pub active : ℕ
  pub seen : ℕ
  pub sequence : ℕ
  pub reconciled : Bool
  pub authorization_disabled : Bool
  pub inventory_id : ℕ
  pub page : ℕ
  pub heartbeat_digest : Option Digest
  pub counters : Counters

-- A row `location`, under its block and its node.
pub record Location : Type 0 where
  pub block : ℕ
  pub node : ℕ
  pub receipt : Receipt
  pub inventory : ℕ

-- A row `assignment`, under its block.
pub record Assignment : Type 0 where
  pub id : ℕ
  pub node : ℕ
  pub operation : ℕ
  pub generation : ℕ
  pub reserved : ℕ

pub data TaskKind : Type 0 where
  copy_task delete_task : TaskKind

pub data TaskState : Type 0 where
  state_unspecified accepted running finished failed : TaskState

-- `state in ('ACCEPTED', 'RUNNING')`
abbrev pub is_under_way : TaskState → Bool
is_under_way accepted = true
is_under_way running = true
is_under_way _ = false

abbrev pub task_state_eq : TaskState → TaskState → Bool
task_state_eq state_unspecified state_unspecified = true
task_state_eq accepted accepted = true
task_state_eq running running = true
task_state_eq finished finished = true
task_state_eq failed failed = true
task_state_eq _ _ = false

-- `TaskStatus`; the error is its number, 0 for none
pub record TaskStatus : Type 0 where
  pub task_id : ℕ
  pub state : TaskState
  pub receipt : Option Receipt
  pub error_reason : ℕ

abbrev same_receipt : Option Receipt → Option Receipt → Bool
same_receipt none none = true
same_receipt (some a) (some b) = receipt_eq a b
same_receipt _ _ = false

-- `asdict(a) == asdict(b)`
abbrev pub task_status_eq : TaskStatus → TaskStatus → Bool
task_status_eq a b =
    a.task_id == b.task_id
    && (task_state_eq a.state b.state
        && (same_receipt a.receipt b.receipt && a.error_reason == b.error_reason))

-- A row `task`; `receipt` is that of the copy's source.
pub record Task : Type 0 where
  pub id : ℕ
  pub kind : TaskKind
  pub block : BlockRef
  pub src : Option ℕ
  pub dest : ℕ
  pub expires : ℕ
  pub status : TaskStatus
  pub reserved : ℕ
  pub receipt : Option Receipt
  pub write_operation : Option ℕ

-- A row `node-policy`.
pub record Policy : Type 0 where
  pub revision : ℕ
  pub enabled : Bool
