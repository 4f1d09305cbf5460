-- ===== src/Control/Maintenance.antt =====
-- src/dfsha/control/distributed.py: how tasks end and blocks are retired (`ReportTask`, `retire_block`,
-- `collect` after that of its base class, and what `tick` writes). This class has no hook
-- `validate_task_report`; a task's uuid is given by its block and node.
pub mod Outcomes
use dfsha.Prelude.{
  ℕ, ◌+◌, Bool, true, false, not, ◌&&◌, ◌||◌, Option, none, some, List, [], ◌∷◌, ltb, leb, ◌==◌,
  if◌then◌else◌, is_some, first_of?,
}
use dfsha.Common.Domain.{
  Result, ok, fault, ◌>>=◌, ◌>>◌, need, permission_denied, checksum_mismatch, idempotency_mismatch,
  operation_expired,
}
use dfsha.Control.Table.{Table, get, all, put, delete, map_rows}
use dfsha.Control.State.{
  Meta, BlockRef, block_ref_eq, digest_eq, DataNode, Location, Receipt, Assignment, Task, TaskKind,
  copy_task, delete_task, TaskStatus, task_status_eq, task_state_eq, finished, failed, is_under_way,
  OperationState, aborted, expired, is_preparing,
}
use dfsha.Control.Placement.{location_of}
use dfsha.Control.Registry.{Cluster, NodeCall, node_peer, require_node}
use dfsha.Control.Inventory.{retire_copy}
use dfsha.Control.Copies.{confirm_location}

-- `ReportTaskRequest`
pub record TaskReport : Type 0 where
  pub node_id : ℕ
  pub boot_generation : ℕ
  pub task : TaskStatus

abbrev is_copy : TaskKind → Bool
is_copy copy_task = true
is_copy delete_task = false

-- the size and the digest of the ciphertext are those of the source
unfoldable pub has_bytes_of : Option Receipt → Receipt → Bool
has_bytes_of none r = false
has_bytes_of (some source) r =
    r.stored_size_bytes == source.stored_size_bytes
    && digest_eq r.ciphertext_sha256 source.ciphertext_sha256

-- The receipt of a finished copy, against the task's own receipt, that of the source.
unfoldable pub is_copy_of : Meta → TaskReport → Task → DataNode → Receipt → Bool
is_copy_of tx req task node r =
    r.operation_id == task.id
    && (r.node_id == node.id
        && (r.boot_generation == req.boot_generation
            && (block_ref_eq r.block task.block
                && (has_bytes_of task.receipt r
                    && is_some (get tx.blocks r.block.block_version_id)))))

-- What a report of a finished copy confirms.
unfoldable pub confirm_copy : Meta → TaskReport → Task → DataNode → Option Receipt → Result Meta
confirm_copy tx req task node none = fault checksum_mismatch
confirm_copy tx req task node (some r) = do
  need (is_copy_of tx req task node r) checksum_mismatch
  ok (confirm_location tx r node.inventory_id)

-- The copy that the report confirms, if it is of one.
unfoldable pub confirmed : Meta → TaskReport → Task → DataNode → Result Meta
confirmed tx req task node =
    if task_state_eq req.task.state finished && is_copy task.kind
    then confirm_copy tx req task node req.task.receipt
    else ok tx

-- A report about a task that has not finished yet.
end_task : Meta → ℕ → TaskReport → Task → DataNode → Result Meta
end_task tx now req task node = do
  need
      (ltb now task.expires
        && (task_state_eq req.task.state finished || task_state_eq req.task.state failed))
      operation_expired
  tx' ← confirmed tx req task node
  ok (record tx' {
    tasks = put tx'.tasks req.task.task_id (record task { status = req.task; reserved = 0 });
  })

-- A finished task stays as it is: the report must be the one that ended it.
settle : Meta → ℕ → TaskReport → Task → DataNode → Result Meta
unfolding end_task
settle tx now req task node =
    if task_state_eq task.status.state finished
    then need (task_status_eq task.status req.task) idempotency_mismatch >> ok tx
    else end_task tx now req task node

-- The rows of the task and of the node, where there are both.
unfoldable pub report_rows : Meta → ℕ → TaskReport → Option Task → Option DataNode → Result Meta
unfolding settle
report_rows tx now req (some task) (some node) = do
  need (task.dest == req.node_id && node.location.boot_generation == req.boot_generation)
      permission_denied
  settle tx now req task node
report_rows tx now req _ _ = fault permission_denied

-- `ReportTask`; the answer's revision is 1
unfoldable pub report_task : Cluster → Meta → NodeCall → ℕ → TaskReport → Result Meta
report_task cluster tx call now req = do
  node_peer cluster tx call req.node_id
  require_node cluster tx req.node_id
  report_rows tx now req (get tx.tasks req.task.task_id) (get tx.datanodes req.node_id)

module _ (fresh : ℕ → ℕ → ℕ) where
  -- `retire_block`: each copy is retired, and then the block's row goes.
  unfoldable pub retire_copies : ℕ → BlockRef → Table Location → Meta → Meta
  retire_copies now block [] tx = tx
  retire_copies now block ((k, l) ∷ rest) tx =
      let retired = retire_copy fresh now tx block l.node in
      retire_copies now block rest (
        if l.block == block.block_version_id
        then record retired { locations = delete retired.locations k }
        else tx)

  unfoldable pub retire_block : ℕ → BlockRef → Meta → Meta
  retire_block now block tx =
      let tx' = retire_copies now block tx.locations tx in
      record tx' { blocks = delete tx'.blocks block.block_version_id }

  -- `collect`, its three rounds
  unfoldable pub fail_orphan : ℕ → Meta → Task → Task
  fail_orphan reason tx t = elim t.write_operation [
    | none ↦ t
    | some w ↦
        if is_under_way t.status.state
          && not (elim (get tx.uploads w) [ none ↦ false | some op ↦ is_preparing op.state ])
        then record t {
          status = record { task_id = t.id; state = failed; receipt = none; error_reason = reason };
          reserved = 0;
        }
        else t
  ]

  is_dead : OperationState → Bool
  is_dead aborted = true
  is_dead expired = true
  is_dead _ = false

  -- the block that an upload that ended was to write, if it did not arrive
  unfoldable pub stray : Meta → Assignment → Option BlockRef
  unfolding is_dead
  stray tx a = elim (get tx.uploads a.operation) [
    | none ↦ none
    | some op ↦
        if is_dead op.state && not (is_some (location_of tx a.id a.node))
        then first_of? (λ (b : BlockRef). b.block_version_id == a.id) (all op.allocations)
        else none
  ]

  unfoldable pub retire_strays : ℕ → List Assignment → Meta → Meta
  retire_strays now [] tx = tx
  retire_strays now (a ∷ rest) tx =
      retire_strays now rest
        (elim (stray tx a) [ none ↦ tx | some b ↦ retire_copy fresh now tx b a.node ])

  unfoldable pub retire_failed : ℕ → List Task → Meta → Meta
  retire_failed now [] tx = tx
  retire_failed now (t ∷ rest) tx = retire_failed now rest (
      if is_copy t.kind && task_state_eq t.status.state failed
      then retire_copy fresh now tx t.block t.dest
      else tx)

  -- `collect` after that of the base class; `reason` is the number of OPERATION_EXPIRED
  unfoldable pub collect_copies : ℕ → ℕ → Meta → Meta
  collect_copies reason now tx =
      let failed_over = record tx { tasks = map_rows (fail_orphan reason tx) tx.tasks } in
      let strays = retire_strays now (all failed_over.assignments) failed_over in
      retire_failed now (all strays.tasks) strays

-- What `tick` writes for a task under way whose time is over: a deletion gets more, a copy fails.
unfoldable pub outlive : ℕ → ℕ → Task → Task
outlive reason now t =
    if is_under_way t.status.state && leb t.expires now
    then elim t.kind [
      | delete_task ↦ record t { expires = now + 300000 }
      | copy_task ↦ record t {
        status = record { task_id = t.id; state = failed; receipt = none; error_reason = reason };
      }
    ]
    else t
