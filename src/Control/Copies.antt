-- ===== src/Control/Copies.antt =====
-- src/dfsha/control/distributed.py: the tasks that copy and delete blocks (`CopyBlock`,
-- `AuthorizeInternal`), and the administrator's `SetNodeAuthorization`.
pub mod Retired
use dfsha.Prelude.{
  ℕ, ◌+◌, Bool, true, false, not, ◌&&◌, ◌||◌, Option, none, some, Text, ltb, leb, ◌==◌, list_eq,
  option_eq, if◌then◌else◌, is_some, any_of,
}
use dfsha.Common.Domain.{
  Result, ok, fault, ◌>>◌, need, permission_denied, version_conflict, not_found, data_unavailable,
  already_exists, no_space,
}
use dfsha.Control.Table.{Table, get, all, put, map_rows}
use dfsha.Control.State.{
  Meta, User, BlockRef, block_ref_eq, Digest, digest_eq, DataNode, Location, Receipt, Task,
  TaskKind, copy_task, delete_task, TaskStatus, failed, is_under_way,
}
use dfsha.Control.Leases.{Authority, Clock}
use dfsha.Control.Placement.{
  storage_cost, Liveness, NodeState, node_unavailable, state_of, is_ready, location_id, location_of,
  operation_live, used_by, reserved_by,
}
use dfsha.Control.Registry.{Cluster, require_node}
use dfsha.Control.Inventory.{new_task}

-- `self.state(node)` where the node may be missing
unfoldable pub state_of_row : Liveness → ℕ → Option DataNode → NodeState
state_of_row limits now none = node_unavailable
state_of_row limits now (some node) = state_of limits now node

-- `node_id in (task['src'], task['dest'])`
unfoldable pub touches : ℕ → Task → Bool
touches node_id t = option_eq t.src (some node_id) || t.dest == node_id

-- A task under way ends when one of its nodes is disabled.
unfoldable pub cut_task : ℕ → Task → Task
cut_task node_id t =
    if touches node_id t && is_under_way t.status.state
    then record t { expires = 0; reserved = 0; status = record (t.status) { state = failed } }
    else t

unfoldable pub authorized_node : Bool → DataNode → DataNode
authorized_node enabled node = record node {
  authorization_disabled = not enabled;
  reconciled = if enabled then false else node.reconciled;
}

unfoldable pub authorize_row : Bool → ℕ → Table DataNode → Option DataNode → Table DataNode
authorize_row enabled node_id rows none = rows
authorize_row enabled node_id rows (some node) = put rows node_id (authorized_node enabled node)

-- What `SetNodeAuthorization` writes; `revision` is the policy's new one.
unfoldable pub authorized : Meta → ℕ → Bool → ℕ → Meta
authorized tx node_id enabled revision = record tx {
  policies = put tx.policies node_id (record { revision = revision; enabled = enabled });
  datanodes = authorize_row enabled node_id tx.datanodes (get tx.datanodes node_id);
  tasks = if enabled then tx.tasks else map_rows (cut_task node_id) tx.tasks;
}

unfoldable pub policy_revision : Meta → ℕ → ℕ
policy_revision tx node_id = elim (get tx.policies node_id) [ none ↦ 0 | some p ↦ p.revision ]

-- `SetNodeAuthorization`; the answer is the policy's revision
unfoldable pub set_node_authorization : Cluster → Meta → User → ℕ → Bool → ℕ → Result (ℕ × Meta)
set_node_authorization cluster tx user node_id enabled expected_revision = do
  need user.admin permission_denied
  need (is_some (get cluster.allowed node_id)) not_found
  need (policy_revision tx node_id == expected_revision) version_conflict
  let revision = policy_revision tx node_id + 1
  ok (revision, authorized tx node_id enabled revision)

-- `confirm_location`
unfoldable pub confirm_location : Meta → Receipt → ℕ → Meta
confirm_location tx receipt inventory = record tx {
  locations =
      put tx.locations (location_id receipt.block.block_version_id receipt.node_id) (record {
        block = receipt.block.block_version_id;
        node = receipt.node_id;
        receipt = receipt;
        inventory = inventory;
      });
}

module _ (auth : Authority) (c : Clock) where
  -- A task of `CopyBlock` from one row to another.
  unfoldable pub copy_to :
      Meta → ℕ → BlockRef → Location → DataNode → DataNode → Result (TaskStatus × Meta)
  copy_to tx fresh block source source_node dest = do
    let cost = storage_cost block.size_bytes
    let reserved = reserved_by auth c tx dest
    need
        (leb (used_by auth c tx dest + reserved + cost) dest.capacity
          && leb (reserved + cost) dest.free)
        no_space
    let task = record (new_task fresh c.now copy_task block (some source.node) dest.id) {
      receipt = some source.receipt;
      reserved = cost;
    }
    ok (task.status, record tx { tasks = put tx.tasks task.id task })

  -- `CopyBlock`; `fresh` is the uuid that `new_task` draws
  unfoldable pub copy_block :
      Liveness → Meta → User → ℕ → BlockRef → ℕ → ℕ → Result (TaskStatus × Meta)
  copy_block limits tx user fresh block source_id dest_id = do
    need user.admin permission_denied
    need
        (elim (get tx.blocks block.block_version_id) [
          | none ↦ false
          | some ref ↦ block_ref_eq ref block
        ])
        not_found
    elim (location_of tx block.block_version_id source_id) [
      | none ↦ fault data_unavailable
      | some source ↦ elim (get tx.datanodes dest_id) [
        | none ↦ fault data_unavailable
        | some dest ↦ do
          need (is_ready (state_of limits c.now dest) && not (source_id == dest_id))
              data_unavailable
          need (not (is_some (location_of tx block.block_version_id dest.id))) already_exists
          elim (get tx.datanodes source_id) [
            | none ↦ fault data_unavailable
            | some source_node ↦ do
              need (is_ready (state_of limits c.now source_node)) data_unavailable
              copy_to tx fresh block source source_node dest
          ]
      ]
    ]

  -- A copy task under way for the block at the node.
  unfoldable pub is_copying : ℕ → ℕ → Task → Bool
  is_copying block_id node_id t =
      elim t.kind [ copy_task ↦ true | delete_task ↦ false ]
      && (t.dest == node_id
          && (t.block.block_version_id == block_id
              && (ltb c.now t.expires && is_under_way t.status.state)))

  -- The block's upload is under way, and is to write it at the node.
  unfoldable pub is_expected : Meta → ℕ → ℕ → Bool
  is_expected tx block_id node_id = elim (get tx.assignments block_id) [
    | none ↦ false
    | some a ↦ a.node == node_id && operation_live auth c tx (get tx.uploads a.operation)
  ]

  -- `retired_at_node`
  unfoldable pub retired_at_node : Meta → ℕ → ℕ → Bool
  retired_at_node tx block_id node_id =
      not (is_some (location_of tx block_id node_id))
      && (not (is_expected tx block_id node_id)
          && not (any_of (is_copying block_id node_id) (all tx.tasks)))

pub data AccessAction : Type 0 where
  read_replica store_replica delete_retired other_action : AccessAction

-- `AuthorizeInternalRequest`
pub record InternalRequest : Type 0 where
  pub user_id : ℕ
  pub task_id : ℕ
  pub task_capability : Digest
  pub action : AccessAction
  pub source_node_id : Option ℕ
  pub destination_node_id : ℕ
  pub block : BlockRef
  pub lock_id : ℕ
  pub service_epoch : ℕ

-- The source, where the request names one, is an authorised node.
require_source : Cluster → Meta → Option ℕ → Result (Unit {0})
require_source cluster tx none = ok tt
require_source cluster tx (some s) = require_node cluster tx s

-- `expected`
unfoldable pub expected_node : AccessAction → Task → Option ℕ
expected_node read_replica task = task.src
expected_node _ task = some task.dest

module _ (auth : Authority) (c : Clock) (capability : Task → Digest) where
  -- What the action may be for the task.
  unfoldable pub permits : Meta → TaskKind → AccessAction → ℕ → ℕ → Bool
  permits tx copy_task read_replica block_id dest = true
  permits tx copy_task store_replica block_id dest = true
  permits tx delete_task delete_retired block_id dest = retired_at_node auth c tx block_id dest
  permits tx _ _ block_id dest = false

  -- The task that a request names, and the request's right to it.
  unfoldable pub grants : Cluster → InternalRequest → Task → Bool
  grants cluster req task =
      ltb c.now task.expires
      && (is_under_way task.status.state
          && (block_ref_eq req.block task.block
              && (digest_eq req.task_capability (capability task)
                  && (option_eq req.source_node_id task.src
                      && (req.destination_node_id == task.dest
                          && (req.lock_id == task.id && req.service_epoch == cluster.epoch))))))

  -- The certificate and the context are those of the node that the action is for.
  unfoldable pub is_caller : Cluster → Text → ℕ → Option ℕ → Bool
  is_caller cluster peer user_id none = false
  is_caller cluster peer user_id (some node_id) =
      elim (get cluster.allowed node_id) [ none ↦ false | some a ↦ list_eq peer a.identity ]
      && user_id == node_id

  -- `AuthorizeInternal`; the answer is the task's deadline
  unfoldable pub authorize_task : Cluster → Meta → Text → InternalRequest → Option Task → Result ℕ
  authorize_task cluster tx peer req none = fault permission_denied
  authorize_task cluster tx peer req (some task) = do
    need (grants cluster req task) permission_denied
    need (is_caller cluster peer req.user_id (expected_node req.action task)) permission_denied
    need (permits tx task.kind req.action req.block.block_version_id task.dest) permission_denied
    ok task.expires

  unfoldable pub authorize_internal : Cluster → Meta → Text → InternalRequest → Result ℕ
  unfolding require_source
  authorize_internal cluster tx peer req = do
    require_node cluster tx req.destination_node_id
    require_source cluster tx req.source_node_id
    authorize_task cluster tx peer req (get tx.tasks req.task_id)
