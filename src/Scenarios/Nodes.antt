-- ===== src/Scenarios/Nodes.antt =====
-- Two data nodes: one that has a copy of a block, and one that is ready and has none.
use dfsha.Prelude.{◌<◌, ℕ, ◌≤◌, ◌≡◌, ◌↔◌, refl, true, false, ◌&&◌, none, some, [], ◌∷◌, any_of}
use dfsha.Common.Domain.{ok, fault, no_space, permission_denied}
use dfsha.Control.Table.{get, all, put}
use dfsha.Control.State.{
  block_ref_eq, Meta, Digest, DataNode, Counters, Receipt, Location, Task, TaskStatus, copy_task,
  delete_task, accepted, finished, is_under_way,
}
use dfsha.Control.Placement.{
  Liveness, state_of, node_unavailable, has_room, storage_cost, assign, assignment_on, location_of,
  location_id,
}
use dfsha.Control.Placement.Capacity.{assign-no_space_iff}
use dfsha.Control.Registry.{
  Cluster, Allowed, NodeCall, node_peer, require_node, Beat, beat, heartbeat, lease, NodeLease,
  beaten,
}
use dfsha.Control.Inventory.{Report}
use dfsha.Control.Registry.Liveness.{heartbeat-replays}
use dfsha.Control.Copies.{
  set_node_authorization, authorized, touches, InternalRequest, delete_retired, authorize_internal,
  is_expected, is_copying, authorize_task, expected_node, grants, is_caller, permits,
  policy_revision, retired_at_node,
}
use dfsha.Control.Copies.Retired.{
  IsNode, authorize_internal-retired, set_node_authorization-cuts_off,
}
use dfsha.Control.Maintenance.{TaskReport}
use dfsha.Scenarios.World.{tx, admin, digest, block, authority, time}

abbrev none_yet : Counters
none_yet = record {
  client_write_bytes = 0;
  client_read_bytes = 0;
  replica_write_bytes = 0;
  replica_read_bytes = 0;
}

abbrev pub node_at : ℕ → DataNode
node_at id = record {
  id = id;
  location = record {
    node_id = id;
    boot_generation = 4;
    client_endpoint = [];
    private_endpoint = [];
    failure_domain = [];
  };
  capacity = 100000000;
  free = 100000000;
  used = 0;
  active = 0;
  seen = 900;
  sequence = 6;
  reconciled = true;
  authorization_disabled = false;
  inventory_id = 70;
  page = 0;
  heartbeat_digest = none;
  counters = none_yet;
}

abbrev pub copy_at : ℕ → ℕ → Receipt
copy_at operation id = record {
  receipt_id = 60;
  operation_id = operation;
  block = block;
  node_id = id;
  boot_generation = 4;
  failure_domain = [];
  stored_size_bytes = 40;
  ciphertext_sha256 = digest;
  durable_at_unix_ms = 800;
}

abbrev status : TaskStatus
status = record { task_id = 90; state = accepted; receipt = none; error_reason = 0 }

abbrev copying : Task
copying = record {
  id = 90;
  kind = copy_task;
  block = block;
  src = some 11;
  dest = 12;
  expires = 5000;
  status = status;
  reserved = 4120;
  receipt = some (copy_at 20 11);
  write_operation = none;
}

abbrev pub first_copy : Location
first_copy = record { block = 50; node = 11; receipt = copy_at 20 11; inventory = 70 }

abbrev nodes : Meta
nodes = record tx {
  datanodes = (11, node_at 11) ∷ (12, node_at 12) ∷ [];
  locations = put [] (location_id 50 11) first_copy;
  tasks = (90, copying) ∷ [];
}

abbrev pub limits : Liveness
limits = record { unavailable_ms = 6000; suspect_ms = 2500 }

abbrev allow : ℕ → Allowed
allow n = record {
  identity = n ∷ [];
  client_endpoint = [];
  private_endpoint = [];
  failure_domain = [];
  capacity_bytes = 100000000;
}

abbrev pub cluster : Cluster
cluster = record { allowed = (11, allow 11) ∷ (12, allow 12) ∷ []; epoch = 9; etcd = false }

abbrev pub call : ℕ → NodeCall
call n = record { peer = n ∷ []; user_id = n; service_epoch = 9 }

abbrev after_assign : Meta
after_assign = record nodes {
  last_placed = some 11;
  assignments = (50, assignment_on block 20 (node_at 11)) ∷ [];
}

assign-no_space_iff_example : (assign authority time limits nodes block 20 ≡ fault no_space) ↔ (
    any_of
      (has_room authority time limits nodes (storage_cost block.size_bytes))
      (all nodes.datanodes)
    ≡ false)
assign-no_space_iff_example = assign-no_space_iff authority time limits nodes block 20

abbrev pulse : Beat
pulse = record {
  node_id = 12;
  boot_generation = 4;
  sequence = 7;
  free_bytes = 90000000;
  used_bytes = 10;
  active_streams = 1;
  counters = none_yet;
}

abbrev after_beat : Meta
after_beat = record nodes {
  datanodes = (11, node_at 11) ∷ (12, beaten (node_at 12) pulse digest 1000) ∷ [];
}

abbrev new_lease : NodeLease
new_lease = record { node_id = 12; boot_generation = 4; expires_at_unix_ms = 3500; revision = 7 }

beats : heartbeat cluster 2500 nodes (call 12) 1000 pulse digest ≡ ok (new_lease, after_beat)
unfolding heartbeat node_peer get require_node beat lease put beaten
beats = refl

heartbeat-replays_example :
    (before after : DataNode) × (get nodes.datanodes pulse.node_id ≡ some before)
    × (before.reconciled ≡ true)
    × (before.location.boot_generation ≡ pulse.boot_generation)
    × (before.sequence ≤ pulse.sequence)
    × (get after_beat.datanodes pulse.node_id ≡ some after)
    × (after.sequence ≡ pulse.sequence)
    × (heartbeat cluster 2500 after_beat (call 12) 1100 pulse digest ≡ ok (new_lease, after_beat))
heartbeat-replays_example =
    heartbeat-replays cluster 2500 nodes after_beat (call 12) 1000 1100 pulse digest new_lease beats

abbrev page : Report
page = record {
  node_id = 11;
  boot_generation = 4;
  report_id = 70;
  page_index = 0;
  receipts = copy_at 20 11 ∷ [];
  last_page = true;
  byte_size = 100;
}

abbrev drawn : ℕ → ℕ → ℕ
drawn b n = 300

abbrev after_report : Meta
after_report = record nodes {
  datanodes =
      (11, record (node_at 11) { page = 1; seen = 1000; reconciled = true })
      ∷ (12, node_at 12)
      ∷ [];
}

abbrev after_disable : Meta
after_disable = authorized nodes 12 false 1

disables : set_node_authorization cluster nodes admin 12 false 0 ≡ ok (1, after_disable)
unfolding set_node_authorization get policy_revision
disables = refl

set_node_authorization-cuts_off_example :
    (admin.admin ≡ true)
    × (require_node cluster after_disable 12 ≡ fault permission_denied)
    × ((limits : Liveness) (now : ℕ) (node : DataNode)
        → get after_disable.datanodes 12 ≡ some node
        → state_of limits now node ≡ node_unavailable)
    × (any_of (λ t. touches 12 t && is_under_way t.status.state) (all after_disable.tasks) ≡ false)
set_node_authorization-cuts_off_example =
    set_node_authorization-cuts_off cluster nodes after_disable admin 12 0 1 disables

abbrev deleting : Task
deleting = record copying { kind = delete_task; src = none; receipt = none; reserved = 0 }

abbrev retiring : Meta
retiring = record nodes { tasks = (90, deleting) ∷ [] }

abbrev secret : Task → Digest
secret t = digest

abbrev deletion : InternalRequest
deletion = record {
  user_id = 12;
  task_id = 90;
  task_capability = digest;
  action = delete_retired;
  source_node_id = none;
  destination_node_id = 12;
  block = block;
  lock_id = 90;
  service_epoch = 9;
}

authorizes : authorize_internal authority time secret cluster retiring (12 ∷ []) deletion ≡ ok 5000
unfolding authorize_internal require_node get authorize_task grants is_caller expected_node permits
    retired_at_node location_of put location_id is_expected all is_copying
authorizes = refl

authorize_internal-retired_example :
    (task : Task) × (get retiring.tasks deletion.task_id ≡ some task)
    × (task.kind ≡ delete_task)
    × (task.dest ≡ deletion.destination_node_id)
    × (5000 ≡ task.expires)
    × (time.now < task.expires)
    × (is_under_way task.status.state ≡ true)
    × (block_ref_eq deletion.block task.block ≡ true)
    × IsNode cluster (12 ∷ []) deletion.user_id task.dest
    × (location_of retiring deletion.block.block_version_id task.dest ≡ none)
    × (is_expected authority time retiring deletion.block.block_version_id task.dest ≡ false)
    × (any_of
          (is_copying authority time deletion.block.block_version_id task.dest)
          (all retiring.tasks)
        ≡ false)
authorize_internal-retired_example =
    authorize_internal-retired authority time secret cluster retiring (12 ∷ []) deletion 5000 refl
      authorizes

abbrev done : TaskReport
done = record {
  node_id = 12;
  boot_generation = 4;
  task = record {
    task_id = 90;
    state = finished;
    receipt = some (copy_at 90 12);
    error_reason = 0;
  };
}

abbrev after_copy : Meta
after_copy = record nodes {
  locations =
      put nodes.locations (location_id 50 12)
        (record { block = 50; node = 12; receipt = copy_at 90 12; inventory = 70 });
  tasks = (90, record copying { status = done.task; reserved = 0 }) ∷ [];
}
