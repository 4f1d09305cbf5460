-- ===== src/Control/Registry.antt =====
-- src/dfsha/control/distributed.py: the data nodes as the control knows them (`RegisterNode`
-- and `Heartbeat`).
pub mod Liveness
use dfsha.Prelude.{
  ℕ, ◌+◌, Bool, true, false, ◌&&◌, Option, none, some, List, [], ◌∷◌, Text, ltb, leb, ◌==◌, list_eq,
  if◌then◌else◌, is_some,
}
use dfsha.Common.Domain.{Result, ok, fault, ◌>>=◌, ◌>>◌, need, permission_denied, version_conflict}
use dfsha.Control.Table.{Table, get, all, put, map_rows}
use dfsha.Control.State.{
  Meta, Upload, Digest, digest_eq, DataNode, BlockLocation, block_location_eq, Counters, Assignment,
  aborted, is_preparing,
}

-- An entry of the file of `authorized_nodes_path`.
pub record Allowed : Type 0 where
  pub identity : Text
  pub client_endpoint : Text
  pub private_endpoint : Text
  pub failure_domain : Text
  pub capacity_bytes : ℕ

-- Who calls: the name in the certificate, and the request's context.
pub record NodeCall : Type 0 where
  pub peer : Text
  pub user_id : ℕ
  pub service_epoch : ℕ

-- `self.allowed`, `self.system['epoch']`, and whether the metadata are in etcd.
pub record Cluster : Type 0 where
  pub allowed : Table Allowed
  pub epoch : ℕ
  pub etcd : Bool

-- `require_node`
unfoldable pub require_node : Cluster → Meta → ℕ → Result (Unit {0})
require_node cluster tx node_id =
    need
      (is_some (get cluster.allowed node_id)
        && elim (get tx.policies node_id) [ none ↦ true | some policy ↦ policy.enabled ])
      permission_denied

-- `node_peer`
unfoldable pub node_peer : Cluster → Meta → NodeCall → ℕ → Result (Unit {0})
node_peer cluster tx call node_id = do
  need
      (elim (get cluster.allowed node_id) [ none ↦ false | some a ↦ list_eq call.peer a.identity ]
        && (call.user_id == node_id && call.service_epoch == cluster.epoch))
      permission_denied
  require_node cluster tx node_id

pub record NodeLease : Type 0 where
  pub node_id : ℕ
  pub boot_generation : ℕ
  pub expires_at_unix_ms : ℕ
  pub revision : ℕ

-- `lease`; `suspect_ms` is of the configuration
unfoldable pub lease : ℕ → DataNode → NodeLease
lease suspect_ms node = record {
  node_id = node.id;
  boot_generation = node.location.boot_generation;
  expires_at_unix_ms = node.seen + suspect_ms;
  revision = node.sequence;
}

-- `__init__`: the metadata start with every node unseen.
unfoldable pub forget_node : DataNode → DataNode
forget_node node = record node { seen = 0; reconciled = false }

unfoldable pub start : Cluster → Meta → Meta
start cluster tx =
    if cluster.etcd then tx else record tx { datanodes = map_rows forget_node tx.datanodes }

-- A boot with a later generation ends the uploads that were to write to the node.
unfoldable pub abort_placed : ℕ → List Assignment → Table Upload → Table Upload
abort_placed node_id [] uploads = uploads
abort_placed node_id (a ∷ rest) uploads =
    let later =
      if a.node == node_id
      then elim (get uploads a.operation) [
        | none ↦ uploads
        | some op ↦
            if is_preparing op.state
            then put uploads a.operation (record op { state = aborted; reserved = 0 })
            else uploads
      ]
      else uploads in
    abort_placed node_id rest later

pub record Registration : Type 0 where
  pub node : BlockLocation
  pub capacity_bytes : ℕ
  pub free_bytes : ℕ
  pub inventory_id : ℕ

-- the row of a node that registers
unfoldable pub registered : Registration → ℕ → DataNode
registered req now = record {
  id = req.node.node_id;
  location = req.node;
  capacity = req.capacity_bytes;
  free = req.free_bytes;
  used = 0;
  active = 0;
  seen = now;
  sequence = 0;
  reconciled = false;
  authorization_disabled = false;
  inventory_id = req.inventory_id;
  page = 0;
  heartbeat_digest = none;
  counters = record {
    client_write_bytes = 0;
    client_read_bytes = 0;
    replica_write_bytes = 0;
    replica_read_bytes = 0;
  };
}

-- What `RegisterNode` makes of the row that it finds: an answer at once, or what goes before the
-- new row.
pub data Found : Type 0 where
  renewed : DataNode → Found
  replaced : Table Upload → Found

-- the same boot again
same_boot : Cluster → Meta → Registration → ℕ → DataNode → Result Found
same_boot cluster tx req now old =
    let again = old.inventory_id == req.inventory_id in
    need (block_location_eq old.location req.node) version_conflict
    >> (if cluster.etcd
        then ok (if again then renewed (record old { seen = now }) else replaced tx.uploads)
        else need again version_conflict >> ok (replaced tx.uploads))

unfoldable pub rejoin : Cluster → Meta → Registration → ℕ → DataNode → Result Found
unfolding same_boot
rejoin cluster tx req now old =
    need (leb old.location.boot_generation req.node.boot_generation) version_conflict
    >> (if req.node.boot_generation == old.location.boot_generation
        then same_boot cluster tx req now old
        else ok (replaced (abort_placed req.node.node_id (all tx.assignments) tx.uploads)))

unfoldable pub write_node : Meta → Registration → ℕ → Found → DataNode × Meta
write_node tx req now (renewed node) =
    (node, record tx { datanodes = put tx.datanodes req.node.node_id node })
write_node tx req now (replaced uploads) =
    let node = registered req now in
    (node, record tx { datanodes = put tx.datanodes req.node.node_id node; uploads = uploads })

-- `RegisterNode`
unfoldable pub register_node :
    Cluster → ℕ → Meta → NodeCall → ℕ → Registration → Result (NodeLease × Meta)
register_node cluster suspect_ms tx call now req = do
  node_peer cluster tx call req.node.node_id
  need
      (elim (get cluster.allowed req.node.node_id) [
        | none ↦ false
        | some allow ↦
            list_eq req.node.client_endpoint allow.client_endpoint
            && (list_eq req.node.private_endpoint allow.private_endpoint
                && (list_eq req.node.failure_domain allow.failure_domain
                    && (req.capacity_bytes == allow.capacity_bytes
                        && ltb 0 req.node.boot_generation)))
      ])
      permission_denied
  found ← elim (get tx.datanodes req.node.node_id) [
    | none ↦ ok (replaced tx.uploads)
    | some old ↦ rejoin cluster tx req now old
  ]
  let (node, tx') = write_node tx req now found
  ok (lease suspect_ms node, tx')

pub record Beat : Type 0 where
  pub node_id : ℕ
  pub boot_generation : ℕ
  pub sequence : ℕ
  pub free_bytes : ℕ
  pub used_bytes : ℕ
  pub active_streams : ℕ
  pub counters : Counters

unfoldable pub beaten : DataNode → Beat → Digest → ℕ → DataNode
beaten node req digest now = record node {
  seen = now;
  sequence = req.sequence;
  free = req.free_bytes;
  used = req.used_bytes;
  active = req.active_streams;
  heartbeat_digest = some digest;
  counters = req.counters;
}

abbrev digest_is : Option Digest → Digest → Bool
digest_is none d = false
digest_is (some e) d = digest_eq e d

-- An identical heartbeat may come again after its answer was lost.
same_beat : ℕ → Meta → Beat → Digest → DataNode → Result (NodeLease × Meta)
same_beat suspect_ms tx req digest node = do
  need (digest_is node.heartbeat_digest digest) version_conflict
  ok (lease suspect_ms node, tx)

-- The row that may take this heartbeat.
may_beat : Beat → DataNode → Bool
may_beat req node =
    node.reconciled
    && (node.location.boot_generation == req.boot_generation && leb node.sequence req.sequence)

-- `Heartbeat`, of the row that it finds; `digest` is `intent(req)`
unfoldable pub beat : ℕ → Meta → ℕ → Beat → Digest → Option DataNode → Result (NodeLease × Meta)
unfolding same_beat may_beat
beat suspect_ms tx now req digest none = fault version_conflict
beat suspect_ms tx now req digest (some node) =
    let seen = beaten node req digest now in
    need (may_beat req node) version_conflict
    >> (if req.sequence == node.sequence
        then same_beat suspect_ms tx req digest node
        else ok
            (lease suspect_ms seen, record tx { datanodes = put tx.datanodes req.node_id seen }))

unfoldable pub heartbeat :
    Cluster → ℕ → Meta → NodeCall → ℕ → Beat → Digest → Result (NodeLease × Meta)
heartbeat cluster suspect_ms tx call now req digest = do
  node_peer cluster tx call req.node_id
  beat suspect_ms tx now req digest (get tx.datanodes req.node_id)
