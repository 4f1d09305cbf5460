-- ===== src/Control/Grants.antt =====
-- src/dfsha/control/distributed.py: `AuthorizeBlock`, which a data node asks before it writes, reads or
-- patches a block for a client. The control has leases, as access.py requires; `replayed` is what
-- `self.replay` gives for the user.
pub mod Reading
use dfsha.Prelude.{
  ℕ, ◌+◌, ◌-◌, ◌*◌, Bool, false, not, ◌&&◌, ◌||◌, Option, none, some, min, ltb, leb, ◌==◌,
  option_eq, is_some, any_of,
}
use dfsha.Common.Domain.{
  Result, ok, fault, ◌>>=◌, ◌>>◌, need, permission_denied, data_unavailable, unsupported_mode,
  invalid_argument,
}
use dfsha.Control.Table.{get}
use dfsha.Control.State.{
  Meta, User, Session, Upload, OperationRef, Fence, Handle, Snapshot, SnapshotRef, snapshot_ref_eq,
  BlockRef, block_ref_eq, Receipt, Digest, digest_eq, DataNode, Assignment, System, reads_mode,
}
use dfsha.Control.Leases.{Authority, Clock, expiry_hint}
use dfsha.Control.Placement.{Liveness, state_of, is_reachable, location_of}
use dfsha.Control.Handles.{found, handle_of, validate_read}
use dfsha.Control.Registry.{Cluster, require_node}
use dfsha.Control.Transfers.{held_operation}
use dfsha.Control.Patches.{
  PatchHeader, Caller, write_grant, read_grant, Capability, Decision, replay_decision, is_peer,
  caller_of, authorize_patch,
}

pub data BlockAction : Type 0 where
  write_data read_data patch_data no_action : BlockAction

-- `AuthorizeBlockRequest`; `patch` has the header of a patch
pub record BlockCall : Type 0 where
  pub caller : Caller
  pub action : BlockAction
  pub operation : OperationRef
  pub fence : Option Fence
  pub block : BlockRef
  pub handle_id : ℕ
  pub snapshot : SnapshotRef
  pub read_id : Option ℕ
  pub offset : ℕ
  pub length : ℕ
  pub capability : Digest
  pub patch : PatchHeader

-- the block is allocated, and to this node in this boot
unfoldable pub is_allocated : BlockRef → DataNode → Upload → Assignment → Bool
is_allocated block node op x =
    x.node == node.id
    && (x.generation == node.location.boot_generation
        && elim (get op.allocations block.block_index) [
          | none ↦ false
          | some b ↦ block_ref_eq b block
        ])

-- A handle that reads, and is free or busy with the named read.
unfoldable pub may_read : Handle → Option ℕ → Bool
may_read h read_id = reads_mode h.mode && (not (is_some h.busy) || option_eq h.busy read_id)

-- The block is of the asked snapshot, and has a copy at the node.
unfoldable pub has_block : Meta → BlockCall → Snapshot → DataNode → Bool
has_block tx req snap node =
    snapshot_ref_eq snap.ref req.snapshot
    && (any_of (block_ref_eq req.block) snap.blocks
        && is_some (location_of tx req.block.block_version_id node.id))

unfoldable pub is_inside : BlockCall → Bool
is_inside req =
    leb req.offset req.block.size_bytes
    && (ltb 0 req.length && leb req.length (req.block.size_bytes - req.offset))

module _ (sys : System) (a : Authority) (c : Clock) (limits : Liveness)
    (capability : Capability) where
  -- the decision on a block that was not written yet
  unfoldable pub first_write : Meta → User → Session → BlockCall → DataNode → Result Decision
  first_write tx user session req node = do
    op ← held_operation sys a c tx user session req.operation req.fence
    x ← found permission_denied (get tx.assignments req.block.block_version_id)
    need (is_allocated req.block node op x) permission_denied
    need (req.offset == 0 && req.length == req.block.size_bytes) unsupported_mode
    let due =
        capability user.id op.id req.block.block_version_id node.id node.location.boot_generation
          op.session write_grant
    need (digest_eq req.capability due) permission_denied
    ok (record {
      subject_id = some user.id;
      replay_receipt = none;
      block_size_bytes = op.block_size;
      replacement_size_bytes = 0;
      valid_until_unix_ms = min session.expires op.expires;
    })

  settle_write : Meta → User → Session → BlockCall → DataNode → Option Receipt → Result Decision
  settle_write tx user session req node none = first_write tx user session req node
  settle_write tx user session req node (some previous) = do
    need (previous.node_id == node.id) permission_denied
    ok (replay_decision (some user.id) previous session)

  -- the range of the file that a read of the block takes is inside the named read
  unfoldable pub inside_read : Meta → Handle → Snapshot → BlockCall → Option ℕ → Result (Unit {0})
  inside_read tx h snap req none = ok tt
  inside_read tx h snap req (some identity) = do
    lease ←
        validate_read tx h identity (req.block.block_index * snap.ref.block_size_bytes + req.offset)
          req.length
    ok tt

  unfoldable pub authorize_read : Meta → User → Session → BlockCall → DataNode → Result Decision
  authorize_read tx user session req node = do
    (h, snap) ← handle_of sys a c tx user session.id req.handle_id
    need (may_read h req.read_id) permission_denied
    inside_read tx h snap req req.read_id
    need (has_block tx req snap node) permission_denied
    need (is_inside req) invalid_argument
    let due =
        capability user.id h.id req.block.block_version_id node.id node.location.boot_generation
          h.session (read_grant req.offset req.length req.read_id)
    need (digest_eq req.capability due) permission_denied
    ok (record {
      subject_id = some user.id;
      replay_receipt = none;
      block_size_bytes = snap.ref.block_size_bytes;
      replacement_size_bytes = 0;
      valid_until_unix_ms = min session.expires (expiry_hint c h.deadline);
    })

  authorize_action :
      Meta
      → User
      → Session
      → BlockCall
      → DataNode
      → (User → Result (Option Receipt))
      → BlockAction
      → Result Decision
  authorize_action tx user session req node replayed write_data = do
    previous ← replayed user
    settle_write tx user session req node previous
  authorize_action tx user session req node replayed read_data =
      authorize_read tx user session req node
  authorize_action tx user session req node replayed _ = fault permission_denied

  -- a block for a client, unless it is a patch
  unfoldable pub authorize_plain :
      Cluster → Meta → BlockCall → (User → Result (Option Receipt)) → Result Decision
  unfolding authorize_action settle_write
  authorize_plain cluster tx req replayed = do
    need (is_peer cluster req.caller.peer req.caller.node_id) permission_denied
    (user, session) ← caller_of sys a c limits tx req.caller
    node ← found data_unavailable (get tx.datanodes req.caller.node_id)
    need (is_reachable (state_of limits c.now node)) data_unavailable
    authorize_action tx user session req node replayed req.action

  authorize_kind :
      Cluster → Meta → BlockCall → (User → Result (Option Receipt)) → BlockAction → Result Decision
  authorize_kind cluster tx req replayed patch_data =
      authorize_patch sys a c limits capability cluster tx req.caller req.patch req.capability
        replayed
  authorize_kind cluster tx req replayed _ = authorize_plain cluster tx req replayed

  -- `AuthorizeBlock`
  unfoldable pub authorize_block :
      Cluster → Meta → BlockCall → (User → Result (Option Receipt)) → Result Decision
  unfolding authorize_kind
  authorize_block cluster tx req replayed = do
    require_node cluster tx req.caller.node_id
    authorize_kind cluster tx req replayed req.action
