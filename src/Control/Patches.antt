-- ===== src/Control/Patches.antt =====
-- src/dfsha/control/patch_authority.py: what a data node asks before it patches a block, and the
-- receipt that it sends after (`validate_header`, `authorize_patch`, `report_patch`). `replayed` is
-- what `app.replay` gives for the user, and `capability` is the keyed hash of `app.capability`.
pub mod Accepting
pub mod Planned
pub mod Committing
use dfsha.Prelude.{
  ℕ, Bool, true, false, not, ◌&&◌, Option, none, some, Text, min, ltb, leb, ◌==◌, list_eq, any_of,
  first_of?,
}
use dfsha.Common.Domain.{
  Result, ok, ◌>>=◌, ◌>>◌, need, permission_denied, unauthenticated, idempotency_mismatch,
  lock_expired, data_unavailable, version_conflict, checksum_mismatch, not_found,
}
use dfsha.Control.Table.{get}
use dfsha.Control.State.{
  Meta, User, Session, Upload, OperationRef, Write, WrittenPart, Fence, BlockRef, Receipt,
  receipt_eq, Digest, digest_eq, DataNode, Assignment, System,
}
use dfsha.Control.Auth.{authenticate}
use dfsha.Control.Leases.{Authority, Clock, same_fence, expiry_hint}
use dfsha.Control.Placement.{Liveness, state_of, is_reachable, row_of}
use dfsha.Control.Handles.{found}
use dfsha.Control.Registry.{Cluster, NodeCall, node_peer, require_node}
use dfsha.Control.Writes.{same_block, write_operation}
use dfsha.Control.Durability.{session_of, store_receipt}

-- `PatchBlockHeader`; `base` is none where it has no version
pub record PatchHeader : Type 0 where
  pub operation : OperationRef
  pub base : Option BlockRef
  pub new_block_version_id : ℕ
  pub block_offset : ℕ
  pub delta_length : ℕ
  pub delta_sha256 : Digest
  pub fence : Fence

-- The data node's call with the client's context and token.
pub record Caller : Type 0 where
  pub peer : Text
  pub node_id : ℕ
  pub user_id : ℕ
  pub service_epoch : ℕ
  pub token : ℕ

-- The last part of a capability's binding.
pub data Grant : Type 0 where
  write_grant patch_grant : Grant
  read_grant : ℕ → ℕ → Option ℕ → Grant

-- `capability`: the user, the operation or handle, the block's version, the node, its boot
-- generation, the session, and the action
abbrev pub Capability : Type 0
Capability = ℕ → ℕ → ℕ → ℕ → ℕ → ℕ → Grant → Digest

-- `AuthorizationDecision`
pub record Decision : Type 0 where
  pub subject_id : Option ℕ
  pub replay_receipt : Option Receipt
  pub block_size_bytes : ℕ
  pub replacement_size_bytes : ℕ
  pub valid_until_unix_ms : ℕ

unfoldable pub replay_decision : Option ℕ → Receipt → Session → Decision
replay_decision subject receipt session = record {
  subject_id = subject;
  replay_receipt = some receipt;
  block_size_bytes = 0;
  replacement_size_bytes = 0;
  valid_until_unix_ms = session.expires;
}

-- the certificate is the node's
unfoldable pub is_peer : Cluster → Text → ℕ → Bool
is_peer cluster peer node_id = elim (get cluster.allowed node_id) [
  | none ↦ false
  | some x ↦ list_eq peer x.identity
]

-- The header is that of the planned part.
unfoldable pub describes_part : PatchHeader → WrittenPart → Bool
describes_part header part =
    same_block header.base part.base
    && (header.block_offset == part.delta.block_offset
        && (header.delta_length == part.delta.length
            && digest_eq header.delta_sha256 part.delta.delta_sha256))

-- The node was to receive the part, in this boot.
unfoldable pub receives : DataNode → ℕ → Assignment → Bool
receives node operation x =
    x.node == node.id && (x.operation == operation && x.generation == node.location.boot_generation)

-- The receipt is one of the planned replacement, at the node.
unfoldable pub is_patched : Receipt → ℕ → BlockRef → DataNode → Assignment → Bool
is_patched r operation expected node x =
    r.operation_id == operation
    && (r.block.file_id == expected.file_id
        && (r.block.block_version_id == expected.block_version_id
            && (r.block.block_index == expected.block_index
                && (r.block.size_bytes == expected.size_bytes
                    && (r.block.plaintext_sha256.size == 32
                        && (r.ciphertext_sha256.size == 32
                            && (list_eq r.failure_domain node.location.failure_domain
                                && (ltb r.block.size_bytes r.stored_size_bytes
                                    && leb r.stored_size_bytes x.reserved))))))))

module _ (sys : System) (a : Authority) (c : Clock) (limits : Liveness) where
  -- `authenticated`
  unfoldable pub caller_of : Meta → Caller → Result (User × Session)
  caller_of tx caller = do
    (user, session) ← authenticate tx c.now caller.token
    need (caller.user_id == user.id && caller.service_epoch == sys.epoch) unauthenticated
    ok (user, session)

  -- `validate_header`; the answer is the operation, its write, the part and the assignment
  unfoldable pub validate_header :
      Meta
      → User
      → Session
      → PatchHeader
      → DataNode
      → Result (Upload × Write × WrittenPart × Assignment)
  validate_header tx user session header node = do
    (op, w, h, row, current) ← write_operation sys a c limits tx user session.id header.operation
    part ← found permission_denied (
        first_of?
          (λ (p : WrittenPart). p.replacement.block_version_id == header.new_block_version_id)
          w.parts)
    need (describes_part header part) idempotency_mismatch
    need (any_of (λ (f : Fence). same_fence header.fence f) w.fences) lock_expired
    x ← found permission_denied (get tx.assignments header.new_block_version_id)
    need (receives node op.id x) permission_denied
    ok (op, w, part, x)

  module _ (capability : Capability) where
    -- the decision on a patch that was not done yet
    unfoldable pub first_patch :
        Meta → User → Session → PatchHeader → Digest → DataNode → Result Decision
    first_patch tx user session header asked node = do
      (op, w, part, x) ← validate_header tx user session header node
      let due =
          capability user.id op.id part.replacement.block_version_id node.id
            node.location.boot_generation op.session patch_grant
      need (digest_eq asked due) permission_denied
      h ← found not_found (row_of tx.handles op.handle)
      ok (record {
        subject_id = some user.id;
        replay_receipt = none;
        block_size_bytes = op.block_size;
        replacement_size_bytes = part.replacement.size_bytes;
        valid_until_unix_ms = min session.expires (expiry_hint c h.deadline);
      })

    -- a receipt that is in the ledger is answered to its own node
    settle_patch :
        Meta → User → Session → PatchHeader → Digest → DataNode → Option Receipt → Result Decision
    settle_patch tx user session header asked node none =
        first_patch tx user session header asked node
    settle_patch tx user session header asked node (some previous) = do
      need (previous.node_id == node.id) permission_denied
      ok (replay_decision none previous session)

    -- `authorize_patch`
    unfoldable pub authorize_patch :
        Cluster
        → Meta
        → Caller
        → PatchHeader
        → Digest
        → (User → Result (Option Receipt))
        → Result Decision
    unfolding settle_patch
    authorize_patch cluster tx caller header asked replayed = do
      need (is_peer cluster caller.peer caller.node_id) permission_denied
      (user, session) ← caller_of tx caller
      node ← found data_unavailable (get tx.datanodes caller.node_id)
      need (is_reachable (state_of limits c.now node)) data_unavailable
      previous ← replayed user
      settle_patch tx user session header asked node previous

  -- the writes of a receipt that is new
  unfoldable pub first_patched :
      Meta → Receipt → PatchHeader → DataNode → User → Result (Bool × Meta)
  first_patched tx r header node user = do
    session ← session_of sys a c tx r.operation_id
    (op, w, part, x) ← validate_header tx user session header node
    need (is_patched r op.id part.replacement node x) checksum_mismatch
    ok (true, store_receipt tx r node)

  settle_patched :
      Meta → Receipt → PatchHeader → DataNode → User → Option Receipt → Result (Bool × Meta)
  settle_patched tx r header node user none = first_patched tx r header node user
  settle_patched tx r header node user (some previous) = do
    need (receipt_eq previous r) idempotency_mismatch
    ok (false, tx)

  -- `report_patch`; the answer says whether `app.remember` follows
  unfoldable pub report_patch :
      Cluster
      → Meta
      → NodeCall
      → Receipt
      → PatchHeader
      → ℕ
      → ℕ
      → (User → Result (Option Receipt))
      → Result (Bool × Meta)
  unfolding settle_patched
  report_patch cluster tx call r header client_user client_epoch replayed = do
    node_peer cluster tx call r.node_id
    require_node cluster tx r.node_id
    node ← found version_conflict (get tx.datanodes r.node_id)
    need (r.boot_generation == node.location.boot_generation) version_conflict
    user ← found unauthenticated (get tx.users client_user)
    need (not user.disabled && client_epoch == cluster.epoch) unauthenticated
    previous ← replayed user
    settle_patched tx r header node user previous
