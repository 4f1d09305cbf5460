-- ===== src/Control/Durability.antt =====
-- src/dfsha/control/distributed.py: `ReportDurable` of a whole block, and `verify_seal`. `replayed` is
-- what `self.replay` gives; the answer says whether `self.remember` follows.
pub mod Receipts
use dfsha.Prelude.{
  ℕ, Bool, true, false, not, ◌&&◌, Option, none, some, List, ltb, leb, ◌==◌, list_eq, any_of,
  all_of,
}
use dfsha.Common.Domain.{
  Result, ok, ◌>>=◌, ◌>>◌, need, version_conflict, unauthenticated, idempotency_mismatch,
  checksum_mismatch, data_unavailable,
}
use dfsha.Control.Table.{get, all, put}
use dfsha.Control.State.{
  Meta, User, Session, Upload, OperationRef, Fence, BlockRef, block_ref_eq, Receipt, receipt_eq,
  DataNode, Assignment, Location, System,
}
use dfsha.Control.Leases.{Authority, Clock}
use dfsha.Control.Handles.{found}
use dfsha.Control.Registry.{Cluster, NodeCall, node_peer, require_node}
use dfsha.Control.Copies.{confirm_location}
use dfsha.Control.Transfers.{held_operation}

-- `ReportDurableRequest`; `client_user` and `client_epoch` are of the client's context
pub record DurableReport : Type 0 where
  pub receipt : Receipt
  pub client_user : ℕ
  pub client_epoch : ℕ
  pub operation : OperationRef
  pub fence : Option Fence

-- the node that was to write the block, in the boot that it was to write it in
unfoldable pub is_assigned : Receipt → DataNode → Upload → Assignment → Bool
is_assigned r node op x =
    x.node == node.id
    && (x.generation == r.boot_generation
        && (x.operation == op.id && (elim (get op.allocations r.block.block_index) [
          | none ↦ false
          | some b ↦ block_ref_eq b r.block
        ])))

unfoldable pub is_whole : Receipt → DataNode → Assignment → Bool
is_whole r node x =
    list_eq r.failure_domain node.location.failure_domain
    && (r.ciphertext_sha256.size == 32
        && (ltb r.block.size_bytes r.stored_size_bytes && leb r.stored_size_bytes x.reserved))

unfoldable pub may_report : ℕ → DurableReport → User → Bool
may_report epoch req user = not user.disabled && req.client_epoch == epoch

unfoldable pub store_receipt : Meta → Receipt → DataNode → Meta
store_receipt tx r node =
    confirm_location
      (record tx {
        blocks = put tx.blocks r.block.block_version_id r.block;
        receipts = put tx.receipts r.block.block_version_id r;
      })
      r node.inventory_id

module _ (sys : System) (a : Authority) (c : Clock) where
  -- the upload's session, where both are there
  unfoldable pub session_of : Meta → ℕ → Result Session
  session_of tx identity = do
    op ← found unauthenticated (get tx.uploads identity)
    session ← found unauthenticated (get tx.sessions op.session)
    need (not session.revoked && ltb c.now session.expires) unauthenticated
    ok session

  -- the writes of a receipt that is new
  unfoldable pub first_report : Meta → DurableReport → DataNode → User → Result (Bool × Meta)
  first_report tx req node user = do
    let r = req.receipt
    session ← session_of tx r.operation_id
    op ← held_operation sys a c tx user session req.operation req.fence
    x ← found version_conflict (get tx.assignments r.block.block_version_id)
    need (is_assigned r node op x) version_conflict
    need (is_whole r node x) checksum_mismatch
    ok (true, store_receipt tx r node)

  -- a receipt that is in the ledger must be this one
  unfoldable pub settle_report :
      Meta → DurableReport → DataNode → User → Option Receipt → Result (Bool × Meta)
  settle_report tx req node user none = first_report tx req node user
  settle_report tx req node user (some previous) = do
    need (receipt_eq previous req.receipt) idempotency_mismatch
    ok (false, tx)

  -- `ReportDurable`
  unfoldable pub report_durable :
      Cluster → Meta → NodeCall → DurableReport → Result (Option Receipt) → Result (Bool × Meta)
  report_durable cluster tx call req replayed = do
    node_peer cluster tx call req.receipt.node_id
    require_node cluster tx req.receipt.node_id
    node ← found version_conflict (get tx.datanodes req.receipt.node_id)
    need (req.receipt.boot_generation == node.location.boot_generation) version_conflict
    user ← found unauthenticated (get tx.users req.client_user)
    need (may_report cluster.epoch req user) unauthenticated
    previous ← replayed
    settle_report tx req node user previous

-- `verify_seal`: each block is stored, and has a copy
unfoldable pub verify_seal : Meta → List BlockRef → Result (Unit {0})
verify_seal tx blocks =
    need
      (all_of
        (λ (b : BlockRef).
          elim (get tx.blocks b.block_version_id) [ none ↦ false | some ref ↦ block_ref_eq ref b ]
          && any_of (λ (l : Location). l.block == b.block_version_id) (all tx.locations))
        blocks)
      data_unavailable
