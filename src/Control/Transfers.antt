-- ===== src/Control/Transfers.antt =====
-- src/dfsha/control/access.py: the uploads, once a lock on the whole file goes with each (`BeginUpload`,
-- `operation`, `RenewUpload`, `CommitUpload`, `AbortUpload`, and `remove`), with the test of `CommitUpload` of
-- src/dfsha/control/distributed.py. A commit tests the upload as
-- the base class does and has it tested again by that class's own command.
pub mod Holding
use dfsha.Prelude.{
  ℕ, ◌+◌, ◌-◌, ◌*◌, Bool, true, false, not, Option, none, some, List, [], ◌∷◌, Text, is_some,
  all_of, ◌==◌, ◌&&◌, min, if◌then◌else◌,
}
use dfsha.Common.Domain.{
  Result, ok, ◌>>=◌, ◌>>◌, need, permission_denied, not_found, data_unavailable,
}
use dfsha.Control.Table.{get, all, put}
use dfsha.Control.State.{
  Meta, User, Session, Upload, Snapshot, SnapshotRef, BlockRef, Digest, OperationRef, PageReceipt,
  System, Config, Lock, Fence, is_preparing,
}
use dfsha.Control.Paths.{PathRef}
use dfsha.Control.Leases.{
  Authority, Clock, LockOwner, acquire, message, validate, release_operation,
}
use dfsha.Control.Placement.{Liveness, state_of, is_reachable}
use dfsha.Control.Handles.{found}
use dfsha.Control.Namespace.{remove}
use dfsha.Control.Uploads.{BeginUpload, begin_upload, operation, abort_upload}
use dfsha.Control.Uploads.Publish.{commit_upload}

-- what `BeginUpload` writes over its base class
unfoldable pub hold_file : Authority → Clock → Upload → Lock → Meta → Upload × Meta
hold_file a c op lock tx =
    let lock' : Lock = record lock { deadline = c.clock + 300 * 1000; active = op.id ∷ [] } in
    let op' : Upload = record op { locks = lock.id ∷ []; full_fence = some (message a c lock') } in
    (op', record tx { locks = put tx.locks lock.id lock'; uploads = put tx.uploads op.id op' })

module _ (nfc : Text → Text) (sys : System) (cfg : Config)
    (reserve_upload : Meta → ℕ → ℕ → Result ℕ) (a : Authority) (c : Clock) where
  -- `BeginUpload`; the uuids are drawn for the upload, its file and its lock
  unfoldable pub begin_locked :
      Meta → ℕ → ℕ → ℕ → User → Session → BeginUpload → Result (Upload × Meta)
  begin_locked tx fresh fresh_file fresh_lock user session req = do
    (op, begun) ← begin_upload nfc sys cfg reserve_upload tx c.now fresh fresh_file user session req
    let owner : LockOwner = record { id = op.id; file = op.file; session = session.id }
    (lock, locked) ← acquire a c fresh_lock owner [] true true true begun
    ok (hold_file a c op lock locked)

module _ (sys : System) (a : Authority) (c : Clock) where
  -- the fence of the whole file, where the upload has one
  unfoldable pub validate_full : Meta → ℕ → Option Fence → Result (Unit {0})
  validate_full tx session none = ok tt
  validate_full tx session (some f) = do lock ← validate a c tx session f; ok tt

  -- `operation`
  unfoldable pub held_operation :
      Meta → User → Session → OperationRef → Option Fence → Result Upload
  held_operation tx user session reference fence = do
    op ← operation sys tx c.now user session reference fence
    need (not (is_some op.write)) permission_denied
    validate_full tx session.id op.full_fence
    ok op

  -- `RenewUpload`: the lock lives as long as the upload
  unfoldable pub renew_locked : Meta → User → Session → OperationRef → Result (Upload × Meta)
  renew_locked tx user session reference = do
    op ← held_operation tx user session reference none
    let op' : Upload = record op { expires = min (c.now + 300000) op.max_expires }
    fence ← found not_found op.full_fence
    lock ← validate a c tx session.id fence
    ok (
      op',
      record tx {
        uploads = put tx.uploads op.id op';
        locks = put tx.locks lock.id (record lock { deadline = c.clock + (op'.expires - c.now) });
      },
    )

  -- the version of the file that a commit writes: one above that of the base
  unfoldable pub next_version : Meta → Upload → Result ℕ
  next_version tx op = elim op.base [
    | none ↦ ok 1
    | some base ↦ elim (get tx.snapshots base) [
      | none ↦ ok 1
      | some s ↦ ok (s.ref.file_version + 1)
    ]
  ]

  -- what `CommitUpload` writes over its base class
  unfoldable pub renumber : Meta → ℕ → SnapshotRef → Snapshot → Upload → SnapshotRef × Meta
  renumber tx version ref snapshot op =
      let ref' : SnapshotRef = record ref { file_version = version } in
      let op' : Upload = record op { result = some ref' } in
      (
        ref',
        release_operation op' (record tx {
          snapshots = put tx.snapshots ref.manifest_root (record snapshot { ref = ref' });
          uploads = put tx.uploads op.id op';
        }),
      )

  -- `CommitUpload` of control/distributed.py: the block has its node, which has not started again
  unfoldable pub is_placed : Liveness → Meta → BlockRef → Bool
  is_placed limits tx block = elim (get tx.assignments block.block_version_id) [
    | none ↦ false
    | some x ↦ elim (get tx.datanodes x.node) [
      | none ↦ false
      | some n ↦
          is_reachable (state_of limits c.now n) && n.location.boot_generation == x.generation
    ]
  ]

  module _ (manifest_hash : List BlockRef → Digest) (limits : Liveness) where
    -- `CommitUpload`
    unfoldable pub commit_locked :
        Meta → ℕ → User → Session → OperationRef → Fence → PageReceipt → Result (SnapshotRef × Meta)
    commit_locked tx fresh user session reference fence seal = do
      before ← found not_found (get tx.uploads reference.operation_id)
      version ← next_version tx before
      op ← held_operation tx user session reference (some fence)
      need (all_of (is_placed limits tx) (all op.allocations)) data_unavailable
      (ref, committed) ←
          commit_upload sys manifest_hash tx c.now fresh user session reference fence seal
      snapshot ← found not_found (get committed.snapshots ref.manifest_root)
      op' ← found not_found (get committed.uploads reference.operation_id)
      ok (renumber committed version ref snapshot op')

-- `AbortUpload`
unfoldable pub abort_locked : Meta → User → Session → OperationRef → Result Meta
abort_locked tx user session reference = do
  aborted ← abort_upload tx user session reference
  op ← found not_found (get aborted.uploads reference.operation_id)
  ok (release_operation op aborted)

-- the locks of the uploads that are over go
unfoldable pub release_ended : List Upload → Meta → Meta
release_ended [] tx = tx
release_ended (op ∷ rest) tx =
    release_ended rest (if is_preparing op.state then tx else release_operation op tx)

-- `remove`
unfoldable pub remove_locked :
    (Text → Text) → System → Meta → ℕ → User → PathRef → Bool → Result (ℕ × Meta)
remove_locked nfc sys tx now user path directory = do
  (revision, removed) ← remove nfc sys tx now user path directory
  ok (revision, release_ended (all removed.uploads) removed)
