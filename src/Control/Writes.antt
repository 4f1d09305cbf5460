-- ===== src/Control/Writes.antt =====
-- src/dfsha/control/access.py: the parts of a write that `BeginWrite` tests, `write_operation`,
-- `CommitWrite` and `AbortWrite`; and src/dfsha/client/access.py, `begin_write`, which cuts the payload.
-- A list index past the end, which Python raises on, is SERVICE_UNAVAILABLE.
pub mod Parts
pub mod Commit
pub mod Published
use dfsha.Prelude.{
  ℕ, zero, suc, ◌+◌, ◌-◌, ◌/◌, ◌%◌, Bool, true, false, not, ◌&&◌, ◌||◌, Option, none, some, List,
  [], ◌∷◌, ◌++◌, ltb, leb, ◌==◌, max, min, option_eq, if◌then◌else◌, is_some, length, take, drop,
  get_elem?, set, all_of,
}
use dfsha.Common.Domain.{
  Result, ok, fault, ◌>>=◌, ◌>>◌, need, not_found, permission_denied, idempotency_mismatch,
  operation_expired, handle_busy, version_conflict, lock_expired, stale_handle, data_unavailable,
  checksum_mismatch, invalid_argument, service_unavailable,
}
use dfsha.Control.Table.{get, put}
use dfsha.Control.State.{
  Meta, User, Node, Handle, Snapshot, SnapshotRef, BlockRef, block_ref_eq, Digest, digest_eq,
  Upload, OperationRef, operation_ref_eq, committed, aborted, is_preparing, is_committed, Write,
  WritePart, WrittenPart, Fence, Receipt, receipt_eq, System, DataNode, Assignment,
}
use dfsha.Control.Namespace.{bump}
use dfsha.Control.Placement.{Liveness, state_of, is_reachable, location_of}
use dfsha.Control.Leases.{Authority, Clock, validate, same_fence, release_operation}
use dfsha.Control.Handles.{found, writable}

module _ (sha256 : List ℕ → Digest) where
  -- `begin_write`, its loop; a round takes a byte at least, so the payload's length is fuel enough
  unfoldable pub split_parts : ℕ → ℕ → ℕ → List ℕ → ℕ → List WritePart
  split_parts zero size offset payload cursor = []
  split_parts (suc fuel) size offset payload cursor =
      let absolute = offset + cursor in
      let taken = min (length payload - cursor) (size - absolute % size) in
      let part : WritePart = record {
        block_index = absolute / size;
        block_offset = absolute % size;
        delta_offset = cursor;
        length = taken;
        delta_sha256 = sha256 (take taken (drop cursor payload));
      } in
      let rest = split_parts fuel size offset payload (cursor + taken) in
      if ltb cursor (length payload) then part ∷ rest else []

-- `BeginWrite`, one round of the loop over the parts
unfoldable pub is_next : ℕ → ℕ → ℕ → ℕ → WritePart → Bool
is_next size offset total cursor part =
    let absolute = offset + cursor in
    let expected = min (total - cursor) (size - absolute % size) in
    ltb 0 expected
    && (part.block_index == absolute / size
        && (part.block_offset == absolute % size
            && (part.delta_offset == cursor
                && (part.length == expected && part.delta_sha256.size == 32))))

-- the loop; the answer is the last `cursor`
unfoldable pub check_parts : ℕ → ℕ → ℕ → ℕ → List WritePart → Result ℕ
check_parts size offset total cursor [] = ok cursor
check_parts size offset total cursor (part ∷ parts) = do
  need (is_next size offset total cursor part) invalid_argument
  check_parts size offset total (cursor + part.length) parts

-- the tests of the parts, in the order of the source; `sha_empty` is the digest of no bytes
unfoldable pub accept_parts : Digest → ℕ → ℕ → ℕ → Digest → List WritePart → Result (Unit {0})
accept_parts sha_empty size offset total delta_sha256 parts = do
  need (leb (length parts) 5) invalid_argument
  cursor ← check_parts size offset total 0 parts
  need (cursor == total && (ltb 0 total || digest_eq delta_sha256 sha_empty)) invalid_argument

-- `base == latest` of two blocks that may be missing
unfoldable pub same_block : Option BlockRef → Option BlockRef → Bool
same_block none none = true
same_block (some x) (some y) = block_ref_eq x y
same_block _ _ = false

-- The blocks of the parts are those of the handle's snapshot still.
unfoldable pub unchanged : List BlockRef → List BlockRef → List WritePart → Bool
unchanged own current parts =
    all_of
      (λ (p : WritePart).
        same_block (get_elem? own p.block_index) (get_elem? current p.block_index))
      parts

-- `BlockChange`
pub record BlockChange : Type 0 where
  pub base : Option BlockRef
  pub replacement : BlockRef
  pub receipts : List Receipt

-- `CommitWriteRequest`
pub record CommitWrite : Type 0 where
  pub operation : OperationRef
  pub handle_id : ℕ
  pub changes : List BlockChange
  pub fences : List Fence
  pub expected_handle_revision : ℕ

-- the request's fences are those of the operation; an intent leaves out when a fence expires
unfoldable pub same_fences : List Fence → List Fence → Bool
same_fences [] [] = true
same_fences (x ∷ xs) (y ∷ ys) = same_fence x y && same_fences xs ys
same_fences _ _ = false

-- `blocks.append(…)` or `blocks[index] = …`
unfoldable pub replace_block : ℕ → BlockRef → List BlockRef → Result (List BlockRef)
replace_block index b blocks =
    if index == length blocks
    then ok (blocks ++ (b ∷ []))
    else if ltb index (length blocks)
    then ok (set blocks index b)
    else fault service_unavailable

-- the replacement is the one that was planned
unfoldable pub is_planned : ℕ → BlockRef → BlockRef → Bool
is_planned index given planned =
    given.block_version_id == planned.block_version_id
    && (given.file_id == planned.file_id
        && (given.block_index == index && given.size_bytes == planned.size_bytes))

unfoldable pub is_only : List Receipt → Receipt → Bool
is_only (r ∷ []) stored = receipt_eq r stored
is_only _ stored = false

-- `write_operation`'s tests of the record of the operation
unfoldable pub is_write_of : User → ℕ → Upload → Bool
is_write_of user session op = is_some op.write && (op.user == user.id && op.session == session)

module _ (sys : System) (a : Authority) (c : Clock) (limits : Liveness) where
  unfoldable pub validate_all : Meta → ℕ → List Fence → Result (Unit {0})
  validate_all tx session [] = ok tt
  validate_all tx session (f ∷ fs) = do lock ← validate a c tx session f; validate_all tx session fs

  -- `write_operation`; the answer is the operation, its `write`, the handle, the node and its snapshot
  unfoldable pub write_operation :
      Meta → User → ℕ → OperationRef → Result (Upload × Write × Handle × Node × Snapshot)
  write_operation tx user session reference = do
    op ← found permission_denied (get tx.uploads reference.operation_id)
    need (is_write_of user session op) permission_denied
    need (operation_ref_eq op.operation reference) idempotency_mismatch
    w ← found permission_denied op.write
    need (is_preparing op.state && w.control_epoch == a.epoch) operation_expired
    handle_id ← found stale_handle op.handle
    (h, snap, node, current) ← writable sys a c tx user session handle_id
    need (option_eq h.busy (some op.id) && h.revision == w.handle_revision) handle_busy
    validate_all tx session w.fences
    ok (op, w, h, node, current)

  -- the copy that a part has: it is confirmed at its node, which has not started again
  unfoldable pub is_stored : Meta → BlockRef → Assignment → DataNode → Bool
  is_stored tx b assignment dn =
      is_some (location_of tx b.block_version_id dn.id)
      && (is_reachable (state_of limits c.now dn)
          && assignment.generation == dn.location.boot_generation)

  -- one round of the loop of `CommitWrite`
  unfoldable pub commit_part :
      Meta → WrittenPart → BlockChange → List BlockRef → Result (List BlockRef)
  commit_part tx part change blocks = do
    need (same_block (get_elem? blocks part.index) part.base && same_block change.base part.base)
        version_conflict
    need (is_planned part.index change.replacement part.replacement) version_conflict
    assignment ← found not_found (get tx.assignments change.replacement.block_version_id)
    dn ← found not_found (get tx.datanodes assignment.node)
    ref ← found data_unavailable (get tx.blocks change.replacement.block_version_id)
    need (block_ref_eq ref change.replacement && is_stored tx change.replacement assignment dn)
        data_unavailable
    stored ← found checksum_mismatch (get tx.receipts change.replacement.block_version_id)
    need (is_only change.receipts stored) checksum_mismatch
    replace_block part.index change.replacement blocks

  unfoldable pub commit_parts :
      Meta → List WrittenPart → List BlockChange → List BlockRef → Result (List BlockRef)
  commit_parts tx (p ∷ ps) (ch ∷ chs) blocks = do
    blocks' ← commit_part tx p ch blocks
    commit_parts tx ps chs blocks'
  commit_parts tx _ _ blocks = ok blocks

  module _ (manifest_hash : List BlockRef → Digest) where
    -- the reference of the new snapshot; no digest of the whole file is in it
    unfoldable pub written_ref : ℕ → Upload → SnapshotRef → Node → List BlockRef → SnapshotRef
    written_ref root op current node blocks = record {
      file_id = node.id;
      content_epoch = op.epoch;
      file_version = current.file_version + 1;
      manifest_root = root;
      size_bytes = max current.size_bytes op.total;
      manifest_sha256 = manifest_hash blocks;
      file_sha256 = record { size = 0; value = 0 };
      block_size_bytes = op.block_size;
    }

    -- what `CommitWrite` writes before it releases the operation
    unfoldable pub publish_write :
        Meta → ℕ → Upload → Handle → Node → SnapshotRef → List BlockRef → Meta
    publish_write tx root op h node ref blocks = record tx {
      snapshots =
          put tx.snapshots root (record { id = root; file = node.id; ref = ref; blocks = blocks });
      nodes = put tx.nodes node.id (bump (record node { snapshot = some root }));
      handles = put tx.handles h.id (record h { snapshot = root; revision = h.revision + 1 });
      uploads =
          put tx.uploads op.id (record op { state = committed; result = some ref; reserved = 0 });
    }

    -- `CommitWrite`; `root` is the uuid drawn for the snapshot
    unfoldable pub commit_write : Meta → ℕ → User → ℕ → CommitWrite → Result (SnapshotRef × Meta)
    commit_write tx root user session req = do
      (op, w, h, node, current) ← write_operation tx user session req.operation
      need (req.handle_id == h.id && req.expected_handle_revision == h.revision) version_conflict
      need (same_fences req.fences w.fences) lock_expired
      need (length req.changes == length w.parts) version_conflict
      blocks ← commit_parts tx w.parts req.changes current.blocks
      need (not w.growing || current.ref.size_bytes == w.base_size) version_conflict
      let ref = written_ref root op current.ref node blocks
      ok (ref, release_operation op (publish_write tx root op h node ref blocks))

-- `AbortWrite`
unfoldable pub abort_write : Meta → User → ℕ → OperationRef → Result Meta
abort_write tx user session reference = do
  op ← found permission_denied (get tx.uploads reference.operation_id)
  need (is_write_of user session op) permission_denied
  need (operation_ref_eq op.operation reference) idempotency_mismatch
  need (not (is_committed op.state)) version_conflict
  let op' : Upload = record op { state = aborted; reserved = 0 }
  ok (release_operation op' (record tx { uploads = put tx.uploads op.id op' }))
