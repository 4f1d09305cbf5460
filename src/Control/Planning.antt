-- ===== src/Control/Planning.antt =====
-- src/dfsha/control/access.py: `BeginWrite`, which tests a write, holds the locks on its blocks and
-- plans its parts. A file always has a parent.
pub mod Extends
pub mod Begun
use dfsha.Prelude.{
  ℕ, ◌+◌, Bool, not, ◌||◌, Option, none, some, List, [], ◌∷◌, ◌++◌, map, ltb, leb, ◌==◌, max,
  if◌then◌else◌, is_some, length,
}
use dfsha.Common.Domain.{
  Result, ok, fault, ◌>>=◌, ◌>>◌, need, not_found, handle_busy, version_conflict, invalid_argument,
  limit_exceeded, sparse_write_unsupported,
}
use dfsha.Control.Table.{Table, put}
use dfsha.Control.State.{
  WritePart, Meta, User, Session, Node, Handle, Snapshot, SnapshotRef, snapshot_ref_eq, Digest,
  Upload, OperationRef, preparing, committed, Fence, Lock, System, Config,
}
use dfsha.Control.Leases.{Authority, Clock, message, checked_range, max_delta, release_operation}
use dfsha.Control.Placement.{Liveness}
use dfsha.Control.Coverage.{hold_locks}
use dfsha.Control.Sources.{PlannedPart, WriteIds, plan_parts}
use dfsha.Control.Handles.{found, writable}
use dfsha.Control.Writes.{accept_parts, unchanged}

-- `BeginWriteRequest`; an absent offset or length is `none`
pub record BeginWrite : Type 0 where
  pub request_id : ℕ
  pub intent_sha256 : Digest
  pub handle_id : ℕ
  pub base : SnapshotRef
  pub offset : Option ℕ
  pub length : Option ℕ
  pub delta_sha256 : Digest
  pub parts : List WritePart
  pub fences : List Fence

-- `WritePlan`
pub record WritePlan : Type 0 where
  pub operation : OperationRef
  pub blocks : List PlannedPart
  pub fences : List Fence
  pub base : SnapshotRef

abbrev pub indices_of : List WritePart → List ℕ
indices_of parts = map (λ (p : WritePart). p.block_index) parts

-- `lock['active'].append(op_id)`, of every lock
unfoldable pub activate : ℕ → List Lock → Table Lock → Table Lock
activate operation [] t = t
activate operation (l ∷ ls) t =
    activate operation ls (put t l.id (record l { active = l.active ++ (operation ∷ []) }))

module _ (a : Authority) (c : Clock) where
  -- The row of the operation, before its parts.
  unfoldable pub new_write :
      WriteIds → User → Session → Handle → Node → ℕ → BeginWrite → ℕ → ℕ → Bool → List Lock → Upload
  new_write ids user session h node parent req offset length growing locks = record {
    id = ids.operation;
    operation = record {
      operation_id = ids.operation;
      request_id = req.request_id;
      intent_sha256 = req.intent_sha256;
    };
    user = user.id;
    session = session.id;
    parent = parent;
    name = node.name;
    file = node.id;
    base = some h.snapshot;
    version = node.revision;
    block_size = req.base.block_size_bytes;
    total = max req.base.size_bytes (offset + length);
    sha = record { size = 0; value = 0 };
    state = preparing;
    expires = h.expires;
    max_expires = h.expires;
    epoch = req.base.content_epoch;
    reserved = 0;
    allocations = [];
    pages = [];
    sealed = none;
    result = none;
    locks = map (λ (l : Lock). l.id) locks;
    handle = some h.id;
    write = some (record {
      handle_revision = h.revision;
      control_epoch = a.epoch;
      offset = offset;
      length = length;
      growing = growing;
      base_size = req.base.size_bytes;
      fences = map (message a c) locks;
      parts = [];
    });
    full_fence = none;
  }

  -- The last writes: an empty write is over at once.
  unfoldable pub conclude_write : Meta → Handle → Upload → List Lock → ℕ → SnapshotRef → Meta
  conclude_write tx h op locks length base =
      let active : Meta = record tx { locks = activate op.id locks tx.locks } in
      let op' : Upload = record op { state = committed; result = some base } in
      let released = release_operation op' active in
      if ltb 0 length
      then record active {
        handles = put active.handles h.id (record h { busy = some op.id });
        uploads = put active.uploads op.id op;
      }
      else record released { uploads = put released.uploads op.id op' }

module _ (cfg : Config) (sha_empty : Digest) where
  -- The tests of the range and of the parts; the answer is `growing`.
  unfoldable pub accept_range : Snapshot → Snapshot → BeginWrite → ℕ → ℕ → Result Bool
  accept_range snap current req offset length = do
    upper ← checked_range offset length (some max_delta)
    need (leb offset req.base.size_bytes) sparse_write_unsupported
    need (leb upper cfg.max_file_bytes) limit_exceeded
    let growing = ltb req.base.size_bytes upper
    need (not growing || current.ref.size_bytes == req.base.size_bytes) version_conflict
    accept_parts sha_empty req.base.block_size_bytes offset length req.delta_sha256 req.parts
    need (unchanged snap.blocks current.blocks req.parts) version_conflict
    ok growing

module _ (a : Authority) (c : Clock) (limits : Liveness) where
  -- The parts are planned, under the locks.
  unfoldable pub plan_under :
      Meta
      → WriteIds
      → User
      → Session
      → Handle
      → Snapshot
      → Node
      → BeginWrite
      → ℕ
      → ℕ
      → Bool
      → List Lock
      → Result (WritePlan × Meta)
  plan_under tx ids user session h snap node req offset length growing locks = do
    parent ← found not_found node.parent
    let op = new_write a c ids user session h node parent req offset length growing locks
    (plans, op', planned) ←
        plan_parts a c limits (record tx { uploads = put tx.uploads op.id op }) ids node.id
          snap.blocks op req.parts
    ok (
      record {
        operation = op.operation;
        blocks = plans;
        fences = map (message a c) locks;
        base = req.base;
      },
      conclude_write a c planned h op' locks length req.base,
    )

-- the range of the request, both ends given
given_range : Option ℕ → Option ℕ → Result (ℕ × ℕ)
given_range (some offset) (some length) = ok (offset, length)
given_range _ _ = fault invalid_argument

module _ (sys : System) (cfg : Config) (sha_empty : Digest) (a : Authority) (c : Clock)
    (limits : Liveness) where
  -- What `BeginWrite` does once its range is known.
  unfoldable pub begin_range :
      Meta
      → WriteIds
      → User
      → Session
      → Handle
      → Snapshot
      → Node
      → Snapshot
      → BeginWrite
      → ℕ
      → ℕ
      → Result (WritePlan × Meta)
  begin_range tx ids user session h snap node current req offset length = do
    growing ← accept_range cfg sha_empty snap current req offset length
    (locks, held) ←
        hold_locks a c tx ids.lock session.id h (indices_of req.parts) growing req.fences
    plan_under a c limits held ids user session h snap node req offset length growing locks

  -- `BeginWrite`
  unfoldable pub begin_write :
      Meta → WriteIds → User → Session → BeginWrite → Result (WritePlan × Meta)
  unfolding given_range
  begin_write tx ids user session req = do
    (h, snap, node, current) ← writable sys a c tx user session.id req.handle_id
    need (not (is_some h.busy)) handle_busy
    need (snapshot_ref_eq req.base snap.ref) version_conflict
    (offset, length) ← given_range req.offset req.length
    need (req.delta_sha256.size == 32) invalid_argument
    begin_range tx ids user session h snap node current req offset length
