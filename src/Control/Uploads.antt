-- ===== src/Control/Uploads.antt =====
-- src/dfsha/control/commands.py: the upload commands, over `Monolith`'s `manifest`. `manifest_hash`
-- (SHA-256 of the canonical JSON), the reservation policy and the seals that the transport verified
-- are parameters; `Monolith.plan` only builds the reply, which is left out.
pub mod Manifest
pub mod Life
pub mod Publish
use dfsha.Prelude.{
  ℕ, ◌+◌, ◌-◌, ◌*◌, ◌/◌, Bool, true, false, not, ◌&&◌, ◌||◌, Option, none, some, List, [], ◌∷◌,
  ◌++◌, Text, min, length, ltb, leb, ◌==◌, list_eq, option_eq, keep_if, first_of?, sum_by, is_some,
}
use dfsha.Common.Domain.{
  Result, ok, fault, ◌>>=◌, ◌>>◌, need, already_exists, lock_busy, not_found, is_directory,
  version_conflict, limit_exceeded, invalid_argument, permission_denied, operation_expired,
  lock_expired, checksum_mismatch,
}
use dfsha.Control.Table.{Table, get, all, put}
use dfsha.Control.State.{
  Meta, User, Session, Node, Upload, System, Config, Digest, BlockRef, SnapshotRef, snapshot_ref_eq,
  OperationRef, operation_ref_eq, file, is_file, preparing, aborted, is_preparing, is_committed,
}
use dfsha.Control.Auth.{require}
use dfsha.Control.Leases.{Fence}
use dfsha.Control.Paths.{PathRef, children, parent}
use dfsha.Control.Namespace.{reserved, pending}

pub record BeginUpload : Type 0 where
  pub path : PathRef
  pub total_bytes : ℕ
  pub file_sha256 : Digest
  pub overwrite : Bool
  pub expected_snapshot : Option SnapshotRef
  pub request_id : ℕ
  pub intent_sha256 : Digest

-- A block as the client asks for it, with no version yet.
pub record BlockRequest : Type 0 where
  pub file_id : ℕ
  pub block_version_id : Option ℕ
  pub block_index : ℕ
  pub size_bytes : ℕ
  pub plaintext_sha256 : Digest

pub record ManifestPage : Type 0 where
  pub page_index : ℕ
  pub blocks : List BlockRef
  pub page_sha256 : Digest
  pub byte_size : ℕ

pub record Seal : Type 0 where
  pub block_count : ℕ
  pub total_bytes : ℕ
  pub page_count : ℕ
  pub manifest_sha256 : Digest

-- `(total + block_size - 1) // block_size`
unfoldable pub block_count : Upload → ℕ
block_count op = (op.total + op.block_size - 1) / op.block_size

-- the size of the block at an index; 0 is what the source sees as no positive size
unfoldable pub block_size_at : Upload → ℕ → ℕ
block_size_at op index = min op.block_size (op.total - index * op.block_size)

-- the pages 0, …, n - 1 one after the other
unfoldable pub page_blocks : Table (List BlockRef) → ℕ → ℕ → List BlockRef
page_blocks pages i ℕ.zero = []
page_blocks pages i (ℕ.suc n) =
    elim (get pages i) [ none ↦ [] | some bs ↦ bs ] ++ page_blocks pages (i + 1) n

-- `all(b.block_index == i for i, b in enumerate(blocks))`
unfoldable pub is_numbered : ℕ → List BlockRef → Bool
is_numbered i [] = true
is_numbered i (b ∷ bs) = b.block_index == i && is_numbered (i + 1) bs

-- `Monolith.manifest(op)`
unfoldable pub manifest : Upload → Result (List BlockRef)
unfolding block_count page_blocks is_numbered
manifest op = do
  let count = block_count op
  need (length op.pages == (count + 63) / 64) checksum_mismatch
  let blocks = page_blocks op.pages 0 (length op.pages)
  need
      (length blocks == count
        && (sum_by (λ b. b.size_bytes) blocks == op.total && is_numbered 0 blocks))
      checksum_mismatch
  ok blocks

-- the quotas of a protected node
unfoldable pub within_quota : Meta → ℕ → User → Bool
within_quota tx now user =
    let active = keep_if (pending now) (all tx.uploads) in
    ltb (length active) 64 && ltb (length (keep_if (λ o. o.user == user.id) active)) 16

-- `AbortUpload`
unfoldable pub abort_upload : Meta → User → Session → OperationRef → Result Meta
abort_upload tx user session reference = elim (get tx.uploads reference.operation_id) [
  | none ↦ fault permission_denied
  | some op ↦ do
    need (op.user == user.id && op.session == session.id) permission_denied
    need (operation_ref_eq reference op.operation) version_conflict
    need (not (is_committed op.state)) version_conflict
    ok (record tx { uploads = put tx.uploads op.id (record op { state = aborted; reserved = 0 }) })
]

module _ (nfc : Text → Text) (sys : System) (cfg : Config)
    (reserve_upload : Meta → ℕ → ℕ → Result ℕ) where
  -- the tests of `BeginUpload` on an entry of that name, if there is one: the block size, the base
  -- and the content epoch
  begin_base : Meta → User → BeginUpload → Option Node → Result (ℕ × Option ℕ × ℕ)
  begin_base tx user req none = do
    need (not (is_some req.expected_snapshot)) version_conflict
    ok (cfg.block_size_bytes, none, 1)
  begin_base tx user req (some existing) = do
    need (is_file existing.kind) is_directory
    need req.overwrite already_exists
    require sys tx user existing 2
    elim existing.snapshot [
      | none ↦ fault not_found
      | some snapshot ↦ elim (get tx.snapshots snapshot) [
        | none ↦ fault not_found
        | some snap ↦ do
          need (elim req.expected_snapshot [ none ↦ false | some r ↦ snapshot_ref_eq r snap.ref ])
              version_conflict
          ok (existing.block_size, some snapshot, snap.ref.content_epoch + 1)
      ]
    ]

  -- `BeginUpload`; `fresh` and `fresh_file` are the uuids drawn
  unfoldable pub begin_upload :
      Meta → ℕ → ℕ → ℕ → User → Session → BeginUpload → Result (Upload × Meta)
  unfolding begin_base within_quota
  begin_upload tx now fresh fresh_file user session req = do
    need (not cfg.protected || within_quota tx now user) limit_exceeded
    need (req.file_sha256.size == 32 && leb req.total_bytes cfg.max_file_bytes) invalid_argument
    (dir, name) ← parent nfc sys tx user req.path
    let existing = first_of? (λ n. list_eq n.name name) (children tx dir.id)
    need (not (reserved tx now dir.id name)) lock_busy
    (block_size, base, epoch) ← begin_base tx user req existing
    amount ← reserve_upload tx req.total_bytes block_size
    let op : Upload = record {
      id = fresh;
      operation = record {
        operation_id = fresh;
        request_id = req.request_id;
        intent_sha256 = req.intent_sha256;
      };
      user = user.id;
      session = session.id;
      parent = dir.id;
      name = name;
      file = elim existing [ none ↦ fresh_file | some n ↦ n.id ];
      base = base;
      version = elim existing [ none ↦ 0 | some n ↦ n.revision ];
      block_size = block_size;
      total = req.total_bytes;
      sha = req.file_sha256;
      state = preparing;
      expires = now + 300000;
      max_expires = now + 3600000;
      epoch = epoch;
      reserved = amount;
      allocations = [];
      pages = [];
      sealed = none;
      result = none;
      locks = [];
      handle = none;
      write = none;
      full_fence = none;
    }
    ok (op, record tx { uploads = put tx.uploads fresh op })

module _ (sys : System) where
  -- the file that an overwrite replaces is still what it was
  base_holds : Meta → User → Upload → Result (Unit {0})
  base_holds tx user op = elim op.base [
    | none ↦ ok tt
    | some base ↦ elim (get tx.nodes op.file) [
      | none ↦ fault version_conflict
      | some node ↦ do
        need (node.alive && option_eq node.snapshot (some base)) version_conflict
        require sys tx user node 2
    ]
  ]

  -- `operation(tx, user, session, reference, fence)`
  unfoldable pub operation : Meta → ℕ → User → Session → OperationRef → Option Fence → Result Upload
  unfolding base_holds
  operation tx now user session reference fence = elim (get tx.uploads reference.operation_id) [
    | none ↦ fault permission_denied
    | some op ↦ do
      need (op.user == user.id && op.session == session.id) permission_denied
      need (operation_ref_eq reference op.operation) version_conflict
      need (is_preparing op.state && ltb now op.expires) operation_expired
      elim (get tx.nodes op.parent) [
        | none ↦ fault version_conflict
        | some dir ↦ do
          need dir.alive version_conflict
          require sys tx user dir 3
          base_holds tx user op
          need
              (elim fence [
                | none ↦ true
                | some f ↦
                    f.lock_id == op.id && (f.generation == op.epoch && f.service_epoch == sys.epoch)
              ])
              lock_expired
          ok op
      ]
  ]

  unfoldable pub renew_upload : Meta → ℕ → User → Session → OperationRef → Result (Upload × Meta)
  renew_upload tx now user session reference = do
    op ← operation tx now user session reference none
    let op' : Upload = record op { expires = min (now + 300000) op.max_expires }
    ok (op', record tx { uploads = put tx.uploads op.id op' })
