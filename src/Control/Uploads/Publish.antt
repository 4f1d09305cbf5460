-- ===== src/Control/Uploads/Publish.antt =====
-- src/dfsha/control/commands.py: the commands that fill an upload and publish it.
use dfsha.Prelude.{
  ℕ, ◌+◌, ◌-◌, ◌*◌, false, not, ◌&&◌, none, some, List, [], ◌∷◌, min, length, ltb, leb, ◌==◌,
  list_eq, any_of, all_of, is_some,
}
use dfsha.Common.Domain.{
  Result, ok, fault, ◌>>=◌, ◌>>◌, need, not_found, version_conflict, invalid_argument,
  data_unavailable, checksum_mismatch,
}
use dfsha.Control.Table.{Table, get, put}
use dfsha.Control.State.{
  Meta, User, Session, Node, Upload, System, Digest, digest_eq, BlockRef, block_ref_eq, SnapshotRef,
  OperationRef, PageReceipt, page_receipt_eq, file, committed,
}
use dfsha.Control.Auth.{new_node}
use dfsha.Control.Leases.{Fence}
use dfsha.Control.Paths.{children}
use dfsha.Control.Namespace.{bump}
use dfsha.Control.Uploads.{
  BlockRequest, ManifestPage, Seal, block_count, block_size_at, manifest, operation,
}

-- One round of the loop of `AllocateBlocks`; `fresh` is the uuid drawn if there is none yet.
unfoldable pub allocate_block : ℕ → Upload → BlockRequest → Result (BlockRef × Upload)
unfolding block_size_at
allocate_block fresh op requested = do
  let size = block_size_at op requested.block_index
  need
      (ltb 0 size
        && (requested.file_id == op.file
            && (requested.size_bytes == size
                && (requested.plaintext_sha256.size == 32
                    && not (is_some requested.block_version_id)))))
      invalid_argument
  elim (get op.allocations requested.block_index) [
    | some block ↦ do
      need (block.size_bytes == size && digest_eq block.plaintext_sha256 requested.plaintext_sha256)
          version_conflict
      ok (block, op)
    | none ↦ do
      let block : BlockRef = record {
        file_id = op.file;
        block_version_id = fresh;
        block_index = requested.block_index;
        size_bytes = size;
        plaintext_sha256 = requested.plaintext_sha256;
      }
      ok (block, record op { allocations = put op.allocations requested.block_index block })
  ]

-- The loop, with one uuid at hand for each round.
unfoldable pub allocate_from :
    (ℕ → ℕ) → ℕ → Upload → List BlockRequest → Result (List BlockRef × Upload)
unfolding allocate_block
allocate_from fresh i op [] = ok ([], op)
allocate_from fresh i op (r ∷ rs) = do
  (block, op') ← allocate_block (fresh i) op r
  (blocks, op'') ← allocate_from fresh (i + 1) op' rs
  ok (block ∷ blocks, op'')

-- One round of the loop of `StageManifestPage`.
unfoldable pub stages : Meta → Upload → ℕ → List BlockRef → Result (Unit {0})
stages tx op index [] = ok tt
stages tx op index (b ∷ bs) = do
  need
      (b.block_index == index
        && elim (get op.allocations index) [ none ↦ false | some a ↦ block_ref_eq a b ])
      version_conflict
  need (is_some (get tx.blocks b.block_version_id)) data_unavailable
  stages tx op (index + 1) bs

-- the node that a commit writes: the old one, or a new file of that name
unfoldable pub target_node : Meta → User → Upload → Node → Result Node
target_node tx user op dir = elim op.base [
  | some _ ↦ elim (get tx.nodes op.file) [ none ↦ fault not_found | some n ↦ ok n ]
  | none ↦ do
    need (not (any_of (λ n. list_eq n.name op.name) (children tx dir.id))) version_conflict
    ok (record (new_node op.file op.name (some op.parent) user.id file 0o600) {
      block_size = op.block_size;
    })
]

module _ (sys : System) (manifest_hash : List BlockRef → Digest) where
  -- `AllocateBlocks`
  unfoldable pub allocate_blocks :
      Meta
      → ℕ
      → (ℕ → ℕ)
      → User
      → Session
      → OperationRef
      → Fence
      → List BlockRequest
      → Result (List BlockRef × Meta)
  unfolding allocate_from
  allocate_blocks tx now fresh user session reference fence requests = do
    op ← operation sys tx now user session reference (some fence)
    need (not (is_some op.sealed)) version_conflict
    need (leb 1 (length requests) && leb (length requests) 64) invalid_argument
    (planned, op') ← allocate_from fresh 0 op requests
    ok (planned, record tx { uploads = put tx.uploads op.id op' })

  -- `StageManifestPage`
  unfoldable pub stage_manifest_page :
      Meta → ℕ → User → Session → OperationRef → Fence → ManifestPage → Result Meta
  unfolding stages block_count
  stage_manifest_page tx now user session reference fence page = do
    op ← operation sys tx now user session reference (some fence)
    need (not (is_some op.sealed)) version_conflict
    let start = page.page_index * 64
    need
        (ltb 0 (length page.blocks)
          && (leb (length page.blocks) 64
              && (leb page.byte_size 65536
                  && length page.blocks == min 64 (block_count op - start))))
        invalid_argument
    stages tx op start page.blocks
    need (digest_eq (manifest_hash page.blocks) page.page_sha256) checksum_mismatch
    let op' : Upload = record op { pages = put op.pages page.page_index page.blocks }
    ok (record tx { uploads = put tx.uploads op.id op' })

  -- `SealManifest`; `verified` is `app.verified_seals`
  unfoldable pub seal_manifest :
      Meta
      → ℕ
      → User
      → Session
      → OperationRef
      → Fence
      → Table Digest
      → Seal
      → Result (PageReceipt × Meta)
  seal_manifest tx now user session reference fence verified seal = do
    op ← operation sys tx now user session reference (some fence)
    blocks ← manifest op
    need
        (seal.block_count == length blocks
          && (seal.total_bytes == op.total
              && (seal.page_count == length op.pages
                  && digest_eq seal.manifest_sha256 (manifest_hash blocks))))
        checksum_mismatch
    need (elim (get verified op.id) [ none ↦ false | some d ↦ digest_eq d seal.manifest_sha256 ])
        checksum_mismatch
    let receipt : PageReceipt = record { page_id = op.id; sha256 = seal.manifest_sha256 }
    ok (receipt, record tx { uploads = put tx.uploads op.id (record op { sealed = some receipt }) })

  -- the reference that a commit publishes; `fresh` is the uuid drawn for the snapshot
  unfoldable pub published_ref : ℕ → Upload → PageReceipt → SnapshotRef
  published_ref fresh op seal = record {
    file_id = op.file;
    content_epoch = op.epoch;
    file_version = op.epoch;
    manifest_root = fresh;
    size_bytes = op.total;
    manifest_sha256 = seal.sha256;
    file_sha256 = op.sha;
    block_size_bytes = op.block_size;
  }

  -- what a commit writes once its tests have passed
  unfoldable pub publish : Meta → ℕ → Upload → PageReceipt → List BlockRef → Node → Node → Meta
  unfolding published_ref
  publish tx fresh op seal blocks dir node =
      let ref = published_ref fresh op seal in
      record tx {
        snapshots =
            put tx.snapshots fresh
              (record { id = fresh; file = op.file; ref = ref; blocks = blocks });
        nodes =
            put (put tx.nodes node.id (bump (record node { snapshot = some fresh }))) dir.id
              (bump dir);
        uploads =
            put tx.uploads op.id (record op { state = committed; result = some ref; reserved = 0 });
      }

  -- the tests of a commit: the upload, its blocks, its directory and the node to write
  unfoldable pub committable :
      Meta
      → ℕ
      → User
      → Session
      → OperationRef
      → Fence
      → PageReceipt
      → Result (Upload × List BlockRef × Node × Node)
  committable tx now user session reference fence seal = do
    op ← operation sys tx now user session reference (some fence)
    need (elim op.sealed [ none ↦ false | some r ↦ page_receipt_eq r seal ]) version_conflict
    blocks ← manifest op
    need (all_of (λ b. is_some (get tx.blocks b.block_version_id)) blocks) data_unavailable
    elim (get tx.nodes op.parent) [
      | none ↦ fault not_found
      | some dir ↦ do node ← target_node tx user op dir; ok (op, blocks, dir, node)
    ]

  -- `CommitUpload`
  unfoldable pub commit_upload :
      Meta
      → ℕ
      → ℕ
      → User
      → Session
      → OperationRef
      → Fence
      → PageReceipt
      → Result (SnapshotRef × Meta)
  commit_upload tx now fresh user session reference fence seal = do
    (op, blocks, dir, node) ← committable tx now user session reference fence seal
    ok (published_ref fresh op seal, publish tx fresh op seal blocks dir node)
