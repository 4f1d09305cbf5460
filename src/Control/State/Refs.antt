-- ===== src/Control/State/Refs.antt =====
-- The values of the control node's records: references, digests and the rows of users and of the
-- tree. src/dfsha/control/auth.py, src/dfsha/control/commands.py and proto/dfsha/v1 have their fields.
use dfsha.Prelude.{ℕ, Bool, true, false, ◌&&◌, Option, List, Text, ◌==◌}

-- A byte string, by its length and its value as a big-endian number.
pub record Digest : Type 0 where
  pub size : ℕ
  pub value : ℕ

abbrev pub digest_eq : Digest → Digest → Bool
digest_eq a b = a.size == b.size && a.value == b.value

pub data Kind : Type 0 where
  directory file : Kind

abbrev pub is_file : Kind → Bool
is_file file = true
is_file directory = false

-- `OperationState`
pub data OperationState : Type 0 where
  preparing committed aborted expired : OperationState

abbrev pub is_preparing : OperationState → Bool
is_preparing preparing = true
is_preparing _ = false

abbrev pub is_committed : OperationState → Bool
is_committed committed = true
is_committed _ = false

pub record User : Type 0 where
  pub id : ℕ
  pub username : Text
  pub password : Text
  pub disabled : Bool
  pub admin : Bool
  pub revision : ℕ

pub record Group : Type 0 where
  pub id : ℕ
  pub name : Text
  pub members : List ℕ
  pub revision : ℕ

pub record Session : Type 0 where
  pub id : ℕ
  pub session_id : ℕ
  pub user : ℕ
  pub expires : ℕ
  pub revoked : Bool

pub record AclEntry : Type 0 where
  pub principal_id : ℕ
  pub is_group : Bool
  pub permissions : ℕ

pub record Node : Type 0 where
  pub id : ℕ
  pub name : Text
  pub parent : Option ℕ
  pub owner : ℕ
  pub group : ℕ
  pub mode : ℕ
  pub acl : List AclEntry
  pub alive : Bool
  pub kind : Kind
  pub revision : ℕ
  pub snapshot : Option ℕ
  pub block_size : ℕ

pub record BlockRef : Type 0 where
  pub file_id : ℕ
  pub block_version_id : ℕ
  pub block_index : ℕ
  pub size_bytes : ℕ
  pub plaintext_sha256 : Digest

-- `asdict(a) == asdict(b)`
abbrev pub block_ref_eq : BlockRef → BlockRef → Bool
block_ref_eq a b =
    a.file_id == b.file_id
    && (a.block_version_id == b.block_version_id
        && (a.block_index == b.block_index
            && (a.size_bytes == b.size_bytes && digest_eq a.plaintext_sha256 b.plaintext_sha256)))

pub record SnapshotRef : Type 0 where
  pub file_id : ℕ
  pub content_epoch : ℕ
  pub file_version : ℕ
  pub manifest_root : ℕ
  pub size_bytes : ℕ
  pub manifest_sha256 : Digest
  pub file_sha256 : Digest
  pub block_size_bytes : ℕ

abbrev pub snapshot_ref_eq : SnapshotRef → SnapshotRef → Bool
snapshot_ref_eq a b =
    a.file_id == b.file_id
    && (a.content_epoch == b.content_epoch
        && (a.file_version == b.file_version
            && (a.manifest_root == b.manifest_root
                && (a.size_bytes == b.size_bytes
                    && (digest_eq a.manifest_sha256 b.manifest_sha256
                        && (digest_eq a.file_sha256 b.file_sha256
                            && a.block_size_bytes == b.block_size_bytes))))))

pub record Snapshot : Type 0 where
  pub id : ℕ
  pub file : ℕ
  pub ref : SnapshotRef
  pub blocks : List BlockRef

pub record OperationRef : Type 0 where
  pub operation_id : ℕ
  pub request_id : ℕ
  pub intent_sha256 : Digest

abbrev pub operation_ref_eq : OperationRef → OperationRef → Bool
operation_ref_eq a b =
    a.operation_id == b.operation_id
    && (a.request_id == b.request_id && digest_eq a.intent_sha256 b.intent_sha256)

-- `PageReceipt`; its revision is always 1
pub record PageReceipt : Type 0 where
  pub page_id : ℕ
  pub sha256 : Digest

abbrev pub page_receipt_eq : PageReceipt → PageReceipt → Bool
page_receipt_eq a b = a.page_id == b.page_id && digest_eq a.sha256 b.sha256
