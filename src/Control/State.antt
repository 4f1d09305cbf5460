-- ===== src/Control/State.antt =====
-- The records that the control node keeps in its metadata store, one table per kind. Ids are the
-- numbers of their uuids; a session id, a token's hash, is a number too; a digest is a byte string.
mod Refs
mod Access
mod Storage
pub use Refs.*
pub use Access.*
pub use Storage.*
use dfsha.Prelude.{ℕ, Bool, Option, List, Text}
use dfsha.Control.Table.{Table}

pub record Upload : Type 0 where
  pub id : ℕ
  pub operation : OperationRef
  pub user : ℕ
  pub session : ℕ
  pub parent : ℕ
  pub name : Text
  pub file : ℕ
  pub base : Option ℕ
  pub version : ℕ
  pub block_size : ℕ
  pub total : ℕ
  pub sha : Digest
  pub state : OperationState
  pub expires : ℕ
  pub max_expires : ℕ
  pub epoch : ℕ
  pub reserved : ℕ
  pub allocations : Table BlockRef
  pub pages : Table (List BlockRef)
  pub sealed : Option PageReceipt
  pub result : Option SnapshotRef
  pub locks : List ℕ
  pub handle : Option ℕ
  pub write : Option Write
  pub full_fence : Option Fence

pub record Handle : Type 0 where
  pub id : ℕ
  pub file : ℕ
  pub snapshot : ℕ
  pub user : ℕ
  pub session : ℕ
  pub revision : ℕ
  pub mode : Mode
  pub closed : Bool
  pub ancestors : List ℕ
  pub busy : Option ℕ
  pub control_epoch : ℕ
  pub maximum : ℕ
  pub deadline : ℕ
  pub expires : ℕ

pub record Lock : Type 0 where
  pub id : ℕ
  pub handle : ℕ
  pub file : ℕ
  pub session : ℕ
  pub generation : ℕ
  pub control_epoch : ℕ
  pub indices : List ℕ
  pub whole : Bool
  pub size : Bool
  pub automatic : Bool
  pub lease : ℕ
  pub active : List ℕ
  pub deadline : ℕ

-- `settings/system`, as far as the handlers read it.
pub record System : Type 0 where
  pub epoch : ℕ
  pub root : ℕ
  pub strict_content_permissions : Bool

-- The configuration that the handlers read; `protected` says that `metadata_key_path` is set.
pub record Config : Type 0 where
  pub protected : Bool
  pub max_file_bytes : ℕ
  pub block_size_bytes : ℕ

-- The record `settings/control-epoch`.
pub record ControlEpoch : Type 0 where
  pub generation : ℕ
  pub epoch : ℕ

-- What a transaction sees; a row `block` is its `ref` and its `receipt`, in two tables. `lock_sequence` is 0 where the record is not there yet.
pub record Meta : Type 0 where
  pub control_epoch : Option ControlEpoch
  pub lock_sequence : ℕ
  pub users : Table User
  pub groups : Table Group
  pub sessions : Table Session
  pub nodes : Table Node
  pub snapshots : Table Snapshot
  pub blocks : Table BlockRef
  pub receipts : Table Receipt
  pub uploads : Table Upload
  pub handles : Table Handle
  pub locks : Table Lock
  pub reads : Table ReadLease
  pub datanodes : Table DataNode
  pub locations : Table Location
  pub assignments : Table Assignment
  pub tasks : Table Task
  pub retirements : Table ℕ
  pub policies : Table Policy
  pub last_placed : Option ℕ
