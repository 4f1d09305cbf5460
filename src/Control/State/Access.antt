-- ===== src/Control/State/Access.antt =====
-- The records of open files: src/dfsha/control/access.py, and the fences of proto/dfsha/v1.
use dfsha.Prelude.{ℕ, Bool, true, false, Option, List}
use dfsha.Control.State.Refs.{BlockRef, Digest}

pub record Fence : Type 0 where
  pub lock_id : ℕ
  pub handle_id : ℕ
  pub service_epoch : ℕ
  pub generation : ℕ
  pub lease_id : ℕ
  pub block_indices : List ℕ
  pub whole_file : Bool
  pub includes_size : Bool
  pub expires_at_unix_ms : ℕ

-- `OpenMode`
pub data Mode : Type 0 where
  mode_unspecified mode_r mode_r_plus mode_w mode_w_plus mode_x mode_x_plus : Mode

-- `mode in READ_MODES` and `mode in WRITE_MODES`
abbrev pub reads_mode : Mode → Bool
reads_mode mode_r = true
reads_mode mode_r_plus = true
reads_mode mode_w_plus = true
reads_mode mode_x_plus = true
reads_mode _ = false

abbrev pub writes_mode : Mode → Bool
writes_mode mode_r_plus = true
writes_mode mode_w = true
writes_mode mode_w_plus = true
writes_mode mode_x = true
writes_mode mode_x_plus = true
writes_mode _ = false

-- A row `read`.
pub record ReadLease : Type 0 where
  pub id : ℕ
  pub handle : ℕ
  pub session : ℕ
  pub offset : ℕ
  pub length : ℕ
  pub closed : Bool

-- `WritePart`
pub record WritePart : Type 0 where
  pub block_index : ℕ
  pub block_offset : ℕ
  pub delta_offset : ℕ
  pub length : ℕ
  pub delta_sha256 : Digest

-- `part['part']`, `part['base']` and `part['replacement']` of a row `upload` of kind `write`; `none` is a base with
-- no version, of a block that the file does not have yet.
pub record WrittenPart : Type 0 where
  pub index : ℕ
  pub base : Option BlockRef
  pub replacement : BlockRef
  pub delta : WritePart

-- What such a row has besides.
pub record Write : Type 0 where
  pub handle_revision : ℕ
  pub control_epoch : ℕ
  pub offset : ℕ
  pub length : ℕ
  pub growing : Bool
  pub base_size : ℕ
  pub fences : List Fence
  pub parts : List WrittenPart
