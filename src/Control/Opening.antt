-- ===== src/Control/Opening.antt =====
-- src/dfsha/control/access.py: `Open`, in its parts. The loop over the directories above the file
-- has as much fuel as the store has nodes; a row that is missing where the source takes it to be there
-- is NOT_FOUND.
pub mod Truncation
use dfsha.Prelude.{
  ℕ, ◌+◌, Bool, true, false, not, ◌&&◌, ◌||◌, Option, none, some, List, [], Text, ltb, ◌==◌,
  if◌then◌else◌, is_some, length, keep_if,
}
use dfsha.Common.Domain.{
  Result, ok, fault, ◌>>=◌, ◌>>◌, need, not_found, unsupported_mode, limit_exceeded, already_exists,
  lock_busy, is_directory,
}
use dfsha.Control.Table.{all, put, delete}
use dfsha.Control.State.{
  Meta, User, Node, Handle, Snapshot, BlockRef, Digest, Mode, mode_r_plus, mode_w, mode_w_plus,
  mode_x, mode_x_plus, reads_mode, writes_mode, System, Config, is_file, file,
}
use dfsha.Control.Auth.{require, new_node}
use dfsha.Control.Paths.{PathRef, resolve, parent}
use dfsha.Control.Namespace.{bump, reserved}
use dfsha.Control.Placement.{row_of}
use dfsha.Control.Leases.{Authority, Clock, LockOwner, handle_live, refresh_handle, acquire}
use dfsha.Control.Handles.{found, ancestors_of}

-- `creating`, and `mode in (X, X_PLUS)`
abbrev pub creates : Mode → Bool
creates mode_w = true
creates mode_w_plus = true
creates mode_x = true
creates mode_x_plus = true
creates _ = false

abbrev pub is_exclusive : Mode → Bool
is_exclusive mode_x = true
is_exclusive mode_x_plus = true
is_exclusive _ = false

abbrev is_r_plus : Mode → Bool
is_r_plus mode_r_plus = true
is_r_plus _ = false

-- The uuids that one call draws.
pub record Drawn : Type 0 where
  pub node : ℕ
  pub root : ℕ
  pub handle : ℕ
  pub owner : ℕ
  pub lock : ℕ

module _ (nfc : Text → Text) (manifest_hash : List BlockRef → Digest) (sha_empty : Digest)
    (sys : System) (cfg : Config) (a : Authority) (c : Clock) where
  -- The handles that count: 512 of all users, 32 of one.
  unfoldable pub open_quota : Meta → User → Bool
  open_quota tx user =
      let active = keep_if (λ (h : Handle). not h.closed && handle_live a c h) (all tx.handles) in
      ltb (length active) 512
      && ltb (length (keep_if (λ (h : Handle). h.user == user.id) active)) 32

  -- `except Fault`: a path that does not lead to a node may be made
  unfoldable pub existing : Result Node → Result (Option Node)
  existing (ok node) = ok (some node)
  existing (fault not_found) = ok none
  existing (fault r) = fault r

  -- the directory of the file, and its name there
  unfoldable pub place : Meta → User → PathRef → Option Node → Result (Option Node × Text)
  place tx user path none = do (dir, name) ← parent nfc sys tx user path; ok (some dir, name)
  place tx user path (some node) = ok (row_of tx.nodes node.parent, node.name)

  -- the empty snapshot
  unfoldable pub empty_snapshot : ℕ → ℕ → ℕ → ℕ → ℕ → Snapshot
  empty_snapshot root file_id epoch version block_size = record {
    id = root;
    file = file_id;
    ref = record {
      file_id = file_id;
      content_epoch = epoch;
      file_version = version;
      manifest_root = root;
      size_bytes = 0;
      manifest_sha256 = manifest_hash [];
      file_sha256 = sha_empty;
      block_size_bytes = block_size;
    };
    blocks = [];
  }

  -- The writes of `W` and `X`: the snapshot, the node that has it, and the directory.
  unfoldable pub publish_empty : Meta → ℕ → Node → Node → ℕ → ℕ → Node × Meta
  publish_empty tx root node dir epoch version =
      let emptied = bump (record node { snapshot = some root }) in
      (
        emptied,
        record tx {
          snapshots =
              put tx.snapshots root (empty_snapshot root node.id epoch version node.block_size);
          nodes = put (put tx.nodes node.id emptied) dir.id (bump dir);
        },
      )

  -- A file that is there is emptied, if nobody else has a lock on it.
  unfoldable pub truncate : Meta → Drawn → User → ℕ → Mode → Node → Node → Result (Node × Meta)
  truncate tx drawn user session mode dir node = do
    need (is_file node.kind) is_directory
    require sys tx user node (if reads_mode mode then 6 else 2)
    old ← found not_found (row_of tx.snapshots node.snapshot)
    let owner : LockOwner = record { id = drawn.owner; file = node.id; session = session }
    (lock, tx') ← acquire a c drawn.lock owner [] true true true tx
    ok (
        publish_empty (record tx' { locks = delete tx'.locks lock.id }) drawn.root node dir
          (old.ref.content_epoch + 1) (old.ref.file_version + 1))

  unfoldable pub create :
      Meta → Drawn → User → ℕ → Mode → Node → Text → Option Node → Result (Node × Meta)
  create tx drawn user session mode dir name none =
      let node = new_node drawn.node name (some dir.id) user.id file 0o600 in
      ok (publish_empty tx drawn.root (record node { block_size = cfg.block_size_bytes }) dir 1 1)
  create tx drawn user session mode dir name (some node) =
      truncate tx drawn user session mode dir node

  unfoldable pub open_created : Meta → Drawn → User → ℕ → PathRef → Mode → Result (Node × Meta)
  open_created tx drawn user session path mode = do
    old ← existing (resolve nfc sys tx user path)
    (above, name) ← place tx user path old
    need (not (is_some old) || not (is_exclusive mode)) already_exists
    dir ← found not_found above
    need (not (reserved tx c.now dir.id name)) lock_busy
    create tx drawn user session mode dir name old

  unfoldable pub open_existing : Meta → User → PathRef → Mode → Result (Node × Meta)
  open_existing tx user path mode = do
    node ← resolve nfc sys tx user path
    need (is_file node.kind) is_directory
    require sys tx user node (if is_r_plus mode then 6 else 4)
    ok (node, tx)

  -- the handle of the file
  unfoldable pub new_handle : ℕ → Node → ℕ → User → ℕ → Mode → List ℕ → Handle
  new_handle fresh node snapshot user session mode ancestors =
      refresh_handle a c
        (record {
          id = fresh;
          file = node.id;
          snapshot = snapshot;
          user = user.id;
          session = session;
          revision = 1;
          mode = mode;
          closed = false;
          ancestors = ancestors;
          busy = none;
          control_epoch = 0;
          maximum = 0;
          deadline = 0;
          expires = 0;
        })
        true

  -- `Open`
  unfoldable pub open_handle : Meta → Drawn → User → ℕ → PathRef → Mode → Result (Handle × Meta)
  open_handle tx drawn user session path mode = do
    need (reads_mode mode || writes_mode mode) unsupported_mode
    need (not cfg.protected || open_quota tx user) limit_exceeded
    (node, tx') ←
        if creates mode
        then open_created tx drawn user session path mode
        else open_existing tx user path mode
    climbed ← ancestors_of (length tx'.nodes + 1) tx'.nodes node.parent
    ancestors ← found not_found climbed
    snapshot ← found not_found node.snapshot
    let h = new_handle drawn.handle node snapshot user session mode ancestors
    ok (h, record tx' { handles = put tx'.handles h.id h })
