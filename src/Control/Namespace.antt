-- ===== src/Control/Namespace.antt =====
-- src/dfsha/control/commands.py: `Mkdir`, `Rmdir`, `Remove` and `SetAcl`. A row that the source reads
-- without a test and that is missing, where Python raises TypeError, is `not_found`.
pub mod Effects
use dfsha.Prelude.{
  ℕ, ◌+◌, ◌*◌, ◌^◌, Bool, true, false, not, ◌&&◌, ◌||◌, none, some, List, Text, length, ltb, leb,
  ◌==◌, list_eq, if◌then◌else◌, any_of, all_of, is_some,
}
use dfsha.Common.Domain.{
  Result, ok, fault, ◌>>=◌, ◌>>◌, need, already_exists, lock_busy, not_found, root_protected,
  is_directory, not_directory, directory_not_empty, permission_denied, version_conflict,
  invalid_argument,
}
use dfsha.Control.Table.{get, all, put, map_rows}
use dfsha.Control.State.{
  Meta, User, Node, Upload, AclEntry, directory, file, is_file, System, aborted, is_preparing,
}
use dfsha.Control.Auth.{require, new_node}
use dfsha.Control.Paths.{PathRef, children, resolve, parent}

-- `bump`: the new row, before it is put
abbrev pub bump : Node → Node
bump n = record n { revision = n.revision + 1 }

-- is the upload under way?
abbrev pub pending : ℕ → Upload → Bool
pending now o = is_preparing o.state && ltb now o.expires

unfoldable pub reserved : Meta → ℕ → ℕ → Text → Bool
reserved tx now dir name =
    any_of (λ o. (o.parent == dir && list_eq o.name name) && pending now o) (all tx.uploads)

-- `op.update(state=c.ABORTED, reserved=0)` for the uploads of a file
unfoldable pub abort_of : ℕ → Upload → Upload
abort_of f o =
    if o.file == f && is_preparing o.state then record o { state = aborted; reserved = 0 } else o

-- the test before a directory goes
unfoldable pub is_vacant : Meta → ℕ → Node → Bool
is_vacant tx now n =
    not (any_of (λ c. true) (children tx n.id))
    && not (any_of (λ o. o.parent == n.id && pending now o) (all tx.uploads))

-- The rows of `SetAcl`'s request.
pub record Acl : Type 0 where
  pub owner_id : ℕ
  pub group_id : ℕ
  pub owner_permissions : ℕ
  pub group_permissions : ℕ
  pub other_permissions : ℕ
  pub entries : List AclEntry

module _ (nfc : Text → Text) (sys : System) where
  unfoldable pub mkdir : Meta → ℕ → ℕ → User → PathRef → Result (Node × Meta)
  mkdir tx now fresh user path = do
    (dir, name) ← parent nfc sys tx user path
    need (not (any_of (λ n. list_eq n.name name) (children tx dir.id))) already_exists
    need (not (reserved tx now dir.id name)) lock_busy
    let node = new_node fresh name (some dir.id) user.id directory 0o700
    ok (node, record tx { nodes = put (put tx.nodes node.id node) dir.id (bump dir) })

  -- what is written once the tests have passed
  unfoldable pub unlink : Meta → Node → Node → Meta
  unfolding abort_of
  unlink tx node dir = record tx {
    uploads = map_rows (abort_of node.id) tx.uploads;
    nodes = put (put tx.nodes node.id (bump (record node { alive = false }))) dir.id (bump dir);
  }

  -- the tests of `remove`, with the node and its directory
  unfoldable pub removable : Meta → ℕ → User → PathRef → Bool → Result (Node × Node)
  unfolding is_vacant
  removable tx now user path wants_directory = do
    node ← resolve nfc sys tx user path
    need (is_some node.parent) root_protected
    need (if wants_directory then not (is_file node.kind) else is_file node.kind)
        (if wants_directory then not_directory else is_directory)
    elim node.parent [
      | none ↦ fault root_protected
      | some p ↦ elim (get tx.nodes p) [
        | none ↦ fault not_found
        | some dir ↦ do
          require sys tx user dir 3
          need (not wants_directory || is_vacant tx now node) directory_not_empty
          ok (node, dir)
      ]
    ]

  -- `remove(tx, user, session, req, directory)`: the node's new revision
  unfoldable pub remove : Meta → ℕ → User → PathRef → Bool → Result (ℕ × Meta)
  unfolding unlink
  remove tx now user path wants_directory = do
    (node, dir) ← removable tx now user path wants_directory
    ok (node.revision + 1, unlink tx node dir)

  principal_known : Meta → AclEntry → Bool
  principal_known tx e =
      if e.is_group
      then is_some (get tx.groups e.principal_id)
      else is_some (get tx.users e.principal_id)

  -- `SetAcl`; the three shifted permissions do not overlap, so the sum is their bitwise or
  unfoldable pub set_acl : Meta → User → PathRef → ℕ → Acl → Result (ℕ × Meta)
  unfolding principal_known
  set_acl tx user path expected_revision acl = do
    node ← resolve nfc sys tx user path
    need (user.admin || node.owner == user.id) permission_denied
    need (expected_revision == node.revision) version_conflict
    need
        (leb acl.owner_permissions 7
          && (leb acl.group_permissions 7
              && (leb acl.other_permissions 7
                  && (leb (length acl.entries) 64
                      && all_of (λ e. leb e.permissions 7) acl.entries))))
        invalid_argument
    need (is_some (get tx.users acl.owner_id) && is_some (get tx.groups acl.group_id)) not_found
    need (user.admin || (acl.owner_id == node.owner && acl.group_id == node.group))
        permission_denied
    need (all_of (principal_known tx) acl.entries) not_found
    let node' : Node = record node {
      owner = acl.owner_id;
      group = acl.group_id;
      mode = acl.owner_permissions * 2 ^ 6 + acl.group_permissions * 2 ^ 3 + acl.other_permissions;
      acl = acl.entries;
    }
    ok (node.revision + 1, record tx { nodes = put tx.nodes node.id (bump node') })
