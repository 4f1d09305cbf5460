-- ===== src/Control/Listing.antt =====
-- src/dfsha/control/queries.py: `Stat`, `List` with its pages, `GetAcl` and `GetOperation`. The text of
-- a cursor is JSON in base64: `encode` and `decode` are parameters.
pub mod Rest
pub mod Pages
use dfsha.Prelude.{
  ℕ, ◌/◌, ◌%◌, ◌^◌, not, ◌&&◌, ◌||◌, Option, none, some, List, [], ◌∷◌, Text, length, leb, ◌==◌,
  if◌then◌else◌, take, keep_if, first_of?,
}
use dfsha.Common.Domain.{
  Result, ok, ◌>>=◌, ◌>>◌, need, not_found, not_directory, invalid_argument, limit_exceeded,
  list_changed,
}
use dfsha.Control.Table.{get, all}
use dfsha.Control.State.{
  Meta, User, Node, AclEntry, Kind, SnapshotRef, Upload, OperationRef, OperationState, System,
  is_file,
}
use dfsha.Control.Auth.{require}
use dfsha.Control.Paths.{PathRef, resolve, children, text_ltb, not_empty}
use dfsha.Control.Handles.{found}

-- `Entry`; the size is that of the snapshot
pub record Entry : Type 0 where
  pub object_id : ℕ
  pub name : Text
  pub kind : Kind
  pub revision : ℕ
  pub snapshot : Option SnapshotRef

-- What a cursor says.
pub record Cursor : Type 0 where
  pub id : ℕ
  pub revision : ℕ
  pub user : ℕ
  pub last : ℕ

-- `ListResponse`
pub record Listed : Type 0 where
  pub entries : List Entry
  pub next_cursor : Text
  pub directory_revision : ℕ

-- `Acl`
pub record AclAnswer : Type 0 where
  pub owner_id : ℕ
  pub group_id : ℕ
  pub owner_permissions : ℕ
  pub group_permissions : ℕ
  pub other_permissions : ℕ
  pub entries : List AclEntry
  pub authz_revision : ℕ

-- `OperationStatus`, without the request that a write keeps
pub record OperationStatus : Type 0 where
  pub operation : OperationRef
  pub state : OperationState
  pub expires_at_unix_ms : ℕ
  pub result : Option SnapshotRef

-- the reference of the snapshot that the node has
snapshot_at : Meta → Option ℕ → Result (Option SnapshotRef)
snapshot_at tx none = ok none
snapshot_at tx (some s) = do snap ← found not_found (get tx.snapshots s); ok (some snap.ref)

-- `entry`
unfoldable pub entry : Meta → Node → Result Entry
unfolding snapshot_at
entry tx node = do
  snapshot ← snapshot_at tx node.snapshot
  ok (record {
    object_id = node.id;
    name = node.name;
    kind = node.kind;
    revision = node.revision;
    snapshot = snapshot;
  })

unfoldable pub entries_of : Meta → List Node → Result (List Entry)
entries_of tx [] = ok []
entries_of tx (n ∷ ns) = do e ← entry tx n; es ← entries_of tx ns; ok (e ∷ es)

-- the children behind a name
unfoldable pub behind : Text → List Node → List Node
behind last nodes = keep_if (λ (n : Node). text_ltb last n.name) nodes

-- `selected[-1]`
unfoldable pub last_of : List Node → Option Node
last_of [] = none
last_of (n ∷ []) = some n
last_of (n ∷ m ∷ ms) = last_of (m ∷ ms)

module _ (encode : Cursor → Text) (decode : Text → Option Cursor) where
  -- The name behind which the page begins; without a cursor it is the empty text.
  unfoldable pub start_of : Meta → User → Node → Text → Result Text
  start_of tx user node cursor = if not (not_empty cursor) then ok [] else do
    at ← found invalid_argument (decode cursor)
    need (at.id == node.id && (at.revision == node.revision && at.user == user.id)) list_changed
    previous ←
        found invalid_argument (first_of? (λ (n : Node). n.id == at.last) (children tx node.id))
    ok previous.name

  cursor_after : User → Node → Option Node → Text
  cursor_after user node none = []
  cursor_after user node (some last) =
      encode (record { id = node.id; revision = node.revision; user = user.id; last = last.id })

  -- The page of what is behind the start.
  unfoldable pub page_of : Meta → User → Node → ℕ → List Node → Result Listed
  unfolding cursor_after
  page_of tx user node limit rest = do
    let selected = take limit rest
    entries ← entries_of tx selected
    ok (record {
      entries = entries;
      next_cursor =
          if leb (length rest) limit then [] else cursor_after user node (last_of selected);
      directory_revision = node.revision;
    })

  -- What `List` does with the node of the path.
  unfoldable pub list_node : System → Meta → User → Node → ℕ → Text → Result Listed
  list_node sys tx user node limit cursor = do
    need (not (is_file node.kind)) not_directory
    require sys tx user node 5
    need (leb 1 limit && leb limit 100) invalid_argument
    need (leb (length cursor) 512) limit_exceeded
    start ← start_of tx user node cursor
    page_of tx user node limit (behind start (children tx node.id))

  -- `List`
  unfoldable pub list_directory :
      (Text → Text) → System → Meta → User → PathRef → ℕ → Text → Result Listed
  list_directory nfc sys tx user path limit cursor = do
    node ← resolve nfc sys tx user path
    list_node sys tx user node limit cursor

-- `Stat`
unfoldable pub stat : (Text → Text) → System → Meta → User → PathRef → Result Entry
stat nfc sys tx user path = do
  node ← resolve nfc sys tx user path
  require sys tx user node (if is_file node.kind then 4 else 1)
  entry tx node

-- `GetAcl`
unfoldable pub get_acl : (Text → Text) → System → Meta → User → PathRef → Result AclAnswer
get_acl nfc sys tx user path = do
  node ← resolve nfc sys tx user path
  if user.admin || node.owner == user.id then ok tt else require sys tx user node 4
  ok (record {
    owner_id = node.owner;
    group_id = node.group;
    owner_permissions = node.mode / 2 ^ 6;
    group_permissions = node.mode / 2 ^ 3 % 8;
    other_permissions = node.mode % 8;
    entries = node.acl;
    authz_revision = node.revision;
  })

-- `GetOperation`: by its id, or by the request that began it
unfoldable pub get_operation : Meta → User → Option ℕ → ℕ → Result OperationStatus
get_operation tx user operation_id request_id = do
  op ← found not_found (elim operation_id [
    | some identity ↦ get tx.uploads identity
    | none ↦
        first_of? (λ (o : Upload). o.user == user.id && o.operation.request_id == request_id)
          (all tx.uploads)
  ])
  need (op.user == user.id) not_found
  ok (record {
    operation = op.operation;
    state = op.state;
    expires_at_unix_ms = op.expires;
    result = op.result;
  })
