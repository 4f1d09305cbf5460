-- ===== src/Control/Identity.antt =====
-- src/dfsha/control/commands.py: the handlers of users, groups, passwords and sessions. The fresh
-- uuids are arguments; `derive` is the password hasher behind its slot.
pub mod Revocation
pub mod Names
use dfsha.Prelude.{
  ℕ, ◌+◌, Bool, true, false, not, ◌&&◌, ◌||◌, none, some, List, [], ◌∷◌, Text, length, leb, ◌==◌,
  list_eq, if◌then◌else◌, any_of, all_of, is_some, mem_of,
}
use dfsha.Common.Domain.{
  Result, ok, fault, ◌>>=◌, ◌>>◌, need, already_exists, not_found, permission_denied,
  version_conflict, invalid_argument,
}
use dfsha.Control.Table.{get, all, put, map_rows}
use dfsha.Control.State.{Meta, User, Group, Session, Node, directory, System}
use dfsha.Control.Auth.{new_node}
use dfsha.Control.Namespace.{bump}
use dfsha.Control.Paths.{children, walk}

-- `[a-zA-Z0-9_-]`
abbrev pub is_name_byte : ℕ → Bool
is_name_byte b =
    (leb 97 b && leb b 122)
    || ((leb 65 b && leb b 90) || ((leb 48 b && leb b 57) || (b == 95 || b == 45)))

-- `re.fullmatch(r'[a-zA-Z0-9_-]{1,64}', name) is not None`
unfoldable pub is_name : Text → Bool
is_name name = leb 1 (length name) && (leb (length name) 64 && all_of is_name_byte name)

-- `revoke_sessions`
unfoldable pub revoke_sessions : ℕ → Meta → Meta
revoke_sessions identity tx = record tx {
  sessions =
      map_rows
        (λ (s : Session).
          if s.user == identity && not s.revoked then record s { revoked = true } else s)
        tx.sessions;
}

-- `len(set(ids)) == len(ids)`
unfoldable pub no_repeats : List ℕ → Bool
no_repeats [] = true
no_repeats (i ∷ ids) = not (mem_of i ids) && no_repeats ids

abbrev pub home_path : Text
home_path = 47 ∷ 104 ∷ 111 ∷ 109 ∷ 101 ∷ []

-- `SetUser`
unfoldable pub set_user : Meta → User → ℕ → Bool → ℕ → Result (User × Meta)
set_user tx user user_id disabled expected_revision = do
  need user.admin permission_denied
  elim (get tx.users user_id) [
    | none ↦ fault not_found
    | some target ↦ do
      need (not target.admin) permission_denied
      need (target.revision == expected_revision) version_conflict
      let target' : User = record target { disabled = disabled; revision = target.revision + 1 }
      let tx' = if disabled then revoke_sessions target.id tx else tx
      ok (target', record tx' { users = put tx'.users target.id target' })
  ]

-- `CreateGroup`
unfoldable pub create_group : Meta → User → Text → ℕ → Result (Group × Meta)
create_group tx user name fresh = do
  need user.admin permission_denied
  need (is_name name) invalid_argument
  need (not (any_of (λ (g : Group). list_eq g.name name) (all tx.groups))) already_exists
  let group : Group = record { id = fresh; name = name; members = []; revision = 1 }
  ok (group, record tx { groups = put tx.groups fresh group })

-- `SetGroupMembers`
unfoldable pub set_group_members : Meta → User → ℕ → List ℕ → ℕ → Result (Group × Meta)
set_group_members tx user group_id user_ids expected_revision = do
  need user.admin permission_denied
  elim (get tx.groups group_id) [
    | none ↦ fault not_found
    | some group ↦ do
      need (group.revision == expected_revision) version_conflict
      need (leb (length user_ids) 100 && no_repeats user_ids) invalid_argument
      need (all_of (λ u. is_some (get tx.users u)) user_ids) not_found
      let group' : Group = record group { members = user_ids; revision = group.revision + 1 }
      ok (group', record tx { groups = put tx.groups group.id group' })
  ]

-- `Logout`
unfoldable pub logout : Meta → Session → ℕ → Result Meta
logout tx session session_id = do
  need (session_id == session.session_id) permission_denied
  ok (record tx { sessions = put tx.sessions session.id (record session { revoked = true }) })

module _ (derive : Text → Result Text) where
  -- `password_hash`
  unfoldable pub password_hash : Text → Result Text
  password_hash password = do
    need (leb 12 (length password) && leb (length password) 1024) invalid_argument
    derive password

  -- `ChangePassword`
  unfoldable pub change_password : Meta → User → ℕ → Text → ℕ → Result (User × Meta)
  change_password tx user user_id password expected_revision = do
    need (user.admin || user.id == user_id) permission_denied
    elim (get tx.users user_id) [
      | none ↦ fault not_found
      | some target ↦ do
        need (target.revision == expected_revision) version_conflict
        encoded ← password_hash password
        let target' : User = record target { password = encoded; revision = target.revision + 1 }
        ok (
          target',
          revoke_sessions target.id (record tx { users = put tx.users target.id target' }),
        )
    ]

  module _ (nfc : Text → Text) (sys : System) where
    -- `CreateUser`
    unfoldable pub create_user : Meta → User → Text → Text → ℕ → ℕ → Result (User × Meta)
    create_user tx user username password fresh fresh_home = do
      need user.admin permission_denied
      need (is_name username) invalid_argument
      need (not (any_of (λ (u : User). list_eq u.username username) (all tx.users))) already_exists
      encoded ← password_hash password
      let made : User = record {
        id = fresh;
        username = username;
        password = encoded;
        disabled = false;
        admin = false;
        revision = 1;
      }
      let group : Group = record { id = fresh; name = username; members = fresh ∷ []; revision = 1 }
      let tx' : Meta = record tx {
        users = put tx.users fresh made;
        groups = put tx.groups fresh group;
      }
      home ← walk nfc sys tx' user home_path
      need (not (any_of (λ (n : Node). list_eq n.name username) (children tx' home.id)))
          already_exists
      ok (
        made,
        record tx' {
          nodes =
              put
                (put tx'.nodes fresh_home
                  (new_node fresh_home username (some home.id) fresh directory 448))
                home.id (bump home);
        },
      )
