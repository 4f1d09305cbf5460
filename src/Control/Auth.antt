-- ===== src/Control/Auth.antt =====
-- src/dfsha/control/auth.py: `Authorizer` and `new_node`.
pub mod Rights
use Prim.Native.Nat.{bit_and, bit_or}
use dfsha.Prelude.{
  ℕ, ◌/◌, ◌%◌, ◌^◌, Bool, true, not, ◌&&◌, ◌||◌, Option, none, some, List, [], ◌∷◌, map, Text, ltb,
  ◌==◌, if◌then◌else◌, mem_of, keep_if,
}
use dfsha.Common.Domain.{Result, ok, fault, ◌>>◌, need, permission_denied, unauthenticated}
use dfsha.Control.Table.{get, all}
use dfsha.Control.State.{Meta, User, Group, Session, Node, AclEntry, Kind, System, is_file}

-- `new_node(name, parent, owner, directory, mode)`; `fresh` is the uuid drawn
unfoldable pub new_node : ℕ → Text → Option ℕ → ℕ → Kind → ℕ → Node
new_node fresh name parent owner kind mode = record {
  id = fresh;
  name = name;
  parent = parent;
  owner = owner;
  group = owner;
  mode = mode;
  acl = [];
  alive = true;
  kind = kind;
  revision = 1;
  snapshot = none;
  block_size = 0;
}

-- `authenticate(tx, token)`; `token_hash` is the token's SHA-256
unfoldable pub authenticate : Meta → ℕ → ℕ → Result (User × Session)
authenticate tx now token_hash = elim (get tx.sessions token_hash) [
  | none ↦ fault unauthenticated
  | some session ↦ do
    need (not session.revoked && ltb now session.expires) unauthenticated
    elim (get tx.users session.user) [
      | none ↦ fault unauthenticated
      | some user ↦ do need (not user.disabled) unauthenticated; ok (user, session)
    ]
]

-- the ids of the groups that hold the user
unfoldable pub groups_of : Meta → User → List ℕ
groups_of tx user =
    map (λ (g : Group). g.id) (keep_if (λ g. mem_of user.id g.members) (all tx.groups))

-- `(node['mode'] >> shift) & 7`, for the class of the user
unfoldable pub class_bits : List ℕ → User → Node → ℕ
class_bits groups user node =
    if node.owner == user.id
    then node.mode / 2 ^ 6 % 8
    else if mem_of node.group groups
    then node.mode / 2 ^ 3 % 8
    else node.mode % 8

entry_applies : List ℕ → User → AclEntry → Bool
entry_applies groups user e =
    (e.principal_id == user.id && not e.is_group) || (e.is_group && mem_of e.principal_id groups)

-- the loop over the access control list
unfoldable pub with_acl : List ℕ → User → List AclEntry → ℕ → ℕ
unfolding entry_applies
with_acl groups user [] allowed = allowed
with_acl groups user (e ∷ es) allowed =
    with_acl groups user es
      (if entry_applies groups user e then bit_or allowed e.permissions else allowed)

unfoldable pub allowed_bits : Meta → User → Node → ℕ
unfolding groups_of class_bits with_acl
allowed_bits tx user node =
    let groups = groups_of tx user in with_acl groups user node.acl (class_bits groups user node)

-- the administrator's way past the bits
unfoldable pub bypasses : System → User → Node → ℕ → Bool
bypasses sys user node bits =
    user.admin && (not sys.strict_content_permissions || (not (is_file node.kind) && bits == 1))

-- `require(tx, user, node, bits)`
unfoldable pub require : System → Meta → User → Node → ℕ → Result (Unit {0})
unfolding allowed_bits bypasses
require sys tx user node bits =
    if bypasses sys user node bits
    then ok tt
    else need (bit_and (allowed_bits tx user node) bits == bits) permission_denied
