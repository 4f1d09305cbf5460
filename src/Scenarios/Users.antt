-- ===== src/Scenarios/Users.antt =====
-- Users, passwords and sessions.
use dfsha.Prelude.{◌≡◌, ◌≢◌, refl, true, false, none, some, [], ◌∷◌, arith, Text}
use dfsha.Common.Domain.{Result, ok}
use dfsha.Control.Table.{get, put, all, map_rows}
use dfsha.Control.State.{Meta, User, Node, directory}
use dfsha.Control.Auth.{authenticate, require, new_node}
use dfsha.Control.Paths.{walk, split, children}
use dfsha.Control.Identity.{
  change_password, set_user, logout, create_user, revoke_sessions, is_name, password_hash,
}
use dfsha.Control.Identity.Revocation.{change_password_revokes}
use dfsha.Control.Identity.Names.{NamesUnique, create_user-NamesUnique}
use dfsha.Scenarios.World.{sys, admin, guest, session, guest_session, root, note, same, tx}

abbrev derive : Text → Result Text
derive password = ok (1 ∷ password)

abbrev password : Text
password = 1 ∷ 2 ∷ 3 ∷ 4 ∷ 5 ∷ 6 ∷ 7 ∷ 8 ∷ 9 ∷ 10 ∷ 11 ∷ 12 ∷ []

abbrev changed_guest : User
changed_guest = record guest { password = 1 ∷ password; revision = 2 }

abbrev changed : Meta
changed = record tx {
  users = (5, admin) ∷ (6, changed_guest) ∷ [];
  sessions = (77, session) ∷ (79, record guest_session { revoked = true }) ∷ [];
}

changes : change_password derive tx admin 6 password 1 ≡ ok (changed_guest, changed)
unfolding change_password get put map_rows password_hash revoke_sessions
changes = refl

still_in : authenticate changed 100 77 ≡ ok (admin, session)
unfolding authenticate get
still_in = refl

change_password_revokes_example : session.user ≢ changed_guest.id
change_password_revokes_example =
    change_password_revokes derive tx changed admin changed_guest admin 6 password 1 100 77 session
      changes still_in

abbrev disabled_guest : User
disabled_guest = record guest { disabled = true; revision = 2 }

abbrev disabled_tx : Meta
disabled_tx = record changed { users = (5, admin) ∷ (6, disabled_guest) ∷ [] }

disables : set_user tx admin 6 true 1 ≡ ok (disabled_guest, disabled_tx)
unfolding set_user get put map_rows revoke_sessions
disables = refl

still_working : authenticate disabled_tx 100 77 ≡ ok (admin, session)
unfolding authenticate get
still_working = refl

abbrev left : Meta
left = record tx { sessions = (77, record session { revoked = true }) ∷ (79, guest_session) ∷ [] }

leaves : logout tx session 78 ≡ ok left
unfolding logout put
leaves = refl

abbrev home : Node
home = record root { id = 3; name = 104 ∷ 111 ∷ 109 ∷ 101 ∷ []; parent = some 1 }

abbrev with_home : Meta
with_home = record tx { nodes = (1, root) ∷ (2, note) ∷ (3, home) ∷ [] }

unique : NamesUnique with_home.users
unfolding get
unique i j u v at_i at_j names = ground arith

free : get with_home.users 8 ≡ none
unfolding get
free = refl

abbrev joined : User
joined = record {
  id = 8;
  username = 99 ∷ [];
  password = 1 ∷ password;
  disabled = false;
  admin = false;
  revision = 1;
}

abbrev grown : Meta
grown = record with_home {
  users = (5, admin) ∷ (6, guest) ∷ (8, joined) ∷ [];
  groups = (8, record { id = 8; name = 99 ∷ []; members = 8 ∷ []; revision = 1 }) ∷ [];
  nodes =
      (1, root)
      ∷ (2, note)
      ∷ (3, record home { revision = 2 })
      ∷ (9, new_node 9 (99 ∷ []) (some 3) 8 directory 448)
      ∷ [];
}

joins : create_user derive same sys with_home admin (99 ∷ []) password 8 9 ≡ ok (joined, grown)
unfolding create_user walk split get put require children all is_name password_hash new_node
joins = refl

create_user-NamesUnique_example :
    (joined.username ≡ 99 ∷ []) × (get grown.users 8 ≡ some joined) × NamesUnique grown.users
create_user-NamesUnique_example =
    create_user-NamesUnique derive same sys with_home grown admin joined (99 ∷ []) password 8 9
      unique free joins
