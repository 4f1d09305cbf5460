-- ===== src/Control/Identity/Revocation.antt =====
-- What the handlers of src/dfsha/control/commands.py for users and sessions leave behind: which
-- sessions a change ends, and that names stay unique.
use dfsha.Prelude.{
  ℕ, ◌≡◌, ◌≢◌, sym, ap, ◌∙◌, true, false, not, ◌&&◌, some, Text, arith, ◌==◌, if◌then◌else◌,
}
use dfsha.Common.Domain.{Result, ok, fault, unauthenticated}
use dfsha.Control.Table.{Table, get, get-map_rows, get-put_self}
use dfsha.Control.State.{Meta, User, Session}
use dfsha.Control.Auth.{authenticate}
use dfsha.Control.Auth.Rights.{authenticate_sound}
use dfsha.Control.Identity.{revoke_sessions, set_user, logout, change_password}

abbrev ended : ℕ → Session → Session
ended identity s = if s.user == identity && not s.revoked then record s { revoked = true } else s

ended_lem :
    (w s : Session) (identity : ℕ) → s ≡ ended identity w → s.revoked ≡ false → s.user ≢ identity
ended_lem w s identity is live mine =
    let user : s.user ≡ (ended identity w).user = ap (λ (x : Session). x.user) is in
    let revoked : s.revoked ≡ (ended identity w).revoked = ap (λ (x : Session). x.revoked) is in
    ground (arith, user, revoked)

revoke_sessions_lem :
    (tx : Meta) (identity token : ℕ) (s : Session)
    → get (revoke_sessions identity tx).sessions token ≡ some s
    → s.revoked ≡ false
    → s.user ≢ identity
unfolding revoke_sessions
revoke_sessions_lem tx identity token s e live =
    let (w, found, is) = get-map_rows (ended identity) tx.sessions token s e in
    ended_lem w s identity is live

change_password-sessions :
    (derive : Text → Result Text) (tx tx' : Meta) (user u : User) (user_id : ℕ) (password : Text)
    (revision : ℕ)
    → change_password derive tx user user_id password revision ≡ ok (u, tx')
    → tx'.sessions ≡ (revoke_sessions u.id tx).sessions
unfolding change_password revoke_sessions
change_password-sessions derive tx tx' user u user_id password revision e = ground arith

set_user-sessions :
    (tx tx' : Meta) (user u : User) (user_id revision : ℕ)
    → set_user tx user user_id true revision ≡ ok (u, tx')
    → tx'.sessions ≡ (revoke_sessions u.id tx).sessions
unfolding set_user revoke_sessions
set_user-sessions tx tx' user u user_id revision e = ground arith

ended_by :
    (tx tx' : Meta) (identity now token : ℕ) (v : User) (s : Session)
    → tx'.sessions ≡ (revoke_sessions identity tx).sessions
    → authenticate tx' now token ≡ ok (v, s)
    → s.user ≢ identity
ended_by tx tx' identity now token v s e a =
    let (found, live, in_time, known, enabled) = authenticate_sound tx' now token v s a in
    revoke_sessions_lem tx identity token s
      (ap (λ (t : Table Session). get t token) (sym e) ∙ found) live

-- Once a password is changed, no session of that user authenticates a request.
pub change_password_revokes :
    (derive : Text → Result Text) (tx tx' : Meta) (user u v : User) (user_id : ℕ) (password : Text)
    (revision now token : ℕ) (s : Session)
    → change_password derive tx user user_id password revision ≡ ok (u, tx')
    → authenticate tx' now token ≡ ok (v, s)
    → s.user ≢ u.id
change_password_revokes derive tx tx' user u v user_id password revision now token s e a =
    ended_by tx tx' u.id now token v s
      (change_password-sessions derive tx tx' user u user_id password revision e) a

-- Once a user is disabled, none of the user's sessions authenticates a request.
pub set_user_revokes :
    (tx tx' : Meta) (user u v : User) (user_id revision now token : ℕ) (s : Session)
    → set_user tx user user_id true revision ≡ ok (u, tx')
    → authenticate tx' now token ≡ ok (v, s)
    → s.user ≢ u.id
set_user_revokes tx tx' user u v user_id revision now token s e a =
    ended_by tx tx' u.id now token v s (set_user-sessions tx tx' user u user_id revision e) a

-- A session that logged out does not authenticate, at any time.
pub logout_ends :
    (tx tx' : Meta) (session : Session) (session_id now : ℕ)
    → logout tx session session_id ≡ ok tx'
    → authenticate tx' now session.id ≡ fault unauthenticated
unfolding logout authenticate
logout_ends tx tx' session session_id now e =
    ground (arith, get-put_self tx.sessions session.id (record session { revoked = true }))
