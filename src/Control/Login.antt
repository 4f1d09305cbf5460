-- ===== src/Control/Login.antt =====
-- src/dfsha/control/monolith.py: `Login`, as its transactions: the rates, the user that is read, and the
-- session that is written, each on the store that it sees. The hashes, the test of a password and
-- the cipher of answers are parameters; the metadata are in SQLite, so there is no `session_live`.
pub mod Sessions
pub mod Entry
pub mod Rates
use dfsha.Prelude.{
  ℕ, ◌+◌, ◌/◌, Bool, true, false, not, ◌&&◌, Option, none, some, List, [], ◌∷◌, Text, length, ltb,
  leb, ◌==◌, list_eq, if◌then◌else◌, keep_if, first_of?, sum_by,
}
use dfsha.Common.Domain.{Result, ok, fault, ◌>>=◌, ◌>>◌, need, unauthenticated, limit_exceeded}
use dfsha.Control.Table.{Table, get, all, put}
use dfsha.Control.State.{Meta, User, Session, System, Config}
use dfsha.Control.Handles.{found}

-- A row `auth-rate`.
pub record Rate : Type 0 where
  pub window : ℕ
  pub count : ℕ

-- `Session` of the answer.
pub record SignedIn : Type 0 where
  pub token : Text
  pub session_id : ℕ
  pub user_id : ℕ
  pub expires_at_unix_ms : ℕ
  pub service_epoch : ℕ

-- A row `login-result`.
pub record LoginResult : Type 0 where
  pub session : ℕ
  pub expires : ℕ
  pub response : Text

-- What the third transaction sees.
pub record Door : Type 0 where
  pub meta : Meta
  pub results : Table LoginResult

-- The store as the transactions of a login leave it.
pub record Lobby : Type 0 where
  pub door : Door
  pub rates : Table Rate

-- What is drawn and computed for one request: its row, the row of its name, a token and an id.
pub record Draw : Type 0 where
  pub login_id : ℕ
  pub bucket : ℕ
  pub token : Text
  pub fresh : ℕ

-- `LoginRequest`
pub record Login : Type 0 where
  pub request_id : ℕ
  pub username : Text
  pub password : Text

unfoldable pub rate_of : ℕ → Option Rate → Rate
rate_of window none = record { window = window; count = 0 }
rate_of window (some r) = if r.window == window then r else record { window = window; count = 0 }

-- The test of the lengths, which comes first; the request's id is a uuid.
unfoldable pub is_sized : Login → Bool
is_sized req =
    leb 1 (length req.username) && leb (length req.username) 64 && leb (length req.password) 1024

-- One round of the loop over the two rates.
unfoldable pub take_rate : ℕ → ℕ → ℕ → Table Rate → Result (Table Rate)
take_rate window identity limit rates = do
  let rate = rate_of window (get rates identity)
  need (ltb rate.count limit) limit_exceeded
  ok (put rates identity (record rate { count = rate.count + 1 }))

-- The first transaction; the two ids are those of the rows that the request counts in.
unfoldable pub admit_login : ℕ → ℕ → ℕ → Table Rate → Result (Table Rate)
admit_login now everyone bucket rates = do
  rates' ← take_rate (now / 60000) everyone 60 rates
  take_rate (now / 60000) bucket 10 rates'

-- `not s['revoked'] and s['expires'] > now()`
unfoldable pub is_active : ℕ → Session → Bool
is_active now s = not s.revoked && ltb now s.expires

unfoldable pub of_user : ℕ → Session → ℕ
of_user user s = if s.user == user then 1 else 0

-- The sessions that are open leave room for one more.
unfoldable pub has_place : ℕ → ℕ → Table Session → Bool
has_place now user sessions =
    let active = keep_if (is_active now) (all sessions) in
    ltb (length active) 128 && ltb (sum_by (of_user user) active) 8

module _ (is_match : Text → Text → Bool) (dummy : Text) where
  -- The second transaction: the user whose password it is.
  unfoldable pub find_user : Meta → Login → Result User
  find_user tx req = do
    let row = first_of? (λ (u : User). list_eq u.username req.username) (all tx.users)
    let valid = is_match (elim row [ none ↦ dummy | some u ↦ u.password ]) req.password
    user ← found unauthenticated row
    need (not user.disabled && valid) unauthenticated
    ok user

module _ (hash : Text → ℕ) (seal : SignedIn → Text) (unseal : Text → Result SignedIn) (sys : System)
    (cfg : Config) where
  unfoldable pub new_session : ℕ → Text → ℕ → User → Session
  new_session now token fresh user = record {
    id = hash token;
    session_id = fresh;
    user = user.id;
    expires = now + 3600000;
    revoked = false;
  }

  unfoldable pub answer_with : Text → Session → SignedIn
  answer_with token session = record {
    token = token;
    session_id = session.session_id;
    user_id = session.user;
    expires_at_unix_ms = session.expires;
    service_epoch = sys.epoch;
  }

  -- the writes of a login that is new
  unfoldable pub enter_session : Door → ℕ → Text → Session → SignedIn × Door
  enter_session door login_id token session =
      let meta : Meta = record (door.meta) {
        sessions = put door.meta.sessions session.id session;
      } in
      let row : LoginResult = record {
        session = session.id;
        expires = session.expires;
        response = seal (answer_with token session);
      } in
      (
        answer_with token session,
        record {
          meta = meta;
          results = if cfg.protected then put door.results login_id row else door.results;
        },
      )

  -- a login that is repeated gets its answer again, while its session lives
  unfoldable pub again : Door → ℕ → LoginResult → Result (SignedIn × Door)
  again door now previous = do
    live ← found unauthenticated (get door.meta.sessions previous.session)
    need (is_active now live) unauthenticated
    answer ← unseal previous.response
    ok (answer, door)

  unfoldable pub settle_login :
      Door → ℕ → ℕ → Text → Session → Option LoginResult → Result (SignedIn × Door)
  settle_login door now login_id token session (some previous) = again door now previous
  settle_login door now login_id token session none = do
    need (has_place now session.user door.meta.sessions) limit_exceeded
    ok (enter_session door login_id token session)

  -- The third transaction, for the user that was read; a user's row is never removed.
  unfoldable pub sign_in : Door → ℕ → ℕ → Text → ℕ → User → Result (SignedIn × Door)
  sign_in door now login_id token fresh user = do
    current ← found unauthenticated (get door.meta.users user.id)
    need (not current.disabled && list_eq current.password user.password) unauthenticated
    let session = new_session now token fresh user
    let earlier = get door.results login_id
    if cfg.protected
        then settle_login door now login_id token session earlier
        else ok (enter_session door login_id token session)

  module _ (is_match : Text → Text → Bool) (dummy : Text) (everyone : ℕ) where
    -- the second and the third transaction; `rates` stay as the first one left them
    unfoldable pub after_rates :
        Lobby → ℕ → Login → Draw → Result (Table Rate) → Result SignedIn × Lobby
    after_rates lobby now req draw (fault reason) = (fault reason, lobby)
    after_rates lobby now req draw (ok rates) =
        let signed = do
          user ← find_user is_match dummy lobby.door.meta req
          sign_in lobby.door now draw.login_id draw.token draw.fresh user
        in elim signed [
          | fault reason ↦ (fault reason, record lobby { rates = rates })
          | ok (answer, door) ↦ (ok answer, record { door = door; rates = rates })
        ]

    -- `Login`
    unfoldable pub login : Lobby → ℕ → Login → Draw → Result SignedIn × Lobby
    login lobby now req draw =
        if is_sized req
        then after_rates lobby now req draw (
            if cfg.protected
            then admit_login now everyone draw.bucket lobby.rates
            else ok lobby.rates)
        else (fault unauthenticated, lobby)
