-- ===== src/Control/Ledger.antt =====
-- src/dfsha/control/monolith.py: how a command is authenticated, looked up in the ledger, run and
-- remembered (`authenticated`, `replay`, `remember` and the commands' part of `unary_once`). A
-- transaction that raises leaves its store as it was; the first transaction only reads.
pub mod Replays
use dfsha.Prelude.{
  ℕ, ◌+◌, ◌*◌, ◌^◌, Bool, true, false, ◌&&◌, Option, none, some, Text, length, ltb, ◌==◌, list_eq,
  if◌then◌else◌, first_of?,
}
use dfsha.Common.Domain.{
  Result, ok, fault, ◌>>=◌, ◌>>◌, need, unauthenticated, invalid_argument, idempotency_mismatch,
  service_unavailable, not_found,
}
use dfsha.Control.Table.{Table, get, all, put}
use dfsha.Control.State.{Meta, User, Session, System}
use dfsha.Control.Auth.{authenticate}

-- The command that a request names, as far as the dispatch tells them apart.
pub data Method : Type 0 where
  logout_call change_password_call commit_upload_call commit_write_call : Method
  call_of : ℕ → Method

abbrev pub method_eq : Method → Method → Bool
method_eq logout_call logout_call = true
method_eq change_password_call change_password_call = true
method_eq commit_upload_call commit_upload_call = true
method_eq commit_write_call commit_write_call = true
method_eq (call_of m) (call_of n) = m == n
method_eq _ _ = false

abbrev pub is_logout : Method → Bool
is_logout logout_call = true
is_logout _ = false

abbrev pub is_commit : Method → Bool
is_commit commit_upload_call = true
is_commit commit_write_call = true
is_commit _ = false

-- A request: its context, its body, and the fields that the ledger reads. `password` is there for
-- the messages that have one; `subject_id` and `subject_name` are their `user_id` and `username`.
pub record Request {ℓ} (Body : Type ℓ) : Type ℓ where
  pub user_id : ℕ
  pub service_epoch : ℕ
  pub request_id : ℕ
  pub intent_sha256 : Text
  pub body : Body
  pub password : Option Text
  pub subject_id : ℕ
  pub subject_name : Text

-- A row of the ledger.
pub record Entry : Type 0 where
  pub method : Method
  pub digest : Text
  pub response : Text
  pub password_verifier : Option Text

pub record Store : Type 0 where
  pub meta : Meta
  pub ledger : Table Entry

-- `epoch:user:request`; the three texts have one length, so the number orders and tells apart as
-- the text does.
unfoldable pub ledger_id : ℕ → ℕ → ℕ → ℕ
ledger_id epoch user request = (epoch * 2 ^ 128 + user) * 2 ^ 128 + request

module _ {Body Response : Type 0} (intent : Body → Text) (verify : Text → Text → Bool)
    (encrypt : Response → Text) (decrypt : Text → Result Response) (sys : System) where
  -- `matches(encoded, password)`
  unfoldable pub matches : Text → Text → Bool
  matches encoded password = if ltb 1024 (length password) then false else verify encoded password

  -- `authenticated`
  unfoldable pub authenticated : Meta → ℕ → ℕ → Request Body → Result (User × Session)
  authenticated tx now token request = do
    (user, session) ← authenticate tx now token
    need (request.user_id == user.id && request.service_epoch == sys.epoch) unauthenticated
    ok (user, session)

  -- `if hasattr(request, 'password'): need(matches(…))`
  unfoldable pub same_password : Option Text → Option Text → Bool
  same_password none verifier = true
  same_password (some password) none = false
  same_password (some password) (some verifier) = matches verifier password

  -- `replay`
  unfoldable pub replay : Table Entry → User → Request Body → Method → Result (Option Response)
  replay ledger user request method = do
    need (list_eq request.intent_sha256 (intent request.body)) invalid_argument
    elim (get ledger (ledger_id sys.epoch user.id request.request_id)) [
      | none ↦ ok none
      | some previous ↦ do
        need (method_eq previous.method method && list_eq previous.digest (intent request.body))
            idempotency_mismatch
        need (same_password request.password previous.password_verifier) idempotency_mismatch
        response ← decrypt previous.response
        ok (some response)
    ]

  -- the user whose password a request with one has just set
  unfoldable pub subject_of : Meta → Request Body → Method → Option User
  subject_of tx request change_password_call = get tx.users request.subject_id
  subject_of tx request method =
      first_of? (λ (u : User). list_eq u.username request.subject_name) (all tx.users)

  unfoldable pub verifier_of : Meta → Request Body → Method → Result (Option Text)
  verifier_of tx request method = elim request.password [
    | none ↦ ok none
    | some password ↦ elim (subject_of tx request method) [
      | none ↦ fault not_found
      | some target ↦ ok (some target.password)
    ]
  ]

  -- `remember`
  unfoldable pub remember : Store → User → Request Body → Method → Response → Result Store
  remember store user request method response = do
    verifier ← verifier_of store.meta request method
    ok (record store {
      ledger = put store.ledger (ledger_id sys.epoch user.id request.request_id) (record {
        method = method;
        digest = intent request.body;
        response = encrypt response;
        password_verifier = verifier;
      });
    })

  -- The first transaction: a response that is already there.
  unfoldable pub look_up : Store → ℕ → ℕ → Request Body → Method → Result (Option Response)
  look_up store now token request method =
      let usual = (do
        (user, session) ← authenticated store.meta now token request
        replay store.ledger user request method) in
      elim (get store.meta.sessions token) [
        | none ↦ usual
        | some old ↦
            if is_logout method && old.revoked
            then elim (get store.meta.users old.user) [
              | none ↦ fault not_found
              | some user ↦ do
                need (request.user_id == user.id && request.service_epoch == sys.epoch)
                    unauthenticated
                previous ← replay store.ledger user request method
                elim previous [ none ↦ fault unauthenticated | some response ↦ ok (some response) ]
            ]
            else usual
      ]

  module _ (handle : Meta → User → Session → Request Body → Method → Result (Response × Meta)) where
    -- What the second transaction does behind `replay`.
    unfoldable pub conclude :
        Store → User → Session → Request Body → Method → Option Response → Result (Response × Store)
    conclude store user session request method (some response) = ok (response, store)
    conclude store user session request method none = do
      (response, tx) ← handle store.meta user session request method
      store' ← remember (record store { meta = tx }) user request method response
      ok (response, store')

    -- The second transaction.
    unfoldable pub commit : Store → ℕ → ℕ → Request Body → Method → Result (Response × Store)
    commit store now token request method = do
      (user, session) ← authenticated store.meta now token request
      previous ← replay store.ledger user request method
      conclude store user session request method previous

    -- `unary_once` for a command without a step between its two transactions, which may see
    -- different stores; `drops` is the marker `after_commit_drop_response`.
    unfoldable pub unary_once :
        Store → ℕ → Store → ℕ → Bool → ℕ → Request Body → Method → Result Response × Store
    unary_once before now store later drops token request method =
        elim (look_up before now token request method) [
          | fault r ↦ (fault r, store)
          | ok (some response) ↦ (ok response, store)
          | ok none ↦ elim (commit store later token request method) [
            | fault r ↦ (fault r, store)
            | ok (response, store') ↦ (
              if is_commit method && drops then fault service_unavailable else ok response,
              store',
            )
          ]
        ]
