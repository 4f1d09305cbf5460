-- ===== src/Control/Login/Sessions.antt =====
-- src/dfsha/control/monolith.py: what a login gives, and that it may be repeated.
use dfsha.Prelude.{sym, ℕ, ◌≡◌, ap, ◌∙◌, ◌<◌, ◌+◌, true, false, none, some, Text, list_eq, arith}
use dfsha.Common.Domain.{Result, ok}
use dfsha.Control.Table.{get, get-put_self}
use dfsha.Control.State.{User, System, Config}
use dfsha.Control.Auth.{authenticate}
use dfsha.Control.Login.{
  Door, SignedIn, sign_in, is_active, new_session, answer_with, enter_session, settle_login, again,
}
use dfsha.Control.Handles.{found}

module _ (hash : Text → ℕ) (seal : SignedIn → Text) (unseal : Text → Result SignedIn) (sys : System)
    (cfg : Config) where
  abbrev pub ask : Door → ℕ → ℕ → Text → ℕ → User → Result (SignedIn × Door)
  ask = sign_in hash seal unseal sys cfg

  -- the user's row passed the tests of the third transaction
  LetsIn : Door → User → User → Type 0
  LetsIn door user current =
      (get door.meta.users user.id ≡ some current)
      × (current.disabled ≡ false)
      × (list_eq current.password user.password ≡ true)

  sign_in-new :
      (door door' : Door) (now login_id fresh : ℕ) (token : Text) (user : User) (answer : SignedIn)
      → get door.results login_id ≡ none
      → ask door now login_id token fresh user ≡ ok (answer, door')
      → (current : User) × LetsIn door user current
        × (enter_session hash seal unseal sys cfg door login_id token
              (new_session hash seal unseal sys cfg now token fresh user)
            ≡ (answer, door'))
  unfolding sign_in settle_login found LetsIn
  sign_in-new door door' now login_id fresh token user answer none_yet e = ground arith

  -- A new login leaves the users.
  pub sign_in-users :
      (door door' : Door) (now login_id fresh : ℕ) (token : Text) (user : User) (answer : SignedIn)
      → get door.results login_id ≡ none
      → ask door now login_id token fresh user ≡ ok (answer, door')
      → door'.meta.users ≡ door.meta.users
  unfolding enter_session
  sign_in-users door door' now login_id fresh token user answer none_yet e =
      let (current, passed, is) =
        sign_in-new door door' now login_id fresh token user answer none_yet e in
      ap (λ (r : SignedIn × Door). r.1.meta.users) (sym is)

  -- A login that is new gives a token that authenticates until it expires.
  pub sign_in_authenticates :
      (door door' : Door) (now later login_id fresh : ℕ) (token : Text) (user : User)
      (answer : SignedIn)
      → get door.results login_id ≡ none
      → ask door now login_id token fresh user ≡ ok (answer, door')
      → later < now + 3600000
      → (current : User) × (authenticate door'.meta later (hash token)
          ≡ ok (current, new_session hash seal unseal sys cfg now token fresh user))
        × (answer.token ≡ token)
  unfolding authenticate enter_session new_session answer_with LetsIn
  sign_in_authenticates door door' now later login_id fresh token user answer none_yet e early =
      let (current, (known, enabled, same), is) =
        sign_in-new door door' now login_id fresh token user answer none_yet e in
      let stored =
        get-put_self door.meta.sessions (hash token)
          (new_session hash seal unseal sys cfg now token fresh user) in
      (current, ground arith, ground arith)

  -- With metadata that are protected, a login that is new gives its caller a token that authenticates
  -- the session for an hour; the request that is sent again in that time, with whatever token and
  -- id are drawn for it, gets the first answer again and changes nothing. The cipher opens what it
  -- sealed.
  pub sign_in_repeats :
      (door door' : Door) (now later login_id fresh fresh' : ℕ) (token token' : Text) (user : User)
      (answer : SignedIn)
      → ((a : SignedIn) → unseal (seal a) ≡ ok a)
      → cfg.protected ≡ true
      → get door.results login_id ≡ none
      → ask door now login_id token fresh user ≡ ok (answer, door')
      → later < now + 3600000
      → (ask door' later login_id token' fresh' user ≡ ok (answer, door'))
        × (current : User) × (authenticate door'.meta later (hash answer.token)
            ≡ ok (current, new_session hash seal unseal sys cfg now token fresh user))
  unfolding sign_in settle_login again is_active found enter_session new_session answer_with LetsIn
  sign_in_repeats door door' now later login_id fresh fresh' token token' user answer unseal-seal on
        none_yet e early =
      let (current, (known, enabled, same), is) =
        sign_in-new door door' now login_id fresh token user answer none_yet e in
      let session = new_session hash seal unseal sys cfg now token fresh user in
      let stored = get-put_self door.meta.sessions (hash token) session in
      let kept = get-put_self door.results login_id (record {
        session = hash token;
        expires = now + 3600000;
        response = seal (answer_with hash seal unseal sys cfg token session);
      }) in
      let back = unseal-seal (answer_with hash seal unseal sys cfg token session) in
      let (known_user, opens, is_token) =
        sign_in_authenticates door door' now later login_id fresh token user answer none_yet e
          early in
      (ground arith, known_user, ap (λ t. authenticate door'.meta later (hash t)) is_token ∙ opens)
