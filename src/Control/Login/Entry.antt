-- ===== src/Control/Login/Entry.antt =====
-- src/dfsha/control/monolith.py: who gets in by `Login`.
use dfsha.Prelude.{
  if◌then◌else◌, refl, first_of?, some, ℕ, ◌≡◌, ◌<◌, ◌+◌, ap, ◌∙◌, true, false, none, Text, list_eq,
  arith, first_of?-passes, Bool,
}
use dfsha.Common.Domain.{fault, Result, ok}
use dfsha.Control.Table.{Table, get, all}
use dfsha.Control.State.{Meta, User, System, Config}
use dfsha.Control.Auth.{authenticate}
use dfsha.Control.Handles.{found}
use dfsha.Control.Login.{
  Lobby, Draw, Login, SignedIn, find_user, sign_in, new_session, login, after_rates, admit_login,
  is_sized, Rate,
}
use dfsha.Control.Login.Sessions.{sign_in_authenticates, sign_in_repeats, sign_in-users}

-- The user is the first of the stored ones with the name of the request, has its password, and is
-- not disabled.
pub IsUser : (Text → Text → Bool) → Meta → Login → User → Type 0
IsUser is_match tx req user =
    (first_of? (λ (u : User). list_eq u.username req.username) (all tx.users) ≡ some user)
    × (list_eq user.username req.username ≡ true)
    × (is_match user.password req.password ≡ true)
    × (user.disabled ≡ false)

find_user-IsUser :
    (is_match : Text → Text → Bool) (dummy : Text) (tx : Meta) (req : Login) (user : User)
    → find_user is_match dummy tx req ≡ ok user
    → IsUser is_match tx req user
unfolding find_user IsUser found
find_user-IsUser is_match dummy tx req user e =
    let name =
      first_of?-passes (λ (u : User). list_eq u.username req.username) (all tx.users) user in
    ground (arith, name)

if_true {ℓ} : {A : Type ℓ} (b : Bool) (x y : A) → b ≡ true → (if b then x else y) ≡ x
if_true true x y e = refl
if_true false x y e = absurd (cc)

module _ (hash : Text → ℕ) (seal : SignedIn → Text) (unseal : Text → Result SignedIn) (sys : System)
    (cfg : Config) (is_match : Text → Text → Bool) (dummy : Text) (everyone : ℕ) where
  login-steps :
      (lobby lobby' : Lobby) (now : ℕ) (req : Login) (draw : Draw) (answer : SignedIn)
      → login hash seal unseal sys cfg is_match dummy everyone lobby now req draw
        ≡ (ok answer, lobby')
      → (user : User) × (is_sized req ≡ true)
        × (find_user is_match dummy lobby.door.meta req ≡ ok user)
        × (sign_in hash seal unseal sys cfg lobby.door now draw.login_id draw.token draw.fresh user
            ≡ ok (answer, lobby'.door))
  unfolding login after_rates
  login-steps lobby lobby' now req draw answer e = ground arith

  -- A login that answers and that was not answered before is one whose name and password are those
  -- of a stored user that is not disabled, and the token of the answer then authenticates a session of that
  -- user until an hour has passed.
  pub login_sound :
      (lobby lobby' : Lobby) (now later : ℕ) (req : Login) (draw : Draw) (answer : SignedIn)
      → get lobby.door.results draw.login_id ≡ none
      → login hash seal unseal sys cfg is_match dummy everyone lobby now req draw
        ≡ (ok answer, lobby')
      → later < now + 3600000
      → (user : User) × (current : User) × IsUser is_match lobby.door.meta req user
        × (authenticate lobby'.door.meta later (hash answer.token)
            ≡ ok (current, new_session hash seal unseal sys cfg now draw.token draw.fresh user))
  login_sound lobby lobby' now later req draw answer none_yet e early =
      let (user, sized, is_found, signed) = login-steps lobby lobby' now req draw answer e in
      let (current, opens, is_token) =
        sign_in_authenticates hash seal unseal sys cfg lobby.door lobby'.door now later
          draw.login_id draw.fresh draw.token user answer none_yet signed early in
      (
        user,
        current,
        find_user-IsUser is_match dummy lobby.door.meta req user is_found,
        ap (λ t. authenticate lobby'.door.meta later (hash t)) is_token ∙ opens,
      )

  find_user-users :
      (tx tx' : Meta) (req : Login)
      → tx'.users ≡ tx.users
      → find_user is_match dummy tx' req ≡ find_user is_match dummy tx req
  unfolding find_user
  find_user-users tx tx' req same = rw same refl

  -- What a login that was answered answers, behind the rates: the answer, with the rates taken.
  pub repeated : SignedIn → Lobby → Result (Table Rate) → Result SignedIn × Lobby
  repeated answer lobby (fault reason) = (fault reason, lobby)
  repeated answer lobby (ok rates) = (ok answer, record lobby { rates = rates })

  after_rates-repeated :
      (lobby : Lobby) (now : ℕ) (req : Login) (draw : Draw) (user : User) (answer : SignedIn)
      (taken : Result (Table Rate))
      → find_user is_match dummy lobby.door.meta req ≡ ok user
      → sign_in hash seal unseal sys cfg lobby.door now draw.login_id draw.token draw.fresh user
        ≡ ok (answer, lobby.door)
      → after_rates hash seal unseal sys cfg is_match dummy everyone lobby now req draw taken
        ≡ repeated answer lobby taken
  unfolding after_rates repeated
  after_rates-repeated lobby now req draw user answer (fault reason) is_found signed = refl
  after_rates-repeated lobby now req draw user answer (ok rates) is_found signed = ground arith

  -- With protected metadata, a login that was answered for the first time and is sent again within
  -- the hour takes its part of the rates as any login does, and is refused where they refuse it;
  -- otherwise it gets the first answer again, whatever token and id are drawn for it, and changes
  -- nothing but the rates. The token of the answer authenticates then. The cipher opens what it
  -- sealed.
  pub login_repeats :
      (lobby lobby' : Lobby) (now later : ℕ) (req : Login) (draw draw' : Draw) (answer : SignedIn)
      → ((a : SignedIn) → unseal (seal a) ≡ ok a)
      → cfg.protected ≡ true
      → get lobby.door.results draw.login_id ≡ none
      → draw'.login_id ≡ draw.login_id
      → login hash seal unseal sys cfg is_match dummy everyone lobby now req draw
        ≡ (ok answer, lobby')
      → later < now + 3600000
      → (login hash seal unseal sys cfg is_match dummy everyone lobby' later req draw'
          ≡ repeated answer lobby' (admit_login later everyone draw'.bucket lobby'.rates))
        × (user : User) × (current : User) × (authenticate lobby'.door.meta later
              (hash answer.token)
            ≡ ok (current, new_session hash seal unseal sys cfg now draw.token draw.fresh user))
  unfolding login
  login_repeats lobby lobby' now later req draw draw' answer opens on none_yet same e early =
      let (user, sized, is_found, signed) = login-steps lobby lobby' now req draw answer e in
      let (again, current, opens_it) =
        sign_in_repeats hash seal unseal sys cfg lobby.door lobby'.door now later draw.login_id
          draw.fresh draw'.fresh draw.token draw'.token user answer opens on none_yet signed
          early in
      let users =
        sign_in-users hash seal unseal sys cfg lobby.door lobby'.door now draw.login_id draw.fresh
          draw.token user answer none_yet signed in
      let found = find_user-users lobby.door.meta lobby'.door.meta req users ∙ is_found in
      let signed' =
        ap (λ i. sign_in hash seal unseal sys cfg lobby'.door later i draw'.token draw'.fresh user)
          same
        ∙ again in
      let taking = admit_login later everyone draw'.bucket lobby'.rates in
      let pick : (if cfg.protected then taking else ok lobby'.rates) ≡ taking =
        if_true cfg.protected taking (ok lobby'.rates) on in
      (
        rw sized (
            ap
              (λ r.
                after_rates hash seal unseal sys cfg is_match dummy everyone lobby' later req draw'
                  r)
              pick
            ∙ after_rates-repeated lobby' later req draw' user answer
                (admit_login later everyone draw'.bucket lobby'.rates) found signed'),
        user,
        current,
        opens_it,
      )
