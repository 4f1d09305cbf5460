-- ===== src/Scenarios/Logins.antt =====
-- A login, the login that is sent again, and the rates of one minute.
use dfsha.Prelude.{
  ◌≡◌, refl, true, false, none, [], ◌∷◌, arith, Text, ℕ, ◌≤◌, Bool, list_eq, length, List,
}
use dfsha.Common.Domain.{Result, ok, fault, unauthenticated}
use dfsha.Control.Table.{Table, get, put, all}
use dfsha.Control.State.{User, Session, Config}
use dfsha.Control.Auth.{authenticate}
use dfsha.Control.Handles.{found}
use dfsha.Control.Login.{
  Rate, SignedIn, Door, Lobby, Draw, Login, rate_of, take_rate, admit_login, is_sized, is_active,
  of_user, has_place, find_user, new_session, answer_with, enter_session, settle_login, sign_in,
  after_rates, login,
}
use dfsha.Control.Login.Entry.{IsUser, login_sound, repeated, login_repeats}
use dfsha.Control.Login.Rates.{LoginAttempt, admitted, of_bucket, admitted_bounded}
use dfsha.Scenarios.World.{sys, admin, tx}

-- A password is its own hash, and a session is written as it is.
abbrev is_match : Text → Text → Bool
is_match stored given = list_eq stored given

abbrev token_hash : Text → ℕ
token_hash [] = 0
token_hash (c ∷ rest) = c

abbrev seal : SignedIn → Text
seal a = a.session_id ∷ a.user_id ∷ a.expires_at_unix_ms ∷ a.service_epoch ∷ a.token

abbrev unseal : Text → Result SignedIn
unseal (session_id ∷ user_id ∷ expires ∷ epoch ∷ token) = ok (record {
  token = token;
  session_id = session_id;
  user_id = user_id;
  expires_at_unix_ms = expires;
  service_epoch = epoch;
})
unseal text = fault unauthenticated

unseal-seal : (a : SignedIn) → unseal (seal a) ≡ ok a
unseal-seal a = refl

abbrev cfg : Config
cfg = record { protected = true; max_file_bytes = 1000; block_size_bytes = 64 }

abbrev door : Door
door = record { meta = tx; results = [] }

abbrev lobby : Lobby
lobby = record { door = door; rates = [] }

abbrev draw : Draw
draw = record { login_id = 500; bucket = 3; token = 90 ∷ 1 ∷ []; fresh = 91 }

abbrev request : Login
request = record { request_id = 1; username = 97 ∷ []; password = [] }

abbrev entered : SignedIn
entered = record {
  token = 90 ∷ 1 ∷ [];
  session_id = 91;
  user_id = 5;
  expires_at_unix_ms = 3600100;
  service_epoch = 9;
}

abbrev opened_session : Session
opened_session = record { id = 90; session_id = 91; user = 5; expires = 3600100; revoked = false }

abbrev door_after : Door
door_after = record {
  meta = record tx { sessions = put tx.sessions 90 opened_session };
  results = (500, record { session = 90; expires = 3600100; response = seal entered }) ∷ [];
}

abbrev lobby_after : Lobby
lobby_after = record {
  door = door_after;
  rates = (1, record { window = 0; count = 1 }) ∷ (3, record { window = 0; count = 1 }) ∷ [];
}

none_yet : get door.results 500 ≡ none
unfolding get
none_yet = refl

enters :
    sign_in token_hash seal unseal sys cfg door 100 500 (90 ∷ 1 ∷ []) 91 admin
    ≡ ok (entered, door_after)
unfolding sign_in settle_login found has_place is_active of_user new_session answer_with
    enter_session get put all
enters = refl

logs_on :
    login token_hash seal unseal sys cfg is_match [] 1 lobby 100 request draw
    ≡ (ok entered, lobby_after)
unfolding login after_rates admit_login take_rate rate_of is_sized find_user sign_in settle_login
    found has_place is_active of_user new_session answer_with enter_session get put all
logs_on = refl

abbrev other_draw : Draw
other_draw = record { login_id = 500; bucket = 3; token = 95 ∷ []; fresh = 96 }

login_repeats_example :
    (login token_hash seal unseal sys cfg is_match [] 1 lobby_after 200 request other_draw
      ≡ repeated token_hash seal unseal sys cfg is_match [] 1 entered lobby_after
          (admit_login 200 1 3 lobby_after.rates))
    × (user : User) × (current : User) × (authenticate lobby_after.door.meta 200
          (token_hash entered.token)
        ≡ ok (current, new_session token_hash seal unseal sys cfg 100 draw.token draw.fresh user))
login_repeats_example =
    login_repeats token_hash seal unseal sys cfg is_match [] 1 lobby lobby_after 100 200 request
      draw other_draw entered unseal-seal refl none_yet refl logs_on (omega arith)

login_sound_example :
    (user : User) × (current : User) × IsUser is_match lobby.door.meta request user
    × (authenticate lobby_after.door.meta 200 (token_hash entered.token)
        ≡ ok (current, new_session token_hash seal unseal sys cfg 100 draw.token draw.fresh user))
login_sound_example =
    login_sound token_hash seal unseal sys cfg is_match [] 1 lobby lobby_after 100 200 request draw
      entered none_yet logs_on (omega arith)

abbrev attempts : List LoginAttempt
attempts =
    record { time = 120001; bucket = 3 }
    ∷ record { time = 120002; bucket = 4 }
    ∷ record { time = 179999; bucket = 3 }
    ∷ []

abbrev rates_before : Table Rate
rates_before = (1, record { window = 2; count = 59 }) ∷ (3, record { window = 2; count = 9 }) ∷ []

one_admitted : admitted 1 rates_before attempts ≡ record { time = 120001; bucket = 3 } ∷ []
unfolding admitted admit_login take_rate rate_of get put
one_admitted = refl

admitted_bounded_example :
    (length (admitted 1 rates_before attempts) ≤ 60)
    × (of_bucket 3 (admitted 1 rates_before attempts) ≤ 10)
unfolding rate_of get
admitted_bounded_example =
    admitted_bounded 2 1 3 attempts rates_before
      ((refl, omega arith), ((refl, omega arith), ((refl, omega arith), tt))) (omega arith)
      (omega arith) (omega arith)
