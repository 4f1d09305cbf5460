-- ===== src/Scenarios/Calls.antt =====
-- Commands that are retried, and requests that go to more than one endpoint.
use dfsha.Prelude.{
  ℕ, ◌+◌, ◌*◌, ◌==◌, if◌then◌else◌, ◌≡◌, ◌⊎◌, refl, Bool, true, false, none, some, [], ◌∷◌, Text,
  list_eq, Option, get_elem?,
}
use dfsha.Common.Domain.{Result, ok}
use dfsha.Control.Table.{get, put}
use dfsha.Control.State.{Meta, User, Session}
use dfsha.Control.Auth.{authenticate}
use dfsha.Control.Ledger.{
  Method, call_of, Request, Entry, Store, ledger_id, authenticated, replay, remember, commit,
  conclude, unary_once, verifier_of,
}
use dfsha.Control.Ledger.Replays.{IsReplayed, commit_once, retry_replays}
use dfsha.Common.Failover.{
  unavailable, RpcError, Reply, response, rpc_error, Channel, Attempt, retries, invoke, invoke_from,
  allowed_time, budget_of, settle, goes_on,
}
use dfsha.Common.Failover.Attempts.{Ends, invoke-Ends}
use dfsha.Scenarios.World.{sys, admin, session, tx}

abbrev intent : Text → Text
intent body = body

abbrev verify : Text → Text → Bool
verify encoded password = list_eq encoded password

abbrev encrypt : Text → Text
encrypt answer = answer

abbrev decrypt : Text → Result Text
decrypt text = ok text

abbrev handle : Meta → User → Session → Request Text → Method → Result (Text × Meta)
handle t u s r m = ok (4 ∷ [], record t { lock_sequence = t.lock_sequence + 1 })

abbrev request : Request Text
request = record {
  user_id = 5;
  service_epoch = 9;
  request_id = 1;
  intent_sha256 = 3 ∷ [];
  body = 3 ∷ [];
  password = none;
  subject_id = 0;
  subject_name = [];
}

abbrev before : Store
before = record { meta = tx; ledger = [] }

abbrev entry : Entry
entry = record { method = call_of 2; digest = 3 ∷ []; response = 4 ∷ []; password_verifier = none }

abbrev after : Store
after = record {
  meta = record tx { lock_sequence = 1 };
  ledger = (ledger_id sys.epoch 5 1, entry) ∷ [];
}

commits :
    commit intent verify encrypt decrypt sys handle before 100 77 request (call_of 2)
    ≡ ok (4 ∷ [], after)
unfolding commit conclude remember authenticated authenticate replay get put verifier_of
commits = refl

commit_once_example :
    (IsReplayed intent verify encrypt decrypt sys handle before.ledger request (call_of 2) (4 ∷ [])
      × (after ≡ before))
    ⊎ ((list_eq request.intent_sha256 (intent request.body) ≡ true)
        × (get before.ledger (ledger_id sys.epoch request.user_id request.request_id) ≡ none)
        × (user : User) × (session : Session) × (authenticate before.meta 100 77
            ≡ ok (user, session))
        × (handle before.meta user session request (call_of 2) ≡ ok ((4 ∷ []), after.meta))
        × (v : Option Text) × (get after.ledger
              (ledger_id sys.epoch request.user_id request.request_id)
            ≡ some (record {
              method = call_of 2;
              digest = intent request.body;
              response = encrypt (4 ∷ []);
              password_verifier = v;
            })))
commit_once_example =
    commit_once intent verify encrypt decrypt sys handle before after 100 77 request (call_of 2)
      (4 ∷ []) commits

known :
    authenticated intent verify encrypt decrypt sys after.meta 200 77 request ≡ ok (admin, session)
unfolding authenticated authenticate get
known = refl

row : get after.ledger (ledger_id sys.epoch 5 1) ≡ some entry
unfolding get ledger_id
row = refl

retry_replays_example :
    unary_once intent verify encrypt decrypt sys handle after 200 before 210 true 77 request
      (call_of 2)
    ≡ (ok (4 ∷ []), before)
retry_replays_example =
    retry_replays intent verify encrypt decrypt sys handle before after before 100 200 210 77 77
      true request (call_of 2) (4 ∷ []) admin session refl refl commits known

abbrev clock : ℕ → ℕ
clock attempt = 10000 + 100 * attempt

abbrev down : RpcError
down = record { code = unavailable; has_reason = false }

abbrev call : ℕ → ℕ → ℕ → Reply
call endpoint attempt budget = if endpoint == 0 then response (7 ∷ []) else rpc_error down

abbrev channel : Channel
channel = record { index = 2; closed = false; sent_bytes = 0; received_bytes = 0 }

abbrev first_try : Attempt
first_try = record { endpoint = 2; budget = 35000 }

abbrev second_try : Attempt
second_try = record { endpoint = 0; budget = 35000 }

first_made : get_elem? (invoke 3 false 12 none clock call 10000 channel).2 0 ≡ some first_try
unfolding invoke invoke_from settle budget_of allowed_time retries goes_on
first_made = refl

second_made : get_elem? (invoke 3 false 12 none clock call 10000 channel).2 1 ≡ some second_try
unfolding invoke invoke_from settle budget_of allowed_time retries goes_on
second_made = refl

invoke-Ends_example :
    let r = invoke 3 false 12 none clock call 10000 channel in
    Ends 3 false 12 none clock call false 0 none r.2 r.0 r.1.index
invoke-Ends_example = invoke-Ends 3 false 12 none clock call 10000 channel
