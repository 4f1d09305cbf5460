-- ===== src/Control/Ledger/Replays.antt =====
-- A command takes effect at most once: the ledger of src/dfsha/control/monolith.py.
use dfsha.Prelude.{
  ℕ, ◌≡◌, ◌⊎◌, inl, inr, refl, sym, ap, ◌∙◌, Bool, true, false, ◌&&◌, Option, none, some, Text,
  arith, Option-cases, subst, list_eq, list_eq_refl,
}
use dfsha.Common.Domain.{Result, ok, >>=-eq-ok}
use dfsha.Control.Table.{Table, get, get-put_self}
use dfsha.Control.State.{Meta, User, Session, System}
use dfsha.Control.Auth.{authenticate}
use dfsha.Control.Auth.Rights.{authenticate_sound}
use dfsha.Control.Ledger.{
  Method, logout_call, change_password_call, commit_upload_call, commit_write_call, call_of,
  method_eq, is_logout, Request, Entry, Store, ledger_id, authenticated, same_password, replay,
  verifier_of, remember, look_up, conclude, commit, unary_once,
}

method_eq_refl : (m : Method) → method_eq m m ≡ true
method_eq_refl logout_call = refl
method_eq_refl change_password_call = refl
method_eq_refl commit_upload_call = refl
method_eq_refl commit_write_call = refl
method_eq_refl (call_of n) = ground arith

module _ {Body Response : Type 0} (intent : Body → Text) (verify : Text → Text → Bool)
    (encrypt : Response → Text) (decrypt : Text → Result Response) (sys : System)
    (handle : Meta → User → Session → Request Body → Method → Result (Response × Meta)) where
  authenticated-ok :
      (tx : Meta) (now token : ℕ) (request : Request Body) (u : User) (s : Session)
      → authenticated intent verify encrypt decrypt sys tx now token request ≡ ok (u, s)
      → (authenticate tx now token ≡ ok (u, s))
        × (request.user_id ≡ u.id)
        × (request.service_epoch ≡ sys.epoch)
  unfolding authenticated
  authenticated-ok tx now token request u s e =
      let ((u', s'), known, rest) = >>=-eq-ok (authenticate tx now token) _ e in ground arith

  remember-ok :
      (store store' : Store) (user : User) (request : Request Body) (method : Method)
      (response : Response)
      → remember intent verify encrypt decrypt sys store user request method response ≡ ok store'
      → (store'.meta ≡ store.meta)
        × (v : Option Text) × (get store'.ledger (ledger_id sys.epoch user.id request.request_id)
            ≡ some (record {
              method = method;
              digest = intent request.body;
              response = encrypt response;
              password_verifier = v;
            }))
  unfolding remember
  remember-ok store store' user request method response e =
      let (v, found, made) =
        >>=-eq-ok (verifier_of intent verify encrypt decrypt sys store.meta request method) _ e in
      (
        ground arith,
        v,
        ground (
          arith,
          get-put_self store.ledger (ledger_id sys.epoch user.id request.request_id) (record {
            method = method;
            digest = intent request.body;
            response = encrypt response;
            password_verifier = v;
          }),
        ),
      )

  -- A run that answers either answers what was there, or ran the handler and remembered.
  conclude-ok :
      (store store' : Store) (user : User) (session : Session) (request : Request Body)
      (method : Method) (previous : Option Response) (response : Response)
      → conclude intent verify encrypt decrypt sys handle store user session request method previous
        ≡ ok (response, store')
      → ((previous ≡ some response) × (store' ≡ store))
        ⊎ ((previous ≡ none)
            × (tx : Meta) × (handle store.meta user session request method ≡ ok (response, tx))
            × (remember intent verify encrypt decrypt sys
                  (record store { meta = tx })
                  user
                  request
                  method
                  response
                ≡ ok store'))
  unfolding conclude
  conclude-ok store store' user session request method (some r) response e =
      inl (ground arith, ground arith)
  conclude-ok store store' user session request method none response e =
      let ((r, tx), ran, e1) = >>=-eq-ok (handle store.meta user session request method) _ e in
      let (s, kept, e2) =
        >>=-eq-ok
          (remember intent verify encrypt decrypt sys (record store { meta = tx }) user request
            method r)
          _ e1 in
      let r_is : r ≡ response = ground arith in
      let s_is : s ≡ store' = ground arith in
      inr (
        refl,
        tx,
        ran ∙ ap (λ (x : Response). ok (x, tx)) r_is,
        ap
              (remember intent verify encrypt decrypt sys (record store { meta = tx }) user request
                method)
              (sym r_is)
            ∙ kept
            ∙ ap ok s_is,
      )

  replay-none :
      (ledger : Table Entry) (user : User) (request : Request Body) (method : Method)
      → replay intent verify encrypt decrypt sys ledger user request method ≡ ok none
      → (list_eq request.intent_sha256 (intent request.body) ≡ true)
        × (get ledger (ledger_id sys.epoch user.id request.request_id) ≡ none)
  unfolding replay
  replay-none ledger user request method e = ground arith

  -- The row that a replayed answer comes from.
  pub IsReplayed : Table Entry → Request Body → Method → Response → Type 0
  IsReplayed ledger request method response =
      (list_eq request.intent_sha256 (intent request.body) ≡ true)
      × (previous : Entry) × (get ledger (ledger_id sys.epoch request.user_id request.request_id)
          ≡ some previous)
      × (method_eq previous.method method ≡ true)
      × (list_eq previous.digest (intent request.body) ≡ true)
      × (same_password intent verify encrypt decrypt sys request.password previous.password_verifier
          ≡ true)
      × (decrypt previous.response ≡ ok response)

  replay-IsReplayed :
      (ledger : Table Entry) (user : User) (request : Request Body) (method : Method)
      (response : Response)
      → request.user_id ≡ user.id
      → replay intent verify encrypt decrypt sys ledger user request method ≡ ok (some response)
      → IsReplayed ledger request method response
  unfolding replay IsReplayed
  replay-IsReplayed ledger user request method response mine e =
      let key = ap (λ (i : ℕ). get ledger (ledger_id sys.epoch i request.request_id)) mine in
      elim (Option-cases (get ledger (ledger_id sys.epoch user.id request.request_id))) [
        | inl none_there ↦ absurd (ground arith)
        | inr (previous, there) ↦ (
          ground arith,
          previous,
          key ∙ there,
          ground arith,
          ground arith,
          ground arith,
          ground arith,
        )
      ]

  IsReplayed-replay :
      (ledger : Table Entry) (user : User) (request : Request Body) (method : Method)
      (response : Response)
      → request.user_id ≡ user.id
      → IsReplayed ledger request method response
      → replay intent verify encrypt decrypt sys ledger user request method ≡ ok (some response)
  unfolding replay IsReplayed
  IsReplayed-replay ledger user request method response mine
        (meant, previous, there, named, digest, known, opens) =
      let at : get ledger (ledger_id sys.epoch user.id request.request_id) ≡ some previous =
        ap (λ (i : ℕ). get ledger (ledger_id sys.epoch i request.request_id)) (sym mine) ∙ there in
      rw (meant, at, named, digest, known, opens) refl

  -- A command that answers either found its answer in the row of its request, which is of the same
  -- method, intent and password, and changed nothing, or its row was not there, the handler ran once on the metadata and gave the answer and the new metadata, and the
  -- row is there now.
  pub commit_once :
      (store store' : Store) (now token : ℕ) (request : Request Body) (method : Method)
      (response : Response)
      → commit intent verify encrypt decrypt sys handle store now token request method
        ≡ ok (response, store')
      → (IsReplayed store.ledger request method response × (store' ≡ store))
        ⊎ ((list_eq request.intent_sha256 (intent request.body) ≡ true)
            × (get store.ledger (ledger_id sys.epoch request.user_id request.request_id) ≡ none)
            × (user : User) × (session : Session) × (authenticate store.meta now token
                ≡ ok (user, session))
            × (handle store.meta user session request method ≡ ok (response, store'.meta))
            × (v : Option Text) × (get store'.ledger
                  (ledger_id sys.epoch request.user_id request.request_id)
                ≡ some (record {
                  method = method;
                  digest = intent request.body;
                  response = encrypt response;
                  password_verifier = v;
                })))
  unfolding commit
  commit_once store store' now token request method response e =
      let ((user, session), known, e1) =
        >>=-eq-ok (authenticated intent verify encrypt decrypt sys store.meta now token request) _
          e in
      let (previous, said, e2) =
        >>=-eq-ok (replay intent verify encrypt decrypt sys store.ledger user request method) _
          e1 in
      let (opened, mine, epoch) =
        authenticated-ok store.meta now token request user session known in
      elim (conclude-ok store store' user session request method previous response e2) [
        | inl (was, same) ↦ inl (
          replay-IsReplayed store.ledger user request method response mine (said ∙ ap ok was),
          same,
        )
        | inr (new, tx, ran, kept) ↦
            let (meant, free) = replay-none store.ledger user request method (said ∙ ap ok new) in
            let (meta, v, row) =
              remember-ok (record store { meta = tx }) store' user request method response kept in
            let key : ledger_id sys.epoch user.id request.request_id
                ≡ ledger_id sys.epoch request.user_id request.request_id =
              ap (λ (i : ℕ). ledger_id sys.epoch i request.request_id) (sym mine) in
            inr (
              meant,
              sym (ap (get store.ledger) key) ∙ free,
              user,
              session,
              opened,
              ran ∙ ap (λ (m : Meta). ok (response, m)) (sym meta),
              v,
              sym (ap (get store'.ledger) key) ∙ row,
            )
      ]

  look_up-replayed :
      (store : Store) (now token : ℕ) (request : Request Body) (method : Method)
      (response : Response) (user : User) (session : Session)
      → authenticated intent verify encrypt decrypt sys store.meta now token request
        ≡ ok (user, session)
      → replay intent verify encrypt decrypt sys store.ledger user request method
        ≡ ok (some response)
      → look_up intent verify encrypt decrypt sys store now token request method
        ≡ ok (some response)
  unfolding look_up
  look_up-replayed store now token request method response user session known answer =
      let (opened, mine, epoch) =
        authenticated-ok store.meta now token request user session known in
      let (found, live, in_time, owner, enabled) =
        authenticate_sound store.meta now token user session opened in
      let open_session : (is_logout method && session.revoked) ≡ false = ground arith in
      rw (look_up, found, open_session, known, answer) refl

  -- The row that a command leaves, or has found, answers it again.
  commit-IsReplayed :
      (store store' : Store) (now token : ℕ) (request : Request Body) (method : Method)
      (response : Response)
      → decrypt (encrypt response) ≡ ok response
      → request.password ≡ none
      → commit intent verify encrypt decrypt sys handle store now token request method
        ≡ ok (response, store')
      → IsReplayed store'.ledger request method response
  unfolding IsReplayed same_password
  commit-IsReplayed store store' now token request method response opens plain e =
      elim (commit_once store store' now token request method response e) [
        | inl (found, same) ↦
            subst (λ (s : Store). IsReplayed s.ledger request method response) (sym same) found
        | inr (meant, free, user, session, opened, ran, v, row) ↦ (
          meant,
          _,
          row,
          method_eq_refl method,
          list_eq_refl (intent request.body),
          rw plain refl,
          opens,
        )
      ]

  -- A retry is answered as the first time and changes nothing: when a command without a password
  -- has run and answered, sending the same request again, with a token of the same user that is
  -- good in the store that the command left, gives the answer of the first run and leaves the
  -- store of the second transaction, whatever it is. The cipher opens what it sealed.
  pub retry_replays :
      (store store' later : Store) (now time time' token token' : ℕ) (drops : Bool)
      (request : Request Body) (method : Method) (response : Response) (user : User)
      (session : Session)
      → decrypt (encrypt response) ≡ ok response
      → request.password ≡ none
      → commit intent verify encrypt decrypt sys handle store now token request method
        ≡ ok (response, store')
      → authenticated intent verify encrypt decrypt sys store'.meta time token' request
        ≡ ok (user, session)
      → unary_once intent verify encrypt decrypt sys handle store' time later time' drops token'
          request method
        ≡ (ok response, later)
  unfolding unary_once
  retry_replays store store' later now time time' token token' drops request method response user
        session opens plain first known =
      let (opened, mine, epoch) =
        authenticated-ok store'.meta time token' request user session known in
      let answer =
        IsReplayed-replay store'.ledger user request method response mine
          (commit-IsReplayed store store' now token request method response opens plain first) in
      rw
        (
          unary_once,
          look_up-replayed store' time token' request method response user session known answer,
        )
        refl
