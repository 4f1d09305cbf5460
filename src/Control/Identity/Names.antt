-- ===== src/Control/Identity/Names.antt =====
-- What `CreateUser` of src/dfsha/control/commands.py makes, and the names of users.
use dfsha.Prelude.{
  ℕ, ◌≡◌, sym, false, none, some, Text, arith, list_eq, list_eq_refl, any_of, subst,
}
use dfsha.Common.Domain.{Result, ok}
use dfsha.Control.Table.{Table, get, all, put, get-put, any_of-get}
use dfsha.Control.State.{Meta, User, System}
use dfsha.Control.Identity.{create_user}

-- No two rows have one name.
abbrev pub NamesUnique : Table User → Type 0
NamesUnique t =
    (i j : ℕ) (u v : User) → get t i ≡ some u → get t j ≡ some v → u.username ≡ v.username → i ≡ j

create_user-ok :
    (derive : Text → Result Text) (nfc : Text → Text) (sys : System) (tx tx' : Meta) (user u : User)
    (username password : Text) (fresh fresh_home : ℕ)
    → create_user derive nfc sys tx user username password fresh fresh_home ≡ ok (u, tx')
    → (any_of (λ (w : User). list_eq w.username username) (all tx.users) ≡ false)
      × (u.username ≡ username)
      × (tx'.users ≡ put tx.users fresh u)
unfolding create_user
create_user-ok derive nfc sys tx tx' user u username password fresh fresh_home e = ground arith

put-NamesUnique :
    (t : Table User) (fresh : ℕ) (u : User)
    → NamesUnique t
    → get t fresh ≡ none
    → any_of (λ (w : User). list_eq w.username u.username) (all t) ≡ false
    → NamesUnique (put t fresh u)
put-NamesUnique t fresh u unique free new i j v w at_i at_j same = ground (
  arith,
  get-put t fresh i u,
  get-put t fresh j u,
  unique i j v w,
  any_of-get (λ (w : User). list_eq w.username u.username) t i v new,
  any_of-get (λ (w : User). list_eq w.username u.username) t j w new,
  list_eq_refl u.username,
)

-- A user who was created under an id that no user had is stored there with the name that was
-- asked for, and names that were unique stay unique.
pub create_user-NamesUnique :
    (derive : Text → Result Text) (nfc : Text → Text) (sys : System) (tx tx' : Meta) (user u : User)
    (username password : Text) (fresh fresh_home : ℕ)
    → NamesUnique tx.users
    → get tx.users fresh ≡ none
    → create_user derive nfc sys tx user username password fresh fresh_home ≡ ok (u, tx')
    → (u.username ≡ username) × (get tx'.users fresh ≡ some u) × NamesUnique tx'.users
create_user-NamesUnique derive nfc sys tx tx' user u username password fresh fresh_home unique free
      e =
    let (new, named, users) =
      create_user-ok derive nfc sys tx tx' user u username password fresh fresh_home e in
    let new' : any_of (λ (w : User). list_eq w.username u.username) (all tx.users) ≡ false =
      rw named new in
    (
      named,
      ground (arith, users, get-put tx.users fresh fresh u),
      subst NamesUnique (sym users) (put-NamesUnique tx.users fresh u unique free new'),
    )
