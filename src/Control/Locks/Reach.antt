-- ===== src/Control/Locks/Reach.antt =====
-- What holds of the lock table in every state that the node reaches.
use dfsha.Prelude.{
  ◌∷◌, inl, inr, ◌++◌, ℕ, ◌+◌, ◌*◌, ◌≤◌, ◌≡◌, refl, Bool, true, some, List, [], arith, ap,
}
use dfsha.Common.Domain.{Result, ok}
use dfsha.Control.Table.{Table, get, put, delete, get-put, get-delete}
use dfsha.Control.State.{Meta, Lock, Upload, User, Session, System, OperationRef}
use dfsha.Control.Leases.{
  Authority, Clock, LockOwner, Fence, boot, acquire, new_lock, release_operation, lock_live,
}
use dfsha.Control.Leases.Exclusion.{
  IsExclusive, acquire-IsExclusive, release_operation-IsExclusive, later-IsExclusive,
  delete-IsExclusive, rewrite-IsExclusive, Released, kept, dropped, rewritten,
  release_operation-keeps, acquire-ok,
}
use dfsha.Control.Locks.{unlock, renew_lock}
use dfsha.Control.Handles.{found, close}
use dfsha.Control.Transfers.{hold_file, renew_locked}
use dfsha.Control.Planning.{activate}
use dfsha.Control.Locks.Changes.{
  validate-found, renew_lock-ok, unlock-ok, renew_locked-ok, drop_locks-keeps, close-locks,
  hold_file-locks, activate-one,
}

-- The node as its clients find it: the authority of the running process, the clocks, the store.
pub record World : Type 0 where
  pub authority : Authority
  pub time : Clock
  pub store : Meta

pub data Step : World → World → Type 0 where
  grant :
      {a : Authority} {c : Clock} {tx tx' : Meta} {l : Lock} (fresh : ℕ) (owner : LockOwner)
      (indices : List ℕ) (whole size automatic : Bool)
      → acquire a c fresh owner indices whole size automatic tx ≡ ok (l, tx')
      → Step
          (record { authority = a; time = c; store = tx })
          (record { authority = a; time = c; store = tx' })
  renew :
      {a : Authority} {c : Clock} {tx tx' : Meta} {f' : Fence} (session : ℕ)
      (writable : Result (Unit {0})) (fence : Fence)
      → renew_lock a c tx session writable fence ≡ ok (f', tx')
      → Step
          (record { authority = a; time = c; store = tx })
          (record { authority = a; time = c; store = tx' })
  drop :
      {a : Authority} {c : Clock} {tx tx' : Meta} (session : ℕ) (fence : Fence)
      → unlock a c tx session fence ≡ ok tx'
      → Step
          (record { authority = a; time = c; store = tx })
          (record { authority = a; time = c; store = tx' })
  finish :
      {a : Authority} {c : Clock} {tx : Meta} (op : Upload)
      → Step
          (record { authority = a; time = c; store = tx })
          (record { authority = a; time = c; store = release_operation op tx })
  -- `BeginUpload` keeps the lock that it was granted for as long as the upload
  retain :
      {a : Authority} {c : Clock} {tx : Meta} {l : Lock} (op : Upload)
      → get tx.locks l.id ≡ some l
      → lock_live a c l ≡ true
      → Step
          (record { authority = a; time = c; store = tx })
          (record { authority = a; time = c; store = (hold_file a c op l tx).1 })
  -- `RenewUpload` prolongs it
  prolong :
      {a : Authority} {c : Clock} {tx tx' : Meta} {op : Upload} (sys : System) (user : User)
      (session : Session) (reference : OperationRef)
      → renew_locked sys a c tx user session reference ≡ ok (op, tx')
      → Step
          (record { authority = a; time = c; store = tx })
          (record { authority = a; time = c; store = tx' })
  -- `BeginWrite` notes its operation on one of the locks that it holds
  mark :
      {a : Authority} {c : Clock} {tx : Meta} {l : Lock} (operation : ℕ)
      → get tx.locks l.id ≡ some l
      → Step
          (record { authority = a; time = c; store = tx })
          (record {
            authority = a;
            time = c;
            store = record tx { locks = activate operation (l ∷ []) tx.locks };
          })
  -- `Close`
  shut :
      {a : Authority} {c : Clock} {tx tx' : Meta} {revision : ℕ} (user : User) (session handle : ℕ)
      → close tx user session handle ≡ ok (revision, tx')
      → Step
          (record { authority = a; time = c; store = tx })
          (record { authority = a; time = c; store = tx' })
  wait :
      {a : Authority} {c c' : Clock} {tx : Meta}
      → c.clock ≤ c'.clock
      → Step
          (record { authority = a; time = c; store = tx })
          (record { authority = a; time = c'; store = tx })
  restart :
      {a a' : Authority} {c c' : Clock} {tx tx' : Meta} (fresh lock_seconds handle_seconds : ℕ)
      → boot fresh lock_seconds handle_seconds tx ≡ ok (a', tx')
      → Step
          (record { authority = a; time = c; store = tx })
          (record { authority = a'; time = c'; store = tx' })

pub data Reach (s : World) : World → Type 0 where
  here : Reach s s
  next : {t u : World} → Reach s t → Step t u → Reach s u

-- Every lock stands under its own id.
abbrev IsKeyed : Table Lock → Type 0
IsKeyed t = (k : ℕ) (l : Lock) → get t k ≡ some l → l.id ≡ k

-- The live locks do not clash, and every lock stands under its own id.
pub record IsSafe (w : World) : Type 0 where
  pub exclusive : IsExclusive w.authority w.time w.store.locks
  pub keyed : IsKeyed w.store.locks

empty-IsExclusive : (a : Authority) (c : Clock) → IsExclusive a c []
unfolding get
empty-IsExclusive a c i j x y gx gy lx ly = cc

empty-IsKeyed : IsKeyed []
unfolding get
empty-IsKeyed k l g = cc

boot-locks :
    (fresh ls hs : ℕ) (tx : Meta) {a : Authority} {tx' : Meta}
    → boot fresh ls hs tx ≡ ok (a, tx')
    → tx'.locks ≡ []
unfolding boot
boot-locks fresh ls hs tx h = ground arith

put-IsKeyed : (t : Table Lock) (l : Lock) → IsKeyed t → IsKeyed (put t l.id l)
put-IsKeyed t l keyed k x g = ground (arith, get-put t l.id k l, keyed k x)

delete-IsKeyed : (t : Table Lock) (k : ℕ) → IsKeyed t → IsKeyed (delete t k)
delete-IsKeyed t k keyed j x g = ground (arith, get-delete t k j, keyed j x)

Released-IsKeyed : (k : ℕ) (t t' : Table Lock) → Released t k t' → IsKeyed t → IsKeyed t'
Released-IsKeyed k t _ kept keyed = keyed
Released-IsKeyed k t _ dropped keyed = delete-IsKeyed t k keyed
Released-IsKeyed k t _ (rewritten lock active found) keyed = λ j x g.
    ground (arith, get-put t k j (record lock { active = active }), keyed j x, keyed k lock)

renew-IsSafe :
    (a : Authority) (c : Clock) (tx : Meta) (session : ℕ) (writable : Result (Unit {0})) (f : Fence)
    {f' : Fence} {tx' : Meta}
    → renew_lock a c tx session writable f ≡ ok (f', tx')
    → IsKeyed tx.locks
    → IsExclusive a c tx.locks
    → IsExclusive a c tx'.locks × IsKeyed tx'.locks
renew-IsSafe a c tx session writable f h keyed ex =
    let (l, passed, stored) = renew_lock-ok a c tx session writable f h in
    let (found, lv) = validate-found a c tx session f l passed in
    let l' : Lock = record l { deadline = c.clock + a.lock_seconds * 1000 } in
    let at_id : get tx.locks l.id ≡ some l = rw (keyed f.lock_id l found) found in
    (
      rw stored (rewrite-IsExclusive a c tx.locks l.id l l' at_id (λ _. lv) (λ y. refl) ex),
      rw stored (put-IsKeyed tx.locks l' keyed),
    )

acquire-IsKeyed :
    (a : Authority) (c : Clock) (fresh : ℕ) (owner : LockOwner) (is : List ℕ)
    (whole size automatic : Bool) (tx : Meta) {l : Lock} {tx' : Meta}
    → acquire a c fresh owner is whole size automatic tx ≡ ok (l, tx')
    → IsKeyed tx.locks
    → IsKeyed tx'.locks
unfolding new_lock
acquire-IsKeyed a c fresh owner is whole size automatic tx {l} h keyed =
    let (_, built, stored, _) = acquire-ok a c fresh owner is whole size automatic tx h in
    let e : l.id ≡ fresh = ap (λ (x : Lock). x.id) built in
    rw stored (λ k x g. ground (arith, get-put tx.locks fresh k l, keyed k x))

Step-IsSafe : {w v : World} → Step w v → IsSafe w → IsSafe v
Step-IsSafe (grant {a} {c} {tx} fresh owner is whole size auto h) s = record {
  exclusive = acquire-IsExclusive a c fresh owner is whole size auto tx h s.exclusive;
  keyed = acquire-IsKeyed a c fresh owner is whole size auto tx h s.keyed;
}
Step-IsSafe (renew {a} {c} {tx} session writable fence h) s =
    let (ex, keyed) = renew-IsSafe a c tx session writable fence h s.keyed s.exclusive in
    record { exclusive = ex; keyed = keyed }
Step-IsSafe (drop {a} {c} {tx} session fence h) s =
    let (k, e) = unlock-ok a c tx session fence h in
    record {
      exclusive = rw e (delete-IsExclusive a c tx.locks k s.exclusive);
      keyed = rw e (delete-IsKeyed tx.locks k s.keyed);
    }
Step-IsSafe (finish {a} {c} {tx} op) s = record {
  exclusive = release_operation-IsExclusive a c op tx s.exclusive;
  keyed = release_operation-keeps IsKeyed Released-IsKeyed op tx s.keyed;
}
Step-IsSafe (retain {a} {c} {tx} {l} op at_id lives) s =
    let l' : Lock = record l { deadline = c.clock + 300 * 1000; active = op.id ∷ [] } in
    let e = hold_file-locks a c op l tx in
    record {
      exclusive =
          rw e
            (rewrite-IsExclusive a c tx.locks l.id l l' at_id (λ _. lives) (λ y. refl) s.exclusive);
      keyed = rw e (put-IsKeyed tx.locks l' s.keyed);
    }
Step-IsSafe (prolong {a} {c} {tx} sys user session reference h) s =
    let (f, l, until, passed, e) = renew_locked-ok sys a c tx user session reference h in
    let (there, lives) = validate-found a c tx session.id f l passed in
    let l' : Lock = record l { deadline = until } in
    let at_id : get tx.locks l.id ≡ some l = rw (s.keyed f.lock_id l there) there in
    record {
      exclusive =
          rw e
            (rewrite-IsExclusive a c tx.locks l.id l l' at_id (λ _. lives) (λ y. refl) s.exclusive);
      keyed = rw e (put-IsKeyed tx.locks l' s.keyed);
    }
Step-IsSafe (mark {a} {c} {tx} {l} operation at_id) s =
    let l' : Lock = record l { active = l.active ++ (operation ∷ []) } in
    let e = activate-one operation l tx.locks in
    record {
      exclusive = rw e (
          rewrite-IsExclusive a c tx.locks l.id l l' at_id (λ lives. lives) (λ y. refl)
            s.exclusive);
      keyed = rw e (put-IsKeyed tx.locks l' s.keyed);
    }
Step-IsSafe (shut {a} {c} {tx} {tx'} {revision} user session handle h) s =
    elim (close-locks tx tx' user session handle revision h) [
      | inl same ↦ record { exclusive = rw same s.exclusive; keyed = rw same s.keyed }
      | inr (row, dropped_all) ↦ record {
        exclusive = rw dropped_all (
            drop_locks-keeps (IsExclusive a c) (λ k t. delete-IsExclusive a c t k) row.id session
              tx.locks tx.locks s.exclusive);
        keyed = rw dropped_all (
            drop_locks-keeps IsKeyed (λ k t. delete-IsKeyed t k) row.id session tx.locks tx.locks
              s.keyed);
      }
    ]
Step-IsSafe (wait {a} {c} {c'} {tx} h) s = record {
  exclusive = later-IsExclusive a c c' tx.locks h s.exclusive;
  keyed = s.keyed;
}
Step-IsSafe (restart {a} {a'} {c} {c'} {tx} fresh ls hs h) s =
    let e = boot-locks fresh ls hs tx h in
    record { exclusive = rw e (empty-IsExclusive a' c'); keyed = rw e empty-IsKeyed }

-- From a state in which no two live locks clash and every lock stands under its own id, both
-- still hold however locks are granted, renewed and dropped by their fences, kept and prolonged for
-- uploads, marked with writes, released at the end of operations and dropped with their handles,
-- however time passes and however often the node restarts.
pub Reach-IsSafe : {w v : World} → IsSafe w → Reach w v → IsSafe v
Reach-IsSafe s here = s
Reach-IsSafe s (next r st) = Step-IsSafe st (Reach-IsSafe s r)
