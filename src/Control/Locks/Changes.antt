-- ===== src/Control/Locks/Changes.antt =====
-- What the handlers of src/dfsha/control/access.py that rewrite a lock leave in the table of locks.
use dfsha.Prelude.{
  ◌∷◌, sym, ◌-◌, min, not, ◌&&◌, ◌==◌, ◌⊎◌, inl, inr, none, is_some, ◌++◌, if◌then◌else◌,
  Bool-cases, then_of, else_of, false, ℕ, ◌+◌, ◌*◌, ◌≡◌, refl, Bool, true, some, [], arith, ap,
}
use dfsha.Common.Domain.{
  Result, ok, fault, ◌>>=◌, ◌>>◌, need, need_then, ok-injective, >>=-eq-ok, not_found, stale_handle,
  handle_busy,
}
use dfsha.Control.Table.{Table, get, put, delete}
use dfsha.Control.State.{Meta, Lock, Upload, User, Session, System, OperationRef, Handle}
use dfsha.Control.Leases.{Authority, Clock, Fence, validate, lock_live}
use dfsha.Control.Locks.{unlock, renew_lock}
use dfsha.Control.Handles.{found, close, drop_locks}
use dfsha.Control.Transfers.{hold_file, renew_locked, held_operation}
use dfsha.Control.Planning.{activate}

pub validate-found :
    (a : Authority) (c : Clock) (tx : Meta) (session : ℕ) (f : Fence) (l : Lock)
    → validate a c tx session f ≡ ok l
    → (get tx.locks f.lock_id ≡ some l) × (lock_live a c l ≡ true)
unfolding validate
validate-found a c tx session f l h = ground arith

-- A renewal rewrites one live lock, and only its deadline.
pub renew_lock-ok :
    (a : Authority) (c : Clock) (tx : Meta) (session : ℕ) (writable : Result (Unit {0})) (f : Fence)
    {f' : Fence} {tx' : Meta}
    → renew_lock a c tx session writable f ≡ ok (f', tx')
    → (l : Lock) × (validate a c tx session f ≡ ok l)
      × (tx'.locks ≡ put tx.locks l.id (record l { deadline = c.clock + a.lock_seconds * 1000 }))
unfolding renew_lock
renew_lock-ok a c tx session (fault r) f h = absurd (cc)
renew_lock-ok a c tx session (ok u) f h =
    let (l, passed, rest) = >>=-eq-ok (validate a c tx session f) _ h in (l, passed, ground arith)

pub unlock-ok :
    (a : Authority) (c : Clock) (tx : Meta) (session : ℕ) (f : Fence) {tx' : Meta}
    → unlock a c tx session f ≡ ok tx'
    → (k : ℕ) × (tx'.locks ≡ delete tx.locks k)
unfolding unlock
unlock-ok a c tx session f h =
    let (l, passed, rest) = >>=-eq-ok (validate a c tx session f) _ h in (l.id, ground arith)

pub renew_locked-ok :
    (sys : System) (a : Authority) (c : Clock) (tx : Meta) (user : User) (session : Session)
    (reference : OperationRef) {op : Upload} {tx' : Meta}
    → renew_locked sys a c tx user session reference ≡ ok (op, tx')
    → (f : Fence) × (l : Lock) × (until : ℕ) × (validate a c tx session.id f ≡ ok l)
      × (tx'.locks ≡ put tx.locks l.id (record l { deadline = until }))
unfolding renew_locked
renew_locked-ok sys a c tx user session reference {op} {tx'} e =
    let longer : Upload → Upload =
      λ op. record op { expires = min (c.now + 300000) op.max_expires } in
    let final : Upload → Lock → Result (Upload × Meta) = λ op lock. ok (
      longer op,
      record tx {
        uploads = put tx.uploads op.id (longer op);
        locks =
            put tx.locks lock.id
              (record lock { deadline = c.clock + ((longer op).expires - c.now) });
      },
    ) in
    let fenced : Upload → Fence → Result (Upload × Meta) =
      λ op f. validate a c tx session.id f >>= final op in
    let (o, held, e1) =
      >>=-eq-ok (held_operation sys a c tx user session reference none)
        (λ op. found not_found op.full_fence >>= fenced op) e in
    let (f, given, e2) = >>=-eq-ok (found not_found o.full_fence) (fenced o) e1 in
    let (l, passed, e3) = >>=-eq-ok (validate a c tx session.id f) (final o) e2 in
    (f, l, _, passed, ap (λ (r : Upload × Meta). r.1.locks) (sym (ok-injective e3)))

drop_one :
    (P : Table Lock → Type 0)
    → ((k : ℕ) (t : Table Lock) → P t → P (delete t k))
    → (b : Bool) (k : ℕ) (t : Table Lock) → P t
    → P (if b then delete t k else t)
drop_one P step true k t h = step k t h
drop_one P step false k t h = h

pub drop_locks-keeps :
    (P : Table Lock → Type 0)
    → ((k : ℕ) (t : Table Lock) → P t → P (delete t k))
    → (handle session : ℕ) (rows t : Table Lock) → P t
    → P (drop_locks handle session rows t)
unfolding drop_locks
drop_locks-keeps P step handle session [] t h = h
drop_locks-keeps P step handle session ((k, l) ∷ rows) t h =
    drop_locks-keeps P step handle session rows _
      (drop_one P step (l.handle == handle && l.session == session) k t h)

pub close-locks :
    (tx tx' : Meta) (user : User) (session handle revision : ℕ)
    → close tx user session handle ≡ ok (revision, tx')
    → (tx'.locks ≡ tx.locks)
      ⊎ ((h : Handle) × (tx'.locks ≡ drop_locks h.id session tx.locks tx.locks))
unfolding close
close-locks tx tx' user session handle revision e =
    let rest : Handle → Result (ℕ × Meta) = λ h.
      if h.closed
      then ok (h.revision, tx)
      else need (not (is_some h.busy)) handle_busy
        >> ok (
          h.revision + 1,
          record tx {
            handles = put tx.handles handle (record h { closed = true; revision = h.revision + 1 });
            locks = drop_locks h.id session tx.locks tx.locks;
          },
        ) in
    let (h, there, e1) =
      >>=-eq-ok (found stale_handle (get tx.handles handle))
        (λ h. need (h.user == user.id && h.session == session) stale_handle >> rest h) e in
    let (mine, e2) = need_then _ stale_handle (rest h) e1 in
    elim (Bool-cases h.closed) [
      | inl closed ↦
          let out = ok-injective (then_of h.closed _ _ closed e2) in
          inl (ap (λ (r : ℕ × Meta). r.1.locks) (sym out))
      | inr not_yet ↦
          let (free, out) = need_then _ handle_busy _ (else_of h.closed _ _ not_yet e2) in
          inr (h, ap (λ (r : ℕ × Meta). r.1.locks) (sym (ok-injective out)))
    ]

pub hold_file-locks :
    (a : Authority) (c : Clock) (op : Upload) (l : Lock) (tx : Meta)
    → (hold_file a c op l tx).1.locks
      ≡ put tx.locks l.id (record l { deadline = c.clock + 300 * 1000; active = op.id ∷ [] })
unfolding hold_file
hold_file-locks a c op l tx = refl

pub activate-one :
    (operation : ℕ) (l : Lock) (t : Table Lock)
    → activate operation (l ∷ []) t
      ≡ put t l.id (record l { active = l.active ++ (operation ∷ []) })
unfolding activate
activate-one operation l t = refl
