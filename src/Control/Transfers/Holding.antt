-- ===== src/Control/Transfers/Holding.antt =====
-- src/dfsha/control/access.py, `operation`: what an upload that goes on holds.
use dfsha.Prelude.{ℕ, ◌≡◌, ◌<◌, subst, ap, ◌∙◌, true, false, not, Option, some, is_some, not-true}
use dfsha.Common.Domain.{
  Result, ok, ◌>>◌, need, need_then, >>=-eq-ok, >>-eq-ok, ok-injective, permission_denied,
}
use dfsha.Control.Table.{get}
use dfsha.Control.State.{
  Meta, User, Session, Upload, OperationRef, System, Lock, Fence, is_preparing,
}
use dfsha.Control.Leases.{Authority, Clock, lock_live, validate}
use dfsha.Control.Leases.Fencing.{validate_sound}
use dfsha.Control.Uploads.{operation}
use dfsha.Control.Uploads.Life.{operation_sound}
use dfsha.Control.Transfers.{validate_full, held_operation}

module _ (sys : System) (a : Authority) (c : Clock) where
  validate_full-live :
      (tx : Meta) (session : ℕ) (f : Fence)
      → validate_full sys a c tx session (some f) ≡ ok tt
      → (lock : Lock) × (get tx.locks f.lock_id ≡ some lock)
        × (lock_live a c lock ≡ true)
        × (lock.session ≡ session)
  unfolding validate_full
  validate_full-live tx session f e =
      let (lock, valid, rest) = >>=-eq-ok (validate a c tx session f) (λ lock. ok tt) e in
      let (at, alive, mine, epoch, generation, fence) =
        validate_sound a c tx session f lock valid in
      (lock, at, alive, mine)

  -- An upload that a command goes on with is the stored one, of this user and session, under way,
  -- not expired and no write through a handle; the lock of its fence on the whole file is stored,
  -- of the session, and lives.
  pub held_operation-holds :
      (tx : Meta) (user : User) (session : Session) (r : OperationRef) (f : Option Fence)
      (op : Upload) (full : Fence)
      → held_operation sys a c tx user session r f ≡ ok op
      → op.full_fence ≡ some full
      → (get tx.uploads r.operation_id ≡ some op)
        × (op.user ≡ user.id)
        × (op.session ≡ session.id)
        × (is_preparing op.state ≡ true)
        × (c.now < op.expires)
        × (is_some op.write ≡ false)
        × ((lock : Lock) × (get tx.locks full.lock_id ≡ some lock)
            × (lock_live a c lock ≡ true)
            × (lock.session ≡ session.id))
  unfolding held_operation
  held_operation-holds tx user session r f op full e fenced =
      let final : Upload → Result Upload =
        λ o. validate_full sys a c tx session.id o.full_fence >> ok o in
      let (o, got, e1) =
        >>=-eq-ok (operation sys tx c.now user session r f)
          (λ o. need (not (is_some o.write)) permission_denied >> final o) e in
      let (upload, e2) = need_then (not (is_some o.write)) permission_denied (final o) e1 in
      let (valid, e3) = >>-eq-ok (validate_full sys a c tx session.id o.full_fence) (ok o) e2 in
      let same : o ≡ op = ok-injective e3 in
      let got' = subst (λ x. operation sys tx c.now user session r f ≡ ok x) same got in
      let (at, mine, here, running, timely) =
        operation_sound sys tx c.now user session r f op got' in
      let full' : o.full_fence ≡ some full = ap (λ (x : Upload). x.full_fence) same ∙ fenced in
      let holds = subst (λ x. validate_full sys a c tx session.id x ≡ ok tt) full' valid in
      (
        at,
        mine,
        here,
        running,
        timely,
        subst (λ (x : Upload). is_some x.write ≡ false) same (not-true _ upload),
        validate_full-live tx session.id full holds,
      )
