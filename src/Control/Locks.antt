-- ===== src/Control/Locks.antt =====
-- src/dfsha/control/access.py: the handlers that renew and drop explicit locks, and the life of the
-- lock table as steps of these, of `acquire` and `release_operation`, of time and of restarts.
pub mod Changes
pub mod Reach
use dfsha.Prelude.{ℕ, ◌+◌, ◌*◌, Bool, true, false, List, [], ◌∷◌}
use dfsha.Common.Domain.{Result, ok, ◌>>=◌, ◌>>◌, need, lock_busy}
use dfsha.Control.Table.{put, delete}
use dfsha.Control.State.{Meta, Lock}
use dfsha.Control.Leases.{Authority, Clock, Fence, validate, message}

abbrev pub is_empty {ℓ} : {A : Type ℓ} → List A → Bool
is_empty [] = true
is_empty (_ ∷ _) = false

-- `Unlock`; `session` is the authenticated session's id
unfoldable pub unlock : Authority → Clock → Meta → ℕ → Fence → Result Meta
unlock a c tx session fence = do
  lock ← validate a c tx session fence
  need (is_empty lock.active) lock_busy
  ok (record tx { locks = delete tx.locks lock.id })

-- `RenewLock`; `writable` is the outcome of `self.q.writable` on the fence's handle
unfoldable pub renew_lock :
    Authority → Clock → Meta → ℕ → Result (Unit {0}) → Fence → Result (Fence × Meta)
renew_lock a c tx session writable fence = do
  writable
  lock ← validate a c tx session fence
  let lock' : Lock = record lock { deadline = c.clock + a.lock_seconds * 1000 }
  ok (message a c lock', record tx { locks = put tx.locks lock.id lock' })
