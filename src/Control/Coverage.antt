-- ===== src/Control/Coverage.antt =====
-- src/dfsha/control/access.py: the locks that `BeginWrite` holds on the blocks of its parts: those of the
-- request's fences, the handle's own explicit ones, and an automatic one on the rest.
pub mod Complete
use dfsha.Prelude.{
  ℕ, ◌+◌, Bool, true, false, not, ◌&&◌, ◌||◌, List, [], ◌∷◌, ◌++◌, leb, ◌==◌, if◌then◌else◌, length,
  any_of, keep_if, mem_of,
}
use dfsha.Common.Domain.{Result, ok, ◌>>=◌, ◌>>◌, need, permission_denied, invalid_argument}
use dfsha.Control.Table.{all}
use dfsha.Control.State.{Meta, Handle, Fence, Lock}
use dfsha.Control.Leases.{Authority, Clock, lock_live, handle_owner, validate, acquire, sorted_set}
use dfsha.Control.Locks.{is_empty}

-- The variables `locks`, `covered` and `has_size`.
pub record Held : Type 0 where
  pub locks : List Lock
  pub covered : List ℕ
  pub has_size : Bool

-- One lock more; a lock on the whole file covers all that is wanted.
unfoldable pub hold : List ℕ → Lock → Held → Held
hold wanted lock held = record {
  locks = held.locks ++ (lock ∷ []);
  covered = held.covered ++ (if lock.whole then wanted else lock.indices);
  has_size = held.has_size || lock.size;
}

-- `sorted({…} - covered)`
unfoldable pub missing_of : List ℕ → List ℕ → List ℕ
missing_of wanted covered = sorted_set (keep_if (λ i. not (mem_of i covered)) wanted)

module _ (a : Authority) (c : Clock) where
  -- the loop over the fences of the request
  unfoldable pub take_fences : Meta → ℕ → ℕ → List ℕ → List Fence → Held → Result Held
  take_fences tx session handle_id wanted [] held = ok held
  take_fences tx session handle_id wanted (f ∷ fs) held = do
    lock ← validate a c tx session f
    need (lock.handle == handle_id) permission_denied
    take_fences tx session handle_id wanted fs (hold wanted lock held)

  -- an explicit lock of the handle, whose fence the client did not send
  unfoldable pub is_own : ℕ → ℕ → Lock → Bool
  is_own session handle_id l =
      lock_live a c l && (l.handle == handle_id && (l.session == session && not l.automatic))

  unfoldable pub take_own : ℕ → ℕ → List ℕ → List Lock → Held → Held
  take_own session handle_id wanted [] held = held
  take_own session handle_id wanted (l ∷ ls) held = take_own session handle_id wanted ls (
      if is_own session handle_id l && not (any_of (λ (x : Lock). l.id == x.id) held.locks)
      then hold wanted l held
      else held)

  -- The automatic lock on what is not covered yet.
  unfoldable pub take_missing : Meta → ℕ → Handle → List ℕ → Bool → Held → Result (List Lock × Meta)
  take_missing tx fresh h wanted growing held =
      let missing = missing_of wanted held.covered in
      let size = growing && not held.has_size in
      if is_empty missing && not size then ok (held.locks, tx) else do
        (lock, tx') ← acquire a c fresh (handle_owner h) missing false size true tx
        ok (held.locks ++ (lock ∷ []), tx')

  -- The locks of the write.
  unfoldable pub hold_locks :
      Meta → ℕ → ℕ → Handle → List ℕ → Bool → List Fence → Result (List Lock × Meta)
  hold_locks tx fresh session h wanted growing fences = do
    need (leb (length fences) 6) invalid_argument
    let none_yet : Held = record { locks = []; covered = []; has_size = false }
    held ← take_fences tx session h.id wanted fences none_yet
    take_missing tx fresh h wanted growing (take_own session h.id wanted (all tx.locks) held)
