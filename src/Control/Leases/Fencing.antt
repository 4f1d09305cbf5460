-- ===== src/Control/Leases/Fencing.antt =====
-- What a fence of src/dfsha/control/leases.py proves, and until when.
use dfsha.Prelude.{
  ℕ, ◌+◌, ◌*◌, ◌≤◌, ◌<◌, ◌≡◌, refl, ap, ◌↔◌, Bool, true, false, some, List, arith, length,
  list_eq_refl,
}
use dfsha.Common.Domain.{ok, fault, lock_expired}
use dfsha.Control.Table.{get, put, map_rows, get-put, get-put_self, get-map_rows}
use dfsha.Control.State.{Meta, Lock, Handle}
use dfsha.Control.Leases.{
  Authority, Clock, LockOwner, Fence, live, lock_live, boot, close_handle, acquire, new_lock,
  validate, message, same_fence, checked_range, max_offset, refresh_handle,
}
use dfsha.Control.Leases.Exclusion.{acquire-ok}

-- `checked_range` accepts exactly the ranges that end at or before 2 ^ 63 - 1 and respect the
-- maximum, and returns their end.
pub checked_range-ok_iff :
    (offset length m e : ℕ)
    → (checked_range offset length (some m) ≡ ok e)
      ↔ ((e ≡ offset + length) × (e ≤ max_offset) × (length ≤ m))
unfolding checked_range
checked_range-ok_iff offset length m e = (λ h. ground arith, λ h. ground arith)

-- A lock that was just granted for a positive time passes validation with its own fence, in the
-- session that asked.
pub validate-acquire :
    (a : Authority) (c : Clock) (fresh : ℕ) (owner : LockOwner) (is : List ℕ)
    (whole size automatic : Bool) (tx : Meta) {l : Lock} {tx' : Meta}
    → 0 < a.lock_seconds
    → acquire a c fresh owner is whole size automatic tx ≡ ok (l, tx')
    → validate a c tx' owner.session (message a c l) ≡ ok l
unfolding validate message same_fence new_lock live
validate-acquire a c fresh owner is whole size automatic tx {l} {tx'} pos h =
    let (_, built, stored, _) = acquire-ok a c fresh owner is whole size automatic tx h in
    let found : get tx'.locks fresh ≡ some l = rw stored (get-put_self tx.locks fresh l) in
    ground (arith, list_eq_refl l.indices)

-- Validation returns the stored lock under the fence's id: live, of this session, and equal to the
-- fence in every field but the expiry hint.
pub validate_sound :
    (a : Authority) (c : Clock) (tx : Meta) (session : ℕ) (f : Fence) (l : Lock)
    → validate a c tx session f ≡ ok l
    → (get tx.locks f.lock_id ≡ some l)
      × (lock_live a c l ≡ true)
      × (l.session ≡ session)
      × (f.service_epoch ≡ a.epoch)
      × (f.generation ≡ l.generation)
      × (same_fence (message a c l) f ≡ true)
unfolding validate
validate_sound a c tx session f l h = ground arith

-- No fence outlives a restart: afterwards every one is refused as expired.
pub validate-boot :
    (fresh ls hs : ℕ) (tx : Meta) {a : Authority} {tx' : Meta} (c : Clock) (session : ℕ) (f : Fence)
    → boot fresh ls hs tx ≡ ok (a, tx')
    → validate a c tx' session f ≡ fault lock_expired
unfolding boot validate get
validate-boot fresh ls hs tx c session f h = ground arith

-- After a restart every stored handle is closed.
pub boot-closed :
    (fresh ls hs : ℕ) (tx : Meta) {a : Authority} {tx' : Meta} (k : ℕ) (h : Handle)
    → boot fresh ls hs tx ≡ ok (a, tx')
    → get tx'.handles k ≡ some h
    → h.closed ≡ true
unfolding boot
boot-closed fresh ls hs tx {tx' = tx'} k h b g =
    let e : tx'.handles ≡ map_rows close_handle tx.handles = ground arith in
    let (w, found, same) = get-map_rows close_handle tx.handles k h (rw e at g) in rw same refl

-- Every stored lock carries a generation that the sequence has reached.
abbrev pub IsCounted : Meta → Type 0
IsCounted tx = (k : ℕ) (l : Lock) → get tx.locks k ≡ some l → l.generation ≤ tx.lock_sequence

-- Where no stored lock has a generation above the count, a granted lock has one above that of
-- every lock stored before, and again no stored lock has a generation above the count.
pub acquire_generation :
    (a : Authority) (c : Clock) (fresh : ℕ) (owner : LockOwner) (is : List ℕ)
    (whole size automatic : Bool) (tx : Meta) {l : Lock} {tx' : Meta}
    → IsCounted tx
    → acquire a c fresh owner is whole size automatic tx ≡ ok (l, tx')
    → ((k : ℕ) (x : Lock) → get tx.locks k ≡ some x → x.generation < l.generation) × IsCounted tx'
unfolding new_lock
acquire_generation a c fresh owner is whole size automatic tx {l} {tx'} counted h =
    let (_, built, stored, seq) = acquire-ok a c fresh owner is whole size automatic tx h in
    let gen : l.generation ≡ tx.lock_sequence + 1 = ap (λ (x : Lock). x.generation) built in
    (
      λ k x g. omega (arith, counted k x g),
      λ k x g.
          let g' : get (put tx.locks fresh l) k ≡ some x = rw stored at g in
          ground (arith, get-put tx.locks fresh k l, counted k x),
    )

-- A refreshed handle never lives past its maximum nor its lease; a renewal keeps the maximum,
-- and an initial handle never lives past a day.
pub refresh_handle_bounded :
    (a : Authority) (c : Clock) (h : Handle) (initial : Bool)
    → ((refresh_handle a c h initial).deadline ≤ (refresh_handle a c h initial).maximum)
      × ((refresh_handle a c h false).maximum ≡ h.maximum)
      × ((refresh_handle a c h initial).deadline ≤ c.clock + a.handle_seconds * 1000)
      × ((refresh_handle a c h true).deadline ≤ c.clock + 86400000)
unfolding refresh_handle
refresh_handle_bounded a c h initial = ground arith
