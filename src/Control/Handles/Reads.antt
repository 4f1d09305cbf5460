-- ===== src/Control/Handles/Reads.antt =====
-- src/dfsha/control/access.py, `BeginRead` and `EndRead`: what a read holds while it lasts.
use dfsha.Prelude.{
  ℕ, ◌+◌, ◌-◌, ◌≤◌, ◌≡◌, refl, sym, subst, ap, ◌∙◌, true, false, not, ◌&&◌, Option, none, some,
  arith, leb, ◌==◌, ==_refl, is_some,
}
use dfsha.Common.Domain.{
  Result, ok, fault, ◌>>=◌, ◌>>◌, need, need_then, >>=-eq-ok, handle_busy, permission_denied,
  version_conflict, invalid_argument, stale_handle,
}
use dfsha.Control.Table.{get, put, get-put_self}
use dfsha.Control.State.{
  Meta, User, Handle, Snapshot, SnapshotRef, snapshot_ref_eq, ReadLease, reads_mode, System,
}
use dfsha.Control.Leases.{Authority, Clock, checked_range, max_offset}
use dfsha.Control.Handles.{
  found, found-ok, is_current, covers, validate_read, is_reader_of, end_read, close, close_open,
  handle_of, begun, begin_read, lease_of, enter,
}

pub is_some-none : (o : Option ℕ) → not (is_some o) ≡ true → o ≡ none
is_some-none none h = refl
is_some-none (some x) h = absurd (cc)

checked_range-fits :
    (offset length upper : ℕ)
    → checked_range offset length none ≡ ok upper
    → leb (offset + length) max_offset ≡ true
unfolding checked_range
checked_range-fits offset length upper e =
    let (fits, rest) =
      need_then (leb offset max_offset && leb length (max_offset - offset)) invalid_argument _ e in
    ground (arith, fits)

module _ (sys : System) (a : Authority) (c : Clock) where
  pub handle_of-current :
      (tx : Meta) (user : User) (session identity : ℕ) (h : Handle) (snap : Snapshot)
      → handle_of sys a c tx user session identity ≡ ok (h, snap)
      → (get tx.handles identity ≡ some h) × (is_current a c user session h ≡ true)
  unfolding handle_of
  handle_of-current tx user session identity h snap e =
      let entered : Handle → Result (Handle × Snapshot) =
        λ x. enter sys a c tx user x >>= λ s. ok (x, s) in
      let (h', row, e1) =
        >>=-eq-ok (found stale_handle (get tx.handles identity))
          (λ x. need (is_current a c user session x) stale_handle >> entered x) e in
      let (current, e2) = need_then (is_current a c user session h') stale_handle (entered h') e1 in
      let (s, rights, e3) = >>=-eq-ok (enter sys a c tx user h') (λ s. ok (h', s)) e2 in
      let answer : Result (Handle × Snapshot) = ok (h', s) in
      let out : answer ≡ ok (h, snap) = e3 in
      let same : h' ≡ h = cc in
      (
        found-ok (get tx.handles identity) stale_handle (row ∙ ap ok same),
        subst (λ x. is_current a c user session x ≡ true) same current,
      )

  -- What a read that begins leaves: the handle was free and the caller's.
  begin_read-ok :
      (tx tx' : Meta) (fresh : ℕ) (user : User) (session handle_id : ℕ) (snapshot : SnapshotRef)
      (offset length : ℕ) (lease : ReadLease)
      → begin_read sys a c tx fresh user session handle_id snapshot offset length ≡ ok (lease, tx')
      → (h : Handle) × (get tx.handles handle_id ≡ some h)
        × (is_current a c user session h ≡ true)
        × (h.busy ≡ none)
        × (leb (offset + length) max_offset ≡ true)
        × (lease_of sys a c fresh session offset length h ≡ lease)
        × (begun sys a c tx fresh handle_id h lease ≡ tx')
  unfolding begin_read
  begin_read-ok tx tx' fresh user session handle_id snapshot offset length lease e =
      let lease_for = lease_of sys a c fresh session offset length in
      let final : Handle → Result (ReadLease × Meta) =
        λ h. ok (lease_for h, begun sys a c tx fresh handle_id h (lease_for h)) in
      let range = checked_range offset length none in
      let fits : Handle → Result (ReadLease × Meta) = λ h. range >>= λ upper. final h in
      let agrees : Handle → Snapshot → Result (ReadLease × Meta) =
        λ h snap. need (snapshot_ref_eq snapshot snap.ref) version_conflict >> fits h in
      let free : Handle → Snapshot → Result (ReadLease × Meta) =
        λ h snap. need (not (is_some h.busy)) handle_busy >> agrees h snap in
      let (x, got, e1) =
        >>=-eq-ok (handle_of sys a c tx user session handle_id)
          (λ x. need (reads_mode x.0.mode) permission_denied >> free x.0 x.1) e in
      let h = x.0 in
      let (reads, e2) = need_then (reads_mode h.mode) permission_denied (free h x.1) e1 in
      let (idle, e3) = need_then (not (is_some h.busy)) handle_busy (agrees h x.1) e2 in
      let (same, e4) = need_then (snapshot_ref_eq snapshot x.1.ref) version_conflict (fits h) e3 in
      let (upper, fit, e5) = >>=-eq-ok range (λ upper. final h) e4 in
      let out : final h ≡ ok (lease, tx') = e5 in
      let lease_is : lease_for h ≡ lease = cc in
      let built : begun sys a c tx fresh handle_id h (lease_for h) ≡ tx' = cc in
      let (row, current) = handle_of-current tx user session handle_id h x.1 got in
      (
        h,
        row,
        current,
        is_some-none h.busy idle,
        checked_range-fits offset length upper fit,
        lease_is,
        rw (sym lease_is) built,
      )

  -- the handle while the read lasts
  held : Handle → ℕ → Handle
  held h fresh = record h { busy = some fresh }

  begun-handle :
      (tx : Meta) (fresh handle_id : ℕ) (h : Handle) (lease : ReadLease)
      → get (begun sys a c tx fresh handle_id h lease).handles handle_id ≡ some (held h fresh)
  unfolding begun held
  begun-handle tx fresh handle_id h lease = get-put_self tx.handles handle_id (held h fresh)

  close-busy :
      (tx : Meta) (fresh : ℕ) (user : User) (session handle_id : ℕ) (h : Handle) (lease : ReadLease)
      → is_current a c user session h ≡ true
      → close (begun sys a c tx fresh handle_id h lease) user session handle_id ≡ fault handle_busy
  unfolding close close_open found begun is_current held
  close-busy tx fresh user session handle_id h lease current =
      let mine : (h.user == user.id && h.session == session) ≡ true = ground (arith, current) in
      let unclosed : h.closed ≡ false = ground (arith, current) in
      rw (get-put_self tx.handles handle_id (held h fresh), mine, unclosed) refl

  validate_read-inside :
      (tx : Meta) (fresh : ℕ) (user : User) (session handle_id offset length lo n : ℕ) (h : Handle)
      → is_current a c user session h ≡ true
      → leb (offset + length) max_offset ≡ true
      → offset ≤ lo
      → lo + n ≤ offset + length
      → validate_read
          (begun sys a c tx fresh handle_id h (lease_of sys a c fresh session offset length h))
          (held h fresh)
          fresh
          lo
          n
        ≡ ok (lease_of sys a c fresh session offset length h)
  unfolding validate_read checked_range found begun covers lease_of is_current held
  validate_read-inside tx fresh user session handle_id offset length lo n h current fits low high =
      let range : (leb lo max_offset && leb n (max_offset - lo)) ≡ true =
        ground (arith, fits, low, high) in
      let mine : (h.session == h.session && (fresh == fresh)) ≡ true = ground arith in
      let stored = get-put_self tx.reads fresh (lease_of sys a c fresh session offset length h) in
      let covered : (h.id == h.id && (session == h.session && ((fresh == fresh) && true))) ≡ true =
        ground (arith, current) in
      let inside : (leb offset lo && leb (lo + n) (offset + length)) ≡ true =
        ground (arith, low, high) in
      rw (range, stored, covered, inside) refl

  -- the store when the read has ended
  ended : Meta → ℕ → ℕ → Handle → ReadLease → Meta
  ended tx fresh handle_id h lease =
      let during = begun sys a c tx fresh handle_id h lease in
      record during {
        reads = put during.reads fresh (record lease { closed = true });
        handles = put during.handles handle_id (record (held h fresh) { busy = none });
      }

  end_read-restores :
      (tx : Meta) (fresh : ℕ) (user : User) (session handle_id offset length : ℕ) (h : Handle)
      → is_current a c user session h ≡ true
      → end_read
          (begun sys a c tx fresh handle_id h (lease_of sys a c fresh session offset length h))
          user
          session
          handle_id
          fresh
        ≡ ok (ended tx fresh handle_id h (lease_of sys a c fresh session offset length h))
  unfolding end_read found begun lease_of is_reader_of is_current ended held
  end_read-restores tx fresh user session handle_id offset length h current =
      let row = get-put_self tx.handles handle_id (held h fresh) in
      let stored = get-put_self tx.reads fresh (lease_of sys a c fresh session offset length h) in
      let mine : (h.id == h.id && (session == session && h.user == user.id)) ≡ true =
        ground (arith, current) in
      let own : (fresh == fresh) ≡ true = ==_refl fresh in rw (row, stored, mine, own) refl

  ended-handle :
      (tx : Meta) (fresh handle_id : ℕ) (h : Handle) (lease : ReadLease)
      → h.busy ≡ none
      → get (ended tx fresh handle_id h lease).handles handle_id ≡ some h
  unfolding ended begun held
  ended-handle tx fresh handle_id h lease idle =
      get-put_self (put tx.handles handle_id (held h fresh)) handle_id _
      ∙ subst (λ b. some (record h { busy = b }) ≡ some h) idle refl

  -- A read begins on a handle that is free. While it lasts the handle cannot be closed, and every
  -- range inside that of the read is validated under its id. Its end succeeds, and leaves the
  -- handle as it was.
  pub begin_read-end_read :
      (tx tx' : Meta) (fresh : ℕ) (user : User) (session handle_id : ℕ) (snapshot : SnapshotRef)
      (offset length : ℕ) (lease : ReadLease)
      → begin_read sys a c tx fresh user session handle_id snapshot offset length ≡ ok (lease, tx')
      → (before : Handle) × (during : Handle) × (get tx.handles handle_id ≡ some before)
        × (before.busy ≡ none)
        × (get tx'.handles handle_id ≡ some during)
        × (close tx' user session handle_id ≡ fault handle_busy)
        × ((lo n : ℕ)
            → offset ≤ lo
            → lo + n ≤ offset + length
            → validate_read tx' during fresh lo n ≡ ok lease)
        × (tx'' : Meta) × (end_read tx' user session handle_id fresh ≡ ok tx'')
        × (get tx''.handles handle_id ≡ some before)
  begin_read-end_read tx tx' fresh user session handle_id snapshot offset length lease e =
      let (h, row, current, idle, fits, lease_is, built) =
        begin_read-ok tx tx' fresh user session handle_id snapshot offset length lease e in
      let made = lease_of sys a c fresh session offset length h in
      let during_is : begun sys a c tx fresh handle_id h made ≡ tx' = rw lease_is built in
      (
        h,
        held h fresh,
        row,
        idle,
        rw (sym during_is) (begun-handle tx fresh handle_id h made),
        rw (sym during_is) (close-busy tx fresh user session handle_id h made current),
        λ lo n low high. rw (sym during_is) (
            validate_read-inside tx fresh user session handle_id offset length lo n h current fits
              low high
            ∙ ap ok lease_is),
        ended tx fresh handle_id h made,
        rw (sym during_is)
            (end_read-restores tx fresh user session handle_id offset length h current),
        ended-handle tx fresh handle_id h made idle,
      )
