-- ===== src/Control/Handles.antt =====
-- src/dfsha/control/access.py: open files, their reads and their locks (`handle`, `writable`,
-- `validate_read`, `BeginRead`, `EndRead`, `RenewHandle`, `Close`, `Lock`). A row that is
-- missing where the source takes it to be there is NOT_FOUND; a row's key is its id.
pub mod Reads
pub mod Ranges
pub mod Ancestors
use dfsha.Prelude.{
  ℕ, zero, suc, ◌≡◌, ◌+◌, ◌-◌, ◌/◌, Bool, true, false, not, ◌&&◌, Option, none, some, List, [], ◌∷◌,
  ltb, leb, ◌==◌, option_eq, if◌then◌else◌, is_some, length,
}
use dfsha.Common.Domain.{
  Reason, Result, ok, fault, ◌>>=◌, ◌>>◌, need, not_found, stale_handle, permission_denied,
  version_conflict, handle_busy, invalid_argument,
}
use dfsha.Control.Table.{Table, get, put, delete}
use dfsha.Control.State.{
  Meta, User, Node, Handle, Snapshot, SnapshotRef, snapshot_ref_eq, ReadLease, reads_mode,
  writes_mode, System, file, Lock, Upload, is_preparing, Fence,
}
use dfsha.Control.Auth.{require}
use dfsha.Control.Paths.{parent}
use dfsha.Control.Placement.{row_of}
use dfsha.Control.Leases.{
  Authority, Clock, handle_owner, handle_live, checked_range, max_delta, refresh_handle, acquire,
  message,
}

-- the row, or the reason
unfoldable pub found {ℓ} : {A : Type ℓ} → Reason → Option A → Result A
found r none = fault r
found r (some x) = ok x

pub found-ok {ℓ} : {A : Type ℓ} (o : Option A) (r : Reason) {x : A} → found r o ≡ ok x → o ≡ some x
unfolding found
found-ok none r e = cc
found-ok (some y) r e = cc

-- The handle is the caller's, is open and lives.
unfoldable pub is_current : Authority → Clock → User → ℕ → Handle → Bool
is_current a c user session h =
    h.user == user.id && (h.session == session && (not h.closed && handle_live a c h))

-- `validate_read`
unfoldable pub covers : Handle → ℕ → ReadLease → Bool
covers h identity r =
    r.handle == h.id
    && (r.session == h.session && (option_eq h.busy (some identity) && not r.closed))

unfoldable pub validate_read : Meta → Handle → ℕ → ℕ → ℕ → Result ReadLease
validate_read tx h identity offset length = do
  upper ← checked_range offset length none
  lease ← found handle_busy (get tx.reads identity)
  need (covers h identity lease) handle_busy
  need (leb lease.offset offset && leb upper (lease.offset + lease.length)) permission_denied
  ok lease

-- `EndRead`
unfoldable pub is_reader_of : User → ℕ → Handle → ReadLease → Bool
is_reader_of user session h r = r.handle == h.id && (r.session == session && h.user == user.id)

unfoldable pub end_read : Meta → User → ℕ → ℕ → ℕ → Result Meta
end_read tx user session handle_id read_id = do
  h ← found permission_denied (get tx.handles handle_id)
  lease ← found permission_denied (get tx.reads read_id)
  need (is_reader_of user session h lease) permission_denied
  ok (record tx {
    reads = put tx.reads read_id (record lease { closed = true });
    handles =
        if option_eq h.busy (some lease.id)
        then put tx.handles handle_id (record h { busy = none })
        else tx.handles;
  })

-- What `Close` writes: the handle, and its locks go.
unfoldable pub drop_locks : ℕ → ℕ → Table Lock → Table Lock → Table Lock
drop_locks handle_id session [] t = t
drop_locks handle_id session ((k, l) ∷ rest) t =
    drop_locks handle_id session rest
      (if l.handle == handle_id && l.session == session then delete t k else t)

close_open : Meta → ℕ → ℕ → Handle → Result (ℕ × Meta)
close_open tx session handle_id h =
    need (not (is_some h.busy)) handle_busy
    >> ok (
      h.revision + 1,
      record tx {
        handles = put tx.handles handle_id (record h { closed = true; revision = h.revision + 1 });
        locks = drop_locks h.id session tx.locks tx.locks;
      },
    )

-- `Close`; the answer is the handle's revision
unfoldable pub close : Meta → User → ℕ → ℕ → Result (ℕ × Meta)
unfolding close_open
close tx user session handle_id = do
  h ← found stale_handle (get tx.handles handle_id)
  need (h.user == user.id && h.session == session) stale_handle
  if h.closed then ok (h.revision, tx) else close_open tx session handle_id h

-- the ids above a node; `fuel` bounds the loop, and `none` is that it ran out
unfoldable pub ancestors_of : ℕ → Table Node → Option ℕ → Result (Option (List ℕ))
ancestors_of fuel nodes none = ok (some [])
ancestors_of zero nodes (some p) = ok none
ancestors_of (suc fuel) nodes (some p) = do
  up ← found not_found (get nodes p)
  above ← ancestors_of fuel nodes up.parent
  ok (elim above [ none ↦ none | some ps ↦ some (p ∷ ps) ])

-- `range(first, last)`
unfoldable pub range_from : ℕ → ℕ → List ℕ
range_from first zero = []
range_from first (suc n) = first ∷ range_from (first + 1) n

-- the blocks of a range that is not empty
unfoldable pub lock_indices : ℕ → ℕ → ℕ → List ℕ
lock_indices size offset upper = range_from (offset / size) ((upper - 1) / size + 1 - offset / size)

-- the indices that `Lock` asks for; an absent offset or length is `none`
unfoldable pub requested : Bool → Option ℕ → Option ℕ → ℕ → Result (List ℕ)
requested true none none size = ok []
requested false (some offset) (some length) size = do
  need (ltb 0 length) invalid_argument
  upper ← checked_range offset length (some max_delta)
  ok (lock_indices size offset upper)
requested _ _ _ size = fault invalid_argument

module _ (sys : System) (a : Authority) (c : Clock) where
  unfoldable pub require_ancestors : Meta → User → List ℕ → Result (Unit {0})
  require_ancestors tx user [] = ok tt
  require_ancestors tx user (p ∷ ps) = do
    up ← found not_found (get tx.nodes p)
    require sys tx user up 1
    require_ancestors tx user ps

  -- The rights that `handle` tests, and the snapshot of the handle.
  unfoldable pub enter : Meta → User → Handle → Result Snapshot
  enter tx user h = do
    node ← found not_found (get tx.nodes h.file)
    require sys tx user node (if reads_mode h.mode then 4 else 2)
    require_ancestors tx user h.ancestors
    found stale_handle (get tx.snapshots h.snapshot)

  -- `handle`
  unfoldable pub handle_of : Meta → User → ℕ → ℕ → Result (Handle × Snapshot)
  handle_of tx user session identity = do
    h ← found stale_handle (get tx.handles identity)
    need (is_current a c user session h) stale_handle
    snap ← enter tx user h
    ok (h, snap)

  -- What `writable` tests of the node of a handle, against the node's current snapshot.
  unfoldable pub is_fresh : Node → Snapshot → Snapshot → Bool
  is_fresh node snap current = node.alive && current.ref.content_epoch == snap.ref.content_epoch

  unfoldable pub writable_node : Meta → User → Snapshot → Node → Result (Node × Snapshot)
  writable_node tx user snap node = do
    require sys tx user node 2
    current ← found not_found (row_of tx.snapshots node.snapshot)
    need (is_fresh node snap current) version_conflict
    ok (node, current)

  -- `writable`
  unfoldable pub writable : Meta → User → ℕ → ℕ → Result (Handle × Snapshot × Node × Snapshot)
  writable tx user session identity = do
    (h, snap) ← handle_of tx user session identity
    need (writes_mode h.mode) permission_denied
    row ← found not_found (get tx.nodes h.file)
    (node, current) ← writable_node tx user snap row
    ok (h, snap, node, current)

  -- the row of a read
  unfoldable pub lease_of : ℕ → ℕ → ℕ → ℕ → Handle → ReadLease
  lease_of fresh session offset length h = record {
    id = fresh;
    handle = h.id;
    session = session;
    offset = offset;
    length = length;
    closed = false;
  }

  unfoldable pub begun : Meta → ℕ → ℕ → Handle → ReadLease → Meta
  begun tx fresh handle_id h lease = record tx {
    reads = put tx.reads fresh lease;
    handles = put tx.handles handle_id (record h { busy = some fresh });
  }

  -- `BeginRead`; `fresh` is the uuid drawn for the read
  unfoldable pub begin_read :
      Meta → ℕ → User → ℕ → ℕ → SnapshotRef → ℕ → ℕ → Result (ReadLease × Meta)
  begin_read tx fresh user session handle_id snapshot offset length = do
    (h, snap) ← handle_of tx user session handle_id
    need (reads_mode h.mode) permission_denied
    need (not (is_some h.busy)) handle_busy
    need (snapshot_ref_eq snapshot snap.ref) version_conflict
    upper ← checked_range offset length none
    ok (
      lease_of fresh session offset length h,
      begun tx fresh handle_id h (lease_of fresh session offset length h),
    )

  -- `RenewHandle`; a write of the handle that is under way lives as long
  extend_write : ℕ → Option ℕ → Table Upload → Table Upload
  extend_write expires none uploads = uploads
  extend_write expires (some id) uploads = elim (get uploads id) [
    | none ↦ uploads
    | some op ↦
        if is_some op.write && is_preparing op.state
        then put uploads id (record op { expires = expires })
        else uploads
  ]

  unfoldable pub renew_handle : Meta → User → ℕ → ℕ → Result (Handle × Meta)
  unfolding extend_write
  renew_handle tx user session handle_id = do
    (h, snap) ← handle_of tx user session handle_id
    let h' = refresh_handle a c h false
    ok (
      h',
      record tx {
        handles = put tx.handles handle_id h';
        uploads = extend_write h'.expires h'.busy tx.uploads;
      },
    )

  -- `Lock`; `fresh` is the uuid drawn for the lock
  unfoldable pub lock_range :
      Meta → ℕ → User → ℕ → ℕ → Bool → Option ℕ → Option ℕ → ℕ → Result (Fence × Meta)
  lock_range tx fresh user session handle_id whole offset length wait_timeout_ms = do
    (h, snap, node, current) ← writable tx user session handle_id
    need (not (is_some h.busy)) handle_busy
    need (leb wait_timeout_ms 5000) invalid_argument
    indices ← requested whole offset length snap.ref.block_size_bytes
    (lock, tx') ← acquire a c fresh (handle_owner h) indices whole whole false tx
    ok (message a c lock, tx')
