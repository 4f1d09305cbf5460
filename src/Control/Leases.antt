-- ===== src/Control/Leases.antt =====
-- src/dfsha/control/leases.py: `SQLiteLeaseAuthority`. `self.clock`, a monotonic clock in seconds, is
-- read in milliseconds here, and the wall clock `now()` too; one transaction reads each once.
pub mod Exclusion
pub mod Fencing
pub mod Indices
use dfsha.Prelude.{
  ℕ, ◌+◌, ◌-◌, ◌*◌, ◌^◌, Bool, true, false, not, ◌&&◌, ◌||◌, Option, none, some, List, [], ◌∷◌, min,
  ltb, leb, ◌==◌, bool_eq, option_eq, if◌then◌else◌, all_of, any_of, mem_of, list_eq, remove_first,
}
use dfsha.Common.Domain.{
  Result, ok, fault, ◌>>◌, need, invalid_argument, limit_exceeded, lock_conflict, lock_expired,
  permission_denied,
}
use dfsha.Control.Table.{Table, get, all, put, delete, map_rows}
use dfsha.Control.State.{Meta, Handle, Lock, Upload, Fence}
pub use dfsha.Control.State.{Fence}

abbrev pub max_delta : ℕ
max_delta = 16 * 1024 * 1024

abbrev pub max_offset : ℕ
max_offset = 2 ^ 63 - 1

-- `checked_range(offset, length, maximum)`; the arguments are no negative numbers
unfoldable pub checked_range : ℕ → ℕ → Option ℕ → Result ℕ
checked_range offset length maximum = do
  need (leb offset max_offset && leb length (max_offset - offset)) invalid_argument
  need (elim maximum [ none ↦ true | some m ↦ leb length m ]) limit_exceeded
  ok (offset + length)

-- The two clocks, as one transaction reads them.
pub record Clock : Type 0 where
  pub now : ℕ
  pub clock : ℕ

-- The authority's own fields.
pub record Authority : Type 0 where
  pub epoch : ℕ
  pub lock_seconds : ℕ
  pub handle_seconds : ℕ

close_handle : Handle → Handle
close_handle h = record h { closed = true }

-- `__init__`; `fresh` is the uuid drawn for the epoch
unfoldable pub boot : ℕ → ℕ → ℕ → Meta → Result (Authority × Meta)
unfolding close_handle
boot fresh lock_seconds handle_seconds tx = do
  need
      (ltb 0 lock_seconds
        && leb lock_seconds 300
        && (ltb 0 handle_seconds && leb handle_seconds 3600))
      invalid_argument
  let generation : ℕ = elim tx.control_epoch [ none ↦ 0 | some c ↦ c.generation ]
  ok (
    record { epoch = fresh; lock_seconds = lock_seconds; handle_seconds = handle_seconds },
    record tx {
      control_epoch = some (record { generation = generation + 1; epoch = fresh });
      handles = map_rows close_handle tx.handles;
      locks = [];
    },
  )

-- `live(record)`, of a record with this epoch and deadline
unfoldable pub live : Authority → Clock → ℕ → ℕ → Bool
live a c control_epoch deadline = control_epoch == a.epoch && ltb c.clock deadline

abbrev pub lock_live : Authority → Clock → Lock → Bool
lock_live a c l = live a c l.control_epoch l.deadline

abbrev pub handle_live : Authority → Clock → Handle → Bool
handle_live a c h = live a c h.control_epoch h.deadline

-- `expiry_hint`: `-` stops at 0, as the source's `max(0, …)` does
unfoldable pub expiry_hint : Clock → ℕ → ℕ
expiry_hint c deadline = c.now + (deadline - c.clock)

unfoldable pub refresh_handle : Authority → Clock → Handle → Bool → Handle
unfolding expiry_hint
refresh_handle a c h initial =
    let epoch = if initial then a.epoch else h.control_epoch in
    let maximum = if initial then c.clock + 86400 * 1000 else h.maximum in
    let deadline = min (c.clock + a.handle_seconds * 1000) maximum in
    record h {
      control_epoch = epoch;
      maximum = maximum;
      deadline = deadline;
      expires = expiry_hint c deadline;
    }

-- `sorted(set(indices))`
insert_index : ℕ → List ℕ → List ℕ
insert_index i [] = i ∷ []
insert_index i (j ∷ js) =
    let later = j ∷ insert_index i js in
    if i == j then j ∷ js else if ltb i j then i ∷ j ∷ js else later

unfoldable pub sorted_set : List ℕ → List ℕ
unfolding insert_index
sorted_set [] = []
sorted_set (i ∷ is) = insert_index i (sorted_set is)

-- The handle, or the stand-in for one, that asks for a lock.
pub record LockOwner : Type 0 where
  pub id : ℕ
  pub file : ℕ
  pub session : ℕ

abbrev pub handle_owner : Handle → LockOwner
handle_owner h = record { id = h.id; file = h.file; session = h.session }

-- `set(indices).intersection(lock['indices'])` is not empty
unfoldable pub intersects : List ℕ → List ℕ → Bool
intersects is js = any_of (λ i. mem_of i js) is

-- The condition that the loop of `acquire` refuses.
unfoldable pub conflicts : List ℕ → Bool → Bool → Lock → Bool
unfolding intersects
conflicts indices whole size l =
    whole || (l.whole || ((size && l.size) || intersects indices l.indices))

-- One round of that loop.
unfoldable pub admits : Authority → Clock → LockOwner → List ℕ → Bool → Bool → Lock → Bool
unfolding live conflicts
admits a c owner indices whole size l =
    not (lock_live a c l)
    || (not (l.file == owner.file)
        || ((l.session == owner.session && l.handle == owner.id)
            || not (conflicts indices whole size l)))

-- The lock that `acquire` stores.
unfoldable pub new_lock : Authority → Clock → ℕ → LockOwner → List ℕ → Bool → Bool → Bool → ℕ → Lock
new_lock a c fresh owner indices whole size automatic sequence = record {
  id = fresh;
  handle = owner.id;
  file = owner.file;
  session = owner.session;
  generation = sequence;
  control_epoch = a.epoch;
  indices = indices;
  whole = whole;
  size = size;
  automatic = automatic;
  lease = sequence;
  active = [];
  deadline = c.clock + a.lock_seconds * 1000;
}

-- `acquire`; `fresh` is the uuid drawn for the lock
unfoldable pub acquire :
    Authority → Clock → ℕ → LockOwner → List ℕ → Bool → Bool → Bool → Meta → Result (Lock × Meta)
unfolding admits sorted_set new_lock
acquire a c fresh owner requested whole size automatic tx = do
  let indices = sorted_set requested
  need (all_of (admits a c owner indices whole size) (all tx.locks)) lock_conflict
  let sequence = tx.lock_sequence + 1
  let lock = new_lock a c fresh owner indices whole size automatic sequence
  ok (lock, record tx { lock_sequence = sequence; locks = put tx.locks fresh lock })

unfoldable pub message : Authority → Clock → Lock → Fence
unfolding expiry_hint
message a c l = record {
  lock_id = l.id;
  handle_id = l.handle;
  service_epoch = a.epoch;
  generation = l.generation;
  lease_id = l.lease;
  block_indices = l.indices;
  whole_file = l.whole;
  includes_size = l.size;
  expires_at_unix_ms = expiry_hint c l.deadline;
}

-- `expected == supplied`, both without `expires_at_unix_ms`
unfoldable pub same_fence : Fence → Fence → Bool
same_fence e s =
    e.lock_id == s.lock_id
    && (e.handle_id == s.handle_id
        && (e.service_epoch == s.service_epoch
            && (e.generation == s.generation
                && (e.lease_id == s.lease_id
                    && (list_eq e.block_indices s.block_indices
                        && (bool_eq e.whole_file s.whole_file
                            && bool_eq e.includes_size s.includes_size))))))

-- `validate(tx, session, fence)`; `session` is the session record's id
unfoldable pub validate : Authority → Clock → Meta → ℕ → Fence → Result Lock
unfolding live message same_fence
validate a c tx session fence = elim (get tx.locks fence.lock_id) [
  | none ↦ fault lock_expired
  | some lock ↦ do
    need (lock.session == session && lock.handle == fence.handle_id) permission_denied
    need
        (lock_live a c lock
          && (fence.service_epoch == a.epoch
              && (fence.generation == lock.generation && fence.lease_id == lock.lease)))
        lock_expired
    need (same_fence (message a c lock) fence) permission_denied
    ok lock
]

-- One round of the loop of `release_operation` on the lock that it reads: is the operation active
-- on it, and is the lock automatic?
release_held : ℕ → ℕ → Table Lock → Lock → Bool → Bool → Table Lock
release_held op identity t lock false _ = t
release_held op identity t lock true true = delete t identity
release_held op identity t lock true false =
    put t identity (record lock { active = remove_first op lock.active })

release_found : ℕ → ℕ → Table Lock → Option Lock → Table Lock
release_found op identity t none = t
release_found op identity t (some lock) =
    release_held op identity t lock (mem_of op lock.active) lock.automatic

unfoldable pub release_lock : ℕ → ℕ → Table Lock → Table Lock
unfolding release_held release_found
release_lock op identity t = release_found op identity t (get t identity)

release_locks : ℕ → List ℕ → Table Lock → Table Lock
release_locks op [] t = t
release_locks op (l ∷ ls) t = release_locks op ls (release_lock op l t)

release_handle : ℕ → Option ℕ → Meta → Meta
release_handle op none tx = tx
release_handle op (some identity) tx = elim (get tx.handles identity) [
  | none ↦ tx
  | some handle ↦
      if option_eq handle.busy (some op)
      then record tx { handles = put tx.handles identity (record handle { busy = none }) }
      else tx
]

unfoldable pub release_operation : Upload → Meta → Meta
unfolding release_lock release_locks release_handle
release_operation op tx =
    release_handle op.id op.handle (record tx { locks = release_locks op.id op.locks tx.locks })
