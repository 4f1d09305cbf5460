-- ===== src/Scenarios/Locks.antt =====
-- Locks that a process grants, checks and forgets.
use dfsha.Prelude.{ℕ, ◌<◌, ◌≡◌, refl, true, false, some, [], ◌∷◌, arith}
use dfsha.Common.Domain.{ok}
use dfsha.Control.Table.{get, put, all, map_rows}
use dfsha.Control.State.{Meta, Lock}
use dfsha.Control.Leases.{
  Authority, acquire, validate, boot, message, admits, conflicts, intersects, sorted_set, live,
  new_lock,
}
use dfsha.Control.Leases.Fencing.{IsCounted, acquire_generation, validate-acquire}
use dfsha.Control.Locks.Reach.{World, here, next, grant, IsSafe, Reach-IsSafe}
use dfsha.Scenarios.World.{authority, time, owner, tx, handle}

abbrev lock : Lock
lock = record {
  id = 70;
  handle = 40;
  file = 2;
  session = 77;
  generation = 1;
  control_epoch = 3;
  indices = 1 ∷ 2 ∷ [];
  whole = false;
  size = false;
  automatic = false;
  lease = 1;
  active = [];
  deadline = 30100;
}

abbrev locked : Meta
locked = record tx { lock_sequence = 1; locks = (70, lock) ∷ [] }

granted : acquire authority time 70 owner (2 ∷ 1 ∷ 2 ∷ []) false false false tx ≡ ok (lock, locked)
unfolding acquire all put
granted = refl

unlocked : (k : ℕ) (l : Lock) → get tx.locks k ≡ some l → ⊥
unfolding get
unlocked k l e = ground arith

abbrev start : World
start = record { authority = authority; time = time; store = tx }

start-IsSafe : IsSafe start
start-IsSafe = record {
  exclusive = λ i j x y at_i at_j live_x live_y. absurd (unlocked i x at_i);
  keyed = λ k l at_k. absurd (unlocked k l at_k);
}

Reach-IsSafe_example : IsSafe (record { authority = authority; time = time; store = locked })
Reach-IsSafe_example =
    Reach-IsSafe start-IsSafe
      (next here (grant 70 owner (2 ∷ 1 ∷ 2 ∷ []) false false false granted))

-- A second lock on another block, above the first.
abbrev second_lock : Lock
second_lock = record lock { id = 71; generation = 2; lease = 2; indices = 5 ∷ [] }

abbrev both_locked : Meta
both_locked = record tx { lock_sequence = 2; locks = (70, lock) ∷ (71, second_lock) ∷ [] }

granted_again :
    acquire authority time 71 owner (5 ∷ []) false false false locked
    ≡ ok (second_lock, both_locked)
unfolding acquire all put admits conflicts intersects sorted_set live new_lock
granted_again = refl

counted : IsCounted locked
unfolding get
counted k l e = ground arith

acquire_generation_example :
    ((k : ℕ) (x : Lock) → get locked.locks k ≡ some x → x.generation < second_lock.generation)
    × IsCounted both_locked
acquire_generation_example =
    acquire_generation authority time 71 owner (5 ∷ []) false false false locked counted
      granted_again

validate-acquire_example :
    validate authority time locked owner.session (message authority time lock) ≡ ok lock
validate-acquire_example =
    validate-acquire authority time 70 owner (2 ∷ 1 ∷ 2 ∷ []) false false false tx (omega arith)
      granted

abbrev rebooted : Meta
rebooted = record locked {
  control_epoch = some (record { generation = 1; epoch = 4 });
  handles = (40, record handle { closed = true }) ∷ [];
  locks = [];
}

abbrev successor : Authority
successor = record { epoch = 4; lock_seconds = 30; handle_seconds = 60 }

restarts : boot 4 30 60 locked ≡ ok (successor, rebooted)
unfolding boot map_rows
restarts = refl

kept_handle : get rebooted.handles 40 ≡ some (record handle { closed = true })
unfolding get
kept_handle = refl
