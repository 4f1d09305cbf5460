-- ===== src/Control/Leases/Exclusion.antt =====
-- Mutual exclusion of the locks that src/dfsha/control/leases.py hands out.
use dfsha.Prelude.{
  ℕ, ◌+◌, ◌≤◌, ◌≡◌, refl, ap, inl, inr, Bool, true, false, not, ◌&&◌, ◌||◌, Option, none, some,
  List, [], ◌∷◌, ◌==◌, all_of, mem_of, arith, Bool-cases,
}
use dfsha.Common.Domain.{ok}
use dfsha.Control.Table.{Table, get, put, all, delete, get-put, get-delete, all_of-get}
use dfsha.Control.State.{Meta, Lock, Upload}
use dfsha.Control.Leases.{
  Authority, Clock, LockOwner, lock_live, live, conflicts, intersects, admits, acquire, sorted_set,
  new_lock, release_operation, release_held, release_found, release_lock, release_locks,
  release_handle,
}

-- Two locks, of the same file and with different owners, that exclude one another.
abbrev pub same_owner : Lock → Lock → Bool
same_owner x y = x.session == y.session && x.handle == y.handle

-- Some index is in both lists.
unfoldable pub share_index : List ℕ → List ℕ → Bool
share_index [] js = false
share_index (i ∷ is) js = mem_of i js || share_index is js

abbrev pub clash : Lock → Lock → Bool
clash x y =
    x.file == y.file
    && (not (same_owner x y)
        && (x.whole || (y.whole || ((x.size && y.size) || share_index x.indices y.indices))))

-- No two live locks of the table clash.
abbrev pub IsExclusive : Authority → Clock → Table Lock → Type 0
IsExclusive a c t =
    (i j : ℕ) (x y : Lock)
    → get t i ≡ some x
    → get t j ≡ some y
    → lock_live a c x ≡ true
    → lock_live a c y ≡ true
    → clash x y ≡ false

mem_of-share_index :
    (i : ℕ) (is js : List ℕ) → mem_of i is ≡ true → mem_of i js ≡ true → share_index is js ≡ true
unfolding share_index
mem_of-share_index i [] js h k = cc
mem_of-share_index i (x ∷ is) js h k = ground (arith, mem_of-share_index i is js)

share_index-witness :
    (is js : List ℕ)
    → share_index is js ≡ true
    → (i : ℕ) × (mem_of i is ≡ true) × (mem_of i js ≡ true)
unfolding share_index
share_index-witness [] js h = absurd (cc)
share_index-witness (x ∷ is) js h = elim (Bool-cases (mem_of x js)) [
  | inl here ↦ (x, ground arith, here)
  | inr not_here ↦
      let (i, left, right) = share_index-witness is js (ground arith) in (i, ground arith, right)
]

share_index_sym : (is js : List ℕ) → share_index is js ≡ false → share_index js is ≡ false
share_index_sym is js h = elim (Bool-cases (share_index js is)) [
  | inl met ↦
      let (i, left, right) = share_index-witness js is met in
      cc (mem_of-share_index i is js right left)
  | inr apart ↦ apart
]

clash_sym : (x y : Lock) → clash x y ≡ false → clash y x ≡ false
clash_sym x y h = ground (arith, share_index_sym x.indices y.indices)

intersects-share_index : (is js : List ℕ) → intersects is js ≡ share_index is js
unfolding intersects share_index
intersects-share_index [] js = refl
intersects-share_index (i ∷ is) js = rw (intersects-share_index is js) refl

-- A row whose round of the loop passes does not clash with the new lock, if it is live.
admits-clash :
    (a : Authority) (c : Clock) (owner : LockOwner) (x y : Lock)
    → x.file ≡ owner.file
    → x.session ≡ owner.session
    → x.handle ≡ owner.id
    → admits a c owner x.indices x.whole x.size y ≡ true
    → lock_live a c y ≡ true
    → clash x y ≡ false
unfolding admits conflicts
admits-clash a c owner x y f s h ad lv = ground (arith, intersects-share_index x.indices y.indices)

-- A lock put into a table with which it is compatible.
put-IsExclusive :
    (a : Authority) (c : Clock) (t : Table Lock) (k : ℕ) (l : Lock)
    → IsExclusive a c t
    → ((j : ℕ) (y : Lock)
        → lock_live a c l ≡ true
        → get t j ≡ some y
        → lock_live a c y ≡ true
        → clash l y ≡ false)
    → IsExclusive a c (put t k l)
put-IsExclusive a c t k l ex fits i j x y gx gy lx ly = elim (Bool-cases (i == k)) [
  | inl here ↦ elim (Bool-cases (j == k)) [
    | inl same ↦ ground (arith, get-put t k i l, get-put t k j l)
    | inr other ↦
        let e : l ≡ x = ground (arith, get-put t k i l) in
        let ll : lock_live a c l ≡ true = rw e lx in
        rw (← e) (fits j y ll (ground (arith, get-put t k j l)) ly)
  ]
  | inr there ↦ elim (Bool-cases (j == k)) [
    | inl same ↦
        let e : l ≡ y = ground (arith, get-put t k j l) in
        let ll : lock_live a c l ≡ true = rw e ly in
        rw (← e) (clash_sym l x (fits i x ll (ground (arith, get-put t k i l)) lx))
    | inr other ↦
        ex i j x y (ground (arith, get-put t k i l)) (ground (arith, get-put t k j l)) lx ly
  ]
]

clash_self : (l : Lock) → clash l l ≡ false
clash_self l = ground arith

pub delete-IsExclusive :
    (a : Authority) (c : Clock) (t : Table Lock) (k : ℕ)
    → IsExclusive a c t
    → IsExclusive a c (delete t k)
delete-IsExclusive a c t k ex i j x y gx gy lx ly =
    ex i j x y (ground (arith, get-delete t k i)) (ground (arith, get-delete t k j)) lx ly

-- A row may be written again, if what clashes is unchanged and it is not brought to life.
pub rewrite-IsExclusive :
    (a : Authority) (c : Clock) (t : Table Lock) (k : ℕ) (old l : Lock)
    → get t k ≡ some old
    → (lock_live a c l ≡ true → lock_live a c old ≡ true)
    → ((y : Lock) → clash l y ≡ clash old y)
    → IsExclusive a c t
    → IsExclusive a c (put t k l)
rewrite-IsExclusive a c t k old l found kept same ex =
    put-IsExclusive a c t k l ex λ j y ll gy ly. rw (same y) (ex k j old y found gy (kept ll) ly)

-- What a granted lock tells of the table.
pub acquire-ok :
    (a : Authority) (c : Clock) (fresh : ℕ) (owner : LockOwner) (is : List ℕ)
    (whole size automatic : Bool) (tx : Meta) {l : Lock} {tx' : Meta}
    → acquire a c fresh owner is whole size automatic tx ≡ ok (l, tx')
    → (all_of (admits a c owner (sorted_set is) whole size) (all tx.locks) ≡ true)
      × (l ≡ new_lock a c fresh owner (sorted_set is) whole size automatic (tx.lock_sequence + 1))
      × (tx'.locks ≡ put tx.locks fresh l)
      × (tx'.lock_sequence ≡ tx.lock_sequence + 1)
unfolding acquire
acquire-ok a c fresh owner is whole size automatic tx h = ground arith

-- From a table whose live locks do not clash, a granted lock leads to such a table.
pub acquire-IsExclusive :
    (a : Authority) (c : Clock) (fresh : ℕ) (owner : LockOwner) (is : List ℕ)
    (whole size automatic : Bool) (tx : Meta) {l : Lock} {tx' : Meta}
    → acquire a c fresh owner is whole size automatic tx ≡ ok (l, tx')
    → IsExclusive a c tx.locks
    → IsExclusive a c tx'.locks
unfolding new_lock
acquire-IsExclusive a c fresh owner is whole size automatic tx {l} h ex =
    let (passed, built, stored, seq) = acquire-ok a c fresh owner is whole size automatic tx h in
    let is' = sorted_set is in
    rw stored (
      put-IsExclusive a c tx.locks fresh l ex λ j y ll gy ly.
        let row : admits a c owner is' whole size y ≡ true = all_of-get _ tx.locks j y passed gy in
        admits-clash a c owner l y (ap (λ (x : Lock). x.file) built)
          (ap (λ (x : Lock). x.session) built) (ap (λ (x : Lock). x.handle) built) (rw built row)
          ly)

-- How one round of `release_operation` changes the table.
pub data Released (t : Table Lock) (identity : ℕ) : Table Lock → Type 0 where
  kept : Released t identity t
  dropped : Released t identity (delete t identity)
  rewritten :
      (lock : Lock) (active : List ℕ)
      → get t identity ≡ some lock
      → Released t identity (put t identity (record lock { active = active }))

release_held-Released :
    (op identity : ℕ) (t : Table Lock) (lock : Lock) (held automatic : Bool)
    → get t identity ≡ some lock
    → Released t identity (release_held op identity t lock held automatic)
unfolding release_held
release_held-Released op identity t lock false _ found = kept
release_held-Released op identity t lock true true found = dropped
release_held-Released op identity t lock true false found = rewritten lock _ found

pub release_lock-Released :
    (op identity : ℕ) (t : Table Lock) → Released t identity (release_lock op identity t)
unfolding release_lock
release_lock-Released op identity t = go (get t identity) refl
  where
    go :
        (o : Option Lock) → get t identity ≡ o → Released t identity (release_found op identity t o)
    go none e = kept
    go (some lock) e =
        release_held-Released op identity t lock (mem_of op lock.active) lock.automatic e

locks-release_handle :
    (op : ℕ) (h : Option ℕ) (tx : Meta) → (release_handle op h tx).locks ≡ tx.locks
unfolding release_handle
locks-release_handle op none tx = refl
locks-release_handle op (some h) tx = ground arith

rows-release_handle :
    (op : ℕ) (h : Option ℕ) (tx : Meta)
    → ((release_handle op h tx).snapshots ≡ tx.snapshots)
      × ((release_handle op h tx).nodes ≡ tx.nodes)
      × ((release_handle op h tx).uploads ≡ tx.uploads)
unfolding release_handle
rows-release_handle op none tx = (refl, refl, refl)
rows-release_handle op (some h) tx = (ground arith, ground arith, ground arith)

-- A release leaves the files and the operations as they are.
pub release_operation-rows :
    (op : Upload) (tx : Meta)
    → ((release_operation op tx).snapshots ≡ tx.snapshots)
      × ((release_operation op tx).nodes ≡ tx.nodes)
      × ((release_operation op tx).uploads ≡ tx.uploads)
unfolding release_operation
release_operation-rows op tx = rows-release_handle op.id op.handle _

-- What each such change keeps, the whole release keeps.
pub release_operation-keeps :
    (P : Table Lock → Type 0)
    → ((k : ℕ) (t t' : Table Lock) → Released t k t' → P t → P t')
    → (op : Upload) (tx : Meta) → P tx.locks
    → P (release_operation op tx).locks
unfolding release_operation
release_operation-keeps P step op tx h = rw locks-release_handle (rounds op.locks tx.locks h)
  where
    rounds : (ls : List ℕ) (t : Table Lock) → P t → P (release_locks op.id ls t)
    rounds [] t h = h
    rounds (l ∷ ls) t h =
        rounds ls (release_lock op.id l t) (step l t _ (release_lock-Released op.id l t) h)

Released-IsExclusive :
    (a : Authority) (c : Clock) (k : ℕ) (t t' : Table Lock)
    → Released t k t'
    → IsExclusive a c t
    → IsExclusive a c t'
Released-IsExclusive a c k t _ kept ex = ex
Released-IsExclusive a c k t _ dropped ex = delete-IsExclusive a c t k ex
Released-IsExclusive a c k t _ (rewritten lock active found) ex =
    let lock' : Lock = record lock { active = active } in
    rewrite-IsExclusive a c t k lock lock' found (λ h. h) (λ y. refl) ex

-- The end of an operation keeps the live locks of the others from clashing.
pub release_operation-IsExclusive :
    (a : Authority) (c : Clock) (op : Upload) (tx : Meta)
    → IsExclusive a c tx.locks
    → IsExclusive a c (release_operation op tx).locks
release_operation-IsExclusive a c op tx ex =
    release_operation-keeps (IsExclusive a c) (Released-IsExclusive a c) op tx ex

live-later :
    (a : Authority) (c c' : Clock) (l : Lock)
    → c.clock ≤ c'.clock
    → lock_live a c' l ≡ true
    → lock_live a c l ≡ true
unfolding live
live-later a c c' l h lv = ground arith

-- Time only ends leases.
pub later-IsExclusive :
    (a : Authority) (c c' : Clock) (t : Table Lock)
    → c.clock ≤ c'.clock
    → IsExclusive a c t
    → IsExclusive a c' t
later-IsExclusive a c c' t h ex i j x y gx gy lx ly =
    ex i j x y gx gy (live-later a c c' x h lx) (live-later a c c' y h ly)
