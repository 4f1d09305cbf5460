-- ===== src/Control/Planning/Begun.antt =====
-- What a write has, in src/dfsha/control/access.py, once it was begun.
use dfsha.Prelude.{
  ℕ, ◌≤◌, ◌<◌, ◌≡◌, refl, sym, ap, ◌∙◌, subst, Bool, true, not, ◌||◌, Option, none, some, List, [],
  ◌∷◌, map, arith, ◌==◌, any_of, is_some, mem_of, lt→ltb,
}
use dfsha.Common.Domain.{
  Result, ok, ◌>>=◌, ◌>>◌, need, handle_busy, version_conflict, invalid_argument, permission_denied,
  not_found, >>=-eq-ok, need_then, ok-injective,
}
use dfsha.Control.Table.{get, put, get-put_self}
use dfsha.Control.State.{
  Meta, User, Session, Node, Handle, Snapshot, SnapshotRef, snapshot_ref_eq, Digest, Upload,
  preparing, Write, Fence, Lock, System, Config, writes_mode,
}
use dfsha.Control.Leases.{Authority, Clock, message}
use dfsha.Control.Placement.{Liveness}
use dfsha.Control.Handles.{found, writable, handle_of, is_current, writable_node}
use dfsha.Control.Handles.Reads.{handle_of-current, is_some-none}
use dfsha.Control.Coverage.{hold_locks}
use dfsha.Control.Coverage.Complete.{keeps, IsComplete, hold_locks-IsComplete}
use dfsha.Control.Sources.{PlannedPart, WriteIds, plan_parts}
use dfsha.Control.Planning.{
  BeginWrite, WritePlan, indices_of, new_write, conclude_write, accept_range, plan_under,
  begin_range, begin_write, given_range,
}
use dfsha.Control.Planning.Extends.{written_indices, written_deltas, plan_parts-Extends}

-- A fence that names the block.
abbrev pub fences_block : ℕ → Fence → Bool
fences_block i f = f.whole_file || mem_of i f.block_indices

fences_block-message :
    (a : Authority) (c : Clock) (i : ℕ) (locks : List Lock)
    → any_of (fences_block i) (map (message a c) locks) ≡ any_of (keeps i) locks
unfolding message
fences_block-message a c i [] = refl
fences_block-message a c i (l ∷ ls) = ap (◌||◌ (keeps i l)) (fences_block-message a c i ls)

-- What a write of `handle` that has begun leaves: the handle is busy with an operation that is
-- preparing, which has the parts of the request as they are, each under its block, and fences that name the block of each.
pub record IsBegun (handle : Handle) (ids : WriteIds) (req : BeginWrite) (fences : List Fence)
    (tx' : Meta) : Type 0 where
  pub busy : get tx'.handles handle.id ≡ some (record handle { busy = some ids.operation })
  pub op : Upload
  pub stored : get tx'.uploads ids.operation ≡ some op
  pub state : op.state ≡ preparing
  pub write : Write
  pub written : op.write ≡ some write
  pub planned : written_indices write.parts ≡ indices_of req.parts
  pub asked : written_deltas write.parts ≡ req.parts
  pub answered : write.fences ≡ fences
  pub fenced :
      (i : ℕ) → mem_of i (indices_of req.parts) ≡ true → any_of (fences_block i) write.fences ≡ true

module _ (a : Authority) (c : Clock) where
  conclude_write-handles :
      (tx : Meta) (h : Handle) (op : Upload) (locks : List Lock) (length : ℕ) (base : SnapshotRef)
      → 0 < length
      → (get (conclude_write a c tx h op locks length base).handles h.id
          ≡ some (record h { busy = some op.id }))
        × (get (conclude_write a c tx h op locks length base).uploads op.id ≡ some op)
  unfolding conclude_write
  conclude_write-handles tx h op locks length base pos =
      rw (lt→ltb 0 length pos) (get-put_self _ _ _, get-put_self _ _ _)

some-injective : {x y : ℕ} → some x ≡ some y → x ≡ y
some-injective e = cc

given_range-length :
    (offset length : Option ℕ) (range : ℕ × ℕ)
    → given_range offset length ≡ ok range
    → length ≡ some range.1
unfolding given_range
given_range-length (some offset) (some length) range e = cc
given_range-length none length range e = cc
given_range-length (some offset) none range e = cc

is_current-session :
    (a : Authority) (c : Clock) (user : User) (session : ℕ) (h : Handle)
    → is_current a c user session h ≡ true
    → h.session ≡ session
unfolding is_current
is_current-session a c user session h e = ground arith

writable-current :
    (sys : System) (a : Authority) (c : Clock) (tx : Meta) (user : User) (session identity : ℕ)
    (r : Handle × Snapshot × Node × Snapshot)
    → writable sys a c tx user session identity ≡ ok r
    → (get tx.handles identity ≡ some r.0) × (is_current a c user session r.0 ≡ true)
unfolding writable
writable-current sys a c tx user session identity r e =
    let answer : Handle × Snapshot
        → Node × Snapshot
        → Result (Handle × Snapshot × Node × Snapshot) =
      λ x y. ok (x.0, x.1, y.0, y.1) in
    let fresh =
      λ (x : Handle × Snapshot) (row : Node). writable_node sys a c tx user x.1 row >>= answer x in
    let noded = λ (x : Handle × Snapshot). found not_found (get tx.nodes (x.0).file) >>= fresh x in
    let (x, entered, e1) =
      >>=-eq-ok (handle_of sys a c tx user session identity)
        (λ x. need (writes_mode (x.0).mode) permission_denied >> noded x) e in
    let (_, e2) = need_then (writes_mode (x.0).mode) permission_denied (noded x) e1 in
    let (row, _, e3) = >>=-eq-ok (found not_found (get tx.nodes (x.0).file)) (fresh x) e2 in
    let (y, _, e4) = >>=-eq-ok (writable_node sys a c tx user x.1 row) (answer x) e3 in
    let same : x.0 ≡ r.0 =
      ap (λ (z : Handle × Snapshot × Node × Snapshot). z.0) (ok-injective e4) in
    subst (λ h. (get tx.handles identity ≡ some h) × (is_current a c user session h ≡ true)) same
      (handle_of-current sys a c tx user session identity x.0 x.1 entered)

module _ (sys : System) (cfg : Config) (sha_empty : Digest) (a : Authority) (c : Clock)
    (limits : Liveness) (ids : WriteIds) (user : User) (session : Session) (req : BeginWrite)
    (length : ℕ) (some_bytes : 0 < length) (lasting : 1 ≤ a.lock_seconds) where
  plan_under-IsBegun :
      (tx : Meta) (h : Handle) (snap : Snapshot) (node : Node) (offset : ℕ) (growing : Bool)
      (locks : List Lock) (plan : WritePlan) (tx' : Meta) (its_session : h.session ≡ session.id)
      → IsComplete a c session.id h (indices_of req.parts) its_session lasting growing locks
      → plan_under a c limits tx ids user session h snap node req offset length growing locks
        ≡ ok (plan, tx')
      → IsBegun h ids req plan.fences tx'
  unfolding plan_under new_write
  plan_under-IsBegun tx h snap node offset growing locks plan tx' its_session complete e =
      let op_of : ℕ → Upload =
        λ parent. new_write a c ids user session h node parent req offset length growing locks in
      let planning = λ (parent : ℕ).
        plan_parts a c limits
          (record tx { uploads = put tx.uploads (op_of parent).id (op_of parent) }) ids node.id
          snap.blocks (op_of parent) req.parts in
      let final : ℕ → List PlannedPart × Upload × Meta → Result (WritePlan × Meta) = λ parent r.
        ok (
          record {
            operation = (op_of parent).operation;
            blocks = r.0;
            fences = map (message a c) locks;
            base = req.base;
          },
          conclude_write a c r.2 h r.1 locks length req.base,
        ) in
      let (parent, _, e1) =
        >>=-eq-ok (found not_found node.parent) (λ parent. planning parent >>= final parent) e in
      let ((plans, op, planned), e2, e3) = >>=-eq-ok (planning parent) (final parent) e1 in
      let both = ok-injective e3 in
      let answer = ap (λ (x : WritePlan × Meta). x.0.fences) both in
      let left = ap (λ (x : WritePlan × Meta). x.1) both in
      let w : Write = record {
        handle_revision = h.revision;
        control_epoch = a.epoch;
        offset = offset;
        length = length;
        growing = growing;
        base_size = req.base.size_bytes;
        fences = map (message a c) locks;
        parts = [];
      } in
      let made =
        plan_parts-Extends a c limits ids node.id snap.blocks
          (record tx { uploads = put tx.uploads (op_of parent).id (op_of parent) }) (op_of parent) w
          req.parts plans op planned refl e2 in
      let (busy, stored) =
        conclude_write-handles a c planned h op locks length req.base some_bytes in
      let named : op.id ≡ ids.operation = made.same_id in
      let left' = sym left in
      record {
        busy =
            ap (λ (t : Meta). get t.handles h.id) left'
            ∙ (busy ∙ ap (λ k. some (record h { busy = some k })) named);
        op = op;
        stored =
            ap (λ (t : Meta). get t.uploads ids.operation) left'
            ∙ (ap (get (conclude_write a c planned h op locks length req.base).uploads) (sym named)
                ∙ stored);
        state = made.same_state;
        write = made.write;
        written = made.written;
        planned = made.indices;
        asked = made.deltas;
        answered = made.fences ∙ answer;
        fenced = λ i m.
            ap (any_of (fences_block i)) made.fences
            ∙ (fences_block-message a c i locks ∙ complete.kept i m);
      }

  begin_range-IsBegun :
      (tx : Meta) (h : Handle) (snap : Snapshot) (node : Node) (current : Snapshot) (offset : ℕ)
      (plan : WritePlan) (tx' : Meta)
      → h.session ≡ session.id
      → begin_range sys cfg sha_empty a c limits tx ids user session h snap node current req offset
          length
        ≡ ok (plan, tx')
      → IsBegun h ids req plan.fences tx'
  unfolding begin_range
  begin_range-IsBegun tx h snap node current offset plan tx' its_session e =
      let (growing, _, e1) =
        >>=-eq-ok (accept_range cfg sha_empty snap current req offset length)
          (λ growing.
            hold_locks a c tx ids.lock session.id h (indices_of req.parts) growing req.fences
            >>= λ r.
                plan_under a c limits r.1 ids user session h snap node req offset length growing
                  r.0)
          e in
      let ((locks, held), got, e2) =
        >>=-eq-ok
          (hold_locks a c tx ids.lock session.id h (indices_of req.parts) growing req.fences)
          (λ r.
            plan_under a c limits r.1 ids user session h snap node req offset length growing r.0)
          e1 in
      plan_under-IsBegun held h snap node offset growing locks plan tx' its_session
        (hold_locks-IsComplete a c session.id h (indices_of req.parts) its_session lasting tx
          ids.lock growing req.fences locks held got)
        e2

  -- A write of some bytes that begins had a handle that was free, and leaves it busy with a
  -- preparing operation, with the parts of the request, whole and in order, each under the index of
  -- its block, and fences that name the block of each.
  pub begin_write-IsBegun :
      (tx : Meta) (plan : WritePlan) (tx' : Meta)
      → req.length ≡ some length
      → begin_write sys cfg sha_empty a c limits tx ids user session req ≡ ok (plan, tx')
      → (h : Handle) × (get tx.handles req.handle_id ≡ some h)
        × (h.busy ≡ none)
        × IsBegun h ids req plan.fences tx'
  unfolding begin_write
  begin_write-IsBegun tx plan tx' sized e =
      let begins : Handle × Snapshot × Node × Snapshot → ℕ × ℕ → Result (WritePlan × Meta) =
        λ r range.
          begin_range sys cfg sha_empty a c limits tx ids user session r.0 r.1 r.2 r.3 req range.0
            range.1 in
      let hashed = λ (r : Handle × Snapshot × Node × Snapshot) (range : ℕ × ℕ).
        need (req.delta_sha256.size == 32) invalid_argument >> begins r range in
      let ranged = λ (r : Handle × Snapshot × Node × Snapshot).
        given_range req.offset req.length >>= hashed r in
      let based = λ (r : Handle × Snapshot × Node × Snapshot).
        need (snapshot_ref_eq req.base (r.1).ref) version_conflict >> ranged r in
      let ((h, snap, node, current), may, e1) =
        >>=-eq-ok (writable sys a c tx user session.id req.handle_id)
          (λ r. need (not (is_some (r.0).busy)) handle_busy >> based r) e in
      let r : Handle × Snapshot × Node × Snapshot = (h, snap, node, current) in
      let (free, e2) = need_then (not (is_some h.busy)) handle_busy (based r) e1 in
      let (_, e3) = need_then (snapshot_ref_eq req.base snap.ref) version_conflict (ranged r) e2 in
      let (range, given, e4) = >>=-eq-ok (given_range req.offset req.length) (hashed r) e3 in
      let (_, e5) = need_then (req.delta_sha256.size == 32) invalid_argument (begins r range) e4 in
      let same : range.1 ≡ length =
        some-injective (sym (given_range-length req.offset req.length range given) ∙ sized) in
      let asked =
        subst
          (λ n.
            begin_range sys cfg sha_empty a c limits tx ids user session h snap node current req
              range.0 n
            ≡ ok (plan, tx'))
          same e5 in
      let (at, current_handle) = writable-current sys a c tx user session.id req.handle_id r may in
      (
        h,
        at,
        is_some-none h.busy free,
        begin_range-IsBegun tx h snap node current range.0 plan tx'
            (is_current-session a c user session.id h current_handle) asked,
      )
