-- ===== src/Control/Opening/Truncation.antt =====
-- src/dfsha/control/access.py, `Open` and `writable`: an emptied file and the writers it had.
use dfsha.Prelude.{
  ℕ, ◌+◌, ◌≡◌, ◌≢◌, refl, sym, subst, ap, ◌∙◌, true, false, some, List, [], Text, arith, ◌==◌,
  ==_iff, if◌then◌else◌,
}
use dfsha.Common.Domain.{
  Result, ok, ◌>>=◌, ◌>>◌, need, need_then, >>=-eq-ok, >>-eq-ok, ok-injective, not_found,
  permission_denied, version_conflict, is_directory,
}
use dfsha.Control.Table.{get, delete, get-put_self, get-put_away}
use dfsha.Control.State.{
  Meta, User, Node, Handle, Snapshot, BlockRef, Digest, Mode, reads_mode, writes_mode, System,
  Config, Lock, is_file,
}
use dfsha.Control.Auth.{require}
use dfsha.Control.Placement.{row_of}
use dfsha.Control.Leases.{Authority, Clock, LockOwner, acquire}
use dfsha.Control.Handles.{found, found-ok, handle_of, writable, writable_node, is_fresh}
use dfsha.Control.Opening.{Drawn, empty_snapshot, publish_empty, truncate}

some-same {ℓ} : {A : Type ℓ} {x y : A} → some x ≡ some y → x ≡ y
some-same e = cc

module _ (sys : System) (a : Authority) (c : Clock) where
  writable_node-ok :
      (tx : Meta) (user : User) (snap current : Snapshot) (row node : Node)
      → writable_node sys a c tx user snap row ≡ ok (node, current)
      → (row ≡ node)
        × (row_of tx.snapshots row.snapshot ≡ some current)
        × (is_fresh sys a c row snap current ≡ true)
  unfolding writable_node
  writable_node-ok tx user snap current row node e =
      let shown : Result Snapshot = found not_found (row_of tx.snapshots row.snapshot) in
      let test : Snapshot → Result (Node × Snapshot) =
        λ s. need (is_fresh sys a c row snap s) version_conflict >> ok (row, s) in
      let (right, e1) = >>-eq-ok (require sys tx user row 2) (shown >>= test) e in
      let (s, stored, e2) = >>=-eq-ok shown test e1 in
      let (fresh, e3) = need_then (is_fresh sys a c row snap s) version_conflict (ok (row, s)) e2 in
      let both = ok-injective e3 in
      let row_is = ap (λ (p : Node × Snapshot). p.0) both in
      let s_is = ap (λ (p : Node × Snapshot). p.1) both in
      (
        row_is,
        found-ok _ not_found stored ∙ ap some s_is,
        subst (λ x. is_fresh sys a c row snap x ≡ true) s_is fresh,
      )

  -- the last two steps of `writable`
  finish : Meta → User → Handle → Snapshot → Node → Result (Handle × Snapshot × Node × Snapshot)
  finish tx user h snap row = writable_node sys a c tx user snap row >>= λ p. ok (h, snap, p.0, p.1)

  finish-ok :
      (tx : Meta) (user : User) (h h' : Handle) (snap snap' current : Snapshot) (row node : Node)
      → finish tx user h snap row ≡ ok (h', snap', node, current)
      → (h ≡ h') × (snap ≡ snap') × (writable_node sys a c tx user snap row ≡ ok (node, current))
  unfolding finish
  finish-ok tx user h h' snap snap' current row node e =
      let (p, got, e1) =
        >>=-eq-ok (writable_node sys a c tx user snap row)
          (λ (p : Node × Snapshot). ok (h, snap, p.0, p.1)) e in
      let all_is = ok-injective e1 in
      let node_is : p ≡ (node, current) =
        ap (λ (q : Handle × Snapshot × Node × Snapshot). (q.2, q.3)) all_is in
      (
        ap (λ (q : Handle × Snapshot × Node × Snapshot). q.0) all_is,
        ap (λ (q : Handle × Snapshot × Node × Snapshot). q.1) all_is,
        got ∙ ap ok node_is,
      )

  -- What a handle that may write has found.
  writable-ok :
      (tx : Meta) (user : User) (session identity : ℕ) (h : Handle) (snap current : Snapshot)
      (node : Node)
      → writable sys a c tx user session identity ≡ ok (h, snap, node, current)
      → (get tx.nodes h.file ≡ some node)
        × (row_of tx.snapshots node.snapshot ≡ some current)
        × (is_fresh sys a c node snap current ≡ true)
  unfolding writable finish
  writable-ok tx user session identity h snap current node e =
      let row : Handle → Result Node = λ h. found not_found (get tx.nodes h.file) in
      let (x, got, e1) =
        >>=-eq-ok (handle_of sys a c tx user session identity)
          (λ x.
            need (writes_mode x.0.mode) permission_denied >> (row x.0 >>= finish tx user x.0 x.1))
          e in
      let (may, e2) =
        need_then (writes_mode x.0.mode) permission_denied (row x.0 >>= finish tx user x.0 x.1)
          e1 in
      let (n, at, e3) = >>=-eq-ok (row x.0) (finish tx user x.0 x.1) e2 in
      let (h_is, snap_is, last) = finish-ok tx user x.0 h x.1 snap current n node e3 in
      let (n_is, stored, fresh) = writable_node-ok tx user x.1 current n node last in
      let at' : get tx.nodes x.0.file ≡ some n = found-ok (get tx.nodes x.0.file) not_found at in
      (
        subst (λ y. get tx.nodes y.file ≡ some node) h_is (at' ∙ ap some n_is),
        subst (λ y. row_of tx.snapshots y.snapshot ≡ some current) n_is stored,
        subst (λ y. is_fresh sys a c node y current ≡ true) snap_is
            (subst (λ y. is_fresh sys a c y x.1 current ≡ true) n_is fresh),
      )

module _ (manifest_hash : List BlockRef → Digest) (sha_empty : Digest) where
  module _ (nfc : Text → Text) (sys : System) (cfg : Config) (a : Authority) (c : Clock) where
    -- The rows that an emptied file leaves.
    publish_empty-rows :
        (tx : Meta) (root : ℕ) (node dir : Node) (epoch version : ℕ)
        → dir.id ≢ node.id
        → let (emptied, tx') =
            publish_empty nfc manifest_hash sha_empty sys cfg a c tx root node dir epoch version in
          (get tx'.nodes node.id ≡ some emptied)
          × (emptied.snapshot ≡ some root)
          × (get tx'.snapshots root
              ≡ some (
                  empty_snapshot nfc manifest_hash sha_empty sys cfg a c root node.id epoch version
                    node.block_size))
    unfolding publish_empty
    publish_empty-rows tx root node dir epoch version apart =
        let away : (node.id == dir.id) ≡ false = ground (arith, apart) in
        (
          get-put_away _ dir.id node.id _ away ∙ get-put_self tx.nodes node.id _,
          refl,
          get-put_self tx.snapshots root _,
        )

    truncate-ok :
        (tx tx' : Meta) (drawn : Drawn) (user : User) (session : ℕ) (mode : Mode)
        (dir node emptied : Node) (old : Snapshot)
        → row_of tx.snapshots node.snapshot ≡ some old
        → truncate nfc manifest_hash sha_empty sys cfg a c tx drawn user session mode dir node
          ≡ ok (emptied, tx')
        → (mid : Meta) × (publish_empty nfc manifest_hash sha_empty sys cfg a c mid drawn.root node
              dir
              (old.ref.content_epoch + 1)
              (old.ref.file_version + 1)
            ≡ (emptied, tx'))
    unfolding truncate found
    truncate-ok tx tx' drawn user session mode dir node emptied old before e =
        let publish : Snapshot → Meta → Result (Node × Meta) = λ s mid. ok (
          publish_empty nfc manifest_hash sha_empty sys cfg a c mid drawn.root node dir
            (s.ref.content_epoch + 1) (s.ref.file_version + 1)) in
        let owner : LockOwner = record { id = drawn.owner; file = node.id; session = session } in
        let locked = acquire a c drawn.lock owner [] true true true tx in
        let free : Lock × Meta → Meta = λ p. record (p.1) { locks = delete (p.1).locks (p.0).id } in
        let rest : Snapshot → Result (Node × Meta) = λ s. locked >>= λ p. publish s (free p) in
        let right = require sys tx user node (if reads_mode mode then 6 else 2) in
        let (is, e1) =
          need_then (is_file node.kind) is_directory
            (right >> (found not_found (row_of tx.snapshots node.snapshot) >>= rest)) e in
        let (allowed, e2) =
          >>-eq-ok right (found not_found (row_of tx.snapshots node.snapshot) >>= rest) e1 in
        let e3 : rest old ≡ ok (emptied, tx') =
          subst (λ o. (found not_found o >>= rest) ≡ ok (emptied, tx')) before e2 in
        let (p, granted, e4) = >>=-eq-ok locked (λ p. publish old (free p)) e3 in
        (free p, ok-injective e4)

    is_blank :
        (root file_id epoch version block_size : ℕ) (row : Node) (snap current : Snapshot)
        → empty_snapshot nfc manifest_hash sha_empty sys cfg a c root file_id epoch version
            block_size
          ≡ current
        → is_fresh sys a c row snap current ≡ true
        → (snap.ref.content_epoch ≡ epoch) × (current.blocks ≡ []) × (current.ref.size_bytes ≡ 0)
    unfolding empty_snapshot is_fresh
    is_blank root file_id epoch version block_size row snap current is fresh =
        let same : (current.ref.content_epoch == snap.ref.content_epoch) ≡ true =
          ground (arith, fresh) in
        let epoch_is : epoch ≡ current.ref.content_epoch =
          ap (λ (s : Snapshot). s.ref.content_epoch) is in
        (
          sym ((==_iff current.ref.content_epoch snap.ref.content_epoch).0 same) ∙ sym epoch_is,
          sym (ap (λ (s : Snapshot). s.blocks) is),
          sym (ap (λ (s : Snapshot). s.ref.size_bytes) is),
        )

    -- After `Open` has emptied a file for writing, whoever may write to it through a handle has a
    -- snapshot of the new content epoch, one above that of before; the file it would change is the
    -- empty one.
    pub truncate-cuts_off :
        (tx tx' : Meta) (drawn : Drawn) (user writer : User) (session session' identity : ℕ)
        (mode : Mode) (dir node emptied row : Node) (old snap current : Snapshot) (h : Handle)
        → dir.id ≢ node.id
        → row_of tx.snapshots node.snapshot ≡ some old
        → truncate nfc manifest_hash sha_empty sys cfg a c tx drawn user session mode dir node
          ≡ ok (emptied, tx')
        → writable sys a c tx' writer session' identity ≡ ok (h, snap, row, current)
        → h.file ≡ node.id
        → (snap.ref.content_epoch ≡ old.ref.content_epoch + 1)
          × (current.blocks ≡ [])
          × (current.ref.size_bytes ≡ 0)
    unfolding truncate
    truncate-cuts_off tx tx' drawn user writer session session' identity mode dir node emptied row
          old snap current h apart before e may same =
        let (mid, made) =
          truncate-ok tx tx' drawn user session mode dir node emptied old before e in
        let (at, points, stored) =
          publish_empty-rows mid drawn.root node dir (old.ref.content_epoch + 1)
            (old.ref.file_version + 1) apart in
        let rows = subst (λ (p : Node × Meta). get p.1.nodes node.id ≡ some p.0) made at in
        let points' = subst (λ (p : Node × Meta). p.0.snapshot ≡ some drawn.root) made points in
        let blank =
          empty_snapshot nfc manifest_hash sha_empty sys cfg a c drawn.root node.id
            (old.ref.content_epoch + 1) (old.ref.file_version + 1) node.block_size in
        let kept =
          subst (λ (p : Node × Meta). get p.1.snapshots drawn.root ≡ some blank) made stored in
        let (at', seen, fresh) =
          writable-ok sys a c tx' writer session' identity h snap current row may in
        let row_is : emptied ≡ row = some-same (sym rows ∙ ap (get tx'.nodes) (sym same) ∙ at') in
        let seen' : row_of tx'.snapshots (some drawn.root) ≡ some current =
          subst (λ o. row_of tx'.snapshots o ≡ some current)
            (ap (λ (n : Node). n.snapshot) (sym row_is) ∙ points') seen in
        let current_is : blank ≡ current = some-same (sym kept ∙ seen') in
        is_blank drawn.root node.id (old.ref.content_epoch + 1) (old.ref.file_version + 1)
          node.block_size row snap current current_is fresh
