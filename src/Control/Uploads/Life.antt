-- ===== src/Control/Uploads/Life.antt =====
-- The life of an upload in src/dfsha/control/commands.py: what a commit publishes, and that a
-- settled operation accepts nothing more.
use dfsha.Prelude.{
  ℕ, ◌<◌, ◌≡◌, ◌≢◌, ◌⊎◌, inl, inr, refl, sym, true, false, Option, none, some, List, arith, is_some,
  all_of,
}
use dfsha.Common.Domain.{Result, Reason, ok, fault, >>=-eq-ok, version_conflict}
use dfsha.Control.Table.{Table, get, put, get-put, get-put_self}
use dfsha.Control.State.{
  Meta, User, Session, Upload, Node, System, Digest, BlockRef, Snapshot, SnapshotRef, OperationRef,
  operation_ref_eq, PageReceipt, is_preparing, committed, file,
}
use dfsha.Control.Auth.{new_node}
use dfsha.Control.Leases.{Fence}
use dfsha.Control.Namespace.{bump}
use dfsha.Control.Uploads.{
  operation, renew_upload, abort_upload, manifest, BlockRequest, ManifestPage, Seal,
}
use dfsha.Control.Uploads.Publish.{
  allocate_blocks, stage_manifest_page, seal_manifest, commit_upload, committable, publish,
  target_node, published_ref,
}

-- The node that a commit publishes to: the stored one of the file when the upload has a base, and
-- otherwise a new file under the upload's name and parent.
pub IsTarget : Meta → User → Upload → Node → Type 0
IsTarget tx user op node =
    ((op.base ≢ none) × (get tx.nodes op.file ≡ some node))
    ⊎ ((op.base ≡ none)
        × (node ≡ record (new_node op.file op.name (some op.parent) user.id file 0o600) {
          block_size = op.block_size;
        }))

base_node-IsTarget :
    (tx : Meta) (user : User) (op : Upload) (dir node : Node)
    → target_node tx user op dir ≡ ok node
    → (base : Option ℕ) → op.base ≡ base
    → IsTarget tx user op node
unfolding target_node IsTarget
base_node-IsTarget tx user op dir node e none is = inr (is, ground arith)
base_node-IsTarget tx user op dir node e (some b) is = inl (ground arith, ground arith)

target_node-IsTarget :
    (tx : Meta) (user : User) (op : Upload) (dir node : Node)
    → target_node tx user op dir ≡ ok node
    → IsTarget tx user op node
target_node-IsTarget tx user op dir node e = base_node-IsTarget tx user op dir node e op.base refl

module _ (sys : System) where
  -- The operation that a handler gets is the stored one, of this user and session, under way and
  -- not expired.
  pub operation_sound :
      (tx : Meta) (now : ℕ) (user : User) (session : Session) (r : OperationRef) (f : Option Fence)
      (op : Upload)
      → operation sys tx now user session r f ≡ ok op
      → (get tx.uploads r.operation_id ≡ some op)
        × (op.user ≡ user.id)
        × (op.session ≡ session.id)
        × (is_preparing op.state ≡ true)
        × (now < op.expires)
  unfolding operation
  operation_sound tx now user session r f op h = ground arith

  operation_settled :
      (tx : Meta) (now : ℕ) (user : User) (session : Session) (r : OperationRef) (f : Option Fence)
      (op : Upload)
      → get tx.uploads r.operation_id ≡ some op
      → is_preparing op.state ≡ false
      → (reason : Reason) × (operation sys tx now user session r f ≡ fault reason)
  operation_settled tx now user session r f op found settled =
      go (operation sys tx now user session r f) refl
    where
      go :
          (x : Result Upload)
          → operation sys tx now user session r f ≡ x
          → (reason : Reason) × (x ≡ fault reason)
      go (fault reason) e = (reason, refl)
      go (ok op') e = absurd (ground (arith, operation_sound tx now user session r f op' e))

  operation_named :
      (tx : Meta) (now : ℕ) (user : User) (session : Session) (r : OperationRef) (f : Option Fence)
      (op : Upload)
      → operation sys tx now user session r f ≡ ok op
      → operation_ref_eq r op.operation ≡ true
  unfolding operation
  operation_named tx now user session r f op h = ground arith

  abort_committed :
      (tx : Meta) (user : User) (session : Session) (r : OperationRef) (op : Upload)
      → get tx.uploads r.operation_id ≡ some op
      → op.user ≡ user.id
      → op.session ≡ session.id
      → operation_ref_eq r op.operation ≡ true
      → op.state ≡ committed
      → abort_upload tx user session r ≡ fault version_conflict
  unfolding abort_upload
  abort_committed tx user session r op found mine here named done = ground arith

  module _ (manifest_hash : List BlockRef → Digest) where
    -- An operation that is not preparing, since it was committed, aborted or expired, cannot be
    -- continued: renewing is refused, and allocating, staging, sealing and committing are all
    -- refused for one reason. Aborting is not part of this.
    pub settled_refuses :
        (tx : Meta) (now fresh : ℕ) (user : User) (session : Session) (r : OperationRef) (f : Fence)
        (op : Upload) (news : ℕ → ℕ) (requests : List BlockRequest) (page : ManifestPage)
        (verified : Table Digest) (seal : Seal) (receipt : PageReceipt)
        → get tx.uploads r.operation_id ≡ some op
        → is_preparing op.state ≡ false
        → (a b : Reason) × (renew_upload sys tx now user session r ≡ fault a)
          × (allocate_blocks sys manifest_hash tx now news user session r f requests ≡ fault b)
          × (stage_manifest_page sys manifest_hash tx now user session r f page ≡ fault b)
          × (seal_manifest sys manifest_hash tx now user session r f verified seal ≡ fault b)
          × (commit_upload sys manifest_hash tx now fresh user session r f receipt ≡ fault b)
    unfolding renew_upload allocate_blocks stage_manifest_page seal_manifest commit_upload
        committable
    settled_refuses tx now fresh user session r f op news requests page verified seal receipt found
          settled =
        let (a, ea) = operation_settled tx now user session r none op found settled in
        let (b, eb) = operation_settled tx now user session r (some f) op found settled in
        (a, b, rw ea, rw eb, rw eb, rw eb, rw eb)

    committable-ok :
        (tx : Meta) (now : ℕ) (user : User) (session : Session) (r : OperationRef) (f : Fence)
        (seal : PageReceipt) (op : Upload) (blocks : List BlockRef) (dir node : Node)
        → committable sys manifest_hash tx now user session r f seal ≡ ok (op, blocks, dir, node)
        → (operation sys tx now user session r (some f) ≡ ok op)
          × (manifest op ≡ ok blocks)
          × (op.sealed ≢ none)
          × (all_of (λ b. is_some (get tx.blocks b.block_version_id)) blocks ≡ true)
          × (get tx.nodes op.parent ≡ some dir)
          × (target_node tx user op dir ≡ ok node)
    unfolding committable
    committable-ok tx now user session r f seal op blocks dir node h = ground arith

    -- the effects of a commit of known parts
    publish_lem :
        (tx tx' : Meta) (fresh : ℕ) (seal : PageReceipt) (ref : SnapshotRef) (op : Upload)
        (blocks : List BlockRef) (dir node : Node)
        → ◌≡◌ {A = Result (SnapshotRef × Meta)}
            (ok (
              published_ref sys manifest_hash fresh op seal,
              publish sys manifest_hash tx fresh op seal blocks dir node,
            ))
            (ok (ref, tx'))
        → (ref ≡ published_ref sys manifest_hash fresh op seal)
          × (get tx'.snapshots fresh
              ≡ some (record { id = fresh; file = op.file; ref = ref; blocks = blocks }))
          × ((k : ℕ) → k ≢ fresh → get tx'.snapshots k ≡ get tx.snapshots k)
          × (node.id ≢ dir.id
              → get tx'.nodes node.id ≡ some (bump (record node { snapshot = some fresh })))
          × ((k : ℕ) → k ≢ node.id → k ≢ dir.id → get tx'.nodes k ≡ get tx.nodes k)
          × (get tx'.uploads op.id
              ≡ some (record op { state = committed; result = some ref; reserved = 0 }))
    unfolding publish
    publish_lem tx tx' fresh seal ref op blocks dir node h =
        let e : published_ref sys manifest_hash fresh op seal ≡ ref = ground arith in
        let node' : Node = bump (record node { snapshot = some fresh }) in
        let snap : Snapshot = record { id = fresh; file = op.file; ref = ref; blocks = blocks } in
        let op' : Upload = record op { state = committed; result = some ref; reserved = 0 } in
        let snaps : tx'.snapshots ≡ put tx.snapshots fresh snap = ground arith in
        let nodes : tx'.nodes ≡ put (put tx.nodes node.id node') dir.id (bump dir) = ground arith in
        let ops : tx'.uploads ≡ put tx.uploads op.id op' = ground arith in
        (
          sym e,
          rw snaps (get-put_self tx.snapshots fresh snap),
          λ k ne. rw snaps (ground (arith, get-put tx.snapshots fresh k snap)),
          λ ne. rw nodes (
              ground (
                arith,
                get-put (put tx.nodes node.id node') dir.id node.id (bump dir),
                get-put_self tx.nodes node.id node',
              )),
          λ k ne ne'. rw nodes (
              ground (
                arith,
                get-put (put tx.nodes node.id node') dir.id k (bump dir),
                get-put tx.nodes node.id k node',
              )),
          rw ops (get-put_self tx.uploads op.id op'),
        )

    pub commit_upload-ok :
        (tx tx' : Meta) (now fresh : ℕ) (user : User) (session : Session) (r : OperationRef)
        (f : Fence) (seal : PageReceipt) (ref : SnapshotRef)
        → commit_upload sys manifest_hash tx now fresh user session r f seal ≡ ok (ref, tx')
        → (op : Upload) × (blocks : List BlockRef) × (node dir : Node) × (operation sys tx now user
              session r
              (some f)
            ≡ ok op)
          × (manifest op ≡ ok blocks)
          × (op.sealed ≢ none)
          × (all_of (λ b. is_some (get tx.blocks b.block_version_id)) blocks ≡ true)
          × (get tx.nodes op.parent ≡ some dir)
          × IsTarget tx user op node
          × (ref ≡ published_ref sys manifest_hash fresh op seal)
          × (get tx'.snapshots fresh
              ≡ some (record { id = fresh; file = op.file; ref = ref; blocks = blocks }))
          × ((k : ℕ) → k ≢ fresh → get tx'.snapshots k ≡ get tx.snapshots k)
          × (node.id ≢ dir.id
              → get tx'.nodes node.id ≡ some (bump (record node { snapshot = some fresh })))
          × ((k : ℕ) → k ≢ node.id → k ≢ dir.id → get tx'.nodes k ≡ get tx.nodes k)
          × (get tx'.uploads op.id
              ≡ some (record op { state = committed; result = some ref; reserved = 0 }))
    unfolding commit_upload
    commit_upload-ok tx tx' now fresh user session r f seal ref h =
        let (found, passed, rest) =
          >>=-eq-ok (committable sys manifest_hash tx now user session r f seal) _ h in
        let (op, blocks, dir, node) = found in
        let (held, listed, sealed, durable, above, target) =
          committable-ok tx now user session r f seal op blocks dir node passed in
        let (e, snap, others, moved, rows, stored) =
          publish_lem tx tx' fresh seal ref op blocks dir node rest in
        (
          op,
          blocks,
          node,
          dir,
          held,
          listed,
          sealed,
          durable,
          above,
          target_node-IsTarget tx user op dir node target,
          e,
          snap,
          others,
          moved,
          rows,
          stored,
        )

    -- What was committed stays committed: where every upload stands under its own id, afterwards
    -- the same operation can be neither aborted nor committed again.
    pub commit_upload_final :
        (tx tx' : Meta) (now later fresh again : ℕ) (user : User) (session : Session)
        (r : OperationRef) (f : Fence) (seal : PageReceipt) (ref : SnapshotRef)
        → ((k : ℕ) (o : Upload) → get tx.uploads k ≡ some o → o.id ≡ k)
        → commit_upload sys manifest_hash tx now fresh user session r f seal ≡ ok (ref, tx')
        → (reason : Reason) × (abort_upload tx' user session r ≡ fault version_conflict)
          × (commit_upload sys manifest_hash tx' later again user session r f seal ≡ fault reason)
    unfolding commit_upload committable
    commit_upload_final tx tx' now later fresh again user session r f seal ref keyed h =
        let (
          op, blocks, node, dir, held, listed, sealed, durable, above, target, e, snaps, others,
          nodes, rows, stored,
        ) =
          commit_upload-ok tx tx' now fresh user session r f seal ref h in
        let (found, mine, here, under_way, in_time) =
          operation_sound tx now user session r (some f) op held in
        let op' : Upload = record op { state = committed; result = some ref; reserved = 0 } in
        let at_id : get tx'.uploads r.operation_id ≡ some op' =
          rw (← keyed r.operation_id op found) stored in
        let (reason, refused) =
          operation_settled tx' later user session r (some f) op' at_id refl in
        (
          reason,
          abort_committed tx' user session r op' at_id mine here
              (operation_named tx now user session r (some f) op held) refl,
          rw (refused, commit_upload, committable) refl,
        )
