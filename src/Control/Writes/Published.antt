-- ===== src/Control/Writes/Published.antt =====
-- src/dfsha/control/access.py, `CommitWrite`: what a write leaves in the store.
use dfsha.Prelude.{
  ℕ, ◌≡◌, sym, ap, ◌∙◌, false, not, ◌&&◌, ◌||◌, some, List, ◌==◌, ==_iff, any_of, get_elem?, length,
}
use dfsha.Common.Domain.{
  Result, ok, ◌>>=◌, ◌>>◌, need, need_then, >>=-eq-ok, ok-injective, version_conflict, lock_expired,
}
use dfsha.Control.Table.{get, get-put_self}
use dfsha.Control.State.{
  Meta, User, Node, Handle, Snapshot, SnapshotRef, BlockRef, Digest, Upload, Write, WrittenPart,
  System, committed,
}
use dfsha.Control.Leases.{Authority, Clock, release_operation}
use dfsha.Control.Leases.Exclusion.{release_operation-rows}
use dfsha.Control.Placement.{Liveness}
use dfsha.Control.Namespace.{bump}
use dfsha.Control.Writes.{
  CommitWrite, same_fences, commit_parts, written_ref, publish_write, commit_write, write_operation,
}
use dfsha.Control.Writes.Commit.{IsWritten, commit_parts-IsWritten}

module _ (sys : System) (a : Authority) (c : Clock) (limits : Liveness)
    (manifest_hash : List BlockRef → Digest) where
  -- What a write of an operation has published: the blocks of the file as the write found them, but
  -- for its parts, as a snapshot that the file's node points to.
  pub record IsPublished (tx tx' : Meta) (root : ℕ) (user : User) (session : ℕ) (req : CommitWrite)
      (ref : SnapshotRef) : Type 0 where
    pub op : Upload
    pub write : Write
    pub handle : Handle
    pub node : Node
    pub current : Snapshot
    pub held :
        write_operation sys a c limits tx user session req.operation
        ≡ ok (op, write, handle, node, current)
    pub blocks : List BlockRef
    pub parts : IsWritten sys a c limits tx write.parts req.changes blocks
    pub others :
        (i : ℕ)
        → any_of (λ (q : WrittenPart). i == q.index) write.parts ≡ false
        → get_elem? blocks i ≡ get_elem? current.blocks i
    pub answer : ref ≡ written_ref sys a c limits manifest_hash root op current.ref node blocks
    pub snapshot :
        get tx'.snapshots root
        ≡ some (record { id = root; file = node.id; ref = ref; blocks = blocks })
    pub pointed : get tx'.nodes node.id ≡ some (bump (record node { snapshot = some root }))
    pub settled :
        get tx'.uploads op.id
        ≡ some (record op { state = committed; result = some ref; reserved = 0 })

  publish_write-rows :
      (tx : Meta) (root : ℕ) (op : Upload) (h : Handle) (node : Node) (ref : SnapshotRef)
      (blocks : List BlockRef)
      → let tx' =
          release_operation op
            (publish_write sys a c limits manifest_hash tx root op h node ref blocks) in
        (get tx'.snapshots root
          ≡ some (record { id = root; file = node.id; ref = ref; blocks = blocks }))
        × (get tx'.nodes node.id ≡ some (bump (record node { snapshot = some root })))
        × (get tx'.uploads op.id
            ≡ some (record op { state = committed; result = some ref; reserved = 0 }))
  unfolding publish_write
  publish_write-rows tx root op h node ref blocks =
      let (snapshots, nodes, uploads) =
        release_operation-rows op
          (publish_write sys a c limits manifest_hash tx root op h node ref blocks) in
      (
        ap (λ t. get t root) snapshots ∙ get-put_self tx.snapshots root _,
        ap (λ t. get t node.id) nodes ∙ get-put_self tx.nodes node.id _,
        ap (λ t. get t op.id) uploads ∙ get-put_self tx.uploads op.id _,
      )

  -- A write that `CommitWrite` answers was under way, and publishes a snapshot with the blocks that
  -- the file had, but for its parts: each has the planned block, whose copy is confirmed at the node
  -- that the part was assigned to. The file's node points to it, and the operation is committed.
  pub commit_write-IsPublished :
      (tx tx' : Meta) (root : ℕ) (user : User) (session : ℕ) (req : CommitWrite) (ref : SnapshotRef)
      → commit_write sys a c limits manifest_hash tx root user session req ≡ ok (ref, tx')
      → IsPublished tx tx' root user session req ref
  unfolding commit_write
  commit_write-IsPublished tx tx' root user session req ref e =
      let Rows = Upload × Write × Handle × Node × Snapshot in
      let Answer = Result (SnapshotRef × Meta) in
      let final : Rows → List BlockRef → Answer = λ r blocks.
        let made = written_ref sys a c limits manifest_hash root r.0 (r.4).ref r.3 blocks in
        ok (
          made,
          release_operation r.0
              (publish_write sys a c limits manifest_hash tx root r.0 r.2 r.3 made blocks),
        ) in
      let sized : Rows → List BlockRef → Answer = λ r blocks.
        need (not (r.1).growing || (r.4).ref.size_bytes == (r.1).base_size) version_conflict
        >> final r blocks in
      let listed : Rows → Result (List BlockRef) =
        λ r. commit_parts sys a c limits tx (r.1).parts req.changes (r.4).blocks in
      let counted : Rows → Answer = λ r.
        need (length req.changes == length (r.1).parts) version_conflict
        >> (listed r >>= sized r) in
      let fenced : Rows → Answer =
        λ r. need (same_fences req.fences (r.1).fences) lock_expired >> counted r in
      let tested : Rows → Answer = λ r.
        need (req.handle_id == (r.2).id && req.expected_handle_revision == (r.2).revision)
          version_conflict
        >> fenced r in
      let (r, held, e1) =
        >>=-eq-ok (write_operation sys a c limits tx user session req.operation) tested e in
      let (_, e2) = need_then _ version_conflict (fenced r) e1 in
      let (_, e3) = need_then _ lock_expired (counted r) e2 in
      let (count, e4) =
        need_then (length req.changes == length (r.1).parts) version_conflict (listed r >>= sized r)
          e3 in
      let (blocks, made, e5) = >>=-eq-ok (listed r) (sized r) e4 in
      let (_, e6) = need_then _ version_conflict (final r blocks) e5 in
      let both = ok-injective e6 in
      let answer = ap (λ (x : SnapshotRef × Meta). x.0) both in
      let left = ap (λ (x : SnapshotRef × Meta). x.1) both in
      let (written, kept) =
        commit_parts-IsWritten sys a c limits tx (r.1).parts req.changes (r.4).blocks blocks
          ((==_iff _ _).0 count) made in
      let its_ref = written_ref sys a c limits manifest_hash root r.0 (r.4).ref r.3 blocks in
      let (snapshot, pointed, settled) = publish_write-rows tx root r.0 r.2 r.3 its_ref blocks in
      record {
        op = r.0;
        write = r.1;
        handle = r.2;
        node = r.3;
        current = r.4;
        held = held;
        blocks = blocks;
        parts = written;
        others = kept;
        answer = sym answer;
        snapshot =
            ap (λ (t : Meta). get t.snapshots root) (sym left)
            ∙ (snapshot
                ∙ ap (λ x. some (record { id = root; file = (r.3).id; ref = x; blocks = blocks }))
                    answer);
        pointed = ap (λ (t : Meta). get t.nodes (r.3).id) (sym left) ∙ pointed;
        settled =
            ap (λ (t : Meta). get t.uploads (r.0).id) (sym left)
            ∙ (settled
                ∙ ap (λ x. some (record (r.0) { state = committed; result = some x; reserved = 0 }))
                    answer);
      }
