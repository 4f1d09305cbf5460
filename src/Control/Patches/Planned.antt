-- ===== src/Control/Patches/Planned.antt =====
-- What src/dfsha/control/patch_authority.py tests of a patch: the part of a write that it is.
use dfsha.Prelude.{
  ℕ, ◌≡◌, refl, sym, ap, ◌∙◌, subst, Bool, true, some, ◌==◌, ==_iff, any_of, first_of?,
  first_of?-passes, first_of?-IsIn, IsIn, and-true,
}
use dfsha.Common.Domain.{
  Result, ok, ◌>>=◌, ◌>>◌, need, permission_denied, idempotency_mismatch, lock_expired, >>=-eq-ok,
  need_then, ok-injective,
}
use dfsha.Control.Table.{get}
use dfsha.Control.State.{
  Meta, User, Session, Upload, Write, WrittenPart, Fence, digest_eq, DataNode, Assignment, System,
  Handle, Node, Snapshot,
}
use dfsha.Control.Leases.{Authority, Clock, same_fence}
use dfsha.Control.Placement.{Liveness}
use dfsha.Control.Handles.{found, found-ok}
use dfsha.Control.Writes.{same_block, write_operation}
use dfsha.Control.Patches.{PatchHeader, describes_part, receives, validate_header}

module _ (sys : System) (a : Authority) (c : Clock) (limits : Liveness) where
  -- The part is one of the stored write that the header names, which goes on: the header describes
  -- its base, its place and its bytes, and has a fence of the write.
  pub record IsPlannedPart (tx : Meta) (user : User) (header : PatchHeader) (operation : ℕ)
      (part : WrittenPart) : Type 0 where
    pub session : Session
    pub rows : Upload × Write × Handle × Node × Snapshot
    pub held : write_operation sys a c limits tx user session.id header.operation ≡ ok rows
    pub its_operation : rows.0.id ≡ operation
    pub its_part : IsIn part rows.1.parts
    pub version : part.replacement.block_version_id ≡ header.new_block_version_id
    pub described :
        (same_block header.base part.base ≡ true)
        × (header.block_offset ≡ part.delta.block_offset)
        × (header.delta_length ≡ part.delta.length)
        × (digest_eq header.delta_sha256 part.delta.delta_sha256 ≡ true)
    pub fenced : any_of (λ (f : Fence). same_fence header.fence f) rows.1.fences ≡ true

  describes_part-fields :
      (header : PatchHeader) (part : WrittenPart)
      → describes_part header part ≡ true
      → (same_block header.base part.base ≡ true)
        × (header.block_offset ≡ part.delta.block_offset)
        × (header.delta_length ≡ part.delta.length)
        × (digest_eq header.delta_sha256 part.delta.delta_sha256 ≡ true)
  unfolding describes_part
  describes_part-fields header part h =
      let (base, rest) = and-true _ _ h in
      let (offset, rest') = and-true _ _ rest in
      let (length, digest) = and-true _ _ rest' in
      (base, (==_iff _ _).0 offset, (==_iff _ _).0 length, digest)

  pub validate_header-ok :
      (tx : Meta) (user : User) (session : Session) (header : PatchHeader) (node : DataNode)
      (op : Upload) (w : Write) (part : WrittenPart) (x : Assignment)
      → validate_header sys a c limits tx user session header node ≡ ok (op, w, part, x)
      → (part.replacement.block_version_id ≡ header.new_block_version_id)
        × (get tx.assignments header.new_block_version_id ≡ some x)
        × (receives node op.id x ≡ true)
        × IsPlannedPart tx user header op.id part
  unfolding validate_header
  validate_header-ok tx user session header node op w part x e =
      let is_asked : WrittenPart → Bool =
        λ p. p.replacement.block_version_id == header.new_block_version_id in
      let Answer = Upload × Write × WrittenPart × Assignment in
      let answer : Upload → Write → WrittenPart → Assignment → Result Answer =
        λ op w part x. need (receives node op.id x) permission_denied >> ok (op, w, part, x) in
      let asked = found permission_denied (get tx.assignments header.new_block_version_id) in
      let fenced : Upload → Write → WrittenPart → Result Answer = λ op w part.
        need (any_of (λ (f : Fence). same_fence header.fence f) w.fences) lock_expired
        >> (asked >>= answer op w part) in
      let described : Upload → Write → WrittenPart → Result Answer =
        λ op w part. need (describes_part header part) idempotency_mismatch >> fenced op w part in
      let chosen = λ (r : Upload × Write × Handle × Node × Snapshot).
        found permission_denied (first_of? is_asked r.1.parts) in
      let (r, held, e1) =
        >>=-eq-ok (write_operation sys a c limits tx user session.id header.operation)
          (λ r. chosen r >>= described r.0 r.1) e in
      let (p, e2, e3) = >>=-eq-ok (chosen r) (described r.0 r.1) e1 in
      let (described_it, e4) =
        need_then (describes_part header p) idempotency_mismatch (fenced r.0 r.1 p) e3 in
      let (fenced_it, e5) =
        need_then (any_of (λ (f : Fence). same_fence header.fence f) r.1.fences) lock_expired
          (asked >>= answer r.0 r.1 p) e4 in
      let (y, e6, e7) = >>=-eq-ok asked (answer r.0 r.1 p) e5 in
      let (received, e8) =
        need_then (receives node r.0.id y) permission_denied (ok (r.0, r.1, p, y)) e7 in
      let same = ok-injective e8 in
      let part_is : p ≡ part = ap (λ (z : Answer). z.2) same in
      let row_is : y ≡ x = ap (λ (z : Answer). z.3) same in
      let op_is : r.0 ≡ op = ap (λ (z : Answer). z.0) same in
      let passed =
        first_of?-passes is_asked r.1.parts p
          (found-ok (first_of? is_asked r.1.parts) permission_denied e2) in
      let its_part =
        first_of?-IsIn is_asked r.1.parts p
          (found-ok (first_of? is_asked r.1.parts) permission_denied e2) in
      let planned : IsPlannedPart tx user header r.0.id p = record {
        session = session;
        rows = r;
        held = held;
        its_operation = refl;
        its_part = its_part;
        version = (==_iff _ _).0 passed;
        described = describes_part-fields header p described_it;
        fenced = fenced_it;
      } in
      (
        ap (λ (q : WrittenPart). q.replacement.block_version_id) (sym part_is)
            ∙ (==_iff _ _).0 passed,
        found-ok (get tx.assignments header.new_block_version_id) permission_denied e6
            ∙ ap some row_is,
        ap (λ (o : Upload). receives node o.id x) (sym op_is)
            ∙ (ap (receives node r.0.id) (sym row_is) ∙ received),
        subst (λ (o : Upload). IsPlannedPart tx user header o.id part) op_is
            (subst (IsPlannedPart tx user header r.0.id) part_is planned),
      )
