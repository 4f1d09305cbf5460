-- ===== src/Control/Patches/Committing.antt =====
-- What `report_patch` of src/dfsha/control/patch_authority.py has stored, `CommitWrite` accepts.
use dfsha.Prelude.{
  ℕ, ◌≡◌, sym, ap, ◌∙◌, subst, Bool, true, false, not, ◌&&◌, Option, none, some, List, [], ◌∷◌,
  arith, ◌==◌, ==_iff, get_elem?, and-true, is_some,
}
use dfsha.Common.Domain.{
  Result, ok, ◌>>=◌, ◌>>◌, need, unauthenticated, version_conflict, checksum_mismatch,
  idempotency_mismatch, >>=-eq-ok, >>-eq-ok, need_then, ok-injective,
}
use dfsha.Control.Table.{get, put, get-put_self}
use dfsha.Control.State.{
  Meta, User, Session, Upload, Write, WrittenPart, BlockRef, Receipt, receipt_eq, DataNode,
  Assignment, Location, System,
}
use dfsha.Control.Leases.{Authority, Clock}
use dfsha.Control.Placement.{Liveness, state_of, is_reachable, location_of, location_id}
use dfsha.Control.Handles.{found, found-ok}
use dfsha.Control.Registry.{Cluster, NodeCall, node_peer, require_node}
use dfsha.Control.Copies.{confirm_location}
use dfsha.Control.Durability.{session_of, store_receipt}
use dfsha.Control.Writes.{same_block, is_planned, is_stored, commit_part, replace_block}
use dfsha.Control.Patches.{
  PatchHeader, receives, is_patched, validate_header, first_patched, settle_patched, report_patch,
}
use dfsha.Control.Patches.Accepting.{both, found_then, commit_part-stored}
use dfsha.Control.Patches.Planned.{IsPlannedPart, validate_header-ok}

module _ (sys : System) (a : Authority) (c : Clock) (limits : Liveness) where
  -- What a new receipt of a patch was tested for, and what it leaves.
  record IsStored (tx : Meta) (user : User) (header : PatchHeader) (r : Receipt) (node : DataNode)
      (tx' : Meta) : Type 0 where
    pub part : WrittenPart
    pub operation : ℕ
    pub planned : IsPlannedPart sys a c limits tx user header operation part
    pub assignment : Assignment
    pub patched : is_patched r operation part.replacement node assignment ≡ true
    pub assigned : get tx.assignments part.replacement.block_version_id ≡ some assignment
    pub received : receives node operation assignment ≡ true
    pub left : store_receipt tx r node ≡ tx'

  first_patched-IsStored :
      (tx : Meta) (r : Receipt) (header : PatchHeader) (node : DataNode) (user : User) (tx' : Meta)
      → first_patched sys a c limits tx r header node user ≡ ok (true, tx')
      → IsStored tx user header r node tx'
  unfolding first_patched
  first_patched-IsStored tx r header node user tx' e =
      let Answer = Upload × Write × WrittenPart × Assignment in
      let done : Result (Bool × Meta) = ok (true, store_receipt tx r node) in
      let tested : Answer → Result (Bool × Meta) =
        λ v. need (is_patched r v.0.id v.2.replacement node v.3) checksum_mismatch >> done in
      let valid = λ (s : Session). validate_header sys a c limits tx user s header node in
      let (session, _, e1) =
        >>=-eq-ok (session_of sys a c tx r.operation_id) (λ s. valid s >>= tested) e in
      let ((op, w, part, x), e2, e3) = >>=-eq-ok (valid session) tested e1 in
      let (patched, e4) =
        need_then (is_patched r op.id part.replacement node x) checksum_mismatch done e3 in
      let (version, assigned, received, planned) =
        validate_header-ok sys a c limits tx user session header node op w part x e2 in
      record {
        part = part;
        operation = op.id;
        planned = planned;
        assignment = x;
        patched = patched;
        assigned = ap (get tx.assignments) version ∙ assigned;
        received = received;
        left = ap (λ (z : Bool × Meta). z.1) (ok-injective e4);
      }

  -- The receipt is of this operation, and of the block that it expects.
  pub IsPatch : Receipt → ℕ → BlockRef → Type 0
  IsPatch r operation expected =
      (r.operation_id ≡ operation)
      × (r.block.file_id ≡ expected.file_id)
      × (r.block.block_index ≡ expected.block_index)
      × (r.block.size_bytes ≡ expected.size_bytes)

  is_patched-planned :
      (r : Receipt) (operation index : ℕ) (expected : BlockRef) (node : DataNode) (x : Assignment)
      → is_patched r operation expected node x ≡ true
      → (r.block.block_version_id ≡ expected.block_version_id)
        × IsPatch r operation expected
        × (is_planned index r.block expected ≡ (expected.block_index == index))
  unfolding is_patched is_planned IsPatch
  is_patched-planned r operation index expected node x h = (
    ground (arith, h),
    (ground (arith, h), ground (arith, h), ground (arith, h), ground (arith, h)),
    ground (arith, h),
  )

  is_stored-receipt :
      (tx : Meta) (r : Receipt) (operation : ℕ) (node : DataNode) (x : Assignment)
      → node.id ≡ r.node_id
      → is_reachable (state_of limits c.now node) ≡ true
      → receives node operation x ≡ true
      → is_stored sys a c limits (store_receipt tx r node) r.block x node ≡ true
  unfolding is_stored store_receipt confirm_location location_of receives
  is_stored-receipt tx r operation node x same reached received =
      let row : Location = record {
        block = r.block.block_version_id;
        node = r.node_id;
        receipt = r;
        inventory = node.inventory_id;
      } in
      let identity = location_id r.block.block_version_id in
      let there : is_some (get (put tx.locations (identity r.node_id) row) (identity node.id))
          ≡ true =
        ap (λ n. is_some (get (put tx.locations (identity r.node_id) row) (identity n))) same
        ∙ ap is_some (get-put_self tx.locations (identity r.node_id) row) in
      both (is_some (get (put tx.locations (identity r.node_id) row) (identity node.id))) _ there (
        both (is_reachable (state_of limits c.now node)) _ reached
          (and-true _ _ (and-true _ _ received).1).1)

  -- A patch that was reported from a reachable node is committed: the commit of its part looks only
  -- whether the file still has the base there.
  accepts_stored :
      (tx tx' : Meta) (user : User) (header : PatchHeader) (r : Receipt) (node : DataNode)
      → get tx.datanodes r.node_id ≡ some node
      → node.id ≡ r.node_id
      → is_reachable (state_of limits c.now node) ≡ true
      → (s : IsStored tx user header r node tx') → (blocks : List BlockRef)
      → commit_part sys a c limits tx' s.part
          (record { base = s.part.base; replacement = r.block; receipts = r ∷ [] })
          blocks
        ≡ (need (same_block (get_elem? blocks s.part.index) s.part.base) version_conflict
            >> (need (s.part.replacement.block_index == s.part.index) version_conflict
                >> replace_block s.part.index r.block blocks))
  unfolding store_receipt confirm_location receives
  accepts_stored tx tx' user header r node at same reached s blocks =
      let (version, of_block, planned) =
        is_patched-planned r s.operation s.part.index s.part.replacement node s.assignment
          s.patched in
      subst
        (λ t.
          commit_part sys a c limits t s.part
            (record { base = s.part.base; replacement = r.block; receipts = r ∷ [] }) blocks
          ≡ (need (same_block (get_elem? blocks s.part.index) s.part.base) version_conflict
              >> (need (s.part.replacement.block_index == s.part.index) version_conflict
                  >> replace_block s.part.index r.block blocks)))
        s.left
        (commit_part-stored sys a c limits (store_receipt tx r node) s.part r blocks s.assignment
          node planned (ap (get tx.assignments) version ∙ s.assigned)
          (ap (get tx.datanodes)
              ((==_iff s.assignment.node node.id).0 (and-true _ _ s.received).0 ∙ same)
            ∙ at)
          (get-put_self _ _ _)
          (is_stored-receipt tx r s.operation node s.assignment same reached s.received)
          (get-put_self _ _ _))

  settle_patched-IsStored :
      (tx : Meta) (r : Receipt) (header : PatchHeader) (node : DataNode) (user : User)
      (previous : Option Receipt) (tx' : Meta)
      → settle_patched sys a c limits tx r header node user previous ≡ ok (true, tx')
      → IsStored tx user header r node tx'
  unfolding settle_patched
  settle_patched-IsStored tx r header node user none tx' e =
      first_patched-IsStored tx r header node user tx' e
  settle_patched-IsStored tx r header node user (some old) tx' e =
      let (_, e1) = need_then (receipt_eq old r) idempotency_mismatch (ok (false, tx)) e in
      let off : false ≡ true = ap (λ (z : Bool × Meta). z.0) (ok-injective e1) in absurd (cc)

  report_patch-IsStored :
      (cluster : Cluster) (tx : Meta) (call : NodeCall) (r : Receipt) (header : PatchHeader)
      (client_user client_epoch : ℕ) (replayed : User → Result (Option Receipt)) (tx' : Meta)
      (node : DataNode)
      → get tx.datanodes r.node_id ≡ some node
      → report_patch sys a c limits cluster tx call r header client_user client_epoch replayed
        ≡ ok (true, tx')
      → (user : User) × (get tx.users client_user ≡ some user) × IsStored tx user header r node tx'
  unfolding report_patch
  report_patch-IsStored cluster tx call r header client_user client_epoch replayed tx' node at e =
      let settled = λ (n : DataNode) (user : User) (previous : Option Receipt).
        settle_patched sys a c limits tx r header n user previous in
      let answered : DataNode → User → Result (Bool × Meta) =
        λ n user. replayed user >>= settled n user in
      let known : DataNode → User → Result (Bool × Meta) = λ n user.
        need (not user.disabled && client_epoch == cluster.epoch) unauthenticated
        >> answered n user in
      let user_row = found unauthenticated (get tx.users client_user) in
      let in_boot : DataNode → Result (Bool × Meta) = λ n.
        need (r.boot_generation == n.location.boot_generation) version_conflict
        >> (user_row >>= known n) in
      let node_row = found version_conflict (get tx.datanodes r.node_id) in
      let allowed = require_node cluster tx r.node_id in
      let (_, e1) =
        >>-eq-ok (node_peer cluster tx call r.node_id) (allowed >> (node_row >>= in_boot)) e in
      let (_, e2) = >>-eq-ok allowed (node_row >>= in_boot) e1 in
      let e3 =
        sym (found_then version_conflict (get tx.datanodes r.node_id) node in_boot at) ∙ e2 in
      let (_, e4) =
        need_then (r.boot_generation == node.location.boot_generation) version_conflict
          (user_row >>= known node) e3 in
      let (user, there, e5) = >>=-eq-ok user_row (known node) e4 in
      let (_, e6) =
        need_then (not user.disabled && client_epoch == cluster.epoch) unauthenticated
          (answered node user) e5 in
      let (previous, _, e7) = >>=-eq-ok (replayed user) (settled node user) e6 in
      (
        user,
        found-ok (get tx.users client_user) unauthenticated there,
        settle_patched-IsStored tx r header node user previous tx' e7,
      )

  -- A patch that is reported as new from a reachable node was planned: its header describes a part of
  -- a stored write that goes on, and has a fence of it, and the receipt is of the block that is to
  -- replace that part's. It is committed: the commit of the part looks only whether the file still
  -- has the base there.
  pub report_patch-commit_part :
      (cluster : Cluster) (tx : Meta) (call : NodeCall) (r : Receipt) (header : PatchHeader)
      (client_user client_epoch : ℕ) (replayed : User → Result (Option Receipt)) (tx' : Meta)
      (node : DataNode)
      → get tx.datanodes r.node_id ≡ some node
      → node.id ≡ r.node_id
      → is_reachable (state_of limits c.now node) ≡ true
      → report_patch sys a c limits cluster tx call r header client_user client_epoch replayed
        ≡ ok (true, tx')
      → (user : User) × (operation : ℕ) × (part : WrittenPart) × (get tx.users client_user
          ≡ some user)
        × IsPlannedPart sys a c limits tx user header operation part
        × (part.replacement.block_version_id ≡ r.block.block_version_id)
        × IsPatch r operation part.replacement
        × ((blocks : List BlockRef)
            → commit_part sys a c limits tx' part
                (record { base = part.base; replacement = r.block; receipts = r ∷ [] })
                blocks
              ≡ (need (same_block (get_elem? blocks part.index) part.base) version_conflict
                  >> (need (part.replacement.block_index == part.index) version_conflict
                      >> replace_block part.index r.block blocks)))
  report_patch-commit_part cluster tx call r header client_user client_epoch replayed tx' node at
        same reached e =
      let (user, known, s) =
        report_patch-IsStored cluster tx call r header client_user client_epoch replayed tx' node at
          e in
      let (version, of_block, _) =
        is_patched-planned r s.operation s.part.index s.part.replacement node s.assignment
          s.patched in
      (
        user,
        s.operation,
        s.part,
        known,
        s.planned,
        sym version,
        of_block,
        accepts_stored tx tx' user header r node at same reached s,
      )
