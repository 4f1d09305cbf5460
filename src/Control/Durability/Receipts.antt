-- ===== src/Control/Durability/Receipts.antt =====
-- src/dfsha/control/distributed.py, `ReportDurable`: what a new receipt has shown, and what it leaves.
use dfsha.Prelude.{
  ◌≡◌, ◌≤◌, ◌<◌, refl, subst, ap, Bool, true, false, Option, none, some, arith, and-true, ==_iff,
}
use dfsha.Common.Domain.{
  Result, ok, ◌>>=◌, ◌>>◌, need, need_then, >>=-eq-ok, ok-injective, version_conflict,
  checksum_mismatch,
}
use dfsha.Control.Table.{get, get-put_self}
use dfsha.Control.State.{
  Meta, User, Upload, Session, Receipt, BlockRef, block_ref_eq, DataNode, Assignment, Location,
  System,
}
use dfsha.Control.Leases.{Authority, Clock}
use dfsha.Control.Handles.{found, found-ok}
use dfsha.Control.Placement.{location_of}
use dfsha.Control.Transfers.{held_operation}
use dfsha.Control.Copies.{confirm_location}
use dfsha.Control.Durability.{
  DurableReport, is_assigned, is_whole, store_receipt, session_of, first_report,
}

store_receipt-rows :
    (tx : Meta) (r : Receipt) (node : DataNode)
    → (get (store_receipt tx r node).blocks r.block.block_version_id ≡ some r.block)
      × (get (store_receipt tx r node).receipts r.block.block_version_id ≡ some r)
      × (l : Location) × (location_of (store_receipt tx r node) r.block.block_version_id r.node_id
          ≡ some l)
      × (l.receipt ≡ r)
unfolding store_receipt confirm_location location_of
store_receipt-rows tx r node = (
  get-put_self tx.blocks _ r.block,
  get-put_self tx.receipts _ r,
  _,
  get-put_self tx.locations _ _,
  refl,
)

allocated-parts :
    (r : Receipt) (found : Option BlockRef)
    → elim found [ none ↦ false | some b ↦ block_ref_eq b r.block ] ≡ true
    → (b : BlockRef) × (found ≡ some b) × (block_ref_eq b r.block ≡ true)
allocated-parts r none h = cc
allocated-parts r (some b) h = (b, refl, h)

is_assigned-parts :
    (r : Receipt) (node : DataNode) (op : Upload) (x : Assignment)
    → is_assigned r node op x ≡ true
    → (x.generation ≡ r.boot_generation)
      × (b : BlockRef) × (get op.allocations r.block.block_index ≡ some b)
      × (block_ref_eq b r.block ≡ true)
unfolding is_assigned
is_assigned-parts r node op x h =
    let (here, rest) = and-true _ _ h in
    let (boot, rest') = and-true _ _ rest in
    let (mine, found) = and-true _ _ rest' in
    let (b, allocated, same) = allocated-parts r _ found in
    ((==_iff x.generation r.boot_generation).0 boot, b, allocated, same)

module _ (sys : System) (a : Authority) (c : Clock) where
  -- A receipt that is stored as new is of a block that its upload, which goes on, has allocated
  -- under its index and that is assigned to the node, for this upload, in the boot of the receipt; the stored bytes are more than the plain ones and at most what was
  -- reserved. Then the block, its receipt and its location are there.
  pub first_report-ok :
      (tx tx' : Meta) (req : DurableReport) (node : DataNode) (user : User) (fresh : Bool)
      → first_report sys a c tx req node user ≡ ok (fresh, tx')
      → (session : Session) × (op : Upload) × (x : Assignment) × (held_operation sys a c tx user
            session req.operation req.fence
          ≡ ok op)
        × (get tx.assignments req.receipt.block.block_version_id ≡ some x)
        × (x.node ≡ node.id)
        × (x.operation ≡ op.id)
        × (x.generation ≡ req.receipt.boot_generation)
        × (b : BlockRef) × (get op.allocations req.receipt.block.block_index ≡ some b)
        × (block_ref_eq b req.receipt.block ≡ true)
        × (req.receipt.block.size_bytes < req.receipt.stored_size_bytes)
        × (req.receipt.stored_size_bytes ≤ x.reserved)
        × (get tx'.blocks req.receipt.block.block_version_id ≡ some req.receipt.block)
        × (get tx'.receipts req.receipt.block.block_version_id ≡ some req.receipt)
        × (l : Location) × (location_of tx' req.receipt.block.block_version_id req.receipt.node_id
            ≡ some l)
        × (l.receipt ≡ req.receipt)
  unfolding first_report is_assigned is_whole
  first_report-ok tx tx' req node user fresh e =
      let r = req.receipt in
      let final : Result (Bool × Meta) = ok (true, store_receipt tx r node) in
      let whole : Assignment → Result (Bool × Meta) =
        λ x. need (is_whole r node x) checksum_mismatch >> final in
      let right : Upload → Assignment → Result (Bool × Meta) =
        λ op x. need (is_assigned r node op x) version_conflict >> whole x in
      let placed = found version_conflict (get tx.assignments r.block.block_version_id) in
      let held : Session → Result Upload =
        λ s. held_operation sys a c tx user s req.operation req.fence in
      let rest : Session → Result (Bool × Meta) = λ s. held s >>= λ op. placed >>= right op in
      let (s, opened, e1) = >>=-eq-ok (session_of sys a c tx r.operation_id) rest e in
      let (op, got, e2) = >>=-eq-ok (held s) (λ op. placed >>= right op) e1 in
      let (x, at, e3) = >>=-eq-ok placed (right op) e2 in
      let (mine, e4) = need_then (is_assigned r node op x) version_conflict (whole x) e3 in
      let (fits, e5) = need_then (is_whole r node x) checksum_mismatch final e4 in
      let (generation, b, allocated, same_block) = is_assigned-parts r node op x mine in
      let stored : store_receipt tx r node ≡ tx' =
        ap (λ (p : Bool × Meta). p.1) (ok-injective e5) in
      let (block, receipt, l, there, same) = store_receipt-rows tx r node in
      (
        s,
        op,
        x,
        got,
        found-ok _ version_conflict at,
        ground (arith, mine),
        ground (arith, mine),
        generation,
        b,
        allocated,
        same_block,
        ground (arith, fits),
        ground (arith, fits),
        subst (λ t. get t.blocks r.block.block_version_id ≡ some r.block) stored block,
        subst (λ t. get t.receipts r.block.block_version_id ≡ some r) stored receipt,
        l,
        subst (λ t. location_of t r.block.block_version_id r.node_id ≡ some l) stored there,
        same,
      )
