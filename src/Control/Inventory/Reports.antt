-- ===== src/Control/Inventory/Reports.antt =====
-- src/dfsha/control/distributed.py, `BlockReport`: what an inventory does to the confirmed copies.
use dfsha.Prelude.{
  ℕ, ◌+◌, ◌≡◌, inl, inr, refl, sym, subst, ◌∙◌, true, not, ◌&&◌, Option, none, some, List, [], ◌∷◌,
  arith, ◌==◌, if◌then◌else◌, Bool-cases, else_of, ==_iff, Option-cases, leb, length, is_some,
}
use dfsha.Common.Domain.{
  Result, ok, ◌>>=◌, ◌>>◌, need, need_then, >>=-eq-ok, checksum_mismatch, invalid_argument,
}
use dfsha.Control.Table.{Table, get, put, delete, get-put_at, get-put_away, get-delete}
use dfsha.Control.State.{Meta, DataNode, Location, Receipt, BlockRef}
use dfsha.Control.Placement.{location_id, location_of}
use dfsha.Control.Registry.{Cluster, NodeCall, node_peer}
use dfsha.Control.Inventory.{
  Report, retire_copy, report_one, report_receipt, report_receipts, sweep, end_page, reporter,
  block_report,
}

-- Each row of the second table is in the first, but for the inventory that last named it.
unfoldable pub IsKept : Table Location → Table Location → Type 0
IsKept before after =
    (k : ℕ) (l : Location)
    → get after k ≡ some l
    → (w : Location) × (get before k ≡ some w)
      × (l.block ≡ w.block)
      × (l.node ≡ w.node)
      × (l.receipt ≡ w.receipt)

IsKept-refl : (t : Table Location) → IsKept t t
unfolding IsKept
IsKept-refl t k l g = (l, g, refl, refl, refl)

IsKept-trans : (t u v : Table Location) → IsKept t u → IsKept u v → IsKept t v
unfolding IsKept
IsKept-trans t u v first second k l g =
    let (w, at, block, node, receipt) = second k l g in
    let (x, at', block', node', receipt') = first k w at in
    (x, at', block ∙ block', node ∙ node', receipt ∙ receipt')

-- A row that is marked stays.
IsKept-mark :
    (t : Table Location) (k inventory : ℕ) (old : Location)
    → get t k ≡ some old
    → IsKept t (put t k (record old { inventory = inventory }))
unfolding IsKept
IsKept-mark t k inventory old at j l g =
    let marked = record old { inventory = inventory } in
    elim (Bool-cases (j == k)) [
      | inl same ↦
          let here : some marked ≡ some l = sym (get-put_at t k j marked same) ∙ g in
          let is : marked ≡ l = cc in
          (
            old,
            subst (λ i. get t i ≡ some old) (sym ((==_iff j k).0 same)) at,
            rw (sym is) refl,
            rw (sym is) refl,
            rw (sym is) refl,
          )
      | inr other ↦ (l, sym (get-put_away t k j marked other) ∙ g, refl, refl, refl)
    ]

-- The sweep only takes rows away, and takes away the stale ones it meets.
sweep-keeps :
    (node_id report_id : ℕ) (rows t : Table Location) (k : ℕ) (l : Location)
    → get (sweep node_id report_id rows t) k ≡ some l
    → get t k ≡ some l
unfolding sweep
sweep-keeps node_id report_id [] t k l g = g
sweep-keeps node_id report_id ((j, w) ∷ rows) t k l g =
    let stale = w.node == node_id && not (w.inventory == report_id) in
    let later = sweep-keeps node_id report_id rows (if stale then delete t j else t) k l g in
    ground (arith, later, get-delete t j k)

sweep-absent :
    (node_id report_id : ℕ) (rows t : Table Location) (k : ℕ)
    → get t k ≡ none
    → get (sweep node_id report_id rows t) k ≡ none
sweep-absent node_id report_id rows t k h =
    elim (Option-cases (get (sweep node_id report_id rows t) k)) [
      | inl gone ↦ gone
      | inr (l, g) ↦
          let there = sweep-keeps node_id report_id rows t k l g in
          let both : none ≡ some l = sym h ∙ there in absurd (cc)
    ]

sweep-takes :
    (node_id report_id : ℕ) (rows t : Table Location) (k : ℕ) (w : Location)
    → get rows k ≡ some w
    → (w.node == node_id && not (w.inventory == report_id)) ≡ true
    → get (sweep node_id report_id rows t) k ≡ none
unfolding sweep get
sweep-takes node_id report_id [] t k w g stale = cc
sweep-takes node_id report_id ((j, v) ∷ rows) t k w g stale = elim (Bool-cases (k == j)) [
  | inl same ↦
      let is : v ≡ w = ground (arith, g, same) in
      let gone : get (delete t j) k ≡ none = ground (arith, get-delete t j k, same) in
      let out : (v.node == node_id && not (v.inventory == report_id)) ≡ true = rw is stale in
      sweep-absent node_id report_id rows _ k (rw out gone)
  | inr other ↦ sweep-takes node_id report_id rows _ k w (else_of (k == j) _ _ other g) stale
]

module _ (fresh : ℕ → ℕ → ℕ) (now node_id report_id : ℕ) where
  pub retire_copy-locations :
      (tx : Meta) (block : BlockRef)
      → (retire_copy fresh now tx block node_id).locations ≡ tx.locations
  unfolding retire_copy
  retire_copy-locations tx block =
      elim (Bool-cases
        (is_some (get tx.retirements (location_id block.block_version_id node_id)))) [
          | inl known ↦ rw known refl
          | inr new ↦ rw new refl
        ]

  report_one-IsKept :
      (receipt : Receipt) (tx tx' : Meta) (found : Option Location)
      → location_of tx receipt.block.block_version_id node_id ≡ found
      → report_one fresh now node_id report_id receipt tx found ≡ ok tx'
      → IsKept tx.locations tx'.locations
  unfolding report_one location_of
  report_one-IsKept receipt tx tx' none at e =
      let is : retire_copy fresh now tx receipt.block node_id ≡ tx' = cc in
      subst (λ t. IsKept tx.locations t.locations) is
        (subst (IsKept tx.locations) (sym (retire_copy-locations tx receipt.block))
          (IsKept-refl tx.locations))
  report_one-IsKept receipt tx tx' (some old) at e =
      let (same, rest) = need_then _ checksum_mismatch _ e in
      let k = location_id receipt.block.block_version_id node_id in
      let marked : Meta = record tx {
        locations = put tx.locations k (record old { inventory = report_id });
      } in
      let written : Result Meta = ok marked in
      let out : written ≡ ok tx' = rest in
      let is : marked ≡ tx' = cc in
      subst (λ t. IsKept tx.locations t.locations) is (IsKept-mark tx.locations k report_id old at)

  report_receipts-IsKept :
      (receipts : List Receipt) (tx tx' : Meta)
      → report_receipts fresh now node_id report_id receipts tx ≡ ok tx'
      → IsKept tx.locations tx'.locations
  unfolding report_receipts report_receipt
  report_receipts-IsKept [] tx tx' e =
      let is : tx ≡ tx' = cc in
      subst (λ t. IsKept tx.locations t.locations) is (IsKept-refl tx.locations)
  report_receipts-IsKept (r ∷ rs) tx tx' e =
      let (mid, first, rest) =
        >>=-eq-ok (report_receipt fresh now node_id report_id r tx)
          (report_receipts fresh now node_id report_id rs) e in
      let (valid, one) = need_then _ invalid_argument _ first in
      IsKept-trans tx.locations mid.locations tx'.locations (report_one-IsKept r tx mid _ refl one)
        (report_receipts-IsKept rs mid tx' rest)

IsKept-sweep : (node_id report_id : ℕ) (t : Table Location) → IsKept t (sweep node_id report_id t t)
unfolding IsKept
IsKept-sweep node_id report_id t k l g =
    (l, sweep-keeps node_id report_id t t k l g, refl, refl, refl)

end_page-IsKept :
    (now : ℕ) (req : Report) (node : DataNode) (tx : Meta)
    → IsKept tx.locations (end_page now req node tx).locations
unfolding end_page
end_page-IsKept now req node tx = elim (Bool-cases req.last_page) [
  | inl last ↦ rw last (IsKept-sweep req.node_id req.report_id tx.locations)
  | inr more ↦ rw more (IsKept-refl tx.locations)
]

-- After the last page the rows of the node are those that the inventory named.
end_page-last :
    (now : ℕ) (req : Report) (node : DataNode) (tx : Meta) (k : ℕ) (l : Location)
    → req.last_page ≡ true
    → get (end_page now req node tx).locations k ≡ some l
    → l.node ≡ req.node_id
    → l.inventory ≡ req.report_id
unfolding end_page
end_page-last now req node tx k l last g mine =
    let clean = sweep req.node_id req.report_id tx.locations tx.locations in
    let swept : get clean k ≡ some l =
      subst (λ b. get (if b then clean else tx.locations) k ≡ some l) last g in
    let there = sweep-keeps req.node_id req.report_id tx.locations tx.locations k l swept in
    elim (Bool-cases (l.inventory == req.report_id)) [
      | inl named ↦ (==_iff l.inventory req.report_id).0 named
      | inr other ↦
          let stale : (l.node == req.node_id && not (l.inventory == req.report_id)) ≡ true =
            ground (arith, mine, other) in
          let gone =
            sweep-takes req.node_id req.report_id tx.locations tx.locations k l there stale in
          let both : none ≡ some l = sym gone ∙ swept in absurd (cc)
    ]

pub block_report-steps :
    (fresh : ℕ → ℕ → ℕ) (cluster : Cluster) (tx tx' : Meta) (call : NodeCall) (now : ℕ)
    (req : Report) (revision : ℕ)
    → block_report fresh cluster tx call now req ≡ ok (revision, tx')
    → (node : DataNode) × (mid : Meta) × (report_receipts fresh now req.node_id req.report_id
          req.receipts tx
        ≡ ok mid)
      × (end_page now req node mid ≡ tx')
unfolding block_report
block_report-steps fresh cluster tx tx' call now req revision e =
    let marks = report_receipts fresh now req.node_id req.report_id req.receipts tx in
    let final : DataNode → Meta → Result (ℕ × Meta) =
      λ node mid. ok (req.page_index + 1, end_page now req node mid) in
    let marked_by : DataNode → Result (ℕ × Meta) = λ node. marks >>= final node in
    let small = leb (length req.receipts) 64 && leb req.byte_size 65536 in
    let report = reporter req (get tx.datanodes req.node_id) in
    let (passed, peer, e1) =
      >>=-eq-ok (node_peer cluster tx call req.node_id)
        (λ peer. need small invalid_argument >> (report >>= marked_by)) e in
    let (fits, e2) = need_then small invalid_argument (report >>= marked_by) e1 in
    let (node, row, e3) = >>=-eq-ok report marked_by e2 in
    let (mid, marked, e4) = >>=-eq-ok marks (final node) e3 in
    let out : final node mid ≡ ok (revision, tx') = e4 in
    let is : end_page now req node mid ≡ tx' = cc in (node, mid, marked, is)

-- A report that succeeds confirms no copy: every location afterwards is one of before, with the
-- same block, node and receipt. After the last page those of the node are the ones that pages of
-- this inventory named.
pub block_report-confirms_nothing :
    (fresh : ℕ → ℕ → ℕ) (cluster : Cluster) (tx tx' : Meta) (call : NodeCall) (now : ℕ)
    (req : Report) (revision : ℕ)
    → block_report fresh cluster tx call now req ≡ ok (revision, tx')
    → IsKept tx.locations tx'.locations
      × ((k : ℕ) (l : Location)
          → req.last_page ≡ true
          → get tx'.locations k ≡ some l
          → l.node ≡ req.node_id
          → l.inventory ≡ req.report_id)
block_report-confirms_nothing fresh cluster tx tx' call now req revision e =
    let (node, mid, marked, is) = block_report-steps fresh cluster tx tx' call now req revision e in
    let kept =
      report_receipts-IsKept fresh now req.node_id req.report_id req.receipts tx mid marked in
    (
      subst (λ t. IsKept tx.locations t.locations) is
          (IsKept-trans tx.locations mid.locations _ kept (end_page-IsKept now req node mid)),
      λ k l last g mine.
          end_page-last now req node mid k l last
            (subst (λ t. get t.locations k ≡ some l) (sym is) g) mine,
    )
