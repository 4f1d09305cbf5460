-- ===== src/Control/Patches/Accepting.antt =====
-- How `CommitWrite` of src/dfsha/control/access.py takes a part whose replacement is stored.
use dfsha.Prelude.{
  ◌≡◌, refl, ap, ◌∙◌, Bool, true, false, ◌&&◌, Option, none, some, List, [], ◌∷◌, arith, ◌==◌,
  list_eq_refl, get_elem?,
}
use dfsha.Common.Domain.{
  Reason, Result, ◌>>=◌, ◌>>◌, need, version_conflict, checksum_mismatch, not_found,
  data_unavailable, need_passes,
}
use dfsha.Control.Table.{get}
use dfsha.Control.State.{
  Meta, WrittenPart, BlockRef, block_ref_eq, Receipt, receipt_eq, DataNode, Assignment, System,
}
use dfsha.Control.Leases.{Authority, Clock}
use dfsha.Control.Placement.{Liveness}
use dfsha.Control.Handles.{found}
use dfsha.Control.Writes.{same_block, is_planned, is_only, is_stored, commit_part, replace_block}

block_ref_eq_refl : (b : BlockRef) → block_ref_eq b b ≡ true
block_ref_eq_refl b = ground arith

same_block_refl : (o : Option BlockRef) → same_block o o ≡ true
unfolding same_block
same_block_refl none = refl
same_block_refl (some b) = block_ref_eq_refl b

receipt_eq_refl : (r : Receipt) → receipt_eq r r ≡ true
receipt_eq_refl r = ground (arith, list_eq_refl r.failure_domain)

pub both : (p q : Bool) → p ≡ true → q ≡ true → (p && q) ≡ true
both p q h k = ground (arith, h, k)

need_and {ℓ} :
    {Y : Type ℓ} (p q : Bool) (reason : Reason) (rest : Result Y)
    → q ≡ true
    → (need (p && q) reason >> rest) ≡ (need p reason >> rest)
need_and true true reason rest h = refl
need_and false q reason rest h = refl
need_and true false reason rest h = absurd (cc)

pub found_then {ℓ κ} :
    {A : Type ℓ} {B : Type κ} (reason : Reason) (o : Option A) (x : A) (next : A → Result B)
    → o ≡ some x
    → (found reason o >>= next) ≡ next x
unfolding found
found_then reason o x next e = rw e refl

module _ (sys : System) (a : Authority) (c : Clock) (limits : Liveness) where
  -- The outcome of `CommitWrite` on a part whose replacement is stored as planned.
  pub commit_part-stored :
      (tx : Meta) (part : WrittenPart) (r : Receipt) (blocks : List BlockRef) (x : Assignment)
      (dn : DataNode)
      → is_planned part.index r.block part.replacement
        ≡ (part.replacement.block_index == part.index)
      → get tx.assignments r.block.block_version_id ≡ some x
      → get tx.datanodes x.node ≡ some dn
      → get tx.blocks r.block.block_version_id ≡ some r.block
      → is_stored sys a c limits tx r.block x dn ≡ true
      → get tx.receipts r.block.block_version_id ≡ some r
      → commit_part sys a c limits tx part
          (record { base = part.base; replacement = r.block; receipts = r ∷ [] })
          blocks
        ≡ (need (same_block (get_elem? blocks part.index) part.base) version_conflict
            >> (need (part.replacement.block_index == part.index) version_conflict
                >> replace_block part.index r.block blocks))
  unfolding commit_part is_only
  commit_part-stored tx part r blocks x dn planned assigned at stored_ref stored stored_receipt =
      let final : Result (List BlockRef) = replace_block part.index r.block blocks in
      let with_receipt : Receipt → Result (List BlockRef) =
        λ kept. need (receipt_eq r kept) checksum_mismatch >> final in
      let receipts = found checksum_mismatch (get tx.receipts r.block.block_version_id) in
      let with_ref : Assignment → DataNode → BlockRef → Result (List BlockRef) = λ y n ref.
        need (block_ref_eq ref r.block && is_stored sys a c limits tx r.block y n) data_unavailable
        >> (receipts >>= with_receipt) in
      let refs = found data_unavailable (get tx.blocks r.block.block_version_id) in
      let with_node : Assignment → DataNode → Result (List BlockRef) =
        λ y n. refs >>= with_ref y n in
      let with_assigned : Assignment → Result (List BlockRef) =
        λ y. found not_found (get tx.datanodes y.node) >>= with_node y in
      let assignments = found not_found (get tx.assignments r.block.block_version_id) in
      let body =
        found_then not_found (get tx.assignments r.block.block_version_id) x with_assigned assigned
        ∙ (found_then not_found (get tx.datanodes x.node) dn (with_node x) at
            ∙ (found_then data_unavailable (get tx.blocks r.block.block_version_id) r.block
                  (with_ref x dn) stored_ref
                ∙ (need_passes
                      (block_ref_eq r.block r.block && is_stored sys a c limits tx r.block x dn)
                      data_unavailable (receipts >>= with_receipt)
                      (both (block_ref_eq r.block r.block) _ (block_ref_eq_refl r.block) stored)
                    ∙ (found_then checksum_mismatch (get tx.receipts r.block.block_version_id) r
                          with_receipt stored_receipt
                        ∙ need_passes (receipt_eq r r) checksum_mismatch final
                            (receipt_eq_refl r))))) in
      let same = same_block (get_elem? blocks part.index) part.base in
      let later = assignments >>= with_assigned in
      need_and same (same_block part.base part.base) version_conflict
        (need (is_planned part.index r.block part.replacement) version_conflict >> later)
        (same_block_refl part.base)
      ∙ ap (λ k. need same version_conflict >> k)
          (ap (λ b. need b version_conflict >> later) planned
            ∙ ap (λ k. need (part.replacement.block_index == part.index) version_conflict >> k)
                body)
