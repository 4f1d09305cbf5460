-- ===== src/Control/Writes/Commit.antt =====
-- src/dfsha/control/access.py, `CommitWrite`: the blocks of the snapshot that a write publishes.
use dfsha.Prelude.{
  ℕ, zero, suc, ◌≡◌, inl, inr, refl, sym, subst, ap, ◌∙◌, true, false, ◌&&◌, some, List, [], ◌∷◌,
  ◌++◌, arith, ltb, ◌==◌, if◌then◌else◌, any_of, length, get_elem?, set, Bool-cases, or-false,
  and-true, then_of, else_of,
}
use dfsha.Common.Domain.{
  Result, ok, fault, ◌>>=◌, ◌>>◌, need, need_then, >>=-eq-ok, ok-injective, version_conflict,
  data_unavailable, not_found, checksum_mismatch, service_unavailable,
}
use dfsha.Control.Table.{get}
use dfsha.Control.State.{
  Meta, BlockRef, block_ref_eq, WrittenPart, Receipt, System, Assignment, DataNode,
}
use dfsha.Control.Handles.{found, found-ok}
use dfsha.Control.Placement.{Liveness}
use dfsha.Control.Leases.{Authority, Clock}
use dfsha.Control.Writes.{
  BlockChange, replace_block, commit_part, is_stored, is_only, commit_parts, is_planned,
}

module _ {ℓ} {A : Type ℓ} where
  get_elem?-set_other :
      (xs : List A) (i j : ℕ) (v : A) → (i == j) ≡ false → get_elem? (set xs j v) i ≡ get_elem? xs i
  get_elem?-set_other [] i j v h = refl
  get_elem?-set_other (x ∷ xs) zero zero v h = absurd (ground (arith, h))
  get_elem?-set_other (x ∷ xs) zero (suc j) v h = refl
  get_elem?-set_other (x ∷ xs) (suc i) zero v h = refl
  get_elem?-set_other (x ∷ xs) (suc i) (suc j) v h =
      get_elem?-set_other xs i j v (ground (arith, h))

  get_elem?-set_same :
      (xs : List A) (j : ℕ) (v : A) → ltb j (length xs) ≡ true → get_elem? (set xs j v) j ≡ some v
  get_elem?-set_same [] j v h = absurd (ground (arith, h))
  get_elem?-set_same (x ∷ xs) zero v h = refl
  get_elem?-set_same (x ∷ xs) (suc j) v h = get_elem?-set_same xs j v (ground (arith, h))

  get_elem?-snoc_last : (xs : List A) (v : A) → get_elem? (xs ++ (v ∷ [])) (length xs) ≡ some v
  get_elem?-snoc_last [] v = refl
  get_elem?-snoc_last (x ∷ xs) v = get_elem?-snoc_last xs v

  get_elem?-snoc_other :
      (xs : List A) (i : ℕ) (v : A)
      → (i == length xs) ≡ false
      → get_elem? (xs ++ (v ∷ [])) i ≡ get_elem? xs i
  get_elem?-snoc_other [] zero v h = absurd (ground (arith, h))
  get_elem?-snoc_other [] (suc i) v h = refl
  get_elem?-snoc_other (x ∷ xs) zero v h = refl
  get_elem?-snoc_other (x ∷ xs) (suc i) v h = get_elem?-snoc_other xs i v (ground (arith, h))

-- A replacement that succeeds puts the block at its index, and leaves the others.
replace_block-ok :
    (index : ℕ) (b : BlockRef) (blocks blocks' : List BlockRef)
    → replace_block index b blocks ≡ ok blocks'
    → (get_elem? blocks' index ≡ some b)
      × ((i : ℕ) → (i == index) ≡ false → get_elem? blocks' i ≡ get_elem? blocks i)
unfolding replace_block
replace_block-ok index b blocks blocks' e = elim (Bool-cases (index == length blocks)) [
  | inl last ↦
      let grown = ok-injective (then_of _ (ok (blocks ++ (b ∷ []))) _ last e) in
      let here : index ≡ length blocks = ground (arith, last) in
      (
        subst (λ bs. get_elem? bs index ≡ some b) grown
            (subst (λ i. get_elem? (blocks ++ (b ∷ [])) i ≡ some b) (sym here)
              (get_elem?-snoc_last blocks b)),
        λ i other.
            subst (λ bs. get_elem? bs i ≡ get_elem? blocks i) grown
              (get_elem?-snoc_other blocks i b (subst (λ n. (i == n) ≡ false) here other)),
      )
  | inr inner ↦
      let e1 =
        else_of (index == length blocks) (ok (blocks ++ (b ∷ [])))
          (if ltb index (length blocks) then ok (set blocks index b) else fault service_unavailable)
          inner e in
      elim (Bool-cases (ltb index (length blocks))) [
        | inl low ↦
            let put = ok-injective (then_of _ (ok (set blocks index b)) _ low e1) in
            (
              subst (λ bs. get_elem? bs index ≡ some b) put (get_elem?-set_same blocks index b low),
              λ i other.
                  subst (λ bs. get_elem? bs i ≡ get_elem? blocks i) put
                    (get_elem?-set_other blocks i index b other),
            )
        | inr high ↦
            let none_left =
              else_of _ (ok (set blocks index b)) (fault service_unavailable) high e1 in
            absurd (let out : fault service_unavailable ≡ ok blocks' = none_left in cc)
      ]
]

module _ (sys : System) (a : Authority) (c : Clock) (limits : Liveness) where
  -- What one part has passed when it is in the list.
  commit_part-ok :
      (tx : Meta) (part : WrittenPart) (change : BlockChange) (blocks blocks' : List BlockRef)
      → commit_part sys a c limits tx part change blocks ≡ ok blocks'
      → (is_planned part.index change.replacement part.replacement ≡ true)
        × ((assignment : Assignment) × (dn : DataNode) × (get tx.assignments
                change.replacement.block_version_id
              ≡ some assignment)
            × (get tx.datanodes assignment.node ≡ some dn)
            × (is_stored sys a c limits tx change.replacement assignment dn ≡ true))
        × (replace_block part.index change.replacement blocks ≡ ok blocks')
  unfolding commit_part
  commit_part-ok tx part change blocks blocks' e =
      let r = change.replacement in
      let final = replace_block part.index r blocks in
      let kept : Receipt → Result (List BlockRef) =
        λ stored. need (is_only change.receipts stored) checksum_mismatch >> final in
      let receipt = found checksum_mismatch (get tx.receipts r.block_version_id) in
      let check : Assignment → DataNode → BlockRef → Result (List BlockRef) = λ row dn ref.
        need (block_ref_eq ref r && is_stored sys a c limits tx r row dn) data_unavailable
        >> (receipt >>= kept) in
      let block = found data_unavailable (get tx.blocks r.block_version_id) in
      let node : Assignment → Result DataNode =
        λ row. found not_found (get tx.datanodes row.node) in
      let at : Assignment → DataNode → Result (List BlockRef) = λ row dn. block >>= check row dn in
      let placed = found not_found (get tx.assignments r.block_version_id) in
      let from : Result (List BlockRef) = placed >>= λ row. node row >>= at row in
      let (same, e1) =
        need_then _ version_conflict
          (need (is_planned part.index r part.replacement) version_conflict >> from) e in
      let (planned, e2) =
        need_then (is_planned part.index r part.replacement) version_conflict from e1 in
      let (row, has, e3) = >>=-eq-ok placed (λ row. node row >>= at row) e2 in
      let (dn, there, e4) = >>=-eq-ok (node row) (at row) e3 in
      let (ref, known, e5) = >>=-eq-ok block (check row dn) e4 in
      let (fit, e6) =
        need_then (block_ref_eq ref r && is_stored sys a c limits tx r row dn) data_unavailable
          (receipt >>= kept) e5 in
      let (stored, given, e7) = >>=-eq-ok receipt kept e6 in
      let (only, e8) = need_then (is_only change.receipts stored) checksum_mismatch final e7 in
      (
        planned,
        (row, dn, found-ok _ not_found has, found-ok _ not_found there, (and-true _ _ fit).1),
        e8,
      )

  -- Each part of the write, with the change that the client names for it: the change's block is the
  -- planned one and its copy is confirmed at the node that the part was assigned to, and, if no
  -- later part has its index, it is in the new list there.
  unfoldable pub IsWritten : Meta → List WrittenPart → List BlockChange → List BlockRef → Type 0
  IsWritten tx (p ∷ ps) (ch ∷ chs) blocks' =
      (is_planned p.index ch.replacement p.replacement ≡ true)
      × ((assignment : Assignment) × (dn : DataNode) × (get tx.assignments
              ch.replacement.block_version_id
            ≡ some assignment)
          × (get tx.datanodes assignment.node ≡ some dn)
          × (is_stored sys a c limits tx ch.replacement assignment dn ≡ true))
      × (any_of (λ (q : WrittenPart). p.index == q.index) ps ≡ false
          → get_elem? blocks' p.index ≡ some ch.replacement)
      × IsWritten tx ps chs blocks'
  IsWritten tx _ _ blocks' = Unit

  -- The blocks that `CommitWrite` publishes: an index that no part has keeps its block, and each
  -- part is written.
  pub commit_parts-IsWritten :
      (tx : Meta) (parts : List WrittenPart) (changes : List BlockChange)
      (blocks blocks' : List BlockRef)
      → length changes ≡ length parts
      → commit_parts sys a c limits tx parts changes blocks ≡ ok blocks'
      → IsWritten tx parts changes blocks'
        × ((i : ℕ)
            → any_of (λ (q : WrittenPart). i == q.index) parts ≡ false
            → get_elem? blocks' i ≡ get_elem? blocks i)
  unfolding commit_parts IsWritten
  commit_parts-IsWritten tx [] [] blocks blocks' same e =
      let is = ok-injective e in (tt, λ i outside. ap (λ bs. get_elem? bs i) (sym is))
  commit_parts-IsWritten tx [] (ch ∷ chs) blocks blocks' same e = absurd (omega (arith, same))
  commit_parts-IsWritten tx (p ∷ ps) [] blocks blocks' same e = absurd (omega (arith, same))
  commit_parts-IsWritten tx (p ∷ ps) (ch ∷ chs) blocks blocks' same e =
      let (mid, first, rest) =
        >>=-eq-ok (commit_part sys a c limits tx p ch blocks)
          (commit_parts sys a c limits tx ps chs) e in
      let (planned, stored, put) = commit_part-ok tx p ch blocks mid first in
      let (here, others) = replace_block-ok p.index ch.replacement blocks mid put in
      let (written, kept) =
        commit_parts-IsWritten tx ps chs mid blocks' (omega (arith, same)) rest in
      (
        (planned, stored, (λ last. kept p.index last ∙ here), written),
        λ i outside. let (apart, later) = or-false _ _ outside in kept i later ∙ others i apart,
      )
