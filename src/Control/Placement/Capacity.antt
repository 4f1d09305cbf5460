-- ===== src/Control/Placement/Capacity.antt =====
-- src/dfsha/control/distributed.py, `plan`: a placement and the space of the nodes.
use dfsha.Prelude.{
  ℕ, ◌≡◌, ◌↔◌, refl, Bool, false, not, Option, none, some, List, [], ◌∷◌, arith, any_of, keep_if,
  keep_if-empty, least, lower,
}
use dfsha.Common.Domain.{fault, no_space}
use dfsha.Control.Table.{all, put}
use dfsha.Control.State.{Meta, BlockRef, DataNode, Assignment}
use dfsha.Control.Leases.{Authority, Clock}
use dfsha.Control.Placement.{
  storage_cost, Liveness, reserve, has_room, band_of, is_before, pool_of, choose, assign,
}

choose-none : (last : Option ℕ) (xs : List DataNode) → choose last xs ≡ none → xs ≡ []
unfolding choose
choose-none last [] e = refl
choose-none last (y ∷ ys) e = absurd (cc)

module _ (auth : Authority) (c : Clock) where
  -- The store after `assign`.
  placed : Meta → BlockRef → DataNode → Assignment → Meta
  placed tx block node made = record tx {
    last_placed = some node.id;
    assignments = put tx.assignments block.block_version_id made;
  }

  module _ (limits : Liveness) where
    fits? : Meta → BlockRef → List DataNode
    fits? tx block =
        keep_if (has_room auth c limits tx (storage_cost block.size_bytes)) (all tx.datanodes)

    no_room-kept :
        (p : DataNode → Bool) (xs : List DataNode) → any_of p xs ≡ false → keep_if p xs ≡ []
    no_room-kept p [] h = refl
    no_room-kept p (x ∷ xs) h = ground (arith, no_room-kept p xs)

    kept-none : (p : DataNode → Bool) (xs : List DataNode) → keep_if p xs ≡ [] → any_of p xs ≡ false
    kept-none p [] h = refl
    kept-none p (x ∷ xs) h = ground (arith, kept-none p xs)

    -- Among nodes with room there is always one that none of them is before.
    pool_of-empty :
        (tx : Meta) (candidates : List DataNode)
        → pool_of auth c limits tx candidates ≡ []
        → candidates ≡ []
    unfolding pool_of is_before
    pool_of-empty tx [] e = refl
    pool_of-empty tx (x ∷ xs) e =
        let band = band_of auth c limits tx in
        let first : DataNode → Bool =
          λ z. not (any_of (λ y. lower band (λ (n : DataNode). n.active) y z) (x ∷ xs)) in
        let (m, none_below, inside) = least band (λ (n : DataNode). n.active) x xs in
        let refused = inside (λ z. not (first z)) (keep_if-empty first (x ∷ xs) e) in
        absurd (ground (arith, refused, none_below))

    reserve-fault :
        (tx : Meta) (block : BlockRef) (operation : ℕ) (o : Option DataNode)
        → reserve tx block operation o ≡ fault no_space
        → o ≡ none
    unfolding reserve
    reserve-fault tx block operation none e = refl
    reserve-fault tx block operation (some node) e = absurd (cc)

    -- `assign` reports that there is no space exactly where no node has room for the block.
    pub assign-no_space_iff :
        (tx : Meta) (block : BlockRef) (operation : ℕ)
        → (assign auth c limits tx block operation ≡ fault no_space) ↔ (
            any_of (has_room auth c limits tx (storage_cost block.size_bytes)) (all tx.datanodes)
            ≡ false)
    unfolding assign fits? pool_of reserve choose
    assign-no_space_iff tx block operation =
        let room = has_room auth c limits tx (storage_cost block.size_bytes) in
        (
          λ e. kept-none room (all tx.datanodes) (
              pool_of-empty tx _
                (choose-none tx.last_placed _ (reserve-fault tx block operation _ e))),
          λ h. rw (no_room-kept room (all tx.datanodes) h) refl,
        )
