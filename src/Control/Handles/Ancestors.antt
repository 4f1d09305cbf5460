-- ===== src/Control/Handles/Ancestors.antt =====
-- src/dfsha/control/access.py, `Open`: the loop over the directories above a file.
use dfsha.Prelude.{ℕ, zero, suc, ◌<◌, ◌≡◌, refl, Option, none, some, List, [], ◌∷◌, arith}
use dfsha.Common.Domain.{ok}
use dfsha.Control.Table.{Table, get}
use dfsha.Control.State.{Node}
use dfsha.Control.Handles.{found, ancestors_of}

ancestors_of-step :
    (fuel : ℕ) (nodes : Table Node) (p : ℕ) (row : Node) (above : List ℕ)
    → get nodes p ≡ some row
    → ancestors_of fuel nodes row.parent ≡ ok (some above)
    → ancestors_of (suc fuel) nodes (some p) ≡ ok (some (p ∷ above))
unfolding ancestors_of found
ancestors_of-step fuel nodes p row above at up = rw (at, up) refl

-- In a tree, where a row's parent is a row of less depth, the loop ends within the depth of its
-- start, and every row that it reads is there.
pub ancestors_of-ends :
    (nodes : Table Node) (depth : ℕ → ℕ)
    → ((p q : ℕ) (row : Node)
        → get nodes p ≡ some row
        → row.parent ≡ some q
        → (depth q < depth p) × (up : Node) × (get nodes q ≡ some up))
    → (fuel : ℕ) (start : Option ℕ)
    → ((q : ℕ) → start ≡ some q → (depth q < fuel) × (up : Node) × (get nodes q ≡ some up))
    → (ids : List ℕ) × (ancestors_of fuel nodes start ≡ ok (some ids))
unfolding ancestors_of
ancestors_of-ends nodes depth tree zero none there = ([], refl)
ancestors_of-ends nodes depth tree (suc fuel) none there = ([], refl)
ancestors_of-ends nodes depth tree zero (some p) there =
    let (low, up, at) = there p refl in absurd (omega (arith, low))
ancestors_of-ends nodes depth tree (suc fuel) (some p) there =
    let (low, row, at) = there p refl in
    let (ids, e) = ancestors_of-ends nodes depth tree fuel row.parent (λ q is.
      let (less, up, found) = tree p q row at is in (omega (arith, less, low), up, found)) in
    (p ∷ ids, ancestors_of-step fuel nodes p row ids at e)
