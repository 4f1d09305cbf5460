-- ===== src/Control/Inventory/Standing.antt =====
-- src/dfsha/control/distributed.py, `BlockReport`: which copies stay confirmed.
use dfsha.Prelude.{ℕ, ◌≡◌, Bool, true, not, ◌&&◌, some, ◌==◌, all_of}
use dfsha.Control.Table.{Table, get}
use dfsha.Control.State.{Location}

-- The row is under another key, or of another node, or the inventory named it.
abbrev pub stands : ℕ → ℕ → ℕ → ℕ × Location → Bool
stands node_id report_id k row =
    not (row.0 == k && (row.1.node == node_id && not (row.1.inventory == report_id)))

-- The row of the first table is in the second, but for the inventory that last named it.
abbrev pub StaysAt : Table Location → ℕ → Location → Type 0
StaysAt after k l =
    (l' : Location) × (get after k ≡ some l')
    × (l'.block ≡ l.block)
    × (l'.node ≡ l.node)
    × (l'.receipt ≡ l.receipt)

module _ (fresh : ℕ → ℕ → ℕ) (now node_id report_id : ℕ) where
  -- What a page does to the row under a key: it stays, and stands if it stood.
  Keeps : ℕ → Table Location → Table Location → Type 0
  Keeps k t t' =
      ((l : Location) → get t k ≡ some l → StaysAt t' k l)
      × (all_of (stands node_id report_id k) t ≡ true
          → all_of (stands node_id report_id k) t' ≡ true)
