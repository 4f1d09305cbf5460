-- ===== src/Control/Leases/Indices.antt =====
-- The set of indices that src/dfsha/control/leases.py sorts for a lock.
use dfsha.Prelude.{ℕ, ◌≡◌, refl, ◌∙◌, ap, ◌||◌, List, [], ◌∷◌, arith, mem_of, ◌==◌}
use dfsha.Control.Leases.{sorted_set, insert_index}

mem_of-insert_index :
    (i j : ℕ) (js : List ℕ) → mem_of i (insert_index j js) ≡ (i == j || mem_of i js)
unfolding insert_index
mem_of-insert_index i j [] = refl
mem_of-insert_index i j (k ∷ ks) = ground (arith, mem_of-insert_index i j ks)

-- Sorting keeps the members.
pub mem_of-sorted_set : (i : ℕ) (js : List ℕ) → mem_of i (sorted_set js) ≡ mem_of i js
unfolding sorted_set
mem_of-sorted_set i [] = refl
mem_of-sorted_set i (j ∷ js) =
    mem_of-insert_index i j (sorted_set js) ∙ ap (λ b. i == j || b) (mem_of-sorted_set i js)
