-- ===== src/Control/Handles/Ranges.antt =====
-- src/dfsha/control/access.py, `Lock`: the blocks of a byte range.
use native.Mathlib.Nat.{le-div_iff_mul-le, div-lt_iff_lt-mul}
use dfsha.Prelude.{
  ℕ, zero, suc, ◌+◌, ◌-◌, ◌*◌, ◌/◌, ◌≤◌, ◌<◌, ◌≡◌, ◌↔◌, refl, sym, ◌∙◌, true, ◌&&◌, arith, ltb, leb,
  mem_of, length,
}
use dfsha.Control.Leases.{max_delta}
use dfsha.Control.Handles.{range_from, lock_indices}

mem_of-range_from :
    (i first n : ℕ) → mem_of i (range_from first n) ≡ (leb first i && ltb i (first + n))
unfolding range_from
mem_of-range_from i first zero = ground arith
mem_of-range_from i first (suc n) = ground (arith, mem_of-range_from i (first + 1) n)

length-range_from : (first n : ℕ) → length (range_from first n) ≡ n
unfolding range_from
length-range_from first zero = refl
length-range_from first (suc n) = omega (arith, length-range_from (first + 1) n)

-- The lock on a range names a block just where the block has a byte of the range.
pub lock_indices-covers :
    (size offset upper i : ℕ)
    → 0 < size
    → offset < upper
    → (mem_of i (lock_indices size offset upper) ≡ true)
      ↔ ((i * size < upper) × (offset < (i + 1) * size))
unfolding lock_indices
lock_indices-covers size offset upper i pos some_bytes =
    let first = offset / size in
    let last = (upper - 1) / size in
    let inside = mem_of-range_from i first (last + 1 - first) in
    let above : (first < i + 1) ↔ (offset < (i + 1) * size) = div-lt_iff_lt-mul pos in
    let below : (i ≤ last) ↔ (i * size ≤ upper - 1) = le-div_iff_mul-le pos in
    (
      λ h.
          let tested : (leb first i && ltb i (first + (last + 1 - first))) ≡ true =
            sym inside ∙ h in
          let starts : i * size ≤ upper - 1 = below.0 (ground (arith, tested)) in
          (omega (arith, starts, some_bytes), above.0 (ground (arith, tested))),
      λ (starts, ends).
          let low : first < i + 1 = above.1 ends in
          let high : i ≤ last = below.1 (omega (arith, starts)) in
          inside ∙ ground (arith, low, high),
    )

-- The lock on a range of at most 16 MiB names at most five blocks of 4 MiB or more.
pub lock_indices-at_most_five :
    (size offset n : ℕ)
    → 4 * 1024 * 1024 ≤ size
    → 0 < n
    → n ≤ max_delta
    → length (lock_indices size offset (offset + n)) ≤ 5
unfolding lock_indices
lock_indices-at_most_five size offset n large some_bytes small =
    let first = offset / size in
    let last = (offset + n - 1) / size in
    let counted = length-range_from first (last + 1 - first) in
    let pos : 0 < size = omega (arith, large) in
    let below : (last < first + 5) ↔ (offset + n - 1 < (first + 5) * size) =
      div-lt_iff_lt-mul pos in
    let above : (first < first + 1) ↔ (offset < (first + 1) * size) = div-lt_iff_lt-mul pos in
    let split : (first + 5) * size ≡ (first + 1) * size + 4 * size = omega arith in
    let low : offset < (first + 1) * size = above.0 (omega arith) in
    let high : last < first + 5 = below.1 (omega (arith, low, split, large, small)) in
    omega (arith, counted, high)
