-- ===== src/Control/Uploads/Manifest.antt =====
-- The arithmetic of blocks and manifests in src/dfsha/control/commands.py and monolith.py.
use native.Mathlib.Nat.{div-add-mod, mod-lt, le-div_iff_mul-le}
use dfsha.Prelude.{
  ℕ, zero, suc, ◌+◌, ◌-◌, ◌*◌, ◌/◌, ◌<◌, ◌≤◌, ◌≡◌, true, some, List, [], ◌∷◌, arith, min, length,
  get_elem?, sum_by,
}
use dfsha.Common.Domain.{ok}
use dfsha.Control.State.{Upload, BlockRef}
use dfsha.Control.Uploads.{block_count, block_size_at, manifest, is_numbered}

is_numbered-get_elem? :
    (i k : ℕ) (bs : List BlockRef) (b : BlockRef)
    → is_numbered i bs ≡ true
    → get_elem? bs k ≡ some b
    → b.block_index ≡ i + k
unfolding is_numbered
is_numbered-get_elem? i k [] b h g = cc
is_numbered-get_elem? i zero (x ∷ bs) b h g = ground arith
is_numbered-get_elem? i (suc k) (x ∷ bs) b h g =
    ground (arith, is_numbered-get_elem? (i + 1) k bs b)

-- An accepted manifest has exactly the blocks of the file: as many as its size asks for, with sizes
-- that add up to it, and each under its own position.
manifest-ok :
    (op : Upload) (bs : List BlockRef)
    → manifest op ≡ ok bs
    → (length bs ≡ block_count op)
      × (sum_by (λ b. b.size_bytes) bs ≡ op.total)
      × ((k : ℕ) (b : BlockRef) → get_elem? bs k ≡ some b → b.block_index ≡ k)
unfolding manifest
manifest-ok op bs h =
    (ground arith, ground arith, λ k b g. ground (arith, is_numbered-get_elem? 0 k bs b))

-- The sizes of the blocks 0, …, n - 1.
abbrev pub sizes_below : Upload → ℕ → ℕ
sizes_below op zero = 0
sizes_below op (suc n) = block_size_at op n + sizes_below op n

sizes_below-eq : (op : Upload) (n : ℕ) → sizes_below op n ≡ min (n * op.block_size) op.total
unfolding block_size_at
sizes_below-eq op zero = grind arith
sizes_below-eq op (suc n) = grind (arith, sizes_below-eq op n)

count_covers : (t b : ℕ) → 0 < b → t ≤ (t + b - 1) / b * b
count_covers t b h = omega (arith, div-add-mod (t + b - 1) b, mod-lt (t + b - 1) h)

count_tight : (t b i : ℕ) → 0 < b → i < (t + b - 1) / b → i * b < t
count_tight t b i pos h = omega (arith, (le-div_iff_mul-le pos).0 h)

times_mono : (a c b : ℕ) → a ≤ c → a * b ≤ c * b
times_mono a c b h = grind arith

-- With a positive block size, the blocks of an upload tile its file: every index below the count
-- has a positive size, no larger than a block, the sizes add up to the whole, and from the count
-- on there is nothing to send.
pub block_sizes_tile :
    (op : Upload)
    → 0 < op.block_size
    → (sizes_below op (block_count op) ≡ op.total)
      × ((i : ℕ)
          → i < block_count op
          → (0 < block_size_at op i) × (block_size_at op i ≤ op.block_size))
      × ((i : ℕ) → block_count op ≤ i → block_size_at op i ≡ 0)
unfolding block_count block_size_at
block_sizes_tile op h =
    let t = op.total in
    let b = op.block_size in
    let n = (t + b - 1) / b in
    (
      omega (arith, sizes_below-eq op n, count_covers t b h),
      λ i below. omega (arith, count_tight t b i h below),
      λ i above. omega (arith, count_covers t b h, times_mono n i b above),
    )
