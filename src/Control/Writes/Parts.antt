-- ===== src/Control/Writes/Parts.antt =====
-- src/dfsha/client/access.py, `begin_write`, against `BeginWrite` of src/dfsha/control/access.py: how a
-- payload is cut at the borders of the blocks.
use native.Mathlib.Nat.{mod-lt, mul-le-mul_right, mod-add-mod, mod_self}
use dfsha.Prelude.{
  ℕ, zero, suc, ◌+◌, ◌-◌, ◌*◌, ◌/◌, ◌%◌, ◌≤◌, ◌<◌, ◌≡◌, inl, inr, refl, sym, ap, subst, leb→le,
  le→leb, ◌∙◌, true, false, ◌||◌, List, [], ◌∷◌, arith, ltb, leb, min, length, take, drop,
  Bool-cases, ==_refl,
}
use dfsha.Common.Domain.{ok, need_passes, invalid_argument}
use dfsha.Control.State.{WritePart, Digest, digest_eq}
use dfsha.Control.Leases.{max_delta}
use dfsha.Control.Writes.{split_parts, is_next, check_parts, accept_parts}

module _ (sha256 : List ℕ → Digest) (long : (bytes : List ℕ) → (sha256 bytes).size ≡ 32) (size : ℕ)
    (pos : 0 < size) where
  -- the part that the loop cuts at `cursor`
  cut : ℕ → List ℕ → ℕ → ℕ
  cut offset payload cursor = min (length payload - cursor) (size - (offset + cursor) % size)

  part_at : ℕ → List ℕ → ℕ → WritePart
  part_at offset payload cursor = record {
    block_index = (offset + cursor) / size;
    block_offset = (offset + cursor) % size;
    delta_offset = cursor;
    length = cut offset payload cursor;
    delta_sha256 = sha256 (take (cut offset payload cursor) (drop cursor payload));
  }

  split-done :
      (fuel offset : ℕ) (payload : List ℕ) (cursor : ℕ)
      → ltb cursor (length payload) ≡ false
      → split_parts sha256 fuel size offset payload cursor ≡ []
  unfolding split_parts
  split-done zero offset payload cursor h = refl
  split-done (suc fuel) offset payload cursor h = rw h refl

  split-more :
      (fuel offset : ℕ) (payload : List ℕ) (cursor : ℕ)
      → ltb cursor (length payload) ≡ true
      → split_parts sha256 (suc fuel) size offset payload cursor
        ≡ part_at offset payload cursor
          ∷ split_parts sha256 fuel size offset payload (cursor + cut offset payload cursor)
  unfolding split_parts part_at cut
  split-more fuel offset payload cursor h = rw h refl

  cut-bounds :
      (offset : ℕ) (payload : List ℕ) (cursor : ℕ)
      → cursor < length payload
      → (0 < cut offset payload cursor) × (cursor + cut offset payload cursor ≤ length payload)
  unfolding cut
  cut-bounds offset payload cursor more =
      let within : (offset + cursor) % size < size = mod-lt (offset + cursor) pos in
      (omega (arith, within, more), omega (arith, more))

  part_at-next :
      (offset : ℕ) (payload : List ℕ) (cursor : ℕ)
      → cursor < length payload
      → is_next size offset (length payload) cursor (part_at offset payload cursor) ≡ true
  unfolding is_next part_at cut
  part_at-next offset payload cursor more =
      let (some_bytes, inside) = cut-bounds offset payload cursor more in
      let whole = long (take (cut offset payload cursor) (drop cursor payload)) in
      let positive : ltb 0 (cut offset payload cursor) ≡ true = ground (arith, some_bytes) in
      rw
        (
          positive,
          ==_refl ((offset + cursor) / size),
          ==_refl ((offset + cursor) % size),
          ==_refl cursor,
          ==_refl (cut offset payload cursor),
          whole,
        )
        refl

  check-split :
      (fuel offset : ℕ) (payload : List ℕ) (cursor : ℕ)
      → cursor ≤ length payload
      → length payload - cursor ≤ fuel
      → check_parts size offset
          (length payload)
          cursor
          (split_parts sha256 fuel size offset payload cursor)
        ≡ ok (length payload)
  unfolding check_parts part_at cut
  check-split zero offset payload cursor inside enough =
      let same : cursor ≡ length payload = omega (arith, inside, enough) in
      rw (split-done zero offset payload cursor (ground (arith, same))) (ap ok same)
  check-split (suc fuel) offset payload cursor inside enough =
      elim (Bool-cases (ltb cursor (length payload))) [
        | inl more ↦
            let less : cursor < length payload = ground (arith, more) in
            let (some_bytes, fits) = cut-bounds offset payload cursor less in
            let rest =
              check-split fuel offset payload (cursor + cut offset payload cursor) fits
                (omega (arith, some_bytes, enough)) in
            rw (split-more fuel offset payload cursor more)
              (need_passes _ invalid_argument _ (part_at-next offset payload cursor less) ∙ rest)
        | inr done ↦
            let same : cursor ≡ length payload = ground (arith, done, inside) in
            rw (split-done (suc fuel) offset payload cursor done) (ap ok same)
      ]

  -- A cut up to the border of a block ends at the border.
  cut-border : (absolute : ℕ) → (absolute + (size - absolute % size)) % size ≡ 0
  cut-border absolute =
      let within : absolute % size < size = mod-lt absolute pos in
      let whole : absolute % size + (size - absolute % size) ≡ size = omega (arith, within) in
      sym (mod-add-mod absolute size (size - absolute % size))
      ∙ ap (λ n. n % size) whole
      ∙ mod_self size

  -- A part that ends at the border of its block, and one that ends the payload.
  border-bound :
      (k offset : ℕ) (payload : List ℕ) (cursor : ℕ)
      → size - (offset + cursor) % size ≤ length payload - cursor
      → k * size
        < length payload
          - (cursor + cut offset payload cursor)
          + (offset + (cursor + cut offset payload cursor)) % size
          + size
      → suc k * size < length payload - cursor + (offset + cursor) % size + size
  unfolding cut
  border-bound k offset payload cursor far bound =
      let r = (offset + cursor) % size in
      let within : r < size = mod-lt (offset + cursor) pos in
      let taken : min (length payload - cursor) (size - r) ≡ size - r = omega (arith, far) in
      let to : offset + (cursor + (size - r)) ≡ (offset + cursor) + (size - r) = omega arith in
      let border : (offset + (cursor + (size - r))) % size ≡ 0 =
        ap (λ n. n % size) to ∙ cut-border (offset + cursor) in
      let bound' : k * size
          < length payload
            - (cursor + (size - r))
            + (offset + (cursor + (size - r))) % size
            + size =
        subst
          (λ n. k * size < length payload - (cursor + n) + (offset + (cursor + n)) % size + size)
          taken bound in
      let more : suc k * size ≡ k * size + size = omega arith in
      omega (arith, bound', border, within, far, more)

  last-bound :
      (fuel offset : ℕ) (payload : List ℕ) (cursor : ℕ)
      → ltb cursor (length payload) ≡ true
      → leb (size - (offset + cursor) % size) (length payload - cursor) ≡ false
      → suc (
            length
              (split_parts sha256 fuel size offset payload (cursor + cut offset payload cursor)))
          * size
        < length payload - cursor + (offset + cursor) % size + size
  unfolding cut
  last-bound fuel offset payload cursor more near =
      let r = (offset + cursor) % size in
      let less : cursor < length payload = ground (arith, more) in
      let close : length payload - cursor < size - r = ground (arith, near) in
      let taken : cursor + min (length payload - cursor) (size - r) ≡ length payload =
        omega (arith, less, close) in
      rw (taken, split-done fuel offset payload (length payload) (ground arith))
        (omega (arith, less))

  split-bound :
      (fuel offset : ℕ) (payload : List ℕ) (cursor : ℕ)
      → length (split_parts sha256 fuel size offset payload cursor) * size
        < length payload - cursor + (offset + cursor) % size + size
  unfolding split_parts
  split-bound zero offset payload cursor = omega (arith, pos)
  split-bound (suc fuel) offset payload cursor = elim (Bool-cases (ltb cursor (length payload))) [
    | inl more ↦
        let next = cursor + cut offset payload cursor in
        let later = split_parts sha256 fuel size offset payload next in
        let rest = split-bound fuel offset payload next in
        rw (split-more fuel offset payload cursor more)
          (elim (Bool-cases (leb (size - (offset + cursor) % size) (length payload - cursor))) [
            | inl far ↦ border-bound (length later) offset payload cursor (leb→le _ _ far) rest
            | inr near ↦ last-bound fuel offset payload cursor more near
          ])
    | inr done ↦ rw (split-done (suc fuel) offset payload cursor done) (omega (arith, pos))
  ]

  split-count :
      (offset : ℕ) (payload : List ℕ)
      → 4 * 1024 * 1024 ≤ size
      → length payload ≤ max_delta
      → length (split_parts sha256 (length payload) size offset payload 0) ≤ 5
  split-count offset payload large small =
      let parts = split_parts sha256 (length payload) size offset payload 0 in
      let bound = split-bound (length payload) offset payload 0 in
      let within : (offset + 0) % size < size = mod-lt (offset + 0) pos in
      elim (Bool-cases (leb (length parts) 5)) [
        | inl few ↦ leb→le _ _ few
        | inr many ↦
            let six : 6 ≤ length parts = ground (arith, many) in
            let product : 6 * size ≤ length parts * size = mul-le-mul_right size six in
            absurd (omega (arith, bound, within, product, large, small))
      ]

  payload-digest :
      (sha_empty : Digest) (payload : List ℕ)
      → digest_eq (sha256 []) sha_empty ≡ true
      → (ltb 0 (length payload) || digest_eq (sha256 payload) sha_empty) ≡ true
  payload-digest sha_empty [] empty = empty
  payload-digest sha_empty (b ∷ bs) empty = ground arith

  -- The client cuts every payload of at most 16 MiB so that the control's tests of the parts pass,
  -- with blocks of 4 MiB or more: at most five parts, each in one block, that follow one another and
  -- together are the payload. A digest has 32 bytes, and that of no bytes is the control's.
  pub accept_parts-split :
      (sha_empty : Digest) (offset : ℕ) (payload : List ℕ)
      → digest_eq (sha256 []) sha_empty ≡ true
      → 4 * 1024 * 1024 ≤ size
      → length payload ≤ max_delta
      → accept_parts sha_empty size offset
          (length payload)
          (sha256 payload)
          (split_parts sha256 (length payload) size offset payload 0)
        ≡ ok tt
  unfolding accept_parts
  accept_parts-split sha_empty offset payload empty large small =
      let few = le→leb _ _ (split-count offset payload large small) in
      let checked = check-split (length payload) offset payload 0 (omega arith) (omega arith) in
      rw (few, checked, ==_refl (length payload), payload-digest sha_empty payload empty) refl
