-- ===== src/DataNode/Patch/Chunk.antt =====
-- One chunk of the merge of src/dfsha/datanode/patch.py against the bytes that a patched block has.
use dfsha.Prelude.{
  ℕ, zero, suc, ◌+◌, ◌-◌, ◌≤◌, ◌<◌, ◌≡◌, ◌⊎◌, inl, inr, refl, ap, ◌∙◌, true, false, ◌&&◌, Option,
  ◌++◌, Text, arith, min, max, length, take, drop, ltb, leb, if◌then◌else◌, get_elem?,
  get_elem?-append, get_elem?-take, get_elem?-drop, length-append, length-take, length-drop,
  Bool-cases,
}
use dfsha.Common.Domain.{ok}
use dfsha.DataNode.Patch.{zeros, splice, make_chunk}

-- The byte at a position of the patched block: the delta's where it lies, the base's elsewhere.
abbrev pub patched_byte : ℕ → Text → ℕ → Option ℕ → Option ℕ
patched_byte block_offset delta position base =
    if leb block_offset position && ltb position (block_offset + length delta)
    then get_elem? delta (position - block_offset)
    else base

length-zeros : (n : ℕ) → length (zeros n) ≡ n
unfolding zeros
length-zeros zero = refl
length-zeros (suc n) = ap suc (length-zeros n)

splice_lem :
    (from to : ℕ) (piece bytes : Text) (i : ℕ)
    → from ≤ to
    → to ≤ length bytes
    → length piece ≡ to - from
    → (get_elem? (splice from to piece bytes) i
        ≡ (if leb from i && ltb i to then get_elem? piece (i - from) else get_elem? bytes i))
      × (length (splice from to piece bytes) ≡ length bytes)
unfolding splice
splice_lem from to piece bytes i h k e = (
  grind (
    arith,
    get_elem?-append (take from bytes) (piece ++ drop to bytes) i,
    get_elem?-append piece (drop to bytes) (i - length (take from bytes)),
    get_elem?-take from bytes i,
    get_elem?-drop to bytes (i - length (take from bytes) - length piece),
    length-take from bytes,
  ),
  omega (
    arith,
    length-append (take from bytes) (piece ++ drop to bytes),
    length-append piece (drop to bytes),
    length-take from bytes,
    length-drop to bytes,
  ),
)

padded_lem :
    (at_hand : Text) (wanted i : ℕ)
    → length at_hand ≤ wanted
    → (length (at_hand ++ zeros (wanted - length at_hand)) ≡ wanted)
      × (i < length at_hand
          → get_elem? (at_hand ++ zeros (wanted - length at_hand)) i ≡ get_elem? at_hand i)
padded_lem at_hand wanted i h = (
  omega (
    arith,
    length-append at_hand (zeros (wanted - length at_hand)),
    length-zeros (wanted - length at_hand),
  ),
  λ k. ground (arith, get_elem?-append at_hand (zeros (wanted - length at_hand)) i),
)

-- The slice of the delta that a chunk takes, at a position inside both.
slice_lem :
    (delta : Text) (start count j position : ℕ)
    → j < count
    → start + j ≡ position
    → get_elem? (take count (drop start delta)) j ≡ get_elem? delta position
slice_lem delta start count j position h e = ground (
  arith,
  get_elem?-take count (drop start delta) j,
  get_elem?-drop start delta j,
  ap (get_elem? delta) e,
)

abbrev Covered : ℕ → Text → ℕ → ℕ → Text → Type 0
Covered block_offset delta offset wanted at_hand =
    (wanted ≤ length at_hand)
    ⊎ ((block_offset ≤ offset + length at_hand) × (offset + wanted ≤ block_offset + length delta))

make_chunk-ok :
    (block_offset : ℕ) (delta : Text) (offset wanted : ℕ) (at_hand bytes : Text)
    → make_chunk block_offset delta offset wanted at_hand ≡ ok bytes
    → Covered block_offset delta offset wanted at_hand
      × (bytes ≡ (
          if ltb (max offset block_offset) (min (offset + wanted) (block_offset + length delta))
          then splice
              (max offset block_offset - offset)
              (min (offset + wanted) (block_offset + length delta) - offset)
              (take
                (min (offset + wanted) (block_offset + length delta) - max offset block_offset)
                (drop (max offset block_offset - block_offset) delta))
              (at_hand ++ zeros (wanted - length at_hand))
          else at_hand ++ zeros (wanted - length at_hand)))
unfolding make_chunk
make_chunk-ok block_offset delta offset wanted at_hand bytes e = ground arith

module _ (block_offset : ℕ) (delta : Text) (offset wanted : ℕ) (at_hand : Text) (i low high : ℕ)
    (fits : length at_hand ≤ wanted) (below : i < wanted)
    (cover : Covered block_offset delta offset wanted at_hand)
    (low_is : low ≡ max offset block_offset)
    (high_is : high ≡ min (offset + wanted) (block_offset + length delta)) where
  outside_lem :
      (leb block_offset (offset + i) && ltb (offset + i) (block_offset + length delta)) ≡ false
      → get_elem? (at_hand ++ zeros (wanted - length at_hand)) i ≡ get_elem? at_hand i
  outside_lem out = (padded_lem at_hand wanted i fits).1 (ground (arith, cover, below))

  unspliced_lem :
      ltb low high ≡ false
      → get_elem? (at_hand ++ zeros (wanted - length at_hand)) i
        ≡ patched_byte block_offset delta (offset + i) (get_elem? at_hand i)
  unspliced_lem apart =
      let out : (leb block_offset (offset + i) && ltb (offset + i) (block_offset + length delta))
          ≡ false =
        ground arith in
      rw out (outside_lem out)

  spliced_lem :
      ltb low high ≡ true
      → (bytes : Text)
      → bytes
        ≡ splice
            (low - offset)
            (high - offset)
            (take (high - low) (drop (low - block_offset) delta))
            (at_hand ++ zeros (wanted - length at_hand))
      → (length bytes ≡ wanted)
        × (get_elem? bytes i ≡ patched_byte block_offset delta (offset + i) (get_elem? at_hand i))
  spliced_lem meets bytes e =
      let len = (padded_lem at_hand wanted i fits).0 in
      let piece = take (high - low) (drop (low - block_offset) delta) in
      let lt : low < high = ground arith in
      let long : length piece ≡ high - offset - (low - offset) = omega (
        arith,
        length-take (high - low) (drop (low - block_offset) delta),
        length-drop (low - block_offset) delta,
        low_is,
        high_is,
      ) in
      let (at, size) =
        splice_lem (low - offset) (high - offset) piece (at_hand ++ zeros (wanted - length at_hand))
          i (omega (arith, lt)) (omega (arith, high_is, len)) long in
      let len' : length bytes ≡ wanted = ap length e ∙ size ∙ len in
      let value = ap (λ (b : Text). get_elem? b i) e ∙ at in
      elim (Bool-cases
        (leb block_offset (offset + i) && ltb (offset + i) (block_offset + length delta))) [
          | inl ins ↦
              let t : (leb (low - offset) i && ltb i (high - offset)) ≡ true =
                ground (arith, low_is, high_is, below) in
              let s =
                slice_lem delta (low - block_offset) (high - low) (i - (low - offset))
                  (offset + i - block_offset) (ground (arith, low_is, high_is))
                  (ground (arith, low_is, high_is)) in
              (len', rw ins (value ∙ rw t s))
          | inr out ↦
              let t : (leb (low - offset) i && ltb i (high - offset)) ≡ false =
                ground (arith, low_is, high_is, below) in
              (len', rw out (value ∙ rw t (outside_lem out)))
        ]

-- A chunk has the wanted length and the bytes of the patched block at its place.
pub make_chunk_lem :
    (block_offset : ℕ) (delta : Text) (offset wanted : ℕ) (at_hand bytes : Text) (i : ℕ)
    → length at_hand ≤ wanted
    → i < wanted
    → make_chunk block_offset delta offset wanted at_hand ≡ ok bytes
    → (length bytes ≡ wanted)
      × (get_elem? bytes i ≡ patched_byte block_offset delta (offset + i) (get_elem? at_hand i))
make_chunk_lem block_offset delta offset wanted at_hand bytes i fits below e =
    let low = max offset block_offset in
    let high = min (offset + wanted) (block_offset + length delta) in
    let (cover, built) = make_chunk-ok block_offset delta offset wanted at_hand bytes e in
    elim (Bool-cases (ltb low high)) [
      | inl meets ↦
          spliced_lem block_offset delta offset wanted at_hand i low high fits below cover refl refl
            meets bytes (built ∙ rw meets)
      | inr apart ↦
          let flat : bytes ≡ at_hand ++ zeros (wanted - length at_hand) = built ∙ rw apart in
          (
            ap length flat ∙ (padded_lem at_hand wanted i fits).0,
            ap (λ (b : Text). get_elem? b i) flat
                ∙ unspliced_lem block_offset delta offset wanted at_hand i low high fits below cover
                    refl refl apart,
          )
    ]
