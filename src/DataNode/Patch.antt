-- ===== src/DataNode/Patch.antt =====
-- src/dfsha/datanode/patch.py: how `patch_block` assembles the delta from frames and merges it into
-- the verified base, a chunk at a time.
pub mod Chunk
pub mod Merge
use dfsha.Prelude.{
  ℕ, zero, suc, ◌+◌, ◌-◌, Bool, not, ◌&&◌, ◌||◌, List, [], ◌∷◌, ◌++◌, Text, min, max, length, take,
  drop, ltb, leb, ◌==◌, if◌then◌else◌,
}
use dfsha.Common.Domain.{
  Result, ok, fault, ◌>>=◌, ◌>>◌, need, invalid_argument, deadline_exceeded,
  sparse_write_unsupported,
}

-- `CHUNK`
abbrev pub chunk_bytes : ℕ
chunk_bytes = 262144

-- A frame of the request stream behind the header: a chunk, or what is none.
pub data Frame : Type 0 where
  chunk : ℕ → Text → Frame
  no_chunk : Frame

-- The loop over the frames; `alive` says whether the call is active and in time at each round.
unfoldable pub collect_delta : (ℕ → Bool) → ℕ → ℕ → Text → List Frame → Result Text
collect_delta alive limit round delta [] = ok delta
collect_delta alive limit round delta (no_chunk ∷ frames) = do
  need (alive round) deadline_exceeded
  fault invalid_argument
collect_delta alive limit round delta (chunk offset bytes ∷ frames) = do
  need (alive round) deadline_exceeded
  need
      (offset == length delta
        && (ltb 0 (length bytes)
            && (leb (length bytes) chunk_bytes && leb (length delta + length bytes) limit)))
      invalid_argument
  collect_delta alive limit (round + 1) (delta ++ bytes) frames

unfoldable pub zeros : ℕ → Text
zeros zero = []
zeros (suc n) = 0 ∷ zeros n

-- `chunk[low-offset:high-offset] = delta[low-block_offset:high-block_offset]`
unfoldable pub splice : ℕ → ℕ → Text → Text → Text
splice from to piece bytes = take from bytes ++ (piece ++ drop to bytes)

-- The inner loop: pieces of the base are read until `wanted` bytes are at hand or it is done.
unfoldable pub fill : ℕ → Text → List Text → Text × List Text
fill wanted pending [] = (pending, [])
fill wanted pending (piece ∷ source) =
    let more = fill wanted (pending ++ piece) source in
    if ltb (length pending) wanted then more else (pending, piece ∷ source)

-- One chunk of the result, from the bytes of the base that are left for it.
unfoldable pub make_chunk : ℕ → Text → ℕ → ℕ → Text → Result Text
make_chunk block_offset delta offset wanted at_hand = do
  need
      (not (ltb (length at_hand) wanted)
        || (leb block_offset (offset + length at_hand)
            && leb (offset + wanted) (block_offset + length delta)))
      sparse_write_unsupported
  let bytes = at_hand ++ zeros (wanted - length at_hand)
  let low = max offset block_offset
  let high = min (offset + wanted) (block_offset + length delta)
  ok (
      if ltb low high
      then splice (low - offset) (high - offset)
          (take (high - low) (drop (low - block_offset) delta)) bytes
      else bytes)

-- `result_chunks`: the rounds of its loop, on fuel. The result's size is the fuel that is enough.
-- Each chunk is also where the source tests that the call is in time.
unfoldable pub result_chunks :
    (ℕ → Bool) → ℕ → Text → ℕ → ℕ → ℕ → Text → List Text → Result (List Text)
result_chunks alive block_offset delta size zero offset pending source = ok []
result_chunks alive block_offset delta size (suc fuel) offset pending source =
    let wanted = min chunk_bytes (size - offset) in
    let (at_hand, source') = fill wanted pending source in
    let step = (do
      bytes ← make_chunk block_offset delta offset wanted (take wanted at_hand)
      need (alive offset) deadline_exceeded
      rest ←
          result_chunks alive block_offset delta size fuel (offset + wanted) (drop wanted at_hand)
            source'
      ok (bytes ∷ rest)) in
    if ltb offset size then step else ok []
