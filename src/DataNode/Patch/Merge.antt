-- ===== src/DataNode/Patch/Merge.antt =====
-- The streaming merge of src/dfsha/datanode/patch.py: the chunks it yields are the patched block.
use mathlib.Core.List.{append_assoc, append-nil}
use dfsha.Prelude.{
  ℕ, zero, suc, ◌+◌, ◌-◌, ◌≤◌, ◌<◌, ◌≡◌, ◌⊎◌, inl, inr, refl, sym, ap, ◌∙◌, Bool, true, false, not,
  ◌&&◌, ◌||◌, List, [], ◌∷◌, ◌++◌, Text, arith, min, max, length, take, drop, ltb, leb,
  if◌then◌else◌, get_elem?, concat, get_elem?-append, get_elem?-take, get_elem?-drop, length-append,
  length-take, length-drop, subst, Bool-cases,
}
use dfsha.Common.Domain.{
  Reason, sparse_write_unsupported, Result, ok, fault, ◌>>=◌, ◌>>◌, need, deadline_exceeded,
}
use dfsha.DataNode.Patch.{fill, make_chunk, result_chunks, chunk_bytes}
use dfsha.DataNode.Patch.Chunk.{patched_byte, make_chunk_lem}

-- `fill` moves bytes from the source without loss, and stops short only at its end.
fill_lem :
    (wanted : ℕ) (pending : Text) (source : List Text)
    → ((fill wanted pending source).0 ++ concat (fill wanted pending source).1
        ≡ pending ++ concat source)
      × ((wanted ≤ length (fill wanted pending source).0) ⊎ ((fill wanted pending source).1 ≡ []))
unfolding fill
fill_lem wanted pending [] = (refl, inr refl)
fill_lem wanted pending (piece ∷ source) = elim (Bool-cases (ltb (length pending) wanted)) [
  | inl short ↦
      let (kept, ends) = fill_lem wanted (pending ++ piece) source in
      rw short (kept ∙ append_assoc pending piece (concat source), ends)
  | inr enough ↦ rw enough (refl, inl (ground arith))
]

cut_before :
    (w : ℕ) (g : Text) (r : List Text) (i : ℕ)
    → i < w
    → (w ≤ length g) ⊎ (r ≡ [])
    → get_elem? (take w g) i ≡ get_elem? (g ++ concat r) i
cut_before w g r i h (inl long) =
    ground (arith, get_elem?-take w g i, get_elem?-append g (concat r) i)
cut_before w g r i h (inr ends) = rw (ends, append-nil) (ground (arith, get_elem?-take w g i))

cut_after :
    (w : ℕ) (g : Text) (r : List Text) (i : ℕ)
    → (w ≤ length g) ⊎ (r ≡ [])
    → get_elem? (drop w g ++ concat r) i ≡ get_elem? (g ++ concat r) (w + i)
cut_after w g r i (inl long) =
    let e : i - length (drop w g) ≡ w + i - length g = omega (arith, length-drop w g) in
    ground (
      arith,
      get_elem?-append (drop w g) (concat r) i,
      get_elem?-append g (concat r) (w + i),
      get_elem?-drop w g i,
      length-drop w g,
      ap (get_elem? (concat r)) e,
    )
cut_after w g r i (inr ends) = rw ends (rw (append-nil, append-nil) (get_elem?-drop w g i))

-- The bytes at hand for a chunk, and those left for the next, are those of the base in order.
fill_bytes :
    (w : ℕ) (pending : Text) (source : List Text) (i : ℕ)
    → (i < w
        → get_elem? (take w (fill w pending source).0) i ≡ get_elem? (pending ++ concat source) i)
      × (get_elem? (drop w (fill w pending source).0 ++ concat (fill w pending source).1) i
          ≡ get_elem? (pending ++ concat source) (w + i))
fill_bytes w pending source i =
    let (kept, ends) = fill_lem w pending source in
    (
      λ h.
          cut_before w (fill w pending source).0 (fill w pending source).1 i h ends
          ∙ ap (λ (b : Text). get_elem? b i) kept,
      cut_after w (fill w pending source).0 (fill w pending source).1 i ends
          ∙ ap (λ (b : Text). get_elem? b (w + i)) kept,
    )

-- `out` is the patched block from `offset` on, over a base whose bytes from there are `base`.
abbrev pub IsPatched : ℕ → Text → ℕ → ℕ → Text → Text → Type 0
IsPatched block_offset delta size offset base out =
    (length out ≡ size - offset)
    × ((i : ℕ)
        → i < size - offset
        → get_elem? out i ≡ patched_byte block_offset delta (offset + i) (get_elem? base i))

-- One more chunk in front.
IsPatched-append :
    (block_offset : ℕ) (delta : Text) (size offset w : ℕ) (pending : Text) (source : List Text)
    (bytes out : Text)
    → w ≤ size - offset
    → 0 < w
    → make_chunk block_offset delta offset w (take w (fill w pending source).0) ≡ ok bytes
    → IsPatched block_offset delta size
        (offset + w)
        (drop w (fill w pending source).0 ++ concat (fill w pending source).1)
        out
    → IsPatched block_offset delta size offset (pending ++ concat source) (bytes ++ out)
IsPatched-append block_offset delta size offset w pending source bytes out fits pos made rest =
    let at_hand = take w (fill w pending source).0 in
    let short : length at_hand ≤ w = omega (arith, length-take w (fill w pending source).0) in
    let chunk_lem = λ (i : ℕ) (h : i < w).
      make_chunk_lem block_offset delta offset w at_hand bytes i short h made in
    let len : length bytes ≡ w = (chunk_lem 0 pos).0 in
    (
      omega (arith, length-append bytes out, len, rest.0),
      λ i h. elim (Bool-cases (ltb i w)) [
        | inl now ↦
            let lt : i < w = ground arith in
            let here : get_elem? (bytes ++ out) i ≡ get_elem? bytes i =
              ground (arith, get_elem?-append bytes out i, len) in
            here
            ∙ (chunk_lem i lt).1
            ∙ ap (patched_byte block_offset delta (offset + i))
                ((fill_bytes w pending source i).0 lt)
        | inr later ↦
            let j = i - w in
            let e : w + j ≡ i = ground arith in
            let e' : offset + w + j ≡ offset + i = ground arith in
            let there : get_elem? (bytes ++ out) i ≡ get_elem? out j = ground (
              arith,
              get_elem?-append bytes out i,
              len,
              ap (get_elem? out) (ap (λ (n : ℕ). i - n) len),
            ) in
            there
            ∙ rest.1 j (ground (arith, e))
            ∙ ap
                (λ (p : ℕ). patched_byte block_offset delta p (
                  get_elem? (drop w (fill w pending source).0 ++ concat (fill w pending source).1)
                    j))
                e'
            ∙ ap (patched_byte block_offset delta (offset + i))
                ((fill_bytes w pending source j).1 ∙ ap (get_elem? (pending ++ concat source)) e)
      ],
    )

taken {ℓ} : {A : Type ℓ} {b : Bool} (x y : A) → b ≡ true → (if b then x else y) ≡ x
taken x y e = rw e refl

-- A round that returns made one chunk, and the rounds behind it the rest.
round_lem :
    (made : Result Text) (alive : Bool) (later : Result (List Text)) (chunks : List Text)
    → (made >>= λ bytes. need alive deadline_exceeded >> (later >>= λ rest. ok (bytes ∷ rest)))
      ≡ ok chunks
    → (bytes : Text) × (rest : List Text) × (made ≡ ok bytes)
      × (later ≡ ok rest)
      × (chunks ≡ bytes ∷ rest)
round_lem (ok bytes) true (ok rest) chunks e = (bytes, rest, refl, refl, ground arith)
round_lem (ok bytes) true (fault r) chunks e = ground arith
round_lem (ok bytes) false later chunks e = ground arith
round_lem (fault r) alive later chunks e = ground arith

-- With at least the missing bytes as fuel, the chunks of the merge are together exactly the patched
-- block: as long as its size, with the delta's bytes where the delta lies and the base's elsewhere.
pub result_chunks-IsPatched :
    (alive : ℕ → Bool) (block_offset : ℕ) (delta : Text) (size fuel offset : ℕ) (pending : Text)
    (source : List Text) (chunks : List Text)
    → size - offset ≤ fuel
    → result_chunks alive block_offset delta size fuel offset pending source ≡ ok chunks
    → IsPatched block_offset delta size offset (pending ++ concat source) (concat chunks)
unfolding result_chunks
result_chunks-IsPatched alive block_offset delta size zero offset pending source chunks enough e =
    let none_left : [] ≡ chunks = ground arith in
    rw (sym none_left) (omega arith, λ i h. ground arith)
result_chunks-IsPatched alive block_offset delta size (suc fuel) offset pending source chunks enough
      e =
    elim (Bool-cases (ltb offset size)) [
      | inl more ↦
          let w = min chunk_bytes (size - offset) in
          let (bytes, rest, made, later, is) =
            round_lem (make_chunk block_offset delta offset w (take w (fill w pending source).0))
              (alive offset)
              (result_chunks alive block_offset delta size fuel (offset + w)
                (drop w (fill w pending source).0) (fill w pending source).1)
              chunks (sym (taken _ (ok []) more) ∙ e) in
          let lt : offset < size = ground arith in
          subst
            (λ (out : List Text).
              IsPatched block_offset delta size offset (pending ++ concat source) (concat out))
            (sym is)
            (IsPatched-append block_offset delta size offset w pending source bytes (concat rest)
              (omega arith) (omega (arith, lt)) made
              (result_chunks-IsPatched alive block_offset delta size fuel (offset + w)
                (drop w (fill w pending source).0) (fill w pending source).1 rest
                (omega (arith, lt)) later))
      | inr done ↦
          let none_left : [] ≡ chunks = ground arith in
          rw (sym none_left) (ground arith, λ i h. ground arith)
    ]

passes {ℓ} : {A : Type ℓ} (b : Bool) (r : Reason) (m : Result A) → b ≡ true → (need b r >> m) ≡ m
passes true r m e = refl
passes false r m e = ground arith

-- A chunk that the base leaves short lies below the delta's end, and the base ends behind its start.
covers_lem :
    (w offset size block_offset len base hand : ℕ)
    → hand ≡ min w base
    → offset < size
    → w ≤ size - offset
    → size ≤ max (offset + base) (block_offset + len)
    → block_offset ≤ offset + base
    → (w ≤ hand) ⊎ ((block_offset ≤ offset + hand) × (offset + w ≤ block_offset + len))
covers_lem w offset size block_offset len base hand is lt fits covers starts =
    elim (Bool-cases (leb w hand)) [
      | inl long ↦ inl (ground arith)
      | inr short ↦
          let below : hand < w = ground arith in inr (omega (arith, below), omega (arith, below))
    ]

chunk_returns :
    (block_offset : ℕ) (delta : Text) (offset wanted : ℕ) (at_hand : Text)
    → (wanted ≤ length at_hand)
      ⊎ ((block_offset ≤ offset + length at_hand) × (offset + wanted ≤ block_offset + length delta))
    → (bytes : Text) × (make_chunk block_offset delta offset wanted at_hand ≡ ok bytes)
unfolding make_chunk
chunk_returns block_offset delta offset wanted at_hand cover =
    let goes : (not (ltb (length at_hand) wanted)
          || (leb block_offset (offset + length at_hand)
              && leb (offset + wanted) (block_offset + length delta)))
        ≡ true =
      ground arith in
    (_, passes _ sparse_write_unsupported _ goes)

-- What is at hand for a chunk, and what is left behind it, when the base has `rest` bytes.
hand_lem :
    (w : ℕ) (pending : Text) (source : List Text)
    → (length (take w (fill w pending source).0) ≡ min w (length (pending ++ concat source)))
      × (length (drop w (fill w pending source).0 ++ concat (fill w pending source).1)
          ≡ length (pending ++ concat source) - w)
hand_lem w pending source =
    let (kept, ends) = fill_lem w pending source in
    let g = (fill w pending source).0 in
    let r = (fill w pending source).1 in
    let total : length g + length (concat r) ≡ length (pending ++ concat source) =
      sym (length-append g (concat r)) ∙ ap length kept in
    elim ends [
      | inl long ↦ (
        omega (arith, length-take w g, total, long),
        omega (arith, length-append (drop w g) (concat r), length-drop w g, total, long),
      )
      | inr out ↦
          let empty : length (concat r) ≡ 0 = rw out refl in
          (
            omega (arith, length-take w g, total, empty),
            omega (arith, length-append (drop w g) (concat r), length-drop w g, total, empty),
          )
    ]

-- When the call stays in time, the delta starts inside the base, and the size is at most that of the
-- base and the delta's end together, the merge returns its chunks: they are the patched block.
pub result_chunks_complete :
    (alive : ℕ → Bool) (block_offset : ℕ) (delta : Text) (size fuel offset : ℕ) (pending : Text)
    (source : List Text)
    → ((o : ℕ) → alive o ≡ true)
    → block_offset ≤ offset + length (pending ++ concat source)
    → size ≤ max (offset + length (pending ++ concat source)) (block_offset + length delta)
    → size - offset ≤ fuel
    → (chunks : List Text) × (result_chunks alive block_offset delta size fuel offset pending source
        ≡ ok chunks)
unfolding result_chunks
result_chunks_complete alive block_offset delta size zero offset pending source up starts covers
      enough =
    ([], refl)
result_chunks_complete alive block_offset delta size (suc fuel) offset pending source up starts
      covers enough =
    elim (Bool-cases (ltb offset size)) [
      | inl more ↦
          let lt : offset < size = ground arith in
          let w = min chunk_bytes (size - offset) in
          let at_hand = take w (fill w pending source).0 in
          let (have, left) = hand_lem w pending source in
          let (bytes, made) = chunk_returns block_offset delta offset w at_hand (
            covers_lem w offset size block_offset (length delta) (length (pending ++ concat source))
              (length at_hand) have lt (omega arith) covers starts) in
          let (rest, later) =
            result_chunks_complete alive block_offset delta size fuel (offset + w)
              (drop w (fill w pending source).0) (fill w pending source).1 up
              (omega (arith, starts, left)) (omega (arith, covers, left)) (omega (arith, lt)) in
          (bytes ∷ rest, taken _ (ok []) more ∙ rw (made, up offset, later) refl)
      | inr done ↦ ([], rw done refl)
    ]

-- A call that stays in time patches: when the delta starts inside the base, and the size is at most
-- the larger of the base's and the delta's end, the loop started at 0 over the pieces of the base
-- returns chunks, and they are together the patched block of that size.
pub patch_merges :
    (alive : ℕ → Bool) (block_offset : ℕ) (delta : Text) (size : ℕ) (source : List Text)
    → ((o : ℕ) → alive o ≡ true)
    → block_offset ≤ length (concat source)
    → size ≤ max (length (concat source)) (block_offset + length delta)
    → (chunks : List Text) × (result_chunks alive block_offset delta size size 0 [] source
        ≡ ok chunks)
      × IsPatched block_offset delta size 0 (concat source) (concat chunks)
patch_merges alive block_offset delta size source up starts covers =
    let (chunks, e) =
      result_chunks_complete alive block_offset delta size size 0 [] source up
        (omega (arith, starts)) (omega (arith, covers)) (omega arith) in
    (
      chunks,
      e,
      result_chunks-IsPatched alive block_offset delta size size 0 [] source chunks (omega arith) e,
    )
