-- ===== src/DataNode/Container/Replica.antt =====
-- The copy of a container to another node: `import_ciphertext` of src/dfsha/datanode/blocks.py.
use mathlib.Core.List.{append_assoc, append-nil}
use dfsha.Prelude.{
  ℕ, ◌+◌, ◌≤◌, ◌<◌, ◌≡◌, refl, sym, ap, ◌∙◌, true, ◌&&◌, Option, none, some, List, [], ◌∷◌, ◌++◌,
  Text, arith, length, concat, ltb, leb, ◌==◌, length-append, All,
}
use dfsha.Common.Domain.{Result, ok, need_passes, invalid_argument}
use dfsha.Control.Table.{get}
use dfsha.Control.State.{BlockRef, Digest, digest_eq}
use dfsha.DataNode.Patch.{chunk_bytes}
use dfsha.DataNode.Container.{
  Crypto, Keys, Header, header_of, put_block, stage_bytes, import_ciphertext,
}
use dfsha.DataNode.Container.RoundTrip.{read_verified-put_block, put_block-ok}

-- A chunk of the stream: not empty, and no longer than a chunk may be.
abbrev pub IsChunk : Text → Type 0
IsChunk chunk = (0 < length chunk) × (length chunk ≤ chunk_bytes)

module _ (crypto : Crypto) where
  stage_bytes-concat :
      (limit : ℕ) (staged : Text) (chunks : List Text)
      → All IsChunk chunks
      → length staged + length (concat chunks) ≤ limit
      → stage_bytes crypto limit staged chunks ≡ ok (staged ++ concat chunks)
  unfolding stage_bytes
  stage_bytes-concat limit staged [] fine fits = ap ok (sym (append-nil staged))
  stage_bytes-concat limit staged (chunk ∷ chunks) ((pos, small), fine) fits =
      let room : length staged + length chunk ≤ limit =
        omega (arith, fits, length-append chunk (concat chunks)) in
      let test : (ltb 0 (length chunk)
            && (leb (length chunk) chunk_bytes && leb (length staged + length chunk) limit))
          ≡ true =
        ground (arith, pos, small) in
      need_passes _ invalid_argument (stage_bytes crypto limit (staged ++ chunk) chunks) test
      ∙ stage_bytes-concat limit (staged ++ chunk) chunks fine
          (omega (arith, fits, length-append chunk (concat chunks), length-append staged chunk))
      ∙ ap ok (append_assoc staged chunk (concat chunks))

  digest_eq_refl : (d : Digest) → digest_eq d d ≡ true
  digest_eq_refl d = ground arith

  module _
      (opens : (key nonce plain bound : Text)
        → crypto.decrypt key nonce (crypto.encrypt key nonce plain bound) bound ≡ some plain)
      (grows : (key nonce plain bound : Text)
        → length (crypto.encrypt key nonce plain bound) ≡ length plain + 16)
      (unwraps : (key dek : Text) → crypto.unwrap key (crypto.wrap key dek) ≡ some dek)
      (parses : (h : Header) → crypto.parse_header (crypto.print_header h) ≡ some h) where
    -- A copy succeeds: the bytes that `put` wrote, cut into chunks in any way and announced with the
    -- length and the hash that `put` gave, are accepted unchanged by a node that holds the key and
    -- not the block, once the header is at most 4096 bytes and the nonce prefix is of eight bytes.
    pub import_ciphertext-put_block :
        (keys readers : Keys) (block : BlockRef) (dek prefix : Text) (chunks pieces : List Text)
        (disk : Result (Unit {0})) (target : Option Text) (file : Text) (size : ℕ) (digest : Digest)
        → put_block crypto keys block dek prefix chunks disk target ≡ ok (file, size, digest)
        → get readers.keys keys.key_id ≡ some keys.key
        → length prefix ≡ 8
        → 0 < length (crypto.print_header (header_of crypto keys block dek prefix))
        → length (crypto.print_header (header_of crypto keys block dek prefix)) ≤ 4096
        → All IsChunk pieces
        → concat pieces ≡ file
        → import_ciphertext crypto readers block pieces size digest none ≡ ok file
    unfolding import_ciphertext
    import_ciphertext-put_block keys readers block dek prefix chunks pieces disk target file size
          digest e held eight pos small fine whole =
        let (records, bytes, wrote, sized, hashed, vacant, file_is, size_is, digest_is) =
          put_block-ok crypto opens grows unwraps parses keys block dek prefix chunks disk target
            file size digest e in
        let back =
          read_verified-put_block crypto opens grows unwraps parses keys readers block dek prefix
            chunks disk target file size digest e held eight pos small in
        let staged : stage_bytes crypto size [] pieces ≡ ok file =
          stage_bytes-concat size [] pieces fine
            (omega (arith, ap (λ (t : Text). length t) whole, size_is))
          ∙ ap ok whole in
        let test : (length file == size && digest_eq (crypto.sha file) digest) ≡ true =
          (let same : digest_eq (crypto.sha file) digest ≡ true =
              ap (digest_eq (crypto.sha file)) digest_is ∙ digest_eq_refl (crypto.sha file) in
            ground (arith, size_is, same)) in
        rw (staged, test, back) refl
