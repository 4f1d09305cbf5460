-- ===== src/DataNode/Container.antt =====
-- src/dfsha/datanode/blocks.py: the container DFSHAB01 of `EncryptedBlockStore`. A file is its bytes;
-- the cipher, the key wrap, SHA-256 and the JSON of the header are arguments, and so are the random
-- bytes drawn, and what the operating system answers to the writes.
pub mod Words
pub mod RoundTrip
pub mod Replica
use dfsha.Prelude.{
  ℕ, zero, suc, ◌+◌, ◌-◌, ◌*◌, ◌/◌, ◌%◌, Bool, true, not, ◌&&◌, Option, none, some, List, [], ◌∷◌,
  ◌++◌, Text, length, take, drop, concat, ltb, leb, ◌==◌, list_eq, is_some,
}
use dfsha.Common.Domain.{
  Result, ok, fault, ◌>>=◌, ◌>>◌, need, invalid_argument, checksum_mismatch, already_exists,
  data_loss,
}
use dfsha.Control.Table.{Table, get}
use dfsha.Control.State.{BlockRef, Digest, digest_eq}
use dfsha.DataNode.Patch.{chunk_bytes}

abbrev pub magic : Text
magic = 68 ∷ 70 ∷ 83 ∷ 72 ∷ 65 ∷ 66 ∷ 48 ∷ 49 ∷ []

-- `struct.pack('>I', n)`; no number here needs more than four bytes
unfoldable pub pack_word : ℕ → Text
pack_word n = n / 16777216 % 256 ∷ n / 65536 % 256 ∷ n / 256 % 256 ∷ n % 256 ∷ []

-- `struct.unpack('>I', raw)[0]`, of the bytes from the last of which the first is left out
unfoldable pub unpack_from : ℕ → Text → ℕ
unpack_from high [] = high
unpack_from high (b ∷ bs) = unpack_from (high * 256 + b) bs

unfoldable pub unpack_word : Text → ℕ
unfolding unpack_from
unpack_word raw = unpack_from 0 raw

-- The object that the header is in JSON; `version` is always 1.
pub record Header : Type 0 where
  pub version : ℕ
  pub file_id : ℕ
  pub block_id : ℕ
  pub size : ℕ
  pub block_index : Option ℕ
  pub sha256 : Digest
  pub key_id : ℕ
  pub wrapped_dek : Text
  pub nonce_prefix : Text

-- What the code takes from its libraries; `none` is InvalidTag, InvalidUnwrap or a ValueError.
pub record Crypto : Type 0 where
  pub sha : Text → Digest
  pub encrypt : Text → Text → Text → Text → Text
  pub decrypt : Text → Text → Text → Text → Option Text
  pub wrap : Text → Text → Text
  pub unwrap : Text → Text → Option Text
  pub print_header : Header → Text
  pub parse_header : Text → Option Header

-- The store's keys by their id, and the one that it writes with.
pub record Keys : Type 0 where
  pub key_id : ℕ
  pub key : Text
  pub keys : Table Text

-- `raise Fault('DATA_LOSS')` on what the except clause names
unfoldable pub or_lost {ℓ} : {A : Type ℓ} → Option A → Result A
or_lost none = fault data_loss
or_lost (some a) = ok a

module _ (crypto : Crypto) where
  -- `prefix + struct.pack('>I', index)`
  unfoldable pub nonce_of : Text → ℕ → Text
  nonce_of prefix index = prefix ++ pack_word index

  -- `header + struct.pack('>II', index, length)`
  unfoldable pub bound_data : Text → ℕ → ℕ → Text
  bound_data header index size = header ++ (pack_word index ++ pack_word size)

  -- One record of the file.
  unfoldable pub seal_record : Text → Text → Text → ℕ → Text → Text
  unfolding nonce_of bound_data
  seal_record dek prefix header index chunk =
      let encrypted =
        crypto.encrypt dek (nonce_of prefix index) chunk (bound_data header index (length chunk)) in
      pack_word (length encrypted) ++ encrypted

  -- The loop of `put` over the chunks: the records, and the bytes of the chunks.
  unfoldable pub write_records : Text → Text → Text → ℕ → ℕ → ℕ → List Text → Result (Text × Text)
  write_records dek prefix header size index total [] = ok ([], [])
  write_records dek prefix header size index total (chunk ∷ chunks) = do
    need
        (ltb 0 (length chunk)
          && (leb (length chunk) chunk_bytes && leb (total + length chunk) size))
        invalid_argument
    (records, bytes) ←
        write_records dek prefix header size (index + 1) (total + length chunk) chunks
    ok (seal_record dek prefix header index chunk ++ records, chunk ++ bytes)

  unfoldable pub header_of : Keys → BlockRef → Text → Text → Header
  header_of keys block dek prefix = record {
    version = 1;
    file_id = block.file_id;
    block_id = block.block_version_id;
    size = block.size_bytes;
    block_index = some block.block_index;
    sha256 = block.plaintext_sha256;
    key_id = keys.key_id;
    wrapped_dek = crypto.wrap keys.key dek;
    nonce_prefix = prefix;
  }

  -- `put`: the bytes of the new file, with their number and hash. `target` is the file that is there.
  unfoldable pub put_block :
      Keys
      → BlockRef
      → Text
      → Text
      → List Text
      → Result (Unit {0})
      → Option Text
      → Result (Text × ℕ × Digest)
  put_block keys block dek prefix chunks disk target = do
    let header = crypto.print_header (header_of keys block dek prefix)
    (records, bytes) ← write_records dek prefix header block.size_bytes 0 0 chunks
    need (length bytes == block.size_bytes && digest_eq (crypto.sha bytes) block.plaintext_sha256)
        checksum_mismatch
    disk
    need (not (is_some target)) already_exists
    let file = magic ++ (pack_word (length header) ++ (header ++ records))
    ok (file, length file, crypto.sha file)

  -- `records()`; each round takes at least a byte, so that the length of the stream, and one more, is
  -- enough fuel.
  unfoldable pub read_records : Text → Text → Text → ℕ → ℕ → Text → Result (List Text)
  read_records dek prefix header zero index stream = fault data_loss
  read_records dek prefix header (suc fuel) index [] = ok []
  read_records dek prefix header (suc fuel) index (b ∷ bs) = do
    let raw = take 4 (b ∷ bs)
    need (length raw == 4) data_loss
    let size = unpack_word raw
    need (ltb 16 size && leb size (chunk_bytes + 16)) data_loss
    let sealed = take size (drop 4 (b ∷ bs))
    need (length sealed == size) data_loss
    chunk ←
        or_lost
          (crypto.decrypt dek (nonce_of prefix index) sealed (bound_data header index (size - 16)))
    chunks ← read_records dek prefix header fuel (index + 1) (drop size (drop 4 (b ∷ bs)))
    ok (chunk ∷ chunks)

  -- The tests of the header against the block.
  unfoldable pub describes : Keys → BlockRef → Header → Bool
  describes keys block h =
      h.version == 1
      && (h.file_id == block.file_id
          && (h.block_id == block.block_version_id
              && (h.size == block.size_bytes
                  && (elim h.block_index [ none ↦ true | some i ↦ i == block.block_index ]
                      && (digest_eq h.sha256 block.plaintext_sha256
                          && is_some (get keys.keys h.key_id))))))

  -- `read_verified`: the chunks that it yields once the whole file is verified.
  unfoldable pub read_verified : Keys → BlockRef → Option Text → Result (List Text)
  read_verified keys block file = do
    stream ← or_lost file
    need (list_eq (take 8 stream) magic) data_loss
    let raw = take 4 (drop 8 stream)
    need (length raw == 4) data_loss
    let size = unpack_word raw
    need (ltb 0 size && leb size 4096) data_loss
    let header = take size (drop 4 (drop 8 stream))
    h ← or_lost (crypto.parse_header header)
    need (describes keys block h) data_loss
    key ← or_lost (get keys.keys h.key_id)
    dek ← or_lost (crypto.unwrap key h.wrapped_dek)
    need (length h.nonce_prefix == 8) data_loss
    let body = drop size (drop 4 (drop 8 stream))
    chunks ← read_records dek h.nonce_prefix header (length body + 1) 0 body
    need
        (length (concat chunks) == block.size_bytes
          && digest_eq (crypto.sha (concat chunks)) block.plaintext_sha256)
        data_loss
    ok chunks

  -- The loop of `import_ciphertext`: the bytes of the staged file.
  unfoldable pub stage_bytes : ℕ → Text → List Text → Result Text
  stage_bytes limit staged [] = ok staged
  stage_bytes limit staged (chunk ∷ chunks) = do
    need
        (ltb 0 (length chunk)
          && (leb (length chunk) chunk_bytes && leb (length staged + length chunk) limit))
        invalid_argument
    stage_bytes limit (staged ++ chunk) chunks

  -- `import_ciphertext`: the bytes of the new file.
  unfoldable pub import_ciphertext :
      Keys → BlockRef → List Text → ℕ → Digest → Option Text → Result Text
  import_ciphertext keys block chunks size digest target = do
    staged ← stage_bytes size [] chunks
    need (length staged == size && digest_eq (crypto.sha staged) digest) checksum_mismatch
    verified ← read_verified keys block (some staged)
    need (not (is_some target)) already_exists
    ok staged
