-- ===== src/DataNode/Container/RoundTrip.antt =====
-- What the container of src/dfsha/datanode/blocks.py gives back, from what its libraries promise.
use mathlib.Core.List.{append_assoc}
use dfsha.Prelude.{
  ℕ, zero, suc, ◌+◌, ◌-◌, ◌≤◌, ◌<◌, ◌≡◌, refl, sym, ap, ◌∙◌, true, not, ◌&&◌, Option, none, some,
  List, [], ◌∷◌, ◌++◌, Text, arith, length, concat, ltb, leb, ◌==◌, is_some, take-append,
  drop-append, length-append,
}
use dfsha.Common.Domain.{
  Result, ok, ◌>>=◌, >>=-eq-ok, need_then, invalid_argument, checksum_mismatch, already_exists,
}
use dfsha.Control.Table.{get}
use dfsha.Control.State.{BlockRef, Digest, digest_eq}
use dfsha.DataNode.Patch.{chunk_bytes}
use dfsha.DataNode.Container.{
  Crypto, Keys, Header, magic, pack_word, nonce_of, bound_data, seal_record, write_records,
  header_of, put_block, read_records, describes, read_verified, or_lost,
}
use dfsha.DataNode.Container.Words.{length-pack_word, unpack_word-pack_word}

triple_lem :
    (a x : Text) (b y : ℕ) (c z : Digest)
    → ◌≡◌ {A = Result (Text × ℕ × Digest)} (ok (a, b, c)) (ok (x, y, z))
    → (x ≡ a) × (y ≡ b) × (z ≡ c)
triple_lem a x b y c z e = (ground arith, ground arith, ground arith)

module _ (crypto : Crypto)
    (opens : (key nonce plain bound : Text)
      → crypto.decrypt key nonce (crypto.encrypt key nonce plain bound) bound ≡ some plain)
    (grows : (key nonce plain bound : Text)
      → length (crypto.encrypt key nonce plain bound) ≡ length plain + 16)
    (unwraps : (key dek : Text) → crypto.unwrap key (crypto.wrap key dek) ≡ some dek)
    (parses : (h : Header) → crypto.parse_header (crypto.print_header h) ≡ some h) where
  -- A record in front of others is read back.
  read_one :
      (dek prefix header : Text) (fuel index n : ℕ) (sealed chunk rest : Text)
      → length sealed ≡ n
      → 16 < n
      → n ≤ chunk_bytes + 16
      → crypto.decrypt dek
          (nonce_of crypto prefix index)
          sealed
          (bound_data crypto header index (n - 16))
        ≡ some chunk
      → read_records crypto dek prefix header (suc fuel) index (pack_word n ++ (sealed ++ rest)) ≡ (
          read_records crypto dek prefix header fuel (index + 1) rest >>= λ chunks.
          ok (chunk ∷ chunks))
  unfolding pack_word read_records or_lost
  read_one dek prefix header fuel index n sealed chunk rest long above below opened =
      let word = unpack_word-pack_word n (omega (arith, below)) in
      let range : (ltb 16 n && leb n (chunk_bytes + 16)) ≡ true = ground arith in
      let full : (length sealed == n) ≡ true = ground arith in
      rw (word, take-append n sealed rest long, drop-append n sealed rest long, range, full, opened)
        refl

  read_records-seal_record :
      (dek prefix header : Text) (fuel index : ℕ) (chunk rest : Text)
      → 0 < length chunk
      → length chunk ≤ chunk_bytes
      → read_records crypto dek prefix header
          (suc fuel)
          index
          (seal_record crypto dek prefix header index chunk ++ rest)
        ≡ (read_records crypto dek prefix header fuel (index + 1) rest >>= λ chunks.
            ok (chunk ∷ chunks))
  unfolding seal_record
  read_records-seal_record dek prefix header fuel index chunk rest pos small =
      let bound = bound_data crypto header index (length chunk) in
      let sealed = crypto.encrypt dek (nonce_of crypto prefix index) chunk bound in
      let long : length sealed ≡ length chunk + 16 =
        grows dek (nonce_of crypto prefix index) chunk bound in
      let back : length sealed - 16 ≡ length chunk = omega (arith, long) in
      ap (read_records crypto dek prefix header (suc fuel) index)
        (append_assoc (pack_word (length sealed)) sealed rest)
      ∙ read_one dek prefix header fuel index (length sealed) sealed chunk rest refl
          (omega (arith, long)) (omega (arith, long))
          (ap
              (λ (n : ℕ).
                crypto.decrypt dek (nonce_of crypto prefix index) sealed
                  (bound_data crypto header index n))
              back
            ∙ opens dek (nonce_of crypto prefix index) chunk bound)

  length-seal_record :
      (dek prefix header : Text) (index : ℕ) (chunk : Text)
      → length (seal_record crypto dek prefix header index chunk) ≡ length chunk + 20
  unfolding seal_record
  length-seal_record dek prefix header index chunk =
      let bound = bound_data crypto header index (length chunk) in
      let sealed = crypto.encrypt dek (nonce_of crypto prefix index) chunk bound in
      omega (
        arith,
        length-append (pack_word (length sealed)) sealed,
        length-pack_word (length sealed),
        grows dek (nonce_of crypto prefix index) chunk bound,
      )

  -- One chunk more was accepted, with the rest behind it.
  write_records-ok :
      (dek prefix header : Text) (size index total : ℕ) (chunk : Text) (chunks : List Text)
      (records bytes : Text)
      → write_records crypto dek prefix header size index total (chunk ∷ chunks)
        ≡ ok (records, bytes)
      → (r b : Text) × (0 < length chunk)
        × (length chunk ≤ chunk_bytes)
        × (write_records crypto dek prefix header size (index + 1) (total + length chunk) chunks
            ≡ ok (r, b))
        × (records ≡ seal_record crypto dek prefix header index chunk ++ r)
        × (bytes ≡ chunk ++ b)
  unfolding write_records
  write_records-ok dek prefix header size index total chunk chunks records bytes e =
      let (tested, e1) =
        need_then
          (ltb 0 (length chunk)
            && (leb (length chunk) chunk_bytes && leb (total + length chunk) size))
          invalid_argument _ e in
      let ((r, b), rest, e2) =
        >>=-eq-ok
          (write_records crypto dek prefix header size (index + 1) (total + length chunk) chunks)
          (λ rest. ok (seal_record crypto dek prefix header index chunk ++ rest.0, chunk ++ rest.1))
          e1 in
      (
        r,
        b,
        ground (arith, tested),
        ground (arith, tested),
        rest,
        ground (arith, e2),
        ground (arith, e2),
      )

  read_records-write_records :
      (dek prefix header : Text) (size index total fuel : ℕ) (chunks : List Text)
      (records bytes : Text)
      → write_records crypto dek prefix header size index total chunks ≡ ok (records, bytes)
      → length records < fuel
      → (read_records crypto dek prefix header fuel index records ≡ ok chunks)
        × (concat chunks ≡ bytes)
  unfolding read_records write_records
  read_records-write_records dek prefix header size index total zero chunks records bytes e enough =
      absurd (omega (arith, enough))
  read_records-write_records dek prefix header size index total (suc fuel) [] records bytes e
        enough =
      let none_left : records ≡ [] = ground arith in
      (ap (read_records crypto dek prefix header (suc fuel) index) none_left, ground arith)
  read_records-write_records dek prefix header size index total (suc fuel) (chunk ∷ chunks) records
        bytes e enough =
      let (r, b, pos, small, rest, records_is, bytes_is) =
        write_records-ok dek prefix header size index total chunk chunks records bytes e in
      let (read, joined) =
        read_records-write_records dek prefix header size (index + 1) (total + length chunk) fuel
          chunks r b rest
          (omega (
            arith,
            enough,
            ap (λ (t : Text). length t) records_is,
            length-append (seal_record crypto dek prefix header index chunk) r,
            length-seal_record dek prefix header index chunk,
          )) in
      (
        ap (read_records crypto dek prefix header (suc fuel) index) records_is
            ∙ read_records-seal_record dek prefix header fuel index chunk r pos small
            ∙ ap (λ (m : Result (List Text)). m >>= λ cs. ok (chunk ∷ cs)) read,
        ap (◌++◌ chunk) joined ∙ sym bytes_is,
      )

  -- Where the file stands: the header's word, the header and the records.
  abbrev pub file_of : Text → Text → Text
  file_of header records = magic ++ (pack_word (length header) ++ (header ++ records))

  read_header :
      (keys : Keys) (block : BlockRef) (header records key dek : Text) (h : Header)
      (chunks : List Text)
      → 0 < length header
      → length header ≤ 4096
      → crypto.parse_header header ≡ some h
      → describes crypto keys block h ≡ true
      → get keys.keys h.key_id ≡ some key
      → crypto.unwrap key h.wrapped_dek ≡ some dek
      → length h.nonce_prefix ≡ 8
      → read_records crypto dek h.nonce_prefix header (length records + 1) 0 records ≡ ok chunks
      → length (concat chunks) ≡ block.size_bytes
      → digest_eq (crypto.sha (concat chunks)) block.plaintext_sha256 ≡ true
      → read_verified crypto keys block (some (file_of header records)) ≡ ok chunks
  unfolding read_verified pack_word or_lost
  read_header keys block header records key dek h chunks pos small parsed fits held unwrapped eight
        read sized same =
      let word = unpack_word-pack_word (length header) (omega (arith, small)) in
      let range : (ltb 0 (length header) && leb (length header) 4096) ≡ true = ground arith in
      let prefix_ok : (length h.nonce_prefix == 8) ≡ true = ground arith in
      let whole : (length (concat chunks) == block.size_bytes
            && digest_eq (crypto.sha (concat chunks)) block.plaintext_sha256)
          ≡ true =
        ground arith in
      rw
        (
          word,
          take-append (length header) header records refl,
          drop-append (length header) header records refl,
          range,
          parsed,
          fits,
          held,
          unwrapped,
          prefix_ok,
          read,
          whole,
        )
        refl

  pub put_block-ok :
      (keys : Keys) (block : BlockRef) (dek prefix : Text) (chunks : List Text)
      (disk : Result (Unit {0})) (target : Option Text) (file : Text) (size : ℕ) (digest : Digest)
      → put_block crypto keys block dek prefix chunks disk target ≡ ok (file, size, digest)
      → (records bytes : Text) × (write_records crypto dek prefix
            (crypto.print_header (header_of crypto keys block dek prefix))
            block.size_bytes
            0
            0
            chunks
          ≡ ok (records, bytes))
        × (length bytes ≡ block.size_bytes)
        × (digest_eq (crypto.sha bytes) block.plaintext_sha256 ≡ true)
        × (target ≡ none)
        × (file ≡ file_of (crypto.print_header (header_of crypto keys block dek prefix)) records)
        × (size ≡ length file)
        × (digest ≡ crypto.sha file)
  unfolding put_block
  put_block-ok keys block dek prefix chunks disk target file size digest e =
      let header = crypto.print_header (header_of crypto keys block dek prefix) in
      let ((records, bytes), wrote, e1) =
        >>=-eq-ok (write_records crypto dek prefix header block.size_bytes 0 0 chunks) _ e in
      let (sized, e2) =
        need_then
          (length bytes == block.size_bytes && digest_eq (crypto.sha bytes) block.plaintext_sha256)
          checksum_mismatch _ e1 in
      let (u, written, e3) = >>=-eq-ok disk _ e2 in
      let (vacant, e4) = need_then (not (is_some target)) already_exists _ e3 in
      let (file_is, size_is, digest_is) =
        triple_lem (file_of header records) file _ size _ digest e4 in
      (
        records,
        bytes,
        wrote,
        ground (arith, sized),
        ground (arith, sized),
        ground (arith, vacant),
        file_is,
        size_is ∙ ap (λ (t : Text). length t) (sym file_is),
        digest_is ∙ ap crypto.sha (sym file_is),
      )

  -- What `put` wrote, every node that holds the key reads back: the same chunks, as they were given,
  -- once the header is at most 4096 bytes and the nonce prefix is of eight bytes.
  pub read_verified-put_block :
      (keys readers : Keys) (block : BlockRef) (dek prefix : Text) (chunks : List Text)
      (disk : Result (Unit {0})) (target : Option Text) (file : Text) (size : ℕ) (digest : Digest)
      → put_block crypto keys block dek prefix chunks disk target ≡ ok (file, size, digest)
      → get readers.keys keys.key_id ≡ some keys.key
      → length prefix ≡ 8
      → 0 < length (crypto.print_header (header_of crypto keys block dek prefix))
      → length (crypto.print_header (header_of crypto keys block dek prefix)) ≤ 4096
      → read_verified crypto readers block (some file) ≡ ok chunks
  unfolding header_of describes
  read_verified-put_block keys readers block dek prefix chunks disk target file size digest e held
        eight pos small =
      let h = header_of crypto keys block dek prefix in
      let (records, bytes, wrote, sized, hashed, vacant, file_is, size_is, digest_is) =
        put_block-ok keys block dek prefix chunks disk target file size digest e in
      let (read, joined) =
        read_records-write_records dek prefix (crypto.print_header h) block.size_bytes 0 0
          (length records + 1) chunks records bytes wrote (omega arith) in
      let fits : describes crypto readers block h ≡ true = ground (arith, held) in
      ap (λ (t : Text). read_verified crypto readers block (some t)) file_is
      ∙ read_header readers block (crypto.print_header h) records keys.key dek h chunks pos small
          (parses h) fits held (unwraps keys.key dek) eight read
          (ap (λ (t : Text). length t) joined ∙ sized)
          (ap (λ (t : Text). digest_eq (crypto.sha t) block.plaintext_sha256) joined ∙ hashed)
