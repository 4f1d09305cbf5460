-- ===== src/Scenarios/Containers.antt =====
-- A cipher that adds a tag of zeros, a header of plain numbers, and a block of four bytes.
use dfsha.Prelude.{
  ℕ, zero, suc, ◌+◌, ◌-◌, ◌≡◌, refl, ap, some, none, Option, [], ◌∷◌, ◌++◌, Text, arith, length,
  take, drop, length-append, take-append, drop-append,
}
use dfsha.Common.Domain.{ok}
use dfsha.Control.Table.{get}
use dfsha.Control.State.{Digest}
use dfsha.DataNode.Container.{
  Crypto, Keys, Header, put_block, write_records, seal_record, header_of, read_verified,
  import_ciphertext, pack_word,
}
use dfsha.DataNode.Container.RoundTrip.{read_verified-put_block}
use dfsha.DataNode.Container.Replica.{import_ciphertext-put_block}
use dfsha.Scenarios.World.{block, digest}

abbrev tag : Text
tag = 0 ∷ 0 ∷ 0 ∷ 0 ∷ 0 ∷ 0 ∷ 0 ∷ 0 ∷ 0 ∷ 0 ∷ 0 ∷ 0 ∷ 0 ∷ 0 ∷ 0 ∷ 0 ∷ []

abbrev encrypt : Text → Text → Text → Text → Text
encrypt key nonce plain bound = plain ++ tag

abbrev decrypt : Text → Text → Text → Text → Option Text
decrypt key nonce sealed bound = some (take (length sealed - 16) sealed)

abbrev wrap : Text → Text → Text
wrap key dek = dek

abbrev unwrap : Text → Text → Option Text
unwrap key wrapped = some wrapped

abbrev flag : Option ℕ → ℕ
flag none = 0
flag (some i) = 1

abbrev value_of : Option ℕ → ℕ
value_of none = 0
value_of (some i) = i

abbrev index_of : ℕ → ℕ → Option ℕ
index_of zero i = none
index_of (suc n) i = some i

index_of-flag : (o : Option ℕ) → index_of (flag o) (value_of o) ≡ o
index_of-flag none = refl
index_of-flag (some i) = refl

abbrev print_header : Header → Text
print_header h =
    h.version
    ∷ h.file_id
    ∷ h.block_id
    ∷ h.size
    ∷ h.sha256.size
    ∷ h.sha256.value
    ∷ h.key_id
    ∷ length h.wrapped_dek
    ∷ flag h.block_index
    ∷ value_of h.block_index
    ∷ (h.wrapped_dek ++ h.nonce_prefix)

abbrev parse_header : Text → Option Header
parse_header (v ∷ f ∷ b ∷ s ∷ n ∷ d ∷ k ∷ w ∷ t ∷ i ∷ rest) = some (record {
  version = v;
  file_id = f;
  block_id = b;
  size = s;
  block_index = index_of t i;
  sha256 = record { size = n; value = d };
  key_id = k;
  wrapped_dek = take w rest;
  nonce_prefix = drop w rest;
})
parse_header _ = none

abbrev sha : Text → Digest
sha bytes = digest

abbrev toy : Crypto
toy = record {
  sha = sha;
  encrypt = encrypt;
  decrypt = decrypt;
  wrap = wrap;
  unwrap = unwrap;
  print_header = print_header;
  parse_header = parse_header;
}

opens :
    (key nonce plain bound : Text)
    → toy.decrypt key nonce (toy.encrypt key nonce plain bound) bound ≡ some plain
opens key nonce plain bound =
    ap some
      (take-append (length (plain ++ tag) - 16) plain tag (omega (arith, length-append plain tag)))

grows :
    (key nonce plain bound : Text) → length (toy.encrypt key nonce plain bound) ≡ length plain + 16
grows key nonce plain bound = length-append plain tag

unwraps : (key dek : Text) → toy.unwrap key (toy.wrap key dek) ≡ some dek
unwraps key dek = refl

parses : (h : Header) → toy.parse_header (toy.print_header h) ≡ some h
parses h =
    rw
      (
        index_of-flag h.block_index,
        take-append (length h.wrapped_dek) h.wrapped_dek h.nonce_prefix refl,
        drop-append (length h.wrapped_dek) h.wrapped_dek h.nonce_prefix refl,
      )
      refl

abbrev keys : Keys
keys = record { key_id = 3; key = 1 ∷ []; keys = (3, 1 ∷ []) ∷ [] }

abbrev prefix : Text
prefix = 9 ∷ 9 ∷ 9 ∷ 9 ∷ 9 ∷ 9 ∷ 9 ∷ 9 ∷ []

abbrev bytes : Text
bytes = 4 ∷ 5 ∷ 6 ∷ 7 ∷ []

abbrev header : Text
header = print_header (header_of toy keys block (2 ∷ 3 ∷ []) prefix)

abbrev stored : Text
stored =
    68
      ∷ 70
      ∷ 83
      ∷ 72
      ∷ 65
      ∷ 66
      ∷ 48
      ∷ 49
      ∷ 0
      ∷ 0
      ∷ 0
      ∷ 20
      ∷ (1 ∷ 21 ∷ 50 ∷ 4 ∷ 32 ∷ 7 ∷ 3 ∷ 2 ∷ 1 ∷ 0 ∷ 2 ∷ 3 ∷ prefix)
    ++ (0 ∷ 0 ∷ 0 ∷ 20 ∷ (bytes ++ tag))

puts :
    put_block toy keys block (2 ∷ 3 ∷ []) prefix (bytes ∷ []) (ok tt) none ≡ ok (stored, 56, digest)
unfolding put_block write_records pack_word header_of seal_record
puts = refl

header_length : length header ≡ 20
unfolding header_of
header_length = refl

holds_key : get keys.keys 3 ≡ some (1 ∷ [])
unfolding get
holds_key = refl

read_verified-put_block_example : read_verified toy keys block (some stored) ≡ ok (bytes ∷ [])
read_verified-put_block_example =
    read_verified-put_block toy opens grows unwraps parses keys keys block (2 ∷ 3 ∷ []) prefix
      (bytes ∷ []) (ok tt) none stored 56 digest puts holds_key refl (omega (arith, header_length))
      (omega (arith, header_length))

import_ciphertext-put_block_example :
    import_ciphertext toy keys block (take 30 stored ∷ drop 30 stored ∷ []) 56 digest none
    ≡ ok stored
import_ciphertext-put_block_example =
    import_ciphertext-put_block toy opens grows unwraps parses keys keys block (2 ∷ 3 ∷ []) prefix
      (bytes ∷ []) (take 30 stored ∷ drop 30 stored ∷ []) (ok tt) none stored 56 digest puts
      holds_key refl (omega (arith, header_length)) (omega (arith, header_length))
      ((ground arith, ground arith), ((ground arith, ground arith), tt)) refl
