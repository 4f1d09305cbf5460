-- ===== src/DataNode/Container/Words.antt =====
-- The four-byte words of the container in src/dfsha/datanode/blocks.py.
use dfsha.Prelude.{ℕ, ◌≡◌, ◌<◌, refl, arith, length}
use dfsha.DataNode.Container.{pack_word, unpack_word}

pub length-pack_word : (n : ℕ) → length (pack_word n) ≡ 4
unfolding pack_word
length-pack_word n = refl

pub unpack_word-pack_word : (n : ℕ) → n < 4294967296 → unpack_word (pack_word n) ≡ n
unfolding pack_word unpack_word
unpack_word-pack_word n h = omega arith
