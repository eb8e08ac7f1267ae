-- ===== src/Table/Tests.antt =====
-- A filter of two hashes, and the list of two blocks.
use mini_lsm_cpp.Prelude.{
  ℕ, ◌*◌, ◌/◌, ◌≡◌, true, List, some, none, length, is_nil, ◌++◌, refl, [], ◌∷◌, arith, count-cons,
}
use mini_lsm_cpp.Wal.Tests.{checksum, checksum_lt}
use mini_lsm_cpp.Endian.{put_u16_be, put_u32_be}
use mini_lsm_cpp.Block.{Block}
use mini_lsm_cpp.Block
use mini_lsm_cpp.Table.{BlockMeta, Bloom, SsTable, CompressionType}
use mini_lsm_cpp.Table.Sst.{read_block, open_table, front, back}
use mini_lsm_cpp.Table.Builder.{image, Libraries, SsTableBuilder, finish_block, pack}
use mini_lsm_cpp.Table.Builder.Layout.{IsLaid, read_block-finish_block}
use mini_lsm_cpp.Table.Builder.Image.{open_table-image}
use mini_lsm_cpp.Table.Meta.{encode_block_meta, decode_block_meta, put_metas, put_meta}
use mini_lsm_cpp.Table.Meta.MetaRoundTrip.{decode-encode_block_meta}
use mini_lsm_cpp.Table.Filter.{may_contain, build_from_key_hashes}
use mini_lsm_cpp.Table.Filter.NoFalseNegatives.{may_contain-build}

-- static_cast<uint32_t>(bits_per_key * 0.69), without rounding errors.
abbrev probes : ℕ → ℕ
probes bits_per_key = bits_per_key * 69 / 100

may_contain-build_example :
    may_contain (build_from_key_hashes probes (77 ∷ 3000000000 ∷ []) 10) 77 ≡ true
may_contain-build_example =
    may_contain-build probes (77 ∷ 3000000000 ∷ []) 10 77 (omega arith)
      (ground (arith, count-cons 77 77 (3000000000 ∷ [])))

abbrev two_blocks : List BlockMeta
two_blocks =
    record { offset = 0; first_key = 1 ∷ []; last_key = 2 ∷ 3 ∷ [] }
    ∷ record { offset = 70000; first_key = 4 ∷ []; last_key = 9 ∷ [] }
    ∷ []

decode-encode_block_meta_example :
    decode_block_meta checksum (encode_block_meta checksum two_blocks []) ≡ some two_blocks
decode-encode_block_meta_example =
    decode-encode_block_meta checksum checksum_lt two_blocks (omega arith) (omega arith)

abbrev two_keys : Bloom
two_keys = record { filter = 5 ∷ 0 ∷ []; k = 6 }

open_table-image_example :
    open_table checksum 3 (image checksum (7 ∷ 7 ∷ []) two_blocks two_keys)
    ≡ some (record {
      id = 3;
      file = image checksum (7 ∷ 7 ∷ []) two_blocks two_keys;
      first_key = 1 ∷ [];
      last_key = 9 ∷ [];
      block_meta = two_blocks;
      block_meta_offset = 2;
      bloom = two_keys;
    })
unfolding front back encode_block_meta put_metas put_meta put_u16_be put_u32_be
open_table-image_example =
    open_table-image checksum checksum_lt 3 (7 ∷ 7 ∷ []) two_blocks two_keys
      (record { offset = 0; first_key = 1 ∷ []; last_key = 2 ∷ 3 ∷ [] })
      (record { offset = 70000; first_key = 4 ∷ []; last_key = 9 ∷ [] }) (omega arith) (omega arith)
      (omega arith) refl refl

abbrev libraries : Libraries
libraries = record {
  crc32 = checksum;
  fingerprint = λ key. length key;
  bits_per_key = λ n. 10;
  probes = probes;
  snappy = none;
}

abbrev one_entry : Block
one_entry = record { contents = 0 ∷ 0 ∷ 0 ∷ 1 ∷ 1 ∷ 0 ∷ 1 ∷ 2 ∷ []; offsets = 0 ∷ [] }

abbrev filled : SsTableBuilder
filled = record {
  builder = record {
    offsets = one_entry.offsets;
    contents = one_entry.contents;
    block_size = 64;
    first_key = 1 ∷ [];
  };
  first_key = 1 ∷ [];
  last_key = 1 ∷ [];
  data_bytes = [];
  meta = [];
  block_size = 64;
  compression = CompressionType.none;
  key_hashes = 1 ∷ [];
}

abbrev finished : SsTableBuilder
finished =
    let packed = 0 ∷ Block.encode one_entry in
    record filled {
      builder = Block.new_builder 64;
      first_key = [];
      last_key = [];
      data_bytes = put_u32_be packed (checksum packed);
      meta = record { offset = 0; first_key = 1 ∷ []; last_key = 1 ∷ [] } ∷ [];
    }

abbrev one_block : SsTable
one_block = record {
  id = 3;
  file = finished.data_bytes ++ 9 ∷ [];
  first_key = 1 ∷ [];
  last_key = 1 ∷ [];
  block_meta = finished.meta;
  block_meta_offset = length finished.data_bytes;
  bloom = two_keys;
}

read_block-finish_block_example :
    IsLaid libraries CompressionType.none finished ((1 ∷ [], 1 ∷ [], Block.encode one_entry) ∷ [])
    × (read_block checksum none one_block 0 ≡ Block.decode (Block.encode one_entry))
unfolding finish_block pack mini_lsm_cpp.Block.is_empty mini_lsm_cpp.Block.build is_nil
read_block-finish_block_example =
    read_block-finish_block libraries CompressionType.none tt checksum_lt filled finished [] [] []
      (1 ∷ [], 1 ∷ [], Block.encode one_entry) one_entry one_block (9 ∷ []) refl refl refl
      (refl, refl, refl) refl refl refl refl
