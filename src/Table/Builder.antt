-- ===== src/Table/Builder.antt =====
-- include/mini_lsm/table.h and src/table/builder.cpp, SsTableBuilder; src/mem_table.cpp, flush.
-- The fingerprint (farmhash), the bits of the filter for each key and the number of its probes
-- (floating point) are parameters.
pub mod Image
pub mod Blocks
pub mod Layout
use mini_lsm_cpp.Prelude.{
  ℕ, zero, suc, ◌+◌, ◌-◌, Bool, true, false, not, ◌&&◌, List, [], ◌∷◌, ◌++◌, Option, none, some,
  ◌>>=◌, ◌>>◌, assert, Bytes, u32, length, is_nil, ◌==◌, if◌then◌else◌,
}
use mini_lsm_cpp.Endian.{put_u32_be}
use mini_lsm_cpp.Wal.{Entry}
use mini_lsm_cpp.MemTable.{MemTable}
use mini_lsm_cpp.Block.{BlockBuilder, new_builder}
use mini_lsm_cpp.Block
use mini_lsm_cpp.Table.{SsTable, BlockMeta, Bloom, CompressionType}
use mini_lsm_cpp.Table.Filter
use mini_lsm_cpp.Table.Meta.{encode_block_meta}
use mini_lsm_cpp.Table.Sst.{Snappy, open_table}

pub record Libraries : Type 0 where
  pub crc32 : Bytes → ℕ
  pub fingerprint : Bytes → ℕ
  pub bits_per_key : ℕ → ℕ
  pub probes : ℕ → ℕ
  pub snappy : Option Snappy

pub record SsTableBuilder : Type 0 where
  pub builder : BlockBuilder
  pub first_key : Bytes
  pub last_key : Bytes
  pub data_bytes : Bytes
  pub meta : List BlockMeta
  pub block_size : ℕ
  pub compression : CompressionType
  pub key_hashes : List ℕ

unfoldable pub new_table_builder : ℕ → CompressionType → SsTableBuilder
new_table_builder block_size compression = record {
  builder = new_builder block_size;
  first_key = [];
  last_key = [];
  data_bytes = [];
  meta = [];
  block_size = block_size;
  compression = compression;
  key_hashes = [];
}

unfoldable pub estimated_size : SsTableBuilder → ℕ
estimated_size b = length b.data_bytes

unfoldable pub is_empty : SsTableBuilder → Bool
is_empty b = length b.meta == 0 && Block.is_empty b.builder

-- The flag byte and the bytes of a block, compressed if asked for and built in.
unfoldable pub pack : Option Snappy → CompressionType → Bytes → Bytes
pack (some s) CompressionType.snappy block_data = 1 ∷ s.compress block_data
pack _ _ block_data = 0 ∷ block_data

-- The bytes of the file: the blocks, their list with its offset, the filter with its offset.
unfoldable pub image : (Bytes → ℕ) → Bytes → List BlockMeta → Bloom → Bytes
image crc32 data_bytes meta bloom =
    let with_meta =
      put_u32_be (encode_block_meta crc32 meta data_bytes) (u32 (length data_bytes)) in
    put_u32_be (Filter.encode crc32 bloom with_meta) (u32 (length with_meta))

module _ (lib : Libraries) where
  -- The moved-from keys are not read before they are set again.
  unfoldable pub finish_block : SsTableBuilder → Option SsTableBuilder
  unfolding pack
  finish_block b = if Block.is_empty b.builder then some b else do
    block ← Block.build b.builder
    let packed = pack lib.snappy b.compression (Block.encode block)
    some (record b {
      builder = new_builder b.block_size;
      first_key = [];
      last_key = [];
      meta =
          b.meta
          ++ record { offset = length b.data_bytes; first_key = b.first_key; last_key = b.last_key }
            ∷ [];
      data_bytes = put_u32_be (b.data_bytes ++ packed) (lib.crc32 packed);
    })

  unfoldable pub add : SsTableBuilder → Bytes → Bytes → Option SsTableBuilder
  unfolding finish_block
  add b key value = do
    let b1 = record b {
      first_key = if is_nil b.first_key then key else b.first_key;
      key_hashes = b.key_hashes ++ lib.fingerprint key ∷ [];
    }
    r ← Block.add b1.builder key value
    if r.1 then some (record b1 { builder = r.0; last_key = key }) else do
      b2 ← finish_block b1
      again ← Block.add b2.builder key value
      assert again.1
      some (record b2 { builder = again.0; first_key = key; last_key = key })

  -- Whether the file can be created and opened; its bytes are those of the image.
  unfoldable pub build : Bool → ℕ → SsTableBuilder → Option SsTable
  unfolding finish_block image
  build creates id b = do
    done ← finish_block b
    let bits_per_key = lib.bits_per_key (length done.key_hashes)
    let bloom = Filter.build_from_key_hashes lib.probes done.key_hashes bits_per_key
    assert creates
    open_table lib.crc32 id (image lib.crc32 done.data_bytes done.meta bloom)

  -- MemTable::flush
  unfoldable pub flush_entries : SsTableBuilder → List Entry → Option SsTableBuilder
  unfolding add
  flush_entries b [] = some b
  flush_entries b ((key, value) ∷ entries) = do b' ← add b key value; flush_entries b' entries

  unfoldable pub flush : MemTable → SsTableBuilder → Option SsTableBuilder
  unfolding flush_entries
  flush t b = flush_entries b t.entries
