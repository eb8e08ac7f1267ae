-- ===== src/Table/Sst.antt =====
-- include/mini_lsm/table.h and src/table/builder.cpp, FileObject and SsTable: a table is opened
-- from its file, and its blocks are read. A FileObject is the bytes behind its descriptor. An
-- exception, an assertion that fails and a read out of bounds are `none`. Snappy is a parameter:
-- `none` where the build has no Snappy.
use mini_lsm_cpp.Prelude.{
  ℕ, zero, suc, ◌+◌, ◌-◌, List, [], ◌∷◌, Option, none, some, ◌>>=◌, ◌>>◌, assert, Bytes, length,
  take, drop, leb, ◌==◌, get_elem?, if◌then◌else◌,
}
use mini_lsm_cpp.Endian.{read_u32_be}
use mini_lsm_cpp.Key.{key_lt}
use mini_lsm_cpp.Block.{Block}
use mini_lsm_cpp.Block
use mini_lsm_cpp.Table.{SsTable, BlockMeta}
use mini_lsm_cpp.Table.Filter
use mini_lsm_cpp.Table.Meta.{decode_block_meta}

-- Snappy's compression, and its decompression, which can fail.
pub record Snappy : Type 0 where
  pub compress : Bytes → Bytes
  pub uncompress : Bytes → Option Bytes

-- FileObject::read: pread past the end of the file throws.
unfoldable pub read : Bytes → ℕ → ℕ → Option Bytes
read file offset len =
    if len == 0
    then some []
    else if leb (offset + len) (length file)
    then some (take len (drop offset file))
    else none

-- front() and back() of an empty vector are left undefined by the language.
unfoldable pub front : List BlockMeta → Option BlockMeta
front [] = none
front (m ∷ meta) = some m

unfoldable pub back : List BlockMeta → Option BlockMeta
back [] = none
back (m ∷ []) = some m
back (m ∷ n ∷ meta) = back (n ∷ meta)

-- How many blocks start at the key or before it: std::upper_bound over the first keys.
unfoldable pub upper_bound : Bytes → List BlockMeta → ℕ
upper_bound key [] = 0
upper_bound key (m ∷ meta) =
    let rest = upper_bound key meta in if key_lt key m.first_key then 0 else suc rest

unfoldable pub find_block_idx : SsTable → Bytes → ℕ
unfolding upper_bound
find_block_idx t key = upper_bound key t.block_meta - 1

unfoldable pub num_blocks : SsTable → ℕ
num_blocks t = length t.block_meta

-- What the flag byte says of the bytes behind it.
unfoldable pub unpack : Option Snappy → ℕ → Bytes → Option Block
unpack snappy zero bytes = Block.decode bytes
unpack none flag_byte bytes = none
unpack (some s) (suc zero) bytes = do uncompressed ← s.uncompress bytes; Block.decode uncompressed
unpack (some s) flag_byte bytes = none

-- Where the block ends: at the next one, or at the list of blocks.
unfoldable pub offset_end : SsTable → ℕ → ℕ
offset_end t block_idx = elim (get_elem? t.block_meta (block_idx + 1)) [
  | none ↦ t.block_meta_offset
  | some m ↦ m.offset
]

module _ (crc32 : Bytes → ℕ) where
  -- A difference that the code lets wrap around makes a length that no read can fill.
  unfoldable pub open_table : ℕ → Bytes → Option SsTable
  open_table id file = do
    assert (leb 4 (length file))
    raw_bloom_offset ← read file (length file - 4) 4
    bloom_offset ← read_u32_be raw_bloom_offset
    assert (leb bloom_offset (length file - 4))
    raw_bloom ← read file bloom_offset (length file - 4 - bloom_offset)
    bloom ← Filter.decode crc32 raw_bloom
    assert (leb 4 bloom_offset)
    raw_meta_offset ← read file (bloom_offset - 4) 4
    block_meta_offset ← read_u32_be raw_meta_offset
    assert (leb block_meta_offset (bloom_offset - 4))
    raw_meta ← read file block_meta_offset (bloom_offset - 4 - block_meta_offset)
    block_meta ← decode_block_meta crc32 raw_meta
    first ← front block_meta
    last ← back block_meta
    some (record {
      id = id;
      file = file;
      first_key = first.first_key;
      last_key = last.last_key;
      block_meta = block_meta;
      block_meta_offset = block_meta_offset;
      bloom = bloom;
    })

  unfoldable pub read_block : Option Snappy → SsTable → ℕ → Option Block
  read_block snappy t block_idx = do
    m ← get_elem? t.block_meta block_idx
    let stop = offset_end t block_idx
    assert (leb (m.offset + 5) stop)
    data_with_chksum ← read t.file m.offset (stop - m.offset)
    let block_len_with_flag = stop - m.offset - 4
    expected_checksum ← read_u32_be (drop block_len_with_flag data_with_chksum)
    assert (expected_checksum == crc32 (take block_len_with_flag data_with_chksum))
    flag_byte ← get_elem? data_with_chksum 0
    unpack snappy flag_byte (drop 1 (take block_len_with_flag data_with_chksum))
