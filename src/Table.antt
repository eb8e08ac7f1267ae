-- ===== src/Table.antt =====
-- include/mini_lsm/table.h: what a sorted table is once it is open. Its file is the bytes behind
-- the descriptor; the block cache is shared by all tables and stands outside.
pub mod Filter
pub mod Meta
pub mod Sst
pub mod Builder
mod Tests
use mini_lsm_cpp.Prelude.{ℕ, List, Bytes, length}

pub data CompressionType : Type 0 where
  none snappy : CompressionType

pub record Bloom : Type 0 where
  pub filter : Bytes
  pub k : ℕ

pub record BlockMeta : Type 0 where
  pub offset : ℕ
  pub first_key : Bytes
  pub last_key : Bytes

pub record SsTable : Type 0 where
  pub id : ℕ
  pub file : Bytes
  pub first_key : Bytes
  pub last_key : Bytes
  pub block_meta : List BlockMeta
  pub block_meta_offset : ℕ
  pub bloom : Bloom

-- file.size()
unfoldable pub table_size : SsTable → ℕ
table_size t = length t.file
