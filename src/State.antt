-- ===== src/State.antt =====
-- include/mini_lsm/lsm_storage.h, LsmStorageOptions and LsmStorageState, with the options of
-- include/mini_lsm/compact.h. A shared_ptr in `sstables` is never null: the code stores what
-- SsTable::open and SsTableBuilder::build return.
use mini_lsm_cpp.Prelude.{ℕ, zero, suc, ◌+◌, Bool, false, List, [], ◌∷◌, Option, none}
use mini_lsm_cpp.MemTable.{MemTable, new}
use mini_lsm_cpp.Table.{SsTable, CompressionType}

pub record SimpleLeveledCompactionOptions : Type 0 where
  pub size_ratio_percent : ℕ
  pub level0_file_num_compaction_trigger : ℕ
  pub max_levels : ℕ

pub record LeveledCompactionOptions : Type 0 where
  pub level_size_multiplier : ℕ
  pub level0_file_num_compaction_trigger : ℕ
  pub max_levels : ℕ
  pub base_level_size_mb : ℕ

pub record TieredCompactionOptions : Type 0 where
  pub num_tiers : ℕ
  pub max_size_amplification_percent : ℕ
  pub size_ratio : ℕ
  pub min_merge_width : ℕ
  pub max_merge_width : Option ℕ

-- The type tag and its variant, which the code's factories keep in step.
pub data CompactionOptions : Type 0 where
  leveled : LeveledCompactionOptions → CompactionOptions
  tiered : TieredCompactionOptions → CompactionOptions
  simple : SimpleLeveledCompactionOptions → CompactionOptions
  no_compaction : CompactionOptions

pub record LsmStorageOptions : Type 0 where
  pub block_size : ℕ
  pub target_sst_size : ℕ
  pub num_memtable_limit : ℕ
  pub compaction_options : CompactionOptions
  pub enable_wal : Bool
  pub serializable : Bool
  pub compression : CompressionType

-- A level (or a tier) and the identifiers of its tables.
abbrev pub Level : Type 0
Level = ℕ × List ℕ

pub record LsmStorageState : Type 0 where
  pub memtable : MemTable
  pub imm_memtables : List MemTable
  pub l0_sstables : List ℕ
  pub levels : List Level
  pub sstables : List (ℕ × SsTable)

-- for (l = first; l <= last; ++l) levels.push_back({l, {}}), on the rounds left.
unfoldable pub empty_levels : ℕ → ℕ → List Level
empty_levels l zero = []
empty_levels l (suc rounds) = (l, []) ∷ empty_levels (l + 1) rounds

unfoldable pub initial_levels : CompactionOptions → List Level
unfolding empty_levels
initial_levels (leveled opts) = empty_levels 1 opts.max_levels
initial_levels (simple opts) = empty_levels 1 opts.max_levels
initial_levels (tiered opts) = []
initial_levels no_compaction = (1, []) ∷ []

unfoldable pub create : LsmStorageOptions → LsmStorageState
unfolding initial_levels
create options = record {
  memtable = new 0 none;
  imm_memtables = [];
  l0_sstables = [];
  levels = initial_levels options.compaction_options;
  sstables = [];
}

abbrev pub default_for_week1_test : LsmStorageOptions
default_for_week1_test = record {
  block_size = 4096;
  target_sst_size = 2097152;
  num_memtable_limit = 50;
  compaction_options = no_compaction;
  enable_wal = false;
  serializable = false;
  compression = CompressionType.none;
}

abbrev pub default_for_week1_day6_test : LsmStorageOptions
default_for_week1_day6_test = record default_for_week1_test { num_memtable_limit = 2 }

abbrev pub default_for_week2_test : CompactionOptions → LsmStorageOptions
default_for_week2_test options = record default_for_week1_test {
  target_sst_size = 1048576;
  compaction_options = options;
  num_memtable_limit = 2;
}
