-- ===== src/Engine/Generate.antt =====
-- src/compact.cpp: compact_generate_sst_from_iter, which builds a compaction's tables from an
-- iterator.
pub mod Tombstones
use mini_lsm_cpp.Prelude.{
  ℕ, zero, suc, ◌+◌, Bool, true, false, not, ◌&&◌, List, [], ◌∷◌, ◌++◌, Option, none, some, ◌>>=◌,
  Bytes, is_nil, leb, if◌then◌else◌,
}
use mini_lsm_cpp.Table.{SsTable}
use mini_lsm_cpp.Table.Builder.{
  Libraries, SsTableBuilder, new_table_builder, add, build, estimated_size, is_empty,
}
use mini_lsm_cpp.State.{LsmStorageOptions}
use mini_lsm_cpp.Iterators.{StorageIterator}

-- The builder at hand, the finished tables, and the engine's next identifier.
pub record Generating : Type 0 where
  pub builder : Option SsTableBuilder
  pub new_sst : List SsTable
  pub next_sst_id : ℕ

-- if (!builder) builder = std::make_unique<SsTableBuilder>(...)
unfoldable pub builder_of : LsmStorageOptions → Option SsTableBuilder → SsTableBuilder
builder_of options none = new_table_builder options.block_size options.compression
builder_of options (some b) = b

-- Whether the builder's table is large enough.
unfoldable pub is_full : LsmStorageOptions → SsTableBuilder → Bool
is_full options b = not (is_empty b) && leb options.target_sst_size (estimated_size b)

module _ (lib : Libraries) (options : LsmStorageOptions) (creates bottom : Bool) where
  -- The entry goes into the builder, unless it is a tombstone on the way to the bottom level.
  unfoldable pub add_entry : SsTableBuilder → Bytes → Bytes → Option SsTableBuilder
  add_entry b key value = if bottom && is_nil value then some b else add lib b key value

  -- The builder's table, finished if it is full.
  unfoldable pub finish_full_table : Generating → SsTableBuilder → Option Generating
  unfolding is_full
  finish_full_table g b =
      if is_full options b
      then (do
        sst ← build lib creates g.next_sst_id b
        some (record {
          builder = none;
          new_sst = g.new_sst ++ sst ∷ [];
          next_sst_id = g.next_sst_id + 1;
        }))
      else some (record g { builder = some b })

  -- A round of the loop, for the entry that the iterator shows.
  unfoldable pub generate_round : Generating → Bytes → Bytes → Option Generating
  unfolding add_entry finish_full_table builder_of
  generate_round g key value = do
    b ← add_entry (builder_of options g.builder) key value
    finish_full_table g b

  -- After the loop: the builder's table, if it has any entry.
  unfoldable pub finish_last : Generating → Option SsTableBuilder → Option (List SsTable)
  finish_last g none = some g.new_sst
  finish_last g (some b) =
      if is_empty b
      then some g.new_sst
      else do sst ← build lib creates g.next_sst_id b; some (g.new_sst ++ sst ∷ [])

  module _ {I : Type 0} (iter_ops : StorageIterator I) where
    -- The loop, on fuel.
    unfoldable pub generate_loop : ℕ → I → Generating → Option (List SsTable)
    unfolding generate_round finish_last
    generate_loop zero iter g = none
    generate_loop (suc fuel) iter g = elim (iter_ops.is_valid iter) [
      | false ↦ finish_last g g.builder
      | true ↦ do
        g' ← generate_round g (iter_ops.key iter) (iter_ops.value iter)
        generate_loop fuel (iter_ops.next iter) g'
    ]

    unfoldable pub compact_generate_sst_from_iter : ℕ → ℕ → I → Option (List SsTable)
    unfolding generate_loop
    compact_generate_sst_from_iter fuel next_sst_id iter =
        generate_loop fuel iter (record { builder = none; new_sst = []; next_sst_id = next_sst_id })
