-- ===== src/Compact/Tests/LeveledTests.antt =====
-- L0 is compacted into the base level.
use mini_lsm_cpp.Prelude.{
  ℕ, ◌+◌, ◌≡◌, refl, true, false, List, [], ◌∷◌, none, some, count, count-nil, count-cons, contains,
  erase, is_nil, IsDistinct, arith,
}
use mini_lsm_cpp.Prelude.Find.{find}
use mini_lsm_cpp.Key.{key_lt, key_compare, memcmp, key_gt}
use mini_lsm_cpp.Table.{table_size}
use mini_lsm_cpp.State.{LsmStorageState, LeveledCompactionOptions}
use mini_lsm_cpp.Compact.{LeveledCompactionTask}
use mini_lsm_cpp.Compact.TakeOut.{to_set, take_out}
use mini_lsm_cpp.Compact.Outside.{outside}
use mini_lsm_cpp.Compact.Levels.{level_files, set_level_files}
use mini_lsm_cpp.Compact.Leveled.{
  less, key_range, overlaps, overlapping, find_overlapping_ssts, clear_upper, lower_files,
  replace_lower, apply_compaction_result,
}
use mini_lsm_cpp.Compact.Leveled.Sorting.{insert_by, sort_by, Ascending}
use mini_lsm_cpp.Compact.Leveled.Accounting.{tables_in, apply-count_leveled}
use mini_lsm_cpp.Compact.Leveled.Recovery.{replay_order}
use mini_lsm_cpp.Compact.Leveled.Generate.{
  sum_bytes, real_sizes, base_level_size_bytes, target_round, targets, l0_task,
  generate_compaction_task,
}
use mini_lsm_cpp.Compact.Leveled.Generate.Bounds.{IsWithin, generate-IsWithin}
use mini_lsm_cpp.Compact.Tests.{fractions, state_of, before}

-- Table 2 stays in the lower level, and the output 1 comes before it in key order.
abbrev unsorted : LsmStorageState
unsorted = state_of (4 ∷ 3 ∷ []) ((1, 2 ∷ []) ∷ (2, []) ∷ [])

abbrev task : LeveledCompactionTask
task = record {
  upper_level = none;
  upper_level_sst_ids = 4 ∷ 3 ∷ [];
  lower_level = 1;
  lower_level_sst_ids = [];
  is_lower_level_bottom_level = false;
}

abbrev live : LsmStorageState × List ℕ
live = (state_of [] ((1, 1 ∷ 2 ∷ []) ∷ (2, []) ∷ []), 4 ∷ 3 ∷ [])

abbrev replayed : LsmStorageState × List ℕ
replayed = (state_of [] ((1, 2 ∷ 1 ∷ []) ∷ (2, []) ∷ []), 4 ∷ 3 ∷ [])

run : apply_compaction_result unsorted task (1 ∷ []) false ≡ some live
unfolding apply_compaction_result clear_upper replace_lower lower_files level_files set_level_files
    take_out to_set is_nil contains erase sort_by insert_by less find key_lt key_compare memcmp
run = refl

replay : apply_compaction_result unsorted task (1 ∷ []) true ≡ some replayed
unfolding apply_compaction_result clear_upper replace_lower lower_files level_files set_level_files
    take_out to_set is_nil contains erase
replay = refl

l0-IsDistinct : IsDistinct (4 ∷ 3 ∷ [])
l0-IsDistinct a = ground (arith, count-cons a 4 (3 ∷ []), count-cons a 3 [], count-nil a)

none-IsDistinct : IsDistinct []
none-IsDistinct a = ground (arith, count-nil a)

apply-count_leveled_example :
    tables_in 2 live.0 + count 2 live.1 ≡ tables_in 2 unsorted + count 2 (1 ∷ [])
apply-count_leveled_example =
    apply-count_leveled 2 unsorted task (1 ∷ []) false live l0-IsDistinct none-IsDistinct run

level_one-IsDistinct : IsDistinct (2 ∷ [])
level_one-IsDistinct a = ground (arith, count-cons a 2 [], count-nil a)

replay_order_example :
    (level_files replayed.0.levels 1 ≡ some (2 ∷ 1 ∷ []))
    × (sorted : List ℕ) × (level_files live.0.levels 1 ≡ some sorted)
    × Ascending (less unsorted.sstables) sorted
    × ((a : ℕ) → count a sorted ≡ count a (2 ∷ 1 ∷ []))
unfolding outside contains
replay_order_example =
    replay_order unsorted task (1 ∷ []) (2 ∷ []) live replayed (λ e. cc)
      (unfold level_files in refl) level_one-IsDistinct run replay

abbrev options : LeveledCompactionOptions
options = record {
  level_size_multiplier = 10;
  level0_file_num_compaction_trigger = 2;
  max_levels = 2;
  base_level_size_mb = 1;
}

abbrev to_base : LeveledCompactionTask
to_base = record {
  upper_level = none;
  upper_level_sst_ids = 4 ∷ 3 ∷ [];
  lower_level = 2;
  lower_level_sst_ids = 2 ∷ [];
  is_lower_level_bottom_level = true;
}

generated : generate_compaction_task fractions options before ≡ some (some to_base)
unfolding generate_compaction_task real_sizes sum_bytes base_level_size_bytes target_round targets
    l0_task find table_size find_overlapping_ssts key_range overlapping overlaps level_files key_lt
    key_gt key_compare memcmp
generated = refl

generate-IsWithin_example : IsWithin options before to_base
generate-IsWithin_example =
    generate-IsWithin fractions options before to_base (omega arith) generated
