-- ===== src/Compact/Tests/SimpleTests.antt =====
-- L0 is compacted into level 1.
use mini_lsm_cpp.Prelude.{
  ℕ, ◌+◌, ◌≤◌, ◌≡◌, refl, false, List, [], ◌∷◌, none, some, count, contains, erase, is_nil, list_eq,
  arith, IsDistinct, count-cons, count-nil,
}
use mini_lsm_cpp.State.{LsmStorageState, SimpleLeveledCompactionOptions}
use mini_lsm_cpp.Compact.{SimpleLeveledCompactionTask}
use mini_lsm_cpp.Compact.TakeOut.{to_set, take_out}
use mini_lsm_cpp.Compact.Levels.{level_files, set_level_files}
use mini_lsm_cpp.Compact.Simple.{
  clear_upper, replace_lower, l0_task, generate_compaction_task, apply_compaction_result,
}
use mini_lsm_cpp.Compact.Simple.Accounting.{count_in, apply-count}
use mini_lsm_cpp.Compact.Simple.Applies.{IsApplied, generate-apply}
use mini_lsm_cpp.Compact.Tests.{fractions, state_of, before}

abbrev options : SimpleLeveledCompactionOptions
options = record {
  size_ratio_percent = 200;
  level0_file_num_compaction_trigger = 2;
  max_levels = 2;
}

abbrev task : SimpleLeveledCompactionTask
task = record {
  upper_level = none;
  upper_level_sst_ids = 4 ∷ 3 ∷ [];
  lower_level = 1;
  lower_level_sst_ids = 1 ∷ [];
  is_lower_level_bottom_level = false;
}

abbrev after : LsmStorageState × List ℕ
after = (state_of [] ((1, 5 ∷ []) ∷ (2, 2 ∷ []) ∷ []), 4 ∷ 3 ∷ 1 ∷ [])

l0-IsDistinct : IsDistinct (4 ∷ 3 ∷ [])
l0-IsDistinct a = ground (arith, count-cons a 4 (3 ∷ []), count-cons a 3 [], count-nil a)

applied : apply_compaction_result before task (5 ∷ []) ≡ some after
unfolding apply_compaction_result clear_upper replace_lower level_files set_level_files take_out
    to_set is_nil list_eq contains erase
applied = refl

apply-count_example : count_in 3 after.0 + count 3 after.1 ≡ count_in 3 before + count 3 (5 ∷ [])
apply-count_example = apply-count 3 before task (5 ∷ []) after l0-IsDistinct applied

generated : generate_compaction_task fractions options before ≡ some (some task)
unfolding generate_compaction_task l0_task
generated = refl

flushed_is_new : (a : ℕ) → 1 ≤ count a (6 ∷ []) → count a (4 ∷ 3 ∷ []) ≡ 0
flushed_is_new a h =
    ground (arith, count-cons a 6 [], count-cons a 4 (3 ∷ []), count-cons a 3 [], count-nil a)

generate-apply_example :
    (r : LsmStorageState × List ℕ) × (apply_compaction_result
        (state_of (6 ∷ 4 ∷ 3 ∷ []) before.levels)
        task
        (5 ∷ [])
      ≡ some r)
    × IsApplied before task (6 ∷ []) (5 ∷ []) r
generate-apply_example =
    generate-apply before task (6 ∷ []) (5 ∷ []) fractions options (omega arith) l0-IsDistinct
      flushed_is_new generated
