-- ===== src/Compact/Simple.antt =====
-- src/compact/simple_leveled.cpp
pub mod Accounting
pub mod Applies
use mini_lsm_cpp.Prelude.{
  ℕ, zero, suc, ◌+◌, ◌-◌, Bool, true, false, List, [], ◌∷◌, ◌++◌, map, Option, none, some, ◌>>=◌,
  ◌>>◌, assert, length, get_elem?, ltb, leb, ◌==◌, if◌then◌else◌, list_eq, is_nil,
}
use mini_lsm_cpp.State.{LsmStorageState, Level, SimpleLeveledCompactionOptions}
use mini_lsm_cpp.Compact.{SimpleLeveledCompactionTask, Doubles}
use mini_lsm_cpp.Compact.TakeOut.{to_set, take_out}
use mini_lsm_cpp.Compact.Levels.{level_files, set_level_files}

-- `none` is an index out of range, `some none` is nullopt.
abbrev pub Chosen : Type 0
Chosen = Option (Option SimpleLeveledCompactionTask)

-- levels.empty() ? {} : levels[0].second
abbrev pub first_files : List Level → List ℕ
first_files [] = []
first_files ((n, files) ∷ levels) = files

module _ (d : Doubles) (options : SimpleLeveledCompactionOptions) where
  unfoldable pub level_task : List Level → ℕ → Chosen
  level_task levels i = do
    upper_ids ← level_files levels i
    lower_ids ← level_files levels (i + 1)
    some (
        some (record {
          upper_level = some i;
          upper_level_sst_ids = upper_ids;
          lower_level = i + 1;
          lower_level_sst_ids = lower_ids;
          is_lower_level_bottom_level = i + 1 == options.max_levels;
        }))

  unfoldable pub ratio_below : ℕ → ℕ → Bool
  ratio_below lower upper =
      d.lt (d.div (d.of_size lower) (d.of_size upper))
        (d.div (d.of_size options.size_ratio_percent) (d.of_size 100))

  -- for (i = 1; i < max_levels; ++i), on the rounds left.
  unfoldable pub ratio_loop : List Level → List ℕ → ℕ → ℕ → Chosen
  ratio_loop levels level_sizes zero i = some none
  ratio_loop levels level_sizes (suc rounds) i =
      let rest = ratio_loop levels level_sizes rounds (i + 1) in
      elim (get_elem? level_sizes i) [
        | none ↦ rest
        | some upper ↦ elim (get_elem? level_sizes (i + 1)) [
          | none ↦ rest
          | some lower ↦
              if upper == 0
              then rest
              else if ratio_below lower upper
              then level_task levels i
              else rest
        ]
      ]

  unfoldable pub l0_task : LsmStorageState → SimpleLeveledCompactionTask
  l0_task snapshot = record {
    upper_level = none;
    upper_level_sst_ids = snapshot.l0_sstables;
    lower_level = 1;
    lower_level_sst_ids = first_files snapshot.levels;
    is_lower_level_bottom_level = 1 == options.max_levels;
  }

  unfoldable pub generate_compaction_task : LsmStorageState → Chosen
  unfolding l0_task ratio_loop level_task
  generate_compaction_task snapshot =
      let level_sizes =
        length snapshot.l0_sstables ∷ map (λ (l : Level). length l.1) snapshot.levels in
      if options.max_levels == 0
      then some none
      else if leb options.level0_file_num_compaction_trigger (length snapshot.l0_sstables)
      then some (some (l0_task snapshot))
      else ratio_loop snapshot.levels level_sizes (options.max_levels - 1) 1

-- The first half of apply_compaction_result: the upper level is emptied, or the compacted tables
-- leave L0. The state and the files to remove so far.
unfoldable pub clear_upper : LsmStorageState → Option ℕ → List ℕ → Option (LsmStorageState × List ℕ)
clear_upper s (some upper_level) ids = do
  files ← level_files s.levels upper_level
  assert (list_eq ids files)
  some (record s { levels = set_level_files s.levels upper_level [] }, files)
clear_upper s none ids = do
  assert (is_nil (take_out (to_set ids) s.l0_sstables).1)
  some (record s { l0_sstables = (take_out (to_set ids) s.l0_sstables).0 }, ids)

unfoldable pub replace_lower :
    LsmStorageState → List ℕ → ℕ → List ℕ → List ℕ → Option (LsmStorageState × List ℕ)
replace_lower s removed lower_level ids output = do
  files ← level_files s.levels lower_level
  assert (list_eq ids files)
  some (record s { levels = set_level_files s.levels lower_level output }, removed ++ files)

unfoldable pub apply_compaction_result :
    LsmStorageState → SimpleLeveledCompactionTask → List ℕ → Option (LsmStorageState × List ℕ)
unfolding clear_upper replace_lower
apply_compaction_result snapshot task output = do
  r ← clear_upper snapshot task.upper_level task.upper_level_sst_ids
  replace_lower r.0 r.1 task.lower_level task.lower_level_sst_ids output
