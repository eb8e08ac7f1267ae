-- ===== src/Compact/Leveled/Generate.antt =====
-- LeveledCompactionController::generate_compaction_task. The doubles of the priorities are a
-- parameter; a division by a level_size_multiplier of zero is `none`.
pub mod Bounds
use mini_lsm_cpp.Prelude.{
  ℕ, zero, suc, ◌+◌, ◌*◌, ◌/◌, max, min, Bool, true, List, [], ◌∷◌, Option, none, some, ◌>>=◌, u64,
  length, ltb, leb, ◌==◌, if◌then◌else◌,
}
use mini_lsm_cpp.Prelude.Find
use mini_lsm_cpp.Table.{SsTable, table_size}
use mini_lsm_cpp.State.{LsmStorageState, Level, LeveledCompactionOptions}
use mini_lsm_cpp.Compact.{LeveledCompactionTask, Doubles}
use mini_lsm_cpp.Compact.Leveled.{find_overlapping_ssts}
use mini_lsm_cpp.Compact.Levels.{level_files}

-- `none` is a division by zero, `some none` is nullopt.
abbrev pub Chosen : Type 0
Chosen = Option (Option LeveledCompactionTask)

unfoldable pub sum_bytes : List (ℕ × SsTable) → ℕ → List ℕ → ℕ
sum_bytes tables acc [] = acc
sum_bytes tables acc (id ∷ ids) =
    sum_bytes tables
      (elim (Find.find id tables) [ none ↦ acc | some sst ↦ u64 (acc + table_size sst) ]) ids

-- real_level_size: one size for each of the `max_levels` levels, 0 where the state has none.
unfoldable pub real_sizes : List (ℕ × SsTable) → ℕ → List Level → List ℕ
real_sizes tables zero levels = []
real_sizes tables (suc n) [] = 0 ∷ real_sizes tables n []
real_sizes tables (suc n) (l ∷ levels) = sum_bytes tables 0 l.1 ∷ real_sizes tables n levels

unfoldable pub base_level_size_bytes : LeveledCompactionOptions → ℕ
base_level_size_bytes options = u64 (options.base_level_size_mb * 1024 * 1024)

-- The target sizes and the base level that the loop from the last level down has found.
pub record Targets : Type 0 where
  pub sizes : List ℕ
  pub base_level : ℕ

abbrev next_size : List ℕ → ℕ
next_size [] = 0
next_size (t ∷ ts) = t

module _ (options : LeveledCompactionOptions) where
  -- One round of the loop, for the level of index `i`, over what is above it.
  unfoldable pub target_round : ℕ → Targets → Targets
  target_round i above =
      let next = next_size above.sizes in
      let this =
        if ltb (base_level_size_bytes options) next
        then next / options.level_size_multiplier
        else 0 in
      record {
        sizes = this ∷ above.sizes;
        base_level = if ltb 0 this then i + 1 else above.base_level;
      }

  -- The levels of index `i` and above.
  unfoldable pub targets : ℕ → List ℕ → Option Targets
  targets i [] = some (record { sizes = []; base_level = options.max_levels })
  targets i (r ∷ []) = some (record {
    sizes = max r (base_level_size_bytes options) ∷ [];
    base_level = options.max_levels;
  })
  targets i (r ∷ s ∷ reals) = do
    above ← targets (i + 1) (s ∷ reals)
    if options.level_size_multiplier == 0 then none else some (target_round i above)

module _ (d : Doubles) where
  open d use {Double}

  -- real / target, where it is above 1.0.
  priority : ℕ → ℕ → Option Double
  priority real target =
      let prio = d.div (d.of_size real) (d.of_size target) in
      if ltb 0 target then (if d.lt (d.of_size 1) prio then some prio else none) else none

  -- Whether `a` is sorted in front of `b`, a later level.
  abbrev in_front : Double → Double → Bool
  in_front a b = if d.eq a b then true else d.lt b a

  abbrev better : Double × ℕ → Option (Double × ℕ) → Double × ℕ
  better p none = p
  better p (some q) = if in_front p.0 q.0 then p else q

  -- The front of the sorted priorities: the highest, and of equal ones the lowest level.
  pub best_priority : ℕ → List ℕ → List ℕ → Option (Double × ℕ)
  best_priority level [] ts = none
  best_priority level (r ∷ rs) [] = none
  best_priority level (r ∷ rs) (t ∷ ts) =
      let rest = best_priority (level + 1) rs ts in
      elim (priority r t) [ none ↦ rest | some p ↦ some (better (p, level + 1) rest) ]

-- *std::min_element of a level, `none` where it is empty.
pub min_element : List ℕ → Option ℕ
min_element [] = none
min_element (x ∷ xs) = elim (min_element xs) [ none ↦ some x | some y ↦ some (min x y) ]

module _ (d : Doubles) (options : LeveledCompactionOptions) where
  unfoldable pub l0_task : LsmStorageState → ℕ → LeveledCompactionTask
  l0_task snapshot base_level = record {
    upper_level = none;
    upper_level_sst_ids = snapshot.l0_sstables;
    lower_level = base_level;
    lower_level_sst_ids = find_overlapping_ssts snapshot snapshot.l0_sstables base_level;
    is_lower_level_bottom_level = base_level == options.max_levels;
  }

  pub level_task : LsmStorageState → ℕ → ℕ → LeveledCompactionTask
  level_task snapshot level selected_sst = record {
    upper_level = some level;
    upper_level_sst_ids = selected_sst ∷ [];
    lower_level = level + 1;
    lower_level_sst_ids = find_overlapping_ssts snapshot (selected_sst ∷ []) (level + 1);
    is_lower_level_bottom_level = level + 1 == options.max_levels;
  }

  -- The level of the best priority, if the state has it and it is not empty.
  pub choose_level : LsmStorageState → ℕ → Option LeveledCompactionTask
  choose_level snapshot level = do
    files ← level_files snapshot.levels level
    selected_sst ← min_element files
    some (level_task snapshot level selected_sst)

  abbrev by_priority : LsmStorageState → Option (d.Double × ℕ) → Option LeveledCompactionTask
  by_priority snapshot none = none
  by_priority snapshot (some p) = choose_level snapshot p.1

  unfoldable pub generate_compaction_task : LsmStorageState → Chosen
  generate_compaction_task snapshot = do
    let reals = real_sizes snapshot.sstables options.max_levels snapshot.levels
    t ← targets options 0 reals
    some (
        if leb options.level0_file_num_compaction_trigger (length snapshot.l0_sstables)
        then some (l0_task snapshot t.base_level)
        else by_priority snapshot (best_priority d 0 reals t.sizes))
