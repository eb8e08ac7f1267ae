-- ===== src/Compact/Tests/TieredTests.antt =====
-- The first two of three tiers are compacted into one.
use mini_lsm_cpp.Prelude.{
  ℕ, ◌+◌, ◌≡◌, ◌≢◌, refl, true, false, List, [], ◌∷◌, none, some, count, is_nil, list_eq, take,
  arith,
}
use mini_lsm_cpp.Prelude.Find.{find, insert, remove}
use mini_lsm_cpp.State.{LsmStorageState, TieredCompactionOptions}
use mini_lsm_cpp.Compact.{TieredCompactionTask}
use mini_lsm_cpp.Compact.Levels.{all_files}
use mini_lsm_cpp.Compact.Tiered.{
  to_remove, sweep, last_level, space_amplified, upper_size, ratio_above, ratio_loop,
  generate_compaction_task, apply_compaction_result,
}
use mini_lsm_cpp.Compact.Tiered.Accounting.{apply-count_tiers}
use mini_lsm_cpp.Compact.Tiered.Bottom.{generate-bottom}
use mini_lsm_cpp.Compact.Tests.{fractions, state_of}

abbrev three_tiers : LsmStorageState
three_tiers = state_of [] ((1, 1 ∷ []) ∷ (2, 2 ∷ []) ∷ (3, 3 ∷ []) ∷ [])

abbrev task : TieredCompactionTask
task = record { tiers = (1, 1 ∷ []) ∷ (2, 2 ∷ []) ∷ []; bottom_tier_included = false }

abbrev after : LsmStorageState × List ℕ
after = (state_of [] ((5, 5 ∷ []) ∷ (3, 3 ∷ []) ∷ []), 1 ∷ 2 ∷ [])

applied : apply_compaction_result three_tiers task (5 ∷ []) ≡ some after
unfolding apply_compaction_result to_remove sweep find insert remove is_nil list_eq
applied = refl

apply-count_tiers_example :
    count 2 (all_files after.0.levels) + count 2 after.1
    ≡ count 2 (all_files three_tiers.levels) + count 2 (5 ∷ [])
apply-count_tiers_example =
    apply-count_tiers 2 three_tiers task (5 ∷ []) after (omega arith) applied

abbrev options : TieredCompactionOptions
options = record {
  num_tiers = 2;
  max_size_amplification_percent = 1000;
  size_ratio = 1000;
  min_merge_width = 2;
  max_merge_width = some 2;
}

no_l0 : is_nil three_tiers.l0_sstables ≡ true
unfolding is_nil
no_l0 = refl

oldest : last_level three_tiers.levels ≡ some (3, 3 ∷ [])
unfolding last_level
oldest = refl

small_above : space_amplified fractions options three_tiers.levels (3, 3 ∷ []) ≡ false
unfolding space_amplified upper_size
small_above = refl

no_ratio : ratio_loop fractions options three_tiers.levels 0 0 ≡ none
unfolding ratio_loop ratio_above
no_ratio = refl

generate-bottom_example :
    (t : TieredCompactionTask) × (generate_compaction_task fractions options three_tiers
      ≡ some (some t))
    × (t.bottom_tier_included ≡ true)
    × (t.tiers ≡ take 2 three_tiers.levels)
    × (t.tiers ≢ three_tiers.levels)
generate-bottom_example =
    generate-bottom fractions options three_tiers 2 (3, 3 ∷ []) refl (omega arith) (omega arith)
      no_l0 oldest small_above no_ratio
