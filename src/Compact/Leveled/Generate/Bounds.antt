-- ===== src/Compact/Leveled/Generate/Bounds.antt =====
-- src/compact/leveled.cpp: the levels and tables that a generated task names.
use mini_lsm_cpp.Prelude.{
  ℕ, zero, suc, ◌+◌, ◌≤◌, ◌<◌, ◌≡◌, ◌⊎◌, inl, inr, refl, sym, subst, ap, ◌∙◌, List, [], ◌∷◌, Option,
  none, some, some-injective, min, arith, >>=-eq-some, Bool-cases, length, leb, ◌==◌, count,
  count_self, count-cons, Option-cases,
}
use mini_lsm_cpp.Table.{SsTable}
use mini_lsm_cpp.State.{LsmStorageState, Level, LeveledCompactionOptions}
use mini_lsm_cpp.Compact.{LeveledCompactionTask, Doubles}
use mini_lsm_cpp.Compact.Levels.{level_files}
use mini_lsm_cpp.Compact.Leveled.Generate.{
  Targets, real_sizes, target_round, targets, best_priority, min_element, l0_task, level_task,
  choose_level, by_priority, generate_compaction_task,
}

length-real_sizes :
    (tables : List (ℕ × SsTable)) (n : ℕ) (levels : List Level)
    → length (real_sizes tables n levels) ≡ n
unfolding real_sizes
length-real_sizes tables zero levels = refl
length-real_sizes tables (suc n) [] = ap suc (length-real_sizes tables n [])
length-real_sizes tables (suc n) (l ∷ levels) = ap suc (length-real_sizes tables n levels)

module _ (options : LeveledCompactionOptions) where
  target_round_bounds :
      (i m : ℕ) (above : Targets)
      → i + 1 ≤ above.base_level
      → above.base_level ≤ m
      → (i + 1 ≤ (target_round options i above).base_level)
        × ((target_round options i above).base_level ≤ m)
  unfolding target_round
  target_round_bounds i m above lo hi = ground arith

  targets_bounds :
      (i : ℕ) (reals : List ℕ) (t : Targets)
      → i + length reals ≡ options.max_levels
      → 0 < length reals
      → targets options i reals ≡ some t
      → (i + 1 ≤ t.base_level) × (t.base_level ≤ options.max_levels)
  unfolding targets
  targets_bounds i [] t e h k = elim h [ ]
  targets_bounds i (r ∷ []) t e h k =
      subst (λ (q : Targets). (i + 1 ≤ q.base_level) × (q.base_level ≤ options.max_levels))
        (some-injective _ _ k) (omega arith, omega arith)
  targets_bounds i (r ∷ s ∷ reals) t e h k =
      let (above, ea, k1) = >>=-eq-some (targets options (i + 1) (s ∷ reals)) _ k in
      let (lo, hi) = targets_bounds (i + 1) (s ∷ reals) above (omega arith) (omega arith) ea in
      elim (Bool-cases (options.level_size_multiplier == 0)) [
        | inl z ↦ cc (rw z at k1)
        | inr nz ↦
            subst (λ (q : Targets). (i + 1 ≤ q.base_level) × (q.base_level ≤ options.max_levels))
              (some-injective _ _ (rw nz at k1))
              (target_round_bounds i options.max_levels above (omega arith) hi)
      ]

min_cases : (x y : ℕ) → (min x y ≡ x) ⊎ (min x y ≡ y)
min_cases x y = omega arith

min_element_mem : (xs : List ℕ) (m : ℕ) → min_element xs ≡ some m → 1 ≤ count m xs
unfolding min_element
min_element_mem [] m h = cc
min_element_mem (x ∷ xs) m h = elim (Option-cases (min_element xs)) [
  | inl e ↦
      let x-m = some-injective _ _ (rw e at h) in
      subst (λ (q : ℕ). 1 ≤ count q (x ∷ xs)) x-m (rw (count_self x xs) (omega arith))
  | inr (y, e) ↦
      let in_rest = min_element_mem xs y e in
      let xy-m = some-injective _ _ (rw e at h) in
      elim (min_cases x y) [
        | inl left ↦
            subst (λ (q : ℕ). 1 ≤ count q (x ∷ xs)) (sym left ∙ xy-m)
              (rw (count_self x xs) (omega arith))
        | inr right ↦
            subst (λ (q : ℕ). 1 ≤ count q (x ∷ xs)) (sym right ∙ xy-m)
              (rw (count-cons y x xs) (omega arith))
      ]
]

-- L0 goes into a level that exists; a level gives one of its own tables to the next level. The
-- bottom flag tells whether the lower level is the last one.
pub record IsWithin (options : LeveledCompactionOptions) (s : LsmStorageState)
    (task : LeveledCompactionTask) : Type 0 where
  pub bottom : task.is_lower_level_bottom_level ≡ (task.lower_level == options.max_levels)
  pub levels :
      ((task.upper_level ≡ none)
        × (task.upper_level_sst_ids ≡ s.l0_sstables)
        × (1 ≤ task.lower_level)
        × (task.lower_level ≤ options.max_levels))
      ⊎ ((level : ℕ) × (id : ℕ) × (files : List ℕ) × (task.upper_level ≡ some level)
          × (task.upper_level_sst_ids ≡ id ∷ [])
          × (level_files s.levels level ≡ some files)
          × (1 ≤ count id files)
          × (task.lower_level ≡ level + 1))

level_task-IsWithin :
    (d : Doubles) (options : LeveledCompactionOptions) (s : LsmStorageState) (level : ℕ)
    (files : List ℕ) (id : ℕ)
    → level_files s.levels level ≡ some files
    → 1 ≤ count id files
    → IsWithin options s (level_task d options s level id)
unfolding level_task
level_task-IsWithin d options s level files id ef m = record {
  bottom = refl;
  levels = inr (level, id, files, refl, refl, ef, m, refl);
}

l0_task-IsWithin :
    (d : Doubles) (options : LeveledCompactionOptions) (s : LsmStorageState) (base_level : ℕ)
    → 1 ≤ base_level
    → base_level ≤ options.max_levels
    → IsWithin options s (l0_task d options s base_level)
unfolding l0_task
l0_task-IsWithin d options s base_level lo hi = record {
  bottom = refl;
  levels = inl (refl, refl, lo, hi);
}

choose_level-IsWithin :
    (d : Doubles) (options : LeveledCompactionOptions) (s : LsmStorageState) (level : ℕ)
    (task : LeveledCompactionTask)
    → choose_level d options s level ≡ some task
    → IsWithin options s task
unfolding choose_level
choose_level-IsWithin d options s level task h =
    let (files, ef, h1) = >>=-eq-some (level_files s.levels level) _ h in
    let (id, ei, h2) = >>=-eq-some (min_element files) _ h1 in
    subst (λ (q : LeveledCompactionTask). IsWithin options s q) (some-injective _ _ h2)
      (level_task-IsWithin d options s level files id ef (min_element_mem files id ei))

module _ (d : Doubles) (options : LeveledCompactionOptions) (s : LsmStorageState) where
  by_priority-IsWithin :
      (best : Option (d.Double × ℕ)) (task : LeveledCompactionTask)
      → by_priority d options s best ≡ some task
      → IsWithin options s task
  by_priority-IsWithin none task h = cc
  by_priority-IsWithin (some p) task h = choose_level-IsWithin d options s p.1 task h

  -- With at least one level, every task that the leveled controller generates takes all of L0 to
  -- a level between 1 and max_levels, or takes one table that is in a level of the state to the
  -- level below it; its bottom flag says whether the lower level is max_levels.
  pub generate-IsWithin :
      (task : LeveledCompactionTask)
      → 0 < options.max_levels
      → generate_compaction_task d options s ≡ some (some task)
      → IsWithin options s task
  unfolding generate_compaction_task
  generate-IsWithin task k h =
      let reals = real_sizes s.sstables options.max_levels s.levels in
      let size = length-real_sizes s.sstables options.max_levels s.levels in
      let (t, et, h1) = >>=-eq-some (targets options 0 reals) _ h in
      let (lo, hi) =
        targets_bounds options 0 reals t (omega arith) (subst (λ (q : ℕ). 0 < q) (sym size) k) et in
      let h2 = some-injective _ _ h1 in
      elim (Bool-cases (leb options.level0_file_num_compaction_trigger (length s.l0_sstables))) [
        | inl full ↦
            subst (λ (q : LeveledCompactionTask). IsWithin options s q)
              (some-injective _ _ (rw full at h2)) (l0_task-IsWithin d options s t.base_level lo hi)
        | inr calm ↦ by_priority-IsWithin (best_priority d 0 reals t.sizes) task (rw calm at h2)
      ]
