-- ===== src/Compact/Simple/Applies.antt =====
-- src/compact/simple_leveled.cpp: applying a task that the controller generated, also after flushes
-- have put new tables in front of L0 while the compaction ran.
use mini_lsm_cpp.Prelude.{
  ℕ, zero, suc, ◌+◌, ◌-◌, ◌≤◌, ◌<◌, ◌≡◌, refl, sym, ap, subst, ◌∙◌, ◌⊎◌, inl, inr, List, [], ◌∷◌,
  ◌++◌, map, none, some, some-injective, arith, >>=-eq-some, Bool-cases, length, leb, ◌==◌, count,
  IsDistinct, list_eq_refl, is_nil_nil, append-nil,
}
use mini_lsm_cpp.State.{LsmStorageState, Level, SimpleLeveledCompactionOptions}
use mini_lsm_cpp.Compact.{SimpleLeveledCompactionTask, Doubles}
use mini_lsm_cpp.Compact.TakeOut.{
  to_set, take_out, take_out-append, take_out_all, count-to_set_distinct,
}
use mini_lsm_cpp.Compact.Levels.{
  level_files, set_level_files, level_files-set_self, level_files-set_ne,
}
use mini_lsm_cpp.Compact.Simple.{
  first_files, level_task, ratio_loop, generate_compaction_task, clear_upper, replace_lower,
  apply_compaction_result,
}

-- What every generated task looks like: L0 into level 1, or a level into the next one, with the
-- tables that the snapshot has there.
abbrev pub FromL0 : LsmStorageState → SimpleLeveledCompactionTask → Type 0
FromL0 s task =
    (task.upper_level ≡ none)
    × (task.upper_level_sst_ids ≡ s.l0_sstables)
    × (task.lower_level ≡ 1)
    × (level_files s.levels 1 ≡ some task.lower_level_sst_ids)

abbrev pub FromLevel : LsmStorageState → SimpleLeveledCompactionTask → Type 0
FromLevel s task =
    (i : ℕ) × (task.upper_level ≡ some i)
    × (level_files s.levels i ≡ some task.upper_level_sst_ids)
    × (task.lower_level ≡ i + 1)
    × (level_files s.levels (i + 1) ≡ some task.lower_level_sst_ids)

first_level :
    (levels : List Level) → 0 < length levels → level_files levels 1 ≡ some (first_files levels)
unfolding level_files
first_level [] h = elim h [ ]
first_level ((n, files) ∷ levels) h = refl

module _ (d : Doubles) (options : SimpleLeveledCompactionOptions) where
  level_task_shape :
      (s : LsmStorageState) (i : ℕ) (task : SimpleLeveledCompactionTask)
      → level_task d options s.levels i ≡ some (some task)
      → FromLevel s task
  unfolding level_task
  level_task_shape s i task h =
      let (upper, eu, h1) = >>=-eq-some (level_files s.levels i) _ h in
      let (lower, el, h2) = >>=-eq-some (level_files s.levels (i + 1)) _ h1 in
      subst (FromLevel s) (some-injective _ _ (some-injective _ _ h2)) (i, refl, eu, refl, el)

  ratio_loop_cases :
      (levels : List Level) (sizes : List ℕ) (rounds i : ℕ)
      → (ratio_loop d options levels sizes (suc rounds) i
          ≡ ratio_loop d options levels sizes rounds (i + 1))
        ⊎ (ratio_loop d options levels sizes (suc rounds) i ≡ level_task d options levels i)
  unfolding ratio_loop
  ratio_loop_cases levels sizes rounds i = ground arith

  ratio_loop_shape :
      (s : LsmStorageState) (sizes : List ℕ) (rounds i : ℕ) (task : SimpleLeveledCompactionTask)
      → ratio_loop d options s.levels sizes rounds i ≡ some (some task)
      → FromLevel s task
  unfolding ratio_loop
  ratio_loop_shape s sizes zero i task h = cc
  ratio_loop_shape s sizes (suc rounds) i task h = elim (ratio_loop_cases s.levels sizes rounds i) [
    | inl e ↦ ratio_loop_shape s sizes rounds (i + 1) task (sym e ∙ h)
    | inr e ↦ level_task_shape s i task (sym e ∙ h)
  ]

  generate_shape :
      (s : LsmStorageState) (task : SimpleLeveledCompactionTask)
      → 0 < length s.levels
      → generate_compaction_task d options s ≡ some (some task)
      → FromL0 s task ⊎ FromLevel s task
  unfolding generate_compaction_task
  generate_shape s task e h = elim (Bool-cases (options.max_levels == 0)) [
    | inl z ↦ cc (rw z at h)
    | inr nz ↦
        elim (Bool-cases (leb options.level0_file_num_compaction_trigger (length s.l0_sstables))) [
          | inl full ↦ inl (
              subst (FromL0 s) (some-injective _ _ (some-injective _ _ (rw (nz, full) at h)))
                (refl, refl, refl, first_level s.levels e))
          | inr less ↦ inr (
              ratio_loop_shape s (length s.l0_sstables ∷ map (λ (l : Level). length l.1) s.levels)
                (options.max_levels - 1) 1 task (rw (nz, less) at h))
        ]
  ]

-- The state after a generated task: its tables left the upper level, the output is the lower one.
abbrev pub after_l0 : LsmStorageState → List ℕ → List ℕ → LsmStorageState
after_l0 s new output = record s { l0_sstables = new; levels = set_level_files s.levels 1 output }

abbrev pub after_level : LsmStorageState → ℕ → List ℕ → LsmStorageState
after_level s i output = record s {
  levels = set_level_files (set_level_files s.levels i []) (i + 1) output;
}

l0_taken :
    (s : LsmStorageState) (new ids : List ℕ)
    → IsDistinct ids
    → ((a : ℕ) → 1 ≤ count a new → count a ids ≡ 0)
    → s.l0_sstables ≡ new ++ ids
    → take_out (to_set ids) s.l0_sstables ≡ (new, [])
l0_taken s new ids d fresh el =
    let all = take_out_all ids (to_set ids) (λ a. count-to_set_distinct a ids d) in
    let front =
      take_out-append new ids (to_set ids) (λ a m. count-to_set_distinct a ids d ∙ fresh a m) in
    rw (el, front, all, append-nil new)

module _ (s : LsmStorageState) (task : SimpleLeveledCompactionTask) (new output : List ℕ) where
  -- The state that the task is applied to: what flushes have put in front of L0 since.
  abbrev pub flushed : LsmStorageState
  flushed = record s { l0_sstables = new ++ s.l0_sstables }

  apply_l0 :
      IsDistinct task.upper_level_sst_ids
      → ((a : ℕ) → 1 ≤ count a new → count a task.upper_level_sst_ids ≡ 0)
      → FromL0 s task
      → apply_compaction_result flushed task output
        ≡ some (after_l0 s new output, task.upper_level_sst_ids ++ task.lower_level_sst_ids)
  unfolding apply_compaction_result clear_upper replace_lower
  apply_l0 d fresh (eu, ei, el, ef) =
      let taken =
        l0_taken flushed new task.upper_level_sst_ids d fresh (ap (λ l. new ++ l) (sym ei)) in
      simp (eu, taken, is_nil_nil, el, ef, list_eq_refl)

  apply_level :
      (i : ℕ)
      → task.upper_level ≡ some i
      → level_files s.levels i ≡ some task.upper_level_sst_ids
      → task.lower_level ≡ i + 1
      → level_files s.levels (i + 1) ≡ some task.lower_level_sst_ids
      → apply_compaction_result flushed task output
        ≡ some (after_level flushed i output, task.upper_level_sst_ids ++ task.lower_level_sst_ids)
  unfolding apply_compaction_result clear_upper replace_lower
  apply_level i eu ef el eg =
      let other = level_files-set_ne s.levels i (i + 1) [] (λ e. absurd (omega (arith, e))) ∙ eg in
      simp (eu, ef, list_eq_refl, el, other)

  -- The result of an applied task: its files are to be removed, the lower level is the output, and
  -- L0 is what the flushes added, behind it the old L0 unless the task compacted that.
  pub record IsApplied (r : LsmStorageState × List ℕ) : Type 0 where
    pub removed : r.1 ≡ task.upper_level_sst_ids ++ task.lower_level_sst_ids
    pub lower : level_files r.0.levels task.lower_level ≡ some output
    pub l0 :
        r.0.l0_sstables ≡ (elim task.upper_level [ none ↦ new | some _ ↦ new ++ s.l0_sstables ])

  apply_l0-IsApplied :
      FromL0 s task
      → IsApplied (after_l0 s new output, task.upper_level_sst_ids ++ task.lower_level_sst_ids)
  apply_l0-IsApplied (eu, ei, el, ef) = record {
    removed = refl;
    lower = rw el (level_files-set_self s.levels 1 output ef);
    l0 = rw eu refl;
  }

  apply_level-IsApplied :
      (i : ℕ)
      → task.upper_level ≡ some i
      → task.lower_level ≡ i + 1
      → level_files s.levels (i + 1) ≡ some task.lower_level_sst_ids
      → IsApplied
          (after_level flushed i output, task.upper_level_sst_ids ++ task.lower_level_sst_ids)
  apply_level-IsApplied i eu el eg = record {
    removed = refl;
    lower = rw el (
        level_files-set_self (set_level_files s.levels i []) (i + 1) output
          (level_files-set_ne s.levels i (i + 1) [] (λ e. absurd (omega (arith, e))) ∙ eg));
    l0 = rw eu refl;
  }

  -- A task that the simple leveled controller generates from a state with at least one level and
  -- no table twice in L0 can be applied, with no failed assertion, to that state with newly
  -- flushed tables, none of them in L0 before, in front of its L0. The files to remove are then
  -- those of the task, the lower level is the output, and L0 has the new tables and, unless the
  -- task compacted them, the old ones.
  pub generate-apply :
      (d : Doubles) (options : SimpleLeveledCompactionOptions)
      → 0 < length s.levels
      → IsDistinct s.l0_sstables
      → ((a : ℕ) → 1 ≤ count a new → count a s.l0_sstables ≡ 0)
      → generate_compaction_task d options s ≡ some (some task)
      → (r : LsmStorageState × List ℕ) × (apply_compaction_result flushed task output ≡ some r)
        × IsApplied r
  generate-apply d options levels distinct fresh h =
      elim (generate_shape d options s task levels h) [
        | inl (eu, ei, el, ef) ↦ (
          _,
          apply_l0 (λ a. rw ei (distinct a)) (λ a m. rw ei (fresh a m)) (eu, ei, el, ef),
          apply_l0-IsApplied (eu, ei, el, ef),
        )
        | inr (i, eu, ef, el, eg) ↦ (_, apply_level i eu ef el eg, apply_level-IsApplied i eu el eg)
      ]
