-- ===== src/Compact/Controller/FullCompaction.antt =====
-- src/compact.cpp: applying a full compaction.
use mini_lsm_cpp.Prelude.{
  ℕ, Bool, true, List, [], ◌∷◌, ◌++◌, none, some, ◌≡◌, refl, arith, contains, contains-nil,
  contains-cons, contains-append, contains_of_count, count, count_self, count-cons, ◌≤◌,
  if◌then◌else◌,
}
use mini_lsm_cpp.Prelude.Find
use mini_lsm_cpp.Table.{SsTable}
use mini_lsm_cpp.State.{LsmStorageState, Level}
use mini_lsm_cpp.Compact.{force_full}
use mini_lsm_cpp.Compact.Simple.{first_files}
use mini_lsm_cpp.Compact.Levels.{level_files}
use mini_lsm_cpp.Compact.Controller.{
  CompactionController, erase_all, new_l0, replace_first_level, apply_force_full,
  apply_compaction_result, force_full_task,
}

find-erase_all :
    (a : ℕ) (ids : List ℕ) (tables : List (ℕ × SsTable))
    → Find.find a (erase_all ids tables) ≡ (if contains a ids then none else Find.find a tables)
unfolding erase_all
find-erase_all a [] tables = ground (arith, contains-nil a)
find-erase_all a (id ∷ ids) tables = ground (
  arith,
  contains-cons a id ids,
  find-erase_all a ids (Find.remove id tables),
  Find.find-remove id a tables,
)

new_l0_all :
    (used xs : List ℕ) → ((a : ℕ) → 1 ≤ count a xs → contains a used ≡ true) → new_l0 used xs ≡ []
unfolding new_l0
new_l0_all used [] all = refl
new_l0_all used (x ∷ xs) all =
    let here = all x (rw (count_self x xs) (omega arith)) in
    let rest = new_l0_all used xs (λ a h. all a (rw (count-cons a x xs) (ground arith))) in
    rw here rest

first-replace :
    (levels : List Level) (output : List ℕ)
    → level_files (replace_first_level levels output) 1 ≡ some output
unfolding level_files replace_first_level
first-replace [] output = refl
first-replace ((n, files) ∷ levels) output = refl

-- After a full compaction L0 is empty, level 1 is the output, and of the known tables just those
-- of the old L0 and level 1 are gone, which are also the files to remove.
pub record IsFullyCompacted (s : LsmStorageState) (output : List ℕ) (r : LsmStorageState × List ℕ)
    : Type 0 where
  pub l0 : r.0.l0_sstables ≡ []
  pub first : level_files r.0.levels 1 ≡ some output
  pub removed : r.1 ≡ s.l0_sstables ++ first_files s.levels
  pub tables :
      (id : ℕ)
      → Find.find id r.0.sstables ≡ (if contains id r.1 then none else Find.find id s.sstables)

-- The result of the task of a full compaction, in the state it was made from and whatever the
-- controller, exists; in it L0 is empty, level 1 is the output, the files to remove are the old
-- L0 and level 1, and just these are gone from the known tables.
pub force_full-IsFullyCompacted :
    (c : CompactionController) (s : LsmStorageState) (output : List ℕ) (in_recovery : Bool)
    → (r : LsmStorageState × List ℕ) × (apply_compaction_result c s
          (force_full (force_full_task s))
          output
          in_recovery
        ≡ some r)
      × IsFullyCompacted s output r
unfolding apply_compaction_result apply_force_full force_full_task
force_full-IsFullyCompacted c s output in_recovery = (
  apply_force_full s (force_full_task s) output,
  refl,
  record {
    l0 = new_l0_all s.l0_sstables s.l0_sstables (λ a h. contains_of_count a s.l0_sstables h);
    first = first-replace s.levels output;
    removed = refl;
    tables = λ id. ground (
      arith,
      contains-append id s.l0_sstables (first_files s.levels),
      find-erase_all id (first_files s.levels) (erase_all s.l0_sstables s.sstables),
      find-erase_all id s.l0_sstables s.sstables,
    );
  },
)
