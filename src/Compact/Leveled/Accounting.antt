-- ===== src/Compact/Leveled/Accounting.antt =====
-- src/compact/leveled.cpp, apply_compaction_result: where the tables are before and after it.
use mini_lsm_cpp.Prelude.{
  ℕ, ◌+◌, ◌≡◌, refl, subst, ap, Bool, true, false, List, ◌++◌, Option, none, some, some-injective,
  arith, assert, >>=-eq-some, assert-eq-some, count, count-append, count-nil, IsDistinct, is_nil,
  is_nil_sound,
}
use mini_lsm_cpp.Table.{SsTable}
use mini_lsm_cpp.State.{LsmStorageState}
use mini_lsm_cpp.Compact.{LeveledCompactionTask}
use mini_lsm_cpp.Compact.TakeOut.{to_set, take_out, count-take_out, count-to_set_distinct}
use mini_lsm_cpp.Compact.Levels.{level_files, all_files, count-set_level_files}
use mini_lsm_cpp.Compact.Leveled.{
  less, clear_upper, lower_files, replace_lower, apply_compaction_result,
}
use mini_lsm_cpp.Compact.Leveled.Sorting.{count-sort_by}

-- How often a table is in the state.
abbrev pub tables_in : ℕ → LsmStorageState → ℕ
tables_in a s = count a s.l0_sstables + count a (all_files s.levels)

-- What is taken out of a list whose set is used up is the set.
taken_count :
    (a : ℕ) (files ids : List ℕ)
    → IsDistinct ids
    → is_nil (take_out (to_set ids) files).1 ≡ true
    → count a files ≡ count a (take_out (to_set ids) files).0 + count a ids
taken_count a files ids d e = omega (
  arith,
  count-take_out a files (to_set ids),
  ap (count a) (is_nil_sound (take_out (to_set ids) files).1 e),
  count-nil a,
  count-to_set_distinct a ids d,
)

clear_upper-count :
    (a : ℕ) (s : LsmStorageState) (upper : Option ℕ) (ids : List ℕ) (t : LsmStorageState)
    → IsDistinct ids
    → clear_upper s upper ids ≡ some t
    → tables_in a t + count a ids ≡ tables_in a s
unfolding clear_upper
clear_upper-count a s (some level) ids t d h =
    let (files, e, h1) = >>=-eq-some (level_files s.levels level) _ h in
    let kept = (take_out (to_set ids) files).0 in
    let (_, used, h2) = >>=-eq-some (assert (is_nil (take_out (to_set ids) files).1)) _ h1 in
    subst (λ (q : LsmStorageState). tables_in a q + count a ids ≡ tables_in a s)
      (some-injective _ _ h2)
      (omega (
        arith,
        count-set_level_files a s.levels level kept e,
        taken_count a files ids d (assert-eq-some (is_nil (take_out (to_set ids) files).1) used),
      ))
clear_upper-count a s none ids t d h =
    let left = (take_out (to_set ids) s.l0_sstables).1 in
    let (_, used, h2) = >>=-eq-some (assert (is_nil left)) _ h in
    subst (λ (q : LsmStorageState). tables_in a q + count a ids ≡ tables_in a s)
      (some-injective _ _ h2)
      (omega (arith, taken_count a s.l0_sstables ids d (assert-eq-some (is_nil left) used)))

count-lower_files :
    (a : ℕ) (tables : List (ℕ × SsTable)) (in_recovery : Bool) (files : List ℕ)
    → count a (lower_files tables in_recovery files) ≡ count a files
unfolding lower_files
count-lower_files a tables true files = refl
count-lower_files a tables false files = count-sort_by (less tables) a files

replace_lower-count :
    (a : ℕ) (s : LsmStorageState) (tables : List (ℕ × SsTable)) (level : ℕ) (ids output : List ℕ)
    (in_recovery : Bool) (t : LsmStorageState)
    → IsDistinct ids
    → replace_lower s tables level ids output in_recovery ≡ some t
    → tables_in a t + count a ids ≡ tables_in a s + count a output
unfolding replace_lower
replace_lower-count a s tables level ids output in_recovery t d h =
    let (files, e, h1) = >>=-eq-some (level_files s.levels level) _ h in
    let kept = (take_out (to_set ids) files).0 in
    let (_, used, h2) = >>=-eq-some (assert (is_nil (take_out (to_set ids) files).1)) _ h1 in
    subst (λ (q : LsmStorageState). tables_in a q + count a ids ≡ tables_in a s + count a output)
      (some-injective _ _ h2)
      (omega (
        arith,
        count-set_level_files a s.levels level (lower_files tables in_recovery (kept ++ output)) e,
        count-lower_files a tables in_recovery (kept ++ output),
        count-append a kept output,
        taken_count a files ids d (assert-eq-some (is_nil (take_out (to_set ids) files).1) used),
      ))

-- Whenever a leveled task that names no table twice in a level is applied, in recovery or not,
-- the tables of the new state and the files to remove are, each as often, the old tables and the
-- output.
pub apply-count_leveled :
    (a : ℕ) (s : LsmStorageState) (task : LeveledCompactionTask) (output : List ℕ)
    (in_recovery : Bool) (r : LsmStorageState × List ℕ)
    → IsDistinct task.upper_level_sst_ids
    → IsDistinct task.lower_level_sst_ids
    → apply_compaction_result s task output in_recovery ≡ some r
    → tables_in a r.0 + count a r.1 ≡ tables_in a s + count a output
unfolding apply_compaction_result
apply-count_leveled a s task output in_recovery r du dl h =
    let upper = task.upper_level_sst_ids in
    let lower = task.lower_level_sst_ids in
    let (t, et, h1) = >>=-eq-some (clear_upper s task.upper_level upper) _ h in
    let (u, eu, h2) =
      >>=-eq-some (replace_lower t s.sstables task.lower_level lower output in_recovery) _ h1 in
    subst
      (λ (q : LsmStorageState × List ℕ).
        tables_in a q.0 + count a q.1 ≡ tables_in a s + count a output)
      (some-injective _ _ h2)
      (omega (
        arith,
        count-append a upper lower,
        clear_upper-count a s task.upper_level upper t du et,
        replace_lower-count a t s.sstables task.lower_level lower output in_recovery u dl eu,
      ))
