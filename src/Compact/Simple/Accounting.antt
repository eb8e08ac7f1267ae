-- ===== src/Compact/Simple/Accounting.antt =====
-- src/compact/simple_leveled.cpp, apply_compaction_result: where the tables are before and after it.
use mini_lsm_cpp.Prelude.{
  ℕ, ◌+◌, ◌≡◌, subst, ap, List, [], Option, none, some, some-injective, arith, assert, >>=-eq-some,
  assert-eq-some, count, count-append, count-nil, IsDistinct, list_eq, is_nil, is_nil_sound,
}
use mini_lsm_cpp.State.{LsmStorageState}
use mini_lsm_cpp.Compact.{SimpleLeveledCompactionTask}
use mini_lsm_cpp.Compact.TakeOut.{to_set, take_out, count-take_out, count-to_set_distinct}
use mini_lsm_cpp.Compact.Levels.{level_files, all_files, count-set_level_files}
use mini_lsm_cpp.Compact.Simple.{clear_upper, replace_lower, apply_compaction_result}

-- How often a table is in the state.
abbrev pub count_in : ℕ → LsmStorageState → ℕ
count_in a s = count a s.l0_sstables + count a (all_files s.levels)

clear_upper-count :
    (a : ℕ) (s : LsmStorageState) (upper : Option ℕ) (ids : List ℕ) (r : LsmStorageState × List ℕ)
    → IsDistinct ids
    → clear_upper s upper ids ≡ some r
    → count_in a r.0 + count a r.1 ≡ count_in a s
unfolding clear_upper
clear_upper-count a s (some level) ids r d h =
    let (files, e, h1) = >>=-eq-some (level_files s.levels level) _ h in
    let (_, _, h2) = >>=-eq-some (assert (list_eq ids files)) _ h1 in
    subst (λ (q : LsmStorageState × List ℕ). count_in a q.0 + count a q.1 ≡ count_in a s)
      (some-injective _ _ h2)
      (omega (arith, count-set_level_files a s.levels level [] e, count-nil a))
clear_upper-count a s none ids r d h =
    let left = (take_out (to_set ids) s.l0_sstables).1 in
    let (_, ha, h2) = >>=-eq-some (assert (is_nil left)) _ h in
    subst (λ (q : LsmStorageState × List ℕ). count_in a q.0 + count a q.1 ≡ count_in a s)
      (some-injective _ _ h2)
      (omega (
        arith,
        count-take_out a s.l0_sstables (to_set ids),
        ap (count a) (is_nil_sound left (assert-eq-some (is_nil left) ha)),
        count-nil a,
        count-to_set_distinct a ids d,
      ))

replace_lower-count :
    (a : ℕ) (s : LsmStorageState) (removed : List ℕ) (level : ℕ) (ids output : List ℕ)
    (r : LsmStorageState × List ℕ)
    → replace_lower s removed level ids output ≡ some r
    → count_in a r.0 + count a r.1 ≡ count_in a s + count a removed + count a output
unfolding replace_lower
replace_lower-count a s removed level ids output r h =
    let (files, e, h1) = >>=-eq-some (level_files s.levels level) _ h in
    let (_, _, h2) = >>=-eq-some (assert (list_eq ids files)) _ h1 in
    subst
      (λ (q : LsmStorageState × List ℕ).
        count_in a q.0 + count a q.1 ≡ count_in a s + count a removed + count a output)
      (some-injective _ _ h2)
      (omega (arith, count-set_level_files a s.levels level output e, count-append a removed files))

-- Whenever a simple leveled task with no table twice in its upper level is applied, the tables
-- of the new state and the files to remove are, each as often, the tables of the old state and
-- the output.
pub apply-count :
    (a : ℕ) (s : LsmStorageState) (task : SimpleLeveledCompactionTask) (output : List ℕ)
    (r : LsmStorageState × List ℕ)
    → IsDistinct task.upper_level_sst_ids
    → apply_compaction_result s task output ≡ some r
    → count_in a r.0 + count a r.1 ≡ count_in a s + count a output
unfolding apply_compaction_result
apply-count a s task output r d h =
    let (q, e, h1) = >>=-eq-some (clear_upper s task.upper_level task.upper_level_sst_ids) _ h in
    omega (
      arith,
      clear_upper-count a s task.upper_level task.upper_level_sst_ids q d e,
      replace_lower-count a q.0 q.1 task.lower_level task.lower_level_sst_ids output r h1,
    )
