-- ===== src/Compact/Leveled/Recovery.antt =====
-- src/compact/leveled.cpp: the order of the lower level after a compaction and after its replay.
use mini_lsm_cpp.Prelude.{
  ℕ, ◌≡◌, sym, subst, ap, ◌∙◌, Bool, true, false, List, ◌++◌, Option, none, some, some-injective,
  arith, ltb, assert, >>=-eq-some, is_nil, refl, count, IsDistinct,
}
use mini_lsm_cpp.Prelude.Find
use mini_lsm_cpp.Key.Order.{key_lt_asym}
use mini_lsm_cpp.Table.{SsTable}
use mini_lsm_cpp.State.{LsmStorageState}
use mini_lsm_cpp.Compact.{LeveledCompactionTask}
use mini_lsm_cpp.Compact.TakeOut.{to_set, take_out}
use mini_lsm_cpp.Compact.Outside.{outside, take_out-outside}
use mini_lsm_cpp.Compact.Levels.{level_files, level_files-set_self, level_files-set_ne}
use mini_lsm_cpp.Compact.Leveled.{
  less, less_found, clear_upper, lower_files, replace_lower, apply_compaction_result,
}
use mini_lsm_cpp.Compact.Leveled.Sorting.{sort_by, Ascending, sort_by-Ascending, count-sort_by}

ltb_asym : (x y : ℕ) → ltb x y ≡ true → ltb y x ≡ false
ltb_asym x y h = ground arith

less_found_asym :
    (sx sy : Option SsTable) (x y : ℕ) → less_found sx sy x y ≡ true → less_found sy sx y x ≡ false
less_found_asym (some sx) (some sy) x y h = key_lt_asym sx.first_key sy.first_key h
less_found_asym (some sx) none x y h = ltb_asym x y h
less_found_asym none (some sy) x y h = ltb_asym x y h
less_found_asym none none x y h = ltb_asym x y h

less_asym :
    (tables : List (ℕ × SsTable)) (x y : ℕ) → less tables x y ≡ true → less tables y x ≡ false
unfolding less
less_asym tables x y h = less_found_asym (Find.find x tables) (Find.find y tables) x y h

-- Taking from another level, or from L0, leaves a level as it is.
clear_upper-apart :
    (s : LsmStorageState) (upper : Option ℕ) (ids : List ℕ) (level : ℕ) (t : LsmStorageState)
    → ¬ (upper ≡ some level)
    → clear_upper s upper ids ≡ some t
    → level_files t.levels level ≡ level_files s.levels level
unfolding clear_upper
clear_upper-apart s (some upper) ids level t apart h =
    let (files, e, h1) = >>=-eq-some (level_files s.levels upper) _ h in
    let kept = (take_out (to_set ids) files).0 in
    let (_, _, h2) = >>=-eq-some (assert (is_nil (take_out (to_set ids) files).1)) _ h1 in
    subst (λ (q : LsmStorageState). level_files q.levels level ≡ level_files s.levels level)
      (some-injective _ _ h2)
      (level_files-set_ne s.levels upper level kept (λ same. apart (ap some same)))
clear_upper-apart s none ids level t apart h =
    let (_, _, h2) = >>=-eq-some (assert (is_nil (take_out (to_set ids) s.l0_sstables).1)) _ h in
    subst (λ (q : LsmStorageState). level_files q.levels level ≡ level_files s.levels level)
      (some-injective _ _ h2) refl

module _ (s : LsmStorageState) (task : LeveledCompactionTask) (output : List ℕ) where
  abbrev kept_of : List ℕ → List ℕ
  kept_of files = (take_out (to_set task.lower_level_sst_ids) files).0

  -- The lower level of an applied task, from the files that the upper part left there.
  lower_of :
      (t : LsmStorageState) (in_recovery : Bool) (u : LsmStorageState)
      → replace_lower t s.sstables task.lower_level task.lower_level_sst_ids output in_recovery
        ≡ some u
      → (files : List ℕ) × (level_files t.levels task.lower_level ≡ some files)
        × (level_files u.levels task.lower_level
            ≡ some (lower_files s.sstables in_recovery (kept_of files ++ output)))
  unfolding replace_lower
  lower_of t in_recovery u h =
      let ids = task.lower_level_sst_ids in
      let (files, e, h1) = >>=-eq-some (level_files t.levels task.lower_level) _ h in
      let (_, _, h2) = >>=-eq-some (assert (is_nil (take_out (to_set ids) files).1)) _ h1 in
      (
        files,
        e,
        subst
            (λ (q : LsmStorageState).
              level_files q.levels task.lower_level
              ≡ some (lower_files s.sstables in_recovery (kept_of files ++ output)))
            (some-injective _ _ h2)
            (level_files-set_self t.levels task.lower_level
              (lower_files s.sstables in_recovery (kept_of files ++ output)) e),
      )

  -- One state before the lower level is replaced, for a run and for its replay.
  applied_lower :
      (t : LsmStorageState) (in_recovery : Bool) (r : LsmStorageState × List ℕ)
      → clear_upper s task.upper_level task.upper_level_sst_ids ≡ some t
      → apply_compaction_result s task output in_recovery ≡ some r
      → (files : List ℕ) × (level_files t.levels task.lower_level ≡ some files)
        × (level_files r.0.levels task.lower_level
            ≡ some (lower_files s.sstables in_recovery (kept_of files ++ output)))
  unfolding apply_compaction_result
  applied_lower t in_recovery r et h =
      let (t', et', h1) =
        >>=-eq-some (clear_upper s task.upper_level task.upper_level_sst_ids) _ h in
      let (u, eu, h2) =
        >>=-eq-some
          (replace_lower t' s.sstables task.lower_level task.lower_level_sst_ids output in_recovery)
          _ h1 in
      let same : t' ≡ t = some-injective _ _ (sym et' ∙ et) in
      let eu' =
        subst
          (λ (q : LsmStorageState).
            replace_lower q s.sstables task.lower_level task.lower_level_sst_ids output in_recovery
            ≡ some u)
          same eu in
      let (files, e, l) = lower_of t in_recovery u eu' in
      (
        files,
        e,
        subst
            (λ (q : LsmStorageState × List ℕ).
              level_files q.0.levels task.lower_level
              ≡ some (lower_files s.sstables in_recovery (kept_of files ++ output)))
            (some-injective _ _ h2) l,
      )

  cleared :
      (in_recovery : Bool) (r : LsmStorageState × List ℕ)
      → apply_compaction_result s task output in_recovery ≡ some r
      → (t : LsmStorageState) × (clear_upper s task.upper_level task.upper_level_sst_ids ≡ some t)
  unfolding apply_compaction_result
  cleared in_recovery r h =
      let (t, et, h1) = >>=-eq-some (clear_upper s task.upper_level task.upper_level_sst_ids) _ h in
      (t, et)

  -- The lower level of an applied task that does not take from it, from its files before.
  applied_from :
      (in_recovery : Bool) (files : List ℕ) (r : LsmStorageState × List ℕ)
      → ¬ (task.upper_level ≡ some task.lower_level)
      → level_files s.levels task.lower_level ≡ some files
      → apply_compaction_result s task output in_recovery ≡ some r
      → level_files r.0.levels task.lower_level
        ≡ some (lower_files s.sstables in_recovery (kept_of files ++ output))
  applied_from in_recovery files r apart e h =
      let (t, et) = cleared in_recovery r h in
      let (files', e', l) = applied_lower t in_recovery r et h in
      let kept =
        clear_upper-apart s task.upper_level task.upper_level_sst_ids task.lower_level t apart et in
      let same : files' ≡ files = some-injective _ _ (sym e' ∙ kept ∙ e) in
      l ∙ ap (λ fs. some (lower_files s.sstables in_recovery (kept_of fs ++ output))) same

  -- Where a leveled task, whose upper level is not its lower one, can be applied both when it
  -- runs and in recovery, and its lower level names no table twice: recovery leaves there the
  -- tables that the task does not name for that level, in their order, and behind them the
  -- output, in its order. The run leaves there the same tables, each as often, and none that is
  -- less, in the comparison of the sort, than the table in front of it.
  pub replay_order :
      (files : List ℕ) (live replayed : LsmStorageState × List ℕ)
      → ¬ (task.upper_level ≡ some task.lower_level)
      → level_files s.levels task.lower_level ≡ some files
      → IsDistinct files
      → apply_compaction_result s task output false ≡ some live
      → apply_compaction_result s task output true ≡ some replayed
      → let raw = outside task.lower_level_sst_ids files ++ output in
        (level_files replayed.0.levels task.lower_level ≡ some raw)
        × (sorted : List ℕ) × (level_files live.0.levels task.lower_level ≡ some sorted)
        × Ascending (less s.sstables) sorted
        × ((a : ℕ) → count a sorted ≡ count a raw)
  unfolding lower_files
  replay_order files live replayed apart e d h k =
      let lt = less s.sstables in
      let raw = outside task.lower_level_sst_ids files ++ output in
      let kept : kept_of files ++ output ≡ raw =
        ap (λ fs. fs ++ output) (take_out-outside task.lower_level_sst_ids files d) in
      (
        applied_from true files replayed apart e k ∙ ap (λ fs. some fs) kept,
        sort_by lt raw,
        applied_from false files live apart e h ∙ ap (λ fs. some (sort_by lt fs)) kept,
        sort_by-Ascending lt (less_asym s.sstables) raw,
        λ a. count-sort_by lt a raw,
      )
