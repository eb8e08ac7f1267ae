-- ===== src/Compact/Tests/FullTests.antt =====
-- A full compaction.
use mini_lsm_cpp.Prelude.{ℕ, ◌≡◌, List, [], ◌∷◌, some, false}
use mini_lsm_cpp.State.{LsmStorageState}
use mini_lsm_cpp.Compact.{force_full}
use mini_lsm_cpp.Compact.Controller.{of_none, apply_compaction_result, force_full_task}
use mini_lsm_cpp.Compact.Controller.FullCompaction.{IsFullyCompacted, force_full-IsFullyCompacted}
use mini_lsm_cpp.Compact.Tests.{before}

force_full-IsFullyCompacted_example :
    (r : LsmStorageState × List ℕ) × (apply_compaction_result of_none before
        (force_full (force_full_task before))
        (5 ∷ [])
        false
      ≡ some r)
    × IsFullyCompacted before (5 ∷ []) r
force_full-IsFullyCompacted_example = force_full-IsFullyCompacted of_none before (5 ∷ []) false
