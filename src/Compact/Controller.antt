-- ===== src/Compact/Controller.antt =====
-- include/mini_lsm/compact.h and src/compact.cpp, CompactionController: the controller that the
-- options ask for, its dispatch by the kind of a task, and the full compaction that is applied here.
-- An exception is `none`. A task of another controller's kind makes std::get throw.
pub mod FullCompaction
use mini_lsm_cpp.Prelude.{
  ℕ, Bool, true, false, List, [], ◌∷◌, ◌++◌, Option, none, some, ◌>>=◌, if◌then◌else◌, contains,
}
use mini_lsm_cpp.Prelude.Find
use mini_lsm_cpp.Table.{SsTable}
use mini_lsm_cpp.State.{
  CompactionOptions, LeveledCompactionOptions, TieredCompactionOptions,
  SimpleLeveledCompactionOptions, LsmStorageState, Level,
}
use mini_lsm_cpp.Compact.{
  CompactionTask, leveled, tiered, simple, force_full, ForceFullCompactionTask, Doubles,
}
use mini_lsm_cpp.Compact.Simple
use mini_lsm_cpp.Compact.Tiered
use mini_lsm_cpp.Compact.Leveled
use mini_lsm_cpp.Compact.Leveled.Generate

-- The type tag and its variant. A controller holds nothing but its options.
pub data CompactionController : Type 0 where
  of_leveled : LeveledCompactionOptions → CompactionController
  of_tiered : TieredCompactionOptions → CompactionController
  of_simple : SimpleLeveledCompactionOptions → CompactionController
  of_none : CompactionController

unfoldable pub create : CompactionOptions → CompactionController
create (CompactionOptions.leveled options) = of_leveled options
create (CompactionOptions.tiered options) = of_tiered options
create (CompactionOptions.simple options) = of_simple options
create CompactionOptions.no_compaction = of_none

-- `none` is a fault, `some none` is nullopt.
abbrev pub Chosen : Type 0
Chosen = Option (Option CompactionTask)

-- if (t) return wrap(*t); return nullopt
abbrev pub wrap {ℓ} : {T : Type ℓ} → (T → CompactionTask) → Option (Option T) → Chosen
wrap f none = none
wrap f (some none) = some none
wrap f (some (some t)) = some (some (f t))

unfoldable pub generate_compaction_task : Doubles → CompactionController → LsmStorageState → Chosen
generate_compaction_task d (of_leveled options) snapshot =
    wrap leveled (Generate.generate_compaction_task d options snapshot)
generate_compaction_task d (of_tiered options) snapshot =
    wrap tiered (Tiered.generate_compaction_task d options snapshot)
generate_compaction_task d (of_simple options) snapshot =
    wrap simple (Simple.generate_compaction_task d options snapshot)
generate_compaction_task d of_none snapshot = some none

-- for (id : ids) sstables.erase(id)
unfoldable pub erase_all : List ℕ → List (ℕ × SsTable) → List (ℕ × SsTable)
erase_all [] tables = tables
erase_all (id ∷ ids) tables = erase_all ids (Find.remove id tables)

-- The tables of L0 that the task does not name.
unfoldable pub new_l0 : List ℕ → List ℕ → List ℕ
new_l0 used [] = []
new_l0 used (x ∷ xs) = let rest = new_l0 used xs in if contains x used then rest else x ∷ rest

unfoldable pub replace_first_level : List Level → List ℕ → List Level
replace_first_level [] output = (1, output) ∷ []
replace_first_level ((n, files) ∷ levels) output = (n, output) ∷ levels

unfoldable pub apply_force_full :
    LsmStorageState → ForceFullCompactionTask → List ℕ → LsmStorageState × List ℕ
unfolding erase_all new_l0 replace_first_level
apply_force_full snapshot fft output = (
  record snapshot {
    sstables = erase_all fft.l1_sstables (erase_all fft.l0_sstables snapshot.sstables);
    levels = replace_first_level snapshot.levels output;
    l0_sstables = new_l0 fft.l0_sstables snapshot.l0_sstables;
  },
  fft.l0_sstables ++ fft.l1_sstables,
)

unfoldable pub apply_compaction_result :
    CompactionController
    → LsmStorageState
    → CompactionTask
    → List ℕ
    → Bool
    → Option (LsmStorageState × List ℕ)
unfolding apply_force_full
apply_compaction_result c snapshot (force_full fft) output in_recovery =
    some (apply_force_full snapshot fft output)
apply_compaction_result (of_leveled options) snapshot (leveled t) output in_recovery =
    Leveled.apply_compaction_result snapshot t output in_recovery
apply_compaction_result (of_tiered options) snapshot (tiered t) output in_recovery =
    Tiered.apply_compaction_result snapshot t output
apply_compaction_result (of_simple options) snapshot (simple t) output in_recovery =
    Simple.apply_compaction_result snapshot t output
apply_compaction_result _ snapshot _ output in_recovery = none

unfoldable pub flush_to_l0 : CompactionController → Bool
flush_to_l0 (of_leveled _) = true
flush_to_l0 (of_tiered _) = false
flush_to_l0 (of_simple _) = true
flush_to_l0 of_none = true

-- The task of force_full_compaction: all of L0 and of the first level.
unfoldable pub force_full_task : LsmStorageState → ForceFullCompactionTask
force_full_task snapshot = record {
  l0_sstables = snapshot.l0_sstables;
  l1_sstables = Simple.first_files snapshot.levels;
}
