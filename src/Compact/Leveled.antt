-- ===== src/Compact/Leveled.antt =====
-- src/compact/leveled.cpp
pub mod Generate
pub mod Sorting
pub mod Accounting
pub mod Recovery
use mini_lsm_cpp.Prelude.{
  ℕ, zero, suc, ◌+◌, Bool, true, false, not, ◌||◌, List, [], ◌∷◌, ◌++◌, Option, none, some, ◌>>=◌,
  ◌>>◌, assert, Bytes, length, ltb, ◌==◌, if◌then◌else◌, is_nil,
}
use mini_lsm_cpp.Prelude.Find
use mini_lsm_cpp.Key.{key_lt, key_gt}
use mini_lsm_cpp.Table.{SsTable}
use mini_lsm_cpp.State.{LsmStorageState}
use mini_lsm_cpp.Compact.{LeveledCompactionTask}
use mini_lsm_cpp.Compact.TakeOut.{to_set, take_out}
use mini_lsm_cpp.Compact.Levels.{level_files, set_level_files}
use Sorting.{sort_by}

-- The smallest first key and the largest last key of the tables that are known; `none` while
-- `first` holds.
unfoldable pub key_range :
    List (ℕ × SsTable) → Option (Bytes × Bytes) → List ℕ → Option (Bytes × Bytes)
key_range tables range [] = range
key_range tables range (id ∷ ids) =
    key_range tables
      (elim (Find.find id tables) [
        | none ↦ range
        | some sst ↦ elim range [
          | none ↦ some (sst.first_key, sst.last_key)
          | some (lo, hi) ↦ some (
            if key_lt sst.first_key lo then sst.first_key else lo,
            if key_gt sst.last_key hi then sst.last_key else hi,
          )
        ]
      ])
      ids

unfoldable pub overlaps : Bytes → Bytes → SsTable → Bool
overlaps lo hi sst = not (key_lt sst.last_key lo || key_gt sst.first_key hi)

-- The known tables of a level that overlap the range, in the level's order.
unfoldable pub overlapping : List (ℕ × SsTable) → Bytes → Bytes → List ℕ → List ℕ
overlapping tables lo hi [] = []
overlapping tables lo hi (id ∷ ids) =
    let rest = overlapping tables lo hi ids in
    elim (Find.find id tables) [
      | none ↦ rest
      | some sst ↦ if overlaps lo hi sst then id ∷ rest else rest
    ]

unfoldable pub find_overlapping_ssts : LsmStorageState → List ℕ → ℕ → List ℕ
unfolding key_range overlapping
find_overlapping_ssts snapshot sst_ids in_level = elim (key_range snapshot.sstables none sst_ids) [
  | none ↦ []
  | some (lo, hi) ↦ elim (level_files snapshot.levels in_level) [
    | none ↦ []
    | some files ↦ overlapping snapshot.sstables lo hi files
  ]
]

-- The comparator of the sort: by first keys where both tables are known, or else by identifiers.
abbrev pub less_found : Option SsTable → Option SsTable → ℕ → ℕ → Bool
less_found (some sx) (some sy) x y = key_lt sx.first_key sy.first_key
less_found (some sx) none x y = ltb x y
less_found none sy x y = ltb x y

unfoldable pub less : List (ℕ × SsTable) → ℕ → ℕ → Bool
less tables x y = less_found (Find.find x tables) (Find.find y tables) x y

-- The compacted tables leave the upper level, or L0.
unfoldable pub clear_upper : LsmStorageState → Option ℕ → List ℕ → Option LsmStorageState
clear_upper s (some upper_level) ids = do
  files ← level_files s.levels upper_level
  assert (is_nil (take_out (to_set ids) files).1)
  some (record s { levels = set_level_files s.levels upper_level (take_out (to_set ids) files).0 })
clear_upper s none ids = do
  assert (is_nil (take_out (to_set ids) s.l0_sstables).1)
  some (record s { l0_sstables = (take_out (to_set ids) s.l0_sstables).0 })

-- The rest of the lower level and the output, sorted unless in recovery.
unfoldable pub lower_files : List (ℕ × SsTable) → Bool → List ℕ → List ℕ
lower_files tables in_recovery files = if in_recovery then files else sort_by (less tables) files

unfoldable pub replace_lower :
    LsmStorageState → List (ℕ × SsTable) → ℕ → List ℕ → List ℕ → Bool → Option LsmStorageState
unfolding lower_files
replace_lower s tables lower_level ids output in_recovery = do
  files ← level_files s.levels lower_level
  assert (is_nil (take_out (to_set ids) files).1)
  some (record s {
    levels =
        set_level_files s.levels lower_level
          (lower_files tables in_recovery ((take_out (to_set ids) files).0 ++ output));
  })

unfoldable pub apply_compaction_result :
    LsmStorageState → LeveledCompactionTask → List ℕ → Bool → Option (LsmStorageState × List ℕ)
unfolding clear_upper replace_lower
apply_compaction_result snapshot task output in_recovery = do
  s ← clear_upper snapshot task.upper_level task.upper_level_sst_ids
  t ← replace_lower s snapshot.sstables task.lower_level task.lower_level_sst_ids output in_recovery
  some (t, task.upper_level_sst_ids ++ task.lower_level_sst_ids)
