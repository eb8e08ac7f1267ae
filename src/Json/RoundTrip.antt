-- ===== src/Json/RoundTrip.antt =====
-- src/compact.cpp and src/manifest.cpp: what `to_json` wrote, `from_json` reads.
use mini_lsm_cpp.Prelude.{ℕ, Option, none, some, ◌≡◌}
use mini_lsm_cpp.Compact.{
  SimpleLeveledCompactionTask, LeveledCompactionTask, TieredCompactionTask, ForceFullCompactionTask,
  CompactionTask, simple, leveled, tiered, force_full,
}
use mini_lsm_cpp.Json.{JsonLibrary, JsonLaws, field, element, is_some}
use mini_lsm_cpp.Json.Tasks.{
  of_upper_level, get_upper_level, simple_to_json, simple_from_json, leveled_to_json,
  leveled_from_json, tiered_to_json, tiered_from_json, force_full_to_json, force_full_from_json,
  task_to_json, task_from_json,
}
use mini_lsm_cpp.Json.Records.{
  ManifestRecord, flush, new_memtable, compaction, record_to_json, record_from_json,
}

module _ (J : JsonLibrary) (laws : JsonLaws J) where
  get-of_upper_level : (o : Option ℕ) → get_upper_level J (of_upper_level J o) ≡ some o
  unfolding of_upper_level get_upper_level
  get-of_upper_level none = rw laws.null-is_null
  get-of_upper_level (some n) = rw (laws.of_size-is_null n, laws.get-of_size n)

  simple_lem : (t : SimpleLeveledCompactionTask) → simple_from_json J (simple_to_json J t) ≡ some t
  unfolding simple_to_json simple_from_json field
  simple_lem t =
      simp
        (laws.at-object, get-of_upper_level, laws.get-of_sizes, laws.get-of_size, laws.get-of_bool)

  leveled_lem : (t : LeveledCompactionTask) → leveled_from_json J (leveled_to_json J t) ≡ some t
  unfolding leveled_to_json leveled_from_json field
  leveled_lem t =
      simp
        (laws.at-object, get-of_upper_level, laws.get-of_sizes, laws.get-of_size, laws.get-of_bool)

  tiered_lem : (t : TieredCompactionTask) → tiered_from_json J (tiered_to_json J t) ≡ some t
  unfolding tiered_to_json tiered_from_json field
  tiered_lem t = simp (laws.at-object, laws.get-of_levels, laws.get-of_bool)

  force_full_lem :
      (t : ForceFullCompactionTask) → force_full_from_json J (force_full_to_json J t) ≡ some t
  unfolding force_full_to_json force_full_from_json field
  force_full_lem t = simp (laws.at-object, laws.get-of_sizes)

  task-from-to_json : (t : CompactionTask) → task_from_json J (task_to_json J t) ≡ some t
  unfolding task_to_json task_from_json field is_some
  task-from-to_json (simple t) = simp (laws.contains-object, laws.at-object, simple_lem)
  task-from-to_json (leveled t) = simp (laws.contains-object, laws.at-object, leveled_lem)
  task-from-to_json (tiered t) = simp (laws.contains-object, laws.at-object, tiered_lem)
  task-from-to_json (force_full t) = simp (laws.contains-object, laws.at-object, force_full_lem)

  -- With a JSON library that keeps its laws, from_json gives back every record of the manifest
  -- from what to_json made of it.
  pub record_from_json-record_to_json :
      (r : ManifestRecord) → record_from_json J (record_to_json J r) ≡ some r
  unfolding record_to_json record_from_json field is_some element
  record_from_json-record_to_json (flush n) =
      simp (laws.contains-object, laws.at-object, laws.get-of_size)
  record_from_json-record_to_json (new_memtable n) =
      simp (laws.contains-object, laws.at-object, laws.get-of_size)
  record_from_json-record_to_json (compaction task output) = simp (
    laws.contains-object, laws.at-object, laws.at_index-array, task-from-to_json, laws.get-of_sizes,
  )
