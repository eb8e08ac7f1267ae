-- ===== src/Json/Tasks.antt =====
-- src/compact.cpp: compaction tasks to and from JSON.
use mini_lsm_cpp.Prelude.{ℕ, [], ◌∷◌, Option, none, some, ◌>>=◌, if◌then◌else◌}
use mini_lsm_cpp.Compact.{
  SimpleLeveledCompactionTask, LeveledCompactionTask, TieredCompactionTask, ForceFullCompactionTask,
  CompactionTask, simple, leveled, tiered, force_full,
}
use mini_lsm_cpp.Json.{JsonLibrary}

module _ (J : JsonLibrary) where
  unfoldable pub of_upper_level : Option ℕ → J.Json
  of_upper_level none = J.null
  of_upper_level (some level) = J.of_size level

  -- j.at("upper_level")
  unfoldable pub get_upper_level : J.Json → Option (Option ℕ)
  get_upper_level j = if J.is_null j then some none else do level ← J.get_size j; some (some level)

  unfoldable pub simple_to_json : SimpleLeveledCompactionTask → J.Json
  simple_to_json t = J.object (
      ("upper_level", of_upper_level t.upper_level)
      ∷ ("upper_level_sst_ids", J.of_sizes t.upper_level_sst_ids)
      ∷ ("lower_level", J.of_size t.lower_level)
      ∷ ("lower_level_sst_ids", J.of_sizes t.lower_level_sst_ids)
      ∷ ("is_lower_level_bottom_level", J.of_bool t.is_lower_level_bottom_level)
      ∷ [])

  unfoldable pub simple_from_json : J.Json → Option SimpleLeveledCompactionTask
  simple_from_json j = do
    upper ← J.at j "upper_level"
    upper_level ← get_upper_level upper
    upper_ids ← J.at j "upper_level_sst_ids"
    upper_level_sst_ids ← J.get_sizes upper_ids
    lower ← J.at j "lower_level"
    lower_level ← J.get_size lower
    lower_ids ← J.at j "lower_level_sst_ids"
    lower_level_sst_ids ← J.get_sizes lower_ids
    bottom ← J.at j "is_lower_level_bottom_level"
    is_lower_level_bottom_level ← J.get_bool bottom
    some (record {
      upper_level = upper_level;
      upper_level_sst_ids = upper_level_sst_ids;
      lower_level = lower_level;
      lower_level_sst_ids = lower_level_sst_ids;
      is_lower_level_bottom_level = is_lower_level_bottom_level;
    })

  unfoldable pub leveled_to_json : LeveledCompactionTask → J.Json
  leveled_to_json t = J.object (
      ("upper_level", of_upper_level t.upper_level)
      ∷ ("upper_level_sst_ids", J.of_sizes t.upper_level_sst_ids)
      ∷ ("lower_level", J.of_size t.lower_level)
      ∷ ("lower_level_sst_ids", J.of_sizes t.lower_level_sst_ids)
      ∷ ("is_lower_level_bottom_level", J.of_bool t.is_lower_level_bottom_level)
      ∷ [])

  unfoldable pub leveled_from_json : J.Json → Option LeveledCompactionTask
  leveled_from_json j = do
    upper ← J.at j "upper_level"
    upper_level ← get_upper_level upper
    upper_ids ← J.at j "upper_level_sst_ids"
    upper_level_sst_ids ← J.get_sizes upper_ids
    lower ← J.at j "lower_level"
    lower_level ← J.get_size lower
    lower_ids ← J.at j "lower_level_sst_ids"
    lower_level_sst_ids ← J.get_sizes lower_ids
    bottom ← J.at j "is_lower_level_bottom_level"
    is_lower_level_bottom_level ← J.get_bool bottom
    some (record {
      upper_level = upper_level;
      upper_level_sst_ids = upper_level_sst_ids;
      lower_level = lower_level;
      lower_level_sst_ids = lower_level_sst_ids;
      is_lower_level_bottom_level = is_lower_level_bottom_level;
    })

  unfoldable pub tiered_to_json : TieredCompactionTask → J.Json
  tiered_to_json t = J.object (
      ("tiers", J.of_levels t.tiers)
      ∷ ("bottom_tier_included", J.of_bool t.bottom_tier_included)
      ∷ [])

  unfoldable pub tiered_from_json : J.Json → Option TieredCompactionTask
  tiered_from_json j = do
    all_tiers ← J.at j "tiers"
    tiers ← J.get_levels all_tiers
    bottom ← J.at j "bottom_tier_included"
    bottom_tier_included ← J.get_bool bottom
    some (record { tiers = tiers; bottom_tier_included = bottom_tier_included })

  unfoldable pub force_full_to_json : ForceFullCompactionTask → J.Json
  force_full_to_json t =
      J.object
        (("l0_sstables", J.of_sizes t.l0_sstables) ∷ ("l1_sstables", J.of_sizes t.l1_sstables) ∷ [])

  unfoldable pub force_full_from_json : J.Json → Option ForceFullCompactionTask
  force_full_from_json j = do
    l0 ← J.at j "l0_sstables"
    l0_sstables ← J.get_sizes l0
    l1 ← J.at j "l1_sstables"
    l1_sstables ← J.get_sizes l1
    some (record { l0_sstables = l0_sstables; l1_sstables = l1_sstables })

  unfoldable pub task_to_json : CompactionTask → J.Json
  task_to_json (simple t) = J.object (("Simple", simple_to_json t) ∷ [])
  task_to_json (leveled t) = J.object (("Leveled", leveled_to_json t) ∷ [])
  task_to_json (tiered t) = J.object (("Tiered", tiered_to_json t) ∷ [])
  task_to_json (force_full t) = J.object (("ForceFullCompaction", force_full_to_json t) ∷ [])

  -- `none` where the kind of the task is unknown, too.
  unfoldable pub task_from_json : J.Json → Option CompactionTask
  task_from_json j =
      if J.contains j "Simple"
      then (do inner ← J.at j "Simple"; t ← simple_from_json inner; some (simple t))
      else if J.contains j "Leveled"
      then (do inner ← J.at j "Leveled"; t ← leveled_from_json inner; some (leveled t))
      else if J.contains j "Tiered"
      then (do inner ← J.at j "Tiered"; t ← tiered_from_json inner; some (tiered t))
      else if J.contains j "ForceFullCompaction"
      then (do
        inner ← J.at j "ForceFullCompaction"
        t ← force_full_from_json inner
        some (force_full t))
      else none
