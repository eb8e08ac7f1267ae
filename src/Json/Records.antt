-- ===== src/Json/Records.antt =====
-- include/mini_lsm/manifest.h and src/manifest.cpp: the manifest's records, to and from JSON.
use mini_lsm_cpp.Prelude.{ℕ, List, [], ◌∷◌, Option, none, some, ◌>>=◌, if◌then◌else◌}
use mini_lsm_cpp.Compact.{CompactionTask}
use mini_lsm_cpp.Json.{JsonLibrary}
use mini_lsm_cpp.Json.Tasks.{task_to_json, task_from_json}

-- The type tag with the fields that its factory sets; the code reads no others.
pub data ManifestRecord : Type 0 where
  flush : ℕ → ManifestRecord
  new_memtable : ℕ → ManifestRecord
  compaction : CompactionTask → List ℕ → ManifestRecord

module _ (J : JsonLibrary) where
  unfoldable pub record_to_json : ManifestRecord → J.Json
  record_to_json (flush sst_id) = J.object (("Flush", J.of_size sst_id) ∷ [])
  record_to_json (new_memtable mem_id) = J.object (("NewMemtable", J.of_size mem_id) ∷ [])
  record_to_json (compaction task output) =
      J.object (("Compaction", J.array (task_to_json J task ∷ J.of_sizes output ∷ [])) ∷ [])

  -- `none` where the kind of the record is unknown, too.
  unfoldable pub record_from_json : J.Json → Option ManifestRecord
  record_from_json j =
      if J.contains j "Flush"
      then (do inner ← J.at j "Flush"; sst_id ← J.get_size inner; some (flush sst_id))
      else if J.contains j "NewMemtable"
      then (do inner ← J.at j "NewMemtable"; mem_id ← J.get_size inner; some (new_memtable mem_id))
      else if J.contains j "Compaction"
      then (do
        arr ← J.at j "Compaction"
        first ← J.at_index arr 0
        task ← task_from_json J first
        second ← J.at_index arr 1
        output ← J.get_sizes second
        some (compaction task output))
      else none
