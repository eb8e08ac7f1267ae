-- ===== src/Engine/Compaction.antt =====
-- src/compact.cpp: trigger_compaction and force_full_compaction of LsmStorageInner. Each takes a
-- task from a snapshot, builds the tables, and then, in a later step, puts them into the state that
-- it finds. The tables that `compact` built are an argument of that step. The removal of the files
-- is left out.
use mini_lsm_cpp.Prelude.{ℕ, false, List, [], ◌∷◌, map, Option, none, some, ◌>>=◌}
use mini_lsm_cpp.Prelude.Find
use mini_lsm_cpp.Table.{SsTable}
use mini_lsm_cpp.Table.Builder.{Libraries}
use mini_lsm_cpp.State.{CompactionOptions}
use mini_lsm_cpp.Compact.{CompactionTask, force_full, ForceFullCompactionTask, Doubles}
use mini_lsm_cpp.Compact.Controller.{
  Chosen, erase_all, new_l0, replace_first_level, apply_compaction_result, force_full_task,
}
use mini_lsm_cpp.Compact.Controller
use mini_lsm_cpp.Json.{JsonLibrary}
use mini_lsm_cpp.Json.Records.{compaction}
use mini_lsm_cpp.Engine.{LsmStorageInner, Answers, add_to_manifest}

abbrev pub ids : List SsTable → List ℕ
ids = map (λ (t : SsTable). t.id)

-- sstables[t->id] = t, for each of the new tables.
unfoldable pub insert_all : List SsTable → List (ℕ × SsTable) → List (ℕ × SsTable)
insert_all [] tables = tables
insert_all (t ∷ ssts) tables = insert_all ssts (Find.insert t.id t tables)

-- The first half of trigger_compaction: the task, if there is one.
unfoldable pub choose_task : Doubles → LsmStorageInner → Chosen
choose_task d s = Controller.generate_compaction_task d s.compaction_controller s.state

-- The first half of force_full_compaction, which another compaction rules out.
unfoldable pub choose_full : LsmStorageInner → Option ForceFullCompactionTask
choose_full s = elim s.options.compaction_options [
  | CompactionOptions.no_compaction ↦ some (force_full_task s.state)
  | _ ↦ none
]

module _ (lib : Libraries) (J : JsonLibrary) where
  unfoldable pub finish_compaction :
      Answers → LsmStorageInner → CompactionTask → List SsTable → Option LsmStorageInner
  unfolding insert_all
  finish_compaction a s task sstables = do
    let next_state = record s.state { sstables = insert_all sstables s.state.sstables }
    r ← apply_compaction_result s.compaction_controller next_state task (ids sstables) false
    some (
        add_to_manifest lib J a
          (record s { state = record r.0 { sstables = erase_all r.1 r.0.sstables } })
          (compaction task (ids sstables)))

  unfoldable pub finish_full :
      Answers → LsmStorageInner → ForceFullCompactionTask → List SsTable → LsmStorageInner
  unfolding insert_all
  finish_full a s t sstables =
      add_to_manifest lib J a
        (record s {
          state = record s.state {
            sstables =
                insert_all sstables
                  (erase_all t.l1_sstables (erase_all t.l0_sstables s.state.sstables));
            levels = replace_first_level s.state.levels (ids sstables);
            l0_sstables = new_l0 t.l0_sstables s.state.l0_sstables;
          };
        })
        (compaction (force_full t) (ids sstables))
