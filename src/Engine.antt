-- ===== src/Engine.antt =====
-- include/mini_lsm/lsm_storage.h and src/lsm_storage.cpp: LsmStorageInner, its writes and flushes.
-- Calls are made one after another; a compaction is two steps (Engine/Compaction), since others run
-- while it builds its tables. `put` holds state_mutex only shared, and what concurrent puts do to
-- each other is left out. What the kernel answers to a step is `Answers`.
-- An exception is `none`. The path, and the block cache, which holds only copies, are left out.
pub mod Compaction
pub mod Opening
pub mod Generate
pub mod Agreement
pub mod Logged
pub mod Steps
pub mod Started
pub mod Refinement
mod Tests
use mini_lsm_cpp.Prelude.{
  ℕ, zero, suc, ◌+◌, Bool, true, false, not, List, [], ◌∷◌, Option, none, some, ◌>>=◌, Bytes,
  Result, ok, err, length, leb, if◌then◌else◌,
}
use mini_lsm_cpp.Prelude.Find
use mini_lsm_cpp.Wal.{WalError}
use mini_lsm_cpp.MemTable.{MemTable, new, create_with_wal}
use mini_lsm_cpp.MemTable
use mini_lsm_cpp.Table.{SsTable}
use mini_lsm_cpp.Table.Builder.{Libraries, new_table_builder, build, flush}
use mini_lsm_cpp.State.{LsmStorageOptions, LsmStorageState}
use mini_lsm_cpp.State
use mini_lsm_cpp.Compact.Controller.{CompactionController, flush_to_l0}
use mini_lsm_cpp.Compact.Controller
use mini_lsm_cpp.Json.{JsonLibrary}
use mini_lsm_cpp.Json.Records.{ManifestRecord, new_memtable}
use mini_lsm_cpp.Json.Records
use mini_lsm_cpp.Manifest.{Manifest, add_record}

pub record LsmStorageInner : Type 0 where
  pub state : LsmStorageState
  pub next_sst_id : ℕ
  pub options : LsmStorageOptions
  pub compaction_controller : CompactionController
  pub manifest : Option Manifest

-- Whether a log's file opens and how many bytes of a frame reach it, whether a table's file can be
-- created, how many bytes reach the manifest and whether it is synced.
pub record Answers : Type 0 where
  pub wal_opens : Bool
  pub wal_written : ℕ
  pub creates : Bool
  pub written : ℕ
  pub synced : Bool

-- The constructor.
unfoldable pub new_inner : LsmStorageOptions → LsmStorageInner
new_inner options = record {
  state = State.create options;
  next_sst_id = 1;
  options = options;
  compaction_controller = Controller.create options.compaction_options;
  manifest = none;
}

-- create_with_wal, or a memtable without a log where that fails.
unfoldable pub memtable_with_wal : ℕ → Bool → MemTable
memtable_with_wal id opens = elim (create_with_wal id opens) [ ok t ↦ t | err _ ↦ new id none ]

unfoldable pub fresh_memtable : LsmStorageOptions → ℕ → Bool → MemTable
unfolding memtable_with_wal
fresh_memtable options id opens =
    if options.enable_wal then memtable_with_wal id opens else new id none

-- imm_memtables without its last element, the oldest one, and that element.
unfoldable pub last_imm : List MemTable → Option (List MemTable × MemTable)
last_imm [] = none
last_imm (t ∷ imms) = elim (last_imm imms) [ none ↦ some ([], t) | some r ↦ some (t ∷ r.0, r.1) ]

-- Where a flushed table goes: in front of L0, or a tier of its own.
unfoldable pub add_flushed : CompactionController → LsmStorageState → ℕ → LsmStorageState
add_flushed c s sst_id =
    if flush_to_l0 c
    then record s { l0_sstables = sst_id ∷ s.l0_sstables }
    else record s { levels = (sst_id, sst_id ∷ []) ∷ s.levels }

module _ (lib : Libraries) (J : JsonLibrary) where
  -- if (manifest) manifest->add_record(...), whose answer the code ignores.
  unfoldable pub add_to_manifest : Answers → LsmStorageInner → ManifestRecord → LsmStorageInner
  add_to_manifest a s r = elim s.manifest [
    | none ↦ s
    | some m ↦ record s { manifest = some (add_record J lib.crc32 a.written a.synced m r).1 }
  ]

  unfoldable pub force_freeze_memtable : Answers → LsmStorageInner → LsmStorageInner
  unfolding add_to_manifest fresh_memtable
  force_freeze_memtable a s =
      let memtable_id = s.next_sst_id in
      add_to_manifest a
        (record s {
          next_sst_id = s.next_sst_id + 1;
          state = record s.state {
            memtable = fresh_memtable s.options memtable_id a.wal_opens;
            imm_memtables = s.state.memtable ∷ s.state.imm_memtables;
          };
        })
        (new_memtable memtable_id)

  -- The memtable's answer is ignored.
  unfoldable pub put : Answers → LsmStorageInner → Bytes → Bytes → LsmStorageInner
  unfolding force_freeze_memtable
  put a s key value =
      let t = (MemTable.put lib.crc32 a.wal_written s.state.memtable key value).1 in
      let s' = record s { state = record s.state { memtable = t } } in
      if leb s.options.target_sst_size t.approximate_size then force_freeze_memtable a s' else s'

  unfoldable pub del : Answers → LsmStorageInner → Bytes → LsmStorageInner
  unfolding put
  del a s key = put a s key []

  -- The state once the oldest immutable memtable is the table `sst`.
  unfoldable pub flushed : Answers → LsmStorageInner → List MemTable → ℕ → SsTable → LsmStorageInner
  unfolding add_to_manifest add_flushed
  flushed a s imms sst_id sst =
      let popped = record s.state { imm_memtables = imms } in
      let next_state = add_flushed s.compaction_controller popped sst_id in
      add_to_manifest a
        (record s {
          state = record next_state { sstables = Find.insert sst_id sst next_state.sstables };
        })
        (Records.flush sst_id)

  -- The table of a memtable, in its file.
  unfoldable pub write_table : Answers → LsmStorageInner → MemTable → Option SsTable
  write_table a s t = do
    b ← flush lib t (new_table_builder s.options.block_size s.options.compression)
    build lib a.creates t.id b

  unfoldable pub flush_memtable :
      Answers → LsmStorageInner → Option (List MemTable × MemTable) → Option LsmStorageInner
  unfolding flushed write_table
  flush_memtable a s none = some s
  flush_memtable a s (some (imms, t)) = do sst ← write_table a s t; some (flushed a s imms t.id sst)

  unfoldable pub force_flush_next_imm_memtable : Answers → LsmStorageInner → Option LsmStorageInner
  unfolding flush_memtable last_imm
  force_flush_next_imm_memtable a s = flush_memtable a s (last_imm s.state.imm_memtables)

  -- `file_flushed` is what fflush answers. The code ignores it.
  unfoldable pub sync : Bool → LsmStorageInner → Result WalError (Unit {0})
  sync file_flushed s = MemTable.sync_wal file_flushed s.state.memtable

  -- Whether it flushed, and the state.
  unfoldable pub trigger_flush : Answers → LsmStorageInner → Option (Bool × LsmStorageInner)
  unfolding force_flush_next_imm_memtable
  trigger_flush a s =
      if leb s.options.num_memtable_limit (length s.state.imm_memtables)
      then (do s' ← force_flush_next_imm_memtable a s; some (true, s'))
      else some (false, s)

  -- The loop of MiniLsm::close, one answer for each flush; `none` is also the lack of an answer.
  unfoldable pub flush_all : List Answers → LsmStorageInner → Option LsmStorageInner
  unfolding force_flush_next_imm_memtable
  flush_all [] s = elim s.state.imm_memtables [ [] ↦ some s | _ ∷ _ ↦ none ]
  flush_all (a ∷ answers) s = elim s.state.imm_memtables [
    | [] ↦ some s
    | _ ∷ _ ↦ do s' ← force_flush_next_imm_memtable a s; flush_all answers s'
  ]

  -- MiniLsm::close, once the threads have ended.
  unfoldable pub close : Answers → List Answers → LsmStorageInner → Option LsmStorageInner
  unfolding flush_all force_freeze_memtable
  close a answers s =
      if s.options.enable_wal
      then some s
      else if MemTable.is_empty s.state.memtable
      then flush_all answers s
      else flush_all answers (force_freeze_memtable a s)
