-- ===== src/Engine/Refinement.antt =====
-- src/lsm_storage.cpp: a store that is opened anew, runs, and is opened again from its manifest.
use mini_lsm_cpp.Prelude.{ℕ, ◌+◌, List, Option, none, some, ◌≡◌, Bytes}
use mini_lsm_cpp.Prelude.Find
use mini_lsm_cpp.MemTable.{MemTable}
use mini_lsm_cpp.Wal
use mini_lsm_cpp.Table.{SsTable}
use mini_lsm_cpp.Table.Sst.{open_table}
use mini_lsm_cpp.Table.Builder.{Libraries}
use mini_lsm_cpp.State.{LsmStorageOptions}
use mini_lsm_cpp.Json.{JsonLibrary}
use mini_lsm_cpp.Manifest.{Manifest}
use mini_lsm_cpp.Engine.{LsmStorageInner, new_inner, fresh_memtable}
use mini_lsm_cpp.Engine.Opening.{Replay, Directory, OpenAnswers}

module _ (lib : Libraries) (J : JsonLibrary) where
  -- The table's file is there and can be opened.
  abbrev pub Readable : Directory → ℕ → Type 0
  Readable dir id =
      (file : Bytes) × (t : SsTable) × (dir.ssts id ≡ some file)
      × (open_table lib.crc32 id file ≡ some t)

  -- The store that is opened from a replay, before its first record.
  abbrev reopened :
      LsmStorageOptions
      → OpenAnswers
      → Manifest
      → Replay
      → List (ℕ × SsTable)
      → List MemTable
      → LsmStorageInner
  reopened options a m rp tables imms = record (new_inner options) {
    manifest = some m;
    next_sst_id = rp.next_id + 1 + 1;
    state = record rp.state {
      sstables = tables;
      imm_memtables = imms;
      memtable = fresh_memtable options (rp.next_id + 1) a.wal_opens;
    };
  }

  -- What the file of the manifest holds.
  abbrev pub file_of : Option Manifest → Option Bytes
  file_of none = none
  file_of (some m) = some m.content
