-- ===== src/Engine/Tests.antt =====
-- A store of one flushed entry, opened again.
use mini_lsm_cpp.Prelude.{◌+◌, ◌≡◌, refl, true, false, [], ◌∷◌, some, none, Bytes, length, arith}
use mini_lsm_cpp.MemTable.{MemTable}
use mini_lsm_cpp.Table.{SsTable}
use mini_lsm_cpp.Table.Builder.{Libraries}
use mini_lsm_cpp.State.{
  LsmStorageOptions, default_for_week1_test, default_for_week2_test, CompactionOptions,
}
use mini_lsm_cpp.Json.Records.{new_memtable}
use mini_lsm_cpp.Json.Tests.{library}
use mini_lsm_cpp.Manifest.{frame}
use mini_lsm_cpp.Manifest.Frames.{text, length-frame}
use mini_lsm_cpp.Manifest.Tests.{checksum, new_memtable_0-IsWritten, new_memtable_1-IsWritten}
use mini_lsm_cpp.Engine.{
  LsmStorageInner, Answers, put, force_freeze_memtable, flushed, flush_memtable, write_table,
}
use mini_lsm_cpp.Engine.Opening.{OpenAnswers, Directory, open_new}
use mini_lsm_cpp.Engine.Logged.{Takes, write, IsLogged}
use mini_lsm_cpp.Engine.Started.{TakesFirst, open_new-IsLogged}
use mini_lsm_cpp.Iterators.Tests.{Entries, list_ops, newer}
use mini_lsm_cpp.Engine.Generate.{compact_generate_sst_from_iter}
use mini_lsm_cpp.Engine.Generate.Tombstones.{compact_generate_sst_from_iter-Yields}
use mini_lsm_cpp.Engine.Steps.{Step-IsLogged}
use mini_lsm_cpp.Engine.Refinement.{file_of}

abbrev libraries : Libraries
libraries = record {
  crc32 = checksum;
  fingerprint = λ key. length key;
  bits_per_key = λ n. 10;
  probes = λ n. 6;
  snappy = none;
}

abbrev answers : Answers
answers = record { wal_opens = true; wal_written = 0; creates = true; written = 20; synced = true }

abbrev opening : OpenAnswers
opening = record {
  creates = true;
  opens = true;
  stats = true;
  reads = true;
  wal_opens = true;
  wal_truncates = true;
  written = 20;
  synced = true;
}

abbrev options : LsmStorageOptions
options = default_for_week1_test

abbrev opened : LsmStorageInner
opened = open_new libraries library opening options

abbrev written : LsmStorageInner
written = put libraries library answers opened (1 ∷ []) (2 ∷ [])

abbrev frozen : LsmStorageInner
frozen = force_freeze_memtable libraries library answers written

-- The table of the entry, as it is written.
abbrev sst : SsTable
sst = record {
  id = 0;
  file =
      0 ∷ 0 ∷ 0 ∷ 0 ∷ 1 ∷ 1 ∷ 0 ∷ 1 ∷ 2 ∷ 0 ∷ 0 ∷ 0 ∷ 1 ∷ 0 ∷ 0 ∷ 0 ∷ 13 ∷ 0 ∷ 0 ∷ 0 ∷ 1 ∷ 0 ∷ 0 ∷ 0
      ∷ 0 ∷ 0 ∷ 1 ∷ 1 ∷ 0 ∷ 1 ∷ 1 ∷ 0 ∷ 0 ∷ 0 ∷ 10 ∷ 0 ∷ 0 ∷ 0 ∷ 17 ∷ 2 ∷ 0 ∷ 0 ∷ 0 ∷ 0 ∷ 0 ∷ 0 ∷ 0
      ∷ 6 ∷ 0 ∷ 0 ∷ 0 ∷ 9 ∷ 0 ∷ 0 ∷ 0 ∷ 39 ∷ [];
  first_key = 1 ∷ [];
  last_key = 1 ∷ [];
  block_meta = record { offset = 0; first_key = 1 ∷ []; last_key = 1 ∷ [] } ∷ [];
  block_meta_offset = 17;
  bloom = record { filter = 2 ∷ 0 ∷ 0 ∷ 0 ∷ 0 ∷ 0 ∷ 0 ∷ 0 ∷ []; k = 6 };
}

abbrev first_table : LsmStorageInner
first_table = flushed libraries library answers frozen [] 0 sst

abbrev directory : Directory
directory = record {
  manifest = file_of libraries library first_table.manifest;
  ssts = λ id. some sst.file;
  wals = λ id. none;
}

first_takes : TakesFirst libraries library opening
unfolding mini_lsm_cpp.Json.field mini_lsm_cpp.Json.Records.record_to_json
first_takes = (
  refl,
  new_memtable_0-IsWritten,
  omega (arith, length-frame library checksum (text library checksum (new_memtable 0))),
  refl,
)

memtable_1-taken : Takes libraries library answers (new_memtable 1)
unfolding mini_lsm_cpp.Json.field mini_lsm_cpp.Json.Records.record_to_json
memtable_1-taken = (
  new_memtable_1-IsWritten,
  omega (arith, length-frame library checksum (text library checksum (new_memtable 1))),
  refl,
)

Step-IsLogged_example : IsLogged libraries library options written
unfolding mini_lsm_cpp.Compact.Controller.create mini_lsm_cpp.Engine.Opening.open_new
    mini_lsm_cpp.Engine.new_inner mini_lsm_cpp.Manifest.create
Step-IsLogged_example =
    Step-IsLogged libraries library options tt
      (write answers opened (1 ∷ []) (2 ∷ []) memtable_1-taken)
      (open_new-IsLogged libraries library options opening first_takes)

abbrev live_entries : Entries
live_entries = (1 ∷ [], 7 ∷ []) ∷ []

-- The entries of `newer` are a live one and a tombstone.
compact_generate_sst_from_iter-Yields_example :
    compact_generate_sst_from_iter libraries options true true list_ops 3 9 newer
    ≡ compact_generate_sst_from_iter libraries options true false list_ops 3 9 live_entries
unfolding mini_lsm_cpp.Prelude.is_nil
compact_generate_sst_from_iter-Yields_example =
    compact_generate_sst_from_iter-Yields libraries options true list_ops
      ((1 ∷ [], 7 ∷ []) ∷ (3 ∷ [], []) ∷ []) newer live_entries 3 9 (omega arith)
      (refl, refl, refl, (refl, refl, refl, refl)) (refl, refl, refl, refl)
