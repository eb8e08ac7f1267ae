-- ===== src/Lib.antt =====
-- Models and proofs for mini-lsm-cpp, a key-value store on a log-structured merge tree.
--
-- The program. A write goes into the write-ahead log (src/wal.cpp) and then into the memtable
-- (src/mem_table.cpp), a sorted map. Full memtables are flushed into sorted tables (src/table),
-- made of blocks (src/block) with a bloom filter each. Compaction (src/compact.cpp, src/compact)
-- merges tables into levels or tiers; its three controllers choose a task from the state
-- (LsmStorageState) and apply the result of the task to it. Reads merge the sources through
-- iterators (include/mini_lsm/iterators.h, src/iterators, src/lsm_iterator.cpp). After a crash
-- the memtables come back from their logs and the levels from the manifest's records.
--
-- The files.
--   Prelude: Boolean tests, lists and counts over the native numbers, bytes, an association list
--   for std::unordered_map (Find), results.
--   Endian: include/mini_lsm/endian.h. Key: include/mini_lsm/key.h.
--   Wal: src/wal.cpp. A log is the bytes of its file; `create`, `recover`, `put`, `put_batch`
--   and `sync` are the methods, and what fopen, fwrite, fflush and truncate answer is an
--   argument. Wal.Frames has the format of a record, Wal.Rounds one round of recovery,
--   Wal.Recovery and Wal.Torn the loop.
--   MemTable: src/mem_table.cpp, with MemTable.SortedMap for std::map, MemTable.Scan for
--   src/iterators/mem_table_iterator.cpp and MemTable.PutScan for both together.
--   Iterators: the interface of include/mini_lsm/iterators.h and the run that an iterator
--   yields; Iterators.Merged says what merging two runs means, Iterators.TwoMerge is
--   TwoMergeIterator, Iterators.Merge is MergeIterator, whose modules follow its heap as a queue
--   of runs (Runs, Queue), what a key finds in it (Lookup, Unique), its steps (Steps, Tracks)
--   and its run (Filled, Yield); Iterators.Concat is src/iterators/concat_iterator.cpp;
--   Iterators.Lsm is src/lsm_iterator.cpp with LsmIterator, and FusedIterator in Lsm.Fused.
--   Table: the records of include/mini_lsm/table.h; Table.Filter is src/table/bloom.cpp, and
--   Table.Meta the list of a table's blocks in src/table/builder.cpp; Table.Sst is SsTable there
--   and Table.Builder is SsTableBuilder, with MemTable::flush; Table.Builder.Image follows a
--   whole file, Table.Builder.Blocks and Table.Builder.Layout its blocks.
--   Block: src/block/builder.cpp, a block's encoding and its builder; Block.Cursor is
--   src/block/iterator.cpp. BlockCache: src/block_cache.cpp.
--   State: LsmStorageState and the options. Compact: the tasks; Compact.Simple, Compact.Tiered
--   and Compact.Leveled are the files of src/compact, with `generate_compaction_task` and
--   `apply_compaction_result` in each (Compact.Leveled.Generate has the first one for levels);
--   Compact.TakeOut is the loop that takes a task's tables out of a level, and Compact.Outside
--   that loop as a filter; Compact.Controller is CompactionController in src/compact.cpp.
--   Json: to_json and from_json of src/compact.cpp (Json.Tasks) and src/manifest.cpp
--   (Json.Records).
--   Manifest: src/manifest.cpp; Manifest.Frames has the format of a record, Manifest.Recovery
--   and Manifest.Torn the loop, Manifest.Reopened what is written to a recovered manifest.
--   Engine: LsmStorageInner in src/lsm_storage.cpp, its writes and flushes; Engine.Compaction is
--   trigger_compaction and force_full_compaction of src/compact.cpp around the controllers,
--   Engine.Generate is compact_generate_sst_from_iter there, and Engine.Opening is `open`.
--   Engine.Agreement says what a compaction's effect hangs on, Engine.Logged has the steps of a
--   running store and what its manifest is to its state, and Engine.Steps, Engine.Started and
--   Engine.Refinement follow that through a run and a restart. The modules called Tests hold
--   examples.
--
-- Conventions. Numbers are natural; a fixed width is written out as a remainder (u8, u16, u32,
-- u64). `none` is a fault of the code: a failed assertion, an index out of range, an exception,
-- a read out of bounds. std::sort is an insertion sort; the order of elements that compare equal
-- is the model's own, and what is stated of a sorted list holds for any such order. The
-- comparison of leveled.cpp is a strict weak order, as std::sort asks, where all tables of the
-- level are known. Calls are made one after another: the statements are of sequences of whole
-- calls, or, for a compaction, of its two parts. Locks are left out, and so is what threads do
-- to each other within a call. MemTable::put writes to the log and to the map under two locks,
-- and LsmStorageInner::put holds a shared one, so under concurrent puts the log can have another
-- order than the map; and BlockCache::try_get_with takes its lock once to look and once to
-- insert, with the loader between.
--
-- Parameters. zlib's crc32, with answers below 2^32; nlohmann::json (Json.JsonLibrary, with what
-- the code relies on in JsonLaws); farmhash, Snappy and the filter's bits for each key
-- (Table.Builder.Libraries); what the kernel answers (Engine.Answers,
-- Engine.Opening.OpenAnswers) and what a directory holds; the tables that a compaction built;
-- the arithmetic of doubles (Compact.Doubles) and the product with 0.69 in the bloom filter; the
-- inner iterators of the merging iterators.
--
-- Fuel. Recovery of a log or a manifest of n bytes has fuel n + 1: each round takes at least
-- eight bytes. MergeIterator skips a key in a heap of n elements with fuel n + 1: each round
-- takes an element whose key then grows. The loop of LsmIterator that skips tombstones, and that
-- of compact_generate_sst_from_iter, has one unit for each entry of the inner iterator. The
-- binary search in a block of n entries has n + 1: each round leaves fewer entries to search.
--
-- Not modelled: the iterator over one table (src/table/iterator.cpp), for which any other stands
-- here, and what stands on it, which is get and scan of the storage engine and the iterators
-- that `compact` makes for a task; paths and the removal of files; the background threads, which
-- sleep and call the modelled steps; the command line and the benchmarks. The refinement leaves
-- out the leveled controller, which in recovery does not sort a level
-- (Compact.Leveled.Recovery), and a store that writes to a recovered manifest
-- (Manifest.Reopened).
mod Prelude
pub mod Endian
pub mod Key
pub mod Wal
pub mod Manifest
pub mod MemTable
pub mod Engine
pub mod Iterators
pub mod Json
pub mod Table
pub mod State
pub mod Compact
pub mod Block
pub mod BlockCache
