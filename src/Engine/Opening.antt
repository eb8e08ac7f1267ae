-- ===== src/Engine/Opening.antt =====
-- src/lsm_storage.cpp: LsmStorageInner::open.
use mini_lsm_cpp.Prelude.{
  ℕ, ◌+◌, max, Bool, true, List, [], ◌∷◌, Option, none, some, ◌>>=◌, Bytes, Result, ok, err, ltb,
  ◌==◌, if◌then◌else◌,
}
use mini_lsm_cpp.Prelude.Find
use mini_lsm_cpp.Wal
use mini_lsm_cpp.MemTable.{MemTable, recover_from_wal, is_empty}
use mini_lsm_cpp.Table.{SsTable}
use mini_lsm_cpp.Table.Sst.{open_table}
use mini_lsm_cpp.Table.Builder.{Libraries}
use mini_lsm_cpp.State.{LsmStorageOptions, LsmStorageState, Level}
use mini_lsm_cpp.Compact.Controller.{CompactionController, apply_compaction_result}
use mini_lsm_cpp.Json.{JsonLibrary}
use mini_lsm_cpp.Json.Records.{ManifestRecord, flush, new_memtable, compaction}
use mini_lsm_cpp.Manifest.{Manifest, ManifestError, create, recover, add_record_when_init}
use mini_lsm_cpp.Engine.{LsmStorageInner, new_inner, fresh_memtable, add_flushed}

-- What the records have made of the state, the memtables that are not flushed (a std::set), and
-- the largest identifier.
pub record Replay : Type 0 where
  pub state : LsmStorageState
  pub memtables : List ℕ
  pub next_id : ℕ

unfoldable pub set_insert : ℕ → List ℕ → List ℕ
set_insert id [] = id ∷ []
set_insert id (x ∷ xs) =
    let rest = set_insert id xs in
    if id == x then x ∷ xs else if ltb id x then id ∷ x ∷ xs else x ∷ rest

unfoldable pub set_erase : ℕ → List ℕ → List ℕ
set_erase id [] = []
set_erase id (x ∷ xs) = let rest = set_erase id xs in if id == x then xs else x ∷ rest

unfoldable pub max_all : ℕ → List ℕ → ℕ
max_all n [] = n
max_all n (x ∷ xs) = max_all (max n x) xs

unfoldable pub replay_record : CompactionController → Replay → ManifestRecord → Option Replay
unfolding set_insert set_erase max_all add_flushed
replay_record c rp (flush sst_id) = some (record rp {
  memtables = set_erase sst_id rp.memtables;
  state = add_flushed c rp.state sst_id;
  next_id = max rp.next_id sst_id;
})
replay_record c rp (new_memtable mem_id) =
    some (record rp { next_id = max rp.next_id mem_id; memtables = set_insert mem_id rp.memtables })
replay_record c rp (compaction task output) = do
  r ← apply_compaction_result c rp.state task output true
  some (record rp { state = r.0; next_id = max_all rp.next_id output })

unfoldable pub replay : CompactionController → Replay → List ManifestRecord → Option Replay
unfolding replay_record
replay c rp [] = some rp
replay c rp (r ∷ records) = do rp' ← replay_record c rp r; replay c rp' records

-- What the directory holds: the manifest, and the tables and logs by their identifiers.
pub record Directory : Type 0 where
  pub manifest : Option Bytes
  pub ssts : ℕ → Option Bytes
  pub wals : ℕ → Option Bytes

-- What the kernel answers while a store is opened.
pub record OpenAnswers : Type 0 where
  pub creates : Bool
  pub opens : Bool
  pub stats : Bool
  pub reads : Bool
  pub wal_opens : Bool
  pub wal_truncates : Bool
  pub written : ℕ
  pub synced : Bool

module _ (lib : Libraries) (J : JsonLibrary) where
  unfoldable pub open_tables :
      (ℕ → Option Bytes) → List ℕ → List (ℕ × SsTable) → Option (List (ℕ × SsTable))
  open_tables ssts [] tables = some tables
  open_tables ssts (sst_id ∷ ids) tables = do
    file ← ssts sst_id
    sst ← open_table lib.crc32 sst_id file
    open_tables ssts ids (Find.insert sst_id sst tables)

  unfoldable pub open_levels :
      (ℕ → Option Bytes) → List Level → List (ℕ × SsTable) → Option (List (ℕ × SsTable))
  unfolding open_tables
  open_levels ssts [] tables = some tables
  open_levels ssts ((n, ids) ∷ levels) tables = do
    tables' ← open_tables ssts ids tables
    open_levels ssts levels tables'

  -- A log that cannot be opened is passed over, and so is an empty memtable.
  unfoldable pub add_recovered : Result Wal.WalError MemTable → List MemTable → List MemTable
  add_recovered (err e) imms = imms
  add_recovered (ok t) imms = if is_empty t then imms else t ∷ imms

  unfoldable pub recover_memtables :
      (ℕ → Option Bytes) → Bool → Bool → List ℕ → List MemTable → Option (List MemTable)
  unfolding add_recovered
  recover_memtables wals truncates opens [] imms = some imms
  recover_memtables wals truncates opens (id ∷ ids) imms = do
    r ← recover_from_wal lib.crc32 id (wals id) truncates opens
    recover_memtables wals truncates opens ids (add_recovered r imms)

  -- if (inner->manifest) inner->manifest->add_record_when_init(...)
  unfoldable pub log_memtable : OpenAnswers → LsmStorageInner → LsmStorageInner
  log_memtable a s = elim s.manifest [
    | none ↦ s
    | some m ↦ record s {
      manifest =
          some
            (add_record_when_init J lib.crc32 a.written a.synced m
              (new_memtable s.state.memtable.id)).1;
    }
  ]

  -- There is no manifest yet.
  unfoldable pub open_new : OpenAnswers → LsmStorageOptions → LsmStorageInner
  unfolding log_memtable
  open_new a options =
      let inner = new_inner options in
      let t = inner.state.memtable in
      let s = record inner {
        state = record inner.state { memtable = fresh_memtable options t.id a.wal_opens };
      } in
      elim (create a.creates) [ err e ↦ s | ok m ↦ log_memtable a (record s { manifest = some m }) ]

  -- A manifest that gave records.
  unfoldable pub open_recovered :
      OpenAnswers
      → Directory
      → LsmStorageOptions
      → Manifest
      → List ManifestRecord
      → Option LsmStorageInner
  unfolding replay open_levels recover_memtables log_memtable
  open_recovered a dir options m records = do
    let inner = new_inner options
    rp ←
        replay inner.compaction_controller
          (record { state = inner.state; memtables = []; next_id = 1 }) records
    tables ← open_tables dir.ssts rp.state.l0_sstables rp.state.sstables
    tables' ← open_levels dir.ssts rp.state.levels tables
    let next_id = rp.next_id + 1
    imms ←
        if options.enable_wal
        then recover_memtables dir.wals a.wal_truncates a.wal_opens rp.memtables
            rp.state.imm_memtables
        else some rp.state.imm_memtables
    some (
        log_memtable a (record inner {
          manifest = some m;
          next_sst_id = next_id + 1;
          state = record rp.state {
            sstables = tables';
            imm_memtables = imms;
            memtable = fresh_memtable options next_id a.wal_opens;
          };
        }))

  -- A manifest that cannot be recovered leaves the store as the constructor made it.
  unfoldable pub opened :
      OpenAnswers
      → Directory
      → LsmStorageOptions
      → Result ManifestError (Manifest × List ManifestRecord)
      → Option LsmStorageInner
  opened a dir options (err e) = some (new_inner options)
  opened a dir options (ok (m, records)) = open_recovered a dir options m records

  unfoldable pub open_from :
      OpenAnswers → Directory → LsmStorageOptions → Option Bytes → Option LsmStorageInner
  unfolding opened
  open_from a dir options none = some (open_new a options)
  open_from a dir options (some content) = do
    r ← recover J lib.crc32 a.opens a.stats a.reads content
    opened a dir options r

  unfoldable pub open_store : OpenAnswers → Directory → LsmStorageOptions → Option LsmStorageInner
  unfolding open_from
  open_store a dir options = open_from a dir options dir.manifest
