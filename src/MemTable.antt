-- ===== src/MemTable.antt =====
-- include/mini_lsm/mem_table.h, src/mem_table.cpp, src/iterators/mem_table_iterator.cpp.
-- std::map is the list of its entries in key order. Calls are made
-- one after another: what other threads do between the write to the log and the write to the map,
-- which `put` makes under two locks, is left out. The size counter is a size_t (`u64`).
pub mod SortedMap
pub mod Laws
pub mod Scan
pub mod PutScan
mod Tests
use mini_lsm_cpp.Prelude.{
  ℕ, zero, suc, ◌+◌, Bool, true, false, List, [], ◌∷◌, ◌++◌, Option, none, some, ◌>>=◌, Result, ok,
  err, Bytes, u64, length, if◌then◌else◌,
}
use mini_lsm_cpp.Wal.{Wal, WalError, Entry, create, recover}
use mini_lsm_cpp.Wal
use SortedMap.{map_find, map_set}

pub record MemTable : Type 0 where
  pub id : ℕ
  pub entries : List Entry
  pub wal : Option Wal
  pub approximate_size : ℕ

unfoldable pub new : ℕ → Option Wal → MemTable
new id wal = record { id = id; entries = []; wal = wal; approximate_size = 0 }

-- `opens` is what fopen answers.
unfoldable pub create_with_wal : ℕ → Bool → Result WalError MemTable
create_with_wal id opens = elim (create opens) [ err e ↦ err e | ok wal ↦ ok (new id (some wal)) ]

-- map_[k] = v, and the size counter.
unfoldable pub store : MemTable → Bytes → Bytes → MemTable
store t k v = record t {
  entries = map_set k v t.entries;
  approximate_size = u64 (t.approximate_size + (length k + length v));
}

unfoldable pub store_all : MemTable → List Entry → MemTable
store_all t [] = t
store_all t ((k, v) ∷ records) = store_all (store t k v) records

unfoldable pub get : MemTable → Bytes → Option Bytes
get t key = map_find key t.entries

unfoldable pub is_empty : MemTable → Bool
is_empty t = elim t.entries [ [] ↦ true | _ ∷ _ ↦ false ]

unfoldable pub sync_wal : Bool → MemTable → Result WalError (Unit {0})
sync_wal flushed t = elim t.wal [ none ↦ ok tt | some wal ↦ Wal.sync flushed wal ]

-- What `put` does with the log's answer.
unfoldable pub store_logged :
    MemTable
    → Bytes
    → Bytes
    → Result WalError (Unit {0}) × Wal
    → Result WalError (Unit {0}) × MemTable
store_logged t key value (err e, wal) = (err e, record t { wal = some wal })
store_logged t key value (ok _, wal) = (ok tt, store (record t { wal = some wal }) key value)

module _ (crc32 : Bytes → ℕ) where
  -- The records that the log still holds are stored in their order.
  unfoldable pub recover_from_wal :
      ℕ → Option Bytes → Bool → Bool → Option (Result WalError MemTable)
  recover_from_wal id file truncates opens = do
    r ← recover crc32 file truncates opens []
    some (elim r.0 [ err e ↦ err e | ok wal ↦ ok (store_all (new id (some wal)) r.1) ])

  -- The log first: if it refuses the frame, nothing is stored. What it wrote of it stays written.
  unfoldable pub put : ℕ → MemTable → Bytes → Bytes → Result WalError (Unit {0}) × MemTable
  put written t key value = elim t.wal [
    | none ↦ (ok tt, store t key value)
    | some wal ↦ store_logged t key value (Wal.put crc32 written wal key value)
  ]
