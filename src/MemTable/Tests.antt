-- ===== src/MemTable/Tests.antt =====
-- A memtable with a log, and scans of one without.
use mini_lsm_cpp.Prelude.{◌≡◌, refl, true, [], ◌∷◌, none, some, ok, take, arith, All}
use mini_lsm_cpp.Key.{key_lt, key_compare, memcmp}
use mini_lsm_cpp.Wal.Frames.{Fits}
use mini_lsm_cpp.Wal.Torn.{complete}
use mini_lsm_cpp.Wal.Tests.{checksum, checksum_lt, two_records}
use mini_lsm_cpp.MemTable.{MemTable, new, get, put, recover_from_wal}
use mini_lsm_cpp.MemTable.SortedMap.{IsSorted}
use mini_lsm_cpp.MemTable.Laws.{after_put, get-put, put_all, log_content, recover-put_all}
use mini_lsm_cpp.MemTable.PutScan.{entries_after, scan-put}
use mini_lsm_cpp.MemTable.Scan.{ops, scan, in_range, scan-Yields}
use mini_lsm_cpp.Iterators.{Bound, included, excluded, Yields}

abbrev fresh : MemTable
fresh = new 3 (some (record { fp = true; content = [] }))

abbrev two_fit : All Fits two_records
two_fit = omega arith

recover-put_all_example :
    recover_from_wal checksum 3
      (some (take 15 (log_content checksum (put_all checksum fresh two_records))))
      true
      true
    ≡ some (ok (put_all checksum fresh (take (complete 15 two_records) two_records)))
recover-put_all_example = recover-put_all checksum checksum_lt 3 15 two_records two_fit

abbrev three : MemTable
three = record {
  id = 0;
  entries = (1 ∷ [], 9 ∷ []) ∷ (1 ∷ 2 ∷ [], []) ∷ (5 ∷ [], 6 ∷ []) ∷ [];
  wal = none;
  approximate_size = 7;
}

three-IsSorted : IsSorted three.entries
unfolding key_lt key_compare memcmp
three-IsSorted = ((refl, (refl, tt)), ((refl, tt), (tt, tt)))

abbrev from_one : Bound
from_one = record { type = excluded; key = 1 ∷ [] }

abbrev to_five : Bound
to_five = record { type = included; key = 5 ∷ [] }

scan-Yields_example :
    Yields ops (scan three from_one to_five) (in_range from_one to_five three.entries)
scan-Yields_example = scan-Yields three from_one to_five three-IsSorted

get-put_example :
    get (put checksum 0 three (5 ∷ []) (8 ∷ [])).1 (5 ∷ [])
    ≡ after_put
        (put checksum 0 three (5 ∷ []) (8 ∷ [])).0
        (get three (5 ∷ []))
        (5 ∷ [])
        (8 ∷ [])
        (5 ∷ [])
get-put_example = get-put checksum 0 three (5 ∷ []) (8 ∷ []) (5 ∷ [])

scan-put_example : Yields ops (scan (put checksum 0 three (3 ∷ []) (8 ∷ [])).1 from_one to_five) (
    in_range from_one to_five
      (entries_after (put checksum 0 three (3 ∷ []) (8 ∷ [])).0 three.entries (3 ∷ []) (8 ∷ [])))
scan-put_example = scan-put (3 ∷ []) (8 ∷ []) checksum 0 three from_one to_five three-IsSorted
