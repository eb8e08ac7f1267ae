-- ===== src/MemTable/PutScan.antt =====
-- src/mem_table.cpp, put, and src/iterators/mem_table_iterator.cpp: a scan after a put.
use mini_lsm_cpp.Prelude.{
  ℕ, ◌≡◌, refl, subst, ap, inl, inr, List, [], ◌∷◌, Result, ok, err, Bytes, Option-cases,
}
use mini_lsm_cpp.Wal.{Wal, WalError}
use mini_lsm_cpp.Wal
use mini_lsm_cpp.MemTable.SortedMap.{map_set, map_set-IsSorted, IsSorted, compare_cases}
use mini_lsm_cpp.MemTable.{MemTable, store, store_logged, put}
use mini_lsm_cpp.MemTable.Scan.{ops, scan, in_range, scan-Yields}
use mini_lsm_cpp.Iterators.{Bound, Yields}
use mini_lsm_cpp.Iterators.Merged.{merged, merged-lt, merged-eq, merged-gt}

-- Setting a key merges its entry, as the newer run, into the map.
map_set-eq-merged :
    (k v : Bytes) (es : List (Bytes × Bytes)) → map_set k v es ≡ merged ((k, v) ∷ []) es
unfolding map_set merged
map_set-eq-merged k v [] = refl
map_set-eq-merged k v (e ∷ es) = elim (compare_cases k e.0) [
  | inl (c, _, _) ↦ rw (c, map_set, merged-lt (k, v) e [] es c) refl
  | inr (inl (c, _)) ↦ rw (c, map_set, merged-eq (k, v) e [] es c) refl
  | inr (inr (c, _, _)) ↦
      rw (c, map_set, merged-gt (k, v) e [] es c) (ap (λ rest. e ∷ rest) (map_set-eq-merged k v es))
]

-- What is there after a put of (k, v) that ended in `r`.
abbrev pub entries_after :
    Result WalError (Unit {0}) → List (Bytes × Bytes) → Bytes → Bytes → List (Bytes × Bytes)
entries_after (ok _) es k v = merged ((k, v) ∷ []) es
entries_after (err _) es k v = es

module _ (k v : Bytes) where
  abbrev IsStored : MemTable → Result WalError (Unit {0}) × MemTable → Type 0
  IsStored t r = (r.1.entries ≡ entries_after r.0 t.entries k v) × IsSorted r.1.entries

  store_logged-IsStored :
      (t : MemTable) (r : Result WalError (Unit {0}) × Wal)
      → IsSorted t.entries
      → IsStored t (store_logged t k v r)
  unfolding store_logged store
  store_logged-IsStored t (err e, wal) s = (refl, s)
  store_logged-IsStored t (ok _, wal) s =
      (map_set-eq-merged k v t.entries, map_set-IsSorted k v t.entries s)

  module _ (crc32 : Bytes → ℕ) (written : ℕ) (t : MemTable) where
    put-IsStored : IsSorted t.entries → IsStored t (put crc32 written t k v)
    unfolding put store
    put-IsStored s = elim (Option-cases t.wal) [
      | inl e ↦ rw (e, put) (map_set-eq-merged k v t.entries, map_set-IsSorted k v t.entries s)
      | inr (wal, e) ↦ rw (e, put) (store_logged-IsStored t (Wal.put crc32 written wal k v) s)
    ]

    -- On a memtable with ascending keys, a scan after a put yields in key order the entries
    -- within its bounds: of the old entries with the new one merged in, in place of an old one
    -- with its key, if the put succeeded, and of the old ones if it failed.
    pub scan-put :
        (lower upper : Bound)
        → IsSorted t.entries
        → Yields ops
            (scan (put crc32 written t k v).1 lower upper)
            (in_range lower upper (entries_after (put crc32 written t k v).0 t.entries k v))
    scan-put lower upper s =
        let (e, sorted) = put-IsStored s in
        subst
          (λ es.
            Yields ops (scan (put crc32 written t k v).1 lower upper) (in_range lower upper es))
          e (scan-Yields (put crc32 written t k v).1 lower upper sorted)
