-- ===== src/MemTable/Laws.antt =====
-- Reading back what was put, and a memtable rebuilt from its log after a crash.
use mini_lsm_cpp.Prelude.{
  ℕ, ◌+◌, ◌^◌, ◌<◌, ◌≡◌, refl, sym, ap, ◌∙◌, true, List, [], ◌∷◌, ◌++◌, Option, none, some, Result,
  ok, err, Bytes, u64, All, length, take, take_all, append_assoc, append-nil, ==_refl, arith,
  Option-cases, inl, inr, if◌then◌else◌,
}
use mini_lsm_cpp.Key.{key_eq}
use mini_lsm_cpp.Wal.{Wal, WalError, Entry, encode_frame, null_fp, write_failed}
use mini_lsm_cpp.Wal
use mini_lsm_cpp.Wal.Frames.{Fits, encode_all}
use mini_lsm_cpp.Wal.Torn.{complete, recover-take}
use mini_lsm_cpp.MemTable.SortedMap.{map_set, map_find-map_set}
use mini_lsm_cpp.MemTable.{
  MemTable, new, store, store_all, store_logged, get, put, recover_from_wal,
}

get-store :
    (t : MemTable) (k v j : Bytes) → get (store t k v) j ≡ (if key_eq j k then some v else get t j)
unfolding get store
get-store t k v j = map_find-map_set k j v t.entries

-- What a get of `j` answers after a put that ended in `r`.
abbrev pub after_put :
    Result WalError (Unit {0}) → Option Bytes → Bytes → Bytes → Bytes → Option Bytes
after_put (ok _) old k v j = if key_eq j k then some v else old
after_put (err _) old k v j = old

get-store_logged :
    (t : MemTable) (k v j : Bytes) (r : Result WalError (Unit {0}) × Wal)
    → get (store_logged t k v r).1 j ≡ after_put (store_logged t k v r).0 (get t j) k v j
unfolding get store_logged
get-store_logged t k v j (err e, wal) = refl
get-store_logged t k v j (ok _, wal) = get-store (record t { wal = some wal }) k v j

module _ (crc32 : Bytes → ℕ) where
  -- A put that succeeds is seen by every later get of its key and by no other get; one that
  -- fails changes no answer.
  pub get-put :
      (written : ℕ) (t : MemTable) (k v j : Bytes)
      → get (put crc32 written t k v).1 j ≡ after_put (put crc32 written t k v).0 (get t j) k v j
  unfolding put get
  get-put written t k v j = elim (Option-cases t.wal) [
    | inl e ↦ rw (e, put) (get-store t k v j)
    | inr (wal, e) ↦ rw (e, put) (get-store_logged t k v j (Wal.put crc32 written wal k v))
  ]

  -- Puts one after another, each frame written in full.
  pub put_all : MemTable → List Entry → MemTable
  put_all t [] = t
  put_all t (e ∷ es) = put_all (put crc32 (length (encode_frame crc32 e.0 e.1)) t e.0 e.1).1 es

  -- A memtable whose log is open.
  abbrev logged : ℕ → List Entry → ℕ → Bytes → MemTable
  logged id entries size content = record {
    id = id;
    entries = entries;
    wal = some (record { fp = true; content = content });
    approximate_size = size;
  }

  put_full :
      (id : ℕ) (entries : List Entry) (size : ℕ) (content k v : Bytes)
      → (put crc32 (length (encode_frame crc32 k v)) (logged id entries size content) k v).1
        ≡ store (logged id entries size (content ++ encode_frame crc32 k v)) k v
  unfolding put store_logged store Wal.put Wal.append
  put_full id entries size content k v = rw (
    ==_refl (length (encode_frame crc32 k v)),
    take_all (length (encode_frame crc32 k v)) (encode_frame crc32 k v) (omega arith),
  )

  put_all-eq-store_all :
      (es : List Entry) (id : ℕ) (entries : List Entry) (size : ℕ) (content : Bytes)
      → put_all (logged id entries size content) es
        ≡ store_all (logged id entries size (content ++ encode_all crc32 es)) es
  unfolding put_all store_all store
  put_all-eq-store_all [] id entries size content =
      ap (logged id entries size) (sym (append-nil content))
  put_all-eq-store_all ((k, v) ∷ es) id entries size content =
      let entries' = map_set k v entries in
      let size' = u64 (size + (length k + length v)) in
      ap (λ t. put_all t es) (put_full id entries size content k v)
      ∙ put_all-eq-store_all es id entries' size' (content ++ encode_frame crc32 k v)
      ∙ ap (λ c. store_all (logged id entries' size' c) es)
          (append_assoc content (encode_frame crc32 k v) (encode_all crc32 es))

  -- The bytes of a memtable's log.
  abbrev pub log_content : MemTable → Bytes
  log_content t = elim t.wal [ none ↦ [] | some wal ↦ wal.content ]

  log_content-store_all :
      (t : MemTable) (es : List Entry) → log_content (store_all t es) ≡ log_content t
  unfolding store_all store
  log_content-store_all t [] = refl
  log_content-store_all t ((k, v) ∷ es) = log_content-store_all (store t k v) es

  -- With a checksum of 32 bits, after puts of records that fit their fields into a fresh
  -- memtable with a log, and a crash that keeps any first n bytes of the log,
  -- MemTable::recover_from_wal, where the file can be truncated and opened, rebuilds the
  -- memtable that held the records whose frames are whole, with its size counter and its log.
  pub recover-put_all :
      ((bs : Bytes) → crc32 bs < 2 ^ 32)
      → (id n : ℕ) (es : List Entry) → All Fits es
      → let fresh = new id (some (record { fp = true; content = [] })) in
        recover_from_wal crc32 id (some (take n (log_content (put_all fresh es)))) true true
        ≡ some (ok (put_all fresh (take (complete n es) es)))
  unfolding recover_from_wal new
  recover-put_all crc_lt id n es fits =
      let kept = take (complete n es) es in
      let content : log_content (put_all (logged id [] 0 []) es) ≡ encode_all crc32 es =
        ap log_content (put_all-eq-store_all es id [] 0 [])
        ∙ log_content-store_all (logged id [] 0 (encode_all crc32 es)) es in
      rw (content, recover-take crc32 crc_lt es n true fits)
        (ap (λ t. some (ok t)) (sym (put_all-eq-store_all kept id [] 0 [])))
