-- ===== src/Manifest.antt =====
-- include/mini_lsm/manifest.h and src/manifest.cpp: the manifest file.
-- A manifest is the bytes of its file, whether the descriptor is open, and the descriptor's offset:
-- `open` sets it to 0, `pread` leaves it, and `write` starts at it and moves it. What the kernel
-- answers is an argument of the operation that asks; zlib's crc32 and nlohmann::json are parameters.
-- The path and the lock are left out: one caller at a time holds the lock.
pub mod Frames
pub mod Recovery
pub mod Torn
pub mod Reopened
pub mod Tests
use mini_lsm_cpp.Prelude.{
  ℕ, zero, suc, ◌+◌, Bool, true, false, not, ◌&&◌, List, [], ◌∷◌, ◌++◌, Option, none, some, ◌>>=◌,
  Result, ok, err, Bytes, u64, length, take, drop, ltb, ◌==◌, if◌then◌else◌,
}
use mini_lsm_cpp.Endian.{put_u32_be, put_u64_be, read_u32_be, read_u64_be}
use mini_lsm_cpp.Json.{JsonLibrary}
use mini_lsm_cpp.Json.Records.{ManifestRecord, record_to_json, record_from_json}

pub record Manifest : Type 0 where
  pub fd : Bool
  pub offset : ℕ
  pub content : Bytes

-- The error messages.
pub data ManifestError : Type 0 where
  create_failed open_failed stat_failed read_failed : ManifestError
  incomplete_header incomplete_record checksum_mismatch parse_failed : ManifestError
  closed serialize_failed write_failed sync_failed : ManifestError

-- O_TRUNC empties the file.
unfoldable pub create : Bool → Result ManifestError Manifest
create true = ok (record { fd = true; offset = 0; content = [] })
create false = err create_failed

-- The destructor.
unfoldable pub close : Manifest → Manifest
close m = record m { fd = false }

-- write(2) of the bytes at the offset, which is nowhere past the end of the file.
unfoldable pub overwrite : ℕ → Bytes → Bytes → Bytes
overwrite offset buf content = take offset content ++ buf ++ drop (offset + length buf) content

-- The write loop, of which `written` bytes reach the file, and fsync.
unfoldable pub write_all : ℕ → Bool → Manifest → Bytes → Result ManifestError (Unit {0}) × Manifest
unfolding overwrite
write_all written synced m buf = (
  if written == length buf then (if synced then ok tt else err sync_failed) else err write_failed,
  record m {
    offset = m.offset + length (take written buf);
    content = overwrite m.offset (take written buf) m.content;
  },
)

module _ (J : JsonLibrary) (crc32 : Bytes → ℕ) where
  unfoldable pub frame : Bytes → Bytes
  frame json_str = put_u32_be (put_u64_be [] (u64 (length json_str)) ++ json_str) (crc32 json_str)

  unfoldable pub add_record_when_init :
      ℕ → Bool → Manifest → ManifestRecord → Result ManifestError (Unit {0}) × Manifest
  add_record_when_init written synced m r =
      if m.fd
      then (elim (J.dump (record_to_json J r)) [
        | none ↦ (err serialize_failed, m)
        | some json_str ↦ write_all written synced m (frame json_str)
      ])
      else (err closed, m)

  unfoldable pub add_record :
      ℕ → Bool → Manifest → ManifestRecord → Result ManifestError (Unit {0}) × Manifest
  add_record written synced m r = add_record_when_init written synced m r

  -- The try block, on a payload, with the bytes that the round has gone over.
  abbrev caught : Option ManifestRecord → ℕ → Result ManifestError (ManifestRecord × ℕ)
  caught none n = err parse_failed
  caught (some r) n = ok (r, n)

  unfoldable pub parse_record : Bytes → ℕ → Result ManifestError (ManifestRecord × ℕ)
  parse_record json_str n = caught (do j ← J.parse json_str; record_from_json J j) n

  -- One round of the loop, on the bytes from `offset` on; `none` is a read out of bounds. The sum
  -- in the code's second test has 64 bits.
  unfoldable pub read_record : Bytes → Option (Result ManifestError (ManifestRecord × ℕ))
  read_record buf = if ltb (length buf) 8 then some (err incomplete_header) else do
    len ← read_u64_be buf
    if ltb (length (drop 8 buf)) (u64 (len + 4)) then some (err incomplete_record) else do
      expected_checksum ← read_u32_be (drop (8 + len) buf)
      some (
          if crc32 (take len (drop 8 buf)) == expected_checksum
          then parse_record (take len (drop 8 buf)) (8 + (len + 4))
          else err checksum_mismatch)

  -- The loop: fuel, the bytes from `offset` on, and the records so far.
  unfoldable pub recover_loop :
      ℕ → Bytes → List ManifestRecord → Option (Result ManifestError (List ManifestRecord))
  recover_loop zero buf records = none
  recover_loop (suc fuel) [] records = some (ok records)
  recover_loop (suc fuel) (b ∷ bs) records = elim (read_record (b ∷ bs)) [
    | none ↦ none
    | some (err e) ↦ some (err e)
    | some (ok (r, n)) ↦ recover_loop fuel (drop n (b ∷ bs)) (records ++ r ∷ [])
  ]

  unfoldable pub recovered :
      Bytes
      → Result ManifestError (List ManifestRecord)
      → Result ManifestError (Manifest × List ManifestRecord)
  recovered content (err e) = err e
  recovered content (ok records) = ok (record { fd = true; offset = 0; content = content }, records)

  -- Whether the path opens, fstat answers, and pread reads; what the file holds. `none` is a read
  -- out of bounds, or lack of fuel.
  unfoldable pub recover :
      Bool → Bool → Bool → Bytes → Option (Result ManifestError (Manifest × List ManifestRecord))
  recover opens stats reads content =
      if not opens
      then some (err open_failed)
      else if not stats
      then some (err stat_failed)
      else if ltb 0 (length content) && not reads
      then some (err read_failed)
      else (do r ← recover_loop (suc (length content)) content []; some (recovered content r))
