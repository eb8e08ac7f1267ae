-- ===== src/Wal.antt =====
-- include/mini_lsm/wal.h and src/wal.cpp: the write-ahead log.
-- A log is the bytes behind its FILE*, and whether that pointer is set. What the C library and
-- the kernel answer (fopen, fwrite, fflush, truncate) is an argument of the operation that asks,
-- and zlib's crc32 is a parameter. The path is left out, and so is the lock, which put, put_batch
-- and sync hold throughout.
pub mod Rounds
pub mod Frames
pub mod Recovery
pub mod Torn
pub mod Tests
use mini_lsm_cpp.Prelude.{
  ℕ, zero, suc, ◌+◌, Bool, true, false, List, [], ◌∷◌, ◌++◌, Option, none, some, ◌>>=◌, Result, ok,
  err, Bytes, u16, length, take, drop, ltb, ◌==◌, if◌then◌else◌,
}
use mini_lsm_cpp.Endian.{put_u16_be, put_u32_be, read_u16_be, read_u32_be}

pub record Wal : Type 0 where
  pub fp : Bool
  pub content : Bytes

pub data WalError : Type 0 where
  create_failed open_failed null_fp write_failed flush_failed : WalError

-- A key and its value.
abbrev pub Entry : Type 0
Entry = Bytes × Bytes

-- fopen(path, "wb+")
unfoldable pub create : Bool → Result WalError Wal
create true = ok (record { fp = true; content = [] })
create false = err create_failed

-- What the loop of `recover` finds at its position: an end of the log that it cuts off, or a
-- frame with its content length (the checksum not counted).
pub data Frame : Type 0 where
  broken : Frame
  intact : Bytes → Bytes → ℕ → Frame

-- `::truncate` to `pos`, if the file is longer. Where it fails the file stays as it is.
unfoldable pub truncated : Bytes → Bool → ℕ → Bytes
truncated buf truncates pos =
    if pos == length buf then buf else if truncates then take pos buf else buf

-- After the loop: the file is truncated, and opened for appending whether or not that succeeded.
unfoldable pub reopen : Bytes → Bool → Bool → ℕ → Result WalError Wal
reopen buf truncates opens pos =
    if opens
    then ok (record { fp = true; content = truncated buf truncates pos })
    else err open_failed

module _ (crc32 : Bytes → ℕ) where
  -- One round of the loop, on the bytes from `pos` on. `none` is a read out of bounds.
  unfoldable pub read_frame : Bytes → Option Frame
  read_frame buf = if ltb (length buf) 2 then some broken else do
    key_len ← read_u16_be buf
    if ltb (length buf) (2 + key_len + 2) then some broken else do
      val_len ← read_u16_be (drop (2 + key_len) buf)
      let frame_content_len = 2 + key_len + 2 + val_len
      if ltb (length buf) (frame_content_len + 4) then some broken else do
        expected_crc ← read_u32_be (drop frame_content_len buf)
        some (
            if crc32 (take frame_content_len buf) == expected_crc
            then intact (take key_len (drop 2 buf)) (take val_len (drop (2 + key_len + 2) buf))
                frame_content_len
            else broken)

  -- The loop: fuel, the bytes from `pos` on, `pos`, and the records so far.
  unfoldable pub recover_loop : ℕ → Bytes → ℕ → List Entry → Option (ℕ × List Entry)
  recover_loop zero buf pos records = none
  recover_loop (suc fuel) [] pos records = some (pos, records)
  recover_loop (suc fuel) (b ∷ bs) pos records = elim (read_frame (b ∷ bs)) [
    | none ↦ none
    | some broken ↦ some (pos, records)
    | some (intact key val n) ↦
        recover_loop fuel (drop (n + 4) (b ∷ bs)) (pos + (n + 4)) (records ++ (key, val) ∷ [])
  ]

  -- `file` is what the path holds, if it can be opened; `truncates` is whether `::truncate` succeeds,
  -- and `opens` what the final fopen answers. The records are appended to the caller's vector. `none` is a read out of bounds or lack of fuel.
  unfoldable pub recover :
      Option Bytes → Bool → Bool → List Entry → Option (Result WalError Wal × List Entry)
  recover none truncates opens records = some (create opens, records)
  recover (some buf) truncates opens records = do
    r ← recover_loop (suc (length buf)) buf 0 records
    some (reopen buf truncates opens r.0, r.1)

  unfoldable pub encode_frame : Bytes → Bytes → Bytes
  encode_frame key value =
      let head = put_u16_be [] (u16 (length key)) ++ key in
      let frame = put_u16_be head (u16 (length value)) ++ value in put_u32_be frame (crc32 frame)

  -- fwrite: `written` bytes of the buffer reach the file.
  unfoldable pub append : ℕ → Wal → Bytes → Result WalError (Unit {0}) × Wal
  append written wal buf = (
    if written == length buf then ok tt else err write_failed,
    record wal { content = wal.content ++ take written buf },
  )

  unfoldable pub put : ℕ → Wal → Bytes → Bytes → Result WalError (Unit {0}) × Wal
  unfolding append encode_frame
  put written wal key value =
      if wal.fp then append written wal (encode_frame key value) else (err null_fp, wal)

  -- The loop of `put_batch`: each checksum is over the buffer from `start_idx` on.
  unfoldable pub batch_loop : Bytes → List Entry → Bytes
  batch_loop buffer [] = buffer
  batch_loop buffer ((key, value) ∷ batch) =
      let start_idx = length buffer in
      let head = put_u16_be buffer (u16 (length key)) ++ key in
      let frame = put_u16_be head (u16 (length value)) ++ value in
      batch_loop (put_u32_be frame (crc32 (drop start_idx frame))) batch

  unfoldable pub put_batch : ℕ → Wal → List Entry → Result WalError (Unit {0}) × Wal
  unfolding append batch_loop
  put_batch written wal batch =
      if wal.fp then append written wal (batch_loop [] batch) else (err null_fp, wal)

-- fflush answers `flushed`; the result of fsync is ignored by the code.
unfoldable pub sync : Bool → Wal → Result WalError (Unit {0})
sync flushed wal = if wal.fp then (if flushed then ok tt else err flush_failed) else err null_fp
