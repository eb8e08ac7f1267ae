-- ===== src/Manifest/Torn.antt =====
-- src/manifest.cpp: a write that stops inside a record, and the recovery after it.
use native.Mathlib.Decide.{dec_lt}
use mini_lsm_cpp.Prelude.{
  ℕ, zero, suc, ◌+◌, ◌-◌, ◌^◌, ◌<◌, ◌≡◌, sym, ap, ◌∙◌, true, List, [], ◌++◌, some, Bytes, u64, ok,
  err, length, length-take, take, take_append_past, append-nil, arith, All, if◌then◌else◌, ltb,
  lt→ltb, le→ltb, ==_ne,
}
use mini_lsm_cpp.Endian.{put_u32_be, put_u64_be}
use mini_lsm_cpp.Endian.RoundTrip.{length-put_u64_be, read-put_u64_be}
use mini_lsm_cpp.Json.{JsonLibrary, JsonLaws}
use mini_lsm_cpp.Json.Records.{ManifestRecord}
use mini_lsm_cpp.Manifest.{
  Manifest, ManifestError, incomplete_header, incomplete_record, write_failed, create, frame,
  write_all, add_record, read_record, recover_loop, recovered, recover,
}
use mini_lsm_cpp.Manifest.Frames.{
  text, IsWritten, encode_all, length-frame, frame_shape, read_header,
}
use mini_lsm_cpp.Manifest.Recovery.{
  recover_loop_failed, recover-loop, recover_loop-encode_all, at_end, add_all, add_record-at_end,
  add_all-at_end, create-at_end,
}

module _ (J : JsonLibrary) (crc32 : Bytes → ℕ) where
  short_header :
      (buf : Bytes) → length buf < 8 → read_record J crc32 buf ≡ some (err incomplete_header)
  unfolding read_record
  short_header buf h = rw (lt→ltb (length buf) 8 h)

  read_record-torn :
      (s : Bytes) (n : ℕ)
      → length s + 4 < 2 ^ 64
      → n < length (frame J crc32 s)
      → read_record J crc32 (take n (frame J crc32 s))
        ≡ some (err (if ltb n 8 then incomplete_header else incomplete_record))
  read_record-torn s n small h = elim (dec_lt n 8) [
    | yes short ↦
        rw (lt→ltb n 8 short)
          (short_header (take n (frame J crc32 s)) (omega (arith, length-take n (frame J crc32 s))))
    | no long ↦
        let p = put_u64_be [] (u64 (length s)) in
        let rest = s ++ (put_u32_be [] (crc32 s) ++ []) in
        let lp : length p ≡ 8 = length-put_u64_be (u64 (length s)) in
        let eu : u64 (length s) ≡ length s = omega arith in
        let e : take n (frame J crc32 s) ≡ p ++ take (n - 8) rest =
          ap (take n) (sym (append-nil (frame J crc32 s)) ∙ frame_shape J crc32 s [])
          ∙ take_append_past n p rest (omega arith)
          ∙ ap (λ k. p ++ take (n - k) rest) lp in
        rw (le→ltb n 8 (omega arith), e)
          (read_header J crc32 s p (take (n - 8) rest) lp
            (λ x. rw eu (read-put_u64_be (length s) x (omega arith))) small
            (omega (arith, length-take (n - 8) rest, length-frame J crc32 s)))
  ]

  recover-torn :
      JsonLaws J
      → ((bs : Bytes) → crc32 bs < 2 ^ 32)
      → (rs : List ManifestRecord) (r : ManifestRecord) (n : ℕ) → All (IsWritten J crc32) rs
      → IsWritten J crc32 r
      → 0 < n
      → n < length (frame J crc32 (text J crc32 r))
      → recover J crc32 true true true
          (encode_all J crc32 rs ++ take n (frame J crc32 (text J crc32 r)))
        ≡ some (err (if ltb n 8 then incomplete_header else incomplete_record))
  unfolding recovered
  recover-torn laws crc_lt rs r n w wr h0 h =
      let e = if ltb n 8 then incomplete_header else incomplete_record in
      let f = frame J crc32 (text J crc32 r) in
      let tail = take n f in
      let content = encode_all J crc32 rs ++ tail in
      let lt = length-take n f in
      let (left, l, eq) =
        recover_loop-encode_all J crc32 laws crc_lt rs (suc (length content)) tail [] w
          (omega arith) in
      recover-loop J crc32 content (err e)
        (eq ∙ torn left tail rs e l (read_record-torn (text J crc32 r) n wr.2 h) (omega arith))
    where
      torn :
          (left : ℕ) (tail : Bytes) (rs : List ManifestRecord) (e : ManifestError)
          → length tail < left
          → read_record J crc32 tail ≡ some (err e)
          → 0 < length tail
          → recover_loop J crc32 left tail rs ≡ some (err e)
      torn zero tail rs e l h p = absurd (omega arith)
      torn (suc left) tail rs e l h p = recover_loop_failed J crc32 left tail rs e h p

  -- With a checksum of 32 bits and a JSON library that keeps its laws and writes the records as
  -- texts it reads back: if the last record added to a created manifest reaches the file in
  -- part, but not with no byte, the call answers that the write failed, and recovery of the file
  -- fails, with an incomplete header below eight bytes and an incomplete record from there on.
  pub add_record-recover :
      JsonLaws J
      → ((bs : Bytes) → crc32 bs < 2 ^ 32)
      → (m : Manifest) (rs : List ManifestRecord) (r : ManifestRecord) (n : ℕ) → create true ≡ ok m
      → All (IsWritten J crc32) rs
      → IsWritten J crc32 r
      → 0 < n
      → n < length (frame J crc32 (text J crc32 r))
      → let torn = add_record J crc32 n true (add_all J crc32 m rs) r in
        (torn.0 ≡ err write_failed)
        × (recover J crc32 true true true torn.1.content
            ≡ some (err (if ltb n 8 then incomplete_header else incomplete_record)))
  unfolding write_all
  add_record-recover laws crc_lt m rs r n h w wr h0 hn =
      let f = frame J crc32 (text J crc32 r) in
      let e : add_all J crc32 m rs ≡ at_end (encode_all J crc32 rs) =
        ap (λ n. add_all J crc32 n rs) (create-at_end J crc32 m h)
        ∙ add_all-at_end J crc32 rs [] w in
      rw (e, add_record-at_end J crc32 n (encode_all J crc32 rs) r wr)
        (rw (==_ne n (length f) (λ q. omega arith)), recover-torn laws crc_lt rs r n w wr h0 hn)
