-- ===== src/Manifest/Reopened.antt =====
-- src/manifest.cpp: a record that is added to a recovered manifest, and a length field whose test
-- wraps around.
use mini_lsm_cpp.Prelude.{
  ℕ, zero, suc, ◌+◌, ◌-◌, ◌^◌, ◌≤◌, ◌<◌, ◌≡◌, refl, sym, ap, true, List, [], ◌∷◌, ◌++◌, some, none,
  Bytes, u64, ok, length, length-append, drop, drop_append, drop_all, take_all, arith, All, le→ltb,
  lt→ltb,
}
use mini_lsm_cpp.Endian.{put_u64_be, read_u32_be, read_u64_be}
use mini_lsm_cpp.Endian.RoundTrip.{length-put_u64_be, read-put_u64_be}
use mini_lsm_cpp.Json.{JsonLibrary, JsonLaws}
use mini_lsm_cpp.Json.Records.{ManifestRecord}
use mini_lsm_cpp.Manifest.{
  Manifest, frame, write_all, overwrite, add_record, add_record_when_init, read_record,
  recover_loop, recover,
}
use mini_lsm_cpp.Manifest.Frames.{text, IsWritten, encode_all, length-frame}
use mini_lsm_cpp.Manifest.Recovery.{recover-encode_all}

-- What `recover` answers has the offset 0.
abbrev pub recovered_from : Bytes → Manifest
recovered_from content = record { fd = true; offset = 0; content = content }

module _ (J : JsonLibrary) (crc32 : Bytes → ℕ) where
  add_record-start :
      (content : Bytes) (r : ManifestRecord)
      → IsWritten J crc32 r
      → let f = frame J crc32 (text J crc32 r) in
        (add_record J crc32 (length f) true (recovered_from content) r).1.content
        ≡ f ++ drop (length f) content
  unfolding add_record add_record_when_init write_all overwrite
  add_record-start content r w =
      let f = frame J crc32 (text J crc32 r) in
      rw (w.0, take_all (length f) f (omega arith)) (ap (λ k. f ++ drop k content) (omega arith))

  -- With a checksum of 32 bits and a JSON library that keeps its laws and writes the records as
  -- texts it reads back: after a recovered manifest takes a record with a text as long as that
  -- of its first one, recovery gives the new record in the place of the first one, and the later
  -- ones.
  pub recover-add_record :
      JsonLaws J
      → ((bs : Bytes) → crc32 bs < 2 ^ 32)
      → (old : ManifestRecord) (rs : List ManifestRecord) (r : ManifestRecord)
      → IsWritten J crc32 old
      → All (IsWritten J crc32) rs
      → IsWritten J crc32 r
      → length (text J crc32 r) ≡ length (text J crc32 old)
      → let content = encode_all J crc32 (old ∷ rs) in
        let after = encode_all J crc32 (r ∷ rs) in
        let added =
          add_record J crc32
            (length (frame J crc32 (text J crc32 r)))
            true
            (recovered_from content)
            r in
        (recover J crc32 true true true content ≡ some (ok (recovered_from content, old ∷ rs)))
        × (recover J crc32 true true true added.1.content
            ≡ some (ok (recovered_from after, r ∷ rs)))
  recover-add_record laws crc_lt old rs r wo ws wr same =
      let f = frame J crc32 (text J crc32 r) in
      let g = frame J crc32 (text J crc32 old) in
      let rest = encode_all J crc32 rs in
      let e : drop (length f) (g ++ rest) ≡ rest = drop_append (length f) g rest (
        omega (
          arith,
          length-frame J crc32 (text J crc32 r),
          length-frame J crc32 (text J crc32 old),
        )) in
      (
        recover-encode_all J crc32 laws crc_lt (old ∷ rs) (wo, ws),
        rw (add_record-start (g ++ rest) r wr, e)
            (recover-encode_all J crc32 laws crc_lt (r ∷ rs) (wr, ws)),
      )

  unread :
      (p body : Bytes) (len : ℕ)
      → length p ≡ 8
      → ((x : Bytes) → read_u64_be (p ++ x) ≡ some len)
      → 2 ^ 64 ≤ len + 4
      → len < 2 ^ 64
      → length body < len
      → len + 4 - 2 ^ 64 ≤ length body
      → read_record J crc32 (p ++ body) ≡ none
  unfolding read_record read_u32_be
  unread p body len lp rp big small past enough = rw (
    le→ltb (length (p ++ body)) 8 (omega (arith, length-append p body)),
    rp body,
    drop_append 8 p body (sym lp),
    le→ltb (length body) (u64 (len + 4)) (omega arith),
    drop_all (8 + len) (p ++ body) (omega (arith, length-append p body)),
  )

  unread_loop :
      (fuel : ℕ) (buf : Bytes) (rs : List ManifestRecord)
      → 0 < length buf
      → read_record J crc32 buf ≡ none
      → recover_loop J crc32 fuel buf rs ≡ none
  unfolding recover_loop
  unread_loop zero buf rs h e = refl
  unread_loop (suc fuel) [] rs h e = absurd (omega arith)
  unread_loop (suc fuel) (b ∷ bs) rs h e = rw (e, recover_loop)

  -- If the length at the start of a manifest is 2^64 - 4 or more, with the bytes behind it fewer
  -- than the length but enough for its remainder past 2^64 after four are added, recovery reads
  -- out of bounds.
  pub recover-put_u64_be :
      (len : ℕ) (body : Bytes)
      → 2 ^ 64 ≤ len + 4
      → len < 2 ^ 64
      → length body < len
      → len + 4 - 2 ^ 64 ≤ length body
      → recover J crc32 true true true (put_u64_be [] len ++ body) ≡ none
  unfolding recover
  recover-put_u64_be len body big small past enough =
      let p = put_u64_be [] len in
      let lp = length-put_u64_be len in
      let content = p ++ body in
      let l : 0 < length content = omega (arith, length-append p body) in
      rw (
        lt→ltb 0 (length content) l,
        unread_loop (suc (length content)) content [] l
            (unread p body len lp (λ x. read-put_u64_be len x small) big small past enough),
      )
