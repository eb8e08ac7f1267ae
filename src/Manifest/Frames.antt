-- ===== src/Manifest/Frames.antt =====
-- src/manifest.cpp: the frame of a record, and how a round of the loop reads it.
use mini_lsm_cpp.Prelude.{
  ℕ, ◌+◌, ◌^◌, ◌<◌, ◌≡◌, refl, sym, ap, ◌∙◌, List, [], ◌∷◌, ◌++◌, Option, some, none, Bytes, u64,
  ok, err, length, length-append, take, drop, take_append, drop_append, append_assoc, append-nil,
  arith, ==_refl, le→ltb, lt→ltb,
}
use mini_lsm_cpp.Endian.{put_u32_be, put_u64_be, read_u32_be, read_u64_be}
use mini_lsm_cpp.Endian.RoundTrip.{
  put_u32_be-append, length-put_u32_be, length-put_u64_be, read-put_u32_be, read-put_u64_be,
}
use mini_lsm_cpp.Json.{JsonLibrary, JsonLaws}
use mini_lsm_cpp.Json.Records.{ManifestRecord, record_to_json, record_from_json}
use mini_lsm_cpp.Json.RoundTrip.{record_from_json-record_to_json}
use mini_lsm_cpp.Manifest.{frame, read_record, parse_record, incomplete_record}

module _ (J : JsonLibrary) (crc32 : Bytes → ℕ) where
  abbrev dumped : Option Bytes → Bytes
  dumped none = []
  dumped (some s) = s

  -- The text of a record.
  abbrev pub text : ManifestRecord → Bytes
  text r = dumped (J.dump (record_to_json J r))

  -- The library writes the record as a text that it reads back, whose length leaves room for the
  -- checksum's in 64 bits.
  abbrev pub IsWritten : ManifestRecord → Type 0
  IsWritten r =
      (J.dump (record_to_json J r) ≡ some (text r))
      × (J.parse (text r) ≡ some (record_to_json J r))
      × (length (text r) + 4 < 2 ^ 64)

  abbrev pub encode_all : List ManifestRecord → Bytes
  encode_all [] = []
  encode_all (r ∷ rs) = frame J crc32 (text r) ++ encode_all rs

  pub frame_shape :
      (s rest : Bytes)
      → frame J crc32 s ++ rest
        ≡ put_u64_be [] (u64 (length s)) ++ (s ++ (put_u32_be [] (crc32 s) ++ rest))
  unfolding frame
  frame_shape s rest =
      rw (put_u32_be-append (put_u64_be [] (u64 (length s)) ++ s) (crc32 s)) (simp append_assoc)

  pub length-frame : (s : Bytes) → length (frame J crc32 s) ≡ length s + 12
  length-frame s =
      let p = put_u64_be [] (u64 (length s)) in
      let c = put_u32_be [] (crc32 s) in
      omega (
        arith,
        ap length (sym (append-nil (frame J crc32 s)) ∙ frame_shape s []),
        length-append p (s ++ (c ++ [])),
        length-append s (c ++ []),
        length-append c [],
        length-put_u64_be (u64 (length s)),
        length-put_u32_be (crc32 s),
      )

  -- A round on a header and what follows it.
  pub read_header :
      (s p r : Bytes)
      → length p ≡ 8
      → ((x : Bytes) → read_u64_be (p ++ x) ≡ some (length s))
      → length s + 4 < 2 ^ 64
      → length r < length s + 4
      → read_record J crc32 (p ++ r) ≡ some (err incomplete_record)
  unfolding read_record
  read_header s p r lp rp small short =
      let e : u64 (length s + 4) ≡ length s + 4 = omega arith in
      rw (
        le→ltb (length (p ++ r)) 8 (omega (arith, length-append p r)),
        rp r,
        drop_append 8 p r (sym lp),
        e,
        lt→ltb (length r) (length s + 4) short,
      )

  parsed :
      (s : Bytes) (j : J.Json) (r : ManifestRecord) (n : ℕ)
      → J.parse s ≡ some j
      → record_from_json J j ≡ some r
      → parse_record J crc32 s n ≡ ok (r, n)
  unfolding parse_record
  parsed s j r n e f = rw (e, f)

  module _ (laws : JsonLaws J) (crc_lt : (bs : Bytes) → crc32 bs < 2 ^ 32) where
    parse_record-text :
        (r : ManifestRecord) (n : ℕ) → IsWritten r → parse_record J crc32 (text r) n ≡ ok (r, n)
    parse_record-text r n w =
        parsed (text r) (record_to_json J r) r n w.1 (record_from_json-record_to_json J laws r)

    read_shape :
        (r : ManifestRecord) (p c rest : Bytes)
        → IsWritten r
        → length p ≡ 8
        → ((x : Bytes) → read_u64_be (p ++ x) ≡ some (length (text r)))
        → length c ≡ 4
        → ((x : Bytes) → read_u32_be (c ++ x) ≡ some (crc32 (text r)))
        → read_record J crc32 (p ++ (text r ++ (c ++ rest)))
          ≡ some (ok (r, 8 + (length (text r) + 4)))
    unfolding read_record
    read_shape r p c rest w lp rp lc rc =
        let s = text r in
        let buf = p ++ (s ++ (c ++ rest)) in
        let d8 : drop 8 buf ≡ s ++ (c ++ rest) = drop_append 8 p _ (sym lp) in
        let e : buf ≡ p ++ s ++ (c ++ rest) = simp append_assoc in
        let dn : drop (8 + length s) buf ≡ c ++ rest =
          rw e
            (drop_append (8 + length s) (p ++ s) (c ++ rest) (omega (arith, length-append p s))) in
        let ts : take (length s) (s ++ (c ++ rest)) ≡ s = take_append _ s _ refl in
        let eu : u64 (length s + 4) ≡ length s + 4 = omega (arith, w.2) in
        rw (
          le→ltb (length buf) 8 (omega (arith, length-append p (s ++ (c ++ rest)))),
          rp (s ++ (c ++ rest)),
          d8,
          eu,
          le→ltb (length (s ++ (c ++ rest))) (length s + 4)
              (omega (arith, length-append s (c ++ rest), length-append c rest)),
          dn,
          rc rest,
          ts,
          ==_refl (crc32 s),
          parse_record-text r (8 + (length s + 4)) w,
        )

    pub read_record-frame :
        (r : ManifestRecord) (rest : Bytes)
        → IsWritten r
        → read_record J crc32 (frame J crc32 (text r) ++ rest)
          ≡ some (ok (r, 8 + (length (text r) + 4)))
    read_record-frame r rest w =
        let s = text r in
        let eu : u64 (length s) ≡ length s = omega (arith, w.2) in
        rw (frame_shape s rest) (
          read_shape r (put_u64_be [] (u64 (length s))) (put_u32_be [] (crc32 s)) rest w
            (length-put_u64_be _) (λ x. rw eu (read-put_u64_be (length s) x (omega (arith, w.2))))
            (length-put_u32_be _) (λ x. read-put_u32_be (crc32 s) x (crc_lt s)))
