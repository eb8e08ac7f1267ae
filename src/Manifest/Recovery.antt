-- ===== src/Manifest/Recovery.antt =====
-- src/manifest.cpp: recovery of a manifest that was written whole.
use mini_lsm_cpp.Prelude.{
  ℕ, zero, suc, ◌+◌, ◌^◌, ◌<◌, ◌≡◌, refl, sym, ap, ◌∙◌, true, List, [], ◌∷◌, ◌++◌, some, Bytes, ok,
  err, Result, length, length-append, take, drop, drop_append, append_assoc, append-nil, arith, All,
  take_all, lt→ltb, drop_all,
}
use mini_lsm_cpp.Json.{JsonLibrary, JsonLaws}
use mini_lsm_cpp.Json.Records.{ManifestRecord}
use mini_lsm_cpp.Manifest.{
  Manifest, ManifestError, create, frame, write_all, overwrite, add_record, add_record_when_init,
  read_record, recover_loop, recovered, recover,
}
use mini_lsm_cpp.Manifest.Frames.{text, IsWritten, encode_all, length-frame, read_record-frame}

-- A manifest whose offset is the end of its file.
abbrev pub at_end : Bytes → Manifest
at_end content = record { fd = true; offset = length content; content = content }

module _ (J : JsonLibrary) (crc32 : Bytes → ℕ) where
  pub recover_loop_step :
      (fuel n : ℕ) (buf : Bytes) (rs : List ManifestRecord) (r : ManifestRecord)
      → read_record J crc32 buf ≡ some (ok (r, n))
      → 0 < length buf
      → recover_loop J crc32 (suc fuel) buf rs
        ≡ recover_loop J crc32 fuel (drop n buf) (rs ++ r ∷ [])
  unfolding recover_loop
  recover_loop_step fuel n [] rs r e h = absurd (omega arith)
  recover_loop_step fuel n (b ∷ bs) rs r e h = rw (e, recover_loop)

  pub recover_loop_failed :
      (fuel : ℕ) (buf : Bytes) (rs : List ManifestRecord) (e : ManifestError)
      → read_record J crc32 buf ≡ some (err e)
      → 0 < length buf
      → recover_loop J crc32 (suc fuel) buf rs ≡ some (err e)
  unfolding recover_loop
  recover_loop_failed fuel [] rs e h l = absurd (omega arith)
  recover_loop_failed fuel (b ∷ bs) rs e h l = rw (h, recover_loop)

  pub recover-loop :
      (content : Bytes) (r : Result ManifestError (List ManifestRecord))
      → recover_loop J crc32 (suc (length content)) content [] ≡ some r
      → recover J crc32 true true true content ≡ some (recovered J crc32 content r)
  unfolding recover
  recover-loop [] r e = rw e
  recover-loop (b ∷ bs) r e = rw (lt→ltb 0 (length (b ∷ bs)) (omega arith), e)

  module _ (laws : JsonLaws J) (crc_lt : (bs : Bytes) → crc32 bs < 2 ^ 32) where
    -- The loop over whole frames, with what follows them, on what is left of the fuel.
    pub recover_loop-encode_all :
        (rs : List ManifestRecord) (fuel : ℕ) (tail : Bytes) (acc : List ManifestRecord)
        → All (IsWritten J crc32) rs
        → length (encode_all J crc32 rs ++ tail) < fuel
        → (left : ℕ) × (length tail < left)
          × (recover_loop J crc32 fuel (encode_all J crc32 rs ++ tail) acc
              ≡ recover_loop J crc32 left tail (acc ++ rs))
    recover_loop-encode_all [] fuel tail acc w h = (fuel, h, rw (append-nil acc))
    recover_loop-encode_all (r ∷ rs) zero tail acc w h = absurd (omega arith)
    recover_loop-encode_all (r ∷ rs) (suc fuel) tail acc w h =
        let f = frame J crc32 (text J crc32 r) in
        let rest = encode_all J crc32 rs ++ tail in
        let lf = length-frame J crc32 (text J crc32 r) in
        let n = 8 + (length (text J crc32 r) + 4) in
        let e : encode_all J crc32 (r ∷ rs) ++ tail ≡ f ++ rest =
          append_assoc f (encode_all J crc32 rs) tail in
        let la = length-append f rest in
        let (left, l, ih) =
          recover_loop-encode_all rs fuel tail (acc ++ r ∷ []) w.1 (omega (arith, ap length e)) in
        (
          left,
          l,
          rw e (
              recover_loop_step fuel n (f ++ rest) acc r
                (read_record-frame J crc32 laws crc_lt r rest w.0) (omega arith)
              ∙ rw (drop_append n f rest (omega arith)) ih
              ∙ ap (recover_loop J crc32 left tail) (append_assoc acc (r ∷ []) rs)),
        )

  -- The records, added with no error.
  abbrev pub add_all : Manifest → List ManifestRecord → Manifest
  add_all m [] = m
  add_all m (r ∷ rs) =
      add_all (add_record J crc32 (length (frame J crc32 (text J crc32 r))) true m r).1 rs

  pub add_record-at_end :
      (written : ℕ) (content : Bytes) (r : ManifestRecord)
      → IsWritten J crc32 r
      → add_record J crc32 written true (at_end content) r ≡ (
        (write_all written true (at_end content) (frame J crc32 (text J crc32 r))).0,
        at_end (content ++ take written (frame J crc32 (text J crc32 r))),
      )
  unfolding add_record add_record_when_init write_all overwrite
  add_record-at_end written content r w =
      let some_bytes = take written (frame J crc32 (text J crc32 r)) in
      let e : take (length content) content
            ++ some_bytes
            ++ drop (length content + length some_bytes) content
          ≡ content ++ some_bytes =
        rw
          (
            take_all (length content) content (omega arith),
            drop_all (length content + length some_bytes) content (omega arith),
          )
          (append-nil (content ++ some_bytes)) in
      rw (w.0, e, length-append content some_bytes)

  pub add_all-at_end :
      (rs : List ManifestRecord) (content : Bytes)
      → All (IsWritten J crc32) rs
      → add_all (at_end content) rs ≡ at_end (content ++ encode_all J crc32 rs)
  add_all-at_end [] content w = ap at_end (sym (append-nil content))
  add_all-at_end (r ∷ rs) content w =
      let f = frame J crc32 (text J crc32 r) in
      ap (λ (p : Result ManifestError (Unit {0}) × Manifest). add_all p.1 rs)
        (add_record-at_end (length f) content r w.0)
      ∙ rw (take_all (length f) f (omega arith)) (
          add_all-at_end rs (content ++ f) w.1
          ∙ ap at_end (append_assoc content f (encode_all J crc32 rs)))

  created : Result ManifestError Manifest → Manifest
  created (ok m) = m
  created (err e) = at_end []

  pub create-at_end : (m : Manifest) → create true ≡ ok m → m ≡ at_end []
  unfolding created create
  create-at_end m h = sym (ap created h)

  recover_loop-end :
      (fuel : ℕ) (rs : List ManifestRecord)
      → 0 < fuel
      → recover_loop J crc32 fuel [] rs ≡ some (ok rs)
  unfolding recover_loop
  recover_loop-end zero rs h = absurd (omega arith)
  recover_loop-end (suc fuel) rs h = refl

  pub recover-encode_all :
      JsonLaws J
      → ((bs : Bytes) → crc32 bs < 2 ^ 32)
      → (rs : List ManifestRecord) → All (IsWritten J crc32) rs
      → recover J crc32 true true true (encode_all J crc32 rs)
        ≡ some (ok (record { fd = true; offset = 0; content = encode_all J crc32 rs }, rs))
  unfolding recovered
  recover-encode_all laws crc_lt rs w =
      let content = encode_all J crc32 rs in
      let (left, l, e) =
        recover_loop-encode_all laws crc_lt rs (suc (length content)) [] [] w
          (omega (arith, ap length (append-nil content))) in
      recover-loop content (ok rs) (
        ap (λ c. recover_loop J crc32 (suc (length content)) c []) (sym (append-nil content))
        ∙ e
        ∙ recover_loop-end left rs (omega arith))

  -- With a checksum of 32 bits and a JSON library that keeps its laws and writes each of the
  -- records as a text it reads back, recovery of a manifest that was created and took the
  -- records gives back just these records.
  pub recover-add_all :
      JsonLaws J
      → ((bs : Bytes) → crc32 bs < 2 ^ 32)
      → (m : Manifest) (rs : List ManifestRecord) → create true ≡ ok m
      → All (IsWritten J crc32) rs
      → recover J crc32 true true true (add_all m rs).content
        ≡ some (ok (record { fd = true; offset = 0; content = (add_all m rs).content }, rs))
  recover-add_all laws crc_lt m rs h w =
      let e : add_all m rs ≡ at_end (encode_all J crc32 rs) =
        ap (λ n. add_all n rs) (create-at_end m h) ∙ add_all-at_end rs [] w in
      rw e (recover-encode_all laws crc_lt rs w)
