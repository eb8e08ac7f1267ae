-- ===== src/Wal/Torn.antt =====
-- src/wal.cpp: recovery of a log that a crash cut.
use native.Mathlib.Decide.{dec_lt}
use mini_lsm_cpp.Prelude.{
  ℕ, zero, suc, ◌+◌, ◌-◌, ◌^◌, ◌≤◌, ◌<◌, ◌≡◌, refl, sym, ap, ap₂, ◌∙◌, true, false, Bool, List, [],
  ◌∷◌, ◌++◌, Option, some, ok, Result, take_append, ==_ne, Bytes, All, u16, length, length-append,
  length-take, take, drop, take_append_past, take_append_inside, take_all, drop_append,
  append_assoc, append-nil, leb, arith, if◌then◌else◌, ==_refl,
}
use mini_lsm_cpp.Endian.{put_u16_be, put_u32_be, read_u16_be}
use mini_lsm_cpp.Endian.RoundTrip.{length-put_u16_be, read-put_u16_be}
use mini_lsm_cpp.Wal.{
  Wal, WalError, Entry, broken, read_frame, recover_loop, recover, reopen, truncated, encode_frame,
}
use mini_lsm_cpp.Wal.Rounds.{no_header, no_key, no_value}
use mini_lsm_cpp.Wal.Frames.{Fits, encode_all, length-encode_frame, frame_shape, read-encode_frame}
use mini_lsm_cpp.Wal.Recovery.{recover_loop_end, recover_loop_step}

-- How many of the records have their whole frame within the first `n` bytes.
pub complete : ℕ → List Entry → ℕ
complete n [] = 0
complete n (e ∷ es) =
    let frame_len = length e.0 + length e.1 + 8 in
    if leb frame_len n then suc (complete (n - frame_len) es) else 0

nothing :
    (pos : ℕ) (records : List Entry)
    → ◌≡◌ {A = Option (ℕ × List Entry)} (some (pos, records)) (some (pos + 0, records ++ []))
nothing pos records =
    ap₂ (λ (p : ℕ) (r : List Entry). some (p, r)) (omega arith) (sym (append-nil records))

complete_nil : (n : ℕ) → complete n [] ≡ 0
unfolding complete
complete_nil n = refl

module _ (crc32 : Bytes → ℕ) where
  -- A frame that is cut off ends the log.
  torn_shape :
      (n : ℕ) (k v p q r : Bytes)
      → length p ≡ 2
      → length q ≡ 2
      → ((r : Bytes) → read_u16_be (p ++ r) ≡ some (length k))
      → ((r : Bytes) → read_u16_be (q ++ r) ≡ some (length v))
      → n < length k + length v + 8
      → n ≤ length (p ++ (k ++ (q ++ r)))
      → read_frame crc32 (take n (p ++ (k ++ (q ++ r)))) ≡ some broken
  torn_shape n k v p q r lp lq rp rq h hn =
      let buf = take n (p ++ (k ++ (q ++ r))) in
      let lb : length buf ≡ n = omega (arith, length-take n (p ++ (k ++ (q ++ r)))) in
      elim (dec_lt n 2) [
        | yes short ↦ no_header crc32 buf (omega arith)
        | no h0 ↦
            let hk : read_u16_be buf ≡ some (length k) =
              rw (take_append_past n p (k ++ (q ++ r)) (omega arith)) (rp _) in
            elim (dec_lt n (2 + length k + 2)) [
              | yes short ↦ no_key crc32 buf (length k) hk (omega arith) (omega arith)
              | no h1 ↦
                  let lpk : length (p ++ k) ≡ 2 + length k = omega (arith, length-append p k) in
                  let e : p ++ (k ++ (q ++ r)) ≡ p ++ k ++ (q ++ r) = simp append_assoc in
                  let hv : read_u16_be (drop (2 + length k) buf) ≡ some (length v) =
                    rw
                      (
                        e,
                        take_append_past n (p ++ k) (q ++ r) (omega arith),
                        drop_append (2 + length k) (p ++ k) (take (n - length (p ++ k)) (q ++ r))
                            (sym lpk),
                        take_append_past (n - length (p ++ k)) q r (omega arith),
                      )
                      (rq _) in
                  no_value crc32 buf (length k) hk (length v) hv (omega arith) (omega arith)
            ]
      ]

  read_frame-take :
      (n : ℕ) (k v : Bytes)
      → Fits (k, v)
      → n < length k + length v + 8
      → read_frame crc32 (take n (encode_frame crc32 k v)) ≡ some broken
  read_frame-take n k v fits h =
      let ek : u16 (length k) ≡ length k = omega arith in
      let ev : u16 (length v) ≡ length v = omega arith in
      let p = put_u16_be [] (u16 (length k)) in
      let q = put_u16_be [] (u16 (length v)) in
      let e = sym (append-nil (encode_frame crc32 k v)) ∙ frame_shape crc32 k v [] in
      rw e (
        torn_shape n k v p q (v ++ (put_u32_be [] (crc32 (p ++ k ++ q ++ v)) ++ []))
          (length-put_u16_be _) (length-put_u16_be _)
          (λ r. rw ek (read-put_u16_be (length k) r fits.0))
          (λ r. rw ev (read-put_u16_be (length v) r fits.1)) h
          (omega (arith, ap length e, length-encode_frame crc32 k v)))

  complete_none :
      (n : ℕ) (e : Entry) (es : List Entry)
      → n < length e.0 + length e.1 + 8
      → complete n (e ∷ es) ≡ 0
  unfolding complete
  complete_none n e es h = ground arith

  complete_one :
      (n : ℕ) (e : Entry) (es : List Entry)
      → length e.0 + length e.1 + 8 ≤ n
      → complete n (e ∷ es) ≡ suc (complete (n - (length e.0 + length e.1 + 8)) es)
  unfolding complete
  complete_one n e es h = ground arith

  module _ (crc_lt : (bs : Bytes) → crc32 bs < 2 ^ 32) where
    -- One whole frame in front of what a crash left of the rest.
    loop_whole :
        (e : Entry) (rest : Bytes) (fuel n pos : ℕ) (records : List Entry)
        → Fits e
        → length e.0 + length e.1 + 8 ≤ n
        → recover_loop crc32 (suc fuel) (take n (encode_frame crc32 e.0 e.1 ++ rest)) pos records
          ≡ recover_loop crc32 fuel
              (take (n - (length e.0 + length e.1 + 8)) rest)
              (pos + (length e.0 + length e.1 + 8))
              (records ++ e ∷ [])
    loop_whole (k, v) rest fuel n pos records fits h =
        let frame = encode_frame crc32 k v in
        let lf = length-encode_frame crc32 k v in
        let tail = take (n - length frame) rest in
        let m = 2 + length k + 2 + length v in
        let step =
          recover_loop_step crc32 fuel (frame ++ tail) pos records k v m
            (read-encode_frame crc32 k v tail fits crc_lt)
            (omega (arith, length-append frame tail)) in
        let em : m + 4 ≡ length k + length v + 8 = omega arith in
        let el : length frame ≡ length k + length v + 8 = lf in
        rw (take_append_past n frame rest (omega (arith, lf))) (
          step
          ∙ ap₂ (λ bs q. recover_loop crc32 fuel bs q (records ++ (k, v) ∷ []))
              (drop_append (m + 4) frame tail (omega (arith, lf)) ∙ ap (λ j. take (n - j) rest) el)
              (ap (λ j. pos + j) em))

    -- The loop on the first `n` bytes of a log.
    pub recover_loop-take :
        (es : List Entry) (fuel n pos : ℕ) (records : List Entry)
        → All Fits es
        → length (take n (encode_all crc32 es)) < fuel
        → recover_loop crc32 fuel (take n (encode_all crc32 es)) pos records
          ≡ some (
            pos + length (encode_all crc32 (take (complete n es) es)),
            records ++ take (complete n es) es,
          )
    recover_loop-take es zero n pos records fits h = absurd (omega arith)
    recover_loop-take [] (suc fuel) n pos records fits h =
        let e : take n [] ≡ [] = take_all {A = ℕ} n [] (omega arith) in
        rw (e, complete_nil n)
          (recover_loop_end crc32 fuel [] pos records (no_header crc32 [] (omega arith))
            ∙ nothing pos records)
    recover_loop-take (e ∷ es) (suc fuel) n pos records fits h =
        elim (dec_lt n (length e.0 + length e.1 + 8)) [
          | yes short ↦
              rw
                (
                  complete_none n e es short,
                  take_append_inside n (encode_frame crc32 e.0 e.1) (encode_all crc32 es)
                      (omega (arith, length-encode_frame crc32 e.0 e.1)),
                )
                (recover_loop_end crc32 fuel _ pos records (read_frame-take n e.0 e.1 fits.0 short)
                  ∙ nothing pos records)
          | no long ↦
              let k = complete (n - (length e.0 + length e.1 + 8)) es in
              rw (complete_one n e es (omega arith)) (
                loop_whole e (encode_all crc32 es) fuel n pos records fits.0 (omega arith)
                ∙ recover_loop-take es fuel (n - (length e.0 + length e.1 + 8))
                    (pos + (length e.0 + length e.1 + 8)) (records ++ e ∷ []) fits.1
                    (omega (
                      arith,
                      length-encode_frame crc32 e.0 e.1,
                      length-take n (encode_all crc32 (e ∷ es)),
                      length-append (encode_frame crc32 e.0 e.1) (encode_all crc32 es),
                      length-take (n - (length e.0 + length e.1 + 8)) (encode_all crc32 es),
                    ))
                ∙ ap₂ (λ (p : ℕ) (r : List Entry). some (p, r))
                    (omega (
                      arith,
                      length-append (encode_frame crc32 e.0 e.1) (encode_all crc32 (take k es)),
                      length-encode_frame crc32 e.0 e.1,
                    ))
                    (append_assoc records (e ∷ []) (take k es)))
        ]

  -- What is left of a cut log begins with its whole frames.
  take-encode_all :
      (n : ℕ) (es : List Entry)
      → (t : Bytes) × (take n (encode_all crc32 es)
          ≡ encode_all crc32 (take (complete n es) es) ++ t)
  take-encode_all n [] = (take n [], rw (complete_nil n))
  take-encode_all n (e ∷ es) = elim (dec_lt n (length e.0 + length e.1 + 8)) [
    | yes short ↦ (take n (encode_all crc32 (e ∷ es)), rw (complete_none n e es short))
    | no long ↦
        let frame = encode_frame crc32 e.0 e.1 in
        let lf = length-encode_frame crc32 e.0 e.1 in
        let (t, et) = take-encode_all (n - (length e.0 + length e.1 + 8)) es in
        (
          t,
          rw (complete_one n e es (omega arith)) (
              take_append_past n frame (encode_all crc32 es) (omega (arith, lf))
              ∙ ap (λ j. frame ++ take (n - j) (encode_all crc32 es)) lf
              ∙ ap (λ bs. frame ++ bs) et
              ∙ sym (append_assoc frame _ t)),
        )
  ]

  reopen_whole :
      (good t : Bytes) (truncates : Bool)
      → reopen (good ++ t) truncates true (length good)
        ≡ ok (record { fp = true; content = if truncates then good else good ++ t })
  unfolding reopen truncated
  reopen_whole good [] true = rw (append-nil good, ==_refl (length good))
  reopen_whole good [] false = rw (append-nil good, ==_refl (length good))
  reopen_whole good (b ∷ t) true = rw (
    ==_ne (length good) (length (good ++ b ∷ t)) (omega (arith, length-append good (b ∷ t))),
    take_append (length good) good (b ∷ t) refl,
  )
  reopen_whole good (b ∷ t) false =
      rw (==_ne (length good) (length (good ++ b ∷ t)) (omega (arith, length-append good (b ∷ t))))

  -- With a checksum of 32 bits, a log of records that fit their fields, cut to any n bytes and
  -- opened again by recovery, recovers exactly the records whose frames are whole. The log is
  -- then the file of those frames, or, where ::truncate fails, still the cut file.
  pub recover-take :
      ((bs : Bytes) → crc32 bs < 2 ^ 32)
      → (es : List Entry) (n : ℕ) (truncates : Bool) → All Fits es
      → let cut = take n (encode_all crc32 es) in
        recover crc32 (some cut) truncates true []
        ≡ some (
          ok (record {
            fp = true;
            content = if truncates then encode_all crc32 (take (complete n es) es) else cut;
          }),
          take (complete n es) es,
        )
  unfolding recover
  recover-take crc_lt es n truncates fits =
      let good = encode_all crc32 (take (complete n es) es) in
      let (t, et) = take-encode_all n es in
      let loop =
        recover_loop-take crc_lt es (suc (length (take n (encode_all crc32 es)))) n 0 [] fits
          (omega arith) in
      rw loop (
        ap (λ (r : Result WalError Wal). some (r, take (complete n es) es))
          (ap₂ (λ bs p. reopen bs truncates true p) et (omega arith)
            ∙ reopen_whole good t truncates
            ∙ ap (λ bs. ok (record { fp = true; content = if truncates then good else bs }))
                (sym et)))
