-- ===== src/Wal/Frames.antt =====
-- The frames that `put` and `put_batch` write, and how a frame is read back.
use mini_lsm_cpp.Prelude.{
  ℕ, ◌+◌, ◌^◌, ◌≤◌, ◌<◌, ◌≡◌, refl, sym, ap, ap₂, ◌∙◌, List, [], ◌∷◌, ◌++◌, some, Bytes, u16,
  length, length-append, take, drop, take_append, drop_append, append_assoc, append-nil, arith,
  ==_refl,
}
use mini_lsm_cpp.Endian.{put_u16_be, put_u32_be, read_u16_be, read_u32_be}
use mini_lsm_cpp.Endian.RoundTrip.{
  put_u16_be-append, put_u32_be-append, length-put_u16_be, length-put_u32_be, read-put_u16_be,
  read-put_u32_be,
}
use mini_lsm_cpp.Wal.Rounds.{whole}
use mini_lsm_cpp.Wal.{Entry, intact, read_frame, encode_frame, batch_loop}

-- The lengths fit the frame's 16-bit fields.
abbrev pub Fits : Entry → Type 0
Fits e = (length e.0 < 2 ^ 16) × (length e.1 < 2 ^ 16)

module _ (crc32 : Bytes → ℕ) where
  abbrev pub frame_content : Bytes → Bytes → Bytes
  frame_content key value =
      put_u16_be [] (u16 (length key)) ++ key ++ put_u16_be [] (u16 (length value)) ++ value

  abbrev pub encode_all : List Entry → Bytes
  encode_all [] = []
  encode_all (e ∷ es) = encode_frame crc32 e.0 e.1 ++ encode_all es

  pub frame_shape :
      (k v rest : Bytes)
      → let p = put_u16_be [] (u16 (length k)) in
        let q = put_u16_be [] (u16 (length v)) in
        let c = put_u32_be [] (crc32 (p ++ k ++ q ++ v)) in
        encode_frame crc32 k v ++ rest ≡ p ++ (k ++ (q ++ (v ++ (c ++ rest))))
  unfolding encode_frame
  frame_shape k v rest =
      rw (put_u16_be-append (put_u16_be [] (u16 (length k)) ++ k) (u16 (length v))) (
        rw
          (put_u32_be-append
            (put_u16_be [] (u16 (length k)) ++ k ++ put_u16_be [] (u16 (length v)) ++ v))
          (simp append_assoc))

  pub length-encode_frame :
      (k v : Bytes) → length (encode_frame crc32 k v) ≡ length k + length v + 8
  length-encode_frame k v =
      let p = put_u16_be [] (u16 (length k)) in
      let q = put_u16_be [] (u16 (length v)) in
      let c = put_u32_be [] (crc32 (p ++ k ++ q ++ v)) in
      omega (
        arith,
        ap length (sym (append-nil (encode_frame crc32 k v)) ∙ frame_shape k v []),
        length-append p (k ++ (q ++ (v ++ (c ++ [])))),
        length-append k (q ++ (v ++ (c ++ []))),
        length-append q (v ++ (c ++ [])),
        length-append v (c ++ []),
        length-append c [],
        length-put_u16_be (u16 (length k)),
        length-put_u16_be (u16 (length v)),
        length-put_u32_be (crc32 (p ++ k ++ q ++ v)),
      )

  -- A buffer in the shape of a frame, part by part.
  read_frame_shape :
      (k v rest p q c : Bytes) (crc : ℕ)
      → length p ≡ 2
      → length q ≡ 2
      → length c ≡ 4
      → ((r : Bytes) → read_u16_be (p ++ r) ≡ some (length k))
      → ((r : Bytes) → read_u16_be (q ++ r) ≡ some (length v))
      → ((r : Bytes) → read_u32_be (c ++ r) ≡ some crc)
      → crc32 (p ++ k ++ q ++ v) ≡ crc
      → read_frame crc32 (p ++ (k ++ (q ++ (v ++ (c ++ rest)))))
        ≡ some (intact k v (2 + length k + 2 + length v))
  read_frame_shape k v rest p q c crc lp lq lc rp rq rc hc =
      let from_q = q ++ (v ++ (c ++ rest)) in
      let buf = p ++ (k ++ from_q) in
      let n = 2 + length k + 2 + length v in
      let lpk : length (p ++ k) ≡ 2 + length k = omega (arith, length-append p k) in
      let lpkq : length (p ++ k ++ q) ≡ 2 + length k + 2 =
        omega (arith, length-append (p ++ k) q) in
      let lall : length (p ++ k ++ q ++ v) ≡ n = omega (arith, length-append (p ++ k ++ q) v) in
      let e1 : buf ≡ p ++ k ++ from_q = simp append_assoc in
      let e2 : buf ≡ p ++ k ++ q ++ (v ++ (c ++ rest)) = simp append_assoc in
      let e3 : buf ≡ p ++ k ++ q ++ v ++ (c ++ rest) = simp append_assoc in
      let d2 : drop 2 buf ≡ k ++ from_q = drop_append 2 p _ (sym lp) in
      let dk : drop (2 + length k) buf ≡ from_q = rw e1 (drop_append _ (p ++ k) _ (sym lpk)) in
      let dq : drop (2 + length k + 2) buf ≡ v ++ (c ++ rest) =
        rw e2 (drop_append _ (p ++ k ++ q) _ (sym lpkq)) in
      let dn : drop n buf ≡ c ++ rest = rw e3 (drop_append _ (p ++ k ++ q ++ v) _ (sym lall)) in
      let tn : take n buf ≡ p ++ k ++ q ++ v =
        rw e3 (take_append _ (p ++ k ++ q ++ v) _ (sym lall)) in
      let tk : take (length k) (drop 2 buf) ≡ k = rw d2 (take_append _ k _ refl) in
      let tv : take (length v) (drop (2 + length k + 2) buf) ≡ v = rw dq (take_append _ v _ refl) in
      let big : n + 4 ≤ length buf =
        omega (
          arith,
          ap length e3,
          length-append (p ++ k ++ q ++ v) (c ++ rest),
          length-append c rest,
        ) in
      whole crc32 buf (length k) (rp (k ++ from_q)) (length v) (rw dk (rq _)) crc (rw dn (rc rest))
        big
      ∙ (rw (tn, hc, ==_refl crc))
      ∙ ap₂ (λ a b. some (intact a b n)) tk tv

  -- A frame is read back whole, whatever follows it.
  pub read-encode_frame :
      (k v rest : Bytes)
      → Fits (k, v)
      → ((bs : Bytes) → crc32 bs < 2 ^ 32)
      → read_frame crc32 (encode_frame crc32 k v ++ rest)
        ≡ some (intact k v (2 + length k + 2 + length v))
  read-encode_frame k v rest fits crc_lt =
      let ek : u16 (length k) ≡ length k = omega arith in
      let ev : u16 (length v) ≡ length v = omega arith in
      let p = put_u16_be [] (u16 (length k)) in
      let q = put_u16_be [] (u16 (length v)) in
      let crc = crc32 (p ++ k ++ q ++ v) in
      rw (frame_shape k v rest) (
        read_frame_shape k v rest p q (put_u32_be [] crc) crc (length-put_u16_be _)
          (length-put_u16_be _) (length-put_u32_be _)
          (λ r. rw ek (read-put_u16_be (length k) r fits.0))
          (λ r. rw ev (read-put_u16_be (length v) r fits.1)) (λ r. read-put_u32_be crc r (crc_lt _))
          refl)

  batch_step :
      (buffer k v : Bytes)
      → let head = put_u16_be buffer (u16 (length k)) ++ k in
        let frame = put_u16_be head (u16 (length v)) ++ v in
        put_u32_be frame (crc32 (drop (length buffer) frame)) ≡ buffer ++ encode_frame crc32 k v
  unfolding encode_frame
  batch_step buffer k v =
      let body = put_u16_be (put_u16_be [] (u16 (length k)) ++ k) (u16 (length v)) ++ v in
      let e : put_u16_be (put_u16_be buffer (u16 (length k)) ++ k) (u16 (length v)) ++ v
          ≡ buffer ++ body =
        unfold put_u16_be in simp append_assoc in
      rw (e, drop_append (length buffer) buffer body refl)
        (unfold put_u32_be in append_assoc buffer body _)

  -- The one buffer of Wal::put_batch holds the frames that single puts would have written,
  -- behind what the buffer held.
  pub batch_loop-encode_all :
      (buffer : Bytes) (es : List Entry) → batch_loop crc32 buffer es ≡ buffer ++ encode_all es
  unfolding batch_loop
  batch_loop-encode_all buffer [] = sym (append-nil buffer)
  batch_loop-encode_all buffer ((k, v) ∷ es) =
      rw (batch_step buffer k v, batch_loop-encode_all (buffer ++ encode_frame crc32 k v) es)
        (append_assoc buffer (encode_frame crc32 k v) (encode_all es))
