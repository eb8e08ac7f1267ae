-- ===== src/Block/RoundTrip.antt =====
-- src/block/builder.cpp: encoding a block and decoding it again.
use mini_lsm_cpp.Prelude.{
  ℕ, ◌+◌, ◌-◌, ◌*◌, ◌<◌, ◌^◌, ◌≡◌, refl, sym, ap, List, [], ◌∷◌, ◌++◌, some, length, drop, Bytes,
  All, arith, u16, length-append, append_assoc, append-nil, drop_append, take_append, leb, le→leb,
  true,
}
use mini_lsm_cpp.Endian.{put_u16_be, read_u16_be}
use mini_lsm_cpp.Endian.RoundTrip.{put_u16_be-append, length-put_u16_be, read-put_u16_be}
use mini_lsm_cpp.Block.{Block, put_offsets, encode, read_offsets, decode}

pub put_offsets-append :
    (buf : Bytes) (offsets : List ℕ) → put_offsets buf offsets ≡ buf ++ put_offsets [] offsets
unfolding put_offsets
put_offsets-append buf [] = sym (append-nil buf)
put_offsets-append buf (o ∷ offsets) =
    rw
      (
        put_offsets-append (put_u16_be buf o) offsets,
        put_offsets-append (put_u16_be [] o) offsets,
        put_u16_be-append buf o,
      )
      (append_assoc buf (put_u16_be [] o) (put_offsets [] offsets))

put_offsets-cons :
    (o : ℕ) (offsets : List ℕ)
    → put_offsets [] (o ∷ offsets) ≡ put_u16_be [] o ++ put_offsets [] offsets
unfolding put_offsets
put_offsets-cons o offsets = put_offsets-append (put_u16_be [] o) offsets

pub length-put_offsets : (offsets : List ℕ) → length (put_offsets [] offsets) ≡ length offsets * 2
unfolding put_offsets
length-put_offsets [] = refl
length-put_offsets (o ∷ offsets) = omega (
  arith,
  ap length (put_offsets-cons o offsets),
  length-append (put_u16_be [] o) (put_offsets [] offsets),
  length-put_u16_be o,
  length-put_offsets offsets,
)

read_offsets-put :
    (offsets : List ℕ) (rest : Bytes)
    → All (λ o. o < 2 ^ 16) offsets
    → read_offsets (length offsets) (put_offsets [] offsets ++ rest) ≡ some offsets
unfolding read_offsets
read_offsets-put [] rest small = refl
read_offsets-put (o ∷ offsets) rest small =
    let tail = put_offsets [] offsets ++ rest in
    let shape : put_offsets [] (o ∷ offsets) ++ rest ≡ put_u16_be [] o ++ tail =
      rw (put_offsets-cons o offsets)
        (append_assoc (put_u16_be [] o) (put_offsets [] offsets) rest) in
    rw (
      shape,
      read-put_u16_be o tail small.0,
      drop_append 2 (put_u16_be [] o) tail (sym (length-put_u16_be o)),
      read_offsets-put offsets rest small.1,
    )

-- A block with fewer than 2^16 entries, at offsets below 2^16, comes back from its encoding.
pub decode-encode :
    (b : Block)
    → length b.offsets < 2 ^ 16
    → All (λ o. o < 2 ^ 16) b.offsets
    → decode (encode b) ≡ some b
unfolding decode encode
decode-encode b few small =
    let table = put_offsets [] b.offsets in
    let n = length b.offsets in
    let count16 = put_u16_be [] n in
    let lc = length-put_u16_be n in
    let shape : put_u16_be (put_offsets b.contents b.offsets) (u16 n)
        ≡ b.contents ++ (table ++ count16) =
      let e : u16 n ≡ n = omega arith in
      rw
        (
          e,
          put_u16_be-append (put_offsets b.contents b.offsets) n,
          put_offsets-append b.contents b.offsets,
        )
        (append_assoc b.contents table count16) in
    let shape2 : b.contents ++ (table ++ count16) ≡ (b.contents ++ table) ++ count16 =
      sym (append_assoc b.contents table count16) in
    let lt = length-put_offsets b.offsets in
    let size : length (b.contents ++ (table ++ count16)) ≡ length b.contents + n * 2 + 2 =
      omega (arith, length-append b.contents (table ++ count16), length-append table count16) in
    let enough : leb 2 (length b.contents + n * 2 + 2) ≡ true = le→leb _ _ (omega arith) in
    let fits : leb (n * 2) (length b.contents + n * 2 + 2 - 2) ≡ true = le→leb _ _ (omega arith) in
    let end : length b.contents + n * 2 + 2 - 2 - n * 2 ≡ length b.contents = omega arith in
    let count_at : drop (length b.contents + n * 2 + 2 - 2) (b.contents ++ (table ++ count16))
        ≡ count16 =
      rw shape2 (
        drop_append _ (b.contents ++ table) count16
          (omega (arith, length-append b.contents table))) in
    let read_count : read_u16_be count16 ≡ some n =
      rw (sym (append-nil count16)) (read-put_u16_be n [] few) in
    rw (
      shape,
      size,
      enough,
      count_at,
      read_count,
      fits,
      end,
      drop_append (length b.contents) b.contents (table ++ count16) refl,
      read_offsets-put b.offsets count16 small,
      take_append (length b.contents) b.contents (table ++ count16) refl,
    )
