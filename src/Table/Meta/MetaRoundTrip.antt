-- ===== src/Table/Meta/MetaRoundTrip.antt =====
-- src/table/builder.cpp: encoding the list of a table's blocks and decoding it again.
use mini_lsm_cpp.Prelude.{
  ℕ, ◌+◌, ◌-◌, ◌<◌, ◌^◌, ◌≡◌, refl, sym, ap, ◌∙◌, true, List, [], ◌∷◌, ◌++◌, some, length, take,
  drop, Bytes, All, u16, u32, leb, le→leb, ==_refl, arith, length-append, append_assoc, append-nil,
  drop_append, take_append,
}
use mini_lsm_cpp.Endian.{put_u16_be, put_u32_be, read_u32_be}
use mini_lsm_cpp.Endian.RoundTrip.{
  length-put_u16_be, length-put_u32_be, read-put_u16_be, read-put_u32_be, put_u32_be-append,
}
use mini_lsm_cpp.Block.Cursor.Entries.{read_bytes-append}
use mini_lsm_cpp.Table.{BlockMeta}
use mini_lsm_cpp.Table.Meta.{put_meta, put_metas, read_metas, encode_block_meta, decode_block_meta}

-- An offset fits into 32 bits, and the lengths of the keys into 16.
abbrev pub MetaFits : BlockMeta → Type 0
MetaFits m = (m.offset < 2 ^ 32) × (length m.first_key < 2 ^ 16) × (length m.last_key < 2 ^ 16)

put_meta-append : (buf : Bytes) (m : BlockMeta) → put_meta buf m ≡ buf ++ put_meta [] m
unfolding put_meta put_u16_be put_u32_be
put_meta-append buf m = simp append_assoc

pub put_metas-append :
    (buf : Bytes) (meta : List BlockMeta) → put_metas buf meta ≡ buf ++ put_metas [] meta
unfolding put_metas
put_metas-append buf [] = sym (append-nil buf)
put_metas-append buf (m ∷ meta) =
    rw
      (
        put_metas-append (put_meta buf m) meta,
        put_metas-append (put_meta [] m) meta,
        put_meta-append buf m,
      )
      (append_assoc buf (put_meta [] m) (put_metas [] meta))

metas_shape :
    (m : BlockMeta) (meta : List BlockMeta) (rest : Bytes)
    → put_metas [] (m ∷ meta) ++ rest
      ≡ put_u32_be [] (u32 m.offset)
        ++ (put_u16_be [] (u16 (length m.first_key))
            ++ (m.first_key
                ++ (put_u16_be [] (u16 (length m.last_key))
                    ++ (m.last_key ++ (put_metas [] meta ++ rest)))))
unfolding put_metas put_meta put_u16_be put_u32_be
metas_shape m meta rest = rw (put_metas-append (put_meta [] m) meta) (simp append_assoc)

read_metas-put :
    (meta : List BlockMeta) (rest : Bytes)
    → All MetaFits meta
    → read_metas (length meta) (put_metas [] meta ++ rest) ≡ some meta
unfolding read_metas
read_metas-put [] rest fits = refl
read_metas-put (m ∷ meta) rest (fit, fits) =
    let (small, fk_small, lk_small) = fit in
    let eo : u32 m.offset ≡ m.offset = omega arith in
    let ef : u16 (length m.first_key) ≡ length m.first_key = omega arith in
    let el : u16 (length m.last_key) ≡ length m.last_key = omega arith in
    let after = put_metas [] meta ++ rest in
    let p = put_u32_be [] m.offset in
    let q = put_u16_be [] (length m.first_key) in
    let r = put_u16_be [] (length m.last_key) in
    rw (
      metas_shape m meta rest,
      eo,
      ef,
      el,
      read-put_u32_be m.offset (q ++ (m.first_key ++ (r ++ (m.last_key ++ after)))) small,
      drop_append 4 p (q ++ (m.first_key ++ (r ++ (m.last_key ++ after))))
          (sym (length-put_u32_be m.offset)),
      read-put_u16_be (length m.first_key) (m.first_key ++ (r ++ (m.last_key ++ after))) fk_small,
      drop_append 2 q (m.first_key ++ (r ++ (m.last_key ++ after)))
          (sym (length-put_u16_be (length m.first_key))),
      read_bytes-append m.first_key (r ++ (m.last_key ++ after)),
      drop_append (length m.first_key) m.first_key (r ++ (m.last_key ++ after)) refl,
      read-put_u16_be (length m.last_key) (m.last_key ++ after) lk_small,
      drop_append 2 r (m.last_key ++ after) (sym (length-put_u16_be (length m.last_key))),
      read_bytes-append m.last_key after,
      drop_append (length m.last_key) m.last_key after refl,
      read_metas-put meta rest fits,
    )

-- With a checksum of 32 bits, fewer than 2^32 blocks, whose offsets fit into 32 bits and the
-- lengths of their keys into 16, come back from the encoding of a table's list of blocks.
pub decode-encode_block_meta :
    (crc32 : Bytes → ℕ)
    → ((bs : Bytes) → crc32 bs < 2 ^ 32)
    → (meta : List BlockMeta) → length meta < 2 ^ 32
    → All MetaFits meta
    → decode_block_meta crc32 (encode_block_meta crc32 meta []) ≡ some meta
unfolding encode_block_meta decode_block_meta
decode-encode_block_meta crc32 crc_lt meta few fits =
    let num = put_u32_be [] (length meta) in
    let body = put_metas [] meta in
    let ln = length-put_u32_be (length meta) in
    let crc = crc32 body in
    let sum = put_u32_be [] crc in
    let ls = length-put_u32_be crc in
    let en : u32 (length meta) ≡ length meta = omega arith in
    let head : put_metas num meta ≡ num ++ body = put_metas-append num meta in
    let zero4 : length {A = ℕ} [] + 4 ≡ 4 = omega arith in
    let body_at : drop 4 (num ++ body) ≡ body = drop_append 4 num body (sym ln) in
    let raw = num ++ (body ++ sum) in
    let shape : put_u32_be (num ++ body) crc ≡ raw =
      put_u32_be-append (num ++ body) crc ∙ append_assoc num body sum in
    let size : length raw ≡ 8 + length body =
      omega (arith, length-append num (body ++ sum), length-append body sum) in
    let enough : leb 8 (8 + length body) ≡ true = le→leb _ _ (omega arith) in
    let raw2 : raw ≡ (num ++ body) ++ sum = sym (append_assoc num body sum) in
    let sum_at : drop (8 + length body - 4) raw ≡ sum = rw raw2 (
      drop_append (8 + length body - 4) (num ++ body) sum
        (omega (arith, length-append num body))) in
    let read_sum : read_u32_be sum ≡ some crc =
      rw (sym (append-nil sum)) (read-put_u32_be crc [] (crc_lt body)) in
    let metas_at : drop 4 raw ≡ body ++ sum = drop_append 4 num (body ++ sum) (sym ln) in
    let covered : take (8 + length body - 8) (body ++ sum) ≡ body =
      take_append (8 + length body - 8) body sum (omega arith) in
    rw
      (
        en,
        head,
        zero4,
        body_at,
        shape,
        size,
        enough,
        read-put_u32_be (length meta) (body ++ sum) few,
        sum_at,
        read_sum,
        metas_at,
        covered,
        ==_refl crc,
      )
      (read_metas-put meta sum fits)

pub encode_block_meta-append :
    (crc32 : Bytes → ℕ) (meta : List BlockMeta) (buf : Bytes)
    → encode_block_meta crc32 meta buf ≡ buf ++ encode_block_meta crc32 meta []
unfolding encode_block_meta
encode_block_meta-append crc32 meta buf =
    let n = u32 (length meta) in
    let num = put_u32_be [] n in
    let body = put_metas [] meta in
    let head : put_metas (put_u32_be buf n) meta ≡ buf ++ (num ++ body) =
      put_metas-append (put_u32_be buf n) meta
      ∙ ap (λ b. b ++ body) (put_u32_be-append buf n)
      ∙ append_assoc buf num body in
    let head_nil : put_metas num meta ≡ num ++ body = put_metas-append num meta in
    let ln = length-put_u32_be n in
    let covered : drop (length buf + 4) (buf ++ (num ++ body)) ≡ body =
      ap (drop (length buf + 4)) (sym (append_assoc buf num body))
      ∙ drop_append (length buf + 4) (buf ++ num) body (omega (arith, length-append buf num)) in
    let covered_nil : drop (length {A = ℕ} [] + 4) (num ++ body) ≡ body =
      drop_append (length {A = ℕ} [] + 4) num body (omega arith) in
    rw (head, head_nil, covered, covered_nil)
      (put_u32_be-append (buf ++ (num ++ body)) (crc32 body)
        ∙ append_assoc buf (num ++ body) (put_u32_be [] (crc32 body))
        ∙ ap (λ b. buf ++ b) (sym (put_u32_be-append (num ++ body) (crc32 body))))
