-- ===== src/Table/Meta.antt =====
-- src/table/builder.cpp, BlockMeta: the encoding of the list of a table's blocks. zlib's crc32 is
-- a parameter. A failed assertion, an exception and a read out of bounds are `none`.
pub mod MetaRoundTrip
use mini_lsm_cpp.Prelude.{
  ℕ, zero, suc, ◌+◌, ◌-◌, List, [], ◌∷◌, ◌++◌, Option, none, some, ◌>>=◌, ◌>>◌, assert, length,
  take, drop, Bytes, u16, u32, leb, ◌==◌,
}
use mini_lsm_cpp.Endian.{put_u16_be, put_u32_be, read_u16_be, read_u32_be}
use mini_lsm_cpp.Block.Cursor.{read_bytes}
use mini_lsm_cpp.Table.{BlockMeta}

unfoldable pub put_meta : Bytes → BlockMeta → Bytes
put_meta buf m =
    let first = put_u16_be (put_u32_be buf (u32 m.offset)) (u16 (length m.first_key)) in
    put_u16_be (first ++ m.first_key) (u16 (length m.last_key)) ++ m.last_key

unfoldable pub put_metas : Bytes → List BlockMeta → Bytes
unfolding put_meta
put_metas buf [] = buf
put_metas buf (m ∷ meta) = put_metas (put_meta buf m) meta

-- for (i = 0; i < num; ++i), on the rounds left and the bytes from `ptr` on.
unfoldable pub read_metas : ℕ → Bytes → Option (List BlockMeta)
read_metas zero ptr = some []
read_metas (suc rounds) ptr = do
  offset ← read_u32_be ptr
  let at_fk_len = drop 4 ptr
  fk_len ← read_u16_be at_fk_len
  let at_fk = drop 2 at_fk_len
  fk ← read_bytes fk_len at_fk
  let at_lk_len = drop fk_len at_fk
  lk_len ← read_u16_be at_lk_len
  let at_lk = drop 2 at_lk_len
  lk ← read_bytes lk_len at_lk
  meta ← read_metas rounds (drop lk_len at_lk)
  some (record { offset = offset; first_key = fk; last_key = lk } ∷ meta)

module _ (crc32 : Bytes → ℕ) where
  unfoldable pub encode_block_meta : List BlockMeta → Bytes → Bytes
  unfolding put_metas
  encode_block_meta meta buf =
      let body = put_metas (put_u32_be buf (u32 (length meta))) meta in
      put_u32_be body (crc32 (drop (length buf + 4) body))

  unfoldable pub decode_block_meta : Bytes → Option (List BlockMeta)
  unfolding read_metas
  decode_block_meta raw = do
    assert (leb 8 (length raw))
    num ← read_u32_be raw
    expected_checksum ← read_u32_be (drop (length raw - 4) raw)
    assert (crc32 (take (length raw - 8) (drop 4 raw)) == expected_checksum)
    read_metas num (drop 4 raw)
