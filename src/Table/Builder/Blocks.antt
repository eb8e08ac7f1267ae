-- ===== src/Table/Builder/Blocks.antt =====
-- src/table/builder.cpp: reading a block between what stands before and behind it in the file.
use mini_lsm_cpp.Prelude.{
  ℕ, suc, ◌+◌, ◌-◌, ◌<◌, ◌^◌, ◌≡◌, refl, sym, ap, ◌∙◌, List, [], ◌∷◌, ◌++◌, some, none, Option,
  length, take, drop, Bytes, le→leb, ==_refl, arith, length-append, append-nil, drop_append,
  take_append, get_elem?,
}
use mini_lsm_cpp.Endian.{put_u32_be, read_u32_be}
use mini_lsm_cpp.Endian.RoundTrip.{length-put_u32_be, read-put_u32_be}
use mini_lsm_cpp.Block.{Block}
use mini_lsm_cpp.Block
use mini_lsm_cpp.Table.{SsTable, BlockMeta, CompressionType}
use mini_lsm_cpp.Table.Sst.{Snappy, read, unpack, offset_end, read_block}
use mini_lsm_cpp.Table.Builder.{pack}
use mini_lsm_cpp.Table.Builder.Image.{read-middle}

-- Snappy, where it is built in, uncompresses what it compressed.
abbrev pub Uncompresses : Option Snappy → Type 0
Uncompresses none = Unit
Uncompresses (some s) = (x : Bytes) → s.uncompress (s.compress x) ≡ some x

pub unpack-pack :
    (snappy : Option Snappy) (compression : CompressionType) (x : Bytes)
    → Uncompresses snappy
    → (flag : ℕ) × (bytes : Bytes) × (pack snappy compression x ≡ flag ∷ bytes)
      × (unpack snappy flag bytes ≡ Block.decode x)
unfolding pack unpack
unpack-pack none compression x law = (0, x, refl, refl)
unpack-pack (some s) CompressionType.none x law = (0, x, refl, refl)
unpack-pack (some s) CompressionType.snappy x law = (1, s.compress x, refl, rw (law x))

module _ {A : Type 0} where
  pub get_elem?-length : (xs ys : List A) (y : A) → get_elem? (xs ++ y ∷ ys) (length xs) ≡ some y
  get_elem?-length [] ys y = refl
  get_elem?-length (x ∷ xs) ys y = get_elem?-length xs ys y

  pub get_elem?-next :
      (xs ys : List A) (y z : A) → get_elem? (xs ++ y ∷ z ∷ ys) (suc (length xs)) ≡ some z
  get_elem?-next [] ys y z = refl
  get_elem?-next (x ∷ xs) ys y z = get_elem?-next xs ys y z

  pub get_elem?-past : (xs : List A) (y : A) → get_elem? (xs ++ y ∷ []) (suc (length xs)) ≡ none
  get_elem?-past [] y = refl
  get_elem?-past (x ∷ xs) y = get_elem?-past xs y

module _ (crc32 : Bytes → ℕ) where
  -- A block between what stands before and behind it.
  pub read_block-middle :
      (snappy : Option Snappy) (t : SsTable) (idx : ℕ) (m : BlockMeta) (pre bytes post : Bytes)
      (flag : ℕ)
      → ((bs : Bytes) → crc32 bs < 2 ^ 32)
      → get_elem? t.block_meta idx ≡ some m
      → m.offset ≡ length pre
      → offset_end t idx ≡ length pre + length (flag ∷ bytes) + 4
      → t.file ≡ pre ++ ((flag ∷ bytes ++ put_u32_be [] (crc32 (flag ∷ bytes))) ++ post)
      → read_block crc32 snappy t idx ≡ unpack snappy flag bytes
  unfolding read_block
  read_block-middle snappy t idx m pre bytes post flag crc_lt em eo ee ef =
      let packed = flag ∷ bytes in
      let sum = put_u32_be [] (crc32 packed) in
      let chunk = packed ++ sum in
      let ls = length-put_u32_be (crc32 packed) in
      let lc : length chunk ≡ length packed + 4 = omega (arith, length-append packed sum) in
      let stop = length pre + length packed + 4 in
      let got : read t.file m.offset (stop - m.offset) ≡ some chunk =
        ap (λ f. read f m.offset (stop - m.offset)) ef
        ∙ read-middle pre chunk post m.offset (stop - m.offset) eo (omega arith) in
      let n : stop - m.offset - 4 ≡ length packed = omega arith in
      let at_sum : drop (length packed) chunk ≡ sum = drop_append (length packed) packed sum refl in
      let at_packed : take (length packed) chunk ≡ packed =
        take_append (length packed) packed sum refl in
      let checksum : read_u32_be sum ≡ some (crc32 packed) =
        ap read_u32_be (sym (append-nil sum)) ∙ read-put_u32_be (crc32 packed) [] (crc_lt packed) in
      rw
        (
          em,
          ee,
          le→leb (m.offset + 5) stop (omega arith),
          got,
          n,
          at_sum,
          checksum,
          at_packed,
          ==_refl (crc32 packed),
        )
        (ap (unpack snappy flag) (take_append (length bytes) bytes sum refl))
