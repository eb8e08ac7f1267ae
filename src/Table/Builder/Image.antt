-- ===== src/Table/Builder/Image.antt =====
-- src/table/builder.cpp: opening the file that `build` writes.
use mini_lsm_cpp.Prelude.{
  ℕ, ◌+◌, ◌-◌, ◌<◌, ◌^◌, ◌≡◌, refl, sym, ap, ◌∙◌, true, false, List, [], ◌∷◌, ◌++◌, some, length,
  take, drop, Bytes, All, u32, leb, le→leb, ◌==◌, ==_ne, arith, length-append, append_assoc,
  append-nil, drop_append, take_append,
}
use mini_lsm_cpp.Endian.{put_u32_be, read_u32_be}
use mini_lsm_cpp.Endian.RoundTrip.{length-put_u32_be, read-put_u32_be, put_u32_be-append}
use mini_lsm_cpp.Table.{BlockMeta, Bloom}
use mini_lsm_cpp.Table.Filter
use mini_lsm_cpp.Table.Filter.FilterRoundTrip
use mini_lsm_cpp.Table.Filter.FilterRoundTrip.{decode-encode}
use mini_lsm_cpp.Table.Meta.{encode_block_meta, decode_block_meta}
use mini_lsm_cpp.Table.Meta.MetaRoundTrip.{
  MetaFits, decode-encode_block_meta, encode_block_meta-append,
}
use mini_lsm_cpp.Table.Sst.{read, front, back, open_table}
use mini_lsm_cpp.Table.Builder.{image}

-- A read of what stands between two parts.
pub read-middle :
    (a b c : Bytes) (offset len : ℕ)
    → offset ≡ length a
    → len ≡ length b
    → read (a ++ (b ++ c)) offset len ≡ some b
unfolding read
read-middle a [] c offset len eo el = let e : len ≡ 0 = omega (arith, el) in rw e
read-middle a (x ∷ b) c offset len eo el =
    let positive : (len == 0) ≡ false = ==_ne len 0 (λ z. omega (arith, el)) in
    let inside : leb (offset + len) (length (a ++ (x ∷ b ++ c))) ≡ true =
      le→leb _ _ (omega (arith, el, length-append a (x ∷ b ++ c), length-append (x ∷ b) c)) in
    let at : drop offset (a ++ (x ∷ b ++ c)) ≡ x ∷ b ++ c = drop_append offset a _ eo in
    let taken : take len (x ∷ b ++ c) ≡ x ∷ b = take_append len (x ∷ b) c el in
    rw (positive, inside, at, taken)

module _ (crc32 : Bytes → ℕ) where
  -- The file, part by part.
  image_shape :
      (blocks : Bytes) (meta : List BlockMeta) (bloom : Bloom)
      → let m = encode_block_meta crc32 meta [] in
        let f = Filter.encode crc32 bloom [] in
        let o = put_u32_be [] (u32 (length blocks)) in
        let front_part = blocks ++ (m ++ o) in
        image crc32 blocks meta bloom ≡ front_part ++ (f ++ put_u32_be [] (u32 (length front_part)))
  unfolding image
  image_shape blocks meta bloom =
      let m = encode_block_meta crc32 meta [] in
      let f = Filter.encode crc32 bloom [] in
      let o = put_u32_be [] (u32 (length blocks)) in
      let front_part = blocks ++ (m ++ o) in
      let e : put_u32_be (encode_block_meta crc32 meta blocks) (u32 (length blocks)) ≡ front_part =
        put_u32_be-append (encode_block_meta crc32 meta blocks) (u32 (length blocks))
        ∙ ap (λ b. b ++ o) (encode_block_meta-append crc32 meta blocks)
        ∙ append_assoc blocks m o in
      rw (e, FilterRoundTrip.encode-append crc32 bloom front_part)
        (put_u32_be-append (front_part ++ f) (u32 (length front_part))
          ∙ append_assoc front_part f (put_u32_be [] (u32 (length front_part))))

  opened_parts :
      (id : ℕ) (blocks m o f s : Bytes) (meta : List BlockMeta) (bloom : Bloom)
      (first last : BlockMeta)
      → length o ≡ 4
      → length s ≡ 4
      → read_u32_be o ≡ some (length blocks)
      → read_u32_be s ≡ some (length (blocks ++ (m ++ o)))
      → decode_block_meta crc32 m ≡ some meta
      → Filter.decode crc32 f ≡ some bloom
      → front meta ≡ some first
      → back meta ≡ some last
      → let file = (blocks ++ (m ++ o)) ++ (f ++ s) in
        open_table crc32 id file
        ≡ some (record {
          id = id;
          file = file;
          first_key = first.first_key;
          last_key = last.last_key;
          block_meta = meta;
          block_meta_offset = length blocks;
          bloom = bloom;
        })
  unfolding open_table
  opened_parts id blocks m o f s meta bloom first last lo ls ro rs dm df ef el =
      let p = blocks ++ (m ++ o) in
      let file = p ++ (f ++ s) in
      let lp : length p ≡ length blocks + length m + 4 =
        omega (arith, length-append blocks (m ++ o), length-append m o) in
      let lf : length file ≡ length p + length f + 4 =
        omega (arith, length-append p (f ++ s), length-append f s) in
      let at_end : file ≡ (p ++ f) ++ (s ++ []) = simp (append_assoc, append-nil) in
      let at_offset : file ≡ (blocks ++ m) ++ (o ++ (f ++ s)) = simp append_assoc in
      let at_meta : file ≡ blocks ++ (m ++ (o ++ (f ++ s))) = simp append_assoc in
      let r1 : read file (length file - 4) 4 ≡ some s =
        ap (λ x. read x (length file - 4) 4) at_end
        ∙ read-middle (p ++ f) s [] (length file - 4) 4 (omega (arith, length-append p f))
            (sym ls) in
      let r2 : read file (length p) (length file - 4 - length p) ≡ some f =
        read-middle p f s (length p) (length file - 4 - length p) refl (omega arith) in
      let r3 : read file (length p - 4) 4 ≡ some o =
        ap (λ x. read x (length p - 4) 4) at_offset
        ∙ read-middle (blocks ++ m) o (f ++ s) (length p - 4) 4
            (omega (arith, length-append blocks m)) (sym lo) in
      let r4 : read file (length blocks) (length p - 4 - length blocks) ≡ some m =
        ap (λ x. read x (length blocks) (length p - 4 - length blocks)) at_meta
        ∙ read-middle blocks m (o ++ (f ++ s)) (length blocks) (length p - 4 - length blocks) refl
            (omega arith) in
      rw (
        le→leb 4 (length file) (omega arith),
        r1,
        rs,
        le→leb (length p) (length file - 4) (omega arith),
        r2,
        df,
        le→leb 4 (length p) (omega arith),
        r3,
        ro,
        le→leb (length blocks) (length p - 4) (omega arith),
        r4,
        dm,
        ef,
        el,
      )

  -- With a checksum of 32 bits, the file that SsTableBuilder::build writes of some blocks, fewer
  -- than 2^32 entries in their list with offsets of 32 bits and keys shorter than 2^16, and a
  -- filter, with the filter at an offset below 2^32, is opened as a table with this list, its
  -- first and last key, this filter, and the offset of the list.
  pub open_table-image :
      ((bs : Bytes) → crc32 bs < 2 ^ 32)
      → (id : ℕ) (blocks : Bytes) (meta : List BlockMeta) (bloom : Bloom) (first last : BlockMeta)
      → length meta < 2 ^ 32
      → All MetaFits meta
      → length (blocks ++ (encode_block_meta crc32 meta [] ++ put_u32_be [] (u32 (length blocks))))
        < 2 ^ 32
      → front meta ≡ some first
      → back meta ≡ some last
      → open_table crc32 id (image crc32 blocks meta bloom)
        ≡ some (record {
          id = id;
          file = image crc32 blocks meta bloom;
          first_key = first.first_key;
          last_key = last.last_key;
          block_meta = meta;
          block_meta_offset = length blocks;
          bloom = bloom;
        })
  open_table-image crc_lt id blocks meta bloom first last few fits small ef el =
      let m = encode_block_meta crc32 meta [] in
      let o = put_u32_be [] (u32 (length blocks)) in
      let p = blocks ++ (m ++ o) in
      let s = put_u32_be [] (u32 (length p)) in
      let lo = length-put_u32_be (u32 (length blocks)) in
      let lp = length-append blocks (m ++ o) in
      let eb : u32 (length blocks) ≡ length blocks = omega arith in
      let ep : u32 (length p) ≡ length p = omega arith in
      rw (image_shape blocks meta bloom) (
        opened_parts id blocks m o (Filter.encode crc32 bloom []) s meta bloom first last lo
          (length-put_u32_be (u32 (length p)))
          (ap read_u32_be (sym (append-nil o))
            ∙ read-put_u32_be (u32 (length blocks)) [] (omega arith)
            ∙ ap some eb)
          (ap read_u32_be (sym (append-nil s))
            ∙ read-put_u32_be (u32 (length p)) [] (omega arith)
            ∙ ap some ep)
          (decode-encode_block_meta crc32 crc_lt meta few fits) (decode-encode crc32 crc_lt bloom)
          ef el)
