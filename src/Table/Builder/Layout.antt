-- ===== src/Table/Builder/Layout.antt =====
-- src/table/builder.cpp: the layout of the blocks that finish_block writes, and reading them.
use mini_lsm_cpp.Prelude.{
  ℕ, suc, ◌+◌, ◌<◌, ◌^◌, ◌≡◌, refl, sym, ap, ◌∙◌, subst, false, List, [], ◌∷◌, ◌++◌, some, none,
  length, Bytes, arith, length-append, append_assoc, append-nil, get_elem?, some-injective,
}
use mini_lsm_cpp.Endian.{put_u32_be}
use mini_lsm_cpp.Endian.RoundTrip.{length-put_u32_be, put_u32_be-append}
use mini_lsm_cpp.Block.{Block}
use mini_lsm_cpp.Block
use mini_lsm_cpp.Table.{SsTable, BlockMeta, CompressionType}
use mini_lsm_cpp.Table.Sst.{offset_end, read_block}
use mini_lsm_cpp.Table.Builder.{Libraries, SsTableBuilder, pack, finish_block}
use mini_lsm_cpp.Table.Builder.Blocks.{
  Uncompresses, unpack-pack, get_elem?-length, get_elem?-next, get_elem?-past, read_block-middle,
}

-- A block's first and last key, and its encoding.
abbrev pub Finished : Type 0
Finished = Bytes × Bytes × Bytes

module _ (lib : Libraries) (compression : CompressionType) where
  -- The bytes of a block in the file: flag, block, checksum.
  abbrev chunk : Bytes → Bytes
  chunk encoded =
      let packed = pack lib.snappy compression encoded in packed ++ put_u32_be [] (lib.crc32 packed)

  abbrev pub data_of : List Finished → Bytes
  data_of [] = []
  data_of (e ∷ es) = chunk e.2 ++ data_of es

  abbrev pub metas_from : ℕ → List Finished → List BlockMeta
  metas_from n [] = []
  metas_from n (e ∷ es) =
      record { offset = n; first_key = e.0; last_key = e.1 }
      ∷ metas_from (n + length (chunk e.2)) es

  data_of-append : (l r : List Finished) → data_of (l ++ r) ≡ data_of l ++ data_of r
  data_of-append [] r = refl
  data_of-append (e ∷ l) r =
      ap (λ d. chunk e.2 ++ d) (data_of-append l r)
      ∙ sym (append_assoc (chunk e.2) (data_of l) (data_of r))

  metas_from-append :
      (n : ℕ) (l r : List Finished)
      → metas_from n (l ++ r) ≡ metas_from n l ++ metas_from (n + length (data_of l)) r
  metas_from-append n [] r = let e : n + 0 ≡ n = omega arith in rw e
  metas_from-append n (e ∷ l) r =
      let same : n + length (chunk e.2) + length (data_of l) ≡ n + length (chunk e.2 ++ data_of l) =
        omega (arith, length-append (chunk e.2) (data_of l)) in
      ap (λ ms. record { offset = n; first_key = e.0; last_key = e.1 } ∷ ms)
        (metas_from-append (n + length (chunk e.2)) l r
          ∙ ap (λ k. metas_from (n + length (chunk e.2)) l ++ metas_from k r) same)

  length-metas_from : (n : ℕ) (l : List Finished) → length (metas_from n l) ≡ length l
  length-metas_from n [] = refl
  length-metas_from n (e ∷ l) = ap suc (length-metas_from (n + length (chunk e.2)) l)

  -- The builder's data and list are those of the finished blocks.
  abbrev pub IsLaid : SsTableBuilder → List Finished → Type 0
  IsLaid b es =
      (b.compression ≡ compression) × (b.data_bytes ≡ data_of es) × (b.meta ≡ metas_from 0 es)

  abbrev finished : SsTableBuilder → Block → Finished
  finished b block = (b.first_key, b.last_key, Block.encode block)

  abbrev done : SsTableBuilder → Block → SsTableBuilder
  done b block =
      let packed = pack lib.snappy b.compression (Block.encode block) in
      record b {
        builder = Block.new_builder b.block_size;
        first_key = [];
        last_key = [];
        meta =
            b.meta
            ++ record {
              offset = length b.data_bytes;
              first_key = b.first_key;
              last_key = b.last_key;
            }
              ∷ [];
        data_bytes = put_u32_be (b.data_bytes ++ packed) (lib.crc32 packed);
      }

  done-IsLaid :
      (b : SsTableBuilder) (es : List Finished) (block : Block)
      → IsLaid b es
      → IsLaid (done b block) (es ++ finished b block ∷ [])
  done-IsLaid b es block (c, d, m) =
      let x = Block.encode block in
      let packed = pack lib.snappy b.compression x in
      let sum = put_u32_be [] (lib.crc32 packed) in
      let f = finished b block in
      let same_chunk : packed ++ sum ≡ chunk x =
        ap (λ k. pack lib.snappy k x ++ put_u32_be [] (lib.crc32 (pack lib.snappy k x))) c in
      let start : length b.data_bytes ≡ 0 + length (data_of es) = omega (arith, ap length d) in
      let data_eq : put_u32_be (b.data_bytes ++ packed) (lib.crc32 packed)
          ≡ data_of (es ++ f ∷ []) =
        put_u32_be-append (b.data_bytes ++ packed) (lib.crc32 packed)
        ∙ append_assoc b.data_bytes packed sum
        ∙ ap (λ k. k ++ (packed ++ sum)) d
        ∙ ap (λ k. data_of es ++ k) (same_chunk ∙ sym (append-nil (chunk x)))
        ∙ sym (data_of-append es (f ∷ [])) in
      let meta_eq : b.meta
            ++ record {
              offset = length b.data_bytes;
              first_key = b.first_key;
              last_key = b.last_key;
            }
              ∷ []
          ≡ metas_from 0 (es ++ f ∷ []) =
        ap
          (λ ms.
            ms
            ++ record {
              offset = length b.data_bytes;
              first_key = b.first_key;
              last_key = b.last_key;
            }
              ∷ [])
          m
        ∙ ap
            (λ n.
              metas_from 0 es
              ++ record { offset = n; first_key = b.first_key; last_key = b.last_key } ∷ [])
            start
        ∙ sym (metas_from-append 0 es (f ∷ [])) in
      (c, data_eq, meta_eq)

  pub finish_block-IsLaid :
      (b b' : SsTableBuilder) (es : List Finished) (block : Block)
      → Block.is_empty b.builder ≡ false
      → Block.build b.builder ≡ some block
      → finish_block lib b ≡ some b'
      → IsLaid b es
      → IsLaid b' (es ++ finished b block ∷ [])
  unfolding finish_block
  finish_block-IsLaid b b' es block some_entry built e laid =
      let made : finish_block lib b ≡ some (done b block) = rw (some_entry, built) in
      subst (λ x. IsLaid x (es ++ finished b block ∷ []))
        (some-injective (done b block) b' (sym made ∙ e)) (done-IsLaid b es block laid)

  stop_lem :
      (t : SsTable) (l r : List Finished) (e : Finished)
      → t.block_meta ≡ metas_from 0 (l ++ e ∷ r)
      → t.block_meta_offset ≡ length (data_of (l ++ e ∷ r))
      → offset_end t (length l) ≡ length (data_of l) + length (chunk e.2)
  unfolding offset_end
  stop_lem t l [] e em eo =
      let one : length l + 1 ≡ suc (length (metas_from 0 l)) =
        omega (arith, length-metas_from 0 l) in
      let none_behind : get_elem? t.block_meta (length l + 1) ≡ none =
        ap (λ ms. get_elem? ms (length l + 1)) (em ∙ metas_from-append 0 l (e ∷ []))
        ∙ ap (get_elem? (metas_from 0 l ++ metas_from (0 + length (data_of l)) (e ∷ []))) one
        ∙ get_elem?-past (metas_from 0 l)
            (record { offset = 0 + length (data_of l); first_key = e.0; last_key = e.1 }) in
      rw (none_behind, offset_end, eo, data_of-append l (e ∷ []), append-nil (chunk e.2))
        (length-append (data_of l) (chunk e.2))
  stop_lem t l (f ∷ r) e em eo =
      let one : length l + 1 ≡ suc (length (metas_from 0 l)) =
        omega (arith, length-metas_from 0 l) in
      let n = 0 + length (data_of l) + length (chunk e.2) in
      let behind : get_elem? t.block_meta (length l + 1)
          ≡ some (record { offset = n; first_key = f.0; last_key = f.1 }) =
        ap (λ ms. get_elem? ms (length l + 1)) (em ∙ metas_from-append 0 l (e ∷ f ∷ r))
        ∙ ap (get_elem? (metas_from 0 l ++ metas_from (0 + length (data_of l)) (e ∷ f ∷ r))) one
        ∙ get_elem?-next (metas_from 0 l) (metas_from (n + length (chunk f.2)) r)
            (record { offset = 0 + length (data_of l); first_key = e.0; last_key = e.1 })
            (record { offset = n; first_key = f.0; last_key = f.1 }) in
      rw (behind, offset_end) (omega arith)

  read_block-IsLaid :
      (b : SsTableBuilder) (l r : List Finished) (f : Finished) (t : SsTable) (post : Bytes)
      → Uncompresses lib.snappy
      → ((bs : Bytes) → lib.crc32 bs < 2 ^ 32)
      → IsLaid b (l ++ f ∷ r)
      → t.block_meta ≡ b.meta
      → t.block_meta_offset ≡ length b.data_bytes
      → t.file ≡ b.data_bytes ++ post
      → read_block lib.crc32 lib.snappy t (length l) ≡ Block.decode f.2
  read_block-IsLaid b l r f t post law crc_lt (_, d, m) em eo ef =
      let (flag, bytes, ep, eu) = unpack-pack lib.snappy compression f.2 law in
      let packed = flag ∷ bytes in
      let sum = put_u32_be [] (lib.crc32 packed) in
      let meta : BlockMeta = record {
        offset = 0 + length (data_of l);
        first_key = f.0;
        last_key = f.1;
      } in
      let same_chunk : chunk f.2 ≡ packed ++ sum = ap (λ p. p ++ put_u32_be [] (lib.crc32 p)) ep in
      let here : get_elem? t.block_meta (length l) ≡ some meta =
        ap (λ ms. get_elem? ms (length l)) (em ∙ m ∙ metas_from-append 0 l (f ∷ r))
        ∙ ap (get_elem? (metas_from 0 l ++ metas_from (0 + length (data_of l)) (f ∷ r)))
            (sym (length-metas_from 0 l))
        ∙ get_elem?-length (metas_from 0 l) _ meta in
      let stop : offset_end t (length l) ≡ length (data_of l) + length packed + 4 =
        stop_lem t l r f (em ∙ m) (eo ∙ ap length d)
        ∙ omega (
          arith,
          ap length same_chunk,
          length-append packed sum,
          length-put_u32_be (lib.crc32 packed),
        ) in
      let file : t.file ≡ data_of l ++ ((packed ++ sum) ++ (data_of r ++ post)) =
        ef
        ∙ ap (λ x. x ++ post) (d ∙ data_of-append l (f ∷ r))
        ∙ append_assoc (data_of l) (chunk f.2 ++ data_of r) post
        ∙ ap (λ x. data_of l ++ x) (append_assoc (chunk f.2) (data_of r) post)
        ∙ ap (λ x. data_of l ++ (x ++ (data_of r ++ post))) same_chunk in
      read_block-middle lib.crc32 lib.snappy t (length l) meta (data_of l) bytes (data_of r ++ post)
        flag crc_lt here (omega arith) stop file
      ∙ eu

  -- With a checksum of 32 bits and a Snappy, if any, that uncompresses what it compressed: where
  -- the finished blocks of a table builder are laid out in its data and its list,
  -- SsTableBuilder::finish_block on a builder with entries lays out their block behind them, and
  -- SsTable::read_block, on a table with this list at the end of these data and with the data at
  -- the start of its file, decodes the encoding of each of the blocks.
  pub read_block-finish_block :
      Uncompresses lib.snappy
      → ((bs : Bytes) → lib.crc32 bs < 2 ^ 32)
      → (b b' : SsTableBuilder) (es l r : List Finished) (f : Finished) (block : Block)
        (t : SsTable) (post : Bytes)
      → Block.is_empty b.builder ≡ false
      → Block.build b.builder ≡ some block
      → finish_block lib b ≡ some b'
      → IsLaid b es
      → es ++ (b.first_key, b.last_key, Block.encode block) ∷ [] ≡ l ++ f ∷ r
      → t.block_meta ≡ b'.meta
      → t.block_meta_offset ≡ length b'.data_bytes
      → t.file ≡ b'.data_bytes ++ post
      → IsLaid b' (l ++ f ∷ r) × (read_block lib.crc32 lib.snappy t (length l) ≡ Block.decode f.2)
  read_block-finish_block law crc_lt b b' es l r f block t post some_entry built e laid split em eo
        ef =
      let laid' =
        subst (IsLaid b') split (finish_block-IsLaid b b' es block some_entry built e laid) in
      (laid', read_block-IsLaid b' l r f t post law crc_lt laid' em eo ef)
