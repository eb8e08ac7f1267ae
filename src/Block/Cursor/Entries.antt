-- ===== src/Block/Cursor/Entries.antt =====
-- What the iterator reads where the builder put an entry.
use mini_lsm_cpp.Prelude.{
  ℕ, ◌+◌, ◌-◌, ◌<◌, ◌≤◌, ◌^◌, ◌≡◌, refl, sym, ap, true, false, List, [], ◌∷◌, ◌++◌, some, length,
  take, drop, get_elem?, Bytes, u16, leb, le→leb, ◌==◌, arith, length-append, length-drop, is_nil,
  Bool-cases, inl, inr, suc, append_assoc, drop_append, take_append,
}
use mini_lsm_cpp.Endian.{put_u16_be, read_u16_be}
use mini_lsm_cpp.Endian.RoundTrip.{length-put_u16_be, read-put_u16_be}
use mini_lsm_cpp.Block.{Block, compute_overlap, put_entry}
use mini_lsm_cpp.Block.Cursor
use mini_lsm_cpp.Block.Cursor.{BlockIterator, read_bytes, seek_to_offset}

overlap_bound :
    (first_key key : Bytes)
    → (compute_overlap first_key key ≤ length first_key)
      × (compute_overlap first_key key ≤ length key)
unfolding compute_overlap
overlap_bound [] key = omega arith
overlap_bound (a ∷ first_key) [] = omega arith
overlap_bound (a ∷ first_key) (b ∷ key) = ground (arith, overlap_bound first_key key)

overlap_shared :
    (first_key key : Bytes)
    → take (compute_overlap first_key key) first_key ++ drop (compute_overlap first_key key) key
      ≡ key
unfolding compute_overlap
overlap_shared [] key = refl
overlap_shared (a ∷ first_key) [] = refl
overlap_shared (a ∷ first_key) (b ∷ key) = elim (Bool-cases (a == b)) [
  | inl e ↦
      let r = compute_overlap first_key key in
      let same : a ≡ b = ground arith in
      let step : 1 + r ≡ suc r = omega arith in
      rw (e, step, same) (ap (λ xs. b ∷ xs) (overlap_shared first_key key))
  | inr e ↦ rw e
]

module _ (first_key key value pre post : Bytes) where
  abbrev own : Bytes
  own = drop (compute_overlap first_key key) key

  -- The parts of an entry.
  entry_shape :
      put_entry pre first_key key value ++ post
      ≡ pre
        ++ (put_u16_be [] (u16 (compute_overlap first_key key))
            ++ (put_u16_be [] (u16 (length key - compute_overlap first_key key))
                ++ (own ++ (put_u16_be [] (u16 (length value)) ++ (value ++ post)))))
  unfolding put_entry put_u16_be
  entry_shape = simp append_assoc

-- A first part of a buffer, read off it.
pub read_bytes-append : (xs ys : Bytes) → read_bytes (length xs) (xs ++ ys) ≡ some xs
unfolding read_bytes
read_bytes-append xs ys =
    let fits : leb (length xs) (length (xs ++ ys)) ≡ true =
      le→leb _ _ (omega (arith, length-append xs ys)) in
    rw (fits, take_append (length xs) xs ys refl)

read_bytes-take : (n : ℕ) (xs : Bytes) → n ≤ length xs → read_bytes n xs ≡ some (take n xs)
unfolding read_bytes
read_bytes-take n xs h = rw (le→leb n (length xs) h)

module _ (first_key key value pre post : Bytes) (offsets : List ℕ) (idx : ℕ) where
  -- A block that has the entry at the offset of index `idx`, behind any bytes and before any.
  abbrev pub holding : Block
  holding = record { contents = put_entry pre first_key key value ++ post; offsets = offsets }

  abbrev pub at_entry : BlockIterator
  at_entry = record {
    block = holding;
    key = [];
    value_start = 0;
    value_len = 0;
    idx = idx;
    first_key = first_key;
  }

  abbrev on_entry : BlockIterator
  on_entry = record at_entry {
    key = key;
    value_start = length pre + 4 + (length key - compute_overlap first_key key) + 2;
    value_len = length value;
  }

  seek_parts :
      (a b c : Bytes)
      → get_elem? offsets idx ≡ some (length pre)
      → length a ≡ 2
      → length b ≡ 2
      → length c ≡ 2
      → ((r : Bytes) → read_u16_be (a ++ r) ≡ some (compute_overlap first_key key))
      → ((r : Bytes) → read_u16_be (b ++ r) ≡ some (length key - compute_overlap first_key key))
      → ((r : Bytes) → read_u16_be (c ++ r) ≡ some (length value))
      → let rest = drop (compute_overlap first_key key) key in
        put_entry pre first_key key value ++ post
          ≡ pre ++ (a ++ (b ++ (rest ++ (c ++ (value ++ post)))))
        → (seek_to_offset at_entry ≡ some on_entry)
          × (drop
                (length pre + 4 + (length key - compute_overlap first_key key) + 2)
                holding.contents
              ≡ value ++ post)
  unfolding seek_to_offset
  seek_parts a b c at la lb lc ra rb rc shape =
      let o = compute_overlap first_key key in
      let rest = drop o key in
      let n = length key - o in
      let tail = c ++ (value ++ post) in
      let ptr = a ++ (b ++ (rest ++ tail)) in
      let bounds = overlap_bound first_key key in
      let lr : length rest ≡ n = length-drop o key in
      let e1 : ptr ≡ (a ++ b) ++ (rest ++ tail) = simp append_assoc in
      let e2 : ptr ≡ ((a ++ b) ++ rest) ++ tail = simp append_assoc in
      let e3 : pre ++ ptr ≡ (((pre ++ (a ++ b)) ++ rest) ++ c) ++ (value ++ post) =
        simp append_assoc in
      let d0 : drop (length pre) (pre ++ ptr) ≡ ptr = drop_append (length pre) pre ptr refl in
      let d2 : drop 2 ptr ≡ b ++ (rest ++ tail) = drop_append 2 a _ (sym la) in
      let d4 : drop 4 ptr ≡ rest ++ tail =
        rw e1 (drop_append 4 (a ++ b) _ (omega (arith, length-append a b))) in
      let dn : drop (4 + n) ptr ≡ tail = rw e2 (
        drop_append (4 + n) ((a ++ b) ++ rest) _
          (omega (arith, length-append a b, length-append (a ++ b) rest))) in
      let dv : drop (length pre + 4 + n + 2) (pre ++ ptr) ≡ value ++ post = rw e3 (
        drop_append (length pre + 4 + n + 2) (((pre ++ (a ++ b)) ++ rest) ++ c) _ (
          omega (
            arith,
            length-append a b,
            length-append pre (a ++ b),
            length-append (pre ++ (a ++ b)) rest,
            length-append ((pre ++ (a ++ b)) ++ rest) c,
          ))) in
      let own_key : read_bytes n (rest ++ tail) ≡ some rest =
        rw (sym lr) (read_bytes-append rest tail) in
      let whole_key = overlap_shared first_key key in
      (
        rw (
          at,
          shape,
          d0,
          ra (b ++ (rest ++ tail)),
          d2,
          rb (rest ++ tail),
          read_bytes-take o first_key bounds.0,
          d4,
          own_key,
          dn,
          rc (value ++ post),
          whole_key,
        ),
        rw shape dv,
      )

  -- Where the block builder put an entry whose key and value are shorter than 2^16, behind any
  -- bytes and before any, BlockIterator with the same first key reads that key, if it is not
  -- empty, and that value.
  pub seek-put_entry :
      get_elem? offsets idx ≡ some (length pre)
      → length key < 2 ^ 16
      → length value < 2 ^ 16
      → is_nil key ≡ false
      → (it : BlockIterator) × (seek_to_offset at_entry ≡ some it)
        × (it.key ≡ key)
        × (Cursor.value it ≡ some value)
  unfolding Cursor.value
  seek-put_entry at small_key small_value some_key =
      let o = compute_overlap first_key key in
      let n = length key - o in
      let bounds = overlap_bound first_key key in
      let eo : u16 o ≡ o = omega arith in
      let en : u16 n ≡ n = omega arith in
      let ev : u16 (length value) ≡ length value = omega arith in
      let (seek, there) =
        seek_parts (put_u16_be [] (u16 o)) (put_u16_be [] (u16 n))
          (put_u16_be [] (u16 (length value))) at (length-put_u16_be _) (length-put_u16_be _)
          (length-put_u16_be _) (λ r. rw eo (read-put_u16_be o r (omega arith)))
          (λ r. rw en (read-put_u16_be n r (omega arith)))
          (λ r. rw ev (read-put_u16_be (length value) r small_value))
          (entry_shape first_key key value pre post) in
      (on_entry, seek, refl, rw (some_key, there) (read_bytes-append value post))
