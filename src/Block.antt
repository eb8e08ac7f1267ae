-- ===== src/Block.antt =====
-- include/mini_lsm/block.h and src/block/builder.cpp: a block of entries and how it is built. The
-- field `data` is `contents` here.
-- An assertion that fails is `none`. size_t arithmetic does not wrap: a buffer is shorter than 2^63.
pub mod RoundTrip
pub mod Size
pub mod Cursor
mod Tests
use mini_lsm_cpp.Prelude.{
  ℕ, zero, suc, ◌+◌, ◌-◌, ◌*◌, Bool, true, false, not, ◌&&◌, List, [], ◌∷◌, ◌++◌, Option, none,
  some, ◌>>=◌, ◌>>◌, assert, length, take, drop, Bytes, u16, ltb, leb, ◌==◌, if◌then◌else◌, is_nil,
}
use mini_lsm_cpp.Endian.{put_u16_be, read_u16_be}

pub record Block : Type 0 where
  pub contents : Bytes
  pub offsets : List ℕ

-- for (offset : offsets) put_u16_be(buf, offset)
unfoldable pub put_offsets : Bytes → List ℕ → Bytes
put_offsets buf [] = buf
put_offsets buf (o ∷ offsets) = put_offsets (put_u16_be buf o) offsets

unfoldable pub encode : Block → Bytes
unfolding put_offsets
encode b = put_u16_be (put_offsets b.contents b.offsets) (u16 (length b.offsets))

-- for (i = 0; i < num_entries; ++i), on the rounds left and the bytes from the next offset on.
unfoldable pub read_offsets : ℕ → Bytes → Option (List ℕ)
read_offsets zero bytes = some []
read_offsets (suc rounds) bytes = do
  o ← read_u16_be bytes
  offsets ← read_offsets rounds (drop 2 bytes)
  some (o ∷ offsets)

unfoldable pub decode : Bytes → Option Block
unfolding read_offsets
decode raw = do
  assert (leb 2 (length raw))
  num_entries ← read_u16_be (drop (length raw - 2) raw)
  assert (leb (num_entries * 2) (length raw - 2))
  let data_end = length raw - 2 - num_entries * 2
  offsets ← read_offsets num_entries (drop data_end raw)
  some (record { contents = take data_end raw; offsets = offsets })

-- The length of the common prefix.
unfoldable pub compute_overlap : Bytes → Bytes → ℕ
compute_overlap [] key = 0
compute_overlap (a ∷ first_key) [] = 0
compute_overlap (a ∷ first_key) (b ∷ key) =
    let rest = compute_overlap first_key key in if a == b then 1 + rest else 0

pub record BlockBuilder : Type 0 where
  pub offsets : List ℕ
  pub contents : Bytes
  pub block_size : ℕ
  pub first_key : Bytes

unfoldable pub new_builder : ℕ → BlockBuilder
new_builder block_size = record {
  offsets = [];
  contents = [];
  block_size = block_size;
  first_key = [];
}

abbrev pub is_empty : BlockBuilder → Bool
is_empty b = is_nil b.offsets

unfoldable pub estimated : BlockBuilder → ℕ
estimated b = 2 + length b.offsets * 2 + length b.contents

-- The bytes of an entry: overlap, rest length, rest of the key, value length, value.
unfoldable pub put_entry : Bytes → Bytes → Bytes → Bytes → Bytes
put_entry buf first_key key value =
    let overlap = compute_overlap first_key key in
    let lengths = put_u16_be (put_u16_be buf (u16 overlap)) (u16 (length key - overlap)) in
    put_u16_be (lengths ++ drop overlap key) (u16 (length value)) ++ value

-- Whether the entry went in, and the builder after it. An empty key fails the assertion.
unfoldable pub add : BlockBuilder → Bytes → Bytes → Option (BlockBuilder × Bool)
unfolding estimated put_entry
add b key value = do
  assert (not (is_nil key))
  some (
      if ltb b.block_size (estimated b + length key + length value + 2 * 3) && not (is_empty b)
      then (b, false)
      else (
        record b {
          offsets = b.offsets ++ u16 (length b.contents) ∷ [];
          contents = put_entry b.contents b.first_key key value;
          first_key = if is_nil b.first_key then key else b.first_key;
        },
        true,
      ))

unfoldable pub build : BlockBuilder → Option Block
build b = do assert (not (is_empty b)); some (record { contents = b.contents; offsets = b.offsets })
