-- ===== src/Block/Tests.antt =====
-- A block of two entries, and a small builder.
use mini_lsm_cpp.Prelude.{◌≡◌, refl, false, [], ◌∷◌, some, arith, inl, is_nil}
use mini_lsm_cpp.Block.{Block, BlockBuilder, encode, decode, add, estimated}
use mini_lsm_cpp.Block.Cursor
use mini_lsm_cpp.Block.Cursor.{BlockIterator, seek_to_offset}
use mini_lsm_cpp.Block.Cursor.Entries.{at_entry, seek-put_entry}
use mini_lsm_cpp.Block.RoundTrip.{decode-encode}
use mini_lsm_cpp.Block.Size.{IsBounded, add-IsBounded}

abbrev two_entries : Block
two_entries = record {
  contents = 0 ∷ 0 ∷ 0 ∷ 1 ∷ 7 ∷ 0 ∷ 0 ∷ 0 ∷ 1 ∷ 0 ∷ 1 ∷ 8 ∷ 0 ∷ 0 ∷ [];
  offsets = 0 ∷ 7 ∷ [];
}

decode-encode_example : decode (encode two_entries) ≡ some two_entries
decode-encode_example = decode-encode two_entries (omega arith) (omega arith)

abbrev one_entry : BlockBuilder
one_entry = record {
  offsets = 0 ∷ [];
  contents = 0 ∷ 0 ∷ 0 ∷ 1 ∷ 7 ∷ 0 ∷ 0 ∷ [];
  block_size = 12;
  first_key = 7 ∷ [];
}

-- A second entry does not fit into twelve bytes.
turned_down : add one_entry (7 ∷ 8 ∷ []) [] ≡ some (one_entry, false)
unfolding add estimated is_nil
turned_down = refl

add-IsBounded_example : IsBounded one_entry
add-IsBounded_example =
    add-IsBounded one_entry (7 ∷ 8 ∷ []) [] (one_entry, false) (inl (omega arith)) turned_down

-- The key 7 8 behind an entry with the key 7.
seek-put_entry_example :
    (it : BlockIterator) × (seek_to_offset
        (at_entry (7 ∷ []) (7 ∷ 8 ∷ []) (5 ∷ []) (0 ∷ 0 ∷ []) [] (0 ∷ 2 ∷ []) 1)
      ≡ some it)
    × (it.key ≡ 7 ∷ 8 ∷ [])
    × (Cursor.value it ≡ some (5 ∷ []))
unfolding is_nil
seek-put_entry_example =
    seek-put_entry (7 ∷ []) (7 ∷ 8 ∷ []) (5 ∷ []) (0 ∷ 0 ∷ []) [] (0 ∷ 2 ∷ []) 1 refl (omega arith)
      (omega arith) refl
