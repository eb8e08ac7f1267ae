-- ===== src/Table/Filter.antt =====
-- src/table/bloom.cpp: the bloom filter of a table's key hashes, and its encoding.
-- The product with 0.69 that gives the number of probes is a parameter (`probes`), since the model
-- has no floating point; so is zlib's crc32. A failed assertion is `none`.
pub mod NoFalseNegatives
pub mod FilterRoundTrip
use mini_lsm_cpp.Prelude.{
  ℕ, zero, suc, ◌+◌, ◌-◌, ◌*◌, ◌/◌, ◌%◌, ◌^◌, min, max, Bool, true, false, List, [], ◌∷◌, ◌++◌,
  Option, none, some, ◌>>=◌, ◌>>◌, assert, length, take, drop, get_elem?, set, replicate, Bytes, u8,
  u32, u64, ltb, leb, ◌==◌, if◌then◌else◌,
}
use mini_lsm_cpp.Endian.{put_u32_be, read_u32_be}
use mini_lsm_cpp.Table.{Bloom}

-- byte & (1 << i)
unfoldable pub test_bit : ℕ → ℕ → Bool
test_bit byte zero = byte % 2 == 1
test_bit byte (suc i) = test_bit (byte / 2) i

-- byte | (1 << i)
unfoldable pub set_bit : ℕ → ℕ → ℕ
set_bit byte zero = byte / 2 * 2 + 1
set_bit byte (suc i) = set_bit (byte / 2) i * 2 + byte % 2

-- filter[bit_pos / 8] & (1 << (bit_pos % 8))
unfoldable pub test_at : Bytes → ℕ → Bool
unfolding test_bit
test_at filter pos = elim (get_elem? filter (pos / 8)) [
  | none ↦ false
  | some byte ↦ test_bit byte (pos % 8)
]

-- filter[bit_pos / 8] |= 1 << (bit_pos % 8)
unfoldable pub set_at : Bytes → ℕ → Bytes
unfolding set_bit
set_at filter pos = elim (get_elem? filter (pos / 8)) [
  | none ↦ filter
  | some byte ↦ set filter (pos / 8) (set_bit byte (pos % 8))
]

-- (h << 15) | (h >> 17) on 32 bits
abbrev pub delta_of : ℕ → ℕ
delta_of h = u32 (h * 2 ^ 15) + h / 2 ^ 17

-- for (i = 0; i < k; ++i), on the rounds left.
unfoldable pub set_all : ℕ → Bytes → ℕ → ℕ → ℕ → Bytes
set_all nbits filter delta zero h = filter
set_all nbits filter delta (suc rounds) h =
    set_all nbits (set_at filter (h % nbits)) delta rounds (u32 (h + delta))

unfoldable pub test_all : ℕ → Bytes → ℕ → ℕ → ℕ → Bool
test_all nbits filter delta zero h = true
test_all nbits filter delta (suc rounds) h =
    let rest = test_all nbits filter delta rounds (u32 (h + delta)) in
    if test_at filter (h % nbits) then rest else false

unfoldable pub add_hashes : ℕ → ℕ → Bytes → List ℕ → Bytes
add_hashes nbits k filter [] = filter
add_hashes nbits k filter (h ∷ hashes) =
    add_hashes nbits k (set_all nbits filter (delta_of h) k h) hashes

unfoldable pub may_contain : Bloom → ℕ → Bool
unfolding test_all
may_contain b h =
    let nbits = length b.filter * 8 in
    if ltb 30 b.k
    then true
    else if nbits == 0
    then true
    else test_all nbits b.filter (delta_of h) b.k h

module _ (probes : ℕ → ℕ) where
  unfoldable pub build_from_key_hashes : List ℕ → ℕ → Bloom
  unfolding add_hashes
  build_from_key_hashes hashes bits_per_key =
      let k = min (max (probes bits_per_key) 1) 30 in
      let nbytes = u64 (max (u64 (length hashes * bits_per_key)) 64 + 7) / 8 in
      record { filter = add_hashes (nbytes * 8) k (replicate nbytes 0) hashes; k = u8 k }

module _ (crc32 : Bytes → ℕ) where
  unfoldable pub encode : Bloom → Bytes → Bytes
  encode b buf =
      let with_k = buf ++ b.filter ++ b.k ∷ [] in
      put_u32_be with_k (crc32 (drop (length buf) with_k))

  unfoldable pub decode : Bytes → Option Bloom
  decode raw = do
    assert (leb 5 (length raw))
    expected_checksum ← read_u32_be (drop (length raw - 4) raw)
    assert (expected_checksum == crc32 (take (length raw - 4) raw))
    k ← get_elem? raw (length raw - 5)
    some (record { filter = take (length raw - 5) raw; k = k })
