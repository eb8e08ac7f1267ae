-- ===== src/Block/Cursor.antt =====
-- src/block/iterator.cpp: BlockIterator over a block. The iterator without a block, of the default
-- constructor, is left out. A read past the block's data, or past the first key, is `none`.
pub mod Entries
use Prim.Native.Nat.{Ordering, lt, eq, gt}
use mini_lsm_cpp.Prelude.{
  ℕ, zero, suc, ◌+◌, ◌-◌, ◌/◌, Bool, not, List, [], ◌∷◌, ◌++◌, Option, none, some, ◌>>=◌, ◌>>◌,
  assert, length, take, drop, get_elem?, Bytes, leb, if◌then◌else◌, is_nil,
}
use mini_lsm_cpp.Endian.{read_u16_be}
use mini_lsm_cpp.Key.{key_compare}
use mini_lsm_cpp.Block.{Block}

pub record BlockIterator : Type 0 where
  pub block : Block
  pub key : Bytes
  pub value_start : ℕ
  pub value_len : ℕ
  pub idx : ℕ
  pub first_key : Bytes

-- `n` bytes from a pointer on.
unfoldable pub read_bytes : ℕ → Bytes → Option Bytes
read_bytes n bytes = do assert (leb n (length bytes)); some (take n bytes)

unfoldable pub read_first_key : Block → Option Bytes
unfolding read_bytes
read_first_key b = if is_nil b.offsets then some [] else do
  overlap ← read_u16_be b.contents
  key_len ← read_u16_be (drop 2 b.contents)
  read_bytes key_len (drop 4 b.contents)

unfoldable pub from_block : Block → Option BlockIterator
from_block b = do
  first_key ← read_first_key b
  some (record {
    block = b;
    key = [];
    value_start = 0;
    value_len = 0;
    idx = 0;
    first_key = first_key;
  })

unfoldable pub seek_to_offset : BlockIterator → Option BlockIterator
unfolding read_bytes
seek_to_offset it = do
  offset ← get_elem? it.block.offsets it.idx
  let ptr = drop offset it.block.contents
  overlap_len ← read_u16_be ptr
  key_len ← read_u16_be (drop 2 ptr)
  shared ← read_bytes overlap_len it.first_key
  own ← read_bytes key_len (drop 4 ptr)
  val_len ← read_u16_be (drop (4 + key_len) ptr)
  some (record it {
    key = shared ++ own;
    value_start = offset + 4 + key_len + 2;
    value_len = val_len;
  })

unfoldable pub seek_to : BlockIterator → ℕ → Option BlockIterator
unfolding seek_to_offset
seek_to it idx =
    if leb (length it.block.offsets) idx
    then some (record it { key = []; value_start = 0; value_len = 0 })
    else seek_to_offset (record it { idx = idx })

unfoldable pub is_valid : BlockIterator → Bool
is_valid it = not (is_nil it.key)

unfoldable pub value : BlockIterator → Option Bytes
unfolding read_bytes
value it = do
  assert (not (is_nil it.key))
  read_bytes it.value_len (drop it.value_start it.block.contents)

unfoldable pub next : BlockIterator → Option BlockIterator
unfolding seek_to
next it = seek_to (record it { idx = it.idx + 1 }) (it.idx + 1)

unfoldable pub create_and_seek_to_first : Block → Option BlockIterator
unfolding from_block seek_to
create_and_seek_to_first b = do it ← from_block b; seek_to it 0

-- The binary search between `low` and `high`; each round at least halves what is between them.
unfoldable pub search_loop : ℕ → BlockIterator → Bytes → ℕ → ℕ → Option BlockIterator
unfolding seek_to
search_loop zero it target low high = none
search_loop (suc fuel) it target low high = if leb high low then seek_to it low else do
  let mid = low + (high - low) / 2
  at_mid ← seek_to it mid
  assert (not (is_nil at_mid.key))
  elim (key_compare at_mid.key target) [
    | lt ↦ search_loop fuel at_mid target (mid + 1) high
    | gt ↦ search_loop fuel at_mid target low mid
    | eq ↦ some at_mid
  ]

unfoldable pub seek_to_key : BlockIterator → Bytes → Option BlockIterator
unfolding search_loop
seek_to_key it target =
    search_loop (suc (length it.block.offsets)) it target 0 (length it.block.offsets)
