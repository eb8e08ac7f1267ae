-- ===== src/Iterators.antt =====
-- include/mini_lsm/iterators.h: bounds, and the interface of the iterators. What `key` and `value`
-- answer on an iterator that is not valid is left open: the code asserts that they are not asked.
pub mod Merged
pub mod TwoMerge
pub mod Lsm
pub mod Merge
pub mod Concat
pub mod Tests
use mini_lsm_cpp.Prelude.{ℕ, ◌≡◌, Bool, true, false, List, [], ◌∷◌, Bytes}
use mini_lsm_cpp.Key.{key_gt, key_ge}

pub data BoundType : Type 0 where
  unbounded included excluded : BoundType

pub record Bound : Type 0 where
  pub type : BoundType
  pub key : Bytes

-- A key is past the upper bound, as the loops of MemTableIterator and LsmIterator test it.
unfoldable pub past : Bound → Bytes → Bool
past upper k = elim upper.type [
  | unbounded ↦ false
  | included ↦ key_gt k upper.key
  | excluded ↦ key_ge k upper.key
]

pub record StorageIterator (I : Type 0) : Type 0 where
  pub is_valid : I → Bool
  pub key : I → Bytes
  pub value : I → Bytes
  pub next : I → I

-- From state `i` the iterator yields exactly the entries of the list, and is then not valid.
abbrev pub Yields : {I : Type 0} → StorageIterator I → I → List (Bytes × Bytes) → Type 0
Yields ops i [] = ops.is_valid i ≡ false
Yields ops i (e ∷ es) =
    (ops.is_valid i ≡ true) × (ops.key i ≡ e.0) × (ops.value i ≡ e.1) × Yields ops (ops.next i) es
