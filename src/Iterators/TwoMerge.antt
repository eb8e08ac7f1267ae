-- ===== src/Iterators/TwoMerge.antt =====
-- TwoMergeIterator: two iterators in one key order; where both have a key, the first one's entry
-- is kept and the second one's is skipped.
pub mod Yield
use mini_lsm_cpp.Prelude.{Bool, true, false, Bytes, ◌&&◌, if◌then◌else◌}
use mini_lsm_cpp.Key.{key_eq, key_lt}
use mini_lsm_cpp.Iterators.{StorageIterator}

pub record TwoMergeIterator (A B : Type 0) : Type 0 where
  pub a : A
  pub b : B
  pub first : Bool

module _ {A B : Type 0} (ops_a : StorageIterator A) (ops_b : StorageIterator B) where
  pub skip_b : TwoMergeIterator A B → TwoMergeIterator A B
  skip_b it =
      if ops_a.is_valid it.a
      then (if ops_b.is_valid it.b && key_eq (ops_b.key it.b) (ops_a.key it.a)
          then record it { b = ops_b.next it.b }
          else it)
      else it

  pub choose_a : TwoMergeIterator A B → Bool
  choose_a it =
      if ops_a.is_valid it.a
      then (if ops_b.is_valid it.b then key_lt (ops_a.key it.a) (ops_b.key it.b) else true)
      else false

  -- The last two statements of the constructor and of `next`.
  settle : TwoMergeIterator A B → TwoMergeIterator A B
  settle it = let it' = skip_b it in record it' { first = choose_a it' }

  pub create : A → B → TwoMergeIterator A B
  create a b = settle (record { a = a; b = b; first = false })

  pub key : TwoMergeIterator A B → Bytes
  key it = if it.first then ops_a.key it.a else ops_b.key it.b

  pub value : TwoMergeIterator A B → Bytes
  value it = if it.first then ops_a.value it.a else ops_b.value it.b

  pub is_valid : TwoMergeIterator A B → Bool
  is_valid it = if it.first then ops_a.is_valid it.a else ops_b.is_valid it.b

  pub next : TwoMergeIterator A B → TwoMergeIterator A B
  next it =
      settle
        (if it.first then record it { a = ops_a.next it.a } else record it { b = ops_b.next it.b })

  abbrev pub ops : StorageIterator (TwoMergeIterator A B)
  ops = record { is_valid = is_valid; key = key; value = value; next = next }
