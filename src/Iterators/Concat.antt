-- ===== src/Iterators/Concat.antt =====
-- include/mini_lsm/iterators.h and src/iterators/concat_iterator.cpp: SstConcatIterator, over tables
-- whose key ranges follow each other. The iterator over one table is a parameter: its interface, and
-- how it is made at the table's first entry and at a key. A failed assertion is `none`.
pub mod ConcatYield
use mini_lsm_cpp.Prelude.{
  ℕ, zero, suc, ◌+◌, ◌-◌, Bool, true, false, ◌&&◌, List, [], ◌∷◌, Option, none, some, ◌>>=◌, ◌>>◌,
  assert, Bytes, length, drop, get_elem?, leb, if◌then◌else◌,
}
use mini_lsm_cpp.Key.{key_lt, key_le}
use mini_lsm_cpp.Table.{SsTable}
use mini_lsm_cpp.Iterators.{StorageIterator}

pub record SstConcatIterator (I : Type 0) : Type 0 where
  pub current : Option I
  pub next_sst_idx : ℕ
  pub sstables : List SsTable

-- The loops of check_sst_valid.
unfoldable pub check_each : List SsTable → Bool
check_each [] = true
check_each (t ∷ sstables) = key_le t.first_key t.last_key && check_each sstables

unfoldable pub check_pairs : List SsTable → Bool
check_pairs [] = true
check_pairs (t ∷ []) = true
check_pairs (t ∷ u ∷ sstables) = key_lt t.last_key u.first_key && check_pairs (u ∷ sstables)

unfoldable pub check_sst_valid : List SsTable → Option (Unit {0})
unfolding check_each check_pairs
check_sst_valid sstables = do assert (check_each sstables); assert (check_pairs sstables)

-- The first tables whose first key is not past the key.
unfoldable pub partition_point : Bytes → List SsTable → ℕ
partition_point key [] = 0
partition_point key (t ∷ sstables) =
    let rest = partition_point key sstables in if key_le t.first_key key then suc rest else 0

module _ {I : Type 0} (iter_ops : StorageIterator I) (seek_to_first : SsTable → I) where
  -- The loop, on the tables from `next_sst_idx` on.
  unfoldable pub move_over : List SsTable → SstConcatIterator I → SstConcatIterator I
  move_over [] it = elim it.current [
    | none ↦ it
    | some c ↦ elim (iter_ops.is_valid c) [ true ↦ it | false ↦ record it { current = none } ]
  ]
  move_over (t ∷ rest) it = elim it.current [
    | none ↦ it
    | some c ↦ elim (iter_ops.is_valid c) [
      | true ↦ it
      | false ↦
          move_over rest
            (record it { current = some (seek_to_first t); next_sst_idx = it.next_sst_idx + 1 })
    ]
  ]

  unfoldable pub move_until_valid : SstConcatIterator I → SstConcatIterator I
  unfolding move_over
  move_until_valid it = move_over (drop it.next_sst_idx it.sstables) it

  abbrev pub start_first : List SsTable → SstConcatIterator I
  start_first [] = record { current = none; next_sst_idx = 0; sstables = [] }
  start_first (t ∷ sstables) =
      move_until_valid
        (record { current = some (seek_to_first t); next_sst_idx = 1; sstables = t ∷ sstables })

  unfoldable pub create_and_seek_to_first : List SsTable → Option (SstConcatIterator I)
  create_and_seek_to_first sstables = do check_sst_valid sstables; some (start_first sstables)

  unfoldable pub create_and_seek_to_key :
      (SsTable → Bytes → I) → List SsTable → Bytes → Option (SstConcatIterator I)
  unfolding partition_point
  create_and_seek_to_key seek_to_key sstables key = do
    check_sst_valid sstables
    let idx = partition_point key sstables - 1
    some (elim (get_elem? sstables idx) [
      | none ↦ record { current = none; next_sst_idx = length sstables; sstables = sstables }
      | some t ↦ move_until_valid (record {
        current = some (seek_to_key t key);
        next_sst_idx = idx + 1;
        sstables = sstables;
      })
    ])

  -- What the iterator shows where its assertions fail is left open.
  abbrev pub valid_at : Option I → Bool
  valid_at none = false
  valid_at (some c) = iter_ops.is_valid c

  abbrev pub key_at : Option I → Bytes
  key_at none = []
  key_at (some c) = iter_ops.key c

  abbrev pub value_at : Option I → Bytes
  value_at none = []
  value_at (some c) = iter_ops.value c

  -- `none` is the failed assertion that the iterator is valid.
  unfoldable pub next : SstConcatIterator I → Option (SstConcatIterator I)
  unfolding move_until_valid
  next it = elim it.current [
    | none ↦ none
    | some c ↦
        if iter_ops.is_valid c
        then some (move_until_valid (record it { current = some (iter_ops.next c) }))
        else none
  ]

  abbrev next_or : SstConcatIterator I → Option (SstConcatIterator I) → SstConcatIterator I
  next_or it none = it
  next_or it (some t) = t

  unfoldable pub ops : StorageIterator (SstConcatIterator I)
  unfolding next
  ops = record {
    is_valid = λ it. valid_at it.current;
    key = λ it. key_at it.current;
    value = λ it. value_at it.current;
    next = λ it. next_or it (next it);
  }
