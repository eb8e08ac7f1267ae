-- ===== src/Iterators/Lsm.antt =====
-- include/mini_lsm/lsm_iterator.h, src/lsm_iterator.cpp: LsmIterator hides tombstones (entries with
-- an empty value) and stops at the upper bound; FusedIterator stays ended after an exception.
-- The loop of `move_to_non_delete` takes fuel, one for each entry that is left.
pub mod Yield
pub mod Fused
use mini_lsm_cpp.Prelude.{ℕ, zero, suc, Bool, true, false, Bytes, ◌&&◌, if◌then◌else◌}
use mini_lsm_cpp.Key.{is_empty}
use mini_lsm_cpp.Iterators.{Bound, StorageIterator, past}

-- `inner` is not null here: the code makes a null one only by the default constructor.
pub record LsmIterator (I : Type 0) : Type 0 where
  pub inner : I
  pub end_bound : Bound
  pub valid : Bool

module _ {I : Type 0} (inner_ops : StorageIterator I) where
  pub match_end_bound : LsmIterator I → LsmIterator I
  match_end_bound it =
      if it.valid
      then (if past it.end_bound (inner_ops.key it.inner) then record it { valid = false } else it)
      else it

  pub next_inner : LsmIterator I → LsmIterator I
  next_inner it =
      let it' : LsmIterator I = record it { inner = inner_ops.next it.inner } in
      if inner_ops.is_valid it'.inner then match_end_bound it' else record it' { valid = false }

  pub move_to_non_delete : ℕ → LsmIterator I → LsmIterator I
  move_to_non_delete zero it = it
  move_to_non_delete (suc fuel) it = elim (it.valid && is_empty (inner_ops.value it.inner)) [
    | true ↦ move_to_non_delete fuel (next_inner it)
    | false ↦ it
  ]

  module _ (fuel : ℕ) where
    pub create : I → Bound → LsmIterator I
    create inner end_bound =
        if inner_ops.is_valid inner
        then move_to_non_delete fuel
            (match_end_bound (record { inner = inner; end_bound = end_bound; valid = true }))
        else record { inner = inner; end_bound = end_bound; valid = false }

    pub next : LsmIterator I → LsmIterator I
    next it = if it.valid then move_to_non_delete fuel (next_inner it) else it

    abbrev pub ops : StorageIterator (LsmIterator I)
    ops = record {
      is_valid = λ it. it.valid;
      key = λ it. inner_ops.key it.inner;
      value = λ it. inner_ops.value it.inner;
      next = next;
    }
