-- ===== src/Iterators/Merge.antt =====
-- MergeIterator: any number of iterators in one key order; of equal keys the iterator of the lowest
-- index goes first, and the others are skipped.
-- The heap is the list of its elements in the order in which pop_heap takes them: make_heap and
-- push_heap put each element at its place there. Two elements never compare equal, since their
-- indices differ, so the order is the only one.
pub mod Runs
pub mod Queue
pub mod Lookup
pub mod Steps
pub mod Tracks
pub mod Unique
pub mod Filled
pub mod Yield
use mini_lsm_cpp.Prelude.{
  ℕ, zero, suc, ◌+◌, Bool, true, false, List, [], ◌∷◌, Option, none, some, Bytes, ltb, length,
  if◌then◌else◌,
}
use Prim.Native.Nat.{Ordering, lt, eq, gt}
use mini_lsm_cpp.Key.{key_compare, key_eq}
use mini_lsm_cpp.Iterators.{StorageIterator}

pub record HeapWrapper (I : Type 0) : Type 0 where
  pub index : ℕ
  pub iter : I

pub record MergeIterator (I : Type 0) : Type 0 where
  pub heap : List (HeapWrapper I)
  pub current : Option (HeapWrapper I)

-- Whether the comparison of the keys, and else that of the indices, puts the first element behind.
unfoldable pub behind : Ordering → ℕ → ℕ → Bool
behind lt i j = false
behind gt i j = true
behind eq i j = ltb j i

module _ {I : Type 0} (iter_ops : StorageIterator I) where
  -- a < b of HeapWrapper: `b` goes first.
  unfoldable pub less : HeapWrapper I → HeapWrapper I → Bool
  unfolding behind
  less a b = behind (key_compare (iter_ops.key a.iter) (iter_ops.key b.iter)) a.index b.index

  -- push_back and push_heap
  unfoldable pub push : HeapWrapper I → List (HeapWrapper I) → List (HeapWrapper I)
  unfolding less
  push e [] = e ∷ []
  push e (f ∷ heap) = let rest = push e heap in if less e f then f ∷ rest else e ∷ f ∷ heap

  unfoldable pub push_valid : HeapWrapper I → List (HeapWrapper I) → List (HeapWrapper I)
  unfolding push
  push_valid e heap = if iter_ops.is_valid e.iter then push e heap else heap

  -- The constructor's loop, from index `i` on, with make_heap.
  unfoldable pub fill : ℕ → List I → List (HeapWrapper I)
  unfolding push_valid
  fill i [] = []
  fill i (iter ∷ iters) = push_valid (record { index = i; iter = iter }) (fill (i + 1) iters)

  -- pop_heap, back and pop_back, or no current element where the heap is empty.
  unfoldable pub take_top : List (HeapWrapper I) → MergeIterator I
  take_top [] = record { heap = []; current = none }
  take_top (top ∷ heap) = record { heap = heap; current = some top }

  unfoldable pub create : List I → MergeIterator I
  unfolding fill take_top
  create iters = take_top (fill 0 iters)

  abbrev pub advance : HeapWrapper I → HeapWrapper I
  advance e = record e { iter = iter_ops.next e.iter }

  -- The loop that skips the key `k` in the heap, on fuel.
  unfoldable pub skip_key : ℕ → Bytes → List (HeapWrapper I) → List (HeapWrapper I)
  unfolding push_valid
  skip_key zero k heap = heap
  skip_key (suc fuel) k [] = []
  skip_key (suc fuel) k (top ∷ heap) = elim (key_eq (iter_ops.key top.iter) k) [
    | true ↦ skip_key fuel k (push_valid (advance top) heap)
    | false ↦ top ∷ heap
  ]

  -- The current element, advanced, against the heap's front.
  unfoldable pub swap_top : HeapWrapper I → List (HeapWrapper I) → MergeIterator I
  unfolding less push
  swap_top e [] = record { heap = []; current = some e }
  swap_top e (top ∷ heap) =
      if less e top
      then record { heap = push e heap; current = some top }
      else record { heap = top ∷ heap; current = some e }

  unfoldable pub settle : HeapWrapper I → List (HeapWrapper I) → MergeIterator I
  unfolding take_top swap_top
  settle e heap = if iter_ops.is_valid e.iter then swap_top e heap else take_top heap

  -- `none` is the failed assertion that there is a current element. Each round of the loop takes an
  -- element whose key then grows, so there are at most as many as the heap has elements.
  unfoldable pub next : MergeIterator I → Option (MergeIterator I)
  unfolding skip_key settle
  next it = elim it.current [
    | none ↦ none
    | some e ↦
        some (settle (advance e) (skip_key (suc (length it.heap)) (iter_ops.key e.iter) it.heap))
  ]

  -- What the iterator shows where its assertions fail is left open.
  abbrev pub valid_at : Option (HeapWrapper I) → Bool
  valid_at none = false
  valid_at (some e) = iter_ops.is_valid e.iter

  abbrev pub key_at : Option (HeapWrapper I) → Bytes
  key_at none = []
  key_at (some e) = iter_ops.key e.iter

  abbrev pub value_at : Option (HeapWrapper I) → Bytes
  value_at none = []
  value_at (some e) = iter_ops.value e.iter

  abbrev next_or : MergeIterator I → Option (MergeIterator I) → MergeIterator I
  next_or it none = it
  next_or it (some t) = t

  unfoldable pub ops : StorageIterator (MergeIterator I)
  ops = record {
    is_valid = λ it. valid_at it.current;
    key = λ it. key_at it.current;
    value = λ it. value_at it.current;
    next = λ it. next_or it (next it);
  }
