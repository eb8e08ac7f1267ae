-- ===== src/Iterators/Merge/Yield.antt =====
-- include/mini_lsm/iterators.h: the run that MergeIterator yields.
use mini_lsm_cpp.Prelude.{
  ℕ, zero, suc, ◌+◌, ◌≤◌, ◌<◌, ◌≡◌, inl, inr, refl, sym, ◌∙◌, false, List, [], ◌∷◌, Bytes, All,
  length, subst, arith, Bool-cases,
}
use mini_lsm_cpp.Key.{key_eq}
use mini_lsm_cpp.Key.Order.{key_eq_iff}
use mini_lsm_cpp.MemTable.SortedMap.{IsSorted, Above, Above-trans, map_find}
use mini_lsm_cpp.Iterators.{StorageIterator, Yields}
use mini_lsm_cpp.Iterators.Merge.{
  HeapWrapper, MergeIterator, push_valid, fill, take_top, create, advance, skip_key, next, ops,
}
use mini_lsm_cpp.Iterators.Merge.Runs.{Run, push_run, push_rest, skip_run}
use mini_lsm_cpp.Iterators.Merge.Queue.{IsQueue}
use mini_lsm_cpp.Iterators.Merge.Lookup.{Answers, StartsAbove, map_find_behind}
use mini_lsm_cpp.Iterators.Merge.Steps.{step_run, Stepped, step_run-Stepped, first_found}
use mini_lsm_cpp.Iterators.Merge.Tracks.{
  Track, Tracks, push_valid-Tracks, skip_key-Tracks, length-Tracks, settle-eq-take_top,
}
use mini_lsm_cpp.Iterators.Merge.Unique.{sorted_unique}
use mini_lsm_cpp.Iterators.Merge.Filled.{
  merged_all, fill_run, fill_run-IsQueue, fill_run-lookup, map_find-merged_all, merged_all-IsSorted,
}

abbrev size : List Run → ℕ
size [] = 0
size (r ∷ q) = suc (length r.rest) + size q

size-push_run : (e : Run) (q : List Run) → size (push_run e q) ≡ suc (length e.rest) + size q
unfolding push_run
size-push_run e [] = refl
size-push_run e (f ∷ q) = ground (arith, size-push_run e q)

size-push_rest :
    (i : ℕ) (xs : List (Bytes × Bytes)) (q : List Run)
    → size (push_rest i xs q) ≡ length xs + size q
unfolding push_rest
size-push_rest i [] q = omega arith
size-push_rest i (x ∷ xs) q = size-push_run (record { index = i; first = x; rest = xs }) q

size-skip_run : (fuel : ℕ) (k : Bytes) (q : List Run) → size (skip_run fuel k q) ≤ size q
unfolding skip_run
size-skip_run zero k q = omega arith
size-skip_run (suc fuel) k [] = omega arith
size-skip_run (suc fuel) k (r ∷ q) =
    ground
      (arith, size-skip_run fuel k (push_rest r.index r.rest q), size-push_rest r.index r.rest q)

size-step_run : (r : Run) (q : List Run) → size (step_run r q) < size (r ∷ q)
unfolding step_run
size-step_run r q = omega (
  arith,
  size-push_rest r.index r.rest (skip_run (suc (length q)) r.first.0 q),
  size-skip_run (suc (length q)) r.first.0 q,
)

module _ {I : Type 0} (iter_ops : StorageIterator I) where
  -- The rest of what the iterator yields.
  record Drains (it : MergeIterator I) (q : List Run) : Type 0 where
    out : List (Bytes × Bytes)
    yields : Yields (ops iter_ops) it out
    sorted : IsSorted out
    starts : (k : Bytes) → All (StartsAbove k) q → Above k out
    answers : (k : Bytes) → Answers k (map_find k out) q

  next-take_top :
      (w : HeapWrapper I) (heap : List (HeapWrapper I))
      → (ops iter_ops).next (take_top iter_ops (w ∷ heap))
        ≡ take_top iter_ops (
            push_valid iter_ops
              (advance iter_ops w)
              (skip_key iter_ops (suc (length heap)) (iter_ops.key w.iter) heap))
  unfolding ops next take_top
  next-take_top w heap =
      settle-eq-take_top iter_ops (advance iter_ops w)
        (skip_key iter_ops (suc (length heap)) (iter_ops.key w.iter) heap)

  stepped-Tracks :
      (w : HeapWrapper I) (r : Run) (heap : List (HeapWrapper I)) (q : List Run)
      → Track iter_ops w r
      → Tracks iter_ops heap q
      → Tracks iter_ops
          (push_valid iter_ops
            (advance iter_ops w)
            (skip_key iter_ops (suc (length heap)) (iter_ops.key w.iter) heap))
          (step_run r q)
  unfolding step_run
  stepped-Tracks w r heap q t ts =
      rw (t.1.1, length-Tracks iter_ops heap q ts)
        (push_valid-Tracks iter_ops (advance iter_ops w) r.index r.rest
          (skip_key iter_ops (suc (length q)) r.first.0 heap)
          (skip_run (suc (length q)) r.first.0 q) t.0 t.1.3
          (skip_key-Tracks iter_ops (suc (length q)) r.first.0 heap q ts))

  drained_nil : (k : Bytes) → Answers k (map_find k []) []
  unfolding map_find
  drained_nil k = tt

  found_here :
      (x : Bytes × Bytes) (out : List (Bytes × Bytes)) (r : Run) (q q' : List Run) (k : Bytes)
      → r.first ≡ x
      → Stepped r q q'
      → Answers k (map_find k out) q'
      → Answers k (map_find k (x ∷ out)) (r ∷ q)
  found_here x out r q q' k e step rest = elim (Bool-cases (key_eq k r.first.0)) [
    | inl hit ↦
        let at : k ≡ r.first.0 = (key_eq_iff k r.first.0).0 hit in
        subst (λ y. Answers y (map_find y (x ∷ out)) (r ∷ q)) (sym at)
          (subst (λ (y : Bytes × Bytes). Answers r.first.0 (map_find r.first.0 (y ∷ out)) (r ∷ q)) e
            (subst (λ o. Answers r.first.0 o (r ∷ q)) (sym (first_found r.first out)) step.here))
    | inr miss ↦
        subst (λ o. Answers k o (r ∷ q))
          (sym (map_find_behind k x out (subst (λ y. key_eq k y.0 ≡ false) e miss)))
          (step.answers k (map_find k out) miss rest)
  ]

  drain :
      (fuel : ℕ) (heap : List (HeapWrapper I)) (q : List Run)
      → size q < fuel
      → IsQueue q
      → Tracks iter_ops heap q
      → Drains (take_top iter_ops heap) q
  unfolding ops take_top
  drain zero heap q enough h ts = absurd (omega arith)
  drain (suc fuel) [] [] enough h ts = record {
    out = [];
    yields = refl;
    sorted = tt;
    starts = λ k a. tt;
    answers = drained_nil;
  }
  drain (suc fuel) [] (r ∷ q) enough h ts = absurd ts
  drain (suc fuel) (w ∷ heap) [] enough h ts = absurd ts
  drain (suc fuel) (w ∷ heap) (r ∷ q) enough h ts =
      let (t, rest_ts) = ts in
      let step = step_run-Stepped r q h in
      let smaller = size-step_run r q in
      let then_heap =
        push_valid iter_ops (advance iter_ops w)
          (skip_key iter_ops (suc (length heap)) (iter_ops.key w.iter) heap) in
      let d =
        drain fuel then_heap (step_run r q) (omega arith) step.queue
          (stepped-Tracks w r heap q t rest_ts) in
      record {
        out = r.first ∷ d.out;
        yields = (
          t.1.0,
          t.1.1,
          t.1.2,
          subst (λ it. Yields (ops iter_ops) it d.out) (sym (next-take_top w heap)) d.yields,
        );
        sorted = (d.starts r.first.0 step.above, d.sorted);
        starts = λ k a. (a.0, Above-trans k r.first.0 d.out a.0 (d.starts r.first.0 step.above));
        answers = λ k. found_here r.first d.out r q (step_run r q) k refl step (d.answers k);
      }

module _ {I : Type 0} (iter_ops : StorageIterator I) where
  -- Each iterator yields the run at its place.
  abbrev pub YieldAll : List I → List (List (Bytes × Bytes)) → Type 0
  YieldAll [] [] = Unit {0}
  YieldAll [] (run ∷ runs) = ⊥
  YieldAll (i ∷ iters) [] = ⊥
  YieldAll (i ∷ iters) (run ∷ runs) = Yields iter_ops i run × YieldAll iters runs

  fill-Tracks :
      (n : ℕ) (iters : List I) (runs : List (List (Bytes × Bytes)))
      → YieldAll iters runs
      → Tracks iter_ops (fill iter_ops n iters) (fill_run n runs)
  unfolding fill fill_run
  fill-Tracks n [] [] y = tt
  fill-Tracks n [] (run ∷ runs) y = absurd y
  fill-Tracks n (i ∷ iters) [] y = absurd y
  fill-Tracks n (i ∷ iters) (run ∷ runs) y =
      push_valid-Tracks iter_ops (record { index = n; iter = i }) n run
        (fill iter_ops (n + 1) iters) (fill_run (n + 1) runs) refl y.0
        (fill-Tracks (n + 1) iters runs y.1)

  -- Over iterators that yield runs in ascending key order, MergeIterator yields the merged run
  -- of them all: each key once, with the entry of the first iterator that has it.
  pub create-Yields-merged_all :
      (iters : List I) (runs : List (List (Bytes × Bytes)))
      → YieldAll iters runs
      → All IsSorted runs
      → Yields (ops iter_ops) (create iter_ops iters) (merged_all runs)
  unfolding create
  create-Yields-merged_all iters runs y s =
      let q = fill_run 0 runs in
      let d =
        drain iter_ops (suc (size q)) (fill iter_ops 0 iters) q (omega arith)
          (fill_run-IsQueue 0 runs s) (fill-Tracks 0 iters runs y) in
      subst (Yields (ops iter_ops) (take_top iter_ops (fill iter_ops 0 iters)))
        (sorted_unique d.out (merged_all runs) d.sorted (merged_all-IsSorted runs s) (λ k.
          fill_run-lookup k 0 runs (map_find k d.out) (d.answers k)
          ∙ sym (map_find-merged_all k runs s)))
        d.yields
