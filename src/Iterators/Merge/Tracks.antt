-- ===== src/Iterators/Merge/Tracks.antt =====
-- The heap of iterators against the queue of the runs that they yield.
use mini_lsm_cpp.Prelude.{
  ℕ, zero, suc, ◌≡◌, refl, ap, ◌∙◌, inl, inr, List, [], ◌∷◌, Bytes, Bool-cases, length,
}
use mini_lsm_cpp.Key.{key_eq}
use mini_lsm_cpp.Iterators.{StorageIterator, Yields}
use mini_lsm_cpp.Iterators.Merge.{
  HeapWrapper, less, push, push_valid, skip_key, advance, take_top, swap_top, settle,
}
use mini_lsm_cpp.Iterators.Merge.Runs.{Run, entries, less_run, push_run, push_rest, skip_run}

module _ {I : Type 0} (iter_ops : StorageIterator I) where
  abbrev pub Track : HeapWrapper I → Run → Type 0
  Track w r = (w.index ≡ r.index) × Yields iter_ops w.iter (entries r)

  -- Each element of the heap has its run at the same place of the queue.
  abbrev pub Tracks : List (HeapWrapper I) → List Run → Type 0
  Tracks [] [] = Unit {0}
  Tracks [] (r ∷ q) = ⊥
  Tracks (w ∷ heap) [] = ⊥
  Tracks (w ∷ heap) (r ∷ q) = Track w r × Tracks heap q

  less-Track :
      (w v : HeapWrapper I) (r s : Run) → Track w r → Track v s → less iter_ops w v ≡ less_run r s
  unfolding less less_run
  less-Track w v r s t u = rw (t.1.1, u.1.1, t.0, u.0, less, less_run)

  pub push-Tracks :
      (w : HeapWrapper I) (r : Run) (heap : List (HeapWrapper I)) (q : List Run)
      → Track w r
      → Tracks heap q
      → Tracks (push iter_ops w heap) (push_run r q)
  unfolding push push_run
  push-Tracks w r [] [] t ts = (t, tt)
  push-Tracks w r [] (s ∷ q) t ts = absurd ts
  push-Tracks w r (v ∷ heap) [] t ts = absurd ts
  push-Tracks w r (v ∷ heap) (s ∷ q) t ts =
      let same = less-Track w v r s t ts.0 in
      elim (Bool-cases (less_run r s)) [
        | inl l ↦ rw (same, l) (ts.0, push-Tracks w r heap q t ts.1)
        | inr l ↦ rw (same, l) (t, ts)
      ]

  pub push_valid-Tracks :
      (w : HeapWrapper I) (i : ℕ) (xs : List (Bytes × Bytes)) (heap : List (HeapWrapper I))
      (q : List Run)
      → w.index ≡ i
      → Yields iter_ops w.iter xs
      → Tracks heap q
      → Tracks (push_valid iter_ops w heap) (push_rest i xs q)
  unfolding push_valid push_rest
  push_valid-Tracks w i [] heap q e y ts = rw y ts
  push_valid-Tracks w i (x ∷ xs) heap q e y ts =
      rw y.0 (push-Tracks w (record { index = i; first = x; rest = xs }) heap q (e, y) ts)

  pub skip_key-Tracks :
      (fuel : ℕ) (k : Bytes) (heap : List (HeapWrapper I)) (q : List Run)
      → Tracks heap q
      → Tracks (skip_key iter_ops fuel k heap) (skip_run fuel k q)
  unfolding skip_key skip_run
  skip_key-Tracks zero k heap q ts = ts
  skip_key-Tracks (suc fuel) k [] [] ts = tt
  skip_key-Tracks (suc fuel) k [] (r ∷ q) ts = absurd ts
  skip_key-Tracks (suc fuel) k (w ∷ heap) [] ts = absurd ts
  skip_key-Tracks (suc fuel) k (w ∷ heap) (r ∷ q) ts =
      let same : key_eq (iter_ops.key w.iter) k ≡ key_eq r.first.0 k =
        ap (λ x. key_eq x k) ts.0.1.1 in
      elim (Bool-cases (key_eq r.first.0 k)) [
        | inl hit ↦
            rw (same ∙ hit, skip_key, hit, skip_run)
              (skip_key-Tracks fuel k (push_valid iter_ops (advance iter_ops w) heap)
                (push_rest r.index r.rest q)
                (push_valid-Tracks (advance iter_ops w) r.index r.rest heap q ts.0.0 ts.0.1.3 ts.1))
        | inr miss ↦ rw (same ∙ miss, skip_key, miss, skip_run) ts
      ]

  pub length-Tracks :
      (heap : List (HeapWrapper I)) (q : List Run) → Tracks heap q → length heap ≡ length q
  length-Tracks [] [] ts = refl
  length-Tracks [] (r ∷ q) ts = absurd ts
  length-Tracks (w ∷ heap) [] ts = absurd ts
  length-Tracks (w ∷ heap) (r ∷ q) ts = ap suc (length-Tracks heap q ts.1)

  -- The end of `next` puts the element back, if it is valid, and takes the top again.
  pub settle-eq-take_top :
      (w : HeapWrapper I) (heap : List (HeapWrapper I))
      → settle iter_ops w heap ≡ take_top iter_ops (push_valid iter_ops w heap)
  unfolding settle swap_top push_valid push take_top
  settle-eq-take_top w [] = elim (Bool-cases (iter_ops.is_valid w.iter)) [
    | inl v ↦ rw v
    | inr v ↦ rw v
  ]
  settle-eq-take_top w (t ∷ heap) = elim (Bool-cases (iter_ops.is_valid w.iter)) [
    | inl v ↦ elim (Bool-cases (less iter_ops w t)) [ inl l ↦ rw (v, l) | inr l ↦ rw (v, l) ]
    | inr v ↦ rw v
  ]
