-- ===== src/Iterators/Merge/Filled.antt =====
-- include/mini_lsm/iterators.h: the queue that MergeIterator's constructor fills, and the merged run.
use mini_lsm_cpp.Prelude.{
  ℕ, ◌+◌, ◌≤◌, ◌≡◌, inl, inr, refl, sym, ap, ◌∙◌, List, [], ◌∷◌, Option, none, some, Bytes, All,
  subst, arith,
}
use mini_lsm_cpp.MemTable.SortedMap.{IsSorted, map_find}
use mini_lsm_cpp.Iterators.Merged.{merged, merged-IsSorted, map_find-merged, or_else}
use mini_lsm_cpp.Iterators.Merge.Runs.{Run, push_run, push_rest}
use mini_lsm_cpp.Iterators.Merge.Queue.{IsQueue, push_rest-IsQueue, push_run-All, Any}
use mini_lsm_cpp.Iterators.Merge.Lookup.{Sees, IsAt, Answers, Answers-Covers, Covers-push_run}

-- The merged run of any number of runs, the first one's entry where several have a key.
unfoldable pub merged_all : List (List (Bytes × Bytes)) → List (Bytes × Bytes)
merged_all [] = []
merged_all (run ∷ runs) = merged run (merged_all runs)

-- The queue that the constructor fills, with the runs that its iterators yield.
unfoldable pub fill_run : ℕ → List (List (Bytes × Bytes)) → List Run
fill_run i [] = []
fill_run i (run ∷ runs) = push_rest i run (fill_run (i + 1) runs)

pub fill_run-IsQueue :
    (i : ℕ) (runs : List (List (Bytes × Bytes))) → All IsSorted runs → IsQueue (fill_run i runs)
unfolding fill_run
fill_run-IsQueue i [] s = record { ordered = tt; sorted = tt }
fill_run-IsQueue i (run ∷ runs) s =
    push_rest-IsQueue i run (fill_run (i + 1) runs) s.0 (fill_run-IsQueue (i + 1) runs s.1)

push_rest-AtLeast :
    (n i : ℕ) (run : List (Bytes × Bytes)) (q : List Run)
    → n ≤ i
    → All (λ r. n ≤ r.index) q
    → All (λ r. n ≤ r.index) (push_rest i run q)
unfolding push_rest
push_rest-AtLeast n i [] q l h = h
push_rest-AtLeast n i (x ∷ xs) q l h =
    push_run-All (λ r. n ≤ r.index) (record { index = i; first = x; rest = xs }) q l h

fill_run-AtLeast :
    (n i : ℕ) (runs : List (List (Bytes × Bytes)))
    → n ≤ i
    → All (λ r. n ≤ r.index) (fill_run i runs)
unfolding fill_run
fill_run-AtLeast n i [] l = tt
fill_run-AtLeast n i (run ∷ runs) l =
    push_rest-AtLeast n i run (fill_run (i + 1) runs) l
      (fill_run-AtLeast n (i + 1) runs (omega arith))

index_of_found :
    (k v : Bytes) (n i : ℕ) (q : List Run)
    → All (λ r. n ≤ r.index) q
    → Any (Sees k (IsAt i v)) q
    → n ≤ i
index_of_found k v n i [] h f = absurd f
index_of_found k v n i (r ∷ q) h (inl (e, _)) = subst (λ m. n ≤ m) e h.0
index_of_found k v n i (r ∷ q) h (inr f) = index_of_found k v n i q h.1 f

-- The answer of the first run that has the key.
abbrev lookup : Bytes → List (List (Bytes × Bytes)) → Option Bytes
lookup k [] = none
lookup k (run ∷ runs) = or_else (map_find k run) (lookup k runs)

lookup_cons :
    (k : Bytes) (o p : Option Bytes) (i : ℕ) (x : Bytes × Bytes) (xs : List (Bytes × Bytes))
    (q : List Run)
    → All (λ r. i + 1 ≤ r.index) q
    → ((a : Option Bytes) → Answers k a q → a ≡ p)
    → Answers k o (record { index = i; first = x; rest = xs } ∷ q)
    → o ≡ or_else (map_find k (x ∷ xs)) p
lookup_cons k none p i x xs q l rest h = rest none h.1 ∙ sym (ap (λ a. or_else a p) h.0)
lookup_cons k (some v) p i x xs q l rest (j, inl (e, f), below) = sym (ap (λ a. or_else a p) f)
lookup_cons k (some v) p i x xs q l rest (j, inr f, (inl n, below)) =
    let m = index_of_found k v (i + 1) j q l f in absurd (omega arith)
lookup_cons k (some v) p i x xs q l rest (j, inr f, (inr lacks, below)) =
    rest (some v) (j, f, below) ∙ sym (ap (λ a. or_else a p) lacks)

pub fill_run-lookup :
    (k : Bytes) (i : ℕ) (runs : List (List (Bytes × Bytes))) (o : Option Bytes)
    → Answers k o (fill_run i runs)
    → o ≡ lookup k runs
unfolding fill_run push_rest map_find
fill_run-lookup k i [] none h = refl
fill_run-lookup k i [] (some v) (j, f, _) = absurd f
fill_run-lookup k i ([] ∷ runs) o h = fill_run-lookup k (i + 1) runs o h
fill_run-lookup k i ((x ∷ xs) ∷ runs) o h =
    let e : Run = record { index = i; first = x; rest = xs } in
    let q = fill_run (i + 1) runs in
    lookup_cons k o (lookup k runs) i x xs q (fill_run-AtLeast (i + 1) (i + 1) runs (omega arith))
      (λ a. fill_run-lookup k (i + 1) runs a)
      (Answers-Covers k o (e ∷ q) (push_run e q) (Covers-push_run k e q) h)

pub merged_all-IsSorted :
    (runs : List (List (Bytes × Bytes))) → All IsSorted runs → IsSorted (merged_all runs)
unfolding merged_all
merged_all-IsSorted [] s = tt
merged_all-IsSorted (run ∷ runs) s =
    merged-IsSorted run (merged_all runs) s.0 (merged_all-IsSorted runs s.1)

pub map_find-merged_all :
    (k : Bytes) (runs : List (List (Bytes × Bytes)))
    → All IsSorted runs
    → map_find k (merged_all runs) ≡ lookup k runs
unfolding merged_all map_find
map_find-merged_all k [] s = refl
map_find-merged_all k (run ∷ runs) s =
    map_find-merged k run (merged_all runs) s.0 (merged_all-IsSorted runs s.1)
    ∙ ap (or_else (map_find k run)) (map_find-merged_all k runs s.1)
