-- ===== src/Iterators/Merge/Queue.antt =====
-- The queue of runs stays in order, and a push loses and invents nothing.
use mini_lsm_cpp.Prelude.{◌⊎◌, inl, inr, List, [], ◌∷◌, Bytes, All, ℕ}
use mini_lsm_cpp.MemTable.SortedMap.{IsSorted}
use mini_lsm_cpp.Iterators.Merge.Runs.{
  Run, entries, push_run, push_rest, Ahead, Ahead-trans, less_run_cases,
}

abbrev pub Ordered : List Run → Type 0
Ordered [] = Unit {0}
Ordered (r ∷ q) = All (Ahead r) q × Ordered q

-- A queue in order, of ascending runs.
pub record IsQueue (q : List Run) : Type 0 where
  pub ordered : Ordered q
  pub sorted : All (λ r. IsSorted (entries r)) q

module _ (P : Run → Type 0) where
  -- Some run of the queue has the property.
  abbrev pub Any : List Run → Type 0
  Any [] = ⊥
  Any (r ∷ q) = P r ⊎ Any q

  pub push_run-All : (e : Run) (q : List Run) → P e → All P q → All P (push_run e q)
  unfolding push_run
  push_run-All e [] pe pq = (pe, tt)
  push_run-All e (f ∷ q) pe pq = elim (less_run_cases e f) [
    | inl (l, _) ↦ rw l (pq.0, push_run-All e q pe pq.1)
    | inr (l, _) ↦ rw l (pe, pq)
  ]

  pub All-push_run : (e : Run) (q : List Run) → All P (push_run e q) → P e × All P q
  unfolding push_run
  All-push_run e [] h = h
  All-push_run e (f ∷ q) h = elim (less_run_cases e f) [
    | inl (l, _) ↦
        let g : All P (f ∷ push_run e q) = rw l at h in
        let (pe, pq) = All-push_run e q g.1 in (pe, (g.0, pq))
    | inr (l, _) ↦ let g : All P (e ∷ f ∷ q) = rw l at h in g
  ]

  pub Any-push_run : (e : Run) (q : List Run) → Any (push_run e q) → P e ⊎ Any q
  unfolding push_run
  Any-push_run e [] h = h
  Any-push_run e (f ∷ q) h = elim (less_run_cases e f) [
    | inl (l, _) ↦
        let g : Any (f ∷ push_run e q) = rw l at h in
        elim g [
          | inl pf ↦ inr (inl pf)
          | inr later ↦ elim (Any-push_run e q later) [ inl pe ↦ inl pe | inr pq ↦ inr (inr pq) ]
        ]
    | inr (l, _) ↦ let g : Any (e ∷ f ∷ q) = rw l at h in g
  ]

Ahead-all : (e f : Run) (q : List Run) → Ahead e f → All (Ahead f) q → All (Ahead e) q
Ahead-all e f [] h a = tt
Ahead-all e f (g ∷ q) h a = (Ahead-trans e f g h a.0, Ahead-all e f q h a.1)

push_run-Ordered : (e : Run) (q : List Run) → Ordered q → Ordered (push_run e q)
unfolding push_run
push_run-Ordered e [] o = (tt, tt)
push_run-Ordered e (f ∷ q) o = elim (less_run_cases e f) [
  | inl (l, a) ↦ rw l (push_run-All (Ahead f) e q a o.0, push_run-Ordered e q o.1)
  | inr (l, a) ↦ rw l ((a, Ahead-all e f q a o.0), o)
]

pub push_run-IsQueue :
    (e : Run) (q : List Run) → IsSorted (entries e) → IsQueue q → IsQueue (push_run e q)
push_run-IsQueue e q s h = record {
  ordered = push_run-Ordered e q h.ordered;
  sorted = push_run-All (λ r. IsSorted (entries r)) e q s h.sorted;
}

pub push_rest-IsQueue :
    (i : ℕ) (xs : List (Bytes × Bytes)) (q : List Run)
    → IsSorted xs
    → IsQueue q
    → IsQueue (push_rest i xs q)
unfolding push_rest
push_rest-IsQueue i [] q s h = h
push_rest-IsQueue i (x ∷ xs) q s h =
    push_run-IsQueue (record { index = i; first = x; rest = xs }) q s h
