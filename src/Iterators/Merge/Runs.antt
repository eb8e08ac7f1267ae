-- ===== src/Iterators/Merge/Runs.antt =====
-- The heap of MergeIterator with no iterator in sight: a queue of runs of entries, each with the
-- index of its iterator, ordered by first key and then by index.
use mini_lsm_cpp.Prelude.{
  ℕ, zero, suc, ◌≤◌, ◌≡◌, ◌⊎◌, inl, inr, sym, ◌∙◌, Bool, true, false, List, [], ◌∷◌, Bytes, ltb,
  arith, Bool-cases, subst, if◌then◌else◌,
}
use mini_lsm_cpp.Key.{key_compare, key_eq, key_lt}
use mini_lsm_cpp.Key.Order.{key_lt_trans}
use mini_lsm_cpp.Iterators.Merge.{behind}
use mini_lsm_cpp.MemTable.SortedMap.{compare_cases}

pub record Run : Type 0 where
  pub index : ℕ
  pub first : Bytes × Bytes
  pub rest : List (Bytes × Bytes)

abbrev pub entries : Run → List (Bytes × Bytes)
entries r = r.first ∷ r.rest

unfoldable pub less_run : Run → Run → Bool
unfolding behind
less_run a b = behind (key_compare a.first.0 b.first.0) a.index b.index

unfoldable pub push_run : Run → List Run → List Run
unfolding less_run
push_run e [] = e ∷ []
push_run e (f ∷ q) = let rest = push_run e q in if less_run e f then f ∷ rest else e ∷ f ∷ q

-- What is left of a run goes back into the queue, if anything is.
unfoldable pub push_rest : ℕ → List (Bytes × Bytes) → List Run → List Run
unfolding push_run
push_rest i [] q = q
push_rest i (x ∷ xs) q = push_run (record { index = i; first = x; rest = xs }) q

unfoldable pub skip_run : ℕ → Bytes → List Run → List Run
unfolding push_rest
skip_run zero k q = q
skip_run (suc fuel) k [] = []
skip_run (suc fuel) k (r ∷ q) = elim (key_eq r.first.0 k) [
  | true ↦ skip_run fuel k (push_rest r.index r.rest q)
  | false ↦ r ∷ q
]

-- `a` is taken out of the queue before `b`.
abbrev pub Ahead : Run → Run → Type 0
Ahead a b = (key_lt a.first.0 b.first.0 ≡ true) ⊎ ((a.first.0 ≡ b.first.0) × (a.index ≤ b.index))

pub Ahead-trans : (a b c : Run) → Ahead a b → Ahead b c → Ahead a c
Ahead-trans a b c (inl h) (inl k) = inl (key_lt_trans a.first.0 b.first.0 c.first.0 h k)
Ahead-trans a b c (inl h) (inr (e, n)) = inl (subst (λ x. key_lt a.first.0 x ≡ true) e h)
Ahead-trans a b c (inr (e, n)) (inl k) = inl (subst (λ x. key_lt x c.first.0 ≡ true) (sym e) k)
Ahead-trans a b c (inr (e, n)) (inr (f, m)) = inr (e ∙ f, omega arith)

-- The comparison of the heap decides which of two runs goes first.
pub less_run_cases :
    (a b : Run) → ((less_run a b ≡ true) × Ahead b a) ⊎ ((less_run a b ≡ false) × Ahead a b)
unfolding less_run behind
less_run_cases a b = elim (compare_cases a.first.0 b.first.0) [
  | inl (e, l, _) ↦ inr (rw (e, less_run), inl l)
  | inr (inl (e, p)) ↦ elim (Bool-cases (ltb b.index a.index)) [
    | inl l ↦ inl (rw (e, less_run, l), inr (sym p, ground arith))
    | inr n ↦ inr (rw (e, less_run, n), inr (p, ground arith))
  ]
  | inr (inr (e, g, _)) ↦ inl (rw (e, less_run), inl g)
]
