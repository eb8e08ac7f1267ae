-- ===== src/Iterators/Merge/Lookup.antt =====
-- What a queue of runs answers for a key: the answer of the run of the lowest index that has it.
use mini_lsm_cpp.Prelude.{
  ℕ, ◌≤◌, ◌≡◌, ◌⊎◌, inl, inr, refl, sym, ◌∙◌, List, [], ◌∷◌, Option, none, some, Bytes, All, true,
  false, subst,
}
use mini_lsm_cpp.Key.{key_eq, key_lt}
use mini_lsm_cpp.MemTable.SortedMap.{IsSorted, map_find, map_find-Above, Above-trans}
use mini_lsm_cpp.Iterators.Merge.Runs.{Run, entries, push_run, push_rest}
use mini_lsm_cpp.Iterators.Merge.Queue.{Any, All-push_run, Any-push_run}

-- A property of a run's index and of its answer for the key.
abbrev pub Sees : Bytes → (ℕ → Option Bytes → Type 0) → Run → Type 0
Sees k P r = P r.index (map_find k (entries r))

-- The run has no entry for the key, or none if its index is below `i`.
abbrev pub IsNone : ℕ → Option Bytes → Type 0
IsNone n o = o ≡ none

abbrev pub IsNoneBelow : ℕ → ℕ → Option Bytes → Type 0
IsNoneBelow i n o = (i ≤ n) ⊎ (o ≡ none)

-- It is the run of index `i`, and answers `v`.
abbrev pub IsAt : ℕ → Bytes → ℕ → Option Bytes → Type 0
IsAt i v n o = (n ≡ i) × (o ≡ some v)

abbrev pub Answers : Bytes → Option Bytes → List Run → Type 0
Answers k none q = All (Sees k IsNone) q
Answers k (some v) q = (i : ℕ) × Any (Sees k (IsAt i v)) q × All (Sees k (IsNoneBelow i)) q

-- What holds of each answer of the second queue holds of the first one's, unless that is `none`.
pub record Covers (k : Bytes) (q q' : List Run) : Type 1 where
  pub all :
      (P : ℕ → Option Bytes → Type 0) → ((n : ℕ) → P n none) → All (Sees k P) q' → All (Sees k P) q
  pub any : (P : ℕ → Option Bytes → Type 0) → Any (Sees k P) q' → Any (Sees k P) q

module _ (k : Bytes) where
  pub Covers-refl : (q : List Run) → Covers k q q
  Covers-refl q = record { all = λ P n h. h; any = λ P h. h }

  pub Covers-trans : (p q r : List Run) → Covers k p q → Covers k q r → Covers k p r
  Covers-trans p q r c d = record {
    all = λ P n h. c.all P n (d.all P n h);
    any = λ P h. c.any P (d.any P h);
  }

  Any-cons :
      (P : ℕ → Option Bytes → Type 0) (r : Run) (q q' : List Run)
      → (Any (Sees k P) q' → Any (Sees k P) q)
      → Any (Sees k P) (r ∷ q')
      → Any (Sees k P) (r ∷ q)
  Any-cons P r q q' f (inl h) = inl h
  Any-cons P r q q' f (inr h) = inr (f h)

  pub Covers-cons : (r : Run) (q q' : List Run) → Covers k q q' → Covers k (r ∷ q) (r ∷ q')
  Covers-cons r q q' c = record {
    all = λ P n h. (h.0, c.all P n h.1);
    any = λ P. Any-cons P r q q' (c.any P);
  }

  pub Covers-push_run : (e : Run) (q : List Run) → Covers k (e ∷ q) (push_run e q)
  Covers-push_run e q = record {
    all = λ P n. All-push_run (Sees k P) e q;
    any = λ P. Any-push_run (Sees k P) e q;
  }

  Any-same :
      (P : ℕ → Option Bytes → Type 0) (e r : Run) (q : List Run)
      → (Sees k P e → Sees k P r)
      → Any (Sees k P) (e ∷ q)
      → Any (Sees k P) (r ∷ q)
  Any-same P e r q f (inl h) = inl (f h)
  Any-same P e r q f (inr h) = inr h

  pub map_find_behind :
      (x : Bytes × Bytes) (xs : List (Bytes × Bytes))
      → key_eq k x.0 ≡ false
      → map_find k (x ∷ xs) ≡ map_find k xs
  unfolding map_find
  map_find_behind x xs ne = rw ne

  map_find_nil : map_find k [] ≡ none
  unfolding map_find
  map_find_nil = refl

  -- A run whose entry for another key is used up answers as before.
  pub Covers-push_rest :
      (i : ℕ) (x : Bytes × Bytes) (xs : List (Bytes × Bytes)) (q : List Run)
      → key_eq k x.0 ≡ false
      → Covers k (record { index = i; first = x; rest = xs } ∷ q) (push_rest i xs q)
  unfolding push_rest
  Covers-push_rest i x [] q ne =
      let lacks : map_find k (x ∷ []) ≡ none = map_find_behind x [] ne ∙ map_find_nil in
      record { all = λ P n h. (subst (P i) (sym lacks) (n i), h); any = λ P h. inr h }
  Covers-push_rest i x (y ∷ ys) q ne =
      let e : Run = record { index = i; first = y; rest = ys } in
      let r : Run = record { index = i; first = x; rest = y ∷ ys } in
      let found : map_find k (y ∷ ys) ≡ map_find k (x ∷ y ∷ ys) =
        sym (map_find_behind x (y ∷ ys) ne) in
      Covers-trans (r ∷ q) (e ∷ q) (push_run e q)
        (record {
          all = λ P n h. (subst (P i) found h.0, h.1);
          any = λ P. Any-same P e r q (subst (P i) found);
        })
        (Covers-push_run e q)

  pub Answers-Covers :
      (o : Option Bytes) (q q' : List Run) → Covers k q q' → Answers k o q' → Answers k o q
  Answers-Covers none q q' c h = c.all IsNone (λ n. refl) h
  Answers-Covers (some v) q q' c (i, has, below) =
      (i, c.any (IsAt i v) has, c.all (IsNoneBelow i) (λ n. inr refl) below)

-- Every run of the queue starts above the key.
abbrev pub StartsAbove : Bytes → Run → Type 0
StartsAbove k r = key_lt k r.first.0 ≡ true

pub lacks_below_first :
    (k : Bytes) (r : Run) → StartsAbove k r → IsSorted (entries r) → map_find k (entries r) ≡ none
lacks_below_first k r h s = map_find-Above k (entries r) (h, Above-trans k r.first.0 r.rest h s.0)
