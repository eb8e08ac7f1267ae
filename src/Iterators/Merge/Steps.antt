-- ===== src/Iterators/Merge/Steps.antt =====
-- One step of the merge on a queue of runs: the first entry goes out, its key is skipped in all
-- other runs, and what is left answers for every other key as before.
use mini_lsm_cpp.Prelude.{
  ℕ, zero, suc, ◌+◌, ◌<◌, ◌≤◌, ◌≡◌, ◌⊎◌, inl, inr, refl, sym, true, false, List, [], ◌∷◌, Option,
  some, Bytes, All, subst, arith, Bool-cases, length, ap, if◌then◌else◌,
}
use mini_lsm_cpp.Key.{key_eq, key_lt}
use mini_lsm_cpp.Key.Order.{key_eq_iff, key_lt_irrefl, key_lt_trans, key_eq_sym_false}
use mini_lsm_cpp.MemTable.SortedMap.{IsSorted, Above, map_find}
use mini_lsm_cpp.Iterators.Merge.Runs.{Run, entries, push_run, push_rest, skip_run, Ahead, less_run}
use mini_lsm_cpp.Iterators.Merge.Queue.{IsQueue, push_run-All, push_rest-IsQueue}
use mini_lsm_cpp.Iterators.Merge.Lookup.{
  Sees, IsNoneBelow, Answers, Answers-Covers, Covers, Covers-refl, Covers-trans, Covers-cons,
  Covers-push_rest, StartsAbove, lacks_below_first,
}

-- How many runs start at the key, an upper bound that skipping lowers.
abbrev starts_at : Bytes → List Run → ℕ
starts_at k [] = 0
starts_at k (r ∷ q) = (if key_eq r.first.0 k then 1 else 0) + starts_at k q

starts_at_bound : (k : Bytes) (q : List Run) → starts_at k q ≤ length q
starts_at_bound k [] = omega arith
starts_at_bound k (r ∷ q) = ground (arith, starts_at_bound k q)

-- Every run starts at the key or above it.
abbrev StartsFrom : Bytes → Run → Type 0
StartsFrom k r = (k ≡ r.first.0) ⊎ StartsAbove k r

lt_ne : (j k : Bytes) → key_lt j k ≡ true → key_eq j k ≡ false
lt_ne j k l = elim (Bool-cases (key_eq j k)) [
  | inl e ↦
      let same = (key_eq_iff j k).0 e in
      absurd (cc (key_lt_irrefl k, subst (λ x. key_lt x k ≡ true) same l))
  | inr ne ↦ ne
]

starts_at-push_run :
    (k : Bytes) (e : Run) (q : List Run)
    → key_eq e.first.0 k ≡ false
    → starts_at k (push_run e q) ≡ starts_at k q
unfolding push_run
starts_at-push_run k e [] ne = rw ne
starts_at-push_run k e (f ∷ q) ne = elim (Bool-cases (less_run e f)) [
  | inl l ↦ rw l (ap (λ n. (if key_eq f.first.0 k then 1 else 0) + n) (starts_at-push_run k e q ne))
  | inr l ↦ rw (l, ne) (omega arith)
]

starts_at-push_rest :
    (k : Bytes) (i : ℕ) (xs : List (Bytes × Bytes)) (q : List Run)
    → Above k xs
    → starts_at k (push_rest i xs q) ≡ starts_at k q
unfolding push_rest
starts_at-push_rest k i [] q a = refl
starts_at-push_rest k i (x ∷ xs) q a =
    starts_at-push_run k (record { index = i; first = x; rest = xs }) q
      (key_eq_sym_false k x.0 (lt_ne k x.0 a.0))

-- What holds of a queue that is skipped to past `k`.
record Skipped (k : Bytes) (q q' : List Run) : Type 1 where
  queue : IsQueue q'
  above : All (StartsAbove k) q'
  covers : (j : Bytes) → key_eq j k ≡ false → Covers j q q'

all_above :
    (k : Bytes) (r : Run) (q : List Run)
    → key_lt k r.first.0 ≡ true
    → All (Ahead r) q
    → All (StartsAbove k) q
all_above k r [] h a = tt
all_above k r (s ∷ q) h (inl l, a) = (key_lt_trans k r.first.0 s.first.0 h l, all_above k r q h a)
all_above k r (s ∷ q) h (inr (e, _), a) = (subst (λ x. key_lt k x ≡ true) e h, all_above k r q h a)

push_rest-All :
    (P : Run → Type 0) (i : ℕ) (xs : List (Bytes × Bytes)) (q : List Run)
    → ((x : Bytes × Bytes)
        → (ys : List (Bytes × Bytes)) → xs ≡ x ∷ ys
        → P (record { index = i; first = x; rest = ys }))
    → All P q
    → All P (push_rest i xs q)
unfolding push_rest
push_rest-All P i [] q px pq = pq
push_rest-All P i (x ∷ xs) q px pq =
    push_run-All P (record { index = i; first = x; rest = xs }) q (px x xs refl) pq

Above-first :
    (k : Bytes) (x : Bytes × Bytes) (xs ys : List (Bytes × Bytes))
    → Above k xs
    → xs ≡ x ∷ ys
    → key_lt k x.0 ≡ true
Above-first k x [] ys a e = cc
Above-first k x (y ∷ xs) ys a e = (subst (Above k) e a).0

skip_run-Skipped :
    (fuel : ℕ) (k : Bytes) (q : List Run)
    → IsQueue q
    → All (StartsFrom k) q
    → starts_at k q < fuel
    → Skipped k q (skip_run fuel k q)
unfolding skip_run
skip_run-Skipped zero k q h from enough = absurd (omega arith)
skip_run-Skipped (suc fuel) k [] h from enough = record {
  queue = h;
  above = tt;
  covers = λ j ne. Covers-refl j _;
}
skip_run-Skipped (suc fuel) k (r ∷ q) h from enough =
    let tail_queue : IsQueue q = record { ordered = h.ordered.1; sorted = h.sorted.1 } in
    elim (Bool-cases (key_eq r.first.0 k)) [
      | inl hit ↦
          let at_k : r.first.0 ≡ k = (key_eq_iff r.first.0 k).0 hit in
          let behind : Above k r.rest = subst (λ x. Above x r.rest) at_k h.sorted.0.0 in
          let fewer : 1 + starts_at k q < suc fuel = rw hit at enough in
          let rest =
            skip_run-Skipped fuel k (push_rest r.index r.rest q)
              (push_rest-IsQueue r.index r.rest q h.sorted.0.1 tail_queue)
              (push_rest-All (StartsFrom k) r.index r.rest q
                (λ x ys e. inr (Above-first k x r.rest ys behind e)) from.1)
              (rw (starts_at-push_rest k r.index r.rest q behind) (omega arith)) in
          rw (hit, skip_run)
            (record {
              queue = rest.queue;
              above = rest.above;
              covers = λ j ne.
                  Covers-trans j (r ∷ q) (push_rest r.index r.rest q) _
                    (Covers-push_rest j r.index r.first r.rest q
                      (subst (λ x. key_eq j x ≡ false) (sym at_k) ne))
                    (rest.covers j ne);
            })
      | inr miss ↦
          let past_k : key_lt k r.first.0 ≡ true = elim from.0 [
            | inl e ↦ absurd (cc (miss, (key_eq_iff r.first.0 k).1 (sym e)))
            | inr l ↦ l
          ] in
          rw (miss, skip_run)
            (record {
              queue = h;
              above = (past_k, all_above k r q past_k h.ordered.0);
              covers = λ j ne. Covers-refl j _;
            })
    ]

-- The queue once the first entry of its first run has gone out.
unfoldable pub step_run : Run → List Run → List Run
step_run r q = push_rest r.index r.rest (skip_run (suc (length q)) r.first.0 q)

pub record Stepped (r : Run) (q q' : List Run) : Type 0 where
  pub queue : IsQueue q'
  pub above : All (StartsAbove r.first.0) q'
  pub answers :
      (j : Bytes) (o : Option Bytes)
      → key_eq j r.first.0 ≡ false
      → Answers j o q'
      → Answers j o (r ∷ q)
  pub here : Answers r.first.0 (some r.first.1) (r ∷ q)

starts_from : (r : Run) (q : List Run) → All (Ahead r) q → All (StartsFrom r.first.0) q
starts_from r [] a = tt
starts_from r (s ∷ q) (inl l, a) = (inr l, starts_from r q a)
starts_from r (s ∷ q) (inr (e, _), a) = (inl e, starts_from r q a)

none_below :
    (r : Run) (q : List Run)
    → All (Ahead r) q
    → All (λ s. IsSorted (entries s)) q
    → All (Sees r.first.0 (IsNoneBelow r.index)) q
none_below r [] a s = tt
none_below r (t ∷ q) (inl l, a) (s, ss) =
    (inr (lacks_below_first r.first.0 t l s), none_below r q a ss)
none_below r (t ∷ q) (inr (_, n), a) (s, ss) = (inl n, none_below r q a ss)

pub first_found : (x : Bytes × Bytes) (xs : List (Bytes × Bytes)) → map_find x.0 (x ∷ xs) ≡ some x.1
unfolding map_find
first_found x xs = rw ((key_eq_iff x.0 x.0).1 refl)

pub step_run-Stepped : (r : Run) (q : List Run) → IsQueue (r ∷ q) → Stepped r q (step_run r q)
unfolding step_run
step_run-Stepped r q h =
    let tail_queue : IsQueue q = record { ordered = h.ordered.1; sorted = h.sorted.1 } in
    let skipped = skip_run (suc (length q)) r.first.0 q in
    let bound = starts_at_bound r.first.0 q in
    let s =
      skip_run-Skipped (suc (length q)) r.first.0 q tail_queue (starts_from r q h.ordered.0)
        (omega arith) in
    record {
      queue = push_rest-IsQueue r.index r.rest skipped h.sorted.0.1 s.queue;
      above =
          push_rest-All (StartsAbove r.first.0) r.index r.rest skipped
            (λ x ys e. Above-first r.first.0 x r.rest ys h.sorted.0.0 e) s.above;
      answers = λ j o ne. Answers-Covers j o (r ∷ q) (push_rest r.index r.rest skipped) (
          Covers-trans j (r ∷ q) (r ∷ skipped) _ (Covers-cons j r q skipped (s.covers j ne))
            (Covers-push_rest j r.index r.first r.rest skipped ne));
      here = (
        r.index,
        inl (refl, first_found r.first r.rest),
        (inl (omega arith), none_below r q h.ordered.0 h.sorted.1),
      );
    }
