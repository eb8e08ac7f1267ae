-- ===== src/Iterators/TwoMerge/Yield.antt =====
-- include/mini_lsm/iterators.h: the run that TwoMergeIterator yields.
use mini_lsm_cpp.Prelude.{◌≡◌, sym, ◌∙◌, inl, inr, Bool, true, false, List, [], ◌∷◌, Bytes, subst₂}
use mini_lsm_cpp.Key.{key_eq, key_lt}
use mini_lsm_cpp.Key.Order.{key_eq_iff, key_eq_sym_false, key_lt_asym}
use mini_lsm_cpp.MemTable.SortedMap.{IsSorted, compare_cases, map_find}
use mini_lsm_cpp.Iterators.{StorageIterator, Yields}
use mini_lsm_cpp.Iterators.Merged.{
  merged, merged-lt, merged-eq, merged-gt, merged-IsSorted, or_else, map_find-merged,
}
use mini_lsm_cpp.Iterators.TwoMerge.{
  TwoMergeIterator, skip_b, choose_a, settle, create, key, value, is_valid, next, ops,
}

module _ {A B : Type 0} (ops_a : StorageIterator A) (ops_b : StorageIterator B) where
  abbrev mk : A → B → Bool → TwoMergeIterator A B
  mk a b f = record { a = a; b = b; first = f }

  module _ (a : A) (b : B) (f : Bool) where
    settle_right : ops_a.is_valid a ≡ false → settle ops_a ops_b (mk a b f) ≡ mk a b false
    unfolding settle skip_b choose_a
    settle_right va = simp va

    settle_left :
        ops_a.is_valid a ≡ true
        → ops_b.is_valid b ≡ false
        → settle ops_a ops_b (mk a b f) ≡ mk a b true
    unfolding settle skip_b choose_a
    settle_left va vb = simp (va, vb)

    module _ (va : ops_a.is_valid a ≡ true) (vb : ops_b.is_valid b ≡ true) where
      settle_apart :
          (l : Bool)
          → key_eq (ops_b.key b) (ops_a.key a) ≡ false
          → key_lt (ops_a.key a) (ops_b.key b) ≡ l
          → settle ops_a ops_b (mk a b f) ≡ mk a b l
      unfolding settle skip_b choose_a
      settle_apart l ne e = simp (va, vb, ne, e)

      settle_last :
          key_eq (ops_b.key b) (ops_a.key a) ≡ true
          → ops_b.is_valid (ops_b.next b) ≡ false
          → settle ops_a ops_b (mk a b f) ≡ mk a (ops_b.next b) true
      unfolding settle skip_b choose_a
      settle_last same vn = simp (va, vb, same, vn)

      settle_skip :
          key_eq (ops_b.key b) (ops_a.key a) ≡ true
          → ops_b.is_valid (ops_b.next b) ≡ true
          → key_lt (ops_a.key a) (ops_b.key (ops_b.next b)) ≡ true
          → settle ops_a ops_b (mk a b f) ≡ mk a (ops_b.next b) true
      unfolding settle skip_b choose_a
      settle_skip same vn l = simp (va, vb, same, vn, l)

  abbrev YieldsAb : TwoMergeIterator A B → List (Bytes × Bytes) → Type 0
  YieldsAb = Yields (ops ops_a ops_b)

  -- A settled iterator that shows `a` yields its entry and then what follows; likewise for `b`.
  show_a :
      (a : A) (b : B) (e : Bytes × Bytes) (es : List (Bytes × Bytes))
      → ops_a.is_valid a ≡ true
      → ops_a.key a ≡ e.0
      → ops_a.value a ≡ e.1
      → YieldsAb (settle ops_a ops_b (mk (ops_a.next a) b true)) es
      → YieldsAb (mk a b true) (e ∷ es)
  unfolding is_valid key value next
  show_a a b e es v k w rest = (v, k, w, rest)

  show_b :
      (a : A) (b : B) (e : Bytes × Bytes) (es : List (Bytes × Bytes))
      → ops_b.is_valid b ≡ true
      → ops_b.key b ≡ e.0
      → ops_b.value b ≡ e.1
      → YieldsAb (settle ops_a ops_b (mk a (ops_b.next b) false)) es
      → YieldsAb (mk a b false) (e ∷ es)
  unfolding is_valid key value next
  show_b a b e es v k w rest = (v, k, w, rest)

  show_end : (a : A) (b : B) → ops_b.is_valid b ≡ false → YieldsAb (mk a b false) []
  unfolding is_valid
  show_end a b v = v

  only_b :
      (a : A) (b : B) (f : Bool) (ys : List (Bytes × Bytes))
      → ops_a.is_valid a ≡ false
      → Yields ops_b b ys
      → YieldsAb (settle ops_a ops_b (mk a b f)) ys
  only_b a b f [] va yb = rw (settle_right a b f va) (show_end a b yb)
  only_b a b f (y ∷ ys) va yb =
      rw (settle_right a b f va)
        (show_b a b y ys yb.0 yb.1 yb.2 (only_b a (ops_b.next b) false ys va yb.3))

  only_a :
      (a : A) (b : B) (f : Bool) (xs : List (Bytes × Bytes))
      → Yields ops_a a xs
      → ops_b.is_valid b ≡ false
      → YieldsAb (settle ops_a ops_b (mk a b f)) xs
  only_a a b f [] ya vb = only_b a b f [] ya vb
  only_a a b f (x ∷ xs) ya vb =
      rw (settle_left a b f ya.0 vb)
        (show_a a b x xs ya.0 ya.1 ya.2 (only_a (ops_a.next a) b true xs ya.3 vb))

  -- After a key that both have, `b` stands past it.
  settle_same :
      (a : A) (b : B) (f : Bool) (x y : Bytes × Bytes) (ys : List (Bytes × Bytes))
      → ops_a.is_valid a ≡ true
      → ops_a.key a ≡ x.0
      → x.0 ≡ y.0
      → Yields ops_b b (y ∷ ys)
      → IsSorted (y ∷ ys)
      → settle ops_a ops_b (mk a b f) ≡ mk a (ops_b.next b) true
  settle_same a b f x y [] va ka e yb sb =
      settle_last a b f va yb.0 ((key_eq_iff _ _).1 (yb.1 ∙ sym e ∙ sym ka)) yb.3
  settle_same a b f x y (z ∷ zs) va ka e yb sb =
      settle_skip a b f va yb.0 ((key_eq_iff _ _).1 (yb.1 ∙ sym e ∙ sym ka)) yb.3.0
        (subst₂ (λ p q. key_lt p q ≡ true) (sym (ka ∙ e)) (sym yb.3.1) sb.0.0)

  settle-Yields :
      (xs ys : List (Bytes × Bytes)) (a : A) (b : B) (f : Bool)
      → Yields ops_a a xs
      → Yields ops_b b ys
      → IsSorted ys
      → YieldsAb (settle ops_a ops_b (mk a b f)) (merged xs ys)
  settle-Yields [] ys a b f ya yb sb = unfold merged in only_b a b f ys ya yb
  settle-Yields (x ∷ xs) [] a b f ya yb sb = unfold merged in only_a a b f (x ∷ xs) ya yb
  settle-Yields (x ∷ xs) (y ∷ ys) a b f ya yb sb = elim (compare_cases x.0 y.0) [
    | inl (e, l, n) ↦
        rw
          (
            merged-lt x y xs ys e,
            settle_apart a b f ya.0 yb.0 true
                (subst₂ (λ p q. key_eq p q ≡ false) (sym yb.1) (sym ya.1)
                  (key_eq_sym_false x.0 y.0 n))
                (subst₂ (λ p q. key_lt p q ≡ true) (sym ya.1) (sym yb.1) l),
          )
          (show_a a b x (merged xs (y ∷ ys)) ya.0 ya.1 ya.2
            (settle-Yields xs (y ∷ ys) (ops_a.next a) b true ya.3 yb sb))
    | inr (inl (e, p)) ↦
        rw (merged-eq x y xs ys e, settle_same a b f x y ys ya.0 ya.1 p yb sb)
          (show_a a (ops_b.next b) x (merged xs ys) ya.0 ya.1 ya.2
            (settle-Yields xs ys (ops_a.next a) (ops_b.next b) true ya.3 yb.3 sb.1))
    | inr (inr (e, g, n)) ↦
        rw
          (
            merged-gt x y xs ys e,
            settle_apart a b f ya.0 yb.0 false
                (subst₂ (λ p q. key_eq p q ≡ false) (sym yb.1) (sym ya.1)
                  (key_eq_sym_false x.0 y.0 n))
                (subst₂ (λ p q. key_lt p q ≡ false) (sym ya.1) (sym yb.1) (key_lt_asym y.0 x.0 g)),
          )
          (show_b a b y (merged (x ∷ xs) ys) yb.0 yb.1 yb.2
            (settle-Yields (x ∷ xs) ys a (ops_b.next b) false ya yb.3 sb.1))
  ]

  -- Over two iterators that yield runs in ascending key order, TwoMergeIterator yields the
  -- merged run, which is in ascending key order, each key once, and in which a lookup of a key
  -- is answered by the first run, or else by the second.
  pub create-Yields :
      (xs ys : List (Bytes × Bytes)) (a : A) (b : B)
      → Yields ops_a a xs
      → Yields ops_b b ys
      → IsSorted xs
      → IsSorted ys
      → Yields (ops ops_a ops_b) (create ops_a ops_b a b) (merged xs ys)
        × IsSorted (merged xs ys)
        × ((k : Bytes) → map_find k (merged xs ys) ≡ or_else (map_find k xs) (map_find k ys))
  unfolding create
  create-Yields xs ys a b ya yb sa sb = (
    settle-Yields xs ys a b false ya yb sb,
    merged-IsSorted xs ys sa sb,
    λ k. map_find-merged k xs ys sa sb,
  )
