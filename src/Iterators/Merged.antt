-- ===== src/Iterators/Merged.antt =====
-- What merging two sorted runs means, with no iterator in sight: each key once, and the first
-- run's entry where both have the key.
use Prim.Native.Nat.{lt, eq, gt}
use mini_lsm_cpp.Prelude.{
  ◌≡◌, refl, sym, subst, inl, inr, List, [], ◌∷◌, Option, none, some, Bytes, arith, Bool-cases,
}
use mini_lsm_cpp.Key.{key_compare, key_eq}
use mini_lsm_cpp.Key.Order.{key_eq_iff}
use mini_lsm_cpp.MemTable.SortedMap.{
  Above, IsSorted, map_find, map_find-Above, compare_cases, Above-trans,
}

unfoldable pub merged : List (Bytes × Bytes) → List (Bytes × Bytes) → List (Bytes × Bytes)
merged [] ys = ys
merged (x ∷ xs) [] = x ∷ xs
merged (x ∷ xs) (y ∷ ys) = elim (key_compare x.0 y.0) [
  | lt ↦ x ∷ merged xs (y ∷ ys)
  | eq ↦ x ∷ merged xs ys
  | gt ↦ y ∷ merged (x ∷ xs) ys
]

module _ (x y : Bytes × Bytes) (xs ys : List (Bytes × Bytes)) where
  pub merged-lt : key_compare x.0 y.0 ≡ lt → merged (x ∷ xs) (y ∷ ys) ≡ x ∷ merged xs (y ∷ ys)
  unfolding merged
  merged-lt e = rw (e, merged)

  pub merged-eq : key_compare x.0 y.0 ≡ eq → merged (x ∷ xs) (y ∷ ys) ≡ x ∷ merged xs ys
  unfolding merged
  merged-eq e = rw (e, merged)

  pub merged-gt : key_compare x.0 y.0 ≡ gt → merged (x ∷ xs) (y ∷ ys) ≡ y ∷ merged (x ∷ xs) ys
  unfolding merged
  merged-gt e = rw (e, merged)

pub Above-merged :
    (k : Bytes) (xs ys : List (Bytes × Bytes)) → Above k xs → Above k ys → Above k (merged xs ys)
unfolding merged
Above-merged k [] ys hx hy = hy
Above-merged k (x ∷ xs) [] hx hy = hx
Above-merged k (x ∷ xs) (y ∷ ys) hx hy = elim (compare_cases x.0 y.0) [
  | inl (e, _, _) ↦ rw (merged-lt x y xs ys e) (hx.0, Above-merged k xs (y ∷ ys) hx.1 hy)
  | inr (inl (e, _)) ↦ rw (merged-eq x y xs ys e) (hx.0, Above-merged k xs ys hx.1 hy.1)
  | inr (inr (e, _, _)) ↦ rw (merged-gt x y xs ys e) (hy.0, Above-merged k (x ∷ xs) ys hx hy.1)
]

-- Merging keeps the order.
pub merged-IsSorted :
    (xs ys : List (Bytes × Bytes)) → IsSorted xs → IsSorted ys → IsSorted (merged xs ys)
unfolding merged
merged-IsSorted [] ys hx hy = hy
merged-IsSorted (x ∷ xs) [] hx hy = hx
merged-IsSorted (x ∷ xs) (y ∷ ys) hx hy = elim (compare_cases x.0 y.0) [
  | inl (e, l, _) ↦ rw (merged-lt x y xs ys e) (
    Above-merged x.0 xs (y ∷ ys) hx.0 (l, Above-trans x.0 y.0 ys l hy.0),
    merged-IsSorted xs (y ∷ ys) hx.1 hy,
  )
  | inr (inl (e, p)) ↦ rw (merged-eq x y xs ys e) (
    Above-merged x.0 xs ys hx.0 (subst (λ k. Above k ys) (sym p) hy.0),
    merged-IsSorted xs ys hx.1 hy.1,
  )
  | inr (inr (e, g, _)) ↦ rw (merged-gt x y xs ys e) (
    Above-merged y.0 (x ∷ xs) ys (g, Above-trans y.0 x.0 xs g hx.0) hy.0,
    merged-IsSorted (x ∷ xs) ys hx hy.1,
  )
]

-- The first run's answer, or else the second's.
abbrev pub or_else : Option Bytes → Option Bytes → Option Bytes
or_else none o = o
or_else (some v) o = some v

or_else_none : (o : Option Bytes) → or_else o none ≡ o
or_else_none none = refl
or_else_none (some v) = refl

-- A lookup in the merged run is answered by the first run, or else by the second.
pub map_find-merged :
    (k : Bytes) (xs ys : List (Bytes × Bytes))
    → IsSorted xs
    → IsSorted ys
    → map_find k (merged xs ys) ≡ or_else (map_find k xs) (map_find k ys)
unfolding merged map_find
map_find-merged k [] ys hx hy = refl
map_find-merged k (x ∷ xs) [] hx hy = sym (or_else_none (map_find k (x ∷ xs)))
map_find-merged k (x ∷ xs) (y ∷ ys) hx hy = elim (compare_cases x.0 y.0) [
  | inl (e, l, _) ↦
      rw (merged-lt x y xs ys e) (ground (arith, map_find-merged k xs (y ∷ ys) hx.1 hy))
  | inr (inl (e, p)) ↦
      rw (merged-eq x y xs ys e)
        (ground (arith, p, key_eq_iff k x.0, key_eq_iff k y.0, map_find-merged k xs ys hx.1 hy.1))
  | inr (inr (e, g, _)) ↦ rw (merged-gt x y xs ys e) (elim (Bool-cases (key_eq k y.0)) [
    | inl hit ↦
        let at_y : k ≡ y.0 = (key_eq_iff k y.0).0 hit in
        let none_x : map_find k (x ∷ xs) ≡ none =
          subst (λ q. map_find q (x ∷ xs) ≡ none) (sym at_y)
            (map_find-Above y.0 (x ∷ xs) (g, Above-trans y.0 x.0 xs g hx.0)) in
        ground (arith, hit, none_x)
    | inr miss ↦ ground (arith, miss, map_find-merged k (x ∷ xs) ys hx hy.1)
  ])
]
