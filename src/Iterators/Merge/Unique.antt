-- ===== src/Iterators/Merge/Unique.antt =====
-- An ascending list is fixed by what it answers for every key.
use mini_lsm_cpp.Prelude.{
  ◌≡◌, refl, sym, ap₂, ◌∙◌, inl, inr, false, List, [], ◌∷◌, none, some, some-injective, Bytes,
  subst, Bool-cases,
}
use mini_lsm_cpp.Key.{key_eq}
use mini_lsm_cpp.Key.Order.{key_eq_iff}
use mini_lsm_cpp.MemTable.SortedMap.{
  IsSorted, Above, Above-trans, map_find, map_find-Above, compare_cases,
}
use mini_lsm_cpp.Iterators.Merge.Lookup.{map_find_behind}
use mini_lsm_cpp.Iterators.Merge.Steps.{first_found}

-- The same answers, for every key.
abbrev pub Agree : List (Bytes × Bytes) → List (Bytes × Bytes) → Type 0
Agree xs ys = (k : Bytes) → map_find k xs ≡ map_find k ys

Agree-sym : (xs ys : List (Bytes × Bytes)) → Agree xs ys → Agree ys xs
Agree-sym xs ys h k = sym (h k)

-- A list that starts above the key of another one's entry cannot agree with it.
apart : (x : Bytes × Bytes) (xs ys : List (Bytes × Bytes)) → Above x.0 ys → Agree (x ∷ xs) ys → ⊥
apart x xs ys a h = cc (sym (first_found x xs) ∙ h x.0 ∙ map_find-Above x.0 ys a)

Agree-tail :
    (x y : Bytes × Bytes) (xs ys : List (Bytes × Bytes))
    → x.0 ≡ y.0
    → Above x.0 xs
    → Above y.0 ys
    → Agree (x ∷ xs) (y ∷ ys)
    → Agree xs ys
Agree-tail x y xs ys p a b h k = elim (Bool-cases (key_eq k x.0)) [
  | inl hit ↦
      let at = (key_eq_iff k x.0).0 hit in
      subst (λ q. map_find q xs ≡ none) (sym at) (map_find-Above x.0 xs a)
      ∙ sym (subst (λ q. map_find q ys ≡ none) (sym (at ∙ p)) (map_find-Above y.0 ys b))
  | inr miss ↦
      sym (map_find_behind k x xs miss)
      ∙ h k
      ∙ map_find_behind k y ys (subst (λ q. key_eq k q ≡ false) p miss)
]

pub sorted_unique :
    (xs ys : List (Bytes × Bytes)) → IsSorted xs → IsSorted ys → Agree xs ys → xs ≡ ys
sorted_unique [] [] s t h = refl
sorted_unique [] (y ∷ ys) s t h = absurd (apart y ys [] tt (Agree-sym [] (y ∷ ys) h))
sorted_unique (x ∷ xs) [] s t h = absurd (apart x xs [] tt h)
sorted_unique (x ∷ xs) (y ∷ ys) s t h = elim (compare_cases x.0 y.0) [
  | inl (_, l, _) ↦ absurd (apart x xs (y ∷ ys) (l, Above-trans x.0 y.0 ys l t.0) h)
  | inr (inl (_, p)) ↦
      let values : x.1 ≡ y.1 = some-injective _ _ (
        sym (first_found x xs)
        ∙ h x.0
        ∙ subst (λ q. map_find q (y ∷ ys) ≡ some y.1) (sym p) (first_found y ys)) in
      ap₂ (λ (e : Bytes × Bytes) es. e ∷ es) (ap₂ (λ (a : Bytes) (b : Bytes). (a, b)) p values)
        (sorted_unique xs ys s.1 t.1 (Agree-tail x y xs ys p s.0 t.0 h))
  | inr (inr (_, g, _)) ↦
      absurd (apart y ys (x ∷ xs) (g, Above-trans y.0 x.0 xs g s.0) (Agree-sym (x ∷ xs) (y ∷ ys) h))
]
