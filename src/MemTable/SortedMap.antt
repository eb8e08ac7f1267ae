-- ===== src/MemTable/SortedMap.antt =====
-- std::map<std::string, std::string>: entries in ascending key order, one for each key.
use Prim.Native.Nat.{lt, eq, gt}
use mini_lsm_cpp.Prelude.{
  ◌≡◌, refl, sym, subst, ◌⊎◌, inl, inr, List, [], ◌∷◌, Option, none, some, true, false, Bytes,
  arith, if◌then◌else◌,
}
use mini_lsm_cpp.Key.{key_compare, key_eq, key_lt}
use mini_lsm_cpp.Key.Order.{key_compare-eq-lex, eq_of_lex, lex_flip_gt, key_lt_trans, key_eq_iff}

unfoldable pub map_find : Bytes → List (Bytes × Bytes) → Option Bytes
map_find k [] = none
map_find k ((j, v) ∷ m) = if key_eq k j then some v else map_find k m

-- map_[k] = v
unfoldable pub map_set : Bytes → Bytes → List (Bytes × Bytes) → List (Bytes × Bytes)
map_set k v [] = (k, v) ∷ []
map_set k v ((j, w) ∷ m) =
    let rest = map_set k v m in
    elim (key_compare k j) [ lt ↦ (k, v) ∷ (j, w) ∷ m | eq ↦ (k, v) ∷ m | gt ↦ (j, w) ∷ rest ]

-- Every key of the list is above `k`.
abbrev pub Above : Bytes → List (Bytes × Bytes) → Type 0
Above k [] = Unit {0}
Above k (e ∷ m) = (key_lt k e.0 ≡ true) × Above k m

-- Ascending keys, none twice.
abbrev pub IsSorted : List (Bytes × Bytes) → Type 0
IsSorted [] = Unit {0}
IsSorted (e ∷ m) = Above e.0 m × IsSorted m

-- `key_compare` answers `eq` for equal keys, and `lt` where `key_lt` holds.
pub compare_cases :
    (k j : Bytes)
    → ((key_compare k j ≡ lt) × (key_lt k j ≡ true) × (key_eq k j ≡ false))
      ⊎ ((key_compare k j ≡ eq) × (k ≡ j))
      ⊎ ((key_compare k j ≡ gt) × (key_lt j k ≡ true) × (key_eq k j ≡ false))
unfolding key_lt key_eq
compare_cases k j =
    ground (arith, key_compare-eq-lex k j, key_compare-eq-lex j k, eq_of_lex k j, lex_flip_gt k j)

pub map_find-map_set :
    (k j v : Bytes) (m : List (Bytes × Bytes))
    → map_find j (map_set k v m) ≡ (if key_eq j k then some v else map_find j m)
unfolding map_find map_set
map_find-map_set k j v [] = refl
map_find-map_set k j v ((i, w) ∷ m) = elim (compare_cases k i) [
  | inl (e, _, _) ↦ rw (e, map_set) refl
  | inr (inl (e, p)) ↦ rw (e, map_set) (ground (arith, p, key_eq_iff j k, key_eq_iff j i))
  | inr (inr (e, _, n)) ↦
      rw (e, map_set)
        (ground
          (arith, n, map_find-map_set k j v m, key_eq_iff j k, key_eq_iff j i, key_eq_iff k i))
]

pub map_find-Above : (k : Bytes) (m : List (Bytes × Bytes)) → Above k m → map_find k m ≡ none
unfolding map_find key_eq key_lt
map_find-Above k [] h = refl
map_find-Above k ((j, w) ∷ m) h = ground (arith, map_find-Above k m h.1)

pub Above-trans :
    (j k : Bytes) (m : List (Bytes × Bytes)) → key_lt j k ≡ true → Above k m → Above j m
Above-trans j k [] h a = tt
Above-trans j k (e ∷ m) h a = (key_lt_trans j k e.0 h a.0, Above-trans j k m h a.1)

pub Above-map_set :
    (j k v : Bytes) (m : List (Bytes × Bytes))
    → key_lt j k ≡ true
    → Above j m
    → Above j (map_set k v m)
unfolding map_set
Above-map_set j k v [] h a = (h, tt)
Above-map_set j k v ((i, w) ∷ m) h a = elim (compare_cases k i) [
  | inl (e, _, _) ↦ rw (e, map_set) (h, a)
  | inr (inl (e, p)) ↦ rw (e, map_set) (h, a.1)
  | inr (inr (e, _, n)) ↦ rw (e, map_set) (a.0, Above-map_set j k v m h a.1)
]

pub map_set-IsSorted :
    (k v : Bytes) (m : List (Bytes × Bytes)) → IsSorted m → IsSorted (map_set k v m)
unfolding map_set
map_set-IsSorted k v [] s = (tt, tt)
map_set-IsSorted k v ((i, w) ∷ m) s = elim (compare_cases k i) [
  | inl (e, l, _) ↦ rw (e, map_set) ((l, Above-trans k i m l s.0), s)
  | inr (inl (e, p)) ↦ rw (e, map_set) (subst (λ q. Above q m) (sym p) s.0, s.1)
  | inr (inr (e, g, _)) ↦ rw (e, map_set) (Above-map_set i k v m g s.0, map_set-IsSorted k v m s.1)
]
