-- ===== src/Compact/TakeOut.antt =====
-- The loop that the controllers share: walk a level's list, drop what stands in an unordered_set
-- and erase it there, keep the rest. What is left in the set afterwards was not in the list.
use mini_lsm_cpp.Prelude.{
  ℕ, ◌+◌, ◌≤◌, ◌≡◌, refl, sym, subst, inl, inr, true, false, List, [], ◌∷◌, ◌++◌, min, arith, ◌==◌,
  ==_iff, Bool-cases, if◌then◌else◌, count, count-nil, count-cons, count_self, contains, erase,
  IsDistinct, count-erase_self, count-erase_ne, count-erase_le, count_absent, contains_of_absent,
  contains_of_count,
}

-- unordered_set(ids.begin(), ids.end()): the first of each number.
unfoldable pub to_set : List ℕ → List ℕ
to_set [] = []
to_set (x ∷ xs) = x ∷ erase x (to_set xs)

abbrev keep : ℕ → List ℕ × List ℕ → List ℕ × List ℕ
keep x (kept, left) = (x ∷ kept, left)

-- The kept list, and what is left of the set.
unfoldable pub take_out : List ℕ → List ℕ → List ℕ × List ℕ
take_out ids [] = ([], ids)
take_out ids (x ∷ xs) = elim (contains x ids) [
  | true ↦ take_out (erase x ids) xs
  | false ↦ keep x (take_out ids xs)
]

module _ (x : ℕ) (ids xs : List ℕ) where
  pub take_out_in : contains x ids ≡ true → take_out ids (x ∷ xs) ≡ take_out (erase x ids) xs
  unfolding take_out
  take_out_in h = rw (h, take_out)

  pub take_out_not : contains x ids ≡ false → take_out ids (x ∷ xs) ≡ keep x (take_out ids xs)
  unfolding take_out
  take_out_not h = rw (h, take_out)

-- Erasing a number that is there lowers its own count by one and no other.
count-erase :
    (a x : ℕ) (ids : List ℕ)
    → contains x ids ≡ true
    → count a (erase x ids) + (if a == x then 1 else 0) ≡ count a ids
count-erase a x ids h = elim (Bool-cases (a == x)) [
  | inl e ↦
      let same : a ≡ x = (==_iff a x).0 e in
      rw e
        (subst (λ b. count b (erase x ids) + 1 ≡ count b ids) (sym same) (count-erase_self x ids h))
  | inr n ↦ rw n (omega (arith, count-erase_ne a x ids n))
]

erased_at_most_one : (x : ℕ) (ids : List ℕ) → count x ids ≤ 1 → count x (erase x ids) ≡ 0
erased_at_most_one x ids h = elim (Bool-cases (contains x ids)) [
  | inl e ↦ omega (arith, count-erase_self x ids e)
  | inr e ↦ omega (arith, count-erase_le x x ids, count_absent x ids e)
]

count-to_set : (a : ℕ) (xs : List ℕ) → count a (to_set xs) ≡ min 1 (count a xs)
unfolding to_set
count-to_set a [] = omega (arith, count-nil a)
count-to_set a (x ∷ xs) = elim (Bool-cases (a == x)) [
  | inl e ↦
      let same : a ≡ x = (==_iff a x).0 e in
      subst (λ b. count b (x ∷ erase x (to_set xs)) ≡ min 1 (count b (x ∷ xs))) (sym same)
        (omega (
          arith,
          count_self x (erase x (to_set xs)),
          count_self x xs,
          erased_at_most_one x (to_set xs) (omega (arith, count-to_set x xs)),
        ))
  | inr n ↦
      let ne = count-erase_ne a x (to_set xs) n in
      simp (count-cons, n) (omega (arith, ne, count-to_set a xs))
]

-- A list without repetitions is its own set, up to order.
pub count-to_set_distinct : (a : ℕ) (xs : List ℕ) → IsDistinct xs → count a (to_set xs) ≡ count a xs
count-to_set_distinct a xs d = omega (arith, count-to_set a xs, d a)

-- What is dropped from the list is what is erased from the set.
pub count-take_out :
    (a : ℕ) (xs ids : List ℕ)
    → count a xs + count a (take_out ids xs).1 ≡ count a (take_out ids xs).0 + count a ids
count-take_out a [] ids = unfold take_out in omega (arith, count-nil a)
count-take_out a (x ∷ xs) ids = elim (Bool-cases (contains x ids)) [
  | inl h ↦
      rw (take_out_in x ids xs h)
        (omega (arith, count-cons a x xs, count-take_out a xs (erase x ids), count-erase a x ids h))
  | inr h ↦ rw (take_out_not x ids xs h) (
      omega (arith, count-cons a x xs, count-cons a x (take_out ids xs).0, count-take_out a xs ids))
]

-- Numbers in front of the list that are not in the set are kept.
pub take_out-append :
    (new xs ids : List ℕ)
    → ((a : ℕ) → 1 ≤ count a new → count a ids ≡ 0)
    → take_out ids (new ++ xs) ≡ (new ++ (take_out ids xs).0, (take_out ids xs).1)
take_out-append [] xs ids h = refl
take_out-append (x ∷ new) xs ids h = rw (
  take_out_not x ids (new ++ xs) (contains_of_absent x ids (h x (omega (arith, count_self x new)))),
  take_out-append new xs ids (λ a m. h a (omega (arith, count-cons a x new))),
)

-- A set that counts as the list does takes it out whole.
pub take_out_all :
    (xs ids : List ℕ) → ((a : ℕ) → count a ids ≡ count a xs) → take_out ids xs ≡ ([], [])
take_out_all [] [] h = unfold take_out in refl
take_out_all [] (i ∷ ids) h = absurd (omega (arith, h i, count_self i ids, count-nil i))
take_out_all (x ∷ xs) ids h =
    let there = contains_of_count x ids (omega (arith, h x, count_self x xs)) in
    rw (take_out_in x ids xs there) (
      take_out_all xs (erase x ids)
        (λ a. omega (arith, h a, count-cons a x xs, count-erase a x ids there)))
