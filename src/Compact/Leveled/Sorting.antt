-- ===== src/Compact/Leveled/Sorting.antt =====
-- std::sort. The model sorts by insertion. std::sort leaves open the order of elements that compare
-- equal, so what is said of a level's order is said by `Ascending` and by counts.
use mini_lsm_cpp.Prelude.{
  ℕ, ◌≡◌, refl, inl, inr, Bool, true, false, List, [], ◌∷◌, arith, Bool-cases, count, count-cons,
}

unfoldable pub insert_by : (ℕ → ℕ → Bool) → ℕ → List ℕ → List ℕ
insert_by lt x [] = x ∷ []
insert_by lt x (y ∷ ys) = elim (lt x y) [ true ↦ x ∷ y ∷ ys | false ↦ y ∷ insert_by lt x ys ]

unfoldable pub sort_by : (ℕ → ℕ → Bool) → List ℕ → List ℕ
unfolding insert_by
sort_by lt [] = []
sort_by lt (x ∷ xs) = insert_by lt x (sort_by lt xs)

module _ (lt : ℕ → ℕ → Bool) where
  -- No element is below the one in front of it.
  abbrev pub Ascending : List ℕ → Type 0
  Ascending [] = Unit {0}
  Ascending (x ∷ []) = Unit {0}
  Ascending (x ∷ y ∷ ys) = (lt y x ≡ false) × Ascending (y ∷ ys)

  insert_first : (x y : ℕ) (ys : List ℕ) → lt x y ≡ true → insert_by lt x (y ∷ ys) ≡ x ∷ y ∷ ys
  unfolding insert_by
  insert_first x y ys h = rw (h, insert_by)

  insert_later :
      (x y : ℕ) (ys : List ℕ) → lt x y ≡ false → insert_by lt x (y ∷ ys) ≡ y ∷ insert_by lt x ys
  unfolding insert_by
  insert_later x y ys h = rw (h, insert_by)

  count-insert_by : (a x : ℕ) (ys : List ℕ) → count a (insert_by lt x ys) ≡ count a (x ∷ ys)
  count-insert_by a x [] = unfold insert_by in refl
  count-insert_by a x (y ∷ ys) = elim (Bool-cases (lt x y)) [
    | inl h ↦ rw (insert_first x y ys h)
    | inr h ↦ rw (insert_later x y ys h) (
        omega (
          arith,
          count-insert_by a x ys,
          count-cons a y (insert_by lt x ys),
          count-cons a x (y ∷ ys),
          count-cons a x ys,
          count-cons a y ys,
        ))
  ]

  -- Sorting keeps what is in the list.
  pub count-sort_by : (a : ℕ) (xs : List ℕ) → count a (sort_by lt xs) ≡ count a xs
  unfolding sort_by
  count-sort_by a [] = refl
  count-sort_by a (x ∷ xs) = omega (
    arith,
    count-insert_by a x (sort_by lt xs),
    count-cons a x (sort_by lt xs),
    count-cons a x xs,
    count-sort_by a xs,
  )

  module _ (asym : (x y : ℕ) → lt x y ≡ true → lt y x ≡ false) where
    -- Behind an element that is not above `x`, inserting `x` keeps the order.
    insert-behind :
        (p x : ℕ) (ys : List ℕ)
        → lt x p ≡ false
        → Ascending (p ∷ ys)
        → Ascending (p ∷ insert_by lt x ys)
    insert-behind p x [] h s = unfold insert_by in (h, tt)
    insert-behind p x (y ∷ ys) h s = elim (Bool-cases (lt x y)) [
      | inl below ↦ rw (insert_first x y ys below) (h, (asym x y below, s.1))
      | inr above ↦ rw (insert_later x y ys above) (s.0, insert-behind y x ys above s.1)
    ]

    insert_by-Ascending : (x : ℕ) (ys : List ℕ) → Ascending ys → Ascending (insert_by lt x ys)
    insert_by-Ascending x [] s = unfold insert_by in tt
    insert_by-Ascending x (y ∷ ys) s = elim (Bool-cases (lt x y)) [
      | inl below ↦ rw (insert_first x y ys below) (asym x y below, s)
      | inr above ↦ rw (insert_later x y ys above) (insert-behind y x ys above s)
    ]

    pub sort_by-Ascending : (xs : List ℕ) → Ascending (sort_by lt xs)
    unfolding sort_by
    sort_by-Ascending [] = tt
    sort_by-Ascending (x ∷ xs) = insert_by-Ascending x (sort_by lt xs) (sort_by-Ascending xs)
