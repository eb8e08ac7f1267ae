-- ===== src/Compact/Outside.antt =====
-- The loop of TakeOut as a filter: a level without repetitions keeps, in its order, what is not
-- among the compacted tables.
use mini_lsm_cpp.Prelude.{
  ℕ, ◌≤◌, ◌≡◌, refl, sym, ap, ◌∙◌, inl, inr, false, List, [], ◌∷◌, arith, ◌==◌, Bool-cases,
  if◌then◌else◌, count, count-cons, count_self, contains, erase, contains-cons, IsDistinct,
}
use mini_lsm_cpp.Compact.TakeOut.{to_set, take_out, take_out_in, take_out_not}

unfoldable pub outside : List ℕ → List ℕ → List ℕ
outside ids [] = []
outside ids (x ∷ xs) = let rest = outside ids xs in if contains x ids then rest else x ∷ rest

contains-erase_ne :
    (a x : ℕ) (ids : List ℕ) → (a == x) ≡ false → contains a (erase x ids) ≡ contains a ids
unfolding contains erase
contains-erase_ne a x [] n = refl
contains-erase_ne a x (y ∷ ys) n = ground (arith, contains-erase_ne a x ys n)

contains-to_set : (a : ℕ) (ids : List ℕ) → contains a (to_set ids) ≡ contains a ids
unfolding to_set
contains-to_set a [] = refl
contains-to_set a (x ∷ xs) = elim (Bool-cases (a == x)) [
  | inl e ↦ simp (contains-cons, e)
  | inr n ↦ simp (contains-cons, n) (contains-erase_ne a x (to_set xs) n ∙ contains-to_set a xs)
]

IsDistinct-tail : (x : ℕ) (xs : List ℕ) → IsDistinct (x ∷ xs) → IsDistinct xs
IsDistinct-tail x xs d a = omega (arith, d a, count-cons a x xs)

-- Behind its first element a list without repetitions has other numbers.
ne_behind : (x a : ℕ) (xs : List ℕ) → IsDistinct (x ∷ xs) → 1 ≤ count a xs → (a == x) ≡ false
ne_behind x a xs d m = ground (arith, d a, count-cons a x xs)

take_out-outside_of :
    (xs left ids : List ℕ)
    → IsDistinct xs
    → ((a : ℕ) → 1 ≤ count a xs → contains a left ≡ contains a ids)
    → (take_out left xs).0 ≡ outside ids xs
unfolding take_out outside
take_out-outside_of [] left ids d h = refl
take_out-outside_of (x ∷ xs) left ids d h =
    let dt = IsDistinct-tail x xs d in
    let same = h x (omega (arith, count_self x xs)) in
    elim (Bool-cases (contains x left)) [
      | inl there ↦
          rw (take_out_in x left xs there, sym same ∙ there)
            (take_out-outside_of xs (erase x left) ids dt (λ a m.
              contains-erase_ne a x left (ne_behind x a xs d m)
              ∙ h a (omega (arith, m, count-cons a x xs))))
      | inr gone ↦
          rw (take_out_not x left xs gone, sym same ∙ gone)
            (ap (λ rest. x ∷ rest)
              (take_out-outside_of xs left ids dt
                (λ a m. h a (omega (arith, m, count-cons a x xs)))))
    ]

pub take_out-outside :
    (ids xs : List ℕ) → IsDistinct xs → (take_out (to_set ids) xs).0 ≡ outside ids xs
take_out-outside ids xs d = take_out-outside_of xs (to_set ids) ids d (λ a m. contains-to_set a ids)
