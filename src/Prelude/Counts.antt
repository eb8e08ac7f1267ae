-- ===== src/Prelude/Counts.antt =====
-- How often a number stands in a list: the view of a list of identifiers that forgets its order.
use Prim.Native.Nat.{ℕ, ◌+◌, ◌≤◌}
use mathlib.Core.Path.{◌≡◌, refl}
use mathlib.Core.Bool.{Bool, true, false, ◌&&◌, ◌||◌}
use mathlib.Core.List.{List, [], ◌∷◌, ◌++◌}
use native.Mathlib.Omega.{arith}
use mini_lsm_cpp.Prelude.Tests.{◌==◌, if◌then◌else◌}

unfoldable pub count : ℕ → List ℕ → ℕ
count a [] = 0
count a (x ∷ xs) = (if a == x then 1 else 0) + count a xs

unfoldable pub contains : ℕ → List ℕ → Bool
contains a [] = false
contains a (x ∷ xs) = a == x || contains a xs

-- Drops the first occurrence.
unfoldable pub erase : ℕ → List ℕ → List ℕ
erase a [] = []
erase a (x ∷ xs) = if a == x then xs else x ∷ erase a xs

-- No number stands twice.
abbrev pub IsDistinct : List ℕ → Type 0
IsDistinct xs = (a : ℕ) → count a xs ≤ 1

pub count-nil : (a : ℕ) → count a [] ≡ 0
unfolding count
count-nil a = refl

pub count-cons : (a x : ℕ) (xs : List ℕ) → count a (x ∷ xs) ≡ (if a == x then 1 else 0) + count a xs
unfolding count
count-cons a x xs = refl

pub count_self : (x : ℕ) (xs : List ℕ) → count x (x ∷ xs) ≡ 1 + count x xs
unfolding count
count_self x xs = ground arith

pub count-append : (a : ℕ) (xs ys : List ℕ) → count a (xs ++ ys) ≡ count a xs + count a ys
unfolding count
count-append a [] ys = omega arith
count-append a (x ∷ xs) ys = omega (arith, count-append a xs ys)

pub count-contains : (a : ℕ) (xs : List ℕ) → contains a xs ≡ true → 1 ≤ count a xs
unfolding count contains
count-contains a [] h = ground arith
count-contains a (x ∷ xs) h = ground (arith, count-contains a xs)

pub count_absent : (a : ℕ) (xs : List ℕ) → contains a xs ≡ false → count a xs ≡ 0
unfolding count contains
count_absent a [] h = refl
count_absent a (x ∷ xs) h = ground (arith, count_absent a xs)

pub contains_of_count : (a : ℕ) (xs : List ℕ) → 1 ≤ count a xs → contains a xs ≡ true
unfolding count contains
contains_of_count a [] h = absurd (omega arith)
contains_of_count a (x ∷ xs) h = ground (arith, contains_of_count a xs)

pub contains-cons : (a x : ℕ) (xs : List ℕ) → contains a (x ∷ xs) ≡ (a == x || contains a xs)
unfolding contains
contains-cons a x xs = refl

pub contains-nil : (a : ℕ) → contains a [] ≡ false
unfolding contains
contains-nil a = refl

pub contains-append :
    (a : ℕ) (xs ys : List ℕ) → contains a (xs ++ ys) ≡ (contains a xs || contains a ys)
unfolding contains
contains-append a [] ys = refl
contains-append a (x ∷ xs) ys = ground (arith, contains-append a xs ys)

pub contains_of_absent : (a : ℕ) (xs : List ℕ) → count a xs ≡ 0 → contains a xs ≡ false
unfolding count contains
contains_of_absent a [] h = refl
contains_of_absent a (x ∷ xs) h = ground (arith, contains_of_absent a xs)

pub count-erase_self :
    (a : ℕ) (xs : List ℕ) → contains a xs ≡ true → count a (erase a xs) + 1 ≡ count a xs
unfolding count contains erase
count-erase_self a [] h = ground arith
count-erase_self a (x ∷ xs) h = ground (arith, count-erase_self a xs)

pub count-erase_ne : (a b : ℕ) (xs : List ℕ) → (a == b) ≡ false → count a (erase b xs) ≡ count a xs
unfolding count erase
count-erase_ne a b [] h = refl
count-erase_ne a b (x ∷ xs) h = ground (arith, count-erase_ne a b xs)

pub count-erase_le : (a b : ℕ) (xs : List ℕ) → count a (erase b xs) ≤ count a xs
unfolding count erase
count-erase_le a b [] = omega arith
count-erase_le a b (x ∷ xs) = ground (arith, count-erase_le a b xs)

-- operator== of std::vector<size_t>, and empty().
unfoldable pub list_eq : List ℕ → List ℕ → Bool
list_eq [] [] = true
list_eq [] (y ∷ ys) = false
list_eq (x ∷ xs) [] = false
list_eq (x ∷ xs) (y ∷ ys) = x == y && list_eq xs ys

unfoldable pub is_nil : List ℕ → Bool
is_nil [] = true
is_nil (x ∷ xs) = false

pub list_eq_sound : (xs ys : List ℕ) → list_eq xs ys ≡ true → xs ≡ ys
unfolding list_eq
list_eq_sound [] [] h = refl
list_eq_sound [] (y ∷ ys) h = cc
list_eq_sound (x ∷ xs) [] h = cc
list_eq_sound (x ∷ xs) (y ∷ ys) h = ground (arith, list_eq_sound xs ys)

pub list_eq_refl : (xs : List ℕ) → list_eq xs xs ≡ true
unfolding list_eq
list_eq_refl [] = refl
list_eq_refl (x ∷ xs) = ground (arith, list_eq_refl xs)

pub is_nil_sound : (xs : List ℕ) → is_nil xs ≡ true → xs ≡ []
unfolding is_nil
is_nil_sound [] h = refl
is_nil_sound (x ∷ xs) h = cc

pub is_nil_nil : is_nil [] ≡ true
unfolding is_nil
is_nil_nil = refl
