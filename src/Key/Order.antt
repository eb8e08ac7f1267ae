-- ===== src/Key/Order.antt =====
-- include/mini_lsm/key.h: the order of keys.
use Prim.Native.Nat.{compare, Ordering, lt, eq, gt}
use mini_lsm_cpp.Prelude.{
  ℕ, suc, ◌≡◌, refl, sym, ◌∙◌, true, false, not, ◌↔◌, [], ◌∷◌, Bytes, min, length, arith,
  Bool-cases, inl, inr,
}
use mini_lsm_cpp.Key.{memcmp, key_compare, key_eq, key_lt, key_le, key_gt, key_ge}

-- The dictionary order, with no lengths in sight.
pub lex : Bytes → Bytes → Ordering
lex [] [] = eq
lex [] (y ∷ ys) = lt
lex (x ∷ xs) [] = gt
lex (x ∷ xs) (y ∷ ys) = elim (compare x y) [ lt ↦ lt | eq ↦ lex xs ys | gt ↦ gt ]

compare-suc : (m n : ℕ) → compare (suc m) (suc n) ≡ compare m n
compare-suc m n = ground arith

min-suc : (m n : ℕ) → min (suc m) (suc n) ≡ suc (min m n)
min-suc m n = omega arith

min_zero : (n : ℕ) → min n 0 ≡ 0
min_zero n = omega arith

zero_min : (n : ℕ) → min 0 n ≡ 0
zero_min n = omega arith

key_compare_cons :
    (x y : ℕ) (xs ys : Bytes)
    → key_compare (x ∷ xs) (y ∷ ys)
      ≡ elim (compare x y) [ lt ↦ lt | eq ↦ key_compare xs ys | gt ↦ gt ]
unfolding key_compare memcmp
key_compare_cons x y xs ys =
    rw (min-suc (length xs) (length ys), key_compare)
      (ground (arith, compare-suc (length xs) (length ys)))

key_lex_cons :
    (x y : ℕ) (xs ys : Bytes)
    → key_compare xs ys ≡ lex xs ys
    → (elim (compare x y) [ lt ↦ lt | eq ↦ key_compare xs ys | gt ↦ gt ]) ≡ lex (x ∷ xs) (y ∷ ys)
unfolding lex
key_lex_cons x y xs ys h = ground (arith, h)

memcmp_zero : (a b : Bytes) → memcmp a b 0 ≡ eq
unfolding memcmp
memcmp_zero [] b = refl
memcmp_zero (x ∷ xs) [] = refl
memcmp_zero (x ∷ xs) (y ∷ ys) = refl

-- Comparing the common part and then the lengths is the dictionary order.
pub key_compare-eq-lex : (a b : Bytes) → key_compare a b ≡ lex a b
unfolding lex key_compare memcmp
key_compare-eq-lex [] [] = refl
key_compare-eq-lex [] (y ∷ ys) =
    unfold key_compare in ground (arith, memcmp_zero [] (y ∷ ys), zero_min (suc (length ys)))
key_compare-eq-lex (x ∷ xs) [] =
    unfold key_compare in ground (arith, memcmp_zero (x ∷ xs) [], min_zero (suc (length xs)))
key_compare-eq-lex (x ∷ xs) (y ∷ ys) =
    key_compare_cons x y xs ys ∙ key_lex_cons x y xs ys (key_compare-eq-lex xs ys)

-- The three answers exclude each other, and `eq` is equality of the keys.
pub lex_refl : (a : Bytes) → lex a a ≡ eq
unfolding lex
lex_refl [] = refl
lex_refl (x ∷ xs) = ground (arith, lex_refl xs)

pub eq_of_lex : (a b : Bytes) → lex a b ≡ eq → a ≡ b
unfolding lex
eq_of_lex [] [] h = refl
eq_of_lex [] (y ∷ ys) h = ground arith
eq_of_lex (x ∷ xs) [] h = ground arith
eq_of_lex (x ∷ xs) (y ∷ ys) h = ground (arith, eq_of_lex xs ys)

pub lex_flip : (a b : Bytes) → lex a b ≡ lt → lex b a ≡ gt
unfolding lex
lex_flip [] [] h = ground arith
lex_flip [] (y ∷ ys) h = refl
lex_flip (x ∷ xs) [] h = ground arith
lex_flip (x ∷ xs) (y ∷ ys) h = ground (arith, lex_flip xs ys)

pub lex_flip_gt : (a b : Bytes) → lex a b ≡ gt → lex b a ≡ lt
unfolding lex
lex_flip_gt [] [] h = ground arith
lex_flip_gt [] (y ∷ ys) h = ground arith
lex_flip_gt (x ∷ xs) [] h = refl
lex_flip_gt (x ∷ xs) (y ∷ ys) h = ground (arith, lex_flip_gt xs ys)

pub lex_trans : (a b c : Bytes) → lex a b ≡ lt → lex b c ≡ lt → lex a c ≡ lt
unfolding lex
lex_trans [] [] c h k = ground arith
lex_trans [] (y ∷ ys) [] h k = ground arith
lex_trans [] (y ∷ ys) (z ∷ zs) h k = refl
lex_trans (x ∷ xs) [] c h k = ground arith
lex_trans (x ∷ xs) (y ∷ ys) [] h k = ground arith
lex_trans (x ∷ xs) (y ∷ ys) (z ∷ zs) h k = ground (arith, lex_trans xs ys zs)

pub key_eq_iff : (a b : Bytes) → (key_eq a b ≡ true) ↔ (a ≡ b)
unfolding key_eq
key_eq_iff a b = (
  λ h. eq_of_lex a b (ground (arith, key_compare-eq-lex a b)),
  λ e. rw e (ground (arith, key_compare-eq-lex b b, lex_refl b)),
)

pub key_eq_sym_false : (a b : Bytes) → key_eq a b ≡ false → key_eq b a ≡ false
key_eq_sym_false a b h = elim (Bool-cases (key_eq b a)) [
  | inl t ↦ cc ((key_eq_iff a b).1 (sym ((key_eq_iff b a).0 t)))
  | inr f ↦ f
]

-- Of two keys at most one is below the other.
pub key_lt_asym : (a b : Bytes) → key_lt a b ≡ true → key_lt b a ≡ false
unfolding key_lt
key_lt_asym a b h = ground (arith, key_compare-eq-lex a b, key_compare-eq-lex b a, lex_flip a b)

-- The order of keys is a strict total order that agrees with equality.
pub record IsKeyOrder : Type 0 where
  pub irrefl : (a : Bytes) → key_lt a a ≡ false
  pub trans : (a b c : Bytes) → key_lt a b ≡ true → key_lt b c ≡ true → key_lt a c ≡ true
  pub total : (a b : Bytes) → key_lt a b ≡ false → key_lt b a ≡ false → a ≡ b
  pub gt_iff : (a b : Bytes) → key_gt a b ≡ key_lt b a
  pub le_iff : (a b : Bytes) → key_le a b ≡ not (key_lt b a)
  pub ge_iff : (a b : Bytes) → key_ge a b ≡ not (key_lt a b)

key_lt_of_lex : (a b : Bytes) → lex a b ≡ lt → key_lt a b ≡ true
unfolding key_lt
key_lt_of_lex a b h = ground (arith, key_compare-eq-lex a b)

lex_of_key_lt : (a b : Bytes) → key_lt a b ≡ true → lex a b ≡ lt
unfolding key_lt
lex_of_key_lt a b h = ground (arith, key_compare-eq-lex a b)

pub key_lt_irrefl : (a : Bytes) → key_lt a a ≡ false
unfolding key_lt
key_lt_irrefl a = ground (arith, key_compare-eq-lex a a, lex_refl a)

pub key_lt_trans : (a b c : Bytes) → key_lt a b ≡ true → key_lt b c ≡ true → key_lt a c ≡ true
key_lt_trans a b c h k =
    key_lt_of_lex a c (lex_trans a b c (lex_of_key_lt a b h) (lex_of_key_lt b c k))

pub key_lt_total : (a b : Bytes) → key_lt a b ≡ false → key_lt b a ≡ false → a ≡ b
unfolding key_lt
key_lt_total a b h k =
    eq_of_lex a b (ground (arith, key_compare-eq-lex a b, key_compare-eq-lex b a, lex_flip_gt a b))

key_gt-eq-lt : (a b : Bytes) → key_gt a b ≡ key_lt b a
unfolding key_gt key_lt
key_gt-eq-lt a b =
    ground (arith, key_compare-eq-lex a b, key_compare-eq-lex b a, lex_flip_gt a b, lex_flip b a)

key_le-eq-not : (a b : Bytes) → key_le a b ≡ not (key_lt b a)
unfolding key_le key_lt
key_le-eq-not a b =
    ground (arith, key_compare-eq-lex a b, key_compare-eq-lex b a, lex_flip_gt a b, lex_flip b a)

key_ge-eq-not : (a b : Bytes) → key_ge a b ≡ not (key_lt a b)
unfolding key_ge key_lt
key_ge-eq-not a b = ground arith

-- The comparison operators of keys are a strict total order and what belongs to it: < is
-- irreflexive, transitive and total, and >, <= and >= are its converse and the negations.
pub key_order : IsKeyOrder
key_order = record {
  irrefl = key_lt_irrefl;
  trans = key_lt_trans;
  total = key_lt_total;
  gt_iff = key_gt-eq-lt;
  le_iff = key_le-eq-not;
  ge_iff = key_ge-eq-not;
}
