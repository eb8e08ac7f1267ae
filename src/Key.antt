-- ===== src/Key.antt =====
-- include/mini_lsm/key.h: keys are byte strings, compared as unsigned bytes and then by length.
-- `KeySlice` (a pointer and a length) and `KeyVec` (an owned vector) are both the bytes that they
-- show; the model has no aliasing of keys, which the code copies wherever it keeps them.
pub mod Order
use Prim.Native.Nat.{compare, Ordering, lt, eq, gt}
use mini_lsm_cpp.Prelude.{ℕ, zero, suc, Bool, true, false, [], ◌∷◌, ◌++◌, Bytes, min, length, ◌==◌}

-- The sign of the int that memcmp answers on the first `n` bytes.
unfoldable pub memcmp : Bytes → Bytes → ℕ → Ordering
memcmp (x ∷ xs) (y ∷ ys) (suc n) = elim (compare x y) [ lt ↦ lt | eq ↦ memcmp xs ys n | gt ↦ gt ]
memcmp _ _ _ = eq

-- The sign of KeySlice::compare.
unfoldable pub key_compare : Bytes → Bytes → Ordering
key_compare a b = elim (memcmp a b (min (length a) (length b))) [
  | lt ↦ lt
  | eq ↦ compare (length a) (length b)
  | gt ↦ gt
]

unfoldable pub key_eq : Bytes → Bytes → Bool
key_eq a b = elim (key_compare a b) [ eq ↦ true | _ ↦ false ]

unfoldable pub key_lt : Bytes → Bytes → Bool
key_lt a b = elim (key_compare a b) [ lt ↦ true | _ ↦ false ]

unfoldable pub key_gt : Bytes → Bytes → Bool
key_gt a b = elim (key_compare a b) [ gt ↦ true | _ ↦ false ]

unfoldable pub key_le : Bytes → Bytes → Bool
key_le a b = elim (key_compare a b) [ gt ↦ false | _ ↦ true ]

unfoldable pub key_ge : Bytes → Bytes → Bool
key_ge a b = elim (key_compare a b) [ lt ↦ false | _ ↦ true ]

pub is_empty : Bytes → Bool
is_empty key = length key == 0
