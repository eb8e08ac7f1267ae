-- ===== src/Iterators/Lsm/Yield.antt =====
-- src/lsm_iterator.cpp: the run that LsmIterator yields.
use mini_lsm_cpp.Prelude.{
  ℕ, zero, suc, ◌<◌, ◌≡◌, refl, inl, inr, Bool, true, false, List, [], ◌∷◌, Bytes, length, arith,
  Bool-cases, if◌then◌else◌,
}
use mini_lsm_cpp.Key.{is_empty}
use mini_lsm_cpp.Iterators.{Bound, StorageIterator, Yields, past}
use mini_lsm_cpp.Iterators.Lsm.{
  LsmIterator, match_end_bound, next_inner, move_to_non_delete, create, next, ops,
}

-- The entries before the first key past the bound, without the tombstones.
pub live : Bound → List (Bytes × Bytes) → List (Bytes × Bytes)
live upper [] = []
live upper (e ∷ es) =
    let rest = live upper es in
    if past upper e.0 then [] else if is_empty e.1 then rest else e ∷ rest

module _ {I : Type 0} (inner_ops : StorageIterator I) (upper : Bound) (fuel : ℕ) where
  abbrev mk : I → Bool → LsmIterator I
  mk i v = record { inner = i; end_bound = upper; valid = v }

  abbrev YieldsLive : LsmIterator I → List (Bytes × Bytes) → Type 0
  YieldsLive = Yields (ops inner_ops fuel)

  -- Where the iterator stands after its inner one has come to `i`.
  abbrev land : I → LsmIterator I
  land i = if inner_ops.is_valid i then match_end_bound inner_ops (mk i true) else mk i false

  land-past :
      (i : I)
      → inner_ops.is_valid i ≡ true
      → past upper (inner_ops.key i) ≡ true
      → land i ≡ mk i false
  unfolding match_end_bound
  land-past i v p = simp (v, p)

  land_within :
      (i : I)
      → inner_ops.is_valid i ≡ true
      → past upper (inner_ops.key i) ≡ false
      → land i ≡ mk i true
  unfolding match_end_bound
  land_within i v p = simp (v, p)

  move_end : (f : ℕ) (i : I) → move_to_non_delete inner_ops f (mk i false) ≡ mk i false
  unfolding move_to_non_delete
  move_end zero i = refl
  move_end (suc f) i = refl

  move_dead :
      (f : ℕ) (i : I)
      → is_empty (inner_ops.value i) ≡ true
      → move_to_non_delete inner_ops (suc f) (mk i true)
        ≡ move_to_non_delete inner_ops f (land (inner_ops.next i))
  unfolding move_to_non_delete next_inner
  move_dead f i e = rw (e, move_to_non_delete)

  move_live :
      (f : ℕ) (i : I)
      → is_empty (inner_ops.value i) ≡ false
      → move_to_non_delete inner_ops (suc f) (mk i true) ≡ mk i true
  unfolding move_to_non_delete
  move_live f i e = rw (e, move_to_non_delete)

  show_live :
      (i : I) (e : Bytes × Bytes) (es : List (Bytes × Bytes))
      → inner_ops.key i ≡ e.0
      → inner_ops.value i ≡ e.1
      → YieldsLive (move_to_non_delete inner_ops fuel (land (inner_ops.next i))) es
      → YieldsLive (mk i true) (e ∷ es)
  unfolding next next_inner
  show_live i e es k v rest = (refl, k, v, rest)

  move-Yields :
      (es : List (Bytes × Bytes)) (i : I) (f : ℕ)
      → Yields inner_ops i es
      → length es < f
      → length es < fuel
      → YieldsLive (move_to_non_delete inner_ops f (land i)) (live upper es)
  unfolding live
  move-Yields [] i f y h h' = rw (y, move_end f i) refl
  move-Yields (e ∷ es) i zero y h h' = absurd (omega arith)
  move-Yields (e ∷ es) i (suc f) y h h' = elim (Bool-cases (past upper e.0)) [
    | inl stop ↦ rw (stop, land-past i y.0 (rw y.1 stop), move_end (suc f) i) refl
    | inr go ↦ elim (Bool-cases (is_empty e.1)) [
      | inl dead ↦
          rw (go, dead, land_within i y.0 (rw y.1 go), move_dead f i (rw y.2 dead))
            (move-Yields es (inner_ops.next i) f y.3 (omega arith) (omega arith))
      | inr alive ↦
          rw (go, alive, land_within i y.0 (rw y.1 go), move_live f i (rw y.2 alive))
            (show_live i e (live upper es) y.1 y.2
              (move-Yields es (inner_ops.next i) fuel y.3 (omega arith) (omega arith)))
    ]
  ]

  -- With fuel for the entries that the inner iterator yields, LsmIterator yields those before
  -- the first key past the upper bound, without the tombstones.
  pub create-Yields-live :
      (es : List (Bytes × Bytes)) (i : I)
      → Yields inner_ops i es
      → length es < fuel
      → Yields (ops inner_ops fuel) (create inner_ops fuel i upper) (live upper es)
  unfolding create live
  create-Yields-live [] i y h = rw y refl
  create-Yields-live (e ∷ es) i y h =
      let moved = move-Yields (e ∷ es) i fuel y h h in rw y.0 (rw y.0 at moved)
