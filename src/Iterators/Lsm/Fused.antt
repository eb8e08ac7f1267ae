-- ===== src/Iterators/Lsm/Fused.antt =====
-- include/mini_lsm/lsm_iterator.h: FusedIterator, and the exceptions of its inner iterator.
use mini_lsm_cpp.Prelude.{
  ◌≡◌, Bool, true, false, Option, none, some, not, ◌&&◌, ◌||◌, ◌⊎◌, if◌then◌else◌, arith,
}

-- An iterator whose `next` may throw: the flag says whether it did.
pub record Throwing (I : Type 0) : Type 0 where
  pub is_valid : I → Bool
  pub next : I → Bool × I

-- `none` is a null pointer.
pub record FusedIterator (I : Type 0) : Type 0 where
  pub iter : Option I
  pub has_errored : Bool

module _ {I : Type 0} (iter_ops : Throwing I) where
  iter_is_valid : Option I → Bool
  iter_is_valid none = false
  iter_is_valid (some i) = iter_ops.is_valid i

  pub is_valid : FusedIterator I → Bool
  is_valid it = not it.has_errored && iter_is_valid it.iter

  -- The inner call, and what the handler makes of its exception.
  advance : FusedIterator I → Bool × I → Bool × FusedIterator I
  advance it (true, i) = (true, record { iter = some i; has_errored = true })
  advance it (false, i) = (false, record it { iter = some i })

  -- Whether the call throws, and the new state.
  pub next : FusedIterator I → Bool × FusedIterator I
  next it =
      if it.has_errored || not (iter_is_valid it.iter)
      then (false, it)
      else elim it.iter [ none ↦ (false, it) | some i ↦ advance it (iter_ops.next i) ]

  -- A call of next on a FusedIterator that has ended neither throws nor changes it, and no call
  -- both throws and leaves the iterator valid.
  pub next-ends :
      (it : FusedIterator I)
      → (((is_valid it ≡ false) × (next it ≡ (false, it))) ⊎ (is_valid it ≡ true))
        × (((next it).0 && is_valid (next it).1) ≡ false)
  unfolding next is_valid iter_is_valid advance
  next-ends it = (ground arith, ground arith)
