-- ===== src/Block/Size.antt =====
-- src/block/builder.cpp: how large a block gets.
use mini_lsm_cpp.Prelude.{
  ℕ, ◌+◌, ◌-◌, ◌*◌, ◌≤◌, ◌≡◌, ◌⊎◌, inl, inr, subst, ap, Bool, true, false, not, List, [], ◌∷◌, ◌++◌,
  some, some-injective, >>=-eq-some, assert, length, drop, Bytes, arith, u16, ltb, is_nil,
  is_nil_sound, Bool-cases, length-append, length-drop,
}
use mini_lsm_cpp.Endian.{put_u16_be}
use mini_lsm_cpp.Endian.RoundTrip.{put_u16_be-append, length-put_u16_be}
use mini_lsm_cpp.Block.{
  Block, put_offsets, encode, compute_overlap, BlockBuilder, estimated, put_entry, add,
}
use mini_lsm_cpp.Block.RoundTrip.{length-put_offsets, put_offsets-append}

-- The size of an encoded block is what the builder estimates.
length-encode : (b : Block) → length (encode b) ≡ 2 + length b.offsets * 2 + length b.contents
unfolding encode
length-encode b = omega (
  arith,
  ap length (put_u16_be-append (put_offsets b.contents b.offsets) (u16 (length b.offsets))),
  length-append (put_offsets b.contents b.offsets) (put_u16_be [] (u16 (length b.offsets))),
  length-put_u16_be (u16 (length b.offsets)),
  ap length (put_offsets-append b.contents b.offsets),
  length-append b.contents (put_offsets [] b.offsets),
  length-put_offsets b.offsets,
)

length-put : (buf : Bytes) (v : ℕ) → length (put_u16_be buf v) ≡ length buf + 2
length-put buf v = omega (
  arith,
  ap length (put_u16_be-append buf v),
  length-append buf (put_u16_be [] v),
  length-put_u16_be v,
)

length-put_entry :
    (buf first_key key value : Bytes)
    → length (put_entry buf first_key key value) ≤ length buf + 6 + length key + length value
unfolding put_entry
length-put_entry buf first_key key value =
    let overlap = compute_overlap first_key key in
    let one = put_u16_be buf (u16 overlap) in
    let two = put_u16_be one (u16 (length key - overlap)) in
    let three = put_u16_be (two ++ drop overlap key) (u16 (length value)) in
    omega (
      arith,
      length-put buf (u16 overlap),
      length-put one (u16 (length key - overlap)),
      length-append two (drop overlap key),
      length-drop overlap key,
      length-put (two ++ drop overlap key) (u16 (length value)),
      length-append three value,
    )

abbrev pub built : BlockBuilder → Block
built b = record { contents = b.contents; offsets = b.offsets }

-- The builder holds at most one entry, or its block keeps to the block size and two bytes.
abbrev pub IsBounded : BlockBuilder → Type 0
IsBounded b = (length b.offsets ≤ 1) ⊎ (length (encode (built b)) ≤ b.block_size + 2)

grown_bound :
    (b : BlockBuilder) (first_key key value : Bytes) (o : ℕ)
    → 2 + length b.offsets * 2 + length b.contents + length key + length value + 6 ≤ b.block_size
    → 2 + length (b.offsets ++ o ∷ []) * 2 + length (put_entry b.contents first_key key value)
      ≤ b.block_size + 2
grown_bound b first_key key value o h =
    omega (arith, length-append b.offsets (o ∷ []), length-put_entry b.contents first_key key value)

first_bound : (offsets : List ℕ) (o : ℕ) → is_nil offsets ≡ true → length (offsets ++ o ∷ []) ≤ 1
first_bound offsets o h =
    omega (arith, length-append offsets (o ∷ []), ap length (is_nil_sound offsets h))

not_above : {a b : ℕ} → ltb a b ≡ false → b ≤ a
not_above h = ground arith

-- A block builder that holds at most one entry, or whose block keeps to the block size and two
-- bytes, does so after every entry that is added or turned down.
pub add-IsBounded :
    (b : BlockBuilder) (key value : Bytes) (r : BlockBuilder × Bool)
    → IsBounded b
    → add b key value ≡ some r
    → IsBounded r.0
unfolding add estimated
add-IsBounded b key value r bounded h =
    let (_, _, h1) = >>=-eq-some (assert (not (is_nil key))) _ h in
    let h2 = some-injective _ _ h1 in
    let full =
      ltb b.block_size
        (2 + length b.offsets * 2 + length b.contents + length key + length value + 2 * 3) in
    elim (Bool-cases full) [
      | inl e ↦ elim (Bool-cases (is_nil b.offsets)) [
        | inl nil ↦
            subst (λ (q : BlockBuilder × Bool). IsBounded q.0) (rw (e, nil) at h2)
              (inl (first_bound b.offsets _ nil))
        | inr some_entry ↦
            subst (λ (q : BlockBuilder × Bool). IsBounded q.0) (rw (e, some_entry) at h2) bounded
      ]
      | inr e ↦
          subst (λ (q : BlockBuilder × Bool). IsBounded q.0) (rw e at h2)
            (inr (rw (length-encode _) (grown_bound b b.first_key key value _ (not_above e))))
    ]
