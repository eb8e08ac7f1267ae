-- ===== src/Table/Filter/NoFalseNegatives.antt =====
-- src/table/bloom.cpp: asking a filter for a hash that it was built from.
use mini_lsm_cpp.Prelude.{
  ℕ, zero, suc, ◌+◌, ◌*◌, ◌/◌, ◌%◌, ◌<◌, ◌≤◌, ◌≡◌, min, max, refl, sym, ap, ◌∙◌, inl, inr, true,
  false, List, [], ◌∷◌, none, some, length, get_elem?, set, replicate, length-set, length-replicate,
  Bytes, u32, u64, u8, ltb, ◌==◌, arith, Option-cases, Bool-cases, count, count-nil, count-cons,
  subst, ==_ne, le→ltb, ◌^◌,
}
use mini_lsm_cpp.Table.Filter.{
  test_bit, set_bit, test_at, set_at, delta_of, set_all, test_all, add_hashes, may_contain,
  build_from_key_hashes,
}

test-set_bit_self : (b i : ℕ) → test_bit (set_bit b i) i ≡ true
unfolding test_bit set_bit
test-set_bit_self b zero = ground arith
test-set_bit_self b (suc i) =
    let e : (set_bit (b / 2) i * 2 + b % 2) / 2 ≡ set_bit (b / 2) i = omega arith in
    rw e (test-set_bit_self (b / 2) i)

test-set_bit_keeps : (b i j : ℕ) → test_bit b j ≡ true → test_bit (set_bit b i) j ≡ true
unfolding test_bit set_bit
test-set_bit_keeps b zero zero h = ground arith
test-set_bit_keeps b zero (suc j) h = let e : (b / 2 * 2 + 1) / 2 ≡ b / 2 = omega arith in rw e h
test-set_bit_keeps b (suc i) zero h = ground arith
test-set_bit_keeps b (suc i) (suc j) h =
    let e : (set_bit (b / 2) i * 2 + b % 2) / 2 ≡ set_bit (b / 2) i = omega arith in
    rw e (test-set_bit_keeps (b / 2) i j h)

module _ {ℓ} {A : Type ℓ} where
  get-set_self :
      (xs : List A) (i : ℕ) (v w : A) → get_elem? xs i ≡ some v → get_elem? (set xs i w) i ≡ some w
  get-set_self [] i v w h = cc
  get-set_self (x ∷ xs) zero v w h = refl
  get-set_self (x ∷ xs) (suc i) v w h = get-set_self xs i v w h

  get-set_ne :
      (xs : List A) (i j : ℕ) (w : A) → (i == j) ≡ false → get_elem? (set xs i w) j ≡ get_elem? xs j
  get-set_ne [] i j w h = refl
  get-set_ne (x ∷ xs) zero zero w h = ground arith
  get-set_ne (x ∷ xs) zero (suc j) w h = refl
  get-set_ne (x ∷ xs) (suc i) zero w h = refl
  get-set_ne (x ∷ xs) (suc i) (suc j) w h = get-set_ne xs i j w (ground arith)

  get_inside : (xs : List A) (i : ℕ) → i < length xs → (v : A) × (get_elem? xs i ≡ some v)
  get_inside [] i h = absurd (omega arith)
  get_inside (x ∷ xs) zero h = (x, refl)
  get_inside (x ∷ xs) (suc i) h = get_inside xs i (omega arith)

set_at-none : (f : Bytes) (p : ℕ) → get_elem? f (p / 8) ≡ none → set_at f p ≡ f
unfolding set_at
set_at-none f p e = rw (e, set_at) refl

set_at-some :
    (f : Bytes) (p b : ℕ)
    → get_elem? f (p / 8) ≡ some b
    → set_at f p ≡ set f (p / 8) (set_bit b (p % 8))
unfolding set_at
set_at-some f p b e = rw (e, set_at) refl

test_at-some :
    (f : Bytes) (p b : ℕ) → get_elem? f (p / 8) ≡ some b → test_at f p ≡ test_bit b (p % 8)
unfolding test_at
test_at-some f p b e = rw (e, test_at) refl

test_at-same :
    (f g : Bytes) (p : ℕ) → get_elem? f (p / 8) ≡ get_elem? g (p / 8) → test_at f p ≡ test_at g p
unfolding test_at
test_at-same f g p e = rw (e, test_at) refl

length-set_at : (f : Bytes) (p : ℕ) → length (set_at f p) ≡ length f
length-set_at f p = elim (Option-cases (get_elem? f (p / 8))) [
  | inl e ↦ ap length (set_at-none f p e)
  | inr (b, e) ↦ ap length (set_at-some f p b e) ∙ length-set f (p / 8) (set_bit b (p % 8))
]

test-set_at_self : (f : Bytes) (p : ℕ) → p / 8 < length f → test_at (set_at f p) p ≡ true
test-set_at_self f p h =
    let (b, e) = get_inside f (p / 8) h in
    rw (set_at-some f p b e) (
      test_at-some (set f (p / 8) (set_bit b (p % 8))) p (set_bit b (p % 8))
        (get-set_self f (p / 8) b (set_bit b (p % 8)) e)
      ∙ test-set_bit_self b (p % 8))

test-set_at_keeps : (f : Bytes) (p q : ℕ) → test_at f q ≡ true → test_at (set_at f p) q ≡ true
test-set_at_keeps f p q h = elim (Option-cases (get_elem? f (p / 8))) [
  | inl e ↦ ap (λ g. test_at g q) (set_at-none f p e) ∙ h
  | inr (b, e) ↦
      let g = set f (p / 8) (set_bit b (p % 8)) in
      ap (λ g. test_at g q) (set_at-some f p b e) ∙ elim (Bool-cases (p / 8 == q / 8)) [
        | inl same ↦
            let pq : p / 8 ≡ q / 8 = ground arith in
            let eq : get_elem? f (q / 8) ≡ some b = rw (sym pq) e in
            let eg : get_elem? g (q / 8) ≡ some (set_bit b (p % 8)) =
              rw (sym pq) (get-set_self f (p / 8) b (set_bit b (p % 8)) e) in
            test_at-some g q (set_bit b (p % 8)) eg
            ∙ test-set_bit_keeps b (p % 8) (q % 8) (sym (test_at-some f q b eq) ∙ h)
        | inr other ↦
            test_at-same g f q (get-set_ne f (p / 8) (q / 8) (set_bit b (p % 8)) other) ∙ h
      ]
]

module _ (nbits : ℕ) where
  length-set_all : (f : Bytes) (delta k h : ℕ) → length (set_all nbits f delta k h) ≡ length f
  unfolding set_all
  length-set_all f delta zero h = refl
  length-set_all f delta (suc k) h =
      length-set_all (set_at f (h % nbits)) delta k (u32 (h + delta)) ∙ length-set_at f (h % nbits)

  set_all_keeps :
      (f : Bytes) (delta k h q : ℕ)
      → test_at f q ≡ true
      → test_at (set_all nbits f delta k h) q ≡ true
  unfolding set_all
  set_all_keeps f delta zero h q t = t
  set_all_keeps f delta (suc k) h q t =
      set_all_keeps (set_at f (h % nbits)) delta k (u32 (h + delta)) q
        (test-set_at_keeps f (h % nbits) q t)

  add_hashes_keeps :
      (k : ℕ) (f : Bytes) (hashes : List ℕ) (q : ℕ)
      → test_at f q ≡ true
      → test_at (add_hashes nbits k f hashes) q ≡ true
  unfolding add_hashes
  add_hashes_keeps k f [] q t = t
  add_hashes_keeps k f (h ∷ hashes) q t =
      add_hashes_keeps k (set_all nbits f (delta_of h) k h) hashes q
        (set_all_keeps f (delta_of h) k h q t)

  length-add_hashes :
      (k : ℕ) (f : Bytes) (hashes : List ℕ) → length (add_hashes nbits k f hashes) ≡ length f
  unfolding add_hashes
  length-add_hashes k f [] = refl
  length-add_hashes k f (h ∷ hashes) =
      length-add_hashes k (set_all nbits f (delta_of h) k h) hashes
      ∙ length-set_all f (delta_of h) k h

  -- What is set of the probes of one hash stays set, whatever is added.
  test_all_after :
      (g f : Bytes) (delta k h : ℕ)
      → 0 < nbits
      → nbits ≡ length f * 8
      → ((q : ℕ) → test_at (set_all nbits f delta k h) q ≡ true → test_at g q ≡ true)
      → test_all nbits g delta k h ≡ true
  unfolding test_all set_all
  test_all_after g f delta zero h pos size after = refl
  test_all_after g f delta (suc k) h pos size after =
      let inside : h % nbits < nbits = omega arith in
      let here = after (h % nbits) (
        set_all_keeps (set_at f (h % nbits)) delta k (u32 (h + delta)) (h % nbits)
          (test-set_at_self f (h % nbits) (omega arith))) in
      let size' : nbits ≡ length (set_at f (h % nbits)) * 8 =
        omega (arith, length-set_at f (h % nbits)) in
      rw here (test_all_after g (set_at f (h % nbits)) delta k (u32 (h + delta)) pos size' after)

  add_hashes_test :
      (k : ℕ) (f : Bytes) (hashes : List ℕ) (h : ℕ)
      → 0 < nbits
      → nbits ≡ length f * 8
      → 1 ≤ count h hashes
      → test_all nbits (add_hashes nbits k f hashes) (delta_of h) k h ≡ true
  unfolding add_hashes
  add_hashes_test k f [] h pos size known = absurd (omega (arith, count-nil h))
  add_hashes_test k f (x ∷ hashes) h pos size known =
      let f' = set_all nbits f (delta_of x) k x in
      elim (Bool-cases (h == x)) [
        | inl same ↦
            let e : h ≡ x = ground arith in
            test_all_after (add_hashes nbits k f' hashes) f (delta_of h) k h pos size (λ q t.
              add_hashes_keeps k f' hashes q
                (subst (λ (y : ℕ). test_at (set_all nbits f (delta_of y) k y) q ≡ true) e t))
        | inr other ↦
            let size' : nbits ≡ length f' * 8 = omega (arith, length-set_all f (delta_of x) k x) in
            let there : 1 ≤ count h hashes = ground (arith, count-cons h x hashes) in
            add_hashes_test k f' hashes h pos size' there
      ]

module _ (probes : ℕ → ℕ) where
  -- A bloom filter may contain every hash that it was built from, whatever the number of probes,
  -- as long as its bits are fewer than 2^63.
  pub may_contain-build :
      (hashes : List ℕ) (bits_per_key h : ℕ)
      → length hashes * bits_per_key < 2 ^ 63
      → 1 ≤ count h hashes
      → may_contain (build_from_key_hashes probes hashes bits_per_key) h ≡ true
  unfolding may_contain build_from_key_hashes
  may_contain-build hashes bits_per_key h small known =
      let k = min (max (probes bits_per_key) 1) 30 in
      let nbytes = u64 (max (u64 (length hashes * bits_per_key)) 64 + 7) / 8 in
      let some_bytes : 0 < nbytes = omega arith in
      let same_k : u8 k ≡ k = omega arith in
      let few : ltb 30 k ≡ false = le→ltb 30 k (omega arith) in
      let blank = replicate nbytes 0 in
      let size : length (add_hashes (nbytes * 8) k blank hashes) ≡ nbytes =
        length-add_hashes (nbytes * 8) k blank hashes ∙ length-replicate nbytes 0 in
      let bits : (nbytes * 8 == 0) ≡ false = ==_ne _ _ (omega arith) in
      rw (same_k, few, size, bits)
        (add_hashes_test (nbytes * 8) k blank hashes h (omega arith)
          (ap (λ n. n * 8) (sym (length-replicate nbytes 0))) known)
