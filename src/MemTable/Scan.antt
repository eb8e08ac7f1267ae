-- ===== src/MemTable/Scan.antt =====
-- MemTableIterator: a snapshot of the entries within two bounds, taken when it is made. A null
-- table is left out: `scan` passes the table itself.
use mini_lsm_cpp.Prelude.{
  ℕ, suc, ◌+◌, ◌≡◌, refl, ap, inl, inr, Bool, true, false, ◌||◌, List, [], ◌∷◌, Option, none, some,
  Bytes, length, length-drop, get_elem?, get_elem?_of_drop, drop, drop_next, lt→ltb, le→ltb, ltb,
  arith, Bool-cases, if◌then◌else◌,
}
use mini_lsm_cpp.Key.{key_lt, key_le}
use mini_lsm_cpp.Key.Order.{key_order, key_lt_trans}
use mini_lsm_cpp.MemTable.{MemTable}
use mini_lsm_cpp.MemTable.SortedMap.{Above, IsSorted}
use mini_lsm_cpp.Iterators.{unbounded, included, excluded, Bound, past, StorageIterator, Yields}

pub record MemTableIterator : Type 0 where
  pub snapshot : List (Bytes × Bytes)
  pub idx : ℕ

-- std::map::lower_bound and upper_bound: the entries from the first key >= l, or > l, on.
lower_bound : Bytes → List (Bytes × Bytes) → List (Bytes × Bytes)
lower_bound l [] = []
lower_bound l (e ∷ es) = let rest = lower_bound l es in if key_lt e.0 l then rest else e ∷ es

upper_bound : Bytes → List (Bytes × Bytes) → List (Bytes × Bytes)
upper_bound l [] = []
upper_bound l (e ∷ es) = let rest = upper_bound l es in if key_le e.0 l then rest else e ∷ es

-- The loop: entries up to the first one past the upper bound.
collect : Bound → List (Bytes × Bytes) → List (Bytes × Bytes)
collect upper [] = []
collect upper (e ∷ es) = let rest = collect upper es in if past upper e.0 then [] else e ∷ rest

pub start : Bound → List (Bytes × Bytes) → List (Bytes × Bytes)
start lower es = elim lower.type [
  | unbounded ↦ es
  | included ↦ lower_bound lower.key es
  | excluded ↦ upper_bound lower.key es
]

pub scan : MemTable → Bound → Bound → MemTableIterator
scan t lower upper = record { snapshot = collect upper (start lower t.entries); idx = 0 }

-- What a read past the snapshot would show is left open: the code asserts that there is none.
abbrev entry_or : Option (Bytes × Bytes) → Bytes × Bytes
entry_or none = ([], [])
entry_or (some e) = e

pub entry_at : MemTableIterator → Bytes × Bytes
entry_at it = entry_or (get_elem? it.snapshot it.idx)

pub is_valid : MemTableIterator → Bool
is_valid it = ltb it.idx (length it.snapshot)

pub next : MemTableIterator → MemTableIterator
next it = if is_valid it then record it { idx = it.idx + 1 } else it

abbrev pub ops : StorageIterator MemTableIterator
ops = record {
  is_valid = is_valid;
  key = λ it. (entry_at it).0;
  value = λ it. (entry_at it).1;
  next = next;
}

-- A key is short of the lower bound.
pub before : Bound → Bytes → Bool
before lower k = elim lower.type [
  | unbounded ↦ false
  | included ↦ key_lt k lower.key
  | excluded ↦ key_le k lower.key
]

-- The entries whose key is within both bounds, each tested by itself.
pub in_range : Bound → Bound → List (Bytes × Bytes) → List (Bytes × Bytes)
in_range lower upper [] = []
in_range lower upper (e ∷ es) =
    let rest = in_range lower upper es in
    if before lower e.0 || past upper e.0 then rest else e ∷ rest

past_mono :
    (upper : Bound) (k j : Bytes) → past upper k ≡ true → key_lt k j ≡ true → past upper j ≡ true
unfolding past
past_mono upper k j p l = ground (
  arith,
  key_order.gt_iff k upper.key,
  key_order.gt_iff j upper.key,
  key_order.ge_iff k upper.key,
  key_order.ge_iff j upper.key,
  key_lt_trans upper.key k j,
  key_lt_trans k j upper.key,
)

before_mono :
    (lower : Bound) (k j : Bytes)
    → before lower k ≡ false
    → key_lt k j ≡ true
    → before lower j ≡ false
unfolding before
before_mono lower k j p l = ground (
  arith,
  key_order.le_iff k lower.key,
  key_order.le_iff j lower.key,
  key_lt_trans lower.key k j,
  key_lt_trans k j lower.key,
)

-- Past the upper bound nothing is in range.
in_range-past :
    (lower upper : Bound) (k : Bytes) (es : List (Bytes × Bytes))
    → past upper k ≡ true
    → Above k es
    → in_range lower upper es ≡ []
unfolding in_range
in_range-past lower upper k [] p a = refl
in_range-past lower upper k (e ∷ es) p a =
    ground (arith, past_mono upper k e.0 p a.0, in_range-past lower upper k es p a.1)

-- From the lower bound on, the loop collects what is in range.
collect-in_range :
    (lower upper : Bound) (es : List (Bytes × Bytes)) (k : Bytes)
    → before lower k ≡ false
    → Above k es
    → IsSorted es
    → collect upper es ≡ in_range lower upper es
unfolding collect in_range
collect-in_range lower upper [] k b a s = refl
collect-in_range lower upper (e ∷ es) k b a s =
    let be = before_mono lower k e.0 b a.0 in
    ground (
      arith,
      be,
      in_range-past lower upper e.0 es,
      s.0,
      collect-in_range lower upper es e.0 be s.0 s.1,
    )

start-before :
    (lower : Bound) (e : Bytes × Bytes) (es : List (Bytes × Bytes))
    → before lower e.0 ≡ true
    → start lower (e ∷ es) ≡ start lower es
unfolding start before lower_bound upper_bound
start-before lower e es b = ground arith

start_within :
    (lower : Bound) (e : Bytes × Bytes) (es : List (Bytes × Bytes))
    → before lower e.0 ≡ false
    → start lower (e ∷ es) ≡ e ∷ es
unfolding start before lower_bound upper_bound
start_within lower e es b = ground arith

start_nil : (lower : Bound) → start lower [] ≡ []
unfolding start lower_bound upper_bound
start_nil lower = ground arith

snapshot-in_range :
    (lower upper : Bound) (es : List (Bytes × Bytes))
    → IsSorted es
    → collect upper (start lower es) ≡ in_range lower upper es
unfolding in_range
snapshot-in_range lower upper [] s = rw (start_nil lower) (unfold collect in refl)
snapshot-in_range lower upper (e ∷ es) s = elim (Bool-cases (before lower e.0)) [
  | inl b ↦ rw (start-before lower e es b, b) (snapshot-in_range lower upper es s.1)
  | inr w ↦ rw (start_within lower e es w) (
      unfold collect in
      ground (
        arith,
        w,
        in_range-past lower upper e.0 es,
        s.0,
        collect-in_range lower upper es e.0 w s.0 s.1,
      ))
]

-- An iterator `i` entries into its snapshot yields the rest of it.
drop-Yields :
    (whole rest : List (Bytes × Bytes)) (i : ℕ)
    → drop i whole ≡ rest
    → Yields ops (record { snapshot = whole; idx = i }) rest
unfolding is_valid next entry_at
drop-Yields whole [] i e = le→ltb i (length whole) (omega (arith, ap length e, length-drop i whole))
drop-Yields whole (r ∷ rest) i e =
    let at : get_elem? whole i ≡ some r = get_elem?_of_drop i whole rest r e in
    let more : ltb i (length whole) ≡ true =
      lt→ltb i (length whole) (omega (arith, ap length e, length-drop i whole)) in
    let one : i + 1 ≡ suc i = omega arith in
    (
      more,
      ap (λ o. (entry_or o).0) at,
      ap (λ o. (entry_or o).1) at,
      rw (more, one) (drop-Yields whole rest (suc i) (drop_next i whole rest r e)),
    )

-- On a memtable with ascending keys, MemTable::scan yields in key order exactly the entries
-- whose key is within both bounds.
pub scan-Yields :
    (t : MemTable) (lower upper : Bound)
    → IsSorted t.entries
    → Yields ops (scan t lower upper) (in_range lower upper t.entries)
unfolding scan
scan-Yields t lower upper s =
    drop-Yields (collect upper (start lower t.entries)) (in_range lower upper t.entries) 0
      (snapshot-in_range lower upper t.entries s)
