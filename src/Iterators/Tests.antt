-- ===== src/Iterators/Tests.antt =====
-- Iterators over lists of entries.
use mini_lsm_cpp.Prelude.{
  ℕ, zero, suc, ◌≡◌, ◌⊎◌, refl, Bool, true, false, ◌&&◌, List, [], ◌∷◌, some, Bytes, arith, All,
}
use mini_lsm_cpp.Key.{key_lt, key_le, key_compare, memcmp}
use mini_lsm_cpp.MemTable.SortedMap.{IsSorted, map_find}
use mini_lsm_cpp.Iterators.{StorageIterator, Yields, Bound, excluded}
use mini_lsm_cpp.Iterators.Merged.{merged, or_else}
use mini_lsm_cpp.Iterators.TwoMerge
use mini_lsm_cpp.Iterators.TwoMerge.Yield.{create-Yields}
use mini_lsm_cpp.Iterators.Merge
use mini_lsm_cpp.Iterators.Merge.Filled.{merged_all}
use mini_lsm_cpp.Iterators.Merge.Yield.{create-Yields-merged_all}
use mini_lsm_cpp.Table.{SsTable}
use mini_lsm_cpp.Iterators.Concat
use mini_lsm_cpp.Iterators.Concat.{
  SstConcatIterator, create_and_seek_to_first, check_each, check_pairs,
}
use mini_lsm_cpp.Iterators.Concat.ConcatYield.{concat, create_and_seek_to_first-Yields}
use mini_lsm_cpp.Iterators.Lsm
use mini_lsm_cpp.Iterators.Lsm.Yield.{live, create-Yields-live}
use mini_lsm_cpp.Iterators.Lsm.Fused.{Throwing, FusedIterator, is_valid, next, next-ends}

abbrev pub Entries : Type 0
Entries = List (Bytes × Bytes)

abbrev pub here : Entries → Bytes × Bytes
here [] = ([], [])
here (e ∷ es) = e

abbrev pub behind : Entries → Entries
behind [] = []
behind (e ∷ es) = es

abbrev pub some_left : Entries → Bool
some_left [] = false
some_left (e ∷ es) = true

abbrev pub list_ops : StorageIterator Entries
list_ops = record {
  is_valid = some_left;
  key = λ es. (here es).0;
  value = λ es. (here es).1;
  next = behind;
}

abbrev pub newer : Entries
newer = (1 ∷ [], 7 ∷ []) ∷ (3 ∷ [], []) ∷ []

abbrev older : Entries
older = (2 ∷ [], 8 ∷ []) ∷ (3 ∷ [], 9 ∷ []) ∷ []

newer-IsSorted : IsSorted newer
unfolding key_lt key_compare memcmp
newer-IsSorted = ((refl, tt), (tt, tt))

older-IsSorted : IsSorted older
unfolding key_lt key_compare memcmp
older-IsSorted = ((refl, tt), (tt, tt))

create-Yields_example :
    Yields
      (TwoMerge.ops list_ops list_ops)
      (TwoMerge.create list_ops list_ops newer older)
      (merged newer older)
    × IsSorted (merged newer older)
    × ((k : Bytes)
        → map_find k (merged newer older) ≡ or_else (map_find k newer) (map_find k older))
create-Yields_example =
    create-Yields list_ops list_ops newer older newer older
      (refl, refl, refl, (refl, refl, refl, refl)) (refl, refl, refl, (refl, refl, refl, refl))
      newer-IsSorted older-IsSorted

abbrev three_runs : List Entries
three_runs = newer ∷ older ∷ ((0 ∷ [], []) ∷ (2 ∷ [], 5 ∷ []) ∷ []) ∷ []

three_runs-IsSorted : All IsSorted three_runs
unfolding key_lt key_compare memcmp
three_runs-IsSorted = (newer-IsSorted, (older-IsSorted, (((refl, tt), (tt, tt)), tt)))

create-Yields-merged_all_example :
    Yields (Merge.ops list_ops) (Merge.create list_ops three_runs) (merged_all three_runs)
create-Yields-merged_all_example =
    create-Yields-merged_all list_ops three_runs three_runs
      (
        (refl, refl, refl, (refl, refl, refl, refl)),
        (
          (refl, refl, refl, (refl, refl, refl, refl)),
          ((refl, refl, refl, (refl, refl, refl, refl)), tt),
        ),
      )
      three_runs-IsSorted

abbrev below_four : Bound
below_four = record { type = excluded; key = 4 ∷ [] }

create-Yields-live_example :
    Yields (Lsm.ops list_ops 5) (Lsm.create list_ops 5 newer below_four) (live below_four newer)
create-Yields-live_example =
    create-Yields-live list_ops below_four 5 newer newer
      (refl, refl, refl, (refl, refl, refl, refl)) (omega arith)

-- The second call throws.
abbrev failing : Throwing Bool
failing = record { is_valid = λ _. true; next = λ b. (b, true) }

abbrev about_to_fail : FusedIterator Bool
about_to_fail = record { iter = some true; has_errored = false }

next-ends_example :
    (((is_valid failing about_to_fail ≡ false)
        × (next failing about_to_fail ≡ (false, about_to_fail)))
      ⊎ (is_valid failing about_to_fail ≡ true))
    × (((next failing about_to_fail).0 && is_valid failing (next failing about_to_fail).1) ≡ false)
next-ends_example = next-ends failing about_to_fail

abbrev later : Entries
later = (5 ∷ [], 1 ∷ []) ∷ []

abbrev table : ℕ → Bytes → Bytes → SsTable
table id first_key last_key = record {
  id = id;
  file = [];
  first_key = first_key;
  last_key = last_key;
  block_meta = [];
  block_meta_offset = 0;
  bloom = record { filter = []; k = 1 };
}

abbrev two_tables : List SsTable
two_tables = table 0 (1 ∷ []) (3 ∷ []) ∷ table 1 (5 ∷ []) (5 ∷ []) ∷ []

abbrev run_of : ℕ → Entries
run_of zero = newer
run_of (suc n) = later

create_and_seek_to_first-Yields_example :
    (it : SstConcatIterator Entries) × (create_and_seek_to_first list_ops
        (λ t. run_of t.id)
        two_tables
      ≡ some it)
    × Yields (Concat.ops list_ops (λ t. run_of t.id)) it (concat (newer ∷ later ∷ []))
unfolding check_each check_pairs key_lt key_le key_compare memcmp
create_and_seek_to_first-Yields_example =
    create_and_seek_to_first-Yields list_ops (λ t. run_of t.id) two_tables (newer ∷ later ∷ []) refl
      refl ((refl, refl, refl, (refl, refl, refl, refl)), ((refl, refl, refl, refl), tt))
