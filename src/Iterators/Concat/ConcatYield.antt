-- ===== src/Iterators/Concat/ConcatYield.antt =====
-- src/iterators/concat_iterator.cpp: the run that SstConcatIterator yields.
use mini_lsm_cpp.Prelude.{
  ℕ, suc, ◌+◌, true, false, List, [], ◌∷◌, ◌++◌, none, some, Bytes, ◌≡◌, refl, sym, ap, ◌∙◌, subst,
  drop, drop_next, arith,
}
use mini_lsm_cpp.Table.{SsTable}
use mini_lsm_cpp.Iterators.{StorageIterator, Yields}
use mini_lsm_cpp.Iterators.Concat.{
  SstConcatIterator, check_each, check_pairs, check_sst_valid, move_over, move_until_valid,
  start_first, create_and_seek_to_first, next, ops,
}

abbrev pub concat : List (List (Bytes × Bytes)) → List (Bytes × Bytes)
concat [] = []
concat (run ∷ runs) = run ++ concat runs

module _ {I : Type 0} (iter_ops : StorageIterator I) (seek_to_first : SsTable → I) where
  -- The iterator over each table yields the run at its place.
  abbrev pub TablesYield : List SsTable → List (List (Bytes × Bytes)) → Type 0
  TablesYield [] [] = Unit {0}
  TablesYield [] (run ∷ runs) = ⊥
  TablesYield (t ∷ tables) [] = ⊥
  TablesYield (t ∷ tables) (run ∷ runs) =
      Yields iter_ops (seek_to_first t) run × TablesYield tables runs

  abbrev at : I → ℕ → List SsTable → SstConcatIterator I
  at c idx tables = record { current = some c; next_sst_idx = idx; sstables = tables }

  -- From the current table's iterator on, with the tables `rest` behind it.
  abbrev YieldsFrom : List SsTable → List (Bytes × Bytes) → Type 0
  YieldsFrom rest after =
      (run : List (Bytes × Bytes)) (c : I) (idx : ℕ) (tables : List SsTable)
      → drop idx tables ≡ rest
      → Yields iter_ops c run
      → Yields (ops iter_ops seek_to_first)
          (move_over iter_ops seek_to_first rest (at c idx tables)) (run ++ after)

  -- A valid current iterator shows its entry, and goes on.
  shows :
      (rest : List SsTable) (x : Bytes × Bytes) (run after : List (Bytes × Bytes)) (c : I) (idx : ℕ)
      (tables : List SsTable)
      → drop idx tables ≡ rest
      → Yields iter_ops c (x ∷ run)
      → Yields
          (ops iter_ops seek_to_first)
          (move_over iter_ops seek_to_first rest (at (iter_ops.next c) idx tables))
          (run ++ after)
      → Yields (ops iter_ops seek_to_first) (at c idx tables) (x ∷ (run ++ after))
  unfolding ops next move_until_valid
  shows rest x run after c idx tables e (valid, k, v, _) y = (valid, k, v, rw (valid, e) y)

  stays :
      (rest : List SsTable) (c : I) (idx : ℕ) (tables : List SsTable)
      → iter_ops.is_valid c ≡ true
      → move_over iter_ops seek_to_first rest (at c idx tables) ≡ at c idx tables
  unfolding move_over
  stays [] c idx tables v = rw v
  stays (t ∷ rest) c idx tables v = rw v

  ended :
      (c : I) (idx : ℕ) (tables : List SsTable)
      → iter_ops.is_valid c ≡ false
      → move_over iter_ops seek_to_first [] (at c idx tables)
        ≡ record { current = none; next_sst_idx = idx; sstables = tables }
  unfolding move_over
  ended c idx tables v = rw v

  moves :
      (t : SsTable) (rest : List SsTable) (c : I) (idx : ℕ) (tables : List SsTable)
      → iter_ops.is_valid c ≡ false
      → move_over iter_ops seek_to_first (t ∷ rest) (at c idx tables)
        ≡ move_over iter_ops seek_to_first rest (at (seek_to_first t) (idx + 1) tables)
  unfolding move_over
  moves t rest c idx tables v = rw v

  -- The current table's run, with what is shown once it ends.
  over_run :
      (rest : List SsTable) (after : List (Bytes × Bytes))
      → ((c : I) (idx : ℕ) (tables : List SsTable)
          → drop idx tables ≡ rest
          → iter_ops.is_valid c ≡ false
          → Yields
              (ops iter_ops seek_to_first)
              (move_over iter_ops seek_to_first rest (at c idx tables))
              after)
      → YieldsFrom rest after
  over_run rest after h [] c idx tables e y = h c idx tables e y
  over_run rest after h (x ∷ run) c idx tables e y =
      subst (λ it. Yields (ops iter_ops seek_to_first) it (x ∷ (run ++ after)))
        (sym (stays rest c idx tables y.0))
        (shows rest x run after c idx tables e y
          (over_run rest after h run (iter_ops.next c) idx tables e y.3))

  over_tables :
      (rest : List SsTable) (runs : List (List (Bytes × Bytes)))
      → TablesYield rest runs
      → YieldsFrom rest (concat runs)
  unfolding concat ops
  over_tables [] [] y = over_run [] [] (λ c idx tables e v.
      subst (λ it. Yields (ops iter_ops seek_to_first) it []) (sym (ended c idx tables v)) refl)
  over_tables [] (run ∷ runs) y = absurd y
  over_tables (t ∷ rest) [] y = absurd y
  over_tables (t ∷ rest) (run ∷ runs) y =
      over_run (t ∷ rest) (run ++ concat runs) (λ c idx tables e v.
        let one : idx + 1 ≡ suc idx = omega arith in
        let dropped : drop (idx + 1) tables ≡ rest =
          ap (λ n. drop n tables) one ∙ drop_next idx tables rest t e in
        subst (λ it. Yields (ops iter_ops seek_to_first) it (run ++ concat runs))
          (sym (moves t rest c idx tables v))
          (over_tables rest runs y.1 run (seek_to_first t) (idx + 1) tables dropped y.0))

  start_first-Yields :
      (tables : List SsTable) (runs : List (List (Bytes × Bytes)))
      → TablesYield tables runs
      → Yields
          (ops iter_ops seek_to_first)
          (start_first iter_ops seek_to_first tables)
          (concat runs)
  unfolding ops move_until_valid concat
  start_first-Yields [] [] y = refl
  start_first-Yields [] (run ∷ runs) y = absurd y
  start_first-Yields (t ∷ tables) [] y = absurd y
  start_first-Yields (t ∷ tables) (run ∷ runs) y =
      over_tables tables runs y.1 run (seek_to_first t) 1 (t ∷ tables) refl y.0

  -- Over tables whose first key is not past their last one and whose last key is below the first
  -- one of the next, SstConcatIterator::create_and_seek_to_first makes an iterator that yields
  -- the runs of the tables one after the other.
  pub create_and_seek_to_first-Yields :
      (tables : List SsTable) (runs : List (List (Bytes × Bytes)))
      → check_each tables ≡ true
      → check_pairs tables ≡ true
      → TablesYield tables runs
      → (it : SstConcatIterator I) × (create_and_seek_to_first iter_ops seek_to_first tables
          ≡ some it)
        × Yields (ops iter_ops seek_to_first) it (concat runs)
  unfolding create_and_seek_to_first check_sst_valid
  create_and_seek_to_first-Yields tables runs each pairs y = (
    start_first iter_ops seek_to_first tables,
    rw (each, pairs),
    start_first-Yields tables runs y,
  )
