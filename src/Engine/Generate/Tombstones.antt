-- ===== src/Engine/Generate/Tombstones.antt =====
-- src/compact.cpp: compact_generate_sst_from_iter over the run that its iterator yields.
use mini_lsm_cpp.Prelude.{
  ℕ, zero, suc, ◌+◌, ◌<◌, ◌≤◌, ◌≡◌, refl, sym, ◌∙◌, Bool, true, false, List, [], ◌∷◌, ◌++◌, Option,
  none, some, ◌>>=◌, Bytes, is_nil, if◌then◌else◌, Bool-cases, inl, inr, arith, length,
  Option-cases,
}
use mini_lsm_cpp.Table.{SsTable}
use mini_lsm_cpp.Table.Builder.{Libraries, SsTableBuilder, new_table_builder, add, build, is_empty}
use mini_lsm_cpp.State.{LsmStorageOptions}
use mini_lsm_cpp.Iterators.{StorageIterator, Yields}
use mini_lsm_cpp.Engine.Generate.{
  Generating, builder_of, is_full, add_entry, finish_full_table, generate_round, finish_last,
  generate_loop, compact_generate_sst_from_iter,
}

-- The entries that are not tombstones.
abbrev pub without_tombstones : List (Bytes × Bytes) → List (Bytes × Bytes)
without_tombstones [] = []
without_tombstones (e ∷ es) =
    if is_nil e.1 then without_tombstones es else e ∷ without_tombstones es

module _ (lib : Libraries) (options : LsmStorageOptions) (creates : Bool) where
  -- The tables of a run, entry by entry.
  tables_of : Bool → List (Bytes × Bytes) → Generating → Option (List SsTable)
  tables_of bottom [] g = finish_last lib options creates bottom g g.builder
  tables_of bottom (e ∷ es) g =
      generate_round lib options creates bottom g e.0 e.1 >>= tables_of bottom es

  generate_loop-tables_of :
      {I : Type 0} (iter_ops : StorageIterator I) (bottom : Bool) (es : List (Bytes × Bytes))
      (fuel : ℕ) (iter : I) (g : Generating)
      → length es < fuel
      → Yields iter_ops iter es
      → generate_loop lib options creates bottom iter_ops fuel iter g ≡ tables_of bottom es g
  unfolding generate_loop tables_of
  generate_loop-tables_of iter_ops bottom es zero iter g h y = absurd (omega arith)
  generate_loop-tables_of iter_ops bottom [] (suc fuel) iter g h y = rw (y, generate_loop)
  generate_loop-tables_of iter_ops bottom (e ∷ es) (suc fuel) iter g h (v, k, w, y) =
      rw (v, generate_loop, k, w)
        (after (generate_round lib options creates bottom g e.0 e.1) (λ g'.
          generate_loop-tables_of iter_ops bottom es fuel (iter_ops.next iter) g' (omega arith) y))
    where
      after :
          (o : Option Generating) {f h : Generating → Option (List SsTable)}
          → ((g : Generating) → f g ≡ h g)
          → (o >>= f) ≡ (o >>= h)
      after none e = refl
      after (some g) e = e g

  abbrev with_builder : SsTableBuilder → List SsTable → ℕ → Generating
  with_builder b ssts id = record { builder = some b; new_sst = ssts; next_sst_id = id }

  abbrev without_builder : List SsTable → ℕ → Generating
  without_builder ssts id = record { builder = none; new_sst = ssts; next_sst_id = id }

  abbrev fresh : SsTableBuilder
  fresh = new_table_builder options.block_size options.compression

  fresh-is_full : is_full options fresh ≡ false
  unfolding is_full is_empty new_table_builder mini_lsm_cpp.Block.is_empty
      mini_lsm_cpp.Block.new_builder is_nil
  fresh-is_full = refl

  -- No builder is as good as a fresh one.
  tables_of-fresh :
      (bottom : Bool) (es : List (Bytes × Bytes)) (ssts : List SsTable) (id : ℕ)
      → tables_of bottom es (without_builder ssts id)
        ≡ tables_of bottom es (with_builder fresh ssts id)
  unfolding tables_of generate_round builder_of finish_last is_empty new_table_builder
      mini_lsm_cpp.Block.is_empty mini_lsm_cpp.Block.new_builder is_nil finish_full_table
  tables_of-fresh bottom [] ssts id = refl
  tables_of-fresh bottom (e ∷ es) ssts id = refl

  same_tables :
      (es : List (Bytes × Bytes)) (b : SsTableBuilder) (ssts : List SsTable) (id : ℕ)
      → is_full options b ≡ false
      → tables_of true es (with_builder b ssts id)
        ≡ tables_of false (without_tombstones es) (with_builder b ssts id)
  unfolding tables_of generate_round builder_of add_entry finish_full_table finish_last
  same_tables [] b ssts id h = refl
  same_tables (e ∷ es) b ssts id h = elim (Bool-cases (is_nil e.1)) [
    | inl dead ↦ rw (dead, h) (same_tables es b ssts id h)
    | inr live ↦ elim (Option-cases (add lib b e.0 e.1)) [
      | inl failed ↦ rw (live, failed)
      | inr (b', added) ↦ elim (Bool-cases (is_full options b')) [
        | inr room ↦ rw (live, added, room) (same_tables es b' ssts id room)
        | inl full ↦ elim (Option-cases (build lib creates id b')) [
          | inl failed ↦ rw (live, added, full, failed)
          | inr (sst, built) ↦
              rw (live, added, full, built)
                (tables_of-fresh true es (ssts ++ sst ∷ []) (id + 1)
                  ∙ same_tables es fresh (ssts ++ sst ∷ []) (id + 1) fresh-is_full
                  ∙ sym (tables_of-fresh false (without_tombstones es) (ssts ++ sst ∷ []) (id + 1)))
        ]
      ]
    ]
  ]

  -- With fuel for the entries, compact_generate_sst_from_iter on the way to the bottom level
  -- makes of a run the same tables, or the same failure, as it makes on the way to another level
  -- of the run without its tombstones.
  pub compact_generate_sst_from_iter-Yields :
      {I : Type 0} (iter_ops : StorageIterator I) (es : List (Bytes × Bytes)) (iter live : I)
      (fuel next_sst_id : ℕ)
      → length es < fuel
      → Yields iter_ops iter es
      → Yields iter_ops live (without_tombstones es)
      → compact_generate_sst_from_iter lib options creates true iter_ops fuel next_sst_id iter
        ≡ compact_generate_sst_from_iter lib options creates false iter_ops fuel next_sst_id live
  unfolding compact_generate_sst_from_iter
  compact_generate_sst_from_iter-Yields iter_ops es iter live fuel id h y z =
      generate_loop-tables_of iter_ops true es fuel iter (without_builder [] id) h y
      ∙ tables_of-fresh true es [] id
      ∙ same_tables es fresh [] id fresh-is_full
      ∙ sym (tables_of-fresh false (without_tombstones es) [] id)
      ∙ sym (
          generate_loop-tables_of iter_ops false (without_tombstones es) fuel live
            (without_builder [] id) (omega (arith, length-without_tombstones es)) z)
    where
      length-without_tombstones :
          (es : List (Bytes × Bytes)) → length (without_tombstones es) ≤ length es
      length-without_tombstones [] = omega arith
      length-without_tombstones (e ∷ es) = ground (arith, length-without_tombstones es)
