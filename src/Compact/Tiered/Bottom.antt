-- ===== src/Compact/Tiered/Bottom.antt =====
-- src/compact/tiered.cpp: the bottom flag of a generated task.
use mini_lsm_cpp.Prelude.{
  ℕ, ◌≤◌, ◌<◌, ◌≡◌, ◌≢◌, ap, ◌∙◌, sym, true, false, List, none, some, arith, length, length-take,
  take, le→ltb, is_nil,
}
use mini_lsm_cpp.State.{LsmStorageState, Level, TieredCompactionOptions}
use mini_lsm_cpp.Compact.{TieredCompactionTask, Doubles}
use mini_lsm_cpp.Compact.Tiered.{
  space_amplified, ratio_loop, reduce_runs, last_level, tiers_to_take, generate_compaction_task,
}

module _ (d : Doubles) (options : TieredCompactionOptions) where
  -- The last branch always claims the bottom tier, whatever it takes.
  reduce_runs_bottom :
      (levels : List Level) → (reduce_runs d options levels).bottom_tier_included ≡ true
  unfolding reduce_runs tiers_to_take
  reduce_runs_bottom levels = ground arith

  width_taken :
      (levels : List Level) (width : ℕ)
      → options.max_merge_width ≡ some width
      → width < length levels
      → tiers_to_take options levels ≡ width
  unfolding tiers_to_take
  width_taken levels width e h = rw (e, tiers_to_take) (omega arith)

  reduce_runs_tiers :
      (levels : List Level) (width : ℕ)
      → options.max_merge_width ≡ some width
      → width < length levels
      → (reduce_runs d options levels).tiers ≡ take width levels
  unfolding reduce_runs
  reduce_runs_tiers levels width e h = ap (λ n. take n levels) (width_taken levels width e h)

  -- With a merge width below the number of tiers, no table in L0 and neither trigger met, the
  -- tiered task claims to include the bottom tier although it takes only the first tiers up to
  -- that width.
  pub generate-bottom :
      (s : LsmStorageState) (width : ℕ) (last : Level)
      → options.max_merge_width ≡ some width
      → width < length s.levels
      → options.num_tiers ≤ length s.levels
      → is_nil s.l0_sstables ≡ true
      → last_level s.levels ≡ some last
      → space_amplified d options s.levels last ≡ false
      → ratio_loop d options s.levels 0 0 ≡ none
      → (task : TieredCompactionTask) × (generate_compaction_task d options s ≡ some (some task))
        × (task.bottom_tier_included ≡ true)
        × (task.tiers ≡ take width s.levels)
        × (task.tiers ≢ s.levels)
  unfolding generate_compaction_task
  generate-bottom s width last ew lw en e0 el ea er =
      let tiers = reduce_runs_tiers s.levels width ew lw in
      (
        reduce_runs d options s.levels,
        simp (e0, le→ltb (length s.levels) options.num_tiers en, el, ea, er),
        reduce_runs_bottom s.levels,
        tiers,
        λ e. absurd (omega (arith, ap length (sym tiers ∙ e), length-take width s.levels)),
      )
