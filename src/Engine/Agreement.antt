-- ===== src/Engine/Agreement.antt =====
-- src/compact.cpp, src/compact/*.cpp: what a compaction does to L0 and the levels hangs on nothing
-- else in the state, unless the controller is the leveled one.
use mini_lsm_cpp.Prelude.{
  ℕ, Bool, false, List, [], Option, none, some, ◌>>=◌, ◌≡◌, refl, sym, subst₂, Bool-cases,
  Option-cases, inl, inr, list_eq, is_nil,
}
use mini_lsm_cpp.State.{LsmStorageState, Level}
use mini_lsm_cpp.Compact.{
  CompactionTask, leveled, tiered, simple, force_full, SimpleLeveledCompactionTask,
  TieredCompactionTask,
}
use mini_lsm_cpp.Compact.Simple
use mini_lsm_cpp.Compact.Simple.{clear_upper, replace_lower}
use mini_lsm_cpp.Compact.Tiered
use mini_lsm_cpp.Compact.Tiered.{sweep, to_remove, is_empty}
use mini_lsm_cpp.Compact.TakeOut.{to_set, take_out}
use mini_lsm_cpp.Compact.Levels.{level_files}
use mini_lsm_cpp.Compact.Controller.{
  CompactionController, of_leveled, of_tiered, of_simple, of_none, apply_force_full,
  apply_compaction_result,
}

-- Two states with the same L0 and the same levels.
abbrev pub SameTables : LsmStorageState → LsmStorageState → Type 0
SameTables s t = (s.l0_sstables ≡ t.l0_sstables) × (s.levels ≡ t.levels)

abbrev pub SameResult :
    Option (LsmStorageState × List ℕ) → Option (LsmStorageState × List ℕ) → Type 0
SameResult none none = Unit {0}
SameResult none (some r) = ⊥
SameResult (some r) none = ⊥
SameResult (some r) (some q) = SameTables r.0 q.0

then_step :
    (o p : Option (LsmStorageState × List ℕ))
    (f g : LsmStorageState × List ℕ → Option (LsmStorageState × List ℕ))
    → SameResult o p
    → ((r q : LsmStorageState × List ℕ) → SameTables r.0 q.0 → SameResult (f r) (g q))
    → SameResult (o >>= f) (p >>= g)
then_step none none f g s h = tt
then_step none (some q) f g s h = absurd s
then_step (some r) none f g s h = absurd s
then_step (some r) (some q) f g s h = h r q s

-- The state with another L0 and other levels.
abbrev with_tables : LsmStorageState → List ℕ → List Level → LsmStorageState
with_tables s l0 levels = record s { l0_sstables = l0; levels = levels }

same_tables :
    (R : LsmStorageState → LsmStorageState → Type 0) (s t : LsmStorageState)
    → SameTables s t
    → ((l0 : List ℕ) (levels : List Level) → R (with_tables s l0 levels) (with_tables t l0 levels))
    → R s t
same_tables R s t (e, f) h =
    subst₂ (λ l0 levels. R (with_tables s l0 levels) t) (sym e) (sym f) (h t.l0_sstables t.levels)

module _ (s t : LsmStorageState) (l0 : List ℕ) (levels : List Level) where
  abbrev s' : LsmStorageState
  s' = with_tables s l0 levels

  abbrev t' : LsmStorageState
  t' = with_tables t l0 levels

  clear_upper-same :
      (upper : Option ℕ) (ids : List ℕ)
      → SameResult (clear_upper s' upper ids) (clear_upper t' upper ids)
  unfolding clear_upper
  clear_upper-same none ids = elim (Bool-cases (is_nil (take_out (to_set ids) l0).1)) [
    | inl e ↦ rw e (refl, refl)
    | inr e ↦ rw e tt
  ]
  clear_upper-same (some upper) ids = elim (Option-cases (level_files levels upper)) [
    | inl e ↦ rw e tt
    | inr (files, e) ↦ elim (Bool-cases (list_eq ids files)) [
      | inl same ↦ rw (e, same) (refl, refl)
      | inr other ↦ rw (e, other) tt
    ]
  ]

  replace_lower-same :
      (removed removed' : List ℕ) (lower : ℕ) (ids output : List ℕ)
      → SameResult
          (replace_lower s' removed lower ids output)
          (replace_lower t' removed' lower ids output)
  unfolding replace_lower
  replace_lower-same removed removed' lower ids output =
      elim (Option-cases (level_files levels lower)) [
        | inl e ↦ rw e tt
        | inr (files, e) ↦ elim (Bool-cases (list_eq ids files)) [
          | inl same ↦ rw (e, same) (refl, refl)
          | inr other ↦ rw (e, other) tt
        ]
      ]

  tiered-same :
      (task : TieredCompactionTask) (output : List ℕ)
      → SameResult
          (Tiered.apply_compaction_result s' task output)
          (Tiered.apply_compaction_result t' task output)
  unfolding Tiered.apply_compaction_result
  tiered-same task output = elim (Bool-cases (is_nil l0)) [
    | inr e ↦ rw e tt
    | inl e ↦ elim (Option-cases (sweep output (to_remove [] task.tiers) false levels)) [
      | inl f ↦ rw (e, f) tt
      | inr (r, f) ↦ elim (Bool-cases (is_empty r.left)) [
        | inl g ↦ rw (e, f, g) (refl, refl)
        | inr g ↦ rw (e, f, g) tt
      ]
    ]
  ]

simple-same :
    (s t : LsmStorageState) (l0 : List ℕ) (levels : List Level) (task : SimpleLeveledCompactionTask)
    (output : List ℕ)
    → SameResult
        (Simple.apply_compaction_result (with_tables s l0 levels) task output)
        (Simple.apply_compaction_result (with_tables t l0 levels) task output)
unfolding Simple.apply_compaction_result
simple-same s t l0 levels task output =
    then_step (clear_upper (with_tables s l0 levels) task.upper_level task.upper_level_sst_ids)
      (clear_upper (with_tables t l0 levels) task.upper_level task.upper_level_sst_ids)
      (λ r. replace_lower r.0 r.1 task.lower_level task.lower_level_sst_ids output)
      (λ r. replace_lower r.0 r.1 task.lower_level task.lower_level_sst_ids output)
      (clear_upper-same s t l0 levels task.upper_level task.upper_level_sst_ids)
      (λ r q same.
        same_tables
          (λ a b.
            SameResult (replace_lower a r.1 task.lower_level task.lower_level_sst_ids output)
              (replace_lower b q.1 task.lower_level task.lower_level_sst_ids output))
          r.0 q.0 same
          (λ a b.
            replace_lower-same r.0 q.0 a b r.1 q.1 task.lower_level task.lower_level_sst_ids
              output))

-- The leveled controller also reads the key ranges of the tables.
abbrev pub IsUnsorted : CompactionController → Type 0
IsUnsorted (of_leveled options) = ⊥
IsUnsorted _ = Unit

apply-same_tables :
    (c : CompactionController) (s t : LsmStorageState) (l0 : List ℕ) (levels : List Level)
    (task : CompactionTask) (output : List ℕ) (in_recovery in_recovery' : Bool)
    → IsUnsorted c
    → SameResult
        (apply_compaction_result c (with_tables s l0 levels) task output in_recovery)
        (apply_compaction_result c (with_tables t l0 levels) task output in_recovery')
unfolding apply_compaction_result apply_force_full
apply-same_tables c s t l0 levels (force_full fft) output b b' u = (refl, refl)
apply-same_tables (of_leveled options) s t l0 levels task output b b' u = absurd u
apply-same_tables (of_tiered options) s t l0 levels (tiered task) output b b' u =
    tiered-same s t l0 levels task output
apply-same_tables (of_simple options) s t l0 levels (simple task) output b b' u =
    simple-same s t l0 levels task output
apply-same_tables (of_tiered options) s t l0 levels (simple task) output b b' u = tt
apply-same_tables (of_tiered options) s t l0 levels (leveled task) output b b' u = tt
apply-same_tables (of_simple options) s t l0 levels (tiered task) output b b' u = tt
apply-same_tables (of_simple options) s t l0 levels (leveled task) output b b' u = tt
apply-same_tables of_none s t l0 levels (simple task) output b b' u = tt
apply-same_tables of_none s t l0 levels (leveled task) output b b' u = tt
apply-same_tables of_none s t l0 levels (tiered task) output b b' u = tt

pub apply-same :
    (c : CompactionController) (s t : LsmStorageState) (task : CompactionTask) (output : List ℕ)
    (in_recovery in_recovery' : Bool)
    → IsUnsorted c
    → SameTables s t
    → SameResult
        (apply_compaction_result c s task output in_recovery)
        (apply_compaction_result c t task output in_recovery')
apply-same c s t task output b b' u same =
    same_tables
      (λ x y.
        SameResult (apply_compaction_result c x task output b)
          (apply_compaction_result c y task output b'))
      s t same (λ l0 levels. apply-same_tables c s t l0 levels task output b b' u)
