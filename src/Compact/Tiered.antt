-- ===== src/Compact/Tiered.antt =====
-- src/compact/tiered.cpp. Each tier is a level whose number is its oldest table's identifier.
pub mod Accounting
pub mod Bottom
use mini_lsm_cpp.Prelude.{
  ℕ, zero, suc, ◌+◌, ◌-◌, min, Bool, true, false, not, ◌&&◌, ◌||◌, List, [], ◌∷◌, ◌++◌, Option,
  none, some, ◌>>=◌, ◌>>◌, assert, length, take, get_elem?, ltb, leb, if◌then◌else◌, list_eq,
  is_nil,
}
use mini_lsm_cpp.Prelude.Find
use mini_lsm_cpp.State.{LsmStorageState, Level, TieredCompactionOptions}
use mini_lsm_cpp.Compact.{TieredCompactionTask, Doubles}

-- `none` is a failed assertion or an index out of range, `some none` is nullopt.
abbrev pub Chosen : Type 0
Chosen = Option (Option TieredCompactionTask)

-- The tables of all levels but the last one.
unfoldable pub upper_size : List Level → ℕ
upper_size [] = 0
upper_size (l ∷ []) = 0
upper_size (l ∷ m ∷ levels) = length l.1 + upper_size (m ∷ levels)

-- levels.back()
unfoldable pub last_level : List Level → Option Level
last_level [] = none
last_level (l ∷ []) = some l
last_level (l ∷ m ∷ levels) = last_level (m ∷ levels)

unfoldable pub tiers_to_take : TieredCompactionOptions → List Level → ℕ
tiers_to_take options levels = elim options.max_merge_width [
  | none ↦ length levels
  | some width ↦ min (length levels) width
]

module _ (d : Doubles) (options : TieredCompactionOptions) where
  unfoldable pub space_amplified : List Level → Level → Bool
  space_amplified levels last =
      d.le (d.of_size options.max_size_amplification_percent)
        (d.mul (d.div (d.of_size (upper_size levels)) (d.of_size (length last.1))) (d.of_size 100))

  unfoldable pub ratio_above : ℕ → ℕ → Bool
  ratio_above next size =
      d.lt (d.div (d.add (d.of_size 100) (d.of_size options.size_ratio)) (d.of_size 100))
        (d.div (d.of_size next) (d.of_size size))

  -- for (id = 0; id < levels.size() - 1; ++id), on the levels from `id` on; the answer is how many
  -- tiers to merge.
  unfoldable pub ratio_loop : List Level → ℕ → ℕ → Option ℕ
  ratio_loop [] id size = none
  ratio_loop (l ∷ []) id size = none
  ratio_loop (l ∷ next ∷ levels) id size =
      let size' = size + length l.1 in
      let rest = ratio_loop (next ∷ levels) (id + 1) size' in
      if ratio_above (length next.1) size' && leb options.min_merge_width (id + 1)
      then some (id + 1)
      else rest

  unfoldable pub reduce_runs : List Level → TieredCompactionTask
  reduce_runs levels = record {
    tiers = take (tiers_to_take options levels) levels;
    bottom_tier_included = leb (tiers_to_take options levels) (length levels);
  }

  unfoldable pub generate_compaction_task : LsmStorageState → Chosen
  unfolding ratio_loop reduce_runs
  generate_compaction_task snapshot = do
    let levels = snapshot.levels
    assert (is_nil snapshot.l0_sstables)
    if ltb (length levels) options.num_tiers then some none else do
      last ← last_level levels
      some (
          some (
            if space_amplified levels last
            then record { tiers = levels; bottom_tier_included = true }
            else elim (ratio_loop levels 0 0) [
              | some n ↦ record { tiers = take n levels; bottom_tier_included = false }
              | none ↦ reduce_runs levels
            ]))

-- for (auto& [x, y] : tiers) tier_to_remove[x] = y
unfoldable pub to_remove : List Level → List Level → List Level
to_remove m [] = m
to_remove m ((x, y) ∷ tiers) = to_remove (Find.insert x y m) tiers

abbrev pub is_empty : List Level → Bool
is_empty [] = true
is_empty (l ∷ m) = false

abbrev pub new_tier : List ℕ → Level
new_tier [] = (0, [])
new_tier (x ∷ output) = (x, x ∷ output)

-- What the loop has built from a level on: new levels, files to remove, what is left of the map.
pub record Sweep : Type 0 where
  pub levels : List Level
  pub files : List ℕ
  pub left : List Level

-- The new tier goes in behind the level after which the map is empty for the first time.
abbrev pub placed : Bool → List ℕ → List Level
placed true output = new_tier output ∷ []
placed false output = []

unfoldable pub sweep : List ℕ → List Level → Bool → List Level → Option Sweep
sweep output m added [] = some (record { levels = []; files = []; left = m })
sweep output m added ((tier_id, files) ∷ levels) =
    let m' = Find.remove tier_id m in
    let rest = sweep output m' (added || is_empty m') levels in
    let here = placed (is_empty m' && not added) output in
    elim (Find.find tier_id m) [
      | some y ↦ do
        assert (list_eq y files)
        r ← rest
        some (record { levels = here ++ r.levels; files = y ++ r.files; left = r.left })
      | none ↦ do
        r ← rest
        some (record {
          levels = (tier_id, files) ∷ (here ++ r.levels);
          files = r.files;
          left = r.left;
        })
    ]

unfoldable pub apply_compaction_result :
    LsmStorageState → TieredCompactionTask → List ℕ → Option (LsmStorageState × List ℕ)
unfolding to_remove sweep
apply_compaction_result snapshot task output = do
  assert (is_nil snapshot.l0_sstables)
  r ← sweep output (to_remove [] task.tiers) false snapshot.levels
  assert (is_empty r.left)
  some (record snapshot { levels = r.levels }, r.files)
