-- ===== src/Compact.antt =====
-- include/mini_lsm/compact.h, src/compact.cpp and src/compact/*.cpp: compaction tasks, and the
-- controllers that choose a task and apply its result to the state.
-- An assertion that fails, a level index out of range and an exception are `none`. A comparison of
-- doubles is a parameter (`Doubles`), since the model has no floating point.
pub mod TakeOut
pub mod Outside
pub mod Levels
pub mod Simple
pub mod Tiered
pub mod Leveled
pub mod Controller
mod Tests
use mini_lsm_cpp.Prelude.{ℕ, Bool, true, List, Option}
use mini_lsm_cpp.State.{Level}

pub record SimpleLeveledCompactionTask : Type 0 where
  pub upper_level : Option ℕ
  pub upper_level_sst_ids : List ℕ
  pub lower_level : ℕ
  pub lower_level_sst_ids : List ℕ
  pub is_lower_level_bottom_level : Bool

pub record LeveledCompactionTask : Type 0 where
  pub upper_level : Option ℕ
  pub upper_level_sst_ids : List ℕ
  pub lower_level : ℕ
  pub lower_level_sst_ids : List ℕ
  pub is_lower_level_bottom_level : Bool

pub record TieredCompactionTask : Type 0 where
  pub tiers : List Level
  pub bottom_tier_included : Bool

pub record ForceFullCompactionTask : Type 0 where
  pub l0_sstables : List ℕ
  pub l1_sstables : List ℕ

pub data CompactionTask : Type 0 where
  leveled : LeveledCompactionTask → CompactionTask
  tiered : TieredCompactionTask → CompactionTask
  simple : SimpleLeveledCompactionTask → CompactionTask
  force_full : ForceFullCompactionTask → CompactionTask

unfoldable pub compact_to_bottom_level : CompactionTask → Bool
compact_to_bottom_level (force_full _) = true
compact_to_bottom_level (leveled t) = t.is_lower_level_bottom_level
compact_to_bottom_level (simple t) = t.is_lower_level_bottom_level
compact_to_bottom_level (tiered t) = t.bottom_tier_included

-- Double arithmetic, as the controllers use it on sizes and options.
pub record Doubles : Type 1 where
  pub Double : Type 0
  pub of_size : ℕ → Double
  pub div : Double → Double → Double
  pub mul : Double → Double → Double
  pub add : Double → Double → Double
  pub lt : Double → Double → Bool
  pub eq : Double → Double → Bool
  pub le : Double → Double → Bool
