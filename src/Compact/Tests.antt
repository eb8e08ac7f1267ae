-- ===== src/Compact/Tests.antt =====
-- Two tables in L0, one in each of two levels, and the tasks that compact them.
mod SimpleTests
mod TieredTests
mod LeveledTests
mod FullTests
use mini_lsm_cpp.Prelude.{
  ℕ, Bool, true, false, ◌*◌, ◌+◌, List, [], ◌∷◌, Option, none, some, Bytes, ltb, leb, ◌==◌, not,
}
use mini_lsm_cpp.MemTable.{new}
use mini_lsm_cpp.Table.{SsTable}
use mini_lsm_cpp.State.{LsmStorageState, Level}
use mini_lsm_cpp.Compact.{Doubles}

-- Fractions, in place of doubles.
abbrev pub fractions : Doubles
fractions = record {
  Double = ℕ × ℕ;
  of_size = λ n. (n, 1);
  div = λ p q. (p.0 * q.1, p.1 * q.0);
  mul = λ p q. (p.0 * q.0, p.1 * q.1);
  add = λ p q. (p.0 * q.1 + q.0 * p.1, p.1 * q.1);
  lt = λ p q. ltb (p.0 * q.1) (q.0 * p.1);
  eq = λ p q. p.0 * q.1 == q.0 * p.1;
  le = λ p q. leb (p.0 * q.1) (q.0 * p.1);
}

abbrev table : ℕ → Bytes → Bytes → SsTable
table id first_key last_key = record {
  id = id;
  file = 1 ∷ 2 ∷ 3 ∷ [];
  first_key = first_key;
  last_key = last_key;
  block_meta = [];
  block_meta_offset = 0;
  bloom = record { filter = []; k = 1 };
}

abbrev pub tables : List (ℕ × SsTable)
tables =
    (1, table 1 (10 ∷ []) (20 ∷ []))
    ∷ (2, table 2 (30 ∷ []) (40 ∷ []))
    ∷ (3, table 3 (15 ∷ []) (35 ∷ []))
    ∷ (4, table 4 (50 ∷ []) (60 ∷ []))
    ∷ (5, table 5 (10 ∷ []) (60 ∷ []))
    ∷ []

abbrev pub state_of : List ℕ → List Level → LsmStorageState
state_of l0 levels = record {
  memtable = new 9 none;
  imm_memtables = [];
  l0_sstables = l0;
  levels = levels;
  sstables = tables;
}

abbrev pub before : LsmStorageState
before = state_of (4 ∷ 3 ∷ []) ((1, 1 ∷ []) ∷ (2, 2 ∷ []) ∷ [])
