-- ===== src/Compact/Levels.antt =====
-- The list of levels, indexed by a level's number, which starts at 1.
use mini_lsm_cpp.Prelude.{
  ℕ, zero, suc, ◌+◌, ◌≡◌, ◌≢◌, refl, ap, List, [], ◌∷◌, ◌++◌, Option, none, some, some-injective,
  arith, count, count-append,
}
use mini_lsm_cpp.State.{Level}

-- levels[level - 1].second. Level 0 wraps around to an index out of range.
unfoldable pub level_files : List Level → ℕ → Option (List ℕ)
level_files [] level = none
level_files (l ∷ levels) zero = none
level_files ((n, files) ∷ levels) (suc zero) = some files
level_files (l ∷ levels) (suc (suc i)) = level_files levels (suc i)

-- levels[level - 1].second = files, at a level that is there.
unfoldable pub set_level_files : List Level → ℕ → List ℕ → List Level
set_level_files [] level files = []
set_level_files (l ∷ levels) zero files = l ∷ levels
set_level_files ((n, old) ∷ levels) (suc zero) files = (n, files) ∷ levels
set_level_files (l ∷ levels) (suc (suc i)) files = l ∷ set_level_files levels (suc i) files

-- The tables of all levels.
abbrev pub all_files : List Level → List ℕ
all_files [] = []
all_files ((n, files) ∷ levels) = files ++ all_files levels

-- A level's new files replace its old ones, and no other level's.
pub count-set_level_files :
    (a : ℕ) (levels : List Level) (level : ℕ) (files : List ℕ) {old : List ℕ}
    → level_files levels level ≡ some old
    → count a (all_files (set_level_files levels level files)) + count a old
      ≡ count a (all_files levels) + count a files
unfolding level_files set_level_files
count-set_level_files a [] level files h = cc
count-set_level_files a (l ∷ levels) zero files h = cc
count-set_level_files a ((n, old') ∷ levels) (suc zero) files h =
    let same = ap (count a) (some-injective _ _ h) in
    omega
      (arith, same, count-append a files (all_files levels), count-append a old' (all_files levels))
count-set_level_files a ((n, kept) ∷ levels) (suc (suc i)) files h = omega (
  arith,
  count-append a kept (all_files levels),
  count-append a kept (all_files (set_level_files levels (suc i) files)),
  count-set_level_files a levels (suc i) files h,
)

pub level_files-set_self :
    (levels : List Level) (level : ℕ) (files : List ℕ) {old : List ℕ}
    → level_files levels level ≡ some old
    → level_files (set_level_files levels level files) level ≡ some files
unfolding level_files set_level_files
level_files-set_self [] level files h = cc
level_files-set_self (l ∷ levels) zero files h = cc
level_files-set_self ((n, old') ∷ levels) (suc zero) files h = refl
level_files-set_self (l ∷ levels) (suc (suc i)) files h =
    level_files-set_self levels (suc i) files h

pub level_files-set_ne :
    (levels : List Level) (level other : ℕ) (files : List ℕ)
    → level ≢ other
    → level_files (set_level_files levels level files) other ≡ level_files levels other
unfolding level_files set_level_files
level_files-set_ne [] level other files h = refl
level_files-set_ne (l ∷ levels) zero other files h = refl
level_files-set_ne ((n, old) ∷ levels) (suc zero) zero files h = refl
level_files-set_ne ((n, old) ∷ levels) (suc zero) (suc zero) files h = absurd (h refl)
level_files-set_ne ((n, old) ∷ levels) (suc zero) (suc (suc j)) files h = refl
level_files-set_ne (l ∷ levels) (suc (suc i)) zero files h = refl
level_files-set_ne ((n, old) ∷ levels) (suc (suc i)) (suc zero) files h = refl
level_files-set_ne (l ∷ levels) (suc (suc i)) (suc (suc j)) files h =
    level_files-set_ne levels (suc i) (suc j) files (λ e. h (ap suc e))
