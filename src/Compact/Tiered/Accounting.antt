-- ===== src/Compact/Tiered/Accounting.antt =====
-- src/compact/tiered.cpp, apply_compaction_result: where the tables are before and after it.
use mini_lsm_cpp.Prelude.{
  ℕ, ◌+◌, ◌<◌, ◌≡◌, ◌⊎◌, refl, sym, ◌∙◌, subst, ap, Bool, true, false, not, ◌&&◌, ◌||◌, List, [],
  ◌∷◌, ◌++◌, Option, none, some, some-injective, arith, ◌>>=◌, ◌>>◌, assert, >>=-eq-some,
  assert-eq-some, Option-cases, inl, inr, length, count, count-append, count-nil, list_eq,
  list_eq_sound, is_nil, if◌then◌else◌,
}
use mini_lsm_cpp.Prelude.Find
use mini_lsm_cpp.State.{LsmStorageState, Level}
use mini_lsm_cpp.Compact.{TieredCompactionTask}
use mini_lsm_cpp.Compact.Levels.{all_files}
use mini_lsm_cpp.Compact.Tiered.{
  Sweep, is_empty, new_tier, placed, sweep, to_remove, apply_compaction_result,
}

all_files-append :
    (a : ℕ) (ls ms : List Level)
    → count a (all_files (ls ++ ms)) ≡ count a (all_files ls) + count a (all_files ms)
all_files-append a [] ms = omega (arith, count-nil a)
all_files-append a ((n, files) ∷ ls) ms = omega (
  arith,
  count-append a files (all_files (ls ++ ms)),
  count-append a files (all_files ls),
  all_files-append a ls ms,
)

-- What is still to be added: the output, until the new tier is in.
abbrev pending : ℕ → Bool → List ℕ → ℕ
pending a added output = if added then 0 else count a output

count-new_tier :
    (a : ℕ) (output : List ℕ) → count a (all_files (new_tier output ∷ [])) ≡ count a output
count-new_tier a [] = refl
count-new_tier a (x ∷ output) = omega (arith, count-append a (x ∷ output) [], count-nil a)

-- Placing the new tier moves the output from what is pending to the levels.
count-placed :
    (a : ℕ) (m : List Level) (added : Bool) (output : List ℕ)
    → count a (all_files (placed (is_empty m && not added) output))
        + pending a (added || is_empty m) output
      ≡ pending a added output
count-placed a [] true output = omega (arith, count-nil a)
count-placed a [] false output = omega (arith, count-new_tier a output)
count-placed a (l ∷ m) true output = omega (arith, count-nil a)
count-placed a (l ∷ m) false output = omega (arith, count-nil a)

module _ (output : List ℕ) (m : List Level) (added : Bool) (id : ℕ) (files : List ℕ)
    (levels : List Level) where
  abbrev m' : List Level
  m' = Find.remove id m

  abbrev here : List Level
  here = placed (is_empty m' && not added) output

  abbrev rest : Option Sweep
  rest = sweep output m' (added || is_empty m') levels

  sweep_hit :
      (y : List ℕ)
      → Find.find id m ≡ some y
      → sweep output m added ((id, files) ∷ levels) ≡ (
          assert (list_eq y files)
          >> (rest >>= λ r.
              some (record { levels = here ++ r.levels; files = y ++ r.files; left = r.left })))
  unfolding sweep
  sweep_hit y e = rw (e, sweep)

  sweep_miss :
      Find.find id m ≡ none
      → sweep output m added ((id, files) ∷ levels) ≡ (
          rest >>= λ r.
          some
            (record { levels = (id, files) ∷ (here ++ r.levels); files = r.files; left = r.left }))
  unfolding sweep
  sweep_miss e = rw (e, sweep)

-- Where the loop still has to add the new tier, it still has a level or a tier to take out.
abbrev Ready : Bool → List Level → List Level → Type 0
Ready added m levels = (added ≡ true) ⊎ ((is_empty m ≡ false) ⊎ (0 < length levels))

Ready-next : (added : Bool) (m levels : List Level) → Ready (added || is_empty m) m levels
Ready-next true m levels = inl refl
Ready-next false [] levels = inl refl
Ready-next false (l ∷ m) levels = inr (inl refl)

pending_done :
    (a : ℕ) (added : Bool) (m : List Level) (output : List ℕ)
    → is_empty m ≡ true
    → Ready added m []
    → pending a added output ≡ 0
pending_done a added m output e (inl t) = rw t refl
pending_done a added m output e (inr (inl f)) = cc
pending_done a added m output e (inr (inr l)) = elim l [ ]

sweep_nil :
    (output : List ℕ) (m : List Level) (added : Bool)
    → sweep output m added [] ≡ some (record { levels = []; files = []; left = m })
unfolding sweep
sweep_nil output m added = refl

abbrev Balanced : ℕ → List ℕ → List Level → Bool → Sweep → Type 0
Balanced a output levels added r =
    count a (all_files r.levels) + count a r.files
    ≡ count a (all_files levels) + pending a added output

sweep_count :
    (a : ℕ) (output : List ℕ) (levels m : List Level) (added : Bool) (r : Sweep)
    → sweep output m added levels ≡ some r
    → is_empty r.left ≡ true
    → Ready added m levels
    → Balanced a output levels added r
sweep_count a output [] m added r h e p =
    let er = some-injective _ _ (sym (sweep_nil output m added) ∙ h) in
    let em : is_empty m ≡ true = ap (λ (q : Sweep). is_empty q.left) er ∙ e in
    subst (Balanced a output [] added) er
      (omega (arith, pending_done a added m output em p, count-nil a))
sweep_count a output ((id, files) ∷ levels) m added r h e p = elim (Option-cases (Find.find id m)) [
  | inl miss ↦
      let (q, eq, h1) =
        >>=-eq-some (rest output m added id files levels) _
          (sym (sweep_miss output m added id files levels miss) ∙ h) in
      let er = some-injective _ _ h1 in
      let ih =
        sweep_count a output levels (m' output m added id files levels) _ q eq
          (ap (λ (q : Sweep). is_empty q.left) er ∙ e) (Ready-next added _ levels) in
      subst (Balanced a output ((id, files) ∷ levels) added) er (
        omega (
          arith,
          ih,
          count-append a files (all_files levels),
          count-append a files (all_files (here output m added id files levels ++ q.levels)),
          all_files-append a (here output m added id files levels) q.levels,
          count-placed a (m' output m added id files levels) added output,
        ))
  | inr (y, hit) ↦
      let (_, same, h1) =
        >>=-eq-some (assert (list_eq y files)) _
          (sym (sweep_hit output m added id files levels y hit) ∙ h) in
      let (q, eq, h2) = >>=-eq-some (rest output m added id files levels) _ h1 in
      let er = some-injective _ _ h2 in
      let ey = list_eq_sound y files (assert-eq-some (list_eq y files) same) in
      let ih =
        sweep_count a output levels (m' output m added id files levels) _ q eq
          (ap (λ (q : Sweep). is_empty q.left) er ∙ e) (Ready-next added _ levels) in
      subst (Balanced a output ((id, files) ∷ levels) added) er (
        omega (
          arith,
          ih,
          ap (count a) ey,
          count-append a files (all_files levels),
          count-append a y q.files,
          all_files-append a (here output m added id files levels) q.levels,
          count-placed a (m' output m added id files levels) added output,
        ))
]

-- Whenever a tiered task is applied to a state with at least one tier, the tables of the new
-- state and the files to remove are, each as often, the tables of the old state and the output.
pub apply-count_tiers :
    (a : ℕ) (s : LsmStorageState) (task : TieredCompactionTask) (output : List ℕ)
    (r : LsmStorageState × List ℕ)
    → 0 < length s.levels
    → apply_compaction_result s task output ≡ some r
    → count a (all_files r.0.levels) + count a r.1 ≡ count a (all_files s.levels) + count a output
unfolding apply_compaction_result
apply-count_tiers a s task output r l h =
    let (_, _, h1) = >>=-eq-some (assert (is_nil s.l0_sstables)) _ h in
    let (q, eq, h2) = >>=-eq-some (sweep output (to_remove [] task.tiers) false s.levels) _ h1 in
    let (_, done, h3) = >>=-eq-some (assert (is_empty q.left)) _ h2 in
    subst
      (λ (r : LsmStorageState × List ℕ).
        count a (all_files r.0.levels) + count a r.1
        ≡ count a (all_files s.levels) + count a output)
      (some-injective _ _ h3)
      (sweep_count a output s.levels (to_remove [] task.tiers) false q eq
        (assert-eq-some (is_empty q.left) done) (inr (inr l)))
