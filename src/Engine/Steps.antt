-- ===== src/Engine/Steps.antt =====
-- src/lsm_storage.cpp and src/compact.cpp: each step of a running store keeps its manifest true.
use mini_lsm_cpp.Prelude.{
  ℕ, true, false, List, [], ◌∷◌, Option, none, some, ◌≡◌, refl, sym, ap, subst, Bytes, Bool-cases,
  inl, inr, leb, >>=-eq-some, some-injective,
}
use mini_lsm_cpp.MemTable.{MemTable}
use mini_lsm_cpp.MemTable
use mini_lsm_cpp.Table.{SsTable}
use mini_lsm_cpp.Table.Builder.{Libraries}
use mini_lsm_cpp.State.{LsmStorageOptions, LsmStorageState}
use mini_lsm_cpp.Compact.{CompactionTask, force_full, ForceFullCompactionTask}
use mini_lsm_cpp.Compact.Controller.{
  CompactionController, flush_to_l0, apply_compaction_result, apply_force_full, erase_all, new_l0,
  replace_first_level,
}
use mini_lsm_cpp.Json.{JsonLibrary}
use mini_lsm_cpp.Json.Records.{flush, new_memtable, compaction}
use mini_lsm_cpp.Engine.{
  LsmStorageInner, Answers, add_to_manifest, add_flushed, force_freeze_memtable, put, last_imm,
  flushed, write_table, flush_memtable, force_flush_next_imm_memtable,
}
use mini_lsm_cpp.Engine.Compaction.{ids, insert_all, finish_compaction, finish_full}
use mini_lsm_cpp.Engine.Opening.{replay_record, max_all}
use mini_lsm_cpp.Engine.Agreement.{SameTables, SameResult, IsUnsorted, apply-same}
use mini_lsm_cpp.Engine.Logged.{
  controller, Takes, Step, freeze, write, flush_one, compact_some, compact_all, Reach, here, next,
  IsLogged, log_step,
}

module _ (lib : Libraries) (J : JsonLibrary) where
  force_freeze_memtable-IsLogged :
      (options : LsmStorageOptions) (a : Answers) (s : LsmStorageInner)
      → Takes lib J a (new_memtable s.next_sst_id)
      → IsLogged lib J options s
      → IsLogged lib J options (force_freeze_memtable lib J a s)
  unfolding force_freeze_memtable replay_record
  force_freeze_memtable-IsLogged options a s t l =
      log_step lib J options a s _ (new_memtable s.next_sst_id) l t refl refl
        (λ rp same. (_, refl, same))

  -- A change of the memtable alone.
  memtable-IsLogged :
      (options : LsmStorageOptions) (s : LsmStorageInner) (t : MemTable)
      → IsLogged lib J options s
      → IsLogged lib J options (record s { state = record s.state { memtable = t } })
  memtable-IsLogged options s t l = record {
    records = l.records;
    replayed = l.replayed;
    manifest = l.manifest;
    written = l.written;
    owner = l.owner;
    replays = l.replays;
    same = l.same;
  }

  put-IsLogged :
      (options : LsmStorageOptions) (a : Answers) (s : LsmStorageInner) (key value : Bytes)
      → Takes lib J a (new_memtable s.next_sst_id)
      → IsLogged lib J options s
      → IsLogged lib J options (put lib J a s key value)
  unfolding put
  put-IsLogged options a s key value t l =
      let m = (MemTable.put lib.crc32 a.wal_written s.state.memtable key value).1 in
      let s' = record s { state = record s.state { memtable = m } } in
      elim (Bool-cases (leb s.options.target_sst_size m.approximate_size)) [
        | inl e ↦
            rw e (force_freeze_memtable-IsLogged options a s' t (memtable-IsLogged options s m l))
        | inr e ↦ rw e (memtable-IsLogged options s m l)
      ]

  add_flushed-same :
      (c : CompactionController) (s t : LsmStorageState) (id : ℕ)
      → SameTables s t
      → SameTables (add_flushed c s id) (add_flushed c t id)
  unfolding add_flushed
  add_flushed-same c s t id (e, f) = elim (Bool-cases (flush_to_l0 c)) [
    | inl b ↦ rw b (ap (◌∷◌ id) e, f)
    | inr b ↦ rw b (e, ap (◌∷◌ (id, id ∷ [])) f)
  ]

  flushed-IsLogged :
      (options : LsmStorageOptions) (a : Answers) (s : LsmStorageInner) (imms : List MemTable)
      (id : ℕ) (sst : SsTable)
      → Takes lib J a (flush id)
      → IsLogged lib J options s
      → IsLogged lib J options (flushed lib J a s imms id sst)
  unfolding flushed replay_record
  flushed-IsLogged options a s imms id sst t l =
      let popped = record s.state { imm_memtables = imms } in
      log_step lib J options a s _ (flush id) l t refl refl (λ rp same. (
        _,
        refl,
        subst
            (λ c.
              SameTables (add_flushed c popped id) (add_flushed (controller options) rp.state id))
            (sym l.owner) (add_flushed-same (controller options) popped rp.state id same),
      ))

  flush_memtable-IsLogged :
      (options : LsmStorageOptions) (a : Answers) (s s' : LsmStorageInner)
      (o : Option (List MemTable × MemTable))
      → ((imms : List MemTable) (t : MemTable) → o ≡ some (imms, t) → Takes lib J a (flush t.id))
      → flush_memtable lib J a s o ≡ some s'
      → IsLogged lib J options s
      → IsLogged lib J options s'
  unfolding flush_memtable
  flush_memtable-IsLogged options a s s' none t e l =
      subst (IsLogged lib J options) (some-injective s s' e) l
  flush_memtable-IsLogged options a s s' (some (imms, m)) t e l =
      let (sst, _, e2) =
        >>=-eq-some (write_table lib J a s m) (λ sst. some (flushed lib J a s imms m.id sst)) e in
      subst (IsLogged lib J options) (some-injective (flushed lib J a s imms m.id sst) s' e2)
        (flushed-IsLogged options a s imms m.id sst (t imms m refl) l)

  same_some :
      (r : LsmStorageState × List ℕ) (o p : Option (LsmStorageState × List ℕ))
      → o ≡ some r
      → SameResult o p
      → (q : LsmStorageState × List ℕ) × (p ≡ some q) × SameTables r.0 q.0
  same_some r none p e h = cc
  same_some r (some x) none e h = absurd h
  same_some r (some x) (some q) e h =
      (q, refl, subst (λ y. SameTables y.0 q.0) (some-injective x r e) h)

  finish_compaction-IsLogged :
      (options : LsmStorageOptions) (a : Answers) (s s' : LsmStorageInner) (task : CompactionTask)
      (ssts : List SsTable)
      → IsUnsorted (controller options)
      → Takes lib J a (compaction task (ids ssts))
      → finish_compaction lib J a s task ssts ≡ some s'
      → IsLogged lib J options s
      → IsLogged lib J options s'
  unfolding finish_compaction replay_record
  finish_compaction-IsLogged options a s s' task ssts u t e l =
      let next_state = record s.state { sstables = insert_all ssts s.state.sstables } in
      let (r, e1, e2) =
        >>=-eq-some
          (apply_compaction_result s.compaction_controller next_state task (ids ssts) false)
          (λ r. some (
            add_to_manifest lib J a
              (record s { state = record r.0 { sstables = erase_all r.1 r.0.sstables } })
              (compaction task (ids ssts))))
          e in
      let e3 : apply_compaction_result (controller options) next_state task (ids ssts) false
          ≡ some r =
        subst (λ c. apply_compaction_result c next_state task (ids ssts) false ≡ some r) l.owner
          e1 in
      subst (IsLogged lib J options)
        (some-injective
          (add_to_manifest lib J a
            (record s { state = record r.0 { sstables = erase_all r.1 r.0.sstables } })
            (compaction task (ids ssts)))
          s' e2)
        (log_step lib J options a s _ (compaction task (ids ssts)) l t refl refl (λ rp same.
          let (q, eq, agree) =
            same_some r
              (apply_compaction_result (controller options) next_state task (ids ssts) false)
              (apply_compaction_result (controller options) rp.state task (ids ssts) true) e3
              (apply-same (controller options) next_state rp.state task (ids ssts) false true u
                same) in
          (record rp { state = q.0; next_id = max_all rp.next_id (ids ssts) }, rw eq, agree)))

  finish_full-IsLogged :
      (options : LsmStorageOptions) (a : Answers) (s : LsmStorageInner)
      (t : ForceFullCompactionTask) (ssts : List SsTable)
      → Takes lib J a (compaction (force_full t) (ids ssts))
      → IsLogged lib J options s
      → IsLogged lib J options (finish_full lib J a s t ssts)
  unfolding finish_full replay_record apply_compaction_result apply_force_full
  finish_full-IsLogged options a s t ssts takes l =
      log_step lib J options a s _ (compaction (force_full t) (ids ssts)) l takes refl refl
        (λ rp same. (
          _,
          refl,
          (
            ap (new_l0 t.l0_sstables) same.0,
            ap (λ levels. replace_first_level levels (ids ssts)) same.1,
          ),
        ))

  -- With a controller that is not the leveled one, every freeze, put, flush, compaction and full
  -- compaction whose record the manifest takes keeps this: the manifest is the frames of records
  -- whose replay gives the L0 and the levels of the state.
  pub Step-IsLogged :
      (options : LsmStorageOptions) {s s' : LsmStorageInner}
      → IsUnsorted (controller options)
      → Step lib J s s'
      → IsLogged lib J options s
      → IsLogged lib J options s'
  unfolding force_flush_next_imm_memtable
  Step-IsLogged options u (freeze a s t) l = force_freeze_memtable-IsLogged options a s t l
  Step-IsLogged options u (write a s key value t) l = put-IsLogged options a s key value t l
  Step-IsLogged options u (flush_one a s s' t e) l =
      flush_memtable-IsLogged options a s s' (last_imm s.state.imm_memtables) t e l
  Step-IsLogged options u (compact_some a s s' task ssts t e) l =
      finish_compaction-IsLogged options a s s' task ssts u t e l
  Step-IsLogged options u (compact_all a s task ssts t) l =
      finish_full-IsLogged options a s task ssts t l

  pub Reach-IsLogged :
      (options : LsmStorageOptions) {s s' : LsmStorageInner}
      → IsUnsorted (controller options)
      → Reach lib J s s'
      → IsLogged lib J options s
      → IsLogged lib J options s'
  Reach-IsLogged options u here l = l
  Reach-IsLogged options u (next run step) l =
      Step-IsLogged options u step (Reach-IsLogged options u run l)
