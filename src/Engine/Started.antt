-- ===== src/Engine/Started.antt =====
-- src/lsm_storage.cpp: a store that is opened anew.
use mini_lsm_cpp.Prelude.{
  ℕ, ◌≤◌, Bool, true, false, [], some, ◌≡◌, refl, sym, subst, length, Bool-cases, Option-cases, inl,
  inr,
}
use mini_lsm_cpp.MemTable.{create_with_wal, new}
use mini_lsm_cpp.Wal
use mini_lsm_cpp.Table.Builder.{Libraries}
use mini_lsm_cpp.State
use mini_lsm_cpp.State.{LsmStorageOptions, LsmStorageState, Level}
use mini_lsm_cpp.Json.{JsonLibrary}
use mini_lsm_cpp.Json.Records.{new_memtable}
use mini_lsm_cpp.Manifest.{frame, add_record, create}
use mini_lsm_cpp.Manifest.Frames.{text, IsWritten}
use mini_lsm_cpp.Manifest.Recovery.{at_end}
use mini_lsm_cpp.Engine.{
  LsmStorageInner, Answers, new_inner, memtable_with_wal, fresh_memtable, add_to_manifest,
}
use mini_lsm_cpp.Engine.Opening.{replay_record, replay, OpenAnswers, log_memtable, open_new}
use mini_lsm_cpp.Engine.Logged.{start, IsLogged, log_step}

fresh_memtable-id :
    (options : LsmStorageOptions) (id : ℕ) (opens : Bool)
    → (fresh_memtable options id opens).id ≡ id
unfolding fresh_memtable memtable_with_wal create_with_wal new Wal.create
fresh_memtable-id options id true = elim (Bool-cases options.enable_wal) [
  | inl e ↦ rw e
  | inr e ↦ rw e
]
fresh_memtable-id options id false = elim (Bool-cases options.enable_wal) [
  | inl e ↦ rw e
  | inr e ↦ rw e
]

module _ (lib : Libraries) (J : JsonLibrary) where
  pub logged_state :
      (a : OpenAnswers) (s : LsmStorageInner) → (log_memtable lib J a s).state ≡ s.state
  unfolding log_memtable
  logged_state a s = elim (Option-cases s.manifest) [ inl e ↦ rw e | inr (m, e) ↦ rw e ]

  -- The answers while a store is opened anew: its first record reaches the manifest.
  abbrev pub TakesFirst : OpenAnswers → Type 0
  TakesFirst a =
      (a.creates ≡ true)
      × IsWritten J lib.crc32 (new_memtable 0)
      × (length (frame J lib.crc32 (text J lib.crc32 (new_memtable 0))) ≤ a.written)
      × (a.synced ≡ true)

  abbrev answers : OpenAnswers → Answers
  answers a = record {
    wal_opens = a.wal_opens;
    wal_written = 0;
    creates = a.creates;
    written = a.written;
    synced = a.synced;
  }

  log_memtable-add_to_manifest :
      (a : OpenAnswers) (s : LsmStorageInner)
      → log_memtable lib J a s
        ≡ add_to_manifest lib J (answers a) s (new_memtable s.state.memtable.id)
  unfolding log_memtable add_to_manifest add_record
  log_memtable-add_to_manifest a s = refl

  -- The store before its first record.
  abbrev unlogged : LsmStorageOptions → OpenAnswers → LsmStorageInner
  unlogged options a =
      let inner = new_inner options in
      record inner {
        state = record inner.state {
          memtable = fresh_memtable options inner.state.memtable.id a.wal_opens;
        };
        manifest = some (at_end []);
      }

  unlogged-IsLogged :
      (options : LsmStorageOptions) (a : OpenAnswers) → IsLogged lib J options (unlogged options a)
  unfolding new_inner replay
  unlogged-IsLogged options a = record {
    records = [];
    replayed = start options;
    manifest = refl;
    written = tt;
    owner = refl;
    replays = refl;
    same = (refl, refl);
  }

  open_new-unlogged :
      (options : LsmStorageOptions) (a : OpenAnswers)
      → a.creates ≡ true
      → open_new lib J a options ≡ log_memtable lib J a (unlogged options a)
  unfolding open_new create
  open_new-unlogged options a e = rw e

  pub open_new-IsLogged :
      (options : LsmStorageOptions) (a : OpenAnswers)
      → TakesFirst a
      → IsLogged lib J options (open_new lib J a options)
  unfolding replay_record
  open_new-IsLogged options a (creates, w, enough, synced) =
      let s = unlogged options a in
      let e : s.state.memtable.id ≡ 0 =
        unfold new_inner State.create new in fresh_memtable-id options 0 a.wal_opens in
      let logged =
        log_step lib J options (answers a) s s (new_memtable 0) (unlogged-IsLogged options a)
          (w, enough, synced) refl refl (λ rp same. (_, refl, same)) in
      rw (open_new-unlogged options a creates, log_memtable-add_to_manifest a s)
        (subst
          (λ id. IsLogged lib J options (add_to_manifest lib J (answers a) s (new_memtable id)))
          (sym e) logged)
