-- ===== src/Engine/Logged.antt =====
-- src/lsm_storage.cpp and src/compact.cpp: the manifest against the state of a running store.
use mini_lsm_cpp.Prelude.{
  ◌≤◌, true, List, [], ◌∷◌, ◌++◌, Option, none, some, ◌>>=◌, ◌≡◌, refl, sym, ap, ◌∙◌, subst, Bytes,
  All, length, take_all, All-append, append_assoc, append-nil, >>=-eq-some, some-injective,
}
use mini_lsm_cpp.MemTable.{MemTable}
use mini_lsm_cpp.Table.{SsTable}
use mini_lsm_cpp.Table.Builder.{Libraries}
use mini_lsm_cpp.State.{LsmStorageOptions, LsmStorageState}
use mini_lsm_cpp.State
use mini_lsm_cpp.Compact.{CompactionTask, force_full, ForceFullCompactionTask}
use mini_lsm_cpp.Compact.Controller.{CompactionController, flush_to_l0, apply_compaction_result}
use mini_lsm_cpp.Compact.Controller
use mini_lsm_cpp.Json.{JsonLibrary}
use mini_lsm_cpp.Json.Records.{ManifestRecord, flush, new_memtable, compaction}
use mini_lsm_cpp.Manifest.{frame}
use mini_lsm_cpp.Manifest.Frames.{text, IsWritten, encode_all}
use mini_lsm_cpp.Manifest.Recovery.{at_end, add_record-at_end}
use mini_lsm_cpp.Engine.{
  LsmStorageInner, Answers, add_to_manifest, force_freeze_memtable, put, last_imm,
  force_flush_next_imm_memtable,
}
use mini_lsm_cpp.Engine.Compaction.{ids, finish_compaction, finish_full}
use mini_lsm_cpp.Engine.Opening.{Replay, replay_record, replay}
use mini_lsm_cpp.Engine.Agreement.{SameTables}

abbrev pub start : LsmStorageOptions → Replay
start options = record { state = State.create options; memtables = []; next_id = 1 }

abbrev pub controller : LsmStorageOptions → CompactionController
controller options = Controller.create options.compaction_options

module _ (lib : Libraries) (J : JsonLibrary) where
  -- The library writes the record as a text, and the kernel takes all of its frame.
  abbrev pub Takes : Answers → ManifestRecord → Type 0
  Takes a r =
      IsWritten J lib.crc32 r
      × (length (frame J lib.crc32 (text J lib.crc32 r)) ≤ a.written)
      × (a.synced ≡ true)

  -- The steps of a running store. The manifest takes each record.
  pub data Step : LsmStorageInner → LsmStorageInner → Type 0 where
    freeze :
        (a : Answers) (s : LsmStorageInner)
        → Takes a (new_memtable s.next_sst_id)
        → Step s (force_freeze_memtable lib J a s)
    write :
        (a : Answers) (s : LsmStorageInner) (key value : Bytes)
        → Takes a (new_memtable s.next_sst_id)
        → Step s (put lib J a s key value)
    flush_one :
        (a : Answers) (s s' : LsmStorageInner)
        → ((imms : List MemTable) (t : MemTable)
            → last_imm s.state.imm_memtables ≡ some (imms, t)
            → Takes a (flush t.id))
        → force_flush_next_imm_memtable lib J a s ≡ some s'
        → Step s s'
    compact_some :
        (a : Answers) (s s' : LsmStorageInner) (task : CompactionTask) (ssts : List SsTable)
        → Takes a (compaction task (ids ssts))
        → finish_compaction lib J a s task ssts ≡ some s'
        → Step s s'
    compact_all :
        (a : Answers) (s : LsmStorageInner) (t : ForceFullCompactionTask) (ssts : List SsTable)
        → Takes a (compaction (force_full t) (ids ssts))
        → Step s (finish_full lib J a s t ssts)

  pub data Reach (s : LsmStorageInner) : LsmStorageInner → Type 0 where
    here : Reach s s
    next : {t u : LsmStorageInner} → Reach s t → Step t u → Reach s u

  -- The manifest's file is the frames of records whose replay has the L0 and the levels of the
  -- state.
  pub record IsLogged (options : LsmStorageOptions) (s : LsmStorageInner) : Type 0 where
    pub records : List ManifestRecord
    pub replayed : Replay
    pub manifest : s.manifest ≡ some (at_end (encode_all J lib.crc32 records))
    pub written : All (IsWritten J lib.crc32) records
    pub owner : s.compaction_controller ≡ controller options
    pub replays : replay (controller options) (start options) records ≡ some replayed
    pub same : SameTables s.state replayed.state

  bind_some : (o : Option Replay) → (o >>= (λ x. some x)) ≡ o
  bind_some none = refl
  bind_some (some x) = refl

  replay-append :
      (c : CompactionController) (rp rp' : Replay) (rs : List ManifestRecord) (r : ManifestRecord)
      → replay c rp rs ≡ some rp'
      → replay c rp (rs ++ r ∷ []) ≡ replay_record c rp' r
  unfolding replay
  replay-append c rp rp' [] r e =
      bind_some (replay_record c rp r) ∙ ap (λ x. replay_record c x r) (some-injective rp rp' e)
  replay-append c rp rp' (q ∷ rs) r e =
      let (mid, e1, e2) = >>=-eq-some (replay_record c rp q) (λ x. replay c x rs) e in
      rw e1 (replay-append c mid rp' rs r e2)

  encode_all-append :
      (rs : List ManifestRecord) (r : ManifestRecord)
      → encode_all J lib.crc32 (rs ++ r ∷ [])
        ≡ encode_all J lib.crc32 rs ++ frame J lib.crc32 (text J lib.crc32 r)
  encode_all-append [] r = append-nil (frame J lib.crc32 (text J lib.crc32 r))
  encode_all-append (q ∷ rs) r =
      rw (encode_all-append rs r)
        (sym (append_assoc (frame J lib.crc32 (text J lib.crc32 q)) (encode_all J lib.crc32 rs) _))

  pub taken :
      (a : Answers) (s : LsmStorageInner) (r : ManifestRecord) (content : Bytes)
      → Takes a r
      → s.manifest ≡ some (at_end content)
      → add_to_manifest lib J a s r
        ≡ record s { manifest = some (at_end (content ++ frame J lib.crc32 (text J lib.crc32 r))) }
  unfolding add_to_manifest
  taken a s r content (w, enough, synced) e =
      let f = frame J lib.crc32 (text J lib.crc32 r) in
      rw (
        e,
        synced,
        add_record-at_end J lib.crc32 a.written content r w,
        take_all a.written f enough,
      )

  -- A step that changes the state to one which the replay of its record also reaches.
  pub log_step :
      (options : LsmStorageOptions) (a : Answers) (s s' : LsmStorageInner) (r : ManifestRecord)
      (l : IsLogged options s)
      → Takes a r
      → s'.manifest ≡ s.manifest
      → s'.compaction_controller ≡ s.compaction_controller
      → ((rp : Replay)
          → SameTables s.state rp.state
          → (rp' : Replay) × (replay_record (controller options) rp r ≡ some rp')
            × SameTables s'.state rp'.state)
      → IsLogged options (add_to_manifest lib J a s' r)
  log_step options a s s' r l t em ec follow =
      let (rp', er, same') = follow l.replayed l.same in
      subst (IsLogged options)
        (sym (taken a s' r (encode_all J lib.crc32 l.records) t (em ∙ l.manifest)))
        (record {
          records = l.records ++ r ∷ [];
          replayed = rp';
          manifest = ap (λ c. some (at_end c)) (sym (encode_all-append l.records r));
          written = All-append (IsWritten J lib.crc32) l.records (r ∷ []) l.written (t.0, tt);
          owner = ec ∙ l.owner;
          replays =
              replay-append (controller options) (start options) l.replayed l.records r l.replays
              ∙ er;
          same = same';
        })
