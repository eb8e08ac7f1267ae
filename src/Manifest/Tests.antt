-- ===== src/Manifest/Tests.antt =====
-- A manifest of three records.
use mini_lsm_cpp.Prelude.{
  ℕ, ◌^◌, ◌<◌, ◌≡◌, refl, true, List, [], ◌∷◌, ◌++◌, some, none, Bytes, u32, ok, err, length, arith,
  All, if◌then◌else◌, ltb,
}
use mini_lsm_cpp.Endian.{put_u64_be}
use mini_lsm_cpp.Json.{field}
use mini_lsm_cpp.Json.Records.{ManifestRecord, flush, new_memtable, record_to_json}
use mini_lsm_cpp.Manifest.{
  create, recover, add_record, frame, write_failed, incomplete_header, incomplete_record,
}
use mini_lsm_cpp.Manifest.Frames.{text, encode_all, IsWritten, length-frame}
use mini_lsm_cpp.Manifest.Recovery.{add_all, at_end, recover-add_all}
use mini_lsm_cpp.Manifest.Torn.{add_record-recover}
use mini_lsm_cpp.Manifest.Reopened.{recovered_from, recover-add_record, recover-put_u64_be}
use mini_lsm_cpp.Json.Tests.{library, library_laws}

abbrev pub checksum : Bytes → ℕ
checksum bs = u32 (length bs)

pub checksum_lt : (bs : Bytes) → checksum bs < 2 ^ 32
checksum_lt bs = omega arith

abbrev records : List ManifestRecord
records = new_memtable 0 ∷ new_memtable 1 ∷ flush 0 ∷ []

pub flush_0-IsWritten : IsWritten library checksum (flush 0)
unfolding record_to_json field
flush_0-IsWritten = (refl, refl, omega arith)

pub new_memtable_0-IsWritten : IsWritten library checksum (new_memtable 0)
unfolding record_to_json field
new_memtable_0-IsWritten = (refl, refl, omega arith)

pub new_memtable_1-IsWritten : IsWritten library checksum (new_memtable 1)
unfolding record_to_json field
new_memtable_1-IsWritten = (refl, refl, omega arith)

created : create true ≡ ok (at_end [])
unfolding create
created = refl

records-IsWritten : All (IsWritten library checksum) records
records-IsWritten = (new_memtable_0-IsWritten, (new_memtable_1-IsWritten, (flush_0-IsWritten, tt)))

recover-add_all_example :
    recover library checksum true true true (add_all library checksum (at_end []) records).content
    ≡ some (
        ok (
          record {
            fd = true;
            offset = 0;
            content = (add_all library checksum (at_end []) records).content;
          },
          records,
        ))
recover-add_all_example =
    recover-add_all library checksum library_laws checksum_lt (at_end []) records created
      records-IsWritten

-- Nine of the record's fourteen bytes are written.
add_record-recover_example :
    let torn =
      add_record library checksum 9 true (add_all library checksum (at_end []) records) (flush 0) in
    (torn.0 ≡ err write_failed)
    × (recover library checksum true true true torn.1.content
        ≡ some (err (if ltb 9 8 then incomplete_header else incomplete_record)))
add_record-recover_example =
    add_record-recover library checksum library_laws checksum_lt (at_end []) records (flush 0) 9
      created records-IsWritten flush_0-IsWritten (omega arith)
      (omega (arith, length-frame library checksum (text library checksum (flush 0))))

recover-add_record_example :
    let content = encode_all library checksum (new_memtable 0 ∷ new_memtable 1 ∷ []) in
    let after = encode_all library checksum (flush 0 ∷ new_memtable 1 ∷ []) in
    let added =
      add_record library checksum
        (length (frame library checksum (text library checksum (flush 0))))
        true
        (recovered_from content)
        (flush 0) in
    (recover library checksum true true true content
      ≡ some (ok (recovered_from content, new_memtable 0 ∷ new_memtable 1 ∷ [])))
    × (recover library checksum true true true added.1.content
        ≡ some (ok (recovered_from after, flush 0 ∷ new_memtable 1 ∷ [])))
unfolding record_to_json field
recover-add_record_example =
    recover-add_record library checksum library_laws checksum_lt (new_memtable 0)
      (new_memtable 1 ∷ []) (flush 0) new_memtable_0-IsWritten (new_memtable_1-IsWritten, tt)
      flush_0-IsWritten refl

recover-put_u64_be_example :
    recover library checksum true true true (put_u64_be [] 18446744073709551614 ++ (7 ∷ 7 ∷ []))
    ≡ none
recover-put_u64_be_example =
    recover-put_u64_be library checksum 18446744073709551614 (7 ∷ 7 ∷ []) (omega arith)
      (omega arith) (omega arith) (omega arith)
