-- ===== src/Wal/Tests.antt =====
-- A log of two records, whole and torn.
use mini_lsm_cpp.Prelude.{
  ℕ, ◌+◌, ◌^◌, ◌<◌, ◌≡◌, true, List, [], ◌∷◌, ◌++◌, some, ok, Result, Bytes, u32, take, arith,
}
use mini_lsm_cpp.Wal.{Wal, WalError, Entry, recover, batch_loop}
use mini_lsm_cpp.Wal.Frames.{encode_all, batch_loop-encode_all}
use mini_lsm_cpp.Wal.Torn.{complete, recover-take}
use mini_lsm_cpp.Wal.Recovery.{recover_total}

abbrev sum : Bytes → ℕ
sum [] = 0
sum (b ∷ bs) = b + sum bs

abbrev pub checksum : Bytes → ℕ
checksum bs = u32 (sum bs)

pub checksum_lt : (bs : Bytes) → checksum bs < 2 ^ 32
checksum_lt bs = omega arith

abbrev pub two_records : List Entry
two_records = (1 ∷ [], 2 ∷ 3 ∷ []) ∷ (4 ∷ [], 5 ∷ []) ∷ []

-- Fifteen bytes hold the first frame and four bytes of the second one.
recover-take_example :
    recover checksum (some (take 15 (encode_all checksum two_records))) true true []
    ≡ some (
      ok (record {
        fp = true;
        content = encode_all checksum (take (complete 15 two_records) two_records);
      }),
      take (complete 15 two_records) two_records,
    )
recover-take_example = recover-take checksum checksum_lt two_records 15 true (omega arith)

recover_total_example :
    (r : Result WalError Wal × List Entry) × (recover checksum (some (0 ∷ 9 ∷ 7 ∷ [])) true true []
      ≡ some r)
recover_total_example = recover_total checksum (some (0 ∷ 9 ∷ 7 ∷ [])) true true []

batch_loop-encode_all_example :
    batch_loop checksum (8 ∷ []) two_records ≡ (8 ∷ []) ++ encode_all checksum two_records
batch_loop-encode_all_example = batch_loop-encode_all checksum (8 ∷ []) two_records
