-- ===== src/Wal/Recovery.antt =====
-- src/wal.cpp: the loop of `recover`, round by round.
use mini_lsm_cpp.Prelude.{
  ℕ, zero, suc, ◌+◌, ◌≤◌, ◌<◌, ◌≡◌, refl, inl, inr, List, [], ◌∷◌, ◌++◌, Option, some, none, Bytes,
  Bool, length, length-drop, drop, arith, Result,
}
use mini_lsm_cpp.Wal.Rounds.{read_frame-Reads}
use mini_lsm_cpp.Wal.{
  Wal, WalError, Entry, broken, intact, read_frame, recover_loop, reopen, recover,
}

module _ (crc32 : Bytes → ℕ) where
  pub recover_loop_end :
      (fuel : ℕ) (buf : Bytes) (pos : ℕ) (records : List Entry)
      → read_frame crc32 buf ≡ some broken
      → recover_loop crc32 (suc fuel) buf pos records ≡ some (pos, records)
  unfolding recover_loop
  recover_loop_end fuel [] pos records h = refl
  recover_loop_end fuel (b ∷ bs) pos records h = rw (h, recover_loop)

  pub recover_loop_step :
      (fuel : ℕ) (buf : Bytes) (pos : ℕ) (records : List Entry) (k v : Bytes) (n : ℕ)
      → read_frame crc32 buf ≡ some (intact k v n)
      → n + 4 ≤ length buf
      → recover_loop crc32 (suc fuel) buf pos records
        ≡ recover_loop crc32 fuel (drop (n + 4) buf) (pos + (n + 4)) (records ++ (k, v) ∷ [])
  unfolding recover_loop
  recover_loop_step fuel [] pos records k v n h le = absurd (omega arith)
  recover_loop_step fuel (b ∷ bs) pos records k v n h le = rw (h, recover_loop)

  -- With more fuel than bytes the loop ends, without a read out of bounds.
  pub recover_loop_total :
      (fuel : ℕ) (buf : Bytes) (pos : ℕ) (records : List Entry)
      → length buf < fuel
      → (r : ℕ × List Entry) × (recover_loop crc32 fuel buf pos records ≡ some r)
        × (r.0 ≤ pos + length buf)
  recover_loop_total zero buf pos records h = absurd (omega arith)
  recover_loop_total (suc fuel) buf pos records h = elim (read_frame-Reads crc32 buf) [
    | inl e ↦ ((pos, records), recover_loop_end fuel buf pos records e, omega arith)
    | inr (k, v, n, e, le) ↦
        let (r, er, lr) =
          recover_loop_total fuel (drop (n + 4) buf) (pos + (n + 4)) (records ++ (k, v) ∷ [])
            (omega (arith, length-drop (n + 4) buf)) in
        (
          r,
          rw (recover_loop_step fuel buf pos records k v n e le) er,
          omega (arith, length-drop (n + 4) buf),
        )
  ]

  -- Whatever bytes a crash left, Wal::recover returns: its loop ends and it makes no read out of
  -- bounds.
  pub recover_total :
      (file : Option Bytes) (truncates opens : Bool) (records : List Entry)
      → (r : Result WalError Wal × List Entry) × (recover crc32 file truncates opens records
          ≡ some r)
  unfolding recover
  recover_total none truncates opens records = (_, refl)
  recover_total (some buf) truncates opens records =
      let (r, e, _) = recover_loop_total (suc (length buf)) buf 0 records (omega arith) in
      ((reopen buf truncates opens r.0, r.1), rw e)
