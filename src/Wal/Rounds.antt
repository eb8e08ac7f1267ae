-- ===== src/Wal/Rounds.antt =====
-- One round of the recovery loop, case by case: each length test that fails, and a whole frame.
use mini_lsm_cpp.Prelude.{
  ℕ, ◌+◌, ◌≤◌, ◌<◌, ◌≡◌, ◌⊎◌, inl, inr, some, Bytes, Bool, length, length-drop, take, drop, ◌==◌,
  arith, lt→ltb, le→ltb, Bool-cases, if◌then◌else◌,
}
use mini_lsm_cpp.Endian.{read_u16_be, read_u32_be}
use mini_lsm_cpp.Endian.RoundTrip.{read_u16_be_total, read_u32_be_total}
use mini_lsm_cpp.Wal.{broken, intact, read_frame}
use native.Mathlib.Decide.{dec_lt}

module _ (crc32 : Bytes → ℕ) where
  pub no_header : (buf : Bytes) → length buf < 2 → read_frame crc32 buf ≡ some broken
  unfolding read_frame
  no_header buf h = rw (lt→ltb (length buf) 2 h)

  module _ (buf : Bytes) (key_len : ℕ) (hk : read_u16_be buf ≡ some key_len) where
    pub no_key : 2 ≤ length buf → length buf < 2 + key_len + 2 → read_frame crc32 buf ≡ some broken
    unfolding read_frame
    no_key h0 h = rw (le→ltb (length buf) 2 h0, hk, lt→ltb (length buf) (2 + key_len + 2) h)

    module _ (val_len : ℕ) (hv : read_u16_be (drop (2 + key_len) buf) ≡ some val_len) where
      pub no_value :
          2 + key_len + 2 ≤ length buf
          → length buf < 2 + key_len + 2 + val_len + 4
          → read_frame crc32 buf ≡ some broken
      unfolding read_frame
      no_value h1 h = rw (
        le→ltb (length buf) 2 (omega arith),
        hk,
        le→ltb (length buf) (2 + key_len + 2) h1,
        hv,
        lt→ltb (length buf) (2 + key_len + 2 + val_len + 4) h,
      )

      pub whole :
          (crc : ℕ)
          → read_u32_be (drop (2 + key_len + 2 + val_len) buf) ≡ some crc
          → 2 + key_len + 2 + val_len + 4 ≤ length buf
          → read_frame crc32 buf
            ≡ some (
                if crc32 (take (2 + key_len + 2 + val_len) buf) == crc
                then intact
                    (take key_len (drop 2 buf))
                    (take val_len (drop (2 + key_len + 2) buf))
                    (2 + key_len + 2 + val_len)
                else broken)
      unfolding read_frame
      whole crc hc hl = rw (
        le→ltb (length buf) 2 (omega arith),
        hk,
        le→ltb (length buf) (2 + key_len + 2) (omega arith),
        hv,
        le→ltb (length buf) (2 + key_len + 2 + val_len + 4) hl,
        hc,
      )

  -- A round of the loop ends it, or finds a frame that lies in the buffer.
  abbrev pub Reads : Bytes → Type 0
  Reads buf =
      (read_frame crc32 buf ≡ some broken)
      ⊎ ((k : Bytes) × (v : Bytes) × (n : ℕ) × (read_frame crc32 buf ≡ some (intact k v n))
          × (n + 4 ≤ length buf))

  Reads-whole :
      (buf : Bytes) (b : Bool) (k v : Bytes) (n : ℕ)
      → read_frame crc32 buf ≡ some (if b then intact k v n else broken)
      → n + 4 ≤ length buf
      → Reads buf
  Reads-whole buf b k v n e h = elim (Bool-cases b) [
    | inl t ↦ inr (k, v, n, rw t at e, h)
    | inr f ↦ inl (rw f at e)
  ]

  Reads-value :
      (buf : Bytes) (key_len val_len : ℕ)
      → read_u16_be buf ≡ some key_len
      → read_u16_be (drop (2 + key_len) buf) ≡ some val_len
      → 2 + key_len + 2 ≤ length buf
      → Reads buf
  Reads-value buf key_len val_len hk hv h1 =
      elim (dec_lt (length buf) (2 + key_len + 2 + val_len + 4)) [
        | yes short ↦ inl (no_value buf key_len hk val_len hv h1 short)
        | no long ↦
            let (crc, hc) =
              read_u32_be_total (drop (2 + key_len + 2 + val_len) buf)
                (omega (arith, length-drop (2 + key_len + 2 + val_len) buf)) in
            Reads-whole buf _ _ _ (2 + key_len + 2 + val_len)
              (whole buf key_len hk val_len hv crc hc (omega arith)) (omega arith)
      ]

  pub read_frame-Reads : (buf : Bytes) → Reads buf
  read_frame-Reads buf = elim (dec_lt (length buf) 2) [
    | yes short ↦ inl (no_header buf short)
    | no long ↦
        let (key_len, hk) = read_u16_be_total buf (omega arith) in
        elim (dec_lt (length buf) (2 + key_len + 2)) [
          | yes short ↦ inl (no_key buf key_len hk (omega arith) short)
          | no h1 ↦
              let (val_len, hv) =
                read_u16_be_total (drop (2 + key_len) buf)
                  (omega (arith, length-drop (2 + key_len) buf)) in
              Reads-value buf key_len val_len hk hv (omega arith)
        ]
  ]
