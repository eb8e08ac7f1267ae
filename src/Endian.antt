-- ===== src/Endian.antt =====
-- include/mini_lsm/endian.h: big-endian integers in byte buffers.
-- `put_*` appends to a buffer. A read takes the bytes from its pointer on; `none` is a read past
-- the end of the buffer, which the code must not make. `crc32` of zlib is a parameter elsewhere.
pub mod RoundTrip
mod Tests
use mini_lsm_cpp.Prelude.{
  ℕ, ◌+◌, ◌*◌, ◌/◌, ◌^◌, [], ◌∷◌, ◌++◌, Option, none, some, Bytes, u8, length, drop, leb,
  if◌then◌else◌,
}

-- (val >> k) & 0xFF
abbrev byte_at : ℕ → ℕ → ℕ
byte_at val k = u8 (val / 2 ^ k)

unfoldable pub put_u16_be : Bytes → ℕ → Bytes
put_u16_be buf val = buf ++ byte_at val 8 ∷ byte_at val 0 ∷ []

unfoldable pub put_u32_be : Bytes → ℕ → Bytes
put_u32_be buf val = buf ++ byte_at val 24 ∷ byte_at val 16 ∷ byte_at val 8 ∷ byte_at val 0 ∷ []

unfoldable pub put_u64_be : Bytes → ℕ → Bytes
put_u64_be buf val =
    buf
    ++ byte_at val 56
      ∷ byte_at val 48
      ∷ byte_at val 40
      ∷ byte_at val 32
      ∷ byte_at val 24
      ∷ byte_at val 16
      ∷ byte_at val 8
      ∷ byte_at val 0
      ∷ []

unfoldable pub read_u16_be : Bytes → Option ℕ
read_u16_be (a ∷ b ∷ _) = some (a * 2 ^ 8 + b)
read_u16_be _ = none

unfoldable pub read_u32_be : Bytes → Option ℕ
read_u32_be (a ∷ b ∷ c ∷ d ∷ _) = some (a * 2 ^ 24 + b * 2 ^ 16 + c * 2 ^ 8 + d)
read_u32_be _ = none

unfoldable pub read_u64_be : Bytes → Option ℕ
read_u64_be (a ∷ b ∷ c ∷ d ∷ e ∷ f ∷ g ∷ h ∷ _) =
    some
      (a * 2 ^ 56 + b * 2 ^ 48 + c * 2 ^ 40 + d * 2 ^ 32 + e * 2 ^ 24 + f * 2 ^ 16 + g * 2 ^ 8 + h)
read_u64_be _ = none

-- write_*: the first bytes of a buffer that has room are replaced; `none` is a write past its end.
unfoldable pub write_u16_be : Bytes → ℕ → Option Bytes
unfolding put_u16_be
write_u16_be dst val = if leb 2 (length dst) then some (put_u16_be [] val ++ drop 2 dst) else none

unfoldable pub write_u32_be : Bytes → ℕ → Option Bytes
unfolding put_u32_be
write_u32_be dst val = if leb 4 (length dst) then some (put_u32_be [] val ++ drop 4 dst) else none

unfoldable pub write_u64_be : Bytes → ℕ → Option Bytes
unfolding put_u64_be
write_u64_be dst val = if leb 8 (length dst) then some (put_u64_be [] val ++ drop 8 dst) else none
