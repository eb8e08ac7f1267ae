-- ===== src/Endian/RoundTrip.antt =====
-- Writing and reading the integers of include/mini_lsm/endian.h.
use mini_lsm_cpp.Prelude.{
  ℕ, ◌^◌, ◌≤◌, ◌<◌, ◌≡◌, refl, [], ◌∷◌, ◌++◌, some, Bytes, IsBytes, length, arith, ap,
}
use mini_lsm_cpp.Endian.{put_u16_be, put_u32_be, put_u64_be, read_u16_be, read_u32_be, read_u64_be}

-- What is put goes behind the buffer.
pub put_u16_be-append : (buf : Bytes) (v : ℕ) → put_u16_be buf v ≡ buf ++ put_u16_be [] v
unfolding put_u16_be
put_u16_be-append buf v = refl

pub put_u32_be-append : (buf : Bytes) (v : ℕ) → put_u32_be buf v ≡ buf ++ put_u32_be [] v
unfolding put_u32_be
put_u32_be-append buf v = refl

pub put_u64_be-append : (buf : Bytes) (v : ℕ) → put_u64_be buf v ≡ buf ++ put_u64_be [] v
unfolding put_u64_be
put_u64_be-append buf v = refl

pub length-put_u16_be : (v : ℕ) → length (put_u16_be [] v) ≡ 2
unfolding put_u16_be
length-put_u16_be v = refl

pub length-put_u32_be : (v : ℕ) → length (put_u32_be [] v) ≡ 4
unfolding put_u32_be
length-put_u32_be v = refl

pub length-put_u64_be : (v : ℕ) → length (put_u64_be [] v) ≡ 8
unfolding put_u64_be
length-put_u64_be v = refl

pub put_u16_be-IsBytes : (v : ℕ) → IsBytes (put_u16_be [] v)
unfolding put_u16_be
put_u16_be-IsBytes v = omega arith

-- A 16-bit integer is read back from the bytes that put_u16_be writes, whatever follows them.
pub read-put_u16_be :
    (v : ℕ) (rest : Bytes) → v < 2 ^ 16 → read_u16_be (put_u16_be [] v ++ rest) ≡ some v
unfolding read_u16_be put_u16_be
read-put_u16_be v rest h = ap some (omega arith)

-- A 32-bit integer is read back from the bytes that put_u32_be writes, whatever follows them.
pub read-put_u32_be :
    (v : ℕ) (rest : Bytes) → v < 2 ^ 32 → read_u32_be (put_u32_be [] v ++ rest) ≡ some v
unfolding read_u32_be put_u32_be
read-put_u32_be v rest h = ap some (omega arith)

-- A 64-bit integer is read back from the bytes that put_u64_be writes, whatever follows them.
pub read-put_u64_be :
    (v : ℕ) (rest : Bytes) → v < 2 ^ 64 → read_u64_be (put_u64_be [] v ++ rest) ≡ some v
unfolding read_u64_be put_u64_be
read-put_u64_be v rest h = ap some (omega arith)

-- A read of a buffer that is long enough is no fault, and its value fits the width.
pub read_u16_be_total : (bs : Bytes) → 2 ≤ length bs → (v : ℕ) × (read_u16_be bs ≡ some v)
unfolding read_u16_be
read_u16_be_total (a ∷ b ∷ r) h = (_, refl)
read_u16_be_total (a ∷ []) h = absurd (omega arith)
read_u16_be_total [] h = absurd (omega arith)

pub read_u32_be_total : (bs : Bytes) → 4 ≤ length bs → (v : ℕ) × (read_u32_be bs ≡ some v)
unfolding read_u32_be
read_u32_be_total (a ∷ b ∷ c ∷ d ∷ r) h = (_, refl)
read_u32_be_total (a ∷ b ∷ c ∷ []) h = absurd (omega arith)
read_u32_be_total (a ∷ b ∷ []) h = absurd (omega arith)
read_u32_be_total (a ∷ []) h = absurd (omega arith)
read_u32_be_total [] h = absurd (omega arith)
