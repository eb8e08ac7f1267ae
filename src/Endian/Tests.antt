-- ===== src/Endian/Tests.antt =====
-- Integers at the start of a buffer.
use mini_lsm_cpp.Prelude.{◌≡◌, [], ◌++◌, some, arith}
use mini_lsm_cpp.Endian.{put_u64_be, read_u64_be}
use mini_lsm_cpp.Endian.RoundTrip.{read-put_u64_be}

read-put_u64_be_example : read_u64_be (put_u64_be [] 5000000000 ++ []) ≡ some 5000000000
read-put_u64_be_example = read-put_u64_be 5000000000 [] (omega arith)
