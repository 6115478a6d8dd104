-- ===== src/Bytes/Tests.antt =====
-- A value written to an array of bytes.
use wah.Base.{ℕ, ◌≡◌, List, replicate, arith}
use wah.Bytes.{read_u64_le, write_u64_le}
use wah.Bytes.Laws.{read_u64_le-write}

abbrev ones : List ℕ
ones = replicate 10 1

read_u64_le-write_example : read_u64_le (write_u64_le ones 1 1000000) 1 ≡ 1000000
read_u64_le-write_example = read_u64_le-write ones 1 1000000 (omega arith) (omega arith)
