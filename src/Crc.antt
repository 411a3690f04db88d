-- ===== src/Crc.antt =====
-- lib/go/qdp.go: the CRC-32 table that `init` fills and `calculateCRC32`.
pub mod Reference
pub mod Detection
mod Runs
use qdp.Base.{ℕ, zero, suc, ◌+◌, ◌/◌, ◌%◌, ◌==◌, if◌then◌else◌, List, foldl, bit_xor}

abbrev pub polynomial : ℕ
polynomial = 0xEDB88320

-- One round of the inner loop: `crc&1 != 0` is a test of the lowest digit.
pub table_round : ℕ → ℕ
table_round crc = if crc % 2 == 0 then crc / 2 else bit_xor (crc / 2) polynomial

-- `for j := 0; j < n; j++`
pub table_rounds : ℕ → ℕ → ℕ
table_rounds zero crc = crc
table_rounds (suc n) crc = table_rounds n (table_round crc)

-- The array after `init`, as a function of the index. Every index in use is a byte.
pub crc32_table : ℕ → ℕ
unfolding table_rounds table_round
crc32_table i = table_rounds 8 i

-- The body of the loop over the data: `(crc >> 8) ^ crc32Table[byte(crc)^b]`.
pub update_crc : ℕ → ℕ → ℕ
unfolding crc32_table
update_crc crc b = bit_xor (crc / 256) (crc32_table (bit_xor (crc % 256) b))

unfoldable pub calculate_crc32 : List ℕ → ℕ
unfolding update_crc
calculate_crc32 bytes = bit_xor (foldl update_crc 0xFFFFFFFF bytes) 0xFFFFFFFF
