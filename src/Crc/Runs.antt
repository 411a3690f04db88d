-- ===== src/Crc/Runs.antt =====
-- Concrete checksums, and the theorems on `calculateCRC32` at concrete inputs.
use qdp.Base.{ℕ, ◌≡◌, ◌≢◌, refl, List, [], ◌∷◌, arith}
use qdp.Crc.{calculate_crc32}
use qdp.Crc.Reference.{divide_bytes, calculate_crc32-divide_bytes}
use qdp.Crc.Detection.{calculate_crc32_detects}

abbrev digits : List ℕ
digits = b'1' ∷ b'2' ∷ b'3' ∷ b'4' ∷ b'5' ∷ b'6' ∷ b'7' ∷ b'8' ∷ b'9' ∷ []

-- The check value of CRC-32.
crc32_check : calculate_crc32 digits ≡ 0xCBF43926
unfolding calculate_crc32
crc32_check = refl

calculate_crc32-divide_bytes_example : calculate_crc32 digits ≡ divide_bytes digits
calculate_crc32-divide_bytes_example = calculate_crc32-divide_bytes digits (omega arith)

two_changes : calculate_crc32 (7 ∷ 1 ∷ 2 ∷ 9 ∷ []) ≢ calculate_crc32 (7 ∷ 1 ∷ 3 ∷ 9 ∷ [])
two_changes =
    calculate_crc32_detects (7 ∷ []) (1 ∷ 2 ∷ []) (1 ∷ 3 ∷ []) (9 ∷ []) (omega arith) (omega arith)
      (omega arith) (omega arith) (omega arith) refl (λ e. grind arith)
