-- ===== src/Crc/Reference.antt =====
-- The table-driven loop of lib/go/qdp.go against the bit-by-bit division by the polynomial.
use qdp.Base.{
  ℕ, zero, suc, ◌+◌, ◌*◌, ◌/◌, ◌%◌, ◌<◌, ◌≡◌, refl, sym, ap, subst, ◌∙◌, ◌==◌, if◌then◌else◌, List,
  [], ◌∷◌, foldl, bit_xor, arith,
}
use qdp.Base.Bits.{
  bit_xor_step, bit_xor-half, bit_xor_assoc, bit_xor_comm, bit_xor-lt, bit_xor_fields, bit_xor-zero,
}
use qdp.Base.Bytes.{IsByte, IsBytes, IsU32}
use qdp.Crc.{polynomial, table_round, table_rounds, crc32_table, update_crc, calculate_crc32}

-- The polynomial, if the digit that is shifted out is set.
abbrev feedback : ℕ → ℕ
feedback d = if d == 0 then 0 else polynomial

table_round-feedback : (a : ℕ) → table_round a ≡ bit_xor (a / 2) (feedback (a % 2))
unfolding table_round
table_round-feedback a = ground (arith, bit_xor-zero (a / 2))

feedback-xor :
    (x y : ℕ) → x < 2 → y < 2 → feedback ((x + y) % 2) ≡ bit_xor (feedback x) (feedback y)
feedback-xor zero zero p q = refl
feedback-xor zero (suc zero) p q = refl
feedback-xor (suc zero) zero p q = refl
feedback-xor (suc zero) (suc zero) p q = refl
feedback-xor (suc (suc x)) y p q = absurd (omega arith)
feedback-xor zero (suc (suc y)) p q = absurd (omega arith)
feedback-xor (suc zero) (suc (suc y)) p q = absurd (omega arith)

bit_xor_exchange :
    (a b c d : ℕ) → bit_xor (bit_xor a b) (bit_xor c d) ≡ bit_xor (bit_xor a c) (bit_xor b d)
bit_xor_exchange a b c d =
    bit_xor_assoc a b (bit_xor c d)
    ∙ ap (bit_xor a)
        (sym (bit_xor_assoc b c d) ∙ ap (λ t. bit_xor t d) (bit_xor_comm b c) ∙ bit_xor_assoc c b d)
    ∙ sym (bit_xor_assoc a c (bit_xor b d))

-- A round is linear over exclusive or.
pub table_round-bit_xor :
    (a b : ℕ) → table_round (bit_xor a b) ≡ bit_xor (table_round a) (table_round b)
table_round-bit_xor a b =
    table_round-feedback (bit_xor a b)
    ∙ ap (λ t. bit_xor t (feedback (bit_xor a b % 2))) (bit_xor-half a b)
    ∙ ap (bit_xor (bit_xor (a / 2) (b / 2)))
        (ap feedback lowest ∙ feedback-xor (a % 2) (b % 2) (omega arith) (omega arith))
    ∙ bit_xor_exchange (a / 2) (b / 2) (feedback (a % 2)) (feedback (b % 2))
    ∙ sym (ap (λ t. bit_xor t (bit_xor (b / 2) (feedback (b % 2)))) (table_round-feedback a))
    ∙ sym (ap (bit_xor (table_round a)) (table_round-feedback b))
  where
    lowest : bit_xor a b % 2 ≡ (a % 2 + b % 2) % 2
    lowest = omega (arith, bit_xor_step a b)

pub table_rounds-bit_xor :
    (n a b : ℕ) → table_rounds n (bit_xor a b) ≡ bit_xor (table_rounds n a) (table_rounds n b)
unfolding table_rounds
table_rounds-bit_xor zero a b = refl
table_rounds-bit_xor (suc n) a b =
    ap (table_rounds n) (table_round-bit_xor a b)
    ∙ table_rounds-bit_xor n (table_round a) (table_round b)

pub table_rounds-add : (m n a : ℕ) → table_rounds n (table_rounds m a) ≡ table_rounds (m + n) a
unfolding table_rounds
table_rounds-add zero n a = let e : n ≡ 0 + n = omega arith in ap (λ k. table_rounds k a) e
table_rounds-add (suc m) n a =
    let e : suc (m + n) ≡ suc m + n = omega arith in
    table_rounds-add m n (table_round a) ∙ ap (λ k. table_rounds k a) e

table_round-double : (q : ℕ) → table_round (q * 2) ≡ q
unfolding table_round
table_round-double q = ground arith

-- Eight rounds move a whole byte out where the lowest byte is zero.
pub table_rounds-byte : (q : ℕ) → table_rounds 8 (q * 256) ≡ q
unfolding table_rounds
table_rounds-byte q =
    ap (table_rounds 7) (halve 128)
    ∙ ap (table_rounds 6) (halve 64)
    ∙ ap (table_rounds 5) (halve 32)
    ∙ ap (table_rounds 4) (halve 16)
    ∙ ap (table_rounds 3) (halve 8)
    ∙ ap (table_rounds 2) (halve 4)
    ∙ ap (table_rounds 1) (halve 2)
    ∙ table_round-double q
  where
    halve : (k : ℕ) → table_round (q * (k * 2)) ≡ q * k
    halve k = ap table_round (omega arith) ∙ table_round-double (q * k)

-- The reference: the byte joins the lowest digits, and eight digits are divided out.
unfoldable pub divide_byte : ℕ → ℕ → ℕ
divide_byte crc b = table_rounds 8 (bit_xor crc b)

unfoldable pub divide_bytes : List ℕ → ℕ
divide_bytes bytes = bit_xor (foldl divide_byte 0xFFFFFFFF bytes) 0xFFFFFFFF

pub update_crc-divide_byte : (crc b : ℕ) → IsByte b → update_crc crc b ≡ divide_byte crc b
unfolding update_crc divide_byte crc32_table
update_crc-divide_byte crc b h = sym (
    ap (table_rounds 8) split
    ∙ table_rounds-bit_xor 8 (crc / 256 * 256) (bit_xor (crc % 256) b)
    ∙ ap (λ t. bit_xor t (table_rounds 8 (bit_xor (crc % 256) b))) (table_rounds-byte (crc / 256)))
  where
    whole : bit_xor (crc / 256 * 256) (crc % 256) ≡ crc
    whole = omega (arith, bit_xor_fields 8 (crc / 256) (crc % 256) (omega arith))

    split : bit_xor crc b ≡ bit_xor (crc / 256 * 256) (bit_xor (crc % 256) b)
    split = ap (λ t. bit_xor t b) (sym whole) ∙ bit_xor_assoc (crc / 256 * 256) (crc % 256) b

pub foldl-update_crc :
    (bytes : List ℕ) (crc : ℕ)
    → IsBytes bytes
    → foldl update_crc crc bytes ≡ foldl divide_byte crc bytes
foldl-update_crc [] crc h = refl
foldl-update_crc (b ∷ bytes) crc h =
    foldl-update_crc bytes (update_crc crc b) h.1
    ∙ ap (λ t. foldl divide_byte t bytes) (update_crc-divide_byte crc b h.0)

-- On every list of bytes the table-driven `calculate_crc32` gives what dividing the data bit by bit
-- by the polynomial gives.
pub calculate_crc32-divide_bytes :
    (bytes : List ℕ) → IsBytes bytes → calculate_crc32 bytes ≡ divide_bytes bytes
unfolding calculate_crc32 divide_bytes
calculate_crc32-divide_bytes bytes h =
    ap (λ t. bit_xor t 0xFFFFFFFF) (foldl-update_crc bytes 0xFFFFFFFF h)

table_round-IsU32 : (a : ℕ) → IsU32 a → IsU32 (table_round a)
unfolding table_round
table_round-IsU32 a h = ground (arith, bit_xor-lt 32 (a / 2) polynomial)

pub table_rounds-IsU32 : (n a : ℕ) → IsU32 a → IsU32 (table_rounds n a)
unfolding table_rounds
table_rounds-IsU32 zero a h = h
table_rounds-IsU32 (suc n) a h = table_rounds-IsU32 n (table_round a) (table_round-IsU32 a h)

pub divide_byte-IsU32 : (crc b : ℕ) → IsU32 crc → IsByte b → IsU32 (divide_byte crc b)
unfolding divide_byte
divide_byte-IsU32 crc b h k =
    table_rounds-IsU32 8 (bit_xor crc b) (bit_xor-lt 32 crc b h (omega arith))

pub foldl-divide_byte-IsU32 :
    (bytes : List ℕ) (crc : ℕ) → IsU32 crc → IsBytes bytes → IsU32 (foldl divide_byte crc bytes)
foldl-divide_byte-IsU32 [] crc h k = h
foldl-divide_byte-IsU32 (b ∷ bytes) crc h k =
    foldl-divide_byte-IsU32 bytes (divide_byte crc b) (divide_byte-IsU32 crc b h k.0) k.1

-- The checksum of bytes fits the four bytes that a frame has for it.
pub calculate_crc32-IsU32 : (bytes : List ℕ) → IsBytes bytes → IsU32 (calculate_crc32 bytes)
calculate_crc32-IsU32 bytes h = subst IsU32 (sym (calculate_crc32-divide_bytes bytes h)) (
    unfold divide_bytes in
    bit_xor-lt 32 (foldl divide_byte 0xFFFFFFFF bytes) 0xFFFFFFFF
      (foldl-divide_byte-IsU32 bytes 0xFFFFFFFF (omega arith) h) (omega arith))
