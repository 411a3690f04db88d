-- ===== src/Crc/Detection.antt =====
-- Which corruptions `calculateCRC32` of lib/go/qdp.go tells apart.
use qdp.Base.{
  ℕ, zero, suc, ◌+◌, ◌*◌, ◌/◌, ◌≤◌, ◌≡◌, ◌≢◌, refl, sym, ap, ap₂, ◌∙◌, List, [], ◌∷◌, ◌++◌, foldl,
  bit_xor, arith, length, All-append,
}
use qdp.Base.Bits.{
  bit_xor-eq-zero, bit_xor_self, bit_xor_comm, bit_xor_assoc, bit_xor-injective, bit_xor-lt,
  bit_xor_fields, bit_xor-zero,
}
use mathlib.Core.List.{foldl-append}
use qdp.Base.Bytes.{IsByte, IsBytes, IsU32}
use qdp.Crc.{polynomial, table_round, table_rounds, calculate_crc32}
use qdp.Crc.Reference.{
  table_rounds-bit_xor, table_rounds-add, table_rounds-byte, table_rounds-IsU32, divide_byte,
  divide_bytes, calculate_crc32-divide_bytes, foldl-divide_byte-IsU32,
}

-- The first number whose round is zero is zero: the polynomial has the highest digit set.
table_round-eq-zero : (a : ℕ) → IsU32 a → table_round a ≡ 0 → a ≡ 0
unfolding table_round
table_round-eq-zero a h e = ground (arith, bit_xor-eq-zero (a / 2) polynomial)

table_round-IsU32 : (a : ℕ) → IsU32 a → IsU32 (table_round a)
unfolding table_rounds
table_round-IsU32 a h = table_rounds-IsU32 1 a h

table_rounds-eq-zero : (n a : ℕ) → IsU32 a → table_rounds n a ≡ 0 → a ≡ 0
unfolding table_rounds
table_rounds-eq-zero zero a h e = e
table_rounds-eq-zero (suc n) a h e =
    table_round-eq-zero a h (table_rounds-eq-zero n (table_round a) (table_round-IsU32 a h) e)

-- No two 32-bit states meet.
table_rounds-injective :
    (n a b : ℕ) → IsU32 a → IsU32 b → table_rounds n a ≡ table_rounds n b → a ≡ b
table_rounds-injective n a b ha hb e =
    bit_xor-eq-zero a b (table_rounds-eq-zero n (bit_xor a b) (bit_xor-lt 32 a b ha hb) meet)
  where
    meet : table_rounds n (bit_xor a b) ≡ 0
    meet =
        table_rounds-bit_xor n a b
        ∙ ap (λ t. bit_xor t (table_rounds n b)) e
        ∙ bit_xor_self (table_rounds n b)

divide_byte-injective :
    (b s t : ℕ) → IsByte b → IsU32 s → IsU32 t → divide_byte s b ≡ divide_byte t b → s ≡ t
unfolding divide_byte
divide_byte-injective b s t hb hs ht e =
    bit_xor-injective b (bit_xor_comm b s ∙ meet ∙ bit_xor_comm t b)
  where
    meet : bit_xor s b ≡ bit_xor t b
    meet =
        table_rounds-injective 8 (bit_xor s b) (bit_xor t b) (bit_xor-lt 32 s b hs (omega arith))
          (bit_xor-lt 32 t b ht (omega arith)) e

foldl-divide_byte-injective :
    (bytes : List ℕ) (s t : ℕ)
    → IsBytes bytes
    → IsU32 s
    → IsU32 t
    → foldl divide_byte s bytes ≡ foldl divide_byte t bytes
    → s ≡ t
foldl-divide_byte-injective [] s t h hs ht e = e
foldl-divide_byte-injective (b ∷ bytes) s t h hs ht e = divide_byte-injective b s t h.0 hs ht (
    foldl-divide_byte-injective bytes (divide_byte s b) (divide_byte t b) h.1
      (foldl-divide_byte-IsU32 (b ∷ []) s hs (h.0, tt))
      (foldl-divide_byte-IsU32 (b ∷ []) t ht (h.0, tt)) e)

-- The bytes as one number, lowest first.
number : List ℕ → ℕ
number [] = 0
number (b ∷ w) = number w * 256 + b

-- A window of bytes enters the division at once.
foldl-divide_byte-number :
    (w : List ℕ) (s : ℕ)
    → IsBytes w
    → foldl divide_byte s w ≡ table_rounds (8 * length w) (bit_xor s (number w))
unfolding number table_rounds
foldl-divide_byte-number [] s h = sym (bit_xor-zero s)
foldl-divide_byte-number (b ∷ w) s h =
    foldl-divide_byte-number w (divide_byte s b) h.1
    ∙ ap (table_rounds (8 * length w)) join
    ∙ table_rounds-add 8 (8 * length w) (bit_xor s (number w * 256 + b))
    ∙ ap (λ k. table_rounds k (bit_xor s (number w * 256 + b))) count
  where
    count : 8 + 8 * length w ≡ 8 * suc (length w)
    count = omega arith

    merge : bit_xor (bit_xor s b) (number w * 256) ≡ bit_xor s (number w * 256 + b)
    merge =
        bit_xor_assoc s b (number w * 256)
        ∙ ap (bit_xor s)
            (bit_xor_comm b (number w * 256) ∙ bit_xor_fields 8 (number w) b (omega arith))

    join : bit_xor (divide_byte s b) (number w) ≡ table_rounds 8 (bit_xor s (number w * 256 + b))
    join =
        unfold divide_byte in
        ap (bit_xor (divide_byte s b)) (sym (table_rounds-byte (number w)))
        ∙ sym (table_rounds-bit_xor 8 (bit_xor s b) (number w * 256))
        ∙ ap (table_rounds 8) merge

number-IsU32 : (w : List ℕ) → IsBytes w → length w ≤ 4 → IsU32 (number w)
unfolding number
number-IsU32 [] h k = omega arith
number-IsU32 (a ∷ []) h k = omega arith
number-IsU32 (a ∷ b ∷ []) h k = omega arith
number-IsU32 (a ∷ b ∷ c ∷ []) h k = omega arith
number-IsU32 (a ∷ b ∷ c ∷ d ∷ []) h k = omega arith
number-IsU32 (a ∷ b ∷ c ∷ d ∷ e ∷ w) h k = absurd (omega arith)

number-injective :
    (v w : List ℕ) → IsBytes v → IsBytes w → length v ≡ length w → number v ≡ number w → v ≡ w
unfolding number
number-injective [] [] hv hw l e = refl
number-injective [] (b ∷ w) hv hw l e = absurd (omega arith)
number-injective (a ∷ v) [] hv hw l e = absurd (omega arith)
number-injective (a ∷ v) (b ∷ w) hv hw l e =
    ap₂ ◌∷◌ (omega arith) (number-injective v w hv.1 hw.1 (omega arith) (omega arith))

window-injective :
    (v w : List ℕ) (s : ℕ)
    → IsU32 s
    → IsBytes v
    → IsBytes w
    → length v ≤ 4
    → length v ≡ length w
    → foldl divide_byte s v ≡ foldl divide_byte s w
    → v ≡ w
window-injective v w s hs hv hw small l e = number-injective v w hv hw l (
    bit_xor-injective s (
      table_rounds-injective (8 * length w) (bit_xor s (number v)) (bit_xor s (number w))
        (bit_xor-lt 32 s (number v) hs (number-IsU32 v hv small))
        (bit_xor-lt 32 s (number w) hs (number-IsU32 w hw (omega arith))) meet))
  where
    meet :
        table_rounds (8 * length w) (bit_xor s (number v))
        ≡ table_rounds (8 * length w) (bit_xor s (number w))
    meet =
        ap (λ k. table_rounds (8 * k) (bit_xor s (number v))) (sym l)
        ∙ sym (foldl-divide_byte-number v s hv)
        ∙ e
        ∙ foldl-divide_byte-number w s hw

foldl-split :
    (before v after : List ℕ) (s : ℕ)
    → foldl divide_byte s (before ++ (v ++ after))
      ≡ foldl divide_byte (foldl divide_byte (foldl divide_byte s before) v) after
foldl-split before v after s =
    foldl-append divide_byte s before (v ++ after)
    ∙ foldl-append divide_byte (foldl divide_byte s before) v after

-- Equal checksums of bytes that agree outside a window of at most four bytes have equal windows.
pub calculate_crc32_window :
    (before v w after : List ℕ)
    → IsBytes before
    → IsBytes v
    → IsBytes w
    → IsBytes after
    → length v ≤ 4
    → length v ≡ length w
    → calculate_crc32 (before ++ (v ++ after)) ≡ calculate_crc32 (before ++ (w ++ after))
    → v ≡ w
calculate_crc32_window before v w after hb hv hw ha small l e =
    window-injective v w start start-IsU32 hv hw small l (
      foldl-divide_byte-injective after (foldl divide_byte start v) (foldl divide_byte start w) ha
        (foldl-divide_byte-IsU32 v start start-IsU32 hv)
        (foldl-divide_byte-IsU32 w start start-IsU32 hw)
        (sym (foldl-split before v after 0xFFFFFFFF)
          ∙ meet
          ∙ foldl-split before w after 0xFFFFFFFF))
  where
    start : ℕ
    start = foldl divide_byte 0xFFFFFFFF before

    start-IsU32 : IsU32 start
    start-IsU32 = foldl-divide_byte-IsU32 before 0xFFFFFFFF (omega arith) hb

    bytes : (x : List ℕ) → IsBytes x → IsBytes (before ++ (x ++ after))
    bytes x hx = All-append IsByte before (x ++ after) hb (All-append IsByte x after hx ha)

    plain : divide_bytes (before ++ (v ++ after)) ≡ divide_bytes (before ++ (w ++ after))
    plain =
        sym (calculate_crc32-divide_bytes (before ++ (v ++ after)) (bytes v hv))
        ∙ e
        ∙ calculate_crc32-divide_bytes (before ++ (w ++ after)) (bytes w hw)

    meet :
        foldl divide_byte 0xFFFFFFFF (before ++ (v ++ after))
        ≡ foldl divide_byte 0xFFFFFFFF (before ++ (w ++ after))
    meet =
        unfold divide_bytes in
        bit_xor-injective 0xFFFFFFFF (
          bit_xor_comm 0xFFFFFFFF (foldl divide_byte 0xFFFFFFFF (before ++ (v ++ after)))
          ∙ plain
          ∙ bit_xor_comm (foldl divide_byte 0xFFFFFFFF (before ++ (w ++ after))) 0xFFFFFFFF)

-- Bytes that differ only within a window of at most four bytes, of the same length, have different
-- checksums.
pub calculate_crc32_detects :
    (before v w after : List ℕ)
    → IsBytes before
    → IsBytes v
    → IsBytes w
    → IsBytes after
    → length v ≤ 4
    → length v ≡ length w
    → v ≢ w
    → calculate_crc32 (before ++ (v ++ after)) ≢ calculate_crc32 (before ++ (w ++ after))
calculate_crc32_detects before v w after hb hv hw ha small l ne e =
    ne (calculate_crc32_window before v w after hb hv hw ha small l e)
