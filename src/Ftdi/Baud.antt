-- ===== src/Ftdi/Baud.antt =====
-- lib/go/transport_ftdi.go: `calculateFTDIBaudRateDivisor`. The quotient of the clock and the rate is
-- a float64 in the code and a fraction here, with the same outcome for a positive rate: every bound
-- of the switch is a float64, and a fraction other than the bound is further from it than the
-- rounding. Division by a rate of 0 gives an infinity in the code, of which int() is not defined.
pub mod Nearest
use qdp.Base.{ℕ, ◌+◌, ◌*◌, ◌/◌, ◌%◌, ltb, if◌then◌else◌, Bool, bit_and, bit_or}

abbrev pub base_clock : ℕ
base_clock = 3000000

-- `subIntegerPart < sixteenths/16`, where the sub-integer part is `rest / rate`.
unfoldable pub is_below : ℕ → ℕ → ℕ → Bool
is_below rest rate sixteenths = ltb (16 * rest) (sixteenths * rate)

-- The integer part and the prescaler that the switch leaves.
unfoldable pub closest : ℕ → ℕ → ℕ → ℕ × ℕ
closest integer_part rest rate =
    if is_below rest rate 1
    then (integer_part, 0)
    else (if is_below rest rate 3
        then (integer_part, 0x1000)
        else (if is_below rest rate 5
            then (integer_part, 0x2000)
            else (if is_below rest rate 7
                then (integer_part, 0x3000)
                else (if is_below rest rate 9
                    then (integer_part, 0x4000)
                    else (if is_below rest rate 11
                        then (integer_part, 0x5000)
                        else (if is_below rest rate 13
                            then (integer_part, 0x6000)
                            else (if is_below rest rate 15
                                then (integer_part, 0x7000)
                                else (integer_part + 1, 0))))))))

-- The low and the high byte of the combined divisor; both are below 256, so uint16() keeps them.
unfoldable pub value_bytes : ℕ × ℕ → ℕ × ℕ
value_bytes (integer_part, prescaler) =
    let final_divisor = bit_or (bit_and integer_part 0x3FFF) prescaler in
    (bit_and final_divisor 0xFF, bit_and (final_divisor / 256) 0xFF)

unfoldable pub calculate_ftdi_baud_rate_divisor : ℕ → ℕ × ℕ
calculate_ftdi_baud_rate_divisor baud_rate =
    value_bytes (closest (base_clock / baud_rate) (base_clock % baud_rate) baud_rate)
