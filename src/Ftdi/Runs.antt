-- ===== src/Ftdi/Runs.antt =====
-- lib/go/transport_ftdi.go: endpoints with concrete packets.
use qdp.Base.{◌*◌, ◌<◌, ℕ, zero, suc, ◌+◌, ◌≡◌, refl, arith, List, [], ◌∷◌, ◌++◌, length, replicate}
use qdp.Result.{failure}
use qdp.Message.{overwrite, slice_at}
use qdp.Ftdi.Baud.{calculate_ftdi_baud_rate_divisor, closest, is_below, value_bytes}
use qdp.Ftdi.Baud.{base_clock}
use qdp.Ftdi.Baud.Nearest.{IsNearest, calculate_ftdi_baud_rate_divisor-IsNearest}
use qdp.Ftdi.Endpoint.{
  Transfer, received, usb_error, new_endpoint_reader, contents, ready, advance, copy_out,
  after_transfer, refill, fetch, read,
}
use qdp.Ftdi.Endpoint.Packets.{IsLawful, IsValid, payloads, pending}
use qdp.Ftdi.Endpoint.Stream.{reads, reads-stream}
use qdp.Ftdi.Writing.{Sent, sent, refused, write_chunked}
use qdp.Ftdi.Writing.Chunks.{Writes, write_chunked-Writes}

-- Two packets with data and one without, then an error.
abbrev packets : ℕ → Transfer
packets zero = received (1 ∷ 96 ∷ 10 ∷ 20 ∷ 30 ∷ [])
packets (suc zero) = received (1 ∷ 96 ∷ [])
packets (suc (suc zero)) = received (1 ∷ 96 ∷ 40 ∷ [])
packets (suc (suc (suc i))) = usb_error 0

packets-IsLawful : IsLawful packets
packets-IsLawful zero = omega arith
packets-IsLawful (suc zero) = omega arith
packets-IsLawful (suc (suc zero)) = omega arith
packets-IsLawful (suc (suc (suc i))) = tt

new_endpoint_reader-IsValid : IsValid new_endpoint_reader
unfolding new_endpoint_reader contents ready
new_endpoint_reader-IsValid = record {
  within = omega arith;
  held = omega arith;
  full = refl;
  filled = λ _. refl;
}

reads-packets :
    (reads packets (2 ∷ 8 ∷ 8 ∷ 8 ∷ 8 ∷ []) new_endpoint_reader).0 ≡ 10 ∷ 20 ∷ 30 ∷ 40 ∷ []
unfolding new_endpoint_reader contents ready advance copy_out after_transfer refill fetch read
    overwrite slice_at
reads-packets = refl

reads-stream_example :
    IsValid (reads packets (2 ∷ 8 ∷ 8 ∷ []) new_endpoint_reader).1
    × ((k : ℕ) × ((reads packets (2 ∷ 8 ∷ 8 ∷ []) new_endpoint_reader).1.transfers
          ≡ new_endpoint_reader.transfers + k)
        × ((reads packets (2 ∷ 8 ∷ 8 ∷ []) new_endpoint_reader).0
              ++ pending (reads packets (2 ∷ 8 ∷ 8 ∷ []) new_endpoint_reader).1
            ≡ pending new_endpoint_reader ++ payloads packets new_endpoint_reader.transfers k))
reads-stream_example =
    reads-stream packets (2 ∷ 8 ∷ 8 ∷ []) new_endpoint_reader packets-IsLawful
      new_endpoint_reader-IsValid

-- The second packet is refused.
abbrev one_packet_only : ℕ → List ℕ → Sent
one_packet_only zero p = sent (length p)
one_packet_only (suc i) p = refused (failure 1)

write_chunked-Writes_example :
    Writes one_packet_only 0 0 (replicate 100 7) (write_chunked one_packet_only (replicate 100 7))
write_chunked-Writes_example = write_chunked-Writes one_packet_only (replicate 100 7)

-- 3000000 / 115200 is 26.04, and 3000000 / 9600 is 312.5.
divisor_at_115200 : calculate_ftdi_baud_rate_divisor 115200 ≡ (26, 0)
unfolding calculate_ftdi_baud_rate_divisor closest is_below value_bytes
divisor_at_115200 = refl

divisor_at_9600 : calculate_ftdi_baud_rate_divisor 9600 ≡ (0x38, 0x41)
unfolding calculate_ftdi_baud_rate_divisor closest is_below value_bytes
divisor_at_9600 = refl

calculate_ftdi_baud_rate_divisor-IsNearest_example :
    ((calculate_ftdi_baud_rate_divisor 9600).0 < 256)
    × ((calculate_ftdi_baud_rate_divisor 9600).1 < 256)
    × ((whole : ℕ) × (j : ℕ) × (j < 8)
        × IsNearest base_clock 9600 (8 * whole + j)
        × ((calculate_ftdi_baud_rate_divisor 9600).0
              + 256 * (calculate_ftdi_baud_rate_divisor 9600).1
            ≡ whole + 0x1000 * j))
calculate_ftdi_baud_rate_divisor-IsNearest_example =
    calculate_ftdi_baud_rate_divisor-IsNearest 9600 (omega arith)
