-- ===== src/Ftdi/Writing.antt =====
-- lib/go/transport_ftdi.go: `writeChunked`, which writes data in packets of at most 62 bytes.
pub mod Chunks
use qdp.Base.{
  ℕ, zero, suc, ◌+◌, ltb, if◌then◌else◌, List, [], ◌∷◌, ◌++◌, Bool, true, false, Option, none, some,
  take, drop, length,
}
use qdp.Result.{Error}

abbrev pub ftdi_max_data_size : ℕ
ftdi_max_data_size = 62

-- What WriteContext of the endpoint gives for a packet: the number of bytes written, or an error.
pub data Sent : Type 0 where
  sent : ℕ → Sent
  refused : Error → Sent

-- The result of `writeChunked`, with the packets that it has called WriteContext with, in order.
pub record Writing : Type 0 where
  pub written : ℕ
  pub error : Option Error
  pub packets : List (List ℕ)

pub chunk_size : List ℕ → ℕ
chunk_size unsent =
    if ltb (length unsent) ftdi_max_data_size then length unsent else ftdi_max_data_size

-- One round, after WriteContext: `more n` is the loop on what is behind the packet, after `n` bytes
-- were written.
pub after_write : ℕ → List ℕ → (ℕ → Writing) → Sent → Writing
after_write written chunk more (refused e) = record {
  written = written;
  error = some e;
  packets = chunk ∷ [];
}
after_write written chunk more (sent n) = record (more n) { packets = chunk ∷ (more n).packets }

-- The endpoint answers the calls of WriteContext by their number, which `call` counts, and by the
-- packet. `fuel` bounds the rounds: a round for each byte is enough.
pub write_loop : (ℕ → List ℕ → Sent) → ℕ → ℕ → ℕ → List ℕ → Writing
write_loop ep fuel call written [] = record { written = written; error = none; packets = [] }
write_loop ep zero call written (x ∷ unsent) = record {
  written = written;
  error = none;
  packets = [];
}
write_loop ep (suc fuel) call written (x ∷ unsent) =
    let bytes = x ∷ unsent in
    let chunk = take (chunk_size bytes) bytes in
    after_write written chunk
      (λ n. write_loop ep fuel (call + 1) (written + n) (drop (chunk_size bytes) bytes))
      (ep call chunk)

pub write_chunked : (ℕ → List ℕ → Sent) → List ℕ → Writing
write_chunked ep bytes = write_loop ep (length bytes) 0 0 bytes
