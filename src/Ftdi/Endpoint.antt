-- ===== src/Ftdi/Endpoint.antt =====
-- lib/go/transport_ftdi.go: `endpointReader`, the io.Reader over a USB endpoint. Each packet starts
-- with two status bytes, which are not data.
pub mod Packets
pub mod Stream
use qdp.Base.{
  ℕ, zero, suc, ◌+◌, ◌-◌, ltb, leb, ◌==◌, if◌then◌else◌, List, [], ◌∷◌, Bool, true, false, Option,
  none, some, take, length, replicate,
}
use qdp.Result.{Error, Result, ok, err, panic, eof, failure}
use qdp.Message.{overwrite, slice_at}

abbrev pub ftdi_status_size : ℕ
ftdi_status_size = 2

abbrev pub ftdi_max_packet_size : ℕ
ftdi_max_packet_size = 64

-- What ReadContext of the endpoint does: it puts bytes at the front of the buffer and gives their
-- number, or gives an error, which is one of the context or one of the USB.
pub data Transfer : Type 0 where
  received : List ℕ → Transfer
  context_error : ℕ → Transfer
  usb_error : ℕ → Transfer

-- `connected` is `ep != nil`; `transfers` counts the calls of ReadContext.
pub record EndpointReader : Type 0 where
  pub connected : Bool
  pub transfers : ℕ
  pub buf : Option (List ℕ)
  pub pos : ℕ
  pub size : ℕ

abbrev pub endpoint_is_nil : Error
endpoint_is_nil = failure 0

-- A nil slice has no bytes.
unfoldable pub contents : Option (List ℕ) → List ℕ
contents none = []
contents (some b) = b

-- `if r.buf == nil { r.buf = make([]byte, ftdiMaxPacketSize) }`
unfoldable pub ready : Option (List ℕ) → List ℕ
ready none = replicate ftdi_max_packet_size 0
ready (some b) = b

-- `n` is len(p): what is left of the packet goes out, as far as it fits.
unfoldable pub advance : ℕ → EndpointReader → Result (List ℕ) → Result (List ℕ) × EndpointReader
advance n r (ok bs) = (ok (take n bs), record r { pos = r.pos + length (take n bs) })
advance n r (err e) = (err e, r)
advance n r panic = (panic, r)

unfoldable pub copy_out : ℕ → EndpointReader → Result (List ℕ) × EndpointReader
copy_out n r =
    advance n r (slice_at (contents r.buf) (ftdi_status_size + r.pos) (ftdi_status_size + r.size))

-- `b` is the buffer that ReadContext was given.
unfoldable pub after_transfer :
    ℕ → EndpointReader → List ℕ → Transfer → Result (List ℕ) × EndpointReader
after_transfer n r b (received bs) =
    let r' = record r { buf = some (overwrite b 0 bs) } in
    if ltb ftdi_status_size (length bs)
    then copy_out n (record r' { size = length bs - ftdi_status_size; pos = 0 })
    else (ok [], record r' { size = 0; pos = 0 })
after_transfer n r b (context_error e) = (err (failure e), record r { buf = some b })
after_transfer n r b (usb_error e) = (err eof, record r { buf = some b })

-- The device answers the calls of ReadContext by their number.
unfoldable pub refill : (ℕ → Transfer) → ℕ → EndpointReader → Result (List ℕ) × EndpointReader
refill device n r =
    after_transfer n (record r { transfers = r.transfers + 1 }) (ready r.buf) (device r.transfers)

-- `Read` after the check of the endpoint.
unfoldable pub fetch : (ℕ → Transfer) → ℕ → EndpointReader → Result (List ℕ) × EndpointReader
fetch device n r =
    if n == 0 then (ok [], r) else (if leb r.size r.pos then refill device n r else copy_out n r)

unfoldable pub read : (ℕ → Transfer) → ℕ → EndpointReader → Result (List ℕ) × EndpointReader
read device n r = if r.connected then fetch device n r else (err endpoint_is_nil, r)

-- The reader that `connect` makes.
unfoldable pub new_endpoint_reader : EndpointReader
new_endpoint_reader = record {
  connected = true;
  transfers = 0;
  buf = some (replicate ftdi_max_packet_size 0);
  pos = 0;
  size = 0;
}
