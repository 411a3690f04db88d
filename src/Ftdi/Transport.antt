-- ===== src/Ftdi/Transport.antt =====
-- lib/go/transport_ftdi.go: `FTDITransport`, which connects again when a read or a write fails. A
-- method is one step; the USB library answers the connection with the number `n` by `usb n`.
pub mod Errors
pub mod Resources
pub mod Calls
pub mod Lifetime
pub mod Sending
pub mod Reconnection
pub mod Device
pub mod Standing
mod Runs
use qdp.Base.{
  ℕ, ◌+◌, ◌==◌, if◌then◌else◌, List, [], ◌∷◌, ◌++◌, map, length, Bool, true, false, ◌&&◌, not,
  Option, none, some,
}
use qdp.Result.{Error, Result, ok, err, panic, failure}
use qdp.Message.{Message, encode}
use qdp.Reader.{ReadFn, Reader, new_message_reader, read_message}
use qdp.TcpClient.{Notice, on_connect, on_disconnect}
use qdp.Ftdi.Config.{FtdiConfig}
use qdp.Ftdi.Endpoint.{Transfer, EndpointReader, new_endpoint_reader}
use qdp.Ftdi.Endpoint
use qdp.Ftdi.Writing.{Sent, Writing, write_chunked}
use qdp.Ftdi.Usb.{
  Handle, usb_context, usb_device, usb_config, usb_interface, close_handle, close_handles, Bus,
  ConnectError, connect_usb,
}
use Errors.{ForeignErrors, is_usb_disconnect_error}

-- `endpointReader.Read` as an io.Reader. It does not panic where the packets fit its buffer; a panic
-- stands here as an error.
unfoldable pub as_answer : Result (List ℕ) × EndpointReader → List ℕ × Option Error × EndpointReader
as_answer (ok bs, r) = (bs, none, r)
as_answer (err e, r) = ([], some e, r)
as_answer (panic, r) = ([], some (failure 0), r)

unfoldable pub endpoint_read : (ℕ → Transfer) → ReadFn EndpointReader
endpoint_read packets r n = as_answer (Endpoint.read packets n r)

-- `attempts` counts the contexts made. The context, the device, the configuration and the interface
-- are nil or those of one connection, `resources`; the endpoints are those of `endpoints`, also when
-- they are closed. `writes` counts the calls of WriteContext of that endpoint, `wire` has the packets
-- passed to WriteContext with their connection, and `live` the handles that are open.
pub record FtdiTransport : Type 0 where
  pub config : FtdiConfig
  pub has_handler : Bool
  pub cancelled : Bool
  pub disconnected : Bool
  pub attempts : ℕ
  pub resources : Option ℕ
  pub endpoints : ℕ
  pub writes : ℕ
  pub reader : Option (Reader EndpointReader)
  pub wire : List (ℕ × List ℕ)
  pub live : List Handle
  pub notices : List Notice

-- What a method gives: a value, or an error, which may be that of a failed reconnection.
pub data Outcome (X : Type 0) : Type 0 where
  success : X → Outcome X
  not_initialized panics : Outcome X
  plain_error : Error → Outcome X
  reconnect_failed : ConnectError → Outcome X

-- A call of the connection handler, if there is one.
unfoldable pub notice : Notice → FtdiTransport → FtdiTransport
notice n t = record t { notices = if t.has_handler then t.notices ++ (n ∷ []) else t.notices }

-- `connect` with the context of the number `t.attempts`: what it does to the transport.
unfoldable pub after_connect :
    Option ConnectError × List Handle → FtdiTransport → Option ConnectError × FtdiTransport
after_connect (some e, live) t = (some e, record t { attempts = t.attempts + 1; live = live })
after_connect (none, live) t = (
  none,
  notice on_connect (record t {
    attempts = t.attempts + 1;
    live = live;
    resources = some t.attempts;
    endpoints = t.attempts;
    writes = 0;
    reader = some (new_message_reader new_endpoint_reader);
    disconnected = false;
  }),
)

unfoldable pub connect : (ℕ → Bus) → FtdiTransport → Option ConnectError × FtdiTransport
connect usb t =
    after_connect
      (connect_usb t.config (usb t.attempts) (some t.attempts) (usb_context t.attempts ∷ t.live)) t

-- NewFTDITransport: after the connection the reader is made again, with a nil buffer.
unfoldable pub new_transport : FtdiConfig → Bool → FtdiTransport
new_transport config has_handler = record {
  config = config;
  has_handler = has_handler;
  cancelled = false;
  disconnected = false;
  attempts = 0;
  resources = none;
  endpoints = 0;
  writes = 0;
  reader = none;
  wire = [];
  live = [];
  notices = [];
}

unfoldable pub with_new_reader :
    Option ConnectError × FtdiTransport → Option ConnectError × FtdiTransport
with_new_reader (some e, t) = (some e, record t { cancelled = true })
with_new_reader (none, t) = (
  none,
  record t { reader = some (new_message_reader (record new_endpoint_reader { buf = none })) },
)

unfoldable pub new_ftdi_transport :
    (ℕ → Bus) → FtdiConfig → Bool → Option ConnectError × FtdiTransport
new_ftdi_transport usb config has_handler =
    with_new_reader (connect usb (new_transport config has_handler))

pub close_held : Option ℕ → List Handle → List Handle
close_held none live = live
close_held (some c) live =
    close_handles (usb_interface c ∷ usb_config c ∷ usb_device c ∷ usb_context c ∷ []) live

unfoldable pub close_resources : FtdiTransport → FtdiTransport
close_resources t = record t { live = close_held t.resources t.live; resources = none }

-- A failed connection has closed the context `c`, which then is closed once more.
unfoldable pub close_failed :
    ℕ → Option ConnectError × FtdiTransport → Option ConnectError × FtdiTransport
close_failed c (some e, t) = (some e, record t { live = close_handle (usb_context c) t.live })
close_failed c (none, t) = (none, t)

unfoldable pub try_reconnect : (ℕ → Bus) → FtdiTransport → Option ConnectError × FtdiTransport
try_reconnect usb t = close_failed t.attempts (connect usb (close_resources t))

-- `if isUsbDisconnectError(err) && !t.disconnected.Load()`. The handler is given `err` with a prefix.
unfoldable pub note_usb_error : ForeignErrors → Error → FtdiTransport → FtdiTransport
note_usb_error foreign e t =
    if is_usb_disconnect_error foreign e && not t.disconnected
    then notice (on_disconnect (some e)) (record t { disconnected = true })
    else t

-- `if t.disconnected.Load()`, after a success
unfoldable pub note_success : FtdiTransport → FtdiTransport
note_success t = if t.disconnected then notice on_connect (record t { disconnected = false }) else t

unfoldable pub with_reader :
    FtdiTransport
    → Option (Result Message × Reader EndpointReader)
    → Option (Result Message × FtdiTransport)
with_reader t none = none
with_reader t (some (res, r)) = some (res, record t { reader = some r })

-- t.reader.ReadMessage(), within `fuel` rounds.
unfoldable pub read_reader :
    (ℕ → Bus) → ℕ → Reader EndpointReader → FtdiTransport → Option (Result Message × FtdiTransport)
read_reader usb fuel r t =
    with_reader t (read_message (endpoint_read (usb t.endpoints).packets) fuel r)

pub as_outcome : {X : Type 0} → Result X → Outcome X
as_outcome (ok x) = success x
as_outcome (err e) = plain_error e
as_outcome panic = panics

unfoldable pub last_read :
    Option (Result Message × FtdiTransport) → Option (Outcome Message × FtdiTransport)
last_read none = none
last_read (some (res, t)) = some (as_outcome res, t)

-- The second read gives what the new reader gives.
pub read_again :
    (ℕ → Bus)
    → ℕ
    → Option (Reader EndpointReader)
    → FtdiTransport
    → Option (Outcome Message × FtdiTransport)
read_again usb fuel none t = some (not_initialized, t)
read_again usb fuel (some r) t = last_read (read_reader usb fuel r t)

unfoldable pub after_read_reconnect :
    (ℕ → Bus) → ℕ → Option ConnectError × FtdiTransport → Option (Outcome Message × FtdiTransport)
after_read_reconnect usb fuel (some e, t) = some (reconnect_failed e, t)
after_read_reconnect usb fuel (none, t) = read_again usb fuel t.reader t

module _ (foreign : ForeignErrors) (usb : ℕ → Bus) where
  unfoldable pub after_read :
      ℕ → Option (Result Message × FtdiTransport) → Option (Outcome Message × FtdiTransport)
  after_read fuel none = none
  after_read fuel (some (ok m, t)) = some (success m, note_success t)
  after_read fuel (some (err e, t)) =
      after_read_reconnect usb fuel (try_reconnect usb (note_usb_error foreign e t))
  after_read fuel (some (panic, t)) = some (panics, t)

  unfoldable pub read_from :
      ℕ → Option (Reader EndpointReader) → FtdiTransport → Option (Outcome Message × FtdiTransport)
  read_from fuel none t = some (not_initialized, t)
  read_from fuel (some r) t = after_read fuel (read_reader usb fuel r t)

  -- ReadMessage; `none` if `fuel` rounds of the MessageReader do not end it.
  unfoldable pub read : ℕ → FtdiTransport → Option (Outcome Message × FtdiTransport)
  read fuel t = read_from fuel t.reader t

-- writeChunked on the current endpoint.
pub writing : (ℕ → Bus) → List ℕ → FtdiTransport → Writing
writing usb bytes t = write_chunked (λ i p. (usb t.endpoints).send (t.writes + i) p) bytes

unfoldable pub written_by : (ℕ → Bus) → List ℕ → FtdiTransport → FtdiTransport
written_by usb bytes t =
    let w = writing usb bytes t in
    record t {
      writes = t.writes + length w.packets;
      wire = t.wire ++ map (λ p. (t.endpoints, p)) w.packets;
    }

pub second_outcome : Option Error → FtdiTransport → Outcome (Unit {0}) × FtdiTransport
second_outcome none t = (success tt, note_success t)
second_outcome (some e) t = (plain_error e, t)

pub after_write_reconnect :
    (ℕ → Bus) → List ℕ → Option ConnectError × FtdiTransport → Outcome (Unit {0}) × FtdiTransport
after_write_reconnect usb bytes (some e, t) = (reconnect_failed e, t)
after_write_reconnect usb bytes (none, t) =
    second_outcome (Writing.error (writing usb bytes t)) (written_by usb bytes t)

module _ (foreign : ForeignErrors) (usb : ℕ → Bus) where
  unfoldable pub after_write :
      List ℕ → Option Error → FtdiTransport → Outcome (Unit {0}) × FtdiTransport
  after_write bytes none t = (success tt, note_success t)
  after_write bytes (some e) t =
      after_write_reconnect usb bytes (try_reconnect usb (note_usb_error foreign e t))

  pub write_encoded : Result (List ℕ) → FtdiTransport → Outcome (Unit {0}) × FtdiTransport
  write_encoded (ok bytes) t =
      after_write bytes (Writing.error (writing usb bytes t)) (written_by usb bytes t)
  write_encoded (err e) t = (plain_error e, t)
  write_encoded panic t = (panics, t)

  unfoldable pub write : Message → FtdiTransport → Outcome (Unit {0}) × FtdiTransport
  write m t = write_encoded (encode m) t

-- `t.connectionHandler != nil && t.disconnected.CompareAndSwap(false, true)`
unfoldable pub note_closed : FtdiTransport → FtdiTransport
note_closed t =
    if t.has_handler && not t.disconnected
    then notice (on_disconnect none) (record t { disconnected = true })
    else t

unfoldable pub close : FtdiTransport → FtdiTransport
close t = close_resources (note_closed (record t { cancelled = true }))
