-- ===== src/TcpClient.antt =====
-- lib/go/transport_tcp.go: `TCPClientTransport`, and `writeMessage` of lib/go/qdp.go on its
-- connection. A method is one step: its parts that another goroutine could come between are the
-- test of the context and the CompareAndSwap, and the latter is atomic.
pub mod Notices
pub mod Closing
pub mod Ends
mod Runs
use qdp.Base.{
  ℕ, if◌then◌else◌, List, [], ◌∷◌, ◌++◌, Bool, true, false, ◌&&◌, not, Option, none, some,
}
use qdp.Result.{Error, Result, ok, err, panic, eof, ◌>>=◌}
use qdp.Message.{Message, written_bytes}
use qdp.Reader.{ReadFn, Reader, new_message_reader, read_message}

-- The calls of the connection handler, in order. `on_disconnect` has the error it was given.
pub data Notice : Type 0 where
  on_connect : Notice
  on_disconnect : Option Error → Notice

-- `S` is the state of the connection as an io.Reader. `has_handler` is `connectionHandler != nil`,
-- `cancelled` that the context is done. `sent` has the arguments of conn.Write, `notices` the calls of
-- the handler.
pub record TcpClient (S : Type 0) : Type 0 where
  pub reader : Reader S
  pub has_handler : Bool
  pub cancelled : Bool
  pub disconnected : Bool
  pub sent : List (List ℕ)
  pub notices : List Notice

-- NewTCPClientTransport, once net.Dial has given the connection.
unfoldable pub new_tcp_client : {S : Type 0} → S → Bool → TcpClient S
new_tcp_client s has_handler = record {
  reader = new_message_reader s;
  has_handler = has_handler;
  cancelled = false;
  disconnected = false;
  sent = [];
  notices = if has_handler then on_connect ∷ [] else [];
}

unfoldable pub new_tcp_client_from_conn : {S : Type 0} → S → Bool → TcpClient S
new_tcp_client_from_conn s has_handler = record {
  reader = new_message_reader s;
  has_handler = has_handler;
  cancelled = false;
  disconnected = false;
  sent = [];
  notices = [];
}

-- `if t.connectionHandler != nil && t.disconnected.CompareAndSwap(false, true) { ... }`
unfoldable pub notify_disconnect : {S : Type 0} → Option Error → TcpClient S → TcpClient S
notify_disconnect e t =
    if t.has_handler && not t.disconnected
    then record t { disconnected = true; notices = t.notices ++ (on_disconnect e ∷ []) }
    else t

unfoldable pub after_read :
    {S : Type 0} → Result Message × Reader S → TcpClient S → Result Message × TcpClient S
after_read (ok m, r) t = (ok m, record t { reader = r })
after_read (err e, r) t = (err e, notify_disconnect (some e) (record t { reader = r }))
after_read (panic, r) t = (panic, record t { reader = r })

-- `none` if `fuel` rounds of the MessageReader do not end it.
unfoldable pub read :
    {S : Type 0} → ReadFn S → ℕ → TcpClient S → Option (Result Message × TcpClient S)
read conn_read fuel t =
    if t.cancelled then some (err eof, t) else elim (read_message conn_read fuel t.reader) [
      | none ↦ none
      | some outcome ↦ some (after_read outcome t)
    ]

-- `w.Write(msgData)`: the connection answers the bytes with an error or nil.
unfoldable pub send :
    {S : Type 0}
    → (List ℕ → Option Error)
    → Result (List ℕ)
    → TcpClient S
    → Result (Option Error) × TcpClient S
send conn_write (ok bytes) t = (ok (conn_write bytes), record t { sent = t.sent ++ (bytes ∷ []) })
send conn_write (err e) t = (err e, t)
send conn_write panic t = (panic, t)

unfoldable pub write :
    {S : Type 0}
    → (List ℕ → Option Error)
    → Message
    → TcpClient S
    → Result (Option Error) × TcpClient S
write conn_write m t =
    if t.cancelled then (ok (some eof), t) else send conn_write (written_bytes m) t

-- `closed` is what conn.Close gives.
unfoldable pub close : {S : Type 0} → Option Error → TcpClient S → Option Error × TcpClient S
close closed t = (closed, notify_disconnect closed (record t { cancelled = true }))
