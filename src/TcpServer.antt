-- ===== src/TcpServer.antt =====
-- lib/go/transport_tcp.go: `TCPServerTransport`, its state, its accept loop and its methods. The methods
-- are one event each; `handleClientReads`, in Reading, is one for each client that a broadcast reaches.
pub mod Reading
pub mod Events
pub mod Broadcast
pub mod Clients
pub mod Methods
pub mod Loops
pub mod Consistency
pub mod Growth
pub mod Relay
pub mod RelayLoops
pub mod Relayed
pub mod Turns
pub mod Winding
pub mod Ending
pub mod Ended
pub mod Turning
pub mod Waiting
mod Runs
use qdp.Base.{
  ℕ, zero, suc, ◌+◌, ltb, ◌==◌, if◌then◌else◌, List, [], ◌∷◌, ◌++◌, length, Bool, true, false, ◌&&◌,
  not, Option, none, some,
}
use qdp.Result.{Error, Result, ok, err, panic, eof}
use qdp.Message.{Message}
use qdp.Reader.{ReadFn}
use qdp.TcpClient.{Notice, on_connect, on_disconnect, TcpClient, new_tcp_client_from_conn}
use qdp.TcpClient

-- The capacity of msgCh.
abbrev pub msg_ch_size : ℕ
msg_ch_size = 100

-- A call of clients.Range in progress: which clients were in the map when it began, how many had been
-- accepted, and which it has reached. `before` has what each had been sent when it began.
pub record Range : Type 0 where
  pub present : ℕ → Bool
  pub bound : ℕ
  pub reached : List ℕ
  pub before : ℕ → List (List ℕ)

-- Where `handleClientReads` stands: at the head of its loop, in ReadMessage of the client, in the
-- broadcast of a message, at the send of it to msgCh, or returned. `at_send` keeps the broadcast.
pub data ReadLoop : Type 0 where
  at_head in_read stopped : ReadLoop
  at_range at_send : Message → Range → ReadLoop

-- A client and its read loop; `listed` is that it is in the map `clients`. `received` and `dropped`
-- have the messages that its ReadMessage has given, and those of them that did not get into msgCh.
pub record Client (S : Type 0) : Type 0 where
  pub socket : TcpClient S
  pub listed : Bool
  pub read_loop : ReadLoop
  pub received : List Message
  pub dropped : List Message

-- Clients go by the order in which they were accepted. `puts` has what was sent to msgCh, with the
-- client, and `taken` what ReadMessage has given.
pub record TcpServer (S : Type 0) : Type 0 where
  pub has_handler : Bool
  pub cancelled : Bool
  pub disconnected : Bool
  pub accepting : Bool
  pub accepted : ℕ
  pub clients : ℕ → Option (Client S)
  pub msg_ch : List Message
  pub notices : List Notice
  pub puts : List (ℕ × Message)
  pub taken : List Message

-- The answers of the connections in one event, by the client.
pub record Network : Type 0 where
  pub conn_write : ℕ → List ℕ → Option Error
  pub conn_close : ℕ → Option Error

-- NewTCPServerTransport, once net.Listen has given the listener.
pub new_tcp_server : {S : Type 0} → Bool → TcpServer S
new_tcp_server has_handler = record {
  has_handler = has_handler;
  cancelled = false;
  disconnected = false;
  accepting = true;
  accepted = 0;
  clients = λ i. none;
  msg_ch = [];
  notices = if has_handler then on_connect ∷ [] else [];
  puts = [];
  taken = [];
}

-- `if t.connectionHandler != nil && t.disconnected.CompareAndSwap(false, true) { ... }`
pub notify_end : {S : Type 0} → Option Error → TcpServer S → TcpServer S
notify_end e t =
    if t.has_handler && not t.disconnected
    then record t { disconnected = true; notices = t.notices ++ (on_disconnect e ∷ []) }
    else t

pub set : {S : Type 0} → ℕ → Client S → (ℕ → Option (Client S)) → ℕ → Option (Client S)
set i c clients j = if j == i then some c else clients j

pub new_client : {S : Type 0} → S → Client S
new_client s = record {
  socket = new_tcp_client_from_conn s false;
  listed = true;
  read_loop = at_head;
  received = [];
  dropped = [];
}

-- acceptLoop: Accept gives a connection, or the loop returns, since the context is done or Accept
-- gives an error. The context may be done after the test of it.
pub accept_conn : {S : Type 0} → S → TcpServer S → TcpServer S
accept_conn s t =
    if t.accepting
    then record t { accepted = t.accepted + 1; clients = set t.accepted (new_client s) t.clients }
    else t

pub stop_accepting : {S : Type 0} → TcpServer S → TcpServer S
stop_accepting t = if t.accepting then notify_end none (record t { accepting = false }) else t

-- `if err := client.WriteMessage(msg); err != nil { ...Delete(client); client.Close() }`
pub after_send :
    {S : Type 0} → Network → ℕ → Result (Option Error) × TcpClient S → Client S → Client S
after_send net i (ok none, s) c = record c { socket = s }
after_send net i (ok (some e), s) c = record c {
  socket = (TcpClient.close (net.conn_close i) s).1;
  listed = false;
}
after_send net i (err e, s) c = record c {
  socket = (TcpClient.close (net.conn_close i) s).1;
  listed = false;
}
after_send net i (panic, s) c = record c { socket = s }

unfoldable pub send_to : {S : Type 0} → Network → Message → ℕ → Client S → Client S
send_to net m i c =
    if c.listed then after_send net i (TcpClient.write (net.conn_write i) m c.socket) c else c

pub map_client : {S : Type 0} → (Client S → Client S) → Option (Client S) → Option (Client S)
map_client f none = none
map_client f (some c) = some (f c)

pub send_all : {S : Type 0} → Network → Message → (ℕ → Option (Client S)) → ℕ → Option (Client S)
send_all net m clients i = map_client (send_to net m i) (clients i)

-- ReadMessage: it gives io.EOF only where the context is done, and may also then give a message. It
-- waits where there is neither.
pub take_from : {S : Type 0} → List Message → TcpServer S → Option (Message × TcpServer S)
take_from [] t = none
take_from (m ∷ ms) t = some (m, record t { msg_ch = ms; taken = t.taken ++ (m ∷ []) })

pub read_eof : {S : Type 0} → TcpServer S → Option Error
read_eof t = if t.cancelled then some eof else none

-- WriteMessage: the errors that its error has, which is nil if there are none.
pub errors_of : {X : Type 0} → Result (Option Error) × X → List Error
errors_of (ok none, x) = []
errors_of (ok (some e), x) = e ∷ []
errors_of (err e, x) = e ∷ []
errors_of (panic, x) = []

pub send_errors : {S : Type 0} → Network → Message → ℕ → Option (Client S) → List Error
send_errors net m i none = []
send_errors net m i (some c) =
    if c.listed then errors_of (TcpClient.write (net.conn_write i) m c.socket) else []

pub broadcast_errors : {S : Type 0} → Network → Message → (ℕ → Option (Client S)) → ℕ → List Error
broadcast_errors net m clients zero = []
broadcast_errors net m clients (suc n) =
    broadcast_errors net m clients n ++ send_errors net m n (clients n)

pub write_message : {S : Type 0} → Network → Message → TcpServer S → List Error × TcpServer S
write_message net m t =
    (broadcast_errors net m t.clients t.accepted, record t { clients = send_all net m t.clients })

-- Close, which leaves its clients in the map; then it waits for the loops to return.
pub close_client : {S : Type 0} → Network → ℕ → Client S → Client S
close_client net i c =
    if c.listed then record c { socket = (TcpClient.close (net.conn_close i) c.socket).1 } else c

pub close_clients : {S : Type 0} → Network → TcpServer S → TcpServer S
close_clients net t = record t {
  cancelled = true;
  clients = λ i. map_client (close_client net i) (t.clients i);
}

-- `closed` is what listener.Close gives.
pub close_server : {S : Type 0} → Network → Option Error → TcpServer S → Option Error × TcpServer S
close_server net closed t = (closed, notify_end closed (close_clients net t))
