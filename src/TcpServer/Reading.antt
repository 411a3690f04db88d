-- ===== src/TcpServer/Reading.antt =====
-- lib/go/transport_tcp.go: `handleClientReads`, the read loop of a client of the TCP server. Its steps
-- are separate events, between which others can come.
use qdp.Base.{
  ℕ, zero, suc, ltb, leb, ◌==◌, if◌then◌else◌, List, [], ◌∷◌, ◌++◌, length, Bool, true, false, ◌&&◌,
  ◌||◌, not, Option, none, some,
}
use qdp.Result.{Result, ok, err, panic}
use qdp.Message.{Message}
use qdp.Reader.{ReadFn}
use qdp.TcpClient.{TcpClient}
use qdp.TcpClient
use qdp.TcpServer.{
  msg_ch_size, Range, ReadLoop, at_head, in_read, stopped, at_range, at_send, Client, TcpServer,
  Network, set, after_send,
}

-- handleClientReads: the select at the head of the loop,
unfoldable pub enter_read : {S : Type 0} → ℕ → Client S → TcpServer S → TcpServer S
enter_read i c t = record t {
  clients = set i (record c { read_loop = if t.cancelled then stopped else in_read }) t.clients;
}

-- what ReadMessage gives, where a panic would end the program; a message begins a broadcast,
unfoldable pub is_listed : {S : Type 0} → Option (Client S) → Bool
is_listed none = false
is_listed (some c) = c.listed

unfoldable pub sent_to : {S : Type 0} → Option (Client S) → List (List ℕ)
sent_to none = []
sent_to (some c) = c.socket.sent

unfoldable pub begin_range : {S : Type 0} → TcpServer S → Range
begin_range t = record {
  present = λ j. is_listed (t.clients j);
  bound = t.accepted;
  reached = [];
  before = λ j. sent_to (t.clients j);
}

unfoldable pub after_receive :
    {S : Type 0} → ℕ → Client S → Option (Result Message × TcpClient S) → TcpServer S → TcpServer S
after_receive i c none t = t
after_receive i c (some (ok m, s)) t = record t {
  clients =
      set i
        (record c {
          socket = s;
          read_loop = at_range m (begin_range t);
          received = c.received ++ (m ∷ []);
        })
        t.clients;
}
after_receive i c (some (err e, s)) t = record t {
  clients = set i (record c { socket = s; read_loop = stopped; listed = false }) t.clients;
}
after_receive i c (some (panic, s)) t = record t {
  clients = set i (record c { socket = s; read_loop = stopped }) t.clients;
}

-- the broadcast, which reaches a client at most once: each that is in the map from its beginning to its
-- end, in any order, and it may reach one that was in the map for a part of that; it passes over the
-- client that sent the message,
unfoldable pub is_member : ℕ → List ℕ → Bool
is_member j [] = false
is_member j (k ∷ ks) = k == j || is_member j ks

unfoldable pub may_reach : ℕ → Range → Bool
may_reach j r = not (is_member j r.reached) && (r.present j || leb r.bound j)

unfoldable pub mark_reached : ℕ → Range → Range
mark_reached j r = record r { reached = j ∷ r.reached }

unfoldable pub at_client :
    {S : Type 0}
    → Network
    → ℕ
    → Client S
    → Message
    → Range
    → ℕ
    → Option (Client S)
    → TcpServer S
    → TcpServer S
at_client net i c m r j none t = t
at_client net i c m r j (some d) t =
    let passed = set i (record c { read_loop = at_range m (mark_reached j r) }) t.clients in
    if j == i then record t { clients = passed } else record t {
      clients = set j (after_send net j (TcpClient.write (net.conn_write j) m d.socket) d) passed;
    }

unfoldable pub reach_client :
    {S : Type 0} → Network → ℕ → Client S → Message → Range → ℕ → TcpServer S → TcpServer S
reach_client net i c m r j t = if may_reach j r then at_client net i c m r j (t.clients j) t else t

-- whose end comes when no client that has been in the map since the beginning is left out,
unfoldable pub is_over : {S : Type 0} → (ℕ → Option (Client S)) → Range → ℕ → Bool
is_over clients r zero = true
is_over clients r (suc j) =
    is_over clients r j && (not (r.present j && is_listed (clients j)) || is_member j r.reached)

unfoldable pub end_range : {S : Type 0} → ℕ → Client S → Message → Range → TcpServer S → TcpServer S
end_range i c m r t =
    if is_over t.clients r r.bound
    then record t { clients = set i (record c { read_loop = at_send m r }) t.clients }
    else t

-- and the select of the send to msgCh and the context.
unfoldable pub put : {S : Type 0} → ℕ → Client S → Message → TcpServer S → TcpServer S
put i c m t = record t {
  clients = set i (record c { read_loop = at_head }) t.clients;
  msg_ch = t.msg_ch ++ (m ∷ []);
  puts = t.puts ++ ((i, m) ∷ []);
}

unfoldable pub give_up : {S : Type 0} → ℕ → Client S → Message → TcpServer S → TcpServer S
give_up i c m t = record t {
  clients = set i (record c { read_loop = stopped; dropped = m ∷ [] }) t.clients;
}

-- What a step of the loop does where more than one thing can happen: go on, stop since the context is
-- done, or reach a client.
pub data Choice : Type 0 where
  goes_on gives_up : Choice
  reaches : ℕ → Choice

unfoldable pub range_step :
    {S : Type 0} → Network → Choice → ℕ → Client S → Message → Range → TcpServer S → TcpServer S
range_step net goes_on i c m r t = end_range i c m r t
range_step net gives_up i c m r t = t
range_step net (reaches j) i c m r t = reach_client net i c m r j t

unfoldable pub send_or_stop :
    {S : Type 0} → Choice → ℕ → Client S → Message → TcpServer S → TcpServer S
send_or_stop goes_on i c m t = if ltb (length t.msg_ch) msg_ch_size then put i c m t else t
send_or_stop gives_up i c m t = if t.cancelled then give_up i c m t else t
send_or_stop (reaches j) i c m t = t

module _ {S : Type 0} (conn_read : ReadFn S) where
  -- The next step of a read loop. The client's ReadMessage has `fuel` rounds; if they do not end it,
  -- it goes on.
  unfoldable pub client_step :
      Network → ℕ → Choice → ℕ → Client S → ReadLoop → TcpServer S → TcpServer S
  client_step net fuel choice i c at_head t = enter_read i c t
  client_step net fuel choice i c in_read t =
      after_receive i c (TcpClient.read conn_read fuel c.socket) t
  client_step net fuel choice i c (at_range m r) t = range_step net choice i c m r t
  client_step net fuel choice i c (at_send m r) t = send_or_stop choice i c m t
  client_step net fuel choice i c stopped t = t

  unfoldable pub step_of : Network → ℕ → Choice → ℕ → Option (Client S) → TcpServer S → TcpServer S
  step_of net fuel choice i none t = t
  step_of net fuel choice i (some c) t = client_step net fuel choice i c c.read_loop t
