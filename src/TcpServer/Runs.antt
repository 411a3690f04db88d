-- ===== src/TcpServer/Runs.antt =====
-- lib/go/transport_tcp.go: a TCP server with concrete clients.
use qdp.Base.{
  ℕ, zero, suc, ◌≡◌, refl, ap, ◌∙◌, arith, ◌==◌, if◌then◌else◌, ◌++◌, append-nil, List, [], ◌∷◌,
  take, take-all, drop, true, false, none, some,
}
use qdp.Result.{Error, Result, ok, eof, failure}
use qdp.Message.{Message}
use qdp.Message.Encoding.{written_bytes-frame}
use qdp.Message.Frame.{frame}
use qdp.Reader.{ReadFn, Reader, new_message_reader, read_message}
use qdp.Reader.Chunks.{fed, feed}
use qdp.Reader.Assembly.{read_message-chunks}
use qdp.TcpClient.{on_connect, on_disconnect, new_tcp_client_from_conn, send}
use qdp.TcpClient
use qdp.TcpServer.{
  Client, TcpServer, Network, stopped, map_client, close_client, in_read, at_range, at_send,
  new_tcp_server, write_message, set, new_client, accept_conn, close_server, close_clients,
  notify_end, stop_accepting, after_send,
}
use qdp.TcpServer.Reading.{
  goes_on, reaches, client_step, step_of, enter_read, after_receive, begin_range, is_listed,
  sent_to, is_member, may_reach, mark_reached, at_client, reach_client, is_over, end_range,
  range_step,
}
use qdp.TcpServer.Events.{Event, accepts, accept_returns, takes, steps, closes, happens, run}
use qdp.TcpServer.Methods.{IsConsistent}
use qdp.TcpServer.Consistency.{run-new_tcp_server}
use qdp.TcpServer.Turns.{Turn, run_turns, rank, unreached}
use qdp.TcpServer.Waiting.{run_turns-stopped}
use qdp.TcpServer.Relayed.{run-relayed}
use qdp.TcpServer.Broadcast.{Reached, write_message-Reached}

abbrev hello : Message
hello = record { topic = b'h' ∷ []; payload = b'i' ∷ [] }

-- A peer that sends one frame and then closes the connection.
abbrev peer : ReadFn ℕ
peer zero n = (take n (frame hello), none, 1)
peer (suc s) n = ([], some eof, 1)

-- The connection of the second client is broken.
abbrev network : Network
network = record {
  conn_write = λ i bytes. if i == 1 then some (failure 7) else none;
  conn_close = λ i. none;
}

-- Two clients are accepted; the first sends its message, which the second does not take, and ends.
abbrev session : List (Event ℕ)
session =
    accepts 0
    ∷ accepts 1
    ∷ steps network 4 goes_on 0
    ∷ steps network 4 goes_on 0
    ∷ steps network 4 (reaches 1) 0
    ∷ steps network 4 (reaches 0) 0
    ∷ steps network 4 goes_on 0
    ∷ steps network 4 goes_on 0
    ∷ takes
    ∷ closes network none
    ∷ accept_returns
    ∷ []

run-new_tcp_server_example :
    IsConsistent (if true then on_connect ∷ [] else []) (run peer session (new_tcp_server true))
run-new_tcp_server_example = run-new_tcp_server peer true session

abbrev server : TcpServer ℕ
server = record {
  has_handler = true;
  cancelled = false;
  disconnected = false;
  accepting = true;
  accepted = 2;
  clients = set 0 (new_client 0) (set 1 (new_client 1) (λ i. none));
  msg_ch = [];
  notices = on_connect ∷ [];
  puts = [];
  taken = [];
}

second_client : server.clients 1 ≡ some (new_client 1)
unfolding set
second_client = refl

write_message-Reached_example :
    (c' : Client ℕ) × (own : List Error) × (es : List Error) × (fs : List Error) × ((write_message
          network hello server).1.clients
        1
      ≡ some c')
    × Reached network (frame hello) 1 (new_client 1) c' own
    × ((write_message network hello server).0 ≡ es ++ (own ++ fs))
write_message-Reached_example =
    write_message-Reached network hello server 1 (new_client 1) (omega arith) (omega arith)
      second_client

-- Close and the return of the accept loop are told to the handler once.
ended_once :
    (run peer
      (accepts 0 ∷ closes network (some eof) ∷ accept_returns ∷ [])
      (new_tcp_server true)).notices
    ≡ on_connect ∷ on_disconnect (some eof) ∷ []
unfolding run happens new_tcp_server accept_conn close_server close_clients notify_end
    stop_accepting
ended_once = refl

-- The second client takes the message of the first, whose loop then is about to send it to msgCh.
abbrev good_network : Network
good_network = record { conn_write = λ i bytes. none; conn_close = λ i. none }

abbrev relaying : List (Event ℕ)
relaying =
    accepts 0
    ∷ accepts 1
    ∷ steps good_network 4 goes_on 0
    ∷ steps good_network 4 goes_on 0
    ∷ steps good_network 4 (reaches 1) 0
    ∷ steps good_network 4 (reaches 0) 0
    ∷ steps good_network 4 goes_on 0
    ∷ []

-- What the connection of the first client gives.
first_reads : (r : Reader ℕ) × (read_message peer 4 (new_message_reader 0) ≡ some (ok hello, r))
first_reads =
    let (r, reads, at_end, whole) =
      read_message-chunks peer hello (omega arith) (omega arith) 0 (frame hello ∷ []) 4
        (feed {s' = 1} (omega arith) (λ n h. ap (λ c. (c, none, 1)) (take-all n (frame hello) h))
          fed)
        (append-nil (frame hello)) (omega arith) in
    (r, reads)

abbrev two_clients : TcpServer ℕ
two_clients = run peer (take 3 relaying) (new_tcp_server true)

abbrev reading_client : Client ℕ
reading_client = record (new_client 0) { read_loop = in_read }

-- The first client with its message, from which the broadcast has reached the clients `js`.
abbrev broadcaster : List ℕ → Client ℕ
broadcaster js = record (new_client 0) {
  socket = record (new_tcp_client_from_conn 0 false) { reader = first_reads.0 };
  read_loop = at_range hello (record (begin_range two_clients) { reached = js });
  received = hello ∷ [];
}

abbrev after_write : Result (List ℕ) → TcpServer ℕ
after_write bytes = record two_clients {
  clients =
      set 1
        (after_send good_network 1 (send (good_network.conn_write 1) bytes (new_client 1).socket)
          (new_client 1))
        (set 0 (broadcaster (1 ∷ [])) (set 0 (broadcaster []) two_clients.clients));
}

received_lem :
    run peer (take 4 relaying) (new_tcp_server true)
    ≡ record two_clients { clients = set 0 (broadcaster []) two_clients.clients }
unfolding run happens new_tcp_server accept_conn set new_client step_of client_step enter_read
    after_receive begin_range TcpClient.read TcpClient.after_read new_tcp_client_from_conn
received_lem =
    ap
      (λ o.
        after_receive 0 reading_client
          (elim o [
            | none ↦ none
            | some outcome ↦ some (TcpClient.after_read outcome reading_client.socket)
          ])
          two_clients)
      first_reads.1

relaying_lem :
    run peer relaying (new_tcp_server true)
    ≡ run peer (drop 5 relaying) (after_write (ok (frame hello)))
unfolding run happens new_tcp_server accept_conn set new_client step_of client_step begin_range
    is_listed is_member may_reach mark_reached at_client reach_client range_step TcpClient.write
    new_tcp_client_from_conn after_send send enter_read
relaying_lem =
    ap (run peer (drop 4 relaying)) received_lem
    ∙ ap (λ bytes. run peer (drop 5 relaying) (after_write bytes))
        (written_bytes-frame hello (omega arith))

abbrev second : Client ℕ
second = record (new_client 1) {
  socket = record (new_tcp_client_from_conn 1 false) { sent = frame hello ∷ [] };
}

run-relayed_example :
    (xs : List (List ℕ)) × (ys : List (List ℕ)) × (second.socket.sent
      ≡ sent_to (two_clients.clients 1) ++ (xs ++ (frame hello ∷ ys)))
unfolding enter_read new_message_reader set new_client accept_conn is_listed is_member is_over
    end_range run happens step_of client_step range_step new_tcp_server may_reach mark_reached
    reach_client at_client begin_range after_send send new_tcp_client_from_conn
run-relayed_example =
    run-relayed peer true relaying 0 1
      (record (broadcaster (0 ∷ 1 ∷ [])) {
        read_loop = at_send hello (record (begin_range two_clients) { reached = 0 ∷ 1 ∷ [] });
      })
      second hello (record (begin_range two_clients) { reached = 0 ∷ 1 ∷ [] })
      (ap (λ t. t.clients 0) relaying_lem) refl (omega arith) (ap (λ t. t.clients 1) relaying_lem)
      refl refl refl

-- Close comes in the middle of the broadcast of the first client.
abbrev closed_broadcaster : Client ℕ
closed_broadcaster = record (broadcaster []) {
  socket = (TcpClient.close none (broadcaster []).socket).1;
}

abbrev turn : Turn ℕ
turn = record { events = []; net = good_network; fuel = 4 }

run_turns-stopped_example :
    (c' : Client ℕ) × ((run_turns peer 0 (turn ∷ turn ∷ turn ∷ turn ∷ turn ∷ []) (
          happens peer
            (closes good_network none)
            (run peer (take 4 relaying) (new_tcp_server true)))).clients
        0
      ≡ some c')
    × (c'.read_loop ≡ stopped)
unfolding happens close_server close_clients notify_end map_client close_client run set rank
    unreached is_member begin_range accept_conn new_tcp_server step_of client_step new_client
    enter_read
run_turns-stopped_example =
    run_turns-stopped peer true (take 4 relaying) [] good_network none
      (turn ∷ turn ∷ turn ∷ turn ∷ turn ∷ []) 0 closed_broadcaster
      (ap (λ t. (happens peer (closes good_network none) t).clients 0) received_lem) (omega arith)
