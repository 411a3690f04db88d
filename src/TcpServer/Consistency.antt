-- ===== src/TcpServer/Consistency.antt =====
-- lib/go/transport_tcp.go: what holds of a TCP server over any run.
use qdp.Base.{ℕ, ◌≡◌, refl, arith, if◌then◌else◌, List, [], ◌∷◌, Bool, Option, none, some, inl}
use qdp.Reader.{ReadFn}
use qdp.TcpClient.{Notice, on_connect, read}
use qdp.TcpServer.Clients.{from}
use qdp.TcpServer.Methods.{
  IsConsistent, accept_conn-IsConsistent, close_server-IsConsistent, stop_accepting-IsConsistent,
  take_from-IsConsistent, write_message-IsConsistent,
}
use qdp.TcpServer.{
  ReadLoop, at_head, in_read, stopped, at_range, at_send, Client, TcpServer, Network,
  new_tcp_server,
}
use qdp.TcpServer.Reading.{Choice, client_step, step_of}
use qdp.TcpServer.Events.{
  Event, accepts, accept_returns, takes, steps, writes, closes, happens, run,
}
use qdp.TcpServer.Loops.{
  read-Keeps, enter_read-IsConsistent, after_receive-IsConsistent, send_or_stop-IsConsistent,
  range_step-IsConsistent,
}

module _ {S : Type 0} (conn_read : ReadFn S) (before : List Notice) where
  client_step-IsConsistent :
      (net : Network) (fuel : ℕ) (choice : Choice) (i : ℕ) (c : Client S) (l : ReadLoop)
      (t : TcpServer S)
      → IsConsistent before t
      → t.clients i ≡ some c
      → c.read_loop ≡ l
      → IsConsistent before (client_step conn_read net fuel choice i c l t)
  unfolding client_step
  client_step-IsConsistent net fuel choice i c at_head t v here stands =
      enter_read-IsConsistent before i c t v here stands
  client_step-IsConsistent net fuel choice i c in_read t v here stands =
      after_receive-IsConsistent before i c (read conn_read fuel c.socket) t v here stands
        (read-Keeps conn_read fuel c.socket)
  client_step-IsConsistent net fuel choice i c (at_range m r) t v here stands =
      range_step-IsConsistent before net choice i c m r t v here stands
  client_step-IsConsistent net fuel choice i c (at_send m r) t v here stands =
      send_or_stop-IsConsistent before choice i c m r t v here stands
  client_step-IsConsistent net fuel choice i c stopped t v here stands = v

  step_of-IsConsistent :
      (net : Network) (fuel : ℕ) (choice : Choice) (i : ℕ) (o : Option (Client S)) (t : TcpServer S)
      → IsConsistent before t
      → t.clients i ≡ o
      → IsConsistent before (step_of conn_read net fuel choice i o t)
  unfolding step_of
  step_of-IsConsistent net fuel choice i none t v here = v
  step_of-IsConsistent net fuel choice i (some c) t v here =
      client_step-IsConsistent net fuel choice i c c.read_loop t v here refl

  pub happens-IsConsistent :
      (e : Event S) (t : TcpServer S)
      → IsConsistent before t
      → IsConsistent before (happens conn_read e t)
  unfolding happens
  happens-IsConsistent (accepts s) t v = accept_conn-IsConsistent before s t v
  happens-IsConsistent accept_returns t v = stop_accepting-IsConsistent before t v
  happens-IsConsistent takes t v = take_from-IsConsistent before t.msg_ch t refl v
  happens-IsConsistent (steps net fuel choice i) t v =
      step_of-IsConsistent net fuel choice i (t.clients i) t v refl
  happens-IsConsistent (writes net m) t v = write_message-IsConsistent before net m t v
  happens-IsConsistent (closes net closed) t v = close_server-IsConsistent before net closed t v

  pub run-IsConsistent :
      (es : List (Event S)) (t : TcpServer S)
      → IsConsistent before t
      → IsConsistent before (run conn_read es t)
  unfolding run
  run-IsConsistent [] t v = v
  run-IsConsistent (e ∷ es) t v =
      run-IsConsistent es (happens conn_read e t) (happens-IsConsistent e t v)

-- Over any run of a new TCP server, whatever its connections do: what ReadMessage has given, followed
-- by what waits in msgCh, at most 100 messages, is what the read loops of the clients have sent there;
-- the messages that ReadMessage of a client has given its loop are, in their order, those that the loop
-- has sent to msgCh, then the one that the loop holds, or one that it has dropped, which only a loop
-- does that stops when the context is done; a client that is not in the map is closed, or its loop has
-- stopped; and the handler, if there is one, hears of the start and at most once of the end.
pub run-new_tcp_server :
    {S : Type 0} (conn_read : ReadFn S) (has_handler : Bool) (es : List (Event S))
    → IsConsistent
        (if has_handler then on_connect ∷ [] else [])
        (run conn_read es (new_tcp_server has_handler))
unfolding new_tcp_server from
run-new_tcp_server conn_read has_handler es =
    run-IsConsistent conn_read (if has_handler then on_connect ∷ [] else []) es
      (new_tcp_server has_handler)
      (record {
        merged = refl;
        bounded = omega arith;
        ordered = λ i. refl;
        fresh = λ i late. refl;
        told = inl (refl, refl);
      })
