-- ===== src/TcpServer/Waiting.antt =====
-- lib/go/transport_tcp.go: what Close of a TCP server waits for.
use qdp.Base.{
  subst, arith, ℕ, zero, suc, ◌≤◌, ◌≡◌, refl, sym, ◌∙◌, if◌then◌else◌, List, [], ◌∷◌, length, Bool,
  true, false, Option, none, some, ◌⊎◌, inl, inr,
}
use qdp.Result.{Error}
use qdp.Reader.{ReadFn}
use qdp.TcpClient.{Notice, on_connect}
use qdp.TcpClient
use qdp.TcpServer.{
  ReadLoop, at_head, in_read, stopped, at_range, at_send, Client, TcpServer, Network,
  new_tcp_server, map_client, close_client, close_clients, close_server,
}
use qdp.TcpServer.Clients.{InOrder, close-cancelled, from}
use qdp.TcpServer.Events.{Event, closes, happens, run}
use qdp.TcpServer.Methods.{IsConsistent}
use qdp.TcpServer.Consistency.{happens-IsConsistent, run-IsConsistent, run-new_tcp_server}
use qdp.TcpServer.Turns.{rank, Turn, take_turn, run_turns}
use qdp.TcpServer.Winding.{Winds, IsEnding}
use qdp.TcpServer.Ended.{notify_end-IsEnding, run-IsEnding}
use qdp.TcpServer.Turning.{one_turn, take_turn-IsConsistent}

module _ {S : Type 0} (conn_read : ReadFn S) (i : ℕ) where
  run_turns-IsEnding :
      (before : List Notice) (us : List (Turn S)) (n : ℕ) (t : TcpServer S)
      → n ≤ length us
      → IsConsistent before t
      → IsEnding (some n) i t
      → IsEnding (some 0) i (run_turns conn_read i us t)
  unfolding run_turns
  run_turns-IsEnding before [] zero t enough w v = v
  run_turns-IsEnding before [] (suc n) t enough w v = absurd (omega (arith, enough))
  run_turns-IsEnding before (u ∷ us) n t enough w v =
      let t' = run conn_read u.events t in
      let (k, low, next) =
        one_turn conn_read i n (length us) u.net u.fuel t' enough
          (run-IsEnding conn_read (some n) i before u.events t w v) in
      run_turns-IsEnding before us k (take_turn conn_read i u.net u.fuel t') low
        (take_turn-IsConsistent conn_read i before u.net u.fuel t'
          (run-IsConsistent conn_read before u.events t w))
        next

  -- After Close a client that is in ReadMessage of its connection is closed.
  close_server-IsEnding :
      (before : List Notice) (net : Network) (closed : Option Error) (t : TcpServer S)
      → IsConsistent before t
      → IsEnding none i (happens conn_read (closes net closed) t)
  unfolding happens close_server close_clients
  close_server-IsEnding before net closed t w =
      notify_end-IsEnding conn_read none i closed (close_clients net t)
        (record { over = refl; winds = one (t.clients i) (w.ordered i) })
    where
      over_or :
          (c : Client S) (o : Bool)
          → c.listed ≡ o
          → (c.listed ≡ true) ⊎ ((c.socket.cancelled ≡ true) ⊎ (c.read_loop ≡ stopped))
          → (if o
              then record c { socket = (TcpClient.close (net.conn_close i) c.socket).1 }
              else c).read_loop
            ≡ in_read
          → (if o
              then record c { socket = (TcpClient.close (net.conn_close i) c.socket).1 }
              else c).socket.cancelled
            ≡ true
      over_or c true listed removed reading = close-cancelled (net.conn_close i) c.socket
      over_or c false listed (inl here) reading = absurd (apart (sym listed ∙ here))
        where
          apart : false ≡ true → ⊥
          apart e = cc
      over_or c false listed (inr (inl gone)) reading = gone
      over_or c false listed (inr (inr stops)) reading = absurd (apart (sym stops ∙ reading))
        where
          apart : stopped ≡ in_read → ⊥
          apart e = cc

      one :
          (o : Option (Client S))
          → InOrder t.cancelled (from i t.puts) o
          → Winds (map_client (close_client net i) o) none
      one none v = unfold map_client in tt
      one (some c) v =
          unfold map_client close_client in
          record { below = tt; closed = over_or c c.listed refl v.removed }

rank-zero : (l : ReadLoop) → rank l ≤ 0 → l ≡ stopped
unfolding rank
rank-zero stopped low = refl
rank-zero at_head low = absurd (omega (arith, low))
rank-zero in_read low = absurd (omega (arith, low))
rank-zero (at_send m r) low = absurd (omega (arith, low))
rank-zero (at_range m r) low = absurd (omega (arith, low))

-- The read loops that Close waits for return: after Close has been called on a server that any events
-- have led to, and whatever happens then, in whatever order, connections that are still accepted
-- included, the read loop of any client has returned once it has had enough turns: one, or two if it is
-- about to send a message to msgCh, or, in a broadcast, three and one for each client accepted before
-- the broadcast began that it has not reached. Any events may come before each turn. In its turn a loop
-- stops where it can, and in a broadcast goes on to a client that it must reach; ReadMessage may take
-- any number of rounds.
pub run_turns-stopped :
    {S : Type 0} (conn_read : ReadFn S) (has_handler : Bool) (es fs : List (Event S))
    (net : Network) (closed : Option Error) (us : List (Turn S)) (i : ℕ) (c : Client S)
    → let t =
        run conn_read fs
          (happens conn_read (closes net closed) (run conn_read es (new_tcp_server has_handler))) in
      t.clients i ≡ some c
      → rank c.read_loop ≤ length us
      → (c' : Client S) × ((run_turns conn_read i us t).clients i ≡ some c')
        × (c'.read_loop ≡ stopped)
run_turns-stopped {S = S} conn_read has_handler es fs net closed us i c here enough =
    let before : List Notice = if has_handler then on_connect ∷ [] else [] in
    let s = run conn_read es (new_tcp_server has_handler) in
    let s' = happens conn_read (closes net closed) s in
    let good = run-new_tcp_server conn_read has_handler es in
    let good' = happens-IsConsistent conn_read before (closes net closed) s good in
    let t = run conn_read fs s' in
    let ending =
      run-IsEnding conn_read none i before fs s' good'
        (close_server-IsEnding conn_read i before net closed s good) in
    let winding = subst (λ (o : Option (Client _)). Winds o none) here ending.winds in
    let last =
      run_turns-IsEnding conn_read i before us (rank c.read_loop) t enough
        (run-IsConsistent conn_read before fs s' good')
        (record {
          over = ending.over;
          winds =
              subst (λ (o : Option (Client _)). Winds o (some (rank c.read_loop))) (sym here)
                (record { below = omega arith; closed = winding.closed });
        }) in
    ended ((run_turns conn_read i us t).clients i) last.winds
  where
    ended :
        (o : Option (Client S))
        → Winds o (some 0)
        → (c' : Client S) × (o ≡ some c') × (c'.read_loop ≡ stopped)
    ended none w = absurd w
    ended (some c') w = (c', refl, rank-zero c'.read_loop w.below)
