-- ===== src/TcpServer/Relayed.antt =====
-- lib/go/transport_tcp.go: over any run of a TCP server, each message reaches the other clients.
use qdp.Base.{
  if_true, if_false, choose, subst, ==-refl, arith, ℕ, ◌≤◌, ◌≡◌, refl, sym, ap, ◌∙◌, ◌==◌,
  if◌then◌else◌, List, [], ◌∷◌, ◌++◌, Bool, true, false, ◌&&◌, not, Option, none, some, inl, inr,
}
use qdp.Result.{Error}
use qdp.Message.{Message}
use qdp.Message.Frame.{frame, Fits}
use qdp.Reader.{ReadFn}
use qdp.TcpClient.{Notice, on_connect, read, write}
use qdp.TcpServer.{
  Range, ReadLoop, at_head, in_read, stopped, at_range, at_send, Client, TcpServer, Network,
  new_tcp_server, notify_end, set, new_client, accept_conn, stop_accepting, send_to, map_client,
  send_all, take_from, write_message, close_client, close_clients, close_server,
}
use qdp.TcpServer.Reading.{Choice, client_step, step_of}
use qdp.TcpServer.Events.{
  Event, accepts, accept_returns, takes, steps, writes, closes, taken_end, happens, run,
}
use qdp.TcpServer.Methods.{IsConsistent}
use qdp.TcpServer.Loops.{read-Keeps}
use qdp.TcpServer.Consistency.{happens-IsConsistent, run-new_tcp_server}
use qdp.TcpServer.Growth.{Grows, send_all-Grows, close_all-Grows, set-Grows}
use qdp.TcpServer.Relay.{Relays, loop_of, IsRelaying, step-IsRelaying, grown-IsRelaying}
use qdp.TcpServer.RelayLoops.{
  enter_read-IsRelaying, after_receive-IsRelaying, range_step-IsRelaying, send_or_stop-IsRelaying,
  after_send-loop,
}

module _ {S : Type 0} (conn_read : ReadFn S) where
  client_step-IsRelaying :
      (net : Network) (fuel : ℕ) (choice : Choice) (i : ℕ) (c : Client S) (l : ReadLoop)
      (t : TcpServer S)
      → ((j : ℕ) → t.accepted ≤ j → t.clients j ≡ none)
      → IsRelaying t.clients
      → t.clients i ≡ some c
      → c.read_loop ≡ l
      → IsRelaying (client_step conn_read net fuel choice i c l t).clients
  unfolding client_step
  client_step-IsRelaying net fuel choice i c at_head t fresh v here stands =
      enter_read-IsRelaying i c t v here
  client_step-IsRelaying net fuel choice i c in_read t fresh v here stands =
      after_receive-IsRelaying i c (read conn_read fuel c.socket) t fresh v here
        (read-Keeps conn_read fuel c.socket)
  client_step-IsRelaying net fuel choice i c (at_range m r) t fresh v here stands =
      range_step-IsRelaying net choice i c m r t v here stands
  client_step-IsRelaying net fuel choice i c (at_send m r) t fresh v here stands =
      send_or_stop-IsRelaying choice i c m t v here
  client_step-IsRelaying net fuel choice i c stopped t fresh v here stands = v

  step_of-IsRelaying :
      (net : Network) (fuel : ℕ) (choice : Choice) (i : ℕ) (o : Option (Client S)) (t : TcpServer S)
      → ((j : ℕ) → t.accepted ≤ j → t.clients j ≡ none)
      → IsRelaying t.clients
      → t.clients i ≡ o
      → IsRelaying (step_of conn_read net fuel choice i o t).clients
  unfolding step_of
  step_of-IsRelaying net fuel choice i none t fresh v here = v
  step_of-IsRelaying net fuel choice i (some c) t fresh v here =
      client_step-IsRelaying net fuel choice i c c.read_loop t fresh v here refl

  accept_conn-IsRelaying :
      (s : S) (t : TcpServer S)
      → ((j : ℕ) → t.accepted ≤ j → t.clients j ≡ none)
      → IsRelaying t.clients
      → IsRelaying (accept_conn s t).clients
  unfolding accept_conn new_client set
  accept_conn-IsRelaying s t fresh v =
      choose (λ (u : TcpServer S). IsRelaying u.clients) t.accepting
        (step-IsRelaying t.clients (set t.accepted (new_client s) t.clients) t.accepted v
          (set-Grows t.clients t.accepted (new_client s)
            (subst (λ o. Grows o (some (new_client s))) (sym (fresh t.accepted (omega arith))) tt))
          (λ k other. ap loop_of (if_false (k == t.accepted) _ _ other))
          (λ j.
            subst
              (λ (o : Option (Client S)).
                Relays t.accepted j (loop_of o) (set t.accepted (new_client s) t.clients j))
              (sym (
                if_true (t.accepted == t.accepted) (some (new_client s)) (t.clients t.accepted)
                  (==-refl t.accepted)))
              tt))
        v

  notify_end-clients : (e : Option Error) (t : TcpServer S) → (notify_end e t).clients ≡ t.clients
  unfolding notify_end
  notify_end-clients e t =
      choose (λ (u : TcpServer S). u.clients ≡ t.clients) (t.has_handler && not t.disconnected) refl
        refl

  stop_accepting-clients : (t : TcpServer S) → (stop_accepting t).clients ≡ t.clients
  unfolding stop_accepting
  stop_accepting-clients t =
      choose (λ (u : TcpServer S). u.clients ≡ t.clients) t.accepting
        (notify_end-clients none (record t { accepting = false })) refl

  -- What all clients undergo, and their loops do not see.
  mapped-IsRelaying :
      (f : ℕ → Client S → Client S) (clients : ℕ → Option (Client S))
      → IsRelaying clients
      → ((j : ℕ) → Grows (clients j) (map_client (f j) (clients j)))
      → ((j : ℕ) (c : Client S) → (f j c).read_loop ≡ c.read_loop)
      → IsRelaying (λ j. map_client (f j) (clients j))
  mapped-IsRelaying f clients v grown same =
      grown-IsRelaying clients (λ j. map_client (f j) (clients j)) v grown
        (λ k. loops k (clients k))
    where
      loops : (k : ℕ) (o : Option (Client S)) → loop_of (map_client (f k) o) ≡ loop_of o
      loops k none = unfold map_client in refl
      loops k (some c) = unfold map_client in same k c

  send_to-loop :
      (net : Network) (m : Message) (j : ℕ) (c : Client S)
      → (send_to net m j c).read_loop ≡ c.read_loop
  unfolding send_to
  send_to-loop net m j c =
      choose (λ (d : Client S). d.read_loop ≡ c.read_loop) c.listed
        (after_send-loop net j (write (net.conn_write j) m c.socket) c) refl

  close_client-loop :
      (net : Network) (j : ℕ) (c : Client S) → (close_client net j c).read_loop ≡ c.read_loop
  unfolding close_client
  close_client-loop net j c =
      choose (λ (d : Client S). d.read_loop ≡ c.read_loop) c.listed refl refl

  happens-IsRelaying :
      (before : List Notice) (e : Event S) (t : TcpServer S)
      → IsConsistent before t
      → IsRelaying t.clients
      → IsRelaying (happens conn_read e t).clients
  unfolding happens write_message send_all close_server close_clients
  happens-IsRelaying before (accepts s) t w v = accept_conn-IsRelaying s t w.fresh v
  happens-IsRelaying before accept_returns t w v =
      subst IsRelaying (sym (stop_accepting-clients t)) v
  happens-IsRelaying before takes t w v = taken t.msg_ch
    where
      taken : (ms : List Message) → IsRelaying (taken_end t (take_from ms t)).clients
      taken [] = unfold taken_end take_from in v
      taken (m ∷ ms) = unfold taken_end take_from in v
  happens-IsRelaying before (steps net fuel choice i) t w v =
      step_of-IsRelaying net fuel choice i (t.clients i) t w.fresh v refl
  happens-IsRelaying before (writes net m) t w v =
      mapped-IsRelaying (send_to net m) t.clients v (λ j. send_all-Grows net m j (t.clients j))
        (send_to-loop net m)
  happens-IsRelaying before (closes net closed) t w v =
      subst IsRelaying (sym (notify_end-clients closed (close_clients net t))) (
        mapped-IsRelaying (close_client net) t.clients v (λ j. close_all-Grows net j (t.clients j))
          (close_client-loop net))

  run-IsRelaying :
      (before : List Notice) (es : List (Event S)) (t : TcpServer S)
      → IsConsistent before t
      → IsRelaying t.clients
      → IsRelaying (run conn_read es t).clients
  unfolding run
  run-IsRelaying before [] t w v = v
  run-IsRelaying before (e ∷ es) t w v =
      run-IsRelaying before es (happens conn_read e t) (happens-IsConsistent conn_read before e t w)
        (happens-IsRelaying before e t w v)

  -- Over any run of a new TCP server, whatever its connections do and however the broadcasts of several
  -- clients interleave: when a read loop is done with the broadcast of a message, whose frame has a size
  -- that is a uint32, and is about to send the message to msgCh, then each other client that was in the
  -- map when the broadcast began, and still is, has been sent that frame since the broadcast began.
  pub run-relayed :
      (has_handler : Bool) (es : List (Event S)) (i j : ℕ) (c d : Client S) (m : Message)
      (r : Range)
      → let t = run conn_read es (new_tcp_server has_handler) in
        t.clients i ≡ some c
        → c.read_loop ≡ at_send m r
        → Fits m
        → t.clients j ≡ some d
        → (j == i) ≡ false
        → r.present j ≡ true
        → d.listed ≡ true
        → (xs : List (List ℕ)) × (ys : List (List ℕ)) × (d.socket.sent
            ≡ r.before j ++ (xs ++ (frame m ∷ ys)))
  unfolding new_tcp_server run
  run-relayed has_handler es i j c d m r here stands fits there other present listing =
      let start = new_tcp_server has_handler in
      let all =
        run-IsRelaying (if has_handler then on_connect ∷ [] else []) es start
          (run-new_tcp_server conn_read has_handler []) (record { relays = λ k n. tt }) in
      let got =
        subst (λ l. Relays i j l (some d)) (ap loop_of here ∙ stands)
          (subst (λ o. Relays i j (loop_of ((run conn_read es start).clients i)) o) there
            (all.relays i j))
          fits present other in
      elim got [ inl gone ↦ absurd (true-ne-false (sym listing ∙ gone)) | inr sent ↦ sent ]
    where
      true-ne-false : true ≡ false → ⊥
      true-ne-false e = cc
