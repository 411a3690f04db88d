-- ===== src/Protocol/Object/Tcp.antt =====
-- lib/go/qdp.go with lib/go/transport_tcp.go: protocols over TCP clients.
use qdp.Base.{
  if_false, arith, ℕ, ◌+◌, ◌*◌, ◌≤◌, ◌≡◌, refl, sym, ap, ◌∙◌, List, [], ◌∷◌, ◌++◌, map, length,
  false, Option, none, some,
}
use qdp.Result.{Error, Result, ok}
use qdp.Message.{Message}
use qdp.Message.Frame.{frame, Fits, IsBytesMessage}
use qdp.Message.Encoding.{written_bytes-frame}
use qdp.Subscriptions.{Handler, on_message_rx}
use qdp.Reader.{ReadFn, Reader, read_message, new_message_reader}
use qdp.Reader.Parsing.{IsSmall}
use qdp.Reader.Chunks.{Feeds, flatten}
use qdp.Reader.Assembly.{read_message-chunks}
use qdp.TcpClient.{TcpClient, after_read, send, new_tcp_client_from_conn}
use qdp.TcpClient
use qdp.Protocol.{RxCall, handle_message, send_message}
use qdp.Protocol.Object.{
  Transport, MessageHandlerFunc, DefaultProtocol, calls_of, after_write_to, with_transport,
  send_over, publish_over, receive_message, rx_call, rx_calls, handle_received,
}

-- A TCP client as an ITransport, on a connection with these answers.
pub tcp_client_transport :
    {S : Type 0} → ReadFn S → ℕ → (List ℕ → Option Error) → Option Error → Transport (TcpClient S)
tcp_client_transport conn_read fuel conn_write closed = record {
  read_from = TcpClient.read conn_read fuel;
  write_to = TcpClient.write conn_write;
  close_of = TcpClient.close closed;
}

last_or : List ℕ → List (List ℕ) → List ℕ
last_or d [] = d
last_or d (x ∷ xs) = last_or x xs

last_or-append : (d : List ℕ) (xs : List (List ℕ)) (a : List ℕ) → last_or d (xs ++ (a ∷ [])) ≡ a
unfolding last_or
last_or-append d [] a = refl
last_or-append d (x ∷ xs) a = last_or-append x xs a

rx_calls-subscribers :
    (h : MessageHandlerFunc) (m : Message) (hs : List Handler)
    → rx_calls h (map (λ s. RxCall.subscriber s m) hs) ≡ map (λ s. (some s, m)) hs
unfolding rx_calls rx_call
rx_calls-subscribers h m [] = refl
rx_calls-subscribers h m (s ∷ hs) = ap (λ cs. (some s, m) ∷ cs) (rx_calls-subscribers h m hs)

module _ {S : Type 0} (conn_read : ReadFn S) (fuel : ℕ) (conn_write : List ℕ → Option Error)
    (closed : Option Error) where
  pub published :
      (m : Message) (p : DefaultProtocol (TcpClient S))
      → Fits m
      → p.transport.cancelled ≡ false
      → conn_write (frame m) ≡ none
      → send_over (tcp_client_transport conn_read fuel conn_write closed) m p ≡ (
        ok none,
        record p {
          transport = record p.transport { sent = p.transport.sent ++ (frame m ∷ []) };
          calls = p.calls ++ calls_of p.msg_handler.on_message_tx_func (m ∷ []);
        },
      )
  unfolding send_over tcp_client_transport TcpClient.write send after_write_to send_message
  published m p fits on taken =
      ap (λ o. after_write_to m o p) (if_false p.transport.cancelled _ _ on)
      ∙ ap (λ r. after_write_to m (send conn_write r p.transport) p) (written_bytes-frame m fits)
      ∙ ap
          (λ e.
            after_write_to m
              (ok e, record p.transport { sent = p.transport.sent ++ (frame m ∷ []) }) p)
          taken

  received :
      (m : Message) (q : DefaultProtocol (TcpClient S)) (r : Reader S)
      → q.transport.cancelled ≡ false
      → read_message conn_read fuel q.transport.reader ≡ some (ok m, r)
      → receive_message (tcp_client_transport conn_read fuel conn_write closed) q
        ≡ some (ok m, record q { transport = record q.transport { reader = r } })
  unfolding receive_message tcp_client_transport TcpClient.read with_transport after_read
  received m q r on gives = ap (with_transport q) (
      if_false q.transport.cancelled _ _ on
      ∙ ap
          (λ (o : Option (Result Message × Reader S)). elim o [
            | none ↦ none
            | some outcome ↦ some (after_read outcome q.transport)
          ])
          gives)

module _ {S R : Type 0} (conn_read : ReadFn S) (fuel : ℕ) (conn_write : List ℕ → Option Error)
    (closed : Option Error) (peer_read : ReadFn R) (peer_fuel : ℕ)
    (peer_write : List ℕ → Option Error) (peer_closed : Option Error) where
  -- A message within the limits of sizes, published over a TCP client that is open and whose
  -- connection takes it: PublishMessage gives nil, and OnMessageTx is called. If the connection of
  -- another client, new and open, gives what was written, in pieces of any number and size that are
  -- not empty, then ReceiveMessage of a protocol over that client gives the message, within two rounds
  -- for each piece and two more; and the calls for it are OnMessageRx of its message handler, then those
  -- of the subscribers whose pattern matches, in order.
  pub publish-receive :
      (topic payload : List ℕ) (p : DefaultProtocol (TcpClient S))
      (q : DefaultProtocol (TcpClient R)) (s : R) (cs : List (List ℕ))
      → let m : Message = record { topic = topic; payload = payload } in
        let itransport = tcp_client_transport conn_read fuel conn_write closed in
        IsBytesMessage m
        → IsSmall m
        → p.transport.cancelled ≡ false
        → conn_write (frame m) ≡ none
        → (publish_over itransport topic payload p).1.transport.sent
          ≡ p.transport.sent ++ (flatten cs ∷ [])
        → q.transport.cancelled ≡ false
        → q.transport.reader ≡ new_message_reader s
        → Feeds peer_read s cs
        → 2 * length cs + 2 ≤ peer_fuel
        → ((publish_over itransport topic payload p).0 ≡ ok none)
          × ((publish_over itransport topic payload p).1.calls
              ≡ p.calls ++ calls_of p.msg_handler.on_message_tx_func (m ∷ []))
          × (q' : DefaultProtocol (TcpClient R)) × (receive_message
                (tcp_client_transport peer_read peer_fuel peer_write peer_closed)
                q
              ≡ some (ok m, q'))
          × (handle_received q' m
              ≡ rx_call q.msg_handler (RxCall.message_handler m)
                ++ map (λ h. (some h, m)) (on_message_rx q.subscribers m))
  unfolding publish_over handle_received handle_message rx_calls
  publish-receive topic payload p q s cs bytes small on taken carried peer_on new feeds enough =
      let m : Message = record { topic = topic; payload = payload } in
      let sends = published conn_read fuel conn_write closed m p (omega (arith, small)) on taken in
      let all =
        sym (last_or-append [] p.transport.sent (flatten cs))
        ∙ ap (last_or [])
            (sym carried ∙ ap (λ o. TcpClient.sent (DefaultProtocol.transport o.1)) sends)
        ∙ last_or-append [] p.transport.sent (frame m) in
      let (r, gives, pos, count) =
        read_message-chunks peer_read m bytes small s cs peer_fuel feeds all enough in
      (
        ap (λ o. o.0) sends,
        ap (λ o. DefaultProtocol.calls o.1) sends,
        record q { transport = record q.transport { reader = r } },
        received peer_read peer_fuel peer_write peer_closed m q r peer_on
            (ap (read_message peer_read peer_fuel) new ∙ gives),
        ap (λ xs. rx_call q.msg_handler (RxCall.message_handler m) ++ xs)
            (rx_calls-subscribers q.msg_handler m (on_message_rx q.subscribers m)),
      )
