-- ===== src/System/Relaying.antt =====
-- message_broker.go with lib/go/qdp.go and lib/go/transport_tcp.go: a message from the store of one broker
-- to the store of another, over TCP.
use qdp.Base.{
  ℕ, ◌+◌, ◌*◌, ◌≤◌, ◌≡◌, refl, ap, ◌∙◌, foldl, List, ◌==◌, ==-refl, if◌then◌else◌, true, [], ◌∷◌,
  ◌++◌, map, length, false, Option, none, some,
}
use qdp.Result.{Error, ok}
use qdp.Message.{Message}
use qdp.Message.Frame.{frame, IsBytesMessage}
use qdp.Subscriptions.{Handler, on_message_rx}
use qdp.Reader.{ReadFn}
use qdp.Reader.Parsing.{IsSmall}
use qdp.Reader.Chunks.{Feeds, flatten}
use qdp.TcpClient.{TcpClient, new_tcp_client}
use qdp.Protocol.{RxCall}
use qdp.Protocol.Object.{
  Transport, new_protocol, handler_or_empty, close_over, DefaultProtocol, MessageHandlerFunc,
  calls_of, send_over, publish_over, receive_message, rx_call, handle_received,
}
use qdp.Protocol.Object.Tcp.{tcp_client_transport, publish-receive}
use qdp.Broker.{Store, Broker, BrokerProtocol, Effect, send_message, close_protocol, qdp_topic}
use qdp.Broker.Protocols.{lookup}
use qdp.Broker.Jobs.{write_topic, deliver, make_protocol}
use qdp.Broker.Events.{tx_message_changed, handle}
use qdp.Broker.Routing.{tx-sends}
use qdp.Broker.Delivery.{listening, write_topics, deliver-listening}

-- What the calls for a received message do to the store at once: the subscribers of the broker write the
-- payload. The message handler only passes a job to the main thread.
pub carry_out : {S : Type 0} → Store S → S → List (Option Handler × Message) → S
carry_out db s [] = s
carry_out db s ((none, m) ∷ calls) = carry_out db s calls
carry_out db s ((some h, m) ∷ calls) = carry_out db (write_topic db m s h) calls

-- The object of a protocol that the broker has made over a transport: NewProtocol without subscribers,
-- and then the subscriptions.
unfoldable pub protocol_object :
    {T : Type 0} → BrokerProtocol → T → MessageHandlerFunc → DefaultProtocol T
protocol_object made transport h = record (new_protocol transport none (some h)) {
  subscribers = made.subscribers;
}

change :
    {T : Type 0}
    → (DefaultProtocol T → DefaultProtocol T)
    → Option (DefaultProtocol T)
    → Option (DefaultProtocol T)
change f none = none
change f (some p) = some (f p)

-- What the broker's calls of SendMessage and Close do to the objects of its protocols, which go by
-- their numbers; no other effect changes an object.
module _ {T : Type 0} (itransport : Transport T) where
  pub perform : Effect → (ℕ → Option (DefaultProtocol T)) → ℕ → Option (DefaultProtocol T)
  perform (send_message n m) objects k =
      if n == k then change (λ p. (send_over itransport m p).1) (objects k) else objects k
  perform (close_protocol n) objects k =
      if n == k then change (λ p. (close_over itransport p).1) (objects k) else objects k
  perform e objects k = objects k

  perform-send_message :
      (n : ℕ) (m : Message) (objects : ℕ → Option (DefaultProtocol T)) (p : DefaultProtocol T)
      → objects n ≡ some p
      → perform (send_message n m) objects n ≡ some (send_over itransport m p).1
  unfolding perform change
  perform-send_message n m objects p there = rw (==-refl n, there)

module _ {S : Type 0} (db : Store S) where
  carry_out-silent :
      (s : S) (ms : List (ℕ × Message)) (calls : List (Option Handler × Message))
      → carry_out db s (map (λ c. (none, c.1)) ms ++ calls) ≡ carry_out db s calls
  unfolding carry_out
  carry_out-silent s [] calls = refl
  carry_out-silent s (c ∷ ms) calls = carry_out-silent s ms calls

  carry_out-subscribers :
      (s : S) (m : Message) (hs : List Handler)
      → carry_out db s (map (λ h. (some h, m)) hs) ≡ foldl (write_topic db m) s hs
  unfolding carry_out
  carry_out-subscribers s m [] = refl
  carry_out-subscribers s m (h ∷ hs) = carry_out-subscribers (write_topic db m s h) m hs

  carry_out-deliver :
      (s : S) (m : Message) (h : MessageHandlerFunc) (p : BrokerProtocol)
      → carry_out db s (
          rx_call h (RxCall.message_handler m)
          ++ map (λ k. (some k, m)) (on_message_rx p.subscribers m))
        ≡ deliver db p m s
  unfolding rx_call deliver
  carry_out-deliver s m h p =
      carry_out-silent s (calls_of h.on_message_rx_func (m ∷ []))
        (map (λ k. (some k, m)) (on_message_rx p.subscribers m))
      ∙ carry_out-subscribers s m (on_message_rx p.subscribers m)

module _ {S S' R R' : Type 0} (db : Store S) (db' : Store S') (conn_read : ReadFn R) (fuel : ℕ)
    (conn_write : List ℕ → Option Error) (closed : Option Error) (peer_read : ReadFn R')
    (peer_fuel : ℕ) (peer_write : List ℕ → Option Error) (peer_closed : Option Error) where
  -- A TxMessage that the store of one broker reports for a transport with a protocol makes the broker
  -- call SendMessage of the object of that protocol, once. If the message is within the limits of sizes,
  -- the object is one over a TCP client that is open, and the connection takes the frame, then
  -- SendMessage gives nil and calls OnMessageTx, if there is one. If the connection of another client,
  -- new and not yet read from, gives what was written, in pieces of any number and size that are not
  -- empty, then the protocol that another broker has made for that client receives the message, within
  -- two rounds for each piece and two more, and its subscribers write the payload to exactly those
  -- topics of the other store that referred to the transport, and had a pattern that matches, when the
  -- protocol was made.
  pub relayed :
      (title text : List ℕ) (f : ℕ) (w : Broker S) (found : BrokerProtocol)
      (objects : ℕ → Option (DefaultProtocol (TcpClient R))) (p : DefaultProtocol (TcpClient R))
      (h : MessageHandlerFunc) (r : R') (cs : List (List ℕ)) (s s' : S') (number entity : ℕ)
      → let m : Message = record { topic = title; payload = text } in
        let itransport = tcp_client_transport conn_read fuel conn_write closed in
        let q = protocol_object (make_protocol db' s number entity) (new_tcp_client r true) h in
        lookup f w.protocols_by_entity ≡ some found
        → objects found.number ≡ some p
        → IsBytesMessage m
        → IsSmall m
        → p.transport.cancelled ≡ false
        → conn_write (frame m) ≡ none
        → (send_over itransport m p).1.transport.sent ≡ p.transport.sent ++ (flatten cs ∷ [])
        → Feeds peer_read r cs
        → 2 * length cs + 2 ≤ peer_fuel
        → ((handle db (tx_message_changed title f text) w).effects
            ≡ send_message found.number m ∷ w.effects)
          × (perform itransport (send_message found.number m) objects found.number
              ≡ some (send_over itransport m p).1)
          × ((send_over itransport m p).0 ≡ ok none)
          × ((send_over itransport m p).1.calls
              ≡ p.calls ++ calls_of p.msg_handler.on_message_tx_func (m ∷ []))
          × (q' : DefaultProtocol (TcpClient R')) × (receive_message
                (tcp_client_transport peer_read peer_fuel peer_write peer_closed)
                q
              ≡ some (ok m, q'))
          × (carry_out db' s' (handle_received q' m)
              ≡ write_topics db' m (listening db' s entity m (Store.entities db' s qdp_topic)) s')
  unfolding publish_over protocol_object new_tcp_client new_protocol handler_or_empty
  relayed title text f w found objects p h r cs s s' number entity there object bytes small on taken
        carried feeds enough =
      let m : Message = record { topic = title; payload = text } in
      let itransport = tcp_client_transport conn_read fuel conn_write closed in
      let made = make_protocol db' s number entity in
      let (sent, told, q', received, handled) =
        publish-receive conn_read fuel conn_write closed peer_read peer_fuel peer_write peer_closed
          title text p (protocol_object made (new_tcp_client r true) h) r cs bytes small on taken
          carried refl refl feeds enough in
      (
        tx-sends db title f text w (some found) there,
        perform-send_message itransport found.number m objects p object,
        sent,
        told,
        q',
        received,
        ap (carry_out db' s') handled
            ∙ carry_out-deliver db' s' m h made
            ∙ deliver-listening db' s s' number entity m,
      )
