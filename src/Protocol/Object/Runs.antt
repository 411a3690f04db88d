-- ===== src/Protocol/Object/Runs.antt =====
-- lib/go/qdp.go with lib/go/transport_tcp.go: a message from one protocol to another.
use qdp.Base.{ℕ, ◌≡◌, refl, arith, [], ◌∷◌, ◌++◌, map, false, none, some}
use qdp.Result.{ok}
use qdp.Message.Frame.{frame}
use qdp.Subscriptions.{on_message_rx}
use qdp.TcpClient.{TcpClient, new_tcp_client_from_conn}
use qdp.Protocol.{RxCall}
use qdp.Protocol.Object.{
  DefaultProtocol, new_protocol, subscribers_or_new, handler_or_empty, calls_of, publish_over,
  receive_message, rx_call, handle_received,
}
use qdp.Protocol.Object.Ends.{hello, peer, peer-Feeds, accepts, handler, sender, receiver, carried}
use qdp.Protocol.Object.Tcp.{tcp_client_transport, publish-receive}

sender_made : new_protocol (new_tcp_client_from_conn 1 false) none (some handler) ≡ sender
unfolding new_protocol subscribers_or_new handler_or_empty new_tcp_client_from_conn
sender_made = refl

hello_received :
    ((publish_over (tcp_client_transport peer 4 accepts none) (b'h' ∷ []) (b'i' ∷ []) sender).0
      ≡ ok none)
    × ((publish_over
          (tcp_client_transport peer 4 accepts none)
          (b'h' ∷ [])
          (b'i' ∷ [])
          sender).1.calls
        ≡ sender.calls ++ calls_of sender.msg_handler.on_message_tx_func (hello ∷ []))
    × (q' : DefaultProtocol (TcpClient ℕ)) × (receive_message
          (tcp_client_transport peer 4 accepts none)
          receiver
        ≡ some (ok hello, q'))
    × (handle_received q' hello
        ≡ rx_call receiver.msg_handler (RxCall.message_handler hello)
          ++ map (λ h. (some h, hello)) (on_message_rx receiver.subscribers hello))
hello_received =
    publish-receive peer 4 accepts none peer 4 accepts none (b'h' ∷ []) (b'i' ∷ []) sender receiver
      0 (frame hello ∷ []) (omega arith) (omega arith) refl refl carried refl refl peer-Feeds
      (omega arith)
