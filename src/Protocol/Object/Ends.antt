-- ===== src/Protocol/Object/Ends.antt =====
-- lib/go/qdp.go with lib/go/transport_tcp.go: two protocols over TCP, for runs.
use qdp.Base.{
  ℕ, zero, suc, ◌≡◌, refl, sym, ap, ◌∙◌, arith, List, [], ◌∷◌, ◌++◌, append-nil, take, take-all,
  false, Option, none, some,
}
use qdp.Result.{Error, eof}
use qdp.Message.{Message}
use qdp.Message.Frame.{frame}
use qdp.Subscriptions.{closure, new_subscription_manager, subscribe}
use qdp.Reader.{ReadFn, new_message_reader}
use qdp.Reader.Chunks.{Feeds, fed, feed, flatten}
use qdp.TcpClient.{TcpClient}
use qdp.Protocol.Object.{MessageHandlerFunc, DefaultProtocol, publish_over}
use qdp.Protocol.Object.Tcp.{tcp_client_transport, published}

abbrev pub hello : Message
hello = record { topic = b'h' ∷ []; payload = b'i' ∷ [] }

-- A peer that gives one frame, at once, and then closes the connection.
abbrev pub peer : ReadFn ℕ
peer zero n = (take n (frame hello), none, 1)
peer (suc s) n = ([], some eof, 1)

pub peer-Feeds : Feeds peer 0 (frame hello ∷ [])
peer-Feeds =
    feed {s' = 1} (omega arith) (λ n h. ap (λ c. (c, none, 1)) (take-all n (frame hello) h)) fed

abbrev pub accepts : List ℕ → Option Error
accepts bytes = none

abbrev pub handler : MessageHandlerFunc
handler = record { on_message_rx_func = some 1; on_message_tx_func = some 2 }

abbrev pub sender : DefaultProtocol (TcpClient ℕ)
sender = record {
  transport = record {
    reader = new_message_reader 1;
    has_handler = false;
    cancelled = false;
    disconnected = false;
    sent = [];
    notices = [];
  };
  subscribers = new_subscription_manager;
  msg_handler = handler;
  cancelled = false;
  calls = [];
}

abbrev pub receiver : DefaultProtocol (TcpClient ℕ)
receiver = record sender {
  transport = record sender.transport { reader = new_message_reader 0 };
  subscribers = subscribe (b'h' ∷ []) (closure 0 4) new_subscription_manager;
}

pub carried :
    (publish_over
      (tcp_client_transport peer 4 accepts none)
      (b'h' ∷ [])
      (b'i' ∷ [])
      sender).1.transport.sent
    ≡ sender.transport.sent ++ (flatten (frame hello ∷ []) ∷ [])
unfolding publish_over
carried =
    ap (λ o. TcpClient.sent (DefaultProtocol.transport o.1))
      (published peer 4 accepts none hello sender (omega arith) refl refl)
    ∙ ap (λ bytes. bytes ∷ []) (sym (append-nil (frame hello)))
