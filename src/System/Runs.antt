-- ===== src/System/Runs.antt =====
-- message_broker.go with lib/go: concrete brokers with their transports.
use qdp.Base.{ℕ, ◌≡◌, refl, arith, true, false, not, List, [], ◌∷◌, ◌++◌, map, Option, none, some}
use qdp.Result.{ok, eof}
use qdp.Message.Frame.{frame}
use qdp.Reader.{ReadFn, new_message_reader}
use qdp.Reader.Chunks.{flatten}
use qdp.TcpClient.{TcpClient, on_connect, on_disconnect, new_tcp_client}
use qdp.TcpClient
use qdp.TcpClient.Notices as TcpCalls
use qdp.Protocol.Object.{
  calls_of, DefaultProtocol, send_over, receive_message, handle_received, publish_over,
}
use qdp.Protocol.Object.Tcp.{tcp_client_transport}
use qdp.Protocol.Object.Ends as Ends
use qdp.Ftdi.Usb.{
  connect_usb, open_usb, and_then, acquire, require, open_device, require_valid, configure_uart,
}
use qdp.Ftdi.Transport.{
  FtdiTransport, read, read_again, close, close_resources, note_closed, notice, after_connect,
  after_read,
}
use qdp.Ftdi.Transport
use qdp.Ftdi.Transport.Calls
use qdp.Ftdi.Endpoint
use qdp.Reader.{read_message, read_rounds, read_round, after_header, read_more, shift, accept}
use qdp.Ftdi.Transport.Device.{usb, foreign, connected, fresh_reader, ended_reader, reader_ends}
use qdp.TcpClient.Ends.{has_ended}
use qdp.Broker.{Store, BrokerProtocol, send_message, close_protocol}
use qdp.Broker.Protocols.{lookup}
use qdp.Broker.Jobs.{Job, disconnect, message_rx, message_tx, make_protocol}
use qdp.Broker.Jobs
use qdp.Broker.Events.{
  job, handle, handle_all, tx_message_changed, ftdi_transport_is_enabled_changed,
}
use qdp.Broker.Delivery.{listening, write_topics}
use qdp.Broker.Memory.{Memory, memory, blank, leading, leading-first, first_protocol}
use qdp.System.{hears, hears_all, connect_jobs, disconnect_jobs, connection_handler}
use qdp.System.Standing.{Shows, KeepsFlags, of_transport}
use qdp.System.Following.{calls-Shows_tcp}
use qdp.System.Returning.{disabled_returns}
use qdp.System.Relaying.{carry_out, protocol_object, perform, relayed}

memory-KeepsFlags : KeepsFlags memory
memory-KeepsFlags = record {
  flag_written = λ s e f b. refl;
  received_apart = λ s e f v. refl;
  sent_apart = λ s e f v. refl;
}

-- Transport 2 is not connected yet.
blank-Shows : Shows memory 2 false leading
unfolding lookup
blank-Shows = record { leads = refl; held = refl; told = refl }

-- The peer of a TCP client has sent nothing and closed the connection.
abbrev silent : ReadFn ℕ
silent s n = ([], some eof, s)

abbrev session : List TcpCalls.Call
session = TcpCalls.reading 2 ∷ TcpCalls.closing none ∷ []

abbrev jobs : List Job
jobs =
    Jobs.connect 1
    ∷ Jobs.connect 2
    ∷ message_rx 2
    ∷ disconnect 1 none
    ∷ disconnect 2 (some eof)
    ∷ message_tx 2
    ∷ []

calls-Shows_tcp_example :
    Shows memory 2
      (not (has_ended silent session (new_tcp_client 0 true)))
      (handle_all memory (map job jobs) leading)
unfolding of_transport hears_all hears connect_jobs disconnect_jobs connection_handler
    new_tcp_client TcpClient.read TcpClient.after_read TcpClient.close TcpClient.notify_disconnect
    read_message read_rounds read_round after_header read_more shift accept new_message_reader
calls-Shows_tcp_example =
    calls-Shows_tcp memory memory-KeepsFlags 2 false leading blank-Shows jobs silent 0 session refl

-- An FTDI transport that cannot connect again, and then is closed.
abbrev ftdi_session : List Calls.Call
ftdi_session = Calls.reading 1 ∷ Calls.closing ∷ []

abbrev ftdi_jobs : List Job
ftdi_jobs = Jobs.connect 1 ∷ Jobs.connect 2 ∷ disconnect 2 none ∷ []

connects_again :
    (Transport.connect usb
      (close_resources (record (close connected) { reader = some ended_reader }))).0
    ≡ none
unfolding Transport.connect close close_resources note_closed notice after_connect connect_usb
    open_usb and_then acquire require open_device require_valid configure_uart
connects_again = refl

disabled_returns_example :
    (lookup 1
        (handle memory (ftdi_transport_is_enabled_changed 1 false) leading).protocols_by_entity
      ≡ none)
    × ((handle memory (ftdi_transport_is_enabled_changed 1 false) leading).effects
        ≡ close_protocol first_protocol.number ∷ leading.effects)
    × (t' : FtdiTransport) × (read foreign usb 1 (close connected) ≡ read_again usb 1 t'.reader t')
    × (t'.resources ≡ some connected.attempts)
    × (t'.endpoints ≡ connected.attempts)
    × (t'.reader ≡ some fresh_reader)
    × (t'.notices ≡ (close connected).notices ++ (on_connect ∷ []))
    × (p' : BrokerProtocol) × (lookup 1
          (handle_all memory
            (map job (hears (connection_handler 1) on_connect))
            (handle memory (ftdi_transport_is_enabled_changed 1 false) leading)).protocols_by_entity
        ≡ some p')
    × (p'.number ≡ leading.made)
disabled_returns_example =
    disabled_returns memory foreign usb 1 1 connected fresh_reader ended_reader leading
      first_protocol refl leading-first refl refl reader_ends connects_again

-- The store of the other broker, whose topics have the title of the message.
abbrev other : Store Memory
other = record memory { read_string = λ s e f. b'h' ∷ [] }

-- The other broker has made a protocol, of its transport 1, for a new client.
abbrev receiver : DefaultProtocol (TcpClient ℕ)
receiver = protocol_object (make_protocol other blank 0 1) (new_tcp_client 0 true) Ends.handler

-- The first broker has one protocol, the sender.
abbrev objects : ℕ → Option (DefaultProtocol (TcpClient ℕ))
objects n = some Ends.sender

carried :
    (send_over
      (tcp_client_transport Ends.peer 4 Ends.accepts none)
      Ends.hello
      Ends.sender).1.transport.sent
    ≡ Ends.sender.transport.sent ++ (flatten (frame Ends.hello ∷ []) ∷ [])
unfolding publish_over
carried = Ends.carried

relayed_example :
    ((handle memory (tx_message_changed Ends.hello.topic 1 Ends.hello.payload) leading).effects
      ≡ send_message first_protocol.number Ends.hello ∷ leading.effects)
    × (perform
          (tcp_client_transport Ends.peer 4 Ends.accepts none)
          (send_message first_protocol.number Ends.hello)
          objects
          first_protocol.number
        ≡ some
            (send_over
              (tcp_client_transport Ends.peer 4 Ends.accepts none)
              Ends.hello
              Ends.sender).1)
    × ((send_over (tcp_client_transport Ends.peer 4 Ends.accepts none) Ends.hello Ends.sender).0
        ≡ ok none)
    × ((send_over
          (tcp_client_transport Ends.peer 4 Ends.accepts none)
          Ends.hello
          Ends.sender).1.calls
        ≡ Ends.sender.calls
          ++ calls_of Ends.sender.msg_handler.on_message_tx_func (Ends.hello ∷ []))
    × (q' : DefaultProtocol (TcpClient ℕ)) × (receive_message
          (tcp_client_transport Ends.peer 4 Ends.accepts none)
          receiver
        ≡ some (ok Ends.hello, q'))
    × (carry_out other blank (handle_received q' Ends.hello)
        ≡ write_topics other Ends.hello (listening other blank 1 Ends.hello (7 ∷ 8 ∷ [])) blank)
relayed_example =
    relayed memory other Ends.peer 4 Ends.accepts none Ends.peer 4 Ends.accepts none
      Ends.hello.topic Ends.hello.payload 1 leading first_protocol objects Ends.sender Ends.handler
      0 (frame Ends.hello ∷ []) blank blank 0 1 leading-first refl (omega arith) (omega arith) refl
      refl carried Ends.peer-Feeds (omega arith)
