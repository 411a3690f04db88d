-- ===== src/Lib.antt =====
-- QDP, the Qureshi Device Protocol: a verification library of its Go code.
--
-- The program moves messages, each a topic and a payload, between a message broker and its devices.
-- A message travels as a frame: two 32-bit lengths, the topic, the payload and a CRC-32. A transport
-- reads frames from a byte stream with a MessageReader and writes them with writeMessage or Encode; a
-- protocol hands what was read, over a channel, to a subscription manager, which calls the handlers
-- whose topic pattern matches. The broker makes a transport for each enabled entity of a store, a
-- protocol for each connection, and carries messages between the protocols and the store's topics.
--
-- Which file is about which code:
--   Base         lists, bytes and bits over the native numbers, shared by all
--   Result       Go's (value, error) results, with a run-time panic as one more outcome
--   Crc          lib/go/qdp.go: crc32Table, init, calculateCRC32
--   Message      lib/go/qdp.go: Message, Encode, Decode, the bytes of writeMessage
--   Topic        lib/go/qdp.go: matchTopic
--   Subscriptions  lib/go/qdp.go: DefaultSubscriptionManager
--   Reader       lib/go/qdp.go: MessageReader, with tryParseMessage and readMore
--   Protocol     lib/go/qdp.go: SendMessage, PublishMessage, handleMessage, StartReceiving
--   Protocol.Object  lib/go/qdp.go: ITransport, MessageHandlerFunc, DefaultProtocol as an object
--   TcpClient    lib/go/transport_tcp.go: TCPClientTransport
--   TcpServer    lib/go/transport_tcp.go: TCPServerTransport, with acceptLoop
--   TcpServer.Reading  lib/go/transport_tcp.go: handleClientReads, step by step
--   TcpServer.Events   lib/go/transport_tcp.go: runs of a server
--   TcpServer.Turns    lib/go/transport_tcp.go: the turns that a read loop needs to return
--   Ftdi.Config  lib/go/transport_ftdi.go: FTDIConfig, DefaultFTDIConfig
--   Ftdi.Usb     lib/go/transport_ftdi.go: connect, as far as it concerns the USB
--   Ftdi.Transport  lib/go/transport_ftdi.go: FTDITransport, isUsbDisconnectError
--   Ftdi.Endpoint  lib/go/transport_ftdi.go: endpointReader
--   Ftdi.Writing   lib/go/transport_ftdi.go: writeChunked
--   Ftdi.Baud      lib/go/transport_ftdi.go: calculateFTDIBaudRateDivisor
--   Broker       message_broker.go: MessageBroker, its map of protocols and the store it uses
--   Broker.Jobs    message_broker.go: what the handlers of a transport do on the main thread
--   Broker.Setup   message_broker.go: setupTcpTransport, setupFtdiTransport, setup, teardown
--   Broker.Events  message_broker.go: OnBecameLeader, OnLosingLeadership, Deinit, the notifications
--   Broker.Routes  message_broker.go: where messages of one transport go, after any events
--   System       lib/go/qdp.go: ConnectionHandlerFunc, and message_broker.go: the one of a transport
--   System.Following  message_broker.go with lib/go: what the broker holds of its transports
--   System.Returning  message_broker.go with lib/go/transport_ftdi.go: a transport that is disabled
--   System.Relaying   message_broker.go with lib/go: a message from one store to another
-- A module named Runs has the component's tests, at concrete input; what several of them use is in
-- Broker.Memory, Ftdi.Transport.Device and Protocol.Object.Ends.
--
-- Bytes and strings are lists of numbers below 256. A uint32 keeps its wrap-around; an int is a number
-- that never is negative where the code has it. A slice out of range is a panic. A method gives the new
-- state of its object beside its result. Code outside the repository is a parameter: an io.Reader, a
-- net.Conn, a USB endpoint, the USB library (the record Bus: its answers to each connection), the
-- store of the broker (the record Store).
--
-- The broker's state changes on the main thread alone: a handler of a transport only passes a function
-- to DoInMainThread, which runs it by itself later: System says which, by the calls of its handler that
-- a transport has made (the field notices of a transport). So the broker is a fold over a list of events, where
-- the functions of the handlers may come in any order and at any time. What it does to protocols,
-- transports and tokens is a list of effects.
--
-- The TCP server is a fold over events too: a step of the accept loop, of the read loop of one client, or
-- a call of a method, in any order. The broadcast of a read loop is one event for each client that it
-- reaches, so that the broadcasts of several clients interleave; WriteMessage and Close are one event
-- each. conn.Write of one connection takes one frame at a time.
--
-- Of the USB, what counts as open is what has been opened and not been given to Close.
--
-- Loops: read_rounds of Reader takes a bound on the rounds of ReadMessage, since that method need not
-- return; where it is said to return, the bound that is enough is part of what is said. write_loop of
-- Ftdi.Writing takes as many rounds as there are bytes, and a round takes at least one byte. The other
-- loops go down a list or a number. The two goroutines of StartReceiving are a step relation, where
-- each step is one select or one call.
--
-- Not modelled: logging; sleeping; the mutex of the subscription manager, under which each method
-- is one step; DoWork, which does nothing; main.go but for its entity types and fields, which wires
-- up workers of a library that is not in the repository; the C library (lib/c) and the examples,
-- which are programs of their own; of the TCP server the map readers, which is never read. Close is one
-- event, and its waiting for the loops is what TcpServer.Waiting is about.
pub mod Base
pub mod Result
pub mod Crc
pub mod Message
pub mod Topic
pub mod Subscriptions
pub mod Reader
pub mod Ftdi
pub mod TcpClient
pub mod Protocol
pub mod Broker
pub mod TcpServer
pub mod System
