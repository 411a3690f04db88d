-- ===== src/Broker/Events.antt =====
-- message_broker.go: what the broker does on the main thread: the changes of leadership, the
-- notifications of the store, and the jobs of the transports.
use qdp.Base.{ℕ, if◌then◌else◌, List, [], ◌∷◌, Bool, true, false, Option, none, some}
use qdp.Message.{Message}
use qdp.Broker.{Store, Broker, BrokerProtocol, send_message}
use qdp.Broker.Protocols.{lookup}
use qdp.Broker.Jobs.{Job, run_job, close_found}
use qdp.Broker.Setup.{setup_tcp_transport, setup_ftdi_transport, setup, teardown}

-- `enabled` is the field IsEnabled; what is done for an enabled transport without a protocol differs.
unfoldable pub on_is_enabled_changed :
    {S : Type 0} → (Broker S → Broker S) → ℕ → Bool → Option BrokerProtocol → Broker S → Broker S
on_is_enabled_changed set_up entity false existing w = close_found entity existing w
on_is_enabled_changed set_up entity true (some p) w = w
on_is_enabled_changed set_up entity true none w = set_up w

unfoldable pub send_to : {S : Type 0} → Message → Option BrokerProtocol → Broker S → Broker S
send_to m none w = w
send_to m (some p) w = record w { effects = send_message p.number m ∷ w.effects }

-- onTxMessage: the topic and the transport are the context fields of the notification.
unfoldable pub on_tx_message : {S : Type 0} → List ℕ → ℕ → List ℕ → Broker S → Broker S
on_tx_message topic transport text w =
    send_to (record { topic = topic; payload = text }) (lookup transport w.protocols_by_entity) w

pub data Event : Type 0 where
  became_leader losing_leadership schema_updated deinit : Event
  tcp_transport_is_enabled_changed : ℕ → Bool → Event
  ftdi_transport_is_enabled_changed : ℕ → Bool → Event
  tx_message_changed : List ℕ → ℕ → List ℕ → Event
  job : Job → Event

module _ {S : Type 0} (db : Store S) where
  unfoldable pub on_became_leader : Broker S → Broker S
  on_became_leader w = setup db (teardown (record w { is_leader = true }))

  unfoldable pub on_tcp_transport_is_enabled_changed : ℕ → Bool → Broker S → Broker S
  on_tcp_transport_is_enabled_changed entity enabled w =
      on_is_enabled_changed (setup_tcp_transport db entity) entity enabled
        (lookup entity w.protocols_by_entity) w

  unfoldable pub on_ftdi_transport_is_enabled_changed : ℕ → Bool → Broker S → Broker S
  on_ftdi_transport_is_enabled_changed entity enabled w =
      on_is_enabled_changed (setup_ftdi_transport db entity) entity enabled
        (lookup entity w.protocols_by_entity) w

  unfoldable pub on_schema_updated : Broker S → Broker S
  on_schema_updated w = if w.is_leader then setup db (teardown w) else w

unfoldable pub on_losing_leadership : {S : Type 0} → Broker S → Broker S
on_losing_leadership w = teardown (record w { is_leader = false })

unfoldable pub on_deinit : {S : Type 0} → Broker S → Broker S
on_deinit w = teardown (record w { cancelled = true })

module _ {S : Type 0} (db : Store S) where
  unfoldable pub handle : Event → Broker S → Broker S
  handle became_leader w = on_became_leader db w
  handle losing_leadership w = on_losing_leadership w
  handle schema_updated w = on_schema_updated db w
  handle deinit w = on_deinit w
  handle (tcp_transport_is_enabled_changed entity enabled) w =
      on_tcp_transport_is_enabled_changed db entity enabled w
  handle (ftdi_transport_is_enabled_changed entity enabled) w =
      on_ftdi_transport_is_enabled_changed db entity enabled w
  handle (tx_message_changed topic transport text) w = on_tx_message topic transport text w
  handle (job j) w = run_job db j w

  unfoldable pub handle_all : List Event → Broker S → Broker S
  handle_all [] w = w
  handle_all (e ∷ es) w = handle_all es (handle e w)
