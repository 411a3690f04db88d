-- ===== src/Broker/Setup.antt =====
-- message_broker.go: `setupTcpTransport`, `setupFtdiTransport`, `setup` and `teardown`. The handlers
-- that a transport is given are the jobs of its entity.
use qdp.Base.{ℕ, ◌+◌, ◌%◌, ◌^◌, if◌then◌else◌, List, [], ◌∷◌, ◌++◌, false}
use qdp.Broker.{
  Store, Broker, BrokerProtocol, Effect, Field, EntityType, NotificationConfig, root, qdp_topic,
  qdp_tcp_transport, qdp_ftdi_transport, schema_update_trigger, is_connected, is_enabled, address,
  is_client, topic, transport_reference, tx_message, vendor_id, product_id, interface,
  read_endpoint, write_endpoint, baud_rate, data_bits, stop_bits, parity, flow_control,
  new_tcp_client_transport, new_tcp_server_transport, new_ftdi_transport, notify, unbind,
}
use qdp.Ftdi.Config.{FtdiConfig}
use qdp.Broker.Jobs.{close_entity}

module _ {S : Type 0} (db : Store S) where
  -- The transport of an enabled entity is made; an error of that only goes to the log.
  unfoldable pub tcp_transport : ℕ → S → Effect
  tcp_transport entity s =
      if Store.read_bool db s entity is_client
      then new_tcp_client_transport entity (Store.read_string db s entity address)
      else new_tcp_server_transport entity (Store.read_string db s entity address)

  unfoldable pub setup_tcp_transport : ℕ → Broker S → Broker S
  setup_tcp_transport entity w =
      let s = Store.write_bool db w.store entity is_connected false in
      if Store.read_bool db s entity is_enabled
      then record w { store = s; effects = tcp_transport entity s ∷ w.effects }
      else record w { store = s }

  -- The two ids are converted to uint16; the other fields are ints.
  pub ftdi_config : ℕ → S → FtdiConfig
  ftdi_config entity s = record {
    vid = Store.read_int db s entity vendor_id % 2 ^ 16;
    pid = Store.read_int db s entity product_id % 2 ^ 16;
    interface = Store.read_int db s entity interface;
    read_ep = Store.read_int db s entity read_endpoint;
    write_ep = Store.read_int db s entity write_endpoint;
    baud_rate = Store.read_int db s entity baud_rate;
    data_bits = Store.read_int db s entity data_bits;
    stop_bits = Store.read_int db s entity stop_bits;
    parity = Store.read_int db s entity parity;
    flow_control = Store.read_int db s entity flow_control;
  }

  unfoldable pub setup_ftdi_transport : ℕ → Broker S → Broker S
  setup_ftdi_transport entity w =
      let s = Store.write_bool db w.store entity is_connected false in
      if Store.read_bool db s entity is_enabled
      then record w {
        store = s;
        effects = new_ftdi_transport entity (ftdi_config entity s) ∷ w.effects;
      }
      else record w { store = s }

-- `w.tokens = append(w.tokens, w.store.Notify(...))`
unfoldable pub notify_of : {S : Type 0} → NotificationConfig → Broker S → Broker S
notify_of config w = record w {
  tokens = w.tokens ++ (w.bound ∷ []);
  bound = w.bound + 1;
  effects = notify w.bound config ∷ w.effects;
}

abbrev pub notification : EntityType → Field → List Field → NotificationConfig
notification type field context = record {
  entity_type = type;
  field_name = field;
  context_fields = context;
}

-- The four notifications that `setup` asks for.
unfoldable pub notify_all : {S : Type 0} → Broker S → Broker S
notify_all w = notify_of (notification qdp_ftdi_transport is_enabled []) (
    notify_of (notification qdp_topic tx_message (topic ∷ transport_reference ∷ [])) (
      notify_of (notification qdp_tcp_transport is_enabled [])
        (notify_of (notification root schema_update_trigger []) w)))

module _ {S : Type 0} (db : Store S) where
  unfoldable pub setup_tcp_transports : List ℕ → Broker S → Broker S
  setup_tcp_transports [] w = w
  setup_tcp_transports (e ∷ es) w = setup_tcp_transports es (setup_tcp_transport db e w)

  unfoldable pub setup_ftdi_transports : List ℕ → Broker S → Broker S
  setup_ftdi_transports [] w = w
  setup_ftdi_transports (e ∷ es) w = setup_ftdi_transports es (setup_ftdi_transport db e w)

  unfoldable pub setup : Broker S → Broker S
  setup w =
      let bound_all = notify_all w in
      let tcp_done =
        setup_tcp_transports (Store.entities db bound_all.store qdp_tcp_transport) bound_all in
      setup_ftdi_transports (Store.entities db tcp_done.store qdp_ftdi_transport) tcp_done

-- The keys of the map, of which `teardown` makes a copy.
unfoldable pub ids : List (ℕ × BrokerProtocol) → List ℕ
ids [] = []
ids ((k, p) ∷ m) = k ∷ ids m

unfoldable pub close_entities : {S : Type 0} → List ℕ → Broker S → Broker S
close_entities [] w = w
close_entities (k ∷ ks) w = close_entities ks (close_entity k w)

unfoldable pub unbind_all : {S : Type 0} → List ℕ → Broker S → Broker S
unbind_all [] w = w
unbind_all (token ∷ tokens) w = unbind_all tokens (record w { effects = unbind token ∷ w.effects })

unfoldable pub teardown : {S : Type 0} → Broker S → Broker S
teardown w =
    let closed = close_entities (ids w.protocols_by_entity) w in
    record (unbind_all closed.tokens closed) { tokens = [] }
