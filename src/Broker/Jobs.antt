-- ===== src/Broker/Jobs.antt =====
-- message_broker.go: the functions that the handlers of a transport pass to DoInMainThread, and what
-- a subscriber writes. Each function runs by itself on the main thread.
use qdp.Base.{
  ℕ, ◌+◌, ◌%◌, ◌^◌, ◌==◌, if◌then◌else◌, List, [], ◌∷◌, foldl, true, false, Option, none, some,
}
use qdp.Result.{Error}
use qdp.Message.{Message}
use qdp.Subscriptions.{
  Handler, closure, SubscriptionManager, new_subscription_manager, subscribe, on_message_rx,
}
use qdp.Broker.{
  Store, Broker, BrokerProtocol, Field, is_connected, total_received, total_sent, topic,
  transport_reference, rx_message, rx_message_fn, qdp_topic, start_receiving, close_protocol,
}
use qdp.Broker.Protocols.{lookup, insert, erase}

pub data Job : Type 0 where
  message_rx : ℕ → Job
  message_tx : ℕ → Job
  connect : ℕ → Job
  disconnect : ℕ → Option Error → Job

module _ {S : Type 0} (db : Store S) where
  -- `field.WriteInt(ctx, field.ReadInt(ctx)+1)`, in 64 bits
  unfoldable pub increment : ℕ → Field → S → S
  increment entity field s =
      Store.write_int db s entity field ((Store.read_int db s entity field + 1) % 2 ^ 64)

  unfoldable pub on_message_rx_job : ℕ → Broker S → Broker S
  on_message_rx_job entity w =
      if w.is_leader then record w { store = increment entity total_received w.store } else w

  unfoldable pub on_message_tx_job : ℕ → Broker S → Broker S
  on_message_tx_job entity w =
      if w.is_leader then record w { store = increment entity total_sent w.store } else w

  -- The loop over the topics: those of the transport are subscribed to, each with a closure that
  -- knows its topic entity.
  unfoldable pub subscribe_topics : S → ℕ → List ℕ → SubscriptionManager → SubscriptionManager
  subscribe_topics s entity [] sm = sm
  subscribe_topics s entity (t ∷ topics) sm = subscribe_topics s entity topics (
      if Store.read_entity_reference db s t transport_reference == entity
      then subscribe (Store.read_string db s t topic) (closure 0 t) sm
      else sm)

  -- What a received message does through a subscriber: the closure writes the payload to both fields
  -- of its topic.
  unfoldable pub write_topic : Message → S → Handler → S
  write_topic m s h = elim h [
    | Handler.pointer t v ↦ s
    | closure t v ↦
        Store.write_string db (Store.write_string db s v rx_message m.payload) v rx_message_fn
          m.payload
  ]

  unfoldable pub deliver : BrokerProtocol → Message → S → S
  deliver p m s = foldl (write_topic m) s (on_message_rx p.subscribers m)

  unfoldable pub make_protocol : S → ℕ → ℕ → BrokerProtocol
  make_protocol s number entity = record {
    number = number;
    subscribers =
        subscribe_topics s entity (Store.entities db s qdp_topic) new_subscription_manager;
  }

  -- OnConnectFunc, for a leader
  unfoldable pub install : ℕ → Broker S → Broker S
  install entity w =
      let s = Store.write_bool db w.store entity is_connected true in
      record w {
        store = s;
        protocols_by_entity = insert entity (make_protocol s w.made entity) w.protocols_by_entity;
        made = w.made + 1;
        effects = start_receiving w.made ∷ w.effects;
      }

  unfoldable pub on_connect_job : ℕ → Broker S → Broker S
  on_connect_job entity w = if w.is_leader then install entity w else w

-- `if protocol, exists := m[id]; exists { protocol.Close(); delete(m, id) }`
unfoldable pub close_found : {S : Type 0} → ℕ → Option BrokerProtocol → Broker S → Broker S
close_found entity none w = w
close_found entity (some p) w = record w {
  protocols_by_entity = erase entity w.protocols_by_entity;
  effects = close_protocol p.number ∷ w.effects;
}

unfoldable pub close_entity : {S : Type 0} → ℕ → Broker S → Broker S
close_entity entity w = close_found entity (lookup entity w.protocols_by_entity) w

module _ {S : Type 0} (db : Store S) where
  -- OnDisconnectFunc; the error only goes to the log.
  unfoldable pub on_disconnect_job : ℕ → Option Error → Broker S → Broker S
  on_disconnect_job entity error w =
      if w.is_leader
      then close_entity entity
          (record w { store = Store.write_bool db w.store entity is_connected false })
      else w

  unfoldable pub run_job : Job → Broker S → Broker S
  run_job (message_rx entity) w = on_message_rx_job db entity w
  run_job (message_tx entity) w = on_message_tx_job db entity w
  run_job (connect entity) w = on_connect_job db entity w
  run_job (disconnect entity error) w = on_disconnect_job entity error w
