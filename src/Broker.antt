-- ===== src/Broker.antt =====
-- message_broker.go: the state of `MessageBroker`, its map of protocols, and what it uses of the store.
pub mod Protocols
pub mod Jobs
pub mod Setup
pub mod Events
pub mod Quiet
pub mod Ownership
pub mod Closing
pub mod Leadership
pub mod Routing
pub mod Routes
pub mod Sends
pub mod Delivery
pub mod Counting
pub mod Making
pub mod Starting
pub mod Memory
mod Runs
use qdp.Base.{ℕ, ◌+◌, ◌==◌, if◌then◌else◌, List, [], ◌∷◌, Bool, true, false, Option, none, some}
use qdp.Message.{Message}
use qdp.Subscriptions.{SubscriptionManager}
use qdp.Ftdi.Config.{FtdiConfig}

pub data EntityType : Type 0 where
  root qdp_topic qdp_tcp_transport qdp_ftdi_transport : EntityType

pub data Field : Type 0 where
  schema_update_trigger is_connected is_enabled total_received total_sent : Field
  address is_client : Field
  topic transport_reference tx_message rx_message rx_message_fn : Field
  vendor_id product_id interface read_endpoint write_endpoint : Field
  baud_rate data_bits stop_bits parity flow_control : Field

-- The data.Store of the library qlib, with the state `S`. Entity ids, which are only compared, are
-- numbers; an int64 is its bit pattern, below 2 ^ 64.
pub record Store (S : Type 0) : Type 0 where
  pub read_bool : S → ℕ → Field → Bool
  pub read_int : S → ℕ → Field → ℕ
  pub read_string : S → ℕ → Field → List ℕ
  pub read_entity_reference : S → ℕ → Field → ℕ
  pub write_bool : S → ℕ → Field → Bool → S
  pub write_int : S → ℕ → Field → ℕ → S
  pub write_string : S → ℕ → Field → List ℕ → S
  -- query.New(store).From(type).Execute(ctx)
  pub entities : S → EntityType → List ℕ

-- A protocol that the broker has made: the how-manieth it is, and its subscribers.
pub record BrokerProtocol : Type 0 where
  pub number : ℕ
  pub subscribers : SubscriptionManager

-- A call of store.Notify: the entity type, the field and the context fields.
pub record NotificationConfig : Type 0 where
  pub entity_type : EntityType
  pub field_name : Field
  pub context_fields : List Field

-- What the broker does to other objects. A protocol and a token go by their numbers, a transport that
-- is made by its entity.
pub data Effect : Type 0 where
  new_tcp_client_transport : ℕ → List ℕ → Effect
  new_tcp_server_transport : ℕ → List ℕ → Effect
  new_ftdi_transport : ℕ → FtdiConfig → Effect
  start_receiving : ℕ → Effect
  close_protocol : ℕ → Effect
  send_message : ℕ → Message → Effect
  notify : ℕ → NotificationConfig → Effect
  unbind : ℕ → Effect

-- `cancelled` is that w.ctx is done; `made` and `bound` count the protocols and the tokens made so
-- far; `effects` has the last effect first.
pub record Broker (S : Type 0) : Type 0 where
  pub store : S
  pub is_leader : Bool
  pub cancelled : Bool
  pub protocols_by_entity : List (ℕ × BrokerProtocol)
  pub tokens : List ℕ
  pub made : ℕ
  pub bound : ℕ
  pub effects : List Effect

-- NewMessageBroker, and Init, which makes the map.
pub new_message_broker : {S : Type 0} → S → Broker S
new_message_broker s = record {
  store = s;
  is_leader = false;
  cancelled = false;
  protocols_by_entity = [];
  tokens = [];
  made = 0;
  bound = 0;
  effects = [];
}

pub init : {S : Type 0} → Broker S → Broker S
init w = record w { protocols_by_entity = [] }
