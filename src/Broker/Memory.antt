-- ===== src/Broker/Memory.antt =====
-- message_broker.go: a store in memory, for runs of the broker.
use qdp.Base.{ℕ, ◌≡◌, refl, ◌==◌, if◌then◌else◌, Bool, true, false, List, [], ◌∷◌, some}
use qdp.Message.{Message}
use qdp.Broker.{
  Store, Broker, BrokerProtocol, Field, EntityType, is_connected, is_enabled, total_received,
  total_sent, topic, qdp_topic, qdp_tcp_transport, start_receiving, root, qdp_ftdi_transport,
}
use qdp.Broker.Protocols.{lookup}

-- What a store in memory holds: two counters and two flags for each entity, and the texts written
-- last, newest first. The transports are 1, which is enabled, and 2; the topics are 7, of transport 1, and 8, of 2.
pub record Memory : Type 0 where
  pub received : ℕ → ℕ
  pub sent : ℕ → ℕ
  pub connected : ℕ → Bool
  pub texts : List (ℕ × List ℕ)

abbrev pub update {ℓ} : {A : Type ℓ} → (ℕ → A) → ℕ → A → ℕ → A
update f e v g = if e == g then v else f g

abbrev pub read_counter : Memory → ℕ → Field → ℕ
read_counter s e total_received = s.received e
read_counter s e total_sent = s.sent e
read_counter s e other = 0

abbrev pub write_counter : Memory → ℕ → Field → ℕ → Memory
write_counter s e total_received v = record s { received = update s.received e v }
write_counter s e total_sent v = record s { sent = update s.sent e v }
write_counter s e other v = s

abbrev pub read_flag : Memory → ℕ → Field → Bool
read_flag s e is_connected = s.connected e
read_flag s e is_enabled = e == 1
read_flag s e other = true

abbrev pub write_flag : Memory → ℕ → Field → Bool → Memory
write_flag s e is_connected v = record s { connected = update s.connected e v }
write_flag s e other v = s

abbrev pub read_text : Memory → ℕ → Field → List ℕ
read_text s e topic = b'a' ∷ []
read_text s e other = []

abbrev pub all_entities : Memory → EntityType → List ℕ
all_entities s root = []
all_entities s qdp_topic = 7 ∷ 8 ∷ []
all_entities s qdp_tcp_transport = 1 ∷ 2 ∷ []
all_entities s qdp_ftdi_transport = []

abbrev pub memory : Store Memory
memory = record {
  read_bool = read_flag;
  read_int = read_counter;
  read_string = read_text;
  read_entity_reference = λ s e field. if e == 7 then 1 else 2;
  write_bool = write_flag;
  write_int = write_counter;
  write_string = λ s e field v. record s { texts = (e, v) ∷ s.texts };
  entities = all_entities;
}

abbrev pub blank : Memory
blank = record { received = λ e. 0; sent = λ e. 0; connected = λ e. false; texts = [] }

abbrev pub first_protocol : BrokerProtocol
first_protocol = record { number = 0; subscribers = record { subscriptions = [] } }

abbrev pub leading : Broker Memory
leading = record {
  store = blank;
  is_leader = true;
  cancelled = false;
  protocols_by_entity = (1, first_protocol) ∷ [];
  tokens = 0 ∷ 1 ∷ [];
  made = 1;
  bound = 2;
  effects = start_receiving 0 ∷ [];
}

pub leading-first : lookup 1 leading.protocols_by_entity ≡ some first_protocol
unfolding lookup
leading-first = refl

abbrev pub order : Message
order = record { topic = b'a' ∷ []; payload = b'1' ∷ [] }
