-- ===== src/Broker/Runs.antt =====
-- message_broker.go: a broker over a store in memory.
use qdp.Base.{ℕ, Bool, ◌≡◌, refl, arith, false, List, [], ◌∷◌, map, none}
use qdp.Topic.{match_topic, split, bytes_eq, last_part, match_parts}
use qdp.Broker.Memory.{
  Memory, read_counter, write_flag, memory, blank, first_protocol, leading, leading-first, order,
}
use qdp.Broker.{
  Store, EntityType, root, qdp_topic, qdp_tcp_transport, qdp_ftdi_transport, new_message_broker,
  Broker, send_message, is_connected, total_received,
}
use qdp.Broker.Protocols.{holders, entries}
use qdp.Broker.Jobs.{Job, message_rx, message_tx, connect, disconnect}
use qdp.Broker.Events.{
  Event, became_leader, losing_leadership, job, tx_message_changed, schema_updated,
  ftdi_transport_is_enabled_changed, handle, handle_all, on_losing_leadership,
}
use qdp.Broker.Quiet.{closes}
use qdp.Broker.Closing.{IsOwned, handle_all-new_message_broker, connect_loses}
use qdp.Broker.Leadership.{TornDown, on_losing_leadership-TornDown}
use qdp.Broker.Sends.{handle_all-sends}
use qdp.Broker.Delivery.{listening}
use qdp.Broker.Making.{KeepsSettings, Starts}
use qdp.Broker.Starting.{became_leader-Starts}
use qdp.Broker.Counting.{KeepsCounts, handle_all-receptions}

memory-KeepsCounts : KeepsCounts memory
memory-KeepsCounts = record {
  received_written = λ s e f v. refl;
  sent_written = λ s e f v. refl;
  connected_written = λ s e f b. refl;
}

memory-KeepsSettings : KeepsSettings memory
memory-KeepsSettings = record {
  connected_written = λ s e f b. refl;
  enabled_apart = λ s e f b. refl;
  entities_apart = λ s e b type. apart s e b type;
}
  where
    apart :
        (s : Memory) (e : ℕ) (b : Bool) (type : EntityType)
        → Store.entities memory (write_flag s e is_connected b) type ≡ Store.entities memory s type
    apart s e b root = refl
    apart s e b qdp_topic = refl
    apart s e b qdp_tcp_transport = refl
    apart s e b qdp_ftdi_transport = refl

became_leader-Starts_example :
    Starts memory (1 ∷ 2 ∷ []) leading (handle memory became_leader leading)
became_leader-Starts_example = became_leader-Starts memory memory-KeepsSettings leading

-- Transport 1 connects twice, without a disconnection.
abbrev session : List Event
session = became_leader ∷ job (connect 1) ∷ []

handle_all-new_message_broker_example :
    IsOwned (handle_all memory session (new_message_broker blank))
handle_all-new_message_broker_example = handle_all-new_message_broker memory blank session

leading-IsOwned : IsOwned leading
unfolding holders entries
leading-IsOwned = record {
  once = λ n. ground arith;
  none_ahead = λ n ahead. ground arith;
  single = λ k. ground arith;
}

connect_loses_example :
    (closes 0 (handle_all memory (job (connect 1) ∷ losing_leadership ∷ []) leading).effects ≡ 0)
    × (holders 0
          (handle_all memory (job (connect 1) ∷ losing_leadership ∷ []) leading).protocols_by_entity
        ≡ 0)
connect_loses_example =
    connect_loses memory leading 1 first_protocol (losing_leadership ∷ []) leading-IsOwned refl
      leading-first

abbrev left_over : List Job
left_over = disconnect 1 none ∷ message_rx 1 ∷ []

on_losing_leadership-TornDown_example :
    TornDown (record leading { is_leader = false }) (on_losing_leadership leading)
    × (handle_all memory (map job left_over) (on_losing_leadership leading)
        ≡ on_losing_leadership leading)
on_losing_leadership-TornDown_example =
    on_losing_leadership-TornDown memory leading left_over leading-IsOwned

-- Transport 1 connects again after a change of the schema, transport 2 is disabled.
abbrev changes : List Event
changes =
    became_leader
    ∷ job (connect 1)
    ∷ job (connect 2)
    ∷ schema_updated
    ∷ job (connect 1)
    ∷ job (connect 2)
    ∷ ftdi_transport_is_enabled_changed 2 false
    ∷ []

abbrev changed : Broker Memory
changed = handle_all memory changes (new_message_broker blank)

handle_all-sends_example :
    (handle memory (tx_message_changed order.topic 1 order.payload) changed).effects
    ≡ send_message 2 order ∷ changed.effects
handle_all-sends_example = handle_all-sends memory blank changes 1 order.topic order.payload

nothing_to_second :
    (handle memory (tx_message_changed order.topic 2 order.payload) changed).effects
    ≡ changed.effects
nothing_to_second = handle_all-sends memory blank changes 2 order.topic order.payload

-- The message reaches topic 7, which refers to transport 1.
listening_on_first : listening memory blank 1 order (7 ∷ 8 ∷ []) ≡ 7 ∷ []
unfolding match_topic split bytes_eq last_part match_parts
listening_on_first = refl

abbrev reports : List Job
reports = message_rx 1 ∷ message_rx 2 ∷ disconnect 1 none ∷ message_tx 1 ∷ message_rx 1 ∷ []

handle_all-receptions_example :
    read_counter (handle_all memory (map job reports) leading).store 1 total_received ≡ 2
handle_all-receptions_example =
    handle_all-receptions memory memory-KeepsCounts 1 reports leading refl (omega arith)
