-- ===== src/Broker/Routing.antt =====
-- message_broker.go: what the broker does for a message of the store.
use qdp.Base.{
  ℕ, ◌≡◌, refl, sym, ap, ◌∙◌, ◌==◌, if◌then◌else◌, true, List, [], ◌∷◌, ◌++◌, Option, none, some,
}
use qdp.Message.{Message}
use qdp.Broker.{Store, Broker, BrokerProtocol, Effect, send_message, is_connected}
use qdp.Broker.Protocols.{lookup, lookup-insert, lookup-erase, erase-absent}
use qdp.Broker.Jobs.{connect, install, make_protocol, close_found}
use qdp.Broker.Events.{job, tx_message_changed, handle, on_tx_message, send_to}
use qdp.Broker.Closing.{handle-connect}

-- The effect of a message for the protocol that is found.
abbrev pub sends : Message → Option BrokerProtocol → List Effect
sends m none = []
sends m (some p) = send_message p.number m ∷ []

send_to-sends :
    {S : Type 0} (m : Message) (o : Option BrokerProtocol) (w : Broker S)
    → (send_to m o w).effects ≡ sends m o ++ w.effects
unfolding send_to
send_to-sends m none w = refl
send_to-sends m (some p) w = refl

pub close_found-lookup :
    {S : Type 0} (e f : ℕ) (o : Option BrokerProtocol) (w : Broker S)
    → lookup e w.protocols_by_entity ≡ o
    → lookup f (close_found e o w).protocols_by_entity
      ≡ (if e == f then none else lookup f w.protocols_by_entity)
unfolding close_found
close_found-lookup e f none w absent =
    ap (lookup f) (sym (erase-absent e w.protocols_by_entity absent))
    ∙ lookup-erase e f w.protocols_by_entity
close_found-lookup e f (some p) w found = lookup-erase e f w.protocols_by_entity

module _ {S : Type 0} (db : Store S) where
  pub tx-sends :
      (title : List ℕ) (f : ℕ) (text : List ℕ) (w : Broker S) (o : Option BrokerProtocol)
      → lookup f w.protocols_by_entity ≡ o
      → (handle db (tx_message_changed title f text) w).effects
        ≡ sends (record { topic = title; payload = text }) o ++ w.effects
  unfolding handle on_tx_message
  tx-sends title f text w o found =
      send_to-sends (record { topic = title; payload = text }) (lookup f w.protocols_by_entity) w
      ∙ ap (λ o. sends (record { topic = title; payload = text }) o ++ w.effects) found

  pub connect-lookup :
      (e f : ℕ) (w : Broker S)
      → w.is_leader ≡ true
      → lookup f (handle db (job (connect e)) w).protocols_by_entity ≡ (
          if e == f
          then some (make_protocol db (Store.write_bool db w.store e is_connected true) w.made e)
          else lookup f w.protocols_by_entity)
  unfolding install
  connect-lookup e f w leader =
      ap (λ (u : Broker S). lookup f u.protocols_by_entity) (handle-connect db e w leader)
      ∙ lookup-insert e f
          (make_protocol db (Store.write_bool db w.store e is_connected true) w.made e)
          w.protocols_by_entity
