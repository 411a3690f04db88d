-- ===== src/Broker/Quiet.antt =====
-- message_broker.go: the parts of the broker's work that make no protocol.
use qdp.Base.{
  choose, ℕ, ◌+◌, ◌≤◌, ◌≡◌, refl, ◌∙◌, arith, ◌==◌, if◌then◌else◌, true, false, List, [], ◌∷◌,
  Option, none, some,
}
use qdp.Broker.{
  is_connected, is_enabled, is_client, qdp_tcp_transport, qdp_ftdi_transport, Store, Broker,
  BrokerProtocol, Effect, close_protocol, unbind,
}
use qdp.Broker.Protocols.{
  lookup, insert, holders, holders-erase, holders-erase_found, entries, entries-erase,
  entries-insert,
}
use qdp.Broker.Jobs.{close_found, close_entity, install, make_protocol}
use qdp.Broker.Setup.{
  tcp_transport, setup_tcp_transport, setup_ftdi_transport, notify_of, notify_all,
  setup_tcp_transports, setup_ftdi_transports, setup, ids, close_entities, unbind_all, teardown,
}

-- How often the protocol with the number `n` has been closed.
abbrev pub closes : ℕ → List Effect → ℕ
closes n [] = 0
closes n (close_protocol k ∷ es) = (if k == n then 1 else 0) + closes n es
closes n (e ∷ es) = closes n es

-- How often the protocol is held by the map or has been closed.
abbrev pub owned : {S : Type 0} → ℕ → Broker S → ℕ
owned n w = holders n w.protocols_by_entity + closes n w.effects

-- No protocol is made, and none is owned, and no entity is a key, more often than before.
pub record NoMore {S : Type 0} (w w' : Broker S) : Type 0 where
  pub made_same : w'.made ≡ w.made
  pub fewer : (n : ℕ) → owned n w' ≤ owned n w
  pub keys : (k : ℕ) → entries k w'.protocols_by_entity ≤ entries k w.protocols_by_entity

pub NoMore-refl : {S : Type 0} (w : Broker S) → NoMore w w
NoMore-refl w = record { made_same = refl; fewer = λ n. omega arith; keys = λ k. omega arith }

pub NoMore-trans : {S : Type 0} {u v w : Broker S} → NoMore u v → NoMore v w → NoMore u w
NoMore-trans p q = record {
  made_same = q.made_same ∙ p.made_same;
  fewer = λ n. omega (arith, p.fewer n, q.fewer n);
  keys = λ k. omega (arith, p.keys k, q.keys k);
}

pub close_found-NoMore :
    {S : Type 0} (entity : ℕ) (o : Option BrokerProtocol) (w : Broker S)
    → lookup entity w.protocols_by_entity ≡ o
    → NoMore w (close_found entity o w)
unfolding close_found
close_found-NoMore entity none w found = NoMore-refl w
close_found-NoMore entity (some p) w found = record {
  made_same = refl;
  fewer = λ n. omega (arith, holders-erase_found n entity w.protocols_by_entity p found);
  keys = λ k. ground (arith, entries-erase k entity w.protocols_by_entity);
}

pub close_entity-NoMore :
    {S : Type 0} (entity : ℕ) (w : Broker S) → NoMore w (close_entity entity w)
unfolding close_entity
close_entity-NoMore entity w =
    close_found-NoMore entity (lookup entity w.protocols_by_entity) w refl

close_entities-NoMore : {S : Type 0} (ks : List ℕ) (w : Broker S) → NoMore w (close_entities ks w)
unfolding close_entities
close_entities-NoMore [] w = NoMore-refl w
close_entities-NoMore (k ∷ ks) w =
    NoMore-trans (close_entity-NoMore k w) (close_entities-NoMore ks (close_entity k w))

unbind_all-NoMore : {S : Type 0} (ts : List ℕ) (w : Broker S) → NoMore w (unbind_all ts w)
unfolding unbind_all
unbind_all-NoMore [] w = NoMore-refl w
unbind_all-NoMore (t ∷ ts) w =
    NoMore-trans (record { made_same = refl; fewer = λ n. omega arith; keys = λ k. omega arith })
      (unbind_all-NoMore ts (record w { effects = unbind t ∷ w.effects }))

pub teardown-NoMore : {S : Type 0} (w : Broker S) → NoMore w (teardown w)
unfolding teardown
teardown-NoMore w =
    let closed = close_entities (ids w.protocols_by_entity) w in
    let over = unbind_all-NoMore closed.tokens closed in
    let all = NoMore-trans (close_entities-NoMore (ids w.protocols_by_entity) w) over in
    record { made_same = all.made_same; fewer = all.fewer; keys = all.keys }

module _ {S : Type 0} (db : Store S) where
  pub setup_tcp_transport-NoMore : (e : ℕ) (w : Broker S) → NoMore w (setup_tcp_transport db e w)
  unfolding setup_tcp_transport tcp_transport
  setup_tcp_transport-NoMore e w =
      let s = Store.write_bool db w.store e is_connected false in
      choose (NoMore w) (Store.read_bool db s e is_enabled)
        (choose (λ effect. NoMore w (record w { store = s; effects = effect ∷ w.effects }))
          (Store.read_bool db s e is_client)
          (record { made_same = refl; fewer = λ n. omega arith; keys = λ k. omega arith })
          (record { made_same = refl; fewer = λ n. omega arith; keys = λ k. omega arith }))
        (record { made_same = refl; fewer = λ n. omega arith; keys = λ k. omega arith })

  pub setup_ftdi_transport-NoMore : (e : ℕ) (w : Broker S) → NoMore w (setup_ftdi_transport db e w)
  unfolding setup_ftdi_transport
  setup_ftdi_transport-NoMore e w =
      let s = Store.write_bool db w.store e is_connected false in
      choose (NoMore w) (Store.read_bool db s e is_enabled)
        (record { made_same = refl; fewer = λ n. omega arith; keys = λ k. omega arith })
        (record { made_same = refl; fewer = λ n. omega arith; keys = λ k. omega arith })

  setup_tcp_transports-NoMore :
      (es : List ℕ) (w : Broker S) → NoMore w (setup_tcp_transports db es w)
  unfolding setup_tcp_transports
  setup_tcp_transports-NoMore [] w = NoMore-refl w
  setup_tcp_transports-NoMore (e ∷ es) w =
      NoMore-trans (setup_tcp_transport-NoMore e w)
        (setup_tcp_transports-NoMore es (setup_tcp_transport db e w))

  setup_ftdi_transports-NoMore :
      (es : List ℕ) (w : Broker S) → NoMore w (setup_ftdi_transports db es w)
  unfolding setup_ftdi_transports
  setup_ftdi_transports-NoMore [] w = NoMore-refl w
  setup_ftdi_transports-NoMore (e ∷ es) w =
      NoMore-trans (setup_ftdi_transport-NoMore e w)
        (setup_ftdi_transports-NoMore es (setup_ftdi_transport db e w))

notify_all-NoMore : {S : Type 0} (w : Broker S) → NoMore w (notify_all w)
unfolding notify_all notify_of
notify_all-NoMore w = record { made_same = refl; fewer = λ n. omega arith; keys = λ k. omega arith }

module _ {S : Type 0} (db : Store S) where
  pub setup-NoMore : (w : Broker S) → NoMore w (setup db w)
  unfolding setup
  setup-NoMore w =
      let bound_all = notify_all w in
      let tcp = Store.entities db bound_all.store qdp_tcp_transport in
      let tcp_done = setup_tcp_transports db tcp bound_all in
      NoMore-trans (notify_all-NoMore w) (
        NoMore-trans (setup_tcp_transports-NoMore db tcp bound_all) (
          setup_ftdi_transports-NoMore db (Store.entities db tcp_done.store qdp_ftdi_transport)
            tcp_done))

  -- The new protocol is the only one that is held once more.
  pub install-owned :
      (entity n : ℕ) (w : Broker S)
      → owned n (install db entity w) ≤ (if w.made == n then 1 else 0) + owned n w
  unfolding install insert holders make_protocol
  install-owned entity n w = omega (arith, holders-erase n entity w.protocols_by_entity)

  pub install-made : (entity : ℕ) (w : Broker S) → (install db entity w).made ≡ w.made + 1
  unfolding install
  install-made entity w = refl

  pub install-entries :
      (entity k : ℕ) (w : Broker S)
      → entries k (install db entity w).protocols_by_entity
        ≡ (if entity == k then 1 else entries k w.protocols_by_entity)
  unfolding install
  install-entries entity k w =
      entries-insert k entity
        (make_protocol db (Store.write_bool db w.store entity is_connected true) w.made entity)
        w.protocols_by_entity
