-- ===== src/Broker/Routes.antt =====
-- message_broker.go: a view of one transport alone, and what closing, teardown and setup do to it.
use qdp.Base.{
  choose, ℕ, ◌+◌, ◌≤◌, ◌≡◌, refl, ap, ◌∙◌, ◌==◌, if◌then◌else◌, Bool, true, false, List, [], ◌∷◌,
  Option, none, some,
}
use qdp.Message.{Message}
use qdp.Broker.{
  Store, Broker, BrokerProtocol, Effect, send_message, is_connected, is_enabled, qdp_tcp_transport,
  qdp_ftdi_transport,
}
use qdp.Broker.Protocols.{lookup, entries}
use qdp.Broker.Jobs.{message_rx, message_tx, connect, disconnect, close_found, close_entity}
use qdp.Broker.Setup.{
  setup_tcp_transport, setup_ftdi_transport, notify_of, notify_all, setup_tcp_transports,
  setup_ftdi_transports, setup, teardown,
}
use qdp.Broker.Events.{
  Event, became_leader, losing_leadership, schema_updated, deinit, job, tx_message_changed,
  tcp_transport_is_enabled_changed, ftdi_transport_is_enabled_changed,
}
use qdp.Broker.Quiet.{teardown-NoMore}
use qdp.Broker.Leadership.{teardown-TornDown}
use qdp.Broker.Routing.{close_found-lookup}

-- What matters for the messages of one transport: whether the broker leads, how many protocols there
-- have been, of any transport, and the number of the transport's own, if it has one.
pub record Route : Type 0 where
  pub leads : Bool
  pub made : ℕ
  pub number : Option ℕ

abbrev pub no_route : Route
no_route = record { leads = false; made = 0; number = none }

-- A leader's connections each make a protocol, the next one by number, which replaces that of the same
-- transport; a disconnection ends the one of its transport, and so does disabling it, also without
-- leadership; a new leadership, its loss, a change of the schema for a leader, and the end of the
-- broker end all protocols.
abbrev pub routed : ℕ → Event → Route → Route
routed f became_leader r = record r { leads = true; number = none }
routed f losing_leadership r = record r { leads = false; number = none }
routed f schema_updated r = record r { number = if r.leads then none else r.number }
routed f deinit r = record r { number = none }
routed f (tcp_transport_is_enabled_changed e false) r = record r {
  number = if e == f then none else r.number;
}
routed f (tcp_transport_is_enabled_changed e true) r = r
routed f (ftdi_transport_is_enabled_changed e false) r = record r {
  number = if e == f then none else r.number;
}
routed f (ftdi_transport_is_enabled_changed e true) r = r
routed f (tx_message_changed title e text) r = r
routed f (job (message_rx e)) r = r
routed f (job (message_tx e)) r = r
routed f (job (connect e)) r = record r {
  made = if r.leads then r.made + 1 else r.made;
  number = if r.leads then (if e == f then some r.made else r.number) else r.number;
}
routed f (job (disconnect e error)) r = record r {
  number = if r.leads then (if e == f then none else r.number) else r.number;
}

abbrev pub routed_all : ℕ → List Event → Route → Route
routed_all f [] r = r
routed_all f (e ∷ es) r = routed_all f es (routed f e r)

-- A message is sent to the protocol of the route, if there is one.
abbrev pub sent_on : Message → Option ℕ → List Effect
sent_on m none = []
sent_on m (some n) = send_message n m ∷ []

abbrev pub number_of : Option BrokerProtocol → Option ℕ
number_of none = none
number_of (some p) = some p.number

-- The route of the transport `f` in a state of the broker.
abbrev pub route : {S : Type 0} → ℕ → Broker S → Route
route f w = record {
  leads = w.is_leader;
  made = w.made;
  number = number_of (lookup f w.protocols_by_entity);
}

pub route-≡ : {r r' : Route} → r.leads ≡ r'.leads → r.made ≡ r'.made → r.number ≡ r'.number → r ≡ r'
route-≡ {r} {r'} leads made number =
    ap (λ b. record r { leads = b }) leads
    ∙ ap (λ n. record r { leads = r'.leads; made = n }) made
    ∙ ap (λ o. record r' { number = o }) number

pub number_of-if :
    (b : Bool) (x y : Option BrokerProtocol)
    → number_of (if b then x else y) ≡ (if b then number_of x else number_of y)
number_of-if true x y = refl
number_of-if false x y = refl

close_found-made :
    {S : Type 0} (e : ℕ) (o : Option BrokerProtocol) (w : Broker S)
    → ((close_found e o w).is_leader ≡ w.is_leader) × ((close_found e o w).made ≡ w.made)
unfolding close_found
close_found-made e none w = (refl, refl)
close_found-made e (some p) w = (refl, refl)

pub closed-route :
    {S : Type 0} (e f : ℕ) (w : Broker S)
    → route f (close_entity e w)
      ≡ record (route f w) { number = if e == f then none else (route f w).number }
unfolding close_entity
closed-route e f w =
    let o = lookup e w.protocols_by_entity in
    route-≡ (close_found-made e o w).0 (close_found-made e o w).1 (
      ap number_of (close_found-lookup e f o w refl)
      ∙ number_of-if (e == f) none (lookup f w.protocols_by_entity))

pub torn-route :
    {S : Type 0} (f : ℕ) (w : Broker S)
    → ((k : ℕ) → entries k w.protocols_by_entity ≤ 1)
    → route f (teardown w) ≡ record (route f w) { number = none }
unfolding lookup
torn-route f w single =
    let down = teardown-TornDown w single in
    route-≡ down.leader_same (teardown-NoMore w).made_same
      (ap (λ m. number_of (lookup f m)) down.no_protocols)

module _ {S : Type 0} (db : Store S) where
  pub tcp-route : (f e : ℕ) (w : Broker S) → route f (setup_tcp_transport db e w) ≡ route f w
  unfolding setup_tcp_transport
  tcp-route f e w =
      choose (λ (u : Broker S). route f u ≡ route f w)
        (Store.read_bool db (Store.write_bool db w.store e is_connected false) e is_enabled) refl
        refl

  pub ftdi-route : (f e : ℕ) (w : Broker S) → route f (setup_ftdi_transport db e w) ≡ route f w
  unfolding setup_ftdi_transport
  ftdi-route f e w =
      choose (λ (u : Broker S). route f u ≡ route f w)
        (Store.read_bool db (Store.write_bool db w.store e is_connected false) e is_enabled) refl
        refl

  tcps-route :
      (f : ℕ) (es : List ℕ) (w : Broker S) → route f (setup_tcp_transports db es w) ≡ route f w
  unfolding setup_tcp_transports
  tcps-route f [] w = refl
  tcps-route f (e ∷ es) w = tcps-route f es (setup_tcp_transport db e w) ∙ tcp-route f e w

  ftdis-route :
      (f : ℕ) (es : List ℕ) (w : Broker S) → route f (setup_ftdi_transports db es w) ≡ route f w
  unfolding setup_ftdi_transports
  ftdis-route f [] w = refl
  ftdis-route f (e ∷ es) w = ftdis-route f es (setup_ftdi_transport db e w) ∙ ftdi-route f e w

  pub setup-route : (f : ℕ) (w : Broker S) → route f (setup db w) ≡ route f w
  unfolding setup notify_all notify_of
  setup-route f w =
      let bound_all = notify_all w in
      let tcp = Store.entities db bound_all.store qdp_tcp_transport in
      let tcp_done = setup_tcp_transports db tcp bound_all in
      ftdis-route f (Store.entities db tcp_done.store qdp_ftdi_transport) tcp_done
      ∙ tcps-route f tcp bound_all
