-- ===== src/Broker/Ownership.antt =====
-- message_broker.go: which protocols the broker still can close, event by event.
use qdp.Base.{choose, ℕ, ◌≡◌, refl, arith, Bool, true, false, Option, none, some, ◌⊎◌, inl, inr}
use qdp.Message.{Message}
use qdp.Broker.{is_connected, Store, Broker, BrokerProtocol}
use qdp.Broker.Protocols.{lookup}
use qdp.Broker.Jobs.{
  Job, message_rx, message_tx, connect, disconnect, install, on_message_rx_job, on_message_tx_job,
  on_connect_job, on_disconnect_job, run_job,
}
use qdp.Broker.Setup.{setup_tcp_transport, setup_ftdi_transport, teardown}
use qdp.Broker.Events.{
  on_is_enabled_changed, send_to, on_tx_message, Event, on_became_leader,
  on_tcp_transport_is_enabled_changed, on_ftdi_transport_is_enabled_changed, on_schema_updated,
  on_losing_leadership, on_deinit, handle, became_leader, losing_leadership, schema_updated, deinit,
  tcp_transport_is_enabled_changed, ftdi_transport_is_enabled_changed, tx_message_changed, job,
}
use qdp.Broker.Quiet.{
  NoMore-refl, NoMore-trans, close_found-NoMore, close_entity-NoMore, teardown-NoMore,
  setup_tcp_transport-NoMore, setup_ftdi_transport-NoMore, setup-NoMore, NoMore,
}

-- An event either makes no protocol, or it is a connection for which one is made.
abbrev pub Outcome : {S : Type 0} → Store S → Broker S → Broker S → Type 0
Outcome db w w' = NoMore w w' ⊎ ((entity : ℕ) × (w' ≡ install db entity w))

on_is_enabled_changed-NoMore :
    {S : Type 0} (set_up : Broker S → Broker S) (entity : ℕ) (enabled : Bool)
    (o : Option BrokerProtocol) (w : Broker S)
    → lookup entity w.protocols_by_entity ≡ o
    → NoMore w (set_up w)
    → NoMore w (on_is_enabled_changed set_up entity enabled o w)
unfolding on_is_enabled_changed
on_is_enabled_changed-NoMore set_up entity false o w found quiet =
    close_found-NoMore entity o w found
on_is_enabled_changed-NoMore set_up entity true (some p) w found quiet = NoMore-refl w
on_is_enabled_changed-NoMore set_up entity true none w found quiet = quiet

send_to-NoMore :
    {S : Type 0} (m : Message) (o : Option BrokerProtocol) (w : Broker S) → NoMore w (send_to m o w)
unfolding send_to
send_to-NoMore m none w = NoMore-refl w
send_to-NoMore m (some p) w = record {
  made_same = refl;
  fewer = λ n. omega arith;
  keys = λ k. omega arith;
}

module _ {S : Type 0} (db : Store S) where
  run_job-Outcome : (j : Job) (w : Broker S) → Outcome db w (run_job db j w)
  unfolding run_job on_message_rx_job on_message_tx_job on_connect_job on_disconnect_job
  run_job-Outcome (message_rx e) w = inl (
      choose (NoMore w) w.is_leader
        (record { made_same = refl; fewer = λ n. omega arith; keys = λ k. omega arith })
        (NoMore-refl w))
  run_job-Outcome (message_tx e) w = inl (
      choose (NoMore w) w.is_leader
        (record { made_same = refl; fewer = λ n. omega arith; keys = λ k. omega arith })
        (NoMore-refl w))
  run_job-Outcome (connect e) w =
      choose (Outcome db w) w.is_leader (inr (e, refl)) (inl (NoMore-refl w))
  run_job-Outcome (disconnect e error) w =
      let s = Store.write_bool db w.store e is_connected false in
      let closed = close_entity-NoMore e (record w { store = s }) in
      inl (
        choose (NoMore w) w.is_leader
          (record { made_same = closed.made_same; fewer = closed.fewer; keys = closed.keys })
          (NoMore-refl w))

  pub handle-Outcome : (e : Event) (w : Broker S) → Outcome db w (handle db e w)
  unfolding handle on_became_leader on_losing_leadership on_schema_updated on_deinit on_tx_message
      on_tcp_transport_is_enabled_changed on_ftdi_transport_is_enabled_changed
  handle-Outcome became_leader w =
      let leader = record w { is_leader = true } in
      let all = NoMore-trans (teardown-NoMore leader) (setup-NoMore db (teardown leader)) in
      inl (record { made_same = all.made_same; fewer = all.fewer; keys = all.keys })
  handle-Outcome losing_leadership w =
      let all = teardown-NoMore (record w { is_leader = false }) in
      inl (record { made_same = all.made_same; fewer = all.fewer; keys = all.keys })
  handle-Outcome schema_updated w = inl (
      choose (NoMore w) w.is_leader
        (NoMore-trans (teardown-NoMore w) (setup-NoMore db (teardown w))) (NoMore-refl w))
  handle-Outcome deinit w =
      let all = teardown-NoMore (record w { cancelled = true }) in
      inl (record { made_same = all.made_same; fewer = all.fewer; keys = all.keys })
  handle-Outcome (tcp_transport_is_enabled_changed e on) w = inl (
      on_is_enabled_changed-NoMore (setup_tcp_transport db e) e on (lookup e w.protocols_by_entity)
        w refl (setup_tcp_transport-NoMore db e w))
  handle-Outcome (ftdi_transport_is_enabled_changed e on) w = inl (
      on_is_enabled_changed-NoMore (setup_ftdi_transport db e) e on (lookup e w.protocols_by_entity)
        w refl (setup_ftdi_transport-NoMore db e w))
  handle-Outcome (tx_message_changed topic transport text) w =
      inl (send_to-NoMore _ (lookup transport w.protocols_by_entity) w)
  handle-Outcome (job j) w = run_job-Outcome j w
