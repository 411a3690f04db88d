-- ===== src/Broker/Sends.antt =====
-- message_broker.go: that the broker follows the view of a transport, and where a message goes.
use qdp.Base.{
  ℕ, ◌+◌, ◌≡◌, refl, sym, ap, ◌∙◌, ◌==◌, if_true, if_false, Bool, true, false, List, [], ◌∷◌, ◌++◌,
  Option, none, some,
}
use qdp.Result.{Error}
use qdp.Message.{Message}
use qdp.Broker.{Store, Broker, BrokerProtocol, new_message_broker, is_connected}
use qdp.Broker.Protocols.{lookup}
use qdp.Broker.Jobs.{
  Job, message_rx, message_tx, connect, disconnect, close_entity, install, make_protocol, run_job,
  on_disconnect_job, on_message_rx_job, on_message_tx_job,
}
use qdp.Broker.Setup.{setup_tcp_transport, setup_ftdi_transport, teardown}
use qdp.Broker.Events.{
  Event, became_leader, losing_leadership, schema_updated, deinit, job, tx_message_changed,
  tcp_transport_is_enabled_changed, ftdi_transport_is_enabled_changed, handle, handle_all,
  on_became_leader, on_losing_leadership, on_schema_updated, on_deinit, on_tx_message,
  on_tcp_transport_is_enabled_changed, on_ftdi_transport_is_enabled_changed, on_is_enabled_changed,
  send_to,
}
use qdp.Broker.Ownership.{handle-Outcome}
use qdp.Broker.Closing.{IsOwned, Outcome-IsOwned, new_message_broker-IsOwned, handle-connect}
use qdp.Broker.Leadership.{idle_job}
use qdp.Broker.Routing.{sends, tx-sends, connect-lookup}
use qdp.Broker.Routes.{
  Route, no_route, routed, routed_all, sent_on, number_of, route, route-≡, number_of-if,
  closed-route, torn-route, tcp-route, ftdi-route, setup-route,
}

module _ {S : Type 0} (db : Store S) where
  connect-route :
      (f e : ℕ) (w : Broker S)
      → w.is_leader ≡ true
      → route f (handle db (job (connect e)) w) ≡ routed f (job (connect e)) (route f w)
  unfolding install make_protocol
  connect-route f e w leader =
      let p = make_protocol db (Store.write_bool db w.store e is_connected true) w.made e in
      let same = handle-connect db e w leader in
      route-≡ (ap Broker.is_leader same)
        (ap Broker.made same ∙ sym (if_true w.is_leader (w.made + 1) w.made leader))
        (ap number_of (connect-lookup db e f w leader)
          ∙ number_of-if (e == f) (some p) (lookup f w.protocols_by_entity)
          ∙ sym (if_true w.is_leader _ _ leader))

  disconnect-route :
      (f e : ℕ) (error : Option Error) (w : Broker S)
      → w.is_leader ≡ true
      → route f (handle db (job (disconnect e error)) w)
        ≡ routed f (job (disconnect e error)) (route f w)
  unfolding handle run_job on_disconnect_job
  disconnect-route f e error w leader =
      ap (route f) (if_true w.is_leader _ _ leader)
      ∙ closed-route e f (record w { store = Store.write_bool db w.store e is_connected false })
      ∙ route-≡ refl refl (sym (if_true w.is_leader _ _ leader))

  -- Without leadership no job changes the route.
  idle-route : (f : ℕ) (j : Job) (r : Route) → r.leads ≡ false → routed f (job j) r ≡ r
  idle-route f (message_rx e) r idle = refl
  idle-route f (message_tx e) r idle = refl
  idle-route f (connect e) r idle =
      route-≡ refl (if_false r.leads _ _ idle) (if_false r.leads _ _ idle)
  idle-route f (disconnect e error) r idle = route-≡ refl refl (if_false r.leads _ _ idle)

  job-route :
      (f : ℕ) (j : Job) (w : Broker S)
      → w.is_leader ≡ true
      → route f (handle db (job j) w) ≡ routed f (job j) (route f w)
  unfolding handle run_job on_message_rx_job on_message_tx_job
  job-route f (message_rx e) w leader = ap (route f) (if_true w.is_leader _ _ leader)
  job-route f (message_tx e) w leader = ap (route f) (if_true w.is_leader _ _ leader)
  job-route f (connect e) w leader = connect-route f e w leader
  job-route f (disconnect e error) w leader = disconnect-route f e error w leader

  job_of-route :
      (f : ℕ) (j : Job) (b : Bool) (w : Broker S)
      → w.is_leader ≡ b
      → route f (handle db (job j) w) ≡ routed f (job j) (route f w)
  job_of-route f j true w leader = job-route f j w leader
  job_of-route f j false w idle =
      ap (route f) (idle_job db j w idle) ∙ sym (idle-route f j (route f w) idle)

  schema-route :
      (f : ℕ) (b : Bool) (w : Broker S)
      → w.is_leader ≡ b
      → IsOwned w
      → route f (handle db schema_updated w) ≡ routed f schema_updated (route f w)
  unfolding handle on_schema_updated
  schema-route f true w leader v =
      ap (route f) (if_true w.is_leader _ _ leader)
      ∙ setup-route db f (teardown w)
      ∙ torn-route f w v.single
      ∙ route-≡ refl refl (sym (if_true w.is_leader _ _ leader))
  schema-route f false w idle v =
      ap (route f) (if_false w.is_leader _ _ idle)
      ∙ route-≡ refl refl (sym (if_false w.is_leader _ _ idle))

  enabled-route :
      (f e : ℕ) (set_up : Broker S → Broker S) (o : Option BrokerProtocol) (w : Broker S)
      → route f (set_up w) ≡ route f w
      → route f (on_is_enabled_changed set_up e true o w) ≡ route f w
  unfolding on_is_enabled_changed
  enabled-route f e set_up none w same = same
  enabled-route f e set_up (some p) w same = refl

  sent-route :
      (f : ℕ) (m : Message) (o : Option BrokerProtocol) (w : Broker S)
      → route f (send_to m o w) ≡ route f w
  unfolding send_to
  sent-route f m none w = refl
  sent-route f m (some p) w = refl

  handle-route :
      (f : ℕ) (e : Event) (w : Broker S)
      → IsOwned w
      → route f (handle db e w) ≡ routed f e (route f w)
  unfolding handle on_became_leader on_losing_leadership on_deinit on_tx_message
      on_tcp_transport_is_enabled_changed on_ftdi_transport_is_enabled_changed on_is_enabled_changed
      close_entity
  handle-route f became_leader w v =
      setup-route db f (teardown (record w { is_leader = true }))
      ∙ torn-route f (record w { is_leader = true }) v.single
  handle-route f losing_leadership w v = torn-route f (record w { is_leader = false }) v.single
  handle-route f schema_updated w v = schema-route f w.is_leader w refl v
  handle-route f deinit w v = torn-route f (record w { cancelled = true }) v.single
  handle-route f (tcp_transport_is_enabled_changed e false) w v = closed-route e f w
  handle-route f (tcp_transport_is_enabled_changed e true) w v =
      enabled-route f e (setup_tcp_transport db e) (lookup e w.protocols_by_entity) w
        (tcp-route db f e w)
  handle-route f (ftdi_transport_is_enabled_changed e false) w v = closed-route e f w
  handle-route f (ftdi_transport_is_enabled_changed e true) w v =
      enabled-route f e (setup_ftdi_transport db e) (lookup e w.protocols_by_entity) w
        (ftdi-route db f e w)
  handle-route f (tx_message_changed title e text) w v =
      sent-route f (record { topic = title; payload = text }) (lookup e w.protocols_by_entity) w
  handle-route f (job j) w v = job_of-route f j w.is_leader w refl

  handle_all-route :
      (f : ℕ) (es : List Event) (w : Broker S)
      → IsOwned w
      → route f (handle_all db es w) ≡ routed_all f es (route f w)
  unfolding handle_all
  handle_all-route f [] w v = refl
  handle_all-route f (e ∷ es) w v =
      handle_all-route f es (handle db e w)
        (Outcome-IsOwned db w (handle db e w) (handle-Outcome db e w) v)
      ∙ ap (routed_all f es) (handle-route f e w v)

  sends-number : (m : Message) (o : Option BrokerProtocol) → sends m o ≡ sent_on m (number_of o)
  sends-number m none = refl
  sends-number m (some p) = refl

  -- After any events of a new broker, whatever its store has, a message that the store reports for a
  -- transport is sent once, to the protocol that the view of the transport alone says, or to none, if
  -- the view has none; no other effect comes of it. For the view, the connection of a transport to a
  -- leader gives it a new protocol, numbered by how many there have been, in place of its last one; its
  -- disconnection, seen by a leader, takes the protocol away, and so do a change of its IsEnabled to
  -- false, a new leadership and its loss, the end of the broker and, for a leader, a change of the
  -- schema; nothing else concerns the view, and no event of another transport but for the count.
  pub handle_all-sends :
      (s : S) (es : List Event) (f : ℕ) (title text : List ℕ)
      → let u = handle_all db es (new_message_broker s) in
        (handle db (tx_message_changed title f text) u).effects
        ≡ sent_on (record { topic = title; payload = text }) (routed_all f es no_route).number
          ++ u.effects
  unfolding new_message_broker lookup
  handle_all-sends s es f title text =
      let m : Message = record { topic = title; payload = text } in
      let u = handle_all db es (new_message_broker s) in
      let o = lookup f u.protocols_by_entity in
      tx-sends db title f text u o refl
      ∙ ap (λ sent. sent ++ u.effects)
          (sends-number m o
            ∙ ap (λ r. sent_on m (Route.number r))
                (handle_all-route f es (new_message_broker s) (new_message_broker-IsOwned db s)))
