-- ===== src/System/Returning.antt =====
-- message_broker.go with lib/go/transport_ftdi.go: an FTDI transport that is disabled.
use qdp.Base.{
  choose, ℕ, ◌≡◌, refl, ap, ◌∙◌, ◌==◌, ==-refl, if_true, true, false, ◌&&◌, not, [], ◌∷◌, ◌++◌, map,
  Option, none, some,
}
use qdp.Result.{err, eof}
use qdp.Reader.{Reader, read_message, new_message_reader}
use qdp.TcpClient.{on_connect}
use qdp.Ftdi.Endpoint.{EndpointReader, new_endpoint_reader}
use qdp.Ftdi.Usb.{Bus}
use qdp.Ftdi.Transport.Errors.{ForeignErrors}
use qdp.Ftdi.Transport.{
  FtdiTransport, notice, connect, close_resources, endpoint_read, read, read_again, note_closed,
  close,
}
use qdp.Ftdi.Transport.Reconnection.{read_eof}
use qdp.Broker.{Store, Broker, BrokerProtocol, is_connected, close_protocol}
use qdp.Broker.Protocols.{lookup}
use qdp.Broker.Jobs.{make_protocol, close_found}
use qdp.Broker.Events.{
  job, ftdi_transport_is_enabled_changed, on_ftdi_transport_is_enabled_changed,
  on_is_enabled_changed, handle, handle_all,
}
use qdp.Broker.Routing.{close_found-lookup, connect-lookup}
use qdp.System.{hears, connection_handler, connect_jobs}

-- What Close leaves of a transport as it was.
record Closes (t t' : FtdiTransport) : Type 0 where
  handler_same : t'.has_handler ≡ t.has_handler
  reader_same : t'.reader ≡ t.reader
  endpoints_same : t'.endpoints ≡ t.endpoints
  attempts_same : t'.attempts ≡ t.attempts

close-Closes : (t : FtdiTransport) → Closes t (close t)
unfolding close close_resources note_closed notice
close-Closes t =
    choose (λ (u : FtdiTransport). Closes t (close_resources u))
      (t.has_handler && not t.disconnected)
      (record {
        handler_same = refl;
        reader_same = refl;
        endpoints_same = refl;
        attempts_same = refl;
      })
      (record {
        handler_same = refl;
        reader_same = refl;
        endpoints_same = refl;
        attempts_same = refl;
      })

module _ {S : Type 0} (db : Store S) where
  disabled_found :
      (e : ℕ) (p : BrokerProtocol) (o : Option BrokerProtocol) (w : Broker S)
      → o ≡ some p
      → ((close_found e o w).effects ≡ close_protocol p.number ∷ w.effects)
        × ((close_found e o w).is_leader ≡ w.is_leader)
        × ((close_found e o w).made ≡ w.made)
  unfolding close_found
  disabled_found e p none w found = cc
  disabled_found e p (some q) w found = (ap (λ k. close_protocol k ∷ w.effects) (cc), refl, refl)

module _ {S : Type 0} (db : Store S) (foreign : ForeignErrors) (usb : ℕ → Bus) where
  -- Disabling an FTDI transport, which has a handler and a protocol in the map of a broker that leads,
  -- does not last. The broker closes the protocol and takes it out of the map, and so the transport is
  -- closed. But when ReadMessage is called once more, as a loop of StartReceiving does, and the reader
  -- meets the end of its input, which is what endpointReader makes of the closed endpoint's error, then,
  -- if the transport can connect, it does and holds the handles and the endpoints of the new connection,
  -- its handler hears of a connection and of no further disconnection, ReadMessage goes on with a new
  -- reader, whose buffers are empty, and once the broker has run the job of that connection it has a new
  -- protocol of the transport in the map.
  pub disabled_returns :
      (fuel e : ℕ) (t : FtdiTransport) (r r' : Reader EndpointReader) (w : Broker S)
      (p : BrokerProtocol)
      → w.is_leader ≡ true
      → lookup e w.protocols_by_entity ≡ some p
      → t.has_handler ≡ true
      → t.reader ≡ some r
      → read_message (endpoint_read (usb t.endpoints).packets) fuel r ≡ some (err eof, r')
      → (connect usb (close_resources (record (close t) { reader = some r' }))).0 ≡ none
      → let disabled = handle db (ftdi_transport_is_enabled_changed e false) w in
        let told = handle_all db (map job (hears (connection_handler e) on_connect)) disabled in
        (lookup e disabled.protocols_by_entity ≡ none)
        × (disabled.effects ≡ close_protocol p.number ∷ w.effects)
        × (t' : FtdiTransport) × (read foreign usb fuel (close t)
            ≡ read_again usb fuel t'.reader t')
        × (t'.resources ≡ some t.attempts)
        × (t'.endpoints ≡ t.attempts)
        × (t'.reader ≡ some (new_message_reader new_endpoint_reader))
        × (t'.notices ≡ (close t).notices ++ (on_connect ∷ []))
        × (p' : BrokerProtocol) × (lookup e told.protocols_by_entity ≡ some p')
        × (p'.number ≡ w.made)
  unfolding handle on_ftdi_transport_is_enabled_changed on_is_enabled_changed
  disabled_returns fuel e t r r' w p leader found handler reading ended good =
      let kept = close-Closes t in
      let (t', goes_on, heard, holds, points, fresh) =
        read_eof foreign usb fuel (close t) r r' (kept.handler_same ∙ handler)
          (kept.reader_same ∙ reading)
          (ap (λ c. read_message (endpoint_read (usb c).packets) fuel r) kept.endpoints_same
            ∙ ended)
          good in
      let (closed, leads, counts) =
        disabled_found db e p (lookup e w.protocols_by_entity) w found in
      let disabled = close_found e (lookup e w.protocols_by_entity) w in
      (
        close_found-lookup e e (lookup e w.protocols_by_entity) w refl
            ∙ if_true (e == e) none _ (==-refl e),
        closed,
        t',
        goes_on,
        holds ∙ ap some kept.attempts_same,
        points ∙ kept.attempts_same,
        fresh,
        heard,
        make_protocol db (Store.write_bool db disabled.store e is_connected true) disabled.made e,
        unfold handle_all hears connection_handler connect_jobs in
            (connect-lookup db e e disabled (leads ∙ leader) ∙ if_true (e == e) _ _ (==-refl e)),
        unfold make_protocol in counts,
      )
