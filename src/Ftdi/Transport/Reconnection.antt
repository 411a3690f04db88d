-- ===== src/Ftdi/Transport/Reconnection.antt =====
-- lib/go/transport_ftdi.go: what the connection handler hears of a read error.
use qdp.Base.{
  if_true, if_false, ℕ, ◌≡◌, refl, ap, ◌∙◌, List, [], ◌∷◌, ◌++◌, true, false, ◌&&◌, not, Option,
  none, some,
}
use qdp.Result.{err, eof}
use qdp.Reader.{Reader, read_message, new_message_reader}
use qdp.TcpClient.{on_connect}
use qdp.Ftdi.Endpoint.{EndpointReader, new_endpoint_reader}
use qdp.Ftdi.Usb.{Handle, Bus, ConnectError}
use qdp.Ftdi.Transport.Errors.{
  ForeignErrors, is_usb_disconnect_error, has_no_device, error_text, lower, to_lower, has_prefix,
  contains, contains_any, disconnect_patterns,
}
use qdp.Ftdi.Transport.{
  FtdiTransport, notice, after_connect, connect, close_resources, close_failed, try_reconnect,
  note_usb_error, read_reader, with_reader, read_again, after_read_reconnect, after_read, read_from,
  read, endpoint_read,
}

-- The end of input, and an unreadable message, are not errors of a disconnected device.
eof_not_counted : (foreign : ForeignErrors) → is_usb_disconnect_error foreign eof ≡ false
unfolding is_usb_disconnect_error has_no_device error_text lower to_lower has_prefix contains
    contains_any disconnect_patterns
eof_not_counted foreign = refl

module _ (foreign : ForeignErrors) (usb : ℕ → Bus) where
  connected_again :
      (o : Option ConnectError × List Handle) (c : ℕ) (t : FtdiTransport)
      → t.has_handler ≡ true
      → (after_connect o t).0 ≡ none
      → ((close_failed c (after_connect o t)).0 ≡ none)
        × ((close_failed c (after_connect o t)).1.notices ≡ t.notices ++ (on_connect ∷ []))
        × ((close_failed c (after_connect o t)).1.resources ≡ some t.attempts)
        × ((close_failed c (after_connect o t)).1.endpoints ≡ t.attempts)
        × ((close_failed c (after_connect o t)).1.reader
            ≡ some (new_message_reader new_endpoint_reader))
  unfolding close_failed after_connect notice
  connected_again (some e, live) c t handler good = cc
  connected_again (none, live) c t handler good =
      (refl, if_true t.has_handler _ _ handler, refl, refl, refl)

  read_on :
      (fuel : ℕ) (o : Option ConnectError × FtdiTransport)
      → o.0 ≡ none
      → after_read_reconnect usb fuel o ≡ read_again usb fuel o.1.reader o.1
  unfolding after_read_reconnect
  read_on fuel (some e, t) good = cc
  read_on fuel (none, t) good = refl

  unheard : (t : FtdiTransport) → note_usb_error foreign eof t ≡ t
  unfolding note_usb_error
  unheard t =
      if_false (is_usb_disconnect_error foreign eof && not t.disconnected) _ _
        (ap (λ b. b && not t.disconnected) (eof_not_counted foreign))

  -- When the reader of a transport meets the end of its input, which is what endpointReader makes of
  -- every USB error, and the transport can connect again, then the handler hears of a second connection
  -- and of no disconnection, the transport holds the handles and the endpoints of the new connection, and
  -- ReadMessage goes on with a new reader, whose buffers are empty.
  pub read_eof :
      (fuel : ℕ) (t : FtdiTransport) (r r' : Reader EndpointReader)
      → t.has_handler ≡ true
      → t.reader ≡ some r
      → read_message (endpoint_read (usb t.endpoints).packets) fuel r ≡ some (err eof, r')
      → (connect usb (close_resources (record t { reader = some r' }))).0 ≡ none
      → (t' : FtdiTransport) × (read foreign usb fuel t ≡ read_again usb fuel t'.reader t')
        × (t'.notices ≡ t.notices ++ (on_connect ∷ []))
        × (t'.resources ≡ some t.attempts)
        × (t'.endpoints ≡ t.attempts)
        × (t'.reader ≡ some (new_message_reader new_endpoint_reader))
  unfolding read read_from read_reader with_reader after_read try_reconnect connect close_resources
  read_eof fuel t r r' handler reading ended good =
      let u = record t { reader = some r' } in
      let (again, heard, holds, points, fresh) =
        connected_again _ t.attempts (close_resources u) handler good in
      let t' = (try_reconnect usb u).1 in
      (
        t',
        ap (λ o. read_from foreign usb fuel o t) reading
            ∙ ap (λ o. after_read foreign usb fuel (with_reader t o)) ended
            ∙ ap (λ v. after_read_reconnect usb fuel (try_reconnect usb v)) (unheard u)
            ∙ read_on fuel (try_reconnect usb u) again,
        heard,
        holds,
        points,
        fresh,
      )
