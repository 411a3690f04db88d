-- ===== src/Ftdi/Transport/Lifetime.antt =====
-- lib/go/transport_ftdi.go: the handles that are open over the life of a transport.
use qdp.Base.{choose, ℕ, refl, List, Bool, ◌&&◌, not, Option, none, some}
use qdp.Result.{Error}
use qdp.Ftdi.Config.{FtdiConfig}
use qdp.Ftdi.Usb.{Bus, ConnectError}
use qdp.Ftdi.Transport.Errors.{ForeignErrors, is_usb_disconnect_error}
use qdp.Ftdi.Transport.{
  FtdiTransport, notice, connect, with_new_reader, new_transport, new_ftdi_transport,
  note_usb_error, note_success, written_by, note_closed,
}
use qdp.Ftdi.Transport.Calls.{Call, calls, IsKept, calls-Kept}
use qdp.Ftdi.Transport.Resources.{
  IsAccounted, SameHandles, same-IsAccounted, close_resources-IsAccounted,
  try_reconnect-IsAccounted, connect-IsAccounted,
}

note_usb_error-Same :
    (foreign : ForeignErrors) (e : Error) (t : FtdiTransport)
    → SameHandles t (note_usb_error foreign e t)
unfolding note_usb_error notice
note_usb_error-Same foreign e t =
    choose (SameHandles t) (is_usb_disconnect_error foreign e && not t.disconnected)
      (refl, refl, refl, refl) (refl, refl, refl, refl)

note_success-Same : (t : FtdiTransport) → SameHandles t (note_success t)
unfolding note_success notice
note_success-Same t =
    choose (SameHandles t) t.disconnected (refl, refl, refl, refl) (refl, refl, refl, refl)

note_closed-Same : (t : FtdiTransport) → SameHandles t (note_closed t)
unfolding note_closed notice
note_closed-Same t =
    choose (SameHandles t) (t.has_handler && not t.disconnected) (refl, refl, refl, refl)
      (refl, refl, refl, refl)

module _ (foreign : ForeignErrors) (usb : ℕ → Bus) (config : FtdiConfig) where
  IsAccounted-IsKept : IsKept foreign usb (IsAccounted config usb)
  unfolding written_by
  IsAccounted-IsKept = record {
    reading_on = λ t r v. same-IsAccounted config usb (refl, refl, refl, refl) v;
    written_on = λ t bytes v. same-IsAccounted config usb (refl, refl, refl, refl) v;
    cancelling = λ t v. same-IsAccounted config usb (refl, refl, refl, refl) v;
    usb_error = λ t e v. same-IsAccounted config usb (note_usb_error-Same foreign e t) v;
    success = λ t v. same-IsAccounted config usb (note_success-Same t) v;
    closed = λ t v. same-IsAccounted config usb (note_closed-Same t) v;
    released = close_resources-IsAccounted config usb;
    reconnected = try_reconnect-IsAccounted config usb;
  }

  with_new_reader-IsAccounted :
      (o : Option ConnectError × FtdiTransport)
      → IsAccounted config usb o.1
      → IsAccounted config usb (with_new_reader o).1
  unfolding with_new_reader
  with_new_reader-IsAccounted (some e, t) v = same-IsAccounted config usb (refl, refl, refl, refl) v
  with_new_reader-IsAccounted (none, t) v = same-IsAccounted config usb (refl, refl, refl, refl) v

  new_ftdi_transport-IsAccounted :
      (has_handler : Bool) → IsAccounted config usb (new_ftdi_transport usb config has_handler).1
  unfolding new_ftdi_transport new_transport
  new_ftdi_transport-IsAccounted has_handler =
      with_new_reader-IsAccounted (connect usb (new_transport config has_handler)) (
        connect-IsAccounted config usb (new_transport config has_handler)
          (record { config_same = refl; account = refl }) refl)

  -- Whatever calls follow NewFTDITransport, with any USB: the handles that are open are those of the
  -- connection that the transport holds, and for each connection that failed since the UART could not
  -- be configured its interface and its configuration; nothing else stays open, so a connection that
  -- succeeded leaves nothing once it is given up.
  pub calls-new_ftdi_transport :
      (has_handler : Bool) (cs : List Call)
      → IsAccounted config usb (calls foreign usb cs (new_ftdi_transport usb config has_handler).1)
  calls-new_ftdi_transport has_handler cs =
      calls-Kept foreign usb (IsAccounted config usb) IsAccounted-IsKept cs
        (new_ftdi_transport usb config has_handler).1 (new_ftdi_transport-IsAccounted has_handler)
