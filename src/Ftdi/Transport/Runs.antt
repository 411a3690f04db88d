-- ===== src/Ftdi/Transport/Runs.antt =====
-- lib/go/transport_ftdi.go: transports on a USB with concrete answers.
use qdp.Base.{◌<◌, ◌≡◌, refl, arith, List, [], ◌∷◌, ◌++◌, length, true, none, some, ◌⊎◌}
use qdp.Result.{invalid_message}
use qdp.Message.Frame.{frame}
use qdp.TcpClient.{on_connect}
use qdp.Ftdi.Config.{default_ftdi_config}
use qdp.Ftdi.Usb.{
  usb_context, connect_usb, open_usb, and_then, acquire, require, open_device, require_valid,
  configure_uart,
}
use qdp.Ftdi.Usb.Handles.{Leaves, open_usb-Leaves}
use qdp.Ftdi.Transport.{
  FtdiTransport, plain_error, new_ftdi_transport, write, read, read_again, after_connect, connect,
  close_resources,
}
use qdp.Ftdi.Transport.Device.{
  usb, foreign, hello, fresh_reader, connected, ended_reader, reader_ends,
}
use qdp.Ftdi.Transport.Resources.{IsAccounted}
use qdp.Ftdi.Transport.Calls.{Call, reading, sending, closing, calls}
use qdp.Ftdi.Transport.Lifetime.{calls-new_ftdi_transport}
use qdp.Ftdi.Transport.Sending.{Delivered, write-Delivered}
use qdp.Ftdi.Transport.Reconnection.{read_eof}

abbrev session : List Call
session = sending hello ∷ reading 4 ∷ reading 4 ∷ closing ∷ []

open_usb-Leaves_example : Leaves 1 [] (open_usb default_ftdi_config (usb 1) 1 (usb_context 1 ∷ []))
open_usb-Leaves_example = open_usb-Leaves 1 [] default_ftdi_config (usb 1)

calls-new_ftdi_transport_example :
    IsAccounted default_ftdi_config usb
      (calls foreign usb session (new_ftdi_transport usb default_ftdi_config true).1)
calls-new_ftdi_transport_example =
    calls-new_ftdi_transport foreign usb default_ftdi_config true session

write-Delivered_example :
    ((length hello.topic ≡ 0)
      × (write foreign usb hello connected ≡ (plain_error invalid_message, connected)))
    ⊎ ((0 < length hello.topic)
        × Delivered usb (frame hello) connected (write foreign usb hello connected))
write-Delivered_example = write-Delivered foreign usb hello connected (omega arith)

connects_again :
    (connect usb (close_resources (record connected { reader = some ended_reader }))).0 ≡ none
unfolding connect close_resources after_connect connect_usb open_usb and_then acquire require
    open_device require_valid configure_uart
connects_again = refl

read_eof_example :
    (t' : FtdiTransport) × (read foreign usb 1 connected ≡ read_again usb 1 t'.reader t')
    × (t'.notices ≡ connected.notices ++ (on_connect ∷ []))
    × (t'.resources ≡ some connected.attempts)
    × (t'.endpoints ≡ connected.attempts)
    × (t'.reader ≡ some fresh_reader)
read_eof_example =
    read_eof foreign usb 1 connected fresh_reader ended_reader refl refl reader_ends connects_again
